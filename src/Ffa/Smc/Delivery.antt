-- ===== src/Ffa/Smc/Delivery.antt =====
-- What `exec` returns, by the registers that the SMC leaves.
use odp_secure_services.Base.{
  ℕ, ◌≡◌, ◌↔◌, refl, ap, ◌∙◌, List, [], ◌∷◌, Result, ok, length, get_or, arith, Result-cases, inl,
  inr,
}
use mathlib.Core.Path.{subst}
use odp_secure_services.Base.Results.{◌>>=◌}
use odp_secure_services.Ffa.Error.{
  Error, FunctionId, error, success32, success64, msg_send_direct_req2, function_id_to_u64,
  try_parse_error_code, try_parse_function_id, try_parse_function_id-to_u64,
  try_parse_function_id-value,
}
use odp_secure_services.Ffa.Message.{SmcParams}
use odp_secure_services.Ffa.Message.RoundTrip.{try_from_iter_all}
use odp_secure_services.Ffa.Smc.{
  Monitor, SmcCall, smc_call_from, handle_result_simple, ffa_smc, exec_simple,
}

-- The calls that a function may return: a success, or the next direct request.
abbrev pub IsDelivered : FunctionId → Type 0
IsDelivered success32 = Unit
IsDelivered success64 = Unit
IsDelivered msg_send_direct_req2 = Unit
IsDelivered _ = ⊥

handle_result_simple-IsDelivered :
    (id : FunctionId) (params : SmcParams)
    → IsDelivered id
    → handle_result_simple id params ok ≡ ok (record { id = id; params = params })
unfolding handle_result_simple
handle_result_simple-IsDelivered success32 params d = refl
handle_result_simple-IsDelivered success64 params d = refl
handle_result_simple-IsDelivered msg_send_direct_req2 params d = refl
handle_result_simple-IsDelivered _ params d = absurd d

handle_result_simple-eq_ok :
    (id : FunctionId) (params : SmcParams) {c : SmcCall}
    → handle_result_simple id params ok ≡ ok c
    → (record { id = id; params = params } ≡ c) × IsDelivered id
unfolding handle_result_simple
handle_result_simple-eq_ok success32 params h = (cc, tt)
handle_result_simple-eq_ok success64 params h = (cc, tt)
handle_result_simple-eq_ok msg_send_direct_req2 params h = (cc, tt)
handle_result_simple-eq_ok error params h =
    elim (Result-cases (try_parse_error_code (get_or params 1 0))) [
      | inl (code, e) ↦ absurd (ground (arith, e))
      | inr (x, e) ↦ absurd (ground (arith, e))
    ]
handle_result_simple-eq_ok _ params h = absurd (cc)

-- The registers of a call.
abbrev pub registers : SmcCall → List ℕ
registers c = function_id_to_u64 c.id ∷ c.params

smc_call_from-registers :
    (result : List ℕ) {c : SmcCall}
    → length result ≡ 18
    → smc_call_from result ≡ ok c
    → result ≡ registers c
unfolding smc_call_from
smc_call_from-registers [] len h = absurd (omega arith)
smc_call_from-registers (x ∷ xs) {c} len h = elim (Result-cases (try_parse_function_id x)) [
  | inr (e, bad) ↦ absurd (ground (arith, bad))
  | inl (f, good) ↦
      ground (arith, good, try_parse_function_id-value x f good, try_from_iter_all xs (omega arith))
]

registers-smc_call_from : (c : SmcCall) → length c.params ≡ 17 → smc_call_from (registers c) ≡ ok c
unfolding smc_call_from
registers-smc_call_from c len =
    rw (try_parse_function_id-to_u64 c.id) (rw (try_from_iter_all c.params len))

abbrev delivered : List ℕ → Result Error SmcCall
delivered result = smc_call_from result >>= λ call. handle_result_simple call.id call.params ok

delivered-registers :
    (result : List ℕ) (c : SmcCall)
    → length result ≡ 18
    → delivered result ≡ ok c
    → (result ≡ registers c) × IsDelivered c.id
delivered-registers result c len h = elim (Result-cases (smc_call_from result)) [
  | inr (e, bad) ↦
      absurd (
        cc (h, ap (λ r. r >>= λ (call : SmcCall). handle_result_simple call.id call.params ok) bad))
  | inl (call, good) ↦
      let (same, d) = handle_result_simple-eq_ok call.id call.params (rw good at h) in
      subst (λ (k : SmcCall). (result ≡ registers k) × IsDelivered k.id) same
        (smc_call_from-registers result len good, d)
]

registers-delivered :
    (c : SmcCall) → length c.params ≡ 17 → IsDelivered c.id → delivered (registers c) ≡ ok c
registers-delivered c len d =
    rw (registers-smc_call_from c len) (handle_result_simple-IsDelivered c.id c.params d)

module _ {W : Type 0} (m : Monitor W) where
  -- Where the SMC leaves eighteen registers, a function that returns the call itself returns `c`
  -- exactly if the registers are those of `c` and its id is a success or a direct request.
  pub exec_simple-registers :
      (w : W) (id : FunctionId) (params : SmcParams) (c : SmcCall)
      → length (m.smc w (function_id_to_u64 id) params).1 ≡ 18
      → ((exec_simple m w id (ok params) ok).1 ≡ ok c)
        ↔ (((m.smc w (function_id_to_u64 id) params).1 ≡ registers c) × IsDelivered c.id)
  unfolding exec_simple ffa_smc
  exec_simple-registers w id params c len = (
    delivered-registers (m.smc w (function_id_to_u64 id) params).1 c len,
    λ h.
        let n : length c.params ≡ 17 = omega (arith, len, ap length h.0) in
        ap delivered h.0 ∙ registers-delivered c n h.1,
  )
