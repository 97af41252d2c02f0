-- ===== src/Ffa/Smc.antt =====
-- odp-ffa/src/smc.rs and the calls of lib.rs: a function is sent by one SMC instruction, and its
-- eighteen result registers are read as a call. The instruction is the parameter `Monitor`.
pub mod Delivery
use odp_secure_services.Base.{
  ℕ, zero, suc, ◌-◌, ◌≡◌, List, ◌∷◌, ◌++◌, Option, some, Result, ok, err, ◌==◌, if◌then◌else◌,
  length, get_or, drop, replicate,
}
use odp_secure_services.Base.Results.{◌>>=◌}
use odp_secure_services.Ffa.Error.{
  Error, error_code, unexpected_function_id, FunctionId, error, success32, success64,
  msg_send_direct_req2, function_id_to_u64, try_parse_function_id, try_parse_error_code,
}
use odp_secure_services.Ffa.Message.{SmcParams, try_from_iter}

-- What `smc #0` does to the world `W`: from x0 and x1 to x17, the registers x0 to x17 afterwards.
pub record Monitor (W : Type 0) : Type 0 where
  pub smc : W → ℕ → SmcParams → W × List ℕ

pub record SmcCall : Type 0 where
  pub id : FunctionId
  pub params : SmcParams

-- `SmcParams { x1: …, ..Default::default() }` with the first registers given.
abbrev pub with_default : List ℕ → SmcParams
with_default xs = xs ++ replicate (17 - length xs) 0

-- `SmcCall::try_from`.
unfoldable pub smc_call_from : List ℕ → Result Error SmcCall
smc_call_from result = do
  id ← try_parse_function_id (get_or result 0 0)
  params ← try_from_iter (drop 1 result)
  ok (record { id = id; params = params })

-- `handle_result_simple`, by the id of the call.
unfoldable pub handle_result_simple :
    {T : Type 0} → FunctionId → SmcParams → (SmcCall → Result Error T) → Result Error T
handle_result_simple success32 params on_success =
    on_success (record { id = success32; params = params })
handle_result_simple success64 params on_success =
    on_success (record { id = success64; params = params })
handle_result_simple msg_send_direct_req2 params on_success =
    on_success (record { id = msg_send_direct_req2; params = params })
handle_result_simple error params on_success =
    try_parse_error_code (get_or params 1 0) >>= λ code. err (error_code code)
handle_result_simple id params on_success = err (unexpected_function_id id)

module _ {W : Type 0} (m : Monitor W) where
  -- `ffa_smc`: parameters that cannot be built make no SMC.
  unfoldable pub ffa_smc : W → FunctionId → Result Error SmcParams → W × Result Error (List ℕ)
  ffa_smc w id (err e) = (w, err e)
  ffa_smc w id (ok params) =
      let (w', result) = m.smc w (function_id_to_u64 id) params in (w', ok result)

  unfoldable pub exec_simple :
      {T : Type 0}
      → W
      → FunctionId
      → Result Error SmcParams
      → (SmcCall → Result Error T)
      → W × Result Error T
  exec_simple w id params on_success =
      let (w', result) = ffa_smc w id params in
      (
        w',
        result >>= λ registers.
            smc_call_from registers >>= λ call. handle_result_simple call.id call.params on_success,
      )

-- `TryFromSmcCall::try_from_smc_call` of the function `id`.
unfoldable pub try_from_smc_call :
    {F : Type 0}
    → FunctionId
    → (SmcParams → Option (Result Error F))
    → SmcCall
    → Option (Result Error F)
try_from_smc_call id try_into smc_call =
    if function_id_to_u64 smc_call.id == function_id_to_u64 id
    then try_into smc_call.params
    else some (err (unexpected_function_id smc_call.id))
