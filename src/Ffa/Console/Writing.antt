-- ===== src/Ffa/Console/Writing.antt =====
-- What `write_str` sends: the text, once and in order.
use odp_secure_services.Base.Options.{Returns-mono, returns, Returns}
use odp_secure_services.Ffa.Functions.Setup.{x1}
use odp_secure_services.Base.Bytes.{IsByte}
use odp_secure_services.Ffa.Console.Packing.{console_params-chars, call_chars}
use odp_secure_services.Ffa.Error.{console_log, function_id_to_u64}
use odp_secure_services.Ffa.Console.{console_new, write_str, write_loop, console_exec}
use odp_secure_services.Ffa.Message.{SmcParams}
use odp_secure_services.Ffa.Smc.{ffa_smc, exec_simple, Monitor}
use odp_secure_services.Base.{
  ◌∙◌, All-drop, length-drop, inl, Result-cases, take-append-drop, ap, All-take, length-take, drop,
  take, min, zero, suc, arith, [], inr, ◌⊎◌, refl, err, ◌++◌, ◌≤◌, ◌≡◌, All, length, Result, ◌∷◌,
  List, ℕ,
}
use mathlib.Core.List.{append_assoc, append-nil}

-- Of a text that is not empty a call takes the first 128 bytes.
console_new-split :
    (b : ℕ) (bs : List ℕ)
    → console_new (b ∷ bs) ≡ (b ∷ take (min 127 (length bs)) bs, drop (min 127 (length bs)) bs)
unfolding console_new
console_new-split b bs =
    let mid : min 128 (suc (length bs)) ≡ suc (min 127 (length bs)) = omega arith in rw mid

module _ {W : Type 0} (m : Monitor W) where
  -- One ConsoleLog call.
  abbrev send : W → SmcParams → W
  send w ps = (m.smc w (function_id_to_u64 console_log) ps).0

  abbrev pub sends : W → List SmcParams → W
  sends w [] = w
  sends w (ps ∷ rest) = sends (send w ps) rest

  abbrev pub chars : List SmcParams → List ℕ
  chars [] = []
  chars (ps ∷ rest) = call_chars ps ++ chars rest

  console_exec-sends :
      (w : W) (b : ℕ) (bs : List ℕ)
      → length (b ∷ bs) ≤ 128
      → All IsByte (b ∷ bs)
      → (ps : SmcParams) × ((console_exec m w (b ∷ bs)).0 ≡ send w ps)
        × (call_chars ps ≡ b ∷ bs)
        × (x1 ps ≡ length (b ∷ bs))
  unfolding console_exec exec_simple ffa_smc
  console_exec-sends w b bs h k =
      let (ps, good, same, count) = console_params-chars (b ∷ bs) h k in
      (ps, rw good refl, same, count)

  -- What a run of the loop from `w` with `s` left leaves.
  abbrev Sent : W → List ℕ → W × Result (Unit {0}) (Unit {0}) → Type 0
  Sent w s r =
      (calls : List SmcParams) × (rest : List ℕ) × (r.0 ≡ sends w calls)
      × (chars calls ++ rest ≡ s)
      × All (λ ps. x1 ps ≤ 128) calls
      × ((r.1 ≡ err tt) ⊎ (rest ≡ []))

  write_loop-Sent :
      (fuel : ℕ) (w : W) (s : List ℕ)
      → length s ≤ fuel
      → All IsByte s
      → Returns (Sent w s) (write_loop m fuel w s)
  unfolding write_loop
  write_loop-Sent fuel w [] h k = returns _ ([], [], refl, refl, tt, inr refl)
  write_loop-Sent zero w (b ∷ bs) h k = absurd (omega arith)
  write_loop-Sent (suc fuel) w (b ∷ bs) h k =
      let n = min 127 (length bs) in
      let left = drop n bs in
      let n_le : n ≤ length bs = omega arith in
      let (ps, state, same, count) =
        console_exec-sends w b (take n bs) (omega (arith, length-take n bs n_le))
          (k.0, All-take IsByte n bs k.1) in
      let whole : call_chars ps ++ left ≡ b ∷ bs =
        rw same (ap (λ l. b ∷ l) (take-append-drop n bs)) in
      let small : x1 ps ≤ 128 = omega (arith, length-take n bs n_le) in
      rw (console_new-split b bs) (elim (Result-cases (console_exec m w (b ∷ take n bs)).1) [
        | inr (e, bad) ↦
            rw bad (returns _ (ps ∷ [], left, state, rw append-nil whole, (small, tt), inl refl))
        | inl (u, good) ↦ rw good (
            Returns-mono
              (write_loop-Sent fuel (console_exec m w (b ∷ take n bs)).0 left
                (omega (arith, length-drop n bs)) (All-drop IsByte n bs k.1))
              (λ r (calls, rest, after, text, sizes, last). (
                ps ∷ calls,
                rest,
                after ∙ ap (λ v. sends v calls) state,
                append_assoc (call_chars ps) (chars calls) rest
                    ∙ (ap (λ l. call_chars ps ++ l) text ∙ whole),
                (small, sizes),
                last,
              )))
      ])

  -- Writing text ends without a panic. The ConsoleLog calls that it makes carry up to 128 characters
  -- each, and together the text from its start on, every byte once and in order; they carry all of
  -- it unless the writer reports an error.
  pub write_str-sends :
      (w : W) (s : List ℕ)
      → All IsByte s
      → Returns
          (λ r.
            (calls : List SmcParams) × (rest : List ℕ) × (r.0 ≡ sends w calls)
            × (chars calls ++ rest ≡ s)
            × All (λ ps. x1 ps ≤ 128) calls
            × ((r.1 ≡ err tt) ⊎ (rest ≡ [])))
          (write_str m w s)
  unfolding write_str
  write_str-sends w s k = write_loop-Sent (length s) w s (omega arith) k
