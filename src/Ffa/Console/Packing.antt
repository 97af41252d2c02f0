-- ===== src/Ffa/Console/Packing.antt =====
-- The characters of a ConsoleLog call are read back from its registers.
use odp_secure_services.Ffa.Message.RoundTrip.{try_from_iter_short}
use odp_secure_services.Base.{
  length-drop, length-replicate, length-take, length-append, take-append, sym, take-append-drop,
  All-drop, All-take, inr, replicate-append, All-replicate, drop_all, All-append, inl, le_cases,
  take_all, ℕ, zero, suc, ◌+◌, ◌-◌, ◌*◌, ◌/◌, ◌≤◌, ◌≡◌, refl, ap, ap₂, ◌∙◌, List, [], ◌∷◌, ◌++◌, ok,
  min, length, take, drop, replicate, All, arith,
}
use odp_secure_services.Base.Bytes.{
  IsByte, le_bytes, from_le_bytes, register_bytes, le_bytes-from_le_bytes,
}
use odp_secure_services.Ffa.Message.{SmcParams}
use odp_secure_services.Ffa.Functions.Setup.{x1}
use odp_secure_services.Ffa.Console.{buffer, char_data, console_params}
use mathlib.Core.List.{append-nil, append_assoc}

-- The characters that a call carries: x1 says how many.
abbrev pub call_chars : SmcParams → List ℕ
call_chars params = take (x1 params) (register_bytes (drop 1 params))

buffer_eq : (c : List ℕ) → length c ≤ 8 → buffer c ≡ c ++ replicate (8 - length c) 0
buffer_eq c h =
    let all : min 8 (length c) ≡ length c = omega arith in
    rw (all, take_all (length c) c (omega arith))

buffer_bytes :
    (c : List ℕ) → length c ≤ 8 → All IsByte c → le_bytes 8 (from_le_bytes (buffer c)) ≡ buffer c
buffer_bytes c h k =
    let padded = c ++ replicate (8 - length c) 0 in
    let eight : length padded ≡ 8 = omega (
      arith,
      length-append c (replicate (8 - length c) 0),
      length-replicate {A = ℕ} (8 - length c) 0,
    ) in
    let bytes : All IsByte padded =
      All-append IsByte c _ k (All-replicate IsByte (8 - length c) 0 (omega arith)) in
    rw (buffer_eq c h) (rw eight at (le_bytes-from_le_bytes padded bytes))

register_bytes-char_data :
    (n : ℕ) (bs : List ℕ)
    → length bs ≤ n * 8
    → All IsByte bs
    → register_bytes (char_data n bs) ≡ bs ++ replicate (n * 8 - length bs) 0
register_bytes-char_data zero [] h k = refl
register_bytes-char_data zero (b ∷ bs) h k = absurd (omega arith)
register_bytes-char_data (suc n) bs h k = elim (le_cases (length bs) 8) [
  | inl short ↦
      let whole : take 8 bs ≡ bs = take_all 8 bs short in
      let rest : drop 8 bs ≡ [] = drop_all 8 bs short in
      let first : le_bytes 8 (from_le_bytes (buffer (take 8 bs)))
          ≡ bs ++ replicate (8 - length bs) 0 =
        rw whole (buffer_bytes bs short k ∙ buffer_eq bs short) in
      let second : register_bytes (char_data n (drop 8 bs)) ≡ replicate (n * 8 - 0) 0 =
        rw rest (register_bytes-char_data n [] (omega arith) tt) in
      ap₂ ◌++◌ first second
      ∙ (append_assoc bs _ _
          ∙ ap (λ z. bs ++ z)
              (replicate-append (8 - length bs) (n * 8 - 0) (suc n * 8 - length bs) 0
                (omega arith)))
  | inr long ↦
      let eight : length (take 8 bs) ≡ 8 = length-take 8 bs (omega arith) in
      let count : n * 8 - length (drop 8 bs) ≡ suc n * 8 - length bs =
        omega (arith, length-drop 8 bs) in
      let first : le_bytes 8 (from_le_bytes (buffer (take 8 bs))) ≡ take 8 bs =
        buffer_bytes (take 8 bs) (omega arith) (All-take IsByte 8 bs k)
        ∙ (buffer_eq (take 8 bs) (omega arith) ∙ rw eight (append-nil (take 8 bs))) in
      let second : register_bytes (char_data n (drop 8 bs))
          ≡ drop 8 bs ++ replicate (suc n * 8 - length bs) 0 =
        rw (← count) (
          register_bytes-char_data n (drop 8 bs) (omega (arith, length-drop 8 bs))
            (All-drop IsByte 8 bs k)) in
      ap₂ ◌++◌ first second
      ∙ (sym (append_assoc (take 8 bs) (drop 8 bs) _)
          ∙ ap (λ l. l ++ replicate (suc n * 8 - length bs) 0) (take-append-drop 8 bs))
]

length-char_data : (n : ℕ) (bs : List ℕ) → length (char_data n bs) ≡ n
length-char_data zero bs = refl
length-char_data (suc n) bs = ap suc (length-char_data n (drop 8 bs))

register_bytes-append :
    (xs ys : List ℕ) → register_bytes (xs ++ ys) ≡ register_bytes xs ++ register_bytes ys
register_bytes-append [] ys = refl
register_bytes-append (x ∷ xs) ys =
    ap (λ l. le_bytes 8 x ++ l) (register_bytes-append xs ys)
    ∙ sym (append_assoc (le_bytes 8 x) (register_bytes xs) (register_bytes ys))

-- Up to 128 characters make a call that carries them.
pub console_params-chars :
    (bs : List ℕ)
    → length bs ≤ 128
    → All IsByte bs
    → (ps : SmcParams) × (console_params bs ≡ ok ps) × (call_chars ps ≡ bs) × (x1 ps ≡ length bs)
unfolding console_params
console_params-chars bs h k =
    let n = (length bs + 7) / 8 in
    let registers = length bs ∷ char_data n bs in
    let count : length registers ≤ 17 = omega (arith, length-char_data n bs) in
    let zeros : List ℕ = replicate (17 - length registers) 0 in
    let bytes : register_bytes (char_data n bs ++ zeros)
        ≡ bs ++ (replicate (n * 8 - length bs) 0 ++ register_bytes zeros) =
      register_bytes-append (char_data n bs) zeros
      ∙ (ap (λ l. l ++ register_bytes zeros) (register_bytes-char_data n bs (omega arith) k)
          ∙ append_assoc bs (replicate (n * 8 - length bs) 0) (register_bytes zeros)) in
    (
      registers ++ zeros,
      try_from_iter_short registers count,
      ap (take (length bs)) bytes ∙ take-append bs _,
      refl,
    )
