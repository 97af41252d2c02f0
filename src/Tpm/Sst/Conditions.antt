-- ===== src/Tpm/Sst/Conditions.antt =====
-- tpm_sst.rs: what a wait for register bits and a read of the burst count find.
use odp_secure_services.Tpm.Registers.{is_ok}
use odp_secure_services.Tpm.Sst.Board.{TpmSst, Board}
use odp_secure_services.Ffa.Error.{ErrorCode}
use odp_secure_services.Tpm.Sst.Poll.{read_register, bits_match}
use odp_secure_services.Base.{
  refl, err, ◌≢◌, arith, bit_and, ◌<◌, none, false, true, ◌==◌, ok, some, ◌≡◌, if◌then◌else◌,
  Result, Bool, ℕ,
}

pub bits_match_iff :
    (bit_set bit_clear v : ℕ)
    → bits_match bit_set bit_clear v ≡ true
    → (bit_and v bit_set ≡ bit_set) × (bit_and v bit_clear ≡ 0)
unfolding bits_match
bits_match_iff bit_set bit_clear v e = ground arith

pub is_ok-eq : (c : ErrorCode) → is_ok c ≡ true → c ≡ ErrorCode.ok
is_ok-eq c e = grind arith

pub is_ok-ne : (c : ErrorCode) → is_ok c ≡ false → c ≢ ErrorCode.ok
is_ok-ne c e h = grind arith

pub if_some :
    {A : Type 0} (a : A) {u : A} (t : Bool) → (if t then some a else none) ≡ some u → t ≡ true
if_some a true e = refl
if_some a false e = ground arith

-- A burst that is read is not empty, and no burst is a timeout.
abbrev pub IsBurst : Result ErrorCode ℕ → Type 0
IsBurst (ok n) = 0 < n
IsBurst (err e) = e ≡ ErrorCode.denied

pub if_none : {A : Type 0} (a : A) (t : Bool) → (if t then some a else none) ≡ none → t ≡ false
if_none a true e = ground arith
if_none a false e = refl

pub nonzero_some : (x n : ℕ) → (if x == 0 then none else some x) ≡ some n → 0 < n
nonzero_some x n e = ground arith

-- The register held the bits in the last read.
abbrev pub Held : {W : Type 0} → Board W → TpmSst → ℕ → ℕ → ℕ → W → Type 0
Held {W} b sst register bit_set bit_clear w' =
    (w : W) × (v : ℕ) × (read_register b sst register w ≡ (w', v))
    × (bit_and v bit_set ≡ bit_set)
    × (bit_and v bit_clear ≡ 0)
