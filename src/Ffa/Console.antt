-- ===== src/Ffa/Console.antt =====
-- odp-ffa/src/function/console.rs: text goes out in ConsoleLog calls of up to 128 characters.
pub mod Packing
pub mod Writing
use odp_secure_services.Base.{
  ℕ, zero, suc, ◌+◌, ◌-◌, ◌/◌, List, [], ◌∷◌, ◌++◌, Option, none, some, Result, ok, err, min,
  length, take, drop, replicate,
}
use odp_secure_services.Base.Bytes.{from_le_bytes}
use odp_secure_services.Ffa.Error.{Error, console_log}
use odp_secure_services.Ffa.Message.{SmcParams, try_from_iter}
use odp_secure_services.Ffa.Smc.{Monitor, exec_simple}

abbrev pub ffa_max_char_count : ℕ
ffa_max_char_count = 128

-- `Console::new`: the bytes of one call and what remains.
unfoldable pub console_new : List ℕ → List ℕ × List ℕ
console_new bytes =
    let mid = min ffa_max_char_count (length bytes) in (take mid bytes, drop mid bytes)

-- A chunk of up to eight bytes in a buffer of eight.
abbrev pub buffer : List ℕ → List ℕ
buffer c = let len = min 8 (length c) in take len c ++ replicate (8 - len) 0

-- `n` chunks of `bytes.chunks(8)`, each as a register.
abbrev pub char_data : ℕ → List ℕ → List ℕ
char_data zero bytes = []
char_data (suc n) bytes = from_le_bytes (buffer (take 8 bytes)) ∷ char_data n (drop 8 bytes)

unfoldable pub console_params : List ℕ → Result Error SmcParams
console_params bytes = try_from_iter (length bytes ∷ char_data ((length bytes + 7) / 8) bytes)

-- `console.exec().map_err(|_| fmt::Error)?`, and what follows it.
abbrev pub after_call :
    {W : Type 0}
    → W × Result Error (Unit {0})
    → (W → Option (W × Result (Unit {0}) (Unit {0})))
    → Option (W × Result (Unit {0}) (Unit {0}))
after_call (w, ok _) next = next w
after_call (w, err _) next = some (w, err tt)

module _ {W : Type 0} (m : Monitor W) where
  -- `Console::exec`: no bytes make no call.
  unfoldable pub console_exec : W → List ℕ → W × Result Error (Unit {0})
  console_exec w [] = (w, ok tt)
  console_exec w (b ∷ bs) = exec_simple m w console_log (console_params (b ∷ bs)) (λ _. ok tt)

  -- The loop of `ConsoleWriter::write_str`, on fuel: `none` is a loop that has not ended.
  -- The error is the `fmt::Error` that a refused call becomes.
  unfoldable pub write_loop : ℕ → W → List ℕ → Option (W × Result (Unit {0}) (Unit {0}))
  write_loop fuel w [] = some (w, ok tt)
  write_loop zero w (b ∷ bs) = none
  write_loop (suc fuel) w (b ∷ bs) =
      let (bytes, remaining) = console_new (b ∷ bs) in
      after_call (console_exec w bytes) (λ w'. write_loop fuel w' remaining)

  -- A round takes a byte at least, so `length s` rounds are enough.
  unfoldable pub write_str : W → List ℕ → Option (W × Result (Unit {0}) (Unit {0}))
  unfolding write_loop
  write_str w s = write_loop (length s) w s
