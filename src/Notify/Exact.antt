-- ===== src/Notify/Exact.antt =====
-- The bitmap and the mappings agree: bit `k` is set exactly if one mapping in use holds id `k`, and
-- no two mappings hold one id.
use odp_secure_services.Base.{
  ℕ, ◌+◌, ◌%◌, ◌^◌, ◌<◌, ◌≡◌, ◌≢◌, sym, ◌∙◌, inl, inr, bit_and, bit_or, List, true, some, ok, arith,
  ◌==◌, if◌then◌else◌, Bool-cases, All-get_elem?,
}
use odp_secure_services.Base.Bits.{
  test_bit, complement, test_bit-or, test_bit-and, test_bit_le, test_bit-pow, test_bit-complement,
  bit_and-pow,
}
use odp_secure_services.Notify.Types.{NotifyTuple, NfyMapping, Notify, empty_mapping}
use odp_secure_services.Notify.Table.{register_one, unregister_one}
use odp_secure_services.Notify.Rounds.{claim_view, register_one_ok, unregister_one_ok}
use odp_secure_services.Notify.Valid.{
  IsMapping, IsTable, IsNotify, register_one-IsTable, unregister_one-IsTable, shift-lt,
}
use odp_secure_services.Notify.Count.{count_id, total, count_id-set}
use native.Mathlib.Nat.{one-le-pow}

pub record IsExact (n : Notify) : Type 0 where
  pub valid : IsNotify n
  pub bits : (k : ℕ) → k < 64 → total k n.entries ≡ test_bit n.global_bitmap k

-- The same during a loop: `others k` counts the holders of `k` outside the entry at hand.
pub record Agrees (others : ℕ → ℕ) (ms : List NfyMapping) (bitmap : ℕ) : Type 0 where
  pub table : IsTable ms bitmap
  pub bits : (k : ℕ) → k < 64 → others k + count_id k ms ≡ test_bit bitmap k

clear_bit : (bitmap id : ℕ) → bit_and bitmap (2 ^ id) ≡ 0 → test_bit bitmap id ≡ 0
clear_bit bitmap id h = grind (arith, bit_and-pow bitmap id, one-le-pow id 2)

-- Setting a bit that was clear.
test_bit-set :
    (bitmap id k : ℕ)
    → bit_and bitmap (2 ^ id) ≡ 0
    → test_bit (bit_or bitmap (2 ^ id)) k ≡ test_bit bitmap k + (if id == k then 1 else 0)
test_bit-set bitmap id k h =
    ground (arith, clear_bit bitmap id h, test_bit-or bitmap (2 ^ id) k, test_bit-pow id k)

-- Clearing a bit leaves the others.
pub test_bit-clear :
    (bitmap id k : ℕ)
    → id < 64
    → k < 64
    → test_bit (bit_and bitmap (complement 64 (2 ^ id))) k
      ≡ (if id == k then 0 else test_bit bitmap k)
test_bit-clear bitmap id k h w = ground (
  arith,
  test_bit-and bitmap (complement 64 (2 ^ id)) k,
  test_bit-complement 64 (2 ^ id) k (shift-lt id h) w,
  test_bit-pow id k,
  test_bit_le bitmap k,
)

module _ (others : ℕ → ℕ) (old : List NfyMapping) (src_id : ℕ) where
  pub register_one-Agrees :
      (t : NotifyTuple) (ms : List NfyMapping) (bitmap : ℕ) (ms' : List NfyMapping) (bitmap' : ℕ)
      → register_one old src_id t ms bitmap ≡ ok (ms', bitmap')
      → Agrees others ms bitmap
      → Agrees others ms' bitmap'
  register_one-Agrees (cookie, id, ntype) ms bitmap ms' bitmap' h v =
      let (fresh, id_lt, unset, claimed, set_bit) =
        register_one_ok old src_id cookie id ntype ms bitmap h in
      let (i, m, at_i, free, same) = claim_view _ ms claimed in
      record {
        table = register_one-IsTable old src_id (cookie, id, ntype) ms bitmap v.table h;
        bits = λ k w.
            rw (same, set_bit)
              (ground (
                arith,
                free,
                v.bits k w,
                count_id-set k ms i
                    (record {
                      cookie = cookie;
                      id = id;
                      ntype = ntype;
                      src_id = src_id;
                      in_use = true;
                    })
                    at_i,
                test_bit-set bitmap id k unset,
              ));
      }

  pub unregister_one-Agrees :
      src_id ≢ 0
      → (t : NotifyTuple) (ms : List NfyMapping) (bitmap : ℕ) (ms' : List NfyMapping) (bitmap' : ℕ)
      → unregister_one old src_id t ms bitmap ≡ some (ok (ms', bitmap'))
      → Agrees others ms bitmap
      → Agrees others ms' bitmap'
  unregister_one-Agrees owned (cookie, id, ntype) ms bitmap ms' bitmap' h v =
      let (i, m, found, at_i, same_id, same_src, same, cleared) =
        unregister_one_ok old src_id cookie id ntype ms bitmap h in
      let good : IsMapping m = All-get_elem? IsMapping ms i v.table.mappings at_i in
      let used : m.in_use ≡ true = elim (Bool-cases m.in_use) [
        | inl e ↦ e
        | inr e ↦ absurd (owned (sym same_src ∙ good.no_owner e))
      ] in
      let plain : m.id % 64 ≡ m.id = omega (arith, good.id_lt) in
      record {
        table = unregister_one-IsTable old src_id (cookie, id, ntype) ms bitmap v.table h;
        bits = λ k w.
            rw (same, cleared, plain)
              (ground (
                arith,
                used,
                v.bits k w,
                count_id-set k ms i empty_mapping at_i,
                test_bit-clear bitmap m.id k good.id_lt w,
                test_bit_le bitmap k,
              ));
      }
