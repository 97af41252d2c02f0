-- ===== src/Notify/Valid.antt =====
-- The well-formedness of the notification tables: the loops over the mappings keep it.
use odp_secure_services.Base.{
  ℕ, suc, ◌%◌, ◌^◌, ◌<◌, ◌≡◌, refl, ◌∙◌, bit_or, List, false, some, Result, ok, err, length, set,
  All, arith, length-set, All-set,
}
use odp_secure_services.Base.Bits.{bit_or-lt, bit_and-le, complement}
use odp_secure_services.Ffa.Error.{ErrorCode}
use odp_secure_services.Notify.Types.{NotifyTuple, NfyMapping, NfyEntry, Notify, empty_mapping}
use odp_secure_services.Notify.Rounds.{
  claim_view, register_one_ok, unregister_one_ok, register_loop_rule, unregister_loop_rule,
}
use odp_secure_services.Notify.Table.{register_one, register_loop, unregister_one, unregister_loop}
use native.Mathlib.Nat.{pow-le-pow_right, pow-suc, one-le-pow}

-- A free mapping has no owner, and every id fits the bitmap.
pub record IsMapping (m : NfyMapping) : Type 0 where
  pub id_lt : m.id < 64
  pub no_owner : m.in_use ≡ false → m.src_id ≡ 0

-- The mappings of one entry beside a bitmap.
pub record IsTable (ms : List NfyMapping) (bitmap : ℕ) : Type 0 where
  pub slots : length ms ≡ 64
  pub mappings : All IsMapping ms
  pub word : bitmap < 2 ^ 64

abbrev pub IsEntry : NfyEntry → Type 0
IsEntry e = (length e.mappings ≡ 64) × All IsMapping e.mappings

pub record IsNotify (n : Notify) : Type 0 where
  pub slots : length n.entries ≡ 16
  pub entries : All IsEntry n.entries
  pub word : n.global_bitmap < 2 ^ 64

abbrev pub TableResult : Result ErrorCode (List NfyMapping × ℕ) → Type 0
TableResult (ok (ms, bitmap)) = IsTable ms bitmap
TableResult (err e) = Unit

pub empty-IsMapping : IsMapping empty_mapping
empty-IsMapping = record { id_lt = omega arith; no_owner = λ h. refl }

pub shift-lt : (id : ℕ) → id < 64 → 2 ^ id < 2 ^ 64
shift-lt id h = omega (
  arith,
  pow-suc 2 id,
  one-le-pow id 2,
  pow-le-pow_right {n = 2} (omega arith) {i = suc id} {j = 64} (omega arith),
)

-- A bound on the shift makes the wrapped shift the plain one.
wrapped_shift-lt : (id : ℕ) → 2 ^ (id % 64) < 2 ^ 64
wrapped_shift-lt id = shift-lt (id % 64) (omega arith)

set-IsTable :
    (ms : List NfyMapping) (i : ℕ) (m : NfyMapping) (bitmap bitmap' : ℕ)
    → IsTable ms bitmap
    → IsMapping m
    → bitmap' < 2 ^ 64
    → IsTable (set ms i m) bitmap'
set-IsTable ms i m bitmap bitmap' v k w = record {
  slots = length-set ms i m ∙ v.slots;
  mappings = All-set IsMapping ms i m k v.mappings;
  word = w;
}

pub register_one-IsTable :
    (old : List NfyMapping) (src_id : ℕ) (t : NotifyTuple) (ms : List NfyMapping) (bitmap : ℕ)
    {ms' : List NfyMapping} {bitmap' : ℕ}
    → IsTable ms bitmap
    → register_one old src_id t ms bitmap ≡ ok (ms', bitmap')
    → IsTable ms' bitmap'
register_one-IsTable old src_id (cookie, id, ntype) ms bitmap v h =
    let (fresh, id_lt, unset, claimed, set_bit) =
      register_one_ok old src_id cookie id ntype ms bitmap h in
    let (i, m, at_i, free, same) = claim_view _ ms claimed in
    rw (same, set_bit)
      (set-IsTable ms i _ bitmap (bit_or bitmap (2 ^ id)) v
        (record { id_lt = id_lt; no_owner = λ e. cc })
        (bit_or-lt 64 bitmap (2 ^ id) v.word (shift-lt id id_lt)))

pub register_loop-IsTable :
    (old : List NfyMapping) (src_id : ℕ) (ts : List NotifyTuple) (ms : List NfyMapping) (bitmap : ℕ)
    {ms' : List NfyMapping} {bitmap' : ℕ}
    → register_loop old src_id ts ms bitmap ≡ ok (ms', bitmap')
    → IsTable ms bitmap
    → IsTable ms' bitmap'
register_loop-IsTable old src_id ts ms bitmap h v =
    register_loop_rule IsTable old src_id
      (λ t ms₁ b₁ ms₂ b₂ e k. register_one-IsTable old src_id t ms₁ b₁ k e) ts ms bitmap h v

pub unregister_one-IsTable :
    (old : List NfyMapping) (src_id : ℕ) (t : NotifyTuple) (ms : List NfyMapping) (bitmap : ℕ)
    {ms' : List NfyMapping} {bitmap' : ℕ}
    → IsTable ms bitmap
    → unregister_one old src_id t ms bitmap ≡ some (ok (ms', bitmap'))
    → IsTable ms' bitmap'
unregister_one-IsTable old src_id (cookie, id, ntype) ms bitmap v h =
    let (i, m, found, at_i, same_id, same_src, same, cleared) =
      unregister_one_ok old src_id cookie id ntype ms bitmap h in
    rw (same, cleared)
      (set-IsTable ms i _ bitmap _ v empty-IsMapping
        (omega (arith, v.word, bit_and-le bitmap bitmap (complement 64 (2 ^ (m.id % 64))))))

pub unregister_loop-IsTable :
    (old : List NfyMapping) (src_id : ℕ) (ts : List NotifyTuple) (ms : List NfyMapping) (bitmap : ℕ)
    {ms' : List NfyMapping} {bitmap' : ℕ}
    → unregister_loop old src_id ts ms bitmap ≡ some (ok (ms', bitmap'))
    → IsTable ms bitmap
    → IsTable ms' bitmap'
unregister_loop-IsTable old src_id ts ms bitmap h v =
    unregister_loop_rule IsTable old src_id
      (λ t ms₁ b₁ ms₂ b₂ e k. unregister_one-IsTable old src_id t ms₁ b₁ k e) ts ms bitmap h v
