-- ===== src/Services/Local.antt =====
-- services/ucsi.rs, fw_mgmt.rs and tpm_stub.rs, and platform/qemu-sp/src/battery.rs: every message is answered.
use odp_secure_services.Ffa.Payload.Codec.{register_at-in_range}
use odp_secure_services.Ffa.Smc.{Monitor}
use odp_secure_services.Services.Total.{respond-RepliesWith}
use odp_secure_services.Ffa.Error.{Error, not_supported, to_u64}
use odp_secure_services.Ffa.Payload.{register_at, IsPayload, slice, payload_len, u8_at}
use odp_secure_services.Ffa.Message.{MsgSendDirectReq2}
use odp_secure_services.Base.Bytes.{
  register_bytes-IsByte, register_bytes, le_bytes-IsByte, le_bytes, IsByte,
}
use odp_secure_services.Base.{
  ltb, err, ok, Result, ◌<◌, [], inl, ◌∷◌, inr, Bool-cases, ◌&&◌, if◌then◌else◌, ◌==◌, Bool,
  All-replicate, All-drop, All-take, All-append, length-replicate, length-drop, length-take, ◌++◌,
  take, ◌-◌, length-append, replicate, drop, true, ◌+◌, arith, leb, ◌≡◌, get_elem?_in_range, ◌≤◌,
  All, length, ℕ, List,
}
use odp_secure_services.Services.Ucsi
use odp_secure_services.Services.FwMgmt
use odp_secure_services.Services.QemuBattery
use odp_secure_services.Base.Options.{Returns-mono, Returns, returns, Returns->>=}
use odp_secure_services.Services.Common.{Handled, respond}
use odp_secure_services.Handler.Reply.{Handles, RepliesWith}
use odp_secure_services.Base.{true, false}

-- 48 bytes.
pub record IsMailbox (m : List ℕ) : Type 0 where
  pub len : length m ≡ 48
  pub bytes : All IsByte m

store-IsMailbox :
    (offset : ℕ) (bs m : List ℕ)
    → IsMailbox m
    → All IsByte bs
    → offset + length bs ≤ 48
    → Returns IsMailbox (Ucsi.store offset bs m)
unfolding Ucsi.store
store-IsMailbox offset bs m v k h =
    let fits : leb (offset + length bs) (length m) ≡ true = ground (arith, v.len) in
    let rest = drop (offset + length bs) m in
    rw fits (
      returns _ (record {
        len = omega (
          arith,
          v.len,
          length-append (take offset m) (bs ++ rest),
          length-append bs rest,
          length-take offset m (omega (arith, v.len)),
          length-drop (offset + length bs) m,
        );
        bytes =
            All-append IsByte (take offset m) (bs ++ rest) (All-take IsByte offset m v.bytes)
              (All-append IsByte bs rest k (All-drop IsByte (offset + length bs) m v.bytes));
      }))

fill_from-IsMailbox :
    (offset : ℕ) (m : List ℕ)
    → IsMailbox m
    → offset ≤ 48
    → Returns IsMailbox (Ucsi.fill_from offset m)
unfolding Ucsi.fill_from
fill_from-IsMailbox offset m v h =
    let fits : leb offset (length m) ≡ true = ground (arith, v.len) in
    let zeros : List ℕ = replicate (length m - offset) 0 in
    rw fits (
      returns _ (record {
        len = omega (
          arith,
          v.len,
          length-append (take offset m) zeros,
          length-take offset m (omega (arith, v.len)),
          length-replicate {A = ℕ} (length m - offset) 0,
        );
        bytes =
            All-append IsByte (take offset m) zeros (All-take IsByte offset m v.bytes)
              (All-replicate IsByte (length m - offset) 0 (omega arith));
      }))

-- MESSAGE IN has up to 16 bytes.
abbrev IsShort : ℕ × List ℕ → Type 0
IsShort (cci, bs) = All IsByte bs × (length bs ≤ 16)

if_IsShort : (b : Bool) (x y : ℕ × List ℕ) → IsShort x → IsShort y → IsShort (if b then x else y)
if_IsShort true x y p q = p
if_IsShort false x y p q = q

answer_of-IsShort : (opcode connector : ℕ) → IsShort (Ucsi.answer_of opcode connector)
unfolding Ucsi.answer_of
answer_of-IsShort opcode connector =
    if_IsShort (opcode == 0x06) _ _ (omega arith, omega arith)
      (if_IsShort ((opcode == 0x07) && (connector == 1)) _ _ (omega arith, omega arith)
        (if_IsShort ((opcode == 0x12) && (connector == 1)) _ _ (omega arith, omega arith)
          (omega arith, omega arith)))

update_mailbox-IsMailbox : (m : List ℕ) → IsMailbox m → Returns IsMailbox (Ucsi.update_mailbox m)
unfolding Ucsi.update_mailbox
update_mailbox-IsMailbox m v =
    let (opcode, e) = get_elem?_in_range m 8 (omega (arith, v.len)) in
    let (connector, e') = get_elem?_in_range m 10 (omega (arith, v.len)) in
    let (bytes, short) = answer_of-IsShort opcode connector in
    rw (e, e')
      (Returns->>= _ (store-IsMailbox 0 (le_bytes 2 0x0120) m v (omega arith) (omega arith))
        λ m1 v1.
          Returns->>= _
            (store-IsMailbox 4 (le_bytes 4 (Ucsi.answer_of opcode connector).0) m1 v1
              (le_bytes-IsByte 4 (Ucsi.answer_of opcode connector).0) (omega arith))
            λ m2 v2. Returns->>= _ (fill_from-IsMailbox 16 m2 v2 (omega arith)) λ m3 v3.
              store-IsMailbox 16 (Ucsi.answer_of opcode connector).1 m3 v3 bytes
                (omega (arith, short)))

-- An answer of a handler whose state is not looked at.
abbrev Replies : {R : Type 0} → MsgSendDirectReq2 → Handled R → Type 0
Replies msg = Returns (λ r. Unit {0} × RepliesWith msg r.1)

respond-Replies :
    {R : Type 0} (msg : MsgSendDirectReq2) (r : R) (bytes : List ℕ)
    → All IsByte bytes
    → length bytes ≤ payload_len
    → Replies msg (respond msg r bytes)
respond-Replies msg r bytes k h =
    Returns-mono (respond-RepliesWith msg r bytes k h) (λ x (same, reply). (tt, reply))

ucsi-Handles : Handles (λ _. Unit {0}) Ucsi.handle
unfolding Ucsi.handle u8_at slice
ucsi-Handles u msg p v =
    let (tag, e) = get_elem?_in_range msg.payload 0 (omega (arith, p.len)) in
    let inside : (leb 1 49 && leb 49 (length msg.payload)) ≡ true = ground (arith, p.len) in
    let mailbox = take 48 (drop 1 msg.payload) in
    let valid : IsMailbox mailbox = record {
      len = length-take 48 (drop 1 msg.payload) (omega (arith, p.len, length-drop 1 msg.payload));
      bytes = All-take IsByte 48 (drop 1 msg.payload) (All-drop IsByte 1 msg.payload p.bytes);
    } in
    rw e (elim (Bool-cases (tag == 0)) [
      | inr elsewhere ↦ rw elsewhere (returns _ (tt, tt))
      | inl here ↦
          rw (here, inside)
            (Returns->>= _ (update_mailbox-IsMailbox mailbox valid)
              (λ m k. respond-Replies msg u m k.bytes (omega (arith, k.len))))
    ])

stub-Handles : Handles (λ _. Unit {0}) FwMgmt.stub_handle
unfolding FwMgmt.stub_handle
stub-Handles u msg p v =
    respond-Replies msg u (register_bytes (to_u64 not_supported ∷ []))
      (register_bytes-IsByte (to_u64 not_supported ∷ [])) (omega arith)

if_Replies :
    {R : Type 0} (msg : MsgSendDirectReq2) (b : Bool) (x y : Handled R)
    → Replies msg x
    → Replies msg y
    → Replies msg (if b then x else y)
if_Replies msg true x y p q = p
if_Replies msg false x y p q = q

register_at-Returns :
    (msg : MsgSendDirectReq2) (i : ℕ)
    → IsPayload msg.payload
    → i < 14
    → Returns (λ _. Unit {0}) (register_at msg.payload i)
register_at-Returns msg i p h =
    rw (register_at-in_range msg.payload i (omega (arith, p.len))) (returns _ tt)

u8_at-Returns :
    (msg : MsgSendDirectReq2) (i : ℕ)
    → IsPayload msg.payload
    → i < payload_len
    → Returns (λ _. Unit {0}) (u8_at msg.payload i)
unfolding u8_at
u8_at-Returns msg i p h =
    let (b, e) = get_elem?_in_range msg.payload i (omega (arith, p.len)) in rw e (returns _ tt)

qemu_battery-Handles : Handles (λ _. Unit {0}) QemuBattery.handle
unfolding QemuBattery.handle QemuBattery.answer_command QemuBattery.bst_rsp_bytes
    QemuBattery.generic_rsp_bytes QemuBattery.get_bst QemuBattery.generic_test
qemu_battery-Handles u msg p v = Returns->>= _ (u8_at-Returns msg 0 p (omega arith)) λ cmd _.
    if_Replies msg (cmd == 2) _ _
      (respond-Replies msg u (QemuBattery.bst_rsp_bytes QemuBattery.get_bst) (omega arith)
        (omega arith))
      (if_Replies msg (ltb 0 cmd && ltb cmd 16) _ _
        (respond-Replies msg u (QemuBattery.generic_rsp_bytes 0) (omega arith) (omega arith))
        (returns _ (tt, tt)))

module _ {W : Type 0} (m : Monitor W) where
  after_exec-Replies :
      {A : Type 0} (msg : MsgSendDirectReq2) (bytes : List ℕ) (r : W × Result Error A)
      → All IsByte bytes
      → length bytes ≤ payload_len
      → Replies msg (FwMgmt.after_exec m msg bytes r)
  after_exec-Replies msg bytes (w, ok a) k h = respond-Replies msg w bytes k h
  after_exec-Replies msg bytes (w, err e) k h = returns _ (tt, tt)

  fw_mgmt-Handles : Handles (λ _. Unit {0}) (FwMgmt.handle m)
  unfolding FwMgmt.handle FwMgmt.serve FwMgmt.process_indirect FwMgmt.map_share FwMgmt.test_notify
      FwMgmt.get_fw_state FwMgmt.get_svc_list FwMgmt.get_bid
  fw_mgmt-Handles w msg p v = Returns->>= _ (u8_at-Returns msg 0 p (omega arith)) λ cmd _.
      if_Replies msg (cmd == 0) _ _
        (Returns->>= _ (u8_at-Returns msg 1 p (omega arith)) λ seq _.
          Returns->>= _ (register_at-Returns msg 4 p (omega arith)) λ rx _.
            Returns->>= _ (register_at-Returns msg 5 p (omega arith)) λ tx _. returns _ (tt, tt))
        (if_Replies msg (cmd == 1) _ _
          (respond-Replies msg w (FwMgmt.fw_state_bytes 0x0100 0 1) (omega arith) (omega arith))
          (if_Replies msg (cmd == 2) _ _
            (respond-Replies msg w (FwMgmt.service_list_bytes 0 1 1 1 1 0 7) (omega arith)
              (omega arith))
            (if_Replies msg (cmd == 3) _ _
              (respond-Replies msg w (FwMgmt.bid_bytes 0 0xdead0001) (omega arith) (omega arith))
              (if_Replies msg (cmd == 4) _ _
                (after_exec-Replies msg (FwMgmt.generic_bytes 0) _ (omega arith) (omega arith))
                (if_Replies msg (cmd == 5) _ _
                  (Returns->>= _ (register_at-Returns msg 1 p (omega arith)) λ address _.
                    Returns->>= _ (register_at-Returns msg 2 p (omega arith)) λ size _.
                      after_exec-Replies msg (FwMgmt.generic_bytes 0) _ (omega arith) (omega arith))
                  (returns _ (tt, tt)))))))

  -- The UCSI service, the firmware management service over any monitor, the stub of the TPM service and
  -- the battery service of the QEMU image answer every message with a payload of 112 bytes, without a
  -- panic, by an error or by a reply that goes back to the sender.
  pub local-Handles :
      Handles (λ _. Unit {0}) Ucsi.handle
      × Handles (λ _. Unit {0}) (FwMgmt.handle m)
      × Handles (λ _. Unit {0}) FwMgmt.stub_handle
      × Handles (λ _. Unit {0}) QemuBattery.handle
  local-Handles = (
    λ u msg p v. ucsi-Handles u msg p v,
    λ w msg p v. fw_mgmt-Handles w msg p v,
    λ u msg p v. stub-Handles u msg p v,
    λ u msg p v. qemu_battery-Handles u msg p v,
  )
