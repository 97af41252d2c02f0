-- ===== src/Services/Mailbox.antt =====
-- services/ucsi.rs: what an answer writes to the mailbox, and what it keeps of it.
use odp_secure_services.Ffa.Payload.{u8_at}
use odp_secure_services.Ffa.Payload.Codec.{from_iter-fills}
use odp_secure_services.Base.Bytes.{le_bytes}
use odp_secure_services.Services.Common.{respond}
use odp_secure_services.Ffa.Message.{from_req_with_payload, MsgSendDirectReq2}
use odp_secure_services.Base.{
  ok, ◌&&◌, ◌==◌, if_split, ◌%◌, ◌/◌, refl, arith, [], some, ap, ◌∷◌, ◌-◌, ◌≡◌, replicate, length,
  get_elem?, ◌++◌, ℕ, List,
}
use odp_secure_services.Services.Ucsi.{
  handle, update_mailbox, connector_status_message_in, connector_capability_message_in,
  capability_message_in, answer_of,
}
use odp_secure_services.Services.Fields.{
  laid, IsLaid, store-version, store-cci, fill_from-messages, store-message_in, get-control,
  length-laid, slice-mailbox,
}

-- MESSAGE IN of an answer and the zeros behind it, up to the end of the mailbox.
abbrev padded : List ℕ → List ℕ
padded message_in = message_in ++ replicate (32 - length message_in) 0

-- An answer is one of four.
answer_of-cases :
    (P : ℕ × List ℕ → Type 0) (opcode connector : ℕ)
    → P (0x80001000, capability_message_in)
    → P (0x80000200, connector_capability_message_in)
    → P (0x80000B00, connector_status_message_in)
    → P (0x02000000, [])
    → P (answer_of opcode connector)
unfolding answer_of
answer_of-cases P opcode connector p q r s =
    if_split P (opcode == 0x06) (λ _. p)
      (λ _.
        if_split P ((opcode == 0x07) && (connector == 1)) (λ _. q)
          (λ _. if_split P ((opcode == 0x12) && (connector == 1)) (λ _. r) (λ _. s)))

padded-length : (opcode connector : ℕ) → length (padded (answer_of opcode connector).1) ≡ 32
padded-length opcode connector =
    answer_of-cases (λ x. length (padded x.1) ≡ 32) opcode connector refl refl refl refl

-- CCI holds the length of MESSAGE IN in its bits 8 to 15.
answer_of-data_len :
    (opcode connector : ℕ)
    → (answer_of opcode connector).0 / 256 % 256 ≡ length (answer_of opcode connector).1
answer_of-data_len opcode connector =
    answer_of-cases (λ x. x.0 / 256 % 256 ≡ length x.1) opcode connector refl refl refl refl

respond-mailbox :
    {R : Type 0} (msg : MsgSendDirectReq2) (r : R) (mailbox : List ℕ)
    → length mailbox ≡ 48
    → respond msg r mailbox ≡ some (r, ok (from_req_with_payload msg (mailbox ++ replicate 64 0)))
respond-mailbox msg r mailbox len = rw (from_iter-fills mailbox, len) refl

zeros-split :
    (opcode connector : ℕ)
    → replicate {A = ℕ} 32 0
      ≡ replicate (length (answer_of opcode connector).1) 0
        ++ replicate (32 - length (answer_of opcode connector).1) 0
zeros-split opcode connector =
    answer_of-cases
      (λ x. replicate {A = ℕ} 32 0 ≡ replicate (length x.1) 0 ++ replicate (32 - length x.1) 0)
      opcode connector refl refl refl refl

module _ (version reserved cci : List ℕ) (opcode mid connector : ℕ) (control messages : List ℕ)
    (sizes : IsLaid version reserved cci (opcode ∷ mid ∷ connector ∷ control) messages) where
  update_mailbox-layout :
      update_mailbox (laid version reserved cci (opcode ∷ mid ∷ connector ∷ control) messages)
      ≡ some (
          laid
            (le_bytes 2 0x0120)
            reserved
            (le_bytes 4 (answer_of opcode connector).0)
            (opcode ∷ mid ∷ connector ∷ control)
            (padded (answer_of opcode connector).1))
  unfolding update_mailbox
  update_mailbox-layout =
      let answer = answer_of opcode connector in
      let all = opcode ∷ mid ∷ connector ∷ control in
      let new = le_bytes 2 0x0120 in
      let s1 : IsLaid new reserved cci all messages = (refl, sizes.1, sizes.2, sizes.3, sizes.4) in
      let s2 : IsLaid new reserved (le_bytes 4 answer.0) all messages =
        (refl, sizes.1, refl, sizes.3, sizes.4) in
      rw
        (
          get-control version reserved cci all messages sizes 0,
          get-control version reserved cci all messages sizes 2,
          store-version version reserved cci all messages sizes new refl,
          store-cci new reserved cci all messages s1 (le_bytes 4 answer.0) refl,
          fill_from-messages new reserved (le_bytes 4 answer.0) all messages s2,
          store-message_in new reserved (le_bytes 4 answer.0) all messages s2 answer.1 _
              (zeros-split opcode connector),
        )
        refl

-- A message with the doorbell tag and a mailbox is answered, without a panic, with a payload that
-- begins with a mailbox: VERSION is 0x0120, the reserved bytes and CONTROL are those of the request,
-- CCI and MESSAGE IN are the answer to the opcode and the connector in CONTROL, and the bytes behind
-- MESSAGE IN, MESSAGE OUT and the rest of the payload are zero. CCI holds the length of MESSAGE IN in
-- its bits 8 to 15.
pub handle-layout :
    (msg : MsgSendDirectReq2) (version reserved cci : List ℕ) (opcode mid connector : ℕ)
    (control messages rest : List ℕ)
    → length version ≡ 2
    → length reserved ≡ 2
    → length cci ≡ 4
    → length control ≡ 5
    → length messages ≡ 32
    → msg.payload
      ≡ 0 ∷ laid version reserved cci (opcode ∷ mid ∷ connector ∷ control) (messages ++ rest)
    → (handle tt msg
        ≡ some (
          tt,
          ok (
              from_req_with_payload msg (
                laid
                  (le_bytes 2 0x0120)
                  reserved
                  (le_bytes 4 (answer_of opcode connector).0)
                  (opcode ∷ mid ∷ connector ∷ control)
                  (padded (answer_of opcode connector).1)
                ++ replicate 64 0)),
        ))
      × ((answer_of opcode connector).0 / 256 % 256 ≡ length (answer_of opcode connector).1)
unfolding handle u8_at
handle-layout msg version reserved cci opcode mid connector control messages rest v r c k m e =
    let all = opcode ∷ mid ∷ connector ∷ control in
    let sizes : IsLaid version reserved cci all messages = (v, r, c, omega (arith, k), m) in
    let answered : IsLaid (le_bytes 2 0x0120) reserved (le_bytes 4 (answer_of opcode connector).0)
        all (padded (answer_of opcode connector).1) =
      (refl, r, refl, omega (arith, k), padded-length opcode connector) in
    let tag : get_elem? msg.payload 0 ≡ some 0 = ap (λ p. get_elem? p 0) e in
    (
      rw
          (
            tag,
            slice-mailbox version reserved cci all messages sizes 0 rest msg.payload e,
            update_mailbox-layout version reserved cci opcode mid connector control messages sizes,
          )
          (respond-mailbox msg tt _ (
            length-laid (le_bytes 2 0x0120) reserved (le_bytes 4 (answer_of opcode connector).0) all
              (padded (answer_of opcode connector).1) answered)),
      answer_of-data_len opcode connector,
    )
