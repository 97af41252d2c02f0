-- ===== src/Services/Battery/Total.antt =====
-- services/battery.rs: every message is answered.
use odp_secure_services.Services.Common.{parse_empty_response}
use odp_secure_services.Ffa.Payload.{payload_len, IsPayload}
use odp_secure_services.Ffa.Error.{Error}
use odp_secure_services.Base.Bytes.{IsByte}
use odp_secure_services.Ffa.Message.{MsgSendDirectReq2}
use odp_secure_services.Base.Results.{Yields}
use odp_secure_services.Relay.Interface.{invoke_request, RelayLaws, Relay}
use odp_secure_services.Base.{
  [], none, some, ◌≡◌, ◌≤◌, arith, length, Option, err, ok, All, ℕ, Result, List,
}
use odp_secure_services.Services.Battery.{
  btp, bix, bst, parse_bst, bytes_or_error, BatteryCommand, set_btp, BatteryError, get_bix, get_bst,
  bst_bytes, BstReturnRaw, handle, serve, serve_command, relay_error, try_from,
}
use odp_secure_services.Services.Total.{
  u32_at-Answers, Answers, respond-Answers, u8_at-Answers, call_total, take_exact_array-Yields,
  Yields-any,
}
use odp_secure_services.Base.Options.{returns, Returns->>=}

abbrev Fits : List ℕ → Type 0
Fits l = All IsByte l × (length l ≤ payload_len)

bst_bytes-Fits : (b : BstReturnRaw) → Fits (bst_bytes b)
bst_bytes-Fits b = (omega arith, omega arith)

Yields-all : {E A : Type 0} {P : A → Type 0} → ((a : A) → P a) → (r : Result E A) → Yields P r
Yields-all k (ok a) = k a
Yields-all k (err e) = tt

short :
    {E : Type 0} (r : Result E (List ℕ))
    → Yields (λ (l : List ℕ). All IsByte l × (length l ≡ 100)) r
    → Yields Fits r
short (ok l) (k, n) = (k, omega (arith, n))
short (err e) k = tt

module _ {R : Type 0} (relay : Relay R) (laws : RelayLaws relay) where
  bytes_or_error-Answers :
      {A : Type 0} (msg : MsgSendDirectReq2) (bytes : A → List ℕ) (e : Error) (r : R)
      (result : Result BatteryError A)
      → laws.Valid r
      → Yields (λ a. Fits (bytes a)) result
      → Answers relay laws msg (bytes_or_error relay msg bytes e r result)
  bytes_or_error-Answers msg bytes e r (ok a) v (k, h) =
      respond-Answers relay laws msg r (bytes a) v k h
  bytes_or_error-Answers msg bytes e r (err x) v k = returns _ (v, tt)

  serve-Answers :
      (r : R) (msg : MsgSendDirectReq2) (battery_id : ℕ) (command : BatteryCommand)
      → IsPayload msg.payload
      → laws.Valid r
      → Answers relay laws msg (serve relay r msg battery_id command)
  unfolding serve get_bst get_bix set_btp invoke_request
  serve-Answers r msg battery_id bst p v =
      Returns->>= _
        (call_total relay laws (λ _. Unit {0}) relay_error _ _ _ _ _ r v
          (λ body _. Yields-any (parse_bst body)))
        (λ x (valid, _).
          bytes_or_error-Answers msg bst_bytes _ x.0 x.1 valid (Yields-all bst_bytes-Fits x.1))
  serve-Answers r msg battery_id bix p v =
      Returns->>= _
        (call_total relay laws (λ (l : List ℕ). All IsByte l × (length l ≡ 100)) relay_error _ _ _ _
          _ r v (take_exact_array-Yields 100))
        (λ x (valid, k). bytes_or_error-Answers msg (λ l. l) _ x.0 x.1 valid (short x.1 k))
  serve-Answers r msg battery_id btp p v =
      u32_at-Answers relay laws msg 4 _ p (omega arith) λ trip_point.
        Returns->>= _
          (call_total relay laws (λ _. Unit {0}) relay_error _ _ _ _ _ r v
            (λ body _. Yields-any (parse_empty_response body)))
          (λ x (valid, _).
            bytes_or_error-Answers msg (λ _. []) _ x.0 x.1 valid
              (Yields-all (λ _. (tt, omega arith)) x.1))

  serve_command-Answers :
      (r : R) (msg : MsgSendDirectReq2) (command : Option BatteryCommand)
      → IsPayload msg.payload
      → laws.Valid r
      → Answers relay laws msg (serve_command relay r msg command)
  unfolding serve_command
  serve_command-Answers r msg none p v = returns _ (v, tt)
  serve_command-Answers r msg (some command) p v =
      u8_at-Answers relay laws msg 1 _ p (omega arith)
        (λ battery_id. serve-Answers r msg battery_id command p v)

  pub handle-Answers :
      (r : R) (msg : MsgSendDirectReq2)
      → IsPayload msg.payload
      → laws.Valid r
      → Answers relay laws msg (handle relay r msg)
  unfolding handle
  handle-Answers r msg p v =
      u8_at-Answers relay laws msg 0 _ p (omega arith)
        (λ byte. serve_command-Answers r msg (try_from byte) p v)
