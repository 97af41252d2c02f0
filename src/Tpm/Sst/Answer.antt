-- ===== src/Tpm/Sst/Answer.antt =====
-- tpm_sst.rs: the response that `read_tpm_response` takes is as long as its own header says.
use odp_secure_services.Base.Results.{map_ok}
use odp_secure_services.Tpm.Registers.{crb_data_buffer_size}
use odp_secure_services.Tpm.Sst.Response.{Reads-append, read_bytes-Filled, Filled, Reads, IsReader}
use odp_secure_services.Ffa.Error.{ErrorCode}
use odp_secure_services.Tpm.Sst.Packet.{
  contains, read_tpm_response, read_rest, read_body, tpm_header_size, Reading, tpm_packet_length,
  packet_size,
}
use mathlib.Core.Path.{subst}
use mathlib.Core.List.{append_assoc}
use odp_secure_services.Base.Options.{returns, Returns->>=, Returns}
use odp_secure_services.Base.{
  take-append-drop, sym, length-take, ◌∙◌, length-drop, take, length-append, ◌-◌, ◌&&◌, leb, ◌≢◌,
  err, zero, [], suc, ap, ◌∷◌, refl, ok, drop, ◌++◌, get_or, arith, ◌≡◌, length, if_split, Result,
  ◌+◌, ◌≤◌, ◌<◌, Option, List, ℕ,
}

get_or-append : (xs ys : List ℕ) (i : ℕ) → i < length xs → get_or (xs ++ ys) i 0 ≡ get_or xs i 0
get_or-append [] ys i h = absurd (omega arith)
get_or-append (x ∷ xs) ys zero h = refl
get_or-append (x ∷ xs) ys (suc i) h = get_or-append xs ys i (omega arith)

pub packet_size-append : (xs ys : List ℕ) → 6 ≤ length xs → packet_size (xs ++ ys) ≡ packet_size xs
unfolding packet_size
packet_size-append xs ys h = rw (
  get_or-append xs ys 2 (omega arith),
  get_or-append xs ys 3 (omega arith),
  get_or-append xs ys 4 (omega arith),
  get_or-append xs ys 5 (omega arith),
)

pub drop-drop : {A : Type 0} (m n k : ℕ) (xs : List A) → m + n ≡ k → drop n (drop m xs) ≡ drop k xs
drop-drop zero n k xs e = ap (λ (i : ℕ). drop i xs) (omega arith)
drop-drop (suc m) n zero xs e = absurd (omega arith)
drop-drop (suc m) zero (suc k) [] e = refl
drop-drop (suc m) (suc n) (suc k) [] e = refl
drop-drop (suc m) n (suc k) (x ∷ xs) e = drop-drop m n k xs (omega arith)

-- A length is that of the header, between the header's own and the capacity.
abbrev pub IsLength : List ℕ → ℕ → Result ErrorCode ℕ → Type 0
IsLength header capacity (ok n) =
    (packet_size header ≡ n)
    × (tpm_header_size ≤ n)
    × (n ≤ capacity)
    × (capacity ≤ crb_data_buffer_size)
IsLength header capacity (err e) = e ≡ ErrorCode.invalid_parameters

pub tpm_packet_length-IsLength :
    (header : List ℕ) (capacity : ℕ) → IsLength header capacity (tpm_packet_length header capacity)
unfolding tpm_packet_length
tpm_packet_length-IsLength header capacity =
    if_split (IsLength header capacity)
      (leb tpm_header_size (length header)
        && contains tpm_header_size crb_data_buffer_size capacity
        && contains tpm_header_size capacity (packet_size header))
      {x = ok (packet_size header)} (λ t. ground (arith, t)) (λ t. refl)

module _ {S : Type 0} (read_byte : S → ℕ → Option (S × Result ErrorCode ℕ)) where
  -- The response is what the closure gave, of the length in its own header, before what the buffer
  -- held; an error is an error.
  abbrev pub Responded : S → List ℕ → Reading read_byte ℕ → Type 0
  Responded s buffer (s', buffer', ok n) =
      (bytes : List ℕ) × (length bytes ≡ n)
      × (packet_size bytes ≡ n)
      × (tpm_header_size ≤ n)
      × (n ≤ length buffer)
      × Reads read_byte s 0 bytes s'
      × (buffer' ≡ bytes ++ drop n buffer)
  Responded s buffer (s', buffer', err e) = e ≢ ErrorCode.ok

  module _ (reader : IsReader read_byte) (s s' : S) (buffer front : List ℕ)
      (lf : length front ≡ tpm_header_size) (big : tpm_header_size ≤ length buffer)
      (header : Reads read_byte s 0 front s') where
    -- What the loop over the body makes of the header.
    body-Responded :
        (n : ℕ)
        → packet_size (front ++ drop tpm_header_size buffer) ≡ n
        → tpm_header_size ≤ n
        → n ≤ length buffer
        → (r : Reading read_byte (Unit {0}))
        → Filled read_byte s' tpm_header_size
            (n - tpm_header_size)
            front
            (drop (n - tpm_header_size) (drop tpm_header_size buffer))
            r
        → Responded s buffer (r.0, r.1, map_ok (λ _. n) r.2)
    body-Responded n size lo hi (s'', buffer', ok u) (bytes, l, reads, e) = (
      front ++ bytes,
      omega (arith, l, lf, length-append front bytes),
      packet_size-append front bytes (omega (arith, lf))
          ∙ (sym (packet_size-append front (drop tpm_header_size buffer) (omega (arith, lf)))
              ∙ size),
      lo,
      hi,
      Reads-append read_byte s s' s'' 0 tpm_header_size front bytes (omega (arith, lf)) header
          reads,
      e
          ∙ (ap (λ l. front ++ (bytes ++ l))
                (drop-drop tpm_header_size (n - tpm_header_size) n buffer (omega (arith, lo)))
              ∙ sym (append_assoc front bytes (drop n buffer))),
    )
    body-Responded n size lo hi (s'', buffer', err code) f = f

    read_body-Responded :
        (buffer' : List ℕ) (r : Result ErrorCode ℕ)
        → buffer' ≡ front ++ drop tpm_header_size buffer
        → IsLength buffer' (length buffer) r
        → Returns (Responded s buffer) (read_body read_byte s' buffer' r)
    unfolding read_body
    read_body-Responded buffer' (ok n) e (size, lo, hi, small) =
        Returns->>= _
          (read_bytes-Filled read_byte reader (n - tpm_header_size) tpm_header_size s' front
            (take (n - tpm_header_size) (drop tpm_header_size buffer))
            (drop (n - tpm_header_size) (drop tpm_header_size buffer)) buffer' lf
            (length-take _ _ (omega (arith, length-drop tpm_header_size buffer)))
            (e
              ∙ ap (λ l. front ++ l)
                  (sym (take-append-drop (n - tpm_header_size) (drop tpm_header_size buffer)))))
          λ r f. returns _ (body-Responded n (ap packet_size (sym e) ∙ size) lo hi r f)
    read_body-Responded buffer' (err code) e bad = returns _ (λ e'. absurd (grind (arith, bad, e')))

  read_rest-Responded :
      IsReader read_byte
      → (s : S) (buffer : List ℕ) → tpm_header_size ≤ length buffer
      → (r : Reading read_byte (Unit {0}))
      → Filled read_byte s 0 tpm_header_size [] (drop tpm_header_size buffer) r
      → Returns (Responded s buffer) (read_rest read_byte r)
  unfolding read_rest
  read_rest-Responded reader s buffer big (s', buffer', ok u) (front, lf, header, e) =
      let same : length buffer' ≡ length buffer = omega (
        arith,
        ap length e,
        length-append front (drop tpm_header_size buffer),
        length-drop tpm_header_size buffer,
        lf,
      ) in
      read_body-Responded reader s s' buffer front lf big header buffer' _ e (
        subst (λ (c : ℕ). IsLength buffer' c (tpm_packet_length buffer' (length buffer'))) same
          (tpm_packet_length-IsLength buffer' (length buffer')))
  read_rest-Responded reader s buffer big (s', buffer', err e) f = returns _ f

  -- With a closure that returns, `read_tpm_response` returns: a response whose bytes are the first
  -- that the closure gave, one after the other, whose length is the one in its own header, between
  -- the header's and the buffer's, and after which the buffer is as it was; or an error.
  pub read_tpm_response-Responded :
      IsReader read_byte
      → (s : S) (buffer : List ℕ)
      → Returns (Responded s buffer) (read_tpm_response read_byte s buffer)
  unfolding read_tpm_response
  read_tpm_response-Responded reader s buffer =
      if_split (Returns (Responded s buffer))
        (contains tpm_header_size crb_data_buffer_size (length buffer))
        (λ t.
          Returns->>= _
            (read_bytes-Filled read_byte reader tpm_header_size 0 s [] (take tpm_header_size buffer)
              (drop tpm_header_size buffer) buffer refl
              (length-take tpm_header_size buffer (ground (arith, t)))
              (sym (take-append-drop tpm_header_size buffer)))
            λ r f. read_rest-Responded reader s buffer (ground (arith, t)) r f)
        (λ t. returns _ (λ e. absurd (grind (arith, e))))
