-- ===== src/Tpm/Sst/Delivery.antt =====
-- tpm_sst.rs: a response that the closure gives is read as it is.
use odp_secure_services.Tpm.Sst.Answer.{drop-drop, packet_size-append}
use odp_secure_services.Tpm.Registers.{crb_data_buffer_size}
use odp_secure_services.Tpm.Sst.Response.{set-append, done, Reads}
use odp_secure_services.Tpm.Sst.Packet.{
  Reading, contains, read_rest, read_tpm_response, read_body, packet_size, tpm_header_size,
  tpm_packet_length, stored, read_bytes,
}
use odp_secure_services.Ffa.Error.{ErrorCode}
use mathlib.Core.Path.{subst}
use odp_secure_services.Tpm.Sst.Response.{done, next}
use odp_secure_services.Base.{
  ap₂, length-drop, err, take-append-drop, length-take, ◌-◌, ◌&&◌, drop, leb, take, if_split, ◌≤◌,
  refl, length-append, ◌∙◌, sym, ap, set, arith, ◌∷◌, [], zero, suc,
}
use mathlib.Core.List.{append_assoc}
use odp_secure_services.Base.{ok, some, ◌++◌, ◌≡◌, length, ◌+◌, List, Result, Option, ℕ}

tpm_packet_length-accepts :
    (header : List ℕ) (capacity n : ℕ)
    → packet_size header ≡ n
    → tpm_header_size ≤ length header
    → tpm_header_size ≤ n
    → n ≤ capacity
    → capacity ≤ crb_data_buffer_size
    → tpm_packet_length header capacity ≡ ok n
unfolding tpm_packet_length
tpm_packet_length-accepts header capacity n size long lo hi small =
    if_split (λ (r : Result ErrorCode ℕ). r ≡ ok n)
      (leb tpm_header_size (length header)
        && contains tpm_header_size crb_data_buffer_size capacity
        && contains tpm_header_size capacity (packet_size header))
      {x = ok (packet_size header)} {y = err ErrorCode.invalid_parameters} (λ t. ap ok size)
      (λ t. absurd (ground (arith, t, size)))

module _ {S : Type 0} (read_byte : S → ℕ → Option (S × Result ErrorCode ℕ)) where
  read_bytes-delivers :
      (n offset : ℕ) (s s' : S) (front old back bytes : List ℕ)
      → length front ≡ offset
      → length old ≡ n
      → length bytes ≡ n
      → Reads read_byte s offset bytes s'
      → read_bytes read_byte n offset s (front ++ (old ++ back))
        ≡ some (s', front ++ (bytes ++ back), ok tt)
  unfolding read_bytes stored
  read_bytes-delivers zero offset s _ front [] back [] lf lo lb (done _ _) = refl
  read_bytes-delivers zero offset s s' front (x ∷ old) back bytes lf lo lb r =
      absurd (omega (arith, lo))
  read_bytes-delivers zero offset s s' front [] back (x ∷ bytes) lf lo lb r =
      absurd (omega (arith, lb))
  read_bytes-delivers (suc n) offset s s' front [] back bytes lf lo lb r =
      absurd (omega (arith, lo))
  read_bytes-delivers (suc n) offset s s' front (x ∷ old) back [] lf lo lb r =
      absurd (omega (arith, lb))
  read_bytes-delivers (suc n) offset s s' front (x ∷ old) back _ lf lo lb
        (next _ t _ _ byte bytes b rest) =
      rw b (
        let placed : set (front ++ ((x ∷ old) ++ back)) offset byte
            ≡ (front ++ (byte ∷ [])) ++ (old ++ back) =
          ap (λ (o : ℕ). set (front ++ ((x ∷ old) ++ back)) o byte) (sym lf)
          ∙ (set-append front (old ++ back) x byte
              ∙ sym (append_assoc front (byte ∷ []) (old ++ back))) in
        rw placed (
          read_bytes-delivers n (suc offset) t s' (front ++ (byte ∷ [])) old back bytes
            (omega (arith, lf, length-append front (byte ∷ []))) (omega (arith, lo))
            (omega (arith, lb)) rest
          ∙ ap (λ (l : List ℕ). some (s', l, ok tt))
              (append_assoc front (byte ∷ []) (bytes ++ back))))

  Reads-split :
      (xs ys : List ℕ) (s s' : S) (offset end : ℕ)
      → offset + length xs ≡ end
      → Reads read_byte s offset (xs ++ ys) s'
      → (m : S) × Reads read_byte s offset xs m × Reads read_byte m end ys s'
  Reads-split [] ys s s' offset end e r =
      (s, done s offset, subst (λ (o : ℕ). Reads read_byte s o ys s') (omega (arith, e)) r)
  Reads-split (x ∷ xs) ys s s' offset end e (next _ t _ _ _ _ b rest) =
      let (m, front, back) = Reads-split xs ys t s' (suc offset) end (omega (arith, e)) rest in
      (m, next s t m offset x xs b front, back)

  module _ (s s' : S) (buffer bytes : List ℕ) (lo : tpm_header_size ≤ length bytes)
      (hi : length bytes ≤ length buffer) (small : length buffer ≤ crb_data_buffer_size) where
    front : List ℕ
    front = take tpm_header_size bytes

    -- The rest of the response, after its header.
    read_body-delivers :
        (m : S) (buffer' : List ℕ)
        → buffer' ≡ front ++ drop tpm_header_size buffer
        → Reads read_byte m tpm_header_size (drop tpm_header_size bytes) s'
        → read_body read_byte m buffer' (ok (length bytes))
          ≡ some (s', bytes ++ drop (length bytes) buffer, ok (length bytes))
    unfolding read_body front
    read_body-delivers m buffer' e reads =
        let n = length bytes in
        let rest = drop tpm_header_size bytes in
        let old = drop tpm_header_size buffer in
        let split : buffer'
            ≡ front ++ (take (n - tpm_header_size) old ++ drop (n - tpm_header_size) old) =
          e ∙ ap (λ l. front ++ l) (sym (take-append-drop (n - tpm_header_size) old)) in
        let read =
          read_bytes-delivers (n - tpm_header_size) tpm_header_size m s' front
            (take (n - tpm_header_size) old) (drop (n - tpm_header_size) old) rest
            (length-take tpm_header_size bytes lo)
            (length-take (n - tpm_header_size) old
              (omega (arith, length-drop tpm_header_size buffer)))
            (length-drop tpm_header_size bytes) reads in
        let whole : front ++ (rest ++ drop (n - tpm_header_size) old) ≡ bytes ++ drop n buffer =
          sym (append_assoc front rest (drop (n - tpm_header_size) old))
          ∙ ap₂ (λ (l : List ℕ) (r : List ℕ). l ++ r) (take-append-drop tpm_header_size bytes)
              (drop-drop tpm_header_size (n - tpm_header_size) n buffer (omega arith)) in
        rw (split, read, whole) refl

    -- A response that the closure gives byte by byte, whose header says its length, between the
    -- header's and the buffer's, is read to the front of the buffer, and the rest of the buffer stays.
    pub read_tpm_response-delivers :
        packet_size bytes ≡ length bytes
        → Reads read_byte s 0 bytes s'
        → read_tpm_response read_byte s buffer
          ≡ some (s', bytes ++ drop (length bytes) buffer, ok (length bytes))
    unfolding read_tpm_response read_rest front
    read_tpm_response-delivers size reads =
        let (m, header, rest) =
          Reads-split front (drop tpm_header_size bytes) s s' 0 tpm_header_size
            (omega (arith, length-take tpm_header_size bytes lo))
            (subst (λ (l : List ℕ). Reads read_byte s 0 l s')
              (sym (take-append-drop tpm_header_size bytes)) reads) in
        let old = drop tpm_header_size buffer in
        let first : read_bytes read_byte tpm_header_size 0 s buffer
            ≡ some (m, front ++ old, ok tt) =
          ap (read_bytes read_byte tpm_header_size 0 s)
            (sym (take-append-drop tpm_header_size buffer))
          ∙ read_bytes-delivers tpm_header_size 0 s m [] (take tpm_header_size buffer) old front
              refl (length-take tpm_header_size buffer (omega arith))
              (length-take tpm_header_size bytes lo) header in
        let long : length (front ++ old) ≡ length buffer = omega (
          arith,
          length-append front old,
          length-drop tpm_header_size buffer,
          length-take tpm_header_size bytes lo,
        ) in
        let known : packet_size (front ++ old) ≡ length bytes =
          packet_size-append front old (omega (arith, length-take tpm_header_size bytes lo))
          ∙ (sym (
                packet_size-append front (drop tpm_header_size bytes)
                  (omega (arith, length-take tpm_header_size bytes lo)))
              ∙ (ap packet_size (take-append-drop tpm_header_size bytes) ∙ size)) in
        let accepted =
          tpm_packet_length-accepts (front ++ old) (length (front ++ old)) (length bytes) known
            (omega (arith, long)) lo (omega (arith, long)) (omega (arith, long)) in
        if_split
          (λ (r : Option (Reading read_byte ℕ)).
            r ≡ some (s', bytes ++ drop (length bytes) buffer, ok (length bytes)))
          (contains tpm_header_size crb_data_buffer_size (length buffer))
          (λ t. rw (first, accepted) (read_body-delivers m (front ++ old) refl rest))
          (λ t. absurd (ground (arith, t)))
