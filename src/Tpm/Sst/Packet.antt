-- ===== src/Tpm/Sst/Packet.antt =====
-- tpm_sst.rs: the length of a packet, and the reading of a response byte by byte.
use odp_secure_services.Base.Results.{map_ok}
use odp_secure_services.Base.Options.{◌>>=◌}
use odp_secure_services.Tpm.Registers.{crb_data_buffer_size}
use odp_secure_services.Base.Bytes.{from_le_bytes}
use odp_secure_services.Ffa.Error.{ErrorCode}
use odp_secure_services.Base.{
  zero, ◌-◌, ◌+◌, [], suc, set, drop, length, ◌∷◌, err, some, ok, ◌++◌, if◌then◌else◌, get_or, ◌&&◌,
  take, Result, leb, Option, List, Bool, ℕ,
}

abbrev pub tpm_header_size : ℕ
tpm_header_size = 10

-- `(lo..=hi).contains(&x)`.
abbrev pub contains : ℕ → ℕ → ℕ → Bool
contains lo hi x = leb lo x && leb x hi

-- `u32::from_be_bytes` of the bytes 2 to 5.
unfoldable pub packet_size : List ℕ → ℕ
packet_size header =
    from_le_bytes
      (get_or header 5 0 ∷ get_or header 4 0 ∷ get_or header 3 0 ∷ get_or header 2 0 ∷ [])

unfoldable pub tpm_packet_length : List ℕ → ℕ → Result ErrorCode ℕ
tpm_packet_length header capacity =
    if leb tpm_header_size (length header)
      && contains tpm_header_size crb_data_buffer_size capacity
      && contains tpm_header_size capacity (packet_size header)
    then ok (packet_size header)
    else err ErrorCode.invalid_parameters

-- Bytes copied over a buffer, from an offset on.
abbrev pub copy_at : List ℕ → ℕ → List ℕ → List ℕ
copy_at buffer offset bytes = take offset buffer ++ (bytes ++ drop (offset + length bytes) buffer)

-- `read_byte` is the closure, with the state that it changes; it may panic.
module _ {S : Type 0} (read_byte : S → ℕ → Option (S × Result ErrorCode ℕ)) where
  -- What a reading leaves: the state, the buffer and the result.
  abbrev pub Reading : Type 0 → Type 0
  Reading A = S × List ℕ × Result ErrorCode A

  -- A byte that was read is stored, and the loop goes on; an error ends it.
  unfoldable pub stored :
      List ℕ
      → ℕ
      → (S → List ℕ → Option (Reading (Unit {0})))
      → S × Result ErrorCode ℕ
      → Option (Reading (Unit {0}))
  stored buffer offset next (s, ok byte) = next s (set buffer offset byte)
  stored buffer offset next (s, err e) = some (s, buffer, err e)

  -- The loop over `n` bytes of the buffer, from `offset` on.
  unfoldable pub read_bytes : ℕ → ℕ → S → List ℕ → Option (Reading (Unit {0}))
  unfolding stored
  read_bytes zero offset s buffer = some (s, buffer, ok tt)
  read_bytes (suc n) offset s buffer =
      read_byte s offset
      >>= stored buffer offset (λ s' buffer'. read_bytes n (suc offset) s' buffer')

  -- The rest of the response, by its length.
  unfoldable pub read_body : S → List ℕ → Result ErrorCode ℕ → Option (Reading ℕ)
  read_body s buffer (err e) = some (s, buffer, err e)
  read_body s buffer (ok n) =
      read_bytes (n - tpm_header_size) tpm_header_size s buffer >>= λ (s', buffer', result).
      some (s', buffer', map_ok (λ _. n) result)

  -- What follows the header.
  unfoldable pub read_rest : Reading (Unit {0}) → Option (Reading ℕ)
  unfolding read_body
  read_rest (s, buffer, err e) = some (s, buffer, err e)
  read_rest (s, buffer, ok _) = read_body s buffer (tpm_packet_length buffer (length buffer))

  unfoldable pub read_tpm_response : S → List ℕ → Option (Reading ℕ)
  unfolding read_rest
  read_tpm_response s buffer =
      if contains tpm_header_size crb_data_buffer_size (length buffer)
      then read_bytes tpm_header_size 0 s buffer >>= read_rest
      else some (s, buffer, err ErrorCode.invalid_parameters)
