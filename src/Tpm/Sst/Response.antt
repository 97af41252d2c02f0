-- ===== src/Tpm/Sst/Response.antt =====
-- tpm_sst.rs: what `read_tpm_response` leaves in the buffer.
use odp_secure_services.Tpm.Sst.Packet.{stored, read_bytes, Reading}
use odp_secure_services.Ffa.Error.{ErrorCode}
use mathlib.Core.Path.{subst}
use mathlib.Core.List.{append_assoc}
use odp_secure_services.Base.Options.{Returns-self, Returns->>=, returns, Returns-mono, Returns}
use odp_secure_services.Base.{
  sym, ap₂, ◌∙◌, zero, length-append, arith, refl, ◌≢◌, suc, ap, ok, err, some, length, ◌≡◌, ◌+◌,
  [], ◌∷◌, ◌++◌, Result, set, Option, List, ℕ,
}

pub set-append :
    (front tail : List ℕ) (x v : ℕ) → set (front ++ x ∷ tail) (length front) v ≡ front ++ v ∷ tail
set-append [] tail x v = refl
set-append (y ∷ front) tail x v = ap (λ l. y ∷ l) (set-append front tail x v)

module _ {S : Type 0} (read_byte : S → ℕ → Option (S × Result ErrorCode ℕ)) where
  -- The bytes that the closure gives from an offset on, one after the other.
  pub data Reads : S → ℕ → List ℕ → S → Type 0 where
    done : (s : S) (offset : ℕ) → Reads s offset [] s
    next :
        (s s' s'' : S) (offset byte : ℕ) (bytes : List ℕ)
        → read_byte s offset ≡ some (s', ok byte)
        → Reads s' (suc offset) bytes s''
        → Reads s offset (byte ∷ bytes) s''

  pub Reads-append :
      (s s' s'' : S) (offset end : ℕ) (bytes more : List ℕ)
      → offset + length bytes ≡ end
      → Reads s offset bytes s'
      → Reads s' end more s''
      → Reads s offset (bytes ++ more) s''
  Reads-append s _ s'' offset end _ more e (done _ _) r =
      subst (λ (o : ℕ). Reads s o more s'') (let same : end ≡ offset = omega (arith, e) in same) r
  Reads-append s s' s'' offset end _ more e (next _ t _ _ byte bytes b rest) r =
      next s t s'' offset byte (bytes ++ more) b
        (Reads-append t s' s'' (suc offset) end bytes more (omega (arith, e)) rest r)

  -- The closure returns, and its errors are errors.
  abbrev pub IsReader : Type 0
  IsReader =
      (s : S) (offset : ℕ)
      → Returns (λ r. (e : ErrorCode) → r.1 ≡ err e → e ≢ ErrorCode.ok) (read_byte s offset)

  -- The bytes that were read stand in their place; on an error the buffer has kept its length.
  abbrev pub Filled : S → ℕ → ℕ → List ℕ → List ℕ → Reading read_byte (Unit {0}) → Type 0
  Filled s offset n front back (s', buffer', ok _) =
      (bytes : List ℕ) × (length bytes ≡ n)
      × Reads s offset bytes s'
      × (buffer' ≡ front ++ (bytes ++ back))
  Filled s offset n front back (s', buffer', err e) = e ≢ ErrorCode.ok

  Filled-next :
      (s s' : S) (offset byte n : ℕ) (front back : List ℕ) (r : Reading read_byte (Unit {0}))
      → read_byte s offset ≡ some (s', ok byte)
      → Filled s' (suc offset) n (front ++ byte ∷ []) back r
      → Filled s offset (suc n) front back r
  Filled-next s s' offset byte n front back (s'', buffer'', ok u) b (bytes, l, reads, e) = (
    byte ∷ bytes,
    ap suc l,
    next s s' s'' offset byte bytes b reads,
    e ∙ append_assoc front (byte ∷ []) (bytes ++ back),
  )
  Filled-next s s' offset byte n front back (s'', buffer'', err code) b f = f

  -- One byte and what the loop does after it.
  stored-Filled :
      (s : S) (front : List ℕ) (x : ℕ) (old back buffer : List ℕ) (offset n : ℕ)
      → length front ≡ offset
      → buffer ≡ front ++ ((x ∷ old) ++ back)
      → (later : S → List ℕ → Option (Reading read_byte (Unit {0})))
      → ((s' : S) (byte : ℕ)
          → set buffer offset byte ≡ (front ++ byte ∷ []) ++ (old ++ back)
          → Returns
              (Filled s' (suc offset) n (front ++ byte ∷ []) back)
              (later s' (set buffer offset byte)))
      → (r : S × Result ErrorCode ℕ) → read_byte s offset ≡ some r
      → ((e : ErrorCode) → r.1 ≡ err e → e ≢ ErrorCode.ok)
      → Returns (Filled s offset (suc n) front back) (stored read_byte buffer offset later r)
  unfolding stored
  stored-Filled s front x old back buffer offset n lf e later goes (s', ok byte) b fails =
      Returns-mono
        (goes s' byte (
          ap₂ (λ (l : List ℕ) (o : ℕ). set l o byte) e (sym lf)
          ∙ (set-append front (old ++ back) x byte
              ∙ sym (append_assoc front (byte ∷ []) (old ++ back)))))
        λ r f. Filled-next s s' offset byte n front back r b f
  stored-Filled s front x old back buffer offset n lf e later goes (s', err code) b fails =
      returns _ (fails code refl)

  pub read_bytes-Filled :
      IsReader
      → (n offset : ℕ) (s : S) (front old back buffer : List ℕ) → length front ≡ offset
      → length old ≡ n
      → buffer ≡ front ++ (old ++ back)
      → Returns (Filled s offset n front back) (read_bytes read_byte n offset s buffer)
  unfolding read_bytes
  read_bytes-Filled reader zero offset s front [] back buffer lf lo e =
      returns _ ([], refl, done s offset, e)
  read_bytes-Filled reader zero offset s front (x ∷ old) back buffer lf lo e =
      absurd (omega (arith, lo))
  read_bytes-Filled reader (suc n) offset s front [] back buffer lf lo e =
      absurd (omega (arith, lo))
  read_bytes-Filled reader (suc n) offset s front (x ∷ old) back buffer lf lo e =
      Returns->>= _ (Returns-self (reader s offset)) λ r (fails, b).
        stored-Filled s front x old back buffer offset n lf e
          (λ s' buffer'. read_bytes read_byte n (suc offset) s' buffer')
          (λ s' byte e'.
            read_bytes-Filled reader n (suc offset) s' (front ++ byte ∷ []) old back _
              (omega (arith, lf, length-append front (byte ∷ []))) (omega (arith, lo)) e')
          r b fails
