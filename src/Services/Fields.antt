-- ===== src/Services/Fields.antt =====
-- services/ucsi.rs: the fields of the mailbox, and the writes to each of them.
use odp_secure_services.Ffa.Payload.{slice}
use mathlib.Core.List.{append_assoc}
use odp_secure_services.Base.{
  take, ◌≤◌, ◌&&◌, length-replicate, sym, suc, take-append, drop-append, length-append, true, ◌∙◌,
  refl, leb, arith, [], some, ap, ◌∷◌, ◌-◌, ◌+◌, ◌≡◌, replicate, length, get_elem?, drop, ◌++◌, ℕ,
  List,
}
use mathlib.Core.Path.{subst}
use odp_secure_services.Services.Ucsi.{store, fill_from}

-- VERSION, the reserved bytes, CCI, CONTROL, and MESSAGE IN with MESSAGE OUT.
abbrev pub laid : List ℕ → List ℕ → List ℕ → List ℕ → List ℕ → List ℕ
laid version reserved cci control messages = version ++ (reserved ++ (cci ++ (control ++ messages)))

abbrev pub IsLaid : List ℕ → List ℕ → List ℕ → List ℕ → List ℕ → Type 0
IsLaid version reserved cci control messages =
    (length version ≡ 2)
    × (length reserved ≡ 2)
    × (length cci ≡ 4)
    × (length control ≡ 8)
    × (length messages ≡ 32)

drop_front : (a b : List ℕ) → drop (length a) (a ++ b) ≡ b
drop_front [] b = refl
drop_front (x ∷ a) b = drop_front a b

get_behind : (a b : List ℕ) (i : ℕ) → get_elem? (a ++ b) (length a + i) ≡ get_elem? b i
get_behind [] b i = let e : 0 + i ≡ i = omega arith in rw e refl
get_behind (x ∷ a) b i =
    let e : suc (length a) + i ≡ suc (length a + i) = omega arith in rw e (get_behind a b i)

store-between :
    (a b c bytes : List ℕ)
    → length b ≡ length bytes
    → store (length a) bytes (a ++ (b ++ c)) ≡ some (a ++ (bytes ++ c))
unfolding store
store-between a b c bytes same =
    let inside : leb (length a + length bytes) (length (a ++ (b ++ c))) ≡ true =
      ground (arith, length-append a (b ++ c), length-append b c, same) in
    let behind : drop (length a + length bytes) (a ++ (b ++ c)) ≡ c =
      drop-append a (b ++ c) (length bytes)
      ∙ subst (λ (n : ℕ). drop n (b ++ c) ≡ c) same (drop_front b c) in
    rw (inside, take-append a (b ++ c), behind) refl

fill_from-behind :
    (a b : List ℕ) → fill_from (length a) (a ++ b) ≡ some (a ++ replicate (length b) 0)
unfolding fill_from
fill_from-behind a b =
    let inside : leb (length a) (length (a ++ b)) ≡ true = ground (arith, length-append a b) in
    let left : length (a ++ b) - length a ≡ length b = omega (arith, length-append a b) in
    rw (inside, take-append a b, left) refl

module _ (version reserved cci control messages : List ℕ)
    (sizes : IsLaid version reserved cci control messages) where
  -- The mailbox in front of MESSAGE IN.
  front : List ℕ
  front = version ++ (reserved ++ (cci ++ control))

  front_messages : (m : List ℕ) → front ++ m ≡ laid version reserved cci control m
  unfolding front
  front_messages m =
      append_assoc version (reserved ++ (cci ++ control)) m
      ∙ ap (λ l. version ++ l)
          (append_assoc reserved (cci ++ control) m
            ∙ ap (λ l. reserved ++ l) (append_assoc cci control m))

  length-front : length front ≡ 16
  unfolding front
  length-front = omega (
    arith,
    sizes,
    length-append version (reserved ++ (cci ++ control)),
    length-append reserved (cci ++ control),
    length-append cci control,
  )

  pub store-version :
      (bytes : List ℕ)
      → length bytes ≡ 2
      → store 0 bytes (laid version reserved cci control messages)
        ≡ some (laid bytes reserved cci control messages)
  store-version bytes same =
      store-between [] version (reserved ++ (cci ++ (control ++ messages))) bytes
        (omega (arith, same, sizes))

  pub store-cci :
      (bytes : List ℕ)
      → length bytes ≡ 4
      → store 4 bytes (laid version reserved cci control messages)
        ≡ some (laid version reserved bytes control messages)
  store-cci bytes same =
      let four : length (version ++ reserved) ≡ 4 =
        omega (arith, sizes, length-append version reserved) in
      let stored =
        store-between (version ++ reserved) cci (control ++ messages) bytes
          (omega (arith, same, sizes)) in
      ap (store 4 bytes) (sym (append_assoc version reserved (cci ++ (control ++ messages))))
      ∙ (subst
            (λ (n : ℕ).
              store n bytes ((version ++ reserved) ++ (cci ++ (control ++ messages)))
              ≡ some ((version ++ reserved) ++ (bytes ++ (control ++ messages))))
            four stored
          ∙ ap some (append_assoc version reserved (bytes ++ (control ++ messages))))

  pub fill_from-messages :
      fill_from 16 (laid version reserved cci control messages)
      ≡ some (laid version reserved cci control (replicate 32 0))
  fill_from-messages =
      ap (fill_from 16) (sym (front_messages messages))
      ∙ (subst (λ (n : ℕ). fill_from n (front ++ messages) ≡ some (front ++ replicate 32 0))
            length-front
            (subst
              (λ (n : ℕ).
                fill_from (length front) (front ++ messages) ≡ some (front ++ replicate n 0))
              sizes.4 (fill_from-behind front messages))
          ∙ ap some (front_messages (replicate 32 0)))

  pub store-message_in :
      (bytes zeros : List ℕ)
      → replicate 32 0 ≡ replicate (length bytes) 0 ++ zeros
      → store 16 bytes (laid version reserved cci control (replicate 32 0))
        ≡ some (laid version reserved cci control (bytes ++ zeros))
  store-message_in bytes zeros e =
      ap (store 16 bytes) (sym (front_messages (replicate 32 0)))
      ∙ (subst
            (λ (n : ℕ). store n bytes (front ++ replicate 32 0) ≡ some (front ++ (bytes ++ zeros)))
            length-front
            (subst
              (λ (l : List ℕ).
                store (length front) bytes (front ++ l) ≡ some (front ++ (bytes ++ zeros)))
              (sym e)
              (store-between front (replicate (length bytes) 0) zeros bytes
                (length-replicate (length bytes) 0)))
          ∙ ap some (front_messages (bytes ++ zeros)))

  pub get-control :
      (i : ℕ)
      → get_elem? (laid version reserved cci control messages) (8 + i)
        ≡ get_elem? (control ++ messages) i
  get-control i =
      let eight : length (version ++ (reserved ++ cci)) ≡ 8 =
        omega (arith, sizes, length-append version (reserved ++ cci), length-append reserved cci) in
      let grouped : (version ++ (reserved ++ cci)) ++ (control ++ messages)
          ≡ laid version reserved cci control messages =
        append_assoc version (reserved ++ cci) (control ++ messages)
        ∙ ap (λ l. version ++ l) (append_assoc reserved cci (control ++ messages)) in
      ap (λ l. get_elem? l (8 + i)) (sym grouped)
      ∙ subst
          (λ (n : ℕ).
            get_elem? ((version ++ (reserved ++ cci)) ++ (control ++ messages)) (n + i)
            ≡ get_elem? (control ++ messages) i)
          eight (get_behind (version ++ (reserved ++ cci)) (control ++ messages) i)

  pub length-laid : length (laid version reserved cci control messages) ≡ 48
  length-laid =
      subst (λ (l : List ℕ). length l ≡ 48) (front_messages messages)
        (omega (arith, length-append front messages, length-front, sizes.4))

  pub slice-mailbox :
      (tag : ℕ) (rest p : List ℕ)
      → p ≡ tag ∷ laid version reserved cci control (messages ++ rest)
      → slice p 1 49 ≡ some (laid version reserved cci control messages)
  unfolding slice
  slice-mailbox tag rest p e =
      let mailbox = laid version reserved cci control messages in
      let grouped : laid version reserved cci control (messages ++ rest) ≡ mailbox ++ rest =
        sym (front_messages (messages ++ rest))
        ∙ (sym (append_assoc front messages rest)
            ∙ ap (λ l. l ++ rest) (front_messages messages)) in
      let whole : p ≡ tag ∷ (mailbox ++ rest) = e ∙ ap (λ l. tag ∷ l) grouped in
      let long : 49 ≤ length p =
        subst (λ (q : List ℕ). 49 ≤ length q) (sym whole)
          (omega (arith, length-append mailbox rest, length-laid)) in
      let inside : (leb 1 49 && leb 49 (length p)) ≡ true = ground (arith, long) in
      let cut : take 48 (mailbox ++ rest) ≡ mailbox =
        subst (λ (n : ℕ). take n (mailbox ++ rest) ≡ mailbox) length-laid
          (take-append mailbox rest) in
      rw inside (ap (λ q. some (take 48 (drop 1 q))) whole ∙ ap some cut)
