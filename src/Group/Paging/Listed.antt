-- ===== src/Group/Paging/Listed.antt =====
-- crates/construct-db/src/mls.rs: the order in which list_group_messages lists, and where a page ends.
use construct_server.Base.{
  ℕ, ℤ, List, Option, [], none, ltb_ℤ, ◌∷◌, ◌≡◌, if◌then◌else◌, pos, ltb, true, arith, refl, ◌&&◌,
  All, Bool-cases, some, suc, ◌<◌, ◌≤◌, inl, lt→ltb, inr, take, ◌++◌, ◌≢◌, Option-cases, drop,
  length, zero, ap, subst, le→not_ltb, ◌∙◌, sym,
}
use construct_server.Group.{Uuid, Message}
use construct_server.Group.Messages.{insert_by_sequence, is_listed, listed}
use construct_server.Group.Sequence.{Falling}

-- The messages past a sequence number.
pub above : ℕ → List Message → List Message
above k [] = []
above k (m ∷ ms) = let rest = above k ms in if ltb k m.sequence_number then m ∷ rest else rest

above_insert :
    (k : ℕ) (m : Message) (xs : List Message)
    → above k (insert_by_sequence m xs)
      ≡ (if ltb k m.sequence_number then insert_by_sequence m (above k xs) else above k xs)
unfolding above insert_by_sequence
above_insert k m [] = ground arith
above_insert k m (x ∷ xs) = ground (arith, above_insert k m xs)

module _ (topic : Option Uuid) (now : ℕ) where
  later_is_listed :
      (after : ℤ) (k : ℕ) (m : Message)
      → ltb_ℤ after (pos k) ≡ true
      → is_listed (pos k) topic now m ≡ (is_listed after topic now m && ltb k m.sequence_number)
  later_is_listed after k m h = ground arith

  -- Listing from a later cursor drops what is not past it.
  pub listed-later :
      (after : ℤ) (k : ℕ) (ms : List Message)
      → ltb_ℤ after (pos k) ≡ true
      → listed (pos k) topic now ms ≡ above k (listed after topic now ms)
  unfolding listed above
  listed-later after k [] h = refl
  listed-later after k (m ∷ ms) h = ground (
    arith,
    later_is_listed after k m h,
    listed-later after k ms h,
    above_insert k m (listed after topic now ms),
  )

-- Sequence numbers that grow, from `lo` on.
abbrev pub Rising : ℕ → List Message → Type 0
Rising lo [] = Unit
Rising lo (m ∷ ms) = (lo ≤ m.sequence_number) × Rising (suc m.sequence_number) ms

-- What is listed is past the cursor and below the next number.
abbrev pub Within : ℤ → ℕ → List Message → Type 0
Within after n ms =
    All (λ m. (ltb_ℤ after (pos m.sequence_number) ≡ true) × (m.sequence_number < n)) ms

insert-Within :
    (after : ℤ) (n : ℕ) (m : Message) (xs : List Message)
    → ltb_ℤ after (pos m.sequence_number) ≡ true
    → m.sequence_number < n
    → Within after n xs
    → Within after n (insert_by_sequence m xs)
unfolding insert_by_sequence
insert-Within after n m [] past lt h = ((past, lt), tt)
insert-Within after n m (x ∷ xs) past lt h =
    elim (Bool-cases (ltb x.sequence_number m.sequence_number)) [
      | inl e ↦ rw e (h.0, insert-Within after n m xs past lt h.1)
      | inr e ↦ rw e ((past, lt), h)
    ]

Within-later :
    (after : ℤ) (m n : ℕ) (xs : List Message) → m ≤ n → Within after m xs → Within after n xs
Within-later after m n [] le h = tt
Within-later after m n (x ∷ xs) le h =
    ((h.0.0, omega (arith, h.0.1)), Within-later after m n xs le h.1)

insert-Rising :
    (after : ℤ) (lo : ℕ) (m : Message) (xs : List Message)
    → lo ≤ m.sequence_number
    → Within after m.sequence_number xs
    → Rising lo xs
    → Rising lo (insert_by_sequence m xs)
unfolding insert_by_sequence
insert-Rising after lo m [] le w h = (le, tt)
insert-Rising after lo m (x ∷ xs) le w h =
    rw (lt→ltb x.sequence_number m.sequence_number w.0.1)
      (h.0, insert-Rising after (suc x.sequence_number) m xs (omega (arith, w.0.1)) w.1 h.1)

module _ (after : ℤ) (topic : Option Uuid) (now : ℕ) where
  pub listed-Within :
      (n : ℕ) (ms : List Message) → Falling n ms → Within after n (listed after topic now ms)
  unfolding listed
  listed-Within n [] h = tt
  listed-Within n (m ∷ ms) h =
      let rest =
        Within-later after m.sequence_number n (listed after topic now ms) (omega (arith, h.0))
          (listed-Within m.sequence_number ms h.1) in
      elim (Bool-cases (is_listed after topic now m)) [
        | inl e ↦
            rw e (insert-Within after n m (listed after topic now ms) (ground (arith, e)) h.0 rest)
        | inr e ↦ rw e rest
      ]

  pub listed-Rising :
      (n : ℕ) (ms : List Message) → Falling n ms → Rising 0 (listed after topic now ms)
  unfolding listed
  listed-Rising n [] h = tt
  listed-Rising n (m ∷ ms) h =
      let rest = listed-Rising m.sequence_number ms h.1 in
      elim (Bool-cases (is_listed after topic now m)) [
        | inl e ↦ rw e (
            insert-Rising after 0 m (listed after topic now ms) (omega arith)
              (listed-Within m.sequence_number ms h.1) rest)
        | inr e ↦ rw e rest
      ]

abbrev or_first : Message → Option Message → Option Message
or_first m none = some m
or_first m (some l) = some l

pub last_of : List Message → Option Message
last_of [] = none
last_of (m ∷ ms) = or_first m (last_of ms)

above_all : (k lo : ℕ) (xs : List Message) → k < lo → Rising lo xs → above k xs ≡ xs
unfolding above
above_all k lo [] lt h = refl
above_all k lo (x ∷ xs) lt h =
    let rest = above_all k (suc x.sequence_number) xs (omega (arith, lt, h.0)) h.1 in
    rw (lt→ltb k x.sequence_number (omega (arith, lt, h.0)), rest) refl

or_first-none : (m : Message) (o : Option Message) → or_first m o ≢ none
or_first-none m none e = cc
or_first-none m (some l) e = cc

nothing_taken : (n : ℕ) (xs : List Message) → last_of (take n xs) ≡ none → drop n xs ≡ xs
unfolding last_of
nothing_taken zero xs h = refl
nothing_taken (suc n) [] h = refl
nothing_taken (suc n) (x ∷ xs) h = absurd (or_first-none x (last_of (take n xs)) h)

-- What is past the last message of a page is what the page left out.
pub above-last :
    (n lo : ℕ) (xs : List Message) (m : Message)
    → Rising lo xs
    → last_of (take n xs) ≡ some m
    → (lo ≤ m.sequence_number) × (above m.sequence_number xs ≡ drop n xs)
unfolding above last_of
above-last zero lo xs m h e = absurd (cc)
above-last (suc n) lo [] m h e = absurd (cc)
above-last (suc n) lo (x ∷ xs) m h e = elim (Option-cases (last_of (take n xs))) [
  | inl nothing ↦
      let same : x ≡ m = ground (arith, e, nothing) in
      let rest = above_all x.sequence_number (suc x.sequence_number) xs (omega arith) h.1 in
      subst (λ y. (lo ≤ y.sequence_number) × (above y.sequence_number (x ∷ xs) ≡ drop n xs)) same
        (
          h.0,
          rw (le→not_ltb x.sequence_number x.sequence_number (omega arith), rest)
              (sym (nothing_taken n xs nothing)),
        )
  | inr (l, found) ↦
      let same : l ≡ m = ground (arith, e, found) in
      let ih = above-last n (suc x.sequence_number) xs m h.1 (found ∙ ap some same) in
      (
        omega (arith, h.0, ih.0),
        rw (le→not_ltb m.sequence_number x.sequence_number (omega (arith, ih.0))) ih.1,
      )
]

pub last-All {ℓ} :
    (P : Message → Type ℓ) (n : ℕ) (xs : List Message) (m : Message)
    → All P xs
    → last_of (take n xs) ≡ some m
    → P m
unfolding last_of
last-All P zero xs m h e = absurd (cc)
last-All P (suc n) [] m h e = absurd (cc)
last-All P (suc n) (x ∷ xs) m h e = elim (Option-cases (last_of (take n xs))) [
  | inl nothing ↦ let same : x ≡ m = ground (arith, e, nothing) in subst P same h.0
  | inr (l, found) ↦
      let same : l ≡ m = ground (arith, e, found) in last-All P n xs m h.1 (found ∙ ap some same)
]

pub no_length {ℓ} : {A : Type ℓ} (xs : List A) → length xs ≤ 0 → xs ≡ []
no_length [] h = refl
no_length (x ∷ xs) h = absurd (omega (arith, h))

pub take_nil : (n : ℕ) (xs : List Message) → xs ≡ [] → take n xs ++ [] ≡ xs
take_nil zero [] e = refl
take_nil (suc n) [] e = refl
take_nil n (x ∷ xs) e = absurd (cc)

pub none_taken : (n : ℕ) (xs : List Message) → 0 < n → last_of (take n xs) ≡ none → xs ≡ []
unfolding last_of
none_taken zero xs lt h = absurd (omega (arith, lt))
none_taken (suc n) [] lt h = refl
none_taken (suc n) (x ∷ xs) lt h = absurd (or_first-none x (last_of (take n xs)) h)

length-insert :
    (m : Message) (xs : List Message) → length (insert_by_sequence m xs) ≡ suc (length xs)
unfolding insert_by_sequence
length-insert m [] = refl
length-insert m (x ∷ xs) = ground (arith, length-insert m xs)

pub length-listed :
    (after : ℤ) (topic : Option Uuid) (now : ℕ) (ms : List Message)
    → length (listed after topic now ms) ≤ length ms
unfolding listed
length-listed after topic now [] = omega arith
length-listed after topic now (m ∷ ms) =
    ground (arith, length-listed after topic now ms, length-insert m (listed after topic now ms))

pub take-drop {ℓ} : {A : Type ℓ} (n : ℕ) (xs : List A) → take n xs ++ drop n xs ≡ xs
take-drop zero xs = refl
take-drop (suc n) [] = refl
take-drop (suc n) (x ∷ xs) = ap (λ t. x ∷ t) (take-drop n xs)
