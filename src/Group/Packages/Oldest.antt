-- ===== src/Group/Packages/Oldest.antt =====
-- crates/construct-db/src/mls.rs: consume_key_package_for_user takes the oldest package there is.
use construct_server.Base.{
  ℕ, List, Option, [], none, All, ◌≡◌, ◌≤◌, some, ◌&&◌, ◌∷◌, Bool-cases, arith, ltb, true, false,
  inl, inr, refl, subst, sym,
}
use construct_server.Group.{DeviceId}
use construct_server.Group.Packages.{
  KeyPackage, UserId, is_eligible, older, oldest_eligible, consume_key_package_for_user,
}

-- `k` was published no later than any package that would do.
abbrev pub IsOldest : UserId → Option DeviceId → ℕ → KeyPackage → List KeyPackage → Type 0
IsOldest user preferred now k table =
    All (λ l. (is_eligible user preferred now l && ltb l.published_at k.published_at) ≡ false) table

module _ (user : UserId) (preferred : Option DeviceId) (now : ℕ) where
  earlier-IsOldest :
      (k l : KeyPackage) (table : List KeyPackage)
      → k.published_at ≤ l.published_at
      → IsOldest user preferred now l table
      → IsOldest user preferred now k table
  earlier-IsOldest k l [] le h = tt
  earlier-IsOldest k l (x ∷ xs) le h = (ground (arith, h.0), earlier-IsOldest k l xs le h.1)

  none_eligible :
      (k : KeyPackage) (table : List KeyPackage)
      → oldest_eligible user preferred now table ≡ none
      → IsOldest user preferred now k table
  unfolding oldest_eligible
  none_eligible k [] h = tt
  none_eligible k (x ∷ xs) h = elim (Bool-cases (is_eligible user preferred now x)) [
    | inl e ↦ absurd (ground (arith, e, h))
    | inr e ↦ (rw e refl, none_eligible k xs (ground (arith, e, h)))
  ]

  abbrev Chosen : KeyPackage → List KeyPackage → Type 0
  Chosen k table = (is_eligible user preferred now k ≡ true) × IsOldest user preferred now k table

  older-Chosen :
      (x : KeyPackage) (xs : List KeyPackage) (rest : Option KeyPackage)
      → is_eligible user preferred now x ≡ true
      → oldest_eligible user preferred now xs ≡ rest
      → ((l : KeyPackage) → rest ≡ some l → Chosen l xs)
      → Chosen (older x rest) (x ∷ xs)
  older-Chosen x xs none e h ih = (e, (ground (arith, e), none_eligible x xs h))
  older-Chosen x xs (some l) e h ih = elim (Bool-cases (ltb l.published_at x.published_at)) [
    | inl lt ↦
        let choice : older x (some l) ≡ l = rw lt refl in
        subst (λ y. Chosen y (x ∷ xs)) (sym choice)
          ((ih l refl).0, (ground (arith, lt), (ih l refl).1))
    | inr ge ↦
        let choice : older x (some l) ≡ x = rw ge refl in
        let others = earlier-IsOldest x l xs (ground (arith, ge)) (ih l refl).1 in
        subst (λ y. Chosen y (x ∷ xs)) (sym choice) (e, (ground (arith, ge), others))
  ]

  oldest_eligible-Chosen :
      (table : List KeyPackage) (k : KeyPackage)
      → oldest_eligible user preferred now table ≡ some k
      → Chosen k table
  unfolding oldest_eligible
  oldest_eligible-Chosen [] k h = absurd (cc)
  oldest_eligible-Chosen (x ∷ xs) k h = elim (Bool-cases (is_eligible user preferred now x)) [
    | inl e ↦
        let chosen : older x (oldest_eligible user preferred now xs) ≡ k = ground (arith, e, h) in
        subst (λ y. Chosen y (x ∷ xs)) chosen
          (older-Chosen x xs _ e refl (λ l r. oldest_eligible-Chosen xs l r))
    | inr e ↦
        let ih = oldest_eligible-Chosen xs k (ground (arith, e, h)) in (ih.0, (rw e refl, ih.1))
  ]

-- The key package that is consumed is one of the user's, of the preferred device if there is one,
-- that has not expired, and no such package in the table was published earlier.
pub consume_key_package_for_user-IsOldest :
    (user : UserId) (preferred : Option DeviceId) (now : ℕ) (table : List KeyPackage)
    (k : KeyPackage)
    → (consume_key_package_for_user user preferred now table).1 ≡ some k
    → (is_eligible user preferred now k ≡ true) × IsOldest user preferred now k table
unfolding consume_key_package_for_user
consume_key_package_for_user-IsOldest user preferred now table k e =
    oldest_eligible-Chosen user preferred now table k e
