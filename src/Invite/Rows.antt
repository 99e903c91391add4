-- ===== src/Invite/Rows.antt =====
-- crates/construct-db/src/lib.rs, `burn_used_invite`: how long the row of a burned id stays.
use construct_server.Base.{
  ℕ, List, ◌≡◌, Bool, Bool-cases, true, ◌∷◌, if◌then◌else◌, inl, ◌+◌, ◌≤◌, bytes_eq_refl, inr,
  le→not_ltb, ltb, ◌⊎◌, [], arith, ◌&&◌, refl, bytes_eq, ◌||◌, false, ◌≢◌,
}
use construct_server.Invite.{Bytes, Burn, Db, burn_used_invite, is_burned}

-- The rows that a purge leaves.
pub kept : (Bytes → Bool) → ℕ → List Burn → List Burn
kept drops now [] = []
kept drops now (b ∷ bs) =
    let rest = kept drops now bs in
    if ltb b.expires_at now && drops b.burn_jti then rest else b ∷ rest

-- A row of `jti` that no purge up to `until` deletes.
abbrev pub Holds : Bytes → ℕ → List Burn → Type 0
Holds jti until [] = ⊥
Holds jti until (b ∷ bs) = ((b.burn_jti ≡ jti) × (until ≤ b.expires_at)) ⊎ Holds jti until bs

or_true : (b : Bool) → (b || true) ≡ true
or_true true = refl
or_true false = refl

pub Holds-burned :
    (jti : Bytes) (until : ℕ) (bs : List Burn) → Holds jti until bs → is_burned jti bs ≡ true
unfolding is_burned
Holds-burned jti until [] h = absurd h
Holds-burned jti until (b ∷ bs) (inl (e, le)) = rw (e, bytes_eq_refl jti) refl
Holds-burned jti until (b ∷ bs) (inr h) =
    rw (Holds-burned jti until bs h) (or_true (bytes_eq b.burn_jti jti))

pub kept-Holds :
    (drops : Bytes → Bool) (now : ℕ) (jti : Bytes) (until : ℕ) (bs : List Burn)
    → now ≤ until
    → Holds jti until bs
    → Holds jti until (kept drops now bs)
unfolding kept
kept-Holds drops now jti until [] le h = absurd h
kept-Holds drops now jti until (b ∷ bs) le (inl (e, later)) =
    rw (le→not_ltb b.expires_at now (omega (arith, later))) (inl (e, later))
kept-Holds drops now jti until (b ∷ bs) le (inr h) =
    let rest = kept-Holds drops now jti until bs le h in
    elim (Bool-cases (ltb b.expires_at now && drops b.burn_jti)) [
      | inl e ↦ rw e rest
      | inr e ↦ rw e (inr rest)
    ]

pub burn-Holds :
    (db : Db) (other jti : Bytes) (until ttl db_now : ℕ)
    → Holds jti until db.used_invites
    → Holds jti until (burn_used_invite db other ttl db_now).0.used_invites
unfolding burn_used_invite
burn-Holds db other jti until ttl db_now h = elim (Bool-cases (is_burned other db.used_invites)) [
  | inl e ↦ rw e h
  | inr e ↦ rw e (inr h)
]

-- The first burn of `jti`.
pub burn_fresh :
    (db : Db) (jti : Bytes) (ttl db_now : ℕ)
    → (burn_used_invite db jti ttl db_now).1 ≡ true
    → Holds jti (db_now + ttl) (burn_used_invite db jti ttl db_now).0.used_invites
unfolding burn_used_invite
burn_fresh db jti ttl db_now = elim (Bool-cases (is_burned jti db.used_invites)) [
  | inl e ↦ rw e (λ h. absurd cc)
  | inr e ↦ rw e (λ h. inl (refl, omega arith))
]

pub unburned :
    (db : Db) (jti : Bytes) (ttl db_now : ℕ)
    → (burn_used_invite db jti ttl db_now).1 ≡ true
    → is_burned jti db.used_invites ≢ true
unfolding burn_used_invite
unburned db jti ttl db_now h e = absurd (ground (arith, h, e))
