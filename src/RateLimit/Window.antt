-- ===== src/RateLimit/Window.antt =====
-- crates/construct-rate-limit/src/degraded.rs: what a charge uses up of a window, and the budget of
-- a key over a window.
use construct_server.Base.{
  length, ℕ, get_or, length-set, set, ◌%◌, ◌≡◌, ◌≢◌, Bool-cases, [], get_or-set_self, true, ◌∙◌,
  arith, leb, ◌==◌, false, inl, inr, subst, ap, get_or-set_ne, some, ◌≤◌, Bool, none, sym, ◌∷◌,
  refl,
}
use construct_server.RateLimit.{
  Shard, DegradedLimiter, DegradedOutcome, shard_count, saturating_inc, find, length, ℕ, Entry,
  charge_known, write,
}
use construct_server.RateLimit.Table.{IsMap, used_of, find-write_ne, find-write_self, write-IsMap}

-- The shard of a hash, and what the hash has used up of the window that starts at `w`.
abbrev pub shard_at : DegradedLimiter → ℕ → Shard
shard_at l index = get_or l.shards index []

abbrev pub used : DegradedLimiter → ℕ → ℕ → ℕ
used l hash w = used_of (find hash (shard_at l (hash % shard_count))) w

-- A table of the right shape: sixteen maps.
pub record IsTable (l : DegradedLimiter) : Type 0 where
  pub sixteen : length l.shards ≡ shard_count
  pub maps : (i : ℕ) → IsMap (shard_at l i)

-- What a charge of `hash` at limit `limit` in the window at `w` does to the table.
pub record Charged (hash limit w : ℕ) (l l' : DegradedLimiter) (o : DegradedOutcome) : Type 0 where
  pub table : IsTable l'
  pub others : (other : ℕ) → hash ≢ other → used l' other w ≡ used l other w
  pub counted : o.tracked ≡ true → used l' hash w ≡ saturating_inc (used l hash w)
  pub judged : o.tracked ≡ true → o.allowed ≡ leb (used l' hash w) limit
  pub uncounted : o.tracked ≡ false → (o.allowed ≡ true) × (used l' hash w ≡ used l hash w)

-- Replacing the shard of `hash`.
module _ (l : DegradedLimiter) (t : IsTable l) (hash : ℕ) (shard : Shard) (n : ℕ) where
  abbrev pub replaced : DegradedLimiter
  replaced = record l { shards = set l.shards (hash % shard_count) shard; tracked = n }

  pub replaced_self : shard_at replaced (hash % shard_count) ≡ shard
  replaced_self = get_or-set_self l.shards (hash % shard_count) shard [] (omega (arith, t.sixteen))

  pub replaced-used :
      (other w : ℕ)
      → used_of (find other shard) w ≡ used_of (find other (shard_at l (hash % shard_count))) w
      → used replaced other w ≡ used l other w
  replaced-used other w same = elim (Bool-cases (hash % shard_count == other % shard_count)) [
    | inl e ↦
        let index : hash % shard_count ≡ other % shard_count = ground arith in
        rw (← index, replaced_self) same
    | inr e ↦
        ap (λ s. used_of (find other s) w)
          (get_or-set_ne l.shards (hash % shard_count) (other % shard_count) shard []
            (ground arith))
  ]

  pub replaced-IsTable : IsMap shard → IsTable replaced
  replaced-IsTable m = record {
    sixteen = length-set l.shards (hash % shard_count) shard ∙ t.sixteen;
    maps = λ i. elim (Bool-cases (hash % shard_count == i)) [
      | inl e ↦
          let index : hash % shard_count ≡ i = ground arith in
          subst (λ j. IsMap (shard_at replaced j)) index (rw replaced_self m)
      | inr e ↦
          rw (get_or-set_ne l.shards (hash % shard_count) i shard [] (ground arith)) (t.maps i)
    ];
  }

module _ (l : DegradedLimiter) (t : IsTable l) (hash : ℕ) where
  abbrev pub own : Shard
  own = shard_at l (hash % shard_count)

  pub own-IsMap : IsMap own
  own-IsMap = t.maps (hash % shard_count)

  -- An entry written over one that is there.
  abbrev written : Entry → DegradedLimiter
  written e = replaced l t hash (write hash e own) l.tracked

  written_self :
      (e old : Entry) (w : ℕ)
      → find hash own ≡ some old
      → e.window_start ≡ w
      → used (written e) hash w ≡ e.count
  written_self e old w found same =
      rw (replaced_self l t hash (write hash e own) l.tracked, find-write_self hash e old own found)
        (ground (arith, same))

  written_others :
      (e : Entry) (other w : ℕ) → hash ≢ other → used (written e) other w ≡ used l other w
  written_others e other w ne =
      replaced-used l t hash (write hash e own) l.tracked other w
        (ap (λ o. used_of o w) (find-write_ne hash other e own ne))

  -- A tracked outcome, from the new table and what it says is used.
  tracked-Charged :
      (limit w : ℕ) (l' : DegradedLimiter) (allowed : Bool)
      → IsTable l'
      → ((other : ℕ) → hash ≢ other → used l' other w ≡ used l other w)
      → used l' hash w ≡ saturating_inc (used l hash w)
      → allowed ≡ leb (used l' hash w) limit
      → Charged hash limit w l l' (record { allowed = allowed; tracked = true })
  tracked-Charged limit w l' allowed t' apart more verdict = record {
    table = t';
    others = apart;
    counted = λ _. more;
    judged = λ _. verdict;
    uncounted = λ h. cc;
  }

  written-Charged :
      (limit w : ℕ) (e old : Entry) (allowed : Bool)
      → find hash own ≡ some old
      → e.window_start ≡ w
      → e.count ≡ saturating_inc (used l hash w)
      → allowed ≡ leb e.count limit
      → Charged hash limit w l (written e) (record { allowed = allowed; tracked = true })
  written-Charged limit w e old allowed found same more verdict =
      let self = written_self e old w found same in
      tracked-Charged limit w (written e) allowed
        (replaced-IsTable l t hash (write hash e own) l.tracked (write-IsMap hash e own own-IsMap))
        (λ other ne. written_others e other w ne) (self ∙ more)
        (verdict ∙ ap (λ n. leb n limit) (sym self))

  pub known-Charged :
      (limit w : ℕ) (e : Entry)
      → 1 ≤ limit
      → find hash own ≡ some e
      → let (l', o) = charge_known l (hash % shard_count) own hash limit w e in
        Charged hash limit w l l' o
  unfolding charge_known
  known-Charged limit w e positive found = elim (Bool-cases (e.window_start == w)) [
    | inl current ↦
        let spent : used l hash w ≡ e.count = rw found (rw current refl) in
        rw current (
          written-Charged limit w (record e { count = saturating_inc e.count }) e _ found
            (ground arith) (ap saturating_inc (sym spent)) refl)
    | inr stale ↦
        let spent : used l hash w ≡ 0 = rw found (rw stale refl) in
        rw stale (
          written-Charged limit w (record { window_start = w; count = 1 }) e true found refl
            (ap saturating_inc (sym spent)) (ground arith))
  ]

  -- A new key, in a shard that does not hold it.
  abbrev pub added : ℕ → ℕ → DegradedLimiter
  added w n = replaced l t hash ((hash, record { window_start = w; count = 1 }) ∷ own) n

  pub insert-Charged :
      (limit w n : ℕ)
      → 1 ≤ limit
      → find hash own ≡ none
      → Charged hash limit w l (added w n) (record { allowed = true; tracked = true })
  insert-Charged limit w n positive absent =
      let entry : Entry = record { window_start = w; count = 1 } in
      let shard : Shard = (hash, entry) ∷ own in
      let self : used (added w n) hash w ≡ 1 =
        rw (replaced_self l t hash shard n) (unfold find in ground arith) in
      let spent : used l hash w ≡ 0 = rw absent refl in
      tracked-Charged limit w (added w n) true
        (replaced-IsTable l t hash shard n (absent, own-IsMap))
        (λ other ne. replaced-used l t hash shard n other w (unfold find in ground (arith, ne)))
        (self ∙ ap saturating_inc (sym spent)) (rw self (ground arith))
