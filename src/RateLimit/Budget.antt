-- ===== src/RateLimit/Budget.antt =====
-- crates/construct-rate-limit/src/degraded.rs, `charge`: its verdict, and the budget of a key over a
-- run of charges in one window.
use construct_server.Base.{
  ℕ, ◌%◌, ◌≡◌, ◌≤◌, none, Bool-cases, ◌+◌, leb, inr, inl, List, Option-cases, refl, subst, ◌∙◌, ap,
  pos, ◌==◌, false, arith,
}
use construct_server.RateLimit.{
  Shard, DegradedLimiter, DegradedOutcome, shard_count, max_tracked_keys, saturating_inc, find,
  retain_window, insert_new, purge, charge_unknown, charge_found, charge_hash, charge, fxhash,
  window_of, ℕ,
}
use construct_server.RateLimit.Table.{find-retain_none, used_of-retain, retain-IsMap}
use construct_server.RateLimit.Window.{
  shard_at, used, IsTable, Charged, replaced_self, replaced-used, replaced-IsTable, own, own-IsMap,
  known-Charged, insert-Charged,
}

module _ (l : DegradedLimiter) (t : IsTable l) (hash : ℕ) (w : ℕ) where
  abbrev kept : Shard
  kept = retain_window w (own l t hash)

  abbrev purged : DegradedLimiter
  purged = purge l (hash % shard_count) (own l t hash) w

  purged-IsTable : IsTable purged
  unfolding purge
  purged-IsTable =
      replaced-IsTable l t hash kept purged.tracked
        (retain-IsMap w (own l t hash) (own-IsMap l t hash))

  purged-used : (other : ℕ) → used purged other w ≡ used l other w
  unfolding purge
  purged-used other =
      replaced-used l t hash kept purged.tracked other w
        (used_of-retain other w (own l t hash) (own-IsMap l t hash))

  purged-own : shard_at purged (hash % shard_count) ≡ kept
  unfolding purge
  purged-own = replaced_self l t hash kept purged.tracked

  insert-Charged' :
      (limit : ℕ)
      → 1 ≤ limit
      → find hash (own l t hash) ≡ none
      → let (l', o) = insert_new l (hash % shard_count) (own l t hash) hash w in
        Charged hash limit w l l' o
  unfolding insert_new
  insert-Charged' limit positive absent =
      insert-Charged l t hash limit w (l.tracked + 1) positive absent

-- A charge on a table that has used up as much of the window.
Charged-from :
    (hash limit w : ℕ) (l p : DegradedLimiter) {l' : DegradedLimiter} {o : DegradedOutcome}
    → ((other : ℕ) → used p other w ≡ used l other w)
    → Charged hash limit w p l' o
    → Charged hash limit w l l' o
Charged-from hash limit w l p same c = record {
  table = c.table;
  others = λ other ne. c.others other ne ∙ same other;
  counted = λ h. c.counted h ∙ ap saturating_inc (same hash);
  judged = c.judged;
  uncounted = λ h. ((c.uncounted h).0, (c.uncounted h).1 ∙ same hash);
}

module _ (l : DegradedLimiter) (t : IsTable l) (hash w limit : ℕ) (positive : 1 ≤ limit)
    (absent : find hash (own l t hash) ≡ none) where
  purged_insert-Charged :
      let (l', o) = insert_new (purged l t hash w) (hash % shard_count) (kept l t hash w) hash w in
      Charged hash limit w l l' o
  purged_insert-Charged =
      let p = purged l t hash w in
      let tp = purged-IsTable l t hash w in
      let gone : find hash (shard_at p (hash % shard_count)) ≡ none =
        rw (purged-own l t hash w) (find-retain_none hash w (own l t hash) absent) in
      Charged-from hash limit w l p (purged-used l t hash w) (
        subst
          (λ s.
            let (l', o) = insert_new p (hash % shard_count) s hash w in Charged hash limit w p l' o)
          (purged-own l t hash w) (insert-Charged' p tp hash w limit positive gone))

  unknown-Charged :
      let (l', o) = charge_unknown l (hash % shard_count) (own l t hash) hash w in
      Charged hash limit w l l' o
  unfolding charge_unknown
  unknown-Charged = elim (Bool-cases (leb max_tracked_keys l.tracked)) [
    | inr room ↦ rw room (insert-Charged' l t hash w limit positive absent)
    | inl full ↦ elim (Bool-cases (leb max_tracked_keys (purged l t hash w).tracked)) [
      | inr room ↦ rw (full, room) purged_insert-Charged
      | inl still ↦
          rw (full, still)
            (record {
              table = purged-IsTable l t hash w;
              others = λ other ne. purged-used l t hash w other;
              counted = λ h. cc;
              judged = λ h. cc;
              uncounted = λ _. (refl, purged-used l t hash w hash);
            })
    ]
  ]

hash-Charged :
    (l : DegradedLimiter) (hash limit w : ℕ)
    → IsTable l
    → 1 ≤ limit
    → let (l', o) = charge_hash l hash limit w in Charged hash limit w l l' o
unfolding charge_hash charge_found
hash-Charged l hash limit w t positive = elim (Option-cases (find hash (own l t hash))) [
  | inl absent ↦ rw absent (unknown-Charged l t hash w limit positive absent)
  | inr (e, found) ↦ rw found (known-Charged l t hash limit w e positive found)
]

-- A charge at a limit of at least 1, on a well-formed table, adds one, or nothing at 2 ^ 32 - 1,
-- to what the hash of its key has used of the window if it is tracked, and is then allowed exactly
-- when the total is within the limit; if it is untracked it is allowed and uses nothing; other
-- hashes keep what they used of the window, and the table stays well-formed.
pub charge-Charged :
    (l : DegradedLimiter) (key : List ℕ) (limit window_secs now_secs : ℕ)
    → IsTable l
    → 1 ≤ limit
    → let (l', o) = charge l key (pos limit) window_secs now_secs in
      Charged (fxhash key) limit (window_of window_secs now_secs) l l' o
unfolding charge
charge-Charged l key limit window_secs now_secs t positive =
    let some_limit : limit == 0 ≡ false = ground arith in
    rw some_limit (hash-Charged l (fxhash key) limit (window_of window_secs now_secs) t positive)
