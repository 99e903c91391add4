-- ===== src/RateLimit/Bounded.antt =====
-- crates/construct-rate-limit/src/degraded.rs: the fallback table is bounded, and `tracked` is exact.
use construct_server.Base.{
  List, length, ℕ, ◌<◌, ◌∷◌, ◌≡◌, ◌≤◌, arith, set, ◌+◌, [], get_or, length-set, refl, suc, zero,
  ◌∙◌, Bool-cases, Option, ap, get_or-set_self, sym, leb, some, ℤ, ◌==◌, inl, negsuc, none, inr,
  pos, subst, ◌%◌,
}
use construct_server.RateLimit.{
  Entry, Shard, DegradedLimiter, shard_count, max_tracked_keys, write, retain_window, List, length,
  ℕ, charge, charge_found, charge_known, charge_unknown, clear, emptied, insert_new, new, purge,
  charge_hash, fxhash, window_of,
}

-- All entries of all shards.
abbrev pub total : List Shard → ℕ
total [] = 0
total (s ∷ rest) = length s + total rest

-- `tracked` counts the entries, and stays within the cap.
pub record IsBounded (l : DegradedLimiter) : Type 0 where
  pub sixteen : length l.shards ≡ shard_count
  pub exact : l.tracked ≡ total l.shards
  pub capped : l.tracked ≤ max_tracked_keys

pub total-set :
    (shards : List Shard) (i : ℕ) (s : Shard)
    → i < length shards
    → total (set shards i s) + length (get_or shards i []) ≡ total shards + length s
total-set [] i s h = elim h [ ]
total-set (t ∷ rest) zero s h = omega arith
total-set (t ∷ rest) (suc i) s h = omega (arith, total-set rest i s (omega arith))

get_or-le-total : (shards : List Shard) (i : ℕ) → length (get_or shards i []) ≤ total shards
get_or-le-total [] i = omega arith
get_or-le-total (t ∷ rest) zero = omega arith
get_or-le-total (t ∷ rest) (suc i) = omega (arith, get_or-le-total rest i)

length-write : (hash : ℕ) (e : Entry) (s : Shard) → length (write hash e s) ≡ length s
unfolding write
length-write hash e [] = refl
length-write hash e ((h, old) ∷ rest) = ground (arith, length-write hash e rest)

length-retain_window-le : (w : ℕ) (s : Shard) → length (retain_window w s) ≤ length s
unfolding retain_window
length-retain_window-le w [] = omega arith
length-retain_window-le w ((h, e) ∷ rest) = ground (arith, length-retain_window-le w rest)

-- One shard of the table, and the sum over the others.
module _ (l : DegradedLimiter) (v : IsBounded l) (index : ℕ) (inside : index < shard_count) where
  resize :
      (s : Shard) (n : ℕ)
      → n + length (get_or l.shards index []) ≡ l.tracked + length s
      → n ≤ max_tracked_keys
      → IsBounded (record l { shards = set l.shards index s; tracked = n })
  resize s n balance small = record {
    sixteen = length-set l.shards index s ∙ v.sixteen;
    exact = omega (arith, total-set l.shards index s, v.sixteen, v.exact, balance, inside);
    capped = small;
  }

  insert_new-IsBounded :
      (hash w : ℕ)
      → l.tracked < max_tracked_keys
      → IsBounded (insert_new l index (get_or l.shards index []) hash w).0
  unfolding insert_new
  insert_new-IsBounded hash w room = resize _ (l.tracked + 1) (omega arith) (omega arith)

  purge-IsBounded : (w : ℕ) → IsBounded (purge l index (get_or l.shards index []) w)
  unfolding purge
  purge-IsBounded w =
      let shard = get_or l.shards index [] in
      let le = length-retain_window-le w shard in
      let fits : length shard ≤ l.tracked =
        omega (arith, get_or-le-total l.shards index, v.exact) in
      resize (retain_window w shard) _ (ground (arith, le)) (ground (arith, le, v.capped))

  purge-shard :
      (w : ℕ)
      → get_or (purge l index (get_or l.shards index []) w).shards index []
        ≡ retain_window w (get_or l.shards index [])
  unfolding purge
  purge-shard w = get_or-set_self l.shards index _ [] (omega (arith, v.sixteen))

module _ (l : DegradedLimiter) (v : IsBounded l) (index : ℕ) (inside : index < shard_count) where
  charge_unknown-IsBounded :
      (hash w : ℕ) → IsBounded (charge_unknown l index (get_or l.shards index []) hash w).0
  unfolding charge_unknown
  charge_unknown-IsBounded hash w =
      let shard = get_or l.shards index [] in
      let purged = purge l index shard w in
      let vp = purge-IsBounded l v index inside w in
      elim (Bool-cases (leb max_tracked_keys l.tracked)) [
        | inl full ↦ elim (Bool-cases (leb max_tracked_keys purged.tracked)) [
          | inl still ↦ rw (full, still) vp
          | inr room ↦
              rw (full, room)
                (subst (λ s. IsBounded (insert_new purged index s hash w).0)
                  (purge-shard l v index inside w)
                  (insert_new-IsBounded purged vp index inside hash w (ground arith)))
        ]
        | inr room ↦ rw room (insert_new-IsBounded l v index inside hash w (ground arith))
      ]

  charge_known-IsBounded :
      (hash limit w : ℕ) (e : Entry)
      → IsBounded (charge_known l index (get_or l.shards index []) hash limit w e).0
  unfolding charge_known
  charge_known-IsBounded hash limit w e = elim (Bool-cases (e.window_start == w)) [
    | inl same ↦
        rw same
          (resize l v index inside _ l.tracked (omega (arith, length-write hash _ _)) v.capped)
    | inr stale ↦
        rw stale
          (resize l v index inside _ l.tracked (omega (arith, length-write hash _ _)) v.capped)
  ]

  charge_found-IsBounded :
      (hash limit w : ℕ) (o : Option Entry)
      → IsBounded (charge_found l index (get_or l.shards index []) hash limit w o).0
  unfolding charge_found
  charge_found-IsBounded hash limit w none = charge_unknown-IsBounded hash w
  charge_found-IsBounded hash limit w (some e) = charge_known-IsBounded hash limit w e

-- A charge keeps the table bounded, whatever the key, the limit and the time are: `tracked` is the
-- number of entries, and there are never more than the cap.
pub charge-IsBounded :
    (l : DegradedLimiter) (key : List ℕ) (limit : ℤ) (window_secs now_secs : ℕ)
    → IsBounded l
    → IsBounded (charge l key limit window_secs now_secs).0
unfolding charge charge_hash
charge-IsBounded l key (negsuc n) window_secs now_secs v = v
charge-IsBounded l key (pos limit) window_secs now_secs v = elim (Bool-cases (limit == 0)) [
  | inl zero_limit ↦ rw zero_limit v
  | inr some_limit ↦ rw some_limit (
      charge_found-IsBounded l v (fxhash key % shard_count) (omega arith) (fxhash key) limit
        (window_of window_secs now_secs) _)
]

-- A new limiter is bounded, and so is one that was cleared.
pub new-IsBounded : IsBounded new
unfolding new
new-IsBounded = record { sixteen = refl; exact = refl; capped = omega arith }

length-emptied : (shards : List Shard) → length (emptied shards) ≡ length shards
length-emptied [] = refl
length-emptied (s ∷ rest) = ap suc (length-emptied rest)

total-emptied : (shards : List Shard) → total (emptied shards) ≡ 0
total-emptied [] = refl
total-emptied (s ∷ rest) = omega (arith, total-emptied rest)

pub clear-IsBounded : (l : DegradedLimiter) → IsBounded l → IsBounded (clear l)
unfolding clear
clear-IsBounded l v = record {
  sixteen = length-emptied l.shards ∙ v.sixteen;
  exact = sym (total-emptied l.shards);
  capped = omega arith;
}
