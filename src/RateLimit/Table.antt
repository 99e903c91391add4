-- ===== src/RateLimit/Table.antt =====
-- crates/construct-rate-limit/src/degraded.rs: the entries of one shard as a map from hashes.
use construct_server.Base.{
  Option, ℕ, some, ◌≡◌, ◌≢◌, if◌then◌else◌, none, ◌==◌, [], ◌∷◌, Bool-cases, arith, inl, refl, inr,
  ◌∙◌,
}
use construct_server.RateLimit.{Entry, Shard, find, write, retain_window, Option, ℕ}

-- Each hash has one entry.
abbrev pub IsMap : Shard → Type 0
IsMap [] = Unit
IsMap ((h, e) ∷ rest) = (find h rest ≡ none) × IsMap rest

-- What a hash has used up of the window that starts at `w`.
abbrev pub used_of : Option Entry → ℕ → ℕ
used_of none w = 0
used_of (some e) w = if e.window_start == w then e.count else 0

pub find-write_self :
    (hash : ℕ) (e old : Entry) (s : Shard)
    → find hash s ≡ some old
    → find hash (write hash e s) ≡ some e
unfolding find write
find-write_self hash e old [] h = cc
find-write_self hash e old ((k, o) ∷ rest) h = ground (arith, find-write_self hash e old rest)

pub find-write_ne :
    (hash other : ℕ) (e : Entry) (s : Shard)
    → hash ≢ other
    → find other (write hash e s) ≡ find other s
unfolding find write
find-write_ne hash other e [] h = refl
find-write_ne hash other e ((k, o) ∷ rest) h = ground (arith, find-write_ne hash other e rest h)

pub write-IsMap : (hash : ℕ) (e : Entry) (s : Shard) → IsMap s → IsMap (write hash e s)
unfolding write
write-IsMap hash e [] m = tt
write-IsMap hash e ((k, o) ∷ rest) m = elim (Bool-cases (k == hash)) [
  | inl hit ↦ rw hit m
  | inr miss ↦
      rw miss (find-write_ne hash k e rest (ground arith) ∙ m.0, write-IsMap hash e rest m.1)
]

pub find-retain_none :
    (hash w : ℕ) (s : Shard) → find hash s ≡ none → find hash (retain_window w s) ≡ none
unfolding find retain_window
find-retain_none hash w [] h = refl
find-retain_none hash w ((k, e) ∷ rest) h = ground (arith, find-retain_none hash w rest)

-- Dropping the stale entries changes nothing that is used of the current window.
pub used_of-retain :
    (hash w : ℕ) (s : Shard)
    → IsMap s
    → used_of (find hash (retain_window w s)) w ≡ used_of (find hash s) w
unfolding find retain_window
used_of-retain hash w [] m = refl
used_of-retain hash w ((k, e) ∷ rest) m = elim (Bool-cases (k == hash)) [
  | inl hit ↦
      let same : k ≡ hash = ground arith in
      let gone : find hash rest ≡ none = rw (← same) m.0 in
      ground (arith, hit, gone, find-retain_none hash w rest gone)
  | inr miss ↦ ground (arith, miss, used_of-retain hash w rest m.1)
]

pub retain-IsMap : (w : ℕ) (s : Shard) → IsMap s → IsMap (retain_window w s)
unfolding retain_window
retain-IsMap w [] m = tt
retain-IsMap w ((k, e) ∷ rest) m = elim (Bool-cases (e.window_start == w)) [
  | inl current ↦ rw current (find-retain_none k w rest m.0, retain-IsMap w rest m.1)
  | inr stale ↦ rw stale (retain-IsMap w rest m.1)
]
