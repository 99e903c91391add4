-- ===== src/KeyLog/Order.antt =====
-- The kt_leaves table in tree order: the invariant, and what `db_get_all_leaves` returns.
use construct_server.Base.{
  List, length, ◌∷◌, ◌≡◌, [], arith, ◌++◌, length-append, refl, some, ℕ, All, Option-cases, ◌<◌,
  ◌≤◌, inl, inr,
}
use construct_server.Transparency.{Bytes}
use construct_server.KeyLog.{
  Row, Table, max_index, next_index, insert_row, in_order, to_arrays, db_get_all_leaves, List,
  length, ◌∷◌,
}

-- Each row's `tree_index` is the number of rows that stood before it, and each hash has 32 bytes.
abbrev pub IsDense : Table → Type 0
IsDense [] = Unit
IsDense (r ∷ rows) = (r.tree_index ≡ length rows) × (length r.row_hash ≡ 32) × IsDense rows

-- The leaf hashes, oldest first.
abbrev pub leaves_of : Table → List Bytes
leaves_of [] = []
leaves_of (r ∷ rows) = leaves_of rows ++ (r.row_hash ∷ [])

pub length-leaves_of : (rows : Table) → length (leaves_of rows) ≡ length rows
length-leaves_of [] = refl
length-leaves_of (r ∷ rows) =
    omega (arith, length-append (leaves_of rows) (r.row_hash ∷ []), length-leaves_of rows)

max_index-head :
    (r : Row) (rows : Table) → IsDense (r ∷ rows) → max_index (r ∷ rows) ≡ some r.tree_index
unfolding max_index
max_index-head r [] d = refl
max_index-head r (s ∷ rows) d = ground (arith, max_index-head s rows d.2)

pub next_index-length : (rows : Table) → IsDense rows → next_index rows ≡ length rows
unfolding next_index max_index
next_index-length [] d = refl
next_index-length (r ∷ rows) d = ground (arith, max_index-head r rows d)

-- Every row of a table of `n` rows has its index below `n`.
abbrev Below : ℕ → Table → Type 0
Below n rows = All (λ (r : Row). r.tree_index < n) rows

insert_row-last :
    (r : Row) (rows : Table) → Below r.tree_index rows → insert_row r rows ≡ rows ++ (r ∷ [])
unfolding insert_row
insert_row-last r [] b = refl
insert_row-last r (s ∷ rows) b = ground (arith, insert_row-last r rows b.1)

Below-snoc :
    (n : ℕ) (r : Row) (rows : Table)
    → r.tree_index < n
    → Below r.tree_index rows
    → Below n (rows ++ (r ∷ []))
Below-snoc n r [] h b = (h, tt)
Below-snoc n r (s ∷ rows) h b = (omega arith, Below-snoc n r rows h b.1)

in_order-Below : (n : ℕ) (rows : Table) → IsDense rows → length rows ≤ n → Below n (in_order rows)
unfolding in_order
in_order-Below n [] d h = tt
in_order-Below n (r ∷ rows) d h =
    let before = in_order-Below r.tree_index rows d.2 (omega arith) in
    rw (insert_row-last r (in_order rows) before)
      (Below-snoc n r (in_order rows) (omega arith) before)

-- In tree order the newest row stands last.
pub in_order-cons :
    (r : Row) (rows : Table) → IsDense (r ∷ rows) → in_order (r ∷ rows) ≡ in_order rows ++ (r ∷ [])
unfolding in_order
in_order-cons r rows d =
    insert_row-last r (in_order rows) (in_order-Below r.tree_index rows d.2 (omega arith))

to_arrays-snoc :
    (r : Row) (rows : Table) (ls : List Bytes)
    → length r.row_hash ≡ 32
    → to_arrays rows ≡ some ls
    → to_arrays (rows ++ (r ∷ [])) ≡ some (ls ++ (r.row_hash ∷ []))
unfolding to_arrays
to_arrays-snoc r [] ls w h = ground arith
to_arrays-snoc r (s ∷ rows) ls w h = elim (Option-cases (to_arrays rows)) [
  | inl e ↦ absurd (ground (arith, e))
  | inr (ms, e) ↦ ground (arith, e, to_arrays-snoc r rows ms w e)
]

-- The load returns the hashes in the order of insertion.
pub get_all_leaves_lem :
    (rows : Table) → IsDense rows → db_get_all_leaves rows ≡ some (leaves_of rows)
unfolding db_get_all_leaves
get_all_leaves_lem [] d = unfold in_order to_arrays in refl
get_all_leaves_lem (r ∷ rows) d =
    rw (in_order-cons r rows d)
      (to_arrays-snoc r (in_order rows) (leaves_of rows) d.1 (get_all_leaves_lem rows d.2))
