-- ===== src/KeyLog/Append.antt =====
-- key-service/src/kt.rs, `db_ensure_leaf`: the index that it returns names the leaf's position in
-- the tree, the log only grows, and asking again changes nothing.
use construct_server.Base.{
  ℕ, ◌≡◌, some, ◌<◌, length, get_elem?, ◌∷◌, [], arith, bytes_eq, get_elem?-snoc, ◌++◌, ◌⊎◌,
  Option-cases, inl, inr, refl, true, false, get_elem?-append_left, ◌∙◌, ap, bytes_eq_sound,
  Bool-cases, bytes_eq_refl, List, get_elem?-some,
}
use construct_server.Transparency.{Bytes}
use construct_server.KeyLog.{
  Row, Table, latest, insert_leaf, ensure_after, db_ensure_leaf, ℕ, db_get_all_leaves,
}
use construct_server.KeyLog.Order.{
  IsDense, leaves_of, length-leaves_of, next_index-length, get_all_leaves_lem,
}

-- The latest row of a device is a row of the table.
module _ (device_id : Bytes) (leaf_kind : ℕ) where
  latest-cases :
      (r s : Row) (rows : Table)
      → latest device_id leaf_kind (r ∷ rows) ≡ some s
      → (s ≡ r) ⊎ (latest device_id leaf_kind rows ≡ some s)
  unfolding latest
  latest-cases r s rows h = elim (Option-cases (latest device_id leaf_kind rows)) [
    | inl e ↦ ground (arith, e)
    | inr (t, e) ↦ ground (arith, e)
  ]

  latest-position :
      (rows : Table) (s : Row)
      → IsDense rows
      → latest device_id leaf_kind rows ≡ some s
      → (s.tree_index < length rows) × (get_elem? (leaves_of rows) s.tree_index ≡ some s.row_hash)
  latest-position [] s d h = absurd (unfold latest in ground (arith, h))
  latest-position (r ∷ rows) s d h = elim (latest-cases r s rows h) [
    | inl e ↦ rw e (
      omega arith,
      rw (d.0, ← length-leaves_of rows) (get_elem?-snoc (leaves_of rows) r.row_hash),
    )
    | inr older ↦
        let (below, at) = latest-position rows s d.2 older in
        (
          omega arith,
          get_elem?-append_left (leaves_of rows) (r.row_hash ∷ []) s.tree_index
                (omega (arith, length-leaves_of rows))
              ∙ at,
        )
  ]

module _ (device_id : Bytes) (leaf_kind : ℕ) (lhash : Bytes) (rows : Table)
    (dense : IsDense rows) where
  insert_leaf-IsDense :
      length lhash ≡ 32
      → (IsDense (insert_leaf device_id leaf_kind lhash rows).0)
        × ((insert_leaf device_id leaf_kind lhash rows).1 ≡ length rows)
        × (leaves_of (insert_leaf device_id leaf_kind lhash rows).0
            ≡ leaves_of rows ++ (lhash ∷ []))
  unfolding insert_leaf
  insert_leaf-IsDense w =
      ((next_index-length rows dense, w, dense), next_index-length rows dense, refl)

  -- What one call of `db_ensure_leaf` does to the log.
  abbrev Ensured : Table × ℕ → Type 0
  Ensured (rows', index) =
      (IsDense rows')
      × (get_elem? (leaves_of rows') index ≡ some lhash)
      × (((rows' ≡ rows) × (index < length rows))
          ⊎ ((leaves_of rows' ≡ leaves_of rows ++ (lhash ∷ [])) × (index ≡ length rows)))

  insert-Ensured : length lhash ≡ 32 → Ensured (insert_leaf device_id leaf_kind lhash rows)
  insert-Ensured w =
      let (d, position, grown) = insert_leaf-IsDense w in
      (
        d,
        rw (grown, position, ← length-leaves_of rows) (get_elem?-snoc (leaves_of rows) lhash),
        inr (grown, position),
      )

  -- On a dense table the index that is returned is the position of `lhash` in tree order; the table
  -- is either unchanged or has `lhash` appended behind the leaves that were there, and it is dense.
  pub ensure_leaf-Ensured :
      length lhash ≡ 32 → Ensured (db_ensure_leaf device_id leaf_kind lhash rows)
  unfolding db_ensure_leaf ensure_after
  ensure_leaf-Ensured w = elim (Option-cases (latest device_id leaf_kind rows)) [
    | inl e ↦ rw e (insert-Ensured w)
    | inr (s, e) ↦ rw e (existing s e (Bool-cases (bytes_eq s.row_hash lhash)))
  ]
    where
      existing :
          (s : Row)
          → latest device_id leaf_kind rows ≡ some s
          → ((bytes_eq s.row_hash lhash ≡ true) ⊎ (bytes_eq s.row_hash lhash ≡ false))
          → Ensured (ensure_after (some s) device_id leaf_kind lhash rows)
      existing s e (inl same) =
          let (below, at) = latest-position device_id leaf_kind rows s dense e in
          rw same (dense, at ∙ ap some (bytes_eq_sound s.row_hash lhash same), inl (refl, below))
      existing s e (inr rotated) = rw rotated (insert-Ensured w)

-- The leaf that was just inserted is the latest of its device and kind.
latest-insert :
    (device_id : Bytes) (leaf_kind : ℕ) (lhash : Bytes) (rows : Table)
    → IsDense rows
    → ensure_after
        (latest device_id leaf_kind (insert_leaf device_id leaf_kind lhash rows).0)
        device_id
        leaf_kind
        lhash
        (insert_leaf device_id leaf_kind lhash rows).0
      ≡ insert_leaf device_id leaf_kind lhash rows
unfolding latest ensure_after insert_leaf
latest-insert device_id leaf_kind lhash rows dense =
    elim (Option-cases (latest device_id leaf_kind rows)) [
      | inl e ↦ ground (arith, e, bytes_eq_refl device_id, bytes_eq_refl lhash)
      | inr (s, e) ↦
          let (below, at) = latest-position device_id leaf_kind rows s dense e in
          ground (
            arith,
            e,
            below,
            next_index-length rows dense,
            bytes_eq_refl device_id,
            bytes_eq_refl lhash,
          )
    ]

ensure_leaf-cases :
    (device_id : Bytes) (leaf_kind : ℕ) (lhash : Bytes) (rows : Table)
    → (db_ensure_leaf device_id leaf_kind lhash rows ≡ insert_leaf device_id leaf_kind lhash rows)
      ⊎ ((db_ensure_leaf device_id leaf_kind lhash rows).0 ≡ rows)
unfolding db_ensure_leaf ensure_after
ensure_leaf-cases device_id leaf_kind lhash rows =
    elim (Option-cases (latest device_id leaf_kind rows)) [
      | inl e ↦ inl (rw e)
      | inr (s, e) ↦ elim (Bool-cases (bytes_eq s.row_hash lhash)) [
        | inl same ↦ inr (rw (e, same))
        | inr rotated ↦ inl (rw (e, rotated))
      ]
    ]

-- Asking again for the same leaf returns the same index and leaves the table as it is.
pub ensure_leaf-again :
    (device_id : Bytes) (leaf_kind : ℕ) (lhash : Bytes) (rows : Table)
    → IsDense rows
    → db_ensure_leaf device_id leaf_kind lhash (db_ensure_leaf device_id leaf_kind lhash rows).0
      ≡ db_ensure_leaf device_id leaf_kind lhash rows
ensure_leaf-again device_id leaf_kind lhash rows dense =
    elim (ensure_leaf-cases device_id leaf_kind lhash rows) [
      | inl e ↦ rw e (unfold db_ensure_leaf in latest-insert device_id leaf_kind lhash rows dense)
      | inr e ↦ ap (db_ensure_leaf device_id leaf_kind lhash) e
    ]

-- On a dense table of 32-byte hashes, `db_ensure_leaf` keeps the table dense; the leaves in tree
-- order stay, with at most `lhash` behind them; and `lhash` stands at the index that it returns.
pub ensure_leaf-position :
    (device_id : Bytes) (leaf_kind : ℕ) (lhash : Bytes) (rows : Table)
    → IsDense rows
    → length lhash ≡ 32
    → let (rows', index) = db_ensure_leaf device_id leaf_kind lhash rows in
      (IsDense rows')
      × (before : List Bytes) × (after : List Bytes) × (db_get_all_leaves rows ≡ some before)
      × (db_get_all_leaves rows' ≡ some after)
      × (get_elem? after index ≡ some lhash)
      × ((after ≡ before) ⊎ (after ≡ before ++ (lhash ∷ [])))
ensure_leaf-position device_id leaf_kind lhash rows dense w =
    let (d, at, grown) = ensure_leaf-Ensured device_id leaf_kind lhash rows dense w in
    let rows' = (db_ensure_leaf device_id leaf_kind lhash rows).0 in
    (
      d,
      leaves_of rows,
      leaves_of rows',
      get_all_leaves_lem rows dense,
      get_all_leaves_lem rows' d,
      at,
      elim grown [ inl (same, _) ↦ inl (ap leaves_of same) | inr (more, _) ↦ inr more ],
    )

-- A leaf keeps its position while others are added.
pub ensure_leaf-keeps :
    (device_id : Bytes) (leaf_kind : ℕ) (lhash : Bytes) (rows : Table) (index : ℕ) {other : Bytes}
    → IsDense rows
    → length lhash ≡ 32
    → get_elem? (leaves_of rows) index ≡ some other
    → get_elem? (leaves_of (db_ensure_leaf device_id leaf_kind lhash rows).0) index ≡ some other
ensure_leaf-keeps device_id leaf_kind lhash rows index dense w at =
    let (d, _, grown) = ensure_leaf-Ensured device_id leaf_kind lhash rows dense w in
    elim grown [
      | inl (same, _) ↦ ap (λ t. get_elem? (leaves_of t) index) same ∙ at
      | inr (more, _) ↦ rw more (
          get_elem?-append_left (leaves_of rows) (lhash ∷ []) index
            (get_elem?-some (leaves_of rows) index at)
          ∙ at)
    ]
