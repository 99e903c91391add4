-- ===== src/Transparency/Soundness.antt =====
-- key-service/src/kt.rs: a proof that passes verification is the proof of that leaf at that index,
-- or it shows two byte strings with one SHA-256. That SHA-256 gives 32 bytes is a hypothesis.
use construct_server.Base.{
  length, ◌≡◌, ◌≢◌, ◌∷◌, ◌⊎◌, Bool-cases, ◌++◌, bytes_eq, inl, ◌∙◌, append-injective,
  bytes_eq_sound, inr, sym, arith, bytes_eq-ne, List, ℕ, some, ◌<◌, ◌≤◌, Option-cases, [], ◌-◌, All,
  get_elem?, ltb, suc, ltb→lt, reverse, zero, drop, take, All-take, get_elem?-drop, get_elem?-take,
  ap₂, either, length-append, ap, All-drop, true, Option, none,
}
use mathlib.Core.Path.{refl}
use mathlib.Core.List.{reverse-append, reverse-reverse}
use construct_server.Transparency.{
  Bytes, leaf_hash, hybrid_leaf_hash, node_hash, merkle_root, inclusion_proof_inner,
  reconstruct_from, inclusion_reconstruct, verify_inclusion, is_some_root, length,
}
use construct_server.Transparency.Split.{split, split_bounds}
use construct_server.Transparency.Merkle.{left_half, right_half, merkle_root-node, single_root}
use construct_server.Transparency.Inclusion.{proof-left, proof-right}

is_some_root_sound : (o : Option Bytes) (root : Bytes) → is_some_root o root ≡ true → o ≡ some root
is_some_root_sound none root h = cc
is_some_root_sound (some r) root h = ap some (bytes_eq_sound r root h)

module _ (sha256 : Bytes → Bytes) where
  -- Two byte strings with one hash.
  pub record Collision : Type 0 where
    pub first : Bytes
    pub second : Bytes
    pub differ : first ≢ second
    pub agree : sha256 first ≡ sha256 second

  -- What the log holds: identity leaves and hybrid leaves.
  pub data IsLeaf (leaf : Bytes) : Type 0 where
    identity : (device_id key : Bytes) → leaf ≡ leaf_hash sha256 device_id key → IsLeaf leaf
    hybrid : (device_id key : Bytes) → leaf ≡ hybrid_leaf_hash sha256 device_id key → IsLeaf leaf

  hash_inputs : (x y : Bytes) → sha256 x ≡ sha256 y → (x ≡ y) ⊎ Collision
  hash_inputs x y agree = elim (Bool-cases (bytes_eq x y)) [
    | inl same ↦ inl (bytes_eq_sound x y same)
    | inr other ↦
        inr (record { first = x; second = y; differ = λ e. bytes_eq-ne x y other e; agree = agree })
  ]

  module _ (wide : (x : Bytes) → length (sha256 x) ≡ 32) where
    leaf_wide : (leaf : Bytes) → IsLeaf leaf → length leaf ≡ 32
    unfolding leaf_hash hybrid_leaf_hash
    leaf_wide leaf (identity d k e) = rw e (wide _)
    leaf_wide leaf (hybrid d k e) = rw e (wide _)

    node_wide : (l r : Bytes) → length (node_hash sha256 l r) ≡ 32
    unfolding node_hash
    node_wide l r = wide _

    -- The domain bytes: a leaf that is a node's hash is a collision.
    leaf-ne-node : (leaf l r : Bytes) → IsLeaf leaf → node_hash sha256 l r ≡ leaf → Collision
    unfolding leaf_hash hybrid_leaf_hash node_hash
    leaf-ne-node leaf l r (identity d k e) h = record {
      first = 0x01 ∷ (l ++ r);
      second = 0x00 ∷ (d ++ k);
      differ = λ p. cc;
      agree = h ∙ e;
    }
    leaf-ne-node leaf l r (hybrid d k e) h = record {
      first = 0x01 ∷ (l ++ r);
      second = 0x02 ∷ (d ++ k);
      differ = λ p. cc;
      agree = h ∙ e;
    }

    -- Equal nodes have equal children.
    node_children :
        (l r l' r' : Bytes)
        → length l ≡ 32
        → length l' ≡ 32
        → node_hash sha256 l r ≡ node_hash sha256 l' r'
        → ((l ≡ l') × (r ≡ r')) ⊎ Collision
    unfolding node_hash
    node_children l r l' r' wl wl' h = elim (hash_inputs (0x01 ∷ (l ++ r)) (0x01 ∷ (l' ++ r')) h) [
      | inl same ↦ inl (append-injective l l' (wl ∙ sym wl') (ground (arith, same)))
      | inr c ↦ inr c
    ]

    node_children_right :
        (l r l' r' : Bytes)
        → length r ≡ 32
        → length r' ≡ 32
        → node_hash sha256 l r ≡ node_hash sha256 l' r'
        → ((l ≡ l') × (r ≡ r')) ⊎ Collision
    unfolding node_hash
    node_children_right l r l' r' wr wr' h =
        elim (hash_inputs (0x01 ∷ (l ++ r)) (0x01 ∷ (l' ++ r')) h) [
          | inl same ↦
              let sizes : length (l ++ r) ≡ length (l' ++ r') = ground (arith, same) in
              let equal : length l ≡ length l' =
                omega (arith, sizes, length-append l r, length-append l' r') in
              inl (append-injective l l' equal (ground (arith, same)))
          | inr c ↦ inr c
        ]

    -- What a rebuilt node was made of.
    module _ (leaf : Bytes) (leaf_is_wide : length leaf ≡ 32) where
      split_left :
          (s : Bytes) (inner : List Bytes) (index size : ℕ) (r : Bytes)
          → index < split size
          → reconstruct_from sha256 leaf (s ∷ inner) index size ≡ some r
          → (l : Bytes) × (reconstruct_from sha256 leaf inner index (split size) ≡ some l)
            × (node_hash sha256 l s ≡ r)
      unfolding reconstruct_from
      split_left s inner index size r lt h =
          elim (Option-cases (reconstruct_from sha256 leaf inner index (split size))) [
            | inl e ↦ absurd (ground (arith, e))
            | inr (l, e) ↦ (l, e, ground (arith, e))
          ]

      split_right :
          (s : Bytes) (inner : List Bytes) (index size : ℕ) (r : Bytes)
          → split size ≤ index
          → reconstruct_from sha256 leaf (s ∷ inner) index size ≡ some r
          → (x : Bytes) × (reconstruct_from sha256 leaf inner
                (index - split size)
                (size - split size)
              ≡ some x)
            × (node_hash sha256 s x ≡ r)
      unfolding reconstruct_from
      split_right s inner index size r le h =
          elim (Option-cases
            (reconstruct_from sha256 leaf inner (index - split size) (size - split size))) [
              | inl e ↦ absurd (ground (arith, e))
              | inr (x, e) ↦ (x, e, ground (arith, e))
            ]

      reconstruct_wide :
          (rp : List Bytes) (index size : ℕ) (r : Bytes)
          → reconstruct_from sha256 leaf rp index size ≡ some r
          → length r ≡ 32
      unfolding reconstruct_from
      reconstruct_wide [] index size r h = let e : leaf ≡ r = ground arith in rw (← e) leaf_is_wide
      reconstruct_wide (s ∷ inner) index size r h = elim (Bool-cases (ltb index (split size))) [
        | inl lt ↦
            let node = split_left s inner index size r (ltb→lt _ _ lt) h in
            rw (← node.2) (node_wide node.0 s)
        | inr ge ↦
            let node = split_right s inner index size r (ground arith) h in
            rw (← node.2) (node_wide s node.0)
      ]

      abbrev Genuine : List Bytes → List Bytes → ℕ → Type 0
      Genuine rp leaves index =
          (get_elem? leaves index ≡ some leaf)
          × (rp ≡ reverse (inclusion_proof_inner sha256 leaves index))

      single_sound :
          (x : Bytes) (rp : List Bytes) (index : ℕ)
          → IsLeaf x
          → index < 1
          → reconstruct_from sha256 leaf rp index 1 ≡ some x
          → Genuine rp (x ∷ []) index ⊎ Collision
      unfolding reconstruct_from inclusion_proof_inner split
      single_sound x [] zero is_leaf lt h = inl (cc, refl)
      single_sound x [] (suc index) is_leaf lt h = absurd (omega arith)
      single_sound x (s ∷ inner) index is_leaf lt h =
          let node = split_right s inner index 1 x (omega arith) h in
          inr (leaf-ne-node x s node.0 is_leaf node.2)

      root_wide :
          (leaves : List Bytes)
          → 1 ≤ length leaves
          → All IsLeaf leaves
          → length (merkle_root sha256 leaves) ≡ 32
      root_wide [] one all = absurd (omega arith)
      root_wide (x ∷ []) one all = rw (single_root sha256 x) (leaf_wide x all.0)
      root_wide (x ∷ y ∷ l) one all =
          rw (merkle_root-node sha256 (x ∷ y ∷ l) (omega arith)) (node_wide _ _)

      module _ (leaves : List Bytes) (two : 2 ≤ length leaves) where
        Genuine-left :
            (s : Bytes) (inner : List Bytes) (index : ℕ)
            → index < split (length leaves)
            → s ≡ merkle_root sha256 (drop (split (length leaves)) leaves)
            → Genuine inner (take (split (length leaves)) leaves) index
            → Genuine (s ∷ inner) leaves index
        Genuine-left s inner index lt outer g = (
          sym (get_elem?-take (split (length leaves)) leaves index lt) ∙ g.0,
          rw
              (
                proof-left sha256 leaves index two lt,
                reverse-append
                    (inclusion_proof_inner sha256 (take (split (length leaves)) leaves) index)
                    (merkle_root sha256 (drop (split (length leaves)) leaves) ∷ []),
              )
              (ap₂ ◌∷◌ outer g.1),
        )

        Genuine-right :
            (s : Bytes) (inner : List Bytes) (index : ℕ)
            → split (length leaves) ≤ index
            → s ≡ merkle_root sha256 (take (split (length leaves)) leaves)
            → Genuine inner (drop (split (length leaves)) leaves) (index - split (length leaves))
            → Genuine (s ∷ inner) leaves index
        Genuine-right s inner index le outer g = (
          sym (get_elem?-drop (split (length leaves)) leaves index le) ∙ g.0,
          rw
              (
                proof-right sha256 leaves index two le,
                reverse-append
                    (inclusion_proof_inner sha256 (drop (split (length leaves)) leaves)
                      (index - split (length leaves)))
                    (merkle_root sha256 (take (split (length leaves)) leaves) ∷ []),
              )
              (ap₂ ◌∷◌ outer g.1),
        )

      sound :
          (rp : List Bytes) (leaves : List Bytes) (index : ℕ)
          → All IsLeaf leaves
          → index < length leaves
          → reconstruct_from sha256 leaf rp index (length leaves) ≡ some (merkle_root sha256 leaves)
          → Genuine rp leaves index ⊎ Collision
      sound rp [] index all lt h = absurd (omega arith)
      sound rp (x ∷ []) index all lt h =
          single_sound x rp index all.0 lt (rw (← single_root sha256 x) h)
      sound [] (x ∷ y ∷ l) index all lt h = absurd (unfold reconstruct_from in ground arith)
      sound (s ∷ inner) (x ∷ y ∷ l) index all lt h =
          let leaves = x ∷ y ∷ l in
          let two : 2 ≤ length leaves = omega arith in
          let k = split (length leaves) in
          let node = merkle_root-node sha256 leaves two in
          let bounds = split_bounds (length leaves) two in
          let lhs = left_half leaves two in
          let rhs = right_half leaves two in
          let left_root =
            root_wide (take k leaves) (omega (arith, lhs, bounds)) (All-take IsLeaf k leaves all) in
          let right_root =
            root_wide (drop k leaves) (omega (arith, rhs, bounds)) (All-drop IsLeaf k leaves all) in
          elim (Bool-cases (ltb index k)) [
            | inl left ↦
                let before : index < k = ltb→lt index k left in
                let (l', hl, top) = split_left s inner index (length leaves) _ before h in
                elim (node_children l' s (merkle_root sha256 (take k leaves))
                  (merkle_root sha256 (drop k leaves)) (reconstruct_wide inner index k l' hl)
                  left_root (top ∙ node)) [
                    | inl (same, outer) ↦
                        either (Genuine-left leaves two s inner index before outer) (
                          sound inner (take k leaves) index (All-take IsLeaf k leaves all)
                            (omega (arith, lhs)) (rw lhs (hl ∙ ap some same)))
                    | inr c ↦ inr c
                  ]
            | inr right ↦
                let after : k ≤ index = ground arith in
                let (r', hr, top) = split_right s inner index (length leaves) _ after h in
                elim (node_children_right s r' (merkle_root sha256 (take k leaves))
                  (merkle_root sha256 (drop k leaves))
                  (reconstruct_wide inner (index - k) (length leaves - k) r' hr) right_root
                  (top ∙ node)) [
                    | inl (outer, same) ↦
                        either (Genuine-right leaves two s inner index after outer) (
                          sound inner (drop k leaves) (index - k) (All-drop IsLeaf k leaves all)
                            (omega (arith, rhs)) (rw rhs (hr ∙ ap some same)))
                    | inr c ↦ inr c
                  ]
          ]

    -- Soundness: when a proof for a leaf hash passes verification at `index` against the root of a
    -- log of leaf hashes, then that leaf stands at `index` in the log and the proof is the one that
    -- the server makes; or two different byte strings with one SHA-256 are at hand.
    pub verify_sound :
        (leaves proof : List Bytes) (index : ℕ) (leaf : Bytes)
        → All IsLeaf leaves
        → IsLeaf leaf
        → verify_inclusion sha256 leaf proof index (length leaves) (merkle_root sha256 leaves)
          ≡ true
        → ((get_elem? leaves index ≡ some leaf)
            × (proof ≡ inclusion_proof_inner sha256 leaves index))
          ⊎ Collision
    unfolding verify_inclusion inclusion_reconstruct
    verify_sound leaves proof index leaf all is_leaf h =
        either (λ g. (g.0, sym (reverse-reverse proof) ∙ ap reverse g.1 ∙ reverse-reverse _))
          (sound leaf (leaf_wide leaf is_leaf) (reverse proof) leaves index all (ground arith)
            (is_some_root_sound _ _ (ground arith)))
