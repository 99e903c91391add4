-- ===== src/Transparency/Merkle.antt =====
-- key-service/src/kt.rs, `merkle_root`: enough fuel, and the defining equation of RFC 6962.
use construct_server.Base.{
  ℕ, zero, suc, ◌-◌, ◌≤◌, ◌≡◌, refl, arith, List, [], ◌∷◌, ap₂, length, take, drop, length-take,
  length-drop,
}
use construct_server.Transparency.{Bytes, node_hash, merkle_root, root_within}
use construct_server.Transparency.Split.{split, split_bounds}

-- The halves of a tree of at least two leaves.
module _ (leaves : List Bytes) (two : 2 ≤ length leaves) where
  pub left_half : length (take (split (length leaves)) leaves) ≡ split (length leaves)
  left_half =
      omega (arith, length-take (split (length leaves)) leaves, split_bounds (length leaves) two)

  pub right_half :
      length (drop (split (length leaves)) leaves) ≡ length leaves - split (length leaves)
  right_half = length-drop (split (length leaves)) leaves

module _ (sha256 : Bytes → Bytes) where
  root_within_enough :
      (f g : ℕ) (leaves : List Bytes)
      → length leaves ≤ f
      → length leaves ≤ g
      → root_within sha256 f leaves ≡ root_within sha256 g leaves
  unfolding root_within
  root_within_enough zero zero leaves hf hg = refl
  root_within_enough zero (suc g) [] hf hg = refl
  root_within_enough zero (suc g) (a ∷ l) hf hg = absurd (omega arith)
  root_within_enough (suc f) zero [] hf hg = refl
  root_within_enough (suc f) zero (a ∷ l) hf hg = absurd (omega arith)
  root_within_enough (suc f) (suc g) [] hf hg = refl
  root_within_enough (suc f) (suc g) (a ∷ []) hf hg = refl
  root_within_enough (suc f) (suc g) (a ∷ b ∷ l) hf hg =
      let leaves = a ∷ b ∷ l in
      let two : 2 ≤ length leaves = omega arith in
      let k = split (length leaves) in
      let bounds = split_bounds (length leaves) two in
      let lhs = left_half leaves two in
      let rhs = right_half leaves two in
      ap₂ (node_hash sha256)
        (root_within_enough f g (take k leaves) (omega (arith, lhs, bounds))
          (omega (arith, lhs, bounds)))
        (root_within_enough f g (drop k leaves) (omega (arith, rhs, bounds))
          (omega (arith, rhs, bounds)))

  -- RFC 6962: the root of two or more leaves is the node over the roots of the halves that `split`
  -- makes.
  pub merkle_root-node :
      (leaves : List Bytes)
      → 2 ≤ length leaves
      → let k = split (length leaves) in
        merkle_root sha256 leaves
        ≡ node_hash sha256 (merkle_root sha256 (take k leaves)) (merkle_root sha256 (drop k leaves))
  unfolding merkle_root root_within
  merkle_root-node [] two = absurd (omega arith)
  merkle_root-node (a ∷ []) two = absurd (omega arith)
  merkle_root-node (a ∷ b ∷ l) two =
      let leaves = a ∷ b ∷ l in
      let k = split (length leaves) in
      let bounds = split_bounds (length leaves) two in
      let lhs = left_half leaves two in
      let rhs = right_half leaves two in
      ap₂ (node_hash sha256)
        (root_within_enough (suc (length l)) (length (take k leaves)) (take k leaves)
          (omega (arith, lhs, bounds)) (omega arith))
        (root_within_enough (suc (length l)) (length (drop k leaves)) (drop k leaves)
          (omega (arith, rhs, bounds)) (omega arith))

  -- The root of a tree of one leaf is the leaf.
  pub single_root : (leaf : Bytes) → merkle_root sha256 (leaf ∷ []) ≡ leaf
  unfolding merkle_root root_within
  single_root leaf = refl
