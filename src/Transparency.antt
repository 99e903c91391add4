-- ===== src/Transparency.antt =====
-- key-service/src/kt.rs: the RFC 6962 Merkle tree of the key transparency log, its inclusion proofs
-- and their verification. SHA-256 is the parameter `sha256`, from byte strings to byte strings; a
-- `[u8; 32]` is a byte string, and that it has 32 bytes is a hypothesis where it matters.
pub mod Split
pub mod Merkle
pub mod Inclusion
pub mod Soundness
use construct_server.Base.{
  ℕ, zero, suc, ◌+◌, ◌-◌, Bool, true, false, Option, none, some, List, [], ◌∷◌, ◌++◌, reverse,
  length, take, drop, ltb, leb, ◌==◌, ◌&&◌, ◌||◌, if◌then◌else◌, bytes_eq,
}
use mathlib.Core.Option
use Split.{split}

abbrev pub Bytes : Type 0
Bytes = List ℕ

-- `== Some(*root)`.
abbrev is_some_root : Option Bytes → Bytes → Bool
is_some_root none root = false
is_some_root (some r) root = bytes_eq r root

module _ (sha256 : Bytes → Bytes) where
  unfoldable pub leaf_hash : Bytes → Bytes → Bytes
  leaf_hash device_id identity_key_raw = sha256 (0x00 ∷ (device_id ++ identity_key_raw))

  unfoldable pub hybrid_leaf_hash : Bytes → Bytes → Bytes
  hybrid_leaf_hash device_id hybrid_identity_key =
      sha256 (0x02 ∷ (device_id ++ hybrid_identity_key))

  unfoldable pub node_hash : Bytes → Bytes → Bytes
  node_hash left right = sha256 (0x01 ∷ (left ++ right))

  -- The recursion on both halves, on fuel: each half is smaller than the tree, so as many rounds
  -- as there are leaves are enough (`Merkle.root_within_enough`).
  root_within : ℕ → List Bytes → Bytes
  root_within zero leaves = sha256 []
  root_within (suc fuel) [] = sha256 []
  root_within (suc fuel) (leaf ∷ []) = leaf
  root_within (suc fuel) (a ∷ b ∷ rest) =
      let leaves = a ∷ b ∷ rest in
      let k = split (length leaves) in
      node_hash (root_within fuel (take k leaves)) (root_within fuel (drop k leaves))

  unfoldable pub merkle_root : List Bytes → Bytes
  unfolding root_within
  merkle_root leaves = root_within (length leaves) leaves

  -- `proof.push(x)` appends: the innermost sibling stands first.
  proof_within : ℕ → List Bytes → ℕ → List Bytes
  proof_within zero leaves index = []
  proof_within (suc fuel) leaves index =
      let n = length leaves in
      let k = split n in
      let left = proof_within fuel (take k leaves) index ++ (merkle_root (drop k leaves) ∷ []) in
      let right =
        proof_within fuel (drop k leaves) (index - k) ++ (merkle_root (take k leaves) ∷ []) in
      if n == 1 then [] else if ltb index k then left else right

  unfoldable pub inclusion_proof_inner : List Bytes → ℕ → List Bytes
  unfolding proof_within
  inclusion_proof_inner leaves index = proof_within (length leaves) leaves index

  unfoldable pub generate_inclusion_proof : List Bytes → ℕ → Option (List Bytes × Bytes)
  generate_inclusion_proof leaves index =
      if length leaves == 0 || leb (length leaves) index
      then none
      else some (inclusion_proof_inner leaves index, merkle_root leaves)

  -- The source takes the last proof element first; this recursion is on the reversed proof.
  reconstruct_from : Bytes → List Bytes → ℕ → ℕ → Option Bytes
  reconstruct_from leaf [] index size = if size == 1 && index == 0 then some leaf else none
  reconstruct_from leaf (sibling ∷ inner) index size =
      let k = split size in
      let left = Option.map (λ l. node_hash l sibling) (reconstruct_from leaf inner index k) in
      let right =
        Option.map (λ r. node_hash sibling r)
          (reconstruct_from leaf inner (index - k) (size - k)) in
      if ltb index k then left else right

  unfoldable pub inclusion_reconstruct : Bytes → List Bytes → ℕ → ℕ → Option Bytes
  unfolding reconstruct_from
  inclusion_reconstruct leaf proof index size = reconstruct_from leaf (reverse proof) index size

  unfoldable pub verify_inclusion : Bytes → List Bytes → ℕ → ℕ → Bytes → Bool
  verify_inclusion leaf proof index tree_size root =
      if tree_size == 0 || leb tree_size index
      then false
      else is_some_root (inclusion_reconstruct leaf proof index tree_size) root
