-- ===== src/Transparency/Inclusion.antt =====
-- key-service/src/kt.rs, `generate_inclusion_proof` and `verify_inclusion`: every proof that the
-- server makes is accepted.
use construct_server.Base.{
  ◌≤◌, length, ◌<◌, ◌≡◌, arith, drop, take, suc, ◌++◌, ◌-◌, Bool-cases, ◌∷◌, [], ◌==◌, inl, inr,
  get_elem?, zero, some, ltb, le→not_ltb, lt→ltb, true, ◌∙◌, ap, sym, ltb→lt, get_elem?-take, subst,
  get_elem?-drop, get_elem?-some, none, bytes_eq_refl, false,
}
use mathlib.Core.Path.{refl}
use mathlib.Core.Option
use mathlib.Core.List.{reverse-append}
use construct_server.Transparency.{
  Bytes, node_hash, merkle_root, proof_within, inclusion_proof_inner, generate_inclusion_proof,
  inclusion_reconstruct, verify_inclusion, List, ℕ,
}
use construct_server.Transparency.Split.{split, split_bounds}
use construct_server.Transparency.Merkle.{left_half, right_half, merkle_root-node, single_root}

module _ (sha256 : Bytes → Bytes) where
  proof_within_enough :
      (f g : ℕ) (leaves : List Bytes) (index : ℕ)
      → 1 ≤ length leaves
      → length leaves ≤ f
      → length leaves ≤ g
      → proof_within sha256 f leaves index ≡ proof_within sha256 g leaves index
  unfolding proof_within
  proof_within_enough zero g leaves index one hf hg = absurd (omega arith)
  proof_within_enough (suc f) zero leaves index one hf hg = absurd (omega arith)
  proof_within_enough (suc f) (suc g) leaves index one hf hg =
      elim (Bool-cases (length leaves == 1)) [
        | inl single ↦ rw single
        | inr more ↦
            let two : 2 ≤ length leaves = ground arith in
            let k = split (length leaves) in
            let bounds = split_bounds (length leaves) two in
            let lhs = left_half leaves two in
            let rhs = right_half leaves two in
            rw (
              more,
              proof_within_enough f g (take k leaves) index (omega (arith, lhs, bounds))
                  (omega (arith, lhs, bounds)) (omega (arith, lhs, bounds)),
              proof_within_enough f g (drop k leaves) (index - k) (omega (arith, rhs, bounds))
                  (omega (arith, rhs, bounds)) (omega (arith, rhs, bounds)),
            )
      ]

  pub proof-left :
      (leaves : List Bytes) (index : ℕ)
      → 2 ≤ length leaves
      → index < split (length leaves)
      → let k = split (length leaves) in
        inclusion_proof_inner sha256 leaves index
        ≡ inclusion_proof_inner sha256 (take k leaves) index
          ++ (merkle_root sha256 (drop k leaves) ∷ [])
  unfolding inclusion_proof_inner
  proof-left [] index two h = absurd (omega arith)
  proof-left (a ∷ l) index two h =
      let leaves = a ∷ l in
      let half = take (split (length leaves)) leaves in
      let bounds = split_bounds (length leaves) two in
      let size = left_half leaves two in
      let enough : proof_within sha256 (length l) half index
          ≡ proof_within sha256 (length half) half index =
        proof_within_enough (length l) (length half) half index (omega (arith, size, bounds))
          (omega (arith, size, bounds)) (omega arith) in
      ground (arith, enough)

  pub proof-right :
      (leaves : List Bytes) (index : ℕ)
      → 2 ≤ length leaves
      → split (length leaves) ≤ index
      → let k = split (length leaves) in
        inclusion_proof_inner sha256 leaves index
        ≡ inclusion_proof_inner sha256 (drop k leaves) (index - k)
          ++ (merkle_root sha256 (take k leaves) ∷ [])
  unfolding inclusion_proof_inner
  proof-right [] index two h = absurd (omega arith)
  proof-right (a ∷ l) index two h =
      let leaves = a ∷ l in
      let half = drop (split (length leaves)) leaves in
      let bounds = split_bounds (length leaves) two in
      let size = right_half leaves two in
      let enough : proof_within sha256 (length l) half (index - split (length leaves))
          ≡ proof_within sha256 (length half) half (index - split (length leaves)) =
        proof_within_enough (length l) (length half) half (index - split (length leaves))
          (omega (arith, size, bounds)) (omega (arith, size, bounds)) (omega arith) in
      ground (arith, enough)

  -- The last proof element is the outermost sibling.
  pub reconstruct_left :
      (leaf : Bytes) (proof : List Bytes) (sibling : Bytes) (index size : ℕ)
      → index < split size
      → inclusion_reconstruct sha256 leaf (proof ++ (sibling ∷ [])) index size
        ≡ Option.map
            (λ l. node_hash sha256 l sibling)
            (inclusion_reconstruct sha256 leaf proof index (split size))
  unfolding inclusion_reconstruct
  reconstruct_left leaf proof sibling index size h =
      rw (reverse-append proof (sibling ∷ []), lt→ltb _ _ h)

  pub reconstruct_right :
      (leaf : Bytes) (proof : List Bytes) (sibling : Bytes) (index size : ℕ)
      → split size ≤ index
      → inclusion_reconstruct sha256 leaf (proof ++ (sibling ∷ [])) index size
        ≡ Option.map
            (λ r. node_hash sha256 sibling r)
            (inclusion_reconstruct sha256 leaf proof (index - split size) (size - split size))
  unfolding inclusion_reconstruct
  reconstruct_right leaf proof sibling index size h =
      rw (reverse-append proof (sibling ∷ []), le→not_ltb _ _ h)

  single_reconstruct :
      (leaf : Bytes)
      → inclusion_reconstruct sha256 leaf (inclusion_proof_inner sha256 (leaf ∷ []) 0) 0 1
        ≡ some leaf
  unfolding inclusion_reconstruct inclusion_proof_inner
  single_reconstruct leaf = refl

  -- Rebuilding the root from the proof that the code makes for `index` gives the root of the tree.
  reconstruct-proof :
      (bound : ℕ) (leaves : List Bytes) (index : ℕ) (leaf : Bytes)
      → length leaves ≤ bound
      → get_elem? leaves index ≡ some leaf
      → inclusion_reconstruct sha256 leaf
          (inclusion_proof_inner sha256 leaves index)
          index
          (length leaves)
        ≡ some (merkle_root sha256 leaves)
  reconstruct-proof zero [] index leaf h at_index = cc
  reconstruct-proof zero (a ∷ l) index leaf h at_index = absurd (omega arith)
  reconstruct-proof (suc bound) [] index leaf h at_index = cc
  reconstruct-proof (suc bound) (a ∷ []) zero leaf h at_index =
      let e : a ≡ leaf = cc in
      rw e (single_reconstruct leaf ∙ ap some (sym (single_root sha256 leaf)))
  reconstruct-proof (suc bound) (a ∷ []) (suc index) leaf h at_index = cc
  reconstruct-proof (suc bound) (a ∷ b ∷ l) index leaf h at_index =
      let leaves = a ∷ b ∷ l in
      let two : 2 ≤ length leaves = omega arith in
      let k = split (length leaves) in
      let bounds = split_bounds (length leaves) two in
      let lhs = left_half leaves two in
      let rhs = right_half leaves two in
      elim (Bool-cases (ltb index k)) [
        | inl left ↦
            let before : index < k = ltb→lt index k left in
            let ih =
              reconstruct-proof bound (take k leaves) index leaf (omega (arith, lhs, bounds))
                (get_elem?-take k leaves index before ∙ at_index) in
            rw
              (
                proof-left leaves index two before,
                reconstruct_left leaf (inclusion_proof_inner sha256 (take k leaves) index)
                    (merkle_root sha256 (drop k leaves)) index (length leaves) before,
                merkle_root-node sha256 leaves two,
              )
              (ap (Option.map (λ x. node_hash sha256 x (merkle_root sha256 (drop k leaves)))) (
                subst
                  (λ n.
                    inclusion_reconstruct sha256 leaf
                      (inclusion_proof_inner sha256 (take k leaves) index) index n
                    ≡ some (merkle_root sha256 (take k leaves)))
                  lhs ih))
        | inr right ↦
            let after : k ≤ index = ground arith in
            let ih =
              reconstruct-proof bound (drop k leaves) (index - k) leaf (omega (arith, rhs, bounds))
                (get_elem?-drop k leaves index after ∙ at_index) in
            rw
              (
                proof-right leaves index two after,
                reconstruct_right leaf (inclusion_proof_inner sha256 (drop k leaves) (index - k))
                    (merkle_root sha256 (take k leaves)) index (length leaves) after,
                merkle_root-node sha256 leaves two,
              )
              (ap (Option.map (node_hash sha256 (merkle_root sha256 (take k leaves)))) (
                subst
                  (λ n.
                    inclusion_reconstruct sha256 leaf
                      (inclusion_proof_inner sha256 (drop k leaves) (index - k)) (index - k) n
                    ≡ some (merkle_root sha256 (drop k leaves)))
                  rhs ih))
      ]

  -- Completeness: for a leaf of the log the server's proof is the audit path to the root of the
  -- tree, and that proof, that root and that leaf pass verification at the leaf's index.
  pub generate-verify :
      (leaves : List Bytes) (index : ℕ) (leaf : Bytes)
      → get_elem? leaves index ≡ some leaf
      → let proof = inclusion_proof_inner sha256 leaves index in
        let root = merkle_root sha256 leaves in
        (generate_inclusion_proof sha256 leaves index ≡ some (proof, root))
        × (verify_inclusion sha256 leaf proof index (length leaves) root ≡ true)
  unfolding generate_inclusion_proof verify_inclusion
  generate-verify leaves index leaf at_index =
      let inside : index < length leaves = get_elem?-some leaves index at_index in
      let rebuilt = reconstruct-proof (length leaves) leaves index leaf (omega arith) at_index in
      (ground arith, ground (arith, rebuilt, bytes_eq_refl (merkle_root sha256 leaves)))

  -- Out of range there is no proof, and no proof is accepted.
  pub generate-verify_outside :
      (leaves : List Bytes) (index : ℕ) (leaf : Bytes) (proof : List Bytes) (root : Bytes)
      → length leaves ≤ index
      → (generate_inclusion_proof sha256 leaves index ≡ none)
        × (verify_inclusion sha256 leaf proof index (length leaves) root ≡ false)
  unfolding generate_inclusion_proof verify_inclusion
  generate-verify_outside leaves index leaf proof root outside = (ground arith, ground arith)
