-- ===== src/KeyLog/Tests.antt =====
-- The key transparency log at concrete inputs, with a stand-in for SHA-256 that pads to 32 bytes.
use construct_server.Base.{
  All, List, get_elem?, length, take, ℕ, ◌∷◌, ◌≡◌, [], arith, refl, some, ◌++◌, length-take, none,
  suc, true, ◌⊎◌, length-append, zero,
}
use construct_server.Transparency.{
  Bytes, leaf_hash, merkle_root, inclusion_proof_inner, generate_inclusion_proof, verify_inclusion,
}
use construct_server.Transparency.Split.{split}
use construct_server.Transparency.Inclusion.{generate-verify}
use construct_server.Transparency.Soundness.{Collision, IsLeaf, identity, verify_sound}
use construct_server.KeyLog.{
  Table, KtProofs, db_ensure_leaf, db_get_all_leaves, build_kt_proofs, List, length, ℕ, ◌∷◌,
}
use construct_server.KeyLog.Order.{IsDense}
use construct_server.KeyLog.Append.{ensure_leaf-position}
use construct_server.KeyLog.Bundle.{IsAccepted, HybridAccepted, build_kt_proofs-IsAccepted}

abbrev zeros : ℕ → Bytes
zeros zero = []
zeros (suc n) = 0 ∷ zeros n

abbrev pad_hash : Bytes → Bytes
pad_hash x = take 32 (x ++ zeros 32)

pad_hash-wide : (x : Bytes) → length (pad_hash x) ≡ 32
pad_hash-wide x = omega (arith, length-take 32 (x ++ zeros 32), length-append x (zeros 32))

-- Devices 1, 2 and 3 with their keys.
abbrev three_leaves : List Bytes
three_leaves =
    leaf_hash pad_hash (1 ∷ []) (10 ∷ [])
    ∷ leaf_hash pad_hash (2 ∷ []) (20 ∷ [])
    ∷ leaf_hash pad_hash (3 ∷ []) (30 ∷ [])
    ∷ []

three_leaves-IsLeaf : All (IsLeaf pad_hash) three_leaves
three_leaves-IsLeaf = (identity _ _ refl, (identity _ _ refl, (identity _ _ refl, tt)))

split_three : split 3 ≡ 2
unfolding split
split_three = refl

generate-verify_example :
    let proof = inclusion_proof_inner pad_hash three_leaves 1 in
    let root = merkle_root pad_hash three_leaves in
    (generate_inclusion_proof pad_hash three_leaves 1 ≡ some (proof, root))
    × (verify_inclusion pad_hash (leaf_hash pad_hash (2 ∷ []) (20 ∷ [])) proof 1 3 root ≡ true)
generate-verify_example =
    generate-verify pad_hash three_leaves 1 (leaf_hash pad_hash (2 ∷ []) (20 ∷ [])) refl

verify_sound_example :
    ((get_elem? three_leaves 1 ≡ some (leaf_hash pad_hash (2 ∷ []) (20 ∷ [])))
      × (inclusion_proof_inner pad_hash three_leaves 1
          ≡ inclusion_proof_inner pad_hash three_leaves 1))
    ⊎ Collision pad_hash
verify_sound_example =
    verify_sound pad_hash pad_hash-wide three_leaves (inclusion_proof_inner pad_hash three_leaves 1)
      1 (leaf_hash pad_hash (2 ∷ []) (20 ∷ [])) three_leaves-IsLeaf (identity _ _ refl)
      generate-verify_example.1

abbrev one_row : Table
one_row =
    record { device_id = 1 ∷ []; leaf_kind = 0; row_hash = pad_hash (7 ∷ []); tree_index = 0 } ∷ []

one_row-IsDense : IsDense one_row
one_row-IsDense = (refl, refl, tt)

-- Device 1 rotates its key: a second leaf, at position 1.
rotation : (db_ensure_leaf (1 ∷ []) 0 (pad_hash (8 ∷ [])) one_row).1 ≡ 1
unfolding db_ensure_leaf
rotation = refl

ensure_leaf-position_example :
    let (rows', index) = db_ensure_leaf (1 ∷ []) 0 (pad_hash (8 ∷ [])) one_row in
    (IsDense rows')
    × (before : List Bytes) × (after : List Bytes) × (db_get_all_leaves one_row ≡ some before)
    × (db_get_all_leaves rows' ≡ some after)
    × (get_elem? after index ≡ some (pad_hash (8 ∷ [])))
    × ((after ≡ before) ⊎ (after ≡ before ++ (pad_hash (8 ∷ []) ∷ [])))
ensure_leaf-position_example =
    ensure_leaf-position (1 ∷ []) 0 (pad_hash (8 ∷ [])) one_row one_row-IsDense refl

abbrev head_body : ℕ → Bytes → Bytes
head_body size root = size ∷ root

build_kt_proofs-IsAccepted_example :
    let (rows', result) =
      build_kt_proofs pad_hash
        (λ m. m)
        head_body
        (1 ∷ [])
        (10 ∷ [])
        (some (11 ∷ []))
        none
        5
        one_row in
    (IsDense rows')
    × (leaves : List Bytes) × (proofs : KtProofs) × (db_get_all_leaves rows' ≡ some leaves)
    × (result ≡ some proofs)
    × IsAccepted pad_hash
        (λ m. m)
        head_body
        (leaf_hash pad_hash (1 ∷ []) (10 ∷ []))
        (merkle_root pad_hash leaves)
        (length leaves)
        proofs.identity
    × HybridAccepted pad_hash
        (λ m. m)
        head_body
        (1 ∷ [])
        (some (11 ∷ []))
        (merkle_root pad_hash leaves)
        (length leaves)
        proofs.hybrid
build_kt_proofs-IsAccepted_example =
    build_kt_proofs-IsAccepted pad_hash (λ m. m) head_body pad_hash-wide (1 ∷ []) (10 ∷ [])
      (some (11 ∷ [])) none 5 one_row one_row-IsDense
