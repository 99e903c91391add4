-- ===== src/KeyLog/Bundle.antt =====
-- key-service/src/kt.rs, `build_kt_proofs`: the proofs of a bundle verify, against one head.
use construct_server.Base.{ℕ, List, ◌≡◌, get_elem?, true, some, length, refl, Option, none, ◌>>=◌}
use construct_server.Transparency.{
  Bytes, leaf_hash, hybrid_leaf_hash, merkle_root, inclusion_proof_inner, verify_inclusion,
}
use construct_server.Transparency.Inclusion.{generate-verify}
use construct_server.KeyLog.{
  Table, KtProof, KtProofs, HeadSigner, make_proof, sign_head, hybrid_proof, db_get_all_leaves,
  leaf_kind_identity, leaf_kind_hybrid, proofs_from_snapshot, ensure_hybrid, build_kt_proofs,
  tree_head_signable, ℕ,
}
use construct_server.KeyLog.Order.{IsDense, leaves_of, get_all_leaves_lem}
use construct_server.KeyLog.Append.{ensure_leaf-Ensured, ensure_leaf-keeps}

module _ (sha256 : Bytes → Bytes) (ed25519_sign : Bytes → Bytes)
    (kt_head_body : ℕ → Bytes → Bytes) where
  -- A proof that a client accepts for `leaf`: it verifies against the root and the size it names,
  -- and its head is signed for exactly those.
  pub record IsAccepted (leaf : Bytes) (root : Bytes) (size : ℕ) (p : KtProof) : Type 0 where
    pub same_root : p.root_hash ≡ root
    pub same_size : p.tree_size ≡ size
    pub verifies :
        verify_inclusion sha256 leaf p.proof_hashes p.leaf_index p.tree_size p.root_hash ≡ true
    pub signed : p.tree_head_signature ≡ ed25519_sign (tree_head_signable p.tree_size p.root_hash)

  make_proof-IsAccepted :
      (leaves : List Bytes) (index : ℕ) (leaf : Bytes)
      → get_elem? leaves index ≡ some leaf
      → IsAccepted leaf (merkle_root sha256 leaves) (length leaves) (
          make_proof sha256 ed25519_sign kt_head_body
            (length leaves)
            (merkle_root sha256 leaves)
            index
            (inclusion_proof_inner sha256 leaves index))
  unfolding make_proof
  make_proof-IsAccepted leaves index leaf at = record {
    same_root = refl;
    same_size = refl;
    verifies = (generate-verify sha256 leaves index leaf at).1;
    signed = refl;
  }

  -- The hybrid proof of a device: none without a hybrid key, an accepted one with it.
  abbrev pub HybridAccepted : Bytes → Option Bytes → Bytes → ℕ → Option KtProof → Type 0
  HybridAccepted device_id none root size hybrid = hybrid ≡ none
  HybridAccepted device_id (some key) root size hybrid =
      (p : KtProof) × (hybrid ≡ some p)
      × IsAccepted (hybrid_leaf_hash sha256 device_id key) root size p

  hybrid_proof-accepted :
      (leaves : List Bytes) (index : ℕ) (device_id key : Bytes)
      → get_elem? leaves index ≡ some (hybrid_leaf_hash sha256 device_id key)
      → (hybrid : Option KtProof) × (hybrid_proof sha256 ed25519_sign kt_head_body leaves
            (merkle_root sha256 leaves)
            (some index)
          ≡ some hybrid)
        × HybridAccepted device_id (some key) (merkle_root sha256 leaves) (length leaves) hybrid
  unfolding hybrid_proof
  hybrid_proof-accepted leaves index device_id key at =
      let made = (generate-verify sha256 leaves index _ at).0 in
      let p =
        make_proof sha256 ed25519_sign kt_head_body (length leaves) (merkle_root sha256 leaves)
          index (inclusion_proof_inner sha256 leaves index) in
      (some p, rw made, (p, refl, make_proof-IsAccepted leaves index _ at))

  snapshot-IsAccepted :
      (leaves : List Bytes) (identity_index : ℕ) (hybrid_index : Option ℕ)
      (signer : Option HeadSigner) (now : ℕ) (leaf : Bytes) (hybrid : Option KtProof)
      → get_elem? leaves identity_index ≡ some leaf
      → hybrid_proof sha256 ed25519_sign kt_head_body leaves
          (merkle_root sha256 leaves)
          hybrid_index
        ≡ some hybrid
      → (proofs : KtProofs) × (proofs_from_snapshot sha256 ed25519_sign kt_head_body leaves
            identity_index hybrid_index signer now
          ≡ some proofs)
        × IsAccepted leaf (merkle_root sha256 leaves) (length leaves) proofs.identity
        × (proofs.hybrid ≡ hybrid)
  unfolding proofs_from_snapshot
  snapshot-IsAccepted leaves identity_index hybrid_index signer now leaf hybrid at made = (
    record {
      identity =
          make_proof sha256 ed25519_sign kt_head_body (length leaves) (merkle_root sha256 leaves)
            identity_index (inclusion_proof_inner sha256 leaves identity_index);
      hybrid = hybrid;
      head =
          sign_head sha256 ed25519_sign kt_head_body signer (length leaves)
            (merkle_root sha256 leaves) now;
    },
    rw ((generate-verify sha256 leaves identity_index leaf at).0, ◌>>=◌, made),
    make_proof-IsAccepted leaves identity_index leaf at,
    refl,
  )

  module _ (wide : (x : Bytes) → length (sha256 x) ≡ 32) where
    leaf_hash-wide : (d k : Bytes) → length (leaf_hash sha256 d k) ≡ 32
    unfolding leaf_hash
    leaf_hash-wide d k = wide _

    hybrid_leaf_hash-wide : (d k : Bytes) → length (hybrid_leaf_hash sha256 d k) ≡ 32
    unfolding hybrid_leaf_hash
    hybrid_leaf_hash-wide d k = wide _

    ensure_hybrid-made :
        (device_id : Bytes) (hybrid_key : Option Bytes) (rows : Table) (index : ℕ) (leaf : Bytes)
        → IsDense rows
        → get_elem? (leaves_of rows) index ≡ some leaf
        → let (rows', hybrid_index) =
            ensure_hybrid sha256 ed25519_sign kt_head_body device_id hybrid_key rows in
          let root = merkle_root sha256 (leaves_of rows') in
          (IsDense rows')
          × (get_elem? (leaves_of rows') index ≡ some leaf)
          × (hybrid : Option KtProof) × (hybrid_proof sha256 ed25519_sign kt_head_body
                (leaves_of rows')
                root
                hybrid_index
              ≡ some hybrid)
          × HybridAccepted device_id hybrid_key root (length (leaves_of rows')) hybrid
    unfolding ensure_hybrid
    ensure_hybrid-made device_id none rows index leaf dense at =
        (dense, at, none, unfold hybrid_proof in refl, refl)
    ensure_hybrid-made device_id (some key) rows index leaf dense at =
        let lhash = hybrid_leaf_hash sha256 device_id key in
        let w = hybrid_leaf_hash-wide device_id key in
        let (d, position, _) = ensure_leaf-Ensured device_id leaf_kind_hybrid lhash rows dense w in
        let (hybrid, made, accepted) = hybrid_proof-accepted _ _ device_id key position in
        (
          d,
          ensure_leaf-keeps device_id leaf_kind_hybrid lhash rows index dense w at,
          hybrid,
          made,
          accepted,
        )

    -- For every device, on a dense table, the call succeeds and keeps the table dense; the identity
    -- proof, and the hybrid proof when the device has a hybrid key, are for that device's leaf,
    -- verify against the root and the size of the log that was loaded, and carry its signed head.
    pub build_kt_proofs-IsAccepted :
        (device_id identity_key : Bytes) (hybrid_key : Option Bytes) (signer : Option HeadSigner)
        (now : ℕ) (rows : Table)
        → IsDense rows
        → let (rows', result) =
            build_kt_proofs sha256 ed25519_sign kt_head_body device_id identity_key hybrid_key
              signer now rows in
          (IsDense rows')
          × (leaves : List Bytes) × (proofs : KtProofs) × (db_get_all_leaves rows' ≡ some leaves)
          × (result ≡ some proofs)
          × IsAccepted
              (leaf_hash sha256 device_id identity_key)
              (merkle_root sha256 leaves)
              (length leaves)
              proofs.identity
          × HybridAccepted device_id hybrid_key
              (merkle_root sha256 leaves)
              (length leaves)
              proofs.hybrid
    unfolding build_kt_proofs
    build_kt_proofs-IsAccepted device_id identity_key hybrid_key signer now rows dense =
        let lhash = leaf_hash sha256 device_id identity_key in
        let (d₁, position, _) =
          ensure_leaf-Ensured device_id leaf_kind_identity lhash rows dense
            (leaf_hash-wide device_id identity_key) in
        let (d₂, at, hybrid, made, accepted) =
          ensure_hybrid-made device_id hybrid_key _ _ lhash d₁ position in
        let loaded = get_all_leaves_lem _ d₂ in
        let (proofs, result, identity, same) =
          snapshot-IsAccepted _ _ _ signer now lhash hybrid at made in
        (d₂, _, proofs, loaded, rw (loaded, ◌>>=◌) result, identity, rw same accepted)
