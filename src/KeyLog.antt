-- ===== src/KeyLog.antt =====
-- key-service/src/kt.rs: the kt_leaves table and the proofs of a key bundle.
--
-- The table is the list of its rows, the last one inserted first. A transaction under the append
-- lock is one step; the statements of a failed one leave no trace, so only runs in which the
-- database answers are modelled. SHA-256, the Ed25519 signing key, `kt_head_body` and the delegated
-- signer are parameters.
pub mod Order
pub mod Append
pub mod Bundle
pub mod Tests
use construct_server.Base.{
  ℕ, zero, suc, ◌+◌, ◌*◌, ◌/◌, ◌%◌, ◌^◌, Bool, true, false, Option, none, some, List, [], ◌∷◌, ◌++◌,
  map, length, ltb, leb, ◌==◌, ◌&&◌, if◌then◌else◌, bytes_eq, ◌>>=◌,
}
use construct_server.Transparency.{Bytes, leaf_hash, hybrid_leaf_hash, generate_inclusion_proof}
use mathlib.Core.Option

pub record Row : Type 0 where
  pub device_id : Bytes
  pub leaf_kind : ℕ
  pub row_hash : Bytes
  pub tree_index : ℕ

abbrev pub Table : Type 0
Table = List Row

abbrev pub leaf_kind_identity : ℕ
leaf_kind_identity = 0

abbrev pub leaf_kind_hybrid : ℕ
leaf_kind_hybrid = 1

-- `WHERE device_id = $1 AND leaf_kind = $2`.
abbrev pub selects : Bytes → ℕ → Row → Bool
selects device_id leaf_kind r = bytes_eq r.device_id device_id && r.leaf_kind == leaf_kind

-- The later of a row and the latest of the others.
abbrev pub later : Row → Option Row → Row
later r none = r
later r (some s) = if ltb r.tree_index s.tree_index then s else r

-- `... ORDER BY tree_index DESC LIMIT 1`.
pub latest : Bytes → ℕ → Table → Option Row
latest device_id leaf_kind [] = none
latest device_id leaf_kind (r ∷ rows) =
    let rest = latest device_id leaf_kind rows in
    if selects device_id leaf_kind r then some (later r rest) else rest

abbrev pub max_of : ℕ → Option ℕ → ℕ
max_of a none = a
max_of a (some b) = if ltb a b then b else a

-- `MAX(tree_index)`.
pub max_index : Table → Option ℕ
max_index [] = none
max_index (r ∷ rows) = some (max_of r.tree_index (max_index rows))

-- `COALESCE(MAX(tree_index), -1) + 1`.
pub next_index : Table → ℕ
unfolding max_index
next_index rows = Option.get_or (Option.map suc (max_index rows)) 0

pub insert_leaf : Bytes → ℕ → Bytes → Table → Table × ℕ
insert_leaf device_id leaf_kind lhash rows =
    let index = next_index rows in
    let row : Row = record {
      device_id = device_id;
      leaf_kind = leaf_kind;
      row_hash = lhash;
      tree_index = index;
    } in
    (row ∷ rows, index)

-- What `db_ensure_leaf` does after it has read the latest leaf of the device.
pub ensure_after : Option Row → Bytes → ℕ → Bytes → Table → Table × ℕ
unfolding insert_leaf next_index
ensure_after none device_id leaf_kind lhash rows = insert_leaf device_id leaf_kind lhash rows
ensure_after (some existing) device_id leaf_kind lhash rows =
    if bytes_eq existing.row_hash lhash
    then (rows, existing.tree_index)
    else insert_leaf device_id leaf_kind lhash rows

pub db_ensure_leaf : Bytes → ℕ → Bytes → Table → Table × ℕ
unfolding ensure_after latest
db_ensure_leaf device_id leaf_kind lhash rows =
    ensure_after (latest device_id leaf_kind rows) device_id leaf_kind lhash rows

-- `ORDER BY tree_index ASC`.
pub insert_row : Row → Table → Table
insert_row r [] = r ∷ []
insert_row r (s ∷ rows) =
    if leb r.tree_index s.tree_index then r ∷ s ∷ rows else s ∷ insert_row r rows

pub in_order : Table → Table
unfolding insert_row
in_order [] = []
in_order (r ∷ rows) = insert_row r (in_order rows)

-- `h.try_into::<[u8; 32]>()` on every row: one that has not 32 bytes fails the load.
pub to_arrays : Table → Option (List Bytes)
to_arrays [] = some []
to_arrays (r ∷ rows) =
    let rest = to_arrays rows in
    if length r.row_hash == 32 then Option.map (◌∷◌ r.row_hash) rest else none

pub db_get_all_leaves : Table → Option (List Bytes)
unfolding in_order to_arrays
db_get_all_leaves rows = to_arrays (in_order rows)

pub record KtProof : Type 0 where
  pub leaf_index : ℕ
  pub tree_size : ℕ
  pub root_hash : Bytes
  pub proof_hashes : List Bytes
  pub tree_head_signature : Bytes

pub record SignedTreeHead : Type 0 where
  pub tree_size : ℕ
  pub root_hash : Bytes
  pub kid : Bytes
  pub signature : Bytes

pub record KtProofs : Type 0 where
  pub identity : KtProof
  pub hybrid : Option KtProof
  pub head : Option SignedTreeHead

-- `DelegatedSigner`: `sign` refuses outside the window of its delegation.
pub record HeadSigner : Type 0 where
  pub kid : Bytes
  pub sign : Bytes → ℕ → Option Bytes

-- Big-endian, `count` bytes.
pub be_bytes : ℕ → ℕ → Bytes
be_bytes zero n = []
be_bytes (suc count) n = (n / 256 ^ count % 256) ∷ be_bytes count n

-- "ConstructKT-v1", the tree size in 8 bytes, the root.
unfoldable pub tree_head_signable : ℕ → Bytes → Bytes
unfolding be_bytes
tree_head_signable tree_size root =
    (0x43 ∷ 0x6f ∷ 0x6e ∷ 0x73 ∷ 0x74 ∷ 0x72 ∷ 0x75 ∷ 0x63 ∷ 0x74 ∷ 0x4b ∷ 0x54 ∷ 0x2d ∷ 0x76 ∷ 0x31
      ∷ [])
    ++ (be_bytes 8 tree_size ++ root)

module _ (sha256 : Bytes → Bytes) (ed25519_sign : Bytes → Bytes)
    (kt_head_body : ℕ → Bytes → Bytes) where
  pub make_proof : ℕ → Bytes → ℕ → List Bytes → KtProof
  make_proof size root index hashes = record {
    leaf_index = index;
    tree_size = size;
    root_hash = root;
    proof_hashes = hashes;
    tree_head_signature = ed25519_sign (tree_head_signable size root);
  }

  pub sign_head : Option HeadSigner → ℕ → Bytes → ℕ → Option SignedTreeHead
  sign_head none size root now = none
  sign_head (some signer) size root now =
      Option.map
        (λ s. record { tree_size = size; root_hash = root; kid = signer.kid; signature = s })
        (signer.sign (kt_head_body size root) now)

  -- The hybrid proof: none is wanted, or one is made, or making it fails the whole call. `proof`
  -- closes over the root of the identity proof.
  pub hybrid_proof : List Bytes → Bytes → Option ℕ → Option (Option KtProof)
  hybrid_proof leaves root none = some none
  hybrid_proof leaves root (some index) =
      Option.map (λ p. some (make_proof (length leaves) root index p.0))
        (generate_inclusion_proof sha256 leaves index)

  pub proofs_from_snapshot : List Bytes → ℕ → Option ℕ → Option HeadSigner → ℕ → Option KtProofs
  unfolding make_proof sign_head hybrid_proof
  proofs_from_snapshot all_leaves identity_index hybrid_index head_signer now = do
    made ← generate_inclusion_proof sha256 all_leaves identity_index
    hybrid ← hybrid_proof all_leaves made.1 hybrid_index
    some (record {
      identity = make_proof (length all_leaves) made.1 identity_index made.0;
      hybrid = hybrid;
      head = sign_head head_signer (length all_leaves) made.1 now;
    })

  -- The hybrid leaf, when the device has a hybrid key.
  pub ensure_hybrid : Bytes → Option Bytes → Table → Table × Option ℕ
  ensure_hybrid device_id none rows = (rows, none)
  ensure_hybrid device_id (some key) rows =
      let (rows', index) =
        db_ensure_leaf device_id leaf_kind_hybrid (hybrid_leaf_hash sha256 device_id key) rows in
      (rows', some index)

  -- The new table, and the proofs (`none` for an error).
  pub build_kt_proofs :
      Bytes → Bytes → Option Bytes → Option HeadSigner → ℕ → Table → Table × Option KtProofs
  unfolding ensure_hybrid
  build_kt_proofs device_id identity_key hybrid_identity_key head_signer now rows =
      let (rows₁, identity_index) =
        db_ensure_leaf device_id leaf_kind_identity (leaf_hash sha256 device_id identity_key)
          rows in
      let (rows₂, hybrid_index) = ensure_hybrid device_id hybrid_identity_key rows₁ in
      (
        rows₂,
        db_get_all_leaves rows₂ >>= λ leaves.
            proofs_from_snapshot leaves identity_index hybrid_index head_signer now,
      )
