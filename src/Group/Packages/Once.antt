-- ===== src/Group/Packages/Once.antt =====
-- group-service/src/handlers/key_packages.rs: no key package is given out more often than it was
-- published.
use construct_server.Base.{
  ℕ, List, Bool, Option, [], none, true, ◌++◌, ◌∷◌, ◌≡◌, ◌≤◌, arith, bytes_eq, false, some, ◌+◌,
  refl, Bool-cases, inl, ltb, inr, subst, bytes_eq_sound, suc, sym, zero,
}
use construct_server.Group.{Reply, ok, err, Bytes, DeviceId}
use construct_server.Group.Packages.{
  new_package, publish_key_package, consume_key_package, consume_reply, publish_key_package,
  consume_key_package, consume_reply, is_eligible, KeyPackage, UserId, oldest_eligible, older,
  consume_key_package_for_user, cleanup_expired_key_packages, delete_ref, delete_found,
  insert_group_key_package, publish_loop,
}

abbrev pub one_if : Bool → ℕ
one_if true = 1
one_if false = 0

-- How often a reference stands in the table.
pub count_ref : Bytes → List KeyPackage → ℕ
count_ref ref [] = 0
count_ref ref (k ∷ ks) = one_if (bytes_eq k.key_package_ref ref) + count_ref ref ks

-- How often a reference is that of a package in a list to be published.
pub published_times : (Bytes → Bytes) → Bytes → List Bytes → ℕ
published_times sha256_bytes ref [] = 0
published_times sha256_bytes ref (kp ∷ kps) =
    one_if (bytes_eq (sha256_bytes kp) ref) + published_times sha256_bytes ref kps

module _ (ref : Bytes) where
  count_ref-append :
      (xs ys : List KeyPackage) → count_ref ref (xs ++ ys) ≡ count_ref ref xs + count_ref ref ys
  unfolding count_ref
  count_ref-append [] ys = omega arith
  count_ref-append (x ∷ xs) ys = omega (arith, count_ref-append xs ys)

  count_ref-insert :
      (k : KeyPackage) (table : List KeyPackage)
      → count_ref ref (insert_group_key_package k table)
        ≤ count_ref ref table + one_if (bytes_eq k.key_package_ref ref)
  unfolding count_ref
  count_ref-insert k table = ground (arith, count_ref-append table (k ∷ []))

  count_ref-delete_other :
      (other : Bytes) (table : List KeyPackage)
      → count_ref ref (delete_ref other table) ≤ count_ref ref table
  unfolding count_ref delete_ref
  count_ref-delete_other other [] = omega arith
  count_ref-delete_other other (k ∷ ks) = ground (arith, count_ref-delete_other other ks)

  count_ref-delete : (table : List KeyPackage) → count_ref ref (delete_ref ref table) ≡ 0
  unfolding count_ref delete_ref
  count_ref-delete [] = refl
  count_ref-delete (k ∷ ks) = ground (arith, count_ref-delete ks)

  abbrev times : KeyPackage → ℕ
  times k = one_if (bytes_eq k.key_package_ref ref)

  older_counts :
      (x : KeyPackage) (xs : List KeyPackage) (rest : Option KeyPackage)
      → ((l : KeyPackage) → rest ≡ some l → times l ≤ count_ref ref xs)
      → times (older x rest) ≤ times x + count_ref ref xs
  older_counts x xs none ih = omega arith
  older_counts x xs (some l) ih = elim (Bool-cases (ltb l.published_at x.published_at)) [
    | inl lt ↦ rw lt (omega (arith, ih l refl))
    | inr ge ↦ rw ge (omega arith)
  ]

  -- What was found is in the table.
  found_counts :
      (user : UserId) (preferred : Option DeviceId) (now : ℕ) (table : List KeyPackage)
      (k : KeyPackage)
      → oldest_eligible user preferred now table ≡ some k
      → times k ≤ count_ref ref table
  unfolding count_ref oldest_eligible
  found_counts user preferred now [] k h = absurd (cc)
  found_counts user preferred now (x ∷ xs) k h =
      elim (Bool-cases (is_eligible user preferred now x)) [
        | inl e ↦
            let chosen : older x (oldest_eligible user preferred now xs) ≡ k =
              ground (arith, e, h) in
            subst (λ y. times y ≤ times x + count_ref ref xs) chosen
              (older_counts x xs _ (λ l r. found_counts user preferred now xs l r))
        | inr e ↦ omega (arith, found_counts user preferred now xs k (ground (arith, e, h)))
      ]

  delete_counts :
      (other : Bytes) (table : List KeyPackage)
      → one_if (bytes_eq other ref) ≤ count_ref ref table
      → count_ref ref (delete_ref other table) + one_if (bytes_eq other ref) ≤ count_ref ref table
  delete_counts other table le = elim (Bool-cases (bytes_eq other ref)) [
    | inl e ↦
        let same = bytes_eq_sound other ref e in
        let gone : count_ref ref (delete_ref other table) ≡ 0 =
          subst (λ r. count_ref ref (delete_ref r table) ≡ 0) (sym same) (count_ref-delete table) in
        omega (arith, gone, le)
    | inr e ↦ rw e (omega (arith, count_ref-delete_other other table))
  ]

  cleaned-counts :
      (now : ℕ) (table : List KeyPackage)
      → count_ref ref (cleanup_expired_key_packages now table) ≤ count_ref ref table
  unfolding count_ref cleanup_expired_key_packages
  cleaned-counts now [] = omega arith
  cleaned-counts now (k ∷ ks) = ground (arith, cleaned-counts now ks)

  publish-counts :
      (sha256_bytes : Bytes → Bytes) (user : UserId) (device : DeviceId) (kps : List Bytes)
      (now answers : ℕ) (table : List KeyPackage)
      → count_ref ref (publish_loop sha256_bytes user device kps now answers table).0
        ≤ count_ref ref table + published_times sha256_bytes ref kps
  unfolding publish_loop published_times
  publish-counts sha256_bytes user device [] now answers table = omega arith
  publish-counts sha256_bytes user device (kp ∷ kps) now zero table = omega arith
  publish-counts sha256_bytes user device (kp ∷ kps) now (suc answers) table = omega (
    arith,
    publish-counts sha256_bytes user device kps now answers
        (insert_group_key_package (new_package sha256_bytes user device kp now) table),
    count_ref-insert (new_package sha256_bytes user device kp now) table,
  )

-- The packages that were handed out are kept in `given`.
pub record Handed : Type 0 where
  pub table : List KeyPackage
  pub given : List KeyPackage

pub data Request : Type 0 where
  publish :
      (user : UserId) (device : DeviceId) (owns : Bool) (kps : List Bytes) (answers : ℕ) → Request
  consume : (user : UserId) (preferred : Option DeviceId) → Request
  -- A clean-up of the worker.
  clean : Request

abbrev pub give : Reply KeyPackage → List KeyPackage → List KeyPackage
give (ok k) given = k ∷ given
give (err e) given = given

module _ (sha256_bytes : Bytes → Bytes) where
  abbrev pub served : ℕ → Request → Handed → Handed
  served now (publish user device owns kps answers) h = record h {
    table = (publish_key_package sha256_bytes user device owns kps now answers h.table).0;
  }
  served now (consume user preferred) h =
      let p = consume_key_package user preferred now h.table in
      record { table = p.0; given = give p.1 h.given }
  served now clean h = record h { table = cleanup_expired_key_packages now h.table }

  pub serve : List (ℕ × Request) → Handed → Handed
  serve [] h = h
  serve ((now, r) ∷ rs) h = serve rs (served now r h)

  -- How often the requests publish a package under the reference.
  pub publications : Bytes → List (ℕ × Request) → ℕ
  publications ref [] = 0
  publications ref ((now, publish user device owns kps answers) ∷ rs) =
      published_times sha256_bytes ref kps + publications ref rs
  publications ref ((now, consume user preferred) ∷ rs) = publications ref rs
  publications ref ((now, clean) ∷ rs) = publications ref rs

  module _ (ref : Bytes) where
    publishing-counts :
        (user : UserId) (device : DeviceId) (owns : Bool) (kps : List Bytes) (now answers : ℕ)
        (table : List KeyPackage)
        → count_ref ref (publish_key_package sha256_bytes user device owns kps now answers table).0
          ≤ count_ref ref table + published_times sha256_bytes ref kps
    unfolding publish_key_package
    publishing-counts user device owns [] now answers table = omega arith
    publishing-counts user device false (kp ∷ kps) now answers table = omega arith
    publishing-counts user device true (kp ∷ kps) now answers table =
        ground (arith, publish-counts ref sha256_bytes user device (kp ∷ kps) now answers table)

    consumed-counts :
        (found : Option KeyPackage) (table given : List KeyPackage)
        → ((k : KeyPackage) → found ≡ some k → times ref k ≤ count_ref ref table)
        → let p = consume_reply (delete_found found table, found) in
          count_ref ref p.0 + count_ref ref (give p.1 given)
          ≤ count_ref ref table + count_ref ref given
    unfolding count_ref
    consumed-counts none table given h = omega arith
    consumed-counts (some k) table given h =
        omega (arith, delete_counts ref k.key_package_ref table (h k refl))

    -- Over any run of publications, consumptions and clean-ups of key packages, the packages under
    -- one reference that are in the table or were handed out grow by at most the number of
    -- packages with this reference that were published.
    pub serve-count_ref :
        (rs : List (ℕ × Request)) (h : Handed)
        → count_ref ref (serve rs h).table + count_ref ref (serve rs h).given
          ≤ count_ref ref h.table + count_ref ref h.given + publications ref rs
    unfolding serve publications consume_key_package_for_user
    serve-count_ref [] h = omega arith
    serve-count_ref ((now, publish user device owns kps answers) ∷ rs) h = omega (
      arith,
      serve-count_ref rs (served now (publish user device owns kps answers) h),
      publishing-counts user device owns kps now answers h.table,
    )
    serve-count_ref ((now, consume user preferred) ∷ rs) h = omega (
      arith,
      serve-count_ref rs (served now (consume user preferred) h),
      consumed-counts (oldest_eligible user preferred now h.table) h.table h.given
          (found_counts ref user preferred now h.table),
    )
    serve-count_ref ((now, clean) ∷ rs) h =
        omega (arith, serve-count_ref rs (served now clean h), cleaned-counts ref now h.table)
