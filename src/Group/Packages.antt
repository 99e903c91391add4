-- ===== src/Group/Packages.antt =====
-- group-service/src/handlers/key_packages.rs and its statements in crates/construct-db/src/mls.rs:
-- the single-use key packages of a user's devices.
--
-- SHA-256 is a parameter. `FOR UPDATE SKIP LOCKED` makes two consumers that overlap take different
-- rows, so a consumption is one step.
pub mod Oldest
pub mod Once
use construct_server.Base.{
  ℕ, List, Bool, Option, ℤ, [], none, false, if◌then◌else◌, some, true, ◌==◌, ◌∷◌, bytes_eq, ltb,
  suc, ◌&&◌, ◌++◌, ◌+◌, ◌||◌, zero,
}
use construct_server.Group.{Bytes, DeviceId, Uuid, Status, Reply}

abbrev pub UserId : Type 0
UserId = ℕ

-- The table in the order in which the rows were inserted.
pub record KeyPackage : Type 0 where
  pub user_id : UserId
  pub device_id : DeviceId
  pub key_package : Bytes
  pub key_package_ref : Bytes
  pub published_at : ℕ
  pub expires_at : ℕ

unfoldable pub has_ref : Bytes → List KeyPackage → Bool
has_ref ref [] = false
has_ref ref (k ∷ ks) = bytes_eq k.key_package_ref ref || has_ref ref ks

abbrev pub insert_group_key_package : KeyPackage → List KeyPackage → List KeyPackage
insert_group_key_package k table =
    if has_ref k.key_package_ref table then table else table ++ (k ∷ [])

unfoldable pub count_key_packages_for_device : DeviceId → ℕ → List KeyPackage → ℕ
count_key_packages_for_device device now [] = 0
count_key_packages_for_device device now (k ∷ ks) =
    let rest = count_key_packages_for_device device now ks in
    if k.device_id == device && ltb now k.expires_at then suc rest else rest

abbrev pub is_preferred : Option DeviceId → DeviceId → Bool
is_preferred none device = true
is_preferred (some preferred) device = device == preferred

abbrev pub is_eligible : UserId → Option DeviceId → ℕ → KeyPackage → Bool
is_eligible user preferred now k =
    k.user_id == user && is_preferred preferred k.device_id && ltb now k.expires_at

-- The earlier of two; the one that was inserted first on a tie.
abbrev pub older : KeyPackage → Option KeyPackage → KeyPackage
older k none = k
older k (some l) = if ltb l.published_at k.published_at then l else k

unfoldable pub oldest_eligible : UserId → Option DeviceId → ℕ → List KeyPackage → Option KeyPackage
oldest_eligible user preferred now [] = none
oldest_eligible user preferred now (k ∷ ks) =
    let rest = oldest_eligible user preferred now ks in
    if is_eligible user preferred now k then some (older k rest) else rest

-- `DELETE`: the reference is a key of the table.
pub delete_ref : Bytes → List KeyPackage → List KeyPackage
delete_ref ref [] = []
delete_ref ref (k ∷ ks) =
    if bytes_eq k.key_package_ref ref then delete_ref ref ks else k ∷ delete_ref ref ks

abbrev pub delete_found : Option KeyPackage → List KeyPackage → List KeyPackage
delete_found none table = table
delete_found (some k) table = delete_ref k.key_package_ref table

unfoldable pub consume_key_package_for_user :
    UserId → Option DeviceId → ℕ → List KeyPackage → List KeyPackage × Option KeyPackage
consume_key_package_for_user user preferred now table =
    let found = oldest_eligible user preferred now table in (delete_found found table, found)

unfoldable pub get_key_package_device_by_ref : Bytes → ℕ → List KeyPackage → Option DeviceId
get_key_package_device_by_ref ref now [] = none
get_key_package_device_by_ref ref now (k ∷ ks) =
    if bytes_eq k.key_package_ref ref && ltb now k.expires_at
    then some k.device_id
    else get_key_package_device_by_ref ref now ks

module _ (sha256_bytes : Bytes → Bytes) where
  abbrev pub new_package : UserId → DeviceId → Bytes → ℕ → KeyPackage
  new_package user device kp now = record {
    user_id = user;
    device_id = device;
    key_package = kp;
    key_package_ref = sha256_bytes kp;
    published_at = now;
    expires_at = now + 2_592_000;
  }

  -- The loop stops at the first insertion that fails; `answers` are those that succeed.
  unfoldable pub publish_loop :
      UserId → DeviceId → List Bytes → ℕ → ℕ → List KeyPackage → List KeyPackage × Bool
  publish_loop user device [] now answers table = (table, true)
  publish_loop user device (kp ∷ kps) now zero table = (table, false)
  publish_loop user device (kp ∷ kps) now (suc answers) table =
      publish_loop user device kps now answers
        (insert_group_key_package (new_package user device kp now) table)

  abbrev pub publish_reply : DeviceId → ℕ → List KeyPackage × Bool → List KeyPackage × Reply ℕ
  publish_reply device now (table, true) =
      (table, Reply.ok (count_key_packages_for_device device now table))
  publish_reply device now (table, false) = (table, Reply.err Status.internal)

  -- `owns` is whether the device belongs to the user; the reply is the count of packages.
  unfoldable pub publish_key_package :
      UserId → DeviceId → Bool → List Bytes → ℕ → ℕ → List KeyPackage → List KeyPackage × Reply ℕ
  publish_key_package user device owns [] now answers table =
      (table, Reply.err (if owns then Status.invalid_argument else Status.permission_denied))
  publish_key_package user device owns kps now answers table =
      if owns
      then publish_reply device now (publish_loop user device kps now answers table)
      else (table, Reply.err Status.permission_denied)

abbrev pub consume_reply : List KeyPackage × Option KeyPackage → List KeyPackage × Reply KeyPackage
consume_reply (table, none) = (table, Reply.err Status.not_found)
consume_reply (table, some k) = (table, Reply.ok k)

abbrev pub consume_key_package :
    UserId → Option DeviceId → ℕ → List KeyPackage → List KeyPackage × Reply KeyPackage
consume_key_package user preferred now table =
    consume_reply (consume_key_package_for_user user preferred now table)

-- What the worker of the service deletes.
unfoldable pub cleanup_expired_key_packages : ℕ → List KeyPackage → List KeyPackage
cleanup_expired_key_packages now [] = []
cleanup_expired_key_packages now (k ∷ ks) =
    let rest = cleanup_expired_key_packages now ks in
    if ltb k.expires_at now then rest else k ∷ rest
