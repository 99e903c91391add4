-- ===== src/Group/Tables.antt =====
-- crates/construct-db/src/mls.rs: the statements on the rows of a group.
use construct_server.Base.{
  ℕ, List, Bool, Option, ℤ, [], none, false, if◌then◌else◌, length, pos, some, true, ◌∷◌, leb_ℤ,
  ltb, not, ◌+◌, ◌==◌, negsuc, ◌&&◌, ◌^◌, ◌||◌, ◌-◌, ◌<◌, ◌≡◌, lt→ltb, refl,
}
use construct_server.Group.{Bytes, DeviceId, Uuid, GroupRow, Member, Admin, Commit, GroupInvite}

abbrev pub is_empty : Bytes → Bool
is_empty [] = true
is_empty (x ∷ xs) = false

abbrev pub is_some {ℓ} : {A : Type ℓ} → Option A → Bool
is_some none = false
is_some (some a) = true

-- A u64 that is read as an i64.
abbrev pub as_i64 : ℕ → ℤ
as_i64 n = if ltb n (2 ^ 63) then pos n else negsuc (2 ^ 64 - 1 - n)

pub as_i64-small : (n : ℕ) → n < 2 ^ 63 → as_i64 n ≡ pos n
as_i64-small n h = rw (lt→ltb n (2 ^ 63) h) refl

abbrev pub is_epoch : ℤ → ℕ → Bool
is_epoch (pos n) epoch = n == epoch
is_epoch (negsuc n) epoch = false

abbrev pub max : ℕ → ℕ → ℕ
max a b = if ltb a b then b else a

pub record GroupAdminAccess : Type 0 where
  pub is_creator : Bool
  pub is_full_admin : Bool

unfoldable pub find_admin : DeviceId → List Admin → Option Admin
find_admin device [] = none
find_admin device (a ∷ rest) = if a.device_id == device then some a else find_admin device rest

abbrev pub access_of : Option Admin → Option GroupAdminAccess
access_of none = none
access_of (some a) = some (record { is_creator = a.is_creator; is_full_admin = a.role == 1 })

abbrev pub get_group_admin_access : DeviceId → List Admin → Option GroupAdminAccess
get_group_admin_access device admins = access_of (find_admin device admins)

abbrev pub admin_flags : Option GroupAdminAccess → Bool × Bool
admin_flags none = (false, false)
admin_flags (some a) = (a.is_creator, a.is_full_admin)

abbrev pub check_group_admin : DeviceId → List Admin → Bool × Bool
check_group_admin device admins = admin_flags (get_group_admin_access device admins)

unfoldable pub is_group_member : DeviceId → List Member → Bool
is_group_member device [] = false
is_group_member device (m ∷ ms) = m.device_id == device || is_group_member device ms

-- A group without a row has no time of dissolution.
abbrev pub get_group_dissolved_at : Option GroupRow → Option ℕ
get_group_dissolved_at none = none
get_group_dissolved_at (some r) = r.dissolved_at

abbrev pub get_group_epoch : Option GroupRow → Option ℕ
get_group_epoch none = none
get_group_epoch (some r) = some r.epoch

abbrev pub get_group_max_members : Option GroupRow → Option ℕ
get_group_max_members none = none
get_group_max_members (some r) = some r.max_members

abbrev pub get_group_member_count : List Member → ℕ
get_group_member_count = length

unfoldable pub upsert_group_admin_role : DeviceId → ℕ → List Admin → List Admin
upsert_group_admin_role device role [] =
    record { device_id = device; role = role; is_creator = false } ∷ []
upsert_group_admin_role device role (a ∷ rest) =
    if a.device_id == device
    then record a { role = role } ∷ rest
    else a ∷ upsert_group_admin_role device role rest

unfoldable pub remove_group_member : DeviceId → List Member → List Member
remove_group_member device [] = []
remove_group_member device (m ∷ ms) =
    if m.device_id == device
    then remove_group_member device ms
    else m ∷ remove_group_member device ms

unfoldable pub remove_group_admin_role : DeviceId → List Admin → List Admin
remove_group_admin_role device [] = []
remove_group_admin_role device (a ∷ rest) =
    if a.device_id == device
    then remove_group_admin_role device rest
    else a ∷ remove_group_admin_role device rest

-- The rows that the two UPDATEs of a transfer change, and how.
unfoldable pub demote : DeviceId → List Admin → List Admin
demote device [] = []
demote device (a ∷ rest) =
    (if a.device_id == device && a.is_creator then record a { is_creator = false } else a)
    ∷ demote device rest

unfoldable pub promote : DeviceId → List Admin → List Admin
promote device [] = []
promote device (a ∷ rest) =
    (if a.device_id == device && a.role == 1 then record a { is_creator = true; role = 1 } else a)
    ∷ promote device rest

unfoldable pub is_creator_of : DeviceId → List Admin → Bool
is_creator_of device [] = false
is_creator_of device (a ∷ rest) = a.device_id == device && a.is_creator || is_creator_of device rest

unfoldable pub is_full_admin_of : DeviceId → List Admin → Bool
is_full_admin_of device [] = false
is_full_admin_of device (a ∷ rest) =
    a.device_id == device && a.role == 1 || is_full_admin_of device rest

-- `OwnershipTransferRejected` is `none`. The device ids are a key, so each UPDATE changes the row
-- that its test of eligibility saw.
unfoldable pub transfer_group_ownership : DeviceId → DeviceId → List Admin → Option (List Admin)
transfer_group_ownership old_owner new_owner admins =
    if not (old_owner == new_owner)
      && is_creator_of old_owner admins
      && is_full_admin_of new_owner admins
    then some (promote new_owner (demote old_owner admins))
    else none

abbrev pub max_leaf : Option ℕ → ℕ → Option ℕ
max_leaf none leaf = some leaf
max_leaf (some m) leaf = some (max m leaf)

unfoldable pub max_leaf_index : List Member → Option ℕ
max_leaf_index [] = none
max_leaf_index (m ∷ ms) = max_leaf (max_leaf_index ms) m.leaf_index

abbrev pub after_max : Option ℕ → ℕ
after_max none = 0
after_max (some m) = m + 1

abbrev pub get_next_group_leaf_index : List Member → ℕ
get_next_group_leaf_index members = after_max (max_leaf_index members)

unfoldable pub has_pending_group_invite : DeviceId → ℕ → List GroupInvite → Bool
has_pending_group_invite device now [] = false
has_pending_group_invite device now (i ∷ rest) =
    i.target_device_id == device && ltb now i.expires_at || has_pending_group_invite device now rest

-- Any invite of the device, expired ones included: what the UNIQUE constraint sees.
unfoldable pub has_invite_row : DeviceId → List GroupInvite → Bool
has_invite_row device [] = false
has_invite_row device (i ∷ rest) = i.target_device_id == device || has_invite_row device rest

unfoldable pub get_group_invite_for_accept : Uuid → ℕ → List GroupInvite → Option GroupInvite
get_group_invite_for_accept id now [] = none
get_group_invite_for_accept id now (i ∷ rest) =
    if i.invite_id == id && ltb now i.expires_at
    then some i
    else get_group_invite_for_accept id now rest

unfoldable pub get_group_invite_target_device : Uuid → List GroupInvite → Option DeviceId
get_group_invite_target_device id [] = none
get_group_invite_target_device id (i ∷ rest) =
    if i.invite_id == id then some i.target_device_id else get_group_invite_target_device id rest

unfoldable pub delete_group_invite : Uuid → List GroupInvite → List GroupInvite
delete_group_invite id [] = []
delete_group_invite id (i ∷ rest) =
    if i.invite_id == id then delete_group_invite id rest else i ∷ delete_group_invite id rest

-- ORDER BY epoch_from ASC.
unfoldable pub insert_by_epoch : Commit → List Commit → List Commit
insert_by_epoch c [] = c ∷ []
insert_by_epoch c (x ∷ xs) =
    if ltb x.epoch_from c.epoch_from then x ∷ insert_by_epoch c xs else c ∷ x ∷ xs

unfoldable pub get_group_commits_since : ℤ → ℕ → List Commit → List Commit
get_group_commits_since since now [] = []
get_group_commits_since since now (c ∷ cs) =
    if leb_ℤ since (pos c.epoch_from) && ltb now c.expires_at
    then insert_by_epoch c (get_group_commits_since since now cs)
    else get_group_commits_since since now cs
