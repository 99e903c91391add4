-- ===== src/Group/Ownership/Rows.antt =====
-- crates/construct-db/src/mls.rs: what the statements on admins and members do to the owner.
use construct_server.Base.{
  ℕ, List, [], none, All, arith, ◌==◌, ◌∷◌, ◌≡◌, false, true, ◌&&◌, not, refl,
}
use construct_server.Group.{DeviceId, Admin, Member}
use construct_server.Group.Tables.{
  find_admin, check_group_admin, is_group_member, upsert_group_admin_role, remove_group_member,
  remove_group_admin_role, demote, promote, is_creator_of, is_full_admin_of,
}

-- The creator's row is the owner's, and a full admin's.
abbrev pub OwnerRow : DeviceId → Admin → Type 0
OwnerRow owner a =
    (a.is_creator ≡ (a.device_id == owner)) × ((a.is_creator && not (a.role == 1)) ≡ false)

-- The device ids are a key.
abbrev pub Keyed : List Admin → Type 0
Keyed [] = Unit
Keyed (a ∷ rest) = (find_admin a.device_id rest ≡ none) × Keyed rest

module _ (target owner : DeviceId) where
  pub target-owner :
      (admins : List Admin)
      → All (OwnerRow owner) admins
      → is_creator_of owner admins ≡ true
      → (check_group_admin target admins).0 ≡ false
      → (target == owner) ≡ false
  unfolding is_creator_of find_admin
  target-owner [] rows present h = cc
  target-owner (a ∷ rest) rows present h = ground (arith, target-owner rest rows.1)

  module _ (ne : (target == owner) ≡ false) where
    pub upsert-OwnerRow :
        (role : ℕ) (admins : List Admin)
        → All (OwnerRow owner) admins
        → All (OwnerRow owner) (upsert_group_admin_role target role admins)
    unfolding upsert_group_admin_role
    upsert-OwnerRow role [] rows = ground arith
    upsert-OwnerRow role (a ∷ rest) rows = ground (arith, upsert-OwnerRow role rest rows.1)

    pub is_creator_of-upsert :
        (role : ℕ) (admins : List Admin)
        → is_creator_of owner (upsert_group_admin_role target role admins)
          ≡ is_creator_of owner admins
    unfolding upsert_group_admin_role is_creator_of
    is_creator_of-upsert role [] = ground arith
    is_creator_of-upsert role (a ∷ rest) = ground (arith, is_creator_of-upsert role rest)

    pub is_creator_of-remove :
        (admins : List Admin)
        → is_creator_of owner (remove_group_admin_role target admins) ≡ is_creator_of owner admins
    unfolding remove_group_admin_role is_creator_of
    is_creator_of-remove [] = refl
    is_creator_of-remove (a ∷ rest) = ground (arith, is_creator_of-remove rest)

    pub is_group_member-remove :
        (members : List Member)
        → is_group_member owner (remove_group_member target members) ≡ is_group_member owner members
    unfolding remove_group_member is_group_member
    is_group_member-remove [] = refl
    is_group_member-remove (m ∷ rest) = ground (arith, is_group_member-remove rest)

pub find_admin-upsert :
    (device target : DeviceId) (role : ℕ) (admins : List Admin)
    → (target == device) ≡ false
    → find_admin device admins ≡ none
    → find_admin device (upsert_group_admin_role target role admins) ≡ none
unfolding upsert_group_admin_role find_admin
find_admin-upsert device target role [] ne h = ground arith
find_admin-upsert device target role (a ∷ rest) ne h =
    ground (arith, find_admin-upsert device target role rest)

pub upsert-Keyed :
    (target : DeviceId) (role : ℕ) (admins : List Admin)
    → Keyed admins
    → Keyed (upsert_group_admin_role target role admins)
unfolding upsert_group_admin_role find_admin
upsert-Keyed target role [] h = ground arith
upsert-Keyed target role (a ∷ rest) h =
    ground
      (arith, upsert-Keyed target role rest h.1, find_admin-upsert a.device_id target role rest)

find_admin-remove :
    (device target : DeviceId) (admins : List Admin)
    → find_admin device admins ≡ none
    → find_admin device (remove_group_admin_role target admins) ≡ none
unfolding remove_group_admin_role find_admin
find_admin-remove device target [] h = h
find_admin-remove device target (a ∷ rest) h = ground (arith, find_admin-remove device target rest)

pub remove-Keyed :
    (target : DeviceId) (admins : List Admin)
    → Keyed admins
    → Keyed (remove_group_admin_role target admins)
unfolding remove_group_admin_role
remove-Keyed target [] h = tt
remove-Keyed target (a ∷ rest) h =
    ground (arith, remove-Keyed target rest h.1, find_admin-remove a.device_id target rest)

pub remove-OwnerRow :
    (target owner : DeviceId) (admins : List Admin)
    → All (OwnerRow owner) admins
    → All (OwnerRow owner) (remove_group_admin_role target admins)
unfolding remove_group_admin_role
remove-OwnerRow target owner [] h = tt
remove-OwnerRow target owner (a ∷ rest) h = ground (arith, remove-OwnerRow target owner rest h.1)

-- After a transfer.
module _ (old new : DeviceId) where
  abbrev pub handed : List Admin → List Admin
  handed admins = promote new (demote old admins)

  find_admin-handed :
      (device : DeviceId) (admins : List Admin)
      → find_admin device admins ≡ none
      → find_admin device (handed admins) ≡ none
  unfolding find_admin promote demote
  find_admin-handed device [] h = h
  find_admin-handed device (a ∷ rest) h = ground (arith, find_admin-handed device rest)

  pub handed-Keyed : (admins : List Admin) → Keyed admins → Keyed (handed admins)
  unfolding promote demote
  handed-Keyed [] h = tt
  handed-Keyed (a ∷ rest) h =
      ground (arith, handed-Keyed rest h.1, find_admin-handed a.device_id rest)

  not_full_admin :
      (admins : List Admin) → find_admin new admins ≡ none → is_full_admin_of new admins ≡ false
  unfolding find_admin is_full_admin_of
  not_full_admin [] h = refl
  not_full_admin (a ∷ rest) h = ground (arith, not_full_admin rest)

  handed_others :
      (admins : List Admin)
      → All (OwnerRow old) admins
      → find_admin new admins ≡ none
      → All (OwnerRow new) (handed admins)
  unfolding find_admin promote demote
  handed_others [] rows h = tt
  handed_others (a ∷ rest) rows h = ground (arith, handed_others rest rows.1)

  module _ (ne : (old == new) ≡ false) where
    pub handed-OwnerRow :
        (admins : List Admin)
        → All (OwnerRow old) admins
        → Keyed admins
        → is_full_admin_of new admins ≡ true
        → All (OwnerRow new) (handed admins) × (is_creator_of new (handed admins) ≡ true)
    unfolding is_full_admin_of promote demote is_creator_of
    handed-OwnerRow [] rows keyed h = cc
    handed-OwnerRow (a ∷ rest) rows keyed h =
        ground (
          arith,
          handed-OwnerRow rest rows.1 keyed.1,
          not_full_admin rest,
          handed_others rest rows.1,
        )

  pub creator_is :
      (owner : DeviceId) (admins : List Admin)
      → All (OwnerRow owner) admins
      → is_creator_of old admins ≡ true
      → old ≡ owner
  unfolding is_creator_of
  creator_is owner [] rows h = cc
  creator_is owner (a ∷ rest) rows h = ground (arith, creator_is owner rest rows.1)
