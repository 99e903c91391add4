-- ===== src/Group/Ownership.antt =====
-- group-service/src/handlers/admin.rs and membership.rs: a group has one creator.
mod Rows
use construct_server.Base.{
  ℕ, List, Bool, [], none, All, arith, inl, ◌≡◌, ◌⊎◌, true, ◌∙◌, inr, refl, false, some, subst, sym,
  ap, ◌==◌, ◌≢◌, ◌∷◌,
}
use construct_server.Group.{DeviceId, Admin, Member, Group, no_group, closed}
use construct_server.Group.Tables.{
  find_admin, is_full_admin_of, check_group_admin, is_group_member, upsert_group_admin_role,
  remove_group_member, remove_group_admin_role, is_creator_of, transfer_group_ownership, is_some,
}
use construct_server.Group.Signed.{Directory}
use construct_server.Group.Membership.{insert_group_member}
use construct_server.Group.Lifecycle.{CreateGroupRequest, new_group, set_group_dissolved_at}
use construct_server.Group.Commits.{store_commit}
use construct_server.Group.Outcomes.{IsDeleted, IsDelegated}
use construct_server.Group.Run.{Event, run, IsKept, run-IsKept}
use construct_server.Group.Ownership.Rows.{
  OwnerRow, Keyed, target-owner, upsert-OwnerRow, is_creator_of-upsert, is_creator_of-remove,
  is_group_member-remove, upsert-Keyed, remove-Keyed, remove-OwnerRow, handed-OwnerRow,
  handed-Keyed, handed, creator_is,
}

-- The creator's row is the only one and is a full admin's.
pub record IsOwned (g : Group) (owner : DeviceId) : Type 0 where
  pub exists : is_some g.row ≡ true
  pub rows : All (OwnerRow owner) g.admins
  pub keyed : Keyed g.admins
  pub present : is_creator_of owner g.admins ≡ true

pub record IsAbsent (g : Group) : Type 0 where
  pub row : g.row ≡ none
  pub admins : g.admins ≡ []
  pub members : g.members ≡ []

abbrev pub IsWellOwned : Group → Type 0
IsWellOwned g = IsAbsent g ⊎ ((owner : DeviceId) × IsOwned g owner)

transfer-eligible :
    (old new : DeviceId) (admins admins' : List Admin)
    → transfer_group_ownership old new admins ≡ some admins'
    → ((old == new) ≡ false)
      × (is_creator_of old admins ≡ true)
      × (is_full_admin_of new admins ≡ true)
      × (admins' ≡ handed old new admins)
unfolding transfer_group_ownership
transfer-eligible old new admins admins' e = ground arith

not_in_empty :
    (old new : DeviceId) (admins : List Admin) → transfer_group_ownership old new [] ≢ some admins
unfolding transfer_group_ownership is_creator_of
not_in_empty old new admins e = ground arith

module _ (g : Group) where
  create-IsOwned :
      (device : DeviceId) (req : CreateGroupRequest) (now : ℕ)
      → IsAbsent g
      → IsOwned (new_group g device req now) device
  unfolding is_creator_of is_group_member find_admin
  create-IsOwned device req now a = record {
    exists = refl;
    rows = rw a.admins (ground arith);
    keyed = rw a.admins (refl, tt);
    present = ground arith;
  }

  delegated-IsWellOwned :
      (target : DeviceId) (role : ℕ) (g' : Group)
      → IsDelegated g target role g'
      → IsWellOwned g
      → IsWellOwned g'
  unfolding is_group_member
  delegated-IsWellOwned target role g' (joined, _, _) (inl a) =
      absurd (ground (arith, joined, a.members))
  delegated-IsWellOwned target role g' (_, plain, e) (inr (owner, o)) =
      let ne = target-owner target owner g.admins o.rows o.present plain in
      inr (
        owner,
        subst (λ x. IsOwned x owner) (sym e)
            (record {
              exists = o.exists;
              rows = upsert-OwnerRow target owner ne role g.admins o.rows;
              keyed = upsert-Keyed target role g.admins o.keyed;
              present = is_creator_of-upsert target owner ne role g.admins ∙ o.present;
            }),
      )

  handed-IsWellOwned :
      (old new : DeviceId) (admins : List Admin)
      → transfer_group_ownership old new g.admins ≡ some admins
      → IsWellOwned g
      → IsWellOwned (record g { admins = admins })
  unfolding transfer_group_ownership
  handed-IsWellOwned old new admins e (inl a) = absurd (
      not_in_empty old new admins
        (subst (λ x. transfer_group_ownership old new x ≡ some admins) a.admins e))
  handed-IsWellOwned old new admins e (inr (owner, o)) =
      let t = transfer-eligible old new g.admins admins e in
      let same = creator_is old new owner g.admins o.rows t.1 in
      let rows = subst (λ x. All (OwnerRow x) g.admins) (sym same) o.rows in
      let handed' = handed-OwnerRow old new t.0 g.admins rows o.keyed t.2 in
      inr (
        new,
        record {
          exists = o.exists;
          rows = rw t.3 handed'.0;
          keyed = rw t.3 (handed-Keyed old new g.admins o.keyed);
          present = rw t.3 handed'.1;
        },
      )

  -- A group that has a row keeps its owner with its admins.
  existing-IsWellOwned :
      (g' : Group)
      → is_some g.row ≡ true
      → is_some g'.row ≡ true
      → g'.admins ≡ g.admins
      → IsWellOwned g
      → IsWellOwned g'
  existing-IsWellOwned g' found found' admins (inl a) = absurd (ground (arith, found, a.row))
  existing-IsWellOwned g' found found' admins (inr (owner, o)) = inr (
    owner,
    record {
      exists = found';
      rows = rw admins o.rows;
      keyed = rw admins o.keyed;
      present = rw admins o.present;
    },
  )

  same-IsWellOwned :
      (g' : Group)
      → g'.row ≡ g.row
      → g'.admins ≡ g.admins
      → g'.members ≡ g.members
      → IsWellOwned g
      → IsWellOwned g'
  same-IsWellOwned g' row admins members (inl a) =
      inl (record { row = row ∙ a.row; admins = admins ∙ a.admins; members = members ∙ a.members })
  same-IsWellOwned g' row admins members (inr (owner, o)) =
      existing-IsWellOwned g' o.exists (rw row o.exists) admins (inr (owner, o))

  dissolved-IsWellOwned :
      (now : ℕ)
      → IsWellOwned g
      → IsWellOwned (record g { row = set_group_dissolved_at now g.row; hub = closed ∷ g.hub })
  dissolved-IsWellOwned now (inl a) = inl (record {
    row = ap (set_group_dissolved_at now) a.row;
    admins = a.admins;
    members = a.members;
  })
  dissolved-IsWellOwned now (inr (owner, o)) = inr (
    owner,
    record {
      exists = ground (arith, o.exists);
      rows = o.rows;
      keyed = o.keyed;
      present = o.present;
    },
  )

  created-IsWellOwned :
      (device : DeviceId) (req : CreateGroupRequest) (now : ℕ)
      → g.row ≡ none
      → IsWellOwned g
      → IsWellOwned (new_group g device req now)
  created-IsWellOwned device req now row (inl a) = inr (device, create-IsOwned device req now a)
  created-IsWellOwned device req now row (inr (owner, o)) = absurd (ground (arith, row, o.exists))

  -- What a removal leaves, whether or not its second deletion succeeds.
  deleted-IsWellOwned :
      (target : DeviceId) (g' : Group)
      → (check_group_admin target g.admins).0 ≡ false
      → IsDeleted g target g'
      → IsWellOwned g
      → IsWellOwned g'
  unfolding remove_group_member remove_group_admin_role
  deleted-IsWellOwned target g' plain (inl e) (inl a) = inl (
      subst IsAbsent (sym e) (record {
        row = a.row;
        admins = a.admins;
        members = ap (remove_group_member target) a.members;
      }))
  deleted-IsWellOwned target g' plain (inr e) (inl a) = inl (
      subst IsAbsent (sym e) (record {
        row = a.row;
        admins = ap (remove_group_admin_role target) a.admins;
        members = ap (remove_group_member target) a.members;
      }))
  deleted-IsWellOwned target g' plain (inl e) (inr (owner, o)) = inr (
    owner,
    subst (λ x. IsOwned x owner) (sym e)
        (record { exists = o.exists; rows = o.rows; keyed = o.keyed; present = o.present }),
  )
  deleted-IsWellOwned target g' plain (inr e) (inr (owner, o)) =
      let ne = target-owner target owner g.admins o.rows o.present plain in
      inr (
        owner,
        subst (λ x. IsOwned x owner) (sym e)
            (record {
              exists = o.exists;
              rows = remove-OwnerRow target owner g.admins o.rows;
              keyed = remove-Keyed target g.admins o.keyed;
              present = is_creator_of-remove target owner ne g.admins ∙ o.present;
            }),
      )

IsWellOwned-IsKept : (now : ℕ) → IsKept now IsWellOwned
unfolding store_commit
IsWellOwned-IsKept now = record {
  created = λ g device req row h. created-IsWellOwned g device req now row h;
  dissolved = λ g h. dissolved-IsWellOwned g now h;
  delegated = λ g g' target role x h. delegated-IsWellOwned g target role g' x h;
  handed = λ g old new admins e h. handed-IsWellOwned g old new admins e h;
  committed =
      λ g r mls_commit tree found h. existing-IsWellOwned g _ (ap is_some found) refl refl h;
  invited = λ g invites h. same-IsWellOwned g _ refl refl refl h;
  joined = λ g device found fresh h. existing-IsWellOwned g _ found found refl h;
  deleted = λ g g' target plain x h. deleted-IsWellOwned g target g' plain x h;
  sends = λ g r m found next h. existing-IsWellOwned g _ (ap is_some found) refl refl h;
  swept = λ g h. same-IsWellOwned g _ refl refl refl h;
}

-- After any run of the handlers and of clean-ups on a group that did not exist, whatever writes
-- fail and with other calls between the two halves of an acceptance, the group does not exist and
-- has no admins and members, or it exists and one device is its owner: the rows of admins have
-- distinct devices, exactly the row of the owner is marked as creator, and it is a full admin's.
pub run-IsWellOwned : (d : Directory) (es : List Event) → IsWellOwned (run d es no_group)
run-IsWellOwned d es =
    run-IsKept d IsWellOwned IsWellOwned-IsKept
      (λ g h. inl (record { row = refl; admins = refl; members = refl })) es no_group
      (inl (record { row = refl; admins = refl; members = refl }))
