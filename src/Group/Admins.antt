-- ===== src/Group/Admins.antt =====
-- group-service/src/handlers/admin.rs: the admins of a group and its owner.
use construct_server.Base.{
  ℕ, List, Bool, Option, ℤ, none, if◌then◌else◌, some, false, not, true, ◌&&◌,
}
use construct_server.Group.{Bytes, DeviceId, Admin, Group, Reply, ok, err, after_check}
use construct_server.Group.Status.{
  invalid_argument, permission_denied, not_found, failed_precondition, internal,
}
use construct_server.Group.Tables.{
  is_some, is_group_member, check_group_admin, get_group_dissolved_at, upsert_group_admin_role,
  transfer_group_ownership,
}
use construct_server.Group.Signed.{
  Directory, verify_admin_proof, delegate_admin_text, transfer_ownership_text,
  accept_ownership_text,
}

pub data AdminRole : Type 0 where
  unspecified full moderator : AdminRole

pub record DelegateAdminRequest : Type 0 where
  pub target_device_id : DeviceId
  pub role : AdminRole
  pub admin_proof : Bytes
  pub signature_timestamp : ℤ

abbrev pub role_value : AdminRole → Option ℕ
role_value full = some 1
role_value moderator = some 2
role_value unspecified = none

-- Writing the role, once it is known to be valid.
abbrev pub delegate_role : Option ℕ → Group → DeviceId → ℕ → Bool → Group × Reply ℕ
delegate_role none g target now stored = (g, err invalid_argument)
delegate_role (some role) g target now stored =
    if (check_group_admin target g.admins).0
    then (g, err failed_precondition)
    else if not stored
    then (g, err internal)
    else (record g { admins = upsert_group_admin_role target role g.admins }, ok now)

pub record TransferOwnershipRequest : Type 0 where
  pub new_owner_device_id : DeviceId
  pub owner_signature : Bytes
  pub new_owner_acceptance : Bytes
  pub signature_timestamp : ℤ

abbrev pub transferred : Option (List Admin) → Group → ℕ → Bool → Group × Reply ℕ
transferred none g now stored = (g, err permission_denied)
transferred (some admins) g now false = (g, err internal)
transferred (some admins) g now true = (record g { admins = admins }, ok now)

module _ (d : Directory) where
  unfoldable pub delegate_admin :
      Group → DeviceId → DelegateAdminRequest → ℕ → Bool → Group × Reply ℕ
  delegate_admin g device req now stored =
      let (is_creator, is_admin) = check_group_admin device g.admins in
      let target = req.target_device_id in
      if not is_creator && not is_admin
      then (g, err permission_denied)
      else after_check
          (verify_admin_proof d device req.admin_proof req.signature_timestamp now
            (delegate_admin_text target req.signature_timestamp))
          g
          (if is_some (get_group_dissolved_at g.row)
            then (g, err not_found)
            else if not (is_group_member target g.members)
            then (g, err not_found)
            else delegate_role (role_value req.role) g target now stored)

  -- The checks of the handler and its transaction with nothing in between.
  unfoldable pub transfer_ownership :
      Group → DeviceId → TransferOwnershipRequest → ℕ → Bool → Group × Reply ℕ
  transfer_ownership g device req now stored =
      let new_owner = req.new_owner_device_id in
      let (target_is_creator, target_is_admin) = check_group_admin new_owner g.admins in
      if not (check_group_admin device g.admins).0
      then (g, err permission_denied)
      else if target_is_creator
      then (g, err invalid_argument)
      else if not target_is_admin
      then (g, err permission_denied)
      else after_check
          (verify_admin_proof d device req.owner_signature req.signature_timestamp now
            (transfer_ownership_text new_owner req.signature_timestamp))
          g
          (after_check
            (verify_admin_proof d new_owner req.new_owner_acceptance req.signature_timestamp now
              (accept_ownership_text device req.signature_timestamp))
            g (transferred (transfer_group_ownership device new_owner g.admins) g now stored))
