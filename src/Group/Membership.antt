-- ===== src/Group/Membership.antt =====
-- group-service/src/handlers/membership.rs: how devices come into a group and leave it.
use construct_server.Base.{
  ℕ, List, Bool, Option, ℤ, none, if◌then◌else◌, some, ◌∷◌, not, ◌+◌, ◌==◌, leb, suc, ◌&&◌, ltb,
}
use construct_server.Group.{
  Bytes, DeviceId, Uuid, GroupRow, GroupInvite, Group, Status, Reply, ok, err, removed, after_check,
}
use construct_server.Group.Status.{
  invalid_argument, permission_denied, not_found, already_exists, failed_precondition,
  resource_exhausted, internal,
}
use construct_server.Group.Tables.{
  is_empty, is_some, is_group_member, check_group_admin, get_group_dissolved_at, get_group_epoch,
  get_group_max_members, get_group_member_count, has_pending_group_invite, has_invite_row, as_i64,
  get_group_invite_for_accept, get_group_invite_target_device, delete_group_invite, is_epoch,
  get_next_group_leaf_index, remove_group_member, remove_group_admin_role,
}
use construct_server.Group.Packages.{KeyPackage, get_key_package_device_by_ref}
use construct_server.Group.Signed.{
  Directory, verify_admin_proof, group_join_text, remove_member_text,
}
use construct_server.Group.Commits.{store_commit}

abbrev pub max_invite_seconds : ℕ
max_invite_seconds = 604_800

pub record InviteToGroupRequest : Type 0 where
  pub mls_welcome : Bytes
  pub key_package_ref : Bytes
  pub epoch : ℕ
  pub expires_in_seconds : ℕ

abbrev pub invite_seconds : ℕ → ℕ
invite_seconds requested = if requested == 0 then max_invite_seconds else requested

-- The last checks and the insertion, for the device of the key package.
unfoldable pub invite_device :
    Option ℕ → Group → DeviceId → Uuid → InviteToGroupRequest → ℕ → Bool → Group × Reply (Uuid × ℕ)
invite_device none g target id req now stored = (g, err internal)
invite_device (some max_members) g target id req now stored =
    let expires = now + invite_seconds req.expires_in_seconds in
    if leb max_members (get_group_member_count g.members)
    then (g, err resource_exhausted)
    else if has_pending_group_invite target now g.invites
    then (g, err already_exists)
    else if has_invite_row target g.invites
    then (g, err already_exists)
    else if not stored
    then (g, err internal)
    else (
      record g {
        invites =
            record {
              invite_id = id;
              target_device_id = target;
              mls_welcome = req.mls_welcome;
              key_package_ref = req.key_package_ref;
              epoch = as_i64 req.epoch;
              invited_at = now;
              expires_at = expires;
            }
            ∷ g.invites;
      },
      ok (id, expires),
    )

unfoldable pub invite_resolved :
    Option DeviceId → Group → Uuid → InviteToGroupRequest → ℕ → Bool → Group × Reply (Uuid × ℕ)
invite_resolved none g id req now stored = (g, err not_found)
invite_resolved (some target) g id req now stored =
    if is_group_member target g.members
    then (g, err already_exists)
    else invite_device (get_group_max_members g.row) g target id req now stored

-- `allowed` is the verdict of the limiter, `id` the fresh id of the invite.
unfoldable pub invite_to_group :
    List KeyPackage
    → Group
    → DeviceId
    → Bool
    → InviteToGroupRequest
    → Uuid
    → ℕ
    → Bool
    → Group × Reply (Uuid × ℕ)
invite_to_group packages g device allowed req id now stored =
    let (is_creator, is_admin) = check_group_admin device g.admins in
    if not is_creator && not is_admin
    then (g, err permission_denied)
    else if not allowed
    then (g, err resource_exhausted)
    else if is_some (get_group_dissolved_at g.row)
    then (g, err not_found)
    else if is_empty req.mls_welcome
    then (g, err invalid_argument)
    else if is_empty req.key_package_ref
    then (g, err invalid_argument)
    else if ltb max_invite_seconds req.expires_in_seconds
    then (g, err invalid_argument)
    else invite_resolved (get_key_package_device_by_ref req.key_package_ref now packages) g id req
        now stored

pub record AcceptGroupInviteRequest : Type 0 where
  pub invite_id : Uuid
  pub mls_commit : Bytes
  pub new_ratchet_tree : Bytes
  pub acceptance_signature : Bytes
  pub signature_timestamp : ℤ

-- A refusal of decline_group_invite: not found, or another device's.
abbrev pub check_target : Option DeviceId → DeviceId → Option Status
check_target none device = some not_found
check_target (some target) device = if target == device then none else some permission_denied

abbrev pub epoch_status : Option ℕ → ℤ → Option Status
epoch_status none invite_epoch = some internal
epoch_status (some epoch) invite_epoch =
    if is_epoch invite_epoch epoch then none else some failed_precondition

unfoldable pub decline_group_invite : Group → DeviceId → Uuid → Bool → Group × Reply {0} Unit
decline_group_invite g device id stored =
    after_check (check_target (get_group_invite_target_device id g.invites) device) g (
      if not stored
      then (g, err internal)
      else (record g { invites = delete_group_invite id g.invites }, ok tt))

-- The member of the first write of an acceptance.
abbrev pub insert_group_member : DeviceId → Group → Group
insert_group_member device g = record g {
  members =
      record { device_id = device; leaf_index = get_next_group_leaf_index g.members } ∷ g.members;
}

module _ (d : Directory) where
  abbrev pub accept_found :
      Option GroupInvite
      → Group
      → DeviceId
      → ℕ
      → AcceptGroupInviteRequest
      → ℕ
      → Bool
      → Group × Reply ℤ
  accept_found none g device user req now stored = (g, err not_found)
  accept_found (some i) g device user req now stored =
      if not (i.target_device_id == device)
      then (g, err permission_denied)
      else after_check (epoch_status (get_group_epoch g.row) i.epoch) g (
          if is_empty req.mls_commit
          then (g, err invalid_argument)
          else if is_empty req.new_ratchet_tree
          then (g, err invalid_argument)
          else after_check
              (verify_admin_proof d device req.acceptance_signature req.signature_timestamp now
                (group_join_text req.invite_id req.signature_timestamp))
              g
              (if not (d.device_belongs_to_user device user)
                then (g, err permission_denied)
                else if is_group_member device g.members
                then (g, err already_exists)
                else if not stored
                then (g, err internal)
                else (insert_group_member device g, ok i.epoch)))

  -- accept_group_invite up to the insertion of the member, which stands outside the transaction
  -- that follows; the reply is the epoch of the invite.
  unfoldable pub begin_accept :
      Group → DeviceId → ℕ → AcceptGroupInviteRequest → ℕ → Bool → Group × Reply ℤ
  begin_accept g device user req now stored =
      accept_found (get_group_invite_for_accept req.invite_id now g.invites) g device user req now
        stored

  -- The transaction of an acceptance and the deletion of the invite.
  abbrev pub accept_locked :
      Option GroupRow
      → Group
      → ℤ
      → AcceptGroupInviteRequest
      → ℕ
      → Bool
      → Bool
      → Group × Reply (ℕ × ℕ)
  accept_locked none g invite_epoch req now stored deleted = (g, err internal)
  accept_locked (some r) g invite_epoch req now stored deleted =
      let g' = store_commit r req.mls_commit req.new_ratchet_tree now g in
      if not (is_epoch invite_epoch r.epoch)
      then (g, err failed_precondition)
      else if not stored
      then (g, err internal)
      else if not deleted
      then (g', err internal)
      else (
        record g' { invites = delete_group_invite req.invite_id g'.invites },
        ok (suc r.epoch, now),
      )

  unfoldable pub finish_accept :
      Group → ℤ → AcceptGroupInviteRequest → ℕ → Bool → Bool → Group × Reply (ℕ × ℕ)
  finish_accept g invite_epoch req now stored deleted =
      accept_locked g.row g invite_epoch req now stored deleted

  abbrev pub accept_after :
      Group × Reply ℤ → AcceptGroupInviteRequest → ℕ → Bool → Bool → Group × Reply (ℕ × ℕ)
  accept_after (g, err e) req now stored deleted = (g, err e)
  accept_after (g, ok invite_epoch) req now stored deleted =
      finish_accept g invite_epoch req now stored deleted

  -- The whole handler with nothing in between.
  unfoldable pub accept_group_invite :
      Group
      → DeviceId
      → ℕ
      → AcceptGroupInviteRequest
      → ℕ
      → Bool
      → Bool
      → Bool
      → Group × Reply (ℕ × ℕ)
  accept_group_invite g device user req now inserted stored deleted =
      accept_after (begin_accept g device user req now inserted) req now stored deleted

-- The two deletions, which are no transaction: whether the first and the second succeed.
unfoldable pub delete_member : Group → DeviceId → Bool → Bool → Group × Reply {0} Unit
delete_member g device first second =
    let g' = record g {
      members = remove_group_member device g.members;
      hub = removed device ∷ g.hub;
    } in
    if not first
    then (g, err internal)
    else if not second
    then (g', err internal)
    else (record g' { admins = remove_group_admin_role device g.admins }, ok tt)

unfoldable pub leave_group : Group → DeviceId → Bytes → Bool → Bool → Group × Reply {0} Unit
leave_group g device mls_remove_proposal first second =
    if is_some (get_group_dissolved_at g.row)
    then (g, err not_found)
    else if not (is_group_member device g.members)
    then (g, err permission_denied)
    else if (check_group_admin device g.admins).0
    then (g, err failed_precondition)
    else if is_empty mls_remove_proposal
    then (g, err invalid_argument)
    else delete_member g device first second

pub record RemoveMemberRequest : Type 0 where
  pub target_device_id : DeviceId
  pub admin_proof : Bytes
  pub signature_timestamp : ℤ
  pub mls_remove_proposal : Bytes

abbrev pub with_epoch : Option ℕ → Group × Reply {0} Unit → Group × Reply ℕ
with_epoch epoch (g, err e) = (g, err e)
with_epoch none (g, ok _) = (g, err internal)
with_epoch (some epoch) (g, ok _) = (g, ok epoch)

-- The reply is the epoch, which the removal does not advance.
unfoldable pub remove_member :
    Directory → Group → DeviceId → RemoveMemberRequest → ℕ → Bool → Bool → Group × Reply ℕ
remove_member d g device req now first second =
    let (is_creator, is_admin) = check_group_admin device g.admins in
    let target = req.target_device_id in
    if not is_creator && not is_admin
    then (g, err permission_denied)
    else after_check
        (verify_admin_proof d device req.admin_proof req.signature_timestamp now
          (remove_member_text target req.signature_timestamp))
        g
        (if is_some (get_group_dissolved_at g.row)
          then (g, err not_found)
          else if not (is_group_member target g.members)
          then (g, err not_found)
          else if (check_group_admin target g.admins).0
          then (g, err failed_precondition)
          else if is_empty req.mls_remove_proposal
          then (g, err invalid_argument)
          else with_epoch (get_group_epoch g.row) (delete_member g target first second))
