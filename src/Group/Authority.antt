-- ===== src/Group/Authority.antt =====
-- group-service/src/handlers: who may change a group.
use construct_server.Base.{ℕ, ℤ, List, Bool, none, ◌||◌, ◌≡◌, ◌≢◌, arith, true, some}
use construct_server.Group.{Bytes, DeviceId, Uuid, Group}
use construct_server.Group.Tables.{
  check_group_admin, is_group_member, get_group_invite_target_device,
}
use construct_server.Group.Signed.{
  Directory, verify_admin_proof, dissolve_group_text, delegate_admin_text, transfer_ownership_text,
  accept_ownership_text, group_join_text, remove_member_text,
}
use construct_server.Group.Lifecycle.{dissolve_group}
use construct_server.Group.Admins.{
  delegate_admin, transfer_ownership, DelegateAdminRequest, TransferOwnershipRequest,
}
use construct_server.Group.Commits.{submit_commit, SubmitCommitRequest}
use construct_server.Group.Membership.{
  leave_group, remove_member, begin_accept, invite_to_group, decline_group_invite,
  RemoveMemberRequest, AcceptGroupInviteRequest, InviteToGroupRequest,
}
use construct_server.Group.Messages.{send_group_message, SendGroupMessageRequest}
use construct_server.Group.Packages.{KeyPackage}
use construct_server.Group.Run.{
  Call, leave, remove, create, dissolve, delegate, transfer, submit, invite, decline, accept_begins,
  accept_ends, send, clean, call_by,
}

module _ (d : Directory) (g : Group) (device : DeviceId) (now : ℕ) where
  -- The caller is the creator or a full admin.
  abbrev IsAdmin : Type 0
  IsAdmin =
      let (is_creator, is_full) = check_group_admin device g.admins in
      (is_creator || is_full) ≡ true

  abbrev pub IsAuthorised : Call → Type 0
  IsAuthorised (dissolve proof timestamp stored) =
      IsAdmin
      × (verify_admin_proof d device proof timestamp now (dissolve_group_text timestamp) ≡ none)
  IsAuthorised (delegate req stored) =
      IsAdmin
      × (verify_admin_proof d device req.admin_proof req.signature_timestamp now
            (delegate_admin_text req.target_device_id req.signature_timestamp)
          ≡ none)
  IsAuthorised (transfer req stored) =
      ((check_group_admin device g.admins).0 ≡ true)
      × (verify_admin_proof d device req.owner_signature req.signature_timestamp now
            (transfer_ownership_text req.new_owner_device_id req.signature_timestamp)
          ≡ none)
      × (verify_admin_proof d req.new_owner_device_id req.new_owner_acceptance
            req.signature_timestamp now (accept_ownership_text device req.signature_timestamp)
          ≡ none)
  IsAuthorised (submit req stored) = is_group_member device g.members ≡ true
  IsAuthorised (invite packages allowed req id stored) = IsAdmin
  IsAuthorised (decline id stored) = get_group_invite_target_device id g.invites ≡ some device
  IsAuthorised (accept_begins user req stored) =
      (verify_admin_proof d device req.acceptance_signature req.signature_timestamp now
          (group_join_text req.invite_id req.signature_timestamp)
        ≡ none)
      × (d.device_belongs_to_user device user ≡ true)
  IsAuthorised (leave proposal first second) = is_group_member device g.members ≡ true
  IsAuthorised (remove req first second) =
      IsAdmin
      × (verify_admin_proof d device req.admin_proof req.signature_timestamp now
            (remove_member_text req.target_device_id req.signature_timestamp)
          ≡ none)
  IsAuthorised (send allowed req id stored) = is_group_member device g.members ≡ true
  IsAuthorised _ = Unit

  dissolve-IsAuthorised :
      (proof : Bytes) (timestamp : ℤ) (stored : Bool)
      → (dissolve_group d g device proof timestamp now stored).0 ≢ g
      → IsAuthorised (dissolve proof timestamp stored)
  unfolding dissolve_group
  dissolve-IsAuthorised proof timestamp stored h = ground arith

  delegate-IsAuthorised :
      (req : DelegateAdminRequest) (stored : Bool)
      → (delegate_admin d g device req now stored).0 ≢ g
      → IsAuthorised (delegate req stored)
  unfolding delegate_admin
  delegate-IsAuthorised req stored h = ground arith

  transfer-IsAuthorised :
      (req : TransferOwnershipRequest) (stored : Bool)
      → (transfer_ownership d g device req now stored).0 ≢ g
      → IsAuthorised (transfer req stored)
  unfolding transfer_ownership
  transfer-IsAuthorised req stored h = ground arith

  submit-IsAuthorised :
      (req : SubmitCommitRequest) (stored : Bool)
      → (submit_commit g device req now stored).0 ≢ g
      → IsAuthorised (submit req stored)
  unfolding submit_commit
  submit-IsAuthorised req stored h = ground arith

  invite-IsAuthorised :
      (packages : List KeyPackage) (allowed : Bool) (req : InviteToGroupRequest) (id : Uuid)
      (stored : Bool)
      → (invite_to_group packages g device allowed req id now stored).0 ≢ g
      → IsAuthorised (invite packages allowed req id stored)
  unfolding invite_to_group
  invite-IsAuthorised packages allowed req id stored h = ground arith

  decline-IsAuthorised :
      (id : Uuid) (stored : Bool)
      → (decline_group_invite g device id stored).0 ≢ g
      → IsAuthorised (decline id stored)
  unfolding decline_group_invite
  decline-IsAuthorised id stored h = ground arith

  accept-IsAuthorised :
      (user : ℕ) (req : AcceptGroupInviteRequest) (stored : Bool)
      → (begin_accept d g device user req now stored).0 ≢ g
      → IsAuthorised (accept_begins user req stored)
  unfolding begin_accept
  accept-IsAuthorised user req stored h = ground arith

  leave-IsAuthorised :
      (proposal : Bytes) (first second : Bool)
      → (leave_group g device proposal first second).0 ≢ g
      → IsAuthorised (leave proposal first second)
  unfolding leave_group
  leave-IsAuthorised proposal first second h = ground arith

  remove-IsAuthorised :
      (req : RemoveMemberRequest) (first second : Bool)
      → (remove_member d g device req now first second).0 ≢ g
      → IsAuthorised (remove req first second)
  unfolding remove_member
  remove-IsAuthorised req first second h = ground arith

  send-IsAuthorised :
      (allowed : Bool) (req : SendGroupMessageRequest) (id : Uuid) (stored : Bool)
      → (send_group_message g device allowed req id now stored).0 ≢ g
      → IsAuthorised (send allowed req id stored)
  unfolding send_group_message
  send-IsAuthorised allowed req id stored h = ground arith

  -- A call that changes a group comes from the creator or a full admin with a proof of admin that
  -- is accepted, for dissolve, delegate and remove; from the creator with both proofs, for
  -- transfer; from the creator or a full admin, for invite; from a member, for commit, leave and
  -- send; from the device that an invite is for, for decline; and with an accepted proof from a
  -- device of the user, for accept.
  pub call_by-IsAuthorised : (c : Call) → call_by d g device now c ≢ g → IsAuthorised c
  call_by-IsAuthorised (create _ _ _ _) h = tt
  call_by-IsAuthorised (accept_ends _ _ _ _) h = tt
  call_by-IsAuthorised (clean _) h = tt
  call_by-IsAuthorised (dissolve proof timestamp stored) h =
      dissolve-IsAuthorised proof timestamp stored h
  call_by-IsAuthorised (delegate req stored) h = delegate-IsAuthorised req stored h
  call_by-IsAuthorised (transfer req stored) h = transfer-IsAuthorised req stored h
  call_by-IsAuthorised (submit req stored) h = submit-IsAuthorised req stored h
  call_by-IsAuthorised (invite packages allowed req id stored) h =
      invite-IsAuthorised packages allowed req id stored h
  call_by-IsAuthorised (decline id stored) h = decline-IsAuthorised id stored h
  call_by-IsAuthorised (accept_begins user req stored) h = accept-IsAuthorised user req stored h
  call_by-IsAuthorised (leave proposal first second) h = leave-IsAuthorised proposal first second h
  call_by-IsAuthorised (remove req first second) h = remove-IsAuthorised req first second h
  call_by-IsAuthorised (send allowed req id stored) h = send-IsAuthorised allowed req id stored h
