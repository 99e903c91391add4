-- ===== src/Group/Outcomes.antt =====
-- group-service/src/handlers: what each handler may leave behind, and what it has checked by then.
use construct_server.Base.{
  ℕ, List, Bool, ℤ, none, ◌≡◌, ◌∷◌, ◌⊎◌, arith, false, some, true, Option-cases, inl, inr, swap,
  either, Option, refl,
}
use construct_server.Group.{Bytes, DeviceId, GroupRow, Admin, Group, closed, removed, Uuid}
use construct_server.Group.Tables.{
  is_some, check_group_admin, is_group_member, upsert_group_admin_role, transfer_group_ownership,
  remove_group_admin_role, remove_group_member, delete_group_invite,
}
use construct_server.Group.Packages.{KeyPackage}
use construct_server.Group.Messages.{SendGroupMessageRequest, send_group_message, send_to}
use construct_server.Group.Messages.{new_message, sent, insert_group_message}
use construct_server.Group.Signed.{Directory}
use construct_server.Group.Lifecycle.{
  CreateGroupRequest, create_group, dissolve_group, new_group, set_group_dissolved_at,
}
use construct_server.Group.Admins.{
  DelegateAdminRequest, TransferOwnershipRequest, delegate_admin, transfer_ownership, role_value,
}
use construct_server.Group.Commits.{SubmitCommitRequest, submit_commit, commit_locked, store_commit}
use construct_server.Group.Membership.{
  leave_group, delete_member, remove_member, RemoveMemberRequest, AcceptGroupInviteRequest,
  begin_accept, finish_accept, insert_group_member, decline_group_invite, invite_to_group,
  invite_resolved, invite_device, InviteToGroupRequest,
}

module _ (g : Group) where
  abbrev pub IsDelegated : DeviceId → ℕ → Group → Type 0
  IsDelegated target role g' =
      (is_group_member target g.members ≡ true)
      × ((check_group_admin target g.admins).0 ≡ false)
      × (g' ≡ record g { admins = upsert_group_admin_role target role g.admins })

  -- The second deletion of a removal may fail.
  abbrev pub IsDeleted : DeviceId → Group → Type 0
  IsDeleted target g' =
      let members = remove_group_member target g.members in
      (g' ≡ record g { members = members; hub = removed target ∷ g.hub })
      ⊎ (g' ≡ record g {
        members = members;
        hub = removed target ∷ g.hub;
        admins = remove_group_admin_role target g.admins;
      })

module _ (d : Directory) (g : Group) (device : DeviceId) (now : ℕ) where
  pub create_group-outcome :
      (user : ℕ) (allowed : Bool) (req : CreateGroupRequest) (stored : Bool)
      → let g' = (create_group d g device user allowed req now stored).0 in
        (g' ≡ g) ⊎ ((g.row ≡ none) × (g' ≡ new_group g device req now))
  unfolding create_group
  create_group-outcome user allowed req stored = ground arith

  pub dissolve_group-outcome :
      (proof : Bytes) (timestamp : ℤ) (stored : Bool)
      → let g' = (dissolve_group d g device proof timestamp now stored).0 in
        (g' ≡ g) ⊎ (g' ≡ record g { row = set_group_dissolved_at now g.row; hub = closed ∷ g.hub })
  unfolding dissolve_group
  dissolve_group-outcome proof timestamp stored = ground arith

  unassigned :
      (req : DelegateAdminRequest) (stored : Bool)
      → role_value req.role ≡ none
      → (delegate_admin d g device req now stored).0 ≡ g
  unfolding delegate_admin
  unassigned req stored e = rw e (ground arith)

  delegate_as :
      (req : DelegateAdminRequest) (stored : Bool) (role : ℕ)
      → role_value req.role ≡ some role
      → let g' = (delegate_admin d g device req now stored).0 in
        (g' ≡ g) ⊎ IsDelegated g req.target_device_id role g'
  unfolding delegate_admin
  delegate_as req stored role e = rw e (ground arith)

  pub delegate_admin-outcome :
      (req : DelegateAdminRequest) (stored : Bool)
      → let g' = (delegate_admin d g device req now stored).0 in
        (g' ≡ g) ⊎ ((role : ℕ) × IsDelegated g req.target_device_id role g')
  delegate_admin-outcome req stored = elim (Option-cases (role_value req.role)) [
    | inl e ↦ inl (unassigned req stored e)
    | inr (role, e) ↦ swap (either (λ h. (role, h)) (swap (delegate_as req stored role e)))
  ]

  pub transfer_ownership-outcome :
      (req : TransferOwnershipRequest) (stored : Bool)
      → let g' = (transfer_ownership d g device req now stored).0 in
        (g' ≡ g)
        ⊎ ((admins : List Admin) × (transfer_group_ownership device req.new_owner_device_id g.admins
              ≡ some admins)
            × (g' ≡ record g { admins = admins }))
  unfolding transfer_ownership
  transfer_ownership-outcome req stored = ground arith

  pub begin_accept-outcome :
      (user : ℕ) (req : AcceptGroupInviteRequest) (stored : Bool)
      → let g' = (begin_accept d g device user req now stored).0 in
        (g' ≡ g)
        ⊎ ((is_some g.row ≡ true)
            × (is_group_member device g.members ≡ false)
            × (g' ≡ insert_group_member device g))
  unfolding begin_accept
  begin_accept-outcome user req stored = ground arith

  pub remove_member-outcome :
      (req : RemoveMemberRequest) (first second : Bool)
      → let g' = (remove_member d g device req now first second).0 in
        (g' ≡ g)
        ⊎ (((check_group_admin req.target_device_id g.admins).0 ≡ false)
            × IsDeleted g req.target_device_id g')
  unfolding remove_member delete_member
  remove_member-outcome req first second = ground arith

  pub leave_group-outcome :
      (proposal : Bytes) (first second : Bool)
      → let g' = (leave_group g device proposal first second).0 in
        (g' ≡ g) ⊎ (((check_group_admin device g.admins).0 ≡ false) × IsDeleted g device g')
  unfolding leave_group delete_member
  leave_group-outcome proposal first second = ground arith

module _ (g : Group) (now : ℕ) where
  pub submit_commit-outcome :
      (device : DeviceId) (req : SubmitCommitRequest) (stored : Bool)
      → let g' = (submit_commit g device req now stored).0 in
        (g' ≡ g)
        ⊎ ((r : GroupRow) × (g.row ≡ some r)
            × (req.epoch ≡ r.epoch)
            × (g' ≡ store_commit r req.mls_commit req.new_ratchet_tree now g))
  unfolding submit_commit commit_locked
  submit_commit-outcome device req stored = ground arith

  pub finish_accept-outcome :
      (d : Directory) (invite_epoch : ℤ) (req : AcceptGroupInviteRequest) (stored deleted : Bool)
      → let g' = (finish_accept d g invite_epoch req now stored deleted).0 in
        (g' ≡ g)
        ⊎ ((r : GroupRow) × (g.row ≡ some r)
            × (let stored = store_commit r req.mls_commit req.new_ratchet_tree now g in
                (g' ≡ stored)
                ⊎ (g' ≡ record stored {
                  invites = delete_group_invite req.invite_id stored.invites;
                })))
  unfolding finish_accept
  finish_accept-outcome d invite_epoch req stored deleted = ground arith

-- Invitations and refusals of them change only the invites.
pub invite_to_group-outcome :
    (packages : List KeyPackage) (g : Group) (device : DeviceId) (allowed : Bool)
    (req : InviteToGroupRequest) (id : Uuid) (now : ℕ) (stored : Bool)
    → let g' = (invite_to_group packages g device allowed req id now stored).0 in
      g' ≡ record g { invites = g'.invites }
unfolding invite_to_group invite_resolved invite_device
invite_to_group-outcome packages g device allowed req id now stored = ground arith

pub decline_group_invite-outcome :
    (g : Group) (device : DeviceId) (id : Uuid) (stored : Bool)
    → let g' = (decline_group_invite g device id stored).0 in g' ≡ record g { invites = g'.invites }
unfolding decline_group_invite
decline_group_invite-outcome g device id stored = ground arith

sends :
    (r : GroupRow) (g : Group) (req : SendGroupMessageRequest) (id : Uuid) (now : ℕ) (stored : Bool)
    → let g' = (send_to (some r) g req id now stored).0 in
      (g' ≡ g) ⊎ (g' ≡ (sent g r (insert_group_message (new_message r req id now) g.messages)).0)
unfolding send_to
sends r g req id now stored = ground arith

send_to-outcome :
    (row : Option GroupRow) (g : Group) (req : SendGroupMessageRequest) (id : Uuid) (now : ℕ)
    (stored : Bool)
    → let g' = (send_to row g req id now stored).0 in
      (g' ≡ g)
      ⊎ ((r : GroupRow) × (row ≡ some r)
          × (g' ≡ (sent g r (insert_group_message (new_message r req id now) g.messages)).0))
unfolding send_to
send_to-outcome none g req id now stored = inl refl
send_to-outcome (some r) g req id now stored =
    swap (either (λ e. (r, refl, e)) (swap (sends r g req id now stored)))

pub send_group_message-outcome :
    (g : Group) (device : DeviceId) (allowed : Bool) (req : SendGroupMessageRequest) (id : Uuid)
    (now : ℕ) (stored : Bool)
    → let g' = (send_group_message g device allowed req id now stored).0 in
      (g' ≡ g)
      ⊎ ((r : GroupRow) × (g.row ≡ some r)
          × (g' ≡ (sent g r (insert_group_message (new_message r req id now) g.messages)).0))
unfolding send_group_message
send_group_message-outcome g device allowed req id now stored =
    ground (arith, send_to-outcome g.row g req id now stored)
