-- ===== src/Group/Run.antt =====
-- group-service/src/handlers: runs of the handlers on one group.
--
-- A call is a handler with its arguments, what the limiter and Postgres answer included. The two
-- halves of an acceptance are calls of their own, so others may come between them, and its second
-- half may come with any epoch. The clean-up of the worker is a call of no device.
use construct_server.Base.{
  ℕ, List, Bool, ℤ, [], ◌∷◌, subst, ◌≡◌, none, some, sym, ◌⊎◌, inl, true, false, inr, refl, ◌&&◌,
  ◌≢◌, All, arith,
}
use construct_server.Group.{
  Bytes, DeviceId, Uuid, Group, GroupRow, Admin, GroupInvite, Message, closed,
}
use construct_server.Group.Tables.{
  is_some, is_group_member, check_group_admin, transfer_group_ownership, delete_group_invite,
}
use construct_server.Group.Commits.{store_commit}
use construct_server.Group.Messages.{sent, insert_group_message, new_message}
use construct_server.Group.Membership.{insert_group_member}
use construct_server.Group.Lifecycle.{new_group, set_group_dissolved_at}
use construct_server.Group.Outcomes.{
  IsDelegated, IsDeleted, create_group-outcome, dissolve_group-outcome, delegate_admin-outcome,
  transfer_ownership-outcome, submit_commit-outcome, invite_to_group-outcome,
  decline_group_invite-outcome, begin_accept-outcome, finish_accept-outcome, leave_group-outcome,
  remove_member-outcome, send_group_message-outcome,
}
use construct_server.Group.Cleanup.{expired_deleted, erased, run_cleanup, run_cleanup-outcome}
use construct_server.Group.Signed.{Directory}
use construct_server.Group.Packages.{KeyPackage}
use construct_server.Group.Lifecycle.{CreateGroupRequest, create_group, dissolve_group}
use construct_server.Group.Admins.{
  DelegateAdminRequest, TransferOwnershipRequest, delegate_admin, transfer_ownership,
}
use construct_server.Group.Commits.{SubmitCommitRequest, submit_commit}
use construct_server.Group.Membership.{
  leave_group, remove_member, RemoveMemberRequest, AcceptGroupInviteRequest, begin_accept,
  finish_accept, invite_to_group, InviteToGroupRequest, decline_group_invite,
}
use construct_server.Group.Messages.{SendGroupMessageRequest, send_group_message}

pub data Call : Type 0 where
  create : (user : ℕ) (allowed : Bool) (req : CreateGroupRequest) (stored : Bool) → Call
  dissolve : (proof : Bytes) (timestamp : ℤ) (stored : Bool) → Call
  delegate : (req : DelegateAdminRequest) (stored : Bool) → Call
  transfer : (req : TransferOwnershipRequest) (stored : Bool) → Call
  submit : (req : SubmitCommitRequest) (stored : Bool) → Call
  invite :
      (packages : List KeyPackage) (allowed : Bool) (req : InviteToGroupRequest) (id : Uuid)
      (stored : Bool)
      → Call
  decline : (id : Uuid) (stored : Bool) → Call
  accept_begins : (user : ℕ) (req : AcceptGroupInviteRequest) (stored : Bool) → Call
  accept_ends : (invite_epoch : ℤ) (req : AcceptGroupInviteRequest) (stored deleted : Bool) → Call
  leave : (proposal : Bytes) (first second : Bool) → Call
  remove : (req : RemoveMemberRequest) (first second : Bool) → Call
  send : (allowed : Bool) (req : SendGroupMessageRequest) (id : Uuid) (stored : Bool) → Call
  clean : (stored : Bool) → Call

-- A call of a device at a time.
pub record Event : Type 0 where
  pub device : DeviceId
  pub now : ℕ
  pub call : Call

module _ (d : Directory) where
  abbrev pub call_by : Group → DeviceId → ℕ → Call → Group
  call_by g device now (create user allowed req stored) =
      (create_group d g device user allowed req now stored).0
  call_by g device now (dissolve proof timestamp stored) =
      (dissolve_group d g device proof timestamp now stored).0
  call_by g device now (delegate req stored) = (delegate_admin d g device req now stored).0
  call_by g device now (transfer req stored) = (transfer_ownership d g device req now stored).0
  call_by g device now (submit req stored) = (submit_commit g device req now stored).0
  call_by g device now (invite packages allowed req id stored) =
      (invite_to_group packages g device allowed req id now stored).0
  call_by g device now (decline id stored) = (decline_group_invite g device id stored).0
  call_by g device now (accept_begins user req stored) =
      (begin_accept d g device user req now stored).0
  call_by g device now (accept_ends invite_epoch req stored deleted) =
      (finish_accept d g invite_epoch req now stored deleted).0
  call_by g device now (leave proposal first second) =
      (leave_group g device proposal first second).0
  call_by g device now (remove req first second) = (remove_member d g device req now first second).0
  call_by g device now (send allowed req id stored) =
      (send_group_message g device allowed req id now stored).0
  call_by g device now (clean stored) = run_cleanup g now stored

  unfoldable pub run : List Event → Group → Group
  run [] g = g
  run (e ∷ es) g = run es (call_by g e.device e.now e.call)

  -- Whether the group exists after every call: a clean-up deletes one that was dissolved for a day,
  -- and its id may then be that of another group.
  unfoldable pub lasts : List Event → Group → Bool
  lasts [] g = true
  lasts (e ∷ es) g = let g' = call_by g e.device e.now e.call in is_some g'.row && lasts es g'

-- A property of groups that everything a handler may do at a time keeps, and every deletion of what
-- has expired then.
pub record IsKept {ℓ} (now : ℕ) (P : Group → Type ℓ) : Type ℓ where
  pub created :
      (g : Group) (device : DeviceId) (req : CreateGroupRequest)
      → g.row ≡ none
      → P g
      → P (new_group g device req now)
  pub dissolved :
      (g : Group)
      → P g
      → P (record g { row = set_group_dissolved_at now g.row; hub = closed ∷ g.hub })
  pub delegated :
      (g g' : Group) (target : DeviceId) (role : ℕ) → IsDelegated g target role g' → P g → P g'
  pub handed :
      (g : Group) (old new : DeviceId) (admins : List Admin)
      → transfer_group_ownership old new g.admins ≡ some admins
      → P g
      → P (record g { admins = admins })
  pub committed :
      (g : Group) (r : GroupRow) (mls_commit tree : Bytes)
      → g.row ≡ some r
      → P g
      → P (store_commit r mls_commit tree now g)
  pub invited : (g : Group) (invites : List GroupInvite) → P g → P (record g { invites = invites })
  pub joined :
      (g : Group) (device : DeviceId)
      → is_some g.row ≡ true
      → is_group_member device g.members ≡ false
      → P g
      → P (insert_group_member device g)
  pub deleted :
      (g g' : Group) (target : DeviceId)
      → (check_group_admin target g.admins).0 ≡ false
      → IsDeleted g target g'
      → P g
      → P g'
  pub sends :
      (g : Group) (r : GroupRow) (m : Message)
      → g.row ≡ some r
      → m.sequence_number ≡ r.next_sequence
      → P g
      → P (sent g r (insert_group_message m g.messages)).0
  pub swept : (g : Group) → P g → P (expired_deleted now g)

no_row : (g g' : Group) → g' ≡ erased g → is_some g'.row ≢ true
no_row g g' e there = let there' : false ≡ true = subst (λ x. is_some x.row ≡ true) e there in cc

module _ {ℓ} (d : Directory) (P : Group → Type ℓ) (now : ℕ) (kept : IsKept now P) where
  unless {κ} : {A : Type κ} {g g' : Group} → P g → (A → P g') → (g' ≡ g) ⊎ A → P g'
  unless h changed (inl e) = subst P (sym e) h
  unless h changed (inr x) = changed x

  -- The end of an acceptance stores the commit, and then deletes the invite if it can.
  finished :
      {g g' : Group} (r : GroupRow) (req : AcceptGroupInviteRequest)
      → g.row ≡ some r
      → (let stored = store_commit r req.mls_commit req.new_ratchet_tree now g in
          (g' ≡ stored)
          ⊎ (g' ≡ record stored { invites = delete_group_invite req.invite_id stored.invites }))
      → P g
      → P g'
  finished {g} r req found (inl e) h =
      subst P (sym e) (kept.committed g r req.mls_commit req.new_ratchet_tree found h)
  finished {g} r req found (inr e) h =
      subst P (sym e)
        (kept.invited _ _ (kept.committed g r req.mls_commit req.new_ratchet_tree found h))

  pub call_by-IsKept :
      (g : Group) (device : DeviceId) (c : Call)
      → P g
      → (call_by d g device now c ≡ erased g → P (erased g))
      → P (call_by d g device now c)
  call_by-IsKept g device (create user allowed req stored) h gone =
      unless h (λ x. subst P (sym x.1) (kept.created g device req x.0 h))
        (create_group-outcome d g device now user allowed req stored)
  call_by-IsKept g device (dissolve proof timestamp stored) h gone =
      unless h (λ e. subst P (sym e) (kept.dissolved g h))
        (dissolve_group-outcome d g device now proof timestamp stored)
  call_by-IsKept g device (delegate req stored) h gone =
      unless h (λ x. kept.delegated g _ req.target_device_id x.0 x.1 h)
        (delegate_admin-outcome d g device now req stored)
  call_by-IsKept g device (transfer req stored) h gone =
      unless h (λ x. subst P (sym x.2) (kept.handed g device req.new_owner_device_id x.0 x.1 h))
        (transfer_ownership-outcome d g device now req stored)
  call_by-IsKept g device (submit req stored) h gone =
      unless h
        (λ x. subst P (sym x.3) (kept.committed g x.0 req.mls_commit req.new_ratchet_tree x.1 h))
        (submit_commit-outcome g now device req stored)
  call_by-IsKept g device (invite packages allowed req id stored) h gone =
      subst P (sym (invite_to_group-outcome packages g device allowed req id now stored))
        (kept.invited g _ h)
  call_by-IsKept g device (decline id stored) h gone =
      subst P (sym (decline_group_invite-outcome g device id stored)) (kept.invited g _ h)
  call_by-IsKept g device (accept_begins user req stored) h gone =
      unless h (λ x. subst P (sym x.2) (kept.joined g device x.0 x.1 h))
        (begin_accept-outcome d g device now user req stored)
  call_by-IsKept g device (accept_ends invite_epoch req stored deleted) h gone =
      unless h (λ x. finished x.0 req x.1 x.2 h)
        (finish_accept-outcome g now d invite_epoch req stored deleted)
  call_by-IsKept g device (leave proposal first second) h gone =
      unless h (λ x. kept.deleted g _ device x.0 x.1 h)
        (leave_group-outcome d g device now proposal first second)
  call_by-IsKept g device (remove req first second) h gone =
      unless h (λ x. kept.deleted g _ req.target_device_id x.0 x.1 h)
        (remove_member-outcome d g device now req first second)
  call_by-IsKept g device (send allowed req id stored) h gone =
      unless h (λ x. subst P (sym x.2) (kept.sends g x.0 (new_message x.0 req id now) x.1 refl h))
        (send_group_message-outcome g device allowed req id now stored)
  call_by-IsKept g device (clean stored) h gone = elim (run_cleanup-outcome g now stored) [
    | inl e ↦ subst P (sym e) h
    | inr (inl e) ↦ subst P (sym e) (kept.swept g h)
    | inr (inr e) ↦ subst P (sym e) (gone e)
  ]

module _ {ℓ} (d : Directory) (P : Group → Type ℓ) where
  pub run-IsKept :
      ((now : ℕ) → IsKept now P)
      → ((g : Group) → P g → P (erased g))
      → (es : List Event) (g : Group) → P g
      → P (run d es g)
  unfolding run
  run-IsKept kept gone [] g h = h
  run-IsKept kept gone (e ∷ es) g h =
      run-IsKept kept gone es (call_by d g e.device e.now e.call)
        (call_by-IsKept d P e.now (kept e.now) g e.device e.call h (λ _. gone g h))

  -- A property that ends with the group is kept while the group exists.
  pub lasting-IsKept :
      (es : List Event) (g : Group)
      → All (λ e. IsKept e.now P) es
      → lasts d es g ≡ true
      → P g
      → P (run d es g)
  unfolding run lasts
  lasting-IsKept [] g kept there h = h
  lasting-IsKept (e ∷ es) g kept there h =
      let g' = call_by d g e.device e.now e.call in
      lasting-IsKept es g' kept.1 (ground (arith, there)) (
        call_by-IsKept d P e.now kept.0 g e.device e.call h (λ erases.
          let there' : is_some g'.row ≡ true = ground (arith, there) in
          absurd (no_row g g' erases there')))
