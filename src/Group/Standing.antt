-- ===== src/Group/Standing.antt =====
-- group-service/src/handlers/membership.rs: whether the admins of a group are members of it.
use construct_server.Base.{
  ℕ, List, Bool, [], All, inl, true, ◌&&◌, ◌==◌, ◌∷◌, ◌≡◌, arith, false, not, some, subst, refl,
  sym, ◌⊎◌, inr,
}
use construct_server.Group.{
  Bytes, DeviceId, Admin, Member, Group, no_group, removed, err, internal, permission_denied,
}
use construct_server.Group.Tables.{
  get_next_group_leaf_index, is_group_member, upsert_group_admin_role, remove_group_member,
  remove_group_admin_role, transfer_group_ownership, demote, promote,
}
use construct_server.Group.Signed.{Directory}
use construct_server.Group.Membership.{
  leave_group, delete_member, remove_member, RemoveMemberRequest,
}
use construct_server.Group.Commits.{store_commit}
use construct_server.Group.Cleanup.{run_cleanup-outcome}
use construct_server.Group.Outcomes
use construct_server.Group.Run.{
  Call, leave, remove, create, dissolve, delegate, transfer, submit, invite, decline, accept_begins,
  accept_ends, send, clean, Event, call_by, run,
}

-- Both deletions of a removal succeed, or the first one fails.
abbrev pub IsWhole : Call → Type 0
IsWhole (leave proposal first second) = (first && not second) ≡ false
IsWhole (remove req first second) = (first && not second) ≡ false
IsWhole _ = Unit

abbrev pub AllJoined : List Admin → List Member → Type 0
AllJoined admins members = All (λ a. is_group_member a.device_id members ≡ true) admins

joined-cons :
    (m : Member) (admins : List Admin) (members : List Member)
    → AllJoined admins members
    → AllJoined admins (m ∷ members)
unfolding is_group_member
joined-cons m [] members h = tt
joined-cons m (a ∷ rest) members h = ground (arith, joined-cons m rest members h.1)

joined-upsert :
    (target : DeviceId) (role : ℕ) (admins : List Admin) (members : List Member)
    → is_group_member target members ≡ true
    → AllJoined admins members
    → AllJoined (upsert_group_admin_role target role admins) members
unfolding upsert_group_admin_role
joined-upsert target role [] members t h = (t, tt)
joined-upsert target role (a ∷ rest) members t h =
    ground (arith, joined-upsert target role rest members t h.1)

joined-transfer :
    (old new : DeviceId) (admins : List Admin) (members : List Member)
    → AllJoined admins members
    → AllJoined (promote new (demote old admins)) members
unfolding promote demote
joined-transfer old new [] members h = tt
joined-transfer old new (a ∷ rest) members h =
    ground (arith, joined-transfer old new rest members h.1)

is_group_member-remove :
    (target owner : DeviceId) (members : List Member)
    → (target == owner) ≡ false
    → is_group_member owner (remove_group_member target members) ≡ is_group_member owner members
unfolding remove_group_member is_group_member
is_group_member-remove target owner [] ne = refl
is_group_member-remove target owner (m ∷ rest) ne =
    ground (arith, is_group_member-remove target owner rest ne)

pub is_group_member-removed :
    (target : DeviceId) (members : List Member)
    → is_group_member target (remove_group_member target members) ≡ false
unfolding remove_group_member is_group_member
is_group_member-removed target [] = refl
is_group_member-removed target (m ∷ rest) = ground (arith, is_group_member-removed target rest)

joined-remove :
    (target : DeviceId) (admins : List Admin) (members : List Member)
    → AllJoined admins members
    → AllJoined (remove_group_admin_role target admins) (remove_group_member target members)
unfolding remove_group_admin_role
joined-remove target [] members h = tt
joined-remove target (a ∷ rest) members h = ground (
  arith,
  joined-remove target rest members h.1,
  is_group_member-remove target a.device_id members,
)

handed_is :
    (old new : DeviceId) (admins admins' : List Admin)
    → transfer_group_ownership old new admins ≡ some admins'
    → admins' ≡ promote new (demote old admins)
unfolding transfer_group_ownership
handed_is old new admins admins' e = ground arith

module _ (g : Group) (target : DeviceId) where
  abbrev without : Group
  without = record g {
    members = remove_group_member target g.members;
    hub = removed target ∷ g.hub;
    admins = remove_group_admin_role target g.admins;
  }

  leave_group-whole :
      (proposal : Bytes) (first second : Bool)
      → (first && not second) ≡ false
      → let g' = (leave_group g target proposal first second).0 in (g' ≡ g) ⊎ (g' ≡ without)
  unfolding leave_group delete_member
  leave_group-whole proposal first second whole = ground arith

remove_member-whole :
    (d : Directory) (g : Group) (device : DeviceId) (req : RemoveMemberRequest) (now : ℕ)
    (first second : Bool)
    → (first && not second) ≡ false
    → let g' = (remove_member d g device req now first second).0 in
      (g' ≡ g) ⊎ (g' ≡ without g req.target_device_id)
unfolding remove_member delete_member
remove_member-whole d g device req now first second whole = ground arith

abbrev Stands : Group → Type 0
Stands g = AllJoined g.admins g.members

module _ (d : Directory) where
  call_by-Stands :
      (g : Group) (device : DeviceId) (now : ℕ) (c : Call)
      → IsWhole c
      → Stands g
      → Stands (call_by d g device now c)
  unfolding store_commit is_group_member
  call_by-Stands g device now (create user allowed req stored) whole h =
      elim (Outcomes.create_group-outcome d g device now user allowed req stored) [
        | inl e ↦ subst Stands (sym e) h
        | inr (row, e) ↦ subst Stands (sym e) (
          ground arith,
          joined-cons (record { device_id = device; leaf_index = 0 }) g.admins g.members h,
        )
      ]
  call_by-Stands g device now (dissolve proof timestamp stored) whole h =
      elim (Outcomes.dissolve_group-outcome d g device now proof timestamp stored) [
        | inl e ↦ subst Stands (sym e) h
        | inr e ↦ subst Stands (sym e) h
      ]
  call_by-Stands g device now (delegate req stored) whole h =
      elim (Outcomes.delegate_admin-outcome d g device now req stored) [
        | inl e ↦ subst Stands (sym e) h
        | inr (role, x) ↦
            subst Stands (sym x.2)
              (joined-upsert req.target_device_id role g.admins g.members x.0 h)
      ]
  call_by-Stands g device now (transfer req stored) whole h =
      elim (Outcomes.transfer_ownership-outcome d g device now req stored) [
        | inl e ↦ subst Stands (sym e) h
        | inr (admins, t, e) ↦ subst Stands (sym e) (
            subst (λ xs. AllJoined xs g.members)
              (sym (handed_is device req.new_owner_device_id g.admins admins t))
              (joined-transfer device req.new_owner_device_id g.admins g.members h))
      ]
  call_by-Stands g device now (submit req stored) whole h =
      elim (Outcomes.submit_commit-outcome g now device req stored) [
        | inl e ↦ subst Stands (sym e) h
        | inr (r, found, _, e) ↦ subst Stands (sym e) h
      ]
  call_by-Stands g device now (invite packages allowed req id stored) whole h =
      subst Stands
        (sym (Outcomes.invite_to_group-outcome packages g device allowed req id now stored)) h
  call_by-Stands g device now (decline id stored) whole h =
      subst Stands (sym (Outcomes.decline_group_invite-outcome g device id stored)) h
  call_by-Stands g device now (accept_begins user req stored) whole h =
      elim (Outcomes.begin_accept-outcome d g device now user req stored) [
        | inl e ↦ subst Stands (sym e) h
        | inr (_, _, e) ↦ subst Stands (sym e) (
            joined-cons
              (record { device_id = device; leaf_index = get_next_group_leaf_index g.members })
              g.admins g.members h)
      ]
  call_by-Stands g device now (accept_ends invite_epoch req stored deleted) whole h =
      elim (Outcomes.finish_accept-outcome g now d invite_epoch req stored deleted) [
        | inl e ↦ subst Stands (sym e) h
        | inr (r, found, inl e) ↦ subst Stands (sym e) h
        | inr (r, found, inr e) ↦ subst Stands (sym e) h
      ]
  call_by-Stands g device now (leave proposal first second) whole h =
      elim (leave_group-whole g device proposal first second whole) [
        | inl e ↦ subst Stands (sym e) h
        | inr e ↦ subst Stands (sym e) (joined-remove device g.admins g.members h)
      ]
  call_by-Stands g device now (remove req first second) whole h =
      elim (remove_member-whole d g device req now first second whole) [
        | inl e ↦ subst Stands (sym e) h
        | inr e ↦ subst Stands (sym e) (joined-remove req.target_device_id g.admins g.members h)
      ]
  call_by-Stands g device now (send allowed req id stored) whole h =
      elim (Outcomes.send_group_message-outcome g device allowed req id now stored) [
        | inl e ↦ subst Stands (sym e) h
        | inr (r, found, e) ↦ subst Stands (sym e) h
      ]
  call_by-Stands g device now (clean stored) whole h = elim (run_cleanup-outcome g now stored) [
    | inl e ↦ subst Stands (sym e) h
    | inr (inl e) ↦ subst Stands (sym e) h
    | inr (inr e) ↦ subst Stands (sym e) tt
  ]

  from-Stands :
      (es : List Event) (g : Group) → All (λ e. IsWhole e.call) es → Stands g → Stands (run d es g)
  unfolding run
  from-Stands [] g whole h = h
  from-Stands (e ∷ es) g whole h =
      from-Stands es (call_by d g e.device e.now e.call) whole.1
        (call_by-Stands g e.device e.now e.call whole.0 h)

  -- After any run of the handlers and of clean-ups on a group that did not exist, in which no
  -- removal of a member fails at its second deletion alone, every admin is a member.
  pub run-AllJoined :
      (es : List Event)
      → All (λ e. IsWhole e.call) es
      → let g = run d es no_group in AllJoined g.admins g.members
  run-AllJoined es whole = from-Stands es no_group whole tt

-- When leave_group fails at its second deletion alone, the device is no member, the admins are as
-- before, and when it calls leave_group again it is refused as no member and nothing changes.
pub leave_group-half :
    (g : Group) (device : DeviceId) (proposal : Bytes) (first second : Bool)
    → (leave_group g device proposal true false).1 ≡ err internal
    → let g' = (leave_group g device proposal true false).0 in
      (is_group_member device g'.members ≡ false)
      × (g'.admins ≡ g.admins)
      × (leave_group g' device proposal first second ≡ (g', err permission_denied))
unfolding leave_group delete_member
leave_group-half g device proposal first second failed =
    ground (arith, is_group_member-removed device g.members)
