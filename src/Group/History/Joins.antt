-- ===== src/Group/History/Joins.antt =====
-- group-service/src/handlers/membership.rs: accepting an invite, alone and with a commit that comes
-- between the insertion of the member and the transaction.
use construct_server.Base.{
  ℕ, ℤ, Bool, Option, none, false, ◌≡◌, some, true, arith, List, ◌∷◌, [], refl, ap, pos, sym,
  negsuc, ◌∙◌,
}
use construct_server.Group.{
  failed_precondition, GroupInvite, Group, ok, DeviceId, Reply, Uuid, err, GroupRow,
}
use construct_server.Group.Tables.{
  is_some, get_group_invite_target_device, get_group_epoch, is_epoch, delete_group_invite,
  is_group_member,
}
use construct_server.Group.Commits.{SubmitCommitRequest, store_commit, commit_locked, submit_commit}
use construct_server.Group.Signed.{Directory}
use construct_server.Group.Membership.{
  accept_after, accept_locked, AcceptGroupInviteRequest, begin_accept, insert_group_member,
  accept_found, accept_group_invite, finish_accept,
}

abbrev current : ℤ → Option ℕ → Bool
current invite_epoch none = false
current invite_epoch (some epoch) = is_epoch invite_epoch epoch

module _ (d : Directory) (g : Group) (device user : ℕ) (req : AcceptGroupInviteRequest)
    (now : ℕ) where
  found-begins :
      (i : Option GroupInvite) (invite_epoch : ℤ) (stored : Bool)
      → (accept_found d i g device user req now stored).1 ≡ ok invite_epoch
      → (current invite_epoch (get_group_epoch g.row) ≡ true)
        × ((accept_found d i g device user req now stored).0 ≡ insert_group_member device g)
  found-begins none invite_epoch stored e = absurd (cc)
  found-begins (some i) invite_epoch stored e = ground arith

  begins :
      (invite_epoch : ℤ) (stored : Bool)
      → (begin_accept d g device user req now stored).1 ≡ ok invite_epoch
      → (current invite_epoch (get_group_epoch g.row) ≡ true)
        × ((begin_accept d g device user req now stored).0 ≡ insert_group_member device g)
  unfolding begin_accept
  begins invite_epoch stored e = found-begins _ invite_epoch stored e

invite_gone :
    (id : Uuid) (invites : List GroupInvite)
    → get_group_invite_target_device id (delete_group_invite id invites) ≡ none
unfolding get_group_invite_target_device delete_group_invite
invite_gone id [] = refl
invite_gone id (i ∷ rest) = ground (arith, invite_gone id rest)

-- What holds of a device once its acceptance has answered with an epoch.
abbrev pub IsJoined : DeviceId → Uuid → ℕ → Group → Type 0
IsJoined device invite_id epoch g =
    (is_group_member device g.members ≡ true)
    × (get_group_epoch g.row ≡ some epoch)
    × (get_group_invite_target_device invite_id g.invites ≡ none)

locked-IsJoined :
    (d : Directory) (row : Option GroupRow) (g : Group) (device : DeviceId) (invite_epoch : ℤ)
    (req : AcceptGroupInviteRequest) (now : ℕ) (stored deleted : Bool) (epoch at : ℕ)
    → is_group_member device g.members ≡ true
    → (accept_locked d row g invite_epoch req now stored deleted).1 ≡ ok (epoch, at)
    → IsJoined device req.invite_id epoch
        (accept_locked d row g invite_epoch req now stored deleted).0
unfolding store_commit
locked-IsJoined d none g device invite_epoch req now stored deleted epoch at m e = absurd (cc)
locked-IsJoined d (some r) g device invite_epoch req now stored deleted epoch at m e =
    ground (arith, m, invite_gone req.invite_id g.invites)

joined :
    (device : DeviceId) (g : Group)
    → is_group_member device (insert_group_member device g).members ≡ true
unfolding is_group_member
joined device g = ground arith

accept_after-IsJoined :
    (d : Directory) (p : Group × Reply ℤ) (device : DeviceId) (req : AcceptGroupInviteRequest)
    (now : ℕ) (stored deleted : Bool) (epoch at : ℕ)
    → ((z : ℤ) → p.1 ≡ ok z → is_group_member device p.0.members ≡ true)
    → (accept_after d p req now stored deleted).1 ≡ ok (epoch, at)
    → IsJoined device req.invite_id epoch (accept_after d p req now stored deleted).0
unfolding finish_accept
accept_after-IsJoined d (g, err x) device req now stored deleted epoch at m e = absurd (cc)
accept_after-IsJoined d (g, ok z) device req now stored deleted epoch at m e =
    locked-IsJoined d g.row g device z req now stored deleted epoch at (m z refl) e

-- A device whose acceptance with nothing in between answers with an epoch is a member, the group
-- is at this epoch, and no invite with the id of the request is left.
pub accept_group_invite-IsJoined :
    (d : Directory) (g : Group) (device user : ℕ) (req : AcceptGroupInviteRequest) (now : ℕ)
    (inserted stored deleted : Bool) (epoch at : ℕ)
    → (accept_group_invite d g device user req now inserted stored deleted).1 ≡ ok (epoch, at)
    → IsJoined device req.invite_id epoch
        (accept_group_invite d g device user req now inserted stored deleted).0
unfolding accept_group_invite
accept_group_invite-IsJoined d g device user req now inserted stored deleted epoch at e =
    accept_after-IsJoined d (begin_accept d g device user req now inserted) device req now stored
      deleted epoch at (λ z h. rw (begins d g device user req now z inserted h).1 (joined device g))
      e

committed :
    (row : Option GroupRow) (g : Group) (req : SubmitCommitRequest) (now : ℕ) (stored : Bool)
    (answer : ℕ × ℕ) (invite_epoch : ℤ)
    → (commit_locked row g req now stored).1 ≡ ok answer
    → current invite_epoch (get_group_epoch row) ≡ true
    → (current invite_epoch (get_group_epoch (commit_locked row g req now stored).0.row) ≡ false)
      × (is_some (commit_locked row g req now stored).0.row ≡ true)
      × ((commit_locked row g req now stored).0.members ≡ g.members)
unfolding commit_locked store_commit
committed none g req now stored answer invite_epoch e c = absurd (cc)
committed (some r) g req now stored answer (pos n) e c = ground arith
committed (some r) g req now stored answer (negsuc n) e c = absurd (cc)

finish_stale :
    (d : Directory) (row : Option GroupRow) (g : Group) (invite_epoch : ℤ)
    (req : AcceptGroupInviteRequest) (now : ℕ) (stored deleted : Bool)
    → current invite_epoch (get_group_epoch row) ≡ false
    → is_some row ≡ true
    → accept_locked d row g invite_epoch req now stored deleted ≡ (g, err failed_precondition)
finish_stale d none g invite_epoch req now stored deleted c found = absurd (cc)
finish_stale d (some r) g invite_epoch req now stored deleted c found = rw c refl

locked_of :
    (g : Group) (device : DeviceId) (req : SubmitCommitRequest) (now : ℕ) (stored : Bool)
    (answer : ℕ × ℕ)
    → (submit_commit g device req now stored).1 ≡ ok answer
    → submit_commit g device req now stored ≡ commit_locked g.row g req now stored
unfolding submit_commit
locked_of g device req now stored answer e = ground arith

-- When another device's commit is accepted between the insertion of a member by an acceptance and
-- its transaction, the acceptance ends with a failed precondition and changes nothing more, while
-- its device is a member of the group.
pub begin_accept-overtaken :
    (d : Directory) (g : Group) (device user other : ℕ) (req : AcceptGroupInviteRequest)
    (req' : SubmitCommitRequest) (now now' later : ℕ) (inserted stored' stored deleted : Bool)
    (invite_epoch : ℤ) (answer : ℕ × ℕ)
    → let g₁ = (begin_accept d g device user req now inserted).0 in
      let g₂ = (submit_commit g₁ other req' now' stored').0 in
      (begin_accept d g device user req now inserted).1 ≡ ok invite_epoch
      → (submit_commit g₁ other req' now' stored').1 ≡ ok answer
      → (finish_accept d g₂ invite_epoch req later stored deleted ≡ (g₂, err failed_precondition))
        × (is_group_member device g₂.members ≡ true)
unfolding finish_accept
begin_accept-overtaken d g device user other req req' now now' later inserted stored' stored deleted
      invite_epoch answer e e' =
    let begun = begins d g device user req now invite_epoch inserted e in
    let g₁ = (begin_accept d g device user req now inserted).0 in
    let same_row : g₁.row ≡ g.row = ap (λ x. x.row) begun.1 in
    let l = locked_of g₁ other req' now' stored' answer e' in
    let c =
      committed g₁.row g₁ req' now' stored' answer invite_epoch (ap (λ x. x.1) (sym l) ∙ e')
        (rw same_row begun.0) in
    let m : is_group_member device g₁.members ≡ true = rw begun.1 (joined device g) in
    (rw l (finish_stale d _ _ invite_epoch req later stored deleted c.0 c.1), rw (l, c.2) m)
