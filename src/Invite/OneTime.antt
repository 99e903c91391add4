-- ===== src/Invite/OneTime.antt =====
-- identity-service/src/invite_core.rs: an invite that was accepted or revoked stays dead.
use construct_server.Base.{
  ℕ, List, ◌≡◌, Bool, true, ◌∷◌, inl, ◌+◌, ◌≤◌, inr, [], arith, false, All, ◌≢◌, Option, some, none,
}
use construct_server.Invite.Rows.{
  kept, Holds, Holds-burned, kept-Holds, burn-Holds, burn_fresh, unburned,
}
use construct_server.Invite.Accept.{accept_invite-Outcome, Fresh, accept_invite-Fresh}
use construct_server.Invite.{
  revoke_parsed, Bytes, Db, InviteToken, Replies, Crypto, accept_invite, revoke_invite,
  AcceptInviteOutput, accepted, invite_burn_retention_seconds,
}

-- What happens to the database: calls, and an outside job that deletes expired rows, some or all.
pub data Event : Type 0 where
  accept : Replies → InviteToken → Bytes → ℕ → Event
  revoke : Bytes → Bool → Event
  purge : (Bytes → Bool) → Event

-- With the clock of Postgres.
pub record Timed : Type 0 where
  pub event : Event
  pub at : ℕ

All-later :
    (ts : List Timed) (now until : ℕ)
    → now ≤ until
    → All (λ t. t.at ≤ now) ts
    → All (λ t. t.at ≤ until) ts
All-later [] now until le all = tt
All-later (t ∷ ts) now until le all = (omega (arith, all.0), All-later ts now until le all.1)

-- Twice the clock skew and the tolerance for the future fit into the hour of retention.
lifetime :
    (inv : InviteToken) (now later db_now db_later : ℕ)
    → Fresh inv now
    → Fresh inv later
    → now ≤ db_now + 1_770
    → db_later ≤ later + 1_770
    → db_later ≤ db_now + invite_burn_retention_seconds
lifetime inv now later db_now db_later f g skew skew' =
    ground (arith, f.made_at, g.made_at, f.not_future, g.not_expired)

-- What a run of events leaves, when none of them is later than `until`.
module _ (c : Crypto) where
  pub after : Db → Timed → Db
  after db t = elim t.event [
    | accept r inv accepter now ↦ (accept_invite c db r inv accepter now t.at).0
    | revoke jti burn_ok ↦ (revoke_invite c db jti burn_ok t.at).0
    | purge drops ↦ record db { used_invites = kept drops t.at db.used_invites }
  ]

  pub run : Db → List Timed → Db
  unfolding after
  run db [] = db
  run db (t ∷ ts) = run (after db t) ts

  accept-Holds :
      (db : Db) (r : Replies) (inv : InviteToken) (accepter jti : Bytes) (now db_now until : ℕ)
      → Holds jti until db.used_invites
      → Holds jti until (accept_invite c db r inv accepter now db_now).0.used_invites
  accept-Holds db r inv accepter jti now db_now until h =
      let outcome = accept_invite-Outcome db inv db_now c r accepter now in
      elim outcome.rows [
        | inl e ↦ rw e h
        | inr e ↦ rw e (burn-Holds db inv.jti jti until invite_burn_retention_seconds db_now h)
      ]

  parsed-Holds :
      (db : Db) (jti : Bytes) (burn_ok : Bool) (db_now until : ℕ) (parsed : Option Bytes)
      → Holds jti until db.used_invites
      → Holds jti until (revoke_parsed c db burn_ok db_now parsed).0.used_invites
  unfolding revoke_parsed
  parsed-Holds db jti burn_ok db_now until none h = h
  parsed-Holds db jti true db_now until (some sent) h =
      burn-Holds db sent jti until invite_burn_retention_seconds db_now h
  parsed-Holds db jti false db_now until (some sent) h = h

  revoke-Holds :
      (db : Db) (sent jti : Bytes) (burn_ok : Bool) (db_now until : ℕ)
      → Holds jti until db.used_invites
      → Holds jti until (revoke_invite c db sent burn_ok db_now).0.used_invites
  unfolding revoke_invite
  revoke-Holds db sent jti burn_ok db_now until h =
      parsed-Holds db jti burn_ok db_now until (c.parse_uuid sent) h

  after-Holds :
      (db : Db) (t : Timed) (jti : Bytes) (until : ℕ)
      → t.at ≤ until
      → Holds jti until db.used_invites
      → Holds jti until (after db t).used_invites
  unfolding after
  after-Holds db t jti until le h =
      elim t.event as (λ e. Holds jti until (after db (record t { event = e })).used_invites) [
        | accept r inv accepter now ↦ accept-Holds db r inv accepter jti now t.at until h
        | revoke sent burn_ok ↦ revoke-Holds db sent jti burn_ok t.at until h
        | purge drops ↦ kept-Holds drops t.at jti until db.used_invites le h
      ]

  pub run-Holds :
      (ts : List Timed) (db : Db) (jti : Bytes) (until : ℕ)
      → All (λ t. t.at ≤ until) ts
      → Holds jti until db.used_invites
      → Holds jti until (run db ts).used_invites
  unfolding run
  run-Holds [] db jti until all h = h
  run-Holds (t ∷ ts) db jti until all h =
      run-Holds ts (after db t) jti until all.1 (after-Holds db t jti until all.0 h)

  -- A burned jti is not accepted.
  burned_refused :
      (db : Db) (r : Replies) (inv : InviteToken) (accepter : Bytes) (now db_now until : ℕ)
      (out : AcceptInviteOutput)
      → Holds inv.jti until db.used_invites
      → (accept_invite c db r inv accepter now db_now).1 ≢ accepted out
  burned_refused db r inv accepter now db_now until out h e =
      let fresh = ((accept_invite-Outcome db inv db_now c r accepter now).accepts out e).0 in
      unburned db inv.jti invite_burn_retention_seconds db_now fresh
        (Holds-burned inv.jti until db.used_invites h)

  -- A row that outlives the invite keeps it from being accepted after any run of events.
  run_refused :
      (db : Db) (ts : List Timed) (r : Replies) (inv : InviteToken) (accepter : Bytes)
      (now db_now until : ℕ) (out : AcceptInviteOutput)
      → Holds inv.jti until db.used_invites
      → All (λ t. t.at ≤ db_now) ts
      → (Fresh inv now → db_now ≤ until)
      → (accept_invite c (run db ts) r inv accepter now db_now).1 ≢ accepted out
  run_refused db ts r inv accepter now db_now until out h all lives e =
      let fresh = accept_invite-Fresh c inv now (run db ts) r accepter db_now out e in
      let kept_row =
        run-Holds ts db inv.jti until (All-later ts db_now until (lives fresh) all) h in
      burned_refused (run db ts) r inv accepter now db_now until out kept_row e

-- An invite that was accepted is not accepted again, by anyone, after any run of accepts, revokes and
-- deletions of expired rows, while the clocks of the service and of Postgres are less than half an
-- hour apart: at most 1770 seconds.
pub accept_invite-once :
    (c : Crypto) (db : Db) (first second : Replies) (inv : InviteToken) (one two : Bytes)
    (now db_now later db_later : ℕ) (ts : List Timed) (out again : AcceptInviteOutput)
    → (accept_invite c db first inv one now db_now).1 ≡ accepted out
    → All (λ t. t.at ≤ db_later) ts
    → now ≤ db_now + 1_770
    → db_later ≤ later + 1_770
    → (accept_invite c
        (run c (accept_invite c db first inv one now db_now).0 ts)
        second
        inv
        two
        later
        db_later).1
      ≢ accepted again
accept_invite-once c db first second inv one two now db_now later db_later ts out again h all skew
      skew' =
    let outcome = (accept_invite-Outcome db inv db_now c first one now).accepts out h in
    let fresh = accept_invite-Fresh c inv now db first one db_now out h in
    let row = burn_fresh db inv.jti invite_burn_retention_seconds db_now outcome.0 in
    run_refused c _ ts second inv two later db_later (db_now + invite_burn_retention_seconds) again
      (rw outcome.1 row) all (λ f. lifetime inv now later db_now db_later fresh f skew skew')
