-- ===== src/Invite/Accept.antt =====
-- identity-service/src/invite_core.rs: what an accepted invite has gone through.
use construct_server.Base.{
  ℕ, ◌≡◌, Bool, ◌⊎◌, inl, true, refl, Bool-cases, Option, inr, some, ◌∙◌, ap, none, sym, pos,
  if◌then◌else◌, leb_ℤ, ◌≤◌, false, ◌+◌, arith, ℤ, negsuc,
}
use construct_server.Invite.{
  Bytes, Db, Replies, InviteToken, InviteValidationError, InviteSignatureError, Crypto, Accepted,
  AcceptInviteOutput, accepted, refused, accept_invite, burn_used_invite,
  invite_burn_retention_seconds, validate_with_expiry, verify_invite_signature, link_contacts,
  burn_and_link, accept_signed, accept_valid, accept_checked, AppError, after_burn, internal,
  public_key_not_found, signature_error, validation_error, invite_address_matches, address_mismatch,
  invite_already_used, validate, is_expired, effective_ttl, expired, is_future, future_timestamp,
  then_check,
}

module _ (db : Db) (inv : InviteToken) (db_now : ℕ) where
  abbrev pub burned : Db × Bool
  burned = burn_used_invite db inv.jti invite_burn_retention_seconds db_now

  -- The rows afterwards are those before or those that the burn made; in the second case they are
  -- what an accepted invite leaves.
  pub record Outcome (after : Db × Accepted) : Type 0 where
    pub rows :
        (after.0.used_invites ≡ db.used_invites) ⊎ (after.0.used_invites ≡ burned.0.used_invites)
    pub accepts :
        (out : AcceptInviteOutput)
        → after.1 ≡ accepted out
        → (burned.1 ≡ true) × (after.0.used_invites ≡ burned.0.used_invites)

  refused-Outcome : (e : AppError) → Outcome (db, refused e)
  refused-Outcome e = record { rows = inl refl; accepts = λ out h. absurd cc }

  module _ (c : Crypto) (r : Replies) (accepter : Bytes) where
    link-rows : (d : Db) → (link_contacts c d r inv accepter).0.used_invites ≡ d.used_invites
    unfolding link_contacts
    link-rows d = elim (Bool-cases r.first_link_ok) [
      | inl e ↦ elim (Bool-cases r.second_link_ok) [
        | inl f ↦ rw (e, f) refl
        | inr f ↦ rw (e, f) refl
      ]
      | inr e ↦ rw e refl
    ]

    after_burn-Outcome : (p : Db × Bool) → p ≡ burned → Outcome (after_burn c db r inv accepter p)
    unfolding after_burn
    after_burn-Outcome p same = elim (Bool-cases p.1) [
      | inl e ↦
          let rows = link-rows p.0 ∙ ap (λ q. q.0.used_invites) same in
          rw e (record { rows = inr rows; accepts = λ out h. (sym (ap (λ q. q.1) same) ∙ e, rows) })
      | inr e ↦ rw e (refused-Outcome invite_already_used)
    ]

    burn_and_link-Outcome : Outcome (burn_and_link c db r inv accepter db_now)
    unfolding burn_and_link
    burn_and_link-Outcome = elim (Bool-cases r.burn_ok) [
      | inl e ↦ simp e (after_burn-Outcome burned refl)
      | inr e ↦ rw e (refused-Outcome internal)
    ]

    signed-Outcome :
        (creator : Option (Option (Option Bytes)))
        → Outcome (accept_signed c db r inv accepter db_now creator)
    unfolding accept_signed
    signed-Outcome none = refused-Outcome internal
    signed-Outcome (some none) = refused-Outcome public_key_not_found
    signed-Outcome (some (some key)) = elim (Bool-cases (invite_address_matches key inv.addr)) [
      | inl e ↦ rw e burn_and_link-Outcome
      | inr e ↦ rw e (refused-Outcome address_mismatch)
    ]

    valid-Outcome :
        (checked : Option InviteSignatureError)
        → Outcome (accept_valid c db r inv accepter db_now checked)
    unfolding accept_valid
    valid-Outcome none = signed-Outcome r.creator
    valid-Outcome (some e) = refused-Outcome (signature_error e)

    checked-Outcome :
        (checked : Option InviteValidationError)
        → Outcome (accept_checked c db r inv accepter db_now checked)
    unfolding accept_checked
    checked-Outcome none = valid-Outcome (verify_invite_signature c r.device inv)
    checked-Outcome (some e) = refused-Outcome (validation_error e)

    pub accept_invite-Outcome : (now : ℕ) → Outcome (accept_invite c db r inv accepter now db_now)
    unfolding accept_invite
    accept_invite-Outcome now = checked-Outcome (validate_with_expiry c inv now)

-- The times of an invite that passes the checks at `now`.
pub record Fresh (inv : InviteToken) (now : ℕ) : Type 0 where
  pub made : ℕ
  pub made_at : inv.ts ≡ pos made
  pub not_expired : now ≤ made + 43_200
  pub not_future : made ≤ now + 60

expiry_times :
    (inv : InviteToken) (now made : ℕ)
    → inv.ts ≡ pos made
    → (if is_expired inv (effective_ttl inv) now
        then some expired
        else if is_future inv now
        then some future_timestamp
        else none)
      ≡ none
    → Fresh inv now
expiry_times inv now made e h = record {
  made = made;
  made_at = e;
  not_expired = ground (arith, e, h);
  not_future = ground (arith, e, h);
}

then_check-none {ℓ} :
    {E : Type ℓ} (a b : Option E) → then_check a b ≡ none → (a ≡ none) × (b ≡ none)
then_check-none none b h = (refl, h)
then_check-none (some e) b h = absurd cc

not_negative : (z : ℤ) → leb_ℤ z (pos 0) ≡ false → (m : ℕ) × (z ≡ pos m)
not_negative (pos m) h = (m, refl)
not_negative (negsuc m) h = absurd (ground arith)

module _ (c : Crypto) (inv : InviteToken) (now : ℕ) where
  ts_positive : validate c inv now ≡ none → leb_ℤ inv.ts (pos 0) ≡ false
  unfolding validate
  ts_positive h = ground (arith, h)

  both_checks :
      validate_with_expiry c inv now ≡ none
      → (validate c inv now ≡ none)
        × ((if is_expired inv (effective_ttl inv) now
              then some expired
              else if is_future inv now
              then some future_timestamp
              else none)
            ≡ none)
  unfolding validate_with_expiry
  both_checks h = then_check-none _ _ h

  valid-Fresh : validate_with_expiry c inv now ≡ none → Fresh inv now
  valid-Fresh h =
      let (made, made_at) = not_negative inv.ts (ts_positive (both_checks h).0) in
      expiry_times inv now made made_at (both_checks h).1

  checked_none :
      (db : Db) (r : Replies) (accepter : Bytes) (db_now : ℕ) (out : AcceptInviteOutput)
      (checked : Option InviteValidationError)
      → (accept_checked c db r inv accepter db_now checked).1 ≡ accepted out
      → checked ≡ none
  unfolding accept_checked
  checked_none db r accepter db_now out none h = refl
  checked_none db r accepter db_now out (some e) h = absurd cc

  pub accept_invite-Fresh :
      (db : Db) (r : Replies) (accepter : Bytes) (db_now : ℕ) (out : AcceptInviteOutput)
      → (accept_invite c db r inv accepter now db_now).1 ≡ accepted out
      → Fresh inv now
  unfolding accept_invite
  accept_invite-Fresh db r accepter db_now out h =
      valid-Fresh (checked_none db r accepter db_now out (validate_with_expiry c inv now) h)
