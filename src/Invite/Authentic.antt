-- ===== src/Invite/Authentic.antt =====
-- identity-service/src/invite_core.rs: who must have signed an invite that is accepted.
use construct_server.Base.{ℕ, ◌≡◌, Option, none, true, some, ap, arith, refl, bytes_eq_sound}
use construct_server.Invite.{
  Bytes, Db, Replies, InviteToken, InviteValidationError, InviteSignatureError, Device, Crypto,
  AcceptInviteOutput, accepted, accept_invite, validate_with_expiry, verify_invite_signature,
  verify_decoded, verify_canonical, canonical_string, accept_signed, accept_valid, accept_checked,
  is_some_bytes,
}

-- The signature of an active device of the account over the invite's canonical string.
pub record Signed (c : Crypto) (inv : InviteToken) (d : Device) : Type 0 where
  pub active : d.is_active ≡ true
  pub owner : d.user_id ≡ some inv.uuid
  pub message : Bytes
  pub signature : Bytes
  pub is_canonical : canonical_string c inv ≡ some message
  pub decoded : c.decode inv.sig ≡ some signature
  pub verified : c.verify d.verifying_key message signature ≡ true

same_bytes : (a : Option Bytes) (b : Bytes) → is_some_bytes a b ≡ true → a ≡ some b
same_bytes none b h = absurd cc
same_bytes (some a) b h = ap some (bytes_eq_sound a b h)

module _ (c : Crypto) (inv : InviteToken) where
  canonical_verified :
      (key sig : Bytes) (canonical : Option Bytes)
      → verify_canonical c key sig canonical ≡ none
      → (m : Bytes) × (canonical ≡ some m) × (c.verify key m sig ≡ true)
  unfolding verify_canonical
  canonical_verified key sig none h = absurd cc
  canonical_verified key sig (some m) h = (m, refl, ground (arith, h))

  decoded_verified :
      (key : Bytes) (sig : Option Bytes)
      → verify_decoded c inv key sig ≡ none
      → (s : Bytes) × (sig ≡ some s) × (verify_canonical c key s (canonical_string c inv) ≡ none)
  unfolding verify_decoded
  decoded_verified key none h = absurd cc
  decoded_verified key (some s) h = (s, refl, ground (arith, h))

  signature-Signed :
      (device : Option (Option Device))
      → verify_invite_signature c device inv ≡ none
      → (d : Device) × (device ≡ some (some d)) × Signed c inv d
  unfolding verify_invite_signature
  signature-Signed none h = absurd cc
  signature-Signed (some none) h = absurd cc
  signature-Signed (some (some d)) h =
      let decoded : verify_decoded c inv d.verifying_key (c.decode inv.sig) ≡ none =
        ground (arith, h) in
      let (s, es, hs) = decoded_verified d.verifying_key (c.decode inv.sig) decoded in
      let (m, em, hm) = canonical_verified d.verifying_key s (canonical_string c inv) hs in
      (
        d,
        refl,
        record {
          active = ground (arith, h);
          owner = same_bytes d.user_id inv.uuid (ground (arith, h));
          message = m;
          signature = s;
          is_canonical = em;
          decoded = es;
          verified = hm;
        },
      )

  module _ (db : Db) (r : Replies) (accepter : Bytes) (now db_now : ℕ)
      (out : AcceptInviteOutput) where
    signed_creator :
        (creator : Option (Option (Option Bytes)))
        → (accept_signed c db r inv accepter db_now creator).1 ≡ accepted out
        → creator ≡ some (some (some inv.addr))
    unfolding accept_signed
    signed_creator none h = absurd cc
    signed_creator (some none) h = absurd cc
    signed_creator (some (some key)) h =
        ap (λ k. some (some k)) (same_bytes key inv.addr (ground (arith, h)))

    valid_parts :
        (checked : Option InviteSignatureError)
        → (accept_valid c db r inv accepter db_now checked).1 ≡ accepted out
        → (checked ≡ none) × (r.creator ≡ some (some (some inv.addr)))
    unfolding accept_valid
    valid_parts none h = (refl, signed_creator r.creator h)
    valid_parts (some e) h = absurd cc

    checked_parts :
        (checked : Option InviteValidationError)
        → (accept_checked c db r inv accepter db_now checked).1 ≡ accepted out
        → (checked ≡ none)
          × (verify_invite_signature c r.device inv ≡ none)
          × (r.creator ≡ some (some (some inv.addr)))
    unfolding accept_checked
    checked_parts none h =
        let parts = valid_parts (verify_invite_signature c r.device inv) h in
        (refl, parts.0, parts.1)
    checked_parts (some e) h = absurd cc

    -- An invite is accepted only if it passes validation at the time of the call, an active device
    -- of the account that it names has signed its canonical string, and the address in it is the
    -- recovery key of that account.
    pub accept_invite-Signed :
        (accept_invite c db r inv accepter now db_now).1 ≡ accepted out
        → (validate_with_expiry c inv now ≡ none)
          × ((d : Device) × (r.device ≡ some (some d)) × Signed c inv d)
          × (r.creator ≡ some (some (some inv.addr)))
    unfolding accept_invite
    accept_invite-Signed h =
        let parts = checked_parts (validate_with_expiry c inv now) h in
        (parts.0, signature-Signed r.device parts.1, parts.2)
