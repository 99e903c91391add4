-- ===== src/Invite.antt =====
-- Invites: crates/crypto-agility/src/invites.rs, identity-service/src/invite_core.rs and
-- `burn_used_invite` of crates/construct-db/src/lib.rs.
--
-- Strings and keys are lists of bytes; `none` in an error position is `Ok(())`. Base64, the Ed25519
-- operations, the parser of UUIDs, the HMAC of a contact and the canonical string's formatters are
-- parameters. What Postgres replies to the other commands of a call is the record `Replies`.
pub mod Accept
pub mod Rows
pub mod OneTime
pub mod Authentic
mod Tests
use mathlib.Core.Option
use construct_server.Base.{
  ℕ, Bool, List, Option, [], if◌then◌else◌, suc, ℤ, ◌++◌, ◌+◌, ◌∷◌, false, leb, ltb_ℤ, not, pos,
  some, true, ◌&&◌, ◌/◌, ◌==◌, bytes_eq, length, ltb, negsuc, none, ◌-ℤ◌, ◌||◌, leb_ℤ, ◌%◌, zero,
}

abbrev pub Bytes : Type 0
Bytes = List ℕ

abbrev pub invite_ttl_seconds : ℕ
invite_ttl_seconds = 43_200

abbrev pub invite_ttl_min_seconds : ℕ
invite_ttl_min_seconds = 60

abbrev pub invite_burn_retention_seconds : ℕ
invite_burn_retention_seconds = invite_ttl_seconds + 3_600

abbrev pub invite_version : ℕ
invite_version = 5

abbrev pub invite_addr_len : ℕ
invite_addr_len = 32

pub record InviteToken : Type 0 where
  pub v : ℕ
  pub jti : Bytes
  pub uuid : Bytes
  pub device_id : Bytes
  pub server : Bytes
  pub ts : ℤ
  pub sig : Bytes
  pub username : Option Bytes
  pub ttl : ℕ
  pub addr : Bytes

pub data InviteValidationError : Type 0 where
  unsupported_version : ℕ → InviteValidationError
  invalid_device_id invalid_server invalid_timestamp expired future_timestamp :
      InviteValidationError
  invalid_signature invalid_ttl invalid_address : InviteValidationError

abbrev pub effective_ttl : InviteToken → ℕ
effective_ttl inv = if leb invite_ttl_seconds inv.ttl then invite_ttl_seconds else inv.ttl

abbrev pub is_expired : InviteToken → ℕ → ℕ → Bool
is_expired inv ttl_seconds now = ltb_ℤ (pos ttl_seconds) (pos now -ℤ inv.ts)

-- 60 seconds of clock skew are allowed.
abbrev pub is_future : InviteToken → ℕ → Bool
is_future inv now = ltb_ℤ (pos (now + 60)) inv.ts

-- `'0'..='9' | 'a'..='f'`.
abbrev pub is_hex_digit : ℕ → Bool
is_hex_digit c = (leb 48 c && leb c 57) || (leb 97 c && leb c 102)

pub all_hex : Bytes → Bool
all_hex [] = true
all_hex (c ∷ cs) = is_hex_digit c && all_hex cs

pub contains : ℕ → Bytes → Bool
contains x [] = false
contains x (c ∷ cs) = c == x || contains x cs

-- A signature that decodes to 64 bytes.
abbrev is_signature : Option Bytes → Bool
is_signature none = false
is_signature (some bytes) = length bytes == 64

-- `?` on a check: its error, or the next check.
abbrev pub then_check {ℓ} : {E : Type ℓ} → Option E → Option E → Option E
then_check none next = next
then_check (some e) next = some e

pub record Device : Type 0 where
  pub user_id : Option Bytes
  pub is_active : Bool
  pub verifying_key : Bytes

pub data InviteSignatureError : Type 0 where
  device_not_found invalid_verifying_key invalid_sig verification_failed database_error :
      InviteSignatureError

abbrev pub is_some_bytes : Option Bytes → Bytes → Bool
is_some_bytes none b = false
is_some_bytes (some a) b = bytes_eq a b

abbrev pub invite_signer_matches : Option Bytes → Bool → Bytes → Bool
invite_signer_matches device_user active claimed_user =
    active && is_some_bytes device_user claimed_user

abbrev pub invite_address_matches : Option Bytes → Bytes → Bool
invite_address_matches recovery_public_key addr = is_some_bytes recovery_public_key addr

-- A row of `used_invites`.
pub record Burn : Type 0 where
  pub burn_jti : Bytes
  pub expires_at : ℕ

pub record Db : Type 0 where
  pub used_invites : List Burn
  pub links : List (Bytes × Bytes)

pub is_burned : Bytes → List Burn → Bool
is_burned jti [] = false
is_burned jti (b ∷ bs) = bytes_eq b.burn_jti jti || is_burned jti bs

-- `INSERT ... ON CONFLICT (jti) DO NOTHING RETURNING jti`: whether the row is new.
pub burn_used_invite : Db → Bytes → ℕ → ℕ → Db × Bool
unfolding is_burned
burn_used_invite db jti ttl_seconds db_now =
    if is_burned jti db.used_invites then (db, false) else (
      record db {
        used_invites =
            record { burn_jti = jti; expires_at = db_now + ttl_seconds } ∷ db.used_invites;
      },
      true,
    )

-- `INSERT ... ON CONFLICT DO NOTHING`: the links are read as a set.
abbrev pub add_contact_link : Db → Bytes → Bytes → Db
add_contact_link db a b = record db { links = (a, b) ∷ db.links }

-- Replies of Postgres to the lookups, and whether each write succeeds.
pub record Replies : Type 0 where
  pub device : Option (Option Device)
  pub creator : Option (Option (Option Bytes))
  pub burn_ok : Bool
  pub first_link_ok : Bool
  pub second_link_ok : Bool

pub data AppError : Type 0 where
  invite_expired invalid_invite public_key_not_found invite_invalid_signature : AppError
  address_mismatch invite_already_used internal : AppError

pub record AcceptInviteOutput : Type 0 where
  pub user_id : Bytes
  pub device_id : Bytes
  pub server : Bytes

pub data Accepted : Type 0 where
  accepted : AcceptInviteOutput → Accepted
  refused : AppError → Accepted

abbrev pub validation_error : InviteValidationError → AppError
validation_error expired = invite_expired
validation_error _ = invalid_invite

abbrev pub signature_error : InviteSignatureError → AppError
signature_error device_not_found = public_key_not_found
signature_error invalid_verifying_key = public_key_not_found
signature_error _ = invite_invalid_signature

-- The third-party operations.
pub record Crypto : Type 0 where
  pub decode : Bytes → Option Bytes
  pub is_key : Bytes → Bool
  pub verify : Bytes → Bytes → Bytes → Bool
  pub hex : Bytes → Bytes
  pub show_uuid : Bytes → Bytes
  pub contact_link_hmac : Bytes → Bytes
  pub parse_uuid : Bytes → Option Bytes

-- The decimal digits, the last one last; `n + 1` rounds are enough for `n`.
decimal_within : ℕ → ℕ → Bytes
decimal_within zero n = []
decimal_within (suc fuel) n =
    let rest = decimal_within fuel (n / 10) in
    if ltb n 10 then (48 + n) ∷ [] else rest ++ ((48 + n % 10) ∷ [])

pub decimal : ℕ → Bytes
unfolding decimal_within
decimal n = decimal_within (suc n) n

pub decimal_ℤ : ℤ → Bytes
unfolding decimal
decimal_ℤ (pos n) = decimal n
decimal_ℤ (negsuc n) = 45 ∷ decimal (suc n)

abbrev pub bar : ℕ
bar = 124

module _ (c : Crypto) where
  pub canonical_fields : InviteToken → Bytes
  unfolding decimal_ℤ
  canonical_fields inv =
      decimal inv.v
      ++ (bar
          ∷ (c.show_uuid inv.jti
              ++ (bar
                  ∷ (c.show_uuid inv.uuid
                      ++ (bar
                          ∷ (inv.device_id
                              ++ (bar
                                  ∷ (inv.server
                                      ++ (bar
                                          ∷ (decimal_ℤ inv.ts
                                              ++ (bar
                                                  ∷ (Option.get_or inv.username []
                                                      ++ (bar
                                                          ∷ (decimal inv.ttl
                                                            ++ (bar ∷ c.hex inv.addr)))))))))))))))

  pub canonical_string : InviteToken → Option Bytes
  unfolding canonical_fields
  canonical_string inv = if inv.v == invite_version then some (canonical_fields inv) else none

  pub validate : InviteToken → ℕ → Option InviteValidationError
  unfolding all_hex contains
  validate inv now =
      if not (inv.v == invite_version)
      then some (unsupported_version inv.v)
      else if not (length inv.device_id == 32) || not (all_hex inv.device_id)
      then some invalid_device_id
      else if length inv.server == 0 || not (contains 46 inv.server)
      then some invalid_server
      else if ltb inv.ttl invite_ttl_min_seconds
      then some invalid_ttl
      else if not (length inv.addr == invite_addr_len)
      then some invalid_address
      else if leb_ℤ inv.ts (pos 0) || ltb_ℤ (pos (now + 300)) inv.ts
      then some invalid_timestamp
      else if is_signature (c.decode inv.sig)
      then none
      else some invalid_signature

  pub validate_with_expiry : InviteToken → ℕ → Option InviteValidationError
  unfolding validate
  validate_with_expiry inv now = then_check (validate inv now) (
      if is_expired inv (effective_ttl inv) now
      then some expired
      else if is_future inv now
      then some future_timestamp
      else none)

  pub verify_canonical : Bytes → Bytes → Option Bytes → Option InviteSignatureError
  verify_canonical key sig none = some invalid_sig
  verify_canonical key sig (some canonical) =
      if c.verify key canonical sig then none else some verification_failed

  pub verify_decoded : InviteToken → Bytes → Option Bytes → Option InviteSignatureError
  unfolding verify_canonical canonical_string
  verify_decoded inv key none = some invalid_sig
  verify_decoded inv key (some sig) =
      if length sig == 64 then verify_canonical key sig (canonical_string inv) else some invalid_sig

  pub verify_invite_signature : Option (Option Device) → InviteToken → Option InviteSignatureError
  unfolding verify_decoded
  verify_invite_signature none inv = some database_error
  verify_invite_signature (some none) inv = some device_not_found
  verify_invite_signature (some (some d)) inv =
      if not (invite_signer_matches d.user_id d.is_active inv.uuid)
      then some device_not_found
      else if not (length d.verifying_key == 32) || not (c.is_key d.verifying_key)
      then some invalid_verifying_key
      else verify_decoded inv d.verifying_key (c.decode inv.sig)

  -- Both contact links; the burn stays when a link fails.
  pub link_contacts : Db → Replies → InviteToken → Bytes → Db × Accepted
  link_contacts db r inv accepter =
      let a = c.contact_link_hmac accepter in
      let b = c.contact_link_hmac inv.uuid in
      let one = add_contact_link db a b in
      let output : AcceptInviteOutput = record {
        user_id = inv.uuid;
        device_id = inv.device_id;
        server = inv.server;
      } in
      if not r.first_link_ok
      then (db, refused internal)
      else if not r.second_link_ok
      then (one, refused internal)
      else (add_contact_link one b a, accepted output)

  pub after_burn : Db → Replies → InviteToken → Bytes → Db × Bool → Db × Accepted
  unfolding link_contacts
  after_burn db r inv accepter burn =
      if burn.1 then link_contacts burn.0 r inv accepter else (db, refused invite_already_used)

  pub burn_and_link : Db → Replies → InviteToken → Bytes → ℕ → Db × Accepted
  unfolding after_burn
  burn_and_link db r inv accepter db_now =
      if not r.burn_ok
      then (db, refused internal)
      else after_burn db r inv accepter
          (burn_used_invite db inv.jti invite_burn_retention_seconds db_now)

  -- From the load of the account on.
  pub accept_signed :
      Db → Replies → InviteToken → Bytes → ℕ → Option (Option (Option Bytes)) → Db × Accepted
  unfolding burn_and_link
  accept_signed db r inv accepter db_now none = (db, refused internal)
  accept_signed db r inv accepter db_now (some none) = (db, refused public_key_not_found)
  accept_signed db r inv accepter db_now (some (some key)) =
      if invite_address_matches key inv.addr
      then burn_and_link db r inv accepter db_now
      else (db, refused address_mismatch)

  pub accept_valid :
      Db → Replies → InviteToken → Bytes → ℕ → Option InviteSignatureError → Db × Accepted
  unfolding accept_signed
  accept_valid db r inv accepter db_now (some e) = (db, refused (signature_error e))
  accept_valid db r inv accepter db_now none = accept_signed db r inv accepter db_now r.creator

  pub accept_checked :
      Db → Replies → InviteToken → Bytes → ℕ → Option InviteValidationError → Db × Accepted
  unfolding accept_valid verify_invite_signature
  accept_checked db r inv accepter db_now (some e) = (db, refused (validation_error e))
  accept_checked db r inv accepter db_now none =
      accept_valid db r inv accepter db_now (verify_invite_signature r.device inv)

  -- `now` is the clock of the service, `db_now` the one of Postgres.
  pub accept_invite : Db → Replies → InviteToken → Bytes → ℕ → ℕ → Db × Accepted
  unfolding accept_checked validate_with_expiry
  accept_invite db r inv accepter now db_now =
      accept_checked db r inv accepter db_now (validate_with_expiry inv now)

  pub revoke_parsed : Db → Bool → ℕ → Option Bytes → Db × Option Bool
  unfolding burn_used_invite
  revoke_parsed db burn_ok db_now none = (db, none)
  revoke_parsed db burn_ok db_now (some jti) =
      let (db', revoked) = burn_used_invite db jti invite_burn_retention_seconds db_now in
      if burn_ok then (db', some revoked) else (db, none)

  -- `success`, or `none` for an error.
  pub revoke_invite : Db → Bytes → Bool → ℕ → Db × Option Bool
  unfolding revoke_parsed
  revoke_invite db jti burn_ok db_now = revoke_parsed db burn_ok db_now (c.parse_uuid jti)
