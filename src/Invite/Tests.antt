-- ===== src/Invite/Tests.antt =====
-- Invites at concrete inputs, with toy operations: base64 is the identity, and a signature is 64
-- times the first byte of the key.
use construct_server.Base.{
  List, ◌≡◌, ◌≢◌, some, true, refl, ◌∷◌, [], none, pos, replicate, Bool, arith, false, bytes_eq,
}
use construct_server.Invite.{
  InviteToken, Crypto, Device, Replies, Db, Bytes, AcceptInviteOutput, accepted, accept_invite,
  validate_with_expiry, burn_used_invite,
}
use construct_server.Invite.OneTime.{Timed, revoke, purge, run, accept_invite-once}
use construct_server.Invite.Authentic.{Signed, accept_invite-Signed}

abbrev toy_verify : Bytes → Bytes → Bytes → Bool
toy_verify [] message signature = false
toy_verify (k ∷ ks) message signature = bytes_eq signature (replicate 64 k)

abbrev toy : Crypto
toy = record {
  decode = λ b. some b;
  is_key = λ b. true;
  verify = toy_verify;
  hex = λ b. b;
  show_uuid = λ b. b;
  contact_link_hmac = λ b. b;
  parse_uuid = λ b. some b;
}

abbrev invite : InviteToken
invite = record {
  v = 5;
  jti = 1 ∷ [];
  uuid = 2 ∷ [];
  device_id = replicate 32 97;
  server = 97 ∷ 46 ∷ 98 ∷ [];
  ts = pos 1_000;
  sig = replicate 64 7;
  username = none;
  ttl = 300;
  addr = replicate 32 9;
}

abbrev phone : Device
phone = record { user_id = some (2 ∷ []); is_active = true; verifying_key = replicate 32 7 }

abbrev replies : Replies
replies = record {
  device = some (some phone);
  creator = some (some (some (replicate 32 9)));
  burn_ok = true;
  first_link_ok = true;
  second_link_ok = true;
}

abbrev empty : Db
empty = record { used_invites = []; links = [] }

abbrev output : AcceptInviteOutput
output = record { user_id = 2 ∷ []; device_id = replicate 32 97; server = 97 ∷ 46 ∷ 98 ∷ [] }

first_accept : (accept_invite toy empty replies invite (3 ∷ []) 1_100 1_100).1 ≡ accepted output
unfolding accept_invite burn_used_invite
first_accept = refl

abbrev later_events : List Timed
later_events =
    record { event = purge (λ jti. true); at = 1_150 }
    ∷ record { event = revoke (1 ∷ []) true; at = 1_160 }
    ∷ []

accept_invite-once_example :
    (accept_invite toy
      (run toy (accept_invite toy empty replies invite (3 ∷ []) 1_100 1_100).0 later_events)
      replies
      invite
      (4 ∷ [])
      1_200
      1_200).1
    ≢ accepted output
accept_invite-once_example =
    accept_invite-once toy empty replies replies invite (3 ∷ []) (4 ∷ []) 1_100 1_100 1_200 1_200
      later_events output output first_accept (omega arith, (omega arith, tt)) (omega arith)
      (omega arith)

accept_invite-Signed_example :
    (validate_with_expiry toy invite 1_100 ≡ none)
    × ((d : Device) × (replies.device ≡ some (some d)) × Signed toy invite d)
    × (replies.creator ≡ some (some (some (replicate 32 9))))
accept_invite-Signed_example =
    accept_invite-Signed toy invite empty replies (3 ∷ []) 1_100 1_100 output first_accept
