-- ===== src/Channel/Links.antt =====
-- group-service/src/handlers/channel_invite_links.rs and its statements: the invite links of a
-- channel.
use construct_server.Base.{
  ℕ, Bool, List, Option, ◌+◌, if◌then◌else◌, none, some, not, ◌==◌, ◌∷◌, bytes_eq, ◌||◌, leb, ◌&&◌,
  ◌>>=◌, ◌^◌, [],
}
use construct_server.Group.{Bytes, DeviceId, Uuid, Reply, ok, err}
use construct_server.Group.Status.{permission_denied, not_found, resource_exhausted, internal}
use construct_server.Group.Tables.{is_some}
use construct_server.Channel.{ChannelInviteLink, ChannelDb}
use construct_server.Channel.Subscriptions.{is_channel_owner}
use construct_server.Channel.Management.{is_channel_admin}

pub record CreateInviteLinkRequest : Type 0 where
  pub max_uses : ℕ
  pub expires_in_seconds : ℕ

abbrev pub unless_zero : ℕ → ℕ → Option ℕ
unless_zero n value = if n == 0 then none else some value

-- `token` is the fresh token.
abbrev pub new_link : Uuid → CreateInviteLinkRequest → Bytes → ℕ → ChannelInviteLink
new_link id req token now = record {
  token = token;
  channel_id = id;
  max_uses = unless_zero req.max_uses req.max_uses;
  use_count = 0;
  expires_at = unless_zero req.expires_in_seconds (now + req.expires_in_seconds);
  revoked_at = none;
}

-- A count of uses that is negative as an i32 violates a constraint.
unfoldable pub create_invite_link :
    ChannelDb
    → DeviceId
    → Uuid
    → Bool
    → CreateInviteLinkRequest
    → Bytes
    → ℕ
    → Bool
    → ChannelDb × Reply Bytes
create_invite_link db device id allowed req token now stored =
    if not allowed
    then (db, err resource_exhausted)
    else if not (is_channel_owner device db.subscribers)
    then (db, err permission_denied)
    else if not stored || leb (2 ^ 31) req.max_uses
    then (db, err internal)
    else (record db { links = new_link id req token now ∷ db.links }, ok token)

-- `none` if the statement changes no row.
unfoldable pub revoke_channel_invite_link :
    Uuid → Bytes → ℕ → List ChannelInviteLink → Option (List ChannelInviteLink)
revoke_channel_invite_link id token now [] = none
revoke_channel_invite_link id token now (l ∷ ls) =
    if bytes_eq l.token token
    then if l.channel_id == id && not (is_some l.revoked_at)
      then some (record l { revoked_at = some now } ∷ ls)
      else none
    else (revoke_channel_invite_link id token now ls >>= λ rest. some (l ∷ rest))

abbrev pub revoked_links : Option (List ChannelInviteLink) → ChannelDb → ChannelDb × Reply {0} Unit
revoked_links none db = (db, err not_found)
revoked_links (some links) db = (record db { links = links }, ok tt)

unfoldable pub revoke_invite_link :
    ChannelDb → DeviceId → Uuid → Bytes → ℕ → Bool → ChannelDb × Reply {0} Unit
revoke_invite_link db device id token now stored =
    if not (is_channel_admin device db)
    then (db, err permission_denied)
    else if not stored
    then (db, err not_found)
    else revoked_links (revoke_channel_invite_link id token now db.links) db
