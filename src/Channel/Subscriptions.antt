-- ===== src/Channel/Subscriptions.antt =====
-- group-service/src/handlers/subscriptions.rs and its statements: subscribing and unsubscribing.
use construct_server.Base.{
  ℕ, List, Bool, Option, [], none, false, if◌then◌else◌, not, some, ◌∷◌, bytes_eq, leb, length, suc,
  true, ◌&&◌, ◌-◌, ◌==◌, ◌>>=◌,
}
use construct_server.Group.{Bytes, DeviceId, Uuid, Reply, ok, err}
use construct_server.Group.Status.{
  permission_denied, not_found, failed_precondition, resource_exhausted, internal,
}
use construct_server.Group.Tables.{is_empty, is_some}
use construct_server.Channel.{
  Visibility, public, private, subscriber, ChannelRecord, Subscriber, ChannelInviteLink, ChannelDb,
  live,
}

pub data ChannelSubscription : Type 0 where
  subscribed : ℕ → ChannelSubscription
  channel_not_found full invite_required invite_not_found : ChannelSubscription
  wrong_channel invite_revoked invite_expired invite_exhausted : ChannelSubscription

unfoldable pub find_subscriber : DeviceId → List Subscriber → Option Subscriber
find_subscriber device [] = none
find_subscriber device (s ∷ ss) =
    if s.device_id == device then some s else find_subscriber device ss

abbrev pub is_channel_subscriber : DeviceId → List Subscriber → Bool
is_channel_subscriber device ss = is_some (find_subscriber device ss)

abbrev pub owner_flag : Option Subscriber → Bool
owner_flag none = false
owner_flag (some s) = s.is_owner

abbrev pub is_channel_owner : DeviceId → List Subscriber → Bool
is_channel_owner device ss = owner_flag (find_subscriber device ss)

unfoldable pub resolve_channel_invite_link :
    Bytes → List ChannelInviteLink → Option ChannelInviteLink
resolve_channel_invite_link token [] = none
resolve_channel_invite_link token (l ∷ ls) =
    if bytes_eq l.token token then some l else resolve_channel_invite_link token ls

abbrev pub is_past : ℕ → Option ℕ → Bool
is_past now none = false
is_past now (some at) = leb at now

abbrev pub is_used_up : Option ℕ → ℕ → Bool
is_used_up none uses = false
is_used_up (some max) uses = leb max uses

-- What the admission finds wrong with the link of a private channel.
abbrev pub check_link : Option ChannelInviteLink → Uuid → ℕ → Option ChannelSubscription
check_link none id now = some invite_not_found
check_link (some l) id now =
    if not (l.channel_id == id)
    then some wrong_channel
    else if is_some l.revoked_at
    then some invite_revoked
    else if is_past now l.expires_at
    then some invite_expired
    else if is_used_up l.max_uses l.use_count
    then some invite_exhausted
    else none

abbrev pub may_count : ChannelInviteLink → ℕ → Bool
may_count l now =
    not (is_some l.revoked_at)
    && not (is_past now l.expires_at)
    && not (is_used_up l.max_uses l.use_count)

-- `none` if the statement changes no row; the token is a key.
unfoldable pub increment_channel_invite_link_usage :
    Bytes → ℕ → List ChannelInviteLink → Option (List ChannelInviteLink)
increment_channel_invite_link_usage token now [] = none
increment_channel_invite_link_usage token now (l ∷ ls) =
    if bytes_eq l.token token
    then if may_count l now then some (record l { use_count = suc l.use_count } ∷ ls) else none
    else (increment_channel_invite_link_usage token now ls >>= λ rest. some (l ∷ rest))

abbrev pub check_private :
    Visibility → Bytes → List ChannelInviteLink → Uuid → ℕ → Option ChannelSubscription
check_private public token links id now = none
check_private private token links id now =
    if is_empty token
    then some invite_required
    else check_link (resolve_channel_invite_link token links) id now

-- The links after the use of the token.
abbrev pub use_link :
    Visibility → Bytes → ℕ → List ChannelInviteLink → Option (List ChannelInviteLink)
use_link public token now links = some links
use_link private token now links = increment_channel_invite_link_usage token now links

abbrev pub new_subscriber : DeviceId → ℕ → Subscriber
new_subscriber device now = record {
  device_id = device;
  subscribed_at = now;
  role = subscriber;
  is_owner = false;
}

abbrev pub admitted :
    Option (List ChannelInviteLink)
    → ChannelRecord
    → ChannelDb
    → DeviceId
    → ℕ
    → ChannelDb × ChannelSubscription
admitted none c db device now = (db, invite_exhausted)
admitted (some links) c db device now = (
  record db {
    channel = some (record c { subscriber_count = suc (length db.subscribers) });
    subscribers = new_subscriber device now ∷ db.subscribers;
    links = links;
  },
  subscribed now,
)

abbrev pub admit_new :
    Option ChannelSubscription
    → ChannelRecord
    → ChannelDb
    → DeviceId
    → Bytes
    → ℕ
    → ChannelDb × ChannelSubscription
admit_new (some refusal) c db device token now = (db, refusal)
admit_new none c db device token now =
    if not (c.max_subscribers == 0) && leb c.max_subscribers (length db.subscribers)
    then (db, full)
    else admitted (use_link c.visibility token now db.links) c db device now

abbrev pub admit_to :
    Option Subscriber
    → ChannelRecord
    → ChannelDb
    → DeviceId
    → Bytes
    → ℕ
    → ℕ
    → ChannelDb × ChannelSubscription
admit_to (some s) c db device token now db_now = (db, subscribed s.subscribed_at)
admit_to none c db device token now db_now =
    admit_new (check_private c.visibility token db.links c.channel_id now) c db device token db_now

-- `now` is the service's clock and `db_now` that of Postgres.
unfoldable pub admit_channel_subscription :
    Option ChannelRecord → ChannelDb → DeviceId → Bytes → ℕ → ℕ → ChannelDb × ChannelSubscription
admit_channel_subscription none db device token now db_now = (db, channel_not_found)
admit_channel_subscription (some c) db device token now db_now =
    admit_to (find_subscriber device db.subscribers) c db device token now db_now

-- A transaction that fails leaves the rows as they are.
unfoldable pub subscribe_channel_atomic :
    ChannelDb → DeviceId → Bytes → ℕ → ℕ → Bool → ChannelDb × Option ChannelSubscription
subscribe_channel_atomic db device token now db_now false = (db, none)
subscribe_channel_atomic db device token now db_now true =
    let (db', outcome) = admit_channel_subscription (live db.channel) db device token now db_now in
    (db', some outcome)

abbrev pub subscription_reply : Option ChannelSubscription → Reply ℕ
subscription_reply none = err internal
subscription_reply (some (subscribed at)) = ok at
subscription_reply (some channel_not_found) = err not_found
subscription_reply (some full) = err resource_exhausted
subscription_reply (some invite_required) = err permission_denied
subscription_reply (some invite_not_found) = err not_found
subscription_reply (some wrong_channel) = err permission_denied
subscription_reply (some invite_revoked) = err permission_denied
subscription_reply (some invite_expired) = err permission_denied
subscription_reply (some invite_exhausted) = err resource_exhausted

-- `belongs` is whether the device is the user's. The sender key in the response is left out.
unfoldable pub subscribe_channel :
    ChannelDb → DeviceId → Bool → Bool → Bytes → ℕ → ℕ → Bool → ChannelDb × Reply ℕ
subscribe_channel db device belongs allowed token now db_now stored =
    let (db', outcome) = subscribe_channel_atomic db device token now db_now stored in
    if not belongs
    then (db, err permission_denied)
    else if not allowed
    then (db, err resource_exhausted)
    else (db', subscription_reply outcome)

unfoldable pub delete_subscriber : DeviceId → List Subscriber → List Subscriber
delete_subscriber device [] = []
delete_subscriber device (s ∷ ss) =
    if s.device_id == device && not s.is_owner
    then delete_subscriber device ss
    else s ∷ delete_subscriber device ss

abbrev pub count_down : Option ChannelRecord → Option ChannelRecord
count_down none = none
count_down (some c) = some (record c { subscriber_count = c.subscriber_count - 1 })

-- GREATEST(0, n - 1) is the subtraction that stops at 0. The device is a key, so at most one row goes.
unfoldable pub unsubscribe_from_channel : ChannelDb → DeviceId → ChannelDb × Bool
unsubscribe_from_channel db device =
    let ss = delete_subscriber device db.subscribers in
    if length ss == length db.subscribers
    then (db, false)
    else (record db { channel = count_down db.channel; subscribers = ss }, true)

abbrev pub unsubscribe_reply : Bool → Bool → Reply {0} Unit
unsubscribe_reply true is_owner = ok tt
unsubscribe_reply false true = err failed_precondition
unsubscribe_reply false false = err not_found

-- The rotation of the sender key is left out.
unfoldable pub unsubscribe_channel : ChannelDb → DeviceId → Bool → Bool → ChannelDb × Reply {0} Unit
unsubscribe_channel db device belongs stored =
    let (db', gone) = unsubscribe_from_channel db device in
    if not belongs
    then (db, err permission_denied)
    else if not stored
    then (db, err internal)
    else (db', unsubscribe_reply gone (is_channel_owner device db'.subscribers))
