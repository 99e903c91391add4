-- ===== src/Channel/Management.antt =====
-- group-service/src/handlers/channel_lifecycle.rs and channel_admin.rs with their statements:
-- channels and their admins.
use construct_server.Base.{
  ℕ, List, Bool, Option, [], none, false, if◌then◌else◌, not, some, ◌||◌, ◌∷◌, ltb, true, ◌&&◌,
  ◌==◌,
}
use construct_server.Group.{Bytes, DeviceId, Uuid, Reply, ok, err}
use construct_server.Group.Status.{
  invalid_argument, permission_denied, not_found, resource_exhausted, internal,
}
use construct_server.Group.Tables.{is_empty, is_some}
use construct_server.Channel.{
  Visibility, Role, subscriber, admin, ChannelRecord, Subscriber, ChannelDb,
}
use construct_server.Channel.Subscriptions.{
  find_subscriber, is_channel_subscriber, is_channel_owner,
}

-- A visibility that the enum of the request does not name is `none`.
pub record CreateChannelRequest : Type 0 where
  pub visibility : Option Visibility
  pub max_subscribers : ℕ
  pub retention_days : ℕ
  pub encrypted_metadata : Bytes

-- Whether the four writes of create_channel succeed.
pub record CreateAnswers : Type 0 where
  pub created : Bool
  pub subscribed : Bool
  pub counted : Bool
  pub admin : Bool

-- The channel and its owner's subscription, which are no transaction.
abbrev pub created_as :
    Visibility
    → ChannelDb
    → DeviceId
    → CreateChannelRequest
    → Uuid
    → ℕ
    → CreateAnswers
    → ChannelDb × Reply Uuid
created_as visibility db device req id now answers =
    let c : ChannelRecord = record {
      channel_id = id;
      owner_device_id = device;
      visibility = visibility;
      encrypted_metadata = req.encrypted_metadata;
      max_subscribers = req.max_subscribers;
      retention_days = (if req.retention_days == 0 then 30 else req.retention_days);
      subscriber_count = 0;
      deleted_at = none;
      last_post_sequence = 0;
    } in
    let owner : Subscriber = record {
      device_id = device;
      subscribed_at = now;
      role = admin;
      is_owner = true;
    } in
    let alone = record db { channel = some c } in
    let owned = record alone { subscribers = owner ∷ db.subscribers } in
    let counted = record owned { channel = some (record c { subscriber_count = 1 }) } in
    if not answers.created
    then (db, err internal)
    else if not answers.subscribed
    then (alone, err internal)
    else if not answers.counted
    then (owned, err internal)
    else if not answers.admin
    then (counted, ok id)
    else (record counted { admins = device ∷ db.admins }, ok id)

abbrev pub create_visible :
    Option Visibility
    → ChannelDb
    → DeviceId
    → CreateChannelRequest
    → Uuid
    → ℕ
    → CreateAnswers
    → ChannelDb × Reply Uuid
create_visible none db device req id now answers = (db, err invalid_argument)
create_visible (some visibility) db device req id now answers =
    if ltb 100_000 req.max_subscribers
    then (db, err invalid_argument)
    else if ltb 90 req.retention_days
    then (db, err invalid_argument)
    else if is_empty req.encrypted_metadata
    then (db, err invalid_argument)
    else created_as visibility db device req id now answers

-- `id` is the fresh id of the channel.
unfoldable pub create_channel :
    ChannelDb
    → DeviceId
    → Bool
    → CreateChannelRequest
    → Uuid
    → ℕ
    → CreateAnswers
    → ChannelDb × Reply Uuid
create_channel db device allowed req id now answers =
    if not allowed
    then (db, err resource_exhausted)
    else create_visible req.visibility db device req id now answers

-- The row that an UPDATE of the owner changes.
abbrev pub owned_by : DeviceId → Option ChannelRecord → Option ChannelRecord
owned_by device none = none
owned_by device (some c) =
    if c.owner_device_id == device && not (is_some c.deleted_at) then some c else none

abbrev pub metadata_updated : Option ChannelRecord → ChannelDb → Bytes → ChannelDb × Reply {0} Unit
metadata_updated none db metadata = (db, err permission_denied)
metadata_updated (some c) db metadata =
    (record db { channel = some (record c { encrypted_metadata = metadata }) }, ok tt)

unfoldable pub update_channel : ChannelDb → DeviceId → Bytes → Bool → ChannelDb × Reply {0} Unit
update_channel db device metadata stored =
    if is_empty metadata
    then (db, err invalid_argument)
    else if not stored
    then (db, err permission_denied)
    else metadata_updated (owned_by device db.channel) db metadata

abbrev pub visibility_updated : Option ChannelRecord → ChannelDb → Visibility → ChannelDb
visibility_updated none db visibility = db
visibility_updated (some c) db visibility = record db {
  channel = some (record c { visibility = visibility });
}

abbrev pub set_visible :
    Option Visibility → ChannelDb → DeviceId → Bool → ChannelDb × Reply {0} Unit
set_visible none db device stored = (db, err invalid_argument)
set_visible (some visibility) db device stored =
    if not stored
    then (db, err permission_denied)
    else (visibility_updated (owned_by device db.channel) db visibility, ok tt)

-- The UPDATE succeeds whether or not it changes a row.
unfoldable pub set_channel_visibility :
    ChannelDb → DeviceId → Option Visibility → Bool → ChannelDb × Reply {0} Unit
set_channel_visibility db device visibility stored = set_visible visibility db device stored

abbrev pub soft_deleted : Option ChannelRecord → ChannelDb → ℕ → ChannelDb
soft_deleted none db now = db
soft_deleted (some c) db now = record db { channel = some (record c { deleted_at = some now }) }

unfoldable pub delete_channel : ChannelDb → DeviceId → ℕ → Bool → ChannelDb × Reply {0} Unit
delete_channel db device now stored =
    if not (is_channel_owner device db.subscribers)
    then (db, err permission_denied)
    else if not stored
    then (db, err internal)
    else (soft_deleted (owned_by device db.channel) db now, ok tt)

unfoldable pub is_in : DeviceId → List DeviceId → Bool
is_in device [] = false
is_in device (a ∷ rest) = a == device || is_in device rest

abbrev is_admin_role : Role → Bool
is_admin_role subscriber = false
is_admin_role admin = true

abbrev pub manages : Option Subscriber → Bool
manages none = false
manages (some s) = s.is_owner || is_admin_role s.role

unfoldable pub is_channel_admin : DeviceId → ChannelDb → Bool
is_channel_admin device db =
    is_in device db.admins || manages (find_subscriber device db.subscribers)

abbrev pub add_channel_admin : DeviceId → List DeviceId → List DeviceId
add_channel_admin device admins = if is_in device admins then admins else device ∷ admins

unfoldable pub add_admin : ChannelDb → DeviceId → DeviceId → Bool → ChannelDb × Reply {0} Unit
add_admin db device target stored =
    if not (is_channel_owner device db.subscribers)
    then (db, err permission_denied)
    else if not (is_channel_subscriber target db.subscribers)
    then (db, err permission_denied)
    else if not stored
    then (db, err internal)
    else (record db { admins = add_channel_admin target db.admins }, ok tt)

unfoldable pub remove_channel_admin : DeviceId → List DeviceId → List DeviceId
remove_channel_admin device [] = []
remove_channel_admin device (a ∷ rest) =
    if a == device then remove_channel_admin device rest else a ∷ remove_channel_admin device rest

-- The owner's row of admins is not deleted.
unfoldable pub remove_admin : ChannelDb → DeviceId → DeviceId → Bool → ChannelDb × Reply {0} Unit
remove_admin db device target stored =
    if not (is_channel_owner device db.subscribers)
    then (db, err permission_denied)
    else if not stored
    then (db, err internal)
    else if is_channel_owner target db.subscribers
    then (db, err not_found)
    else if not (is_in target db.admins)
    then (db, err not_found)
    else (record db { admins = remove_channel_admin target db.admins }, ok tt)
