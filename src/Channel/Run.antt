-- ===== src/Channel/Run.antt =====
-- group-service/src/handlers: runs of the handlers on a channel.
use construct_server.Base.{ℕ, List, Bool, Option, [], ◌∷◌}
use construct_server.Group.{Bytes, DeviceId, Uuid}
use construct_server.Channel.{ChannelDb, Visibility}
use construct_server.Channel.Subscriptions.{subscribe_channel, unsubscribe_channel}
use construct_server.Channel.Management.{
  add_admin, delete_channel, remove_admin, set_channel_visibility, update_channel,
}
use construct_server.Channel.Links.{CreateInviteLinkRequest, create_invite_link, revoke_invite_link}
use construct_server.Channel.Posts.{publish_post, delete_post}

-- A request of a device, with what the limiter and Postgres answer.
pub data Request : Type 0 where
  subscribe : (belongs allowed : Bool) (token : Bytes) (db_now : ℕ) (stored : Bool) → Request
  unsubscribe : (belongs stored : Bool) → Request
  update : (metadata : Bytes) (stored : Bool) → Request
  set_visibility : (visibility : Option Visibility) (stored : Bool) → Request
  delete : (stored : Bool) → Request
  add : (target : DeviceId) (stored : Bool) → Request
  remove : (target : DeviceId) (stored : Bool) → Request
  create_link :
      (id : Uuid) (allowed : Bool) (req : CreateInviteLinkRequest) (token : Bytes) (stored : Bool)
      → Request
  revoke_link : (id : Uuid) (token : Bytes) (stored : Bool) → Request
  publish :
      (allowed : Bool) (ciphertext : Bytes) (thread : Option Uuid) (id : Uuid) (stored : Bool)
      → Request
  delete_post_of : (id : Uuid) (stored : Bool) → Request

abbrev pub serve : ChannelDb → DeviceId → ℕ → Request → ChannelDb
serve db device now (subscribe belongs allowed token db_now stored) =
    (subscribe_channel db device belongs allowed token now db_now stored).0
serve db device now (unsubscribe belongs stored) = (unsubscribe_channel db device belongs stored).0
serve db device now (update metadata stored) = (update_channel db device metadata stored).0
serve db device now (set_visibility visibility stored) =
    (set_channel_visibility db device visibility stored).0
serve db device now (delete stored) = (delete_channel db device now stored).0
serve db device now (add target stored) = (add_admin db device target stored).0
serve db device now (remove target stored) = (remove_admin db device target stored).0
serve db device now (create_link id allowed req token stored) =
    (create_invite_link db device id allowed req token now stored).0
serve db device now (revoke_link id token stored) =
    (revoke_invite_link db device id token now stored).0
serve db device now (publish allowed ciphertext thread id stored) =
    (publish_post db device allowed ciphertext thread id now stored).0
serve db device now (delete_post_of id stored) = (delete_post db device id now stored).0

pub record Event : Type 0 where
  pub device : DeviceId
  pub now : ℕ
  pub request : Request

unfoldable pub run : List Event → ChannelDb → ChannelDb
run [] db = db
run (e ∷ es) db = run es (serve db e.device e.now e.request)
