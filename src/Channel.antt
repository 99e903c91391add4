-- ===== src/Channel.antt =====
-- group-service/src/handlers and crates/construct-db/src/channel.rs: broadcast channels.
--
-- A `ChannelDb` is the rows of one channel in Postgres and the invite links of all channels, which
-- are found by their token alone. Each statement or transaction is one step, and whether a write
-- succeeds is an argument; a read that fails is left out. The service and Postgres have a clock
-- each. The caller is authenticated and the ids are parsed; `allowed` is the verdict of the limiter.
pub mod Subscriptions
pub mod Management
pub mod Links
pub mod Posts
pub mod Run
pub mod Limits
pub mod Admission
pub mod Filters
mod Tests
use construct_server.Base.{ℕ, List, Bool, Option, [], none, some, if◌then◌else◌}
use construct_server.Group.{Bytes, DeviceId, Uuid}
use construct_server.Group.Tables.{is_some}

pub data Visibility : Type 0 where
  public private : Visibility

pub data Role : Type 0 where
  subscriber admin : Role

pub record ChannelRecord : Type 0 where
  pub channel_id : Uuid
  pub owner_device_id : DeviceId
  pub visibility : Visibility
  pub encrypted_metadata : Bytes
  pub max_subscribers : ℕ
  pub retention_days : ℕ
  pub subscriber_count : ℕ
  pub deleted_at : Option ℕ
  -- `last_post_sequence`.
  pub last_post_sequence : ℕ

pub record Subscriber : Type 0 where
  pub device_id : DeviceId
  pub subscribed_at : ℕ
  pub role : Role
  pub is_owner : Bool

pub record ChannelInviteLink : Type 0 where
  pub token : Bytes
  pub channel_id : Uuid
  pub max_uses : Option ℕ
  pub use_count : ℕ
  pub expires_at : Option ℕ
  pub revoked_at : Option ℕ

pub record ChannelPost : Type 0 where
  pub post_id : Uuid
  pub sender_device_id : DeviceId
  pub sequence_number : ℕ
  pub ciphertext : Bytes
  pub thread_id : Option Uuid
  pub sent_at : ℕ
  pub expires_at : ℕ
  pub deleted_at : Option ℕ

pub record ChannelDb : Type 0 where
  pub channel : Option ChannelRecord
  pub subscribers : List Subscriber
  pub admins : List DeviceId
  pub links : List ChannelInviteLink
  pub posts : List ChannelPost

abbrev pub live : Option ChannelRecord → Option ChannelRecord
live none = none
live (some c) = if is_some c.deleted_at then none else some c
