-- ===== src/Group.antt =====
-- group-service/src/handlers and crates/construct-db/src/mls.rs: MLS groups.
--
-- Every statement on a group selects by its id, so a `Group` is the rows of one group in Postgres,
-- newest first, with the events its hub was handed. A key package belongs to no group and has a
-- table of its own. A request is modelled once its caller is authenticated and its ids are parsed:
-- what fails there fails before any other effect. A read that fails ends a handler with `internal`
-- and is left out; whether a write succeeds is an argument of the handlers.
--
-- Ids are only compared, so a number stands for each; times are seconds. The epoch and the sequence
-- number are i64 columns that grow by one at a time from 0 and are numbers without a bound here.
pub mod Tables
pub mod Packages
pub mod Signed
pub mod Lifecycle
pub mod Admins
pub mod Membership
pub mod Commits
pub mod Messages
pub mod Cleanup
pub mod Outcomes
pub mod Run
pub mod Ownership
pub mod Standing
pub mod History
pub mod Sequence
pub mod Paging
pub mod Authority
mod Tests
use construct_server.Base.{ℕ, List, Bool, Option, ℤ, [], none, some}

abbrev pub Bytes : Type 0
Bytes = List ℕ

abbrev pub DeviceId : Type 0
DeviceId = ℕ

abbrev pub Uuid : Type 0
Uuid = ℕ

-- The gRPC status codes that the handlers answer with.
pub data Status : Type 0 where
  invalid_argument permission_denied not_found already_exists : Status
  failed_precondition resource_exhausted aborted internal : Status

pub data Reply {ℓ} (A : Type ℓ) : Type ℓ where
  ok : A → Reply A
  err : Status → Reply A

pub record GroupRow : Type 0 where
  pub epoch : ℕ
  pub ratchet_tree : Bytes
  pub encrypted_group_context : Bytes
  pub max_members : ℕ
  pub message_retention_days : ℕ
  pub threads_enabled : Bool
  pub created_at : ℕ
  pub dissolved_at : Option ℕ
  -- `last_sequence + 1`: the column starts at -1.
  pub next_sequence : ℕ

pub record Member : Type 0 where
  pub device_id : DeviceId
  pub leaf_index : ℕ

-- `role` is 1 for a full admin and 2 for a moderator.
pub record Admin : Type 0 where
  pub device_id : DeviceId
  pub role : ℕ
  pub is_creator : Bool

pub record Commit : Type 0 where
  pub epoch_from : ℕ
  pub epoch_to : ℕ
  pub mls_commit : Bytes
  pub ratchet_tree_snapshot : Bytes
  pub committed_at : ℕ
  pub expires_at : ℕ

pub record GroupInvite : Type 0 where
  pub invite_id : Uuid
  pub target_device_id : DeviceId
  pub mls_welcome : Bytes
  pub key_package_ref : Bytes
  pub epoch : ℤ
  pub invited_at : ℕ
  pub expires_at : ℕ

pub record Message : Type 0 where
  pub message_id : Uuid
  pub epoch : ℕ
  pub mls_ciphertext : Bytes
  pub sequence_number : ℕ
  pub client_message_id : Option Bytes
  pub thread_id : Option Uuid
  pub topic_id : Option Uuid
  pub sent_at : ℕ
  pub expires_at : ℕ

-- What the streams of a group are told; `closed` is the end of the hub's sender.
pub data HubEvent : Type 0 where
  frame : Message → HubEvent
  removed : DeviceId → HubEvent
  closed : HubEvent

pub record Group : Type 0 where
  pub row : Option GroupRow
  pub members : List Member
  pub admins : List Admin
  pub commits : List Commit
  pub invites : List GroupInvite
  pub messages : List Message
  pub hub : List HubEvent

abbrev pub no_group : Group
no_group = record {
  row = none;
  members = [];
  admins = [];
  commits = [];
  invites = [];
  messages = [];
  hub = [];
}

-- What follows a check: `none` lets the handler go on.
abbrev pub after_check {ℓ} :
    {A : Type ℓ} → Option Status → Group → Group × Reply A → Group × Reply A
after_check none g next = next
after_check (some e) g next = (g, err e)
