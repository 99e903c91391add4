-- ===== src/Group/Messages.antt =====
-- group-service/src/handlers/messaging.rs and its statements in crates/construct-db/src/mls.rs:
-- the messages of a group and their sequence numbers.
use construct_server.Base.{
  ℕ, List, Bool, Option, ℤ, [], none, false, if◌then◌else◌, ltb_ℤ, negsuc, some, take, true, ◌∷◌,
  bytes_eq, ltb, not, pos, suc, ◌==◌, length, ◌&&◌, ◌+◌, ◌*◌,
}
use construct_server.Group.{Bytes, DeviceId, Uuid, GroupRow, Message, Group, Reply, ok, err, frame}
use construct_server.Group.Status.{
  invalid_argument, permission_denied, failed_precondition, resource_exhausted, internal,
}
use construct_server.Group.Tables.{
  is_empty, is_some, is_group_member, get_group_dissolved_at, as_i64,
}

-- The ids of the thread and of the topic are parsed by the caller.
pub record SendGroupMessageRequest : Type 0 where
  pub epoch : ℕ
  pub mls_ciphertext : Bytes
  pub client_message_id : Bytes
  pub thread_id : Option Uuid
  pub topic_id : Option Uuid

abbrev pub client_id : Bytes → Option Bytes
client_id [] = none
client_id (x ∷ xs) = some (x ∷ xs)

-- The conflict target: messages without a client's id conflict with none.
abbrev pub same_client_id : Option Bytes → Option Bytes → Bool
same_client_id none other = false
same_client_id (some id) none = false
same_client_id (some id) (some other) = bytes_eq id other

unfoldable pub find_conflict : Option Bytes → List Message → Option Message
find_conflict id [] = none
find_conflict id (m ∷ ms) =
    if same_client_id id m.client_message_id then some m else find_conflict id ms

-- The statement takes the next sequence number in either case.
abbrev pub insert_or_keep : Option Message → Message → List Message → List Message × Message
insert_or_keep none m messages = (m ∷ messages, m)
insert_or_keep (some old) m messages = (messages, old)

unfoldable pub insert_group_message : Message → List Message → List Message × Message
insert_group_message m messages =
    insert_or_keep (find_conflict m.client_message_id messages) m messages

abbrev pub sent : Group → GroupRow → List Message × Message → Group × Reply Message
sent g r p = (
  record g {
    row = some (record r { next_sequence = suc r.next_sequence });
    messages = p.0;
    hub = frame p.1 ∷ g.hub;
  },
  ok p.1,
)

-- The message that a request becomes; `id` is fresh.
abbrev pub new_message : GroupRow → SendGroupMessageRequest → Uuid → ℕ → Message
new_message r req id now = record {
  message_id = id;
  epoch = r.epoch;
  mls_ciphertext = req.mls_ciphertext;
  sequence_number = r.next_sequence;
  client_message_id = client_id req.client_message_id;
  thread_id = req.thread_id;
  topic_id = req.topic_id;
  sent_at = now;
  expires_at = now + r.message_retention_days * 86_400;
}

unfoldable pub send_to :
    Option GroupRow → Group → SendGroupMessageRequest → Uuid → ℕ → Bool → Group × Reply Message
send_to none g req id now stored = (g, err internal)
send_to (some r) g req id now stored =
    if not (req.epoch == r.epoch)
    then (g, err failed_precondition)
    else if ltb 64 (length req.client_message_id)
    then (g, err invalid_argument)
    else if not stored
    then (g, err internal)
    else sent g r (insert_group_message (new_message r req id now) g.messages)

unfoldable pub send_group_message :
    Group → DeviceId → Bool → SendGroupMessageRequest → Uuid → ℕ → Bool → Group × Reply Message
send_group_message g device allowed req id now stored =
    if not allowed
    then (g, err resource_exhausted)
    else if is_empty req.mls_ciphertext
    then (g, err invalid_argument)
    else if is_some (get_group_dissolved_at g.row)
    then (g, err failed_precondition)
    else if not (is_group_member device g.members)
    then (g, err permission_denied)
    else send_to g.row g req id now stored

-- ORDER BY sequence_number ASC.
unfoldable pub insert_by_sequence : Message → List Message → List Message
insert_by_sequence m [] = m ∷ []
insert_by_sequence m (x ∷ xs) =
    if ltb x.sequence_number m.sequence_number then x ∷ insert_by_sequence m xs else m ∷ x ∷ xs

-- The cursor, -1 without one; a cursor of 2 ^ 63 or more is read as a negative number.
abbrev pub cursor : Option ℕ → ℤ
cursor none = negsuc 0
cursor (some after) = as_i64 after

abbrev pub in_topic : Option Uuid → Option Uuid → Bool
in_topic none topic = true
in_topic (some t) none = false
in_topic (some t) (some topic) = topic == t

abbrev pub is_listed : ℤ → Option Uuid → ℕ → Message → Bool
is_listed after topic now m =
    ltb_ℤ after (pos m.sequence_number) && in_topic topic m.topic_id && ltb now m.expires_at

unfoldable pub listed : ℤ → Option Uuid → ℕ → List Message → List Message
listed after topic now [] = []
listed after topic now (m ∷ ms) =
    if is_listed after topic now m
    then insert_by_sequence m (listed after topic now ms)
    else listed after topic now ms

abbrev pub list_group_messages : Option ℕ → ℕ → Option Uuid → ℕ → List Message → List Message
list_group_messages after limit topic now messages =
    take limit (listed (cursor after) topic now messages)

-- `limit.clamp(1, 200)`.
abbrev pub clamp_limit : ℕ → ℕ
clamp_limit limit = if limit == 0 then 1 else if ltb 200 limit then 200 else limit

unfoldable pub fetch_group_messages :
    Group → DeviceId → Option ℕ → ℕ → Option Uuid → ℕ → Reply (List Message)
fetch_group_messages g device after limit topic now =
    if not (is_group_member device g.members)
    then err permission_denied
    else ok (list_group_messages after (clamp_limit limit) topic now g.messages)
