-- ===== src/Channel/Posts.antt =====
-- group-service/src/handlers/posts.rs and its statements: the posts of a channel.
use construct_server.Base.{
  ℕ, ℤ, List, Bool, Option, [], none, false, if◌then◌else◌, some, take, true, ◌∷◌, leb, ltb, ltb_ℤ,
  not, suc, ◌&&◌, ◌==◌, negsuc, pos, ◌+◌, ◌>>=◌, ◌*◌,
}
use construct_server.Group.{Bytes, DeviceId, Uuid, Reply, ok, err}
use construct_server.Group.Status.{
  invalid_argument, permission_denied, not_found, resource_exhausted, internal,
}
use construct_server.Group.Tables.{is_empty, is_some, as_i64}
use construct_server.Channel.{ChannelRecord, ChannelPost, ChannelDb, live}
use construct_server.Channel.Subscriptions.{is_channel_subscriber}
use construct_server.Channel.Management.{is_channel_admin}

abbrev pub published :
    Option ChannelRecord
    → ChannelDb
    → DeviceId
    → Bytes
    → Option Uuid
    → Uuid
    → ℕ
    → Bool
    → ChannelDb × Reply ChannelPost
published none db device ciphertext thread id now stored = (db, err not_found)
published (some c) db device ciphertext thread id now stored =
    let post : ChannelPost = record {
      post_id = id;
      sender_device_id = device;
      sequence_number = suc c.last_post_sequence;
      ciphertext = ciphertext;
      thread_id = thread;
      sent_at = now;
      expires_at = now + c.retention_days * 86_400;
      deleted_at = none;
    } in
    if not stored then (db, err internal) else (
      record db {
        channel = some (record c { last_post_sequence = suc c.last_post_sequence });
        posts = post ∷ db.posts;
      },
      ok post,
    )

-- `id` is the fresh id of the post; the client's id of it is stored but not looked at. `now` is
-- both clocks: the time of expiry is by the service's, the time of sending by that of Postgres.
unfoldable pub publish_post :
    ChannelDb
    → DeviceId
    → Bool
    → Bytes
    → Option Uuid
    → Uuid
    → ℕ
    → Bool
    → ChannelDb × Reply ChannelPost
publish_post db device allowed ciphertext thread id now stored =
    if not allowed
    then (db, err resource_exhausted)
    else if not (is_channel_admin device db)
    then (db, err permission_denied)
    else if is_empty ciphertext
    then (db, err invalid_argument)
    else published (live db.channel) db device ciphertext thread id now stored

abbrev in_it : Option Uuid → Uuid → Bool
in_it none t = false
in_it (some thread) t = thread == t

abbrev pub in_thread : Option Uuid → ChannelPost → Bool
in_thread none p = true
in_thread (some t) p = in_it p.thread_id t

abbrev pub not_before : Option ℕ → ChannelPost → Bool
not_before none p = true
not_before (some t) p = leb t p.sent_at

abbrev pub not_after : Option ℕ → ChannelPost → Bool
not_after none p = true
not_after (some t) p = leb p.sent_at t

-- The WHERE clauses of list_channel_posts, by which of the three filters are given: the last one,
-- for `_`, has none of them.
abbrev pub is_selected : Option Uuid → Option ℕ → Option ℕ → ChannelPost → Bool
is_selected (some t) (some s) (some u) p =
    in_thread (some t) p && not_before (some s) p && not_after (some u) p
is_selected (some t) (some s) none p = in_thread (some t) p && not_before (some s) p
is_selected (some t) none none p = in_thread (some t) p
is_selected none (some s) (some u) p = not_before (some s) p && not_after (some u) p
is_selected none (some s) none p = not_before (some s) p
is_selected _ _ _ p = true

-- ORDER BY sequence_number ASC.
unfoldable pub insert_post : ChannelPost → List ChannelPost → List ChannelPost
insert_post p [] = p ∷ []
insert_post p (x ∷ xs) =
    if ltb x.sequence_number p.sequence_number then x ∷ insert_post p xs else p ∷ x ∷ xs

unfoldable pub selected : (ChannelPost → Bool) → ℤ → ℕ → List ChannelPost → List ChannelPost
selected select after now [] = []
selected select after now (p ∷ ps) =
    if ltb_ℤ after (pos p.sequence_number)
      && select p
      && not (is_some p.deleted_at)
      && ltb now p.expires_at
    then insert_post p (selected select after now ps)
    else selected select after now ps

pub record ListPostsRequest : Type 0 where
  pub after_sequence : ℕ
  pub limit : ℕ
  pub thread_id : Option Uuid
  pub since : Option ℕ
  pub until : Option ℕ

abbrev pub after_cursor : ℕ → ℤ
after_cursor n = if n == 0 then negsuc 0 else as_i64 n

abbrev pub post_limit : ℕ → ℕ
post_limit limit = if limit == 0 then 50 else limit

unfoldable pub list_channel_posts : ListPostsRequest → ℕ → List ChannelPost → List ChannelPost
list_channel_posts req now posts = take (post_limit req.limit) (
    selected (is_selected req.thread_id req.since req.until) (after_cursor req.after_sequence) now
      posts)

unfoldable pub list_posts : ChannelDb → DeviceId → ListPostsRequest → ℕ → Reply (List ChannelPost)
list_posts db device req now =
    if not (is_channel_subscriber device db.subscribers) && not (is_channel_admin device db)
    then err permission_denied
    else ok (list_channel_posts req now db.posts)

-- The UPDATE of soft_delete_channel_post on the post of this channel with the id; `none` if it
-- changes no row.
unfoldable pub soft_delete_channel_post : Uuid → ℕ → List ChannelPost → Option (List ChannelPost)
soft_delete_channel_post id now [] = none
soft_delete_channel_post id now (p ∷ ps) =
    if p.post_id == id
    then if is_some p.deleted_at then none else some (record p { deleted_at = some now } ∷ ps)
    else (soft_delete_channel_post id now ps >>= λ rest. some (p ∷ rest))

abbrev pub deleted_posts : Option (List ChannelPost) → ChannelDb → ChannelDb × Reply {0} Unit
deleted_posts none db = (db, err permission_denied)
deleted_posts (some posts) db = (record db { posts = posts }, ok tt)

unfoldable pub delete_post : ChannelDb → DeviceId → Uuid → ℕ → Bool → ChannelDb × Reply {0} Unit
delete_post db device id now stored =
    if not stored
    then (db, err internal)
    else if not (is_channel_admin device db)
    then (db, err permission_denied)
    else deleted_posts (soft_delete_channel_post id now db.posts) db
