-- ===== src/Channel/Limits.antt =====
-- group-service/src/handlers/subscriptions.rs, channel_lifecycle.rs, channel_admin.rs and
-- channel_invite_links.rs: the limits of a channel over runs of the handlers.
mod Rows
pub mod Steps
use construct_server.Base.{
  ℕ, List, Bool, Option, [], none, All, false, length, true, ◌∷◌, ◌≡◌, arith, some, ◌==◌, ◌⊎◌,
  Bool-cases, leb, refl, suc, ◌&&◌, bytes_eq, inl, ◌||◌, inr, ap, not, ◌>>=◌, subst, sym,
  some-injective, ◌∙◌, if◌then◌else◌,
}
use construct_server.Group.{Bytes, DeviceId, Uuid, ok}
use construct_server.Group.Tables.{is_some}
use construct_server.Channel.{
  public, private, ChannelRecord, Subscriber, ChannelInviteLink, ChannelDb, Visibility,
}
use construct_server.Channel.Subscriptions.{
  find_subscriber, may_count, increment_channel_invite_link_usage, use_link,
  admit_channel_subscription, subscribe_channel_atomic, delete_subscriber, admitted, count_down,
  unsubscribe_from_channel, subscribe_channel, unsubscribe_channel,
}
use construct_server.Channel.Management.{
  add_admin, delete_channel, remove_admin, set_channel_visibility, update_channel,
  CreateChannelRequest, create_channel, CreateAnswers,
}
use construct_server.Channel.Links.{
  revoke_channel_invite_link, CreateInviteLinkRequest, create_invite_link, revoke_invite_link,
}
use construct_server.Channel.Run.{
  Request, subscribe, unsubscribe, update, set_visibility, delete, add, remove, create_link,
  revoke_link, publish, delete_post_of, serve, Event, run,
}
use construct_server.Channel.Limits.Rows.{
  Keyed, within_uses, AllWithinUses, AnyWithinUses, incremented, revoked-within, deleted-owned,
  deleted-present, deleted-Keyed, length-deleted,
}
use construct_server.Channel.Posts.{publish_post, delete_post}
use construct_server.Channel.Links.{revoked_links}
use construct_server.Channel.{admin}
use construct_server.Channel.Management.{create_visible}
use construct_server.Channel.Links.{unless_zero}
use construct_server.Channel.Links.{new_link}
use construct_server.Channel.Limits.Steps.{
  IsSound, fits, Admits, admits, kept-IsSound, Admits-IsSound, unsubscribes-IsSound, linked-IsSound,
}

module _ (owner : DeviceId) (db : ChannelDb) (device : DeviceId) (now : ℕ)
    (s : IsSound owner db) where
  subscribe-IsSound :
      (belongs allowed : Bool) (token : Bytes) (db_now : ℕ) (stored : Bool)
      → IsSound owner (subscribe_channel db device belongs allowed token now db_now stored).0
  unfolding subscribe_channel
  subscribe-IsSound false allowed token db_now stored = s
  subscribe-IsSound true false token db_now stored = s
  subscribe-IsSound true true token db_now stored =
      Admits-IsSound owner db _ device token db_now (admits db device token now db_now stored) s

  unsubscribe-IsSound :
      (belongs stored : Bool) → IsSound owner (unsubscribe_channel db device belongs stored).0
  unfolding unsubscribe_channel
  unsubscribe-IsSound false stored = s
  unsubscribe-IsSound true false = s
  unsubscribe-IsSound true true = unsubscribes-IsSound owner db device s

  -- What changes only the row of the channel, the admins or the posts.
  abbrev SameCounts : ChannelDb → Type 0
  SameCounts db' =
      (db'.subscribers ≡ db.subscribers)
      × (db'.links ≡ db.links)
      × ((n : ℕ) → fits db.channel n ≡ true → fits db'.channel n ≡ true)

  update-SameCounts :
      (metadata : Bytes) (stored : Bool) → SameCounts (update_channel db device metadata stored).0
  unfolding update_channel
  update-SameCounts metadata stored = (ground arith, ground arith, λ n h. ground (arith, h))

  visibility-SameCounts :
      (visibility : Option Visibility) (stored : Bool)
      → SameCounts (set_channel_visibility db device visibility stored).0
  unfolding set_channel_visibility
  visibility-SameCounts visibility stored = (ground arith, ground arith, λ n h. ground (arith, h))

  delete-SameCounts : (stored : Bool) → SameCounts (delete_channel db device now stored).0
  unfolding delete_channel
  delete-SameCounts stored = (ground arith, ground arith, λ n h. ground (arith, h))

  add-SameCounts :
      (target : DeviceId) (stored : Bool) → SameCounts (add_admin db device target stored).0
  unfolding add_admin
  add-SameCounts target stored = (ground arith, ground arith, λ n h. ground (arith, h))

  remove-SameCounts :
      (target : DeviceId) (stored : Bool) → SameCounts (remove_admin db device target stored).0
  unfolding remove_admin
  remove-SameCounts target stored = (ground arith, ground arith, λ n h. ground (arith, h))

  publish-SameCounts :
      (allowed : Bool) (ciphertext : Bytes) (thread : Option Uuid) (id : Uuid) (stored : Bool)
      → SameCounts (publish_post db device allowed ciphertext thread id now stored).0
  unfolding publish_post
  publish-SameCounts allowed ciphertext thread id stored =
      (ground arith, ground arith, λ n h. ground (arith, h))

  post-SameCounts : (id : Uuid) (stored : Bool) → SameCounts (delete_post db device id now stored).0
  unfolding delete_post
  post-SameCounts id stored = (ground arith, ground arith, λ n h. ground (arith, h))

  by-SameCounts : (db' : ChannelDb) → SameCounts db' → IsSound owner db'
  by-SameCounts db' (ss, ls, fit) = kept-IsSound owner db db' ss ls fit s

  new_link-within :
      (id : Uuid) (req : CreateInviteLinkRequest) (token : Bytes)
      → within_uses (new_link id req token now) ≡ true
  new_link-within id req token = ground arith

  create_link-outcome :
      (id : Uuid) (allowed : Bool) (req : CreateInviteLinkRequest) (token : Bytes) (stored : Bool)
      → let db' = (create_invite_link db device id allowed req token now stored).0 in
        (db' ≡ db) ⊎ (db' ≡ record db { links = new_link id req token now ∷ db.links })
  unfolding create_invite_link
  create_link-outcome id allowed req token stored = ground arith

  create_link-IsSound :
      (id : Uuid) (allowed : Bool) (req : CreateInviteLinkRequest) (token : Bytes) (stored : Bool)
      → IsSound owner (create_invite_link db device id allowed req token now stored).0
  create_link-IsSound id allowed req token stored =
      elim (create_link-outcome id allowed req token stored) [
        | inl e ↦ subst (IsSound owner) (sym e) s
        | inr e ↦ subst (IsSound owner) (sym e) (
            linked-IsSound owner db (new_link id req token now ∷ db.links)
              (new_link-within id req token, s.links) s)
      ]

  revoke_link-outcome :
      (id : Uuid) (token : Bytes) (stored : Bool)
      → let db' = (revoke_invite_link db device id token now stored).0 in
        (db' ≡ db)
        ⊎ ((links : List ChannelInviteLink) × (revoke_channel_invite_link id token now db.links
              ≡ some links)
            × (db' ≡ record db { links = links }))
  unfolding revoke_invite_link
  revoke_link-outcome id token stored = ground arith

  revoke_link-IsSound :
      (id : Uuid) (token : Bytes) (stored : Bool)
      → IsSound owner (revoke_invite_link db device id token now stored).0
  revoke_link-IsSound id token stored = elim (revoke_link-outcome id token stored) [
    | inl e ↦ subst (IsSound owner) (sym e) s
    | inr (links, found, e) ↦ subst (IsSound owner) (sym e) (
        linked-IsSound owner db links
          (subst AnyWithinUses found (revoked-within id token now db.links s.links)) s)
  ]

serve-IsSound :
    (owner : DeviceId) (db : ChannelDb) (device : DeviceId) (now : ℕ) (r : Request)
    → IsSound owner db
    → IsSound owner (serve db device now r)
serve-IsSound owner db device now (subscribe belongs allowed token db_now stored) s =
    subscribe-IsSound owner db device now s belongs allowed token db_now stored
serve-IsSound owner db device now (unsubscribe belongs stored) s =
    unsubscribe-IsSound owner db device now s belongs stored
serve-IsSound owner db device now (update metadata stored) s =
    by-SameCounts owner db device now s _ (update-SameCounts owner db device now s metadata stored)
serve-IsSound owner db device now (set_visibility visibility stored) s =
    by-SameCounts owner db device now s _
      (visibility-SameCounts owner db device now s visibility stored)
serve-IsSound owner db device now (delete stored) s =
    by-SameCounts owner db device now s _ (delete-SameCounts owner db device now s stored)
serve-IsSound owner db device now (add target stored) s =
    by-SameCounts owner db device now s _ (add-SameCounts owner db device now s target stored)
serve-IsSound owner db device now (remove target stored) s =
    by-SameCounts owner db device now s _ (remove-SameCounts owner db device now s target stored)
serve-IsSound owner db device now (create_link id allowed req token stored) s =
    create_link-IsSound owner db device now s id allowed req token stored
serve-IsSound owner db device now (revoke_link id token stored) s =
    revoke_link-IsSound owner db device now s id token stored
serve-IsSound owner db device now (publish allowed ciphertext thread id stored) s =
    by-SameCounts owner db device now s _
      (publish-SameCounts owner db device now s allowed ciphertext thread id stored)
serve-IsSound owner db device now (delete_post_of id stored) s =
    by-SameCounts owner db device now s _ (post-SameCounts owner db device now s id stored)

from-IsSound :
    (owner : DeviceId) (es : List Event) (db : ChannelDb)
    → IsSound owner db
    → IsSound owner (run es db)
unfolding run
from-IsSound owner [] db s = s
from-IsSound owner (e ∷ es) db s =
    from-IsSound owner es (serve db e.device e.now e.request)
      (serve-IsSound owner db e.device e.now e.request s)

abbrev pub no_channel : ChannelDb
no_channel = record { channel = none; subscribers = []; admins = []; links = []; posts = [] }

abbrev owner_row : DeviceId → ℕ → Subscriber
owner_row device now = record {
  device_id = device;
  subscribed_at = now;
  role = admin;
  is_owner = true;
}

created_as-shape :
    (visibility : Option Visibility) (device : DeviceId) (req : CreateChannelRequest) (id now : ℕ)
    (answers : CreateAnswers) (reply : Uuid)
    → (create_visible visibility no_channel device req id now answers).1 ≡ ok reply
    → let db = (create_visible visibility no_channel device req id now answers).0 in
      (db.subscribers ≡ owner_row device now ∷ []) × (db.links ≡ []) × (fits db.channel 1 ≡ true)
created_as-shape visibility device req id now answers reply e = ground (arith, e)

created-shape :
    (device : DeviceId) (allowed : Bool) (req : CreateChannelRequest) (id now : ℕ)
    (answers : CreateAnswers) (reply : Uuid)
    → (create_channel no_channel device allowed req id now answers).1 ≡ ok reply
    → let db = (create_channel no_channel device allowed req id now answers).0 in
      (db.subscribers ≡ owner_row device now ∷ []) × (db.links ≡ []) × (fits db.channel 1 ≡ true)
unfolding create_channel
created-shape device true req id now answers reply e =
    created_as-shape req.visibility device req id now answers reply e
created-shape device false req id now answers reply e = absurd (cc)

created-IsSound :
    (device : DeviceId) (allowed : Bool) (req : CreateChannelRequest) (id now : ℕ)
    (answers : CreateAnswers) (reply : Uuid)
    → (create_channel no_channel device allowed req id now answers).1 ≡ ok reply
    → IsSound device (create_channel no_channel device allowed req id now answers).0
unfolding find_subscriber
created-IsSound device allowed req id now answers reply e =
    let (ss, ls, fit) = created-shape device allowed req id now answers reply e in
    record {
      fit = rw ss fit;
      keyed = rw ss (refl, tt);
      owned = rw ss (ground arith, tt);
      present = rw ss (ground arith);
      links = rw ls tt;
    }

-- After a channel was created for its owner and after any run of subscriptions, unsubscriptions,
-- changes of its metadata, its visibility, its admins, its invite links and its posts and its
-- deletion, by any devices, its stored count of subscribers is the number of the rows of
-- subscribers and at most its limit if it has one, no device has two rows, the row of its owner is
-- there and is the one row that is marked as the owner's, and no invite link is used more often
-- than it may be.
pub run-IsSound :
    (device : DeviceId) (allowed : Bool) (req : CreateChannelRequest) (id now : ℕ)
    (answers : CreateAnswers) (reply : Uuid) (es : List Event)
    → (create_channel no_channel device allowed req id now answers).1 ≡ ok reply
    → IsSound device (run es (create_channel no_channel device allowed req id now answers).0)
run-IsSound device allowed req id now answers reply es e =
    from-IsSound device es _ (created-IsSound device allowed req id now answers reply e)
