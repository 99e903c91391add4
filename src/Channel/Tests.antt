-- ===== src/Channel/Tests.antt =====
-- A channel of two devices, and the theorems at concrete calls.
use construct_server.Base.{ℕ, List, [], none, some, true, false, ◌∷◌, ◌≡◌, refl}
use construct_server.Group.{ok}
use construct_server.Channel.{
  private, ChannelPost, Subscriber, subscriber, ChannelDb, ChannelRecord, ChannelInviteLink,
}
use construct_server.Channel.Subscriptions.{
  find_subscriber, subscribe_channel, subscribe_channel_atomic, admit_channel_subscription,
  resolve_channel_invite_link, increment_channel_invite_link_usage,
}
use construct_server.Channel.Admission.{IsUsed, subscribe_channel-IsUsed}
use construct_server.Channel.Management.{
  is_channel_admin, is_in, remove_channel_admin, CreateChannelRequest, CreateAnswers,
  create_channel,
}
use construct_server.Channel.Links.{CreateInviteLinkRequest}
use construct_server.Channel.Posts.{
  soft_delete_channel_post, selected, insert_post, ListPostsRequest, list_posts, list_channel_posts,
}
use construct_server.Channel.Run.{Event, subscribe, unsubscribe, create_link, run}
use construct_server.Channel.Limits.{no_channel, run-IsSound}
use construct_server.Channel.Limits.Steps.{IsSound}

abbrev request : CreateChannelRequest
request = record {
  visibility = some private;
  max_subscribers = 2;
  retention_days = 0;
  encrypted_metadata = 1 ∷ [];
}

abbrev answers : CreateAnswers
answers = record { created = true; subscribed = true; counted = true; admin = true }

abbrev link_request : CreateInviteLinkRequest
link_request = record { max_uses = 1; expires_in_seconds = 60 }

abbrev calls : List Event
calls =
    record { device = 10; now = 5; request = create_link 7 true link_request (9 ∷ []) true }
    ∷ record { device = 11; now = 6; request = subscribe true true (9 ∷ []) 6 true }
    ∷ record { device = 12; now = 7; request = subscribe true true (9 ∷ []) 7 true }
    ∷ record { device = 11; now = 8; request = unsubscribe true true }
    ∷ record { device = 12; now = 9; request = subscribe true true (9 ∷ []) 9 true }
    ∷ []

created : (create_channel no_channel 10 true request 7 4 answers).1 ≡ ok 7
unfolding create_channel
created = refl

run-IsSound_example :
    IsSound 10 (run calls (create_channel no_channel 10 true request 7 4 answers).0)
run-IsSound_example = run-IsSound 10 true request 7 4 answers 7 calls created

abbrev post : ℕ → ℕ → ChannelPost
post id at = record {
  post_id = id;
  sender_device_id = 10;
  sequence_number = id;
  ciphertext = 1 ∷ [];
  thread_id = none;
  sent_at = at;
  expires_at = 100;
  deleted_at = none;
}

abbrev reader : Subscriber
reader = record { device_id = 11; subscribed_at = 1; role = subscriber; is_owner = false }

abbrev posted : ChannelDb
posted = record {
  channel = none;
  subscribers = reader ∷ [];
  admins = [];
  links = [];
  posts = post 2 20 ∷ post 1 10 ∷ [];
}

abbrev asked : ListPostsRequest
asked = record { after_sequence = 0; limit = 0; thread_id = none; since = some 15; until = some 30 }

listed : list_posts posted 11 asked 50 ≡ ok (post 2 20 ∷ [])
unfolding list_posts list_channel_posts find_subscriber selected insert_post
listed = refl

abbrev shut : ChannelRecord
shut = record {
  channel_id = 7;
  owner_device_id = 10;
  visibility = private;
  encrypted_metadata = 1 ∷ [];
  max_subscribers = 5;
  retention_days = 30;
  subscriber_count = 1;
  deleted_at = none;
  last_post_sequence = 0;
}

abbrev invite : ChannelInviteLink
invite = record {
  token = 9 ∷ [];
  channel_id = 7;
  max_uses = some 2;
  use_count = 1;
  expires_at = some 60;
  revoked_at = none;
}

abbrev invited : ChannelDb
invited = record {
  channel = some shut;
  subscribers = reader ∷ [];
  admins = [];
  links = invite ∷ [];
  posts = [];
}

unknown : find_subscriber 12 invited.subscribers ≡ none
unfolding find_subscriber
unknown = refl

came_in : (subscribe_channel invited 12 true true (9 ∷ []) 20 21 true).1 ≡ ok 21
unfolding subscribe_channel subscribe_channel_atomic admit_channel_subscription find_subscriber
    resolve_channel_invite_link increment_channel_invite_link_usage
came_in = refl

subscribe_channel-IsUsed_example :
    IsUsed shut
      (9 ∷ [])
      20
      21
      invited.links
      (subscribe_channel invited 12 true true (9 ∷ []) 20 21 true).0.links
subscribe_channel-IsUsed_example =
    subscribe_channel-IsUsed invited shut 12 true true (9 ∷ []) 20 21 true 21 refl refl unknown
      came_in

-- An admin without a row of its own.
abbrev left_admin : ChannelDb
left_admin = record invited { admins = 13 ∷ [] }

still_admin : is_channel_admin 13 left_admin ≡ true
unfolding is_channel_admin is_in find_subscriber
still_admin = refl

taken_back : remove_channel_admin 13 left_admin.admins ≡ []
unfolding remove_channel_admin
taken_back = refl

deleted_once :
    soft_delete_channel_post 1 40 (record (post 1 10) { deleted_at = some 30 } ∷ []) ≡ none
unfolding soft_delete_channel_post
deleted_once = refl
