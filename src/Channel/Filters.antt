-- ===== src/Channel/Filters.antt =====
-- group-service/src/handlers/posts.rs: what list_posts lists.
use construct_server.Base.{ℕ, ℤ, Bool, ltb_ℤ, ◌&&◌, ◌≡◌, pos, false, true, ltb}
use construct_server.Group.Tables.{is_some}
use construct_server.Channel.{ChannelPost}
use construct_server.Channel.Posts.{in_thread, not_before, not_after, ListPostsRequest}

-- What the filters of a request ask for.
abbrev pub is_asked_for : ListPostsRequest → ChannelPost → Bool
is_asked_for req p = in_thread req.thread_id p && not_before req.since p && not_after req.until p

abbrev pub Listed : (ChannelPost → Bool) → ℤ → ℕ → ChannelPost → Type 0
Listed select after now p =
    (ltb_ℤ after (pos p.sequence_number) ≡ true)
    × (select p ≡ true)
    × (is_some p.deleted_at ≡ false)
    × (ltb now p.expires_at ≡ true)
