-- ===== src/Signaling/Cleanup.antt =====
-- signaling-service/src/registry.rs, `cleanup_loop`: which calls live on.
use construct_server.Base.{ℕ, ◌≡◌, [], some, ◌≤◌, ◌+◌, arith, none}
use construct_server.Signaling.{CallState, cleanup_actions}

-- A call that a pass of the clean-up leaves alone is at most 300 seconds old, has heard from both
-- sides within 60 seconds, and was offered within 45 seconds if it has neither rung nor been
-- answered.
pub cleanup_actions-kept :
    (s : CallState) (now_s now_ms : ℕ)
    → cleanup_actions s now_s now_ms ≡ []
    → (now_s ≤ s.created_at + 300)
      × (now_s ≤ s.caller_last_keepalive_at + 60)
      × (now_s ≤ s.callee_last_keepalive_at + 60)
      × (s.ringing_at_ms ≡ none → s.answered_at_ms ≡ none → now_ms ≤ s.offered_at_ms + 45_000)
unfolding cleanup_actions
cleanup_actions-kept s now_s now_ms h =
    (ground (arith, h), ground (arith, h), ground (arith, h), λ r a. ground (arith, h, r, a))

-- An answered call that is at most 300 seconds old and has heard from both sides within 60 seconds
-- is left alone.
pub cleanup_actions-answered :
    (s : CallState) (now_s now_ms at : ℕ)
    → s.answered_at_ms ≡ some at
    → now_s ≤ s.created_at + 300
    → now_s ≤ s.caller_last_keepalive_at + 60
    → now_s ≤ s.callee_last_keepalive_at + 60
    → cleanup_actions s now_s now_ms ≡ []
unfolding cleanup_actions
cleanup_actions-answered s now_s now_ms at a c1 c2 c3 = ground (arith, a)
