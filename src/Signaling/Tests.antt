-- ===== src/Signaling/Tests.antt =====
-- Calls at concrete inputs.
use construct_server.Base.{List, ◌≡◌, ◌∷◌, [], none, some, ◌≤◌, arith, refl, ◌+◌}
use construct_server.Signaling.{write_answer, CallState, Redis, World, cleanup_actions, connects}
use construct_server.Signaling.Cleanup.{cleanup_actions-kept, cleanup_actions-answered}
use construct_server.Signaling.Stale.{Seen, keepalive, connected}

abbrev talk : CallState
talk = record {
  call_id = 1 ∷ [];
  caller_user_id = 2 ∷ [];
  callee_user_id = 3 ∷ [];
  caller_device_id = 20 ∷ [];
  accepted_callee_device_id = some (30 ∷ []);
  created_at = 1_000;
  offered_at_ms = 1_000_000;
  ringing_at_ms = some 1_001_000;
  answered_at_ms = some 1_004_000;
  caller_last_keepalive_at = 1_190;
  callee_last_keepalive_at = 1_195;
}

cleanup_actions-answered_example : cleanup_actions talk 1_200 1_200_000 ≡ []
cleanup_actions-answered_example =
    cleanup_actions-answered talk 1_200 1_200_000 1_004_000 refl (omega arith) (omega arith)
      (omega arith)

cleanup_actions-kept_example :
    (1_200 ≤ 1_000 + 300)
    × (1_200 ≤ 1_190 + 60)
    × (1_200 ≤ 1_195 + 60)
    × (talk.ringing_at_ms ≡ none → talk.answered_at_ms ≡ none → 1_200_000 ≤ 1_000_000 + 45_000)
cleanup_actions-kept_example =
    cleanup_actions-kept talk 1_200 1_200_000 cleanup_actions-answered_example

abbrev nothing : World
nothing = record {
  here = record { calls = []; active_calls = [] };
  redis = record { call_hashes = []; user_calls = []; active_set = [] };
}

-- Redis has heard from both sides.
abbrev shared : Redis
shared = record {
  call_hashes = record { hash_id = 1 ∷ []; fields = some talk } ∷ [];
  user_calls = (3 ∷ [], 1 ∷ []) ∷ (2 ∷ [], 1 ∷ []) ∷ [];
  active_set = (1 ∷ []) ∷ [];
}

abbrev caller_side : List Seen
caller_side =
    record { event = connected 1_005_000; redis = shared }
    ∷ record { event = keepalive 1_060; redis = shared }
    ∷ []

answer_again :
    connects (some (31 ∷ [])) 1_100_000 talk ≡ some (write_answer 1_004_000 (some (30 ∷ [])))
unfolding connects
answer_again = refl
