-- ===== src/Signaling/Stale.antt =====
-- signaling-service/src/registry.rs: the copy of a call on the caller's instance, when the callee
-- is connected to another instance.
use construct_server.Base.{ℕ, List, ◌≡◌, none, some, ◌∷◌, []}
use construct_server.Signaling.{
  Bytes, CallState, CallHash, Local, Redis, World, find_call, find_hash, call_of, note_keepalive,
  note_connected,
}

-- What the caller's stream makes of a call.
pub data Event : Type 0 where
  keepalive : ℕ → Event
  connected : ℕ → Event

-- An event, and what Redis holds when it comes: other instances write to Redis as they like.
pub record Seen : Type 0 where
  pub event : Event
  pub redis : Redis

module _ (id caller : Bytes) where
  pub after_event : World → Event → World
  after_event w (keepalive now) = note_keepalive w caller now
  after_event w (connected now_ms) = note_connected w id none now_ms

  pub after_seen : Local → List Seen → Local
  unfolding after_event
  after_seen here [] = here
  after_seen here (e ∷ es) =
      after_seen (after_event (record { here = here; redis = e.redis }) e.event).here es

  unfoldable pub HasCall : Redis → Type 0
  HasCall r = (c : CallHash) × (find_hash id r.call_hashes ≡ some c)

  -- The copy has never heard from the callee after `created`.
  record IsStale (created : ℕ) (here : Local) : Type 0 where
    pub active : call_of caller here.active_calls ≡ some id
    pub copy : CallState
    pub found : find_call id here.calls ≡ some copy
    pub named : copy.call_id ≡ id
    pub by_caller : copy.caller_user_id ≡ caller
    pub callee_silent : copy.callee_last_keepalive_at ≡ created

  -- A write that leaves the ids and the callee's time.
  record Keeps (f : CallState → CallState) (t : CallState) : Type 0 where
    pub same_id : (f t).call_id ≡ t.call_id
    pub same_caller : (f t).caller_user_id ≡ t.caller_user_id
    pub same_time : (f t).callee_last_keepalive_at ≡ t.callee_last_keepalive_at
