-- ===== src/Signaling.antt =====
-- signaling-service/src/registry.rs: the calls that an instance knows, and their clean-up.
--
-- `Local` is what an instance holds in memory, `Redis` what all instances share: the hash of each
-- call, whose fields are those of `CallState`, the call of each user and the set of active calls.
-- The newest entry of a map counts. A key of Redis may expire between two calls. Metadata for
-- display, delivery of signals and metrics are left out.
pub mod Cleanup
pub mod Stale
pub mod Routing
mod Tests
use mathlib.Core.Option
use construct_server.Base.{
  Bool, List, Option, ℕ, ◌∷◌, false, if◌then◌else◌, none, some, true, bytes_eq, ltb, not, [], ◌&&◌,
  ◌-◌, ◌||◌,
}

abbrev pub Bytes : Type 0
Bytes = List ℕ

pub record CallState : Type 0 where
  pub call_id : Bytes
  pub caller_user_id : Bytes
  pub callee_user_id : Bytes
  pub caller_device_id : Bytes
  pub accepted_callee_device_id : Option Bytes
  pub created_at : ℕ
  pub offered_at_ms : ℕ
  pub ringing_at_ms : Option ℕ
  pub answered_at_ms : Option ℕ
  pub caller_last_keepalive_at : ℕ
  pub callee_last_keepalive_at : ℕ

pub data CallRole : Type 0 where
  caller callee : CallRole

pub role_of : CallState → Bytes → Option CallRole
role_of s user_id =
    if bytes_eq s.caller_user_id user_id
    then some caller
    else if bytes_eq s.callee_user_id user_id
    then some callee
    else none

pub find_call : Bytes → List CallState → Option CallState
find_call id [] = none
find_call id (c ∷ cs) = if bytes_eq c.call_id id then some c else find_call id cs

pub erase_call : Bytes → List CallState → List CallState
erase_call id [] = []
erase_call id (c ∷ cs) =
    let rest = erase_call id cs in if bytes_eq c.call_id id then rest else c ∷ rest

pub call_of : Bytes → List (Bytes × Bytes) → Option Bytes
call_of user [] = none
call_of user (e ∷ es) = if bytes_eq e.0 user then some e.1 else call_of user es

pub forget_user : Bytes → List (Bytes × Bytes) → List (Bytes × Bytes)
forget_user user [] = []
forget_user user (e ∷ es) =
    let rest = forget_user user es in if bytes_eq e.0 user then rest else e ∷ rest

pub leave_set : Bytes → List Bytes → List Bytes
leave_set id [] = []
leave_set id (x ∷ xs) = let rest = leave_set id xs in if bytes_eq x id then rest else x ∷ rest

pub record Local : Type 0 where
  pub calls : List CallState
  pub active_calls : List (Bytes × Bytes)

-- A hash that was made by the write of one field has no state of a call: `none`.
pub record CallHash : Type 0 where
  pub hash_id : Bytes
  pub fields : Option CallState

pub record Redis : Type 0 where
  pub call_hashes : List CallHash
  pub user_calls : List (Bytes × Bytes)
  pub active_set : List Bytes

unfoldable pub find_hash : Bytes → List CallHash → Option CallHash
find_hash id [] = none
find_hash id (c ∷ cs) = if bytes_eq c.hash_id id then some c else find_hash id cs

pub erase_hash : Bytes → List CallHash → List CallHash
erase_hash id [] = []
erase_hash id (c ∷ cs) =
    let rest = erase_hash id cs in if bytes_eq c.hash_id id then rest else c ∷ rest

-- The state in a hash, when the hash exists and has all fields.
abbrev state_in : Option CallHash → Option CallState
state_in none = none
state_in (some c) = c.fields

-- `HSET` of some fields.
pub write_fields : Bytes → (CallState → CallState) → List CallHash → List CallHash
unfolding find_hash
write_fields id f hashes =
    record { hash_id = id; fields = Option.map f (state_in (find_hash id hashes)) } ∷ hashes

pub record World : Type 0 where
  pub here : Local
  pub redis : Redis

pub create_call : World → Bytes → Bytes → Bytes → Bytes → ℕ → ℕ → World
create_call w id caller_user caller_device callee_user offered_at_ms now =
    let s : CallState = record {
      call_id = id;
      caller_user_id = caller_user;
      callee_user_id = callee_user;
      caller_device_id = caller_device;
      accepted_callee_device_id = none;
      created_at = now;
      offered_at_ms = offered_at_ms;
      ringing_at_ms = none;
      answered_at_ms = none;
      caller_last_keepalive_at = now;
      callee_last_keepalive_at = now;
    } in
    record {
      here = record {
        calls = s ∷ w.here.calls;
        active_calls = (callee_user, id) ∷ (caller_user, id) ∷ w.here.active_calls;
      };
      redis = record {
        call_hashes = record { hash_id = id; fields = some s } ∷ w.redis.call_hashes;
        user_calls = (callee_user, id) ∷ (caller_user, id) ∷ w.redis.user_calls;
        active_set = id ∷ w.redis.active_set;
      };
    }

remove_found : World → Bytes → Option CallState → World
unfolding forget_user erase_call erase_hash leave_set
remove_found w id none = w
remove_found w id (some s) = record {
  here = record {
    calls = erase_call id w.here.calls;
    active_calls = forget_user s.callee_user_id (forget_user s.caller_user_id w.here.active_calls);
  };
  redis = record {
    call_hashes = erase_hash id w.redis.call_hashes;
    user_calls = forget_user s.callee_user_id (forget_user s.caller_user_id w.redis.user_calls);
    active_set = leave_set id w.redis.active_set;
  };
}

pub remove_call : World → Bytes → World
unfolding remove_found find_call
remove_call w id = remove_found w id (find_call id w.here.calls)

-- A copy in memory is taken without a look at Redis; one from Redis is kept.
load_missing : World → Option CallState → World × Option CallState
load_missing w none = (w, none)
load_missing w (some s) = (record w { here = record (w.here) { calls = s ∷ w.here.calls } }, some s)

pub load_found : World → Bytes → Option CallState → World × Option CallState
unfolding load_missing find_hash
load_found w id (some s) = (w, some s)
load_found w id none = load_missing w (state_in (find_hash id w.redis.call_hashes))

pub load_call_state : World → Bytes → World × Option CallState
unfolding load_found
load_call_state w id = load_found w id (find_call id w.here.calls)

abbrev is_found : Option CallHash → Bool
is_found none = false
is_found (some s) = true

pub call_exists_in_redis : World → Bytes → Bool
unfolding find_hash
call_exists_in_redis w id = is_found (find_hash id w.redis.call_hashes)

-- Memory does not know a call of the user: ask Redis.
user_call_in_redis : World → Bytes → Option Bytes → World × Option Bytes
unfolding call_exists_in_redis forget_user
user_call_in_redis w user none = (w, none)
user_call_in_redis w user (some id) =
    if call_exists_in_redis w id
    then (
      record w { here = record (w.here) { active_calls = (user, id) ∷ w.here.active_calls } },
      some id,
    )
    else (
      record w { redis = record (w.redis) { user_calls = forget_user user w.redis.user_calls } },
      none,
    )

user_call_known : World → Bytes → Option Bytes → World × Option Bytes
unfolding user_call_in_redis remove_call call_of
user_call_known w user (some id) =
    if call_exists_in_redis w id then (w, some id) else (remove_call w id, none)
user_call_known w user none = user_call_in_redis w user (call_of user w.redis.user_calls)

pub get_user_call : World → Bytes → World × Option Bytes
unfolding user_call_known
get_user_call w user = user_call_known w user (call_of user w.here.active_calls)

-- What is written to a call, here and in Redis, or none.
abbrev pub Change : Type 0
Change = Option (CallState → CallState)

pub kept_alive : Bytes → ℕ → CallState → Change
kept_alive user now s =
    if bytes_eq s.caller_user_id user
    then some (λ t. record t { caller_last_keepalive_at = now })
    else if bytes_eq s.callee_user_id user
    then some (λ t. record t { callee_last_keepalive_at = now })
    else none

abbrev pub or_time : Option ℕ → ℕ → ℕ
or_time none now_ms = now_ms
or_time (some t) now_ms = t

abbrev pub or_device : Option Bytes → Option Bytes → Option Bytes
or_device none device = device
or_device (some d) device = some d

pub rings : ℕ → CallState → Change
rings now_ms s = elim s.ringing_at_ms [
  | none ↦ some (λ t. record t { ringing_at_ms = some now_ms })
  | some at ↦ none
]

abbrev pub is_none {ℓ} : {A : Type ℓ} → Option A → Bool
is_none none = true
is_none (some a) = false

-- The device is written only when there is one.
pub write_answer : ℕ → Option Bytes → CallState → CallState
write_answer now_ms none t = record t { answered_at_ms = some now_ms }
write_answer now_ms (some d) t = record t {
  answered_at_ms = some now_ms;
  accepted_callee_device_id = some d;
}

pub connects : Option Bytes → ℕ → CallState → Change
unfolding write_answer
connects callee_device now_ms s =
    if not (is_none s.answered_at_ms) && is_none callee_device
    then none
    else some (
        write_answer (or_time s.answered_at_ms now_ms)
          (or_device s.accepted_callee_device_id callee_device))

pub store_changed : World → Bytes → CallState → Change → World
unfolding write_fields
store_changed w id s none = w
store_changed w id s (some f) = record {
  here = record (w.here) { calls = f s ∷ w.here.calls };
  redis = record (w.redis) { call_hashes = write_fields id f w.redis.call_hashes };
}

-- The change is made to the state that was loaded.
pub change_loaded : World × Option CallState → Bytes → (CallState → Change) → World
unfolding store_changed
change_loaded (w, none) id change = w
change_loaded (w, some s) id change = store_changed w id s (change s)

pub change_call : World → Bytes → (CallState → Change) → World
unfolding change_loaded load_call_state
change_call w id change = change_loaded (load_call_state w id) id change

keepalive_call : World × Option Bytes → Bytes → ℕ → World
unfolding change_call kept_alive
keepalive_call (w, none) user now = w
keepalive_call (w, some id) user now = change_call w id (kept_alive user now)

pub note_keepalive : World → Bytes → ℕ → World
unfolding keepalive_call get_user_call
note_keepalive w user now = keepalive_call (get_user_call w user) user now

pub note_ringing : World → Bytes → ℕ → World
unfolding change_call rings
note_ringing w id now_ms = change_call w id (rings now_ms)

pub note_connected : World → Bytes → Option Bytes → ℕ → World
unfolding change_call connects
note_connected w id callee_device now_ms = change_call w id (connects callee_device now_ms)

pub data CleanupAction : Type 0 where
  error_to_caller hangup_timeout hangup_connection_failed remove : CleanupAction

abbrev past : Option ℕ → ℕ → ℕ → Bool
past none limit now = false
past (some t) limit now = ltb limit (now - t)

-- What one pass of `cleanup_loop` does with a call.
pub cleanup_actions : CallState → ℕ → ℕ → List CleanupAction
cleanup_actions s now_s now_ms =
    if ltb 300 (now_s - s.created_at)
    then remove ∷ []
    else if is_none s.ringing_at_ms
        && is_none s.answered_at_ms
        && ltb 45_000 (now_ms - s.offered_at_ms)
    then error_to_caller ∷ remove ∷ []
    else if is_none s.answered_at_ms
        && past s.ringing_at_ms 30_000 now_ms
        && ltb 30 (now_s - s.caller_last_keepalive_at)
        && ltb 30 (now_s - s.callee_last_keepalive_at)
    then hangup_timeout ∷ remove ∷ []
    else if ltb 60 (now_s - s.caller_last_keepalive_at)
        || ltb 60 (now_s - s.callee_last_keepalive_at)
    then hangup_connection_failed ∷ remove ∷ []
    else []

-- The user and the device that a signal goes to; `none` for someone who is not in the call, and the
-- device `none` for all devices of the user.
pub forward_target : CallState → Bytes → Option (Bytes × Option Bytes)
forward_target s from_user =
    if bytes_eq s.caller_user_id from_user
    then some (s.callee_user_id, s.accepted_callee_device_id)
    else if bytes_eq s.callee_user_id from_user
    then some (s.caller_user_id, some s.caller_device_id)
    else none
