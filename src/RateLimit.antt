-- ===== src/RateLimit.antt =====
-- crates/construct-rate-limit/src/degraded.rs: the circuit breaker in front of Redis, and the
-- bounded in-process counter that limits while it is open.
--
-- One call is one step (each holds the shard's lock, and the atomics are read and written in one
-- thread). Times are after the epoch, so numbers; a window of 0 stands for one that is not positive.
-- A map from hashes to entries is an association list.
pub mod Breaker
pub mod Bounded
pub mod Table
pub mod Window
pub mod Budget
pub mod Run
mod Tests
use Prim.Native.Nat.{bit_xor}
use construct_server.Base.{
  ℕ, zero, suc, ◌+◌, ◌-◌, ◌*◌, ◌%◌, ◌^◌, Bool, true, false, not, Option, none, some, List, [], ◌∷◌,
  length, get_or, set, replicate, ltb, leb, ◌==◌, ◌&&◌, if◌then◌else◌, ℤ, pos, negsuc,
}

abbrev pub trip_threshold : ℕ
trip_threshold = 5

abbrev pub cooldown_ms : ℕ
cooldown_ms = 5_000

abbrev pub shard_count : ℕ
shard_count = 16

abbrev pub max_tracked_keys : ℕ
max_tracked_keys = 50_000

pub data BreakerState : Type 0 where
  closed open_ half_open : BreakerState

pub record DegradedOutcome : Type 0 where
  pub allowed : Bool
  pub tracked : Bool

pub record Entry : Type 0 where
  pub window_start : ℕ
  pub count : ℕ

abbrev pub Shard : Type 0
Shard = List (ℕ × Entry)

pub record DegradedLimiter : Type 0 where
  pub consecutive_failures : ℕ
  pub open_until_ms : ℕ
  pub shards : List Shard
  pub tracked : ℕ

unfoldable pub new : DegradedLimiter
new = record {
  consecutive_failures = 0;
  open_until_ms = 0;
  shards = replicate shard_count [];
  tracked = 0;
}

unfoldable pub state : DegradedLimiter → ℕ → BreakerState
state l now_ms =
    if l.open_until_ms == 0 then closed else if ltb now_ms l.open_until_ms then open_ else half_open

abbrev is_open : BreakerState → Bool
is_open open_ = true
is_open _ = false

unfoldable pub should_skip_redis : DegradedLimiter → ℕ → Bool
unfolding state
should_skip_redis l now_ms = is_open (state l now_ms)

unfoldable pub record_success : DegradedLimiter → DegradedLimiter
record_success l = record l { consecutive_failures = 0; open_until_ms = 0 }

-- `fetch_add` wraps at 32 bits.
unfoldable pub record_failure : DegradedLimiter → ℕ → DegradedLimiter × Bool
record_failure l now_ms =
    let failures = (l.consecutive_failures + 1) % 2 ^ 32 in
    let counted = record l { consecutive_failures = failures } in
    if ltb failures trip_threshold
    then (counted, false)
    else (record counted { open_until_ms = now_ms + cooldown_ms }, l.open_until_ms == 0)

-- FNV-1a over the bytes of the key, in 64 bits.
fxhash_from : ℕ → List ℕ → ℕ
fxhash_from h [] = h
fxhash_from h (b ∷ bytes) = fxhash_from (bit_xor h b * 0x0100_0000_01b3 % 2 ^ 64) bytes

unfoldable pub fxhash : List ℕ → ℕ
unfolding fxhash_from
fxhash key = fxhash_from 0xcbf2_9ce4_8422_2325 key

pub find : ℕ → Shard → Option Entry
find hash [] = none
find hash ((h, e) ∷ rest) = if h == hash then some e else find hash rest

-- Writes through `get_mut`: the entry is there.
pub write : ℕ → Entry → Shard → Shard
write hash e [] = []
write hash e ((h, old) ∷ rest) = if h == hash then (h, e) ∷ rest else (h, old) ∷ write hash e rest

-- `entries.retain(|_, e| e.window_start == window_start)`.
pub retain_window : ℕ → Shard → Shard
retain_window window_start [] = []
retain_window window_start ((h, e) ∷ rest) =
    let kept = retain_window window_start rest in
    if e.window_start == window_start then (h, e) ∷ kept else kept

abbrev pub saturating_inc : ℕ → ℕ
saturating_inc n = if n == 2 ^ 32 - 1 then n else n + 1

abbrev put_shard : DegradedLimiter → ℕ → Shard → DegradedLimiter
put_shard l index shard = record l { shards = set l.shards index shard }

-- A key that is in the table.
pub charge_known :
    DegradedLimiter → ℕ → Shard → ℕ → ℕ → ℕ → Entry → DegradedLimiter × DegradedOutcome
charge_known l index shard hash limit window_start e =
    let count = saturating_inc e.count in
    if e.window_start == window_start
    then (
      put_shard l index (write hash (record e { count = count }) shard),
      record { allowed = leb count limit; tracked = true },
    )
    else (
      put_shard l index (write hash (record { window_start = window_start; count = 1 }) shard),
      record { allowed = true; tracked = true },
    )

pub insert_new : DegradedLimiter → ℕ → Shard → ℕ → ℕ → DegradedLimiter × DegradedOutcome
insert_new l index shard hash window_start = (
  record l {
    shards = set l.shards index ((hash, record { window_start = window_start; count = 1 }) ∷ shard);
    tracked = l.tracked + 1;
  },
  record { allowed = true; tracked = true },
)

-- `purge_stale` and its `fetch_sub`, which wraps at 64 bits.
pub purge : DegradedLimiter → ℕ → Shard → ℕ → DegradedLimiter
purge l index shard window_start =
    let kept = retain_window window_start shard in
    let dropped = length shard - length kept in
    record l {
      shards = set l.shards index kept;
      tracked = if ltb 0 dropped then (l.tracked + 2 ^ 64 - dropped) % 2 ^ 64 else l.tracked;
    }

-- A key that is not in the table.
pub charge_unknown : DegradedLimiter → ℕ → Shard → ℕ → ℕ → DegradedLimiter × DegradedOutcome
unfolding insert_new purge
charge_unknown l index shard hash window_start =
    let purged = purge l index shard window_start in
    if leb max_tracked_keys l.tracked
    then if leb max_tracked_keys purged.tracked
      then (purged, record { allowed = true; tracked = false })
      else insert_new purged index (retain_window window_start shard) hash window_start
    else insert_new l index shard hash window_start

-- `charge` after the key is hashed and the window is found.
pub charge_found :
    DegradedLimiter → ℕ → Shard → ℕ → ℕ → ℕ → Option Entry → DegradedLimiter × DegradedOutcome
charge_found l index shard hash limit window_start none =
    charge_unknown l index shard hash window_start
charge_found l index shard hash limit window_start (some e) =
    charge_known l index shard hash limit window_start e

pub charge_hash : DegradedLimiter → ℕ → ℕ → ℕ → DegradedLimiter × DegradedOutcome
charge_hash l hash limit window_start =
    let index = hash % shard_count in
    let shard = get_or l.shards index [] in
    charge_found l index shard hash limit window_start (find hash shard)

-- `now_secs - now_secs.rem_euclid(window_secs.max(1))`.
unfoldable pub window_of : ℕ → ℕ → ℕ
window_of window_secs now_secs =
    now_secs - now_secs % (if leb window_secs 1 then 1 else window_secs)

-- `limit` is an `i32`: one that is not positive denies.
unfoldable pub charge : DegradedLimiter → List ℕ → ℤ → ℕ → ℕ → DegradedLimiter × DegradedOutcome
unfolding charge_hash window_of
charge l key (negsuc n) window_secs now_secs = (l, record { allowed = false; tracked = true })
charge l key (pos limit) window_secs now_secs =
    if limit == 0
    then (l, record { allowed = false; tracked = true })
    else charge_hash l (fxhash key) limit (window_of window_secs now_secs)

abbrev emptied : List Shard → List Shard
emptied [] = []
emptied (s ∷ rest) = [] ∷ emptied rest

unfoldable pub clear : DegradedLimiter → DegradedLimiter
clear l = record l { shards = emptied l.shards; tracked = 0 }
