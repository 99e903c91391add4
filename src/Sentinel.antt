-- ===== src/Sentinel.antt =====
-- crates/construct-sentinel-service/src/core.rs: trust levels, quotas and send permissions.
--
-- What Redis and Postgres reply to the commands of one call are the records `Replies` and `Rows`;
-- `none` is a reply that is an error. Best-effort cache writes, whose result the code drops, and
-- the violation counter are left out. A call returns the degraded limiter and its result.
pub mod Quota
pub mod Outage
pub mod Permission
mod Tests
use construct_server.Base.{
  Bool, List, Option, if◌then◌else◌, none, ℕ, false, ltb, not, pos, some, true, ◌==◌, ◌&&◌, ◌-◌,
  ◌>>=◌, ◌∷◌, [], bytes_eq, leb, ◌/◌, ◌||◌,
}
use construct_server.RateLimit.{
  DegradedLimiter, DegradedOutcome, BreakerState, closed, open_, half_open, state,
  should_skip_redis, record_success, record_failure, charge, clear,
}

abbrev pub own_copy_limit_hour : ℕ
own_copy_limit_hour = 2_000

abbrev pub msg_window_ttl : ℕ
msg_window_ttl = 3_600

pub data TrustLevel : Type 0 where
  new warming trusted flagged banned : TrustLevel

abbrev pub msg_limit_hour : TrustLevel → ℕ
msg_limit_hour new = 10
msg_limit_hour warming = 50
msg_limit_hour trusted = 200
msg_limit_hour flagged = 5
msg_limit_hour banned = 0

abbrev pub has_own_copy_window : TrustLevel → Bool
has_own_copy_window flagged = false
has_own_copy_window banned = false
has_own_copy_window _ = true

pub record QuotaOutcome : Type 0 where
  pub allowed : Bool
  pub remaining : Option ℕ
  pub limit : ℕ
  pub degraded : Bool

pub data Denial : Type 0 where
  device_banned blocked device_limit user_limit own_copy_limit : Denial

-- `denial_reason` and `retry_after_seconds` of a refusal; `none` is permission.
pub record SendPermission : Type 0 where
  pub denial_reason : Option Denial
  pub retry_after_seconds : ℕ

abbrev pub permitted : SendPermission
permitted = record { denial_reason = none; retry_after_seconds = 0 }

abbrev pub denied : Denial → ℕ → SendPermission
denied reason retry = record { denial_reason = some reason; retry_after_seconds = retry }

-- `used` counts the event that is judged.
unfoldable pub quota_outcome : ℕ → ℕ → QuotaOutcome
quota_outcome used limit = record {
  allowed = not (limit == 0) && leb used limit;
  remaining = some (limit - used);
  limit = limit;
  degraded = false;
}

pub charge_locally : DegradedLimiter → List ℕ → ℕ → ℕ → ℕ → DegradedLimiter × QuotaOutcome
charge_locally l key limit ttl_secs now_secs =
    let (l', out) = charge l key (pos limit) ttl_secs now_secs in
    (l', record { allowed = out.allowed; remaining = none; limit = limit; degraded = true })

abbrev is_closed : BreakerState → Bool
is_closed closed = true
is_closed _ = false

-- Redis answered: leave degraded mode.
pub recovered : DegradedLimiter → ℕ → DegradedLimiter
recovered l now_ms = record_success (if is_closed (state l now_ms) then l else clear l)

-- The answer of Redis to the increment, when it was asked.
pub charge_answered :
    DegradedLimiter → List ℕ → ℕ → ℕ → ℕ → ℕ → Option ℕ → DegradedLimiter × QuotaOutcome
unfolding recovered
charge_answered l key limit ttl_secs now_ms now_secs (some used) =
    (recovered l now_ms, quota_outcome used limit)
charge_answered l key limit ttl_secs now_ms now_secs none =
    charge_locally (record_failure l now_ms).0 key limit ttl_secs now_secs

pub charge_window :
    DegradedLimiter → List ℕ → ℕ → ℕ → ℕ → ℕ → Option ℕ → DegradedLimiter × QuotaOutcome
unfolding charge_answered charge_locally quota_outcome
charge_window l key limit ttl_secs now_ms now_secs reply =
    if limit == 0
    then (l, quota_outcome 0 limit)
    else if should_skip_redis l now_ms
    then charge_locally l key limit ttl_secs now_secs
    else charge_answered l key limit ttl_secs now_ms now_secs reply

pub record FlagRow : Type 0 where
  pub is_banned : Bool
  pub ban_expires_at : Option ℕ
  pub is_flagged : Bool

-- What Redis replies to each command of a call; `none` is an error.
pub record Replies : Type 0 where
  pub ban_exists : Option Bool
  pub flag_exists : Option Bool
  pub ban_del : Option (Unit {0})
  pub blocks_is_member : Option Bool
  pub blocks_exists : Option Bool
  pub blocks_add : Option (Unit {0})
  pub blocks_expire : Option (Unit {0})
  pub msg_incr : Option ℕ
  pub user_msg_incr : Option ℕ
  pub own_copy_incr : Option ℕ

-- What Postgres replies.
pub record Rows : Type 0 where
  pub flags : Option (Option FlagRow)
  pub ban_cleared : Option (Unit {0})
  pub registered_at : Option (Option ℕ)
  pub blocked_devices : Option (List (List ℕ))

abbrev pub by_age : ℕ → TrustLevel
by_age hours = if ltb hours 48 then new else if ltb hours 168 then warming else trusted

-- Seconds since the epoch; `num_hours` of the difference.
abbrev level_of_registration : ℕ → Option ℕ → TrustLevel
level_of_registration now none = new
level_of_registration now (some created) = by_age ((now - created) / 3600)

pub age_based_level : Rows → ℕ → Option TrustLevel
age_based_level rows now = do created ← rows.registered_at; some (level_of_registration now created)

pub clear_ban : Replies → Rows → Option (Unit {0})
clear_ban r rows = do _ ← r.ban_del; rows.ban_cleared

abbrev ban_ended : Option ℕ → ℕ → Bool
ban_ended none now = false
ban_ended (some expires_at) now = ltb expires_at now

-- An expired ban is cleared first.
unbanned : Replies → Rows → ℕ → Option TrustLevel
unfolding age_based_level clear_ban
unbanned r rows now = do _ ← clear_ban r rows; age_based_level rows now

level_of_row : Replies → Rows → ℕ → Option FlagRow → Option TrustLevel
unfolding age_based_level unbanned
level_of_row r rows now none = age_based_level rows now
level_of_row r rows now (some row) =
    if row.is_banned
    then (if ban_ended row.ban_expires_at now then unbanned r rows now else some banned)
    else if row.is_flagged
    then some flagged
    else age_based_level rows now

-- A cache miss and a cache error both ask Postgres.
abbrev cached : Option Bool → Bool
cached none = false
cached (some b) = b

pub trust_level_inner : Replies → Rows → ℕ → Option TrustLevel
unfolding level_of_row
trust_level_inner r rows now =
    if cached r.ban_exists
    then some banned
    else if cached r.flag_exists
    then some flagged
    else rows.flags >>= λ row. level_of_row r rows now row

abbrev or_flagged : Option TrustLevel → TrustLevel
or_flagged none = flagged
or_flagged (some level) = level

pub trust_level : Replies → Rows → ℕ → TrustLevel
unfolding trust_level_inner
trust_level r rows now = or_flagged (trust_level_inner r rows now)

pub member : List ℕ → List (List ℕ) → Bool
member x [] = false
member x (y ∷ ys) = bytes_eq y x || member x ys

abbrev is_empty : List (List ℕ) → Bool
is_empty [] = true
is_empty (x ∷ xs) = false

pub is_blocked : Replies → Rows → List ℕ → Option Bool
unfolding member
is_blocked r rows target =
    if cached r.blocks_is_member
    then some true
    else r.blocks_exists >>= λ cache_exists.
        if cache_exists
        then some false
        else rows.blocked_devices >>= λ devices.
            (if is_empty devices then some tt else r.blocks_add) >>= λ _.
            r.blocks_expire >>= λ _. some (member target devices)

-- The keys of the windows of a device and of its user.
pub record Keys : Type 0 where
  pub device_key : List ℕ
  pub user_key : Option (List ℕ)
  pub own_copy_key : List ℕ

pub record Clock : Type 0 where
  pub now_ms : ℕ
  pub now_secs : ℕ

-- The user's window, when the caller named a user, by an id that is not empty.
pub check_user :
    DegradedLimiter
    → Replies
    → Option (List ℕ)
    → TrustLevel
    → Clock
    → DegradedLimiter × SendPermission
unfolding charge_window
check_user l r none trust clock = (l, permitted)
check_user l r (some user_key) trust clock =
    let (l', q) =
      charge_window l user_key (msg_limit_hour trust) msg_window_ttl clock.now_ms clock.now_secs
        r.user_msg_incr in
    (l', if q.allowed then permitted else denied user_limit 3600)

pub check_quotas :
    DegradedLimiter → Replies → Keys → TrustLevel → Clock → DegradedLimiter × SendPermission
unfolding check_user
check_quotas l r keys trust clock =
    let (l', q) =
      charge_window l keys.device_key (msg_limit_hour trust) msg_window_ttl clock.now_ms
        clock.now_secs r.msg_incr in
    if q.allowed then check_user l' r keys.user_key trust clock else (l', denied device_limit 3600)

abbrev is_banned_level : TrustLevel → Bool
is_banned_level banned = true
is_banned_level _ = false

pub check_unbanned :
    DegradedLimiter
    → Replies
    → Keys
    → TrustLevel
    → Clock
    → Option Bool
    → DegradedLimiter × Option SendPermission
unfolding check_quotas
check_unbanned l r keys trust clock none = (l, none)
check_unbanned l r keys trust clock (some true) = (l, some (denied blocked 0))
check_unbanned l r keys trust clock (some false) =
    let (l', p) = check_quotas l r keys trust clock in (l', some p)

-- `none` is the `Err` of the source.
pub check_send_permission :
    DegradedLimiter
    → Replies
    → Rows
    → Keys
    → List ℕ
    → Clock
    → DegradedLimiter × Option SendPermission
unfolding check_unbanned trust_level is_blocked
check_send_permission l r rows keys caller clock =
    let trust = trust_level r rows clock.now_secs in
    if is_banned_level trust
    then (l, some (denied device_banned 0))
    else check_unbanned l r keys trust clock (is_blocked r rows caller)

pub check_own_copy_permission :
    DegradedLimiter
    → Replies
    → Rows
    → Keys
    → List ℕ
    → Clock
    → DegradedLimiter × Option SendPermission
unfolding check_send_permission
check_own_copy_permission l r rows keys caller clock =
    let (l', q) =
      charge_window l keys.own_copy_key own_copy_limit_hour msg_window_ttl clock.now_ms
        clock.now_secs r.own_copy_incr in
    if has_own_copy_window (trust_level r rows clock.now_secs)
    then (l', some (if q.allowed then permitted else denied own_copy_limit 3600))
    else check_send_permission l r rows keys caller clock
