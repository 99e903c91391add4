-- ===== src/Sentinel/Outage.antt =====
-- crates/construct-sentinel-service/src/core.rs while Redis does not answer.
use construct_server.Base.{
  List, Option, none, ℕ, if◌then◌else◌, ◌≡◌, ◌≢◌, some, ◌&&◌, arith, false, not, refl,
}
use construct_server.RateLimit.{DegradedLimiter}
use construct_server.Sentinel.{
  TrustLevel, flagged, banned, FlagRow, Replies, Rows, Keys, Clock, ban_ended,
  level_of_registration, level_of_row, clear_ban, unbanned, age_based_level, trust_level_inner,
  trust_level, is_blocked, check_unbanned, check_send_permission, is_banned_level, List, Option,
  none,
}

-- Every command that the call sends to Redis fails.
abbrev pub down : Replies
down = record {
  ban_exists = none;
  flag_exists = none;
  ban_del = none;
  blocks_is_member = none;
  blocks_exists = none;
  blocks_add = none;
  blocks_expire = none;
  msg_incr = none;
  user_msg_incr = none;
  own_copy_incr = none;
}

pub not_banned : (t : TrustLevel) → t ≢ banned → is_banned_level t ≡ false
not_banned banned h = absurd (h refl)
not_banned _ h = refl

-- While Redis is down, the permission check of a device that is not banned is an error, whatever
-- the database says, and it charges no quota: the degraded limits are not reached.
pub check_send_permission-down :
    (l : DegradedLimiter) (rows : Rows) (keys : Keys) (caller : List ℕ) (clock : Clock)
    → trust_level down rows clock.now_secs ≢ banned
    → check_send_permission l down rows keys caller clock ≡ (l, none)
unfolding check_send_permission check_unbanned is_blocked
check_send_permission-down l rows keys caller clock free =
    rw (not_banned (trust_level down rows clock.now_secs) free) refl

-- What Postgres says of a device, with no cache in front.
abbrev pub row_level : FlagRow → Option ℕ → ℕ → TrustLevel
row_level row created now =
    if row.is_banned && not (ban_ended row.ban_expires_at now)
    then banned
    else if row.is_flagged && not row.is_banned
    then flagged
    else level_of_registration now created

-- While Redis is down, a device whose ban is not over, or that has none, has the level that
-- Postgres says; a device whose ban has expired is flagged instead, since clearing the ban fails.
pub trust_level-down :
    (rows : Rows) (row : FlagRow) (created : Option ℕ) (now : ℕ)
    → rows.flags ≡ some (some row)
    → rows.registered_at ≡ some created
    → trust_level down rows now ≡ (
        if row.is_banned && ban_ended row.ban_expires_at now
        then flagged
        else row_level row created now)
unfolding trust_level trust_level_inner level_of_row unbanned clear_ban age_based_level
trust_level-down rows row created now e f = ground (arith, e, f)

-- With an answering Redis that has nothing cached, the same device has the level that Postgres says.
pub trust_level-uncached :
    (r : Replies) (rows : Rows) (row : FlagRow) (created : Option ℕ) (now : ℕ)
    → r.ban_exists ≡ some false
    → r.flag_exists ≡ some false
    → r.ban_del ≡ some tt
    → rows.ban_cleared ≡ some tt
    → rows.flags ≡ some (some row)
    → rows.registered_at ≡ some created
    → trust_level r rows now ≡ row_level row created now
unfolding trust_level trust_level_inner level_of_row unbanned clear_ban age_based_level
trust_level-uncached r rows row created now b fl d c e f = ground (arith, b, fl, d, c, e, f)
