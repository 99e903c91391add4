-- ===== src/Sentinel/Permission.antt =====
-- crates/construct-sentinel-service/src/core.rs, `check_send_permission` with an answering Redis.
use construct_server.Base.{
  true, Bool-cases, List, ℕ, ◌≡◌, some, arith, Bool, false, ◌≢◌, ◌<◌, if◌then◌else◌, refl, not, leb,
  inl, inr, Option,
}
use construct_server.RateLimit.{DegradedLimiter, should_skip_redis, state, closed}
use construct_server.Sentinel.Quota.{charge_window-answered}
use construct_server.Sentinel.Outage.{not_banned}
use construct_server.Sentinel.{
  banned, Replies, Rows, Keys, Clock, denied, device_banned, trust_level, check_send_permission,
  check_own_copy_permission, List, TrustLevel, is_blocked, msg_limit_hour, blocked, device_limit,
  permitted, user_limit, check_quotas, check_user, charge_window, check_unbanned, SendPermission,
}

-- A banned device is refused on both paths, and no window is charged.
pub banned_refused :
    (l : DegradedLimiter) (r : Replies) (rows : Rows) (keys : Keys) (caller : List ℕ)
    (clock : Clock)
    → trust_level r rows clock.now_secs ≡ banned
    → (check_send_permission l r rows keys caller clock ≡ (l, some (denied device_banned 0)))
      × (check_own_copy_permission l r rows keys caller clock ≡ (l, some (denied device_banned 0)))
unfolding check_send_permission check_own_copy_permission
banned_refused l r rows keys caller clock e = (ground (arith, e), ground (arith, e))

closed_not_skipped :
    (l : DegradedLimiter) (now_ms : ℕ)
    → state l now_ms ≡ closed
    → should_skip_redis l now_ms ≡ false
unfolding should_skip_redis
closed_not_skipped l now_ms e = rw e

limit_positive : (t : TrustLevel) → t ≢ banned → 0 < msg_limit_hour t
limit_positive banned h = absurd (h refl)
limit_positive _ h = omega arith

module _ (r : Replies) (keys : Keys) (t : TrustLevel) (clock : Clock) where
  device_step :
      (l : DegradedLimiter)
      → check_quotas l r keys t clock ≡ (
          let (l', q) =
            charge_window l keys.device_key
              (msg_limit_hour t)
              3600
              clock.now_ms
              clock.now_secs
              r.msg_incr in
          if q.allowed
          then check_user l' r keys.user_key t clock
          else (l', denied device_limit 3600))
  unfolding check_quotas
  device_step l = refl

  user_step :
      (l : DegradedLimiter) (user_key : List ℕ)
      → (check_user l r (some user_key) t clock).1 ≡ (
          if (charge_window l user_key
            (msg_limit_hour t)
            3600
            clock.now_ms
            clock.now_secs
            r.user_msg_incr).1.allowed
          then permitted
          else denied user_limit 3600)
  unfolding check_user
  user_step l user_key = refl

  -- A window of a device that is not banned, when Redis answers its increment.
  window_answered :
      (l : DegradedLimiter) (key : List ℕ) (reply : Option ℕ) (count : ℕ)
      → should_skip_redis l clock.now_ms ≡ false
      → t ≢ banned
      → reply ≡ some count
      → let (l', q) =
          charge_window l key (msg_limit_hour t) 3600 clock.now_ms clock.now_secs reply in
        (q.allowed ≡ leb count (msg_limit_hour t)) × (should_skip_redis l' clock.now_ms ≡ false)
  window_answered l key reply count shut free e =
      let answered =
        charge_window-answered l key (msg_limit_hour t) 3600 clock.now_ms clock.now_secs
          (limit_positive t free) count shut in
      rw e (answered.0, closed_not_skipped _ clock.now_ms answered.3)

  -- The two windows, when Redis answers both increments.
  check_quotas-answered :
      (l : DegradedLimiter) (user_key : List ℕ) (m u : ℕ)
      → should_skip_redis l clock.now_ms ≡ false
      → t ≢ banned
      → keys.user_key ≡ some user_key
      → r.msg_incr ≡ some m
      → r.user_msg_incr ≡ some u
      → (check_quotas l r keys t clock).1 ≡ (
          if not (leb m (msg_limit_hour t))
          then denied device_limit 3600
          else if leb u (msg_limit_hour t)
          then permitted
          else denied user_limit 3600)
  check_quotas-answered l user_key m u shut free k em eu =
      let first = window_answered l keys.device_key r.msg_incr m shut free em in
      let second = window_answered _ user_key r.user_msg_incr u first.1 free eu in
      rw (device_step l, k, first.0)
        elim (Bool-cases (leb m (msg_limit_hour t))) [
          | inl e ↦ rw (e, user_step _ user_key, second.0) refl
          | inr e ↦ rw e refl
        ]

permission_step :
    (l : DegradedLimiter) (r : Replies) (rows : Rows) (keys : Keys) (caller : List ℕ)
    (clock : Clock)
    → trust_level r rows clock.now_secs ≢ banned
    → check_send_permission l r rows keys caller clock
      ≡ check_unbanned l r keys (trust_level r rows clock.now_secs) clock (is_blocked r rows caller)
unfolding check_send_permission
permission_step l r rows keys caller clock free = rw (not_banned _ free) refl

unblocked_step :
    (l : DegradedLimiter) (r : Replies) (keys : Keys) (t : TrustLevel) (clock : Clock)
    (is_block : Bool) (p : SendPermission)
    → (check_quotas l r keys t clock).1 ≡ p
    → (check_unbanned l r keys t clock (some is_block)).1
      ≡ some (if is_block then denied blocked 0 else p)
unfolding check_unbanned
unblocked_step l r keys t clock true p e = refl
unblocked_step l r keys t clock false p e = rw e refl

-- With an answering Redis and a breaker that is not open, a device that is not banned is refused if
-- the target has blocked it; else by its own count of the hour, `m`, against the limit of its trust
-- level; else by the count `u` of its user against the same limit; and is permitted otherwise.
pub check_send_permission-answered :
    (l : DegradedLimiter) (r : Replies) (rows : Rows) (keys : Keys) (caller user_key : List ℕ)
    (clock : Clock) (m u : ℕ) (is_block : Bool)
    → should_skip_redis l clock.now_ms ≡ false
    → trust_level r rows clock.now_secs ≢ banned
    → is_blocked r rows caller ≡ some is_block
    → keys.user_key ≡ some user_key
    → r.msg_incr ≡ some m
    → r.user_msg_incr ≡ some u
    → let limit = msg_limit_hour (trust_level r rows clock.now_secs) in
      (check_send_permission l r rows keys caller clock).1
      ≡ some (
          if is_block
          then denied blocked 0
          else if not (leb m limit)
          then denied device_limit 3600
          else if leb u limit
          then permitted
          else denied user_limit 3600)
check_send_permission-answered l r rows keys caller user_key clock m u is_block shut free b k em
      eu =
    let trust = trust_level r rows clock.now_secs in
    let two = check_quotas-answered r keys trust clock l user_key m u shut free k em eu in
    rw (permission_step l r rows keys caller clock free, b)
      (unblocked_step l r keys trust clock is_block _ two)
