-- ===== src/Sentinel/Quota.antt =====
-- crates/construct-sentinel-service/src/core.rs, `charge_window`: who counts, and what is allowed.
use construct_server.Base.{
  List, ℕ, ◌<◌, Option, none, ◌≡◌, false, if◌then◌else◌, true, arith, pos, some, leb, ◌-◌, refl,
}
use construct_server.RateLimit.{
  DegradedLimiter, closed, state, should_skip_redis, record_success, record_failure, charge, clear,
}
use construct_server.Sentinel.{
  quota_outcome, charge_locally, recovered, charge_answered, charge_window, List,
}

module _ (l : DegradedLimiter) (key : List ℕ) (limit ttl_secs now_ms now_secs : ℕ)
    (positive : 0 < limit) where
  -- While the breaker is open the reply of Redis is not looked at.
  skipped :
      (reply : Option ℕ)
      → should_skip_redis l now_ms ≡ true
      → charge_window l key limit ttl_secs now_ms now_secs reply
        ≡ charge_locally l key limit ttl_secs now_secs
  unfolding charge_window
  skipped reply skips = ground (arith, skips)

  -- Otherwise it is asked.
  asked :
      (reply : Option ℕ)
      → should_skip_redis l now_ms ≡ false
      → charge_window l key limit ttl_secs now_ms now_secs reply
        ≡ charge_answered l key limit ttl_secs now_ms now_secs reply
  unfolding charge_window
  asked reply shut = ground (arith, shut)

  -- When Redis answers, its count decides: the event with the count `limit` is the last one that
  -- passes; what remains is exact; and the breaker is closed afterwards, its failures forgotten.
  pub charge_window-answered :
      (count : ℕ)
      → should_skip_redis l now_ms ≡ false
      → let (l', q) = charge_window l key limit ttl_secs now_ms now_secs (some count) in
        (q.allowed ≡ leb count limit)
        × (q.remaining ≡ some (limit - count))
        × (q.degraded ≡ false)
        × (state l' now_ms ≡ closed)
        × (l'.consecutive_failures ≡ 0)
  unfolding charge_answered recovered quota_outcome state record_success clear
  charge_window-answered count shut =
      rw (asked (some count) shut) (ground arith, refl, refl, refl, refl)

  -- When Redis is not asked or does not answer, nothing is denied for that: the verdict is the one
  -- of the local table, it is marked as degraded, and no figure is reported.
  pub charge_window-degraded :
      let (l', q) = charge_window l key limit ttl_secs now_ms now_secs none in
      let before = if should_skip_redis l now_ms then l else (record_failure l now_ms).0 in
      let (after, out) = charge before key (pos limit) ttl_secs now_secs in
      (l' ≡ after) × (q.allowed ≡ out.allowed) × (q.remaining ≡ none) × (q.degraded ≡ true)
  unfolding charge_window charge_answered charge_locally
  charge_window-degraded = ground arith
