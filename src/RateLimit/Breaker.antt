-- ===== src/RateLimit/Breaker.antt =====
-- crates/construct-rate-limit/src/degraded.rs, the circuit breaker over a run of Redis failures.
use construct_server.Base.{Bool, List, ℕ, suc, ◌∷◌, ◌≡◌, [], true, ◌<◌, false, ◌⊎◌, ◌≤◌}
use construct_server.RateLimit.{DegradedLimiter, record_failure, trip_threshold, Bool, List, ℕ}

abbrev pub count_true : Bool → ℕ → ℕ
count_true true n = suc n
count_true false n = n

-- A run of failures, each at its time, and how many of them reported that they opened the breaker.
pub fail_all : DegradedLimiter → List ℕ → DegradedLimiter × ℕ
fail_all l [] = (l, 0)
fail_all l (now ∷ times) =
    let (l', opened) = record_failure l now in
    let (l'', reports) = fail_all l' times in (l'', count_true opened reports)

-- The breaker has tripped exactly when the streak has reached the threshold.
abbrev Streak : ℕ → DegradedLimiter → Type 0
Streak n l =
    (l.consecutive_failures ≡ n)
    × (((n < trip_threshold) × (l.open_until_ms ≡ 0))
        ⊎ ((trip_threshold ≤ n) × (0 < l.open_until_ms)))
