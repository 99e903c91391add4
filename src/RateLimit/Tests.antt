-- ===== src/RateLimit/Tests.antt =====
-- The degraded limiter at concrete inputs.
use construct_server.Base.{List, pos, ℕ, ◌∷◌, ◌≤◌, [], arith, ◌-◌, refl, ◌≡◌, ◌%◌}
use construct_server.RateLimit.{new, charge, fxhash, window_of, List, pos, ℕ, ◌∷◌}
use construct_server.RateLimit.Bounded.{IsBounded, new-IsBounded, charge-IsBounded}
use construct_server.RateLimit.Window.{used, Charged}
use construct_server.RateLimit.Budget.{charge-Charged}
use construct_server.RateLimit.Run.{Call, grants, window_budget, new-IsTable}

abbrev device : List ℕ
device = 100 ∷ 101 ∷ []

charge-IsBounded_example : IsBounded (charge new device (pos 2) 60 125).0
charge-IsBounded_example = charge-IsBounded new device (pos 2) 60 125 new-IsBounded

charge-Charged_example :
    Charged
      (fxhash device)
      2
      (window_of 60 125)
      new
      (charge new device (pos 2) 60 125).0
      (charge new device (pos 2) 60 125).1
charge-Charged_example = charge-Charged new device 2 60 125 new-IsTable (omega arith)

abbrev sent : ℕ → Call
sent now = record { key = device; limit = pos 2; window_secs = 60; now_secs = now }

three_calls : List Call
three_calls = sent 121 ∷ sent 122 ∷ sent 123 ∷ []

-- The shard that the key falls into, and its window.
hashed : fxhash device % 16 ≡ 2
unfolding fxhash
hashed = refl

window_budget_example : grants (fxhash device) new three_calls ≤ 2 - used new (fxhash device) 120
unfolding three_calls window_of
window_budget_example =
    window_budget (fxhash device) 2 120 three_calls new (omega arith) new-IsTable (
      record { same_window = refl; same_limit = λ _. refl },
      (
        record { same_window = refl; same_limit = λ _. refl },
        (record { same_window = refl; same_limit = λ _. refl }, tt),
      ),
    )
