-- ===== src/RateLimit/Examples.antt =====
-- The laws of rate limiting at concrete requests.
use a2a_comms.Common.{◌≡◌, refl, true, false, List, [], ◌∷◌}
use a2a_comms.RateLimit.{check_rate_limit, Bucket, RateLimitConfig}
use a2a_comms.RateLimit.Window.{fallback_agrees, let_through, window_lets_through, Arrival}

abbrev two_a_minute : RateLimitConfig
two_a_minute = record { window_ms = 60000; max_requests = 2 }

-- One request of k1 in a window that ends at 60000.
abbrev opened : Bucket
opened = record { key = "k1"; count = 1; reset_at = 60000 }

abbrev arrivals : List Arrival
arrivals =
    record { key = "k1"; at = 10 }
    ∷ record { key = "k2"; at = 15 }
    ∷ record { key = "k1"; at = 20 }
    ∷ []

fallback_agrees_example :
    ((check_rate_limit true "k1" two_a_minute 70000
        (record { table = opened ∷ []; fallback = [] })).0
      ≡ (check_rate_limit false "k1" two_a_minute 70000
          (record { table = []; fallback = opened ∷ [] })).0)
    × ((check_rate_limit true "k1" two_a_minute 70000
          (record { table = opened ∷ []; fallback = [] })).1.table
        ≡ (check_rate_limit false "k1" two_a_minute 70000
            (record { table = []; fallback = opened ∷ [] })).1.fallback)
fallback_agrees_example = fallback_agrees "k1" two_a_minute 70000 (opened ∷ [])

window_lets_through_example : let_through "k1" two_a_minute arrivals (opened ∷ []) ≡ 1
window_lets_through_example =
    window_lets_through "k1" two_a_minute arrivals (opened ∷ []) opened refl refl
