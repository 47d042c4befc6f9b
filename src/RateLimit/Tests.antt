-- ===== src/RateLimit/Tests.antt =====
-- The theorems on the limiters at concrete calls.
use aiss_waf_server.Prelude.{ℕ, ◌+◌, ◌≤◌, ◌≡◌, some, List, [], ◌∷◌, arith}
use aiss_waf_server.Prelude.Text.{Text}
use aiss_waf_server.RateLimit.{new_limiter, Request, global, new_rate_limits}
use aiss_waf_server.RateLimit.History.{count_within, spec_run}
use aiss_waf_server.RateLimit.Refines.{run, run_refines}
use aiss_waf_server.RateLimit.Dispatch.{Arrival, reached, reached_bound}

abbrev calls : List (Text × ℕ)
calls = (7 ∷ [], 1) ∷ (7 ∷ [], 2) ∷ (7 ∷ [], 3) ∷ (8 ∷ [], 3) ∷ (7 ∷ [], 70) ∷ []

run_refines_example : (run (new_limiter 2 60) calls).0 ≡ (spec_run 2 60 [] calls).0
run_refines_example =
    run_refines 2 60 calls
      (omega arith, (omega arith, (omega arith, (omega arith, (omega arith, tt)))))

abbrev request : Request
request = record { headers = []; client_host = some (7 ∷ []); path = [] }

-- An application that counts the requests.
abbrev app : Request → ℕ → Text × ℕ
app r n = (r.path, n + 1)

abbrev arrivals : List Arrival
arrivals =
    record { request = request; now = 5; wall = 100 }
    ∷ record { request = request; now = 9; wall = 104 }
    ∷ []

reached_bound_example :
    count_within (7 ∷ []) 5 (5 + 60) (reached app global (new_rate_limits 60 1) 0 [] arrivals) ≤ 1
reached_bound_example =
    reached_bound app 60 1 global arrivals 0 (7 ∷ []) 5 (omega arith, (omega arith, tt))
