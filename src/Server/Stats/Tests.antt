-- ===== src/Server/Stats/Tests.antt =====
-- The statistics of two events.
use aiss_waf_server.Prelude.{ℕ, ◌≡◌, ◌≢◌, Option, none, some, List, [], ◌∷◌, arith}
use aiss_waf_server.Prelude.Text.{Text, codes, text_eq}
use aiss_waf_server.Prelude.Counts.{total}
use aiss_waf_server.Agent.Samples.{floats}
use aiss_waf_server.Server.Stats.{Event, get_summary, get_timeline}
use aiss_waf_server.Server.Stats.Sums.{
  sum_of, bucket_total, bucket_blocked, get_timeline-get_summary,
}

abbrev event : Text → ℕ → Event
event action created_at = record {
  id = [];
  agent_id = 7 ∷ [];
  client_ip = [];
  action = action;
  tier = 1;
  cve_id = [];
  created_at = created_at;
}

abbrev events : List Event
unfolding codes
events = event (codes "BLOCK") 7200000001 ∷ event [] 100 ∷ event (codes "BLOCK") 3600000005 ∷ []

abbrev unnamed : Option Text
unnamed = some []

other : none ≢ unnamed
other h = ground (arith, h)

get_timeline-get_summary_example :
    (sum_of bucket_total (get_timeline 7200000002 1 none events) ≡ 2)
    × (sum_of bucket_blocked (get_timeline 7200000002 1 none events) ≡ 2)
    × (total (λ c. c.1) (get_summary floats 7200000002 1 none events).blocks_by_tier ≡ 2)
unfolding get_summary text_eq codes
get_timeline-get_summary_example = get_timeline-get_summary floats 7200000002 1 none events other
