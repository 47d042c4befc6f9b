-- ===== src/Server/Stats.antt =====
-- The statistics for dashboards, server/app/routers/stats.py. Times are in microseconds; the order of
-- rows that a query leaves open is fixed.
pub mod Sums
mod Tests
use aiss_waf_server.Prelude.{
  ℕ, suc, ◌+◌, ◌-◌, ◌*◌, ◌/◌, Bool, true, false, ◌&&◌, ◌||◌, not, Option, none, some, List, [], ◌∷◌,
  length, take, map, ltb, leb, ◌==◌, is_empty, if◌then◌else◌,
}
use aiss_waf_server.Prelude.Text.{Text, codes, text_eq, upper}
use aiss_waf_server.Prelude.Dict.{Dict}
use aiss_waf_server.Prelude.Dict.{text_keys, nat_keys}
use aiss_waf_server.Prelude.Counts.{filter, count_by, order}
use aiss_waf_server.Agent.Floats.{Floats}

-- What the queries read of a row of security_events.
pub record Event : Type 0 where
  pub id : Text
  pub agent_id : Text
  pub client_ip : Text
  pub action : Text
  pub tier : ℕ
  pub cve_id : Text
  pub created_at : ℕ

abbrev pub hour : ℕ
hour = 60 * 60 * 1000000

-- created_at >= since and, where an agent is given, agent_id = agent; an empty one is none.
unfoldable pub is_counted : (since : ℕ) → Option Text → Event → Bool
is_counted since none e = leb since e.created_at
is_counted since (some []) e = leb since e.created_at
is_counted since (some (c ∷ agent)) e = leb since e.created_at && text_eq e.agent_id (c ∷ agent)

-- The same in the text of `get_timeline`, where only NULL is none.
unfoldable pub is_in_timeline : (since : ℕ) → Option Text → Event → Bool
is_in_timeline since none e = leb since e.created_at
is_in_timeline since (some agent) e = leb since e.created_at && text_eq e.agent_id agent

unfoldable pub is_blocked : Event → Bool
unfolding codes text_eq
is_blocked e = text_eq e.action (codes "BLOCK")

-- The greater count first.
abbrev pub is_less {ℓ} : {K : Type ℓ} → K × ℕ → K × ℕ → Bool
is_less a b = ltb a.1 b.1

abbrev pub is_after {ℓ} : {V : Type ℓ} → ℕ × V → ℕ × V → Bool
is_after a b = ltb b.0 a.0

pub record Summary (fl : Floats) : Type 0 where
  pub total_requests : ℕ
  pub total_blocked : ℕ
  pub total_permitted : ℕ
  pub block_rate_pct : fl.F
  pub top_cves : List (Text × ℕ)
  pub top_attacker_ips : List (Text × ℕ)
  pub blocks_by_tier : List (ℕ × ℕ)

-- round(blocked / total * 100, 2)
unfoldable pub block_rate : (fl : Floats) → (blocked total : ℕ) → fl.F
block_rate fl blocked total =
    if ltb 0 total
    then fl.round 2 (fl.mul (fl.div (fl.of_nat blocked) (fl.of_nat total)) (fl.of_nat 100))
    else fl.hundredths 0

-- The bounds that the endpoint declares for `hours`, 1 to 168, are left out: it is any number.
unfoldable pub get_summary : (fl : Floats) (now hours : ℕ) → Option Text → List Event → Summary fl
unfolding is_counted is_blocked block_rate codes
get_summary fl now hours agent events =
    let counted = filter (is_counted (now - hours * hour) agent) events in
    let blocked = filter is_blocked counted in
    record {
      total_requests = length counted;
      total_blocked = length blocked;
      total_permitted = length counted - length blocked;
      block_rate_pct = block_rate fl (length blocked) (length counted);
      top_cves = take 10 (
          order is_less (count_by (λ e. e.cve_id) (filter (λ e. not (is_empty e.cve_id)) counted)));
      top_attacker_ips = take 10 (order is_less (count_by (λ e. e.client_ip) blocked));
      blocks_by_tier = order is_after (count_by (λ e. e.tier) blocked);
    }

-- A bucket of the timeline.
pub record Bucket : Type 0 where
  pub total : ℕ
  pub blocked : ℕ

abbrev pub one_if : Bool → ℕ
one_if true = 1
one_if false = 0

unfoldable pub add_event : ℕ → Bool → Dict ℕ Bucket → Dict ℕ Bucket
add_event at is_block [] = (at, record { total = 1; blocked = one_if is_block }) ∷ []
add_event at is_block ((h, b) ∷ buckets) =
    if h == at
    then (h, record { total = suc b.total; blocked = one_if is_block + b.blocked }) ∷ buckets
    else (h, b) ∷ add_event at is_block buckets

unfoldable pub buckets_of : List Event → Dict ℕ Bucket
unfolding add_event is_blocked
buckets_of [] = []
buckets_of (e ∷ events) = add_event (e.created_at / hour) (is_blocked e) (buckets_of events)

-- The bounds that the endpoint declares for `hours` are left out here too.
unfoldable pub get_timeline : (now hours : ℕ) → Option Text → List Event → List (ℕ × Bucket)
unfolding is_in_timeline buckets_of
get_timeline now hours agent events =
    order is_after (buckets_of (filter (is_in_timeline (now - hours * hour) agent) events))

-- Newer first.
abbrev pub is_older : Event → Event → Bool
is_older a b = ltb a.created_at b.created_at

-- The answer to /events; an empty action is none.
unfoldable pub get_events : (limit : ℕ) → Option Text → List Event → List Event
get_events limit none events = take limit (order is_older events)
get_events limit (some []) events = take limit (order is_older events)
get_events limit (some (c ∷ action)) events =
    take limit (order is_older (filter (λ e. text_eq e.action (upper (c ∷ action))) events))
