-- ===== src/Server/Stats/Sums.antt =====
-- The timeline and the summary of server/app/routers/stats.py count the same events.
use aiss_waf_server.Prelude.{
  ℕ, suc, ◌+◌, ◌-◌, ◌*◌, ◌/◌, ◌≡◌, ◌≢◌, refl, ap, ◌∙◌, Bool, true, false, Option, none, some, List,
  [], ◌∷◌, length, ◌==◌, Bool-cases, inl, inr, arith, if◌then◌else◌,
}
use aiss_waf_server.Prelude.Text.{Text}
use aiss_waf_server.Prelude.Dict.{Dict}
use aiss_waf_server.Prelude.Dict.{text_keys, nat_keys}
use aiss_waf_server.Prelude.Counts.{filter, total-count_by, total, total-order}
use aiss_waf_server.Agent.Floats.{Floats}
use aiss_waf_server.Server.Stats.{
  Event, Bucket, hour, is_counted, is_in_timeline, is_blocked, is_after, get_summary, get_timeline,
  one_if, add_event, buckets_of,
}

abbrev pub bucket_total : ℕ × Bucket → ℕ
bucket_total b = b.1.total

abbrev pub bucket_blocked : ℕ × Bucket → ℕ
bucket_blocked b = b.1.blocked

-- The sums of a list of buckets.
abbrev pub sum_of : (ℕ × Bucket → ℕ) → List (ℕ × Bucket) → ℕ
sum_of = total

add_event-total :
    (at : ℕ) (b : Bool) (d : Dict ℕ Bucket)
    → sum_of bucket_total (add_event at b d) ≡ suc (sum_of bucket_total d)
unfolding add_event
add_event-total at b [] = omega arith
add_event-total at b ((h, x) ∷ d) = elim (Bool-cases (h == at)) [
  | inl q ↦ rw q (omega arith)
  | inr q ↦ rw q (omega (arith, add_event-total at b d))
]

add_event-blocked :
    (at : ℕ) (b : Bool) (d : Dict ℕ Bucket)
    → sum_of bucket_blocked (add_event at b d) ≡ one_if b + sum_of bucket_blocked d
unfolding add_event
add_event-blocked at b [] = omega arith
add_event-blocked at b ((h, x) ∷ d) = elim (Bool-cases (h == at)) [
  | inl q ↦ rw q (omega arith)
  | inr q ↦ rw q (omega (arith, add_event-blocked at b d))
]

buckets_of-total : (es : List Event) → sum_of bucket_total (buckets_of es) ≡ length es
unfolding buckets_of
buckets_of-total [] = omega arith
buckets_of-total (e ∷ es) = omega (
  arith,
  add_event-total (e.created_at / hour) (is_blocked e) (buckets_of es),
  buckets_of-total es,
)

length-filter_cons :
    (b : Bool) (e : Event) (es : List Event)
    → length (if b then e ∷ es else es) ≡ one_if b + length es
length-filter_cons true e es = omega arith
length-filter_cons false e es = omega arith

buckets_of-blocked :
    (es : List Event) → sum_of bucket_blocked (buckets_of es) ≡ length (filter is_blocked es)
unfolding buckets_of
buckets_of-blocked [] = omega arith
buckets_of-blocked (e ∷ es) = omega (
  arith,
  add_event-blocked (e.created_at / hour) (is_blocked e) (buckets_of es),
  buckets_of-blocked es,
  length-filter_cons (is_blocked e) e (filter is_blocked es),
)

-- The two tests of a row agree unless the name of the agent is empty.
is_in_timeline-is_counted :
    (since : ℕ) (agent : Option Text) (e : Event)
    → agent ≢ some []
    → is_in_timeline since agent e ≡ is_counted since agent e
unfolding is_in_timeline is_counted
is_in_timeline-is_counted since none e h = refl
is_in_timeline-is_counted since (some []) e h = absurd (h refl)
is_in_timeline-is_counted since (some (c ∷ agent)) e h = refl

filter-same :
    (p q : Event → Bool) (es : List Event) → ((e : Event) → p e ≡ q e) → filter p es ≡ filter q es
filter-same p q [] h = refl
filter-same p q (e ∷ es) h = rw (h e, filter-same p q es h) refl

-- At one time, for one window and an agent that is not the empty text: the buckets of the timeline
-- add up to the requests of the summary and their blocks to its blocks, which are also those of the
-- tiers together.
pub get_timeline-get_summary :
    (fl : Floats) (now hours : ℕ) (agent : Option Text) (events : List Event)
    → agent ≢ some []
    → (sum_of bucket_total (get_timeline now hours agent events)
        ≡ (get_summary fl now hours agent events).total_requests)
      × (sum_of bucket_blocked (get_timeline now hours agent events)
          ≡ (get_summary fl now hours agent events).total_blocked)
      × (total (λ c. c.1) (get_summary fl now hours agent events).blocks_by_tier
          ≡ (get_summary fl now hours agent events).total_blocked)
unfolding get_timeline get_summary
get_timeline-get_summary fl now hours agent events h =
    let since = now - hours * hour in
    let counted = filter (is_counted since agent) events in
    let same =
      filter-same (is_in_timeline since agent) (is_counted since agent) events
        (λ e. is_in_timeline-is_counted since agent e h) in
    (
      total-order is_after bucket_total _
          ∙ (buckets_of-total (filter (is_in_timeline since agent) events) ∙ ap length same),
      total-order is_after bucket_blocked _
          ∙ (buckets_of-blocked (filter (is_in_timeline since agent) events)
              ∙ ap (λ es. length (filter is_blocked es)) same),
      total-order is_after (λ c. c.1) _ ∙ total-count_by (λ e. e.tier) (filter is_blocked counted),
    )
