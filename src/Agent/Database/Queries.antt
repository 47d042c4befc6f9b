-- ===== src/Agent/Database/Queries.antt =====
-- The reads of agent/db/duckdb_store.py that list rows: active signatures, recent events and the
-- statistics.
use aiss_waf_server.Prelude.{
  ℕ, ◌+◌, ◌-◌, ◌≡◌, refl, Bool, not, none, some, List, [], ◌∷◌, length, take, ltb, arith,
  Bool-cases, inl, inr,
}
use aiss_waf_server.Prelude.Text.{Text, codes, text_eq}
use aiss_waf_server.Prelude.Counts.{filter, bump, order}
use aiss_waf_server.Prelude.Dict.{Dict}
use aiss_waf_server.Prelude.Dict.{text_keys}
use aiss_waf_server.Agent.Database.{
  SignatureRow, EventRow, Tables, deactivate_signature, deactivate, execute,
}

length-filter :
    {A : Type 0} (p : A → Bool) (xs : List A)
    → length (filter p xs) + length (filter (λ a. not (p a)) xs) ≡ length xs
length-filter p [] = omega arith
length-filter p (x ∷ xs) = elim (Bool-cases (p x)) [
  | inl e ↦ rw e (omega (arith, length-filter p xs))
  | inr e ↦ rw e (omega (arith, length-filter p xs))
]

-- The greater key first; the order of rows with one key is not fixed.
abbrev pub is_less_by : {A : Type 0} → (A → ℕ) → A → A → Bool
is_less_by key a b = ltb (key a) (key b)

-- GROUP BY cve_id of the rows that have one, with the counts.
unfoldable pub count_cves : {F : Type 0} → List (ℕ × EventRow F) → Dict Text ℕ
unfolding bump
count_cves [] = []
count_cves ((at, e) ∷ rest) = elim e.cve_id [
  | none ↦ count_cves rest
  | some cve ↦ bump cve (count_cves rest)
]

pub record Stats : Type 0 where
  pub total_events : ℕ
  pub total_blocked : ℕ
  pub total_permitted : ℕ
  pub top_cves : List (Text × ℕ)

deactivate-filter :
    (cve : Text) (d : List (ℕ × SignatureRow))
    → filter (λ s. s.1.active) (deactivate cve d)
      ≡ filter (λ s. not (text_eq s.1.cve_id cve)) (filter (λ s. s.1.active) d)
unfolding deactivate
deactivate-filter cve [] = refl
deactivate-filter cve ((i, s) ∷ d) = ground (arith, deactivate-filter cve d)

module _ {F : Type 0} where
  unfoldable pub get_active_signatures : Tables F → List (ℕ × SignatureRow)
  get_active_signatures t = filter (λ s. s.1.active) t.cve_signatures

  -- `action` is the empty text for all actions.
  unfoldable pub get_recent_events : (limit : ℕ) (action : Text) → Tables F → List (ℕ × EventRow F)
  get_recent_events limit [] t = take limit (order (is_less_by (λ e. e.0)) t.security_events)
  get_recent_events limit (c ∷ action) t = take limit (
      order (is_less_by (λ e. e.0))
        (filter (λ e. text_eq e.1.action (c ∷ action)) t.security_events))

  abbrev pub is_blocked : ℕ × EventRow F → Bool
  is_blocked e = text_eq e.1.action (codes "BLOCK")

  unfoldable pub get_stats : Tables F → Stats
  unfolding count_cves
  get_stats t =
      let total = length t.security_events in
      let blocked = length (filter is_blocked t.security_events) in
      record {
        total_events = total;
        total_blocked = blocked;
        total_permitted = total - blocked;
        top_cves = take 5 (order (is_less_by (λ c. c.1)) (count_cves t.security_events));
      }

  -- The counts of the statistics: the permitted events are those that are not blocked.
  pub get_stats-permitted :
      (t : Tables F)
      → (get_stats t).total_permitted ≡ length (filter (λ e. not (is_blocked e)) t.security_events)
  unfolding get_stats
  get_stats-permitted t = omega (arith, length-filter is_blocked t.security_events)

  -- Once a CVE is deactivated, the active signatures are those before of other CVEs, in order.
  pub get_active_signatures-deactivate :
      (now : ℕ) (cve : Text) (t : Tables F)
      → get_active_signatures (execute now (deactivate_signature cve) t)
        ≡ filter (λ s. not (text_eq s.1.cve_id cve)) (get_active_signatures t)
  unfolding get_active_signatures execute
  get_active_signatures-deactivate now cve t = deactivate-filter cve t.cve_signatures
