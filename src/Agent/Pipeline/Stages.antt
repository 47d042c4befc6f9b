-- ===== src/Agent/Pipeline/Stages.antt =====
-- The stages of agent/security/pipeline.py in turn, `check`.
use aiss_waf_server.Prelude.{ℕ, Option, none, some, ◌++◌, if◌then◌else◌}
use aiss_waf_server.Prelude.Text.{Text, codes}
use aiss_waf_server.Prelude.Dict.{string_eq}
use aiss_waf_server.Agent.Runtime.{Runtime}
use aiss_waf_server.Agent.Floats.{Floats}
use aiss_waf_server.Agent.Request.{Request}
use aiss_waf_server.Agent.Patterns
use aiss_waf_server.Agent.Patterns.{CvePattern}
use aiss_waf_server.Agent.Injection.{check_sqli, check_xss, extract_inputs}
use aiss_waf_server.Agent.Anomaly
use aiss_waf_server.Agent.Anomaly.{MlResult, MlAction}
use aiss_waf_server.Agent.Pipeline.Defs.{
  Verdict, HashStore, Pipeline, Event, is_static_file, build_scan_data, make_verdict, emit, permit,
}
use aiss_waf_server.Agent.Pipeline.Content.{content_stage}

module _ (rt : Runtime) (fl : Floats) (hs : HashStore) where
  unfoldable pub tier1_verdict : Pipeline fl → Request → ℕ → Option (Verdict fl)
  unfolding codes
  tier1_verdict p r ms = elim (Patterns.scan rt p.patterns (build_scan_data rt r)) [
    | none ↦ none
    | some c ↦ some (
        make_verdict fl p.mode 1 (some c.cve_id) none
          (codes "CVE pattern match: " ++ (c.name ++ (codes " — " ++ c.description)))
          (fl.hundredths 0) none ms)
  ]

  unfoldable pub xss_verdict : Pipeline fl → Request → ℕ → Option (Verdict fl)
  unfolding codes
  xss_verdict p r ms = elim (check_xss rt (extract_inputs rt r)) [
    | none ↦ none
    | some d ↦ some (
        make_verdict fl p.mode 2 (some (codes "GENERIC-XSS")) none d.detail (fl.hundredths 0) none
          ms)
  ]

  unfoldable pub tier2_verdict : Pipeline fl → Request → ℕ → Option (Verdict fl)
  unfolding codes xss_verdict
  tier2_verdict p r ms = elim (check_sqli rt (extract_inputs rt r)) [
    | none ↦ xss_verdict p r ms
    | some d ↦ some (
        make_verdict fl p.mode 2 (some (codes "GENERIC-SQLI")) none d.detail (fl.hundredths 0) none
          ms)
  ]

  unfoldable pub permit_verdict : Text → fl.F → ℕ → Verdict fl
  permit_verdict reason ml_score ms = record {
    action = permit;
    tier = 0;
    cve_id = none;
    rule_name = none;
    reason = reason;
    ml_score = ml_score;
    latency_ms = ms;
    sha256 = none;
  }

  unfoldable pub ml_verdict : Pipeline fl → MlAction → MlResult fl → ℕ → Verdict fl
  unfolding codes permit_verdict
  ml_verdict p MlAction.block m ms =
      make_verdict fl p.mode 3 none none
        (codes "ML anomaly score "
          ++ (fl.format 3 m.score
              ++ (codes " ≥ threshold " ++ (fl.show p.threshold ++ (codes ": " ++ m.reason)))))
        m.score none ms
  ml_verdict p _ m ms = permit_verdict (codes "All security checks passed") m.score ms

  unfoldable pub ml_stage : Pipeline fl → Request → ℕ → Verdict fl
  unfolding ml_verdict
  ml_stage p r ms = let m = Anomaly.score rt fl p.threshold r in ml_verdict p m.action m ms

  pub record Outcome : Type 0 where
    pub verdict : Verdict fl
    pub db : hs.Db
    pub emitted : Option (Event fl)

  unfoldable pub finish : Pipeline fl → Request → hs.Db → Verdict fl → Outcome
  finish p r db v = record { verdict = v; db = db; emitted = emit fl p r v }

  unfoldable pub late_stages : Pipeline fl → Request → ℕ → Option (Verdict fl) × hs.Db → Outcome
  unfolding finish
  late_stages p r ms (some v, db) = finish p r db v
  late_stages p r ms (none, db) = finish p r db (ml_stage p r ms)

  unfoldable pub check : Pipeline fl → Request → ℕ → hs.Db → Outcome
  unfolding codes permit_verdict finish late_stages
  check p r ms db =
      if is_static_file r.uri
      then record {
        verdict = permit_verdict (codes "Static file — skipped inspection") (fl.hundredths 0) ms;
        db = db;
        emitted = none;
      }
      else elim (tier1_verdict p r ms) [
        | some v ↦ finish p r db v
        | none ↦ elim (tier2_verdict p r ms) [
          | some v ↦ finish p r db v
          | none ↦ late_stages p r ms (content_stage rt fl hs p r ms db)
        ]
      ]
