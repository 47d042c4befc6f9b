-- ===== src/Agent/Pipeline/Shadow.antt =====
-- Shadow mode against enforcement.
use mathlib.Core.Option
use aiss_waf_server.Prelude.{
  ℕ, ◌≡◌, refl, ap, true, false, Option, none, some, List, [], ◌∷◌, leb, length, not, ◌&&◌,
  is_empty, if◌then◌else◌, Bool-cases, Option-cases, inl, inr,
}
use aiss_waf_server.Prelude.Text.{Text, codes, text_eq}
use aiss_waf_server.Agent.Runtime.{Runtime}
use aiss_waf_server.Agent.Floats.{Floats}
use aiss_waf_server.Agent.Request.{Request}
use aiss_waf_server.Agent.Patterns
use aiss_waf_server.Agent.Injection.{check_sqli, check_xss, extract_inputs}
use aiss_waf_server.Agent.Anomaly
use aiss_waf_server.Agent.Anomaly.{MlResult, MlAction}
use aiss_waf_server.Agent.MagicBytes.{validate_content_type}
use aiss_waf_server.Agent.Yara
use aiss_waf_server.Agent.Yara.{Scanner}
use aiss_waf_server.Agent.Pipeline.Defs.{
  permit, block, Verdict, Cached, HashStore, Pipeline, Event, is_shadow, shadow_reason,
  full_scan_limit, sample_scan_limit, is_static_file, should_inspect_content, build_scan_data,
  make_verdict, emit,
}
use aiss_waf_server.Agent.Pipeline.Content.{
  cached_verdict, scan_target, mark_clean, scan_step, scan_targets, body_bytes, inspect_content,
  content_stage,
}
use aiss_waf_server.Agent.Pipeline.Stages.{
  tier1_verdict, xss_verdict, tier2_verdict, ml_verdict, ml_stage, permit_verdict, Outcome, finish,
  late_stages, check,
}

module _ (fl : Floats) where
  -- What shadow mode makes of a verdict.
  abbrev pub mask : Verdict fl → Verdict fl
  mask v = elim v.action [
    | permit ↦ v
    | block ↦ record v { action = permit; reason = shadow_reason v.reason }
  ]

  abbrev pub mask_event : Event fl → Event fl
  mask_event e = record e { verdict = mask e.verdict }

  abbrev pub in_shadow : Pipeline fl → Pipeline fl
  in_shadow p = record p { mode = codes "shadow" }

shadow-is_shadow : is_shadow (codes "shadow") ≡ true
unfolding codes text_eq
shadow-is_shadow = refl

module _ (rt : Runtime) (fl : Floats) (hs : HashStore) (mode : Text)
    (enforced : is_shadow mode ≡ false) where
  make_verdict-mask :
      (tier : ℕ) (cve_id rule_name : Option Text) (reason : Text) (ml_score : fl.F)
      (sha256 : Option Text) (ms : ℕ)
      → make_verdict fl (codes "shadow") tier cve_id rule_name reason ml_score sha256 ms
        ≡ mask fl (make_verdict fl mode tier cve_id rule_name reason ml_score sha256 ms)
  unfolding make_verdict
  make_verdict-mask tier cve_id rule_name reason ml_score sha256 ms =
      rw (shadow-is_shadow, enforced)

  cached_verdict-mask :
      (sha : Text) (ms : ℕ) (c : Cached)
      → cached_verdict rt fl hs (codes "shadow") sha ms c
        ≡ Option.map (mask fl) (cached_verdict rt fl hs mode sha ms c)
  unfolding cached_verdict
  cached_verdict-mask sha ms c = elim (Bool-cases c.malicious) [
    | inl e ↦ rw e (ap some (make_verdict-mask 4 none c.threat_name _ _ _ ms))
    | inr e ↦ rw e
  ]

  abbrev mask_named : Option Text × Verdict fl → Option Text × Verdict fl
  mask_named (name, v) = (name, mask fl v)

  scan_target-mask :
      (scanner : Scanner) (content_type : Text) (ms : ℕ) (target : Text)
      → scan_target rt fl hs (codes "shadow") scanner content_type ms target
        ≡ Option.map mask_named (scan_target rt fl hs mode scanner content_type ms target)
  unfolding scan_target
  scan_target-mask scanner content_type ms target =
      elim (Bool-cases (validate_content_type target content_type).should_block) [
        | inl e ↦ rw e (
            ap (λ v. some (some (validate_content_type target content_type).reason, v))
              (make_verdict-mask 4 none none _ _ _ ms))
        | inr e ↦
            rw e
              (elim (Option-cases
                (if Yara.is_ready scanner then Yara.scan scanner target else none)) [
                  | inl n ↦ rw n
                  | inr (y, found) ↦ rw found (
                      ap (λ v. some (some y.rule_name, v))
                        (make_verdict-mask 4 none (some y.rule_name) _ _ _ ms))
                ])
      ]

  abbrev mask_found : Option (Verdict fl) × hs.Db → Option (Verdict fl) × hs.Db
  mask_found (v, db) = (Option.map (mask fl) v, db)

  scan_step-mask :
      (sha : Text) (ms : ℕ) (db : hs.Db) (cached : Option Cached)
      (scanned : Option (Option Text × Verdict fl)) (rest : Option (Verdict fl) × hs.Db)
      → scan_step rt fl hs
          (codes "shadow")
          sha
          ms
          db
          cached
          (Option.map mask_named scanned)
          (mask_found rest)
        ≡ mask_found (scan_step rt fl hs mode sha ms db cached scanned rest)
  unfolding scan_step
  scan_step-mask sha ms db (some cached) scanned rest =
      ap (λ v. (v, db)) (cached_verdict-mask sha ms cached)
  scan_step-mask sha ms db none (some (name, v)) rest = refl
  scan_step-mask sha ms db none none rest = refl

  scan_targets-mask :
      (scanner : Scanner) (content_type : Text) (ms : ℕ) (db : hs.Db) (targets : List Text)
      → scan_targets rt fl hs (codes "shadow") scanner content_type ms db targets
        ≡ mask_found (scan_targets rt fl hs mode scanner content_type ms db targets)
  unfolding scan_targets
  scan_targets-mask scanner content_type ms db [] = refl
  scan_targets-mask scanner content_type ms db ([] ∷ targets) =
      scan_targets-mask scanner content_type ms db targets
  scan_targets-mask scanner content_type ms db ((c ∷ t) ∷ targets) =
      rw
        (
          scan_target-mask scanner content_type ms (c ∷ t),
          scan_targets-mask scanner content_type ms (mark_clean rt fl hs db (rt.sha256 (c ∷ t)))
              targets,
        )
        (scan_step-mask (rt.sha256 (c ∷ t)) ms db (hs.get_file_hash db (rt.sha256 (c ∷ t))) _ _)

module _ (rt : Runtime) (fl : Floats) (hs : HashStore) (p : Pipeline fl)
    (enforced : is_shadow p.mode ≡ false) where
  abbrev pub mask_outcome : Outcome rt fl hs → Outcome rt fl hs
  mask_outcome o = record {
    verdict = mask fl o.verdict;
    db = o.db;
    emitted = Option.map (mask_event fl) o.emitted;
  }

  inspect_content-mask :
      (body content_type : Text) (ms : ℕ) (db : hs.Db)
      → inspect_content rt fl hs (in_shadow fl p) body content_type ms db
        ≡ mask_found rt fl hs p.mode enforced (inspect_content rt fl hs p body content_type ms db)
  unfolding inspect_content
  inspect_content-mask body content_type ms db =
      elim (Bool-cases (leb (length body) full_scan_limit)) [
        | inl e ↦ rw e (scan_targets-mask rt fl hs p.mode enforced p.scanner content_type ms db _)
        | inr e ↦ rw e (elim (Bool-cases (leb (length body) sample_scan_limit)) [
          | inl s ↦ rw s (scan_targets-mask rt fl hs p.mode enforced p.scanner content_type ms db _)
          | inr s ↦ rw s
        ])
      ]

  content_stage-mask :
      (r : Request) (ms : ℕ) (db : hs.Db)
      → content_stage rt fl hs (in_shadow fl p) r ms db
        ≡ mask_found rt fl hs p.mode enforced (content_stage rt fl hs p r ms db)
  unfolding content_stage
  content_stage-mask r ms db =
      elim (Bool-cases
        (not (is_empty (body_bytes rt fl hs r.body)) && should_inspect_content r.content_type)) [
          | inl e ↦ rw e (inspect_content-mask _ r.content_type ms db)
          | inr e ↦ rw e
        ]

  tier1_verdict-mask :
      (r : Request) (ms : ℕ)
      → tier1_verdict rt fl hs (in_shadow fl p) r ms
        ≡ Option.map (mask fl) (tier1_verdict rt fl hs p r ms)
  unfolding tier1_verdict
  tier1_verdict-mask r ms =
      elim (Option-cases (Patterns.scan rt p.patterns (build_scan_data rt r))) [
        | inl e ↦ rw (e, tier1_verdict)
        | inr (c, e) ↦
            rw (e, tier1_verdict)
              (ap some (make_verdict-mask rt fl hs p.mode enforced 1 _ _ _ _ _ ms))
      ]

  xss_verdict-mask :
      (r : Request) (ms : ℕ)
      → xss_verdict rt fl hs (in_shadow fl p) r ms
        ≡ Option.map (mask fl) (xss_verdict rt fl hs p r ms)
  unfolding xss_verdict
  xss_verdict-mask r ms = elim (Option-cases (check_xss rt (extract_inputs rt r))) [
    | inl e ↦ rw (e, xss_verdict)
    | inr (c, e) ↦
        rw (e, xss_verdict) (ap some (make_verdict-mask rt fl hs p.mode enforced 2 _ _ _ _ _ ms))
  ]

  tier2_verdict-mask :
      (r : Request) (ms : ℕ)
      → tier2_verdict rt fl hs (in_shadow fl p) r ms
        ≡ Option.map (mask fl) (tier2_verdict rt fl hs p r ms)
  unfolding tier2_verdict
  tier2_verdict-mask r ms = elim (Option-cases (check_sqli rt (extract_inputs rt r))) [
    | inl e ↦ rw (e, tier2_verdict) (xss_verdict-mask r ms)
    | inr (c, e) ↦
        rw (e, tier2_verdict) (ap some (make_verdict-mask rt fl hs p.mode enforced 2 _ _ _ _ _ ms))
  ]

  ml_verdict-mask :
      (a : MlAction) (m : MlResult fl) (ms : ℕ)
      → ml_verdict rt fl hs (in_shadow fl p) a m ms ≡ mask fl (ml_verdict rt fl hs p a m ms)
  unfolding ml_verdict permit_verdict
  ml_verdict-mask MlAction.block m ms = make_verdict-mask rt fl hs p.mode enforced 3 _ _ _ _ _ ms
  ml_verdict-mask _ m ms = refl

  finish-mask :
      (r : Request) (db : hs.Db) (v : Verdict fl)
      → finish rt fl hs (in_shadow fl p) r db (mask fl v) ≡ mask_outcome (finish rt fl hs p r db v)
  unfolding finish emit
  finish-mask r db v = elim (Bool-cases p.has_telemetry) [ inl e ↦ rw e | inr e ↦ rw e ]

  late_stages-mask :
      (r : Request) (ms : ℕ) (found : Option (Verdict fl) × hs.Db)
      → late_stages rt fl hs (in_shadow fl p) r ms (mask_found rt fl hs p.mode enforced found)
        ≡ mask_outcome (late_stages rt fl hs p r ms found)
  unfolding late_stages ml_stage
  late_stages-mask r ms (some v, db) = finish-mask r db v
  late_stages-mask r ms (none, db) =
      rw (ml_verdict-mask _ (Anomaly.score rt fl p.threshold r) ms) (finish-mask r db _)

  -- For a pipeline that is not in shadow mode: on every request, with the mode set to shadow, it
  -- decides, caches and reports as it does without, except that a
  -- block becomes a permit whose reason says what would have been blocked.
  pub check-in_shadow :
      (r : Request) (ms : ℕ) (db : hs.Db)
      → check rt fl hs (in_shadow fl p) r ms db ≡ mask_outcome (check rt fl hs p r ms db)
  unfolding check permit_verdict
  check-in_shadow r ms db = elim (Bool-cases (is_static_file r.uri)) [
    | inl e ↦ rw e
    | inr e ↦
        rw (e, tier1_verdict-mask r ms)
          (elim (Option-cases (tier1_verdict rt fl hs p r ms)) [
            | inr (v, found) ↦ rw found (finish-mask r db v)
            | inl n ↦
                rw (n, tier2_verdict-mask r ms)
                  (elim (Option-cases (tier2_verdict rt fl hs p r ms)) [
                    | inr (v, found) ↦ rw found (finish-mask r db v)
                    | inl m ↦ rw (m, content_stage-mask r ms db) (late_stages-mask r ms _)
                  ])
          ])
  ]
