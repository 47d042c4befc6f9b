-- ===== src/Agent/Pipeline/Blocks.antt =====
-- When the pipeline blocks, and what it then emits.
use aiss_waf_server.Prelude.{
  ℕ, ◌≡◌, refl, true, false, Bool, ◌&&◌, ◌||◌, not, Option, none, some, List, [], ◌∷◌, leb, length,
  is_some, is_empty, if◌then◌else◌, Bool-cases, Option-cases, inl, inr,
}
use aiss_waf_server.Prelude.Text.{Text}
use aiss_waf_server.Agent.Runtime.{Runtime}
use aiss_waf_server.Agent.Floats.{Floats}
use aiss_waf_server.Agent.Request.{Request}
use aiss_waf_server.Agent.Patterns
use aiss_waf_server.Agent.Injection.{check_sqli, check_xss, extract_inputs}
use aiss_waf_server.Agent.Anomaly
use aiss_waf_server.Agent.Anomaly.{MlResult, MlAction}
use aiss_waf_server.Agent.MagicBytes.{validate_content_type}
use aiss_waf_server.Agent.Yara
use aiss_waf_server.Agent.Yara.{Scanner}
use aiss_waf_server.Agent.Pipeline.Defs.{
  Action, permit, block, Verdict, Cached, HashStore, Pipeline, is_shadow, full_scan_limit,
  sample_scan_limit, is_static_file, should_inspect_content, build_scan_data, make_verdict,
}
use aiss_waf_server.Agent.Pipeline.Content.{
  cached_verdict, scan_target, mark_clean, scan_step, scan_targets, body_bytes, inspect_content,
  content_stage,
}
use aiss_waf_server.Agent.Pipeline.Stages.{
  tier1_verdict, xss_verdict, tier2_verdict, ml_verdict, ml_stage, permit_verdict, Outcome, finish,
  late_stages, check,
}

abbrev pub is_block : MlAction → Bool
is_block MlAction.block = true
is_block _ = false

module _ (rt : Runtime) (fl : Floats) (hs : HashStore) where
  -- Some tier finds a threat: the tiers as a disjunction, with no order and no early return.
  abbrev pub finds_threat : Pipeline fl → Request → ℕ → hs.Db → Bool
  finds_threat p r ms db =
      is_some (Patterns.scan rt p.patterns (build_scan_data rt r))
      || ((is_some (check_sqli rt (extract_inputs rt r))
            || is_some (check_xss rt (extract_inputs rt r)))
          || (is_some (content_stage rt fl hs p r ms db).0
              || is_block (Anomaly.score rt fl p.threshold r).action))

  abbrev pub blocking : Text → Action
  blocking mode = if is_shadow mode then permit else block

  abbrev AllBlock : Text → Option (Verdict fl) → Type 0
  AllBlock mode none = Unit
  AllBlock mode (some v) = v.action ≡ blocking mode

  abbrev NamedBlock : Text → Option (Option Text × Verdict fl) → Type 0
  NamedBlock mode none = Unit
  NamedBlock mode (some (name, v)) = v.action ≡ blocking mode

  cached_verdict-AllBlock :
      (mode sha : Text) (ms : ℕ) (c : Cached)
      → AllBlock mode (cached_verdict rt fl hs mode sha ms c)
  unfolding cached_verdict make_verdict
  cached_verdict-AllBlock mode sha ms c = elim (Bool-cases c.malicious) [
    | inl e ↦ rw e refl
    | inr e ↦ rw e tt
  ]

  scan_target-NamedBlock :
      (mode : Text) (scanner : Scanner) (content_type : Text) (ms : ℕ) (target : Text)
      → NamedBlock mode (scan_target rt fl hs mode scanner content_type ms target)
  unfolding scan_target make_verdict
  scan_target-NamedBlock mode scanner content_type ms target =
      elim (Bool-cases (validate_content_type target content_type).should_block) [
        | inl e ↦ rw e refl
        | inr e ↦
            rw e
              (elim (Option-cases
                (if Yara.is_ready scanner then Yara.scan scanner target else none)) [
                  | inl n ↦ rw n tt
                  | inr (y, found) ↦ rw found refl
                ])
      ]

  scan_step-AllBlock :
      (mode sha : Text) (ms : ℕ) (db : hs.Db) (cached : Option Cached)
      (scanned : Option (Option Text × Verdict fl)) (rest : Option (Verdict fl) × hs.Db)
      → NamedBlock mode scanned
      → AllBlock mode rest.0
      → AllBlock mode (scan_step rt fl hs mode sha ms db cached scanned rest).0
  unfolding scan_step
  scan_step-AllBlock mode sha ms db (some cached) scanned rest h k =
      cached_verdict-AllBlock mode sha ms cached
  scan_step-AllBlock mode sha ms db none (some (name, v)) rest h k = h
  scan_step-AllBlock mode sha ms db none none rest h k = k

  scan_targets-AllBlock :
      (mode : Text) (scanner : Scanner) (content_type : Text) (ms : ℕ) (db : hs.Db)
      (targets : List Text)
      → AllBlock mode (scan_targets rt fl hs mode scanner content_type ms db targets).0
  unfolding scan_targets
  scan_targets-AllBlock mode scanner content_type ms db [] = tt
  scan_targets-AllBlock mode scanner content_type ms db ([] ∷ targets) =
      scan_targets-AllBlock mode scanner content_type ms db targets
  scan_targets-AllBlock mode scanner content_type ms db ((c ∷ t) ∷ targets) =
      scan_step-AllBlock mode (rt.sha256 (c ∷ t)) ms db _ _ _
        (scan_target-NamedBlock mode scanner content_type ms (c ∷ t))
        (scan_targets-AllBlock mode scanner content_type ms
          (mark_clean rt fl hs db (rt.sha256 (c ∷ t))) targets)

  content_stage-AllBlock :
      (p : Pipeline fl) (r : Request) (ms : ℕ) (db : hs.Db)
      → AllBlock p.mode (content_stage rt fl hs p r ms db).0
  unfolding content_stage inspect_content
  content_stage-AllBlock p r ms db =
      elim (Bool-cases
        (not (is_empty (body_bytes rt fl hs r.body)) && should_inspect_content r.content_type)) [
          | inr e ↦ rw e tt
          | inl e ↦
              rw e (elim (Bool-cases (leb (length (body_bytes rt fl hs r.body)) full_scan_limit)) [
                | inl f ↦ rw f (scan_targets-AllBlock p.mode p.scanner r.content_type ms db _)
                | inr f ↦
                    rw f
                      (elim (Bool-cases
                        (leb (length (body_bytes rt fl hs r.body)) sample_scan_limit)) [
                          | inl s ↦
                              rw s (scan_targets-AllBlock p.mode p.scanner r.content_type ms db _)
                          | inr s ↦ rw s tt
                        ])
              ])
        ]

  ml_verdict-action :
      (p : Pipeline fl) (a : MlAction) (m : MlResult fl) (ms : ℕ)
      → (ml_verdict rt fl hs p a m ms).action ≡ (if is_block a then blocking p.mode else permit)
  unfolding ml_verdict permit_verdict make_verdict
  ml_verdict-action p MlAction.block m ms = refl
  ml_verdict-action p _ m ms = refl

  late_stages-action :
      (p : Pipeline fl) (r : Request) (ms : ℕ) (found : Option (Verdict fl) × hs.Db)
      → AllBlock p.mode found.0
      → (late_stages rt fl hs p r ms found).verdict.action ≡ (
          if is_some found.0 || is_block (Anomaly.score rt fl p.threshold r).action
          then blocking p.mode
          else permit)
  unfolding late_stages finish ml_stage
  late_stages-action p r ms (some v, db) h = h
  late_stages-action p r ms (none, db) h =
      ml_verdict-action p _ (Anomaly.score rt fl p.threshold r) ms

  tier1_action :
      (p : Pipeline fl) (r : Request) (ms : ℕ)
      → AllBlock p.mode (tier1_verdict rt fl hs p r ms)
        × (is_some (tier1_verdict rt fl hs p r ms)
            ≡ is_some (Patterns.scan rt p.patterns (build_scan_data rt r)))
  unfolding tier1_verdict make_verdict
  tier1_action p r ms = elim (Option-cases (Patterns.scan rt p.patterns (build_scan_data rt r))) [
    | inl e ↦ rw (e, tier1_verdict) (tt, refl)
    | inr (c, e) ↦ rw (e, tier1_verdict) (refl, refl)
  ]

  tier2_action :
      (p : Pipeline fl) (r : Request) (ms : ℕ)
      → AllBlock p.mode (tier2_verdict rt fl hs p r ms)
        × (is_some (tier2_verdict rt fl hs p r ms) ≡ (
            is_some (check_sqli rt (extract_inputs rt r))
            || is_some (check_xss rt (extract_inputs rt r))))
  unfolding tier2_verdict xss_verdict make_verdict
  tier2_action p r ms = elim (Option-cases (check_sqli rt (extract_inputs rt r))) [
    | inr (d, e) ↦ rw (e, tier2_verdict) (refl, refl)
    | inl e ↦
        rw (e, tier2_verdict)
          (elim (Option-cases (check_xss rt (extract_inputs rt r))) [
            | inl x ↦ rw (x, xss_verdict) (tt, refl)
            | inr (d, x) ↦ rw (x, xss_verdict) (refl, refl)
          ])
  ]

  -- The stages one after the other.
  abbrev staged :
      Pipeline fl
      → Request
      → hs.Db
      → Option (Verdict fl)
      → Option (Verdict fl)
      → Outcome rt fl hs
      → Outcome rt fl hs
  staged p r db (some v) second late = finish rt fl hs p r db v
  staged p r db none (some v) late = finish rt fl hs p r db v
  staged p r db none none late = late

  staged-action :
      (p : Pipeline fl) (r : Request) (db : hs.Db) (first second : Option (Verdict fl))
      (late : Outcome rt fl hs) (threat : Bool)
      → AllBlock p.mode first
      → AllBlock p.mode second
      → late.verdict.action ≡ (if threat then blocking p.mode else permit)
      → (staged p r db first second late).verdict.action
        ≡ (if is_some first || (is_some second || threat) then blocking p.mode else permit)
  unfolding finish
  staged-action p r db (some v) second late threat h k l = h
  staged-action p r db none (some v) late threat h k l = k
  staged-action p r db none none late threat h k l = l

  check-staged :
      (p : Pipeline fl) (r : Request) (ms : ℕ) (db : hs.Db)
      → is_static_file r.uri ≡ false
      → check rt fl hs p r ms db
        ≡ staged p r db
            (tier1_verdict rt fl hs p r ms)
            (tier2_verdict rt fl hs p r ms)
            (late_stages rt fl hs p r ms (content_stage rt fl hs p r ms db))
  unfolding check
  check-staged p r ms db e = rw e (elim (Option-cases (tier1_verdict rt fl hs p r ms)) [
    | inr (v, f) ↦ rw f
    | inl n ↦
        rw n
          (elim (Option-cases (tier2_verdict rt fl hs p r ms)) [ inr (v, f) ↦ rw f | inl m ↦ rw m ])
  ])

  tiers_action :
      (p : Pipeline fl) (r : Request) (ms : ℕ) (db : hs.Db)
      → is_static_file r.uri ≡ false
      → (check rt fl hs p r ms db).verdict.action
        ≡ (if finds_threat p r ms db then blocking p.mode else permit)
  tiers_action p r ms db e =
      rw (check-staged p r ms db e, ← (tier1_action p r ms).1, ← (tier2_action p r ms).1)
        (staged-action p r db _ _ _ _ (tier1_action p r ms).0 (tier2_action p r ms).0 (
          late_stages-action p r ms (content_stage rt fl hs p r ms db)
            (content_stage-AllBlock p r ms db)))

  check-static :
      (p : Pipeline fl) (r : Request) (ms : ℕ) (db : hs.Db)
      → is_static_file r.uri ≡ true
      → ((check rt fl hs p r ms db).verdict.action ≡ permit)
        × (((check rt fl hs p r ms db).db ≡ db) × ((check rt fl hs p r ms db).emitted ≡ none))
  unfolding check permit_verdict
  check-static p r ms db e = rw e (refl, (refl, refl))

  -- A request whose path is not that of a static file is blocked exactly if some tier finds a
  -- threat and the mode is not shadow; one whose path is that of a static file is permitted,
  -- whatever its method and body, with nothing cached and nothing emitted.
  pub check-action :
      (p : Pipeline fl) (r : Request) (ms : ℕ) (db : hs.Db)
      → ((check rt fl hs p r ms db).verdict.action ≡ (
          if not (is_static_file r.uri) && finds_threat p r ms db then blocking p.mode else permit))
        × (is_static_file r.uri ≡ true
            → ((check rt fl hs p r ms db).db ≡ db) × ((check rt fl hs p r ms db).emitted ≡ none))
  check-action p r ms db = elim (Bool-cases (is_static_file r.uri)) [
    | inl e ↦ (rw e (check-static p r ms db e).0, λ _. (check-static p r ms db e).1)
    | inr e ↦ (rw e (tiers_action p r ms db e), λ h. cc)
  ]
