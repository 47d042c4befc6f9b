-- ===== src/Server/Inspect/Verdicts.antt =====
-- When the endpoint blocks, what it reports, and what becomes of the reports.
use aiss_waf_server.Prelude.{
  ℕ, zero, suc, ◌≡◌, refl, Bool, true, false, ◌||◌, ◌&&◌, not, Option, none, some, List, [], ◌∷◌,
  is_some, is_empty, if◌then◌else◌, String, Bool-cases, Option-cases, inl, inr, ltb, ◌-◌,
}
use aiss_waf_server.Prelude.Text.{Text}
use aiss_waf_server.Prelude.Dict.{text_keys}
use aiss_waf_server.Agent.Runtime.{Regex, Runtime}
use aiss_waf_server.Agent.Pipeline.{Action, permit, block}
use aiss_waf_server.Server.Inspect.{
  InspectRequest, CveSignature, CveCache, Match, is_static, build_scan_target, first_signature,
  check_cve_signatures, first_rule, check_tier2, check_tier3,
}
use aiss_waf_server.Server.Inspect.Rules.{sqli_patterns, xss_patterns, heuristic_patterns}
use aiss_waf_server.Server.Inspect.Endpoint.{
  Reply, verdict_of, reported, after_tier2, after_tier1, inspect_text, inspect_request,
}

module _ (rt : Runtime) where
  -- Some regular expression of a table is found in the text.
  abbrev pub any_rule {ℓ} : {A : Type ℓ} → Text → List (Regex × A) → Bool
  any_rule text [] = false
  any_rule text ((re, a) ∷ rules) = is_some (rt.search re text) || any_rule text rules

  first_rule_lem :
      (prefix : String) (text : Text) (rules : List (Regex × String))
      → is_some (first_rule rt prefix text rules) ≡ any_rule text rules
  unfolding first_rule
  first_rule_lem prefix text [] = refl
  first_rule_lem prefix text ((re, name) ∷ rules) =
      elim (Bool-cases (is_some (rt.search re text))) [
        | inl e ↦ rw e refl
        | inr e ↦ rw e (first_rule_lem prefix text rules)
      ]

  first_signature_lem :
      (text : Text) (entries : List (Regex × CveSignature))
      → is_some (first_signature rt text entries) ≡ any_rule text entries
  unfolding first_signature
  first_signature_lem text [] = refl
  first_signature_lem text ((re, sig) ∷ entries) = elim (Bool-cases (is_some (rt.search re text))) [
    | inl e ↦ rw e refl
    | inr e ↦ rw e (first_signature_lem text entries)
  ]

  abbrev pub is_fresh : CveCache → ℕ → Bool
  is_fresh cache now = not (ltb 120 (now - cache.ts))

  gate_lem :
      (stale : Bool) (text : Text) (entries : List (Regex × CveSignature))
      → is_some (if is_empty entries || stale then none else first_signature rt text entries)
        ≡ (not stale && any_rule text entries)
  gate_lem true text [] = refl
  gate_lem false text [] = refl
  gate_lem true text (e ∷ entries) = refl
  gate_lem false text (e ∷ entries) = first_signature_lem text (e ∷ entries)

  check_cve_signatures_lem :
      (cache : CveCache) (now : ℕ) (text : Text)
      → is_some (check_cve_signatures rt cache now text)
        ≡ (is_fresh cache now && any_rule text cache.entries)
  unfolding check_cve_signatures
  check_cve_signatures_lem cache now text = gate_lem (ltb 120 (now - cache.ts)) text cache.entries

  check_tier2_lem :
      (text : Text)
      → is_some (check_tier2 rt text) ≡ (any_rule text sqli_patterns || any_rule text xss_patterns)
  unfolding check_tier2
  check_tier2_lem text =
      rw (← (first_rule_lem "SQL injection pattern detected: " text sqli_patterns))
        (elim (Option-cases (first_rule rt "SQL injection pattern detected: " text sqli_patterns)) [
          | inl n ↦ rw (n, check_tier2) (first_rule_lem "XSS pattern detected: " text xss_patterns)
          | inr (m, e) ↦ rw (e, check_tier2) refl
        ])

  check_tier3_lem : (text : Text) → is_some (check_tier3 rt text) ≡ any_rule text heuristic_patterns
  unfolding check_tier3
  check_tier3_lem text = first_rule_lem "Heuristic threat pattern: " text heuristic_patterns

-- The first tier of the three that matches, and 0 where none does.
abbrev pub first_tier : Bool → Bool → Bool → ℕ
first_tier true second third = 1
first_tier false true third = 2
first_tier false false true = 3
first_tier false false false = 0

abbrev pub action_of : ℕ → Action
action_of zero = permit
action_of (suc n) = block

-- A verdict of the tier, of the tier's action, and reported.
abbrev pub IsReported : InspectRequest → ℕ → Reply → Type 0
IsReported req tier r =
    (r.verdict.tier ≡ tier)
    × ((r.verdict.action ≡ action_of tier) × (r.scheduled ≡ (req, r.verdict) ∷ []))

module _ (rt : Runtime) (cache : CveCache) (now : ℕ) (request_id : Text) (latency : ℕ)
    (req : InspectRequest) where
  after_tier2_lem :
      (third : Option (Match rt))
      → IsReported req
          (first_tier false false (is_some third))
          (after_tier2 rt cache now request_id latency req third)
  unfolding after_tier2 verdict_of reported
  after_tier2_lem none = (refl, (refl, refl))
  after_tier2_lem (some m) = (refl, (refl, refl))

  after_tier1_lem :
      (text : Text) (second : Option (Match rt))
      → IsReported req
          (first_tier false (is_some second) (is_some (check_tier3 rt text)))
          (after_tier1 rt cache now request_id latency req text second)
  unfolding after_tier1 verdict_of reported
  after_tier1_lem text none = after_tier2_lem (check_tier3 rt text)
  after_tier1_lem text (some m) = (refl, (refl, refl))

  inspect_text_lem :
      (text : Text) (first : Option (Match rt))
      → IsReported req
          (first_tier
            (is_some first)
            (is_some (check_tier2 rt text))
            (is_some (check_tier3 rt text)))
          (inspect_text rt cache now request_id latency req text first)
  unfolding inspect_text verdict_of reported
  inspect_text_lem text none = after_tier1_lem text (check_tier2 rt text)
  inspect_text_lem text (some m) = (refl, (refl, refl))

  abbrev pub tier_of : Text → ℕ
  tier_of text =
      first_tier (is_fresh rt cache now && any_rule rt text cache.entries)
        (any_rule rt text sqli_patterns || any_rule rt text xss_patterns)
        (any_rule rt text heuristic_patterns)

  -- Where nothing raises and the path is no static asset's, the verdict has the first tier whose
  -- rules match the scan text, of the signatures only if the cache is at most 120 seconds old; it
  -- is BLOCK exactly if there is such a tier, and it is scheduled to be stored, PERMIT included.
  pub inspect_request-IsReported :
      is_static req.uri ≡ false
      → IsReported req
          (tier_of (build_scan_target rt req))
          (inspect_request rt cache now request_id latency none req)
  unfolding inspect_request
  inspect_request-IsReported h =
      let text = build_scan_target rt req in
      rw
        (
          h,
          ← (check_cve_signatures_lem rt cache now text),
          ← (check_tier2_lem rt text),
          ← (check_tier3_lem rt text),
        )
        (inspect_text_lem text (check_cve_signatures rt cache now text))

  -- A verdict BLOCK comes only where nothing raises, from a rule that matches: an exception
  -- anywhere, or a static path, gives PERMIT.
  inspect_request-lenient :
      (raised : Option Text)
      → is_some raised || is_static req.uri ≡ true
      → (inspect_request rt cache now request_id latency raised req).verdict.action ≡ permit
  unfolding inspect_request verdict_of
  inspect_request-lenient (some exc) h = refl
  inspect_request-lenient none h = rw h refl
