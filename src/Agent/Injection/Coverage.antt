-- ===== src/Agent/Injection/Coverage.antt =====
-- What tier 2 detects, and in which of the request's parts.
use aiss_waf_server.Prelude.{
  ◌≡◌, refl, Bool, false, ◌||◌, ◌&&◌, Option, List, [], ◌∷◌, is_some, is_empty, not, Bool-cases,
  Option-cases, inl, inr,
}
use aiss_waf_server.Prelude.Text.{Text}
use aiss_waf_server.Agent.Runtime.{Runtime}
use aiss_waf_server.Agent.Injection.{
  Detection, scan_inputs, sqli_of, check_sqli, xss_of, check_xss, matches, sqli_stacked, xss_markup,
  plain, sql_structural, sql_logic, sql_comments, sql_stacked, xss_script, xss_javascript,
  xss_events, xss_data_uri, xss_svg, xss_entities,
}

-- An input that is not empty passes the test as it is or URL-decoded, for some input of the list.
abbrev pub any_input : Runtime → (Text → Bool) → List Text → Bool
any_input rt test [] = false
any_input rt test (t ∷ ts) =
    (not (is_empty t) && (test t || test (rt.unquote_plus t))) || any_input rt test ts

module _ (rt : Runtime) where
  scan_inputs_lem :
      (test : Text → Option Detection) (spec : Text → Bool)
      → ((t : Text) → is_some (test t) ≡ spec t)
      → (inputs : List Text) → is_some (scan_inputs rt test inputs) ≡ any_input rt spec inputs
  unfolding scan_inputs
  scan_inputs_lem test spec h [] = refl
  scan_inputs_lem test spec h ([] ∷ inputs) = scan_inputs_lem test spec h inputs
  scan_inputs_lem test spec h ((c ∷ raw) ∷ inputs) =
      rw (← (h (c ∷ raw)), ← (h (rt.unquote_plus (c ∷ raw))))
        (elim (Option-cases (test (c ∷ raw))) [
          | inr (d, e) ↦ rw (e, scan_inputs) refl
          | inl n ↦
              rw (n, scan_inputs)
                (elim (Option-cases (test (rt.unquote_plus (c ∷ raw)))) [
                  | inr (d, e) ↦ rw (e, scan_inputs) refl
                  | inl m ↦ rw (m, scan_inputs) (scan_inputs_lem test spec h inputs)
                ])
        ])

  -- The patterns as a disjunction, in no order.
  abbrev pub is_sqli : Text → Bool
  is_sqli t =
      is_some (rt.search sql_structural t)
      || ((is_some (rt.search sql_logic t) && is_some (rt.search sql_comments t))
          || is_some (rt.search sql_stacked t))

  abbrev pub is_xss : Text → Bool
  is_xss t =
      is_some (rt.search xss_script t)
      || (is_some (rt.search xss_javascript t)
          || (is_some (rt.search xss_events t)
              || (is_some (rt.search xss_data_uri t)
                  || (is_some (rt.search xss_svg t) || is_some (rt.search xss_entities t)))))

  sqli_stacked_lem : (t : Text) → is_some (sqli_stacked rt t) ≡ is_some (rt.search sql_stacked t)
  unfolding sqli_stacked
  sqli_stacked_lem t = elim (Option-cases (rt.search sql_stacked t)) [
    | inl n ↦ rw (n, sqli_stacked) refl
    | inr (m, e) ↦ rw (e, sqli_stacked) refl
  ]

  sqli_of_lem : (t : Text) → is_some (sqli_of rt t) ≡ is_sqli t
  unfolding sqli_of matches
  sqli_of_lem t = elim (Option-cases (rt.search sql_structural t)) [
    | inr (m, e) ↦ rw (e, sqli_of) refl
    | inl n ↦
        rw (n, sqli_of)
          (elim (Bool-cases
            (is_some (rt.search sql_logic t) && is_some (rt.search sql_comments t))) [
              | inl e ↦ rw e refl
              | inr e ↦ rw e (sqli_stacked_lem t)
            ])
  ]

  xss_markup_lem :
      (t : Text)
      → is_some (xss_markup rt t) ≡ (
          is_some (rt.search xss_data_uri t)
          || (is_some (rt.search xss_svg t) || is_some (rt.search xss_entities t)))
  unfolding xss_markup matches plain
  xss_markup_lem t = elim (Bool-cases (is_some (rt.search xss_data_uri t))) [
    | inl e ↦ rw e refl
    | inr e ↦ rw e (elim (Bool-cases (is_some (rt.search xss_svg t))) [
      | inl f ↦ rw f refl
      | inr f ↦ rw f (elim (Bool-cases (is_some (rt.search xss_entities t))) [
        | inl g ↦ rw g refl
        | inr g ↦ rw g refl
      ])
    ])
  ]

  xss_of_lem : (t : Text) → is_some (xss_of rt t) ≡ is_xss t
  unfolding xss_of matches plain
  xss_of_lem t = elim (Bool-cases (is_some (rt.search xss_script t))) [
    | inl e ↦ rw e refl
    | inr e ↦ rw e (elim (Bool-cases (is_some (rt.search xss_javascript t))) [
      | inl f ↦ rw f refl
      | inr f ↦ rw f (elim (Option-cases (rt.search xss_events t)) [
        | inr (m, g) ↦ rw g refl
        | inl g ↦ rw g (xss_markup_lem t)
      ])
    ])
  ]

  -- SQL injection is detected exactly if some input that is not empty, as it is or URL-decoded,
  -- matches the structural pattern, the stacked-query pattern, or both the logic and the comment
  -- pattern; XSS exactly if such a text matches one of the six XSS patterns.
  pub check_sqli-check_xss :
      (inputs : List Text)
      → (is_some (check_sqli rt inputs) ≡ any_input rt is_sqli inputs)
        × (is_some (check_xss rt inputs) ≡ any_input rt is_xss inputs)
  unfolding check_sqli check_xss
  check_sqli-check_xss inputs = (
    scan_inputs_lem (sqli_of rt) is_sqli sqli_of_lem inputs,
    scan_inputs_lem (xss_of rt) is_xss xss_of_lem inputs,
  )
