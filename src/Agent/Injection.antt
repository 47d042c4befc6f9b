-- ===== src/Agent/Injection.antt =====
-- Tier 2, agent/security/tier2_injection.py: SQL injection and XSS patterns over all inputs.
pub mod Coverage
use aiss_waf_server.Prelude.{
  ℕ, String, Bool, true, false, ◌&&◌, Option, none, some, List, [], ◌∷◌, ◌++◌, take, is_some,
  if◌then◌else◌,
}
use aiss_waf_server.Prelude.Text.{Text, codes, strip, split, before, after, contains, elem}
use aiss_waf_server.Prelude.Dict
use aiss_waf_server.Prelude.Dict.{string_eq}
use aiss_waf_server.Agent.Runtime.{Regex, Runtime, ignoring_case}
use aiss_waf_server.Agent.Request.{Request, Body, bytes, str}

pub sql_logic : Regex
sql_logic = ignoring_case "\\b(or|and)\\s+[\\w'\\\"]+\\s*[=<>!]+\\s*[\\w'\\\"]+"

pub sql_comments : Regex
sql_comments = ignoring_case "(--|#|/\\*|\\*/)"

pub sql_stacked : Regex
sql_stacked = ignoring_case ";\\s*(select|insert|update|delete|drop|exec)"

pub sql_structural : Regex
sql_structural = record {
  pattern =
      "\n    (?:\n        (?:'\\s*(?:or|and)\\s+['\"\\d]) |          # ' or '1\n        (?:union\\s+(?:all\\s+)?select) |         # UNION SELECT\n        (?:;\\s*(?:drop|alter|create|exec)) |    # ; DROP TABLE\n        (?:--\\s*$) |                            # trailing comment\n        (?:xp_cmdshell) |                       # MSSQL shell\n        (?:information_schema\\.tables) |        # schema enumeration\n        (?:sleep\\s*\\(\\s*\\d+\\s*\\)) |             # time-based blind\n        (?:benchmark\\s*\\()                      # MySQL benchmark\n    )\n    ";
  ignore_case = true;
  verbose = true;
  dot_all = false;
}

pub xss_script : Regex
xss_script = ignoring_case "<\\s*script[^>]*>|</\\s*script\\s*>"

pub xss_javascript : Regex
xss_javascript = ignoring_case "javascript\\s*:"

pub xss_events : Regex
xss_events =
    ignoring_case
      "\\bon(load|error|click|mouseover|mouseout|focus|blur|submit|keydown|keyup|keypress|change|input|resize|scroll|dblclick|contextmenu|drag|drop|copy|paste|cut)\\s*="

pub xss_data_uri : Regex
xss_data_uri = ignoring_case "data\\s*:\\s*(text/html|application/javascript|text/javascript)"

pub xss_svg : Regex
xss_svg = record {
  pattern = "<\\s*svg[^>]*>.*?(onload|onerror|onclick)";
  ignore_case = true;
  verbose = false;
  dot_all = true;
}

pub xss_entities : Regex
xss_entities = ignoring_case "&lt;script|&#60;script|%3Cscript|\\\\u003cscript"

-- A detection: the fingerprint or type, and the detail.
pub record Detection : Type 0 where
  pub kind : Text
  pub detail : Text

-- for raw_input in inputs: for text in [raw_input, unquote_plus(raw_input)]: the first detection
pub scan_inputs : Runtime → (Text → Option Detection) → List Text → Option Detection
scan_inputs rt test [] = none
scan_inputs rt test ([] ∷ inputs) = scan_inputs rt test inputs
scan_inputs rt test ((c ∷ raw) ∷ inputs) =
    let rest = scan_inputs rt test inputs in
    elim (test (c ∷ raw)) [
      | some d ↦ some d
      | none ↦ elim (test (rt.unquote_plus (c ∷ raw))) [ some d ↦ some d | none ↦ rest ]
    ]

module _ (rt : Runtime) where
  matches : Regex → Text → Bool
  matches re text = is_some (rt.search re text)

  quoted : ℕ → String → Text → Text
  unfolding codes
  quoted n prefix m = codes prefix ++ (b'\'' ∷ (take n (strip m) ++ (b'\'' ∷ [])))

  sqli_stacked : Text → Option Detection
  unfolding quoted
  sqli_stacked text = elim (rt.search sql_stacked text) [
    | some m ↦
        some (record { kind = strip m; detail = quoted 80 "SQL injection: stacked query " m })
    | none ↦ none
  ]

  -- The body of the loop of `check_sqli`.
  pub sqli_of : Text → Option Detection
  unfolding sqli_stacked quoted codes matches
  sqli_of text = elim (rt.search sql_structural text) [
    | some m ↦
        some (record { kind = strip m; detail = quoted 80 "SQL injection: structural match " m })
    | none ↦
        if matches sql_logic text && matches sql_comments text
        then some (record {
          kind = codes "tautology+comment";
          detail = codes "SQL injection: logical tautology with comment";
        })
        else sqli_stacked text
  ]

  pub check_sqli : List Text → Option Detection
  check_sqli = scan_inputs rt sqli_of

  plain : String → String → Option Detection
  unfolding codes
  plain kind detail = some (record { kind = codes kind; detail = codes detail })

  xss_markup : Text → Option Detection
  unfolding plain matches
  xss_markup text =
      if matches xss_data_uri text
      then plain "data_uri" "XSS: data: URI injection"
      else if matches xss_svg text
      then plain "svg_xss" "XSS: SVG-based attack"
      else if matches xss_entities text
      then plain "encoded_xss" "XSS: HTML/URL encoded script tag"
      else none

  -- The body of the loop of `check_xss`.
  pub xss_of : Text → Option Detection
  unfolding plain matches xss_markup quoted codes
  xss_of text =
      if matches xss_script text
      then plain "script_tag" "XSS: script tag detected"
      else if matches xss_javascript text
      then plain "javascript_protocol" "XSS: javascript: protocol injection"
      else elim (rt.search xss_events text) [
        | some m ↦ some (record {
          kind = codes "event_handler";
          detail = quoted 60 "XSS: DOM event handler " m;
        })
        | none ↦ xss_markup text
      ]

  pub check_xss : List Text → Option Detection
  check_xss = scan_inputs rt xss_of

  -- for part in s.split("&"): if "=" in part: append what follows the first "="
  pub values_of : List Text → List Text
  values_of [] = []
  values_of (part ∷ parts) =
      let rest = values_of parts in
      if contains part (b'=' ∷ []) then after b'=' part ∷ rest else rest

  -- if v := ...: inputs.append(v)
  nonempty : Text → List Text
  nonempty [] = []
  nonempty (c ∷ s) = (c ∷ s) ∷ []

  query_inputs : Text → List Text
  unfolding values_of
  query_inputs [] = []
  query_inputs (c ∷ q) = (c ∷ q) ∷ values_of (split b'&' (c ∷ q))

  header_inputs : List String → Dict.Dict String Text → List Text
  unfolding nonempty
  header_inputs [] headers = []
  header_inputs (h ∷ hs) headers = nonempty (Dict.get_or h [] headers) ++ header_inputs hs headers

  scanned_headers : List String
  scanned_headers = "user-agent" ∷ "referer" ∷ "x-forwarded-for" ∷ "cookie" ∷ "host" ∷ []

  pub body_text : Body → Text
  body_text (bytes []) = []
  body_text (bytes (c ∷ b)) = rt.decode_utf8 (c ∷ b)
  body_text (str s) = s

  is_absent : Body → Bool
  is_absent (bytes []) = true
  is_absent (str []) = true
  is_absent _ = false

  body_inputs : Request → List Text
  unfolding is_absent body_text values_of codes
  body_inputs r =
      let body = body_text r.body in
      if is_absent r.body
      then []
      else body
        ∷ (if contains r.content_type (codes "x-www-form-urlencoded")
            then values_of (split b'&' body)
            else [])

  pub extract_inputs : Request → List Text
  unfolding nonempty query_inputs header_inputs scanned_headers body_inputs
  extract_inputs r =
      nonempty r.uri
      ++ (query_inputs r.query_string ++ (header_inputs scanned_headers r.headers ++ body_inputs r))
