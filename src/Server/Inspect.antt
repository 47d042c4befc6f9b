-- ===== src/Server/Inspect.antt =====
-- The inspection endpoint of the central server, server/app/routers/inspect.py.
mod Rules
pub mod Endpoint
pub mod Verdicts
pub mod Stored
mod Tests
use aiss_waf_server.Prelude.{
  ℕ, ◌-◌, String, Bool, true, false, ◌&&◌, ◌||◌, not, Option, none, some, List, [], ◌∷◌, ◌++◌,
  length, take, map, ltb, is_some, is_empty, if◌then◌else◌,
}
use aiss_waf_server.Prelude.Text.{
  Text, codes, text_eq, lower, before, starts_with, ends_with, contains, strip, join_parts, or_else,
}
use aiss_waf_server.Prelude.Dict
use aiss_waf_server.Prelude.Dict.{text_keys}
use aiss_waf_server.Agent.Runtime.{Regex, Runtime, exact_case}
use aiss_waf_server.Agent.Pipeline.{Action, permit, block}
use Rules.{sqli_patterns, xss_patterns, heuristic_patterns}

pub record InspectRequest : Type 0 where
  pub method : Text
  pub uri : Text
  pub query_string : Text
  pub client_ip : Text
  pub user_agent : Text
  pub body : Text
  pub headers : List (Text × Text)
  pub source_app : Text

-- `ml_score` is 0 in every verdict of the endpoint and is left out.
pub record InspectVerdict : Type 0 where
  pub action : Action
  pub tier : ℕ
  pub cve_id : Text
  pub rule_name : Text
  pub reason : Text
  pub latency_ms : ℕ
  pub request_id : Text

-- A row of the signature table; `flags` is empty where it is null.
pub record CveSignature : Type 0 where
  pub cve_id : Text
  pub name : Text
  pub pattern : String
  pub flags : Text
  pub active : Bool

-- `_cve_cache` and `_cve_cache_ts`; times are in seconds of the monotonic clock.
pub record CveCache : Type 0 where
  pub entries : List (Regex × CveSignature)
  pub ts : ℕ

-- Whether the flags of the row ask for re.IGNORECASE.
unfoldable pub signature_regex : CveSignature → Regex
unfolding codes
signature_regex sig = record {
  pattern = sig.pattern;
  ignore_case = contains (lower sig.flags) (codes "i");
  verbose = false;
  dot_all = false;
}

-- The loop over the active rows; `valid` says that `re.compile` accepts the pattern.
unfoldable pub compile_active : (Regex → Bool) → List CveSignature → List (Regex × CveSignature)
unfolding signature_regex
compile_active valid [] = []
compile_active valid (sig ∷ sigs) =
    let rest = compile_active valid sigs in
    if sig.active && valid (signature_regex sig) then (signature_regex sig, sig) ∷ rest else rest

-- `none` is a query that raises.
unfoldable pub refresh_cve_cache :
    (Regex → Bool) → Option (List CveSignature) → (now : ℕ) → CveCache → CveCache
unfolding compile_active
refresh_cve_cache valid none now cache = cache
refresh_cve_cache valid (some sigs) now cache = record {
  entries = compile_active valid sigs;
  ts = now;
}

static_exts : List Text
unfolding codes
static_exts = map codes (
    ".js" ∷ ".css" ∷ ".png" ∷ ".jpg" ∷ ".jpeg" ∷ ".gif" ∷ ".svg" ∷ ".ico" ∷ ".woff" ∷ ".woff2"
    ∷ ".ttf" ∷ ".eot" ∷ ".map" ∷ ".webp" ∷ ".avif" ∷ [])

ends_with_any : Text → List Text → Bool
ends_with_any path [] = false
ends_with_any path (ext ∷ exts) = ends_with path ext || ends_with_any path exts

pub is_static : Text → Bool
unfolding static_exts ends_with_any codes
is_static uri =
    let path = before b'?' (lower uri) in
    ends_with_any path static_exts || starts_with path (codes "/_next/")

base64_content_re : Regex
base64_content_re = exact_case "^[A-Za-z0-9+/=\\s]{16,}$"

module _ (rt : Runtime) where
  decode_prefix : Text → Option Text
  unfolding codes
  decode_prefix s = elim (rt.b64decode (s ++ codes "==")) [
    | none ↦ none
    | some raw ↦ some (rt.decode_utf8 (take 4096 raw))
  ]

  -- The second pass, on a text that looks like base64.
  with_second_pass : Text → Text
  unfolding decode_prefix base64_content_re
  with_second_pass text1 =
      if is_some (rt.search base64_content_re (strip text1))
      then (elim (decode_prefix (strip text1)) [
        | none ↦ text1
        | some text2 ↦
            if not (text_eq text2 text1) && ltb 3 (length text2)
            then text1 ++ (b' ' ∷ text2)
            else text1
      ])
      else text1

  pub decode_body : Text → Text
  unfolding decode_prefix with_second_pass
  decode_body [] = []
  decode_body (c ∷ body) = elim (decode_prefix (c ∷ body)) [
    | none ↦ []
    | some text1 ↦ with_second_pass text1
  ]

  -- The forms that differ, with a blank between.
  pub url_decode : Text → Text
  url_decode s =
      let d1 = rt.unquote_plus s in
      let d2 = rt.unquote_plus d1 in
      let second = if text_eq d2 d1 then [] else b' ' ∷ d2 in
      s ++ (if text_eq d1 s then second else (b' ' ∷ d1) ++ second)

  header_values : List (Text × Text) → List Text
  unfolding codes
  header_values [] = []
  header_values ((name, value) ∷ headers) =
      let rest = header_values headers in
      if text_eq (lower name) (codes "x-api-key") then rest else value ∷ rest

  pub build_scan_target : InspectRequest → Text
  unfolding url_decode decode_body header_values
  build_scan_target req = join_parts (
      url_decode req.uri
      ∷ url_decode req.query_string
      ∷ req.user_agent
      ∷ decode_body req.body
      ∷ header_values req.headers)

  -- The dict of a match; its severity is read by nothing.
  pub record Match : Type 0 where
    pub cve_id : Text
    pub rule_name : Text
    pub reason : Text

  first_signature : Text → List (Regex × CveSignature) → Option Match
  unfolding codes
  first_signature text [] = none
  first_signature text ((re, sig) ∷ cache) =
      if is_some (rt.search re text)
      then some (record {
        cve_id = sig.cve_id;
        rule_name = sig.name;
        reason =
            codes "CVE pattern match: " ++ (sig.name ++ (codes " (" ++ (sig.cve_id ++ codes ")")));
      })
      else first_signature text cache

  pub check_cve_signatures : CveCache → (now : ℕ) → Text → Option Match
  unfolding first_signature
  check_cve_signatures cache now text =
      if is_empty cache.entries || ltb 120 (now - cache.ts)
      then none
      else first_signature text cache.entries

  pub first_rule : (prefix : String) → Text → List (Regex × String) → Option Match
  unfolding codes
  first_rule prefix text [] = none
  first_rule prefix text ((re, name) ∷ rules) =
      if is_some (rt.search re text)
      then some
          (record { cve_id = []; rule_name = codes name; reason = codes prefix ++ codes name })
      else first_rule prefix text rules

  pub check_tier2 : Text → Option Match
  unfolding first_rule
  check_tier2 text = elim (first_rule "SQL injection pattern detected: " text sqli_patterns) [
    | some m ↦ some m
    | none ↦ first_rule "XSS pattern detected: " text xss_patterns
  ]

  pub check_tier3 : Text → Option Match
  unfolding first_rule
  check_tier3 text = first_rule "Heuristic threat pattern: " text heuristic_patterns
