-- ===== src/Agent/Pipeline/Defs.antt =====
-- The definitions of agent/security/pipeline.py.
use aiss_waf_server.Prelude.{
  ℕ, ◌+◌, ◌-◌, ◌*◌, ◌/◌, Bool, false, ◌||◌, Option, none, some, List, [], ◌∷◌, ◌++◌, length, take,
  drop, map, if◌then◌else◌,
}
use aiss_waf_server.Prelude.Text.{
  Text, codes, text_eq, lower, before, ends_with, contains, join_parts,
}
use aiss_waf_server.Prelude.Dict
use aiss_waf_server.Prelude.Dict.{string_eq}
use aiss_waf_server.Agent.Runtime.{Runtime}
use aiss_waf_server.Agent.Floats.{Floats}
use aiss_waf_server.Agent.Request.{Request, Body, bytes, str}
use aiss_waf_server.Agent.Patterns.{CvePattern}
use aiss_waf_server.Agent.Base64.{extract_b64_candidates, decode_body_if_base64}
use aiss_waf_server.Agent.Yara.{Scanner}

pub data Action : Type 0 where
  permit block : Action

pub record Verdict (fl : Floats) : Type 0 where
  pub action : Action
  pub tier : ℕ
  pub cve_id : Option Text
  pub rule_name : Option Text
  pub reason : Text
  pub ml_score : fl.F
  pub latency_ms : ℕ
  pub sha256 : Option Text

-- A row of the file-hash cache: its verdict is MALICIOUS or CLEAN.
pub record Cached : Type 0 where
  pub malicious : Bool
  pub threat_name : Option Text

-- `get_file_hash` and `store_file_hash` of the database.
pub record HashStore : Type 1 where
  pub Db : Type 0
  pub get_file_hash : Db → Text → Option Cached
  pub store_file_hash : Db → Text → Cached → Db

pub record Pipeline (fl : Floats) : Type 0 where
  pub mode : Text
  pub patterns : List CvePattern
  pub threshold : fl.F
  pub scanner : Scanner
  pub has_telemetry : Bool

-- The event that `_emit` sends.
pub record Event (fl : Floats) : Type 0 where
  pub request_id : Text
  pub client_ip : Text
  pub method : Option Text
  pub uri : Text
  pub verdict : Verdict fl

abbrev pub full_scan_limit : ℕ
full_scan_limit = 10 * 1024

abbrev pub sample_scan_limit : ℕ
sample_scan_limit = 1 * 1024 * 1024

static_extensions : List Text
unfolding codes
static_extensions = map codes (
    ".jpg" ∷ ".jpeg" ∷ ".png" ∷ ".gif" ∷ ".webp" ∷ ".svg" ∷ ".ico" ∷ ".css" ∷ ".js" ∷ ".mjs"
    ∷ ".woff" ∷ ".woff2" ∷ ".ttf" ∷ ".eot" ∷ ".mp4" ∷ ".mp3" ∷ ".wav" ∷ ".ogg" ∷ ".webm" ∷ ".pdf"
    ∷ ".zip" ∷ [])

ends_with_any : Text → List Text → Bool
ends_with_any path [] = false
ends_with_any path (ext ∷ exts) = ends_with path ext || ends_with_any path exts

unfoldable pub is_static_file : Text → Bool
unfolding static_extensions ends_with_any
is_static_file [] = false
is_static_file (c ∷ uri) = ends_with_any (lower (before b'?' (c ∷ uri))) static_extensions

inspect_types : List Text
unfolding codes
inspect_types = map codes (
    "application/x-www-form-urlencoded" ∷ "application/json" ∷ "application/xml" ∷ "text/xml"
    ∷ "text/plain" ∷ "application/octet-stream" ∷ "multipart/form-data" ∷ [])

contains_any : Text → List Text → Bool
contains_any ct [] = false
contains_any ct (t ∷ ts) = contains ct t || contains_any ct ts

unfoldable pub should_inspect_content : Text → Bool
unfolding inspect_types contains_any
should_inspect_content content_type = contains_any (lower content_type) inspect_types

body_prefix : Runtime → Body → Text
body_prefix rt (bytes b) = take 2048 (rt.decode_utf8 b)
body_prefix rt (str s) = take 2048 s

unfoldable pub build_scan_data : Runtime → Request → Text
unfolding body_prefix
build_scan_data rt r = join_parts (
    r.uri
    ∷ r.query_string
    ∷ Dict.get_or "user-agent" [] r.headers
    ∷ Dict.get_or "referer" [] r.headers
    ∷ Dict.get_or "cookie" [] r.headers
    ∷ body_prefix rt r.body
    ∷ [])

-- The targets of the scan; their labels are read by nothing.
unfoldable pub prepare_full_scan : Runtime → Text → Text → List Text
prepare_full_scan rt body content_type = body ∷ (elim (decode_body_if_base64 rt body content_type) [
  | none ↦ extract_b64_candidates rt body
  | some [] ↦ extract_b64_candidates rt body
  | some (c ∷ decoded) ↦ (c ∷ decoded) ∷ extract_b64_candidates rt body
])

unfoldable pub prepare_sampled_scan : Text → List Text
prepare_sampled_scan body =
    let size = length body in
    let mid = size / 2 in
    take 4096 body ∷ drop (mid - 2048) (take (mid + 2048) body) ∷ drop (size - 4096) body ∷ []

abbrev pub is_shadow : Text → Bool
is_shadow mode = text_eq mode (codes "shadow")

abbrev pub shadow_reason : Text → Text
shadow_reason reason = codes "[SHADOW] Would block: " ++ reason

module _ (fl : Floats) where
  -- `_make_verdict` with the action BLOCK, its only use.
  unfoldable pub make_verdict :
      (mode : Text) (tier : ℕ) (cve_id rule_name : Option Text) (reason : Text) (ml_score : fl.F)
      (sha256 : Option Text) (ms : ℕ)
      → Verdict fl
  make_verdict mode tier cve_id rule_name reason ml_score sha256 ms = record {
    action = if is_shadow mode then permit else block;
    tier = tier;
    cve_id = cve_id;
    rule_name = rule_name;
    reason = if is_shadow mode then shadow_reason reason else reason;
    ml_score = ml_score;
    latency_ms = ms;
    sha256 = sha256;
  }

  unfoldable pub emit : Pipeline fl → Request → Verdict fl → Option (Event fl)
  emit p r v =
      if p.has_telemetry
      then some (record {
        request_id = r.request_id;
        client_ip = r.client_ip;
        method = r.method;
        uri = r.uri;
        verdict = v;
      })
      else none
