-- ===== src/Agent/Anomaly.antt =====
-- Tier 3, agent/security/tier3_ml.py: the features of a request and their weighted score.
pub mod Score
pub mod Entropy
use aiss_waf_server.Prelude.{
  ℕ, ◌+◌, String, Bool, true, false, ◌&&◌, ◌||◌, not, Option, none, some, List, [], ◌∷◌, ◌++◌,
  length, ltb, is_some, is_empty, if◌then◌else◌,
}
use aiss_waf_server.Prelude.Text.{Text, codes, upper, elem, contains, count_char, join}
use aiss_waf_server.Prelude.Dict
use aiss_waf_server.Prelude.Dict.{Dict, string_eq}
use aiss_waf_server.Agent.Runtime.{Runtime, exact_case}
use aiss_waf_server.Agent.Floats.{Floats}
use aiss_waf_server.Agent.Request.{Request, Body, bytes, str}
use aiss_waf_server.Agent.Anomaly.Score.{Features, compute_score}
use aiss_waf_server.Agent.Anomaly.Entropy.{text_entropy}

-- c in "!@#$%^&*(){}[]|\\<>/?;:'\""
is_special : ℕ → Bool
unfolding codes
is_special c = ltb 0 (count_char c (codes "!@#$%^&*(){}[]|\\<>/?;:'\""))

count_special : Text → ℕ
count_special [] = 0
count_special (c ∷ s) = if is_special c then 1 + count_special s else count_special s

special_char_ratio : (fl : Floats) → Text → fl.F
unfolding count_special
special_char_ratio fl [] = fl.hundredths 0
special_char_ratio fl (c ∷ s) =
    fl.round 4 (fl.div (fl.of_nat (count_special (c ∷ s))) (fl.of_nat (length (c ∷ s))))

usual_methods : List Text
unfolding codes
usual_methods =
    codes "GET"
    ∷ codes "POST"
    ∷ codes "PUT"
    ∷ codes "DELETE"
    ∷ codes "PATCH"
    ∷ codes "HEAD"
    ∷ codes "OPTIONS"
    ∷ []

has_any : List String → Dict String Text → Bool
has_any [] headers = false
has_any (h ∷ hs) headers = is_some (Dict.lookup h headers) || has_any hs headers

proxy_headers : List String
proxy_headers = "via" ∷ "forwarded" ∷ "x-real-ip" ∷ "x-originating-ip" ∷ "x-cluster-client-ip" ∷ []

scanner_ua : String
scanner_ua =
    "(?i)(nmap|nikto|sqlmap|masscan|zgrab|gobuster|dirbuster|wfuzz|burpsuite|owasp|acunetix|nessus|openvas|w3af|skipfish|havij|hydra|medusa|metasploit|curl/[0-9]+|python-requests|go-http-client|libwww|wget|scrapy|mechanize|phantomjs|headlesschrome)"

suspicious_ua : String
suspicious_ua = "(?i)(\\.\\./|<script|select\\s+from|union\\s+select|eval\\(|base64_decode)"

pub body_string : Runtime → Body → Text
body_string rt (bytes b) = rt.decode_utf8 b
body_string rt (str s) = s

full_request : Runtime → Request → Text
unfolding body_string
full_request rt r = r.uri ++ (b' ' ∷ (r.query_string ++ (b' ' ∷ body_string rt r.body)))

-- `extract_features`, but for the features that no score reads (method_encoded, header_count,
-- uri_entropy, has_json_body, ua_length, has_x_forwarded).
pub extract_features : Runtime → (fl : Floats) → Request → Features fl
unfolding full_request usual_methods has_any proxy_headers special_char_ratio scanner_ua
    suspicious_ua codes
extract_features rt fl r =
    let body = body_string rt r.body in
    let full = full_request rt r in
    let ua = Dict.get_or "user-agent" [] r.headers in
    let method = upper (elim r.method [ none ↦ codes "GET" | some m ↦ m ]) in
    record {
      null_bytes = contains full (0 ∷ []) || contains full (codes "%00");
      double_encoded = contains full (codes "%25");
      encoded_char_count = count_char b'%' full;
      uri_length = length r.uri;
      query_entropy = text_entropy fl r.query_string;
      body_entropy = text_entropy fl body;
      body_length = length body;
      ua_has_scanner = is_some (rt.search (exact_case scanner_ua) ua);
      ua_suspicious = is_some (rt.search (exact_case suspicious_ua) ua);
      ua_empty = is_empty ua;
      unusual_method = not (elem method usual_methods);
      has_base64_body = is_some (rt.search (exact_case "[A-Za-z0-9+/]{40,}={0,2}") body);
      excessive_params = ltb 20 (count_char b'=' full);
      param_count = count_char b'=' full;
      special_char_ratio = special_char_ratio fl full;
      has_proxy_headers = has_any proxy_headers r.headers;
      unicode_escape = is_some (rt.search (exact_case "\\\\u[0-9a-fA-F]{4}") full);
    }

pub data MlAction : Type 0 where
  permit suspicious block : MlAction

pub record MlResult (fl : Floats) : Type 0 where
  pub score : fl.F
  pub action : MlAction
  pub reason : Text

-- The action of `score`, at the threshold of the configuration and the fixed one of 0.60.
pub ml_action : (fl : Floats) → (threshold score : fl.F) → MlAction
ml_action fl threshold score =
    if fl.le threshold score
    then block
    else if fl.le (fl.hundredths 60) score
    then suspicious
    else permit

pub score : Runtime → (fl : Floats) → fl.F → Request → MlResult fl
unfolding codes
score rt fl threshold r =
    let (s, reasons) = compute_score fl (extract_features rt fl r) in
    record {
      score = fl.round 4 s;
      action = ml_action fl threshold s;
      reason =
          if is_empty reasons then codes "No anomalies detected" else join (codes "; ") reasons;
    }
