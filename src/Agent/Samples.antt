-- ===== src/Agent/Samples.antt =====
-- Sample values for the parameters of the agent's models, and a sample pipeline and request.
use aiss_waf_server.Prelude.{
  ℕ, ◌+◌, ◌-◌, true, false, none, some, [], ◌∷◌, leb, if◌then◌else◌, ◌==◌,
}
use aiss_waf_server.Prelude.Text.{Text}
use aiss_waf_server.Prelude.Dict
use aiss_waf_server.Prelude.Dict.{text_keys}
use aiss_waf_server.Agent.Runtime.{Runtime, exact_case}
use aiss_waf_server.Agent.Floats.{Floats}
use aiss_waf_server.Agent.Request.{Request, str}
use aiss_waf_server.Agent.Patterns.{CvePattern}
use aiss_waf_server.Agent.Yara.{Scanner}
use aiss_waf_server.Agent.Pipeline.{Cached, HashStore, Pipeline}

-- A regular expression matches a text that begins with an exclamation mark.
abbrev pub runtime : Runtime
runtime = record {
  search = λ re text. elim text [ [] ↦ none | c ∷ t ↦ if c == 33 then some (c ∷ t) else none ];
  find_all = λ re text. [];
  unquote_plus = λ text. text;
  decode_utf8 = λ text. text;
  encode_utf8 = λ text. text;
  b64decode = λ text. some (65 ∷ 65 ∷ 65 ∷ []);
  sha256 = λ text. text;
}

-- Numbers without fractions in the place of floats.
abbrev pub floats : Floats
floats = record {
  F = ℕ;
  hundredths = λ n. n;
  of_nat = λ n. n;
  add = λ a b. a + b;
  sub = λ a b. a - b;
  mul = λ a b. a;
  div = λ a b. a;
  log2 = λ a. a;
  round = λ n a. a;
  format = λ n a. [];
  show = λ a. [];
  le = leb;
}

abbrev pub store : HashStore
store = record {
  Db = Dict.Dict Text Cached;
  get_file_hash = λ db k. Dict.lookup k db;
  store_file_hash = λ db k v. Dict.insert k v db;
}

abbrev pub scanner : Scanner
scanner = record { available = false; rules = none }

abbrev pub pattern : Text → CvePattern
pattern severity = record {
  cve_id = 1 ∷ [];
  name = [];
  severity = severity;
  description = [];
  compiled = exact_case "!";
}

abbrev pub pipeline : Pipeline floats
pipeline = record {
  mode = 1 ∷ [];
  patterns = pattern (2 ∷ []) ∷ [];
  threshold = 90;
  scanner = scanner;
  has_telemetry = true;
}

abbrev pub request : Request
request = record {
  request_id = [];
  client_ip = [];
  method = none;
  uri = 33 ∷ [];
  query_string = [];
  headers = [];
  content_type = [];
  body = str [];
}
