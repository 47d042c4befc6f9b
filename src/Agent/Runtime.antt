-- ===== src/Agent/Runtime.antt =====
-- What the agent calls in other libraries, as parameters: the `re` engine, URL decoding, UTF-8 and
-- base64 decoding, SHA-256 and the compiled YARA rules.
use aiss_waf_server.Prelude.{String, Bool, true, false, Option, List}
use aiss_waf_server.Prelude.Text.{Text}

-- A compiled regular expression: its source, and the flags that `re.compile` is given. Flags inside
-- the source, such as (?i), are part of it.
pub record Regex : Type 0 where
  pub pattern : String
  pub ignore_case : Bool
  pub verbose : Bool
  pub dot_all : Bool

abbrev pub ignoring_case : String → Regex
ignoring_case p = record { pattern = p; ignore_case = true; verbose = false; dot_all = false }

abbrev pub exact_case : String → Regex
exact_case p = record { pattern = p; ignore_case = false; verbose = false; dot_all = false }

pub record Runtime : Type 0 where
  -- search(pattern, text): the text of the first match, `m.group(0)`
  pub search : Regex → Text → Option Text
  -- finditer(pattern, text): the texts of all matches
  pub find_all : Regex → Text → List Text
  pub unquote_plus : Text → Text
  -- bytes.decode("utf-8", errors="replace") and str.encode("utf-8")
  pub decode_utf8 : Text → Text
  pub encode_utf8 : Text → Text
  -- base64.b64decode; `none` is binascii.Error
  pub b64decode : Text → Option Text
  -- hashlib.sha256(data).hexdigest()
  pub sha256 : Text → Text
