-- ===== src/Agent/Config.antt =====
-- The agent's configuration, agent/config/config.py: the defaults, one file of `key = value` lines,
-- and environment variables over it. Attributes of the configuration other than its fields are left
-- out: a key of the file that names no field has no effect.
pub mod Files
pub mod Precedence
mod Tests
use aiss_waf_server.Prelude.{
  ℕ, Bool, true, false, not, Option, none, some, String, List, [], ◌∷◌, ◌++◌, ◌==◌, map,
  if◌then◌else◌,
}
use mathlib.Core.List.{reverse}
use aiss_waf_server.Prelude.Text.{Text, codes, before, after, strip, upper, starts_with}
use aiss_waf_server.Prelude.Int.{ℤ, pos, int_of}
use aiss_waf_server.Prelude.Dict
use aiss_waf_server.Prelude.Dict.{Dict, text_keys}

pub data Value (F : Type 0) : Type 0 where
  text : Text → Value F
  int : ℤ → Value F
  float : F → Value F

-- Python's float: its constructor from a text, and the literals of the defaults.
pub record Floating : Type 1 where
  pub F : Type 0
  pub float_of : Text → Option F
  pub one : F
  pub block_threshold : F
  pub socket_timeout : F

unfoldable pub char_or : ℕ → ℕ → ℕ → ℕ
char_or a b c = if c == a then b else c

-- s.replace("-", "_")
unfoldable pub underscored : Text → Text
unfolding char_or
underscored = map (char_or b'-' b'_')

-- s.strip(c)
lstrip_char : ℕ → Text → Text
lstrip_char c [] = []
lstrip_char c (a ∷ s) = if a == c then lstrip_char c s else a ∷ s

unfoldable pub strip_char : ℕ → Text → Text
unfolding lstrip_char
strip_char c s = reverse (lstrip_char c (reverse (lstrip_char c s)))

has_char : ℕ → Text → Bool
has_char c [] = false
has_char c (a ∷ s) = if a == c then true else has_char c s

unfoldable pub assignment : Text → Option (Text × Text)
unfolding has_char
assignment [] = none
assignment (c ∷ line) =
    if c == b'#'
    then none
    else if has_char b'=' (c ∷ line)
    then some (
      underscored (strip (before b'=' (c ∷ line))),
      strip_char 39 (strip_char b'"' (strip (after b'=' (c ∷ line)))),
    )
    else none

-- What a line of the file assigns, if it does.
unfoldable pub parse_line : Text → Option (Text × Text)
unfolding assignment
parse_line line = assignment (strip line)

-- "AISS_" and the name in upper case
unfoldable pub env_key : Text → Text
unfolding codes
env_key name = codes "AISS_" ++ upper name

-- The files that are looked for; the first is the argument of `load_config`, if it is given.
unfoldable pub paths : (root : Text) (config_path : Option Text) → List Text
unfolding codes
paths root config_path =
    elim config_path [ none ↦ [] | some path ↦ path ]
    ∷ codes "/etc/aiss/aiss.conf"
    ∷ (root ++ codes "/aiss.conf")
    ∷ []

-- What raises ends what follows.
unfoldable pub and_then : {A B : Type 0} → Option A → (A → Option B) → Option B
and_then none f = none
and_then (some a) f = f a

module _ (fl : Floating) where
  abbrev pub AgentConfig : Type 0
  AgentConfig = Dict Text (Value fl.F)

  -- field_type(val): a value of the type of the present one, or an exception.
  unfoldable pub convert : Value fl.F → Text → Option (Value fl.F)
  convert (text t) val = some (text val)
  convert (int i) val = elim (int_of val) [ none ↦ none | some j ↦ some (int j) ]
  convert (float f) val = elim (fl.float_of val) [ none ↦ none | some g ↦ some (float g) ]

  unfoldable pub set_converted : Text → Option (Value fl.F) → AgentConfig → AgentConfig
  set_converted key none cfg = cfg
  set_converted key (some v) cfg = Dict.insert key v cfg

  -- A key that names no field, and a value that does not convert, are passed over.
  unfoldable pub set_present : Text → Text → Option (Value fl.F) → AgentConfig → AgentConfig
  unfolding set_converted
  set_present key val none cfg = cfg
  set_present key val (some v) cfg = set_converted key (convert v val) cfg

  unfoldable pub assign : Option (Text × Text) → AgentConfig → AgentConfig
  unfolding set_present
  assign none cfg = cfg
  assign (some (key, val)) cfg = set_present key val (Dict.lookup key cfg) cfg

  unfoldable pub load_file : List Text → AgentConfig → AgentConfig
  unfolding assign parse_line
  load_file [] cfg = cfg
  load_file (line ∷ lines) cfg = load_file lines (assign (parse_line line) cfg)

  -- The first of the paths that names a file is loaded, and no other.
  unfoldable pub load_first :
      (files : Text → Option (List Text)) → List Text → AgentConfig → AgentConfig
  load_first files [] cfg = cfg
  load_first files ([] ∷ paths) cfg = load_first files paths cfg
  load_first files ((c ∷ path) ∷ paths) cfg = elim (files (c ∷ path)) [
    | none ↦ load_first files paths cfg
    | some lines ↦ load_file lines cfg
  ]

  -- One field's value under an environment variable; `none` outside is the exception.
  unfoldable pub override : Option Text → Option (Value fl.F) → Option (Option (Value fl.F))
  override none o = some o
  override (some val) none = some none
  override (some val) (some v) = elim (convert v val) [ none ↦ none | some w ↦ some (some w) ]

  unfoldable pub put : Text → Option (Value fl.F) → AgentConfig → AgentConfig
  put name none cfg = cfg
  put name (some v) cfg = Dict.insert name v cfg

  -- The loop over the fields; here the exception of a conversion ends the start.
  unfoldable pub load_env : Dict Text Text → List Text → AgentConfig → Option AgentConfig
  unfolding override put and_then
  load_env env [] cfg = some cfg
  load_env env (name ∷ names) cfg =
      and_then (override (Dict.lookup (env_key name) env) (Dict.lookup name cfg))
        (λ o. load_env env names (put name o cfg))

  unfoldable pub defaults : (project_root : Text) → AgentConfig
  defaults root =
      (codes "agent_id", text [])
      ∷ (codes "server_url", text (codes "http://localhost:8080"))
      ∷ (codes "socket_path", text (codes "/tmp/aiss.sock"))
      ∷ (codes "duckdb_path", text (codes "/var/lib/aiss/aiss.duckdb"))
      ∷ (codes "model_path", text (codes "/var/lib/aiss/model.onnx"))
      ∷ (codes "log_level", text (codes "INFO"))
      ∷ (codes "mode", text (codes "enforce"))
      ∷ (codes "api_key", text [])
      ∷ (codes "rules_dir", text (root ++ codes "/rules/yara"))
      ∷ (codes "patterns_file", text (root ++ codes "/rules/hyperscan/cve_patterns.json"))
      ∷ (codes "verdict_cache_ttl", int (pos 60))
      ∷ (codes "telemetry_batch_size", int (pos 1000))
      ∷ (codes "telemetry_flush_interval", float fl.one)
      ∷ (codes "cve_sync_interval", int (pos 3600))
      ∷ (codes "model_check_interval", int (pos 21600))
      ∷ (codes "content_full_scan_limit", int (pos 10240))
      ∷ (codes "content_sample_scan_limit", int (pos 1048576))
      ∷ (codes "ml_block_threshold", float fl.block_threshold)
      ∷ (codes "socket_timeout", float fl.socket_timeout)
      ∷ []

  unfoldable pub names : AgentConfig → List Text
  names cfg = map (λ field. field.0) cfg

  unfoldable pub identified : (uuid : Text) → Option (Value fl.F) → AgentConfig → AgentConfig
  unfolding codes
  identified uuid (some (text [])) cfg = Dict.insert (codes "agent_id") (text uuid) cfg
  identified uuid _ cfg = cfg

  unfoldable pub from_file :
      (root : Text) (config_path : Option Text) (files : Text → Option (List Text)) → AgentConfig
  unfolding load_first defaults paths
  from_file root config_path files = load_first files (paths root config_path) (defaults root)

  unfoldable pub load_config :
      (root uuid : Text) (config_path : Option Text) (files : Text → Option (List Text))
      → (env : Dict Text Text) → Option AgentConfig
  unfolding load_env names identified from_file and_then
  load_config root uuid config_path files env =
      and_then (load_env env (names (defaults root)) (from_file root config_path files))
        (λ cfg. some (identified uuid (Dict.lookup (codes "agent_id") cfg) cfg))
