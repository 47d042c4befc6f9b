-- ===== src/Agent/Config/Tests.antt =====
-- The theorem on the configuration where the environment and a file name a field.
use aiss_waf_server.Prelude.{ℕ, ◌≡◌, refl, true, Option, none, some, is_some, List, [], ◌∷◌}
use aiss_waf_server.Prelude.Text.{Text, codes, before, strip, upper, text_eq, elem}
use aiss_waf_server.Prelude.Dict
use aiss_waf_server.Prelude.Dict.{Dict, text_keys}
use aiss_waf_server.Agent.Config.{
  Floating, text, underscored, env_key, AgentConfig, convert, load_config, from_file, names,
  defaults, paths, override, load_file,
}
use aiss_waf_server.Agent.Config.Files.{chosen, file_value}
use aiss_waf_server.Agent.Config.Precedence.{load_config-field}

abbrev floating : Floating
floating = record {
  F = ℕ;
  float_of = λ s. none;
  one = 100;
  block_threshold = 85;
  socket_timeout = 1;
}

abbrev files : Text → Option (List Text)
files path = some (codes "mode = shadow" ∷ codes "log-level = 'DEBUG'" ∷ [])

abbrev env : Dict Text Text
env = (codes "AISS_MODE", codes "enforce") ∷ []

abbrev empty : Option (AgentConfig floating) → AgentConfig floating
empty none = []
empty (some cfg) = cfg

abbrev cfg : AgentConfig floating
cfg = empty (load_config floating [] (7 ∷ []) none files env)

found : is_some (load_config floating [] (7 ∷ []) none files env) ≡ true
unfolding load_config names defaults from_file codes text_eq Dict.lookup env_key upper load_file
    strip underscored before convert Dict.insert
found = refl

is_some-empty : (o : Option (AgentConfig floating)) → is_some o ≡ true → o ≡ some (empty o)
is_some-empty none h = cc
is_some-empty (some c) h = refl

loaded : load_config floating [] (7 ∷ []) none files env ≡ some cfg
loaded = is_some-empty (load_config floating [] (7 ∷ []) none files env) found

-- The environment wins.
mode : Dict.lookup (codes "mode") cfg ≡ some (text (codes "enforce"))
unfolding load_config names defaults from_file codes text_eq Dict.lookup env_key upper load_file
    strip underscored before convert Dict.insert
mode = refl

load_config-field_example :
    override floating (Dict.lookup (env_key (codes "log_level")) env) (
      file_value floating
        (codes "log_level")
        (chosen files (paths [] none))
        (Dict.lookup (codes "log_level") (defaults floating [])))
    ≡ some (Dict.lookup (codes "log_level") cfg)
load_config-field_example =
    load_config-field floating [] (7 ∷ []) none files env (codes "log_level") cfg
      (unfold names defaults codes elem text_eq in refl) (unfold codes text_eq in refl) loaded
