-- ===== src/Agent/Config/Precedence.antt =====
-- What decides the value of a field: the environment before the file before the default.
use aiss_waf_server.Prelude.{
  ◌≡◌, refl, sym, ap, ◌∙◌, Bool, true, false, not, ◌&&◌, Option, none, some, List, [], ◌∷◌,
  Bool-cases, Option-cases, inl, inr, arith,
}
use aiss_waf_server.Prelude.Text.{Text, codes, text_eq, text_eq_iff, elem}
use aiss_waf_server.Prelude.Dict
use aiss_waf_server.Prelude.Dict.{Dict, text_keys}
use aiss_waf_server.Agent.Config.{
  Value, text, Floating, env_key, AgentConfig, override, put, paths, and_then, load_env, defaults,
  names, identified, from_file, load_config,
}
use aiss_waf_server.Agent.Config.Files.{chosen, file_value, load_file-lookup, load_first-chosen}

abbrev avoids : Text → List Text → Bool
avoids k [] = true
avoids k (name ∷ names) = not (text_eq name k) && avoids k names

abbrev are_distinct : List Text → Bool
are_distinct [] = true
are_distinct (name ∷ names) = avoids name names && are_distinct names

module _ (fl : Floating) where
  put_self :
      (name : Text) (o : Option (Value fl.F)) (cfg : AgentConfig fl)
      → (o ≡ none → Dict.lookup name cfg ≡ none)
      → Dict.lookup name (put fl name o cfg) ≡ o
  unfolding put
  put_self name none cfg h = h refl
  put_self name (some v) cfg h =
      Dict.lookup-insert name name v cfg ∙ ground (arith, text_eq_iff name name)

  put-other :
      (k name : Text) (o : Option (Value fl.F)) (cfg : AgentConfig fl)
      → text_eq name k ≡ false
      → Dict.lookup k (put fl name o cfg) ≡ Dict.lookup k cfg
  unfolding put
  put-other k name none cfg e = refl
  put-other k name (some v) cfg e = Dict.lookup-insert name k v cfg ∙ rw e

  override-none :
      (x : Option Text) (o o' : Option (Value fl.F))
      → override fl x o ≡ some o'
      → o' ≡ none
      → o ≡ none
  unfolding override
  override-none none o o' h e = ground (arith, h, e)
  override-none (some val) none o' h e = refl
  override-none (some val) (some v) o' h e = ground (arith, h, e)

  load_env-cons :
      (env : Dict Text Text) (name : Text) (fields : List Text) (cfg cfg' : AgentConfig fl)
      → load_env fl env (name ∷ fields) cfg ≡ some cfg'
      → (o : Option (Value fl.F)) × (override fl
            (Dict.lookup (env_key name) env)
            (Dict.lookup name cfg)
          ≡ some o)
        × (load_env fl env fields (put fl name o cfg) ≡ some cfg')
  unfolding load_env
  load_env-cons env name fields cfg cfg' =
      elim (Option-cases (override fl (Dict.lookup (env_key name) env) (Dict.lookup name cfg))) [
        | inl e ↦ rw (e, and_then) (λ h. cc)
        | inr (o, e) ↦ rw (e, and_then) (λ h. (o, refl, h))
      ]

  some-eq : (a b : AgentConfig fl) → ◌≡◌ {A = Option (AgentConfig fl)} (some a) (some b) → a ≡ b
  some-eq a b h = cc

  load_env-avoids :
      (env : Dict Text Text) (k : Text) (fields : List Text) (cfg cfg' : AgentConfig fl)
      → avoids k fields ≡ true
      → load_env fl env fields cfg ≡ some cfg'
      → Dict.lookup k cfg' ≡ Dict.lookup k cfg
  unfolding load_env
  load_env-avoids env k [] cfg cfg' a h = ap (λ c. Dict.lookup k c) (sym (some-eq cfg cfg' h))
  load_env-avoids env k (name ∷ fields) cfg cfg' a h =
      let (o, e, rest) = load_env-cons env name fields cfg cfg' h in
      load_env-avoids env k fields (put fl name o cfg) cfg' (ground (arith, a)) rest
      ∙ put-other k name o cfg (ground (arith, a))

  -- Each of the fields has its own variable.
  load_env-field :
      (env : Dict Text Text) (k : Text) (fields : List Text) (cfg cfg' : AgentConfig fl)
      → are_distinct fields ≡ true
      → elem k fields ≡ true
      → load_env fl env fields cfg ≡ some cfg'
      → override fl (Dict.lookup (env_key k) env) (Dict.lookup k cfg) ≡ some (Dict.lookup k cfg')
  unfolding elem
  load_env-field env k [] cfg cfg' d m h = cc
  load_env-field env k (name ∷ fields) cfg cfg' d m h =
      let (o, e, rest) = load_env-cons env name fields cfg cfg' h in
      elim (Bool-cases (text_eq name k)) [
        | inl same ↦
            let kept =
              load_env-avoids env name fields (put fl name o cfg) cfg' (ground (arith, d)) rest
              ∙ put_self name o cfg
                  (override-none (Dict.lookup (env_key name) env) (Dict.lookup name cfg) o e) in
            rw (← (text_eq_iff name k).0 same) (e ∙ ap some (sym kept))
        | inr other ↦ rw (← put-other k name o cfg other) (
            load_env-field env k fields (put fl name o cfg) cfg' (ground (arith, d))
              (ground (arith, m, other, text_eq_iff k name, text_eq_iff name k)) rest)
      ]

  names-distinct : (root : Text) → are_distinct (names fl (defaults fl root)) ≡ true
  unfolding names defaults codes text_eq
  names-distinct root = refl

  identified-other :
      (k uuid : Text) (o : Option (Value fl.F)) (cfg : AgentConfig fl)
      → text_eq (codes "agent_id") k ≡ false
      → Dict.lookup k (identified fl uuid o cfg) ≡ Dict.lookup k cfg
  unfolding identified
  identified-other k uuid (some (text [])) cfg e =
      Dict.lookup-insert (codes "agent_id") k (text uuid) cfg ∙ rw e
  identified-other k uuid _ cfg e = refl

  from_file-lookup :
      (root : Text) (config_path : Option Text) (files : Text → Option (List Text)) (k : Text)
      → Dict.lookup k (from_file fl root config_path files)
        ≡ file_value fl k (chosen files (paths root config_path)) (Dict.lookup k (defaults fl root))
  unfolding from_file
  from_file-lookup root config_path files k =
      ap (λ c. Dict.lookup k c)
        (load_first-chosen fl files (paths root config_path) (defaults fl root))
      ∙ load_file-lookup fl k (chosen files (paths root config_path)) (defaults fl root)

  load_config-loaded :
      (root uuid : Text) (o : Option (AgentConfig fl)) (cfg : AgentConfig fl)
      → and_then o (λ c. some (identified fl uuid (Dict.lookup (codes "agent_id") c) c)) ≡ some cfg
      → (c : AgentConfig fl) × (o ≡ some c)
        × (identified fl uuid (Dict.lookup (codes "agent_id") c) c ≡ cfg)
  unfolding and_then
  load_config-loaded root uuid none cfg h = cc
  load_config-loaded root uuid (some c) cfg h = (c, refl, some-eq _ cfg h)

  -- Where the start succeeds, a field other than agent_id has the value of its environment variable,
  -- if that is set, which then converts to the type of the field; otherwise that of its last
  -- assignment in the first file there is that converts; otherwise its default.
  pub load_config-field :
      (root uuid : Text) (config_path : Option Text) (files : Text → Option (List Text))
      (env : Dict Text Text) (k : Text) (cfg : AgentConfig fl)
      → elem k (names fl (defaults fl root)) ≡ true
      → text_eq (codes "agent_id") k ≡ false
      → load_config fl root uuid config_path files env ≡ some cfg
      → override fl (Dict.lookup (env_key k) env) (
          file_value fl k
            (chosen files (paths root config_path))
            (Dict.lookup k (defaults fl root)))
        ≡ some (Dict.lookup k cfg)
  unfolding load_config
  load_config-field root uuid config_path files env k cfg m e h =
      let (c, loaded, same) = load_config-loaded root uuid _ cfg h in
      rw (← from_file-lookup root config_path files k) (
        load_env-field env k (names fl (defaults fl root)) (from_file fl root config_path files) c
          (names-distinct root) m loaded
        ∙ ap some (
            sym (identified-other k uuid (Dict.lookup (codes "agent_id") c) c e)
            ∙ ap (λ c. Dict.lookup k c) same))
