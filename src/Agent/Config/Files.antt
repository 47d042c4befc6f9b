-- ===== src/Agent/Config/Files.antt =====
-- What a file does to one field.
use aiss_waf_server.Prelude.{
  ◌≡◌, refl, ap, ◌∙◌, false, Option, none, some, List, [], ◌∷◌, Bool-cases, Option-cases, inl, inr,
  arith, if◌then◌else◌,
}
use aiss_waf_server.Prelude.Text.{Text, text_eq, text_eq_iff}
use aiss_waf_server.Prelude.Dict
use aiss_waf_server.Prelude.Dict.{Dict, text_keys}
use aiss_waf_server.Agent.Config.{
  Value, Floating, parse_line, AgentConfig, convert, set_converted, set_present, assign, load_file,
  load_first, paths,
}

-- The lines of the first file there is.
pub chosen : (files : Text → Option (List Text)) → List Text → List Text
chosen files [] = []
chosen files ([] ∷ paths) = chosen files paths
chosen files ((c ∷ path) ∷ paths) =
    let rest = chosen files paths in elim (files (c ∷ path)) [ none ↦ rest | some lines ↦ lines ]

module _ (fl : Floating) where
  abbrev pub or_keep : Value fl.F → Option (Value fl.F) → Option (Value fl.F)
  or_keep v none = some v
  or_keep v (some w) = some w

  -- A value that does not convert is passed over.
  abbrev pub converted : Text → Option (Value fl.F) → Option (Value fl.F)
  converted val none = none
  converted val (some v) = or_keep v (convert fl v val)

  abbrev pub assigned : Text → Option (Text × Text) → Option (Value fl.F) → Option (Value fl.F)
  assigned k none o = o
  assigned k (some (key, val)) o = if text_eq key k then converted val o else o

  -- A field's value after a file: the last of its assignments that converts, or the one before.
  pub file_value : Text → List Text → Option (Value fl.F) → Option (Value fl.F)
  file_value k [] o = o
  file_value k (line ∷ lines) o = file_value k lines (assigned k (parse_line line) o)

  set_converted-same :
      (k : Text) (v : Value fl.F) (o : Option (Value fl.F)) (cfg : AgentConfig fl)
      → Dict.lookup k cfg ≡ some v
      → Dict.lookup k (set_converted fl k o cfg) ≡ or_keep v o
  unfolding set_converted
  set_converted-same k v none cfg e = e
  set_converted-same k v (some w) cfg e =
      Dict.lookup-insert k k w cfg ∙ ground (arith, text_eq_iff k k)

  set_present-same :
      (k val : Text) (o : Option (Value fl.F)) (cfg : AgentConfig fl)
      → Dict.lookup k cfg ≡ o
      → Dict.lookup k (set_present fl k val o cfg) ≡ converted val o
  unfolding set_present
  set_present-same k val none cfg e = e
  set_present-same k val (some v) cfg e = set_converted-same k v (convert fl v val) cfg e

  set_converted-other :
      (k key : Text) (o : Option (Value fl.F)) (cfg : AgentConfig fl)
      → text_eq key k ≡ false
      → Dict.lookup k (set_converted fl key o cfg) ≡ Dict.lookup k cfg
  unfolding set_converted
  set_converted-other k key none cfg e = refl
  set_converted-other k key (some v) cfg e = Dict.lookup-insert key k v cfg ∙ rw e

  set_present-other :
      (k key val : Text) (o : Option (Value fl.F)) (cfg : AgentConfig fl)
      → text_eq key k ≡ false
      → Dict.lookup k (set_present fl key val o cfg) ≡ Dict.lookup k cfg
  unfolding set_present
  set_present-other k key val none cfg e = refl
  set_present-other k key val (some v) cfg e = set_converted-other k key (convert fl v val) cfg e

  assign-lookup :
      (k : Text) (a : Option (Text × Text)) (cfg : AgentConfig fl)
      → Dict.lookup k (assign fl a cfg) ≡ assigned k a (Dict.lookup k cfg)
  unfolding assign
  assign-lookup k none cfg = refl
  assign-lookup k (some (key, val)) cfg = elim (Bool-cases (text_eq key k)) [
    | inl same ↦
        rw same
          (rw ((text_eq_iff key k).0 same) (set_present-same k val (Dict.lookup k cfg) cfg refl))
    | inr other ↦ rw other (set_present-other k key val (Dict.lookup key cfg) cfg other)
  ]

  pub load_file-lookup :
      (k : Text) (lines : List Text) (cfg : AgentConfig fl)
      → Dict.lookup k (load_file fl lines cfg) ≡ file_value k lines (Dict.lookup k cfg)
  unfolding load_file file_value
  load_file-lookup k [] cfg = refl
  load_file-lookup k (line ∷ lines) cfg =
      load_file-lookup k lines (assign fl (parse_line line) cfg)
      ∙ ap (file_value k lines) (assign-lookup k (parse_line line) cfg)

  pub load_first-chosen :
      (files : Text → Option (List Text)) (paths : List Text) (cfg : AgentConfig fl)
      → load_first fl files paths cfg ≡ load_file fl (chosen files paths) cfg
  unfolding load_first chosen load_file
  load_first-chosen files [] cfg = refl
  load_first-chosen files ([] ∷ paths) cfg = load_first-chosen files paths cfg
  load_first-chosen files ((c ∷ path) ∷ paths) cfg = elim (Option-cases (files (c ∷ path))) [
    | inl e ↦ rw (e, load_first, chosen) (load_first-chosen files paths cfg)
    | inr (lines, e) ↦ rw (e, load_first, chosen) refl
  ]
