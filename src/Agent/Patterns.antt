-- ===== src/Agent/Patterns.antt =====
-- Tier 1, agent/security/tier1_patterns.py: the CVE signatures, worst severity first.
pub mod Worst
mod Tests
use aiss_waf_server.Prelude.{
  ℕ, String, Bool, true, false, Option, none, some, List, [], ◌∷◌, length, leb, is_some, is_empty,
  if◌then◌else◌,
}
use aiss_waf_server.Prelude.Text.{Text, codes, text_eq}
use aiss_waf_server.Agent.Runtime.{Regex, Runtime}

-- `cvss` and `affected_product` are carried along and take no part.
pub record CvePattern : Type 0 where
  pub cve_id : Text
  pub name : Text
  pub severity : Text
  pub description : Text
  pub compiled : Regex

pub severity_order : Text → ℕ
unfolding codes
severity_order severity =
    if text_eq severity (codes "CRITICAL")
    then 0
    else if text_eq severity (codes "HIGH")
    then 1
    else if text_eq severity (codes "MEDIUM")
    then 2
    else if text_eq severity (codes "LOW")
    then 3
    else 99

-- sorted(patterns, key=...), which is stable
insert_pattern : CvePattern → List CvePattern → List CvePattern
insert_pattern p [] = p ∷ []
insert_pattern p (q ∷ qs) =
    if leb (severity_order p.severity) (severity_order q.severity)
    then p ∷ q ∷ qs
    else q ∷ insert_pattern p qs

pub by_severity : List CvePattern → List CvePattern
unfolding insert_pattern
by_severity [] = []
by_severity (p ∷ ps) = insert_pattern p (by_severity ps)

module _ (rt : Runtime) where
  pub first_match : Text → List CvePattern → Option CvePattern
  first_match text [] = none
  first_match text (p ∷ ps) =
      if is_some (rt.search p.compiled text) then some p else first_match text ps

  -- `scan` on a `str`: the pattern of the result dict, or `none` where nothing matched.
  pub scan : List CvePattern → Text → Option CvePattern
  unfolding first_match by_severity
  scan patterns text = if is_empty text then none else first_match text (by_severity patterns)

-- A parsed entry of the JSON file; `valid` says that `re.compile` accepts its pattern.
pub record PatternEntry : Type 0 where
  pub pattern : CvePattern
  pub valid : Bool

compile_all : List PatternEntry → List CvePattern
compile_all [] = []
compile_all (e ∷ es) = let rest = compile_all es in if e.valid then e.pattern ∷ rest else rest

-- `load_patterns`, also as `reload`: the engine's patterns after it, where the file gave entries,
-- or gave none because it is missing or cannot be parsed.
pub load_patterns : List CvePattern → Option (List PatternEntry) → List CvePattern
unfolding compile_all
load_patterns patterns none = patterns
load_patterns patterns (some entries) = compile_all entries

pub pattern_count : List CvePattern → ℕ
pattern_count patterns = length patterns
