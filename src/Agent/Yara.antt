-- ===== src/Agent/Yara.antt =====
-- agent/security/content/yara_scanner.py. The compiled rules are a parameter: a function from the
-- scanned bytes to the matches, or `none` where the scan times out or fails.
use aiss_waf_server.Prelude.{Bool, true, false, ◌&&◌, Option, none, some, List, [], ◌∷◌, is_some}
use aiss_waf_server.Prelude.Text.{Text, codes}

-- A match, with the metadata that the rule has.
pub record Match : Type 0 where
  pub rule : Text
  pub namespace : Text
  pub severity : Option Text
  pub description : Option Text
  pub tags : List Text

abbrev pub Rules : Type 0
Rules = Text → Option (List Match)

-- `_rules`, and `YARA_AVAILABLE`
pub record Scanner : Type 0 where
  pub available : Bool
  pub rules : Option Rules

pub record YaraResult : Type 0 where
  pub rule_name : Text
  pub namespace : Text
  pub severity : Text
  pub description : Text
  pub tags : List Text

unfoldable pub is_ready : Scanner → Bool
is_ready s = s.available && is_some s.rules

text_or : Text → Option Text → Text
text_or default none = default
text_or default (some t) = t

best : Option (List Match) → Option YaraResult
unfolding codes text_or
best none = none
best (some []) = none
best (some (m ∷ _)) = some (record {
  rule_name = m.rule;
  namespace = m.namespace;
  severity = text_or (codes "HIGH") m.severity;
  description = text_or [] m.description;
  tags = m.tags;
})

run_rules : Option Rules → Text → Option YaraResult
unfolding best
run_rules none content = none
run_rules (some rules) [] = none
run_rules (some rules) (c ∷ content) = best (rules (c ∷ content))

-- The result of a match; `none` is the result with `matched` false.
pub scan : Scanner → Text → Option YaraResult
unfolding run_rules
scan s content = elim s.available [ true ↦ run_rules s.rules content | false ↦ none ]

-- `_load_rules`, also as `reload`: the scanner after it, where the directory gave compiled rules,
-- or gave none because it is missing, empty or does not compile.
pub load_rules : Scanner → Option Rules → Scanner
load_rules s none = s
load_rules s (some compiled) = elim s.available [
  | true ↦ record s { rules = some compiled }
  | false ↦ s
]
