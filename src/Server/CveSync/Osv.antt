-- ===== src/Server/CveSync/Osv.antt =====
-- What server/app/cve_sync.py makes of the answers of OSV.
use aiss_waf_server.Prelude.{
  Bool, false, ◌||◌, Option, none, some, List, [], ◌∷◌, ◌++◌, take, map, is_empty, if◌then◌else◌,
}
use aiss_waf_server.Prelude.Text.{Text, codes, text_eq, starts_with, contains, before, or_else}
use aiss_waf_server.Agent.Floats.{Floats}
use aiss_waf_server.Server.CveSync.Entry.{Entry, get}
use aiss_waf_server.Server.CveSync.Product.{product_to_pattern}
use aiss_waf_server.Server.CveSync.Handcrafted.{handcrafted_patterns}

-- A vulnerability of OSV; `scores` are the scores of its severity list.
pub record OsvItem : Type 0 where
  pub id : Text
  pub aliases : List Text
  pub summary : Text
  pub details : Text
  pub scores : List Text

-- s.split("CVSS:")[1], where it is there: the text between the first two "CVSS:".
skip : Text → Text → Text
skip [] s = s
skip (a ∷ p) [] = []
skip (a ∷ p) (b ∷ s) = skip p s

until_cvss : Text → Text
unfolding starts_with codes
until_cvss [] = []
until_cvss (c ∷ s) = if starts_with (c ∷ s) (codes "CVSS:") then [] else c ∷ until_cvss s

after_cvss : Text → Option Text
unfolding starts_with codes skip until_cvss
after_cvss [] = none
after_cvss (c ∷ s) =
    if starts_with (c ∷ s) (codes "CVSS:")
    then some (until_cvss (skip (codes "CVSS:") (c ∷ s)))
    else after_cvss s

pub cve_alias : List Text → Text → Text
unfolding starts_with codes
cve_alias [] id = id
cve_alias (a ∷ aliases) id = if starts_with a (codes "CVE-") then a else cve_alias aliases id

-- The packages of OSV that are asked for.
unfoldable pub targets : List Text
unfolding codes
targets = map codes (
    "nginx" ∷ "apache" ∷ "openssl" ∷ "php" ∷ "log4j-core" ∷ "spring-core" ∷ "struts2-core"
    ∷ "django" ∷ "flask" ∷ "express" ∷ [])

unfoldable pub has_id : (fl : Floats) → Text → List (Entry fl) → Bool
unfolding text_eq
has_id fl cve [] = false
has_id fl cve (e ∷ es) = text_eq e.cve_id cve || has_id fl cve es

-- `parse_float` is Python's float of a text, `none` where it raises.
module _ (fl : Floats) (parse_float : Text → Option fl.F) where
  -- The score of a severity: 5.0 where it cannot be read.
  unfoldable pub osv_score : Text → fl.F
  unfolding contains codes after_cvss before
  osv_score score =
      if contains score (codes "/")
      then (elim (after_cvss score) [
        | none ↦ fl.hundredths 500
        | some rest ↦ get (parse_float (before b'/' rest)) (fl.hundredths 500)
      ])
      else get (parse_float score) (fl.hundredths 500)

  unfoldable pub osv_severity : fl.F → Text
  unfolding codes
  osv_severity cvss =
      if fl.le (fl.hundredths 900) cvss
      then codes "CRITICAL"
      else if fl.le (fl.hundredths 700) cvss
      then codes "HIGH"
      else codes "MEDIUM"

  -- The loop over the severities ends after the first.
  unfoldable pub osv_rating : List Text → Text × fl.F
  unfolding codes osv_score osv_severity
  osv_rating [] = (codes "MEDIUM", fl.hundredths 500)
  osv_rating (score ∷ _) = (osv_severity (osv_score score), osv_score score)

  unfoldable pub osv_entry : Text → OsvItem → Text → Entry fl
  unfolding cve_alias codes osv_rating
  osv_entry target v pattern =
      let cve = cve_alias v.aliases v.id in
      let rating = osv_rating v.scores in
      record {
        cve_id = cve;
        name = if is_empty v.summary then cve else take 120 v.summary;
        pattern = pattern;
        flags = codes "CASELESS";
        severity = rating.0;
        cvss = rating.1;
        affected_product = target;
        source = codes "osv";
        description = take 512 (or_else v.summary v.details);
      }

  unfoldable pub add_osv : Text → OsvItem → Option Text → List (Entry fl) → List (Entry fl)
  unfolding osv_entry has_id cve_alias handcrafted_patterns
  add_osv target v none rest = rest
  add_osv target v (some pattern) rest =
      if is_empty v.id || has_id fl (cve_alias v.aliases v.id) (handcrafted_patterns fl)
      then rest
      else osv_entry target v pattern ∷ rest

  unfoldable pub osv_of_target : Text → List OsvItem → List (Entry fl)
  unfolding add_osv product_to_pattern
  osv_of_target target [] = []
  osv_of_target target (v ∷ vulns) =
      add_osv target v (product_to_pattern target []) (osv_of_target target vulns)

  -- A package whose query fails is skipped.
  unfoldable pub osv_entries : (Text → Option (List OsvItem)) → List Text → List (Entry fl)
  unfolding osv_of_target
  osv_entries ask [] = []
  osv_entries ask (target ∷ more) =
      (elim (ask target) [ none ↦ [] | some vulns ↦ osv_of_target target vulns ])
      ++ osv_entries ask more
