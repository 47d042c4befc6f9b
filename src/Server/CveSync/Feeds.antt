-- ===== src/Server/CveSync/Feeds.antt =====
-- What server/app/cve_sync.py makes of the answers of CISA and NVD.
use aiss_waf_server.Prelude.{Option, none, some, List, [], ◌∷◌, ◌++◌, take, is_empty, if◌then◌else◌}
use aiss_waf_server.Prelude.Text.{Text, codes, text_eq, split, strip}
use aiss_waf_server.Agent.Floats.{Floats}
use aiss_waf_server.Server.CveSync.Entry.{Entry, get}
use aiss_waf_server.Server.CveSync.Product.{product_to_pattern}

-- A vulnerability of the CISA catalogue; a missing text is empty.
pub record KevItem : Type 0 where
  pub cve_id : Text
  pub product : Text
  pub vendor : Text
  pub name : Option Text
  pub description : Text

-- A vulnerability of NVD: the descriptions with their languages, the base score of the first metric under each
-- of the three keys, where there is one, and the criteria of each configuration.
pub record NvdItem (fl : Floats) : Type 0 where
  pub cve_id : Text
  pub descriptions : List (Text × Text)
  pub v31 : Option fl.F
  pub v30 : Option fl.F
  pub v2 : Option fl.F
  pub configurations : List (List Text)

first_product : List Text → Option Text
unfolding split
first_product [] = none
first_product (cpe ∷ criteria) = elim (split b':' cpe) [
  | _ ∷ (_ ∷ (_ ∷ (_ ∷ (product ∷ _)))) ↦ some product
  | _ ↦ first_product criteria
]

unfoldable pub extract_nvd_product : List (List Text) → Text
unfolding first_product
extract_nvd_product [] = []
extract_nvd_product (criteria ∷ configs) = elim (first_product criteria) [
  | some product ↦ product
  | none ↦ extract_nvd_product configs
]

english : List (Text × Text) → Text
unfolding text_eq codes
english [] = []
english ((lang, value) ∷ descriptions) =
    if text_eq lang (codes "en") then value else english descriptions

module _ (fl : Floats) where
  unfoldable pub kev_entry : KevItem → Text → Entry fl
  unfolding codes strip
  kev_entry v pattern = record {
    cve_id = v.cve_id;
    name = get v.name v.cve_id;
    pattern = pattern;
    flags = codes "CASELESS";
    severity = codes "HIGH";
    cvss = fl.hundredths 800;
    affected_product = strip (v.vendor ++ (b' ' ∷ v.product));
    source = codes "cisa_kev";
    description = v.description;
  }

  unfoldable pub add_kev : KevItem → Option Text → List (Entry fl) → List (Entry fl)
  unfolding kev_entry
  add_kev v none rest = rest
  add_kev v (some pattern) rest = if is_empty v.cve_id then rest else kev_entry v pattern ∷ rest

  unfoldable pub kev_entries : List KevItem → List (Entry fl)
  unfolding add_kev product_to_pattern
  kev_entries [] = []
  kev_entries (v ∷ vulns) = add_kev v (product_to_pattern v.product v.vendor) (kev_entries vulns)

  nvd_score : NvdItem fl → fl.F
  nvd_score v = get v.v31 (get v.v30 (get v.v2 (fl.hundredths 0)))

  unfoldable pub nvd_entry : NvdItem fl → Text → Entry fl
  unfolding codes nvd_score english extract_nvd_product
  nvd_entry v pattern = record {
    cve_id = v.cve_id;
    name = v.cve_id;
    pattern = pattern;
    flags = codes "CASELESS";
    severity = codes "CRITICAL";
    cvss = nvd_score v;
    affected_product = extract_nvd_product v.configurations;
    source = codes "nvd";
    description = take 512 (english v.descriptions);
  }

  unfoldable pub add_nvd : NvdItem fl → Option Text → List (Entry fl) → List (Entry fl)
  unfolding nvd_entry
  add_nvd v none rest = rest
  add_nvd v (some pattern) rest = if is_empty v.cve_id then rest else nvd_entry v pattern ∷ rest

  unfoldable pub nvd_entries : List (NvdItem fl) → List (Entry fl)
  unfolding add_nvd product_to_pattern extract_nvd_product
  nvd_entries [] = []
  nvd_entries (v ∷ vulns) =
      add_nvd v (product_to_pattern (extract_nvd_product v.configurations) []) (nvd_entries vulns)
