-- ===== src/Server/CveSync/Tests.antt =====
-- Synchronisations of server/app/cve_sync.py on small feeds.
use aiss_waf_server.Prelude.{◌≡◌, refl, true, false, none, some, [], ◌∷◌, All, map}
use aiss_waf_server.Prelude.Text.{Text, codes, text_eq, elem}
use aiss_waf_server.Agent.Samples.{floats}
use aiss_waf_server.Server.Inspect.{refresh_cve_cache}
use aiss_waf_server.Server.CveSync.Entry.{Entry, Row}
use aiss_waf_server.Server.CveSync.Product.{product_to_pattern}
use aiss_waf_server.Server.CveSync.Handcrafted.{handcrafted, handcrafted_patterns}
use aiss_waf_server.Server.CveSync.Feeds.{KevItem, kev_entries, kev_entry, add_kev}
use aiss_waf_server.Server.CveSync.Osv.{has_id}
use aiss_waf_server.Server.CveSync.Upsert.{find_row, row_of, upsert_patterns, written}
use aiss_waf_server.Server.CveSync.Upserted.{first_entry, merged, upsert_patterns-row}
use aiss_waf_server.Server.CveSync.Sync.{Answers, Calls, sync_all}
use aiss_waf_server.Server.CveSync.Caseless.{syncs, syncs-exact, signature_of}
use aiss_waf_server.Server.CveSync.Overridden.{sync_all-overridden}

abbrev worker : Calls floats
worker = record { parse_float = λ s. none; valid = λ s. true; refuses = λ rows p. false }

abbrev log4shell : Text
log4shell = codes "CVE-2021-44228"

abbrev log4j_item : KevItem
log4j_item = record {
  cve_id = log4shell;
  product = codes "Log4j2";
  vendor = codes "Apache";
  name = none;
  description = [];
}

abbrev answers : Answers floats
answers = record {
  kev = some (log4j_item ∷ []);
  osv = λ name. none;
  nvd = none;
  has_nvd_key = false;
}

product_to_pattern_log4j :
    product_to_pattern (codes "Log4j2") (codes "Apache") ≡ some (codes "apache")
unfolding product_to_pattern codes text_eq
product_to_pattern_log4j = refl

product_to_pattern_php : product_to_pattern (codes "php") [] ≡ none
unfolding product_to_pattern codes text_eq
product_to_pattern_php = refl

product_to_pattern_dash : product_to_pattern (codes "spring-core") [] ≡ some (codes "spring\\-core")
unfolding product_to_pattern codes text_eq
product_to_pattern_dash = refl

sync_all-overridden_example :
    (r : Row floats) × (find_row floats log4shell (sync_all floats worker answers []).1 ≡ some r)
    × (r.entry.pattern ≡ codes "apache")
    × (r.entry.severity ≡ codes "HIGH")
    × (r.active ≡ true)
unfolding codes product_to_pattern has_id handcrafted_patterns handcrafted text_eq first_entry
    kev_entries kev_entry add_kev
sync_all-overridden_example =
    sync_all-overridden floats worker (λ rows p. refl) answers [] (log4j_item ∷ []) log4shell
      (kev_entry floats log4j_item (codes "apache")) refl refl refl refl refl refl

abbrev one : Entry floats
one = kev_entry floats log4j_item (codes "apache")

upsert_patterns-row_example :
    (find_row floats log4shell
        (upsert_patterns floats worker.valid worker.refuses (one ∷ one ∷ []) []).1
      ≡ some (record { entry = one; active = true }))
    × ((upsert_patterns floats worker.valid worker.refuses (one ∷ one ∷ []) []).0 ≡ some 1)
unfolding codes first_entry merged row_of text_eq kev_entry written elem find_row
upsert_patterns-row_example =
    upsert_patterns-row floats worker.valid worker.refuses (λ rows p. refl) log4shell
      (one ∷ one ∷ []) [] refl

syncs-exact_example :
    All
      (λ e. e.0.ignore_case ≡ false)
      (refresh_cve_cache
        (λ r. true)
        (some (
          map
            (signature_of floats worker (λ t. "x"))
            (syncs floats worker (answers ∷ answers ∷ []) [])))
        5
        (record { entries = []; ts = 0 })).entries
syncs-exact_example =
    syncs-exact floats worker (answers ∷ answers ∷ []) (λ t. "x") (λ r. true) 5
      (record { entries = []; ts = 0 })
