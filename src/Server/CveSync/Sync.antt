-- ===== src/Server/CveSync/Sync.antt =====
-- `sync_all` of server/app/cve_sync.py and the feeds that it takes in turn.
use aiss_waf_server.Prelude.{ℕ, ◌+◌, Bool, Option, none, some, List, if◌then◌else◌}
use aiss_waf_server.Prelude.Text.{Text}
use aiss_waf_server.Agent.Floats.{Floats}
use aiss_waf_server.Server.CveSync.Entry.{Entry, Row}
use aiss_waf_server.Server.CveSync.Handcrafted.{handcrafted_patterns}
use aiss_waf_server.Server.CveSync.Feeds.{KevItem, NvdItem, kev_entries, nvd_entries}
use aiss_waf_server.Server.CveSync.Osv.{OsvItem, targets, osv_entries}
use aiss_waf_server.Server.CveSync.Upsert.{upsert_patterns}

-- What the services answer, and whether a key for NVD is set.
pub record Answers (fl : Floats) : Type 0 where
  pub kev : Option (List KevItem)
  pub osv : Text → Option (List OsvItem)
  pub nvd : Option (List (NvdItem fl))
  pub has_nvd_key : Bool

-- What the worker calls: float, re.compile, and where the database raises.
pub record Calls (fl : Floats) : Type 0 where
  pub parse_float : Text → Option fl.F
  pub valid : Text → Bool
  pub refuses : List (Row fl) → Entry fl → Bool

module _ (fl : Floats) (c : Calls fl) where
  abbrev pub Step : Type 0
  Step = List (Row fl) → Option ℕ × List (Row fl)

  unfoldable pub upsert_entries : List (Entry fl) → Step
  upsert_entries = upsert_patterns fl c.valid c.refuses

  unfoldable pub upsert_handcrafted : Step
  unfolding upsert_entries
  upsert_handcrafted = upsert_entries (handcrafted_patterns fl)

  unfoldable pub sync_cisa_kev : Option (List KevItem) → Step
  unfolding upsert_entries
  sync_cisa_kev none rows = (some 0, rows)
  sync_cisa_kev (some vulns) rows = upsert_entries (kev_entries fl vulns) rows

  unfoldable pub sync_osv : (Text → Option (List OsvItem)) → Step
  unfolding upsert_entries
  sync_osv ask = upsert_entries (osv_entries fl c.parse_float ask targets)

  unfoldable pub sync_nvd : Option (List (NvdItem fl)) → Step
  unfolding upsert_entries
  sync_nvd none rows = (some 0, rows)
  sync_nvd (some vulns) rows = upsert_entries (nvd_entries fl vulns) rows

  -- The total of the counts; an exception of one step leaves out the next.
  unfoldable pub and_then : Step → Option ℕ × List (Row fl) → Option ℕ × List (Row fl)
  and_then step (none, rows) = (none, rows)
  and_then step (some total, rows) =
      let next = step rows in ((elim next.0 [ none ↦ none | some n ↦ some (total + n) ]), next.1)

  unfoldable pub nvd_step : Answers fl → Step
  unfolding sync_nvd
  nvd_step a rows = if a.has_nvd_key then sync_nvd a.nvd rows else (some 0, rows)

  unfoldable pub sync_all : Answers fl → Step
  unfolding and_then nvd_step upsert_handcrafted sync_cisa_kev sync_osv
  sync_all a rows =
      and_then (nvd_step a)
        (and_then (sync_osv a.osv) (and_then (sync_cisa_kev a.kev) (upsert_handcrafted rows)))
