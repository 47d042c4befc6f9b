-- ===== src/Server/CveSync/Upsert.antt =====
-- `_upsert_patterns` of server/app/cve_sync.py on the table cve_signatures.
use aiss_waf_server.Prelude.{
  ℕ, suc, Bool, true, Option, none, some, List, [], ◌∷◌, ◌||◌, is_empty, if◌then◌else◌,
}
use aiss_waf_server.Prelude.Text.{Text, text_eq, elem}
use aiss_waf_server.Agent.Floats.{Floats}
use aiss_waf_server.Server.CveSync.Entry.{Entry, Row}

module _ (fl : Floats) where
  -- The first row of a CVE.
  unfoldable pub find_row : Text → List (Row fl) → Option (Row fl)
  find_row cve [] = none
  find_row cve (r ∷ rows) = if text_eq r.entry.cve_id cve then some r else find_row cve rows

  -- The new row of a CVE, and what an existing one becomes.
  unfoldable pub row_of : Entry fl → Option (Row fl) → Row fl
  row_of p none = record { entry = p; active = true }
  row_of p (some r) = record {
    entry = record r.entry { pattern = p.pattern; severity = p.severity; cvss = p.cvss };
    active = true;
  }

  -- SELECT, then INSERT or UPDATE of the first row of the CVE.
  unfoldable pub upsert : Entry fl → List (Row fl) → List (Row fl)
  unfolding row_of
  upsert p [] = row_of p none ∷ []
  upsert p (r ∷ rows) =
      let rest = upsert p rows in
      if text_eq r.entry.cve_id p.cve_id then row_of p (some r) ∷ rows else r ∷ rest

  -- Those that the loop writes: `seen` has the CVEs met, and `valid` says that re.compile accepts a
  -- pattern.
  unfoldable pub written :
      (valid : Text → Bool) (seen : List Text) → List (Entry fl) → List (Entry fl)
  unfolding elem
  written valid seen [] = []
  written valid seen (p ∷ ps) =
      let again = written valid seen ps in
      let rest = written valid (p.cve_id ∷ seen) ps in
      if is_empty p.pattern || is_empty p.cve_id || elem p.cve_id seen
      then again
      else if valid p.pattern
      then p ∷ rest
      else rest

  -- The writes, each its own transaction; `refuses` says where the database raises, which ends the
  -- loop. The count, where nothing raised, and the table.
  unfoldable pub write_all :
      (refuses : List (Row fl) → Entry fl → Bool)
      → List (Entry fl)
      → ℕ
      → List (Row fl)
      → Option ℕ × List (Row fl)
  unfolding upsert
  write_all refuses [] count rows = (some count, rows)
  write_all refuses (p ∷ ps) count rows =
      let rest = write_all refuses ps (suc count) (upsert p rows) in
      if refuses rows p then (none, rows) else rest

  unfoldable pub upsert_patterns :
      (valid : Text → Bool) (refuses : List (Row fl) → Entry fl → Bool)
      → List (Entry fl)
      → List (Row fl)
      → Option ℕ × List (Row fl)
  unfolding written write_all
  upsert_patterns valid refuses ps = write_all refuses (written valid [] ps) 0
