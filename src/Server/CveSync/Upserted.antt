-- ===== src/Server/CveSync/Upserted.antt =====
-- What the table cve_signatures holds of a CVE after `_upsert_patterns` of server/app/cve_sync.py.
use aiss_waf_server.Prelude.{
  ℕ, suc, ◌+◌, ◌≡◌, refl, ap, ◌∙◌, Bool, false, ◌&&◌, not, Option, none, some, List, [], ◌∷◌,
  length, is_empty, if◌then◌else◌, arith,
}
use aiss_waf_server.Prelude.Text.{Text, text_eq, text_eq_iff, elem}
use aiss_waf_server.Agent.Floats.{Floats}
use aiss_waf_server.Server.CveSync.Entry.{Entry, Row}
use aiss_waf_server.Server.CveSync.Upsert.{
  find_row, row_of, upsert, written, write_all, upsert_patterns,
}

text_eq_sym : (a b : Text) → text_eq a b ≡ text_eq b a
text_eq_sym a b = ground (arith, text_eq_iff a b, text_eq_iff b a)

module _ (fl : Floats) where
  -- The first entry of a CVE that has a pattern.
  unfoldable pub first_entry : Text → List (Entry fl) → Option (Entry fl)
  first_entry cve [] = none
  first_entry cve (p ∷ ps) =
      if text_eq p.cve_id cve && not (is_empty p.pattern) then some p else first_entry cve ps

  -- The row of a CVE, given the entry for it.
  unfoldable pub merged : (Text → Bool) → Option (Entry fl) → Option (Row fl) → Option (Row fl)
  merged valid none old = old
  merged valid (some p) old = if valid p.pattern then some (row_of fl p old) else old

  find_row-upsert :
      (cve : Text) (p : Entry fl) (rows : List (Row fl))
      → find_row fl cve (upsert fl p rows) ≡ (
          if text_eq p.cve_id cve
          then some (row_of fl p (find_row fl cve rows))
          else find_row fl cve rows)
  unfolding find_row upsert row_of
  find_row-upsert cve p [] = refl
  find_row-upsert cve p (r ∷ rows) = ground (
    arith,
    text_eq_iff r.entry.cve_id p.cve_id,
    text_eq_iff p.cve_id cve,
    text_eq_iff r.entry.cve_id cve,
    find_row-upsert cve p rows,
  )

  module _ (valid : Text → Bool) (refuses : List (Row fl) → Entry fl → Bool)
      (ok : (rows : List (Row fl)) (p : Entry fl) → refuses rows p ≡ false) (cve : Text) where
    abbrev found : List Text → List (Entry fl) → ℕ → List (Row fl) → Option (Row fl)
    found seen ps n rows =
        find_row fl cve (write_all fl refuses (written fl valid seen ps) n rows).1

    abbrev expected : Bool → Option (Entry fl) → Option (Row fl) → Option (Row fl)
    expected b p old = if b then old else merged valid p old

    find_row-written :
        (seen : List Text) (ps : List (Entry fl)) (n : ℕ) (rows : List (Row fl))
        → is_empty cve ≡ false
        → found seen ps n rows
          ≡ expected (elem cve seen) (first_entry cve ps) (find_row fl cve rows)
    unfolding written write_all first_entry merged elem
    find_row-written seen [] n rows e = ground arith
    find_row-written seen (p ∷ ps) n rows e = ground (
      arith,
      text_eq_iff p.cve_id cve,
      text_eq_iff cve p.cve_id,
      find_row-written seen ps n rows e,
      find_row-written (p.cve_id ∷ seen) ps n rows e,
      find_row-written (p.cve_id ∷ seen) ps (suc n) (upsert fl p rows) e,
      find_row-upsert cve p rows,
      ok rows p,
    )

    count-write_all :
        (ps : List (Entry fl)) (n : ℕ) (rows : List (Row fl))
        → (write_all fl refuses ps n rows).0 ≡ some (n + length ps)
    unfolding write_all
    count-write_all [] n rows = ap some (omega arith)
    count-write_all (p ∷ ps) n rows =
        rw (ok rows p) (count-write_all ps (suc n) (upsert fl p rows) ∙ ap some (omega arith))

    -- Where the database takes every row: after a batch, the row of a CVE is as the first entry for it
    -- that has a pattern makes it, if that compiles, and as before otherwise; the count is that of the
    -- entries that were written.
    pub upsert_patterns-row :
        (ps : List (Entry fl)) (rows : List (Row fl))
        → is_empty cve ≡ false
        → (find_row fl cve (upsert_patterns fl valid refuses ps rows).1
            ≡ merged valid (first_entry cve ps) (find_row fl cve rows))
          × ((upsert_patterns fl valid refuses ps rows).0 ≡ some (length (written fl valid [] ps)))
    unfolding upsert_patterns elem
    upsert_patterns-row ps rows e = (
      find_row-written [] ps 0 rows e,
      count-write_all (written fl valid [] ps) 0 rows ∙ ap some (omega arith),
    )
