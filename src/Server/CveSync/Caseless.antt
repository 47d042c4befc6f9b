-- ===== src/Server/CveSync/Caseless.antt =====
-- The rows that server/app/cve_sync.py writes, as server/app/routers/inspect.py compiles them.
use aiss_waf_server.Prelude.{
  ℕ, String, ◌≡◌, Bool, false, ◌&&◌, ◌||◌, Option, none, some, List, [], ◌∷◌, map, All, is_empty,
  Bool-cases, inl, inr,
}
use aiss_waf_server.Prelude.Text.{Text, text_eq, elem}
use aiss_waf_server.Agent.Floats.{Floats}
use aiss_waf_server.Agent.Runtime.{Regex}
use aiss_waf_server.Server.Inspect.{
  CveSignature, CveCache, signature_regex, compile_active, refresh_cve_cache,
}
use aiss_waf_server.Server.CveSync.Entry.{Entry, Row}
use aiss_waf_server.Server.CveSync.Handcrafted.{handcrafted_patterns}
use aiss_waf_server.Server.CveSync.Feeds.{KevItem, NvdItem, kev_entries, nvd_entries}
use aiss_waf_server.Server.CveSync.Osv.{targets, osv_entries}
use aiss_waf_server.Server.CveSync.Upsert.{row_of, upsert, written, write_all, upsert_patterns}
use aiss_waf_server.Server.CveSync.Sync.{
  Answers, Calls, Step, upsert_entries, upsert_handcrafted, sync_cisa_kev, sync_osv, sync_nvd,
  nvd_step, and_then, sync_all,
}
use aiss_waf_server.Server.CveSync.Flags.{
  LacksI, handcrafted-LacksI, osv_entries-LacksI, kev_entries-LacksI, nvd_entries-LacksI,
}

module _ (fl : Floats) where
  abbrev RowLacksI : Row fl → Type 0
  RowLacksI r = LacksI fl r.entry

  upsert-LacksI :
      (p : Entry fl) (rows : List (Row fl))
      → LacksI fl p
      → All RowLacksI rows
      → All RowLacksI (upsert fl p rows)
  unfolding upsert row_of
  upsert-LacksI p [] h hs = (h, tt)
  upsert-LacksI p (r ∷ rows) h (k, ks) = elim (Bool-cases (text_eq r.entry.cve_id p.cve_id)) [
    | inl e ↦ rw e (k, ks)
    | inr e ↦ rw e (k, upsert-LacksI p rows h ks)
  ]

  written-All :
      (P : Entry fl → Type 0) (valid : Text → Bool) (seen : List Text) (ps : List (Entry fl))
      → All P ps
      → All P (written fl valid seen ps)
  unfolding written
  written-All P valid seen [] hs = tt
  written-All P valid seen (p ∷ ps) (h, hs) =
      elim (Bool-cases (is_empty p.pattern || is_empty p.cve_id || elem p.cve_id seen)) [
        | inl e ↦ rw e (written-All P valid seen ps hs)
        | inr e ↦ rw e (elim (Bool-cases (valid p.pattern)) [
          | inl f ↦ rw f (h, written-All P valid (p.cve_id ∷ seen) ps hs)
          | inr f ↦ rw f (written-All P valid (p.cve_id ∷ seen) ps hs)
        ])
      ]

  write_all-LacksI :
      (refuses : List (Row fl) → Entry fl → Bool) (ps : List (Entry fl)) (n : ℕ)
      (rows : List (Row fl))
      → All (LacksI fl) ps
      → All RowLacksI rows
      → All RowLacksI (write_all fl refuses ps n rows).1
  unfolding write_all
  write_all-LacksI refuses [] n rows hs ks = ks
  write_all-LacksI refuses (p ∷ ps) n rows (h, hs) ks = elim (Bool-cases (refuses rows p)) [
    | inl e ↦ rw e ks
    | inr e ↦ rw e (write_all-LacksI refuses ps _ _ hs (upsert-LacksI p rows h ks))
  ]

  module _ (c : Calls fl) where
    -- A step keeps the rows free of the letter.
    abbrev Keeps : Step fl c → Type 0
    Keeps step = (rows : List (Row fl)) → All RowLacksI rows → All RowLacksI (step rows).1

    upsert_entries-Keeps :
        (ps : List (Entry fl)) → All (LacksI fl) ps → Keeps (upsert_entries fl c ps)
    unfolding upsert_entries upsert_patterns
    upsert_entries-Keeps ps hs rows ks =
        write_all-LacksI c.refuses (written fl c.valid [] ps) 0 rows
          (written-All (LacksI fl) c.valid [] ps hs) ks

    sync_cisa_kev-Keeps : (a : Option (List KevItem)) → Keeps (sync_cisa_kev fl c a)
    unfolding sync_cisa_kev
    sync_cisa_kev-Keeps none rows ks = ks
    sync_cisa_kev-Keeps (some vulns) rows ks =
        upsert_entries-Keeps (kev_entries fl vulns) (kev_entries-LacksI fl vulns) rows ks

    sync_nvd-Keeps : (a : Option (List (NvdItem fl))) → Keeps (sync_nvd fl c a)
    unfolding sync_nvd
    sync_nvd-Keeps none rows ks = ks
    sync_nvd-Keeps (some vulns) rows ks =
        upsert_entries-Keeps (nvd_entries fl vulns) (nvd_entries-LacksI fl vulns) rows ks

    nvd_step-Keeps : (a : Answers fl) → Keeps (nvd_step fl c a)
    unfolding nvd_step
    nvd_step-Keeps a rows ks = elim (Bool-cases a.has_nvd_key) [
      | inl e ↦ rw e (sync_nvd-Keeps a.nvd rows ks)
      | inr e ↦ rw e ks
    ]

    and_then-Keeps :
        (step : Step fl c)
        → Keeps step
        → (before : Option ℕ × List (Row fl)) → All RowLacksI before.1
        → All RowLacksI (and_then fl c step before).1
    unfolding and_then
    and_then-Keeps step k (none, rows) ks = ks
    and_then-Keeps step k (some n, rows) ks = k rows ks

    sync_all-Keeps : (a : Answers fl) → Keeps (sync_all fl c a)
    unfolding sync_all upsert_handcrafted sync_osv
    sync_all-Keeps a rows ks =
        let s1 = upsert_handcrafted fl c rows in
        let k1 = upsert_entries-Keeps (handcrafted_patterns fl) (handcrafted-LacksI fl) rows ks in
        let s2 = and_then fl c (sync_cisa_kev fl c a.kev) s1 in
        let k2 = and_then-Keeps (sync_cisa_kev fl c a.kev) (sync_cisa_kev-Keeps a.kev) s1 k1 in
        let s3 = and_then fl c (sync_osv fl c a.osv) s2 in
        let found = osv_entries fl c.parse_float a.osv targets in
        let k3 =
          and_then-Keeps (sync_osv fl c a.osv)
            (upsert_entries-Keeps found (osv_entries-LacksI fl c.parse_float a.osv targets)) s2
            k2 in
        and_then-Keeps (nvd_step fl c a) (nvd_step-Keeps a) s3 k3

    -- The table after several synchronisations.
    unfoldable pub syncs : List (Answers fl) → List (Row fl) → List (Row fl)
    syncs [] rows = rows
    syncs (a ∷ as_given) rows = syncs as_given (sync_all fl c a rows).1

    syncs-LacksI :
        (answers : List (Answers fl)) (rows : List (Row fl))
        → All RowLacksI rows
        → All RowLacksI (syncs answers rows)
    unfolding syncs
    syncs-LacksI [] rows ks = ks
    syncs-LacksI (a ∷ answers) rows ks = syncs-LacksI answers _ (sync_all-Keeps a rows ks)

    -- A row as the inspection reads it, where `literal` is the pattern's text as a string.
    unfoldable pub signature_of : (literal : Text → String) → Row fl → CveSignature
    signature_of literal r = record {
      cve_id = r.entry.cve_id;
      name = r.entry.name;
      pattern = literal r.entry.pattern;
      flags = r.entry.flags;
      active = r.active;
    }

    compile_active-exact :
        (literal : Text → String) (valid : Regex → Bool) (rows : List (Row fl))
        → All RowLacksI rows
        → All
            (λ e. e.0.ignore_case ≡ false)
            (compile_active valid (map (signature_of literal) rows))
    unfolding compile_active signature_regex signature_of
    compile_active-exact literal valid [] ks = tt
    compile_active-exact literal valid (r ∷ rows) (k, ks) =
        elim (Bool-cases (r.active && valid (signature_regex (signature_of literal r)))) [
          | inl e ↦ rw e (k, compile_active-exact literal valid rows ks)
          | inr e ↦ rw e (compile_active-exact literal valid rows ks)
        ]

    -- From an empty table, after any synchronisations, whatever the feeds answer and the database
    -- refuses, every signature that the inspection then loads is compiled without re.IGNORECASE.
    pub syncs-exact :
        (answers : List (Answers fl)) (literal : Text → String) (valid : Regex → Bool) (now : ℕ)
        (cache : CveCache)
        → All
            (λ e. e.0.ignore_case ≡ false)
            (refresh_cve_cache valid
              (some (map (signature_of literal) (syncs answers [])))
              now
              cache).entries
    unfolding refresh_cve_cache
    syncs-exact answers literal valid now cache =
        compile_active-exact literal valid (syncs answers []) (syncs-LacksI answers [] tt)
