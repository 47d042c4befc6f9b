-- ===== src/Server/CveSync/Overridden.antt =====
-- The curated patterns of server/app/cve_sync.py, once the CISA catalogue names their CVEs.
use aiss_waf_server.Prelude.{
  ℕ, ◌+◌, ◌≡◌, refl, ap, ◌∙◌, Bool, true, false, ◌||◌, Option, none, some, List, [], ◌∷◌, ◌++◌,
  is_empty, arith, Bool-cases, inl, inr,
}
use aiss_waf_server.Prelude.Text.{Text, text_eq, text_eq_iff}
use aiss_waf_server.Agent.Floats.{Floats}
use aiss_waf_server.Server.CveSync.Entry.{Entry, Row}
use aiss_waf_server.Server.CveSync.Handcrafted.{handcrafted_patterns}
use aiss_waf_server.Server.CveSync.Product.{product_to_pattern}
use aiss_waf_server.Server.CveSync.Feeds.{KevItem, kev_entries}
use aiss_waf_server.Server.CveSync.Osv.{
  OsvItem, has_id, cve_alias, osv_entry, add_osv, osv_of_target, osv_entries, targets,
}
use aiss_waf_server.Server.CveSync.Upsert.{find_row, row_of}
use aiss_waf_server.Server.CveSync.Upserted.{first_entry, merged, upsert_patterns-row}
use aiss_waf_server.Server.CveSync.Sync.{
  Answers, Calls, Step, upsert_entries, upsert_handcrafted, sync_cisa_kev, sync_osv, nvd_step,
  and_then, sync_all,
}

or-known : (a b : Bool) → (a || b) ≡ false → b ≡ true → ⊥
or-known a b h k = ground arith

module _ (fl : Floats) where
  first_entry-step :
      (cve : Text) (x : Entry fl) (xs ys : List (Entry fl))
      → (first_entry fl cve xs ≡ none → first_entry fl cve (xs ++ ys) ≡ first_entry fl cve ys)
      → first_entry fl cve (x ∷ xs) ≡ none
      → first_entry fl cve ((x ∷ xs) ++ ys) ≡ first_entry fl cve ys
  unfolding first_entry
  first_entry-step cve x xs ys ih h = ground (arith, ih, h)

  first_entry-append :
      (cve : Text) (xs ys : List (Entry fl))
      → first_entry fl cve xs ≡ none
      → first_entry fl cve (xs ++ ys) ≡ first_entry fl cve ys
  unfolding first_entry
  first_entry-append cve [] ys h = refl
  first_entry-append cve (x ∷ xs) ys h =
      first_entry-step cve x xs ys (first_entry-append cve xs ys) h

  module _ (parse_float : Text → Option fl.F) (cve : Text)
      (curated : has_id fl cve (handcrafted_patterns fl) ≡ true) where
    -- OSV leaves the curated CVEs out.
    first_entry-add_osv :
        (target : Text) (v : OsvItem) (pattern : Option Text) (rest : List (Entry fl))
        → first_entry fl cve rest ≡ none
        → first_entry fl cve (add_osv fl parse_float target v pattern rest) ≡ none
    unfolding add_osv osv_entry first_entry
    first_entry-add_osv target v none rest h = h
    first_entry-add_osv target v (some pattern) rest h =
        let alias = cve_alias v.aliases v.id in
        elim (Bool-cases (is_empty v.id || has_id fl alias (handcrafted_patterns fl))) [
          | inl e ↦ rw e h
          | inr e ↦ rw e (elim (Bool-cases (text_eq alias cve)) [
            | inl same ↦ absurd (
                or-known (is_empty v.id) _ e (
                  ap (λ a. has_id fl a (handcrafted_patterns fl)) ((text_eq_iff alias cve).0 same)
                  ∙ curated))
            | inr apart ↦ rw apart h
          ])
        ]

    first_entry-osv_of_target :
        (target : Text) (vulns : List OsvItem)
        → first_entry fl cve (osv_of_target fl parse_float target vulns) ≡ none
    unfolding osv_of_target first_entry
    first_entry-osv_of_target target [] = refl
    first_entry-osv_of_target target (v ∷ vulns) =
        first_entry-add_osv target v (product_to_pattern target []) _
          (first_entry-osv_of_target target vulns)

    first_entry-osv_entries :
        (ask : Text → Option (List OsvItem)) (names : List Text)
        → first_entry fl cve (osv_entries fl parse_float ask names) ≡ none
    unfolding osv_entries first_entry
    first_entry-osv_entries ask [] = refl
    first_entry-osv_entries ask (target ∷ more) =
        first_entry-append cve (asked (ask target)) (osv_entries fl parse_float ask more)
          (lem (ask target))
        ∙ first_entry-osv_entries ask more
      where
        asked : Option (List OsvItem) → List (Entry fl)
        asked o = elim o [ none ↦ [] | some vulns ↦ osv_of_target fl parse_float target vulns ]

        lem : (o : Option (List OsvItem)) → first_entry fl cve (asked o) ≡ none
        lem none = refl
        lem (some vulns) = first_entry-osv_of_target target vulns

module _ (fl : Floats) (c : Calls fl)
    (ok : (rows : List (Row fl)) (p : Entry fl) → c.refuses rows p ≡ false) where
  -- What a step makes of the row of a CVE, and that it returns.
  abbrev Makes : Text → Option (Entry fl) → List (Row fl) → Option ℕ × List (Row fl) → Type 0
  Makes cve e rows done =
      (find_row fl cve done.1 ≡ merged fl c.valid e (find_row fl cve rows))
      × ((n : ℕ) × (done.0 ≡ some n))

  upsert_entries-Makes :
      (cve : Text) (ps : List (Entry fl)) (rows : List (Row fl))
      → is_empty cve ≡ false
      → Makes cve (first_entry fl cve ps) rows (upsert_entries fl c ps rows)
  unfolding upsert_entries
  upsert_entries-Makes cve ps rows e =
      let done = upsert_patterns-row fl c.valid c.refuses ok cve ps rows e in (done.0, (_, done.1))

  and_then-Makes :
      (cve : Text) (e : Option (Entry fl)) (step : Step fl c) (before : Option ℕ × List (Row fl))
      (n : ℕ)
      → before.0 ≡ some n
      → Makes cve e before.1 (step before.1)
      → Makes cve e before.1 (and_then fl c step before)
  unfolding and_then
  and_then-Makes cve e step (none, rows) n h m = ground (arith, h)
  and_then-Makes cve e step (some total, rows) n h (m, (k, returned)) =
      (m, (total + k, rw returned refl))

  nvd_step-Makes :
      (a : Answers fl) (cve : Text) (rows : List (Row fl))
      → a.has_nvd_key ≡ false
      → Makes cve none rows (nvd_step fl c a rows)
  unfolding nvd_step merged
  nvd_step-Makes a cve rows key = rw key (refl, (0, refl))

  sync_cisa_kev-Makes :
      (answer : Option (List KevItem)) (vulns : List KevItem) (cve : Text) (rows : List (Row fl))
      → answer ≡ some vulns
      → is_empty cve ≡ false
      → Makes cve (first_entry fl cve (kev_entries fl vulns)) rows (sync_cisa_kev fl c answer rows)
  unfolding sync_cisa_kev
  sync_cisa_kev-Makes answer vulns cve rows h named =
      rw h (upsert_entries-Makes cve (kev_entries fl vulns) rows named)

  row_of-fields :
      (e : Entry fl) (old : Option (Row fl))
      → ((row_of fl e old).entry.pattern ≡ e.pattern)
        × ((row_of fl e old).entry.severity ≡ e.severity)
        × ((row_of fl e old).active ≡ true)
  unfolding row_of
  row_of-fields e none = (refl, refl, refl)
  row_of-fields e (some r) = (refl, refl, refl)

  sync_all-row :
      (a : Answers fl) (rows : List (Row fl)) (vulns : List KevItem) (cve : Text) (e : Entry fl)
      → a.has_nvd_key ≡ false
      → a.kev ≡ some vulns
      → is_empty cve ≡ false
      → has_id fl cve (handcrafted_patterns fl) ≡ true
      → first_entry fl cve (kev_entries fl vulns) ≡ some e
      → c.valid e.pattern ≡ true
      → find_row fl cve (sync_all fl c a rows).1
        ≡ some (row_of fl e (find_row fl cve (upsert_handcrafted fl c rows).1))
  unfolding sync_all upsert_handcrafted sync_osv merged
  sync_all-row a rows vulns cve e key kev named curated first valid =
      let s1 = upsert_handcrafted fl c rows in
      let m1 = upsert_entries-Makes cve (handcrafted_patterns fl) rows named in
      let m2 =
        and_then-Makes cve _ (sync_cisa_kev fl c a.kev) s1 m1.1.0 m1.1.1
          (sync_cisa_kev-Makes a.kev vulns cve s1.1 kev named) in
      let s2 = and_then fl c (sync_cisa_kev fl c a.kev) s1 in
      let m3 =
        and_then-Makes cve _ (sync_osv fl c a.osv) s2 m2.1.0 m2.1.1
          (upsert_entries-Makes cve (osv_entries fl c.parse_float a.osv targets) s2.1 named) in
      let s3 = and_then fl c (sync_osv fl c a.osv) s2 in
      let m4 =
        and_then-Makes cve none (nvd_step fl c a) s3 m3.1.0 m3.1.1
          (nvd_step-Makes a cve s3.1 key) in
      m4.0
      ∙ (m3.0
          ∙ (ap (λ o. merged fl c.valid o (find_row fl cve s2.1))
                (first_entry-osv_entries fl c.parse_float cve curated a.osv targets)
              ∙ (m2.0 ∙ (rw (first, valid) refl))))

  -- Where the database takes every row and no key for NVD is set: after a synchronisation, the row of
  -- a curated CVE that the CISA catalogue names has the pattern that is made of the product's name, if
  -- that compiles, whatever the table and the other feeds hold.
  pub sync_all-overridden :
      (a : Answers fl) (rows : List (Row fl)) (vulns : List KevItem) (cve : Text) (e : Entry fl)
      → a.has_nvd_key ≡ false
      → a.kev ≡ some vulns
      → is_empty cve ≡ false
      → has_id fl cve (handcrafted_patterns fl) ≡ true
      → first_entry fl cve (kev_entries fl vulns) ≡ some e
      → c.valid e.pattern ≡ true
      → (r : Row fl) × (find_row fl cve (sync_all fl c a rows).1 ≡ some r)
        × (r.entry.pattern ≡ e.pattern)
        × (r.entry.severity ≡ e.severity)
        × (r.active ≡ true)
  unfolding sync_all
  sync_all-overridden a rows vulns cve e key kev named curated first valid =
      let old = find_row fl cve (upsert_handcrafted fl c rows).1 in
      let fields = row_of-fields e old in
      let row = sync_all-row a rows vulns cve e key kev named curated first valid in
      (row_of fl e old, row, fields.0, fields.1, fields.2)
