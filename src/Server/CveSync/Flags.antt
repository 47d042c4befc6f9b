-- ===== src/Server/CveSync/Flags.antt =====
-- The flags of the entries that server/app/cve_sync.py makes.
use aiss_waf_server.Prelude.{
  ◌≡◌, refl, false, ◌||◌, Option, none, some, List, [], ◌∷◌, All, All-append, is_empty, Bool-cases,
  inl, inr,
}
use aiss_waf_server.Prelude.Text.{Text, codes, lower, contains, starts_with, lower_char}
use aiss_waf_server.Agent.Floats.{Floats}
use aiss_waf_server.Server.CveSync.Entry.{Entry}
use aiss_waf_server.Server.CveSync.Handcrafted.{handcrafted_patterns, handcrafted}
use aiss_waf_server.Server.CveSync.Product.{product_to_pattern}
use aiss_waf_server.Server.CveSync.Feeds.{
  KevItem, NvdItem, add_kev, kev_entry, kev_entries, add_nvd, nvd_entry, nvd_entries,
  extract_nvd_product,
}
use aiss_waf_server.Server.CveSync.Osv.{
  OsvItem, add_osv, osv_entry, osv_of_target, osv_entries, has_id, cve_alias,
}

module _ (fl : Floats) where
  -- The flags have no letter i, in either case.
  abbrev pub LacksI : Entry fl → Type 0
  LacksI e = contains (lower e.flags) (codes "i") ≡ false

  pub handcrafted-LacksI : All LacksI (handcrafted_patterns fl)
  unfolding handcrafted_patterns handcrafted codes lower lower_char contains starts_with
  handcrafted-LacksI = (refl, (refl, (refl, (refl, (refl, (refl, (refl, (refl, (refl, tt)))))))))

  module _ (parse_float : Text → Option fl.F) where
    add_osv-LacksI :
        (target : Text) (v : OsvItem) (pattern : Option Text) (rest : List (Entry fl))
        → All LacksI rest
        → All LacksI (add_osv fl parse_float target v pattern rest)
    unfolding add_osv osv_entry codes lower lower_char contains starts_with
    add_osv-LacksI target v none rest h = h
    add_osv-LacksI target v (some p) rest h =
        elim (Bool-cases
          (is_empty v.id || has_id fl (cve_alias v.aliases v.id) (handcrafted_patterns fl))) [
            | inl e ↦ rw e h
            | inr e ↦ rw e (refl, h)
          ]

    osv_of_target-LacksI :
        (target : Text) (vulns : List OsvItem)
        → All LacksI (osv_of_target fl parse_float target vulns)
    unfolding osv_of_target
    osv_of_target-LacksI target [] = tt
    osv_of_target-LacksI target (v ∷ vulns) =
        add_osv-LacksI target v (product_to_pattern target []) _ (osv_of_target-LacksI target vulns)

    pub osv_entries-LacksI :
        (ask : Text → Option (List OsvItem)) (names : List Text)
        → All LacksI (osv_entries fl parse_float ask names)
    unfolding osv_entries
    osv_entries-LacksI ask [] = tt
    osv_entries-LacksI ask (target ∷ more) =
        All-append LacksI (asked (ask target)) (osv_entries fl parse_float ask more)
          (lem (ask target)) (osv_entries-LacksI ask more)
      where
        asked : Option (List OsvItem) → List (Entry fl)
        asked o = elim o [ none ↦ [] | some vulns ↦ osv_of_target fl parse_float target vulns ]

        lem : (o : Option (List OsvItem)) → All LacksI (asked o)
        lem none = tt
        lem (some vulns) = osv_of_target-LacksI target vulns

  add_kev-LacksI :
      (v : KevItem) (pattern : Option Text) (rest : List (Entry fl))
      → All LacksI rest
      → All LacksI (add_kev fl v pattern rest)
  unfolding add_kev kev_entry codes lower lower_char contains starts_with
  add_kev-LacksI v none rest h = h
  add_kev-LacksI v (some p) rest h = elim (Bool-cases (is_empty v.cve_id)) [
    | inl e ↦ rw e h
    | inr e ↦ rw e (refl, h)
  ]

  pub kev_entries-LacksI : (vulns : List KevItem) → All LacksI (kev_entries fl vulns)
  unfolding kev_entries
  kev_entries-LacksI [] = tt
  kev_entries-LacksI (v ∷ vulns) =
      add_kev-LacksI v (product_to_pattern v.product v.vendor) _ (kev_entries-LacksI vulns)

  add_nvd-LacksI :
      (v : NvdItem fl) (pattern : Option Text) (rest : List (Entry fl))
      → All LacksI rest
      → All LacksI (add_nvd fl v pattern rest)
  unfolding add_nvd nvd_entry codes lower lower_char contains starts_with
  add_nvd-LacksI v none rest h = h
  add_nvd-LacksI v (some p) rest h = elim (Bool-cases (is_empty v.cve_id)) [
    | inl e ↦ rw e h
    | inr e ↦ rw e (refl, h)
  ]

  pub nvd_entries-LacksI : (vulns : List (NvdItem fl)) → All LacksI (nvd_entries fl vulns)
  unfolding nvd_entries
  nvd_entries-LacksI [] = tt
  nvd_entries-LacksI (v ∷ vulns) =
      add_nvd-LacksI v (product_to_pattern (extract_nvd_product v.configurations) []) _
        (nvd_entries-LacksI vulns)
