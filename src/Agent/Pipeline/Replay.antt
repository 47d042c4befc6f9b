-- ===== src/Agent/Pipeline/Replay.antt =====
-- The file-hash cache between two scans of the same targets.
use aiss_waf_server.Prelude.{
  ℕ, ◌≡◌, refl, sym, ap, Bool-cases, inl, inr, ◌∙◌, true, false, Option, none, some, List, ◌∷◌,
  if◌then◌else◌,
}
use aiss_waf_server.Prelude.Text.{Text, text_eq, text_eq_iff}
use aiss_waf_server.Agent.Runtime.{Runtime}
use aiss_waf_server.Agent.Floats.{Floats}
use aiss_waf_server.Agent.Yara.{Scanner}
use aiss_waf_server.Agent.Pipeline.Defs.{Verdict, Cached, HashStore}
use aiss_waf_server.Agent.Pipeline.Content.{
  cached_verdict, scan_target, mark_clean, scan_step, scan_targets,
}

-- A key reads what was last stored under it.
abbrev pub IsStore : HashStore → Type 0
IsStore hs =
    (db : hs.Db) (k : Text) (v : Cached) (j : Text)
    → hs.get_file_hash (hs.store_file_hash db k v) j
      ≡ (if text_eq k j then some v else hs.get_file_hash db j)

text_eq-apart : (a b : Text) → ¬ (a ≡ b) → text_eq a b ≡ false
text_eq-apart a b h = elim (Bool-cases (text_eq a b)) [
  | inl e ↦ absurd (h ((text_eq_iff a b).0 e))
  | inr e ↦ e
]

module _ (rt : Runtime) (fl : Floats) (hs : HashStore) (mode : Text) (scanner : Scanner)
    (content_type : Text) (ms : ℕ) where
  scan_targets-uncached :
      (db : hs.Db) (c : ℕ) (t : Text) (targets : List Text)
      → hs.get_file_hash db (rt.sha256 (c ∷ t)) ≡ none
      → scan_target rt fl hs mode scanner content_type ms (c ∷ t) ≡ none
      → scan_targets rt fl hs mode scanner content_type ms db ((c ∷ t) ∷ targets)
        ≡ scan_targets rt fl hs mode scanner content_type ms
            (mark_clean rt fl hs db (rt.sha256 (c ∷ t)))
            targets
  unfolding scan_targets scan_step
  scan_targets-uncached db c t targets g s = rw (g, s)

  scan_targets-found :
      (db : hs.Db) (c : ℕ) (t : Text) (targets : List Text) (name : Option Text) (v : Verdict fl)
      → hs.get_file_hash db (rt.sha256 (c ∷ t)) ≡ none
      → scan_target rt fl hs mode scanner content_type ms (c ∷ t) ≡ some (name, v)
      → scan_targets rt fl hs mode scanner content_type ms db ((c ∷ t) ∷ targets) ≡ (
        some v,
        hs.store_file_hash db (rt.sha256 (c ∷ t)) (record { malicious = true; threat_name = name }),
      )
  unfolding scan_targets scan_step
  scan_targets-found db c t targets name v g s = rw (g, s)

  -- The early return on a known clean hash, whatever targets follow.
  scan_targets-known_clean :
      (db : hs.Db) (c : ℕ) (t : Text) (targets : List Text) (cached : Cached)
      → hs.get_file_hash db (rt.sha256 (c ∷ t)) ≡ some cached
      → cached.malicious ≡ false
      → scan_targets rt fl hs mode scanner content_type ms db ((c ∷ t) ∷ targets) ≡ (none, db)
  unfolding scan_targets scan_step cached_verdict
  scan_targets-known_clean db c t targets cached g m = rw (g, m)

  -- Let the cache read back what it stored, the scan find nothing in the first target and a threat
  -- in the second, neither hash be in the cache, and the hashes differ. Then the first scan reports the threat, and a second scan
  -- of the same targets, on the cache that the first one leaves, reports nothing.
  pub scan_targets-replay :
      IsStore hs
      → (db : hs.Db) (c : ℕ) (t : Text) (d : ℕ) (u : Text) (targets : List Text)
        (name : Option Text) (v : Verdict fl)
      → ¬ (rt.sha256 (c ∷ t) ≡ rt.sha256 (d ∷ u))
      → hs.get_file_hash db (rt.sha256 (c ∷ t)) ≡ none
      → hs.get_file_hash db (rt.sha256 (d ∷ u)) ≡ none
      → scan_target rt fl hs mode scanner content_type ms (c ∷ t) ≡ none
      → scan_target rt fl hs mode scanner content_type ms (d ∷ u) ≡ some (name, v)
      → ((scan_targets rt fl hs mode scanner content_type ms db ((c ∷ t) ∷ (d ∷ u) ∷ targets)).0
          ≡ some v)
        × ((scan_targets rt fl hs mode scanner content_type ms
              (scan_targets rt fl hs mode scanner content_type ms db
                ((c ∷ t) ∷ (d ∷ u) ∷ targets)).1
              ((c ∷ t) ∷ (d ∷ u) ∷ targets)).0
            ≡ none)
  scan_targets-replay law db c t d u targets name v apart g1 g2 s1 s2 =
      let clean : Cached = record { malicious = false; threat_name = none } in
      let self = (text_eq_iff (rt.sha256 (c ∷ t)) (rt.sha256 (c ∷ t))).1 refl in
      let differ = text_eq-apart (rt.sha256 (c ∷ t)) (rt.sha256 (d ∷ u)) apart in
      let differ' = text_eq-apart (rt.sha256 (d ∷ u)) (rt.sha256 (c ∷ t)) (λ e. apart (sym e)) in
      let db1 = mark_clean rt fl hs db (rt.sha256 (c ∷ t)) in
      let bad : Cached = record { malicious = true; threat_name = name } in
      let first =
        scan_targets-uncached db c t ((d ∷ u) ∷ targets) g1 s1
        ∙ scan_targets-found db1 d u targets name v
            (law db (rt.sha256 (c ∷ t)) clean (rt.sha256 (d ∷ u)) ∙ (rw (differ, g2) refl)) s2 in
      let read =
        law db1 (rt.sha256 (d ∷ u)) bad (rt.sha256 (c ∷ t))
        ∙ ((rw differ' refl)
            ∙ (law db (rt.sha256 (c ∷ t)) clean (rt.sha256 (c ∷ t)) ∙ (rw self refl))) in
      (
        ap (λ s. s.0) first,
        rw first (
            ap (λ s. s.0)
              (scan_targets-known_clean _ c t ((d ∷ u) ∷ targets)
                (record { malicious = false; threat_name = none }) read refl)),
      )
