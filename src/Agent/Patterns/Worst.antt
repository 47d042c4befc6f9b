-- ===== src/Agent/Patterns/Worst.antt =====
-- The scan of tier 1 against its specification: the worst severity among the matching patterns.
use aiss_waf_server.Prelude.{
  ℕ, ◌≤◌, ◌≡◌, refl, sym, ap, ◌∙◌, true, false, Bool, ◌⊎◌, inl, inr, some, List, [], ◌∷◌, leb,
  is_some, is_empty, All, In, All-In, arith, Bool-cases,
}
use aiss_waf_server.Prelude.Text.{Text}
use aiss_waf_server.Agent.Runtime.{Runtime}
use aiss_waf_server.Agent.Patterns.{
  CvePattern, severity_order, insert_pattern, by_severity, first_match, scan,
}

abbrev pub rank : CvePattern → ℕ
rank p = severity_order p.severity

abbrev IsSorted : List CvePattern → Type 0
IsSorted [] = Unit
IsSorted (p ∷ ps) = All (λ q. rank p ≤ rank q) ps × IsSorted ps

insert_pattern-All :
    (P : CvePattern → Type 0) (p : CvePattern) (qs : List CvePattern)
    → P p
    → All P qs
    → All P (insert_pattern p qs)
unfolding insert_pattern
insert_pattern-All P p [] h hs = (h, tt)
insert_pattern-All P p (q ∷ qs) h (k, ks) = elim (Bool-cases (leb (rank p) (rank q))) [
  | inl e ↦ rw e (h, (k, ks))
  | inr e ↦ rw e (k, insert_pattern-All P p qs h ks)
]

insert_pattern-In :
    (p q : CvePattern) (qs : List CvePattern) → (p ≡ q) ⊎ In q qs → In q (insert_pattern p qs)
unfolding insert_pattern
insert_pattern-In p q [] m = m
insert_pattern-In p q (r ∷ qs) m = elim (Bool-cases (leb (rank p) (rank r))) [
  | inl e ↦ rw e m
  | inr e ↦ rw e (behind (insert_pattern-In p q qs) m)
]
  where
    behind :
        ((p ≡ q) ⊎ In q qs → In q (insert_pattern p qs))
        → (p ≡ q) ⊎ In q (r ∷ qs)
        → In q (r ∷ insert_pattern p qs)
    behind go (inl e) = inr (go (inl e))
    behind go (inr (inl e)) = inl e
    behind go (inr (inr h)) = inr (go (inr h))

All-trans :
    (p q : CvePattern) (qs : List CvePattern)
    → rank p ≤ rank q
    → All (λ r. rank q ≤ rank r) qs
    → All (λ r. rank p ≤ rank r) qs
All-trans p q [] h hs = tt
All-trans p q (r ∷ qs) h (k, ks) = (omega arith, All-trans p q qs h ks)

insert_pattern-IsSorted :
    (p : CvePattern) (qs : List CvePattern) → IsSorted qs → IsSorted (insert_pattern p qs)
unfolding insert_pattern
insert_pattern-IsSorted p [] h = (tt, tt)
insert_pattern-IsSorted p (q ∷ qs) (h, hs) = elim (Bool-cases (leb (rank p) (rank q))) [
  | inl e ↦ let le : rank p ≤ rank q = ground arith in rw e ((le, All-trans p q qs le h), (h, hs))
  | inr e ↦
      let le : rank q ≤ rank p = ground arith in
      rw e (insert_pattern-All (λ r. rank q ≤ rank r) p qs le h, insert_pattern-IsSorted p qs hs)
]

by_severity-IsSorted : (ps : List CvePattern) → IsSorted (by_severity ps)
unfolding by_severity
by_severity-IsSorted [] = tt
by_severity-IsSorted (p ∷ ps) = insert_pattern-IsSorted p (by_severity ps) (by_severity-IsSorted ps)

by_severity-All :
    (P : CvePattern → Type 0) (ps : List CvePattern) → All P ps → All P (by_severity ps)
unfolding by_severity
by_severity-All P [] h = tt
by_severity-All P (p ∷ ps) (h, hs) =
    insert_pattern-All P p (by_severity ps) h (by_severity-All P ps hs)

by_severity-In : (q : CvePattern) (ps : List CvePattern) → In q ps → In q (by_severity ps)
unfolding by_severity
by_severity-In q [] m = absurd m
by_severity-In q (p ∷ ps) (inl e) = insert_pattern-In p q (by_severity ps) (inl e)
by_severity-In q (p ∷ ps) (inr m) =
    insert_pattern-In p q (by_severity ps) (inr (by_severity-In q ps m))

All-self :
    (ps qs : List CvePattern) → ((q : CvePattern) → In q ps → In q qs) → All (λ q. In q qs) ps
All-self [] qs h = tt
All-self (p ∷ ps) qs h = (h p (inl refl), All-self ps qs (λ q m. h q (inr m)))

In-by_severity : (q : CvePattern) (ps : List CvePattern) → In q (by_severity ps) → In q ps
In-by_severity q ps m =
    All-In (λ r. In r ps) (by_severity ps) q
      (by_severity-All (λ r. In r ps) ps (All-self ps ps (λ r h. h))) m

module _ (rt : Runtime) (text : Text) where
  abbrev pub matches : CvePattern → Bool
  matches p = is_some (rt.search p.compiled text)

  abbrev Found : List CvePattern → CvePattern → Type 0
  Found ps q =
      (p : CvePattern) × (first_match rt text ps ≡ some p)
      × (In p ps × ((matches p ≡ true) × (rank p ≤ rank q)))

  first_match_lem :
      (ps : List CvePattern) (q : CvePattern)
      → IsSorted ps
      → In q ps
      → matches q ≡ true
      → Found ps q
  unfolding first_match
  first_match_lem [] q h m e = absurd m
  first_match_lem (r ∷ ps) q (h, hs) m e = elim (Bool-cases (matches r)) [
    | inl f ↦ rw f (r, refl, (inl refl, (f, head_least m)))
    | inr f ↦ rw f (later f (first_match_lem ps q hs) m)
  ]
    where
      head_least : In q (r ∷ ps) → rank r ≤ rank q
      head_least (inl g) = rw g (omega arith)
      head_least (inr k) = All-In (λ x. rank r ≤ rank x) ps q h k

      later :
          matches r ≡ false
          → (In q ps → matches q ≡ true → Found ps q)
          → In q (r ∷ ps)
          → (p : CvePattern) × (first_match rt text ps ≡ some p)
            × (In p (r ∷ ps) × ((matches p ≡ true) × (rank p ≤ rank q)))
      later f go (inl g) = let t = sym (ap matches g ∙ e) ∙ f in ground arith
      later f go (inr k) = let (p, s, (i, rest)) = go k e in (p, s, (inr i, rest))

  first_match-In :
      (ps : List CvePattern) (p : CvePattern)
      → first_match rt text ps ≡ some p
      → In p ps × (matches p ≡ true)
  unfolding first_match
  first_match-In [] p = λ h. ground arith
  first_match-In (r ∷ ps) p = elim (Bool-cases (matches r)) [
    | inl f ↦ rw f (λ h. let g : r ≡ p = cc in (inl g, ap matches (sym g) ∙ f))
    | inr f ↦ rw f (λ h. (inr (first_match-In ps p h).0, (first_match-In ps p h).1))
  ]

  -- On a text that is not empty, if a pattern of the list matches, the scan returns a pattern of
  -- the list that matches too and whose severity is no less bad.
  pub scan-worst :
      (patterns : List CvePattern) (q : CvePattern)
      → is_empty text ≡ false
      → In q patterns
      → matches q ≡ true
      → (p : CvePattern) × (scan rt patterns text ≡ some p)
        × (In p patterns × ((matches p ≡ true) × (rank p ≤ rank q)))
  unfolding scan
  scan-worst patterns q e m h =
      let (p, s, (i, rest)) =
        first_match_lem (by_severity patterns) q (by_severity-IsSorted patterns)
          (by_severity-In q patterns m) h in
      rw e (p, s, (In-by_severity p patterns i, rest))

  -- Whatever the scan returns is a pattern of the list that matches.
  scan_sound :
      (patterns : List CvePattern) (p : CvePattern)
      → scan rt patterns text ≡ some p
      → In p patterns × (matches p ≡ true)
  unfolding scan
  scan_sound patterns p = elim (Bool-cases (is_empty text)) [
    | inl e ↦ rw e (λ h. cc)
    | inr e ↦ rw e (λ h. (
      In-by_severity p patterns (first_match-In (by_severity patterns) p h).0,
      (first_match-In (by_severity patterns) p h).1,
    ))
  ]
