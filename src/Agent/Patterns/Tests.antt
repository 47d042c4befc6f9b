-- ===== src/Agent/Patterns/Tests.antt =====
-- The theorems on the scan of tier 1 at one pattern and text.
use aiss_waf_server.Prelude.{◌≤◌, ◌≡◌, refl, true, some, [], ◌∷◌, In, inl}
use aiss_waf_server.Agent.Patterns.{CvePattern, scan}
use aiss_waf_server.Agent.Patterns.Worst.{rank, matches, scan-worst}
use aiss_waf_server.Agent.Samples.{runtime, pattern}

scan-worst_example :
    (p : CvePattern) × (scan runtime (pattern (2 ∷ []) ∷ []) (33 ∷ []) ≡ some p)
    × (In p (pattern (2 ∷ []) ∷ [])
        × ((matches runtime (33 ∷ []) p ≡ true) × (rank p ≤ rank (pattern (2 ∷ [])))))
scan-worst_example =
    scan-worst runtime (33 ∷ []) (pattern (2 ∷ []) ∷ []) (pattern (2 ∷ [])) refl (inl refl) refl
