-- ===== src/Audit/Tests.antt =====
-- The theorems on the audit chain at concrete tables.
use mathlib.Core.Path.{ap}
use aiss_waf_server.Prelude.{
  ℕ, ◌+◌, ◌*◌, ◌≡◌, ◌≢◌, ◌↔◌, refl, true, false, some, List, [], ◌∷◌, drop, length, arith,
}
use aiss_waf_server.Prelude.Text.{Text, codes}
use aiss_waf_server.Audit.{
  Library, genesis, Partial, Row, payload, compute_chain_hash, expected, entry, broken, intact,
  verify_chain, order_by_timestamp, load_last_chain_hash, day, purge_old_entries,
}
use aiss_waf_server.Audit.Chain
use aiss_waf_server.Audit.History.{
  Event, append, restart, reset, purge, fresh, history, verify_chain-history, verify_chain_iff,
}
use aiss_waf_server.Audit.Breaks.{verify_chain-purge}
use aiss_waf_server.Audit.Tamper.{verify_chain-forged, verify_chain-shifted}

-- A function without collisions in the place of the HMAC.
abbrev library : Library
library = record {
  hmac_sha256 = λ k p. 0 ∷ p;
  isoformat = λ t. t ∷ [];
  read_isoformat = λ t. t ∷ [];
}

abbrev part : ℕ → Partial
part id = record {
  id = id ∷ [];
  actor = 9 ∷ 124 ∷ 8 ∷ [];
  client_ip = [];
  method = 71 ∷ [];
  path = 47 ∷ [];
  query = [];
  status = 200;
  elapsed_ms = 3;
  user_agent = [];
}

abbrev row_1 : Row
row_1 = entry library [] (fresh library []) (part 1) 10

abbrev row_2 : Row
row_2 = entry library [] (record { last_hash = row_1.chain_hash; table = row_1 ∷ [] }) (part 2) 20

abbrev events : List (Event library [])
events =
    append (part 1) 10 true
    ∷ reset 12 true
    ∷ append (part 1) 13 true
    ∷ restart 15 true
    ∷ purge 30 16
    ∷ append (part 2) 20 true
    ∷ reset 25 false
    ∷ []

verify_chain-history_example :
    (verify_chain library [] (history library [] (fresh library []) events).table
      ≡ intact (length (history library [] (fresh library []) events).table))
    × ((history library [] (fresh library []) events).last_hash
        ≡ load_last_chain_hash true (history library [] (fresh library []) events).table)
verify_chain-history_example =
    verify_chain-history library [] (λ t. refl) events
      (tt, (tt, (tt, (refl, (refl, (tt, (tt, tt)))))))
      (
        omega arith,
        (
          omega arith,
          (omega arith, (omega arith, (omega arith, (omega arith, (omega arith, tt))))),
        ),
      )

verify_chain_iff_example :
    ((verify_chain library [] (row_1 ∷ row_2 ∷ [])).ok ≡ true)
    ↔ Chain.IsChained library [] genesis (order_by_timestamp (row_1 ∷ row_2 ∷ []))
verify_chain_iff_example = verify_chain_iff library [] (row_1 ∷ row_2 ∷ [])

two_rows-IsLinked :
    Chain.IsLinked library [] 20
      (record { last_hash = row_2.chain_hash; table = row_1 ∷ row_2 ∷ [] })
unfolding entry compute_chain_hash expected payload genesis codes
two_rows-IsLinked = record {
  chronological = ((omega arith, tt), (tt, tt));
  past = (omega arith, (omega arith, tt));
  chained = (refl, refl, (refl, refl, tt));
  pointer = refl;
}

abbrev first_code : Text → ℕ
first_code [] = 0
first_code (c ∷ t) = c

no_genesis : (k p : Text) → library.hmac_sha256 k p ≢ genesis
unfolding genesis codes
no_genesis k p e = omega (arith, ap first_code e)

verify_chain-purge_example :
    (purge_old_entries 180
        (15 + 180 * day)
        (record { last_hash = row_2.chain_hash; table = row_1 ∷ row_2 ∷ [] })
      ≡ some (record { last_hash = row_2.chain_hash; table = row_2 ∷ [] }))
    × (verify_chain library [] (row_2 ∷ []) ≡ broken 0 row_2)
unfolding entry day
verify_chain-purge_example =
    verify_chain-purge library [] no_genesis 20 180 (15 + 180 * day) row_2.chain_hash row_1 row_2 []
      [] (omega arith) two_rows-IsLinked (omega arith, tt) (omega arith)

-- Row 1 with another method under the same hash.
abbrev forged : Row
forged = record row_1 { part = record row_1.part { method = 80 ∷ [] } }

verify_chain-forged_example : verify_chain library [] (forged ∷ row_2 ∷ []) ≡ broken 0 forged
unfolding entry compute_chain_hash expected payload genesis codes
verify_chain-forged_example =
    verify_chain-forged library [] (λ p q e. ap (drop 1) e) [] (row_2 ∷ []) row_1 forged tt refl
      refl (λ e. omega (arith, ap (λ t. first_code (drop 14 t)) e)) ((omega arith, tt), (tt, tt))

verify_chain-shifted_example :
    verify_chain library [] (row_1 ∷ row_2 ∷ [])
    ≡ verify_chain library [] (
        row_1
        ∷ record row_2 {
          part = record row_2.part { actor = 9 ∷ []; method = 8 ∷ []; path = 71 ∷ 124 ∷ 47 ∷ [] };
        }
        ∷ [])
unfolding entry
verify_chain-shifted_example =
    verify_chain-shifted library [] (row_1 ∷ []) [] row_2 (9 ∷ []) (8 ∷ []) refl
