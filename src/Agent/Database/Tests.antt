-- ===== src/Agent/Database/Tests.antt =====
-- Runs of agent/db/duckdb_store.py on small inputs.
use aiss_waf_server.Prelude.{ℕ, ◌≡◌, refl, Bool, true, false, none, some, List, [], ◌∷◌, All, arith}
use aiss_waf_server.Prelude.Text.{codes, text_eq}
use aiss_waf_server.Agent.Database.{
  IpRow, Tables, Statement, set_ip_verdict, cleanup_expired_ips, store_file_hash, set_config, Store,
  Call, write, round, get_ip_verdict, get_file_hash, get_config, is_memory, read_from, new_store,
  write_round, call, run, has_room,
}
use aiss_waf_server.Agent.Database.Writes.{IsWithin, last_of, accepted, taken}
use aiss_waf_server.Agent.Database.Reads.{ip_written, hash_written, config_written}
use aiss_waf_server.Agent.Database.Drained.{run-drained, run-reads, drained}
use aiss_waf_server.Agent.Database.Raising.{write_round-raising, execute_all}

abbrev never : Tables ℕ → Statement ℕ → Bool
never t s = false

abbrev blocked_row : ℕ → IpRow
blocked_row expires_at = record {
  verdict = 1 ∷ [];
  reason = [];
  cve_id = none;
  expires_at = expires_at;
}

abbrev calls : List (Call ℕ)
calls =
    write (set_ip_verdict (7 ∷ []) (blocked_row 60))
    ∷ write (set_ip_verdict (8 ∷ []) (blocked_row 10))
    ∷ round 5
    ∷ write cleanup_expired_ips
    ∷ write (store_file_hash (9 ∷ []) (record { verdict = 2 ∷ []; threat_name = none }))
    ∷ write (set_config (1 ∷ []) (3 ∷ []))
    ∷ round 20
    ∷ write (set_config (1 ∷ []) (4 ∷ []))
    ∷ []

abbrev within : All (IsWithin never 30) calls
within = (tt, (tt, (omega arith, (tt, (tt, (tt, (omega arith, (tt, tt))))))))

run-drained_example : (drained never 30 calls).queue ≡ []
run-drained_example = run-drained never 30 30 calls within

run-reads_example :
    (read_from (codes "a.duckdb") (get_ip_verdict 30 (7 ∷ [])) (drained never 30 calls)
      ≡ some (some (blocked_row 60)))
    × (read_from (codes "a.duckdb") (get_file_hash (9 ∷ [])) (drained never 30 calls)
        ≡ some (some (record { verdict = 2 ∷ []; threat_name = none })))
    × (read_from (codes "a.duckdb") (get_config (1 ∷ [])) (drained never 30 calls)
        ≡ some (some (4 ∷ [])))
unfolding last_of accepted taken has_room new_store call ip_written hash_written config_written
    text_eq is_memory codes
run-reads_example =
    run-reads never (λ t s. refl) 30 calls within (codes "a.duckdb") (7 ∷ []) (9 ∷ []) (1 ∷ [])

abbrev is_config : Tables ℕ → Statement ℕ → Bool
is_config t (set_config k v) = true
is_config t _ = false

abbrev three : Store ℕ
three =
    run never
      (write (store_file_hash (9 ∷ []) (record { verdict = 2 ∷ []; threat_name = none }))
        ∷ write (set_config (1 ∷ []) (3 ∷ []))
        ∷ write (set_ip_verdict (7 ∷ []) (blocked_row 60))
        ∷ [])
      (new_store never)

write_round-raising_example :
    ((write_round is_config 5 three).tables
      ≡ execute_all is_config 5
          (store_file_hash (9 ∷ []) (record { verdict = 2 ∷ []; threat_name = none }) ∷ [])
          three.tables)
    × ((write_round is_config 5 three).queue ≡ [])
unfolding run new_store
write_round-raising_example =
    write_round-raising is_config 5 three
      (store_file_hash (9 ∷ []) (record { verdict = 2 ∷ []; threat_name = none }) ∷ [])
      (set_config (1 ∷ []) (3 ∷ [])) (set_ip_verdict (7 ∷ []) (blocked_row 60) ∷ []) refl refl
      (omega arith) (refl, tt) refl
