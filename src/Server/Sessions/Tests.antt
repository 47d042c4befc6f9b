-- ===== src/Server/Sessions/Tests.antt =====
-- The lock of the server's database at concrete requests.
use aiss_waf_server.Prelude.{ℕ, suc, ◌≡◌, refl, false, Option, some, List, [], ◌∷◌}
use aiss_waf_server.Prelude.Text.{codes, text_eq, starts_with}
use aiss_waf_server.Server.Sessions.{
  Caller, with_db, background, start, Event, begin, go, step, run, needs_lookup, ops, get_db,
  verify_api_key, lookup_api_key, set_thread, assign, advance,
}
use aiss_waf_server.Server.Sessions.Deadlock.{run-deadlocked}

-- An agent with its key, in production.
abbrev agent : Caller ℕ
agent = record { development = false; secret_key = b's' ∷ []; raw = b'k' ∷ [] }

abbrev body : ℕ → Option ℕ
body n = some (suc n)

abbrev before : List (Event ℕ)
before = begin 0 (with_db agent body) ∷ begin 1 (background body) ∷ []

abbrev later : List (Event ℕ)
later = go 0 ∷ go 1 ∷ begin 2 (background body) ∷ go 2 ∷ go 0 ∷ []

run-deadlocked_example :
    let s = step ℕ (go 0) (run ℕ before (start ℕ 7)) in
    let t = run ℕ later s in
    (t.holder ≡ some 0) × (t.db ≡ (run ℕ before (start ℕ 7)).db) × (t.threads 1 ≡ s.threads 1)
unfolding needs_lookup run step assign advance set_thread start ops get_db verify_api_key
    lookup_api_key codes starts_with text_eq
run-deadlocked_example =
    run-deadlocked ℕ 7 before later 0 1 (with_db agent body) refl refl refl refl
