-- ===== src/Server/Gateway/System.antt =====
-- The whole server over time: requests, the threads that write their audit entries in any order,
-- restarts, purges and resets of the audit log.
use aiss_waf_server.Prelude.{ℕ, zero, suc, Bool, Option, none, some, List, [], ◌∷◌}
use aiss_waf_server.Prelude.Text.{Text}
use aiss_waf_server.RateLimit.{RateLimits}
use aiss_waf_server.Audit
use aiss_waf_server.Audit.{
  Library, Partial, Row, AuditRequest, append_to_chain, intact, verify_chain, load_last_chain_hash,
  purge_old_entries, reset_chain,
}
use aiss_waf_server.Audit.History.{fresh, purged}
use aiss_waf_server.Server.Gateway.Headers.{Response}
use aiss_waf_server.Server.Gateway.Stack.{Cors, Arrival, Process, serve}

pub data Event : Type 0 where
  arrive : Arrival → Event
  -- a thread of the pool writes the entry at a position, or fails to
  write : (position now : ℕ) → Bool → Event
  -- the process ends, with the entries that wait, and a new one starts, which can read the table or
  -- cannot
  reboot : ℕ → Bool → Event
  -- what the routes of the audit log do to it: a purge, and a reset that commits or raises
  purge : (days now : ℕ) → Event
  reset : ℕ → Bool → Event

unfoldable pub put_back :
    Partial → Option (Partial × List Partial) → Option (Partial × List Partial)
put_back e none = none
put_back e (some (x, rest)) = some (x, e ∷ rest)

-- The entry at a position, and the others.
unfoldable pub pick : ℕ → List Partial → Option (Partial × List Partial)
unfolding put_back
pick i [] = none
pick zero (e ∷ es) = some (e, es)
pick (suc i) (e ∷ es) = put_back e (pick i es)

-- What the server is started with. What the routes do to the audit log is an event of its own.
pub record Deployment (S : Type 0) : Type 0 where
  pub routes : AuditRequest → S → Option Response × S
  pub cors : Cors
  pub lib : Library
  pub secret : Text
  pub limits : RateLimits

module _ {S : Type 0} (d : Deployment S) where
  -- `exchanges` are the requests so far with their answers, the newest first.
  pub record System : Type 0 where
    pub process : Process d.routes d.cors
    pub audit : Audit.State
    pub exchanges : List (Arrival × Response)

  unfoldable pub write_picked : Option (Partial × List Partial) → ℕ → Bool → System → System
  write_picked none now db_works s = s
  write_picked (some (e, rest)) now db_works s = record s {
    process = record s.process { pending = rest };
    audit = append_to_chain d.lib d.secret s.audit e now db_works;
  }

  unfoldable pub step : Event → System → System
  unfolding write_picked pick
  step (arrive a) s =
      let (r, p) = serve d.routes d.cors a s.process in
      record s { process = p; exchanges = (a, r) ∷ s.exchanges }
  step (write i now db_works) s = write_picked (pick i s.process.pending) now db_works s
  step (purge days now) s = record s {
    audit = purged d.lib d.secret s.audit (purge_old_entries days now s.audit);
  }
  step (reset now commits) s = record s { audit = reset_chain commits s.audit }
  step (reboot now readable) s = record s {
    process = record s.process { limits = d.limits; pending = [] };
    audit = record s.audit { last_hash = load_last_chain_hash readable s.audit.table };
  }

  unfoldable pub run : List Event → System → System
  run [] s = s
  run (e ∷ es) s = run es (step e s)

  unfoldable pub start : S → System
  start state = record {
    process = record { limits = d.limits; state = state; pending = [] };
    audit = fresh d.lib d.secret;
    exchanges = [];
  }
