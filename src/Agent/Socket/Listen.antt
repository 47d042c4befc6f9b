-- ===== src/Agent/Socket/Listen.antt =====
-- The accept loop of agent/socket_server.py, its pool of threads, and the shutdown from another thread.
pub mod Served
use aiss_waf_server.Prelude.{
  ℕ, ◌≡◌, refl, sym, ap, ◌∙◌, Bool, true, false, not, Option, none, some, List, [], ◌∷◌, ◌++◌, map,
  All, All-append, length,
}
use mathlib.Core.List.{append_assoc, append-nil, map-append}
use aiss_waf_server.Agent.Floats.{Floats}
use aiss_waf_server.Agent.Socket.{Stats, no_stats, Recv, Response, Service, handle_connection}
use aiss_waf_server.Agent.Socket.Accounts.{handle_connection-responds}

-- What `accept` gives: a connection with what its peer will send, a timeout, or an OSError.
pub data Accepting : Type 0 where
  connection : List Recv → Accepting
  timed_out os_error : Accepting

-- `check` is the test of the loop; `stop` is called by another thread.
pub data Event : Type 0 where
  check : Event
  accept : Accepting → Event
  work : Event
  stop : Event

module _ (fl : Floats) (sv : Service fl) (timeout : ℕ) where
  -- `looping` until the loop has ended, `accepting` between its test and the return of `accept`,
  -- `shut` once the pool takes no more; `raised` if `start` has ended with an exception. `accepted`
  -- are the connections handed to the pool, `waiting` those that no thread has begun, and `answered`
  -- the others with the responses on them, in the order in which threads begin them.
  pub record Server : Type 0 where
    pub running : Bool
    pub looping : Bool
    pub accepting : Bool
    pub shut : Bool
    pub raised : Bool
    pub accepted : List (List Recv)
    pub waiting : List (List Recv)
    pub answered : List (List Recv × List (Response fl))
    pub stats : Stats

  unfoldable pub start : Server
  start = record {
    running = true;
    looping = true;
    accepting = false;
    shut = false;
    raised = false;
    accepted = [];
    waiting = [];
    answered = [];
    stats = no_stats;
  }

  -- The `finally` of the loop calls `_cleanup`, which the class does not have.
  unfoldable pub end_loop : Server → Server
  end_loop s = record s { looping = false; accepting = false; raised = true }

  -- self._executor.submit, which raises once the pool is shut
  unfoldable pub submit : (shut : Bool) → List Recv → Server → Server
  unfolding end_loop
  submit true rs s = end_loop s
  submit false rs s = record s {
    accepting = false;
    accepted = s.accepted ++ (rs ∷ []);
    waiting = s.waiting ++ (rs ∷ []);
  }

  unfoldable pub on_accept : Accepting → Server → Server
  unfolding submit end_loop
  on_accept (connection rs) s = submit s.shut rs s
  on_accept timed_out s = record s { accepting = false }
  on_accept os_error s = end_loop s

  -- A test of the loop, where the loop is at its test.
  unfoldable pub on_check : (looping accepting running : Bool) → Server → Server
  unfolding end_loop
  on_check true false true s = record s { accepting = true }
  on_check true false false s = end_loop s
  on_check _ _ _ s = s

  unfoldable pub on_return : (accepting : Bool) → Accepting → Server → Server
  unfolding on_accept
  on_return true a s = on_accept a s
  on_return false a s = s

  unfoldable pub handle_all : List (List Recv) → Server → Server
  handle_all [] s = s
  handle_all (rs ∷ waiting) s =
      let (stats, responses) = handle_connection fl sv timeout rs s.stats in
      handle_all waiting (record s {
        waiting = waiting;
        answered = s.answered ++ ((rs, responses) ∷ []);
        stats = stats;
      })

  -- A thread takes the first connection that waits.
  unfoldable pub work_on : List (List Recv) → Server → Server
  work_on [] s = s
  work_on (rs ∷ waiting) s =
      let (stats, responses) = handle_connection fl sv timeout rs s.stats in
      record s { waiting = waiting; answered = s.answered ++ ((rs, responses) ∷ []); stats = stats }

  -- `stop` shuts the pool and waits until what it has taken is done.
  unfoldable pub step : Event → Server → Server
  unfolding on_check on_return work_on handle_all
  step check s = on_check s.looping s.accepting s.running s
  step (accept a) s = on_return s.accepting a s
  step work s = work_on s.waiting s
  step stop s = handle_all s.waiting (record s { running = false; shut = true })

  unfoldable pub run : List Event → Server → Server
  run [] s = s
  run (e ∷ es) s = run es (step e s)
