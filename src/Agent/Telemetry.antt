-- ===== src/Agent/Telemetry.antt =====
-- The telemetry buffer, agent/telemetry/buffer.py: the queue, the rounds of the flush thread and
-- the shutdown. The queue is thread-safe, so that the threads' calls are a sequence of steps.
pub mod Flow
use aiss_waf_server.Prelude.{
  ℕ, zero, suc, ◌+◌, Bool, true, false, ◌||◌, Option, none, some, List, [], ◌∷◌, ◌++◌, length, ltb,
  ◌==◌, if◌then◌else◌,
}

-- The constructor's arguments, and what is called: `flush_fn` if there is one, which says whether
-- it returned, and the database if there is one, with the same of its `store_event`.
pub record Config (Event : Type 0) : Type 0 where
  pub capacity : ℕ
  pub batch_size : ℕ
  pub flush_fn : Option (List Event → Bool)
  pub store_event : Option (Event → Bool)

-- `stored` is what the database has taken and `sent` what the server has.
pub record Buffer (Event : Type 0) : Type 0 where
  pub queue : List Event
  pub dropped : ℕ
  pub flushed : ℕ
  pub stored : List Event
  pub sent : List Event

module _ {Event : Type 0} (c : Config Event) where
  unfoldable pub new_buffer : Buffer Event
  new_buffer = record { queue = []; dropped = 0; flushed = 0; stored = []; sent = [] }

  -- A queue.Queue of maxsize 0 is never full.
  pub has_room : Buffer Event → Bool
  has_room b = c.capacity == 0 || ltb (length b.queue) c.capacity

  pub put : Bool → Event → Buffer Event → Bool × Buffer Event
  put true e b = (true, record b { queue = b.queue ++ (e ∷ []) })
  put false e b = (false, record b { dropped = suc b.dropped })

  pub send : Event → Buffer Event → Bool × Buffer Event
  unfolding put
  send e b = put (has_room b) e b

  -- The loop of `_drain_batch`; `rounds` counts the tests of the clock that are in time.
  pub drain : (rounds : ℕ) (batch queue : List Event) → List Event × List Event
  drain zero batch queue = (batch, queue)
  drain (suc rounds) batch [] = (batch, [])
  drain (suc rounds) batch (e ∷ queue) =
      let rest = drain rounds (batch ++ (e ∷ [])) queue in
      if ltb (length batch) c.batch_size then rest else (batch, e ∷ queue)

  pub store_all : (Event → Bool) → List Event → List Event → List Event
  store_all ok [] stored = stored
  store_all ok (e ∷ batch) stored =
      if ok e then store_all ok batch (stored ++ (e ∷ [])) else store_all ok batch stored

  pub store : Option (Event → Bool) → List Event → Buffer Event → Buffer Event
  unfolding store_all
  store none batch b = b
  store (some ok) batch b = record b { stored = store_all ok batch b.stored }

  pub deliver : Option (List Event → Bool) → List Event → Buffer Event → Buffer Event
  deliver none batch b = b
  deliver (some ok) batch b =
      if ok batch
      then record b { sent = b.sent ++ batch; flushed = b.flushed + length batch }
      else b

  pub flush : List Event → Buffer Event → Buffer Event
  flush batch b = deliver c.flush_fn batch (store c.store_event batch b)

  -- if batch: self._flush(batch)
  pub flush_drained : List Event × List Event → Buffer Event → Buffer Event
  flush_drained ([], queue) b = record b { queue = queue }
  flush_drained (e ∷ batch, queue) b = flush (e ∷ batch) (record b { queue = queue })

  -- One round of `_flush_loop`; `stop` does the same once, after the loop is told to end.
  pub flush_round : ℕ → Buffer Event → Buffer Event
  unfolding flush_drained
  flush_round rounds b = flush_drained (drain rounds [] b.queue) b

  pub stop : ℕ → Buffer Event → Buffer Event
  stop = flush_round
