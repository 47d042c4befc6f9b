-- ===== src/Agent/Telemetry/Flow.antt =====
-- What becomes of the events: order, loss and bounds over any sequence of calls.
use aiss_waf_server.Prelude.{
  ℕ, zero, suc, ◌+◌, ◌-◌, ◌≤◌, ◌<◌, ◌≡◌, refl, sym, ap, ◌∙◌, Bool, true, false, Option, none, some,
  List, [], ◌∷◌, ◌++◌, length, min, ltb, ltb→lt, if◌then◌else◌, length-append, arith, Bool-cases,
  inl, inr,
}
use mathlib.Core.List.{append_assoc, append-nil}
use aiss_waf_server.Agent.Telemetry.{
  Config, Buffer, has_room, put, send, drain, store_all, store, deliver, flush, flush_drained,
  flush_round, stop,
}

pub data Call (Event : Type 0) : Type 0 where
  sends : Event → Call Event
  flushes : (rounds : ℕ) → Call Event

module _ {Event : Type 0} (c : Config Event) where
  abbrev pub step : Call Event → Buffer Event → Buffer Event
  step (sends e) b = (send c e b).1
  step (flushes rounds) b = flush_round c rounds b

  abbrev pub run : List (Call Event) → Buffer Event → Buffer Event
  run [] b = b
  run (k ∷ ks) b = run ks (step k b)

  abbrev pub answered : Call Event → Buffer Event → List Event
  answered (sends e) b = if (send c e b).0 then e ∷ [] else []
  answered (flushes rounds) b = []

  -- The events for which `send` answers True, in order.
  abbrev pub accepted : List (Call Event) → Buffer Event → List Event
  accepted [] b = []
  accepted (k ∷ ks) b = answered k b ++ accepted ks (step k b)

  abbrev pub send_count : List (Call Event) → ℕ
  send_count [] = 0
  send_count (sends e ∷ ks) = suc (send_count ks)
  send_count (flushes rounds ∷ ks) = send_count ks

  drain-append :
      (rounds : ℕ) (batch queue : List Event)
      → (drain c rounds batch queue).0 ++ (drain c rounds batch queue).1 ≡ batch ++ queue
  unfolding drain
  drain-append zero batch queue = refl
  drain-append (suc rounds) batch [] = refl
  drain-append (suc rounds) batch (e ∷ queue) =
      elim (Bool-cases (ltb (length batch) c.batch_size)) [
        | inl h ↦
            rw h (drain-append rounds (batch ++ (e ∷ [])) queue ∙ append_assoc batch (e ∷ []) queue)
        | inr h ↦ rw h refl
      ]

  length-drain :
      (rounds : ℕ) (batch queue : List Event)
      → length (drain c rounds batch queue).1
        ≡ length queue - min rounds (c.batch_size - length batch)
  unfolding drain
  length-drain zero batch queue = omega arith
  length-drain (suc rounds) batch [] = omega arith
  length-drain (suc rounds) batch (e ∷ queue) =
      elim (Bool-cases (ltb (length batch) c.batch_size)) [
        | inl h ↦
            let lt = ltb→lt (length batch) c.batch_size h in
            rw h (
              omega (
                arith,
                length-drain rounds (batch ++ (e ∷ [])) queue,
                length-append batch (e ∷ []),
                lt,
              ))
        | inr h ↦ let ge : c.batch_size ≤ length batch = ground arith in rw h (omega (arith, ge))
      ]

  store_all-kept :
      (ok : Event → Bool)
      → ((e : Event) → ok e ≡ true)
      → (batch stored : List Event) → store_all c ok batch stored ≡ stored ++ batch
  unfolding store_all
  store_all-kept ok h [] stored = sym (append-nil stored)
  store_all-kept ok h (e ∷ batch) stored =
      rw (h e) (store_all-kept ok h batch (stored ++ (e ∷ [])) ∙ append_assoc stored (e ∷ []) batch)

  deliver-kept :
      (f : Option (List Event → Bool)) (batch : List Event) (b : Buffer Event)
      → ((deliver c f batch b).stored ≡ b.stored) × ((deliver c f batch b).queue ≡ b.queue)
  unfolding deliver
  deliver-kept none batch b = (refl, refl)
  deliver-kept (some ok) batch b = elim (Bool-cases (ok batch)) [
    | inl e ↦ rw e (refl, refl)
    | inr e ↦ rw e (refl, refl)
  ]

  put-fifo :
      (room : Bool) (e : Event) (b : Buffer Event)
      → (put c room e b).1.stored ++ (put c room e b).1.queue
        ≡ b.stored ++ b.queue ++ (if (put c room e b).0 then e ∷ [] else [])
  unfolding put
  put-fifo true e b = sym (append_assoc b.stored b.queue (e ∷ []))
  put-fifo false e b = sym (append-nil (b.stored ++ b.queue))

  module _ (ok : Event → Bool) (has_db : c.store_event ≡ some ok)
      (stores : (e : Event) → ok e ≡ true) where
    store-fifo :
        (o : Option (Event → Bool)) (batch queue : List Event) (b : Buffer Event)
        → o ≡ some ok
        → (deliver c c.flush_fn batch (store c o batch (record b { queue = queue }))).stored
            ++ (deliver c c.flush_fn batch (store c o batch (record b { queue = queue }))).queue
          ≡ b.stored ++ (batch ++ queue)
    unfolding store
    store-fifo o batch queue b h =
        rw
          (
            (deliver-kept c.flush_fn batch (store c o batch (record b { queue = queue }))).0,
            (deliver-kept c.flush_fn batch (store c o batch (record b { queue = queue }))).1,
            h,
          )
          (rw (store_all-kept ok stores batch b.stored) (append_assoc b.stored batch queue))

    flush_drained-fifo :
        (d : List Event × List Event) (b : Buffer Event)
        → (flush_drained c d b).stored ++ (flush_drained c d b).queue ≡ b.stored ++ (d.0 ++ d.1)
    unfolding flush_drained flush
    flush_drained-fifo ([], queue) b = refl
    flush_drained-fifo (e ∷ batch, queue) b = store-fifo c.store_event (e ∷ batch) queue b has_db

    step-fifo :
        (k : Call Event) (b : Buffer Event)
        → (step k b).stored ++ (step k b).queue ≡ b.stored ++ b.queue ++ answered k b
    unfolding send flush_round
    step-fifo (flushes rounds) b =
        flush_drained-fifo (drain c rounds [] b.queue) b
        ∙ (ap (λ q. b.stored ++ q) (drain-append rounds [] b.queue)
            ∙ sym (append-nil (b.stored ++ b.queue)))
    step-fifo (sends e) b = put-fifo (has_room c b) e b

    -- Where there is a database and it takes every event, then after any sequence of sends and
    -- flushes the events stored and then those queued are the ones there at first and then the
    -- accepted ones: none is lost, doubled or put in another order.
    pub run-fifo :
        (ks : List (Call Event)) (b : Buffer Event)
        → (run ks b).stored ++ (run ks b).queue ≡ b.stored ++ b.queue ++ accepted ks b
    unfolding send
    run-fifo [] b = sym (append-nil (b.stored ++ b.queue))
    run-fifo (k ∷ ks) b =
        run-fifo ks (step k b)
        ∙ (ap (λ s. s ++ accepted ks (step k b)) (step-fifo k b)
            ∙ append_assoc (b.stored ++ b.queue) (answered k b) (accepted ks (step k b)))

  put-count :
      (room : Bool) (e : Event) (b : Buffer Event)
      → (put c room e b).1.dropped + length (if (put c room e b).0 then e ∷ [] else [])
        ≡ suc b.dropped
  unfolding put
  put-count true e b = omega arith
  put-count false e b = omega arith

  deliver-dropped :
      (f : Option (List Event → Bool)) (batch : List Event) (b : Buffer Event)
      → (deliver c f batch b).dropped ≡ b.dropped
  unfolding deliver
  deliver-dropped none batch b = refl
  deliver-dropped (some ok) batch b = elim (Bool-cases (ok batch)) [
    | inl e ↦ rw e refl
    | inr e ↦ rw e refl
  ]

  store-kept :
      (o : Option (Event → Bool)) (batch : List Event) (b : Buffer Event)
      → ((store c o batch b).dropped ≡ b.dropped) × ((store c o batch b).queue ≡ b.queue)
  unfolding store
  store-kept none batch b = (refl, refl)
  store-kept (some ok) batch b = (refl, refl)

  flush_drained-kept :
      (d : List Event × List Event) (b : Buffer Event)
      → ((flush_drained c d b).dropped ≡ b.dropped) × ((flush_drained c d b).queue ≡ d.1)
  unfolding flush_drained flush
  flush_drained-kept ([], queue) b = (refl, refl)
  flush_drained-kept (e ∷ batch, queue) b =
      let kept = store-kept c.store_event (e ∷ batch) (record b { queue = queue }) in
      let s = store c c.store_event (e ∷ batch) (record b { queue = queue }) in
      (
        deliver-dropped c.flush_fn (e ∷ batch) s ∙ kept.0,
        (deliver-kept c.flush_fn (e ∷ batch) s).1 ∙ kept.1,
      )

  -- Over any sequence of calls, the growth of `dropped` and the accepted events together are as
  -- many as the sends: an event that is not accepted is counted as dropped.
  run-count :
      (ks : List (Call Event)) (b : Buffer Event)
      → (run ks b).dropped + length (accepted ks b) ≡ b.dropped + send_count ks
  unfolding send flush_round
  run-count [] b = refl
  run-count (flushes rounds ∷ ks) b = omega (
    arith,
    run-count ks (flush_round c rounds b),
    (flush_drained-kept (drain c rounds [] b.queue) b).0,
  )
  run-count (sends e ∷ ks) b = omega (
    arith,
    run-count ks (put c (has_room c b) e b).1,
    put-count (has_room c b) e b,
    length-append (answered (sends e) b) (accepted ks (put c (has_room c b) e b).1),
  )

  put-room :
      (room : Bool) (e : Event) (b : Buffer Event)
      → (room ≡ true → length b.queue < c.capacity)
      → length b.queue ≤ c.capacity
      → length (put c room e b).1.queue ≤ c.capacity
  unfolding put
  put-room true e b h k = omega (arith, length-append b.queue (e ∷ []), h refl)
  put-room false e b h k = k

  -- A buffer of a positive capacity never holds more events than that, whatever the calls.
  run-bounded :
      0 < c.capacity
      → (ks : List (Call Event)) (b : Buffer Event) → length b.queue ≤ c.capacity
      → length (run ks b).queue ≤ c.capacity
  unfolding send flush_round has_room
  run-bounded pos [] b h = h
  run-bounded pos (flushes rounds ∷ ks) b h = run-bounded pos ks (flush_round c rounds b) (
      rw (flush_drained-kept (drain c rounds [] b.queue) b).1
        (omega (arith, length-drain rounds [] b.queue, h)))
  run-bounded pos (sends e ∷ ks) b h =
      run-bounded pos ks (put c (has_room c b) e b).1
        (put-room (has_room c b) e b (λ r. ground arith) h)

  -- The shutdown takes one batch: it leaves in the queue whatever is beyond `batch_size` events, or
  -- beyond those that the clock lets it take.
  stop-remaining :
      (rounds : ℕ) (b : Buffer Event)
      → length (stop c rounds b).queue ≡ length b.queue - min rounds c.batch_size
  unfolding stop flush_round
  stop-remaining rounds b =
      rw (flush_drained-kept (drain c rounds [] b.queue) b).1
        (omega (arith, length-drain rounds [] b.queue))
