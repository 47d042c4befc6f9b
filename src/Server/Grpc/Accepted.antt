-- ===== src/Server/Grpc/Accepted.antt =====
-- Which messages of a batch the queue takes, and what is loaded of one.
use aiss_waf_server.Prelude.{
  ℕ, zero, suc, ◌+◌, ◌-◌, ◌≡◌, refl, sym, ◌∙◌, Bool, true, false, List, [], ◌∷◌, ◌++◌, length,
  length-append, take, map, ltb, lt→ltb, arith,
}
use mathlib.Core.List.{append_assoc, append-nil}
use aiss_waf_server.Prelude.Text.{Text, codes, join, text_eq}
use aiss_waf_server.Prelude.Dict
use aiss_waf_server.Server.Doris.{
  Event, Writer, step, has_room, queue_size, columns, quoted, with_time, csv_row,
}
use aiss_waf_server.Server.Grpc.{Arrival, event_dict, try_enqueue, submit_telemetry}

module _ (loads : List Event → Bool) where
  abbrev with_queue : Writer → List Event → Writer
  with_queue w q = record w { queue = q }

  enqueue-room :
      (e : Event) (w : Writer) (room : ℕ)
      → suc room ≡ queue_size - length w.queue
      → try_enqueue loads e w ≡ (true, with_queue w (w.queue ++ (e ∷ [])))
  unfolding try_enqueue step has_room
  enqueue-room e w room h = rw (lt→ltb (length w.queue) queue_size (omega (arith, h))) refl

  enqueue-full :
      (e : Event) (w : Writer)
      → 0 ≡ queue_size - length w.queue
      → try_enqueue loads e w ≡ (false, w)
  unfolding try_enqueue step has_room
  enqueue-full e w h = rw (full (length w.queue) h) refl
    where
      full : (n : ℕ) → 0 ≡ queue_size - n → ltb n queue_size ≡ false
      full n h = ground (arith, h)

  both :
      (w : Writer) (n m : ℕ) (p q : List Event)
      → n ≡ m
      → p ≡ q
      → ◌≡◌ {A = ℕ × Writer} (n, with_queue w p) (m, with_queue w q)
  both w n m p q e f = λ i. (e i, with_queue w (f i))

  submit-room :
      (room accepted : ℕ) (as' : List Arrival) (w : Writer)
      → room ≡ queue_size - length w.queue
      → let taken = take room (map event_dict as') in
        submit_telemetry loads accepted as' w
        ≡ (accepted + length taken, with_queue w (w.queue ++ taken))
  unfolding submit_telemetry
  submit-room zero accepted [] w h =
      both w accepted (accepted + 0) w.queue (w.queue ++ []) (omega arith)
        (sym (append-nil w.queue))
  submit-room (suc room) accepted [] w h =
      both w accepted (accepted + 0) w.queue (w.queue ++ []) (omega arith)
        (sym (append-nil w.queue))
  submit-room zero accepted (a ∷ as') w h =
      rw (enqueue-full (event_dict a) w h) (submit-room zero accepted as' w h)
  submit-room (suc room) accepted (a ∷ as') w h =
      let w' = with_queue w (w.queue ++ (event_dict a ∷ [])) in
      let rest = take room (map event_dict as') in
      rw (enqueue-room (event_dict a) w room h) (
        submit-room room (suc accepted) as' w'
          (omega (arith, h, length-append w.queue (event_dict a ∷ [])))
        ∙ both w (suc accepted + length rest) (accepted + suc (length rest))
            ((w.queue ++ (event_dict a ∷ [])) ++ rest) (w.queue ++ (event_dict a ∷ rest))
            (omega arith) (append_assoc w.queue (event_dict a ∷ []) rest))

  -- Of a batch, the queue takes the first messages while it has room, in order, and drops the others;
  -- the answer has the number of those that it takes.
  submit_telemetry-accepted :
      (as' : List Arrival) (w : Writer)
      → let taken = take (queue_size - length w.queue) (map event_dict as') in
        submit_telemetry loads 0 as' w ≡ (length taken, record w { queue = w.queue ++ taken })
  submit_telemetry-accepted as' w =
      let taken = take (queue_size - length w.queue) (map event_dict as') in
      submit-room (queue_size - length w.queue) 0 as' w refl
      ∙ both w (0 + length taken) (length taken) (w.queue ++ taken) (w.queue ++ taken) (omega arith)
          refl

-- The line of an accepted message does not depend on when it is loaded: it is the fields of the
-- message in the order of the columns.
pub csv_row-event_dict :
    (now : Text) (a : Arrival)
    → csv_row now (event_dict a)
      ≡ join (b',' ∷ []) (map (λ pair. quoted pair.1) (event_dict a)) ++ (10 ∷ [])
unfolding csv_row columns event_dict with_time Dict.lookup codes text_eq
csv_row-event_dict now a = refl
