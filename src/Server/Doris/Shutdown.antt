-- ===== src/Server/Doris/Shutdown.antt =====
-- The events of server/app/doris.py over a run and its shutdown.
use aiss_waf_server.Prelude.{
  ◌≡◌, refl, sym, ap, ◌∙◌, Bool, true, List, [], ◌∷◌, ◌++◌, length, ltb, if◌then◌else◌, Bool-cases,
  inl, inr,
}
use mathlib.Core.List.{append_assoc, append-nil}
use aiss_waf_server.Server.Doris.{
  Event, Writer, Step, enqueue, take, flush, new_writer, has_room, taken, load, step, stop,
  flush_batch_size,
}

module _ (loads : List Event → Bool) (ok : (events : List Event) → loads events ≡ true) where
  unfoldable pub run : List Step → Writer → Writer
  run [] w = w
  run (s ∷ steps) w = run steps (step loads s w)

  -- The events that the queue takes.
  unfoldable pub admitted : Step → Writer → List Event
  admitted (enqueue e) w = if has_room loads w then e ∷ [] else []
  admitted s w = []

  unfoldable pub accepted : List Step → Writer → List Event
  accepted [] w = []
  accepted (s ∷ steps) w = admitted s w ++ accepted steps (step loads s w)

  abbrev pub held : Writer → List Event
  held w = w.loaded ++ (w.batch ++ w.queue)

  taken-held :
      (queue : List Event) (w : Writer)
      → w.queue ≡ queue
      → held (taken loads queue w) ≡ w.loaded ++ (w.batch ++ queue)
  unfolding taken
  taken-held [] w h = ap (λ q. w.loaded ++ (w.batch ++ q)) h
  taken-held (e ∷ queue) w h = elim (Bool-cases (ltb (length w.batch) flush_batch_size)) [
    | inl q ↦ rw q (ap (λ l. w.loaded ++ l) (append_assoc w.batch (e ∷ []) queue))
    | inr q ↦ rw q (ap (λ l. w.loaded ++ (w.batch ++ l)) h)
  ]

  step-held : (s : Step) (w : Writer) → held (step loads s w) ≡ held w ++ admitted s w
  unfolding step admitted load
  step-held (enqueue e) w = elim (Bool-cases (has_room loads w)) [
    | inl h ↦ rw h (
        ap (λ l. w.loaded ++ l) (sym (append_assoc w.batch w.queue (e ∷ [])))
        ∙ sym (append_assoc w.loaded (w.batch ++ w.queue) (e ∷ [])))
    | inr h ↦ rw h (sym (append-nil (held w)))
  ]
  step-held take w = taken-held w.queue w refl ∙ sym (append-nil (held w))
  step-held flush w =
      rw (ok w.batch) (append_assoc w.loaded w.batch w.queue ∙ sym (append-nil (held w)))

  run-held : (steps : List Step) (w : Writer) → held (run steps w) ≡ held w ++ accepted steps w
  unfolding run accepted
  run-held [] w = sym (append-nil (held w))
  run-held (s ∷ steps) w =
      run-held steps (step loads s w)
      ∙ (ap (λ l. l ++ accepted steps (step loads s w)) (step-held s w)
          ∙ append_assoc (held w) (admitted s w) (accepted steps (step loads s w)))

  -- Where every load succeeds: after any steps, the accepted events are those loaded, those of the
  -- batch and those of the queue, in order; the shutdown then loads the queue, and not the batch.
  pub run-stop :
      (steps : List Step)
      → (held (run steps new_writer) ≡ accepted steps new_writer)
        × ((stop loads (run steps new_writer)).loaded
            ≡ (run steps new_writer).loaded ++ (run steps new_writer).queue)
  unfolding stop load new_writer
  run-stop steps = (run-held steps new_writer, rw (ok (run steps new_writer).queue) refl)
