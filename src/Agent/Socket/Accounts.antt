-- ===== src/Agent/Socket/Accounts.antt =====
-- What a connection gets, and what the counters say of it.
use aiss_waf_server.Prelude.{
  ℕ, suc, ◌+◌, ◌≤◌, ◌≡◌, refl, true, Option, none, some, List, [], ◌∷◌, length, ltb, arith,
  Bool-cases, Option-cases, inl, inr, All,
}
use aiss_waf_server.Prelude.Text.{Text}
use aiss_waf_server.Agent.Floats.{Floats}
use aiss_waf_server.Agent.Pipeline.{Action, permit, block, Verdict}
use aiss_waf_server.Agent.Socket.{
  Stats, Recv, read_request, Response, answer, permit_open, Service, Bucket, sent, fail, bucket_of,
  respond, checked, decoded, received, count, handle_connection, as_error, as_blocked, as_permitted,
  as_fail_open, uncounted,
}

module _ (fl : Floats) (sv : Service fl) (timeout : ℕ) where
  -- The response says BLOCK only on the pipeline's own verdict, in time, on the request received.
  abbrev pub IsJustified : Option Text → Response fl → Type 0
  IsJustified text permit_open = Unit
  IsJustified text (answer v latency) =
      (line : Text) × (text ≡ some line)
      × ((r : sv.Req) × (sv.parse line ≡ some r)
          × ((sv.check r ≡ some (v, latency)) × (latency ≤ timeout)))

  sent_open-All :
      (P : Response fl → Type 0) → P permit_open → All P (sent fl sv timeout permit_open)
  unfolding sent
  sent_open-All P h = elim (Bool-cases (sv.sendall permit_open)) [
    | inl e ↦ rw e (h, tt)
    | inr e ↦ rw e tt
  ]

  respond-All :
      (P : Response fl → Type 0)
      → P permit_open
      → (v : Verdict fl) (latency : ℕ) → (latency ≤ timeout → P (answer v latency))
      → All P (respond fl sv timeout v latency).responses
  unfolding respond fail
  respond-All P lenient v latency h = elim (Bool-cases (ltb timeout latency)) [
    | inl e ↦ rw e (sent_open-All P lenient)
    | inr e ↦
        let le : latency ≤ timeout = ground arith in
        rw e (elim (Bool-cases (sv.sendall (answer v latency))) [
          | inl f ↦ rw f (h le, tt)
          | inr f ↦ rw f (sent_open-All P lenient)
        ])
  ]

  checked-All :
      (P : Response fl → Type 0)
      → P permit_open
      → (o : Option (Verdict fl × ℕ))
      → ((v : Verdict fl) (latency : ℕ)
          → o ≡ some (v, latency)
          → latency ≤ timeout
          → P (answer v latency))
      → All P (checked fl sv timeout o).responses
  unfolding checked fail
  checked-All P lenient none h = sent_open-All P lenient
  checked-All P lenient (some (v, latency)) h = respond-All P lenient v latency (h v latency refl)

  decoded-All :
      (P : Response fl → Type 0)
      → P permit_open
      → (o : Option sv.Req)
      → ((r : sv.Req) (v : Verdict fl) (latency : ℕ)
          → o ≡ some r
          → sv.check r ≡ some (v, latency)
          → latency ≤ timeout
          → P (answer v latency))
      → All P (decoded fl sv timeout o).responses
  unfolding decoded fail
  decoded-All P lenient none h = sent_open-All P lenient
  decoded-All P lenient (some r) h =
      checked-All P lenient (sv.check r) (λ v latency. h r v latency refl)

  received-IsJustified :
      (o : Option Text) → All (IsJustified o) (received fl sv timeout o).responses
  unfolding received fail
  received-IsJustified none = sent_open-All (IsJustified none) tt
  received-IsJustified (some []) = sent_open-All (IsJustified (some [])) tt
  received-IsJustified (some (c ∷ text)) =
      decoded-All (IsJustified (some (c ∷ text))) tt (sv.parse (c ∷ text))
        (λ r v latency p k t. (c ∷ text, refl, (r, p, (k, t))))

  -- Every response on a connection that is not the fail-open PERMIT carries the verdict that the
  -- pipeline gave on the request that the received bytes decode to, within the timeout.
  pub handle_connection-IsJustified :
      (rs : List Recv) (s : Stats)
      → All (IsJustified (read_request [] rs)) (handle_connection fl sv timeout rs s).1
  unfolding handle_connection
  handle_connection-IsJustified rs s = received-IsJustified (read_request [] rs)

  -- How many responses, where `sendall` raises for none.
  sent-length :
      ((r : Response fl) → sv.sendall r ≡ true)
      → (r : Response fl) → length (sent fl sv timeout r) ≡ 1
  unfolding sent
  sent-length up r = rw (up r) refl

  respond-length :
      ((r : Response fl) → sv.sendall r ≡ true)
      → (v : Verdict fl) (latency : ℕ) → length (respond fl sv timeout v latency).responses ≡ 1
  unfolding respond
  respond-length up v latency = elim (Bool-cases (ltb timeout latency)) [
    | inl e ↦ rw e (sent-length up permit_open)
    | inr e ↦ rw (e, up (answer v latency)) refl
  ]

  received-length :
      ((r : Response fl) → sv.sendall r ≡ true)
      → (o : Option Text) → length (received fl sv timeout o).responses ≡ 1
  unfolding received fail decoded checked
  received-length up none = sent-length up permit_open
  received-length up (some []) = sent-length up permit_open
  received-length up (some (c ∷ text)) = elim (Option-cases (sv.parse (c ∷ text))) [
    | inl n ↦ rw (n, decoded) (sent-length up permit_open)
    | inr (r, f) ↦
        rw (f, decoded)
          (elim (Option-cases (sv.check r)) [
            | inl n ↦ rw (n, checked) (sent-length up permit_open)
            | inr ((v, latency), k) ↦ rw (k, checked) (respond-length up v latency)
          ])
  ]

  -- Where the connection can be written, every connection gets exactly one response, whatever is
  -- received, parsed, decided or raised.
  pub handle_connection-responds :
      ((r : Response fl) → sv.sendall r ≡ true)
      → (rs : List Recv) (s : Stats) → length (handle_connection fl sv timeout rs s).1 ≡ 1
  unfolding handle_connection
  handle_connection-responds up rs s = received-length up (read_request [] rs)

  pub serve : List (List Recv) → Stats → Stats
  serve [] s = s
  serve (rs ∷ conns) s = serve conns (handle_connection fl sv timeout rs s).0

  abbrev pub quiet : Option Text → ℕ
  quiet (some []) = 1
  quiet _ = 0

  -- The connections that close or time out before a byte.
  pub silent : List (List Recv) → ℕ
  silent [] = 0
  silent (rs ∷ conns) = quiet (read_request [] rs) + silent conns

  abbrev pub counted : Stats → ℕ
  counted s = s.blocked + s.permitted + s.errors + s.fail_open

  abbrev in_bucket : Bucket fl sv timeout → ℕ
  in_bucket uncounted = 0
  in_bucket _ = 1

  count-counted :
      (b : Bucket fl sv timeout) (s : Stats)
      → (counted (count fl sv timeout b s) ≡ counted s + in_bucket b)
        × ((count fl sv timeout b s).total ≡ s.total)
  unfolding count
  count-counted as_blocked s = (omega arith, refl)
  count-counted as_permitted s = (omega arith, refl)
  count-counted as_error s = (omega arith, refl)
  count-counted as_fail_open s = (omega arith, refl)
  count-counted uncounted s = (omega arith, refl)

  bucket_of-counted : (a : Action) → in_bucket (bucket_of fl sv timeout a) ≡ 1
  unfolding bucket_of
  bucket_of-counted permit = refl
  bucket_of-counted block = refl

  respond-counted :
      (v : Verdict fl) (latency : ℕ) → in_bucket (respond fl sv timeout v latency).bucket ≡ 1
  unfolding respond fail bucket_of
  respond-counted v latency = elim (Bool-cases (ltb timeout latency)) [
    | inl e ↦ rw e refl
    | inr e ↦ rw e (elim (Bool-cases (sv.sendall (answer v latency))) [
      | inl f ↦ rw f (bucket_of-counted v.action)
      | inr f ↦ rw f refl
    ])
  ]

  received-counted : (o : Option Text) → in_bucket (received fl sv timeout o).bucket + quiet o ≡ 1
  unfolding received fail decoded checked
  received-counted none = omega arith
  received-counted (some []) = omega arith
  received-counted (some (c ∷ t)) = elim (Option-cases (sv.parse (c ∷ t))) [
    | inl n ↦ rw (n, decoded) (omega arith)
    | inr (r, f) ↦
        rw (f, decoded)
          (elim (Option-cases (sv.check r)) [
            | inl n ↦ rw (n, checked) (omega arith)
            | inr ((v, latency), k) ↦ rw (k, checked) (omega (arith, respond-counted v latency))
          ])
  ]

  -- Over any connections, `total` grows by as many as the four other counters together and the
  -- connections that send nothing, which are answered and counted in none of the four.
  serve-counted :
      (conns : List (List Recv)) (s : Stats)
      → (serve conns s).total + counted s ≡ s.total + counted (serve conns s) + silent conns
  unfolding serve silent handle_connection
  serve-counted [] s = omega arith
  serve-counted (rs ∷ conns) s =
      let started : Stats = record s { total = suc s.total } in
      let b = (received fl sv timeout (read_request [] rs)).bucket in
      omega (
        arith,
        serve-counted conns (count fl sv timeout b started),
        (count-counted b started).0,
        (count-counted b started).1,
        received-counted (read_request [] rs),
      )
