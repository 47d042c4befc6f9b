-- ===== src/Deployed/Enforced.antt =====
-- What the agent's verdict does at the proxy.
use aiss_waf_server.Prelude.{
  ℕ, ◌≡◌, refl, ap, ◌∙◌, Bool, true, false, ltb, if◌then◌else◌, Option, none, some, [], ◌∷◌, ◌++◌,
  map, Bool-cases, inl, inr,
}
use mathlib.Core.List.{append-nil}
use aiss_waf_server.Prelude.Text.{Text, codes, text_eq}
use aiss_waf_server.Agent.Floats.{Floats}
use aiss_waf_server.Agent.Pipeline.{Action, permit, block, Verdict}
use aiss_waf_server.Agent.Socket.{
  Stats, Response, answer, permit_open, Service, handle_connection, read_request, received, decoded,
  checked, respond, fail, sent,
}
use aiss_waf_server.Agent.Socket
use aiss_waf_server.Proxy.Defs.{
  Settings, Request, Question, Loaded, loaded, Outgoing, Backend, question, receive,
}
use aiss_waf_server.Proxy.Defs
use aiss_waf_server.Proxy.Handle.{
  Decision, block_page, is_block, or_empty, outgoing_of, decided, read_verdict, consult,
  after_receive, parsed, handle, relay, event_of,
}
use aiss_waf_server.Deployed.Lines.{read_request-line, receive-line}
use aiss_waf_server.Deployed.{
  Wire, IsCarried, seen, sent_lines, agent_socket, action_text, nullable, told, blocks, is_blocking,
}

module _ (fl : Floats) (wire : Wire fl) (sv : Service fl) (timeout : ℕ)
    (up : (r : Response fl) → sv.sendall r ≡ true) (zero_float : fl.F) where
  respond-told :
      (v : Verdict fl) (latency : ℕ)
      → (respond fl sv timeout v latency).responses ≡ told fl timeout (some (v, latency)) ∷ []
  unfolding respond told sent
  respond-told v latency = elim (Bool-cases (ltb timeout latency)) [
    | inl e ↦ rw (e, up permit_open) refl
    | inr e ↦ rw (e, up (answer v latency)) refl
  ]

  checked-told :
      (o : Option (Verdict fl × ℕ)) → (checked fl sv timeout o).responses ≡ told fl timeout o ∷ []
  unfolding checked fail sent told
  checked-told none = rw (up permit_open) refl
  checked-told (some (v, latency)) = respond-told v latency

  received-told :
      (text : Text) (req : sv.Req)
      → sv.parse (text ++ (10 ∷ [])) ≡ some req
      → (received fl sv timeout (some (text ++ (10 ∷ [])))).responses
        ≡ told fl timeout (sv.check req) ∷ []
  unfolding received decoded
  received-told [] req e = rw e (checked-told (sv.check req))
  received-told (c ∷ text) req e = rw e (checked-told (sv.check req))

  -- What the handler reads from a response.
  unfoldable pub decision : Response fl → Decision fl.F
  unfolding action_text codes
  decision (answer v latency) = record {
    action = some (action_text v.action);
    reason = some v.reason;
    tier = v.tier;
    cve_id = or_empty (nullable v.cve_id);
    rule_name = [];
    ml_score = v.ml_score;
    latency_ms = wire.millis latency;
  }
  decision permit_open = record {
    action = some (codes "PERMIT");
    reason = some (codes "fail-open");
    tier = 0;
    cve_id = [];
    rule_name = [];
    ml_score = zero_float;
    latency_ms = zero_float;
  }

  read_verdict-seen :
      (r : Response fl) → read_verdict zero_float (loaded (seen fl wire r)) ≡ some (decision r)
  unfolding read_verdict seen decision
  read_verdict-seen (answer v latency) = refl
  read_verdict-seen permit_open = refl

  is_block-action : (a : Action) → is_block (some (action_text a)) ≡ is_blocking a
  unfolding is_block action_text is_blocking codes text_eq
  is_block-action permit = refl
  is_block-action block = refl

  is_block-told :
      (o : Option (Verdict fl × ℕ))
      → is_block (decision (told fl timeout o)).action ≡ blocks fl timeout o
  unfolding decision told blocks
  is_block-told none = is_block-action permit
  is_block-told (some (v, latency)) = elim (Bool-cases (ltb timeout latency)) [
    | inl e ↦ rw e (is_block-action permit)
    | inr e ↦ rw e (is_block-action v.action)
  ]

  module _ (s : Stats) (q : Question) (req : sv.Req)
      (carried : IsCarried fl wire sv q req (told fl timeout (sv.check req))) where
    asked :
        (handle_connection fl sv timeout
          (map Socket.chunk (wire.cut (wire.dumps_question q ++ (10 ∷ []))))
          s).1
        ≡ told fl timeout (sv.check req) ∷ []
    unfolding handle_connection
    asked =
        rw
          (read_request-line [] _ (wire.dumps_question q) carried.question_pieces
            carried.question_line)
          (received-told (wire.dumps_question q) req carried.question_parses)

    consulted :
        consult zero_float wire.loads (agent_socket fl wire sv timeout s q)
        ≡ loaded (seen fl wire (told fl timeout (sv.check req)))
    unfolding consult agent_socket sent_lines after_receive parsed
    consulted =
        let line = wire.dumps_response (told fl timeout (sv.check req)) in
        let lines = ap (sent_lines fl wire) asked ∙ append-nil (line ++ (10 ∷ [])) in
        let received_line =
          ap (λ t. receive [] (map Defs.chunk (wire.cut t))) lines
          ∙ receive-line [] _ line carried.response_pieces carried.response_line
              carried.response_pieces_full in
        ap (after_receive zero_float wire.loads) received_line
        ∙ ap (parsed zero_float) carried.response_loads

    verdict_read :
        read_verdict zero_float
          (consult zero_float wire.loads (agent_socket fl wire sv timeout s q))
        ≡ some (decision (told fl timeout (sv.check req)))
    verdict_read = rw consulted (read_verdict-seen (told fl timeout (sv.check req)))

  decided-blocks :
      (s : Settings) (backend : Outgoing → Backend) (uuid : Text) (r : Request) (d : Decision fl.F)
      (b : Bool)
      → is_block d.action ≡ b
      → ((decided s backend uuid r (some d)).response
          ≡ (if b then block_page d else relay (backend (outgoing_of s r))))
        × ((decided s backend uuid r (some d)).outgoing
            ≡ (if b then none else some (outgoing_of s r)))
        × ((decided s backend uuid r (some d)).event ≡ some (event_of uuid r d))
  unfolding decided
  decided-blocks s backend uuid r d true e = rw e (refl, refl, refl)
  decided-blocks s backend uuid r d false e = rw e (refl, refl, refl)

  -- Where the agent can write its answer and the JSON libraries and the socket carry the question and
  -- that answer: a request that the pipeline blocks in time gets the block page with the pipeline's
  -- verdict and never reaches the backend; any other request, also where the pipeline raises or is
  -- too slow, is sent to the backend and gets its answer; the event tells the same verdict.
  pub handle-enforced :
      (stats : Stats) (b64encode : Text → Text) (s : Settings) (backend : Outgoing → Backend)
      (uuid : Text) (r : Request) (req : sv.Req)
      → IsCarried fl wire sv (question b64encode uuid r) req (told fl timeout (sv.check req))
      → let o = sv.check req in
        let h =
          handle zero_float b64encode wire.loads
            (agent_socket fl wire sv timeout stats)
            s
            backend
            uuid
            r in
        (h.response ≡ (
          if blocks fl timeout o
          then block_page (decision (told fl timeout o))
          else relay (backend (outgoing_of s r))))
        × (h.outgoing ≡ (if blocks fl timeout o then none else some (outgoing_of s r)))
        × (h.event ≡ some (event_of uuid r (decision (told fl timeout o))))
  unfolding handle
  handle-enforced stats b64encode s backend uuid r req carried =
      rw (verdict_read stats (question b64encode uuid r) req carried) (
        decided-blocks s backend uuid r (decision (told fl timeout (sv.check req)))
          (blocks fl timeout (sv.check req)) (is_block-told (sv.check req)))
