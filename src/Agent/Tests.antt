-- ===== src/Agent/Tests.antt =====
-- The theorems on the agent at concrete requests, events and connections.
use aiss_waf_server.Prelude.{
  map, not, ℕ, ◌≡◌, refl, true, false, none, some, List, [], ◌∷◌, ◌++◌, length, is_some, ap, All,
  if◌then◌else◌, not, ◌&&◌, arith,
}
use aiss_waf_server.Prelude.Text.{Text, codes, text_eq, contains, starts_with}
use aiss_waf_server.Prelude.Dict
use aiss_waf_server.Prelude.Dict.{text_keys, lookup-insert}
use aiss_waf_server.Agent.Injection.{check_sqli, check_xss}
use aiss_waf_server.Agent.Injection.Coverage.{any_input, is_sqli, is_xss, check_sqli-check_xss}
use aiss_waf_server.Agent.MagicBytes.{validate_content_type}
use aiss_waf_server.Agent.MagicBytes.Samples.{executable_blocked, plain_passes}
use aiss_waf_server.Agent.Yara.{is_ready}
use aiss_waf_server.Agent.Pipeline.{permit, block, Verdict, is_static_file, check}
use aiss_waf_server.Agent.Pipeline.Defs.{is_shadow, make_verdict}
use aiss_waf_server.Agent.Pipeline.Content.{scan_targets, scan_target}
use aiss_waf_server.Agent.Samples.{runtime, floats, store, scanner, pipeline, request}
use aiss_waf_server.Agent.Telemetry.{Config, Buffer, new_buffer}
use aiss_waf_server.Agent.Telemetry.Flow.{Call, sends, flushes, run, accepted, run-fifo}
use aiss_waf_server.Agent.Socket.{
  no_stats, Recv, chunk, timed_out, read_request, answer, received, decoded, checked, respond,
  Service, handle_connection,
}
use aiss_waf_server.Agent.Socket.Listen
use aiss_waf_server.Agent.Socket.Listen.Served.{connection_of, IsAnswered, run-served}
use aiss_waf_server.Agent.Socket.Accounts.{IsJustified, handle_connection-IsJustified}
use aiss_waf_server.Agent.Pipeline.Shadow.{in_shadow, mask_outcome, check-in_shadow}
use aiss_waf_server.Agent.Pipeline.Blocks.{finds_threat, blocking, check-action}
use aiss_waf_server.Agent.Pipeline.Replay.{scan_targets-replay}

not_shadow : is_shadow (1 ∷ []) ≡ false
unfolding codes text_eq
not_shadow = refl

check-in_shadow_example :
    check runtime floats store (in_shadow floats pipeline) request 5 []
    ≡ mask_outcome runtime floats store pipeline not_shadow
        (check runtime floats store pipeline request 5 [])
check-in_shadow_example = check-in_shadow runtime floats store pipeline not_shadow request 5 []

check-action_example :
    ((check runtime floats store pipeline request 5 []).verdict.action ≡ (
      if not (is_static_file (33 ∷ [])) && finds_threat runtime floats store pipeline request 5 []
      then blocking runtime floats store (1 ∷ [])
      else permit))
    × (is_static_file (33 ∷ []) ≡ true
        → ((check runtime floats store pipeline request 5 []).db ≡ [])
          × ((check runtime floats store pipeline request 5 []).emitted ≡ none))
check-action_example = check-action runtime floats store pipeline request 5 []

scan_targets-replay_example :
    ((scan_targets runtime floats store [] scanner [] 5 [] ((1 ∷ []) ∷ (77 ∷ 90 ∷ []) ∷ [])).0
      ≡ some (
          make_verdict floats [] 4 none none
            (validate_content_type (77 ∷ 90 ∷ []) []).reason
            0
            (some (77 ∷ 90 ∷ []))
            5))
    × ((scan_targets runtime floats store [] scanner [] 5
          (scan_targets runtime floats store [] scanner [] 5 [] ((1 ∷ []) ∷ (77 ∷ 90 ∷ []) ∷ [])).1
          ((1 ∷ []) ∷ (77 ∷ 90 ∷ []) ∷ [])).0
        ≡ none)
unfolding scan_target is_ready Dict.lookup
scan_targets-replay_example =
    scan_targets-replay runtime floats store [] scanner [] 5 (λ db k v j. lookup-insert k j v db) []
      1 [] 77 (90 ∷ []) [] (some (validate_content_type (77 ∷ 90 ∷ []) []).reason)
      (make_verdict floats [] 4 none none (validate_content_type (77 ∷ 90 ∷ []) []).reason 0
        (some (77 ∷ 90 ∷ [])) 5)
      (λ e. omega (arith, ap length e)) refl refl (rw plain_passes refl)
      (rw executable_blocked refl)

check_sqli-check_xss_example :
    (is_some (check_sqli runtime ((33 ∷ []) ∷ []))
      ≡ any_input runtime (is_sqli runtime) ((33 ∷ []) ∷ []))
    × (is_some (check_xss runtime ((33 ∷ []) ∷ []))
        ≡ any_input runtime (is_xss runtime) ((33 ∷ []) ∷ []))
check_sqli-check_xss_example = check_sqli-check_xss runtime ((33 ∷ []) ∷ [])

abbrev config : Config ℕ
config = record {
  capacity = 2;
  batch_size = 1;
  flush_fn = some (λ batch. true);
  store_event = some (λ e. true);
}

abbrev calls : List (Call ℕ)
calls = sends 4 ∷ sends 5 ∷ sends 6 ∷ flushes 9 ∷ sends 7 ∷ []

run-fifo_example :
    (run config calls (new_buffer config)).stored ++ (run config calls (new_buffer config)).queue
    ≡ accepted config calls (new_buffer config)
unfolding new_buffer
run-fifo_example = run-fifo config (λ e. true) refl (λ e. refl) calls (new_buffer config)

abbrev waiting : Buffer ℕ
waiting = record { queue = 4 ∷ 5 ∷ []; dropped = 0; flushed = 0; stored = []; sent = [] }

abbrev blocked : Verdict floats
blocked = record {
  action = block;
  tier = 1;
  cve_id = some (67 ∷ []);
  rule_name = none;
  reason = 82 ∷ [];
  ml_score = 0;
  latency_ms = 3;
  sha256 = none;
}

-- A service whose pipeline raises.
abbrev service : Service floats
service = record { Req = Text; parse = λ t. some t; check = λ r. none; sendall = λ r. true }

-- One whose pipeline blocks in time.
abbrev guarding : Service floats
guarding = record {
  Req = Text;
  parse = λ t. some t;
  check = λ r. some (blocked, 5);
  sendall = λ r. true;
}

handle_connection-IsJustified_example :
    All
      (IsJustified floats guarding 10 (read_request [] (chunk (33 ∷ 10 ∷ []) ∷ [])))
      (handle_connection floats guarding 10 (chunk (33 ∷ 10 ∷ []) ∷ []) no_stats).1
handle_connection-IsJustified_example =
    handle_connection-IsJustified floats guarding 10 (chunk (33 ∷ 10 ∷ []) ∷ []) no_stats

-- What that connection gets is the verdict.
guarding_answers :
    (handle_connection floats guarding 10 (chunk (33 ∷ 10 ∷ []) ∷ []) no_stats).1
    ≡ answer blocked 5 ∷ []
unfolding handle_connection received decoded checked respond read_request contains starts_with
guarding_answers = refl

-- A connection is answered by a thread, one by the shutdown, and the loop ends after that.
abbrev listening : List Listen.Event
listening =
    Listen.check
    ∷ Listen.accept (Listen.connection (timed_out ∷ []))
    ∷ Listen.work
    ∷ Listen.check
    ∷ Listen.accept (Listen.connection (chunk (10 ∷ []) ∷ []))
    ∷ Listen.check
    ∷ []

run-served_example :
    let s = Listen.run floats service 10 listening (Listen.start floats service 10) in
    let s' = Listen.step floats service 10 Listen.stop s in
    (s'.accepted ≡ map (connection_of floats service 10 (λ r. refl)) s'.answered)
    × All (IsAnswered floats service 10 (λ r. refl)) s'.answered
    × (s.raised ≡ not s.looping)
    × (s'.raised ≡ not s'.looping)
run-served_example = run-served floats service 10 (λ r. refl) listening

abbrev connections : List (List Recv)
connections = (timed_out ∷ []) ∷ (chunk (10 ∷ []) ∷ []) ∷ []
