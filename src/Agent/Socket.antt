-- ===== src/Agent/Socket.antt =====
-- The connections of the agent's Unix socket, agent/socket_server.py: `_handle_connection`,
-- `_send_fail_open` and the counters.
pub mod Accounts
pub mod Listen
use aiss_waf_server.Prelude.{
  ℕ, suc, Bool, true, false, Option, none, some, List, [], ◌∷◌, ◌++◌, ltb, is_empty, if◌then◌else◌,
}
use aiss_waf_server.Prelude.Text.{Text, contains}
use aiss_waf_server.Agent.Floats.{Floats}
use aiss_waf_server.Agent.Pipeline.{Action, permit, block, Verdict}

pub record Stats : Type 0 where
  pub total : ℕ
  pub blocked : ℕ
  pub permitted : ℕ
  pub errors : ℕ
  pub fail_open : ℕ

abbrev pub no_stats : Stats
no_stats = record { total = 0; blocked = 0; permitted = 0; errors = 0; fail_open = 0 }

-- What a `recv` gives: a chunk that is not empty, the end of the stream, a timeout, or an error.
pub data Recv : Type 0 where
  chunk : Text → Recv
  closed timed_out broken : Recv

-- The loop that reads a request; `none` is the exception. A peer that sends no more is a timeout.
unfoldable pub read_request : (text : Text) → List Recv → Option Text
read_request text [] = some text
read_request text (chunk c ∷ rs) =
    let rest = read_request (text ++ c) rs in
    if contains (text ++ c) (10 ∷ []) then some (text ++ c) else rest
read_request text (closed ∷ rs) = some text
read_request text (timed_out ∷ rs) = some text
read_request text (broken ∷ rs) = none

-- A response: one of a verdict, with the latency in microseconds, or the fail-open one.
pub data Response (fl : Floats) : Type 0 where
  answer : Verdict fl → ℕ → Response fl
  permit_open : Response fl

-- The parts that the server calls: the decoding of the JSON line, `none` where it raises, the
-- pipeline's verdict on the request with the microseconds it took, `none` where it raises, and
-- `sendall`, `false` where it raises.
pub record Service (fl : Floats) : Type 1 where
  pub Req : Type 0
  pub parse : Text → Option Req
  pub check : Req → Option (Verdict fl × ℕ)
  pub sendall : Response fl → Bool

module _ (fl : Floats) (sv : Service fl) (timeout : ℕ) where
  -- What the connection adds to the counters, and the responses sent on it.
  pub data Bucket : Type 0 where
    as_blocked as_permitted as_error as_fail_open uncounted : Bucket

  pub record Handled : Type 0 where
    pub bucket : Bucket
    pub responses : List (Response fl)

  unfoldable pub sent : Response fl → List (Response fl)
  sent r = if sv.sendall r then r ∷ [] else []

  -- self._stats["errors"] += 1 after a fail-open response
  unfoldable pub fail : Handled
  unfolding sent
  fail = record { bucket = as_error; responses = sent permit_open }

  pub bucket_of : Action → Bucket
  bucket_of block = as_blocked
  bucket_of permit = as_permitted

  unfoldable pub respond : Verdict fl → ℕ → Handled
  unfolding fail sent bucket_of
  respond v latency =
      if ltb timeout latency
      then record { bucket = as_fail_open; responses = sent permit_open }
      else if sv.sendall (answer v latency)
      then record { bucket = bucket_of v.action; responses = answer v latency ∷ [] }
      else fail

  unfoldable pub checked : Option (Verdict fl × ℕ) → Handled
  checked none = fail
  checked (some (v, latency)) = respond v latency

  unfoldable pub decoded : Option sv.Req → Handled
  unfolding checked
  decoded none = fail
  decoded (some r) = checked (sv.check r)

  unfoldable pub received : Option Text → Handled
  unfolding sent
  received none = fail
  received (some []) = record { bucket = uncounted; responses = sent permit_open }
  received (some (c ∷ text)) = decoded (sv.parse (c ∷ text))

  unfoldable pub count : Bucket → Stats → Stats
  count as_blocked s = record s { blocked = suc s.blocked }
  count as_permitted s = record s { permitted = suc s.permitted }
  count as_error s = record s { errors = suc s.errors }
  count as_fail_open s = record s { fail_open = suc s.fail_open }
  count uncounted s = s

  unfoldable pub handle_connection : List Recv → Stats → Stats × List (Response fl)
  unfolding count received read_request
  handle_connection rs s =
      let h = received (read_request [] rs) in
      (count h.bucket (record s { total = suc s.total }), h.responses)
