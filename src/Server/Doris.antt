-- ===== src/Server/Doris.antt =====
-- The batch writer of security events, server/app/doris.py. A step is an enqueue, one event taken
-- into the batch, or the load of a batch; the tasks of one event loop do not run at once.
pub mod Shutdown
pub mod Upsert
use aiss_waf_server.Prelude.{
  ℕ, ◌≡◌, refl, sym, ap, ◌∙◌, Bool, true, false, ◌||◌, Option, none, some, List, [], ◌∷◌, ◌++◌,
  length, ltb, ◌==◌, is_empty, map, if◌then◌else◌, Bool-cases, inl, inr,
}
use aiss_waf_server.Prelude.Text.{Text, codes, text_eq, join}
use aiss_waf_server.Prelude.Dict
use aiss_waf_server.Prelude.Dict.{Dict}
use aiss_waf_server.Prelude.Dict.{text_keys}

unfoldable pub columns : List Text
unfolding codes
columns = map codes (
    "created_at" ∷ "id" ∷ "agent_id" ∷ "client_ip" ∷ "method" ∷ "uri" ∷ "action" ∷ "tier" ∷ "cve_id"
    ∷ "rule_name" ∷ "reason" ∷ "ml_score" ∷ "latency_ms" ∷ "server_type" ∷ [])

-- An event, its values printed.
abbrev pub Event : Type 0
Event = Dict Text Text

-- csv.QUOTE_ALL, which doubles a quote in a field
doubled : Text → Text
doubled [] = []
doubled (c ∷ s) = if c == b'"' then c ∷ (c ∷ doubled s) else c ∷ doubled s

unfoldable pub quoted : Text → Text
unfolding doubled
quoted s = b'"' ∷ (doubled s ++ (b'"' ∷ []))

-- e.setdefault("created_at", now)
unfoldable pub with_time : Text → Event → Event
unfolding codes
with_time now e = elim (Dict.lookup (codes "created_at") e) [
  | none ↦ Dict.insert (codes "created_at") now e
  | some t ↦ e
]

unfoldable pub csv_row : (now : Text) → Event → Text
unfolding columns quoted with_time
csv_row now e =
    join (b',' ∷ []) (map (λ column. quoted (Dict.get_or column [] (with_time now e))) columns)
    ++ (10 ∷ [])

unfoldable pub csv : (now : Text) → List Event → Text
unfolding csv_row
csv now [] = []
csv now (e ∷ events) = csv_row now e ++ csv now events

-- `put` sends the content and gives the status of the answer; `none` is an exception.
unfoldable pub stream_load_batch : (put : Text → Option Text) → (now : Text) → List Event → Bool
unfolding csv codes
stream_load_batch put now [] = true
stream_load_batch put now (e ∷ events) = elim (put (csv now (e ∷ events))) [
  | none ↦ false
  | some status ↦ text_eq status (codes "Success") || text_eq status (codes "Publish Timeout")
]

abbrev pub queue_size : ℕ
queue_size = 100000

abbrev pub flush_batch_size : ℕ
flush_batch_size = 5000

-- The queue, the batch of the flush loop, and what has been loaded.
pub record Writer : Type 0 where
  pub queue : List Event
  pub batch : List Event
  pub loaded : List Event

pub data Step : Type 0 where
  enqueue : Event → Step
  take : Step
  flush : Step

unfoldable pub new_writer : Writer
new_writer = record { queue = []; batch = []; loaded = [] }

module _ (loads : List Event → Bool) where
  unfoldable pub has_room : Writer → Bool
  has_room w = ltb (length w.queue) queue_size

  -- The next event into the batch, while it is not full.
  unfoldable pub taken : List Event → Writer → Writer
  taken [] w = w
  taken (e ∷ queue) w =
      if ltb (length w.batch) flush_batch_size
      then record w { queue = queue; batch = w.batch ++ (e ∷ []) }
      else w

  unfoldable pub load : List Event → List Event → List Event
  load events loaded = if loads events then loaded ++ events else loaded

  unfoldable pub step : Step → Writer → Writer
  unfolding has_room taken load
  step (enqueue e) w = if has_room w then record w { queue = w.queue ++ (e ∷ []) } else w
  step take w = taken w.queue w
  step flush w = record w { batch = []; loaded = load w.batch w.loaded }

  -- The task is cancelled with the batch that it holds; what is in the queue is loaded.
  unfoldable pub stop : Writer → Writer
  unfolding load
  stop w = record { queue = []; batch = []; loaded = load w.queue w.loaded }
