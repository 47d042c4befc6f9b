-- ===== src/Server/Sessions.antt =====
-- The lock around the server's database: `get_db` of server/app/database.py before
-- `verify_api_key` of server/app/auth.py, as the handlers of server/app/routers declare them, and the
-- background tasks.
pub mod Guarded
pub mod Deadlock
pub mod Completed
mod Tests
use aiss_waf_server.Prelude.{
  ℕ, Bool, true, false, not, ◌&&◌, ◌==◌, if◌then◌else◌, Option, none, some, List, [], ◌∷◌, ◌++◌,
  is_empty,
}
use aiss_waf_server.Prelude.Text.{Text, codes, text_eq, starts_with}

module _ (D : Type 0) where
  -- What a thread does for a request or a task: it waits for the lock, works in a session up to commit or rollback, and gives
  -- the lock back.
  pub data Op : Type 0 where
    acquire release : Op
    work : (D → D) → Op

  -- A body that raises is rolled back.
  unfoldable pub settled : (D → Option D) → D → D
  settled body d = elim (body d) [ none ↦ d | some d' ↦ d' ]

  -- The settings and the key of a request, empty where there is none.
  pub record Caller : Type 0 where
    pub development : Bool
    pub secret_key : Text
    pub raw : Text

  -- `verify_api_key` reaches the query of `_lookup_api_key`.
  unfoldable pub needs_lookup : Caller → Bool
  unfolding codes starts_with text_eq
  needs_lookup c =
      not (is_empty c.raw)
      && (not c.development
          && (not (starts_with c.raw (codes "eyJ")) && not (text_eq c.raw c.secret_key)))

  unfoldable pub lookup_api_key : List Op
  lookup_api_key = acquire ∷ work (λ d. d) ∷ release ∷ []

  unfoldable pub verify_api_key : Caller → List Op
  unfolding needs_lookup
  verify_api_key c = if needs_lookup c then lookup_api_key else []

  -- `exchange_for_token` calls `_lookup_api_key` outside development.
  unfoldable pub exchange_looks_up : Caller → Bool
  unfolding text_eq
  exchange_looks_up c = not c.development && not (text_eq c.raw c.secret_key)

  unfoldable pub exchange_key : Caller → List Op
  unfolding lookup_api_key
  exchange_key c = if exchange_looks_up c then lookup_api_key else []

  -- Around the rest of the request, its other dependencies and its body.
  unfoldable pub get_db : (inner : List Op) → (D → Option D) → List Op
  unfolding settled
  get_db inner body = acquire ∷ inner ++ (work (settled body) ∷ release ∷ [])

  -- A handler that declares `get_db` before `verify_api_key`, in which order the two are run;
  -- `exchange_for_token`; a handler with `verify_api_key` only; and what has a session and no caller:
  -- `register_agent` and the background tasks.
  pub data Task : Type 0 where
    with_db : Caller → (D → Option D) → Task
    exchange : Caller → (D → Option D) → Task
    verified : Caller → Task
    background : (D → Option D) → Task

  unfoldable pub ops : Task → List Op
  unfolding get_db verify_api_key exchange_key
  ops (with_db c body) = get_db (verify_api_key c) body
  ops (exchange c body) = get_db (exchange_key c) body
  ops (verified c) = verify_api_key c
  ops (background body) = get_db [] body

  -- The database, the thread that holds the lock, and what each thread has left to do.
  pub record State : Type 0 where
    pub db : D
    pub holder : Option ℕ
    pub threads : ℕ → List Op

  unfoldable pub start : D → State
  start d = record { db = d; holder = none; threads = λ n. [] }

  -- A task is given to a thread, or a thread tries its next operation.
  pub data Event : Type 0 where
    begin : ℕ → Task → Event
    go : ℕ → Event

  unfoldable pub set_thread : ℕ → List Op → (ℕ → List Op) → ℕ → List Op
  set_thread n left threads m = if n == m then left else threads m

  unfoldable pub try_acquire : Option ℕ → ℕ → List Op → State → State
  unfolding set_thread
  try_acquire none n left s = record s { holder = some n; threads = set_thread n left s.threads }
  try_acquire (some m) n left s = s

  unfoldable pub advance : ℕ → List Op → State → State
  unfolding try_acquire set_thread
  advance n [] s = s
  advance n (acquire ∷ left) s = try_acquire s.holder n left s
  advance n (release ∷ left) s = record s { holder = none; threads = set_thread n left s.threads }
  advance n (work f ∷ left) s = record s { db = f s.db; threads = set_thread n left s.threads }

  -- A thread takes a task where it has nothing left to do.
  unfoldable pub assign : List Op → ℕ → Task → State → State
  unfolding ops set_thread
  assign [] n t s = record s { threads = set_thread n (ops t) s.threads }
  assign (o ∷ left) n t s = s

  unfoldable pub step : Event → State → State
  unfolding assign advance
  step (begin n t) s = assign (s.threads n) n t s
  step (go n) s = advance n (s.threads n) s

  unfoldable pub run : List Event → State → State
  run [] s = s
  run (e ∷ es) s = run es (step e s)
