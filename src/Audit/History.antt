-- ===== src/Audit/History.antt =====
-- The chain that appends build is the chain that `verify_chain` accepts, across restarts, resets and refused purges too.
use aiss_waf_server.Prelude.{
  ℕ, ◌<◌, ◌≡◌, refl, ap, ◌∙◌, ◌↔◌, Bool, true, false, Option, none, some, List, [], ◌∷◌, length,
  All, ltb, arith,
}
use aiss_waf_server.Prelude.Text.{Text}
use aiss_waf_server.Audit.{
  Library, genesis, Partial, Row, State, append_to_chain, VerifyResult, intact, verify_chain,
  order_by_timestamp, load_last_chain_hash, reset_chain, purge_old_entries,
}
use aiss_waf_server.Audit.Rows.{order_by_timestamp-chronological, All-later}
use aiss_waf_server.Audit.Chain

module _ (lib : Library) (secret : Text) where
  -- What happens to the middleware and its table: an append, a restart of the server, which can read
  -- the table or cannot, a reset, which commits or raises, and a purge.
  pub data Event : Type 0 where
    append : Partial → ℕ → Bool → Event
    restart reset : ℕ → Bool → Event
    purge : (days now : ℕ) → Event

  abbrev pub purged : State → Option State → State
  purged s none = s
  purged s (some t) = t

  unfoldable pub happen : State → Event → State
  happen s (append p now db_works) = append_to_chain lib secret s p now db_works
  happen s (restart now readable) = record s { last_hash = load_last_chain_hash readable s.table }
  happen s (reset now commits) = reset_chain commits s
  happen s (purge days now) = purged s (purge_old_entries days now s)

  unfoldable pub history : State → List Event → State
  unfolding happen
  history s [] = s
  history s (e ∷ es) = history (happen s e) es

  abbrev pub time : Event → ℕ
  time (append p now db_works) = now
  time (restart now readable) = now
  time (reset now commits) = now
  time (purge days now) = now

  -- Each event is later than the one before.
  abbrev pub AreLater : ℕ → List Event → Type 0
  AreLater last [] = Unit
  AreLater last (e ∷ es) = (last < time e) × AreLater (time e) es

  -- A restart can read the table, and a purge is refused since its days are fewer than 180.
  abbrev pub IsHarmless : Event → Type 0
  IsHarmless (append p now db_works) = Unit
  IsHarmless (restart now readable) = readable ≡ true
  IsHarmless (reset now commits) = Unit
  IsHarmless (purge days now) = ltb days 180 ≡ true

  later-IsLinked :
      (last now : ℕ) (s : State)
      → last < now
      → Chain.IsLinked lib secret last s
      → Chain.IsLinked lib secret now s
  later-IsLinked last now s lt h = record {
    chronological = h.chronological;
    past = All-later last now s.table (omega arith) h.past;
    chained = h.chained;
    pointer = h.pointer;
  }

  happen-IsLinked :
      (read_back : Chain.IsReadBack lib secret) (last : ℕ) (s : State) (e : Event)
      → IsHarmless e
      → last < time e
      → Chain.IsLinked lib secret last s
      → Chain.IsLinked lib secret (time e) (happen s e)
  unfolding happen load_last_chain_hash reset_chain purge_old_entries
  happen-IsLinked read_back last s (append p now db_works) ok lt h =
      Chain.append-IsLinked lib secret read_back last now s p db_works lt h
  happen-IsLinked read_back last s (restart now readable) ok lt h =
      rw (ok, order_by_timestamp-chronological s.table h.chronological)
        (record {
          chronological = h.chronological;
          past = All-later last now s.table (omega arith) h.past;
          chained = h.chained;
          pointer = refl;
        })
  happen-IsLinked read_back last s (reset now true) ok lt h = record {
    chronological = tt;
    past = tt;
    chained = tt;
    pointer = refl;
  }
  happen-IsLinked read_back last s (reset now false) ok lt h = later-IsLinked last now s lt h
  happen-IsLinked read_back last s (purge days now) ok lt h = rw ok (later-IsLinked last now s lt h)

  abbrev pub end_time : ℕ → List Event → ℕ
  end_time last [] = last
  end_time last (e ∷ es) = end_time (time e) es

  pub history-IsLinked :
      (read_back : Chain.IsReadBack lib secret) (last : ℕ) (s : State) (es : List Event)
      → All IsHarmless es
      → AreLater last es
      → Chain.IsLinked lib secret last s
      → Chain.IsLinked lib secret (end_time last es) (history s es)
  unfolding history
  history-IsLinked read_back last s [] ok later h = h
  history-IsLinked read_back last s (e ∷ es) (o, ok) (lt, later) h =
      history-IsLinked read_back (time e) (happen s e) es ok later
        (happen-IsLinked read_back last s e o lt h)

  abbrev pub fresh : State
  fresh = record { last_hash = genesis; table = [] }

  pub fresh-IsLinked : Chain.IsLinked lib secret 0 fresh
  fresh-IsLinked = record { chronological = tt; past = tt; chained = tt; pointer = refl }

  verify_chain-IsLinked :
      (last : ℕ) (s : State)
      → Chain.IsLinked lib secret last s
      → verify_chain lib secret s.table ≡ intact (length s.table)
  unfolding verify_chain
  verify_chain-IsLinked last s h =
      rw (order_by_timestamp-chronological s.table h.chronological) (
        Chain.verify_rows-IsChained lib secret genesis 0 s.table h.chained
        ∙ ap intact (omega arith))

  -- Where the database gives times back in the ISO form in which they were sealed: from an empty
  -- table, after any appends, resets, restarts that can read the table, and purges that are refused,
  -- at later and later times, whatever writes fail, the verification reports that all rows of the
  -- table are intact, and the pointer is the hash that a restart would read.
  pub verify_chain-history :
      Chain.IsReadBack lib secret
      → (es : List Event) → All IsHarmless es
      → AreLater 0 es
      → let s = history fresh es in
        (verify_chain lib secret s.table ≡ intact (length s.table))
        × (s.last_hash ≡ load_last_chain_hash true s.table)
  unfolding load_last_chain_hash
  verify_chain-history read_back es ok later =
      let h = history-IsLinked read_back 0 fresh es ok later fresh-IsLinked in
      (
        verify_chain-IsLinked (end_time 0 es) (history fresh es) h,
        rw (order_by_timestamp-chronological (history fresh es).table h.chronological) h.pointer,
      )

  -- The verification reports success exactly if each row, in the order of time, is sealed with
  -- its recomputed hash and names the hash of the row before it, the first one GENESIS.
  pub verify_chain_iff :
      (table : List Row)
      → ((verify_chain lib secret table).ok ≡ true)
        ↔ Chain.IsChained lib secret genesis (order_by_timestamp table)
  unfolding verify_chain intact
  verify_chain_iff table = (
    Chain.IsChained-verify_rows lib secret genesis 0 (order_by_timestamp table),
    λ c.
        ap (λ (v : VerifyResult). v.ok)
          (Chain.verify_rows-IsChained lib secret genesis 0 (order_by_timestamp table) c),
  )
