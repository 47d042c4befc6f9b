-- ===== src/Audit/Chain.antt =====
-- The rows that an append adds, and the loop of `verify_chain` over them.
use aiss_waf_server.Prelude.{
  ℕ, ◌+◌, ◌≤◌, ◌<◌, ◌≡◌, ap, sym, ◌∙◌, Bool, true, false, List, [], ◌∷◌, ◌++◌, length, All,
  All-append, arith, Bool-cases, inl, inr,
}
use aiss_waf_server.Prelude.Text.{Text, text_eq_iff}
use aiss_waf_server.Audit.{
  Library, genesis, Partial, Row, State, accepts, write_sync, compute_chain_hash, expected, entry,
  append_to_chain, intact, verify_rows, tip, payload,
}
use aiss_waf_server.Audit.Rows.{
  IsChronological, IsChronological-snoc, tip-snoc, All-later, All-earlier,
}

module _ (lib : Library) (secret : Text) where
  -- Each row is sealed, and names the hash before it.
  abbrev pub IsChained : Text → List Row → Type 0
  IsChained prev [] = Unit
  IsChained prev (r ∷ rows) =
      (r.prev_hash ≡ prev) × (r.chain_hash ≡ expected lib secret r) × IsChained r.chain_hash rows

  pub verify_rows-IsChained :
      (prev : Text) (i : ℕ) (rows : List Row)
      → IsChained prev rows
      → verify_rows lib secret prev i rows ≡ intact (i + length rows)
  unfolding verify_rows
  verify_rows-IsChained prev i [] c = ap intact (omega arith)
  verify_rows-IsChained prev i (r ∷ rows) (ep, eh, c) =
      rw
        (
          (text_eq_iff r.chain_hash (expected lib secret r)).1 eh,
          (text_eq_iff r.prev_hash prev).1 ep,
        )
        (verify_rows-IsChained r.chain_hash (i + 1) rows c ∙ ap intact (omega arith))

  pub IsChained-verify_rows :
      (prev : Text) (i : ℕ) (rows : List Row)
      → (verify_rows lib secret prev i rows).ok ≡ true
      → IsChained prev rows
  unfolding verify_rows
  IsChained-verify_rows prev i [] h = tt
  IsChained-verify_rows prev i (r ∷ rows) h = (
    ground (arith, text_eq_iff r.prev_hash prev),
    ground (arith, text_eq_iff r.chain_hash (expected lib secret r)),
    IsChained-verify_rows r.chain_hash (i + 1) rows (ground arith),
  )

  pub IsChained-snoc :
      (prev : Text) (rows : List Row) (r : Row)
      → IsChained prev rows
      → r.prev_hash ≡ tip prev rows
      → r.chain_hash ≡ expected lib secret r
      → IsChained prev (rows ++ (r ∷ []))
  IsChained-snoc prev [] r c ep eh = (ep, eh, tt)
  IsChained-snoc prev (x ∷ rows) r (xp, xh, c) ep eh =
      (xp, xh, IsChained-snoc x.chain_hash rows r c ep eh)

  -- The middleware's state between two appends, the last of them at `last` or before.
  pub record IsLinked (last : ℕ) (s : State) : Type 0 where
    pub chronological : IsChronological s.table
    pub past : All (λ x. x.timestamp ≤ last) s.table
    pub chained : IsChained genesis s.table
    pub pointer : s.last_hash ≡ tip genesis s.table

  -- An append that is written adds its entry and moves the pointer; any other changes nothing.
  pub append-accepted :
      (s : State) (p : Partial) (now : ℕ) (db_works : Bool)
      → accepts db_works (entry lib secret s p now) s.table ≡ true
      → append_to_chain lib secret s p now db_works ≡ record {
        last_hash = (entry lib secret s p now).chain_hash;
        table = s.table ++ (entry lib secret s p now ∷ []);
      }
  unfolding append_to_chain write_sync
  append-accepted s p now db_works e = rw e

  pub append-rejected :
      (s : State) (p : Partial) (now : ℕ) (db_works : Bool)
      → accepts db_works (entry lib secret s p now) s.table ≡ false
      → append_to_chain lib secret s p now db_works ≡ s
  unfolding append_to_chain write_sync
  append-rejected s p now db_works e = rw e

  -- The database gives a time back in the ISO form in which it was sealed.
  abbrev pub IsReadBack : Type 0
  IsReadBack = (t : ℕ) → lib.read_isoformat t ≡ lib.isoformat t

  entry_sealed :
      (read_back : IsReadBack) (s : State) (p : Partial) (now : ℕ)
      → (entry lib secret s p now).chain_hash ≡ expected lib secret (entry lib secret s p now)
  unfolding entry compute_chain_hash expected
  entry_sealed read_back s p now =
      ap (λ t. lib.hmac_sha256 secret (payload s.last_hash t p.actor p.method p.path p.status))
        (sym (read_back now))

  IsLinked-entry :
      (read_back : IsReadBack) (last now : ℕ) (s : State) (p : Partial)
      → last < now
      → IsLinked last s
      → IsLinked now (record {
        last_hash = (entry lib secret s p now).chain_hash;
        table = s.table ++ (entry lib secret s p now ∷ []);
      })
  unfolding entry
  IsLinked-entry read_back last now s p lt h =
      let row = entry lib secret s p now in
      record {
        chronological =
            IsChronological-snoc s.table row h.chronological
              (All-earlier last now s.table lt h.past);
        past =
            All-append (λ x. x.timestamp ≤ now) s.table (row ∷ [])
              (All-later last now s.table (omega arith) h.past) (omega arith, tt);
        chained =
            IsChained-snoc genesis s.table row h.chained h.pointer (entry_sealed read_back s p now);
        pointer = sym (tip-snoc genesis s.table row);
      }

  pub append-IsLinked :
      (read_back : IsReadBack) (last now : ℕ) (s : State) (p : Partial) (db_works : Bool)
      → last < now
      → IsLinked last s
      → IsLinked now (append_to_chain lib secret s p now db_works)
  append-IsLinked read_back last now s p db_works lt h =
      elim (Bool-cases (accepts db_works (entry lib secret s p now) s.table)) [
        | inl e ↦
            rw (append-accepted s p now db_works e) (IsLinked-entry read_back last now s p lt h)
        | inr e ↦ rw (append-rejected s p now db_works e) (record {
          chronological = h.chronological;
          past = All-later last now s.table (omega arith) h.past;
          chained = h.chained;
          pointer = h.pointer;
        })
      ]
