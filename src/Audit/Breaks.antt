-- ===== src/Audit/Breaks.antt =====
-- What breaks the chain, or leaves a request out of it.
use aiss_waf_server.Prelude.{
  ℕ, ◌-◌, ◌*◌, ◌≤◌, ◌<◌, ◌≡◌, ◌≢◌, refl, sym, ◌∙◌, Bool, true, false, some, List, [], ◌∷◌, ◌++◌,
  All, arith,
}
use aiss_waf_server.Prelude.Text.{Text, text_eq_iff}
use aiss_waf_server.Prelude.Dict
use aiss_waf_server.Prelude.Dict.{string_eq}
use aiss_waf_server.Audit.{
  Library, genesis, Partial, Row, State, AuditRequest, partial_of, has_id, accepts, expected, entry,
  append_to_chain, broken, verify_rows, verify_chain, tip, day, purge_old_entries,
}
use aiss_waf_server.Audit.Rows.{IsChronological, order_by_timestamp-chronological, keep_from-split}
use aiss_waf_server.Audit.Chain
use aiss_waf_server.Audit.Chain.{IsChained, IsLinked}

IsChronological-right : (xs ys : List Row) → IsChronological (xs ++ ys) → IsChronological ys
IsChronological-right [] ys c = c
IsChronological-right (x ∷ xs) ys (a, c) = IsChronological-right xs ys c

All-from_first :
    (cutoff t : ℕ) (rows : List Row)
    → cutoff ≤ t
    → All (λ x. t < x.timestamp) rows
    → All (λ x. cutoff ≤ x.timestamp) rows
All-from_first cutoff t [] le a = a
All-from_first cutoff t (x ∷ rows) le (h, a) = (omega arith, All-from_first cutoff t rows le a)

empty-accepts : (r : Row) → accepts true r [] ≡ true
unfolding accepts
empty-accepts r = refl

partial_of-id :
    (r : AuditRequest) (uuid id : Text) (status elapsed_ms : ℕ) (p : Partial)
    → Dict.lookup "x-request-id" r.headers ≡ some id
    → partial_of r uuid status elapsed_ms ≡ some p
    → p.id ≡ id
unfolding partial_of
partial_of-id r uuid id status elapsed_ms p found made = ground arith

reused-accepts :
    (db_works : Bool) (r : Row) (table : List Row)
    → has_id r.part.id table ≡ true
    → accepts db_works r table ≡ false
unfolding accepts
reused-accepts db_works r table h = ground arith

module _ (lib : Library) (secret : Text) where
  IsChained-right :
      (prev : Text) (xs ys : List Row)
      → IsChained lib secret prev (xs ++ ys)
      → IsChained lib secret (tip prev xs) ys
  IsChained-right prev [] ys c = c
  IsChained-right prev (x ∷ xs) ys (ep, eh, c) = IsChained-right x.chain_hash xs ys c

  IsChained-left :
      (prev : Text) (xs ys : List Row)
      → IsChained lib secret prev (xs ++ ys)
      → IsChained lib secret prev xs
  IsChained-left prev [] ys c = tt
  IsChained-left prev (x ∷ xs) ys (ep, eh, c) = (ep, eh, IsChained-left x.chain_hash xs ys c)

  -- The tip of a chain with a row is the seal of a row.
  sealed_tip :
      (prev : Text) (x : Row) (xs : List Row)
      → IsChained lib secret prev (x ∷ xs)
      → (r : Row) × (tip prev (x ∷ xs) ≡ expected lib secret r)
  sealed_tip prev x [] (ep, eh, c) = (x, eh)
  sealed_tip prev x (y ∷ xs) (ep, eh, c) = sealed_tip x.chain_hash y xs c

  verify_rows-broken :
      (r : Row) (rows : List Row)
      → r.prev_hash ≢ genesis
      → verify_rows lib secret genesis 0 (r ∷ rows) ≡ broken 0 r
  unfolding verify_rows
  verify_rows-broken r rows ne =
      ground
        (arith, text_eq_iff r.prev_hash genesis, text_eq_iff r.chain_hash (expected lib secret r))

  -- The hexadecimal digest of a row is never the word GENESIS.
  abbrev pub NoGenesis : Type 0
  NoGenesis = (k p : Text) → lib.hmac_sha256 k p ≢ genesis

  module _ (no_genesis : NoGenesis) where
    tip-ne-genesis :
        (x : Row) (xs : List Row)
        → IsChained lib secret genesis (x ∷ xs)
        → tip genesis (x ∷ xs) ≢ genesis
    unfolding expected
    tip-ne-genesis x xs c e =
        let (r, sealed) = sealed_tip genesis x xs c in no_genesis _ _ (sym sealed ∙ e)

    -- Where no digest is the word GENESIS: a purge, of 180 days or more, that drops some rows of an
    -- intact table and keeps others, the first of them `r`, makes the verification fail at `r`,
    -- although nothing was tampered with.
    pub verify_chain-purge :
        (last days now : ℕ) (hash : Text) (x r : Row) (old kept : List Row)
        → 180 ≤ days
        → IsLinked lib secret last (record { last_hash = hash; table = (x ∷ old) ++ (r ∷ kept) })
        → All (λ y. y.timestamp < now - days * day) (x ∷ old)
        → now - days * day ≤ r.timestamp
        → (purge_old_entries days now (record { last_hash = hash; table = (x ∷ old) ++ (r ∷ kept) })
            ≡ some (record { last_hash = hash; table = r ∷ kept }))
          × (verify_chain lib secret (r ∷ kept) ≡ broken 0 r)
    unfolding purge_old_entries verify_chain
    verify_chain-purge last days now hash x r old kept long h before from =
        let c = IsChronological-right (x ∷ old) (r ∷ kept) h.chronological in
        let dropped =
          keep_from-split (now - days * day) (x ∷ old) (r ∷ kept) c before
            (from, All-from_first _ _ kept from c.0) in
        let link = (IsChained-right genesis (x ∷ old) (r ∷ kept) h.chained).0 in
        (
          ground (arith, dropped),
          rw (order_by_timestamp-chronological (r ∷ kept) c) (
              verify_rows-broken r kept (λ e.
                tip-ne-genesis x old (IsChained-left genesis (x ∷ old) (r ∷ kept) h.chained)
                  (sym link ∙ e))),
        )

-- A request that carries the id of a row of the table, in a header that the client chooses, is
-- not logged, and the state stays as it was.
append-reused_id :
    (lib : Library) (secret : Text) (s : State) (r : AuditRequest) (uuid id : Text)
    (status elapsed_ms now : ℕ) (db_works : Bool) (p : Partial)
    → Dict.lookup "x-request-id" r.headers ≡ some id
    → has_id id s.table ≡ true
    → partial_of r uuid status elapsed_ms ≡ some p
    → append_to_chain lib secret s p now db_works ≡ s
unfolding entry
append-reused_id lib secret s r uuid id status elapsed_ms now db_works p found used made =
    Chain.append-rejected lib secret s p now db_works (
      reused-accepts db_works (entry lib secret s p now) s.table
        (rw (partial_of-id r uuid id status elapsed_ms p found made) used))
