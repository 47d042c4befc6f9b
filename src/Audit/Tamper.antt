-- ===== src/Audit/Tamper.antt =====
-- Which changes of a stored row the verification sees.
use aiss_waf_server.Prelude.{
  ℕ, ◌+◌, ◌≡◌, ◌≢◌, refl, ap, sym, ◌∙◌, false, not, ◌||◌, some, List, [], ◌∷◌, ◌++◌, length, arith,
  leb, if◌then◌else◌, Bool-cases, inl, inr,
}
use mathlib.Core.List.{append_assoc}
use aiss_waf_server.Prelude.Text.{Text, codes, text_eq, text_eq_iff}
use aiss_waf_server.Prelude.Show.{show}
use aiss_waf_server.Audit.{
  Library, genesis, Row, payload, expected, broken, verify_rows, verify_chain, insert_row,
  order_by_timestamp, tip,
}
use aiss_waf_server.Audit.Rows.{IsChronological, order_by_timestamp-chronological}
use aiss_waf_server.Audit.Chain.{IsChained}

-- The text that the seal of a row covers.
abbrev pub row_payload : Library → Row → Text
row_payload lib r =
    payload r.prev_hash (lib.read_isoformat r.timestamp) r.part.actor r.part.method r.part.path
      r.part.status

payload_shift :
    (prev ts actor moved method path : Text) (status : ℕ)
    → payload prev ts (actor ++ (b'|' ∷ moved)) method path status
      ≡ payload prev ts actor moved (method ++ (b'|' ∷ path)) status
unfolding payload
payload_shift prev ts actor moved method path status =
    ap (λ t. prev ++ (b'|' ∷ (ts ++ (b'|' ∷ t))))
      (append_assoc actor (b'|' ∷ moved) _
        ∙ ap (λ t. actor ++ (b'|' ∷ (moved ++ (b'|' ∷ t))))
            (sym (append_assoc method (b'|' ∷ path) _)))

module _ (lib : Library) (secret : Text) where
  verify_rows-prefix :
      (prev : Text) (i : ℕ) (xs ys : List Row)
      → IsChained lib secret prev xs
      → verify_rows lib secret prev i (xs ++ ys)
        ≡ verify_rows lib secret (tip prev xs) (i + length xs) ys
  unfolding verify_rows
  verify_rows-prefix prev i [] ys c = ap (λ n. verify_rows lib secret prev n ys) (omega arith)
  verify_rows-prefix prev i (x ∷ xs) ys (ep, eh, c) =
      rw
        (
          (text_eq_iff x.chain_hash (expected lib secret x)).1 eh,
          (text_eq_iff x.prev_hash prev).1 ep,
        )
        (verify_rows-prefix x.chain_hash (i + 1) xs ys c
          ∙ ap (λ n. verify_rows lib secret (tip x.chain_hash xs) n ys) (omega arith))

  verify_rows-forged :
      (prev : Text) (i : ℕ) (r : Row) (rows : List Row)
      → r.chain_hash ≢ expected lib secret r
      → verify_rows lib secret prev i (r ∷ rows) ≡ broken i r
  unfolding verify_rows
  verify_rows-forged prev i r rows ne =
      ground (arith, text_eq_iff r.chain_hash (expected lib secret r))

  -- HMAC-SHA256 under one key is taken to have no collisions.
  abbrev pub NoCollision : Type 0
  NoCollision = (p q : Text) → lib.hmac_sha256 secret p ≡ lib.hmac_sha256 secret q → p ≡ q

  -- Where the HMAC has no collisions: in a table in the order of time, after rows that are intact, a
  -- row in the place of a sealed row `r` that keeps its hash but differs in what the seal covers is
  -- reported, by its id and its position.
  pub verify_chain-forged :
      NoCollision
      → (before after : List Row) (r forged : Row) → IsChained lib secret genesis before
      → r.chain_hash ≡ expected lib secret r
      → forged.chain_hash ≡ r.chain_hash
      → row_payload lib forged ≢ row_payload lib r
      → IsChronological (before ++ (forged ∷ after))
      → verify_chain lib secret (before ++ (forged ∷ after)) ≡ broken (length before) forged
  unfolding verify_chain expected
  verify_chain-forged no_collision before after r forged c sealed kept differ order =
      rw (order_by_timestamp-chronological (before ++ (forged ∷ after)) order) (
        verify_rows-prefix genesis 0 before (forged ∷ after) c
        ∙ verify_rows-forged (tip genesis before) (0 + length before) forged after
            (λ e. differ (sym (no_collision _ _ (sym sealed ∙ (sym kept ∙ e)))))
        ∙ ap (λ n. broken n forged) (omega arith))

  -- Rows that the verification cannot tell apart.
  record AreAlike (a b : Row) : Type 0 where
    id : a.part.id ≡ b.part.id
    timestamp : a.timestamp ≡ b.timestamp
    prev_hash : a.prev_hash ≡ b.prev_hash
    chain_hash : a.chain_hash ≡ b.chain_hash
    seal : expected lib secret a ≡ expected lib secret b

  AreAlike-refl : (a : Row) → AreAlike a a
  AreAlike-refl a = record {
    id = refl;
    timestamp = refl;
    prev_hash = refl;
    chain_hash = refl;
    seal = refl;
  }

  abbrev AllAlike : List Row → List Row → Type 0
  AllAlike [] [] = Unit
  AllAlike (a ∷ as') (b ∷ bs) = AreAlike a b × AllAlike as' bs
  AllAlike _ _ = ⊥

  AllAlike-refl : (rows : List Row) → AllAlike rows rows
  AllAlike-refl [] = tt
  AllAlike-refl (r ∷ rows) = (AreAlike-refl r, AllAlike-refl rows)

  AllAlike-replace :
      (before after : List Row) (a b : Row)
      → AreAlike a b
      → AllAlike (before ++ (a ∷ after)) (before ++ (b ∷ after))
  AllAlike-replace [] after a b h = (h, AllAlike-refl after)
  AllAlike-replace (x ∷ before) after a b h = (AreAlike-refl x, AllAlike-replace before after a b h)

  insert_row-AllAlike :
      (a b : Row) (xs ys : List Row)
      → AreAlike a b
      → AllAlike xs ys
      → AllAlike (insert_row a xs) (insert_row b ys)
  unfolding insert_row
  insert_row-AllAlike a b [] [] h t = (h, tt)
  insert_row-AllAlike a b [] (y ∷ ys) h t = absurd t
  insert_row-AllAlike a b (x ∷ xs) [] h t = absurd t
  insert_row-AllAlike a b (x ∷ xs) (y ∷ ys) h (xy, t) =
      let same : leb a.timestamp x.timestamp ≡ leb b.timestamp y.timestamp =
        λ i. leb (h.timestamp i) (xy.timestamp i) in
      elim (Bool-cases (leb b.timestamp y.timestamp)) [
        | inl e ↦ rw (same ∙ e, e) (h, (xy, t))
        | inr e ↦ rw (same ∙ e, e) (xy, insert_row-AllAlike a b xs ys h t)
      ]

  order_by_timestamp-AllAlike :
      (xs ys : List Row) → AllAlike xs ys → AllAlike (order_by_timestamp xs) (order_by_timestamp ys)
  unfolding order_by_timestamp
  order_by_timestamp-AllAlike [] [] t = tt
  order_by_timestamp-AllAlike [] (y ∷ ys) t = absurd t
  order_by_timestamp-AllAlike (x ∷ xs) [] t = absurd t
  order_by_timestamp-AllAlike (x ∷ xs) (y ∷ ys) (h, t) =
      insert_row-AllAlike x y _ _ h (order_by_timestamp-AllAlike xs ys t)

  broken-AreAlike : (i : ℕ) (a b : Row) → AreAlike a b → broken i a ≡ broken i b
  unfolding broken
  broken-AreAlike i a b h = λ j. record {
    ok = false;
    entries_checked = i + 1;
    first_broken_at = some (h.id j);
    message =
        codes "Chain broken at entry #"
        ++ (show (i + 1) ++ (codes " (id=" ++ (h.id j ++ codes ")")));
  }

  verify_rows-AllAlike :
      (prev : Text) (i : ℕ) (xs ys : List Row)
      → AllAlike xs ys
      → verify_rows lib secret prev i xs ≡ verify_rows lib secret prev i ys
  unfolding verify_rows
  verify_rows-AllAlike prev i [] [] t = refl
  verify_rows-AllAlike prev i [] (y ∷ ys) t = absurd t
  verify_rows-AllAlike prev i (x ∷ xs) [] t = absurd t
  verify_rows-AllAlike prev i (x ∷ xs) (y ∷ ys) (h, t) =
      let rest =
        verify_rows-AllAlike x.chain_hash (i + 1) xs ys t
        ∙ ap (λ p. verify_rows lib secret p (i + 1) ys) h.chain_hash in
      λ j.
        if not (text_eq (h.chain_hash j) (h.seal j)) || not (text_eq (h.prev_hash j) prev)
        then broken-AreAlike i x y h j
        else rest j

  -- The seal joins the fields by bars and does not escape the bars in them: a row whose actor
  -- ends in a bar and a text can be changed to one with that text for the method and the old
  -- method, a bar and the old path for the path; the verification answers the same.
  pub verify_chain-shifted :
      (before after : List Row) (r : Row) (actor moved : Text)
      → r.part.actor ≡ actor ++ (b'|' ∷ moved)
      → let shifted = record r {
        part = record r.part {
          actor = actor;
          method = moved;
          path = r.part.method ++ (b'|' ∷ r.part.path);
        };
      } in
        verify_chain lib secret (before ++ (r ∷ after))
        ≡ verify_chain lib secret (before ++ (shifted ∷ after))
  unfolding verify_chain expected
  verify_chain-shifted before after r actor moved e = verify_rows-AllAlike genesis 0 _ _ (
      order_by_timestamp-AllAlike _ _ (
        AllAlike-replace before after r _ (record {
          id = refl;
          timestamp = refl;
          prev_hash = refl;
          chain_hash = refl;
          seal = ap (lib.hmac_sha256 secret) (
              ap
                (λ a.
                  payload r.prev_hash (lib.read_isoformat r.timestamp) a r.part.method r.part.path
                    r.part.status)
                e
              ∙ payload_shift r.prev_hash (lib.read_isoformat r.timestamp) actor moved r.part.method
                  r.part.path r.part.status);
        })))
