-- ===== src/Audit/Rows.antt =====
-- Rows in the order of their timestamps.
use aiss_waf_server.Prelude.{
  ℕ, ◌≤◌, ◌<◌, ◌≡◌, refl, List, [], ◌∷◌, ◌++◌, All, All-append, lt→ltb, le→leb, arith, Bool,
  Bool-cases, inl, inr,
}
use aiss_waf_server.Prelude.Text.{Text}
use aiss_waf_server.Audit.{
  Library, Partial, Row, State, tip, insert_row, order_by_timestamp, keep_from, accepts, write_sync,
  entry, append_to_chain,
}

-- Strictly later, row by row.
abbrev pub IsChronological : List Row → Type 0
IsChronological [] = Unit
IsChronological (r ∷ rows) = All (λ x. r.timestamp < x.timestamp) rows × IsChronological rows

insert_row-first :
    (r : Row) (rows : List Row)
    → All (λ x. r.timestamp < x.timestamp) rows
    → insert_row r rows ≡ r ∷ rows
unfolding insert_row
insert_row-first r [] a = refl
insert_row-first r (x ∷ rows) (lt, a) = rw (le→leb r.timestamp x.timestamp (omega arith))

-- Rows that were inserted at later and later times come back from the database as they are.
pub order_by_timestamp-chronological :
    (rows : List Row) → IsChronological rows → order_by_timestamp rows ≡ rows
unfolding order_by_timestamp
order_by_timestamp-chronological [] c = refl
order_by_timestamp-chronological (r ∷ rows) (a, c) =
    rw (order_by_timestamp-chronological rows c) (insert_row-first r rows a)

pub IsChronological-snoc :
    (rows : List Row) (r : Row)
    → IsChronological rows
    → All (λ x. x.timestamp < r.timestamp) rows
    → IsChronological (rows ++ (r ∷ []))
IsChronological-snoc [] r c b = (tt, tt)
IsChronological-snoc (x ∷ rows) r (a, c) (lt, b) = (
  All-append (λ y. x.timestamp < y.timestamp) rows (r ∷ []) a (lt, tt),
  IsChronological-snoc rows r c b,
)

pub tip-snoc : (p : Text) (rows : List Row) (r : Row) → tip p (rows ++ (r ∷ [])) ≡ r.chain_hash
tip-snoc p [] r = refl
tip-snoc p (x ∷ rows) r = tip-snoc x.chain_hash rows r

pub All-later :
    (a b : ℕ) (rows : List Row)
    → a ≤ b
    → All (λ x. x.timestamp ≤ a) rows
    → All (λ x. x.timestamp ≤ b) rows
All-later a b [] le p = p
All-later a b (x ∷ rows) le (h, p) = (omega arith, All-later a b rows le p)

pub All-earlier :
    (a b : ℕ) (rows : List Row)
    → a < b
    → All (λ x. x.timestamp ≤ a) rows
    → All (λ x. x.timestamp < b) rows
All-earlier a b [] lt p = p
All-earlier a b (x ∷ rows) lt (h, p) = (omega arith, All-earlier a b rows lt p)

keep_from-All :
    (cutoff : ℕ) (rows : List Row)
    → All (λ x. cutoff ≤ x.timestamp) rows
    → keep_from cutoff rows ≡ rows
unfolding keep_from
keep_from-All cutoff [] a = refl
keep_from-All cutoff (r ∷ rows) (le, a) = ground (arith, keep_from-All cutoff rows a)

All-from :
    (cutoff t : ℕ) (rows : List Row)
    → cutoff ≤ t
    → All (λ x. t < x.timestamp) rows
    → All (λ x. cutoff ≤ x.timestamp) rows
All-from cutoff t [] le a = a
All-from cutoff t (x ∷ rows) le (h, a) = (omega arith, All-from cutoff t rows le a)

-- A purge of chronological rows drops the ones before its cutoff.
pub keep_from-split :
    (cutoff : ℕ) (old kept : List Row)
    → IsChronological kept
    → All (λ x. x.timestamp < cutoff) old
    → All (λ x. cutoff ≤ x.timestamp) kept
    → keep_from cutoff (old ++ kept) ≡ kept
unfolding keep_from
keep_from-split cutoff [] kept c b a = keep_from-All cutoff kept a
keep_from-split cutoff (r ∷ old) kept c (lt, b) a =
    rw (lt→ltb r.timestamp cutoff lt) (keep_from-split cutoff old kept c b a)

-- An append adds the row of its entry, or none.
pub append_to_chain-All :
    (lib : Library) (secret : Text) (P : Partial → Type 0) (s : State) (p : Partial) (now : ℕ)
    (db_works : Bool)
    → P p
    → All (λ row. P row.part) s.table
    → All (λ row. P row.part) (append_to_chain lib secret s p now db_works).table
unfolding append_to_chain write_sync entry
append_to_chain-All lib secret P s p now db_works h hs =
    let row = entry lib secret s p now in
    elim (Bool-cases (accepts db_works row s.table)) [
      | inl e ↦ rw e (All-append (λ r. P r.part) s.table (row ∷ []) hs (h, tt))
      | inr e ↦ rw e hs
    ]
