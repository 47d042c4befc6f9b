-- ===== src/Audit/Listing.antt =====
-- The listing of entries, `list_audit_entries` of server/app/routers/audit.py.
use aiss_waf_server.Prelude.{
  ℕ, zero, suc, ◌+◌, ◌≤◌, ◌≡◌, refl, sym, ap, ◌∙◌, Bool, true, false, ◌&&◌, ◌||◌, Option, none,
  some, List, [], ◌∷◌, ◌++◌, take, drop, leb, ltb, arith, if◌then◌else◌,
}
use mathlib.Core.List.{reverse}
use aiss_waf_server.Prelude.Text.{Text, text_eq}
use aiss_waf_server.Audit.{Row, order_by_timestamp}

-- The two filters, each of them optional; an empty actor is none.
unfoldable pub is_actor : Option Text → Row → Bool
is_actor none r = true
is_actor (some []) r = true
is_actor (some (c ∷ actor)) r = text_eq r.part.actor (c ∷ actor)

unfoldable pub is_since : Option ℕ → Row → Bool
is_since none r = true
is_since (some since) r = leb since r.timestamp

unfoldable pub selected : Option Text → Option ℕ → List Row → List Row
unfolding is_actor is_since
selected actor since [] = []
selected actor since (r ∷ rows) =
    let rest = selected actor since rows in
    if is_actor actor r && is_since since r then r ∷ rest else rest

-- The newest first; `none` is the refusal of a limit that is not between 1 and 1000.
unfoldable pub list_audit_entries :
    (limit offset : ℕ) → Option Text → Option ℕ → List Row → Option (List Row)
unfolding selected
list_audit_entries limit offset actor since table =
    if ltb limit 1 || ltb 1000 limit
    then none
    else some (take limit (drop offset (reverse (order_by_timestamp (selected actor since table)))))

-- The entries of an answer, none if it is a refusal.
abbrev pub entries : Option (List Row) → List Row
entries none = []
entries (some rows) = rows

suc_add : (a b : ℕ) → suc a + b ≡ suc (a + b)
suc_add a b = omega arith

module _ {A : Type 0} where
  take-nil : (n : ℕ) → take {A = A} n [] ≡ []
  take-nil zero = refl
  take-nil (suc n) = refl

  drop-nil : (n : ℕ) → drop {A = A} n [] ≡ []
  drop-nil zero = refl
  drop-nil (suc n) = refl

  drop-drop : (o a : ℕ) (xs : List A) → drop (o + a) xs ≡ drop a (drop o xs)
  drop-drop zero a xs = ap (λ n. drop n xs) (omega arith)
  drop-drop (suc o) a [] = drop-nil (suc o + a) ∙ sym (drop-nil a)
  drop-drop (suc o) a (x ∷ xs) = ap (λ n. drop n (x ∷ xs)) (suc_add o a) ∙ drop-drop o a xs

  take-page : (a b : ℕ) (xs : List A) → take a xs ++ take b (drop a xs) ≡ take (a + b) xs
  take-page zero b xs = ap (λ n. take n xs) (omega arith)
  take-page (suc a) b [] = take-nil b ∙ sym (take-nil (suc a + b))
  take-page (suc a) b (x ∷ xs) =
      ap (λ ys. x ∷ ys) (take-page a b xs) ∙ ap (λ n. take n (x ∷ xs)) (sym (suc_add a b))

within : (n : ℕ) → 1 ≤ n → n ≤ 1000 → (ltb n 1 || ltb 1000 n) ≡ false
within n h k = ground (arith, h, k)

-- Two pages in a row are the page of both: nothing is missed or repeated while the table stays.
pub list_audit_entries-pages :
    (a b offset : ℕ) (actor : Option Text) (since : Option ℕ) (table : List Row)
    → 1 ≤ a
    → 1 ≤ b
    → a + b ≤ 1000
    → entries (list_audit_entries a offset actor since table)
        ++ entries (list_audit_entries b (offset + a) actor since table)
      ≡ entries (list_audit_entries (a + b) offset actor since table)
unfolding list_audit_entries
list_audit_entries-pages a b offset actor since table ha hb hab =
    let rows = reverse (order_by_timestamp (selected actor since table)) in
    rw
      (
        within a ha (omega (arith, hab)),
        within b hb (omega (arith, hab)),
        within (a + b) (omega (arith, ha)) hab,
      )
      (ap (λ ys. take a (drop offset rows) ++ take b ys) (drop-drop offset a rows)
        ∙ take-page a b (drop offset rows))
