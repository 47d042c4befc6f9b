-- ===== src/Server/Grpc/Stalled.antt =====
-- The stream of signatures where the ids are UUIDs, as those of server/app/models.py are.
use aiss_waf_server.Prelude.{
  ℕ, ◌+◌, ◌-◌, ◌*◌, ◌≡◌, refl, ap, ◌∙◌, Bool, true, false, ◌&&◌, ◌||◌, not, Option, none, List, [],
  ◌∷◌, ◌++◌, All, leb, is_empty, arith, Bool-cases, inl, inr,
}
use aiss_waf_server.Prelude.Text.{Text, is_space, lstrip}
use aiss_waf_server.Prelude.Int.{is_digit, all_space, digits_onto, signed, int_of}
use aiss_waf_server.Server.Grpc.{
  Row, SignatureMessage, message_id, since_of, selected, send, stream, get_cve_updates,
}

is_hex : ℕ → Bool
is_hex c = leb b'0' c && leb c b'9' || leb b'a' c && leb c b'f'

unfoldable pub all_hex : Text → Bool
unfolding is_hex
all_hex [] = true
all_hex (c ∷ s) = is_hex c && all_hex s

-- It begins with hexadecimal digits and a hyphen.
pub record IsUuid (id : Text) : Type 0 where
  pub first : ℕ
  pub digits : Text
  pub rest : Text
  pub hex : all_hex (first ∷ digits) ≡ true
  pub whole : id ≡ first ∷ (digits ++ (b'-' ∷ rest))

digits_onto-hyphen :
    (s t : Text) (afresh : Bool) (n : ℕ)
    → all_hex s ≡ true
    → digits_onto afresh n (s ++ (b'-' ∷ t)) ≡ none
unfolding digits_onto all_hex is_digit all_space is_space
digits_onto-hyphen [] t true n h = refl
digits_onto-hyphen [] t false n h = refl
digits_onto-hyphen (c ∷ s) t true n h =
    ground (arith, digits_onto-hyphen s t false (n * 10 + (c - b'0')))
digits_onto-hyphen (c ∷ s) t false n h =
    ground (arith, digits_onto-hyphen s t false (n * 10 + (c - b'0')))

int_of-IsUuid :
    (c : ℕ) (s t : Text) → all_hex (c ∷ s) ≡ true → message_id (c ∷ (s ++ (b'-' ∷ t))) ≡ none
unfolding message_id int_of signed lstrip is_space all_hex
int_of-IsUuid c s t h = ground (arith, digits_onto-hyphen (c ∷ s) t true 0 h)

module _ {C : Type 0} where
  selected-All :
      (P : Row C → Type 0) (since : ℕ) (rows : List (Row C))
      → All P rows
      → All P (selected since rows)
  unfolding selected
  selected-All P since [] h = tt
  selected-All P since (r ∷ rows) (h, hs) =
      elim (Bool-cases (r.sig.active && leb since r.sig.modified_at)) [
        | inl e ↦ rw e (h, selected-All P since rows hs)
        | inr e ↦ rw e (selected-All P since rows hs)
      ]

  module _ (isoformat : ℕ → Text) (accepts : SignatureMessage C → Bool) where
    stream-stalled :
        (rows : List (Row C))
        → All (λ r. IsUuid r.sig.id) rows
        → stream isoformat accepts rows ≡ record { sent = []; failed = not (is_empty rows) }
    unfolding stream send
    stream-stalled [] h = refl
    stream-stalled (r ∷ rows) (u, us) =
        ap (λ o. send isoformat accepts o r (stream isoformat accepts rows))
          (ap message_id u.whole ∙ int_of-IsUuid u.first u.digits u.rest u.hex)

    -- Where the ids are UUIDs, no signature is sent, and the stream ends with an error if one is
    -- due.
    pub get_cve_updates-stalled :
        (parse : Text → Option ℕ) (since : Text) (rows : List (Row C))
        → All (λ r. IsUuid r.sig.id) rows
        → get_cve_updates isoformat accepts parse since rows
          ≡ record { sent = []; failed = not (is_empty (selected (since_of parse since) rows)) }
    unfolding get_cve_updates
    get_cve_updates-stalled parse since rows h =
        stream-stalled (selected (since_of parse since) rows)
          (selected-All (λ r. IsUuid r.sig.id) (since_of parse since) rows h)
