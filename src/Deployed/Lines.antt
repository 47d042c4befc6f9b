-- ===== src/Deployed/Lines.antt =====
-- A line that is read in pieces, by the agent's loop and by the proxy's.
use aiss_waf_server.Prelude.{
  ◌≡◌, sym, ap, ◌∙◌, Bool, true, false, none, some, List, [], ◌∷◌, ◌++◌, map, All, is_empty, arith,
  Bool-cases, inl, inr,
}
use mathlib.Core.List.{append_assoc, append-nil}
use aiss_waf_server.Prelude.Text.{Text, contains, starts_with}
use aiss_waf_server.Agent.Socket.{read_request}
use aiss_waf_server.Agent.Socket
use aiss_waf_server.Proxy.Defs.{receive}
use aiss_waf_server.Proxy.Defs

abbrev pub concat : List Text → Text
concat [] = []
concat (c ∷ cs) = c ++ concat cs

abbrev pub IsPiece : Text → Type 0
IsPiece c = is_empty c ≡ false

abbrev has_end : Text → Bool
has_end s = contains s (10 ∷ [])

nothing_after : (x y : Text) → x ++ y ≡ [] → y ≡ []
nothing_after [] y e = e
nothing_after (a ∷ x) y e = ground (arith, e)

-- What follows the end of a line is nothing, where the line's end is the only one.
ends_line :
    (x y line : Text)
    → x ++ y ≡ line ++ (10 ∷ [])
    → has_end line ≡ false
    → has_end x ≡ true
    → y ≡ []
unfolding contains starts_with
ends_line [] y line e f h = ground (arith, h)
ends_line (a ∷ x) y [] e f h = nothing_after x y (ground (arith, e))
ends_line (a ∷ x) y (b ∷ line) e f h =
    ends_line x y line (ground (arith, e)) (ground (arith, f)) (ground (arith, e, f, h))

pub read_request-line :
    (text : Text) (cs : List Text) (line : Text)
    → text ++ concat cs ≡ line ++ (10 ∷ [])
    → has_end line ≡ false
    → read_request text (map Socket.chunk cs) ≡ some (line ++ (10 ∷ []))
unfolding read_request
read_request-line text [] line e f = ap some (sym (append-nil text) ∙ e)
read_request-line text (c ∷ cs) line e f =
    let e' = append_assoc text c (concat cs) ∙ e in
    elim (Bool-cases (has_end (text ++ c))) [
      | inl h ↦ rw h (
          ap some (
            sym (append-nil (text ++ c))
            ∙ (ap (λ l. (text ++ c) ++ l) (sym (ends_line (text ++ c) (concat cs) line e' f h))
                ∙ e')))
      | inr h ↦ rw h (read_request-line (text ++ c) cs line e' f)
    ]

pub receive-line :
    (buf : Text) (cs : List Text) (line : Text)
    → buf ++ concat cs ≡ line ++ (10 ∷ [])
    → has_end line ≡ false
    → All IsPiece cs
    → receive buf (map Defs.chunk cs) ≡ (line ++ (10 ∷ []), none)
unfolding receive
receive-line buf [] line e f p = ap (λ l. (l, none)) (sym (append-nil buf) ∙ e)
receive-line buf ([] ∷ cs) line e f (p, ps) = ground (arith, p)
receive-line buf ((c ∷ s) ∷ cs) line e f (p, ps) =
    let e' = append_assoc buf (c ∷ s) (concat cs) ∙ e in
    elim (Bool-cases (has_end (buf ++ (c ∷ s)))) [
      | inl h ↦ rw h (
          ap (λ l. (l, none))
            (sym (append-nil (buf ++ (c ∷ s)))
              ∙ (ap (λ l. (buf ++ (c ∷ s)) ++ l)
                    (sym (ends_line (buf ++ (c ∷ s)) (concat cs) line e' f h))
                  ∙ e')))
      | inr h ↦ rw h (receive-line (buf ++ (c ∷ s)) cs line e' f ps)
    ]
