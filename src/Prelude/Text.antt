-- ===== src/Prelude/Text.antt =====
-- Python's `str` and `bytes` where the program looks inside them: lists of code points or bytes.
use Prim.Native.Nat.{ℕ, ◌+◌, ◌-◌}
use Prim.Native.Char.{code}
use Prim.Native.String.{String}
use mathlib.Core.Path.{◌≡◌}
use mathlib.Core.Logic.{◌↔◌}
use mathlib.Core.Bool.{Bool, true, false, ◌&&◌, ◌||◌}
use mathlib.Core.List.{List, [], ◌∷◌, ◌++◌, map, reverse}
use native.Mathlib.Omega.{arith}
use aiss_waf_server.Prelude.Tests.{leb, ◌==◌, if◌then◌else◌}

abbrev pub Text : Type 0
Text = List ℕ

-- The code points of a literal.
unfoldable pub codes : String → Text
codes String.[] = []
codes (String.◌∷◌ c s) = code c ∷ codes s

unfoldable pub text_eq : Text → Text → Bool
text_eq [] [] = true
text_eq (a ∷ s) (b ∷ t) = (a == b) && text_eq s t
text_eq _ _ = false

pub text_eq_iff : (s t : Text) → (text_eq s t ≡ true) ↔ (s ≡ t)
unfolding text_eq
text_eq_iff [] [] = ground arith
text_eq_iff [] (b ∷ t) = ground arith
text_eq_iff (a ∷ s) [] = ground arith
text_eq_iff (a ∷ s) (b ∷ t) = ground (arith, text_eq_iff s t)

-- x in list
unfoldable pub elem : Text → List Text → Bool
elem s [] = false
elem s (t ∷ ts) = text_eq s t || elem s ts

-- s.startswith(p)
unfoldable pub starts_with : Text → Text → Bool
starts_with s [] = true
starts_with [] (b ∷ p) = false
starts_with (a ∷ s) (b ∷ p) = (a == b) && starts_with s p

-- s.endswith(p)
unfoldable pub ends_with : Text → Text → Bool
unfolding starts_with
ends_with s p = starts_with (reverse s) (reverse p)

-- p in s
unfoldable pub contains : Text → Text → Bool
unfolding starts_with
contains [] p = starts_with [] p
contains (a ∷ s) p = starts_with (a ∷ s) p || contains s p

-- s.lower(), on the letters A to Z
unfoldable pub lower_char : ℕ → ℕ
lower_char c = if leb b'A' c && leb c b'Z' then c + 32 else c

unfoldable pub lower : Text → Text
unfolding lower_char
lower = map lower_char

-- s.split(c)[0] and the part of s.partition(c) before the separator
unfoldable pub before : ℕ → Text → Text
before c [] = []
before c (a ∷ s) = if a == c then [] else a ∷ before c s

-- the part of s.partition(c) after the separator
unfoldable pub after : ℕ → Text → Text
after c [] = []
after c (a ∷ s) = if a == c then s else after c s

-- s.split(c), with the piece at hand
split_onto : ℕ → Text → Text → List Text
split_onto c piece [] = piece ∷ []
split_onto c piece (a ∷ s) =
    if a == c then piece ∷ split_onto c [] s else split_onto c (piece ++ (a ∷ [])) s

unfoldable pub split : ℕ → Text → List Text
unfolding split_onto
split c = split_onto c []

-- " ".join(filter(None, parts))
unfoldable pub join_parts : List Text → Text
join_parts [] = []
join_parts ([] ∷ parts) = join_parts parts
join_parts (p ∷ parts) = elim (join_parts parts) [ [] ↦ p | c ∷ rest ↦ p ++ (b' ' ∷ (c ∷ rest)) ]

-- whitespace of s.strip(), in ASCII
unfoldable pub is_space : ℕ → Bool
is_space c = c == 32 || (leb 9 c && leb c 13) || (leb 28 c && leb c 31)

unfoldable pub lstrip : Text → Text
unfolding is_space
lstrip [] = []
lstrip (a ∷ s) = if is_space a then lstrip s else a ∷ s

unfoldable pub strip : Text → Text
unfolding lstrip
strip s = reverse (lstrip (reverse (lstrip s)))

-- a or b
abbrev pub or_else : Text → Text → Text
or_else [] t = t
or_else (a ∷ s) t = a ∷ s

-- s.upper(), on the letters a to z
unfoldable pub upper_char : ℕ → ℕ
upper_char c = if leb b'a' c && leb c b'z' then c - 32 else c

unfoldable pub upper : Text → Text
unfolding upper_char
upper = map upper_char

-- s.count(c)
unfoldable pub count_char : ℕ → Text → ℕ
count_char c [] = 0
count_char c (a ∷ s) = if a == c then 1 + count_char c s else count_char c s

-- sep.join(parts)
unfoldable pub join : Text → List Text → Text
join sep [] = []
join sep (p ∷ []) = p
join sep (p ∷ ps) = p ++ (sep ++ join sep ps)

-- whitespace of `bytes`, and b.strip()
unfoldable pub is_space_byte : ℕ → Bool
is_space_byte c = c == 32 || (leb 9 c && leb c 13)

unfoldable pub lstrip_bytes : Text → Text
unfolding is_space_byte
lstrip_bytes [] = []
lstrip_bytes (a ∷ s) = if is_space_byte a then lstrip_bytes s else a ∷ s

unfoldable pub strip_bytes : Text → Text
unfolding lstrip_bytes
strip_bytes s = reverse (lstrip_bytes (reverse (lstrip_bytes s)))
