-- ===== src/Prelude/Texts.antt =====
-- Texts as lists of code points: equality, order, prefixes and search.
use Prim.Native.Nat.{ℕ, zero, suc, ◌+◌, ◌/◌, ◌%◌}
use Prim.Native.Char.{code}
use Prim.Native.String.{String}
use mathlib.Core.Path.{◌≡◌, refl}
use mathlib.Core.Logic.{◌↔◌}
use mathlib.Core.Bool.{Bool, true, false, ◌&&◌, ◌||◌}
use mathlib.Core.List.{List, [], ◌∷◌, ◌++◌, map}
use native.Mathlib.Omega.{arith}
use ai_rag.Prelude.Tests.{ltb, leb, ◌==◌, if◌then◌else◌}

abbrev pub Text : Type 0
Text = List ℕ

-- A literal of the source as its code points.
abbrev pub codes : String → Text
codes String.[] = []
codes (String.◌∷◌ c s) = code c ∷ codes s

unfoldable pub text_eq : Text → Text → Bool
text_eq [] [] = true
text_eq [] (y ∷ ys) = false
text_eq (x ∷ xs) [] = false
text_eq (x ∷ xs) (y ∷ ys) = (x == y) && text_eq xs ys

eq_of_text_eq : (a b : Text) → text_eq a b ≡ true → a ≡ b
unfolding text_eq
eq_of_text_eq [] [] h = refl
eq_of_text_eq [] (y ∷ ys) h = ground arith
eq_of_text_eq (x ∷ xs) [] h = ground arith
eq_of_text_eq (x ∷ xs) (y ∷ ys) h = ground (arith, eq_of_text_eq xs ys)

pub text_eq_refl : (a : Text) → text_eq a a ≡ true
unfolding text_eq
text_eq_refl [] = refl
text_eq_refl (x ∷ xs) = ground (arith, text_eq_refl xs)

text_eq_of_eq : (a b : Text) → a ≡ b → text_eq a b ≡ true
text_eq_of_eq a b e = cc (text_eq_refl a)

pub text_eq_iff : (a b : Text) → (text_eq a b ≡ true) ↔ (a ≡ b)
text_eq_iff a b = (eq_of_text_eq a b, text_eq_of_eq a b)

-- `x in xs` for a collection of texts
unfoldable pub contains : Text → List Text → Bool
contains x [] = false
contains x (y ∷ ys) = text_eq x y || contains x ys

-- `text.startswith(prefix)`
unfoldable pub starts_with : Text → Text → Bool
starts_with text [] = true
starts_with [] (c ∷ prefix) = false
starts_with (d ∷ text) (c ∷ prefix) = (d == c) && starts_with text prefix

-- `needle in text`
unfoldable pub is_within : Text → Text → Bool
unfolding starts_with
is_within needle [] = starts_with [] needle
is_within needle (c ∷ text) = starts_with (c ∷ text) needle || is_within needle text

-- `sep.join(parts)`
unfoldable pub join : Text → List Text → Text
join sep [] = []
join sep (p ∷ []) = p
join sep (p ∷ q ∷ ps) = p ++ (sep ++ join sep (q ∷ ps))

-- The order of `sorted` on texts: by the first code point that differs.
unfoldable pub text_lt : Text → Text → Bool
text_lt a [] = false
text_lt [] (y ∷ ys) = true
text_lt (x ∷ xs) (y ∷ ys) = ltb x y || ((x == y) && text_lt xs ys)

pub starts_with_self_append : (a b : Text) → starts_with (a ++ b) a ≡ true
unfolding starts_with
starts_with_self_append [] b = refl
starts_with_self_append (x ∷ a) b = ground (arith, starts_with_self_append a b)

-- Whitespace, as `str.strip` takes it.
unfoldable pub is_space : ℕ → Bool
is_space c =
    (c == 32)
    || (leb 9 c && leb c 13)
    || (leb 28 c && leb c 31)
    || (c == 133)
    || (c == 160)
    || (c == 5760)
    || (leb 8192 c && leb c 8202)
    || (c == 8232)
    || (c == 8233)
    || (c == 8239)
    || (c == 8287)
    || (c == 12288)

unfoldable pub lstrip : Text → Text
unfolding is_space
lstrip [] = []
lstrip (c ∷ s) = if is_space c then lstrip s else c ∷ s

unfoldable pub rstrip : Text → Text
unfolding is_space
rstrip [] = []
rstrip (c ∷ s) = elim (rstrip s) [ [] ↦ if is_space c then [] else c ∷ [] | d ∷ r ↦ c ∷ d ∷ r ]

-- `text.strip()`
unfoldable pub strip : Text → Text
unfolding lstrip rstrip
strip s = rstrip (lstrip s)

unfoldable pub to_lower : ℕ → ℕ
to_lower c = if ltb 64 c && ltb c 91 then c + 32 else c

-- `text.lower()`, on ASCII
unfoldable pub lower : Text → Text
unfolding to_lower
lower = map to_lower

show_digits : (fuel n : ℕ) → Text → Text
show_digits zero n acc = acc
show_digits (suc fuel) n acc =
    let acc' = (48 + n % 10) ∷ acc in
    let rest = show_digits fuel (n / 10) acc' in if n / 10 == 0 then acc' else rest

-- `str(n)`; a number has at most `n + 1` digits
unfoldable pub show_nat : ℕ → Text
unfolding show_digits
show_nat n = show_digits (n + 1) n []
