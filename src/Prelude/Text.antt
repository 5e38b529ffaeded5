-- ===== src/Prelude/Text.antt =====
-- Python's `str` methods that the modelled code calls, over the native texts.
use Prim.Native.Nat.{ℕ, zero, suc, ◌≤◌, ◌/◌, ◌%◌}
use Prim.Native.Char.{Char, code}
use Prim.Native.String.{String, [], ◌∷◌, ◌++◌}
use mathlib.Core.Logic.{inl, inr}
use mathlib.Core.Path.{◌≡◌, refl, ap, ◌∙◌}
use text.Mathlib.TextLemmas.{nil≢cons, tail-eq_of_cons-eq}
use mathlib.Core.Bool.{Bool, true, false, ◌&&◌, ◌||◌}
use mathlib.Core.List.{List}
use native.Mathlib.Omega.{arith}
use oneiro_ostis.Prelude.Tests.{leb, ltb, nat_beq, Bool-cases, if◌then◌else◌}

-- The characters that `str.strip` and `str.split` take for white space.
unfoldable pub is_space : Char → Bool
is_space c =
    let n = code c in
    (leb 9 n && leb n 13)
    || (leb 28 n && leb n 32)
    || nat_beq n 133
    || nat_beq n 160
    || nat_beq n 5760
    || (leb 8192 n && leb n 8202)
    || nat_beq n 8232
    || nat_beq n 8233
    || nat_beq n 8239
    || nat_beq n 8287
    || nat_beq n 12288

-- `len(text)`
unfoldable pub chars : String → ℕ
chars [] = 0
chars (c ∷ s) = suc (chars s)

-- `text[:n]`
unfoldable pub clip : ℕ → String → String
clip zero s = []
clip (suc n) [] = []
clip (suc n) (c ∷ s) = c ∷ clip n s

unfoldable pub is_empty : String → Bool
is_empty [] = true
is_empty (c ∷ s) = false

unfoldable pub lstrip : String → String
lstrip [] = []
lstrip (c ∷ s) = if is_space c then lstrip s else c ∷ s

-- A white character is dropped when nothing but white space is behind it.
unfoldable pub rstrip : String → String
rstrip [] = []
rstrip (c ∷ s) = let rest = rstrip s in if is_space c && is_empty rest then [] else c ∷ rest

-- `text.strip()`
unfoldable pub strip : String → String
unfolding lstrip rstrip
strip s = lstrip (rstrip s)

-- `not text.strip()`
unfoldable pub is_blank : String → Bool
unfolding strip is_empty
is_blank s = is_empty (strip s)

-- `" ".join(parts)` and `sep.join(parts)`
unfoldable pub join : String → List String → String
join sep List.[] = []
join sep (List.◌∷◌ x List.[]) = x
join sep (List.◌∷◌ x (List.◌∷◌ y r)) = x ++ (sep ++ join sep (List.◌∷◌ y r))

-- `text.split()`: the runs of characters that are no white space. `word` holds the open run.
split_from : String → String → List String
split_from word [] = if is_empty word then List.[] else List.◌∷◌ word List.[]
split_from word (c ∷ s) = elim (is_space c) [
  | true ↦ let closed = split_from [] s in if is_empty word then closed else List.◌∷◌ word closed
  | false ↦ split_from (word ++ (c ∷ [])) s
]

unfoldable pub split : String → List String
unfolding split_from is_space is_empty
split s = split_from [] s

-- `text or default`
unfoldable pub or_else : String → String → String
unfolding is_empty
or_else s default = if is_empty s then default else s

digit : ℕ → String
digit n =
    if nat_beq n 0
    then "0"
    else if nat_beq n 1
    then "1"
    else if nat_beq n 2
    then "2"
    else if nat_beq n 3
    then "3"
    else if nat_beq n 4
    then "4"
    else if nat_beq n 5
    then "5"
    else if nat_beq n 6
    then "6"
    else if nat_beq n 7
    then "7"
    else if nat_beq n 8
    then "8"
    else "9"

numeral_from : ℕ → ℕ → String
unfolding digit
numeral_from zero n = []
numeral_from (suc fuel) n = elim (ltb n 10) [
  | true ↦ digit n
  | false ↦ numeral_from fuel (n / 10) ++ digit (n % 10)
]

-- `str(n)`: each round drops a digit, so `n + 1` rounds are enough.
unfoldable pub numeral : ℕ → String
unfolding numeral_from
numeral n = numeral_from (suc n) n

pub chars-clip : (n : ℕ) (s : String) → chars (clip n s) ≤ n
unfolding chars clip
chars-clip zero s = omega arith
chars-clip (suc n) [] = omega arith
chars-clip (suc n) (c ∷ s) = omega (arith, chars-clip n s)

pub clip_short : (n : ℕ) (s : String) → chars s ≤ n → clip n s ≡ s
unfolding chars clip
clip_short zero [] h = refl
clip_short zero (c ∷ s) h = absurd (omega arith)
clip_short (suc n) [] h = refl
clip_short (suc n) (c ∷ s) h = ap (λ (t : String). c ∷ t) (clip_short n s (omega arith))

lstrip_idem : (s : String) → lstrip (lstrip s) ≡ lstrip s
unfolding lstrip
lstrip_idem [] = refl
lstrip_idem (c ∷ s) = ground (arith, lstrip_idem s)

rstrip_idem : (s : String) → rstrip (rstrip s) ≡ rstrip s
unfolding rstrip is_empty
rstrip_idem [] = refl
rstrip_idem (c ∷ s) = ground (arith, rstrip_idem s)

rstrip-tail : (c : Char) (s : String) → rstrip (c ∷ s) ≡ c ∷ s → rstrip s ≡ s
unfolding rstrip
rstrip-tail c s h = elim (Bool-cases (is_space c && is_empty (rstrip s))) [
  | inl e ↦ absurd (nil≢cons (rw e at h))
  | inr e ↦ tail-eq_of_cons-eq (rw e at h)
]

-- A text that ends in no white space keeps its end when its front is stripped.
rstrip-lstrip : (s : String) → rstrip s ≡ s → rstrip (lstrip s) ≡ lstrip s
unfolding lstrip
rstrip-lstrip [] h = unfold rstrip in refl
rstrip-lstrip (c ∷ s) h = elim (Bool-cases (is_space c)) [
  | inl e ↦ rw e (rstrip-lstrip s (rstrip-tail c s h))
  | inr e ↦ rw e h
]

-- Stripping twice is stripping once.
pub strip_idem : (s : String) → strip (strip s) ≡ strip s
unfolding strip
strip_idem s = ap lstrip (rstrip-lstrip (rstrip s) (rstrip_idem s)) ∙ lstrip_idem (rstrip s)

-- A text that is not blank is not blank once stripped.
pub is_blank-strip : (s : String) → is_blank (strip s) ≡ is_blank s
unfolding is_blank
is_blank-strip s = ap is_empty (strip_idem s)
