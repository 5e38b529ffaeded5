-- ===== src/Schedule/Text.antt =====
-- python/oneiro/schedule.py: the calls of `str` and `int` that the parser makes. The tables of
-- the Unicode database are the parameter `Unicode`.
use Prim.Native.Char.{Char}
use Prim.Native.String.{[], ◌∷◌, ◌++◌}
use oneiro_ostis.Prelude.{
  ℕ, ◌+◌, ◌*◌, String, Bool, true, false, ◌&&◌, ◌||◌, not, Option, none, some, List, ltb,
  if◌then◌else◌, ◌==◌, string_comparable,
}
use oneiro_ostis.Prelude.Text.{chars, is_empty}

-- `isdigit` and the decimal value of a character (which a superscript digit has not), and
-- `str.lower`.
pub record Unicode : Type 0 where
  pub is_digit : Char → Bool
  pub decimal : Char → Option ℕ
  pub lower : String → String

-- A text of one character
abbrev pub one : Char → String
one c = c ∷ []

-- `text.partition(sep)` for a separator of one character: whether it was found, the text before it
-- and the text behind it.
unfoldable pub partition : String → String → Bool × String × String
partition sep [] = (false, [], [])
partition sep (c ∷ s) =
    let (found, first, last) = partition sep s in
    if one c == sep then (true, [], s) else (found, c ∷ first, last)

-- `text.split(sep)` for a separator of one character
split_at : String → String → String → List String
split_at sep word [] = List.◌∷◌ word List.[]
split_at sep word (c ∷ s) = elim (one c == sep) [
  | true ↦ List.◌∷◌ word (split_at sep [] s)
  | false ↦ split_at sep (word ++ one c) s
]

unfoldable pub split_on : String → String → List String
unfolding split_at
split_on sep s = split_at sep [] s

-- `text.lstrip("+")`
unfoldable pub strip_plus : String → String
strip_plus [] = []
strip_plus (c ∷ s) = if one c == "+" then strip_plus s else c ∷ s

module _ (u : Unicode) where
  all_digits : String → Bool
  all_digits [] = true
  all_digits (c ∷ s) = u.is_digit c && all_digits s

  -- `text.isdigit()`
  unfoldable pub is_digits : String → Bool
  unfolding all_digits is_empty
  is_digits s = not (is_empty s) && all_digits s

  decimals : ℕ → String → Option ℕ
  decimals n [] = some n
  decimals n (c ∷ s) = elim (u.decimal c) [ none ↦ none | some d ↦ decimals (n * 10 + d) s ]

  unsigned : String → Option ℕ
  unfolding decimals is_empty chars
  unsigned s = if is_empty s || ltb 4300 (chars s) then none else decimals 0 s

  -- `int(text)` for a text of digits behind plus signs: one sign is read, and at most 4300 digits.
  -- `none` is the `ValueError`.
  unfoldable pub int : String → Option ℕ
  unfolding unsigned
  int [] = none
  int (c ∷ s) = if one c == "+" then unsigned s else unsigned (c ∷ s)
