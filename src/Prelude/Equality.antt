-- ===== src/Prelude/Equality.antt =====
-- Python's `==` for the types that the program compares.
use Prim.Native.Nat.{ℕ}
use Prim.Native.String.{String}
use mathlib.Core.Path.{◌≡◌, refl}
use mathlib.Core.Logic.{◌↔◌}
use mathlib.Core.Bool.{Bool, true, false}
use mathlib.Core.List.{List, [], ◌∷◌}
use text.Mathlib.Text.{◌==◌ as text_equal}
use text.Mathlib.TextEquality.{eq_iff}
use oneiro_ostis.Prelude.Tests.{nat_beq, nat_beq_iff}
use oneiro_ostis.Prelude.Lists.{any}

-- A type with a Boolean comparison that says when two of its values are one.
pub record Comparable {κ} (T : Type κ) : Type κ where
  pub equal : T → T → Bool
  pub equal_iff : (s t : T) → (equal s t ≡ true) ↔ (s ≡ t)

instance abbrev pub string_comparable : Comparable String
string_comparable = record { equal_iff = eq_iff; equal = text_equal }

infix 50 ◌==◌
abbrev pub ◌==◌ {κ} : {T : Type κ} ⦃c : Comparable T⦄ → T → T → Bool
◌==◌ ⦃c⦄ s t = c.equal s t

-- A value equals itself.
pub equal_refl {κ} : {T : Type κ} ⦃c : Comparable T⦄ (t : T) → (t == t) ≡ true
equal_refl ⦃c⦄ t = let (_, same) = c.equal_iff t t in same refl

instance abbrev pub nat_comparable : Comparable ℕ
nat_comparable = record { equal_iff = nat_beq_iff; equal = nat_beq }

-- `value in values`
abbrev pub contains {κ} : {T : Type κ} ⦃c : Comparable T⦄ → List T → T → Bool
contains values value = any (λ other. value == other) values

-- `setdefault` over a list: the first value of each key.
abbrev pub first_of_each : {A : Type 0} → (A → String) → List String → List A → List A
first_of_each key seen [] = []
first_of_each key seen (x ∷ xs) = elim (contains seen (key x)) [
  | true ↦ first_of_each key seen xs
  | false ↦ x ∷ first_of_each key (key x ∷ seen) xs
]
