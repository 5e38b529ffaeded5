-- ===== src/Prelude/Json.antt =====
-- The values of a JSON document, as far as the program tells them apart. An array and an object are
-- kept by their canonical text, which the program hashes and shows and does not look into.
use Prim.Native.Nat.{ℕ}
use Prim.Native.String.{String}
use mathlib.Core.Bool.{Bool}

pub data Json : Type 0 where
  text : String → Json
  whole negative : ℕ → Json
  flag : Bool → Json
  array object : String → Json
  other : Json
