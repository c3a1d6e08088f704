-- ===== src/Common/Int.antt =====
-- The `int` identifiers of the program: they are stored and compared, never added.
use Prim.Native.Nat.{ℕ}
use mathlib.Core.Path.{◌≡◌}
use mathlib.Core.Logic.{◌↔◌}
use mathlib.Core.Bool.{Bool, true, false}
use mathlib.Core.Option.{Option, none, some}
use mathlib.Core.List.{List, [], ◌∷◌}
use native.Mathlib.Omega.{arith}
use cpp_tbox.Common.Tests.{◌==◌, if◌then◌else◌}

-- `negsuc n` is -(n + 1).
pub data ℤ : Type 0 where
  pos : ℕ → ℤ
  negsuc : ℕ → ℤ

abbrev pub eq_int : ℤ → ℤ → Bool
eq_int (pos a) (pos b) = a == b
eq_int (pos a) (negsuc b) = false
eq_int (negsuc a) (pos b) = false
eq_int (negsuc a) (negsuc b) = a == b

pub eq_int_iff : (a b : ℤ) → (eq_int a b ≡ true) ↔ (a ≡ b)
eq_int_iff a b = ground arith

-- A `std::map` with such keys, as an association list.
module _ {ℓ} {V : Type ℓ} where
  abbrev pub lookup_int : ℤ → List (ℤ × V) → Option V
  lookup_int k [] = none
  lookup_int k ((j, v) ∷ m) = if eq_int j k then some v else lookup_int k m

  abbrev pub insert_int : ℤ → V → List (ℤ × V) → List (ℤ × V)
  insert_int k v [] = (k, v) ∷ []
  insert_int k v ((j, w) ∷ m) = if eq_int j k then (j, v) ∷ m else (j, w) ∷ insert_int k v m
