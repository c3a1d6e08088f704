-- ===== src/Util/Strings.antt =====
-- modules/util/string.cpp: splitting and joining texts, lists of the numbers of their characters.
-- `find` is seen from the place where it starts: what stands before the separator, and what follows it.
-- The loop of Split runs on fuel.

pub mod Pieces
pub mod Separated
mod Tests
use cpp_tbox.Common.{
  ℕ, zero, suc, Bool, true, false, ◌&&◌, ◌||◌, List, [], ◌∷◌, ◌++◌, Option, none, some, ◌==◌,
  if◌then◌else◌,
}

-- What follows, in a text that begins with the separator.
unfoldable pub after_sep : List ℕ → List ℕ → Option (List ℕ)
after_sep [] s = some s
after_sep (a ∷ sep) [] = none
after_sep (a ∷ sep) (b ∷ s) = let rest = after_sep sep s in if a == b then rest else none

unfoldable pub found_here : Option (List ℕ) → Option (List ℕ × List ℕ) → Option (List ℕ × List ℕ)
found_here (some rest) later = some ([], rest)
found_here none later = later

unfoldable pub further : ℕ → Option (List ℕ × List ℕ) → Option (List ℕ × List ℕ)
further x none = none
further x (some (before, rest)) = some (x ∷ before, rest)

-- `find` and `substr`
unfoldable pub find : List ℕ → List ℕ → Option (List ℕ × List ℕ)
find sep [] = found_here (after_sep sep []) none
find sep (x ∷ xs) = found_here (after_sep sep (x ∷ xs)) (further x (find sep xs))

unfoldable pub push_chip : List ℕ → Option (List (List ℕ)) → Option (List (List ℕ))
push_chip s none = none
push_chip s (some ss) = some (s ∷ ss)

unfoldable pub split_more :
    (List ℕ → Option (List (List ℕ))) → List ℕ → Option (List ℕ × List ℕ) → Option (List (List ℕ))
split_more go s none = some (s ∷ [])
split_more go s (some (before, rest)) = push_chip before (go rest)

unfoldable pub split : ℕ → List ℕ → List ℕ → Option (List (List ℕ))
split zero sep s = none
split (suc n) sep s = split_more (λ rest. split n sep rest) s (find sep s)

-- The pieces after the first, each behind a delimiter.
unfoldable pub join_rest : List ℕ → List (List ℕ) → List ℕ
join_rest delimiter [] = []
join_rest delimiter (s ∷ ss) = delimiter ++ (s ++ join_rest delimiter ss)

unfoldable pub join : List ℕ → List (List ℕ) → List ℕ
join delimiter [] = []
join delimiter (s ∷ ss) = s ++ join_rest delimiter ss

-- Blanks, of the code 32.
pub strip_left : List ℕ → List ℕ
strip_left [] = []
strip_left (x ∷ xs) = let rest = strip_left xs in if x == 32 then rest else x ∷ xs

pub keep_unless_blank : ℕ → List ℕ → List ℕ
keep_unless_blank x [] = if x == 32 then [] else x ∷ []
keep_unless_blank x (y ∷ ys) = x ∷ y ∷ ys

pub strip_right : List ℕ → List ℕ
strip_right [] = []
strip_right (x ∷ xs) = keep_unless_blank x (strip_right xs)

pub strip : List ℕ → List ℕ
strip s = strip_right (strip_left s)
