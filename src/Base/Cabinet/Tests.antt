-- ===== src/Base/Cabinet/Tests.antt =====
-- A cabinet of numbers: two objects put in, the first taken out.
use cpp_tbox.Common.{ℕ, ◌≡◌, refl, false, List, [], ◌∷◌, none, some, arith}
use cpp_tbox.Base.Cabinet.{size_max, Token, Cabinet, obj_ptr, at, update, free}
use cpp_tbox.Base.Cabinet.Invariant.{Inv, live}
use cpp_tbox.Base.Cabinet.Stale.{Call, allocs, updates, frees, run, freed_stays_dead}

abbrev first_token : Token
first_token = record { id = 1; pos = 0 }

abbrev two : Cabinet ℕ
two = record {
  last_id = 2;
  cells =
      record { id = 1; slot = obj_ptr (some 7) } ∷ record { id = 2; slot = obj_ptr (some 8) } ∷ [];
  first_free = size_max;
  count = 2;
}

two-Inv : Inv two
unfolding live
two-Inv = record {
  free_list = [];
  links = tt;
  starts = refl;
  distinct = tt;
  counted = refl;
  filled = refl;
  tagged = (refl, (refl, tt));
  room = omega arith;
}

abbrev later : List (Call ℕ)
later = allocs (some 5) ∷ updates first_token (some 6) ∷ frees first_token ∷ []

freed_stays_dead_example :
    (c' : Cabinet ℕ) × (run later (free first_token two).1 ≡ some c')
    × (at first_token c' ≡ none)
    × (update first_token (some 3) c' ≡ (false, c'))
    × (free first_token c' ≡ (none, c'))
freed_stays_dead_example =
    freed_stays_dead first_token (some 3) later two-Inv (omega arith) (omega arith) (omega arith)
