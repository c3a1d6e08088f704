-- ===== src/Main/Module/Tests.antt =====
-- A program of two modules, the inner one required.
use cpp_tbox.Common.{ℕ, ◌≡◌, ◌++◌, refl, List, [], ◌∷◌, Bool, true, false, not, ◌==◌, Option, some}
use cpp_tbox.Main.Module.{
  fresh, Module, node, nil, item, Event, init, start, stop, clean, empty, config, make,
}
use cpp_tbox.Main.Module.Life.{all_in, calls, backward, Configured, live, live_lem}

-- The configuration is a number, and has every field.
abbrev field : List ℕ → ℕ → Option ℕ
field name js = some js

abbrev always : ℕ → ℕ → List Event → Bool
always id js log = true

abbrev starts : ℕ → List Event → Bool
starts id log = true

-- Module 2 does not initialize.
abbrev not_second : ℕ → ℕ → List Event → Bool
not_second id js log = not (id == 2)

abbrev inner : Module
inner = make 2 (98 ∷ [])

abbrev outer : Module
outer = node 1 (97 ∷ []) false fresh (item (node 2 (98 ∷ []) true fresh nil) true nil)

live_lem_example : live field always starts 0 (all_in fresh outer) ≡ (
  true,
  true,
  all_in fresh outer,
  ((calls init outer ++ calls start outer) ++ backward (calls stop outer))
      ++ backward (calls clean outer),
)
unfolding Configured config empty
live_lem_example =
    live_lem field always starts (λ id js log. refl) (λ id log. refl) 0 outer
      (0, refl, ((0, refl, tt), tt))
