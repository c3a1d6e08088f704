-- ===== src/Flow/Executor/Ready.antt =====
-- Queues by priority: the first one that is not empty, and how many items there are.
use cpp_tbox.Common.{
  ℕ, zero, suc, ◌+◌, ◌<◌, ◌≡◌, refl, ap, List, [], ◌∷◌, none, some, ◌⊎◌, inl, inr, get_or, set,
  length, arith,
}
use cpp_tbox.Flow.Executor.{shift, first_ready}

pub get_or-set :
    {A : Type 0} (xs : List A) (i : ℕ) (v d : A) → i < length xs → get_or (set xs i v) i d ≡ v
get_or-set [] i v d h = absurd (omega (arith, h))
get_or-set (x ∷ xs) zero v d h = refl
get_or-set (x ∷ xs) (suc i) v d h = get_or-set xs i v d (omega (arith, h))

-- The first queue that is not empty.
pub data Ready {A : Type 0} : List (List A) → ℕ → Type 0 where
  here : {x : A} {q : List A} {qs : List (List A)} → Ready ((x ∷ q) ∷ qs) zero
  there : {qs : List (List A)} {i : ℕ} → Ready qs i → Ready ([] ∷ qs) (suc i)

abbrev pub AllEmpty : {A : Type 0} → List (List A) → Type 0
AllEmpty [] = Unit {0}
AllEmpty ([] ∷ qs) = AllEmpty qs
AllEmpty ((x ∷ q) ∷ qs) = ⊥

module _ {A : Type 0} where
  pub first_ready-Ready :
      (qs : List (List A))
      → ((first_ready qs ≡ none) × AllEmpty qs) ⊎ ((i : ℕ) × (first_ready qs ≡ some i) × Ready qs i)
  unfolding first_ready shift
  first_ready-Ready [] = inl (refl, tt)
  first_ready-Ready ([] ∷ qs) = elim (first_ready-Ready qs) [
    | inl (e, all) ↦ inl (ap shift e, all)
    | inr (i, e, r) ↦ inr (suc i, ap shift e, there r)
  ]
  first_ready-Ready ((x ∷ q) ∷ qs) = inr (0, refl, here)

  pub Ready-lt : {qs : List (List A)} {i : ℕ} → Ready qs i → i < length qs
  Ready-lt here = omega arith
  Ready-lt (there r) = omega (arith, Ready-lt r)

  pub Ready-get : {qs : List (List A)} {i : ℕ} → Ready qs i → 0 < length (get_or qs i [])
  Ready-get here = omega arith
  Ready-get (there r) = Ready-get r

  pub Ready-set :
      {qs : List (List A)} {i : ℕ} (q : List A) → Ready qs i → 0 < length q → Ready (set qs i q) i
  Ready-set [] r h = absurd (omega (arith, h))
  Ready-set (x ∷ q) here h = here
  Ready-set (x ∷ q) (there r) h = there (Ready-set (x ∷ q) r h)

  pub Ready-set_later :
      {qs : List (List A)} {i : ℕ}
      → Ready qs i
      → (j : ℕ) (q : List A) → i < j
      → Ready (set qs j q) i
  Ready-set_later here zero q h = absurd (omega (arith, h))
  Ready-set_later here (suc j) q h = here
  Ready-set_later (there r) zero q h = absurd (omega (arith, h))
  Ready-set_later (there r) (suc j) q h = there (Ready-set_later r j q (omega (arith, h)))

  -- All items that wait.
  unfoldable pub item_count : List (List A) → ℕ
  item_count [] = 0
  item_count (q ∷ qs) = length q + item_count qs

  pub item_count-set :
      (qs : List (List A)) (i : ℕ) (q : List A)
      → i < length qs
      → item_count (set qs i q) + length (get_or qs i []) ≡ item_count qs + length q
  unfolding item_count
  item_count-set [] i q h = absurd (omega (arith, h))
  item_count-set (p ∷ qs) zero q h = omega arith
  item_count-set (p ∷ qs) (suc i) q h = omega (arith, item_count-set qs i q (omega (arith, h)))

  pub set-get : (qs : List (List A)) (i : ℕ) → i < length qs → set qs i (get_or qs i []) ≡ qs
  set-get [] i h = absurd (omega (arith, h))
  set-get (p ∷ qs) zero h = refl
  set-get (p ∷ qs) (suc i) h = ap (λ r. p ∷ r) (set-get qs i (omega (arith, h)))
