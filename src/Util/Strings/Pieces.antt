-- ===== src/Util/Strings/Pieces.antt =====
-- Joining the pieces of a text gives it back, and a text is split to an end by any separator but the empty one.
use cpp_tbox.Common.{
  ℕ, zero, suc, ◌<◌, ◌≡◌, refl, sym, ap, ap₂, ◌∙◌, Bool-cases, List, [], ◌∷◌, ◌++◌, append-nil,
  none, some, ◌⊎◌, inl, inr, ◌==◌, ==_iff, length, length-append, arith,
}
use cpp_tbox.Util.Strings.{
  after_sep, found_here, further, find, push_chip, split_more, split, join_rest, join,
}

after_sep-cases :
    (sep s : List ℕ)
    → (after_sep sep s ≡ none)
      ⊎ ((rest : List ℕ) × (after_sep sep s ≡ some rest) × (s ≡ sep ++ rest))
unfolding after_sep
after_sep-cases [] s = inr (s, refl, refl)
after_sep-cases (a ∷ sep) [] = inl refl
after_sep-cases (a ∷ sep) (b ∷ s) = elim (Bool-cases (a == b)) [
  | inr e ↦ inl (rw e refl)
  | inl e ↦ elim (after_sep-cases sep s) [
    | inl h ↦ inl (rw (e, h) refl)
    | inr (rest, h, eq) ↦ inr (rest, rw (e, h) refl, ap₂ (λ c t. c ∷ t) (sym ((==_iff a b).0 e)) eq)
  ]
]

-- What is found, with the text that it was found in.
find-cases :
    (sep s : List ℕ)
    → (find sep s ≡ none)
      ⊎ ((before : List ℕ) × (rest : List ℕ) × (find sep s ≡ some (before, rest))
          × (s ≡ before ++ (sep ++ rest)))
unfolding find found_here further
find-cases sep [] = elim (after_sep-cases sep []) [
  | inl e ↦ inl (ap (λ h. found_here h none) e)
  | inr (rest, e, eq) ↦ inr ([], rest, ap (λ h. found_here h none) e, eq)
]
find-cases sep (x ∷ xs) = elim (after_sep-cases sep (x ∷ xs)) [
  | inr (rest, e, eq) ↦ inr ([], rest, ap (λ h. found_here h (further x (find sep xs))) e, eq)
  | inl e ↦ elim (find-cases sep xs) [
    | inl h ↦ inl (ap (λ o. found_here o (further x (find sep xs))) e ∙ ap (further x) h)
    | inr (before, rest, h, eq) ↦ inr (
      x ∷ before,
      rest,
      ap (λ o. found_here o (further x (find sep xs))) e ∙ ap (further x) h,
      ap (λ t. x ∷ t) eq,
    )
  ]
]

-- There is a first piece.
split_pieces :
    (n : ℕ) (sep s : List ℕ)
    → 0 < length sep
    → length s < n
    → (p : List ℕ) × (ps : List (List ℕ)) × (split n sep s ≡ some (p ∷ ps))
      × (join sep (p ∷ ps) ≡ s)
unfolding split split_more push_chip join join_rest
split_pieces zero sep s h w = absurd (omega (arith, w))
split_pieces (suc n) sep s h w = elim (find-cases sep s) [
  | inl e ↦ (s, [], ap (split_more (λ rest. split n sep rest) s) e, append-nil s)
  | inr (before, rest, e, eq) ↦
      let shorter : length rest < n =
        omega
          (arith, w, h, ap length eq, length-append before (sep ++ rest), length-append sep rest) in
      let (p, ps, h', joined) = split_pieces n sep rest h shorter in
      (
        before,
        p ∷ ps,
        ap (split_more (λ rest. split n sep rest) s) e ∙ ap (push_chip before) h',
        ap (λ t. before ++ (sep ++ t)) joined ∙ sym eq,
      )
]

-- Split with a separator that is not empty, on more fuel than the text is long, comes to an end,
-- and Join of its pieces with the same separator is the text.
pub join-split :
    (n : ℕ) (sep s : List ℕ)
    → 0 < length sep
    → length s < n
    → (ss : List (List ℕ)) × (split n sep s ≡ some ss) × (join sep ss ≡ s)
join-split n sep s h w = let (p, ps, e, joined) = split_pieces n sep s h w in (p ∷ ps, e, joined)

-- With the empty separator the loop has no end.
pub split_empty : (n : ℕ) (s : List ℕ) → split n [] s ≡ none
unfolding split split_more push_chip find found_here after_sep
split_empty zero s = refl
split_empty (suc n) [] = ap (push_chip []) (split_empty n [])
split_empty (suc n) (x ∷ xs) = ap (push_chip []) (split_empty n (x ∷ xs))
