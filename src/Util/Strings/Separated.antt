-- ===== src/Util/Strings/Separated.antt =====
-- What Split by one character makes of pieces that the character joins and none of them holds.
use cpp_tbox.Common.{
  ℕ, zero, suc, ◌<◌, ◌≡◌, refl, append-nil, ==_iff, true, List, [], ◌∷◌, ◌++◌, none, some, false,
  ◌==◌, length, length-append, arith,
}
use cpp_tbox.Util.Strings.{
  after_sep, found_here, further, find, push_chip, split_more, split, join_rest, join,
}

abbrev pub Free : ℕ → List ℕ → Type 0
Free c [] = Unit {0}
Free c (d ∷ s) = ((c == d) ≡ false) × Free c s

abbrev pub AllFree : ℕ → List (List ℕ) → Type 0
AllFree c [] = Unit {0}
AllFree c (s ∷ ss) = Free c s × AllFree c ss

find-Free : (c : ℕ) (s : List ℕ) → Free c s → find (c ∷ []) s ≡ none
unfolding find after_sep found_here further
find-Free c [] h = refl
find-Free c (d ∷ s) (e, h) = rw (e, find-Free c s h) refl

find-join : (c : ℕ) (s rest : List ℕ) → Free c s → find (c ∷ []) (s ++ (c ∷ rest)) ≡ some (s, rest)
unfolding find after_sep found_here further
find-join c [] rest h = let same : (c == c) ≡ true = (==_iff c c).1 refl in rw (same) refl
find-join c (d ∷ s) rest (e, h) = rw (e, find-join c s rest h) refl

pub split-join :
    (n c : ℕ) (s : List ℕ) (ss : List (List ℕ))
    → Free c s
    → AllFree c ss
    → length (join (c ∷ []) (s ∷ ss)) < n
    → split n (c ∷ []) (join (c ∷ []) (s ∷ ss)) ≡ some (s ∷ ss)
unfolding split split_more push_chip join join_rest
split-join zero c s ss h hs w = absurd (omega (arith, w))
split-join (suc n) c s [] h hs w = rw (append-nil s, find-Free c s h) refl
split-join (suc n) c s (t ∷ ss) h (h', hs) w =
    let shorter : length (join (c ∷ []) (t ∷ ss)) < n =
      omega (arith, w, length-append s (c ∷ join (c ∷ []) (t ∷ ss))) in
    rw (find-join c s (join (c ∷ []) (t ∷ ss)) h, split-join n c t ss h' hs shorter) refl
