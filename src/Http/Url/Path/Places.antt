-- ===== src/Http/Url/Path/Places.antt =====
-- Where the parts of a URL's path are found, and what substr takes there.
use cpp_tbox.Common.{
  ℕ, suc, ◌+◌, ◌-◌, ◌≡◌, ◌⊎◌, inl, inr, refl, ap, true, Option, none, some, List, [], ◌∷◌, ◌++◌,
  append-nil, append_assoc, length-append, subst, leb, ◌==◌, ==_iff, length, arith,
}
use cpp_tbox.Http.Url.Path.{find_first_of, take, drop, substr}
use cpp_tbox.Util.Strings.Separated.{Free}

pub find_first_of-Free : (c : ℕ) (s : List ℕ) → Free c s → find_first_of c s ≡ none
unfolding find_first_of
find_first_of-Free c [] h = refl
find_first_of-Free c (d ∷ s) (e, h) = rw (e, find_first_of-Free c s h) refl

pub find_first_of-at :
    (c : ℕ) (s t : List ℕ) → Free c s → find_first_of c (s ++ (c ∷ t)) ≡ some (length s)
unfolding find_first_of
find_first_of-at c [] t h = let same : (c == c) ≡ true = (==_iff c c).1 refl in rw (same) refl
find_first_of-at c (d ∷ s) t (e, h) = rw (e, find_first_of-at c s t h) refl

take-append : (s t : List ℕ) → take (length s) (s ++ t) ≡ s
unfolding take
take-append [] t = refl
take-append (c ∷ s) t = ap (λ r. c ∷ r) (take-append s t)

drop-append : (s t : List ℕ) → drop (length s) (s ++ t) ≡ t
unfolding drop
drop-append [] t = refl
drop-append (c ∷ s) t = drop-append s t

-- A position at which `rest` begins, or none where nothing is left.
abbrev pub Ends : ℕ → Option ℕ → List ℕ → Type 0
Ends n pos rest = (pos ≡ some n) ⊎ ((pos ≡ none) × (rest ≡ []))

pub substr-between :
    (s t rest : List ℕ) (pos : Option ℕ)
    → Ends (length s + length t) pos rest
    → substr (length s) pos (s ++ (t ++ rest)) ≡ t
unfolding substr
substr-between s t rest pos (inl e) =
    let after : leb (length s) (length s + length t) ≡ true = ground arith in
    let rest_length : length s + length t - length s ≡ length t = omega arith in
    (rw (e, after, rest_length, drop-append s (t ++ rest)) (take-append t rest))
substr-between s t rest pos (inr (e, e')) = (rw (e, e', append-nil t) (drop-append s t))

-- Behind the character at which a part begins.
pub substr-after :
    (c : ℕ) (s t rest : List ℕ) (pos : Option ℕ)
    → Ends (length (s ++ (c ∷ t))) pos rest
    → substr (suc (length s)) pos (s ++ (c ∷ (t ++ rest))) ≡ t
substr-after c s t rest pos e =
    let begun : List ℕ = s ++ (c ∷ []) in
    let long : length begun ≡ suc (length s) = omega (arith, length-append s (c ∷ [])) in
    let whole : length (s ++ (c ∷ t)) ≡ length begun + length t =
      omega (arith, long, length-append s (c ∷ t)) in
    subst (λ n. substr n pos (s ++ (c ∷ (t ++ rest))) ≡ t) long
      (subst (λ r. substr (length begun) pos r ≡ t) (append_assoc s (c ∷ []) (t ++ rest))
        (substr-between begun t rest pos (subst (λ n. Ends n pos rest) whole e)))

pub substr-front :
    (t rest : List ℕ) (pos : Option ℕ) → Ends (length t) pos rest → substr 0 pos (t ++ rest) ≡ t
substr-front t rest pos e =
    let same : length t ≡ 0 + length t = omega arith in
    substr-between [] t rest pos (subst (λ n. Ends n pos rest) same e)
