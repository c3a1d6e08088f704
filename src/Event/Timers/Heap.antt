-- ===== src/Event/Timers/Heap.antt =====
-- What the C++ standard says of std::push_heap, std::pop_heap and std::make_heap, and a vector that is kept
-- sorted as one way to do it.
use cpp_tbox.Common.{
  ℕ, ◌+◌, ◌≤◌, ◌<◌, ◌≡◌, refl, ap, ◌∙◌, inl, inr, false, List, [], ◌∷◌, ◌++◌, leb, ◌==◌,
  if◌then◌else◌, arith, Bool-cases, leb→le,
}
use cpp_tbox.Event.Timers.{HeapLib, pop_back}

-- How often a pointer is in a vector.
unfoldable pub count : ℕ → List ℕ → ℕ
count q [] = 0
count q (p ∷ l) = (if p == q then 1 else 0) + count q l

pub count-append : (q : ℕ) (l r : List ℕ) → count q (l ++ r) ≡ count q l + count q r
unfolding count
count-append q [] r = omega arith
count-append q (p ∷ l) r = omega (arith, count-append q l r)

pub count-one : (p q : ℕ) → count q (p ∷ []) ≡ (if p == q then 1 else 0)
unfolding count
count-one p q = omega arith

pub pop_back-append : (l : List ℕ) (p : ℕ) → pop_back (l ++ p ∷ []) ≡ l
unfolding pop_back
pop_back-append [] p = refl
pop_back-append (x ∷ []) p = refl
pop_back-append (x ∷ (y ∷ l)) p = ap (λ r. x ∷ r) (pop_back-append (y ∷ l) p)

-- `IsHeap` stands for std::is_heap: no element has a number below the one at the front.
pub record HeapLaws (lib : HeapLib) : Type 1 where
  pub IsHeap : (ℕ → ℕ) → List ℕ → Type 0
  pub nil : (k : ℕ → ℕ) → IsHeap k []
  pub front :
      (k : ℕ → ℕ) (p : ℕ) (l : List ℕ) (q : ℕ) → IsHeap k (p ∷ l) → 0 < count q l → k p ≤ k q
  pub congr :
      (k k' : ℕ → ℕ) (l : List ℕ)
      → ((q : ℕ) → 0 < count q l → k q ≡ k' q)
      → IsHeap k l
      → IsHeap k' l
  pub pushed :
      (k : ℕ → ℕ) (l : List ℕ) (p : ℕ)
      → IsHeap k l
      → IsHeap k (lib.push_heap k (l ++ p ∷ []))
        × ((q : ℕ) → count q (lib.push_heap k (l ++ p ∷ [])) ≡ count q (l ++ p ∷ []))
  pub popped :
      (k : ℕ → ℕ) (p : ℕ) (l : List ℕ)
      → IsHeap k (p ∷ l)
      → (r : List ℕ) × (lib.pop_heap k (p ∷ l) ≡ r ++ p ∷ [])
        × IsHeap k r
        × ((q : ℕ) → count q r ≡ count q l)
  pub made :
      (k : ℕ → ℕ) (l : List ℕ)
      → IsHeap k (lib.make_heap k l) × ((q : ℕ) → count q (lib.make_heap k l) ≡ count q l)

-- Sorted by the numbers.
put : (ℕ → ℕ) → ℕ → List ℕ → List ℕ
put k p [] = p ∷ []
put k p (q ∷ l) = if leb (k p) (k q) then p ∷ (q ∷ l) else q ∷ put k p l

sort : (ℕ → ℕ) → List ℕ → List ℕ
unfolding put
sort k [] = []
sort k (p ∷ l) = put k p (sort k l)

rotate : List ℕ → List ℕ
rotate [] = []
rotate (p ∷ l) = l ++ p ∷ []

unfoldable pub sorted_lib : HeapLib
unfolding sort rotate
sorted_lib = record { push_heap = sort; pop_heap = λ k l. rotate l; make_heap = sort }

abbrev AllGe : (ℕ → ℕ) → ℕ → List ℕ → Type 0
AllGe k m [] = Unit {0}
AllGe k m (q ∷ l) = (m ≤ k q) × AllGe k m l

abbrev Sorted : (ℕ → ℕ) → List ℕ → Type 0
Sorted k [] = Unit {0}
Sorted k (p ∷ l) = AllGe k (k p) l × Sorted k l

AllGe-trans : (k : ℕ → ℕ) (m n : ℕ) (l : List ℕ) → m ≤ n → AllGe k n l → AllGe k m l
AllGe-trans k m n [] h a = tt
AllGe-trans k m n (q ∷ l) h a = (omega (arith, a.0), AllGe-trans k m n l h a.1)

AllGe-put : (k : ℕ → ℕ) (m p : ℕ) (l : List ℕ) → m ≤ k p → AllGe k m l → AllGe k m (put k p l)
unfolding put
AllGe-put k m p [] h a = (h, tt)
AllGe-put k m p (q ∷ l) h a = elim (Bool-cases (leb (k p) (k q))) [
  | inl b ↦ rw b (h, a)
  | inr b ↦ rw b (a.0, AllGe-put k m p l h a.1)
]

Sorted-put : (k : ℕ → ℕ) (p : ℕ) (l : List ℕ) → Sorted k l → Sorted k (put k p l)
unfolding put
Sorted-put k p [] s = (tt, tt)
Sorted-put k p (q ∷ l) s = elim (Bool-cases (leb (k p) (k q))) [
  | inl b ↦ rw b ((leb→le _ _ b, AllGe-trans k (k p) (k q) l (leb→le _ _ b) s.0), s)
  | inr b ↦ rw b (AllGe-put k (k q) p l (not_leb→le (k p) (k q) b) s.0, Sorted-put k p l s.1)
]
  where
    not_leb→le : (a b : ℕ) → leb a b ≡ false → b ≤ a
    not_leb→le a b h = ground arith

Sorted-sort : (k : ℕ → ℕ) (l : List ℕ) → Sorted k (sort k l)
unfolding sort
Sorted-sort k [] = tt
Sorted-sort k (p ∷ l) = Sorted-put k p (sort k l) (Sorted-sort k l)

count-put : (k : ℕ → ℕ) (p q : ℕ) (l : List ℕ) → count q (put k p l) ≡ count q (p ∷ l)
unfolding put count
count-put k p q [] = refl
count-put k p q (x ∷ l) = elim (Bool-cases (leb (k p) (k x))) [
  | inl b ↦ rw b refl
  | inr b ↦ rw b (omega (arith, count-put k p q l))
]

count-sort : (k : ℕ → ℕ) (q : ℕ) (l : List ℕ) → count q (sort k l) ≡ count q l
unfolding sort count
count-sort k q [] = refl
count-sort k q (p ∷ l) = count-put k p q (sort k l) ∙ omega (arith, count-sort k q l)

AllGe-le : (k : ℕ → ℕ) (m q : ℕ) (l : List ℕ) → AllGe k m l → 0 < count q l → m ≤ k q
unfolding count
AllGe-le k m q [] a h = absurd (omega arith)
AllGe-le k m q (p ∷ l) a h = elim (Bool-cases (p == q)) [
  | inl b ↦ let e : p ≡ q = ground arith in rw (← e) a.0
  | inr b ↦ AllGe-le k m q l a.1 (let h' : 0 < 0 + count q l = rw b at h in omega arith)
]

AllGe-congr :
    (k k' : ℕ → ℕ) (m : ℕ) (l : List ℕ)
    → ((q : ℕ) → 0 < count q l → k q ≡ k' q)
    → AllGe k m l
    → AllGe k' m l
unfolding count
AllGe-congr k k' m [] h a = tt
AllGe-congr k k' m (p ∷ l) h a =
    let e : k p ≡ k' p = h p (ground arith) in
    (rw (← e) a.0, AllGe-congr k k' m l (λ q c. h q (omega arith)) a.1)

Sorted-congr :
    (k k' : ℕ → ℕ) (l : List ℕ) → ((q : ℕ) → 0 < count q l → k q ≡ k' q) → Sorted k l → Sorted k' l
unfolding count
Sorted-congr k k' [] h s = tt
Sorted-congr k k' (p ∷ l) h s =
    let e : k p ≡ k' p = h p (ground arith) in
    (
      rw (← e) (AllGe-congr k k' (k p) l (λ q c. h q (omega arith)) s.0),
      Sorted-congr k k' l (λ q c. h q (omega arith)) s.1,
    )

pub sorted_laws : HeapLaws sorted_lib
unfolding sorted_lib
sorted_laws = record {
  IsHeap = Sorted;
  nil = λ k. tt;
  front = λ k p l q s h. AllGe-le k (k p) q l s.0 h;
  congr = Sorted-congr;
  pushed = λ k l p s. (Sorted-sort k (l ++ p ∷ []), λ q. count-sort k q (l ++ p ∷ []));
  popped = λ k p l s. (l, refl, s.1, λ q. refl);
  made = λ k l. (Sorted-sort k l, λ q. count-sort k q l);
}
