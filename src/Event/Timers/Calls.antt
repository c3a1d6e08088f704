-- ===== src/Event/Timers/Calls.antt =====
-- modules/event/common_loop_timer.cpp: addTimer and deleteTimer keep the timers well-formed.
use cpp_tbox.Common.{
  ℕ, ◌+◌, ◌%◌, ◌^◌, ◌≤◌, ◌<◌, ◌≡◌, ◌≢◌, refl, sym, ap, ap₂, subst, ◌∙◌, ◌⊎◌, inl, inr, Bool, true,
  false, Option, none, some, [], ◌∷◌, ◌++◌, ◌==◌, if◌then◌else◌, arith, Bool-cases, Option-cases,
  length, dec_lt,
}
use cpp_tbox.Base.Cabinet.{Token, Cabinet, Cell, free, at, find, equal, size_max, object, obj_ptr}
use cpp_tbox.Base.Cabinet.Invariant.{Inv, free-Inv}
use cpp_tbox.Base.Cabinet.Alloc.{Allocated, alloc_total}
use cpp_tbox.Base.Cabinet.Laws.{at-free}
use cpp_tbox.Event.Timers.{
  Func, Timer, HeapLib, Loop, store, key, enter, add_timer, remove, delete_timer,
}
use cpp_tbox.Event.Timers.Heap.{count, HeapLaws}
use cpp_tbox.Event.Timers.Order.{
  memory-store, key-store_ne, Without, IsOrdered, remove-heap, enter-heap,
}
use cpp_tbox.Event.Timers.Valid.{IsValid, equal→eq, equal_self, removed}

module _ (lib : HeapLib) (laws : HeapLaws lib) where
  open laws use {IsHeap}

  pub delete-unknown :
      (t : Token) (s : Loop)
      → at t s.timer_cabinet ≡ none
      → delete_timer lib t s ≡ record s { timer_cabinet = (free t s.timer_cabinet).1 }
  unfolding delete_timer
  delete-unknown t s e = rw ((at-free t t s.timer_cabinet).0 ∙ e, delete_timer)

  pub delete-known :
      (t : Token) (s : Loop) (p : ℕ)
      → at t s.timer_cabinet ≡ some p
      → delete_timer lib t s
        ≡ remove lib p (record s { timer_cabinet = (free t s.timer_cabinet).1 })
  unfolding delete_timer
  delete-known t s p e = rw ((at-free t t s.timer_cabinet).0 ∙ e, delete_timer)

  -- Of the cabinet after a token that finds nothing was freed.
  at-unknown :
      (t u : Token) (s : Loop)
      → at t s.timer_cabinet ≡ none
      → at u (free t s.timer_cabinet).1 ≡ at u s.timer_cabinet
  at-unknown t u s e = (at-free u t s.timer_cabinet).1 ∙ go (Bool-cases (equal u t))
    where
      go :
          (equal u t ≡ true) ⊎ (equal u t ≡ false)
          → (if equal u t then none else at u s.timer_cabinet) ≡ at u s.timer_cabinet
      go (inl b) =
          rw b (sym (subst (λ x. at x s.timer_cabinet ≡ none) (sym (equal→eq lib laws u t b)) e))
      go (inr b) = rw b

  -- deleteTimer keeps the timers well-formed, whatever its token.
  pub delete_timer-IsValid :
      (t : Token) (s : Loop) → IsValid lib laws s → IsValid lib laws (delete_timer lib t s)
  delete_timer-IsValid t s v = go (Option-cases (at t s.timer_cabinet))
    where
      s₀ : Loop
      s₀ = record s { timer_cabinet = (free t s.timer_cabinet).1 }

      ordered₀ : IsOrdered lib laws s₀
      ordered₀ = record {
        heap = v.ordered.heap;
        distinct = v.ordered.distinct;
        below = v.ordered.below;
        due = v.ordered.due;
      }

      go :
          (at t s.timer_cabinet ≡ none) ⊎ ((p : ℕ) × (at t s.timer_cabinet ≡ some p))
          → IsValid lib laws (delete_timer lib t s)
      go (inl e) = rw (delete-unknown t s e) (record {
        ordered = ordered₀;
        inv = free-Inv t v.inv;
        finds = λ p c. at-unknown t (s.memory p).token s e ∙ v.finds p c;
        owned = λ u p f. v.owned u p (sym (at-unknown t u s e) ∙ f);
      })
      go (inr (p, e)) = rw (delete-known t s p e) (
          removed lib laws s (remove lib p s₀) p t v e (unfold remove store in refl)
            (unfold remove store in refl)
            (λ q n.
              unfold remove in
              (ap (λ (u : Timer). u.token)
                  (memory-store p (record (s.memory p) { expired = 0 }) s₀ q)
                ∙ ap
                    (λ (b : Bool).
                      (if b then record (s.memory p) { expired = 0 } else s.memory q).token)
                    (let x : (q == p) ≡ false = ground arith in x)))
            (λ q n. unfold remove in (key-store_ne p (record (s.memory p) { expired = 0 }) s₀ q n))
            (remove-heap lib laws p ordered₀ (v.owned t p e).0))

  -- Over any heap of the standard library, deleteTimer with a token that finds a timer takes this
  -- one and no other out of the heap of well-formed timers, its token then finds nothing and every
  -- other token what it found before, no other timer changes, the object is kept to be given back
  -- later, and the timers stay well-formed.
  pub delete_timer_lem :
      (t : Token) (s : Loop) (p : ℕ)
      → IsValid lib laws s
      → at t s.timer_cabinet ≡ some p
      → let s' = delete_timer lib t s in
        Without p s.timer_min_heap s'.timer_min_heap
        × ((u : Token) → at u s'.timer_cabinet ≡ (if equal u t then none else at u s.timer_cabinet))
        × ((q : ℕ) → p ≢ q → s'.memory q ≡ s.memory q)
        × (s'.doomed ≡ s.doomed ++ p ∷ [])
        × IsValid lib laws s'
  delete_timer_lem t s p v e =
      let s₀ : Loop = record s { timer_cabinet = (free t s.timer_cabinet).1 } in
      let valid = delete_timer-IsValid t s v in
      rw (delete-known t s p e) (
        (remove-heap lib laws {s = s₀} p
            (record {
              heap = v.ordered.heap;
              distinct = v.ordered.distinct;
              below = v.ordered.below;
              due = v.ordered.due;
            })
            (v.owned t p e).0).1,
        λ u. unfold remove store in ((at-free u t s.timer_cabinet).1),
        λ q n.
            unfold remove in
            (memory-store p (record (s.memory p) { expired = 0 }) s₀ q
              ∙ ap (λ (b : Bool). if b then record (s.memory p) { expired = 0 } else s.memory q)
                  (let x : (q == p) ≡ false = ground arith in x)),
        unfold remove store in refl,
        rw (delete-known t s p e) at valid,
      )

  -- The object in a cell that was found.
  abbrev opened : Option (Cell ℕ) → Option ℕ
  opened none = none
  opened (some cell) = object cell.slot

  at-opened : (u : Token) (c : Cabinet ℕ) → at u c ≡ opened (find u c.cells)
  unfolding at
  at-opened u c = elim (Option-cases (find u c.cells)) [
    | inl e ↦ rw (e, at)
    | inr (cell, e) ↦ rw (e, at)
  ]

  at-alloc :
      {p : ℕ} {c c' : Cabinet ℕ} {t : Token} (u : Token)
      → Allocated (some p) c t c'
      → at u c' ≡ (if equal u t then some p else at u c)
  at-alloc {p} {c} {c'} {t} u a = at-opened u c' ∙ ap opened (a.finds u) ∙ go (equal u t)
    where
      go :
          (b : Bool)
          → opened
              (if b then some (record { id = t.id; slot = obj_ptr (some p) }) else find u c.cells)
            ≡ (if b then some p else at u c)
      go true = refl
      go false = sym (at-opened u c)

  at-new : {p : ℕ} {c c' : Cabinet ℕ} {t : Token} → Allocated (some p) c t c' → at t c ≡ none
  at-new {c = c} {t = t} a = at-opened t c ∙ ap opened a.unused

  -- A timer entered under the token that the cabinet gave.
  module _ (now interval repeat : ℕ) (cb : Func) (s : Loop) (t : Token) (c' : Cabinet ℕ)
      (v : IsValid lib laws s) (a : Allocated (some s.next_pointer) s.timer_cabinet t c')
      (h₀ : 0 < now) (h : now + interval < 2 ^ 64) where
    abbrev p : ℕ
    p = s.next_pointer

    abbrev s' : Loop
    s' = (enter lib now interval repeat cb (t, c') s).1

    abbrev new : Timer
    new = record {
      token = t;
      interval = interval;
      expired = (now + interval) % 2 ^ 64;
      repeat = repeat;
      cb = cb;
    }

    memory' : (q : ℕ) → s'.memory q ≡ (if q == p then new else s.memory q)
    memory' q = unfold enter in (memory-store p new s q)

    at_new : (q : ℕ) → p ≡ q → s'.memory q ≡ new
    at_new q x =
        memory' q
        ∙ ap (λ (b : Bool). if b then new else s.memory q)
            (let y : (q == p) ≡ true = ground arith in y)

    at_old : (q : ℕ) → p ≢ q → s'.memory q ≡ s.memory q
    at_old q x =
        memory' q
        ∙ ap (λ (b : Bool). if b then new else s.memory q)
            (let y : (q == p) ≡ false = ground arith in y)

    heap :
        IsHeap (key s') s'.timer_min_heap
        × ((q : ℕ)
            → count q s'.timer_min_heap ≡ count q s.timer_min_heap + (if p == q then 1 else 0))
    heap = enter-heap lib laws now interval repeat cb t c' v.ordered

    old : (q : ℕ) → 0 < count q s.timer_min_heap → p ≢ q
    old q z x = omega (arith, v.ordered.below q z)

    same : (q : ℕ) → p ≢ q → count q s'.timer_min_heap ≡ count q s.timer_min_heap
    same q n = let x : (p == q) ≡ false = ground arith in heap.1 q ∙ rw x (omega arith)

    one : (q : ℕ) → p ≡ q → count q s'.timer_min_heap ≡ 1
    one q n =
        let x : (p == q) ≡ true = ground arith in
        let none_yet : count q s.timer_min_heap ≡ 0 = elim (dec_lt 0 (count q s.timer_min_heap)) [
          | yes z ↦ absurd (old q z n)
          | no z ↦ omega arith
        ] in
        heap.1 q ∙ rw x (omega (arith, none_yet))

    cab : s'.timer_cabinet ≡ c'
    unfolding enter store
    cab = refl

    distinct : (q : ℕ) → ((p == q) ≡ true) ⊎ ((p == q) ≡ false) → count q s'.timer_min_heap ≤ 1
    distinct q (inl x) = omega (arith, one q (ground arith))
    distinct q (inr x) = omega (arith, same q (ground arith), v.ordered.distinct q)

    below :
        (q : ℕ)
        → 0 < count q s'.timer_min_heap
        → ((p == q) ≡ true) ⊎ ((p == q) ≡ false)
        → q < s'.next_pointer
    below q z (inl x) = let y : p ≡ q = ground arith in unfold enter store in (omega (arith, y))
    below q z (inr x) =
        let y : q < p = omega (arith, same q (ground arith), v.ordered.below q) in
        unfold enter store in (omega (arith, y))

    due :
        (q : ℕ)
        → 0 < count q s'.timer_min_heap
        → ((p == q) ≡ true) ⊎ ((p == q) ≡ false)
        → 0 < key s' q
    due q z (inl x) =
        let y : key s' q ≡ (now + interval) % 2 ^ 64 =
          ap (λ (u : Timer). u.expired) (at_new q (ground arith)) in
        omega (arith, y, h, h₀)
    due q z (inr x) =
        let y : key s' q ≡ key s q = ap (λ (u : Timer). u.expired) (at_old q (ground arith)) in
        omega (arith, y, same q (ground arith), v.ordered.due q)

    finds :
        (q : ℕ)
        → 0 < count q s'.timer_min_heap
        → ((p == q) ≡ true) ⊎ ((p == q) ≡ false)
        → at (s'.memory q).token s'.timer_cabinet ≡ some q
    finds q z (inl x) =
        let y : p ≡ q = ground arith in
        ap₂ (λ (u : Timer) c. at u.token c) (at_new q y) cab
        ∙ at-alloc t a
        ∙ ap (λ (b : Bool). if b then some p else at t s.timer_cabinet) (equal_self lib laws t)
        ∙ ap (λ r. some r) y
    finds q z (inr x) =
        let n : p ≢ q = ground arith in
        let f : at (s.memory q).token s.timer_cabinet ≡ some q = v.finds q (rw (← same q n) z) in
        ap₂ (λ (u : Timer) c. at u.token c) (at_old q n) cab
        ∙ at-alloc (s.memory q).token a
        ∙ not_new (s.memory q).token q f (Bool-cases (equal (s.memory q).token t))
      where
        not_new :
            (u : Token) (q : ℕ)
            → at u s.timer_cabinet ≡ some q
            → (equal u t ≡ true) ⊎ (equal u t ≡ false)
            → (if equal u t then some p else at u s.timer_cabinet) ≡ some q
        not_new u q f (inl b) =
            let y : at t s.timer_cabinet ≡ some q =
              subst (λ w. at w s.timer_cabinet ≡ some q) (equal→eq lib laws u t b) f in
            let y' : at t s.timer_cabinet ≡ none = at-new a in absurd (cc)
        not_new u q f (inr b) = rw b f

    owned :
        (u : Token) (q : ℕ)
        → (if equal u t then some p else at u s.timer_cabinet) ≡ some q
        → (equal u t ≡ true) ⊎ (equal u t ≡ false)
        → (0 < count q s'.timer_min_heap) × ((s'.memory q).token ≡ u)
    owned u q f (inl b) =
        let f' : some p ≡ some q = rw b at f in
        let y : p ≡ q = cc in
        (
          omega (arith, one q y),
          ap (λ (w : Timer). w.token) (at_new q y) ∙ sym (equal→eq lib laws u t b),
        )
    owned u q f (inr b) =
        let (m, k) = v.owned u q (rw b at f) in
        (omega (arith, same q (old q m), m), ap (λ (w : Timer). w.token) (at_old q (old q m)) ∙ k)

    enter-IsValid : IsValid lib laws s'
    enter-IsValid = record {
      ordered = record {
        heap = heap.0;
        distinct = λ q. distinct q (Bool-cases (p == q));
        below = λ q z. below q z (Bool-cases (p == q));
        due = λ q z. due q z (Bool-cases (p == q));
      };
      inv = subst Inv (sym cab) a.inv;
      finds = λ q z. finds q z (Bool-cases (p == q));
      owned = λ u q f.
          owned u q (sym (at-alloc u a) ∙ ap (at u) (sym cab) ∙ f) (Bool-cases (equal u t));
    }

  -- Over any heap of the standard library, addTimer on well-formed timers runs through while the
  -- cabinet has room, the time is not 0 and the sum with the interval does not wrap, and the
  -- timers stay well-formed: the heap and the cabinet hold the same timers, each once, under their
  -- tokens, and none is due at 0.
  pub add_timer-IsValid :
      (now interval repeat : ℕ) (cb : Func) (s : Loop)
      → IsValid lib laws s
      → length s.timer_cabinet.cells + 1 < size_max
      → 0 < now
      → now + interval < 2 ^ 64
      → (t : Token) × (s' : Loop) × (add_timer lib now interval repeat cb s ≡ some (t, s'))
        × IsValid lib laws s'
  unfolding add_timer
  add_timer-IsValid now interval repeat cb s v room h₀ h =
      let (t, c', e, a) = alloc_total (some s.next_pointer) v.inv room in
      (
        t,
        (enter lib now interval repeat cb (t, c') s).1,
        rw (e, add_timer),
        enter-IsValid now interval repeat cb s t c' v a h₀ h,
      )
