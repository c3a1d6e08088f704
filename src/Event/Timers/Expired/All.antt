-- ===== src/Event/Timers/Expired/All.antt =====
-- modules/event/common_loop_timer.cpp: handleExpiredTimers comes to an end, and has called what was due.
use cpp_tbox.Common.{
  ℕ, zero, suc, ◌+◌, ◌^◌, ◌≤◌, ◌<◌, ◌≡◌, ◌≢◌, refl, sym, ap, subst, ◌∙◌, ◌⊎◌, inl, inr, true, false,
  none, some, List, [], ◌∷◌, ◌++◌, append-nil, append_assoc, ltb, ltb→lt, ◌==◌, if◌then◌else◌,
  arith, Bool-cases,
}
use cpp_tbox.Event.Timers.{Func, Timer, HeapLib, Loop, key, advance, handle_expired_timers}
use cpp_tbox.Event.Timers.Heap.{count, HeapLaws}
use cpp_tbox.Event.Timers.Valid.{IsValid, next-advance, advance-IsValid}
use cpp_tbox.Event.Timers.Expired.{
  quiet, sum_below, sum_drop, lateness, Ascending, Called, Progresses, called, Handled, rounded,
  handle-nil, handle-later, handle-round,
}
use cpp_tbox.Event.Timers.Expired.Round.{
  Stepped, first_in, advance-Stepped, Stepped-Progresses, lateness_drops, lateness_same,
}

Called-append : (f d : ℕ) (l r : List (ℕ × ℕ)) → Called f d r → Called f d (l ++ r)
Called-append f d [] r c = c
Called-append f d ((g, e) ∷ l) r c = inr (Called-append f d l r c)

module _ (lib : HeapLib) (laws : HeapLaws lib) where
  -- The log and the level are no part of what is valid.
  pub rounded-IsValid :
      (level p : ℕ) (s : Loop)
      → IsValid lib laws (advance lib p s)
      → IsValid lib laws (rounded lib laws level p s)
  rounded-IsValid level p s v = record {
    ordered = record {
      heap = v.ordered.heap;
      distinct = v.ordered.distinct;
      below = v.ordered.below;
      due = v.ordered.due;
    };
    inv = v.inv;
    finds = v.finds;
    owned = v.owned;
  }

  rounded-Stepped :
      (level p : ℕ) (s : Loop)
      → Stepped lib laws s (advance lib p s) p
      → Stepped lib laws s (rounded lib laws level p s) p
  rounded-Stepped level p s st = record { counts = st.counts; others = st.others; self = st.self }

  -- The heap is empty, or nothing in it is due.
  nothing-Handled :
      (now : ℕ) (s : Loop)
      → IsValid lib laws s
      → ((q : ℕ) → 0 < count q s.timer_min_heap → now < key s q)
      → Handled lib laws now s s []
  nothing-Handled now s v h = record {
    valid = v;
    finished = h;
    logged = sym (append-nil s.log);
    ascending = λ m b. tt;
    runs = λ q f c k e. absurd (omega (arith, h q c));
  }

  -- After the round of a timer no other is due before it.
  later_keys :
      (s s₁ : Loop) (p : ℕ) (l : List ℕ)
      → IsValid lib laws s
      → s.timer_min_heap ≡ p ∷ l
      → Stepped lib laws s s₁ p
      → (q : ℕ) → 0 < count q s₁.timer_min_heap
      → key s p ≤ key s₁ q
  later_keys s s₁ p l v e st q c = go (Bool-cases (p == q))
    where
      at_p :
          (count p s₁.timer_min_heap ≡ 0)
            ⊎ ((key s₁ p ≡ key s p + (s.memory p).interval)
                × ((s₁.memory p).interval ≡ (s.memory p).interval)
                × (0 < (s.memory p).interval))
          → 0 < count p s₁.timer_min_heap
          → key s p ≤ key s₁ p
      at_p (inl z) c = absurd (omega arith)
      at_p (inr (a, b, d)) c = omega (arith, a)

      go : ((p == q) ≡ true) ⊎ ((p == q) ≡ false) → key s p ≤ key s₁ q
      go (inl x) =
          let y : p ≡ q = ground arith in
          subst (λ i. key s p ≤ key s₁ i) y
            (at_p st.self (subst (λ i. 0 < count i s₁.timer_min_heap) (sym y) c))
      go (inr x) =
          let n : p ≢ q = ground arith in
          let same : key s₁ q ≡ key s q = ap (λ (t : Timer). t.expired) (st.others q n) in
          let in_l : 0 < count q l =
            let z : count q s.timer_min_heap ≡ (if p == q then 1 else 0) + count q l =
              rw e (unfold count in refl) in
            let z' : count q s.timer_min_heap ≡ 0 + count q l = rw x at z in
            omega (arith, z', st.counts q n) in
          rw same (laws.front (key s) p l q (rw e at v.ordered.heap) in_l)

  -- One round more.
  round-Handled :
      (now level : ℕ) (s s' : Loop) (p : ℕ) (l : List ℕ) (new : List (ℕ × ℕ))
      → IsValid lib laws s
      → s.timer_min_heap ≡ p ∷ l
      → Stepped lib laws s (rounded lib laws level p s) p
      → Handled lib laws now (rounded lib laws level p s) s' new
      → Handled lib laws now s s' (called (s.memory p).cb (key s p) ++ new)
  round-Handled now level s s' p l new v e st h = record {
    valid = h.valid;
    finished = h.finished;
    logged = h.logged ∙ append_assoc s.log (called (s.memory p).cb (key s p)) new;
    ascending = λ m b. ascends m (b p (first_in lib laws s p l e)) (s.memory p).cb;
    runs = λ q f c k x. runs q f c k x (Bool-cases (p == q));
  }
    where
      s₁ : Loop
      s₁ = rounded lib laws level p s

      later : (q : ℕ) → 0 < count q s₁.timer_min_heap → key s p ≤ key s₁ q
      later = later_keys s s₁ p l v e st

      ascends : (m : ℕ) → m ≤ key s p → (cb : Func) → Ascending m (called cb (key s p) ++ new)
      ascends m b none = h.ascending m (λ q c. omega (arith, later q c, b))
      ascends m b (some f) = (b, h.ascending (key s p) later)

      at_p : (f : ℕ) (cb : Func) → cb ≡ some f → Called f (key s p) (called cb (key s p) ++ new)
      at_p f none x = absurd (cc)
      at_p f (some g) x = inl (cc, refl)

      runs :
          (q f : ℕ)
          → 0 < count q s.timer_min_heap
          → key s q ≤ now
          → (s.memory q).cb ≡ some f
          → ((p == q) ≡ true) ⊎ ((p == q) ≡ false)
          → Called f (key s q) (called (s.memory p).cb (key s p) ++ new)
      runs q f c k x (inl y) =
          let z : p ≡ q = ground arith in
          subst (λ i. Called f (key s i) (called (s.memory p).cb (key s p) ++ new)) z
            (at_p f (s.memory p).cb (ap (λ i. (s.memory i).cb) z ∙ x))
      runs q f c k x (inr y) =
          let n : p ≢ q = ground arith in
          let same : key s₁ q ≡ key s q = ap (λ (t : Timer). t.expired) (st.others q n) in
          Called-append f (key s q) (called (s.memory p).cb (key s p)) new (
            subst (λ d. Called f d new) same
              (h.runs q f (omega (arith, st.counts q n, c)) (omega (arith, same, k))
                (ap (λ (t : Timer). t.cb) (st.others q n) ∙ x)))

  -- The result of the loop from `s`.
  abbrev Done : ℕ → ℕ → Loop → Type 0
  Done fuel now s =
      (s' : Loop) × (new : List (ℕ × ℕ)) × (handle_expired_timers lib quiet fuel now s ≡ some s')
      × Handled lib laws now s s' new

  pub front_least :
      (s : Loop) (p : ℕ) (l : List ℕ)
      → IsValid lib laws s
      → s.timer_min_heap ≡ p ∷ l
      → (q : ℕ) → 0 < count q s.timer_min_heap
      → key s p ≤ key s q
  front_least s p l v e q c = go (Bool-cases (p == q))
    where
      go : ((p == q) ≡ true) ⊎ ((p == q) ≡ false) → key s p ≤ key s q
      go (inl x) = let y : p ≡ q = ground arith in omega (arith, ap (key s) y)
      go (inr x) =
          let z : count q s.timer_min_heap ≡ (if p == q then 1 else 0) + count q l =
            rw e (unfold count in refl) in
          let z' : count q s.timer_min_heap ≡ 0 + count q l = rw x at z in
          laws.front (key s) p l q (rw e at v.ordered.heap) (omega (arith, z', c))

  -- The timer at the front is due.
  one_more :
      (fuel now : ℕ) (s : Loop) (p : ℕ) (l : List ℕ)
      → IsValid lib laws s
      → Progresses now s
      → sum_below s.next_pointer (lateness now s) < suc fuel
      → s.timer_min_heap ≡ p ∷ l
      → ltb now (key s p) ≡ false
      → ((s₁ : Loop)
          → IsValid lib laws s₁
          → Progresses now s₁
          → sum_below s₁.next_pointer (lateness now s₁) < fuel
          → Done fuel now s₁)
      → Done (suc fuel) now s
  one_more fuel now s p l v g b e x ih = go (handle-round lib laws fuel now s p l e x)
    where
      first : 0 < count p s.timer_min_heap
      first = first_in lib laws s p l e

      k : key s p ≤ now
      k = ground arith

      go :
          (level : ℕ) × (handle_expired_timers lib quiet (suc fuel) now s
              ≡ handle_expired_timers lib quiet fuel now (rounded lib laws level p s))
          → Done (suc fuel) now s
      go (level, r) =
          let s₁ : Loop = rounded lib laws level p s in
          let st : Stepped lib laws s s₁ p =
            rounded-Stepped level p s (advance-Stepped lib laws now s p l v g e k) in
          let fits : (s.memory p).expired + (s.memory p).interval < 2 ^ 64 =
            omega (arith, g.fits p first, k) in
          let less : sum_below s.next_pointer (lateness now s₁)
              < sum_below s.next_pointer (lateness now s) =
            sum_drop s.next_pointer p (lateness now s) (lateness now s₁) (v.ordered.below p first)
              (λ q n. lateness_same lib laws now s s₁ p q st n)
              (lateness_drops lib laws now s s₁ p st first k) in
          let n : s₁.next_pointer ≡ s.next_pointer = next-advance lib laws s p in
          let (s', new, f, h) =
            ih s₁ (rounded-IsValid level p s (advance-IsValid lib laws s p l v e fits))
              (Stepped-Progresses lib laws now s s₁ p st g first)
              (subst (λ i. sum_below i (lateness now s₁) < fuel) (sym n) (omega arith)) in
          (
            s',
            called (s.memory p).cb (key s p) ++ new,
            r ∙ f,
            round-Handled now level s s' p l new v e st h,
          )

  -- Over any heap of the standard library, timers that are well-formed, run once or have an
  -- interval, with no time that wraps, and callbacks that ask nothing of the timers: with more
  -- fuel than the timers are late in all, handleExpiredTimers comes to an end with well-formed
  -- timers of which none is due; the callbacks are called in the order of the times at which they
  -- were due, and every callback due at the beginning is called.
  pub handle_expired_timers_lem :
      (fuel now : ℕ) (s : Loop)
      → IsValid lib laws s
      → Progresses now s
      → sum_below s.next_pointer (lateness now s) < fuel
      → (s' : Loop) × (new : List (ℕ × ℕ)) × (handle_expired_timers lib quiet fuel now s ≡ some s')
        × Handled lib laws now s s' new
  handle_expired_timers_lem zero now s v g b = absurd (omega arith)
  handle_expired_timers_lem (suc fuel) now s v g b =
      go s.timer_min_heap refl (handle_expired_timers_lem fuel now)
    where
      go :
          (h : List ℕ)
          → s.timer_min_heap ≡ h
          → ((s₁ : Loop)
              → IsValid lib laws s₁
              → Progresses now s₁
              → sum_below s₁.next_pointer (lateness now s₁) < fuel
              → Done fuel now s₁)
          → Done (suc fuel) now s
      go [] e ih = (
        s,
        [],
        handle-nil lib laws fuel now s e,
        nothing-Handled now s v (λ q c.
            absurd (let z : 0 < count q [] = rw e at c in unfold count in (omega (arith, z)))),
      )
      go (p ∷ l) e ih = elim (Bool-cases (ltb now (key s p))) [
        | inl x ↦ (
          s,
          [],
          handle-later lib laws fuel now s p l e x,
          nothing-Handled now s v
              (λ q c. omega (arith, front_least s p l v e q c, ltb→lt now (key s p) x)),
        )
        | inr x ↦ one_more fuel now s p l v g b e x ih
      ]
