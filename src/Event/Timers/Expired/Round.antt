-- ===== src/Event/Timers/Expired/Round.antt =====
-- modules/event/common_loop_timer.cpp: what one round of handleExpiredTimers does to each timer.
use cpp_tbox.Common.{
  ℕ, ◌+◌, ◌-◌, ◌%◌, ◌^◌, ◌≤◌, ◌<◌, ◌≡◌, ◌≢◌, sym, ap, ap₂, subst, ◌∙◌, ◌⊎◌, inl, inr, Bool, true,
  false, List, ◌∷◌, ltb, ◌==◌, if◌then◌else◌, arith, Bool-cases,
}
use cpp_tbox.Event.Timers.{Timer, HeapLib, Loop, key, advance}
use cpp_tbox.Event.Timers.Heap.{count, HeapLaws}
use cpp_tbox.Event.Timers.Order.{advance-once, advance-again, Without-self}
use cpp_tbox.Event.Timers.Valid.{IsValid, again, memory-again, memory-once}
use cpp_tbox.Event.Timers.Expired.{lateness, Progresses}

module _ (lib : HeapLib) (laws : HeapLaws lib) where
  -- The round of `p` changes no other timer, and takes `p` out or puts it back later.
  pub record Stepped (s s₁ : Loop) (p : ℕ) : Type 0 where
    pub counts : (q : ℕ) → p ≢ q → count q s₁.timer_min_heap ≡ count q s.timer_min_heap
    pub others : (q : ℕ) → p ≢ q → s₁.memory q ≡ s.memory q
    pub self :
        (count p s₁.timer_min_heap ≡ 0)
        ⊎ ((key s₁ p ≡ key s p + (s.memory p).interval)
            × ((s₁.memory p).interval ≡ (s.memory p).interval)
            × (0 < (s.memory p).interval))

  pub first_in :
      (s : Loop) (p : ℕ) (l : List ℕ) → s.timer_min_heap ≡ p ∷ l → 0 < count p s.timer_min_heap
  first_in s p l e =
      let one : (p == p) ≡ true = ground arith in rw e (unfold count in (rw one (omega arith)))

  pub advance-Stepped :
      (now : ℕ) (s : Loop) (p : ℕ) (l : List ℕ)
      → IsValid lib laws s
      → Progresses now s
      → s.timer_min_heap ≡ p ∷ l
      → key s p ≤ now
      → Stepped s (advance lib p s) p
  advance-Stepped now s p l v g e k = go (Bool-cases ((s.memory p).repeat == 1))
    where
      first : 0 < count p s.timer_min_heap
      first = first_in s p l e

      go :
          (((s.memory p).repeat == 1) ≡ true) ⊎ (((s.memory p).repeat == 1) ≡ false)
          → Stepped s (advance lib p s) p
      go (inl b) =
          let (h, w) = advance-once lib laws p l v.ordered e b in
          record {
            counts = λ q n.
                let z : (p == q) ≡ false = ground arith in
                let w' = rw z at (w q) in omega (arith, w');
            others = λ q n. memory-once lib laws s p q b;
            self = inl (
                Without-self lib laws p s.timer_min_heap (advance lib p s).timer_min_heap w
                  (v.ordered.distinct p));
          }
      go (inr b) =
          let (h, c) = advance-again lib laws p l v.ordered e b in
          let one : (p == p) ≡ true = ground arith in
          let m : (advance lib p s).memory p ≡ again lib laws (s.memory p) =
            memory-again lib laws s p p b
            ∙ ap (λ (x : Bool). if x then again lib laws (s.memory p) else s.memory p) one in
          let bound : now + (s.memory p).interval < 2 ^ 64 = g.fits p first in
          let key' : key (advance lib p s) p
              ≡ ((s.memory p).expired + (s.memory p).interval) % 2 ^ 64 =
            ap (λ (t : Timer). t.expired) m in
          record {
            counts = λ q n. c q;
            others = λ q n.
                memory-again lib laws s p q b
                ∙ ap (λ (x : Bool). if x then again lib laws (s.memory p) else s.memory q)
                    (let z : (q == p) ≡ false = ground arith in z);
            self = inr (
              omega (arith, key', bound, k),
              ap (λ (t : Timer). t.interval) m,
              positive (g.moves p first) b,
            );
          }
        where
          positive :
              (((s.memory p).repeat == 1) ≡ true) ⊎ (0 < (s.memory p).interval)
              → ((s.memory p).repeat == 1) ≡ false
              → 0 < (s.memory p).interval
          positive (inl x) b = absurd (cc)
          positive (inr x) b = x

  -- So the timers go on making progress, and are less late in all.
  pub Stepped-Progresses :
      (now : ℕ) (s s₁ : Loop) (p : ℕ)
      → Stepped s s₁ p
      → Progresses now s
      → 0 < count p s.timer_min_heap
      → Progresses now s₁
  Stepped-Progresses now s s₁ p st g first = record {
    moves = λ q c. moves q c (Bool-cases (p == q));
    fits = λ q c. fits q c (Bool-cases (p == q));
  }
    where
      moves :
          (q : ℕ)
          → 0 < count q s₁.timer_min_heap
          → ((p == q) ≡ true) ⊎ ((p == q) ≡ false)
          → (((s₁.memory q).repeat == 1) ≡ true) ⊎ (0 < (s₁.memory q).interval)
      moves q c (inl x) =
          subst (λ i. (((s₁.memory i).repeat == 1) ≡ true) ⊎ (0 < (s₁.memory i).interval))
            (let y : p ≡ q = ground arith in y)
            (at_p st.self
              (subst (λ i. 0 < count i s₁.timer_min_heap) (let y : q ≡ p = ground arith in y) c))
        where
          at_p :
              (count p s₁.timer_min_heap ≡ 0)
                ⊎ ((key s₁ p ≡ key s p + (s.memory p).interval)
                    × ((s₁.memory p).interval ≡ (s.memory p).interval)
                    × (0 < (s.memory p).interval))
              → 0 < count p s₁.timer_min_heap
              → (((s₁.memory p).repeat == 1) ≡ true) ⊎ (0 < (s₁.memory p).interval)
          at_p (inl z) c = absurd (omega arith)
          at_p (inr (a, b, d)) c = inr (omega (arith, b, d))
      moves q c (inr x) =
          let n : p ≢ q = ground arith in
          subst (λ (t : Timer). ((t.repeat == 1) ≡ true) ⊎ (0 < t.interval)) (sym (st.others q n))
            (g.moves q (omega (arith, st.counts q n, c)))

      interval_p :
          (count p s₁.timer_min_heap ≡ 0)
            ⊎ ((key s₁ p ≡ key s p + (s.memory p).interval)
                × ((s₁.memory p).interval ≡ (s.memory p).interval)
                × (0 < (s.memory p).interval))
          → 0 < count p s₁.timer_min_heap
          → now + (s₁.memory p).interval < 2 ^ 64
      interval_p (inl z) c = absurd (omega arith)
      interval_p (inr (a, b, d)) c = omega (arith, b, g.fits p first)

      fits :
          (q : ℕ)
          → 0 < count q s₁.timer_min_heap
          → ((p == q) ≡ true) ⊎ ((p == q) ≡ false)
          → now + (s₁.memory q).interval < 2 ^ 64
      fits q c (inl x) =
          let y : p ≡ q = ground arith in
          subst (λ i. now + (s₁.memory i).interval < 2 ^ 64) y
            (interval_p st.self (subst (λ i. 0 < count i s₁.timer_min_heap) (sym y) c))
      fits q c (inr x) =
          let n : p ≢ q = ground arith in
          subst (λ (t : Timer). now + t.interval < 2 ^ 64) (sym (st.others q n))
            (g.fits q (omega (arith, st.counts q n, c)))

  pub lateness_drops :
      (now : ℕ) (s s₁ : Loop) (p : ℕ)
      → Stepped s s₁ p
      → 0 < count p s.timer_min_heap
      → key s p ≤ now
      → lateness now s₁ p < lateness now s p
  unfolding lateness
  lateness_drops now s s₁ p st c k = go st.self
    where
      late :
          (if count p s.timer_min_heap == 0
            then 0
            else if ltb now (key s p)
            then 0
            else now + 1 - key s p)
          ≡ now + 1 - key s p
      late =
          let a : (count p s.timer_min_heap == 0) ≡ false = ground arith in
          let b : ltb now (key s p) ≡ false = ground arith in rw (a, b)

      go :
          (count p s₁.timer_min_heap ≡ 0)
            ⊎ ((key s₁ p ≡ key s p + (s.memory p).interval)
                × ((s₁.memory p).interval ≡ (s.memory p).interval)
                × (0 < (s.memory p).interval))
          → lateness now s₁ p < lateness now s p
      go (inl z) = rw (late, z) (omega arith)
      go (inr (a, b, d)) = rw (late, a) (ground arith)

  pub lateness_same :
      (now : ℕ) (s s₁ : Loop) (p q : ℕ)
      → Stepped s s₁ p
      → p ≢ q
      → lateness now s₁ q ≡ lateness now s q
  unfolding lateness
  lateness_same now s s₁ p q st n =
      ap₂
        (λ c (t : Timer).
          if c == 0 then 0 else if ltb now t.expired then 0 else now + 1 - t.expired)
        (st.counts q n) (st.others q n)
