-- ===== src/Event/Timers/Expired/Forever.antt =====
-- modules/event/common_loop_timer.cpp: handleExpiredTimers with a timer that is always due.
use cpp_tbox.Common.{
  ℕ, zero, suc, ◌+◌, ◌-◌, ◌%◌, ◌^◌, ◌≤◌, ◌<◌, ◌≡◌, refl, ap, subst, ◌∙◌, ◌⊎◌, inl, inr, Bool, true,
  false, none, List, [], ◌∷◌, ltb, ◌==◌, if◌then◌else◌, arith, Bool-cases,
}
use cpp_tbox.Event.Timers.{Timer, HeapLib, Loop, key, advance, handle_expired_timers}
use cpp_tbox.Event.Timers.Heap.{count, HeapLaws}
use cpp_tbox.Event.Timers.Order.{advance-once, advance-again}
use cpp_tbox.Event.Timers.Valid.{IsValid, again, memory-again, memory-once, advance-IsValid}
use cpp_tbox.Event.Timers.Expired.{quiet, rounded, handle-round}
use cpp_tbox.Event.Timers.Expired.Round.{first_in}
use cpp_tbox.Event.Timers.Expired.All.{rounded-IsValid, front_least}

-- A persistent timer with the interval 0 that is due.
pub record Stuck (now p : ℕ) (s : Loop) : Type 0 where
  pub present : 0 < count p s.timer_min_heap
  pub persists : (s.memory p).repeat ≡ 0
  pub instant : (s.memory p).interval ≡ 0
  pub is_due : key s p ≤ now

module _ (lib : HeapLib) (laws : HeapLaws lib) where
  -- Every timer fits in the clock.
  abbrev Fits : ℕ → Loop → Type 0
  Fits now s = (q : ℕ) → 0 < count q s.timer_min_heap → now + (s.memory q).interval < 2 ^ 64

  -- The round of any timer but `p` leaves `p` alone, and its own puts it back as it was.
  advance-Stuck :
      (now p : ℕ) (s : Loop) (x : ℕ) (l : List ℕ)
      → IsValid lib laws s
      → s.timer_min_heap ≡ x ∷ l
      → Fits now s
      → Stuck now p s
      → Stuck now p (advance lib x s) × Fits now (advance lib x s)
  advance-Stuck now p s x l v e f t =
      go (Bool-cases ((s.memory x).repeat == 1)) (Bool-cases (p == x))
    where
      s₁ : Loop
      s₁ = advance lib x s

      -- From the timer in memory and how often it is in the heap.
      stays :
          count p s₁.timer_min_heap ≡ count p s.timer_min_heap
          → s₁.memory p ≡ s.memory p
          → Stuck now p s₁
      stays c m = record {
        present = omega (arith, c, t.present);
        persists = ap (λ (u : Timer). u.repeat) m ∙ t.persists;
        instant = ap (λ (u : Timer). u.interval) m ∙ t.instant;
        is_due = omega (arith, ap (λ (u : Timer). u.expired) m, t.is_due);
      }

      fits :
          ((q : ℕ) → count q s₁.timer_min_heap ≤ count q s.timer_min_heap)
          → ((q : ℕ) → (s₁.memory q).interval ≡ (s.memory q).interval)
          → Fits now s₁
      fits c i q z = omega (arith, c q, i q, f q (omega (arith, c q, z)))

      go :
          (((s.memory x).repeat == 1) ≡ true) ⊎ (((s.memory x).repeat == 1) ≡ false)
          → ((p == x) ≡ true) ⊎ ((p == x) ≡ false)
          → Stuck now p s₁ × Fits now s₁
      go (inl b) (inl y) = absurd (
          let z : p ≡ x = ground arith in
          let r : (s.memory x).repeat ≡ 0 = subst (λ i. (s.memory i).repeat ≡ 0) z t.persists in
          ground arith)
      go (inl b) (inr y) =
          let (h, w) = advance-once lib laws x l v.ordered e b in
          let z : (x == p) ≡ false = ground arith in
          let w' = rw z at (w p) in
          (
            stays (omega (arith, w')) (memory-once lib laws s x p b),
            fits (λ q. omega (arith, w q))
                (λ q. ap (λ (u : Timer). u.interval) (memory-once lib laws s x q b)),
          )
      go (inr b) d =
          let (h, c) = advance-again lib laws x l v.ordered e b in
          (
            stays (c p) (same_p d),
            fits (λ q. omega (arith, c q))
                (λ q.
                  ap (λ (u : Timer). u.interval) (memory-again lib laws s x q b)
                  ∙ same_interval (q == x) q (λ y. let z : x ≡ q = ground arith in z)),
          )
        where
          same_interval :
              (y : Bool) (q : ℕ)
              → (y ≡ true → x ≡ q)
              → (if y then again lib laws (s.memory x) else s.memory q).interval
                ≡ (s.memory q).interval
          same_interval true q h = ap (λ i. (s.memory i).interval) (h refl)
          same_interval false q h = refl

          same_p : ((p == x) ≡ true) ⊎ ((p == x) ≡ false) → s₁.memory p ≡ s.memory p
          same_p (inl y) =
              let z : x ≡ p = ground arith in
              let bound : now + (s.memory p).interval < 2 ^ 64 = f p t.present in
              let due : ((s.memory p).expired + (s.memory p).interval) % 2 ^ 64
                  ≡ (s.memory p).expired =
                omega (arith, bound, t.is_due, t.instant) in
              let times : (if (s.memory p).repeat == 0 then 0 else (s.memory p).repeat - 1)
                  ≡ (s.memory p).repeat =
                ground (arith, t.persists) in
              memory-again lib laws s x p b
              ∙ ap (λ (i : Bool). if i then again lib laws (s.memory x) else s.memory p) y
              ∙ ap (λ i. again lib laws (s.memory i)) z
              ∙ (λ i. record (s.memory p) { expired = due i; repeat = times i })
          same_p (inr y) =
              memory-again lib laws s x p b
              ∙ ap (λ (i : Bool). if i then again lib laws (s.memory x) else s.memory p) y

  -- Where a well-formed loop has a persistent timer with the interval 0 that is due, no sum with
  -- an interval wraps and the callbacks ask nothing of the timers, handleExpiredTimers does not
  -- come to an end, on whatever fuel.
  pub handle-Stuck :
      (fuel now p : ℕ) (s : Loop)
      → IsValid lib laws s
      → ((q : ℕ) → 0 < count q s.timer_min_heap → now + (s.memory q).interval < 2 ^ 64)
      → Stuck now p s
      → handle_expired_timers lib quiet fuel now s ≡ none
  unfolding handle_expired_timers
  handle-Stuck zero now p s v f t = refl
  handle-Stuck (suc fuel) now p s v f t = go s.timer_min_heap refl (handle-Stuck fuel now p)
    where
      go :
          (h : List ℕ)
          → s.timer_min_heap ≡ h
          → ((s₁ : Loop)
              → IsValid lib laws s₁
              → Fits now s₁
              → Stuck now p s₁
              → handle_expired_timers lib quiet fuel now s₁ ≡ none)
          → handle_expired_timers lib quiet (suc fuel) now s ≡ none
      go [] e ih =
          absurd (let z : 0 < count p [] = rw e at t.present in unfold count in (omega (arith, z)))
      go (x ∷ l) e ih =
          let k : key s x ≤ now =
            omega (arith, front_least lib laws s x l v e p t.present, t.is_due) in
          let b : ltb now (key s x) ≡ false = ground arith in
          let (level, r) = handle-round lib laws fuel now s x l e b in
          let (t₁, f₁) = advance-Stuck now p s x l v e f t in
          let fit : (s.memory x).expired + (s.memory x).interval < 2 ^ 64 =
            omega (arith, f x (first_in lib laws s x l e), k) in
          r
          ∙ ih (rounded lib laws level x s)
              (rounded-IsValid lib laws level x s (advance-IsValid lib laws s x l v e fit)) f₁
              (record {
                present = t₁.present;
                persists = t₁.persists;
                instant = t₁.instant;
                is_due = t₁.is_due;
              })
