-- ===== src/Event/Timers/Expired.antt =====
-- modules/event/common_loop_timer.cpp: handleExpiredTimers over callbacks that ask nothing of the timers.
pub mod Round
pub mod All
pub mod Forever
use cpp_tbox.Common.{
  ℕ, zero, suc, ◌+◌, ◌-◌, ◌%◌, ◌^◌, ◌≤◌, ◌<◌, ◌≡◌, ◌≢◌, refl, sym, ap, ap₂, subst, ◌∙◌, ◌⊎◌, inl,
  inr, Bool, true, false, Option, none, some, List, [], ◌∷◌, ◌++◌, append-nil, append_assoc, ltb,
  ltb→lt, ◌==◌, if◌then◌else◌, arith, Bool-cases,
}
use cpp_tbox.Event.Timers.{
  Func, Timer, HeapLib, Loop, Call, key, advance, call_back, round, visit, store, perform_all,
  handle_expired_timers,
}
use cpp_tbox.Event.Timers.Heap.{count, HeapLaws}
use cpp_tbox.Event.Timers.Order.{IsOrdered, advance-once, advance-again, Without-self}
use cpp_tbox.Event.Timers.Valid.{IsValid, again, memory-again, memory-once, advance-IsValid}

-- The callbacks.
abbrev pub quiet : ℕ → List (ℕ × ℕ) → List Call
quiet f log = []

-- The sum of `f` below `n`.
unfoldable pub sum_below : ℕ → (ℕ → ℕ) → ℕ
sum_below zero f = 0
sum_below (suc n) f = f n + sum_below n f

sum_same :
    (n p : ℕ) (f g : ℕ → ℕ) → n ≤ p → ((q : ℕ) → p ≢ q → g q ≡ f q) → sum_below n g ≡ sum_below n f
unfolding sum_below
sum_same zero p f g h e = refl
sum_same (suc n) p f g h e = omega (arith, e n (λ x. omega arith), sum_same n p f g (omega arith) e)

pub sum_drop :
    (n p : ℕ) (f g : ℕ → ℕ)
    → p < n
    → ((q : ℕ) → p ≢ q → g q ≡ f q)
    → g p < f p
    → sum_below n g < sum_below n f
unfolding sum_below
sum_drop zero p f g h e d = absurd (omega arith)
sum_drop (suc n) p f g h e d = elim (Bool-cases (p == n)) [
  | inl x ↦
      let y : p ≡ n = ground arith in
      let d' : g n < f n = subst (λ i. g i < f i) y d in
      omega (arith, d', sum_same n p f g (omega arith) e)
  | inr x ↦ let y : p ≢ n = ground arith in omega (arith, e n y, sum_drop n p f g (omega arith) e d)
]

-- The milliseconds, and one, that a timer is late.
unfoldable pub lateness : ℕ → Loop → ℕ → ℕ
lateness now s q =
    if count q s.timer_min_heap == 0 then 0 else if ltb now (key s q) then 0 else now + 1 - key s q

-- What was called, in the order of the times at which it was due, from `m` on.
abbrev pub Ascending : ℕ → List (ℕ × ℕ) → Type 0
Ascending m [] = Unit {0}
Ascending m ((f, d) ∷ log) = (m ≤ d) × Ascending d log

abbrev pub Called : ℕ → ℕ → List (ℕ × ℕ) → Type 0
Called f d [] = ⊥
Called f d ((g, e) ∷ log) = ((g ≡ f) × (e ≡ d)) ⊎ Called f d log

-- Every timer runs once or has an interval, and no time wraps.
pub record Progresses (now : ℕ) (s : Loop) : Type 0 where
  pub moves :
      (q : ℕ)
      → 0 < count q s.timer_min_heap
      → (((s.memory q).repeat == 1) ≡ true) ⊎ (0 < (s.memory q).interval)
  pub fits : (q : ℕ) → 0 < count q s.timer_min_heap → now + (s.memory q).interval < 2 ^ 64

-- What the round of one timer adds to the log.
abbrev pub called : Func → ℕ → List (ℕ × ℕ)
called none d = []
called (some f) d = (f, d) ∷ []

module _ (lib : HeapLib) (laws : HeapLaws lib) where
  pub record Handled (now : ℕ) (s s' : Loop) (new : List (ℕ × ℕ)) : Type 0 where
    pub valid : IsValid lib laws s'
    pub finished : (q : ℕ) → 0 < count q s'.timer_min_heap → now < key s' q
    pub logged : s'.log ≡ s.log ++ new
    pub ascending :
        (m : ℕ) → ((q : ℕ) → 0 < count q s.timer_min_heap → m ≤ key s q) → Ascending m new
    pub runs :
        (q f : ℕ)
        → 0 < count q s.timer_min_heap
        → key s q ≤ now
        → (s.memory q).cb ≡ some f
        → Called f (key s q) new

  -- The loop's steps.
  pub handle-nil :
      (fuel now : ℕ) (s : Loop)
      → s.timer_min_heap ≡ []
      → handle_expired_timers lib quiet (suc fuel) now s ≡ some s
  unfolding handle_expired_timers
  handle-nil fuel now s e =
      ap (λ h. visit lib quiet (handle_expired_timers lib quiet fuel) h now s) e

  pub handle-later :
      (fuel now : ℕ) (s : Loop) (p : ℕ) (l : List ℕ)
      → s.timer_min_heap ≡ p ∷ l
      → ltb now (key s p) ≡ true
      → handle_expired_timers lib quiet (suc fuel) now s ≡ some s
  unfolding handle_expired_timers
  handle-later fuel now s p l e b =
      ap (λ h. visit lib quiet (handle_expired_timers lib quiet fuel) h now s) e ∙ rw b

  -- The state after the round of a timer.
  abbrev pub rounded : ℕ → ℕ → Loop → Loop
  rounded level p s = record (advance lib p s) {
    cb_level = level;
    log = s.log ++ called (s.memory p).cb (s.memory p).expired;
  }

  log-advance : (s : Loop) (p : ℕ) → (advance lib p s).log ≡ s.log
  unfolding advance store
  log-advance s p = elim (Bool-cases ((s.memory p).repeat == 1)) [ inl b ↦ rw b | inr b ↦ rw b ]

  quiet_call :
      (now : ℕ) (f : Func) (d : ℕ) (s : Loop)
      → (level : ℕ) × (call_back lib quiet now f d s
          ≡ some (record s { cb_level = level; log = s.log ++ called f d }))
  unfolding call_back perform_all
  quiet_call now none d s = (s.cb_level, λ i. some (record s { log = sym (append-nil s.log) i }))
  quiet_call now (some f) d s = (s.cb_level + 1 - 1, refl)

  round-quiet :
      (now : ℕ) (s : Loop) (p : ℕ)
      → (level : ℕ) × (round lib quiet now p s ≡ some (rounded level p s))
  unfolding round
  round-quiet now s p =
      let (level, e) = quiet_call now (s.memory p).cb (s.memory p).expired (advance lib p s) in
      (
        level,
        e ∙ (λ i. some (record (advance lib p s) {
          cb_level = level;
          log = log-advance s p i ++ called (s.memory p).cb (s.memory p).expired;
        })),
      )

  -- What the loop makes of a round.
  abbrev next : (ℕ → Loop → Option Loop) → ℕ → Option Loop → Option Loop
  next rest now none = none
  next rest now (some s) = rest now s

  pub handle-round :
      (fuel now : ℕ) (s : Loop) (p : ℕ) (l : List ℕ)
      → s.timer_min_heap ≡ p ∷ l
      → ltb now (key s p) ≡ false
      → (level : ℕ) × (handle_expired_timers lib quiet (suc fuel) now s
          ≡ handle_expired_timers lib quiet fuel now (rounded level p s))
  unfolding handle_expired_timers
  handle-round fuel now s p l e b =
      let (level, r) = round-quiet now s p in
      (
        level,
        ap (λ h. visit lib quiet (handle_expired_timers lib quiet fuel) h now s) e
            ∙ rw b (ap (next (handle_expired_timers lib quiet fuel) now) r),
      )
