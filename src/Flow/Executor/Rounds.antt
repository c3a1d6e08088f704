-- ===== src/Flow/Executor/Rounds.antt =====
-- The inner loop of `schedule` comes to an end.
use cpp_tbox.Common.{
  ℕ, zero, suc, ◌+◌, ◌*◌, ◌≤◌, ◌<◌, ◌≡◌, refl, ap, ◌∙◌, Bool, true, false, Bool-cases, List, [],
  ◌∷◌, ◌++◌, Option, none, some, inl, inr, if◌then◌else◌, set, length, set-set, arith,
}
use cpp_tbox.Flow.Action.{is_idle, is_pause, is_over, Child}
use cpp_tbox.Flow.Executor.{
  Item, Note, action_started, action_finished, Executor, Step, returns, leaves, again, with_deque,
  serve_front, serve, after_step,
}
use cpp_tbox.Flow.Executor.Ready.{get_or-set}

module _ {S : Type 0} (c : Child S) where
  -- A start that is accepted leaves the state idle, a resume leaves the pause.
  pub record IsLawful : Type 0 where
    pub started :
        (s : S)
        → is_idle (c.state_of s) ≡ true
        → (c.start s).0 ≡ true
        → is_idle (c.state_of (c.start s).1) ≡ false
    pub resumed :
        (s : S)
        → is_pause (c.state_of s) ≡ true
        → (is_idle (c.state_of (c.resume s).1) ≡ false)
          × (is_pause (c.state_of (c.resume s).1) ≡ false)

  -- The rounds that an action may need.
  pub rounds : S → ℕ
  rounds s = if is_idle (c.state_of s) then 3 else if is_pause (c.state_of s) then 2 else 1

  pub rounds-ge : (s : S) → 1 ≤ rounds s
  unfolding rounds
  rounds-ge s = ground arith

  rounds_idle : (s : S) → is_idle (c.state_of s) ≡ true → rounds s ≡ 3
  unfolding rounds
  rounds_idle s e = ground (arith, e)

  rounds_busy : (s : S) → is_idle (c.state_of s) ≡ false → rounds s ≤ 2
  unfolding rounds
  rounds_busy s e = ground (arith, e)

  rounds_pause :
      (s : S) → is_idle (c.state_of s) ≡ false → is_pause (c.state_of s) ≡ true → rounds s ≡ 2
  unfolding rounds
  rounds_pause s e f = ground (arith, e, f)

  rounds_running :
      (s : S) → is_idle (c.state_of s) ≡ false → is_pause (c.state_of s) ≡ false → rounds s ≡ 1
  unfolding rounds
  rounds_running s e f = ground (arith, e, f)

  unfoldable pub total_rounds : List (Item S) → ℕ
  total_rounds [] = 0
  total_rounds (x ∷ xs) = rounds x.action + total_rounds xs

  pub rounds-le : (s : S) → rounds s ≤ 3
  unfolding rounds
  rounds-le s = ground arith

  pub total_rounds-le : (q : List (Item S)) → total_rounds q ≤ 3 * length q
  unfolding total_rounds
  total_rounds-le [] = omega arith
  total_rounds-le (x ∷ xs) = omega (arith, rounds-le x.action, total_rounds-le xs)

  -- The action runs: it is neither idle, nor paused, nor over.
  unfoldable pub IsServed : List (Item S) → Type 0
  IsServed [] = Unit {0}
  IsServed (x ∷ xs) =
      (is_idle (c.state_of x.action) ≡ false)
      × (is_pause (c.state_of x.action) ≡ false)
      × (is_over (c.state_of x.action) ≡ false)

  -- The queue pointed to is not empty, unless none is.
  unfoldable pub Clear : List (Item S) → Option ℕ → Type 0
  Clear [] cur = cur ≡ none
  Clear (x ∷ xs) cur = Unit {0}

module _ {S : Type 0} (c : Child S) where
  pub Clear-none : (q : List (Item S)) → Clear c q none
  unfolding Clear
  Clear-none [] = refl
  Clear-none (x ∷ xs) = tt

module _ {S : Type 0} where
  abbrev pub at_queue : Executor S → ℕ → List (Item S) → Option ℕ → List Note → Executor S
  at_queue e i q cur log = record e {
    action_deque_array = set e.action_deque_array i q;
    curr_action_deque_index = cur;
    log = log;
  }

module _ {S : Type 0} (c : Child S) where
  -- What the inner loop has come to: the queue, and what is noted.
  pub record Served (n i : ℕ) (e : Executor S) (q : List (Item S)) (cur : Option ℕ)
      (log : List Note) : Type 0 where
    pub returned : Bool
    pub queue : List (Item S)
    pub pointed : Option ℕ
    pub noted : List Note
    pub result :
        serve c n i (at_queue e i q cur log) ≡ some (returned, at_queue e i queue pointed noted)
    pub is_served : returned ≡ true → (0 < length queue) × IsServed c queue
    pub is_left : returned ≡ false → (queue ≡ []) × (pointed ≡ none)

  again_lem :
      (n i : ℕ) (e : Executor S) (q q₂ : List (Item S)) (cur cur₂ : Option ℕ)
      (log notes : List Note)
      → i < length e.action_deque_array
      → serve_front c i q (at_queue e i q cur log)
        ≡ again (with_deque i q₂ cur₂ notes (at_queue e i q cur log))
      → Served n i e q₂ cur₂ (log ++ notes)
      → Served (suc n) i e q cur log
  unfolding serve with_deque after_step
  again_lem n i e q q₂ cur cur₂ log notes h step rest = record {
    returned = rest.returned;
    queue = rest.queue;
    pointed = rest.pointed;
    noted = rest.noted;
    result =
        ap
          (λ q'.
            after_step (λ e'. serve c n i e') (serve_front c i q' (at_queue e i q cur log))
              (at_queue e i q cur log))
          (get_or-set e.action_deque_array i q [] h)
        ∙ ap (λ s. after_step (λ e'. serve c n i e') s (at_queue e i q cur log)) step
        ∙ ap
            (λ ds. serve c n i (record e {
              action_deque_array = ds;
              curr_action_deque_index = cur₂;
              log = log ++ notes;
            }))
            (set-set e.action_deque_array i q q₂)
        ∙ rest.result;
    is_served = rest.is_served;
    is_left = rest.is_left;
  }

  ends_lem :
      (n i : ℕ) (e : Executor S) (q : List (Item S)) (cur : Option ℕ) (log : List Note)
      → i < length e.action_deque_array
      → (s : Step S) → serve_front c i q (at_queue e i q cur log) ≡ s
      → serve c (suc n) i (at_queue e i q cur log)
        ≡ after_step (λ e'. serve c n i e') s (at_queue e i q cur log)
  unfolding serve
  ends_lem n i e q cur log h s step =
      ap
        (λ q'.
          after_step (λ e'. serve c n i e') (serve_front c i q' (at_queue e i q cur log))
            (at_queue e i q cur log))
        (get_or-set e.action_deque_array i q [] h)
      ∙ ap (λ s'. after_step (λ e'. serve c n i e') s' (at_queue e i q cur log)) step

module _ {S : Type 0} (c : Child S) where
  pub serve_lem :
      (n i : ℕ) (e : Executor S) (q : List (Item S)) (cur : Option ℕ) (log : List Note)
      → IsLawful c
      → i < length e.action_deque_array
      → total_rounds c q < n
      → Clear c q cur
      → Served c n i e q cur log
  unfolding serve_front total_rounds Clear IsServed after_step
  serve_lem zero i e q cur log law h w clear = absurd (omega (arith, w))
  serve_lem (suc n) i e [] cur log law h w clear = record {
    returned = false;
    queue = [];
    pointed = cur;
    noted = log;
    result = ends_lem c n i e [] cur log h leaves refl;
    is_served = λ b. absurd (ground (arith, b));
    is_left = λ b. (refl, clear);
  }
  serve_lem (suc n) i e (x ∷ rest) cur log law h w clear =
      let s = c.state_of x.action in
      elim (Bool-cases (is_idle s)) [
        | inl a ↦ elim (Bool-cases (c.start x.action).0) [
          | inl ok ↦
              again_lem c n i e (x ∷ rest) ((record x { action = (c.start x.action).1 }) ∷ rest) cur
                (some i) log (action_started x.id ∷ []) h (rw (a, ok) refl)
                (serve_lem n i e ((record x { action = (c.start x.action).1 }) ∷ rest) (some i)
                  (log ++ action_started x.id ∷ []) law h
                  (omega (
                    arith,
                    w,
                    rounds_idle c x.action a,
                    rounds_busy c (c.start x.action).1 (law.started x.action a ok),
                  ))
                  tt)
          | inr ok ↦
              again_lem c n i e (x ∷ rest) rest cur none log (action_finished x.id ∷ []) h
                (rw (a, ok) refl)
                (serve_lem n i e rest none (log ++ action_finished x.id ∷ []) law h
                  (omega (arith, w, rounds-ge c x.action)) (Clear-none c rest))
        ]
        | inr a ↦ elim (Bool-cases (is_pause s)) [
          | inl p ↦
              again_lem c n i e (x ∷ rest) ((record x { action = (c.resume x.action).1 }) ∷ rest)
                cur (some i) log [] h (rw (a, p) refl)
                (serve_lem n i e ((record x { action = (c.resume x.action).1 }) ∷ rest) (some i)
                  (log ++ []) law h
                  (omega (
                    arith,
                    w,
                    rounds_pause c x.action a p,
                    rounds_running c (c.resume x.action).1 (law.resumed x.action p).0
                        (law.resumed x.action p).1,
                  ))
                  tt)
          | inr p ↦ elim (Bool-cases (is_over s)) [
            | inl v ↦
                again_lem c n i e (x ∷ rest) rest cur none log (action_finished x.id ∷ []) h
                  (rw (a, p, v) refl)
                  (serve_lem n i e rest none (log ++ action_finished x.id ∷ []) law h
                    (omega (arith, w, rounds-ge c x.action)) (Clear-none c rest))
            | inr v ↦ record {
              returned = true;
              queue = x ∷ rest;
              pointed = cur;
              noted = log;
              result = ends_lem c n i e (x ∷ rest) cur log h returns (rw (a, p, v) refl);
              is_served = λ b. (omega arith, (a, p, v));
              is_left = λ b. absurd (ground (arith, b));
            }
          ]
        ]
      ]
