-- ===== src/Flow/Executor/Schedule.antt =====
-- `schedule` comes to an end, with the action at the front of the first queue that is not empty running.
use cpp_tbox.Common.{
  ℕ, zero, suc, ◌+◌, ◌*◌, ◌≤◌, ◌<◌, ◌≡◌, refl, sym, ap, subst, ◌∙◌, Bool, true, false, Bool-cases,
  List, [], ◌∷◌, ◌++◌, Option, none, some, ◌⊎◌, inl, inr, ltb, ltb→lt, set, length, length-set,
  arith,
}
use cpp_tbox.Flow.Action.{Child}
use cpp_tbox.Flow.Executor.{
  Item, all_finished, Executor, shift, first_ready, scheduled, deque, serve, pause_front, preempt,
  schedule, after_serve, after_preempt, attend, erase, cancel, current_at, current,
}
use cpp_tbox.Flow.Executor.Ready.{
  get_or-set, Ready, AllEmpty, first_ready-Ready, Ready-lt, Ready-get, Ready-set, Ready-set_later,
  item_count, item_count-set, set-get,
}
use cpp_tbox.Flow.Executor.Rounds.{
  IsLawful, total_rounds-le, IsServed, Clear, at_queue, Served, serve_lem,
}

module _ {S : Type 0} (c : Child S) where
  -- The queue that the executor points to is not empty.
  unfoldable pub IsPointed : Option ℕ → Executor S → Type 0
  IsPointed none e = Unit {0}
  IsPointed (some j) e = (j < length e.action_deque_array) × (0 < length (deque j e))

  -- What the pause of the running action leaves.
  record Preempted (i : ℕ) (e e₁ : Executor S) : Type 0 where
    ready : Ready e₁.action_deque_array i
    same : item_count e₁.action_deque_array ≡ item_count e.action_deque_array
    many : length e₁.action_deque_array ≡ length e.action_deque_array

  pause_front_lem :
      (i j : ℕ) (q : List (Item S)) (e : Executor S)
      → Ready e.action_deque_array i
      → i < j
      → j < length e.action_deque_array
      → q ≡ deque j e
      → 0 < length q
      → (e₁ : Executor S) × (pause_front c j q e ≡ some e₁) × Preempted i e e₁
  unfolding pause_front
  pause_front_lem i j [] e r h in_range eq pos = absurd (omega (arith, pos))
  pause_front_lem i j (x ∷ rest) e r h in_range eq pos =
      let q' : List (Item S) = (record x { action = (c.pause x.action).1 }) ∷ rest in
      (
        record e { action_deque_array = set e.action_deque_array j q' },
        refl,
        record {
          ready = Ready-set_later r j q' h;
          same = omega (arith, item_count-set e.action_deque_array j q' in_range, ap length eq);
          many = length-set e.action_deque_array j q';
        },
      )

  preempt_lem :
      (i : ℕ) (cur : Option ℕ) (e : Executor S)
      → Ready e.action_deque_array i
      → IsPointed cur e
      → (e₁ : Executor S) × (preempt c i cur e ≡ some e₁) × Preempted i e e₁
  unfolding preempt IsPointed
  preempt_lem i none e r p = (e, refl, record { ready = r; same = refl; many = refl })
  preempt_lem i (some j) e r p = elim (Bool-cases (ltb i j)) [
    | inl b ↦
        let (e₁, eq, ok) = pause_front_lem i j (deque j e) e r (ltb→lt i j b) p.0 refl p.1 in
        (e₁, rw b eq, ok)
    | inr b ↦ (e, rw b refl, record { ready = r; same = refl; many = refl })
  ]

module _ {S : Type 0} (c : Child S) where
  Clear-pos : (q : List (Item S)) (cur : Option ℕ) → 0 < length q → Clear c q cur
  unfolding Clear
  Clear-pos [] cur h = absurd (omega (arith, h))
  Clear-pos (x ∷ xs) cur h = tt

  -- All queues are empty, or the action at the front of the first that is not runs.
  pub IsSettled : Executor S → Type 0
  IsSettled e =
      AllEmpty e.action_deque_array
      ⊎ ((i : ℕ) × Ready e.action_deque_array i × IsServed c (deque i e))

  -- From a queue that is ready.
  serve-Served :
      (n i : ℕ) (e : Executor S)
      → IsLawful c
      → Ready e.action_deque_array i
      → 3 * item_count e.action_deque_array < n
      → Served c n i e (deque i e) e.curr_action_deque_index e.log
  serve-Served n i e law r fuel =
      let count = item_count-set e.action_deque_array i [] (Ready-lt r) in
      serve_lem c n i e (deque i e) e.curr_action_deque_index e.log law (Ready-lt r)
        (omega (arith, fuel, total_rounds-le c (deque i e), count))
        (Clear-pos (deque i e) e.curr_action_deque_index (Ready-get r))

  schedule-Served :
      (n i : ℕ) (e e₁ : Executor S)
      (s : Served c n i e₁ (deque i e₁) e₁.curr_action_deque_index e₁.log)
      → first_ready e.action_deque_array ≡ some i
      → preempt c i e.curr_action_deque_index e ≡ some e₁
      → i < length e₁.action_deque_array
      → schedule c (suc n) e
        ≡ after_serve
            (λ e'. schedule c n e')
            (some (s.returned, at_queue e₁ i s.queue s.pointed s.noted))
  unfolding schedule attend after_preempt
  schedule-Served n i e e₁ s ready pre lt =
      ap (λ r. attend c (serve c n) (λ e'. schedule c n e') r e) ready
      ∙ ap (λ p. after_preempt (serve c n i) (λ e'. schedule c n e') p) pre
      ∙ ap
          (λ ds.
            after_serve (λ e'. schedule c n e')
              (serve c n i (record e₁ { action_deque_array = ds })))
          (sym (set-get e₁.action_deque_array i lt))
      ∙ ap (λ r. after_serve (λ e'. schedule c n e') r) s.result

  schedule-none :
      (n : ℕ) (e : Executor S)
      → first_ready e.action_deque_array ≡ none
      → schedule c (suc n) e ≡ scheduled (record e { log = e.log ++ all_finished ∷ [] })
  unfolding schedule attend
  schedule-none n e none_ready =
      ap (λ r. attend c (serve c n) (λ e'. schedule c n e') r e) none_ready

  after_true :
      (n : ℕ) (b : Bool) (e : Executor S)
      → b ≡ true
      → after_serve (λ e'. schedule c n e') (some (b, e)) ≡ scheduled e
  unfolding after_serve
  after_true n b e h = ap (λ b'. after_serve (λ e'. schedule c n e') (some (b', e))) h

  after_false :
      (n : ℕ) (b : Bool) (e : Executor S)
      → b ≡ false
      → after_serve (λ e'. schedule c n e') (some (b, e)) ≡ schedule c n e
  unfolding after_serve
  after_false n b e h = ap (λ b'. after_serve (λ e'. schedule c n e') (some (b', e))) h

  -- Over actions that leave the idle state when a start is accepted and run after a resume,
  -- schedule from a state whose current queue, if there is one, is not empty comes to an end on
  -- fuel of three rounds for each item and two more: then all queues are empty, or the action at
  -- the front of the first queue that is not is running.
  pub schedule_lem :
      (n : ℕ) (e : Executor S)
      → IsLawful c
      → IsPointed c e.curr_action_deque_index e
      → 3 * item_count e.action_deque_array + 2 ≤ n
      → (e' : Executor S) × (schedule c n e ≡ scheduled e') × IsSettled e'
  unfolding IsSettled IsPointed
  schedule_lem zero e law p fuel = absurd (omega (arith, fuel))
  schedule_lem (suc n) e law p fuel = elim (first_ready-Ready e.action_deque_array) [
    | inl (none_ready, all_empty) ↦
        (record e { log = e.log ++ all_finished ∷ [] }, schedule-none n e none_ready, inl all_empty)
    | inr (i, ready, r) ↦
        let (e₁, pre, ok) = preempt_lem c i e.curr_action_deque_index e r p in
        let s = serve-Served n i e₁ law ok.ready (omega (arith, fuel, ok.same)) in
        let e₂ : Executor S = at_queue e₁ i s.queue s.pointed s.noted in
        let eq = schedule-Served n i e e₁ s ready pre (Ready-lt ok.ready) in
        elim (Bool-cases s.returned) [
          | inl b ↦ (
            e₂,
            eq ∙ after_true n s.returned e₂ b,
            inr (
              i,
              Ready-set s.queue ok.ready (s.is_served b).0,
              subst (IsServed c)
                  (sym (get_or-set e₁.action_deque_array i s.queue [] (Ready-lt ok.ready)))
                  (s.is_served b).1,
            ),
          )
          | inr b ↦
              let (e', eq', settled) =
                schedule_lem n e₂ law (subst (λ cur. IsPointed c cur e₂) (sym (s.is_left b).1) tt) (
                  omega (
                    arith,
                    fuel,
                    ok.same,
                    Ready-get ok.ready,
                    item_count-set e₁.action_deque_array i s.queue (Ready-lt ok.ready),
                    ap length (s.is_left b).0,
                  )) in
              (e', eq ∙ after_false n s.returned e₂ b ∙ eq', settled)
        ]
  ]

module _ {S : Type 0} where
  no_front :
      (i : ℕ) (e : Executor S)
      → current_at (some i) (record e { action_deque_array = [] ∷ [] ∷ [] ∷ [] }) ≡ none
  unfolding current_at
  no_front zero e = refl
  no_front (suc zero) e = refl
  no_front (suc (suc zero)) e = refl
  no_front (suc (suc (suc i))) e = refl

module _ {S : Type 0} (c : Child S) where
  -- Cancelling the only action there is while its queue is the current one returns true, and after
  -- the schedule that follows current() reads the front of an empty queue.
  pub cancel-current :
      (id i : ℕ) (e : Executor S)
      → erase id e.action_deque_array ≡ (true, [] ∷ [] ∷ [] ∷ [])
      → e.curr_action_deque_index ≡ some i
      → let (ok, e₁) = cancel id e in
        (ok ≡ true) × ((e' : Executor S) × (schedule c 1 e₁ ≡ scheduled e') × (current e' ≡ none))
  unfolding cancel schedule attend current current_at first_ready shift
  cancel-current id i e erased cur =
      rw (erased, cur)
        (
          refl,
          (
            record e {
              action_deque_array = [] ∷ [] ∷ [] ∷ [];
              curr_action_deque_index = some i;
              log = e.log ++ all_finished ∷ [];
            },
            refl,
            no_front i
                (record e { curr_action_deque_index = some i; log = e.log ++ all_finished ∷ [] }),
          ),
        )
