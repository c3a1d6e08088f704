-- ===== src/Flow/Action/Valid.antt =====
-- The invariant of Callbacks, kept by all that is done to an action of any class.
use cpp_tbox.Common.{
  ℕ, ◌≡◌, refl, sym, ap, subst, ◌∙◌, Bool, true, false, Bool-cases, not, List, [], ◌∷◌, Option,
  none, some, inl, inr, if◌then◌else◌, if_elim,
}
use cpp_tbox.Flow.Action.{
  State, idle, running, pausing, stoped, unsure, is_idle, is_running, is_pause, is_over,
  is_underway, Reason, Outcome, Action, set_timer, cancel_dispatched_callback, Child,
}
use cpp_tbox.Flow.Action.Assemble.{
  Mode, Node, call_all, reset_children, finish, block, ChildFinishFunc, handles, finishes,
  handle_child_finish_event, on_last_child_finished,
}
use cpp_tbox.Flow.Action.Hooks.{
  on_start, on_pause, resume_pointed, on_resume, on_stop, on_reset, take_result,
  on_parallel_finished, on_serial_finished, on_child_finished, on_child_blocked,
}
use cpp_tbox.Flow.Action.Kinds.{own, is_last_child, parallel_part}
use cpp_tbox.Flow.Action.Life.{
  enter, start, pause, resume, stop, reset, set_timeout, reset_timeout, on_timeout, run_func,
  run_posted, calls_first, Op, starts, pauses, resumes, stops, resets, sets_timeout, resets_timeout,
  times_out, finishes_with, blocks_with, child_finished, child_blocked, runs_posted, calls_back,
  apply, apply_all,
}
use cpp_tbox.Flow.Action.Effects.{
  finish_over, finish-Reaches, on_start-Reaches, take_result-Reaches, on_parallel_finished-Reaches,
  call_child-base, call_pointed-base, stop_curr_action-base,
}
use cpp_tbox.Flow.Action.Callbacks.{
  is_finished, finish_ids, IsValid, Reaches-IsValid, moved-IsValid, cancelled-IsValid,
  blocked-IsValid, over_of_running, finish_ids-calls_first, finish_ids-calls_first_nil, no_finish,
}
use cpp_tbox.Flow.Action.States.{
  finished_of_idle, finished_of_running, finished_of_pause, finished_of_underway, over_of_idle,
  idle_of, unsure_of,
}

idle_lem :
    (a : Action)
    → IsValid a
    → is_idle a.state ≡ true
    → (a.state ≡ idle) × (a.result ≡ unsure) × (finish_ids a.posted ≡ [])
idle_lem a v e = (
  idle_of a.state e,
  unsure_of a.result (v.has_result ∙ ap not (finished_of_idle a.state e)),
  v.none_before (finished_of_idle a.state e),
)

called-IsValid : (a : Action) → IsValid a → IsValid (record a { posted = calls_first a.posted })
called-IsValid a v = record {
  has_result = v.has_result;
  none_before = λ e. finish_ids-calls_first_nil a.posted (v.none_before e);
  one = elim v.one [
    | inl e ↦ inl (finish_ids-calls_first_nil a.posted e)
    | inr (e, pos) ↦ elim (finish_ids-calls_first a.posted a.finish_cb_run_id (inr e)) [
      | inl h ↦ inl h
      | inr h ↦ inr (h, pos)
    ]
  ];
}

module _ {S : Type 0} (c : Child S) where
  on_pause-base :
      (k : Option (Mode × List (ℕ × Bool))) (n : Node S) → (on_pause c k n).base ≡ n.base
  unfolding on_pause call_all
  on_pause-base (some (m, results)) n = refl
  on_pause-base none n = call_pointed-base c c.pause n.curr_action n

  resume_pointed-base :
      (cur : Option ℕ) (f : Option ChildFinishFunc) (n : Node S)
      → (resume_pointed c cur f n).base ≡ n.base
  unfolding resume_pointed
  resume_pointed-base (some i) f n = call_child-base c c.resume i n
  resume_pointed-base none none n = refl
  resume_pointed-base none (some f) n = refl

  pub on_resume-base :
      (k : Option (Mode × List (ℕ × Bool))) (n : Node S) → (on_resume c k n).base ≡ n.base
  unfolding on_resume call_all
  on_resume-base (some (m, results)) n = refl
  on_resume-base none n = resume_pointed-base n.curr_action n.child_finish_func n

  on_stop-base : (k : Option (Mode × List (ℕ × Bool))) (n : Node S) → (on_stop c k n).base ≡ n.base
  unfolding on_stop call_all
  on_stop-base (some (m, results)) n = refl
  on_stop-base none n = stop_curr_action-base c n

module _ {S : Type 0} (c : Child S) where
  enter-IsValid :
      (s : State) (on b : Bool) (n : Node S)
      → is_finished s ≡ false
      → (b ≡ true → is_finished n.base.state ≡ false)
      → IsValid n.base
      → IsValid (enter s on b n).base
  unfolding enter
  enter-IsValid s on b n e h v =
      if_elim (λ (m : Node S). IsValid m.base) b
        (λ b. moved-IsValid s (set_timer on n.base.timer_ev) n.base e (h b) v) (λ _. v)

  -- The handlers of a child's result, and of a function that waited.
  finish-IsValid : (o : Outcome) (n : Node S) → IsValid n.base → IsValid (finish c o n).1.base
  finish-IsValid o n v = elim (Bool-cases (is_over n.base.state)) [
    | inl e ↦ subst (λ (m : Node S). IsValid m.base) (sym (finish_over c o n e)) v
    | inr e ↦ Reaches-IsValid v (finish-Reaches c o n e)
  ]

  on_serial_finished-IsValid :
      (i : ℕ) (o : Outcome) (n : Node S)
      → IsValid n.base
      → IsValid (on_serial_finished c i o n).base
  unfolding on_serial_finished handle_child_finish_event on_last_child_finished
  on_serial_finished-IsValid i o n v =
      let m : Node S = record n { curr_action = none } in
      let P : Node S → Type 0 = λ k. IsValid k.base in
      if_elim P (is_last_child n.kind i)
        (λ _.
          if_elim P (is_running n.base.state) (λ _. finish-IsValid o m v)
            (λ _. if_elim P (is_pause n.base.state) (λ _. v) (λ _. v)))
        (λ _.
          if_elim
            (λ (r : Bool × Node S).
              IsValid (if r.0 then r.1 else take_result c r.1.kind i o r.1).base)
            (is_running n.base.state)
            (λ e.
              Reaches-IsValid v
                (take_result-Reaches c n.kind i o m (over_of_running n.base.state e)))
            (λ _. if_elim P (is_pause n.base.state) (λ _. v) (λ _. v)))

  on_child_finished-IsValid :
      (k : Option (Mode × List (ℕ × Bool))) (i : ℕ) (o : Outcome) (n : Node S)
      → IsValid n.base
      → IsValid (on_child_finished c k i o n).base
  unfolding on_child_finished on_parallel_finished
  on_child_finished-IsValid (some (m, results)) i o n v =
      elim (Bool-cases (is_running n.base.state)) [
        | inl e ↦ Reaches-IsValid v (
            on_parallel_finished-Reaches c m results i o.is_succ n (over_of_running n.base.state e))
        | inr e ↦ rw (e, on_parallel_finished) v
      ]
  on_child_finished-IsValid none i o n v = on_serial_finished-IsValid i o n v

  block-IsValid :
      (why : Reason) (trace : List ℕ) (n : Node S)
      → IsValid n.base
      → IsValid (block why trace n).1.base
  unfolding block
  block-IsValid why trace n v =
      if_elim (λ (r : Bool × Node S). IsValid r.1.base) (is_over n.base.state) (λ _. v)
        (λ e. blocked-IsValid why trace n.base e v)

  on_child_blocked-IsValid :
      (k : Option (Mode × List (ℕ × Bool))) (why : Reason) (trace : List ℕ) (n : Node S)
      → IsValid n.base
      → IsValid (on_child_blocked c k why trace n).base
  unfolding on_child_blocked call_all
  on_child_blocked-IsValid (some (m, results)) why trace n v =
      if_elim (λ (m : Node S). IsValid m.base) (is_running n.base.state)
        (λ _. block-IsValid why trace (call_all c.pause n) v) (λ _. v)
  on_child_blocked-IsValid none why trace n v = block-IsValid why trace n v

  run_func-IsValid :
      (f : ChildFinishFunc) (n : Node S) → IsValid n.base → IsValid (run_func c f n).base
  unfolding run_func
  run_func-IsValid (handles i o) n v = on_child_finished-IsValid (parallel_part n.kind) i o n v
  run_func-IsValid (finishes o) n v = finish-IsValid o n v

  run_posted-IsValid :
      (fs : List ChildFinishFunc) (n : Node S)
      → IsValid n.base
      → IsValid (run_posted c (record n { posted_funcs = fs })).base
  unfolding run_posted
  run_posted-IsValid [] n v = v
  run_posted-IsValid (f ∷ fs) n v = run_func-IsValid f (record n { posted_funcs = fs }) v

module _ {S : Type 0} (c : Child S) where
  start-IsValid : (n : Node S) → IsValid n.base → IsValid (start c n).1.base
  unfolding start is_finished
  start-IsValid n v =
      let P : Bool × Node S → Type 0 = λ r. IsValid r.1.base in
      if_elim P (is_running n.base.state) (λ _. v)
        (λ _.
          if_elim P (not (is_idle n.base.state)) (λ _. v)
            (λ e.
              enter-IsValid c running true (is_idle (on_start c n.kind n).base.state)
                (on_start c n.kind n) refl (finished_of_idle (on_start c n.kind n).base.state)
                (Reaches-IsValid v (on_start-Reaches c n.kind n (over_of_idle n.base.state e)))))

  pause-IsValid : (n : Node S) → IsValid n.base → IsValid (pause c n).1.base
  unfolding pause is_finished
  pause-IsValid n v =
      let P : Bool × Node S → Type 0 = λ r. IsValid r.1.base in
      let m : Node S = on_pause c (parallel_part n.kind) n in
      if_elim P (is_pause n.base.state) (λ _. v)
        (λ _.
          if_elim P (not (is_running n.base.state)) (λ _. v)
            (λ e.
              enter-IsValid c pausing false (is_running m.base.state) m refl
                (finished_of_running m.base.state)
                (subst IsValid (sym (on_pause-base c (parallel_part n.kind) n)) v)))

  resume-IsValid : (n : Node S) → IsValid n.base → IsValid (resume c n).1.base
  unfolding resume is_finished
  resume-IsValid n v =
      let P : Bool × Node S → Type 0 = λ r. IsValid r.1.base in
      let m : Node S = on_resume c (parallel_part n.kind) n in
      if_elim P (is_running n.base.state) (λ _. v)
        (λ _.
          if_elim P (not (is_pause n.base.state)) (λ _. v)
            (λ e.
              enter-IsValid c running true (is_pause m.base.state) m refl
                (finished_of_pause m.base.state)
                (subst IsValid (sym (on_resume-base c (parallel_part n.kind) n)) v)))

  stop-IsValid : (n : Node S) → IsValid n.base → IsValid (stop c n).1.base
  unfolding stop is_finished
  stop-IsValid n v =
      let m : Node S = enter stoped false true n in
      if_elim (λ (r : Bool × Node S). IsValid r.1.base) (is_underway n.base.state)
        (λ e.
          subst IsValid (sym (on_stop-base c (parallel_part m.kind) m))
            (enter-IsValid c stoped false true n refl (λ _. finished_of_underway n.base.state e) v))
        (λ _. v)

  reset-IsValid : (n : Node S) → IsValid n.base → IsValid (reset c n).base
  unfolding reset on_reset reset_children
  reset-IsValid n v =
      if_elim (λ (m : Node S). IsValid m.base) (is_idle n.base.state) (λ _. v)
        (λ _.
          cancelled-IsValid (set_timer false (cancel_dispatched_callback n.base).timer_ev) n.base v)

  apply-IsValid : (op : Op) (n : Node S) → IsValid n.base → IsValid (apply c op n).base
  unfolding apply set_timeout reset_timeout on_timeout
  apply-IsValid starts n v = start-IsValid n v
  apply-IsValid pauses n v = pause-IsValid n v
  apply-IsValid resumes n v = resume-IsValid n v
  apply-IsValid stops n v = stop-IsValid n v
  apply-IsValid resets n v = reset-IsValid n v
  apply-IsValid sets_timeout n v = record {
    has_result = v.has_result;
    none_before = v.none_before;
    one = v.one;
  }
  apply-IsValid resets_timeout n v = record {
    has_result = v.has_result;
    none_before = v.none_before;
    one = v.one;
  }
  apply-IsValid times_out n v = finish-IsValid c (own false 1) n v
  apply-IsValid (finishes_with o) n v = finish-IsValid c o n v
  apply-IsValid (blocks_with why trace) n v = block-IsValid c why trace n v
  apply-IsValid (child_finished i o) n v =
      on_child_finished-IsValid c (parallel_part n.kind) i o n v
  apply-IsValid (child_blocked why trace) n v =
      on_child_blocked-IsValid c (parallel_part n.kind) why trace n v
  apply-IsValid runs_posted n v = run_posted-IsValid c n.posted_funcs n v
  apply-IsValid calls_back n v = called-IsValid n.base v

  -- Whatever is done to an action of any class, in any order, it has a result exactly while it is
  -- in the state finished, at most one finish callback waits in the loop, none before a finish,
  -- and it waits under the id that the action keeps to cancel it.
  pub apply_all-IsValid :
      (ops : List Op) (n : Node S) → IsValid n.base → IsValid (apply_all c ops n).base
  unfolding apply_all
  apply_all-IsValid [] n v = v
  apply_all-IsValid (op ∷ ops) n v = apply_all-IsValid ops (apply c op n) (apply-IsValid op n v)

  -- After a reset, an action that keeps the invariant is idle, has no result, and no finish
  -- callback of it waits in the loop.
  pub reset_lem :
      (n : Node S)
      → IsValid n.base
      → let n' = reset c n in
        (n'.base.state ≡ idle) × (n'.base.result ≡ unsure) × (finish_ids n'.base.posted ≡ [])
  unfolding reset on_reset reset_children
  reset_lem n v =
      if_elim
        (λ (m : Node S).
          (m.base.state ≡ idle) × (m.base.result ≡ unsure) × (finish_ids m.base.posted ≡ []))
        (is_idle n.base.state) (λ e. idle_lem n.base v e) (λ _. (refl, refl, no_finish n.base v))
