-- ===== src/Flow/Action/Life.antt =====
-- modules/flow/action.cpp: the life of an action, over what its class does; and an action as the child of another.
use cpp_tbox.Common.{ℕ, Bool, true, false, not, List, [], ◌∷◌, none, some, if◌then◌else◌}
use cpp_tbox.Flow.Action.{
  State, idle, running, pausing, stoped, unsure, is_idle, is_running, is_pause, is_underway, Reason,
  Outcome, Posted, set_timer, cancel_dispatched_callback, Child,
}
use cpp_tbox.Flow.Action.Assemble.{
  Node, ChildFinishFunc, handles, finishes, with_base, finish, block,
}
use cpp_tbox.Flow.Action.Hooks.{
  on_start, on_pause, on_resume, on_stop, on_reset, on_child_finished, on_child_blocked,
}
use cpp_tbox.Flow.Action.Kinds.{own, parallel_part}

module _ {S : Type 0} where
  -- The state and the timer, where the hook has left the state alone.
  unfoldable pub enter : State → Bool → Bool → Node S → Node S
  enter s on unchanged n =
      let a = n.base in
      if unchanged
      then with_base (record a { state = s; timer_ev = set_timer on a.timer_ev }) n
      else n

module _ {S : Type 0} where
  unfoldable pub start : Child S → Node S → Bool × Node S
  start c n =
      let m = on_start c n.kind n in
      if is_running n.base.state
      then (true, n)
      else if not (is_idle n.base.state)
      then (false, n)
      else (true, enter running true (is_idle m.base.state) m)

  unfoldable pub pause : Child S → Node S → Bool × Node S
  pause c n =
      let m = on_pause c (parallel_part n.kind) n in
      if is_pause n.base.state
      then (true, n)
      else if not (is_running n.base.state)
      then (false, n)
      else (true, enter pausing false (is_running m.base.state) m)

  unfoldable pub resume : Child S → Node S → Bool × Node S
  resume c n =
      let m = on_resume c (parallel_part n.kind) n in
      if is_running n.base.state
      then (true, n)
      else if not (is_pause n.base.state)
      then (false, n)
      else (true, enter running true (is_pause m.base.state) m)

  unfoldable pub stop : Child S → Node S → Bool × Node S
  stop c n =
      let m = enter stoped false true n in
      if is_underway n.base.state then (true, on_stop c (parallel_part m.kind) m) else (true, n)

  unfoldable pub reset : Child S → Node S → Node S
  reset c n =
      let m = on_reset c n in
      let a = cancel_dispatched_callback m.base in
      let b = record a { timer_ev = set_timer false a.timer_ev; state = idle; result = unsure } in
      if is_idle n.base.state then n else with_base b m

  unfoldable pub set_timeout : Node S → Node S
  set_timeout n = with_base (record n.base { timer_ev = some (is_running n.base.state) }) n

  unfoldable pub reset_timeout : Node S → Node S
  reset_timeout n = with_base (record n.base { timer_ev = none }) n

  -- The timer has run out; its reason is `ACTION_REASON_ACTION_TIMEOUT`.
  unfoldable pub on_timeout : Child S → Node S → Node S
  on_timeout c n = (finish c (own false 1) n).1

  -- A function that `resume` gave to the loop.
  unfoldable pub run_func : Child S → ChildFinishFunc → Node S → Node S
  run_func c (handles i o) n = on_child_finished c (parallel_part n.kind) i o n
  run_func c (finishes o) n = (finish c o n).1

  unfoldable pub run_posted : Child S → Node S → Node S
  run_posted c n = elim n.posted_funcs [
    | [] ↦ n
    | f ∷ fs ↦ run_func c f (record n { posted_funcs = fs })
  ]

  unfoldable pub as_child : Child S → Child (Node S)
  as_child c = record {
    start = start c;
    pause = pause c;
    resume = resume c;
    stop = stop c;
    reset = reset c;
    state_of = λ n. n.base.state;
  }

-- What is done to an action, by its class or from outside. `calls_back` is the loop that takes the first of its
-- callbacks to run it.
pub data Op : Type 0 where
  starts : Op
  pauses : Op
  resumes : Op
  stops : Op
  resets : Op
  sets_timeout : Op
  resets_timeout : Op
  times_out : Op
  finishes_with : Outcome → Op
  blocks_with : Reason → List ℕ → Op
  child_finished : ℕ → Outcome → Op
  child_blocked : Reason → List ℕ → Op
  runs_posted : Op
  calls_back : Op

unfoldable pub calls_first : List Posted → List Posted
calls_first [] = []
calls_first (p ∷ ps) = ps

module _ {S : Type 0} where
  unfoldable pub apply : Child S → Op → Node S → Node S
  apply c starts n = (start c n).1
  apply c pauses n = (pause c n).1
  apply c resumes n = (resume c n).1
  apply c stops n = (stop c n).1
  apply c resets n = reset c n
  apply c sets_timeout n = set_timeout n
  apply c resets_timeout n = reset_timeout n
  apply c times_out n = on_timeout c n
  apply c (finishes_with o) n = (finish c o n).1
  apply c (blocks_with why trace) n = (block why trace n).1
  apply c (child_finished i o) n = on_child_finished c (parallel_part n.kind) i o n
  apply c (child_blocked why trace) n = on_child_blocked c (parallel_part n.kind) why trace n
  apply c runs_posted n = run_posted c n
  apply c calls_back n = with_base (record n.base { posted = calls_first n.base.posted }) n

  unfoldable pub apply_all : Child S → List Op → Node S → Node S
  apply_all c [] n = n
  apply_all c (op ∷ ops) n = apply_all c ops (apply c op n)
