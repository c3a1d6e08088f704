-- ===== src/Flow/Action/Hooks.antt =====
-- modules/flow/actions: what each class does on start, pause, resume, stop and reset, and when a child finishes
-- or blocks. Callbacks of the user are left out, but for the result of FunctionAction's function.
use cpp_tbox.Common.{
  ℕ, zero, suc, ◌+◌, ◌-◌, ◌*◌, ◌%◌, ◌^◌, Bool, true, false, not, List, [], ◌∷◌, ◌++◌, Option, none,
  some, ◌==◌, if◌then◌else◌, ltb, length,
}
use cpp_tbox.Flow.Action.{is_running, is_pause, Reason, Outcome, Child}
use cpp_tbox.Flow.Action.Kinds.{
  own, plain_success, function_action, start_child_fail, repeat_no_times, switch_fail, switch_skip,
  if_then_skip, put_result, put_failures, find_case, ends_at, loop_ends_at, repeat_ends_at, wrap,
  chosen, quits_at_start, reset_kind, is_last_child,
}
use cpp_tbox.Flow.Action.Assemble.{
  Mode, LoopMode, RepeatMode, WrapperMode, Kind, dummy, function, sequence, loop, repeat, if_else,
  if_then, loop_if, switch, wrapper, parallel, ChildFinishFunc, handles, Node, with_kind,
  call_child, call_pointed, call_all, reset_children, start_this_action, stop_curr_action, finish,
  block, handle_child_finish_event, on_last_child_finished,
}

module _ {S : Type 0} (c : Child S) where
  -- The children started in order: whether one that failed ended it, the children, and who failed.
  unfoldable pub start_each : Bool → ℕ → List S → Bool × List S × List ℕ
  start_each quits i [] = (false, [], [])
  start_each quits i (s ∷ ss) =
      let (ok, s') = c.start s in
      let (quit, rest, failed) = start_each quits (suc i) ss in
      if ok
      then (quit, s' ∷ rest, failed)
      else if quits
      then (true, s' ∷ ss, i ∷ [])
      else (quit, s' ∷ rest, i ∷ failed)

module _ {S : Type 0} where
  -- `startOtheriseFinish`
  unfoldable pub start_otherwise_finish : Child S → ℕ → Outcome → Node S → Node S
  start_otherwise_finish c index o n =
      let (ok, m) = start_this_action c index n in
      if ltb index (length n.children)
      then (if ok then m else (finish c (own false start_child_fail) m).1)
      else (finish c o n).1

  -- `IfThenAction::doStart`, at the pair with this number.
  unfoldable pub do_start : Child S → ℕ → Node S → Node S
  do_start c index n =
      if ltb (2 * index) (length n.children)
      then (start_this_action c (2 * index) n).1
      else (finish c (own false if_then_skip) n).1

  unfoldable pub start_parallel : Child S → Mode → List (ℕ × Bool) → Node S → Node S
  start_parallel c m results n =
      let (quit, ss, failed) = start_each c (quits_at_start m) 0 n.children in
      let results' = put_failures failed results in
      let n₁ = record n { kind = parallel m results'; children = ss } in
      if quit
      then call_all c.stop (finish c plain_success n₁).1
      else if length results' == length ss
      then (finish c plain_success n₁).1
      else n₁

  unfoldable pub function_start : Child S → Bool → Node S → Node S
  function_start c ok n = (finish c (own ok function_action) n).1

  -- Of the classes that start their first child: loop, if-else, loop-if, switch, wrapper and composite.
  unfoldable pub start_first : Child S → Node S → Node S
  start_first c n = (start_this_action c 0 n).1

  -- `remain_times_ = repeat_times_ - 1`, which wraps.
  unfoldable pub repeat_start : Child S → RepeatMode → ℕ → Node S → Node S
  repeat_start c m times n =
      start_first c (with_kind (repeat m times ((times + (2 ^ 64 - 1)) % 2 ^ 64)) n)

  unfoldable pub if_then_start : Child S → Node S → Node S
  if_then_start c n = do_start c 0 (with_kind (if_then 0) n)

  unfoldable pub on_start : Child S → Kind → Node S → Node S
  on_start c dummy n = n
  on_start c (function ok) n = function_start c ok n
  on_start c (sequence m index) n = start_otherwise_finish c index plain_success n
  on_start c (repeat m times remain) n = repeat_start c m times n
  on_start c (if_then index) n = if_then_start c n
  on_start c (parallel m results) n = start_parallel c m results n
  on_start c _ n = start_first c n

  -- SerialAssembleAction's, and those of the classes that have their own.
  unfoldable pub on_pause : Child S → Option (Mode × List (ℕ × Bool)) → Node S → Node S
  on_pause c (some (m, results)) n = call_all c.pause n
  on_pause c none n = call_pointed c.pause n.curr_action n

  -- The running child is resumed, or else the kept function is given to the loop.
  unfoldable pub resume_pointed : Child S → Option ℕ → Option ChildFinishFunc → Node S → Node S
  resume_pointed c (some i) f n = (call_child c.resume i n).1
  resume_pointed c none none n = n
  resume_pointed c none (some f) n = record n {
    child_finish_func = none;
    posted_funcs = n.posted_funcs ++ f ∷ [];
  }

  unfoldable pub on_resume : Child S → Option (Mode × List (ℕ × Bool)) → Node S → Node S
  on_resume c (some (m, results)) n =
      call_all (λ s. if is_pause (c.state_of s) then c.resume s else (false, s)) n
  on_resume c none n = resume_pointed c n.curr_action n.child_finish_func n

  unfoldable pub on_stop : Child S → Option (Mode × List (ℕ × Bool)) → Node S → Node S
  on_stop c (some (m, results)) n = call_all c.stop n
  on_stop c none n = record (stop_curr_action c n) { child_finish_func = none }

  unfoldable pub on_reset : Child S → Node S → Node S
  on_reset c n = record (reset_children c n) {
    kind = reset_kind n.kind;
    curr_action = none;
    child_finish_func = none;
  }

module _ {S : Type 0} where
  -- A child that may be missing is started, or else the action finishes.
  unfoldable pub start_chosen : Child S → Option ℕ → Outcome → Node S → Node S
  start_chosen c (some i) o n = (start_this_action c i n).1
  start_chosen c none o n = (finish c o n).1

  unfoldable pub sequence_result : Child S → Mode → ℕ → Outcome → Node S → Node S
  sequence_result c m index o n =
      if ends_at m o.is_succ
      then (finish c o n).1
      else start_otherwise_finish c (suc index) o (with_kind (sequence m (suc index)) n)

  unfoldable pub loop_result : Child S → LoopMode → Outcome → Node S → Node S
  loop_result c m o n =
      if loop_ends_at m o.is_succ
      then (finish c o n).1
      else (start_this_action c 0 (reset_children c n)).1

  unfoldable pub repeat_result : Child S → RepeatMode → ℕ → ℕ → Outcome → Node S → Node S
  repeat_result c m times remain o n =
      if repeat_ends_at m o.is_succ
      then (finish c o n).1
      else if ltb 0 remain
      then with_kind (repeat m times (remain - 1)) (start_this_action c 0 (reset_children c n)).1
      else (finish c (own true repeat_no_times) n).1

  unfoldable pub if_else_result : Child S → Option ℕ → Option ℕ → Outcome → Node S → Node S
  if_else_result c then_action else_action o n =
      start_chosen c (if o.is_succ then then_action else else_action) (record o { is_succ = true })
        n

  unfoldable pub if_then_result : Child S → ℕ → Outcome → Node S → Node S
  if_then_result c index o n =
      if o.is_succ
      then (start_this_action c (suc (2 * index)) n).1
      else do_start c (suc index) (with_kind (if_then (suc index)) n)

  -- `LoopIfAction::onIfFinished`
  unfoldable pub loop_if_result : Child S → Bool → Outcome → Node S → Node S
  loop_if_result c finish_result o n =
      if o.is_succ
      then (start_this_action c 1 n).1
      else (finish c (record o { is_succ = finish_result }) n).1

  -- `LoopIfAction::onExecFinished`
  unfoldable pub exec_result : Child S → Bool → Outcome → Node S → Node S
  exec_result c finish_result o n =
      let (ok, m) = start_this_action c 0 (reset_children c n) in
      if ok then m else (finish c (record o { is_succ = finish_result }) m).1

  unfoldable pub switch_result : Child S → List (ℕ × ℕ) → Option ℕ → Outcome → Node S → Node S
  switch_result c cases default_action o n =
      if o.is_succ
      then start_chosen c (chosen (find_case o.why.message cases) default_action)
          (own false switch_skip) n
      else (finish c (own false switch_fail) n).1

  unfoldable pub wrapper_result : Child S → WrapperMode → Outcome → Node S → Node S
  wrapper_result c m o n = (finish c (record o { is_succ = wrap m o.is_succ }) n).1

  -- What is done with the result of a child, by an action that is running. `i` is the child's position.
  unfoldable pub take_result : Child S → Kind → ℕ → Outcome → Node S → Node S
  take_result c (sequence m index) i o n = sequence_result c m index o n
  take_result c (loop m) i o n = loop_result c m o n
  take_result c (repeat m times remain) i o n = repeat_result c m times remain o n
  take_result c (if_else then_action else_action) i o n =
      if_else_result c then_action else_action o n
  take_result c (if_then index) i o n = if_then_result c index o n
  take_result c (loop_if finish_result) zero o n = loop_if_result c finish_result o n
  take_result c (loop_if finish_result) (suc i) o n = exec_result c finish_result o n
  take_result c (switch cases default_action) i o n = switch_result c cases default_action o n
  take_result c (wrapper m) i o n = wrapper_result c m o n
  take_result c _ i o n = n

  -- `ParallelAction::onChildFinished`
  unfoldable pub on_parallel_finished :
      Child S → Mode → List (ℕ × Bool) → ℕ → Bool → Node S → Node S
  on_parallel_finished c m results i is_succ n =
      let results' = put_result i is_succ results in
      let n₁ = with_kind (parallel m results') n in
      if not (is_running n.base.state)
      then n
      else if ends_at m is_succ
      then (finish c plain_success (call_all c.stop n₁)).1
      else if length results' == length n.children
      then (finish c plain_success n₁).1
      else n₁

  -- The handlers that the children have as their finish callbacks.
  unfoldable pub on_serial_finished : Child S → ℕ → Outcome → Node S → Node S
  on_serial_finished c i o n =
      let (handled, m) = handle_child_finish_event (handles i o) n in
      if is_last_child n.kind i
      then on_last_child_finished c o n
      else if handled
      then m
      else take_result c m.kind i o m

  unfoldable pub on_child_finished :
      Child S → Option (Mode × List (ℕ × Bool)) → ℕ → Outcome → Node S → Node S
  on_child_finished c (some (m, results)) i o n = on_parallel_finished c m results i o.is_succ n
  on_child_finished c none i o n = on_serial_finished c i o n

  unfoldable pub on_child_blocked :
      Child S → Option (Mode × List (ℕ × Bool)) → Reason → List ℕ → Node S → Node S
  on_child_blocked c (some (m, results)) why trace n =
      if is_running n.base.state then (block why trace (call_all c.pause n)).1 else n
  on_child_blocked c none why trace n = (block why trace n).1
