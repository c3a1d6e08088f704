-- ===== src/Flow/Action/Assemble.antt =====
-- modules/flow/actions: what the actions with children keep, and what SerialAssembleAction
-- (assemble_action.cpp) adds to an action. An object of any class is a `Node`: `base` is the part of Action,
-- `kind` what its own class keeps, the rest that of SerialAssembleAction. A pointer to a child is its position
-- among the children. A function given to `handleChildFinishEvent` is kept as what it calls.
use cpp_tbox.Common.{
  ℕ, Bool, true, false, List, [], map, Option, none, some, if◌then◌else◌, get_elem?, set,
}
use cpp_tbox.Flow.Action.{
  State, pausing, finished, is_running, is_pause, is_over, Reason, Outcome, Action, set_timer,
  set_state, base_on_finished, base_on_block, Child,
}

-- Of SequenceAction and ParallelAction.
pub data Mode : Type 0 where
  all_finish : Mode
  any_fail : Mode
  any_succ : Mode

pub data LoopMode : Type 0 where
  forever : LoopMode
  until_fail : LoopMode
  until_succ : LoopMode

pub data RepeatMode : Type 0 where
  no_break : RepeatMode
  break_fail : RepeatMode
  break_succ : RepeatMode

pub data WrapperMode : Type 0 where
  normal : WrapperMode
  invert : WrapperMode
  alway_succ : WrapperMode
  alway_fail : WrapperMode

-- The children of `if_else` are the condition and, at their positions, the branches; those of `if_then` stand in
-- pairs; those of `loop_if` are the condition and the body; that of `switch` at 0 is the one that chooses.
pub data Kind : Type 0 where
  dummy : Kind
  function : Bool → Kind
  sequence : Mode → ℕ → Kind
  loop : LoopMode → Kind
  repeat : RepeatMode → ℕ → ℕ → Kind
  if_else : Option ℕ → Option ℕ → Kind
  if_then : ℕ → Kind
  loop_if : Bool → Kind
  switch : List (ℕ × ℕ) → Option ℕ → Kind
  wrapper : WrapperMode → Kind
  composite : Kind
  parallel : Mode → List (ℕ × Bool) → Kind

-- What a kept function calls: the handler of the child at this position, or `finish`.
pub data ChildFinishFunc : Type 0 where
  handles : ℕ → Outcome → ChildFinishFunc
  finishes : Outcome → ChildFinishFunc

pub record Node (S : Type 0) : Type 0 where
  pub base : Action
  pub curr_action : Option ℕ
  pub child_finish_func : Option ChildFinishFunc
  pub posted_funcs : List ChildFinishFunc
  pub kind : Kind
  pub children : List S

abbrev pub new_node : {S : Type 0} → Action → Kind → List S → Node S
new_node a k ss = record {
  base = a;
  curr_action = none;
  child_finish_func = none;
  posted_funcs = [];
  kind = k;
  children = ss;
}

module _ {S : Type 0} where
  abbrev pub with_kind : Kind → Node S → Node S
  with_kind k n = record n { kind = k }

  abbrev pub with_base : Action → Node S → Node S
  with_base a n = record n { base = a }

  abbrev pub state : Node S → State
  state n = n.base.state

module _ {S : Type 0} where
  -- One child, by a method that tells whether it did something.
  unfoldable pub call_child : (S → Bool × S) → ℕ → Node S → Bool × Node S
  call_child f i n = elim (get_elem? n.children i) [
    | none ↦ (false, n)
    | some s ↦ let (ok, s') = f s in (ok, record n { children = set n.children i s' })
  ]

  -- The child that a pointer leads to, if it leads to one.
  unfoldable pub call_pointed : (S → Bool × S) → Option ℕ → Node S → Node S
  call_pointed f none n = n
  call_pointed f (some i) n = (call_child f i n).1

  unfoldable pub call_all : (S → Bool × S) → Node S → Node S
  call_all f n = record n { children = map (λ s. (f s).1) n.children }

  unfoldable pub reset_children : Child S → Node S → Node S
  reset_children c n = record n { children = map c.reset n.children }

module _ {S : Type 0} where
  unfoldable pub start_this_action : Child S → ℕ → Node S → Bool × Node S
  start_this_action c i n =
      let (ok, m) = call_child c.start i n in
      if ok then (true, record m { curr_action = some i }) else (false, m)

  unfoldable pub stop_curr_action : Child S → Node S → Node S
  stop_curr_action c n = record (call_pointed c.stop n.curr_action n) { curr_action = none }

module _ {S : Type 0} where
  -- Only CompositeAction has an `onFinished` of its own.
  unfoldable pub on_finished : Child S → Outcome → Kind → Node S → Node S
  on_finished c o composite n =
      let m = stop_curr_action c n in with_base (base_on_finished o m.base) m
  on_finished c o _ n = with_base (base_on_finished o n.base) n

module _ {S : Type 0} where
  unfoldable pub finish : Child S → Outcome → Node S → Bool × Node S
  finish c o n =
      let a = n.base in
      let b = record a { state = finished; timer_ev = set_timer false a.timer_ev } in
      if is_over a.state then (false, n) else (true, on_finished c o n.kind (with_base b n))

  unfoldable pub block : Reason → List ℕ → Node S → Bool × Node S
  block why trace n =
      if is_over n.base.state
      then (false, n)
      else (true, with_base (base_on_block why trace (set_state pausing n.base)) n)

module _ {S : Type 0} where
  unfoldable pub handle_child_finish_event : ChildFinishFunc → Node S → Bool × Node S
  handle_child_finish_event f n =
      let m = record n { curr_action = none } in
      if is_running n.base.state
      then (false, m)
      else (true, if is_pause n.base.state then record m { child_finish_func = some f } else m)

  unfoldable pub on_last_child_finished : Child S → Outcome → Node S → Node S
  on_last_child_finished c o n =
      let m = record n { curr_action = none } in
      if is_running n.base.state
      then (finish c o m).1
      else if is_pause n.base.state
      then record m { child_finish_func = some (finishes o) }
      else m
