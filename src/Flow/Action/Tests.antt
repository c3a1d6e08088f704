-- ===== src/Flow/Action/Tests.antt =====
-- Actions whose children are dummy actions, which have none.
use cpp_tbox.Common.{
  ℕ, zero, suc, ◌≡◌, refl, sym, ap, ◌∙◌, Bool, true, false, List, [], ◌∷◌, Option, none, some, inl,
  if◌then◌else◌, ltb, arith,
}
use cpp_tbox.Flow.Action.{
  idle, running, pausing, finished, is_over, is_underway, is_running, is_pause, no_reason, Outcome,
  Action, new_action, set_timer, Child,
}
use cpp_tbox.Flow.Action.Assemble.{
  all_finish, any_fail, no_break, dummy, sequence, repeat, wrapper, normal, handles, Node, new_node,
  call_child,
}
use cpp_tbox.Flow.Action.Hooks.{on_child_finished}
use cpp_tbox.Flow.Action.Kinds.{own, ends_at, parallel_part}
use cpp_tbox.Flow.Action.Life.{
  start, pause, resume, stop, reset, run_posted, on_timeout, as_child, Op, starts, child_finished,
  finishes_with, blocks_with, apply_all,
}
use cpp_tbox.Flow.Action.Effects.{done}
use cpp_tbox.Flow.Action.Callbacks.{is_unsure, is_finished, done-IsValid, IsValid, finish_ids}
use cpp_tbox.Flow.Action.Valid.{apply_all-IsValid}
use cpp_tbox.Flow.Action.Started.{CanStart}
use cpp_tbox.Flow.Action.Sequence.{feed, verdict, sequence_outcome}
use cpp_tbox.Flow.Action.Repeat.{repeat_count, iterate, begun, again, feed-repeat}
use cpp_tbox.Flow.Action.Stale.{waiting_node, running_node, stale-run_posted, pause-resume}
use cpp_tbox.Flow.Action.Timeout.{is_composite, on_timeout_lem, started_idle, as_child-CanRestart}

abbrev no_child : Child ℕ
no_child = record {
  start = λ s. (true, s);
  pause = λ s. (true, s);
  resume = λ s. (true, s);
  stop = λ s. (true, s);
  reset = λ s. s;
  state_of = λ s. idle;
}

abbrev leaf : Child (Node ℕ)
leaf = as_child no_child

abbrev two_leaves : List (Node ℕ)
two_leaves = new_node (new_action 1) dummy [] ∷ new_node (new_action 2) dummy [] ∷ []

abbrev succeeded : ℕ → Outcome
succeeded i = record { is_succ = true; why = no_reason; trace = i ∷ [] }

abbrev failed : ℕ → Outcome
failed i = record { is_succ = false; why = no_reason; trace = i ∷ [] }

abbrev starts_at : Option (Node ℕ) → Bool
starts_at none = false
starts_at (some n) = (leaf.start n).0

two_leaves-CanStart : (j : ℕ) → CanStart leaf j two_leaves
unfolding CanStart as_child
two_leaves-CanStart zero s e =
    ap starts_at (sym e) ∙ started_idle no_child (new_node (new_action 1) dummy []) refl
two_leaves-CanStart (suc zero) s e =
    ap starts_at (sym e) ∙ started_idle no_child (new_node (new_action 2) dummy []) refl
two_leaves-CanStart (suc (suc j)) s e = absurd (ground (arith, e))

new-IsValid : IsValid (new_action 7)
unfolding finish_ids is_unsure is_finished
new-IsValid = record { has_result = refl; none_before = λ _. refl; one = inl refl }

-- The first failure ends a sequence of the mode AnyFail.
first_failure : sequence_outcome any_fail (failed 1 ∷ succeeded 2 ∷ []) ≡ failed 1
unfolding sequence_outcome verdict ends_at
first_failure = refl

feed-repeat_example :
    let n' =
      feed leaf 0
        (failed 1 ∷ succeeded 1 ∷ [])
        (start leaf (new_node (new_action 7) (repeat no_break 3 0) two_leaves)).1 in
    (n'.base ≡ (
      if ltb 2 (repeat_count 3)
      then record (new_action 7) { state = running; timer_ev = set_timer true none }
      else done (new_action 7) (own true 7)))
    × (n'.children ≡ iterate 2 (again leaf) (begun leaf two_leaves))
feed-repeat_example =
    feed-repeat leaf (new_action 7) 3 0 two_leaves (failed 1 ∷ succeeded 1 ∷ [])
      (as_child-CanRestart no_child) (two_leaves-CanStart 0) refl (omega arith) (omega arith)

abbrev paused_action : Action
paused_action = record (new_action 7) { state = pausing }

goes_on : ends_at all_finish true ≡ false
unfolding ends_at
goes_on = refl

stale-run_posted_example :
    let n' =
      run_posted leaf
        (start leaf (
          reset leaf
            (resume leaf (
              waiting_node paused_action
                (sequence all_finish 0)
                (handles 0 (succeeded 1))
                two_leaves)).1)).1 in
    (n'.kind ≡ sequence all_finish 1) × (n'.curr_action ≡ some 1) × (n'.base.state ≡ running)
stale-run_posted_example =
    stale-run_posted leaf paused_action all_finish 0 0 (succeeded 1) two_leaves
      (as_child-CanRestart no_child) refl (omega arith) goes_on

abbrev running_action : Action
running_action = record (new_action 7) { state = running; timer_ev = some true }

abbrev ended_leaves : List (Node ℕ)
ended_leaves = new_node (record (new_action 1) { state = finished }) dummy [] ∷ []

serial : parallel_part (wrapper normal) ≡ none
unfolding parallel_part
serial = refl

timer_runs : some true ≡ set_timer true (some true)
unfolding set_timer
timer_runs = refl

refuses_pause :
    (call_child leaf.pause 0 (running_node running_action (wrapper normal) 0 ended_leaves)).1
    ≡ running_node running_action (wrapper normal) 0 ended_leaves
unfolding call_child as_child pause is_pause is_running
refuses_pause = refl

not_composite : is_composite (sequence all_finish 0) ≡ false
unfolding is_composite
not_composite = refl

underway : is_underway running ≡ true
unfolding is_underway is_running
underway = refl

pause-resume_example :
    run_posted leaf
      (resume leaf (
        on_child_finished leaf
          (parallel_part (wrapper normal))
          0
          (succeeded 1)
          (pause leaf (running_node running_action (wrapper normal) 0 ended_leaves)).1)).1
    ≡ on_child_finished leaf
        (parallel_part (wrapper normal))
        0
        (succeeded 1)
        (running_node running_action (wrapper normal) 0 ended_leaves)
pause-resume_example =
    pause-resume leaf running_action (wrapper normal) 0 0 (succeeded 1) ended_leaves serial refl
      timer_runs refuses_pause

on_timeout_lem_example :
    let n' = on_timeout leaf (running_node running_action (sequence all_finish 0) 0 two_leaves) in
    (n'.base.state ≡ finished) × (n'.children ≡ two_leaves) × ((stop leaf n').1 ≡ n')
on_timeout_lem_example =
    on_timeout_lem leaf (running_node running_action (sequence all_finish 0) 0 two_leaves)
      not_composite underway

abbrev some_ops : List Op
some_ops =
    starts
    ∷ child_finished 0 (succeeded 1)
    ∷ blocks_with no_reason []
    ∷ finishes_with (failed 7)
    ∷ finishes_with (succeeded 7)
    ∷ []

apply_all-IsValid_example :
    IsValid
      (apply_all leaf some_ops (new_node (new_action 7) (sequence all_finish 0) two_leaves)).base
apply_all-IsValid_example =
    apply_all-IsValid leaf some_ops (new_node (new_action 7) (sequence all_finish 0) two_leaves)
      new-IsValid

abbrev ended_node : Node (Node ℕ)
ended_node = new_node (done (new_action 7) (succeeded 7)) (sequence all_finish 2) two_leaves

ended-IsValid : IsValid (done (new_action 7) (succeeded 7))
unfolding is_over
ended-IsValid = done-IsValid (new_action 7) (succeeded 7) new-IsValid refl
