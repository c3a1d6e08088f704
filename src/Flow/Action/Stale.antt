-- ===== src/Flow/Action/Stale.antt =====
-- Results that wait in a paused action.
use cpp_tbox.Common.{
  ℕ, ◌≤◌, ◌≡◌, refl, sym, ap, ap₂, ◌∙◌, Bool, true, false, Bool-cases, List, [], ◌∷◌, map, Option,
  none, some, inl, inr, if◌then◌else◌, get_elem?, length, length-map, arith,
}
use cpp_tbox.Flow.Action.{
  idle, running, pausing, unsure, is_idle, is_running, is_pause, cancel_dispatched_callback,
  Outcome, Action, set_timer, Child,
}
use cpp_tbox.Flow.Action.Assemble.{
  Mode, Kind, sequence, Node, new_node, call_child, call_pointed, reset_children, start_this_action,
  on_last_child_finished, ChildFinishFunc, handles, finishes, handle_child_finish_event,
}
use cpp_tbox.Flow.Action.Hooks.{
  on_pause, on_resume, resume_pointed, on_reset, on_start, on_serial_finished, on_child_finished,
}
use cpp_tbox.Flow.Action.Kinds.{reset_kind, plain_success, ends_at, is_last_child, parallel_part}
use cpp_tbox.Flow.Action.Life.{start, pause, resume, reset, enter, run_func, run_posted}
use cpp_tbox.Flow.Action.Started.{
  CanStart, CanRestart, reset-CanStart, start_this_action-Started, start_next, start-running,
}
use cpp_tbox.Flow.Action.Sequence.{sequence_step}

-- A sequence that is paused, in which the result of a child waits.

abbrev pub waiting_node : {S : Type 0} → Action → Kind → ChildFinishFunc → List S → Node S
waiting_node a k f ss = record {
  base = a;
  curr_action = none;
  child_finish_func = some f;
  posted_funcs = [];
  kind = k;
  children = ss;
}

module _ {S : Type 0} (c : Child S) where
  -- After resume and reset, the function is still with the loop.
  resume-reset :
      (a : Action) (k : Kind) (f : ChildFinishFunc) (ss : List S)
      → parallel_part k ≡ none
      → a.state ≡ pausing
      → (b : Action) × (b.state ≡ idle)
        × (reset c (resume c (waiting_node a k f ss)).1
            ≡ record (new_node b (reset_kind k) (map c.reset ss)) { posted_funcs = f ∷ [] })
  unfolding resume reset on_resume resume_pointed on_reset reset_children enter is_running is_pause
      is_idle
  resume-reset a k f ss e h =
      let b : Action = record a { state = running; timer_ev = set_timer true a.timer_ev } in
      (
        record (cancel_dispatched_callback b) {
          timer_ev = set_timer false (cancel_dispatched_callback b).timer_ev;
          state = idle;
          result = unsure;
        },
        refl,
        rw (e, h) refl,
      )

  run_posted_first :
      (f : ChildFinishFunc) (fs : List ChildFinishFunc) (n : Node S)
      → n.posted_funcs ≡ f ∷ fs
      → run_posted c n ≡ run_func c f (record n { posted_funcs = fs })
  unfolding run_posted
  run_posted_first f fs n e = rw (e, run_posted) refl

  other_start :
      (ss ts : List S) → CanStart c 1 ss → get_elem? ts 1 ≡ get_elem? ss 1 → CanStart c 1 ts
  unfolding CanStart
  other_start ss ts can same s e = can s (sym same ∙ e)

  -- A sequence of at least two children that can be started after a reset is paused, with a
  -- waiting result that does not end a sequence of its mode, and is resumed, reset and started
  -- again before the loop runs the function that resume gave it: that function takes the old
  -- result for one of the new run, and the second child is started although the first has not
  -- finished.
  pub stale-run_posted :
      (a : Action) (m : Mode) (index i : ℕ) (o : Outcome) (ss : List S)
      → CanRestart c
      → a.state ≡ pausing
      → 2 ≤ length ss
      → ends_at m o.is_succ ≡ false
      → let n' =
          run_posted c
            (start c
              (reset c (resume c (waiting_node a (sequence m index) (handles i o) ss)).1)).1 in
        (n'.kind ≡ sequence m 1) × (n'.curr_action ≡ some 1) × (n'.base.state ≡ running)
  unfolding run_func on_start reset_kind parallel_part
  stale-run_posted a m index i o ss all h len goes_on =
      let (b, bh, reset_eq) = resume-reset a (sequence m index) (handles i o) ss refl h in
      let n₀ : Node S = record (new_node b (sequence m 0) (map c.reset ss)) {
        posted_funcs = handles i o ∷ [];
      } in
      let two : 2 ≤ length n₀.children = omega (arith, len, length-map ss c.reset) in
      let m₁ : Node S = (start_this_action c 0 n₀).1 in
      let can₀ = reset-CanStart c all 0 ss in
      let first = start_this_action-Started c 0 n₀ can₀ (omega (arith, two)) in
      let n₁ : Node S = record m₁ {
        base = record b { state = running; timer_ev = set_timer true b.timer_ev };
      } in
      let n₂ : Node S = record n₁ { curr_action = none; posted_funcs = []; kind = sequence m 1 } in
      let can₁ : CanStart c 1 m₁.children =
        other_start n₀.children m₁.children (reset-CanStart c all 1 ss)
          (first.others 1 (omega arith)) in
      let second = start_this_action-Started c 1 n₂ can₁ (omega (arith, two, first.many)) in
      let e : run_posted c
            (start c (reset c (resume c (waiting_node a (sequence m index) (handles i o) ss)).1)).1
          ≡ (start_this_action c 1 n₂).1 =
        ap (λ (n : Node S). run_posted c (start c n).1) reset_eq
        ∙ ap (λ (n : Node S). run_posted c n)
            (start-running c n₀ m₁ bh (start_next c 0 plain_success n₀ can₀ (omega (arith, two)))
              first.base)
        ∙ run_posted_first (handles i o) [] n₁ first.funcs
        ∙ sequence_step c m 0 i o (record n₁ { posted_funcs = [] }) first.kind refl
        ∙ rw goes_on refl
        ∙ start_next c 1 o n₂ can₁ (omega (arith, two, first.many)) in
      rw e (second.kind, second.curr, ap (λ (a : Action). a.state) second.base)

set_timer_again : (t : Option Bool) → t ≡ set_timer true t → set_timer true (set_timer false t) ≡ t
unfolding set_timer
set_timer_again none e = refl
set_timer_again (some b) e = sym e

-- An action with a child that runs.
abbrev pub running_node : {S : Type 0} → Action → Kind → ℕ → List S → Node S
running_node a k j ss = record {
  base = a;
  curr_action = some j;
  child_finish_func = none;
  posted_funcs = [];
  kind = k;
  children = ss;
}

module _ {S : Type 0} (c : Child S) where
  paused_eq :
      (a : Action) (k : Kind) (j : ℕ) (ss : List S)
      → parallel_part k ≡ none
      → a.state ≡ running
      → (call_child c.pause j (running_node a k j ss)).1 ≡ running_node a k j ss
      → (pause c (running_node a k j ss)).1
        ≡ running_node (record a { state = pausing; timer_ev = set_timer false a.timer_ev }) k j ss
  unfolding pause on_pause call_pointed enter is_pause is_running call_child set_timer
  paused_eq a k j ss e h p = rw (e, h, p, h) refl

  -- The function that is kept in place of this result.
  kept_func : Kind → ℕ → Outcome → ChildFinishFunc
  kept_func k i o = if is_last_child k i then finishes o else handles i o

  kept_eq :
      (a : Action) (k : Kind) (i j : ℕ) (o : Outcome) (ss : List S)
      → parallel_part k ≡ none
      → a.state ≡ pausing
      → on_child_finished c (parallel_part k) i o (running_node a k j ss)
        ≡ waiting_node a k (kept_func k i o) ss
  unfolding on_child_finished on_serial_finished handle_child_finish_event on_last_child_finished
      is_running is_pause kept_func
  kept_eq a k i j o ss e h = elim (Bool-cases (is_last_child k i)) [
    | inl b ↦ rw (e, h, b) refl
    | inr b ↦ rw (e, h, b) refl
  ]

  resume_eq :
      (a : Action) (k : Kind) (f : ChildFinishFunc) (ss : List S)
      → parallel_part k ≡ none
      → a.state ≡ pausing
      → (resume c (waiting_node a k f ss)).1
        ≡ record (new_node
            (record a { state = running; timer_ev = set_timer true a.timer_ev })
            k
            ss) { posted_funcs = f ∷ [] }
  unfolding resume on_resume resume_pointed enter is_running is_pause
  resume_eq a k f ss e h = rw (e, h) refl

  resumed_eq :
      (a : Action) (k : Kind) (f : ChildFinishFunc) (ss : List S)
      → parallel_part k ≡ none
      → a.state ≡ pausing
      → run_posted c (resume c (waiting_node a k f ss)).1
        ≡ run_func c f
            (new_node (record a { state = running; timer_ev = set_timer true a.timer_ev }) k ss)
  resumed_eq a k f ss e h =
      ap (λ (n : Node S). run_posted c n) (resume_eq a k f ss e h)
      ∙ run_posted_first c f []
          (record (new_node (record a { state = running; timer_ev = set_timer true a.timer_ev }) k
            ss) { posted_funcs = f ∷ [] })
          refl

  kept_runs :
      (a : Action) (k : Kind) (i j : ℕ) (o : Outcome) (ss : List S)
      → parallel_part k ≡ none
      → a.state ≡ running
      → run_func c (kept_func k i o) (new_node a k ss)
        ≡ on_child_finished c (parallel_part k) i o (running_node a k j ss)
  unfolding run_func on_child_finished on_serial_finished handle_child_finish_event
      on_last_child_finished is_running is_pause kept_func
  kept_runs a k i j o ss e h = elim (Bool-cases (is_last_child k i)) [
    | inl b ↦ rw (e, h, b) refl
    | inr b ↦ rw (e, h, b) (rw (e, b) refl)
  ]

module _ {S : Type 0} (c : Child S) where
  -- For every class but the parallel action: a child's result that comes while the action is
  -- paused, and is given to the loop by resume, leaves the action as the result would have left it
  -- had there been no pause; the child must refuse the pause, and the timer be running or absent.
  pub pause-resume :
      (a : Action) (k : Kind) (i j : ℕ) (o : Outcome) (ss : List S)
      → parallel_part k ≡ none
      → a.state ≡ running
      → a.timer_ev ≡ set_timer true a.timer_ev
      → (call_child c.pause j (running_node a k j ss)).1 ≡ running_node a k j ss
      → run_posted c
          (resume c
            (on_child_finished c (parallel_part k) i o (pause c (running_node a k j ss)).1)).1
        ≡ on_child_finished c (parallel_part k) i o (running_node a k j ss)
  pause-resume a k i j o ss e h t p =
      let paused : Action = record a { state = pausing; timer_ev = set_timer false a.timer_ev } in
      let back : record a {
        timer_ev = set_timer true (set_timer false a.timer_ev);
        state = running;
      }
          ≡ a =
        ap₂ (λ s u. record a { state = s; timer_ev = u }) (sym h) (set_timer_again a.timer_ev t) in
      ap (λ (n : Node S). run_posted c (resume c (on_child_finished c (parallel_part k) i o n)).1)
        (paused_eq c a k j ss e h p)
      ∙ ap (λ (n : Node S). run_posted c (resume c n).1) (kept_eq c paused k i j o ss e refl)
      ∙ resumed_eq c paused k (kept_func c k i o) ss e refl
      ∙ ap (λ (b : Action). run_func c (kept_func c k i o) (new_node b k ss)) back
      ∙ kept_runs c a k i j o ss e h
