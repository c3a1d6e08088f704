-- ===== src/Flow/Action/Timeout.antt =====
-- What a timeout leaves behind, and what a reset makes possible.
use cpp_tbox.Common.{◌≡◌, refl, ap, ◌∙◌, Bool, true, false, arith, if_elim}
use cpp_tbox.Flow.Action.{
  State, idle, running, pausing, finished, stoped, is_idle, is_running, is_pause, is_over,
  is_underway, Outcome, Action, set_timer, Child,
}
use cpp_tbox.Flow.Action.Assemble.{
  Kind, sequence, repeat, Node, composite, dummy, function, loop, if_else, if_then, loop_if, switch,
  wrapper, parallel, on_finished, finish,
}
use cpp_tbox.Flow.Action.Kinds.{own}
use cpp_tbox.Flow.Action.Life.{start, stop, reset, on_timeout, as_child}
use cpp_tbox.Flow.Action.Effects.{finish-base}
use cpp_tbox.Flow.Action.States.{idle_of}
use cpp_tbox.Flow.Action.Started.{done-state, CanRestart}

-- A sequence that is paused, in which the result of a child waits.

over_of_underway : (s : State) → is_underway s ≡ true → is_over s ≡ false
unfolding is_underway is_running is_pause is_over
over_of_underway idle e = refl
over_of_underway running e = refl
over_of_underway pausing e = refl
over_of_underway finished e = absurd (ground (arith, e))
over_of_underway stoped e = absurd (ground (arith, e))

unfoldable pub is_composite : Kind → Bool
is_composite composite = true
is_composite _ = false

module _ {S : Type 0} (c : Child S) where
  on_finished-children :
      (o : Outcome) (k : Kind) (n : Node S)
      → is_composite k ≡ false
      → (on_finished c o k n).children ≡ n.children
  unfolding on_finished is_composite
  on_finished-children o composite n e = absurd (ground (arith, e))
  on_finished-children o dummy n e = refl
  on_finished-children o (function _) n e = refl
  on_finished-children o (sequence _ _) n e = refl
  on_finished-children o (loop _) n e = refl
  on_finished-children o (repeat _ _ _) n e = refl
  on_finished-children o (if_else _ _) n e = refl
  on_finished-children o (if_then _) n e = refl
  on_finished-children o (loop_if _) n e = refl
  on_finished-children o (switch _ _) n e = refl
  on_finished-children o (wrapper _) n e = refl
  on_finished-children o (parallel _ _) n e = refl

  stop_finished : (n : Node S) → n.base.state ≡ finished → (stop c n).1 ≡ n
  unfolding stop is_underway is_running is_pause
  stop_finished n e = rw e refl

  timed_out :
      (n : Node S)
      → is_composite n.kind ≡ false
      → is_over n.base.state ≡ false
      → (finish c (own false 1) n).1.children ≡ n.children
  unfolding finish
  timed_out n e h = rw h (
      on_finished-children (own false 1) n.kind
        (record n {
          base = record n.base { state = finished; timer_ev = set_timer false n.base.timer_ev };
        })
        e)

  -- The timeout of an action that runs or is paused, of any class but the composite one, finishes
  -- it, leaves its children as they are, running or not, and a later stop does nothing.
  pub on_timeout_lem :
      (n : Node S)
      → is_composite n.kind ≡ false
      → is_underway n.base.state ≡ true
      → let n' = on_timeout c n in
        (n'.base.state ≡ finished) × (n'.children ≡ n.children) × ((stop c n').1 ≡ n')
  unfolding on_timeout
  on_timeout_lem n e h =
      let over : is_over n.base.state ≡ false = over_of_underway n.base.state h in
      let base = finish-base c (own false 1) n over in
      let ended = ap (λ (a : Action). a.state) base ∙ done-state n.base (own false 1) in
      (ended, timed_out n e over, stop_finished (finish c (own false 1) n).1 ended)

module _ {S : Type 0} (c : Child S) where
  pub started_idle : (n : Node S) → n.base.state ≡ idle → (start c n).0 ≡ true
  unfolding start is_running is_idle
  started_idle n e = rw e refl

  reset_idle : (n : Node S) → (reset c n).base.state ≡ idle
  unfolding reset
  reset_idle n =
      if_elim (λ (m : Node S). m.base.state ≡ idle) (is_idle n.base.state)
        (λ e. idle_of n.base.state e) (λ _. refl)

  -- An action can be the child of another: after a reset it can be started.
  pub as_child-CanRestart : CanRestart (as_child c)
  unfolding CanRestart as_child
  as_child-CanRestart n = started_idle (reset c n) (reset_idle n)
