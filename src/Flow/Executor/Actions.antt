-- ===== src/Flow/Executor/Actions.antt =====
-- The actions of Flow/Action keep what the executor relies on.
use cpp_tbox.Common.{◌≡◌, refl, sym, ap, ◌∙◌, Bool, true, false, not, arith, if_elim}
use cpp_tbox.Flow.Action.{
  State, idle, running, pausing, finished, stoped, is_idle, is_running, is_pause, Action, Child,
}
use cpp_tbox.Flow.Action.Assemble.{Node}
use cpp_tbox.Flow.Action.Hooks.{on_start, on_resume}
use cpp_tbox.Flow.Action.Kinds.{parallel_part}
use cpp_tbox.Flow.Action.Life.{start, resume, enter, as_child}
use cpp_tbox.Flow.Action.Valid.{on_resume-base}
use cpp_tbox.Flow.Action.States.{idle_of}
use cpp_tbox.Flow.Executor.Rounds.{IsLawful}

pause_of : (s : State) → is_pause s ≡ true → s ≡ pausing
unfolding is_pause
pause_of pausing e = refl
pause_of idle e = absurd (ground (arith, e))
pause_of running e = absurd (ground (arith, e))
pause_of finished e = absurd (ground (arith, e))
pause_of stoped e = absurd (ground (arith, e))

module _ {S : Type 0} (c : Child S) where
  entered :
      (b : Bool) (m : Node S)
      → is_idle m.base.state ≡ b
      → is_idle (enter running true b m).base.state ≡ false
  unfolding enter is_idle
  entered true m e = refl
  entered false m e = e

  entered_running :
      (b : Bool) (m : Node S) → b ≡ true → (enter running true b m).base.state ≡ running
  unfolding enter
  entered_running true m e = refl
  entered_running false m e = absurd (ground (arith, e))

  starts_off : (n : Node S) → n.base.state ≡ idle → is_idle (start c n).1.base.state ≡ false
  unfolding start is_running is_idle
  starts_off n e =
      let P : Bool × Node S → Type 0 = λ r. is_idle r.1.base.state ≡ false in
      if_elim P (is_running n.base.state) (λ r. absurd (ground (arith, sym (ap is_running e) ∙ r)))
        (λ _.
          if_elim P (not (is_idle n.base.state))
            (λ r. absurd (ground (arith, sym (ap is_idle e), r)))
            (λ _. entered (is_idle (on_start c n.kind n).base.state) (on_start c n.kind n) refl))

  resumes_to : (n : Node S) → n.base.state ≡ pausing → (resume c n).1.base.state ≡ running
  unfolding resume is_running is_pause
  resumes_to n e =
      let m : Node S = on_resume c (parallel_part n.kind) n in
      let same : is_pause m.base.state ≡ true =
        ap (λ (a : Action). is_pause a.state) (on_resume-base c (parallel_part n.kind) n)
        ∙ ap is_pause e in
      let P : Bool × Node S → Type 0 = λ r. r.1.base.state ≡ running in
      if_elim P (is_running n.base.state) (λ r. absurd (ground (arith, sym (ap is_running e) ∙ r)))
        (λ _.
          if_elim P (not (is_pause n.base.state))
            (λ r. absurd (ground (arith, sym (ap is_pause e), r)))
            (λ _. entered_running (is_pause m.base.state) m same))

  -- Any action can be scheduled.
  as_child-IsLawful : IsLawful (as_child c)
  unfolding as_child is_idle is_pause
  as_child-IsLawful = record {
    started = λ n e _. starts_off n (idle_of n.base.state e);
    resumed =
        λ n e. let r = resumes_to n (pause_of n.base.state e) in (ap is_idle r, ap is_pause r);
  }
