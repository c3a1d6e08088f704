-- ===== src/Flow/Action/States.antt =====
-- What the tests on the state of an action exclude.
use cpp_tbox.Common.{◌≡◌, refl, true, false, not, arith}
use cpp_tbox.Flow.Action.{
  State, idle, running, pausing, finished, stoped, Result, unsure, success, fail, is_idle,
  is_running, is_pause, is_over, is_underway,
}
use cpp_tbox.Flow.Action.Callbacks.{is_finished, is_unsure}

pub finished_of_idle : (s : State) → is_idle s ≡ true → is_finished s ≡ false
unfolding is_idle is_finished
finished_of_idle idle e = refl
finished_of_idle running e = refl
finished_of_idle pausing e = refl
finished_of_idle finished e = absurd (ground (arith, e))
finished_of_idle stoped e = refl

pub finished_of_running : (s : State) → is_running s ≡ true → is_finished s ≡ false
unfolding is_running is_finished
finished_of_running idle e = refl
finished_of_running running e = refl
finished_of_running pausing e = refl
finished_of_running finished e = absurd (ground (arith, e))
finished_of_running stoped e = refl

pub finished_of_pause : (s : State) → is_pause s ≡ true → is_finished s ≡ false
unfolding is_pause is_finished
finished_of_pause idle e = refl
finished_of_pause running e = refl
finished_of_pause pausing e = refl
finished_of_pause finished e = absurd (ground (arith, e))
finished_of_pause stoped e = refl

pub finished_of_underway : (s : State) → is_underway s ≡ true → is_finished s ≡ false
unfolding is_underway is_running is_pause is_finished
finished_of_underway idle e = refl
finished_of_underway running e = refl
finished_of_underway pausing e = refl
finished_of_underway finished e = absurd (ground (arith, e))
finished_of_underway stoped e = refl

pub over_of_idle : (s : State) → not (is_idle s) ≡ false → is_over s ≡ false
unfolding is_idle is_over
over_of_idle idle e = refl
over_of_idle running e = refl
over_of_idle pausing e = refl
over_of_idle finished e = absurd (ground (arith, e))
over_of_idle stoped e = absurd (ground (arith, e))

pub idle_of : (s : State) → is_idle s ≡ true → s ≡ idle
unfolding is_idle
idle_of idle e = refl
idle_of running e = absurd (ground (arith, e))
idle_of pausing e = absurd (ground (arith, e))
idle_of finished e = absurd (ground (arith, e))
idle_of stoped e = absurd (ground (arith, e))

pub unsure_of : (r : Result) → is_unsure r ≡ true → r ≡ unsure
unfolding is_unsure
unsure_of unsure e = refl
unsure_of success e = absurd (ground (arith, e))
unsure_of fail e = absurd (ground (arith, e))
