-- ===== src/Flow/Executor/Tests.antt =====
-- An executor whose actions are their own states, and one over the actions of Flow/Action.
use cpp_tbox.Common.{◌+◌, ◌*◌, ◌≤◌, ◌≡◌, refl, true, false, [], ◌∷◌, some, arith}
use cpp_tbox.Flow.Action.{State, idle, running, pausing, finished, stoped, is_idle, is_pause, Child}
use cpp_tbox.Flow.Executor.{Executor, scheduled, schedule, erase, erase_item}
use cpp_tbox.Flow.Executor.Ready.{item_count}
use cpp_tbox.Flow.Executor.Rounds.{IsLawful}
use cpp_tbox.Flow.Executor.Schedule.{IsPointed, IsSettled, schedule_lem}

abbrev to_pause : State → State
to_pause running = pausing
to_pause s = s

abbrev to_run : State → State
to_run pausing = running
to_run s = s

abbrev states : Child State
states = record {
  start = λ s. (true, running);
  pause = λ s. (true, to_pause s);
  resume = λ s. (true, to_run s);
  stop = λ s. (true, stoped);
  reset = λ s. idle;
  state_of = λ s. s;
}

resumes :
    (s : State) → is_pause s ≡ true → (is_idle (to_run s) ≡ false) × (is_pause (to_run s) ≡ false)
unfolding is_pause is_idle
resumes idle e = absurd (ground (arith, e))
resumes running e = absurd (ground (arith, e))
resumes pausing e = (refl, refl)
resumes finished e = absurd (ground (arith, e))
resumes stoped e = absurd (ground (arith, e))

states-IsLawful : IsLawful states
unfolding is_idle
states-IsLawful = record { started = λ s _ _. refl; resumed = resumes }

-- The action of the lowest priority runs; one that has finished and an idle one wait before it.
abbrev busy : Executor State
busy = record {
  action_deque_array =
      []
      ∷ ((record { id = 2; action = finished }) ∷ (record { id = 3; action = idle }) ∷ [])
      ∷ ((record { id = 1; action = running }) ∷ [])
      ∷ [];
  action_id_alloc_counter = 3;
  curr_action_deque_index = some 2;
  log = [];
}

busy-IsPointed : IsPointed states busy.curr_action_deque_index busy
unfolding IsPointed
busy-IsPointed = (omega arith, omega arith)

busy_fuel : 3 * item_count busy.action_deque_array + 2 ≤ 20
unfolding item_count
busy_fuel = omega arith

schedule_lem_example :
    (e' : Executor State) × (schedule states 20 busy ≡ scheduled e') × IsSettled states e'
schedule_lem_example = schedule_lem states 20 busy states-IsLawful busy-IsPointed busy_fuel

abbrev alone : Executor State
alone = record {
  action_deque_array = [] ∷ ((record { id = 4; action = running }) ∷ []) ∷ [] ∷ [];
  action_id_alloc_counter = 4;
  curr_action_deque_index = some 1;
  log = [];
}

only_one : erase 4 alone.action_deque_array ≡ (true, [] ∷ [] ∷ [] ∷ [])
unfolding erase erase_item
only_one = refl
