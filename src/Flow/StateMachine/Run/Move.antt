-- ===== src/Flow/StateMachine/Run/Move.antt =====
-- What one call of `run` does to a machine, case by case.
use cpp_tbox.Common.{
  if◌then◌else◌, ℕ, suc, ◌+◌, ◌-◌, ◌<◌, ◌≡◌, ◌≢◌, refl, ap, ◌∙◌, true, false, not, ◌||◌, [], ◌∷◌,
  ◌++◌, none, some, ◌==◌, length, set, get_elem?-set_self, set-set, get_elem?-set_ne,
  lt_of_get_elem?, ◌⊎◌, inl, inr, Option-cases, arith,
}
use cpp_tbox.Common.Int.{ℤ, eq_int_iff, lookup_int}
use cpp_tbox.Flow.StateMachine.{
  null_state_id, term_state_id, Event, ActionFunc, EventFunc, State, StatePtr, Machine, find_state,
  deref,
}
use cpp_tbox.Flow.StateMachine.Run.Asks.{Asks, Leads, choose-Asks, target-Leads, deref-Leads}
use cpp_tbox.Flow.StateMachine.Run.{
  World, changed, machine, put, act, entry_of, start_body, start, halt, stop, choose, target,
  move_log, enter_sub, lower, moved, move_to, handle, run_body, run, handler, handler_name,
}

-- A machine that is not running, or is in one of its own callbacks, refuses an event and keeps
-- everything as it is; in a callback it refuses `start` and `stop` too.
pub run_refused :
    (fuel m : ℕ) (e : Event) (sm : Machine) {w : World}
    → machine m w ≡ some sm
    → (sm.is_running ≡ false) ⊎ (sm.cb_level ≢ 0)
    → run (suc fuel) m e w ≡ some (false, w)
unfolding run run_body
run_refused fuel m e sm em (inl h) = rw em (rw h refl)
run_refused fuel m e sm em (inr h) = rw em (ground arith)

-- A machine that is in one of its own callbacks refuses run, start and stop, which change nothing.
pub refused_in_callback :
    (fuel m : ℕ) (e : Event) (sm : Machine) {w : World}
    → machine m w ≡ some sm
    → sm.cb_level ≢ 0
    → (run (suc fuel) m e w ≡ some (false, w))
      × (start (suc fuel) m w ≡ some (false, w))
      × (stop m w ≡ some w)
unfolding start start_body stop
refused_in_callback fuel m e sm em h =
    (run_refused fuel m e sm em (inr h), rw em (ground arith), rw em (ground arith))

-- A machine that takes events: it runs, is in no callback, and its current state is `s`.
pub record Ready (m : ℕ) (sm : Machine) (s : State) (w : World) : Type 0 where
  pub here : machine m w ≡ some sm
  pub running : sm.is_running ≡ true
  pub idle : sm.cb_level ≡ 0
  pub current : deref sm sm.curr_state ≡ some s

run-handle :
    (fuel m : ℕ) (e : Event) (sm : Machine) (s : State) {w : World}
    → Ready m sm s w
    → s.sub_sm ≡ none
    → run (suc fuel) m e w ≡ handle (start fuel) (run fuel) m e sm s w
unfolding run run_body
run-handle fuel m e sm s v q =
    let go : (not sm.is_running || not (sm.cb_level == 0)) ≡ false =
      ground (arith, v.running, v.idle) in
    rw v.here (rw go (rw v.current (simp q refl)))

-- Of a machine that runs, is in no callback and is in a state with no sub-machine, run on an event
-- for which neither an event function nor a route asks for a move returns false and changes
-- nothing but the record of the event function called.
pub run_stays :
    (fuel m : ℕ) (e : Event) (sm : Machine) (s : State) {w : World}
    → Ready m sm s w
    → s.sub_sm ≡ none
    → choose s e ≡ none
    → run (suc fuel) m e w ≡ some (false, act m (handler_name (handler s e)) e w)
unfolding handle
run_stays fuel m e sm s v q stay = run-handle fuel m e sm s v q ∙ rw (stay, handle) refl

-- The move that was chosen, made.
run_chosen :
    (fuel m : ℕ) (e : Event) (sm : Machine) (s t : State) (id : ℤ) (action : ActionFunc)
    (p : StatePtr) {w : World}
    → Ready m sm s w
    → s.sub_sm ≡ none
    → choose s e ≡ some (id, action)
    → target id sm ≡ some p
    → deref sm (some p) ≡ some t
    → t.sub_sm ≡ none
    → run (suc fuel) m e w
      ≡ some (
        true,
        record {
          machines =
              set w.machines m
                (record sm { last_state = sm.curr_state; curr_state = some p; next_state = none });
          log = (w.log ++ entry_of m (handler_name (handler s e)) e) ++ move_log m sm s action t e;
        },
      )
unfolding handle move_to enter_sub lower moved
run_chosen fuel m e sm s t id action p {w} v q go to d qt = run-handle fuel m e sm s v q ∙ moves
  where
    after : World
    after = record {
      machines = set w.machines m (moved sm p);
      log = (w.log ++ entry_of m (handler_name (handler s e)) e) ++ move_log m sm s action t e;
    }

    settled : ℕ → Machine
    settled level = record sm {
      last_state = sm.curr_state;
      curr_state = some p;
      next_state = none;
      cb_level = level;
    }

    inside : m < length w.machines
    inside = lt_of_get_elem? w.machines m v.here

    lowered :
        lower m after
        ≡ some (
          true,
          record after {
            machines =
                set w.machines m (record sm {
                  last_state = sm.curr_state;
                  curr_state = some p;
                  next_state = none;
                });
          },
        )
    lowered = rw (get_elem?-set_self w.machines m (moved sm p) inside) (
        let back : sm.cb_level + 1 - 1 ≡ sm.cb_level = omega arith in
        λ i. some (
          true,
          record after {
            machines =
                (set-set w.machines m (moved sm p) (settled (sm.cb_level + 1 - 1))
                    ∙ ap (λ (n : ℕ). set w.machines m (settled n)) back)
                  i;
          },
        ))

    moves :
        handle (start fuel) (run fuel) m e sm s w
        ≡ some (
          true,
          record after {
            machines =
                set w.machines m (record sm {
                  last_state = sm.curr_state;
                  curr_state = some p;
                  next_state = none;
                });
          },
        )
    moves = rw (go, handle) (rw to (rw d (simp qt lowered)))

-- Of a machine that runs, is in no callback and is in a state with no sub-machine: where the event
-- function that serves the event asks for a state, or none does and the first route of the state
-- that is for any event or this one and whose guard passes leads to one, and the state is in the
-- machine (or is the terminal one, which the machine has not redefined) and has no sub-machine,
-- `run` returns true, runs the event function, the exit action, the route's action, the enter
-- action and the state-changed callback in this order on the event, each if there is one, and
-- leaves the machine in that state with the old one as last state and no next state.
pub run_moves :
    (fuel m : ℕ) (e : Event) (sm : Machine) (s t : State) (id : ℤ) (action : ActionFunc)
    (p : StatePtr) {w : World}
    → Ready m sm s w
    → s.sub_sm ≡ none
    → Asks s e id action
    → Leads sm id p t
    → t.sub_sm ≡ none
    → run (suc fuel) m e w
      ≡ some (
        true,
        record {
          machines =
              set w.machines m
                (record sm { last_state = sm.curr_state; curr_state = some p; next_state = none });
          log =
              (w.log ++ entry_of m (handler_name (handler s e)) e)
              ++ (entry_of m s.exit_action e
                  ++ (entry_of m action e
                      ++ (entry_of m t.enter_action e
                          ++ (if sm.state_changed_cb then changed m s.id t.id e ∷ [] else []))));
        },
      )
unfolding move_log
run_moves fuel m e sm s t id action p v q asks leads qt =
    run_chosen fuel m e sm s t id action p v q (choose-Asks s e id action asks)
      (target-Leads sm id p t leads) (deref-Leads sm id p t leads) qt

-- Where the event function of the current state, which has no sub-machine, asks for an id that is
-- neither -1 nor 0 and names no state, run returns false without trying a route, and the state is
-- not left.
pub run_unknown_state :
    (fuel m : ℕ) (e : Event) (sm : Machine) (s : State) (f : EventFunc) {w : World}
    → Ready m sm s w
    → s.sub_sm ≡ none
    → handler s e ≡ some f
    → f.result e ≢ null_state_id
    → f.result e ≢ term_state_id
    → lookup_int (f.result e) sm.states ≡ none
    → run (suc fuel) m e w
      ≡ some (false, put m (record sm { next_state = none }) (act m (some f.name) e w))
unfolding choose target find_state handle
run_unknown_state fuel m e sm s f {w} v q h n z l = run-handle fuel m e sm s v q ∙ lost
  where
    chosen : choose s e ≡ some (f.result e, none)
    chosen = ground (arith, eq_int_iff (f.result e) null_state_id)

    nowhere : target (f.result e) sm ≡ none
    nowhere = ground (arith, eq_int_iff (f.result e) term_state_id)

    lost :
        handle (start fuel) (run fuel) m e sm s w
        ≡ some (false, put m (record sm { next_state = none }) (act m (some f.name) e w))
    lost =
        rw (chosen, handle)
          (rw nowhere (
            ap
              (λ (g : ActionFunc).
                some (false, put m (record sm { next_state = none }) (act m g e w)))
              (ap handler_name h)))

-- stop changes no machine but the one it is called on, so a sub-machine goes on running.
pub stop_keeps_others :
    (m j : ℕ) (w : World) {w' : World} → stop m w ≡ some w' → m ≢ j → machine j w' ≡ machine j w
unfolding stop halt
stop_keeps_others m j w {w'} h ne = elim (Option-cases (machine m w)) [
  | inl e ↦ absurd (ground arith)
  | inr (sm, e) ↦
      ground (
        arith,
        get_elem?-set_ne w.machines (record sm { is_running = false; curr_state = none }) ne,
      )
]
