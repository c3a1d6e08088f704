-- ===== src/Flow/StateMachine/Run/Tests.antt =====
-- A lamp of two states, and a tower whose only state has a lamp as its sub-machine: the theorems at them.
use cpp_tbox.Common.{
  ℕ, zero, suc, ◌-◌, ◌<◌, ◌≡◌, ◌≢◌, inr, refl, sym, subst, true, false, List, [], ◌∷◌, none, some,
  arith, length,
}
use cpp_tbox.Common.Int.{pos}
use cpp_tbox.Flow.StateMachine.{
  null_state_id, is_terminated, Event, EventFunc, Route, State, StatePtr, user, term, Machine,
  find_state, deref, new_machine, new_state, add_route, term_state,
}
use cpp_tbox.Flow.StateMachine.Run.{
  World, called, changed, machine, run, run_body, handle, after_sub, move_to, enter_sub, lower,
  moved, choose, target, move_log, matches, find_route,
}
use cpp_tbox.Common.Maybe.{◌>>=◌}
use cpp_tbox.Flow.StateMachine.Run.Asks.{Serves, by_route, named}
use cpp_tbox.Flow.StateMachine.Run.Frame.{Good}
use cpp_tbox.Flow.StateMachine.Run.Total.{Returns, run_total}
use cpp_tbox.Flow.StateMachine.Run.Move.{Ready, run_moves}
use cpp_tbox.Flow.StateMachine.Build.{Call, new_states, add_routes, build, built_routes_lead}

abbrev press : Event
press = record { id = pos 10; extra = 0 }

abbrev unplug : Event
unplug = record { id = pos 11; extra = 0 }

abbrev fall : Event
fall = record { id = pos 12; extra = 0 }

-- It asks for a state that the lamp does not have.
abbrev lose : EventFunc
lose = record { name = 7; result = λ e. pos 99 }

abbrev refuse : Route
refuse = record {
  event_id = pos 10;
  next_state_id = pos 1;
  guard = some (λ e. false);
  action = none;
}

abbrev switch : Route
switch = record { event_id = pos 10; next_state_id = pos 2; guard = none; action = some 5 }

abbrev dark : State
dark = record {
  id = pos 1;
  enter_action = some 1;
  exit_action = some 2;
  sub_sm = none;
  routes = refuse ∷ switch ∷ [];
  events = (pos 12, lose) ∷ [];
  default_event = none;
}

abbrev lit : State
lit = record {
  id = pos 2;
  enter_action = some 3;
  exit_action = none;
  sub_sm = none;
  routes = [];
  events = [];
  default_event = none;
}

abbrev lamp : Machine
lamp = record {
  init_state_id = pos 1;
  is_running = true;
  last_state = none;
  curr_state = some (user (pos 1));
  next_state = none;
  states = (pos 1, dark) ∷ (pos 2, lit) ∷ [];
  state_changed_cb = true;
  cb_level = 0;
}

abbrev room : World
room = record { machines = lamp ∷ lamp ∷ []; log = [] }

lamp-Ready : Ready 0 lamp dark room
lamp-Ready = record { here = refl; running = refl; idle = refl; current = refl }

-- The lamp inside one of its callbacks.
abbrev busy : Machine
busy = record lamp { cb_level = 1 }

abbrev busy_room : World
busy_room = record { machines = busy ∷ []; log = [] }

no_sub : (p : StatePtr) (s : State) → deref lamp (some p) ≡ some s → s.sub_sm ≡ none
no_sub (user id) s h = ground arith
no_sub term s h = ground arith

lamp-deref : (sm : Machine) → some lamp ≡ some sm → (s : State) × (deref sm sm.curr_state ≡ some s)
lamp-deref sm h =
    let same : lamp ≡ sm = ground arith in
    subst (λ (x : Machine). (s : State) × (deref x x.curr_state ≡ some s)) same (dark, refl)

lamp-no_sub :
    (sm : Machine) (p : StatePtr) (s : State)
    → some lamp ≡ some sm
    → deref sm (some p) ≡ some s
    → s.sub_sm ≡ none
lamp-no_sub sm p s h d =
    let same : lamp ≡ sm = ground arith in
    no_sub p s (subst (λ (x : Machine). deref x (some p) ≡ some s) (sym same) d)

-- Its sub-machine is the lamp, machine 1.
abbrev shining : State
shining = record dark { id = pos 1; sub_sm = some 1 }

abbrev tower : Machine
tower = record lamp { states = (pos 1, shining) ∷ [] }

abbrev coast : World
coast = record { machines = tower ∷ lamp ∷ []; log = [] }

abbrev height : ℕ → ℕ
height m = 1 - m

tower_sub :
    (p : StatePtr) (s : State) (k : ℕ) → deref tower (some p) ≡ some s → s.sub_sm ≡ some k → 1 ≡ k
tower_sub (user id) s k d e = ground arith
tower_sub term s k d e = ground arith

coast-Good : Good height coast
coast-Good = record { valid = valid; below = below }
  where
    valid :
        (m : ℕ) (sm : Machine)
        → machine m coast ≡ some sm
        → sm.is_running ≡ true
        → (s : State) × (deref sm sm.curr_state ≡ some s)
    valid zero sm h r =
        let same : tower ≡ sm = ground arith in
        subst (λ (x : Machine). (s : State) × (deref x x.curr_state ≡ some s)) same (shining, refl)
    valid (suc zero) sm h r = lamp-deref sm h
    valid (suc (suc m)) sm h r = absurd (cc)

    below :
        (m : ℕ) (sm : Machine) (p : StatePtr) (s : State) (k : ℕ)
        → machine m coast ≡ some sm
        → deref sm (some p) ≡ some s
        → s.sub_sm ≡ some k
        → (height k < height m) × (k < length coast.machines)
    below zero sm p s k h d e =
        let same : tower ≡ sm = ground arith in
        let the_lamp =
          tower_sub p s k (subst (λ (x : Machine). deref x (some p) ≡ some s) (sym same) d) e in
        (omega (arith, the_lamp), omega (arith, the_lamp))
    below (suc zero) sm p s k h d e = let none_there = lamp-no_sub sm p s h d in absurd (cc)
    below (suc (suc m)) sm p s k h d e = absurd (cc)

run_total_example : Returns height 0 coast (run 2 0 press coast)
run_total_example = run_total height 2 0 press coast-Good (omega arith) (omega arith)

-- The lamp, not the tower, takes the press.
lamp_switched :
    (run 2 0 press coast >>= λ r. machine 1 r.1 >>= λ sm. sm.curr_state) ≡ some (user (pos 2))
unfolding run run_body handle after_sub choose target find_route find_state matches move_to
    enter_sub lower moved move_log is_terminated
lamp_switched = refl

refused : Serves press refuse → ⊥
refused (id, g) = absurd (ground arith)

not_null : pos 2 ≢ null_state_id
not_null h = absurd (ground arith)

run_moves_example :
    run 1 0 press room
    ≡ some (
      true,
      record {
        machines =
            record lamp { last_state = some (user (pos 1)); curr_state = some (user (pos 2)) }
            ∷ lamp
            ∷ [];
        log =
            called 0 2 press
            ∷ called 0 5 press
            ∷ called 0 3 press
            ∷ changed 0 (pos 1) (pos 2) press
            ∷ [];
      },
    )
run_moves_example =
    run_moves 0 0 press lamp dark lit (pos 2) (some 5) (user (pos 2)) lamp-Ready refl
      (by_route (refuse ∷ []) switch [] refl refl (refused, tt) (inr refl, refl))
      (named (pos 2) lit not_null refl) refl

abbrev plan : List Call
plan =
    new_states (pos 1) none none
    ∷ new_states (pos 2) none none
    ∷ add_routes (pos 1) (pos 10) (pos 2) none none
    ∷ []

built_routes_lead_example : (p : StatePtr) × (target (pos 2) (build new_machine plan) ≡ some p)
unfolding find_route matches build new_machine new_state add_route find_state
built_routes_lead_example =
    built_routes_lead plan (pos 1)
      (record term_state {
        id = pos 1;
        routes =
            record { event_id = pos 10; next_state_id = pos 2; guard = none; action = none } ∷ [];
      })
      press refl refl
