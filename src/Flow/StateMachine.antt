-- ===== src/Flow/StateMachine.antt =====
-- modules/flow/state_machine.cpp, state_machine.h and event.h: hierarchical state machines.
-- The machines stand in one list, `World.machines`, and refer to sub-machines by index, so that
-- sharing and cycles can be expressed. A callback is known by a number: running it appends an entry
-- to the log. Guards and event functions are functions of the event. Names and labels serve only
-- the log and `toJson`, and are left out.
pub mod Run
pub mod Build
use cpp_tbox.Common.{
  ℕ, zero, suc, ◌+◌, ◌-◌, Bool, true, false, not, ◌&&◌, ◌||◌, List, [], ◌∷◌, ◌++◌, Option, none,
  some, ◌==◌, if◌then◌else◌, get_elem?, set,
}
use cpp_tbox.Common.Int.{ℤ, pos, negsuc, eq_int, lookup_int, insert_int}

-- `NULL_STATE_ID`, `TERM_STATE_ID`, `ANY_EVENT_ID`
abbrev pub null_state_id : ℤ
null_state_id = negsuc 0

abbrev pub term_state_id : ℤ
term_state_id = pos 0

abbrev pub any_event_id : ℤ
any_event_id = pos 0

-- `extra` is an address.
pub record Event : Type 0 where
  pub id : ℤ
  pub extra : ℕ

-- `Event()`
abbrev pub no_event : Event
no_event = record { id = pos 0; extra = 0 }

-- An `ActionFunc` is a number, and `none` is nullptr.
abbrev pub ActionFunc : Type 0
ActionFunc = Option ℕ

abbrev pub GuardFunc : Type 0
GuardFunc = Option (Event → Bool)

pub record EventFunc : Type 0 where
  pub name : ℕ
  pub result : Event → ℤ

pub record Route : Type 0 where
  pub event_id : ℤ
  pub next_state_id : ℤ
  pub guard : GuardFunc
  pub action : ActionFunc

pub record State : Type 0 where
  pub id : ℤ
  pub enter_action : ActionFunc
  pub exit_action : ActionFunc
  pub sub_sm : Option ℕ
  pub routes : List Route
  pub events : List (ℤ × EventFunc)
  pub default_event : Option EventFunc

-- A `State *`: into the map `states_`, or to the static `_term_state_`.
pub data StatePtr : Type 0 where
  user : ℤ → StatePtr
  term : StatePtr

pub record Machine : Type 0 where
  pub init_state_id : ℤ
  pub is_running : Bool
  pub last_state : Option StatePtr
  pub curr_state : Option StatePtr
  pub next_state : Option StatePtr
  pub states : List (ℤ × State)
  pub state_changed_cb : Bool
  pub cb_level : ℕ

unfoldable pub new_machine : Machine
new_machine = record {
  init_state_id = null_state_id;
  is_running = false;
  last_state = none;
  curr_state = none;
  next_state = none;
  states = [];
  state_changed_cb = false;
  cb_level = 0;
}

abbrev pub term_state : State
term_state = record {
  id = term_state_id;
  enter_action = none;
  exit_action = none;
  sub_sm = none;
  routes = [];
  events = [];
  default_event = none;
}

abbrev pub is_some {ℓ} : {A : Type ℓ} → Option A → Bool
is_some none = false
is_some (some a) = true

unfoldable pub find_state : ℤ → Machine → Option StatePtr
find_state id sm =
    if eq_int id null_state_id
    then none
    else if is_some (lookup_int id sm.states)
    then some (user id)
    else none

-- Following a pointer; `none` for nullptr and for an id that is not in the map.
abbrev pub deref : Machine → Option StatePtr → Option State
deref sm none = none
deref sm (some term) = some term_state
deref sm (some (user id)) = lookup_int id sm.states

unfoldable pub new_state : ℤ → ActionFunc → ActionFunc → Machine → Bool × Machine
new_state state_id enter_action exit_action sm =
    if sm.is_running
    then (false, sm)
    else if is_some (lookup_int state_id sm.states)
    then (false, sm)
    else (
      true,
      record sm {
        states = sm.states ++ ((state_id, fresh) ∷ []);
        init_state_id =
            if eq_int sm.init_state_id null_state_id then state_id else sm.init_state_id;
      },
    )
  where
    fresh : State
    fresh = record term_state {
      id = state_id;
      enter_action = enter_action;
      exit_action = exit_action;
    }

-- Writing through the pointer that `find_state` gave.
abbrev update_state : ℤ → (State → State) → Machine → Machine
update_state id f sm = elim (lookup_int id sm.states) [
  | none ↦ sm
  | some s ↦ record sm { states = insert_int id (f s) sm.states }
]

unfoldable pub add_route : ℤ → ℤ → ℤ → GuardFunc → ActionFunc → Machine → Bool × Machine
unfolding find_state
add_route from event_id to guard action sm =
    if sm.is_running
    then (false, sm)
    else if not (is_some (find_state from sm))
    then (false, sm)
    else if not (eq_int to term_state_id) && not (is_some (find_state to sm))
    then (false, sm)
    else (true, update_state from (λ s. record s { routes = s.routes ++ (route ∷ []) }) sm)
  where
    route : Route
    route = record { event_id = event_id; next_state_id = to; guard = guard; action = action }

unfoldable pub add_event : ℤ → ℤ → Option EventFunc → Machine → Bool × Machine
unfolding find_state
add_event state_id event_id none sm = (false, sm)
add_event state_id event_id (some action) sm =
    if sm.is_running
    then (false, sm)
    else if not (is_some (find_state state_id sm))
    then (false, sm)
    else if eq_int event_id any_event_id
    then (true, update_state state_id (λ s. record s { default_event = some action }) sm)
    else (
      true,
      update_state state_id (λ s. record s { events = insert_int event_id action s.events }) sm,
    )

unfoldable pub set_init_state : ℤ → Machine → Machine
set_init_state id sm = record sm { init_state_id = id }

unfoldable pub set_sub_state_machine : ℤ → ℕ → Machine → Bool × Machine
unfolding find_state
set_sub_state_machine state_id sub sm =
    if sm.is_running
    then (false, sm)
    else if not (is_some (find_state state_id sm))
    then (false, sm)
    else (true, update_state state_id (λ s. record s { sub_sm = some sub }) sm)

abbrev pub id_of : Machine → Option StatePtr → ℤ
id_of sm p = elim (deref sm p) [ none ↦ null_state_id | some s ↦ s.id ]

abbrev pub current_state : Machine → ℤ
current_state sm = id_of sm sm.curr_state

abbrev pub last_state : Machine → ℤ
last_state sm = id_of sm sm.last_state

abbrev pub next_state : Machine → ℤ
next_state sm = id_of sm sm.next_state

pub is_terminated : Machine → Bool
is_terminated sm = elim (deref sm sm.curr_state) [
  | none ↦ false
  | some s ↦ eq_int s.id term_state_id
]
