-- ===== src/Flow/StateMachine/Run.antt =====
-- `start`, `stop` and `run` of modules/flow/state_machine.cpp over all the machines. A call of a
-- sub-machine takes one unit of fuel; `none` is a call that ran out of it or followed nullptr.
pub mod Asks
pub mod Frame
pub mod Total
pub mod Move
mod Tests
use cpp_tbox.Common.{
  ℕ, zero, suc, ◌+◌, ◌-◌, Bool, true, false, not, ◌&&◌, ◌||◌, List, [], ◌∷◌, ◌++◌, Option, none,
  some, ◌==◌, if◌then◌else◌, get_elem?, set,
}
use cpp_tbox.Common.Int.{ℤ, eq_int, lookup_int}
use cpp_tbox.Common.Maybe.{◌>>=◌}
use cpp_tbox.Flow.StateMachine.{
  null_state_id, term_state_id, any_event_id, Event, no_event, ActionFunc, GuardFunc, EventFunc,
  Route, State, StatePtr, user, term, Machine, is_some, find_state, deref, id_of, is_terminated,
}

-- What a machine did that its user can see: a callback of machine `m` run on an event, or the
-- state-changed callback.
pub data Entry : Type 0 where
  called : ℕ → ℕ → Event → Entry
  changed : ℕ → ℤ → ℤ → Event → Entry

pub record World : Type 0 where
  pub machines : List Machine
  pub log : List Entry

abbrev pub Reply : Type 0
Reply = Option (Bool × World)

abbrev pub machine : ℕ → World → Option Machine
machine m w = get_elem? w.machines m

abbrev pub put : ℕ → Machine → World → World
put m sm w = record w { machines = set w.machines m sm }

abbrev pub entry_of : ℕ → ActionFunc → Event → List Entry
entry_of m none e = []
entry_of m (some f) e = called m f e ∷ []

abbrev pub act : ℕ → ActionFunc → Event → World → World
act m f e w = record w { log = w.log ++ entry_of m f e }

-- The enter action runs with `cb_level_` raised; its state is then entered.
begin : ℕ → Machine → StatePtr → State → World → World
begin m sm p s w =
    act m s.enter_action no_event (put m (record sm { is_running = true; curr_state = some p }) w)

start_sub : (ℕ → World → Reply) → Option ℕ → World → Reply
start_sub start none w = some (true, w)
start_sub start (some k) w = do r ← start k w; some (true, r.1)

pub start_body : (ℕ → World → Reply) → ℕ → World → Reply
unfolding begin start_sub find_state
start_body start m w = do
  sm ← machine m w
  if sm.is_running || not (sm.cb_level == 0)
      then some (false, w)
      else elim (find_state sm.init_state_id sm) [
        | none ↦ some (false, w)
        | some p ↦ do s ← deref sm (some p); start_sub start s.sub_sm (begin m sm p s w)
      ]

pub start : ℕ → ℕ → World → Reply
start zero m w = none
start (suc fuel) m w = start_body (start fuel) m w

halt : ℕ → Machine → State → World → World
halt m sm s w =
    act m s.exit_action no_event (put m (record sm { is_running = false; curr_state = none }) w)

pub stop : ℕ → World → Option World
unfolding halt
stop m w = do
  sm ← machine m w
  if not sm.is_running || not (sm.cb_level == 0)
      then some w
      else do s ← deref sm sm.curr_state; some (halt m sm s w)

-- The event function that is run, if any, and the state that it asks for.
abbrev pub handler : State → Event → Option EventFunc
handler s e = elim (lookup_int e.id s.events) [ none ↦ s.default_event | some f ↦ some f ]

abbrev pub wanted : Option EventFunc → Event → ℤ
wanted none e = null_state_id
wanted (some f) e = f.result e

abbrev pub handler_name : Option EventFunc → ActionFunc
handler_name none = none
handler_name (some f) = some f.name

abbrev pub passes : GuardFunc → Event → Bool
passes none e = true
passes (some g) e = g e

unfoldable pub matches : Event → Route → Bool
matches e r = (eq_int r.event_id any_event_id || eq_int r.event_id e.id) && passes r.guard e

-- `std::find_if` over the routes.
unfoldable pub find_route : Event → List Route → Option Route
find_route e [] = none
find_route e (r ∷ rs) = if matches e r then some r else find_route e rs

-- Where to go, and by which action; `none` stays. An event function that asks for a state goes
-- before the routes.
pub choose : State → Event → Option (ℤ × ActionFunc)
choose s e =
    if eq_int (wanted (handler s e) e) null_state_id
    then elim (find_route e s.routes) [ none ↦ none | some r ↦ some (r.next_state_id, r.action) ]
    else some (wanted (handler s e) e, none)

unfoldable pub target : ℤ → Machine → Option StatePtr
unfolding find_state
target id sm = elim (find_state id sm) [
  | none ↦ if eq_int id term_state_id then some term else none
  | some p ↦ some p
]

-- The callbacks of a move from `s` to `t`, in order.
pub move_log : ℕ → Machine → State → ActionFunc → State → Event → List Entry
move_log m sm s action t e =
    entry_of m s.exit_action e
    ++ (entry_of m action e
        ++ (entry_of m t.enter_action e
            ++ (if sm.state_changed_cb then changed m s.id t.id e ∷ [] else [])))

-- The new state's sub-machine is started and given the event.
enter_sub :
    (ℕ → World → Reply) → (ℕ → Event → World → Reply) → Option ℕ → Event → World → Option World
enter_sub starts runs none e w = some w
enter_sub starts runs (some k) e w = do r ← starts k w; r' ← runs k e r.1; some r'.1

-- `--cb_level_` at the end of a move.
lower : ℕ → World → Reply
lower m w = do sm ← machine m w; some (true, put m (record sm { cb_level = sm.cb_level - 1 }) w)

-- The machine when its move is made, before the new state's sub-machine runs.
pub moved : Machine → StatePtr → Machine
moved sm p = record sm {
  last_state = sm.curr_state;
  curr_state = some p;
  next_state = none;
  cb_level = sm.cb_level + 1;
}

move_to :
    (ℕ → World → Reply)
    → (ℕ → Event → World → Reply)
    → ℕ
    → Event
    → Machine
    → State
    → ActionFunc
    → StatePtr
    → World
    → Reply
move_to starts runs m e sm s action p w = do
  t ← deref sm (some p)
  w' ← enter_sub starts runs t.sub_sm e (record {
    machines = set w.machines m (moved sm p);
    log = w.log ++ move_log m sm s action t e;
  })
  lower m w'

-- `run` from the event functions on. `sm` is the machine and `s` its current state.
pub handle :
    (ℕ → World → Reply) → (ℕ → Event → World → Reply) → ℕ → Event → Machine → State → World → Reply
handle starts runs m e sm s w =
    let w' = act m (handler_name (handler s e)) e w in
    elim (choose s e) [
      | none ↦ some (false, w')
      | some (id, action) ↦ elim (target id sm) [
        | none ↦ some (false, put m (record sm { next_state = none }) w')
        | some p ↦ move_to starts runs m e sm s action p w'
      ]
    ]

-- After the sub-machine `k` has had the event: unless it has ended, its reply is the reply.
after_sub : (ℕ → World → Reply) → (ℕ → Event → World → Reply) → ℕ → Event → ℕ → Bool × World → Reply
after_sub starts runs m e k (ret, w) = do
  ksm ← machine k w
  if not (is_terminated ksm) then some (ret, w) else do
    w' ← stop k w
    sm ← machine m w'
    s ← deref sm sm.curr_state
    handle starts runs m e sm s w'

pub run_body : (ℕ → World → Reply) → (ℕ → Event → World → Reply) → ℕ → Event → World → Reply
run_body starts runs m e w = do
  sm ← machine m w
  if not sm.is_running || not (sm.cb_level == 0) then some (false, w) else do
    s ← deref sm sm.curr_state
    elim s.sub_sm [
      | none ↦ handle starts runs m e sm s w
      | some k ↦ do r ← runs k e w; after_sub starts runs m e k r
    ]

pub run : ℕ → ℕ → Event → World → Reply
run zero m e w = none
run (suc fuel) m e w = run_body (start fuel) (run fuel) m e w

-- `restart`
pub restart : ℕ → ℕ → World → Reply
restart fuel m w = do w' ← stop m w; start fuel m w'
