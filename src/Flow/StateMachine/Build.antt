-- ===== src/Flow/StateMachine/Build.antt =====
-- Building a machine: `newState`, `addRoute`, `addEvent`, `setInitState` and `setSubStateMachine`
-- keep every route's target in the machine.
use cpp_tbox.Common.{
  ℕ, ◌≡◌, Bool, true, false, not, ◌&&◌, List, [], ◌∷◌, ◌++◌, Option, none, some, ◌⊎◌, inl, inr,
  Bool-cases, Option-cases, if_elim, arith, subst,
}
use cpp_tbox.Common.Int.{ℤ, eq_int, lookup_int, insert_int}
use cpp_tbox.Flow.StateMachine.{
  null_state_id, term_state_id, any_event_id, Event, ActionFunc, GuardFunc, Route, EventFunc, State,
  StatePtr, Machine, is_some, new_machine, new_state, add_route, add_event, set_init_state,
  set_sub_state_machine, update_state, term_state, find_state,
}
use cpp_tbox.Flow.StateMachine.Run.{target, find_route, matches}

abbrev States : Type 0
States = List (ℤ × State)

-- A route may lead to the terminal state, and to a state of the machine other than -1.
abbrev pub LeadsIn : States → ℤ → Type 0
LeadsIn states id =
    (eq_int id term_state_id ≡ true)
    ⊎ ((eq_int id null_state_id ≡ false) × (is_some (lookup_int id states) ≡ true))

abbrev pub RoutesIn : States → List Route → Type 0
RoutesIn states [] = Unit {0}
RoutesIn states (r ∷ rs) = LeadsIn states r.next_state_id × RoutesIn states rs

-- The routes of all the states of the second list lead into the first.
abbrev pub ClosedIn : States → States → Type 0
ClosedIn states [] = Unit {0}
ClosedIn states ((k, s) ∷ l) = RoutesIn states s.routes × ClosedIn states l

-- More states, or the same with other contents.
Extends : States → States → Type 0
Extends new old = (id : ℤ) → is_some (lookup_int id old) ≡ true → is_some (lookup_int id new) ≡ true

RoutesIn-mono :
    (new old : States) (rs : List Route) → Extends new old → RoutesIn old rs → RoutesIn new rs
unfolding Extends
RoutesIn-mono new old [] x h = tt
RoutesIn-mono new old (r ∷ rs) x (inl h, t) = (inl h, RoutesIn-mono new old rs x t)
RoutesIn-mono new old (r ∷ rs) x (inr h, t) =
    (inr (h.0, x r.next_state_id h.1), RoutesIn-mono new old rs x t)

ClosedIn-mono : (new old l : States) → Extends new old → ClosedIn old l → ClosedIn new l
ClosedIn-mono new old [] x h = tt
ClosedIn-mono new old ((k, s) ∷ l) x h =
    (RoutesIn-mono new old s.routes x h.0, ClosedIn-mono new old l x h.1)

Extends-append : (states : States) (k : ℤ) (s : State) → Extends (states ++ (k, s) ∷ []) states
unfolding Extends
Extends-append [] k s id h = absurd (cc)
Extends-append ((j, t) ∷ l) k s id h = ground (arith, Extends-append l k s id)

Extends-insert : (states : States) (k : ℤ) (s : State) → Extends (insert_int k s states) states
unfolding Extends
Extends-insert [] k s id h = absurd (cc)
Extends-insert ((j, t) ∷ l) k s id h = ground (arith, Extends-insert l k s id)

ClosedIn-append :
    (states l : States) (k : ℤ) (s : State)
    → ClosedIn states l
    → RoutesIn states s.routes
    → ClosedIn states (l ++ (k, s) ∷ [])
ClosedIn-append states [] k s h r = (r, tt)
ClosedIn-append states ((j, t) ∷ l) k s h r = (h.0, ClosedIn-append states l k s h.1 r)

ClosedIn-insert :
    (states l : States) (k : ℤ) (s : State)
    → ClosedIn states l
    → RoutesIn states s.routes
    → ClosedIn states (insert_int k s l)
ClosedIn-insert states [] k s h r = (r, tt)
ClosedIn-insert states ((j, t) ∷ l) k s h r = elim (Bool-cases (eq_int j k)) [
  | inl e ↦ rw e (r, h.1)
  | inr e ↦ rw e (h.0, ClosedIn-insert states l k s h.1 r)
]

RoutesIn-lookup :
    (states l : States) (k : ℤ) {s : State}
    → ClosedIn states l
    → lookup_int k l ≡ some s
    → RoutesIn states s.routes
RoutesIn-lookup states [] k h e = absurd (cc)
RoutesIn-lookup states ((j, t) ∷ l) k {s} h e = elim (Bool-cases (eq_int j k)) [
  | inl q ↦
      let same : t ≡ s = ground arith in subst (λ (u : State). RoutesIn states u.routes) same h.0
  | inr q ↦ RoutesIn-lookup states l k {s = s} h.1 (ground arith)
]

RoutesIn-append :
    (states : States) (rs : List Route) (r : Route)
    → RoutesIn states rs
    → LeadsIn states r.next_state_id
    → RoutesIn states (rs ++ r ∷ [])
RoutesIn-append states [] r h q = (q, tt)
RoutesIn-append states (x ∷ rs) r h q = (h.0, RoutesIn-append states rs r h.1 q)

pub record IsClosed (sm : Machine) : Type 0 where
  pub routes_in : ClosedIn sm.states sm.states

-- Rewriting one state to one whose routes lead into the machine.
update-IsClosed :
    (k : ℤ) (f : State → State) {sm : Machine}
    → IsClosed sm
    → ((s : State) → RoutesIn sm.states s.routes → RoutesIn sm.states (f s).routes)
    → IsClosed (update_state k f sm)
update-IsClosed k f {sm} h keep = elim (Option-cases (lookup_int k sm.states)) [
  | inl e ↦ rw (e, update_state) h
  | inr (s, e) ↦
      rw (e, update_state)
        (record {
          routes_in =
              ClosedIn-mono (insert_int k (f s) sm.states) sm.states (insert_int k (f s) sm.states)
                (Extends-insert sm.states k (f s))
                (ClosedIn-insert sm.states sm.states k (f s) h.routes_in
                  (keep s (RoutesIn-lookup sm.states sm.states k h.routes_in e)));
        })
]

-- A user's calls before the machine is started.
pub data Call : Type 0 where
  new_states : ℤ → ActionFunc → ActionFunc → Call
  add_routes : ℤ → ℤ → ℤ → GuardFunc → ActionFunc → Call
  add_events : ℤ → ℤ → Option EventFunc → Call
  set_inits : ℤ → Call
  set_subs : ℤ → ℕ → Call

unfoldable pub build : Machine → List Call → Machine
build sm [] = sm
build sm (new_states id enter exit ∷ calls) = build (new_state id enter exit sm).1 calls
build sm (add_routes from e to guard action ∷ calls) =
    build (add_route from e to guard action sm).1 calls
build sm (add_events id e action ∷ calls) = build (add_event id e action sm).1 calls
build sm (set_inits id ∷ calls) = build (set_init_state id sm) calls
build sm (set_subs id sub ∷ calls) = build (set_sub_state_machine id sub sm).1 calls

abbrev KeepsClosed : Bool × Machine → Type 0
KeepsClosed r = IsClosed r.1

new_state-IsClosed :
    (id : ℤ) (enter exit : ActionFunc) {sm : Machine}
    → IsClosed sm
    → IsClosed (new_state id enter exit sm).1
unfolding new_state
new_state-IsClosed id enter exit {sm} h =
    if_elim KeepsClosed sm.is_running (λ _. h)
      λ _.
        if_elim KeepsClosed (is_some (lookup_int id sm.states)) (λ _. h)
          λ _. record {
            routes_in =
                let s : State = record term_state {
                  id = id;
                  enter_action = enter;
                  exit_action = exit;
                } in
                ClosedIn-mono (sm.states ++ (id, s) ∷ []) sm.states (sm.states ++ (id, s) ∷ [])
                  (Extends-append sm.states id s)
                  (ClosedIn-append sm.states sm.states id s h.routes_in tt);
          }

add_event-IsClosed :
    (id e : ℤ) (action : Option EventFunc) {sm : Machine}
    → IsClosed sm
    → IsClosed (add_event id e action sm).1
unfolding add_event
add_event-IsClosed id e none {sm} h = h
add_event-IsClosed id e (some f) {sm} h =
    if_elim KeepsClosed sm.is_running (λ _. h)
      λ _.
        if_elim KeepsClosed (not (is_some (find_state id sm))) (λ _. h)
          λ _.
            if_elim KeepsClosed (eq_int e any_event_id)
              (λ _. update-IsClosed id (λ s. record s { default_event = some f }) h (λ s r. r))
              (λ _.
                update-IsClosed id (λ s. record s { events = insert_int e f s.events }) h
                  (λ s r. r))

set_sub-IsClosed :
    (id : ℤ) (sub : ℕ) {sm : Machine} → IsClosed sm → IsClosed (set_sub_state_machine id sub sm).1
unfolding set_sub_state_machine
set_sub-IsClosed id sub {sm} h =
    if_elim KeepsClosed sm.is_running (λ _. h)
      λ _.
        if_elim KeepsClosed (not (is_some (find_state id sm))) (λ _. h)
          λ _. update-IsClosed id (λ s. record s { sub_sm = some sub }) h (λ s r. r)

-- What `addRoute` checks of the target.
checked-LeadsIn :
    (to : ℤ) (sm : Machine)
    → (not (eq_int to term_state_id) && not (is_some (find_state to sm))) ≡ false
    → LeadsIn sm.states to
unfolding find_state
checked-LeadsIn to sm h = ground arith

add_route-IsClosed :
    (from e to : ℤ) (guard : GuardFunc) (action : ActionFunc) {sm : Machine}
    → IsClosed sm
    → IsClosed (add_route from e to guard action sm).1
unfolding add_route
add_route-IsClosed from e to guard action {sm} h =
    if_elim KeepsClosed sm.is_running (λ _. h)
      λ _.
        if_elim KeepsClosed (not (is_some (find_state from sm))) (λ _. h)
          λ _.
            if_elim KeepsClosed (not (eq_int to term_state_id) && not (is_some (find_state to sm)))
              (λ _. h)
              λ known.
                let r : Route = record {
                  event_id = e;
                  next_state_id = to;
                  guard = guard;
                  action = action;
                } in
                update-IsClosed from (λ s. record s { routes = s.routes ++ r ∷ [] }) h
                  (λ s rs. RoutesIn-append sm.states s.routes r rs (checked-LeadsIn to sm known))

build-IsClosed : (calls : List Call) {sm : Machine} → IsClosed sm → IsClosed (build sm calls)
unfolding build set_init_state
build-IsClosed [] h = h
build-IsClosed (new_states id enter exit ∷ calls) h =
    build-IsClosed calls (new_state-IsClosed id enter exit h)
build-IsClosed (add_routes from e to guard action ∷ calls) h =
    build-IsClosed calls (add_route-IsClosed from e to guard action h)
build-IsClosed (add_events id e action ∷ calls) h =
    build-IsClosed calls (add_event-IsClosed id e action h)
build-IsClosed (set_inits id ∷ calls) h = build-IsClosed calls (record { routes_in = h.routes_in })
build-IsClosed (set_subs id sub ∷ calls) h = build-IsClosed calls (set_sub-IsClosed id sub h)

new_machine-IsClosed : IsClosed new_machine
unfolding new_machine
new_machine-IsClosed = record { routes_in = tt }

route-LeadsIn :
    (states : States) (e : Event) (rs : List Route) {r : Route}
    → RoutesIn states rs
    → find_route e rs ≡ some r
    → LeadsIn states r.next_state_id
unfolding find_route
route-LeadsIn states e [] h f = absurd (cc)
route-LeadsIn states e (x ∷ rs) {r} h f = elim (Bool-cases (matches e x)) [
  | inl hit ↦
      let same : x ≡ r = ground arith in
      subst (λ (y : Route). LeadsIn states y.next_state_id) same h.0
  | inr miss ↦ route-LeadsIn states e rs {r = r} h.1 (ground arith)
]

LeadsIn-target :
    (id : ℤ) (sm : Machine) → LeadsIn sm.states id → (p : StatePtr) × (target id sm ≡ some p)
unfolding target find_state
LeadsIn-target id sm h = elim (Option-cases (target id sm)) [
  | inl e ↦ absurd (ground arith)
  | inr found ↦ found
]

-- Whatever calls of newState, addRoute, addEvent, setInitState and setSubStateMachine built a
-- machine, a route taken from one of its states leads to a state that is found, or to the terminal
-- state.
pub built_routes_lead :
    (calls : List Call) (key : ℤ) (s : State) (e : Event) {r : Route}
    → let sm = build new_machine calls in
      lookup_int key sm.states ≡ some s
      → find_route e s.routes ≡ some r
      → (p : StatePtr) × (target r.next_state_id sm ≡ some p)
built_routes_lead calls key s e {r} l f =
    let sm = build new_machine calls in
    let closed = (build-IsClosed calls new_machine-IsClosed).routes_in in
    LeadsIn-target r.next_state_id sm
      (route-LeadsIn sm.states e s.routes (RoutesIn-lookup sm.states sm.states key closed l) f)
