-- ===== src/Flow/StateMachine/Run/Asks.antt =====
-- Which move an event asks for, and which state it leads to, said without the search of the code.
use cpp_tbox.Common.{
  ◌≡◌, ◌≢◌, refl, true, false, List, [], ◌∷◌, ◌++◌, none, some, ◌⊎◌, inl, inr, Bool-cases, arith,
}
use cpp_tbox.Common.Int.{ℤ, eq_int, eq_int_iff, lookup_int}
use cpp_tbox.Flow.StateMachine.{
  null_state_id, term_state_id, any_event_id, Event, ActionFunc, Route, EventFunc, State, StatePtr,
  user, term, term_state, Machine, find_state, deref,
}
use cpp_tbox.Flow.StateMachine.Run.{handler, wanted, passes, matches, find_route, choose, target}

-- A route for any event or for this one, whose guard lets it pass.
abbrev pub Serves : Event → Route → Type 0
Serves e r = ((r.event_id ≡ any_event_id) ⊎ (r.event_id ≡ e.id)) × (passes r.guard e ≡ true)

abbrev pub NoneServes : Event → List Route → Type 0
NoneServes e [] = Unit {0}
NoneServes e (r ∷ rs) = (Serves e r → ⊥) × NoneServes e rs

-- The event function asks for a state; or it does not, or there is none, and the first route that serves does.
pub data Asks (s : State) (e : Event) : ℤ → ActionFunc → Type 0 where
  by_event :
      (f : EventFunc)
      → handler s e ≡ some f
      → f.result e ≢ null_state_id
      → Asks s e (f.result e) none
  by_route :
      (before : List Route) (r : Route) (after : List Route)
      → wanted (handler s e) e ≡ null_state_id
      → s.routes ≡ before ++ (r ∷ after)
      → NoneServes e before
      → Serves e r
      → Asks s e r.next_state_id r.action

-- The id is that of a state of the machine, or the terminal one's, which the machine has not redefined.
pub data Leads (sm : Machine) : ℤ → StatePtr → State → Type 0 where
  named :
      (id : ℤ) (t : State)
      → id ≢ null_state_id
      → lookup_int id sm.states ≡ some t
      → Leads sm id (user id) t
  at_end : lookup_int term_state_id sm.states ≡ none → Leads sm term_state_id term term_state

Serves-matches : (e : Event) (r : Route) → Serves e r → matches e r ≡ true
unfolding matches
Serves-matches e r (inl h, g) = ground (arith, (eq_int_iff r.event_id any_event_id).1 h)
Serves-matches e r (inr h, g) = ground (arith, (eq_int_iff r.event_id e.id).1 h)

matches-Serves : (e : Event) (r : Route) → matches e r ≡ true → Serves e r
unfolding matches
matches-Serves e r h = elim (Bool-cases (eq_int r.event_id any_event_id)) [
  | inl b ↦ (inl ((eq_int_iff r.event_id any_event_id).0 b), ground arith)
  | inr b ↦ (inr ((eq_int_iff r.event_id e.id).0 (ground arith)), ground arith)
]

find_route-first :
    (e : Event) (before : List Route) (r : Route) (after : List Route)
    → NoneServes e before
    → Serves e r
    → find_route e (before ++ (r ∷ after)) ≡ some r
unfolding find_route
find_route-first e [] r after h k = rw (Serves-matches e r k) refl
find_route-first e (x ∷ before) r after (h, hs) k = elim (Bool-cases (matches e x)) [
  | inl b ↦ absurd (h (matches-Serves e x b))
  | inr b ↦ rw b (find_route-first e before r after hs k)
]

pub choose-Asks :
    (s : State) (e : Event) (id : ℤ) (action : ActionFunc)
    → Asks s e id action
    → choose s e ≡ some (id, action)
unfolding choose
choose-Asks s e _ _ (by_event f h ne) =
    let other : eq_int (f.result e) null_state_id ≡ false =
      ground (arith, eq_int_iff (f.result e) null_state_id) in
    rw h (rw other refl)
choose-Asks s e _ _ (by_route before r after w eq none_before serves) =
    let stay : eq_int (wanted (handler s e) e) null_state_id ≡ true =
      (eq_int_iff (wanted (handler s e) e) null_state_id).1 w in
    rw stay (rw eq (rw (find_route-first e before r after none_before serves) refl))

pub target-Leads :
    (sm : Machine) (id : ℤ) (p : StatePtr) (t : State) → Leads sm id p t → target id sm ≡ some p
unfolding target find_state
target-Leads sm _ _ _ (named id t ne h) =
    let other : eq_int id null_state_id ≡ false = ground (arith, eq_int_iff id null_state_id) in
    rw (other, target) (rw h refl)
target-Leads sm _ _ _ (at_end h) = rw (h, target) refl

pub deref-Leads :
    (sm : Machine) (id : ℤ) (p : StatePtr) (t : State)
    → Leads sm id p t
    → deref sm (some p) ≡ some t
deref-Leads sm _ _ _ (named id t ne h) = h
deref-Leads sm _ _ _ (at_end h) = refl
