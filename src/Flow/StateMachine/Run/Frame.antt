-- ===== src/Flow/StateMachine/Run/Frame.antt =====
-- Machines whose sub-machines form no cycle, and what a call may change of them.
use cpp_tbox.Common.{
  ℕ, ◌<◌, ◌≤◌, ◌≡◌, refl, sym, ap, ◌∙◌, true, Option, none, some, ◌==◌, if◌then◌else◌, length,
  length-set, set, get_elem?-set, lt_of_get_elem?, arith, subst, ℕ_discrete,
}
use cpp_tbox.Common.Int.{lookup_int}
use cpp_tbox.Flow.StateMachine.{Event, ActionFunc, State, StatePtr, user, term, Machine, deref}
use cpp_tbox.Flow.StateMachine.Run.{World, machine, put, act}

-- The current state of each machine that runs can be found, and each state's sub-machine exists and has a
-- lower rank than its owner.
pub record Good (rank : ℕ → ℕ) (w : World) : Type 0 where
  pub valid :
      (m : ℕ) (sm : Machine)
      → machine m w ≡ some sm
      → sm.is_running ≡ true
      → (s : State) × (deref sm sm.curr_state ≡ some s)
  pub below :
      (m : ℕ) (sm : Machine) (p : StatePtr) (s : State) (k : ℕ)
      → machine m w ≡ some sm
      → deref sm (some p) ≡ some s
      → s.sub_sm ≡ some k
      → (rank k < rank m) × (k < length w.machines)

-- After a call of machine `k`: only machines of its rank or below may have changed.
pub record Ran (rank : ℕ → ℕ) (k : ℕ) (w w' : World) : Type 0 where
  pub good : Good rank w'
  pub frame : (j : ℕ) → rank k < rank j → machine j w' ≡ machine j w
  pub size : length w'.machines ≡ length w.machines

pub Ran-refl : {rank : ℕ → ℕ} (k : ℕ) {w : World} → Good rank w → Ran rank k w w
Ran-refl k g = record { good = g; frame = λ j h. refl; size = refl }

-- A call of a sub-machine within a call of its owner.
pub Ran-trans :
    {rank : ℕ → ℕ} (m k : ℕ) {u v w : World}
    → rank k ≤ rank m
    → Ran rank m u v
    → Ran rank k v w
    → Ran rank m u w
Ran-trans m k h a b = record {
  good = b.good;
  frame = λ j l. b.frame j (omega arith) ∙ a.frame j l;
  size = b.size ∙ a.size;
}

deref-congr :
    (sm sm' : Machine) (p : Option StatePtr) → sm'.states ≡ sm.states → deref sm' p ≡ deref sm p
deref-congr sm sm' none e = refl
deref-congr sm sm' (some term) e = refl
deref-congr sm sm' (some (user id)) e = ap (lookup_int id) e

machine-put :
    (m j : ℕ) (sm : Machine) (w : World)
    → m < length w.machines
    → machine j (put m sm w) ≡ (if m == j then some sm else machine j w)
machine-put m j sm w h = get_elem?-set w.machines m j sm h

-- Writing a machine whose states are as before and whose current pointer can be followed.
pub put-Ran :
    {rank : ℕ → ℕ} (m : ℕ) {sm : Machine} (sm' : Machine) {w : World}
    → Good rank w
    → machine m w ≡ some sm
    → sm'.states ≡ sm.states
    → (sm'.is_running ≡ true → (s : State) × (deref sm' sm'.curr_state ≡ some s))
    → Ran rank m w (put m sm' w)
put-Ran {rank} m {sm} sm' {w} g e st ok = record {
  good = record {
    valid = λ j x. by_index j x (ℕ_discrete m j);
    below = λ j x p s k. below_by_index j x p s k (ℕ_discrete m j);
  };
  frame = λ j h. ground (arith, machine-put m j sm' w inside);
  size = length-set w.machines m sm';
}
  where
    inside : m < length w.machines
    inside = lt_of_get_elem? w.machines m e

    written : (j : ℕ) (x : Machine) → m ≡ j → machine j (put m sm' w) ≡ some x → sm' ≡ x
    written j x i f = ground (arith, machine-put m j sm' w inside)

    by_index :
        (j : ℕ) (x : Machine)
        → Dec (m ≡ j)
        → machine j (put m sm' w) ≡ some x
        → x.is_running ≡ true
        → (s : State) × (deref x x.curr_state ≡ some s)
    by_index j x (yes i) f r =
        let same = written j x i f in
        subst (λ (y : Machine). (s : State) × (deref y y.curr_state ≡ some s)) same
          (ok (ap (λ (y : Machine). y.is_running) same ∙ r))
    by_index j x (no i) f r = g.valid j x (ground (arith, machine-put m j sm' w inside)) r

    below_by_index :
        (j : ℕ) (x : Machine) (p : StatePtr) (s : State) (k : ℕ)
        → Dec (m ≡ j)
        → machine j (put m sm' w) ≡ some x
        → deref x (some p) ≡ some s
        → s.sub_sm ≡ some k
        → (rank k < rank j) × (k < length (set w.machines m sm'))
    below_by_index j x p s k (yes i) f d q =
        let same = written j x i f in
        let b =
          g.below m sm p s k e
            (sym (deref-congr sm x (some p) (ap (λ (y : Machine). y.states) (sym same) ∙ st)) ∙ d)
            q in
        (subst (λ n. rank k < rank n) i b.0, omega (arith, b, length-set w.machines m sm'))
    below_by_index j x p s k (no i) f d q =
        let b = g.below j x p s k (ground (arith, machine-put m j sm' w inside)) d q in
        (b.0, omega (arith, b, length-set w.machines m sm'))

-- The log is not part of the machines.
pub act-Ran :
    {rank : ℕ → ℕ} (m k : ℕ) (f : ActionFunc) (e : Event) {w w' : World}
    → Ran rank m w w'
    → Ran rank m w (act k f e w')
act-Ran m k f e r = record {
  good = record { valid = r.good.valid; below = r.good.below };
  frame = r.frame;
  size = r.size;
}
