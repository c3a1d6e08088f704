-- ===== src/Flow/StateMachine/Run/Total.antt =====
-- With more fuel than the rank of the machine, `start`, `stop` and `run` return, and keep the
-- machines in order.
use cpp_tbox.Common.{
  ℕ, zero, suc, ◌-◌, ◌<◌, ◌≡◌, refl, sym, ap, ◌∙◌, Bool, true, false, not, ◌||◌, ◌++◌, Option, none,
  some, ◌==◌, length, set, lt_of_get_elem?, get_elem?-of_lt, inl, inr, Bool-cases, Option-cases,
  arith, subst,
}
use cpp_tbox.Common.Int.{ℤ, lookup_int}
use cpp_tbox.Flow.StateMachine.{
  Event, no_event, ActionFunc, State, StatePtr, term, Machine, find_state, term_state, deref,
  is_terminated,
}
use cpp_tbox.Flow.StateMachine.Run.{
  World, Reply, machine, put, act, begin, start_sub, start_body, start, halt, stop, choose, target,
  move_log, enter_sub, lower, moved, move_to, handle, after_sub, run_body, run, handler,
  handler_name,
}
use cpp_tbox.Flow.StateMachine.Run.Frame.{Good, Ran, Ran-refl, Ran-trans, put-Ran, act-Ran}

-- A call that returns, and what it leaves.
abbrev pub Returns : (ℕ → ℕ) → ℕ → World → Reply → Type 0
Returns rank m w reply = (r : Bool × World) × (reply ≡ some r) × Ran rank m w r.1

find_state-deref :
    (id : ℤ) (sm : Machine) {p : StatePtr}
    → find_state id sm ≡ some p
    → (s : State) × (deref sm (some p) ≡ some s)
unfolding find_state
find_state-deref id sm {p} h = elim (Option-cases (lookup_int id sm.states)) [
  | inl e ↦ absurd (ground arith)
  | inr (s, e) ↦ (s, ground arith)
]

target-deref :
    (id : ℤ) (sm : Machine) {p : StatePtr}
    → target id sm ≡ some p
    → (s : State) × (deref sm (some p) ≡ some s)
unfolding target
target-deref id sm {p} h = elim (Option-cases (find_state id sm)) [
  | inl e ↦
      let at_end : some term ≡ some p = ground arith in
      (term_state, subst (λ q. deref sm q ≡ some term_state) at_end refl)
  | inr (q, e) ↦
      let same : some q ≡ some p = ground arith in
      let (t, d) = find_state-deref id sm e in (t, subst (λ r. deref sm r ≡ some t) same d)
]

below_current :
    {rank : ℕ → ℕ} {w : World}
    → Good rank w
    → (m : ℕ) (sm : Machine) (s : State) (k : ℕ) → machine m w ≡ some sm
    → deref sm sm.curr_state ≡ some s
    → s.sub_sm ≡ some k
    → (rank k < rank m) × (k < length w.machines)
below_current g m sm s k em ds es = elim (Option-cases sm.curr_state) [
  | inl e ↦ absurd (cc (ap (deref sm) (sym e) ∙ ds))
  | inr (p, e) ↦ g.below m sm p s k em (ap (deref sm) (sym e) ∙ ds) es
]

module _ (rank : ℕ → ℕ) where
  StartsBelow : (ℕ → World → Reply) → ℕ → Type 0
  StartsBelow starts n =
      (k : ℕ) (w : World)
      → Good rank w
      → k < length w.machines
      → rank k < n
      → Returns rank k w (starts k w)

  start_sub-Returns :
      (starts : ℕ → World → Reply) (m : ℕ) (sub : Option ℕ) {u w : World}
      → StartsBelow starts (rank m)
      → Ran rank m u w
      → ((k : ℕ) → sub ≡ some k → (rank k < rank m) × (k < length u.machines))
      → Returns rank m u (start_sub starts sub w)
  unfolding start_sub StartsBelow
  start_sub-Returns starts m none {u} {w} rec r low = ((true, w), refl, r)
  start_sub-Returns starts m (some k) {u} {w} rec r low =
      let (q, e, after) = rec k w r.good (omega (arith, (low k refl).1, r.size)) (low k refl).0 in
      ((true, q.1), rw e refl, Ran-trans m k (omega (arith, (low k refl).0)) r after)

  start_body-Returns :
      (starts : ℕ → World → Reply) (m : ℕ) {w : World}
      → StartsBelow starts (rank m)
      → Good rank w
      → m < length w.machines
      → Returns rank m w (start_body starts m w)
  unfolding start_body begin
  start_body-Returns starts m {w} rec g inside = with_machine (get_elem?-of_lt w.machines m inside)
    where
      with_state :
          (sm : Machine) (p : StatePtr) (s : State)
          → machine m w ≡ some sm
          → deref sm (some p) ≡ some s
          → Returns rank m w (start_sub starts s.sub_sm (begin m sm p s w))
      with_state sm p s e d =
          start_sub-Returns starts m s.sub_sm rec
            (act-Ran m m s.enter_action no_event (
              put-Ran m (record sm { is_running = true; curr_state = some p }) g e refl
                (λ _. (s, d))))
            (λ k q. g.below m sm p s k e d q)

      with_machine :
          (sm : Machine) × (machine m w ≡ some sm) → Returns rank m w (start_body starts m w)
      with_machine (sm, e) = elim (Bool-cases (sm.is_running || not (sm.cb_level == 0))) [
        | inl busy ↦ ((false, w), rw (e, busy) refl, Ran-refl m g)
        | inr idle ↦ elim (Option-cases (find_state sm.init_state_id sm)) [
          | inl missing ↦ ((false, w), rw e (rw idle (rw missing refl)), Ran-refl m g)
          | inr (p, found) ↦
              let (s, d) = find_state-deref sm.init_state_id sm found in
              let (r, f, after) = with_state sm p s e d in
              (r, rw e (rw idle (rw found (rw d f))), after)
        ]
      ]

  start_from :
      (fuel m : ℕ) {w : World}
      → Good rank w
      → m < length w.machines
      → rank m < fuel
      → Returns rank m w (start fuel m w)
  unfolding start StartsBelow
  start_from zero m g inside h = absurd (omega arith)
  start_from (suc fuel) m {w} g inside h =
      start_body-Returns (start fuel) m (λ k u gu iu lt. start_from fuel k gu iu (omega arith)) g
        inside

  stop_Returns :
      (m : ℕ) {w : World}
      → Good rank w
      → m < length w.machines
      → (w' : World) × (stop m w ≡ some w') × Ran rank m w w'
  unfolding stop halt
  stop_Returns m {w} g inside = with_machine (get_elem?-of_lt w.machines m inside)
    where
      with_machine :
          (sm : Machine) × (machine m w ≡ some sm)
          → (w' : World) × (stop m w ≡ some w') × Ran rank m w w'
      with_machine (sm, e) = elim (Bool-cases (not sm.is_running || not (sm.cb_level == 0))) [
        | inl skip ↦ (w, rw e (rw skip refl), Ran-refl m g)
        | inr go ↦
            let (s, d) = g.valid m sm e (ground arith) in
            (
              halt m sm s w,
              rw e (rw go (rw d refl)),
              act-Ran m m s.exit_action no_event (
                  put-Ran m (record sm { is_running = false; curr_state = none }) g e refl
                    (λ h. absurd (cc))),
            )
      ]

  RunsBelow : (ℕ → Event → World → Reply) → ℕ → Type 0
  RunsBelow runs n =
      (k : ℕ) (e : Event) (w : World)
      → Good rank w
      → k < length w.machines
      → rank k < n
      → Returns rank k w (runs k e w)

  enter_sub_Returns :
      (starts : ℕ → World → Reply) (runs : ℕ → Event → World → Reply) (m : ℕ) (sub : Option ℕ)
      (e : Event) {u w : World}
      → StartsBelow starts (rank m)
      → RunsBelow runs (rank m)
      → Ran rank m u w
      → ((k : ℕ) → sub ≡ some k → (rank k < rank m) × (k < length u.machines))
      → (w' : World) × (enter_sub starts runs sub e w ≡ some w') × Ran rank m u w'
  unfolding enter_sub StartsBelow RunsBelow
  enter_sub_Returns starts runs m none e {u} {w} rs rr r low = (w, refl, r)
  enter_sub_Returns starts runs m (some k) e {u} {w} rs rr r low =
      let (a, ea, ra) = rs k w r.good (omega (arith, (low k refl).1, r.size)) (low k refl).0 in
      let (b, eb, rb) =
        rr k e a.1 ra.good (omega (arith, (low k refl).1, r.size, ra.size)) (low k refl).0 in
      (
        b.1,
        rw ea (rw eb refl),
        Ran-trans m k (omega (arith, (low k refl).0))
            (Ran-trans m k (omega (arith, (low k refl).0)) r ra) rb,
      )

  move_to-Returns :
      (starts : ℕ → World → Reply) (runs : ℕ → Event → World → Reply) (m : ℕ) (e : Event)
      (sm : Machine) (s : State) (action : ActionFunc) (p : StatePtr) (t : State) {w : World}
      → StartsBelow starts (rank m)
      → RunsBelow runs (rank m)
      → Good rank w
      → machine m w ≡ some sm
      → deref sm (some p) ≡ some t
      → Returns rank m w (move_to starts runs m e sm s action p w)
  unfolding move_to moved lower
  move_to-Returns starts runs m e sm s action p t {w} rs rr g em d =
      let r = put-Ran m (moved sm p) g em refl (λ _. (t, d)) in
      let r' : Ran rank m w (record {
        machines = set w.machines m (moved sm p);
        log = w.log ++ move_log m sm s action t e;
      }) =
        record {
          good = record { valid = r.good.valid; below = r.good.below };
          frame = r.frame;
          size = r.size;
        } in
      let (w₁, e₁, r₁) =
        enter_sub_Returns starts runs m t.sub_sm e rs rr r' (λ k q. g.below m sm p t k em d q) in
      let (sm₁, f₁) =
        get_elem?-of_lt w₁.machines m (omega (arith, r₁.size, lt_of_get_elem? w.machines m em)) in
      let low =
        put-Ran m (record sm₁ { cb_level = sm₁.cb_level - 1 }) r₁.good f₁ refl
          (λ h. r₁.good.valid m sm₁ f₁ h) in
      (
        (true, put m (record sm₁ { cb_level = sm₁.cb_level - 1 }) w₁),
        rw d (rw e₁ (rw f₁ refl)),
        Ran-trans m m (omega arith) r₁ low,
      )

  handle-Returns :
      (starts : ℕ → World → Reply) (runs : ℕ → Event → World → Reply) (m : ℕ) (e : Event)
      (sm : Machine) (s : State) {w : World}
      → StartsBelow starts (rank m)
      → RunsBelow runs (rank m)
      → Good rank w
      → machine m w ≡ some sm
      → deref sm sm.curr_state ≡ some s
      → Returns rank m w (handle starts runs m e sm s w)
  unfolding handle
  handle-Returns starts runs m e sm s {w} rs rr g em ds = elim (Option-cases (choose s e)) [
    | inl stay ↦ ((false, w'), rw (stay, handle) refl, noted)
    | inr ((id, action), go) ↦ elim (Option-cases (target id sm)) [
      | inl missing ↦ (
        (false, put m (record sm { next_state = none }) w'),
        rw (go, handle) (rw missing refl),
        Ran-trans m m (omega arith) noted
            (put-Ran m (record sm { next_state = none }) noted.good em refl (λ h. (s, ds))),
      )
      | inr (p, found) ↦
          let (t, d) = target-deref id sm found in
          let (r, f, after) =
            move_to-Returns starts runs m e sm s action p t rs rr noted.good em d in
          (r, rw (go, handle) (rw found f), Ran-trans m m (omega arith) noted after)
    ]
  ]
    where
      w' : World
      w' = act m (handler_name (handler s e)) e w

      noted : Ran rank m w w'
      noted = act-Ran m m (handler_name (handler s e)) e (Ran-refl m g)

  after_sub-Returns :
      (starts : ℕ → World → Reply) (runs : ℕ → Event → World → Reply) (m : ℕ) (e : Event)
      (sm : Machine) (s : State) (k : ℕ) (r : Bool × World) {u : World}
      → StartsBelow starts (rank m)
      → RunsBelow runs (rank m)
      → machine m u ≡ some sm
      → deref sm sm.curr_state ≡ some s
      → k < length u.machines
      → rank k < rank m
      → Ran rank m u r.1
      → machine m r.1 ≡ some sm
      → Returns rank m u (after_sub starts runs m e k r)
  unfolding after_sub
  after_sub-Returns starts runs m e sm s k r {u} rs rr em ds ik lt ran same =
      with_sub (get_elem?-of_lt r.1.machines k (omega (arith, ran.size)))
    where
      with_sub :
          (ksm : Machine) × (machine k r.1 ≡ some ksm)
          → Returns rank m u (after_sub starts runs m e k r)
      with_sub (ksm, f) = elim (Bool-cases (not (is_terminated ksm))) [
        | inl going ↦ (r, rw f (rw going refl), ran)
        | inr ended ↦
            let (w', h, stopped) = stop_Returns k ran.good (omega (arith, ran.size)) in
            let kept : machine m w' ≡ some sm = stopped.frame m lt ∙ same in
            let (r', f', after) = handle-Returns starts runs m e sm s rs rr stopped.good kept ds in
            (
              r',
              rw f (rw ended (rw h (rw kept (rw ds f')))),
              Ran-trans m m (omega arith) (Ran-trans m k (omega arith) ran stopped) after,
            )
      ]

  run_body-Returns :
      (starts : ℕ → World → Reply) (runs : ℕ → Event → World → Reply) (m : ℕ) (e : Event)
      {w : World}
      → StartsBelow starts (rank m)
      → RunsBelow runs (rank m)
      → Good rank w
      → m < length w.machines
      → Returns rank m w (run_body starts runs m e w)
  unfolding run_body RunsBelow
  run_body-Returns starts runs m e {w} rs rr g inside =
      with_machine (get_elem?-of_lt w.machines m inside)
    where
      by_sub :
          (sm : Machine) (s : State) (sub : Option ℕ)
          → machine m w ≡ some sm
          → deref sm sm.curr_state ≡ some s
          → s.sub_sm ≡ sub
          → ((not sm.is_running || not (sm.cb_level == 0)) ≡ false)
          → Returns rank m w (run_body starts runs m e w)
      by_sub sm s none em ds es go =
          let (r, f, after) = handle-Returns starts runs m e sm s rs rr g em ds in
          (r, rw em (rw go (rw ds (rw es f))), after)
      by_sub sm s (some k) em ds es go =
          let (lt, ik) = below_current g m sm s k em ds es in
          let (r, f, ran) = rr k e w g ik lt in
          let (r', f', after) =
            after_sub-Returns starts runs m e sm s k r rs rr em ds ik lt
              (Ran-trans m k (omega arith) (Ran-refl m g) ran) (ran.frame m lt ∙ em) in
          (r', rw em (rw go (rw ds (rw es (rw f f')))), after)

      with_machine :
          (sm : Machine) × (machine m w ≡ some sm) → Returns rank m w (run_body starts runs m e w)
      with_machine (sm, em) = elim (Bool-cases (not sm.is_running || not (sm.cb_level == 0))) [
        | inl refused ↦ ((false, w), rw em (rw refused refl), Ran-refl m g)
        | inr go ↦
            let (s, ds) = g.valid m sm em (ground arith) in by_sub sm s s.sub_sm em ds refl go
      ]

  run_from :
      (fuel m : ℕ) (e : Event) {w : World}
      → Good rank w
      → m < length w.machines
      → rank m < fuel
      → Returns rank m w (run fuel m e w)
  unfolding run RunsBelow StartsBelow
  run_from zero m e g inside h = absurd (omega arith)
  run_from (suc fuel) m e {w} g inside h =
      run_body-Returns (start fuel) (run fuel) m e
        (λ k u gu iu lt. start_from fuel k gu iu (omega arith))
        (λ k e' u gu iu lt. run_from fuel k e' gu iu (omega arith)) g inside

-- Where each machine has a rank above its sub-machines', start with more fuel than the rank
-- returns; the current state of each machine that runs can still be found, and no machine of a
-- higher rank is touched.
pub start_total :
    (rank : ℕ → ℕ) (fuel m : ℕ) {w : World}
    → Good rank w
    → m < length w.machines
    → rank m < fuel
    → Returns rank m w (start fuel m w)
start_total rank fuel m g inside h = start_from rank fuel m g inside h

-- Where each machine has a rank above its sub-machines' and the current state of each machine that
-- runs can be found, `run` on any event with more fuel than the rank of its machine returns; then
-- both still hold, and no machine of a higher rank was touched.
pub run_total :
    (rank : ℕ → ℕ) (fuel m : ℕ) (e : Event) {w : World}
    → Good rank w
    → m < length w.machines
    → rank m < fuel
    → Returns rank m w (run fuel m e w)
run_total rank fuel m e g inside h = run_from rank fuel m e g inside h
