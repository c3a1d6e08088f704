-- ===== src/Flow/Action/Effects.antt =====
-- What starting, pausing or stopping children, and finishing, do to the part of a node that Action keeps.
use cpp_tbox.Common.{
  ℕ, zero, suc, ◌+◌, ◌-◌, ◌*◌, ◌%◌, ◌^◌, ◌≡◌, refl, sym, ap, subst, ◌∙◌, Bool, true, false, not,
  List, Option, none, some, Option-cases, inl, inr, ◌==◌, if◌then◌else◌, get_elem?, length, ltb,
  if_elim,
}
use cpp_tbox.Flow.Action.{
  finished, is_over, is_running, Outcome, Action, set_timer, base_on_finished, Child,
}
use cpp_tbox.Flow.Action.Assemble.{
  Mode, Kind, dummy, function, sequence, loop, repeat, if_else, if_then, loop_if, switch, wrapper,
  composite, parallel, Node, with_kind, with_base, call_child, call_pointed, call_all,
  reset_children, start_this_action, stop_curr_action, on_finished, finish,
}
use cpp_tbox.Flow.Action.Hooks.{
  sequence_result, loop_result, repeat_result, if_else_result, if_then_result, loop_if_result,
  exec_result, switch_result, wrapper_result, start_first, function_start, repeat_start,
  if_then_start, start_otherwise_finish, do_start, start_chosen, start_parallel, start_each,
  on_start, take_result, on_parallel_finished,
}
use cpp_tbox.Flow.Action.Kinds.{
  own, plain_success, ends_at, loop_ends_at, repeat_ends_at, find_case, chosen, wrap,
  quits_at_start, put_failures, put_result,
}

-- An action that has finished with an outcome.
abbrev pub done : Action → Outcome → Action
done a o = base_on_finished o (record a { state = finished; timer_ev = set_timer false a.timer_ev })

-- The action is as before, or has finished.
pub data Reaches (a : Action) : Action → Type 0 where
  stays : Reaches a a
  ends : (o : Outcome) → is_over a.state ≡ false → Reaches a (done a o)

module _ {S : Type 0} (c : Child S) where
  pub call_child-base : (f : S → Bool × S) (i : ℕ) (n : Node S) → (call_child f i n).1.base ≡ n.base
  unfolding call_child
  call_child-base f i n = elim (Option-cases (get_elem? n.children i)) [
    | inl e ↦ rw (e, call_child) refl
    | inr (s, e) ↦ rw (e, call_child) refl
  ]

  pub start_this_action-base : (i : ℕ) (n : Node S) → (start_this_action c i n).1.base ≡ n.base
  unfolding start_this_action
  start_this_action-base i n =
      if_elim (λ (r : Bool × Node S). r.1.base ≡ n.base) (call_child c.start i n).0
        (λ _. call_child-base c.start i n) (λ _. call_child-base c.start i n)

  pub call_pointed-base :
      (f : S → Bool × S) (cur : Option ℕ) (n : Node S) → (call_pointed f cur n).base ≡ n.base
  unfolding call_pointed
  call_pointed-base f none n = refl
  call_pointed-base f (some i) n = call_child-base f i n

  pub stop_curr_action-base : (n : Node S) → (stop_curr_action c n).base ≡ n.base
  unfolding stop_curr_action
  stop_curr_action-base n = call_pointed-base c.stop n.curr_action n

module _ {S : Type 0} (c : Child S) where
  on_finished-base :
      (o : Outcome) (k : Kind) (n : Node S) → (on_finished c o k n).base ≡ base_on_finished o n.base
  unfolding on_finished
  on_finished-base o composite n = ap (base_on_finished o) (stop_curr_action-base c n)
  on_finished-base o dummy n = refl
  on_finished-base o (function _) n = refl
  on_finished-base o (sequence _ _) n = refl
  on_finished-base o (loop _) n = refl
  on_finished-base o (repeat _ _ _) n = refl
  on_finished-base o (if_else _ _) n = refl
  on_finished-base o (if_then _) n = refl
  on_finished-base o (loop_if _) n = refl
  on_finished-base o (switch _ _) n = refl
  on_finished-base o (wrapper _) n = refl
  on_finished-base o (parallel _ _) n = refl

  -- finish posts the outcome, unless the action is over.
  pub finish-base :
      (o : Outcome) (n : Node S)
      → is_over n.base.state ≡ false
      → (finish c o n).1.base ≡ done n.base o
  unfolding finish
  finish-base o n e = rw e (
      on_finished-base o n.kind (
        with_base (record n.base { state = finished; timer_ev = set_timer false n.base.timer_ev })
          n))

  pub finish_over : (o : Outcome) (n : Node S) → is_over n.base.state ≡ true → (finish c o n).1 ≡ n
  unfolding finish
  finish_over o n e = rw e refl

module _ {S : Type 0} (c : Child S) where
  pub finish-Reaches :
      (o : Outcome) (n : Node S)
      → is_over n.base.state ≡ false
      → Reaches n.base (finish c o n).1.base
  finish-Reaches o n e = subst (Reaches n.base) (sym (finish-base c o n e)) (ends o e)

  -- A node with the same base may finish.
  finishes_from :
      (o : Outcome) (n m : Node S)
      → m.base ≡ n.base
      → is_over n.base.state ≡ false
      → Reaches n.base (finish c o m).1.base
  finishes_from o n m h e =
      subst (λ a. Reaches a (finish c o m).1.base) h
        (finish-Reaches o m (ap (λ (a : Action). is_over a.state) h ∙ e))

  same-Reaches : (n m : Node S) → m.base ≡ n.base → Reaches n.base m.base
  same-Reaches n m h = subst (Reaches n.base) (sym h) stays

module _ {S : Type 0} (c : Child S) where
  started-Reaches :
      (i : ℕ) (n m : Node S) → m.base ≡ n.base → Reaches n.base (start_this_action c i m).1.base
  started-Reaches i n m h =
      same-Reaches c n (start_this_action c i m).1 (start_this_action-base c i m ∙ h)

  start_chosen-Reaches :
      (cur : Option ℕ) (o : Outcome) (n : Node S)
      → is_over n.base.state ≡ false
      → Reaches n.base (start_chosen c cur o n).base
  unfolding start_chosen
  start_chosen-Reaches (some i) o n e = started-Reaches i n n refl
  start_chosen-Reaches none o n e = finishes_from c o n n refl e

  start_otherwise_finish-Reaches :
      (i : ℕ) (o : Outcome) (n m : Node S)
      → m.base ≡ n.base
      → is_over n.base.state ≡ false
      → Reaches n.base (start_otherwise_finish c i o m).base
  unfolding start_otherwise_finish
  start_otherwise_finish-Reaches i o n m h e =
      let P : Node S → Type 0 = λ k. Reaches n.base k.base in
      if_elim P (ltb i (length m.children))
        (λ _.
          if_elim P (start_this_action c i m).0 (λ _. started-Reaches i n m h)
            (λ _.
              finishes_from c (own false 6) n (start_this_action c i m).1
                (start_this_action-base c i m ∙ h) e))
        (λ _. finishes_from c o n m h e)

  do_start-Reaches :
      (i : ℕ) (n m : Node S)
      → m.base ≡ n.base
      → is_over n.base.state ≡ false
      → Reaches n.base (do_start c i m).base
  unfolding do_start
  do_start-Reaches i n m h e =
      if_elim (λ (k : Node S). Reaches n.base k.base) (ltb (2 * i) (length m.children))
        (λ _. started-Reaches (2 * i) n m h) (λ _. finishes_from c (own false 10) n m h e)

module _ {S : Type 0} (c : Child S) where
  finish_or :
      (b : Bool) (o : Outcome) (n m : Node S)
      → Reaches n.base m.base
      → is_over n.base.state ≡ false
      → Reaches n.base (if b then (finish c o n).1 else m).base
  finish_or b o n m r e =
      if_elim (λ (k : Node S). Reaches n.base k.base) b (λ _. finishes_from c o n n refl e) (λ _. r)

  -- The classes that hand on the result of a child.
  pub take_result-Reaches :
      (k : Kind) (i : ℕ) (o : Outcome) (n : Node S)
      → is_over n.base.state ≡ false
      → Reaches n.base (take_result c k i o n).base
  unfolding take_result reset_children sequence_result loop_result repeat_result if_else_result
      if_then_result loop_if_result exec_result switch_result wrapper_result
  take_result-Reaches (sequence m index) i o n e =
      finish_or (ends_at m o.is_succ) o n
        (start_otherwise_finish c (suc index) o (with_kind (sequence m (suc index)) n))
        (start_otherwise_finish-Reaches c (suc index) o n (with_kind (sequence m (suc index)) n)
          refl e)
        e
  take_result-Reaches (loop m) i o n e =
      finish_or (loop_ends_at m o.is_succ) o n (start_this_action c 0 (reset_children c n)).1
        (started-Reaches c 0 n (reset_children c n) refl) e
  take_result-Reaches (repeat m times remain) i o n e =
      finish_or (repeat_ends_at m o.is_succ) o n
        (if ltb 0 remain
          then with_kind (repeat m times (remain - 1))
              (start_this_action c 0 (reset_children c n)).1
          else (finish c (own true 7) n).1)
        (if_elim (λ (k : Node S). Reaches n.base k.base) (ltb 0 remain)
          (λ _. started-Reaches c 0 n (reset_children c n) refl)
          (λ _. finishes_from c (own true 7) n n refl e))
        e
  take_result-Reaches (if_else a b) i o n e =
      start_chosen-Reaches c (if o.is_succ then a else b) (record o { is_succ = true }) n e
  take_result-Reaches (if_then index) i o n e =
      if_elim (λ (k : Node S). Reaches n.base k.base) o.is_succ
        (λ _. started-Reaches c (suc (2 * index)) n n refl)
        (λ _. do_start-Reaches c (suc index) n (with_kind (if_then (suc index)) n) refl e)
  take_result-Reaches (loop_if r) zero o n e =
      if_elim (λ (k : Node S). Reaches n.base k.base) o.is_succ (λ _. started-Reaches c 1 n n refl)
        (λ _. finishes_from c (record o { is_succ = r }) n n refl e)
  take_result-Reaches (loop_if r) (suc i) o n e =
      let m : Node S = (start_this_action c 0 (reset_children c n)).1 in
      if_elim (λ (k : Node S). Reaches n.base k.base) (start_this_action c 0 (reset_children c n)).0
        (λ _. started-Reaches c 0 n (reset_children c n) refl)
        (λ _.
          finishes_from c (record o { is_succ = r }) n m
            (start_this_action-base c 0 (reset_children c n)) e)
  take_result-Reaches (switch cases d) i o n e =
      if_elim (λ (k : Node S). Reaches n.base k.base) o.is_succ
        (λ _. start_chosen-Reaches c (chosen (find_case o.why.message cases) d) (own false 9) n e)
        (λ _. finishes_from c (own false 8) n n refl e)
  take_result-Reaches (wrapper m) i o n e =
      finishes_from c (record o { is_succ = wrap m o.is_succ }) n n refl e
  take_result-Reaches dummy i o n e = stays
  take_result-Reaches (function _) i o n e = stays
  take_result-Reaches composite i o n e = stays
  take_result-Reaches (parallel _ _) i o n e = stays

module _ {S : Type 0} (c : Child S) where
  -- Whatever the class, what it does on start leaves the action as it is, or finishes it.
  pub on_start-Reaches :
      (k : Kind) (n : Node S) → is_over n.base.state ≡ false → Reaches n.base (on_start c k n).base
  unfolding on_start start_parallel call_all start_first function_start repeat_start if_then_start
  on_start-Reaches dummy n e = stays
  on_start-Reaches (function ok) n e = finishes_from c (own ok 2) n n refl e
  on_start-Reaches (sequence m i) n e = start_otherwise_finish-Reaches c i plain_success n n refl e
  on_start-Reaches (loop _) n e = started-Reaches c 0 n n refl
  on_start-Reaches (repeat m t r) n e =
      started-Reaches c 0 n (with_kind (repeat m t ((t + (2 ^ 64 - 1)) % 2 ^ 64)) n) refl
  on_start-Reaches (if_else _ _) n e = started-Reaches c 0 n n refl
  on_start-Reaches (if_then i) n e = do_start-Reaches c 0 n (with_kind (if_then 0) n) refl e
  on_start-Reaches (loop_if _) n e = started-Reaches c 0 n n refl
  on_start-Reaches (switch _ _) n e = started-Reaches c 0 n n refl
  on_start-Reaches (wrapper _) n e = started-Reaches c 0 n n refl
  on_start-Reaches composite n e = started-Reaches c 0 n n refl
  on_start-Reaches (parallel m results) n e =
      let started = start_each c (quits_at_start m) 0 n.children in
      let results' : List (ℕ × Bool) = put_failures started.2 results in
      let n₁ : Node S = record n { kind = parallel m results'; children = started.1 } in
      let P : Node S → Type 0 = λ k. Reaches n.base k.base in
      if_elim P started.0 {x = call_all c.stop (finish c plain_success n₁).1}
        (λ _. finishes_from c plain_success n n₁ refl e)
        (λ _.
          if_elim P (length results' == length n₁.children)
            (λ _. finishes_from c plain_success n n₁ refl e) (λ _. stays))

  pub on_parallel_finished-Reaches :
      (m : Mode) (results : List (ℕ × Bool)) (i : ℕ) (b : Bool) (n : Node S)
      → is_over n.base.state ≡ false
      → Reaches n.base (on_parallel_finished c m results i b n).base
  unfolding on_parallel_finished call_all
  on_parallel_finished-Reaches m results i b n e =
      let n₁ : Node S = with_kind (parallel m (put_result i b results)) n in
      let P : Node S → Type 0 = λ k. Reaches n.base k.base in
      if_elim P (not (is_running n.base.state)) (λ _. stays)
        (λ _.
          if_elim P (ends_at m b) (λ _. finishes_from c plain_success n (call_all c.stop n₁) refl e)
            (λ _.
              if_elim P (length (put_result i b results) == length n.children)
                (λ _. finishes_from c plain_success n n₁ refl e) (λ _. stays)))
