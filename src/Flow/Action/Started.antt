-- ===== src/Flow/Action/Started.antt =====
-- Children that can be started, and an action that is started.
use cpp_tbox.Common.{
  ℕ, zero, suc, ◌≤◌, ◌<◌, ◌≡◌, ◌≢◌, refl, ap, ◌∙◌, Bool, true, false, List, [], ◌∷◌, map, Option,
  none, some, get_elem?, set, length, length-set, get_elem?-set_ne, get_elem?-of_lt, ltb, lt→ltb,
  ltb→lt, arith, if_elim,
}
use cpp_tbox.Flow.Action.{
  idle, running, finished, is_idle, is_running, is_over, Outcome, Action, set_timer, post,
  base_on_finished, Child,
}
use cpp_tbox.Flow.Action.Assemble.{Node, call_child, start_this_action, finish}
use cpp_tbox.Flow.Action.Hooks.{start_otherwise_finish, on_start}
use cpp_tbox.Flow.Action.Life.{start, enter}
use cpp_tbox.Flow.Action.Effects.{done}

pub done-state : (a : Action) (o : Outcome) → (done a o).state ≡ finished
unfolding base_on_finished post
done-state a o =
    if_elim (λ (b : Action). b.state ≡ finished) a.has_finish_cb (λ _. refl) (λ _. refl)

module _ {S : Type 0} (c : Child S) where
  -- The child at this position can be started.
  unfoldable pub CanStart : ℕ → List S → Type 0
  CanStart i ss = (s : S) → get_elem? ss i ≡ some s → (c.start s).0 ≡ true

  -- A child that is there is started.
  pub record Started (i : ℕ) (n : Node S) (r : Bool × Node S) : Type 0 where
    pub ok : r.0 ≡ true
    pub base : r.1.base ≡ n.base
    pub kind : r.1.kind ≡ n.kind
    pub many : length r.1.children ≡ length n.children
    pub funcs : r.1.posted_funcs ≡ n.posted_funcs
    pub curr : r.1.curr_action ≡ some i
    pub others : (j : ℕ) → i ≢ j → get_elem? r.1.children j ≡ get_elem? n.children j

  start_child :
      (i : ℕ) (n : Node S)
      → CanStart i n.children
      → i < length n.children
      → (s : S) × (call_child c.start i n ≡ (true, record n { children = set n.children i s }))
  unfolding call_child CanStart
  start_child i n can h =
      let (s, e) = get_elem?-of_lt n.children i h in
      (
        (c.start s).1,
        rw (e, call_child)
            (ap (λ (b : Bool). (b, record n { children = set n.children i (c.start s).1 }))
              (can s e)),
      )

  pub start_this_action-Started :
      (i : ℕ) (n : Node S)
      → CanStart i n.children
      → i < length n.children
      → Started i n (start_this_action c i n)
  unfolding start_this_action
  start_this_action-Started i n can h =
      let (s, e) = start_child i n can h in
      record {
        ok = rw e refl;
        base = rw e refl;
        kind = rw e refl;
        many = rw e (length-set n.children i s);
        funcs = rw e refl;
        curr = rw e refl;
        others = λ j ne. rw e (get_elem?-set_ne n.children s ne);
      }

  -- The next child is started, where there is one.
  pub start_next :
      (i : ℕ) (o : Outcome) (n : Node S)
      → CanStart i n.children
      → i < length n.children
      → start_otherwise_finish c i o n ≡ (start_this_action c i n).1
  unfolding start_otherwise_finish
  start_next i o n can h =
      rw (lt→ltb i (length n.children) h, (start_this_action-Started i n can h).ok) refl

  pub no_next :
      (i : ℕ) (o : Outcome) (n : Node S)
      → length n.children ≤ i
      → start_otherwise_finish c i o n ≡ (finish c o n).1
  unfolding start_otherwise_finish
  no_next i o n h =
      if_elim (λ (m : Node S). m ≡ (finish c o n).1) (ltb i (length n.children))
        (λ e. absurd (omega (arith, h, ltb→lt i (length n.children) e))) (λ _. refl)

pub over_of_idle_state : (a : Action) → a.state ≡ idle → is_over a.state ≡ false
unfolding is_over
over_of_idle_state a h = ap is_over h

pub set_timer-set_timer :
    (t : Option Bool) (b : Bool) → set_timer false (set_timer b t) ≡ set_timer false t
unfolding set_timer
set_timer-set_timer none b = refl
set_timer-set_timer (some _) b = refl

-- Where an action that is idle is when its class has left it so.
module _ {S : Type 0} (c : Child S) where
  pub start-running :
      (n m : Node S)
      → n.base.state ≡ idle
      → on_start c n.kind n ≡ m
      → m.base ≡ n.base
      → (start c n).1 ≡ record m {
        base = record n.base { state = running; timer_ev = set_timer true n.base.timer_ev };
      }
  unfolding start enter is_running is_idle
  start-running n m h e b = rw (e, h, b, h) refl

  pub start-finished :
      (n m : Node S)
      → n.base.state ≡ idle
      → on_start c n.kind n ≡ m
      → m.base.state ≡ finished
      → (start c n).1 ≡ m
  unfolding start enter is_running is_idle
  start-finished n m h e b = rw (e, h, b) refl

pub get_elem?-map :
    {A B : Type 0} (xs : List A) (f : A → B) (i : ℕ) {b : B}
    → get_elem? (map f xs) i ≡ some b
    → (a : A) × (b ≡ f a)
get_elem?-map [] f i e = absurd (ground (arith, e))
get_elem?-map (x ∷ xs) f zero e = (x, ground (arith, e))
get_elem?-map (x ∷ xs) f (suc i) e = get_elem?-map xs f i e

module _ {S : Type 0} (c : Child S) where
  -- After a reset, every child can be started.
  unfoldable pub CanRestart : Type 0
  CanRestart = (s : S) → (c.start (c.reset s)).0 ≡ true

  pub reset-CanStart : CanRestart → (i : ℕ) (ss : List S) → CanStart c i (map c.reset ss)
  unfolding CanRestart CanStart
  reset-CanStart again i ss s e =
      let (r, h) = get_elem?-map ss c.reset i e in ap (λ t. (c.start t).0) h ∙ again r
