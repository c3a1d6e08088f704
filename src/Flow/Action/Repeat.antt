-- ===== src/Flow/Action/Repeat.antt =====
-- RepeatAction: how often the child is run.
use cpp_tbox.Common.{
  ℕ, zero, suc, Bool, Bool-cases, inl, inr, set, map, min, sym, ◌+◌, ◌-◌, ◌%◌, ◌^◌, ◌≤◌, ◌<◌, ◌≡◌,
  refl, ap, ◌∙◌, true, List, [], ◌∷◌, none, ◌==◌, if◌then◌else◌, length, length-map, ltb, lt→ltb,
  ltb→lt, arith, if_elim,
}
use cpp_tbox.Flow.Action.{
  idle, running, finished, is_running, is_over, Outcome, Action, set_timer, base_on_finished, Child,
}
use cpp_tbox.Flow.Action.Assemble.{
  no_break, repeat, Node, new_node, with_kind, reset_children, call_child, start_this_action,
  on_finished, finish, handle_child_finish_event,
}
use cpp_tbox.Flow.Action.Hooks.{
  repeat_result, repeat_start, start_first, on_start, take_result, on_serial_finished,
  on_child_finished,
}
use cpp_tbox.Flow.Action.Kinds.{own, repeat_ends_at, is_last_child, parallel_part}
use cpp_tbox.Flow.Action.Life.{start}
use cpp_tbox.Flow.Action.Effects.{done}
use cpp_tbox.Flow.Action.Started.{
  done-state, CanStart, CanRestart, reset-CanStart, start_this_action-Started, start-running,
  set_timer-set_timer,
}
use cpp_tbox.Flow.Action.Sequence.{feed, feed_over, serial_over}

module _ {S : Type 0} (c : Child S) where
  repeat_step :
      (t r i : ℕ) (o : Outcome) (n : Node S)
      → n.kind ≡ repeat no_break t r
      → n.base.state ≡ running
      → let n₁ = record n { curr_action = none } in
        on_child_finished c (parallel_part n.kind) i o n ≡ (
          if ltb 0 r
          then with_kind (repeat no_break t (r - 1)) (start_this_action c 0 (reset_children c n₁)).1
          else (finish c (own true 7) n₁).1)
  unfolding on_child_finished on_serial_finished handle_child_finish_event is_last_child take_result
      repeat_result is_running parallel_part repeat_ends_at
  repeat_step t r i o n e h = rw (e, h) refl

  finish_repeat :
      (t r : ℕ) (o : Outcome) (n : Node S)
      → n.kind ≡ repeat no_break t r
      → n.base.state ≡ running
      → (finish c o n).1 ≡ record n { base = done n.base o }
  unfolding finish on_finished is_over
  finish_repeat t r o n e h = rw (e, h) refl

-- A function applied a number of times.
unfoldable pub iterate {ℓ} : {A : Type ℓ} → ℕ → (A → A) → A → A
iterate zero f x = x
iterate (suc n) f x = iterate n f (f x)

module _ {S : Type 0} (c : Child S) where
  -- The first child is started, ...
  abbrev pub begun : List S → List S
  begun [] = []
  begun (s ∷ ss) = (c.start s).1 ∷ ss

  -- ... or all are reset and it is started again.
  abbrev pub again : List S → List S
  again ss = begun (map c.reset ss)

  start_this_action-begun : (n : Node S) → (start_this_action c 0 n).1.children ≡ begun n.children
  unfolding start_this_action call_child
  start_this_action-begun n =
      if_elim (λ (r : Bool × Node S). r.1.children ≡ begun n.children) (call_child c.start 0 n).0
        (λ _. called n.children refl) (λ _. called n.children refl)
    where
      called :
          (ss : List S) → n.children ≡ ss → (call_child c.start 0 n).1.children ≡ begun n.children
      called [] e = rw (e, call_child) e
      called (s ∷ ss) e = rw (e, call_child) (ap (λ l. set l 0 (c.start s).1) e)

module _ {S : Type 0} (c : Child S) where
  -- The child is run again.
  repeats :
      (t r i : ℕ) (o : Outcome) (n : Node S)
      → CanRestart c
      → n.kind ≡ repeat no_break t (suc r)
      → n.base.state ≡ running
      → 0 < length n.children
      → let n' = on_child_finished c (parallel_part n.kind) i o n in
        (n'.kind ≡ repeat no_break t r)
        × (n'.base ≡ n.base)
        × (length n'.children ≡ length n.children)
        × (n'.children ≡ again c n.children)
  unfolding reset_children
  repeats t r i o n all e h len =
      let n₁ : Node S = reset_children c (record n { curr_action = none }) in
      let next =
        start_this_action-Started c 0 n₁ (reset-CanStart c all 0 n.children)
          (omega (arith, len, length-map n.children c.reset)) in
      rw (repeat_step c t (suc r) i o n e h, lt→ltb 0 (suc r) (omega arith))
        (
          ap (repeat no_break t) (omega arith),
          next.base,
          next.many ∙ length-map n.children c.reset,
          start_this_action-begun c n₁,
        )

  ends_now :
      (t i : ℕ) (o : Outcome) (n : Node S)
      → n.kind ≡ repeat no_break t 0
      → n.base.state ≡ running
      → on_child_finished c (parallel_part n.kind) i o n
        ≡ record n { curr_action = none; base = done n.base (own true 7) }
  ends_now t i o n e h =
      repeat_step c t 0 i o n e h
      ∙ finish_repeat c t 0 (own true 7) (record n { curr_action = none }) e h

  feed_over-children :
      (os : List Outcome) (i : ℕ) (n : Node S)
      → parallel_part n.kind ≡ none
      → n.base.state ≡ finished
      → (feed c i os n).children ≡ n.children
  unfolding feed
  feed_over-children [] i n e h = refl
  feed_over-children (o ∷ os) i n e h =
      ap (λ (k : Node S). (feed c (suc i) os k).children) (serial_over c i o n e h)
      ∙ feed_over-children os (suc i) (record n { curr_action = none }) e h

  feed_short :
      (os : List Outcome) (t r i : ℕ) (n : Node S)
      → CanRestart c
      → n.kind ≡ repeat no_break t r
      → n.base.state ≡ running
      → 0 < length n.children
      → length os ≤ r
      → let n' = feed c i os n in
        (n'.kind ≡ repeat no_break t (r - length os))
        × (n'.base ≡ n.base)
        × (n'.children ≡ iterate (length os) (again c) n.children)
  unfolding feed iterate
  feed_short [] t r i n all e h len short = (e ∙ ap (repeat no_break t) (omega arith), refl, refl)
  feed_short (o ∷ os) t zero i n all e h len short = absurd (omega (arith, short))
  feed_short (o ∷ os) t (suc r) i n all e h len short =
      let n' : Node S = on_child_finished c (parallel_part n.kind) i o n in
      let (kind, base, many, run_again) = repeats t r i o n all e h len in
      let (kind', base', children') =
        feed_short os t r (suc i) n' all kind (ap (λ (a : Action). a.state) base ∙ h)
          (omega (arith, len, many)) (omega (arith, short)) in
      (
        kind' ∙ ap (repeat no_break t) (omega arith),
        base' ∙ base,
        children' ∙ ap (iterate (length os) (again c)) run_again,
      )

  feed_long :
      (os : List Outcome) (t r i : ℕ) (n : Node S)
      → CanRestart c
      → n.kind ≡ repeat no_break t r
      → n.base.state ≡ running
      → 0 < length n.children
      → r < length os
      → let n' = feed c i os n in
        (n'.base ≡ done n.base (own true 7)) × (n'.children ≡ iterate r (again c) n.children)
  unfolding feed parallel_part iterate
  feed_long [] t r i n all e h len long = absurd (omega (arith, long))
  feed_long (o ∷ os) t zero i n all e h len long =
      let n₁ : Node S = record n { curr_action = none; base = done n.base (own true 7) } in
      let ended = done-state n.base (own true 7) in
      (
        ap (λ (k : Node S). (feed c (suc i) os k).base) (ends_now t i o n e h)
            ∙ feed_over c os (suc i) n₁ (ap parallel_part e) ended,
        ap (λ (k : Node S). (feed c (suc i) os k).children) (ends_now t i o n e h)
            ∙ feed_over-children os (suc i) n₁ (ap parallel_part e) ended,
      )
  feed_long (o ∷ os) t (suc r) i n all e h len long =
      let n' : Node S = on_child_finished c (parallel_part n.kind) i o n in
      let (kind, base, many, run_again) = repeats t r i o n all e h len in
      let (base', children') =
        feed_long os t r (suc i) n' all kind (ap (λ (a : Action). a.state) base ∙ h)
          (omega (arith, len, many)) (omega (arith, long)) in
      (base' ∙ ap (λ a. done a (own true 7)) base, children' ∙ ap (iterate r (again c)) run_again)

-- The times that are asked for, of which 0 wraps.
abbrev pub repeat_count : ℕ → ℕ
repeat_count t = if t == 0 then 2 ^ 64 else t

module _ {S : Type 0} (c : Child S) where
  repeat_started :
      (a : Action) (t r : ℕ) (ss : List S)
      → CanRestart c
      → CanStart c 0 ss
      → a.state ≡ idle
      → 0 < length ss
      → t < 2 ^ 64
      → let n = (start c (new_node a (repeat no_break t r) ss)).1 in
        (n.kind ≡ repeat no_break t (repeat_count t - 1))
        × (n.base ≡ record a { state = running; timer_ev = set_timer true a.timer_ev })
        × (0 < length n.children)
        × (n.children ≡ begun c ss)
  unfolding on_start repeat_start start_first
  repeat_started a t r ss all first_can h len small =
      let n₀ : Node S = new_node a (repeat no_break t ((t + (2 ^ 64 - 1)) % 2 ^ 64)) ss in
      let first = start_this_action-Started c 0 n₀ first_can len in
      rw
        (start-running c (new_node a (repeat no_break t r) ss) (start_this_action c 0 n₀).1 h refl
          first.base)
        (
          first.kind ∙ ap (repeat no_break t) (ground (arith, small)),
          refl,
          omega (arith, len, first.many),
          start_this_action-begun c n₀,
        )

  -- A new repeat action of t times in the mode NoBreak, over a child that can be started and
  -- restarted: while fewer than t results have come it runs, after t it has finished with success;
  -- the child was started once, and after each result but the t-th reset and started again. For t
  -- = 0 the number is 2^64, unlike the loop by which the header describes this mode.
  pub feed-repeat :
      (a : Action) (t r : ℕ) (ss : List S) (os : List Outcome)
      → CanRestart c
      → CanStart c 0 ss
      → a.state ≡ idle
      → 0 < length ss
      → t < 2 ^ 64
      → let n' = feed c 0 os (start c (new_node a (repeat no_break t r) ss)).1 in
        (n'.base ≡ (
          if ltb (length os) (repeat_count t)
          then record a { state = running; timer_ev = set_timer true a.timer_ev }
          else done a (own true 7)))
        × (n'.children ≡ iterate (min (length os) (repeat_count t - 1)) (again c) (begun c ss))
  feed-repeat a t r ss os all first_can h len small =
      let n : Node S = (start c (new_node a (repeat no_break t r) ss)).1 in
      let (kind, base, many, first) = repeat_started a t r ss all first_can h len small in
      let is_run : n.base.state ≡ running = ap (λ (b : Action). b.state) base in
      let some_times : 0 < repeat_count t = ground arith in
      elim (Bool-cases (ltb (length os) (repeat_count t))) [
        | inl e ↦
            let short : length os < repeat_count t = ltb→lt (length os) (repeat_count t) e in
            let k : min (length os) (repeat_count t - 1) ≡ length os = omega (arith, short) in
            let (_, base', children') =
              feed_short c os t (repeat_count t - 1) 0 n all kind is_run many
                (omega (arith, short)) in
            (
              rw e (base' ∙ base),
              children'
                  ∙ ap (iterate (length os) (again c)) first
                  ∙ ap (λ j. iterate j (again c) (begun c ss)) (sym k),
            )
        | inr e ↦
            let long : repeat_count t - 1 < length os = ground (arith, e) in
            let k : min (length os) (repeat_count t - 1) ≡ repeat_count t - 1 =
              omega (arith, long) in
            let (base', children') =
              feed_long c os t (repeat_count t - 1) 0 n all kind is_run many long in
            (
              rw e (
                  base'
                  ∙ ap (λ b. done b (own true 7)) base
                  ∙ ap
                      (λ u.
                        base_on_finished (own true 7) (record a { state = finished; timer_ev = u }))
                      (set_timer-set_timer a.timer_ev true)),
              children'
                  ∙ ap (iterate (repeat_count t - 1) (again c)) first
                  ∙ ap (λ j. iterate j (again c) (begun c ss)) (sym k),
            )
      ]
