-- ===== src/Flow/Action/Sequence.antt =====
-- SequenceAction over the results of their children.
use cpp_tbox.Common.{
  ℕ, suc, ◌+◌, ◌<◌, ◌≡◌, ◌≢◌, refl, sym, ap, ◌∙◌, true, false, Bool-cases, List, [], ◌∷◌, ◌++◌,
  none, inl, inr, if◌then◌else◌, get_elem?, length, arith,
}
use cpp_tbox.Flow.Action.{
  running, finished, finish_cb, Posted, is_running, is_pause, is_over, Outcome, Action, Child,
}
use cpp_tbox.Flow.Action.Assemble.{
  Mode, all_finish, any_fail, any_succ, sequence, Node, with_kind, start_this_action, on_finished,
  finish, on_last_child_finished, handle_child_finish_event,
}
use cpp_tbox.Flow.Action.Hooks.{
  sequence_result, start_otherwise_finish, take_result, on_serial_finished, on_child_finished,
}
use cpp_tbox.Flow.Action.Kinds.{plain_success, ends_at, is_last_child, parallel_part}
use cpp_tbox.Flow.Action.Effects.{done}
use cpp_tbox.Flow.Action.Started.{
  done-state, CanStart, start_this_action-Started, start_next, no_next,
}

-- The results of the children, one after the other; the handler gets the position of the child as well.
unfoldable pub feed : {S : Type 0} → Child S → ℕ → List Outcome → Node S → Node S
feed c i [] n = n
feed c i (o ∷ os) n = feed c (suc i) os (on_child_finished c (parallel_part n.kind) i o n)

-- The result that a sequence of children gives, of which the first ended with the outcome given: the last one,
-- or the first failure, or the first success, where there is such a one.
unfoldable pub verdict : Mode → Outcome → List Outcome → Outcome
verdict m o [] = o
verdict all_finish o (p ∷ ps) = verdict all_finish p ps
verdict any_fail o (p ∷ ps) = let rest = verdict any_fail p ps in if o.is_succ then rest else o
verdict any_succ o (p ∷ ps) = let rest = verdict any_succ p ps in if o.is_succ then o else rest

verdict_later :
    (m : Mode) (o p : Outcome) (ps : List Outcome)
    → ends_at m o.is_succ ≡ false
    → verdict m p ps ≡ verdict m o (p ∷ ps)
unfolding verdict ends_at
verdict_later all_finish o p ps b = refl
verdict_later any_fail o p ps b = let ok : o.is_succ ≡ true = ground arith in rw ok refl
verdict_later any_succ o p ps b = let bad : o.is_succ ≡ false = ground arith in rw bad refl

module _ {S : Type 0} (c : Child S) where
  -- What a running sequence does with a result.
  pub sequence_step :
      (m : Mode) (index i : ℕ) (o : Outcome) (n : Node S)
      → n.kind ≡ sequence m index
      → n.base.state ≡ running
      → let n₁ = record n { curr_action = none } in
        on_child_finished c (parallel_part n.kind) i o n ≡ (
          if ends_at m o.is_succ
          then (finish c o n₁).1
          else start_otherwise_finish c (suc index) o (with_kind (sequence m (suc index)) n₁))
  unfolding on_child_finished on_serial_finished handle_child_finish_event is_last_child take_result
      sequence_result is_running parallel_part
  sequence_step m index i o n e h = rw (e, h) refl

  pub finish_sequence :
      (m : Mode) (index : ℕ) (o : Outcome) (n : Node S)
      → n.kind ≡ sequence m index
      → n.base.state ≡ running
      → (finish c o n).1 ≡ record n { base = done n.base o }
  unfolding finish on_finished is_over
  finish_sequence m index o n e h = rw (e, h) refl

  -- An action that is over takes no notice of a child.
  pub serial_over :
      (i : ℕ) (o : Outcome) (n : Node S)
      → parallel_part n.kind ≡ none
      → n.base.state ≡ finished
      → on_child_finished c (parallel_part n.kind) i o n ≡ record n { curr_action = none }
  unfolding on_child_finished on_serial_finished handle_child_finish_event on_last_child_finished
      is_running is_pause
  serial_over i o n e h = elim (Bool-cases (is_last_child n.kind i)) [
    | inl b ↦ rw (e, h, b) refl
    | inr b ↦ rw (e, h, b) refl
  ]

verdict_now :
    (m : Mode) (o : Outcome) (os : List Outcome) → ends_at m o.is_succ ≡ true → verdict m o os ≡ o
unfolding verdict ends_at
verdict_now m o [] b = refl
verdict_now all_finish o (p ∷ ps) b = absurd (cc)
verdict_now any_fail o (p ∷ ps) b = let bad : o.is_succ ≡ false = ground arith in rw bad refl
verdict_now any_succ o (p ∷ ps) b = rw b refl

module _ {S : Type 0} (c : Child S) where
  pub feed_over :
      (os : List Outcome) (i : ℕ) (n : Node S)
      → parallel_part n.kind ≡ none
      → n.base.state ≡ finished
      → (feed c i os n).base ≡ n.base
  unfolding feed
  feed_over [] i n e h = refl
  feed_over (o ∷ os) i n e h =
      ap (λ (k : Node S). (feed c (suc i) os k).base) (serial_over c i o n e h)
      ∙ feed_over os (suc i) (record n { curr_action = none }) e h

  -- Once finished, the rest of the results changes nothing.
  fed_after_finish :
      (m : Mode) (index : ℕ) (os : List Outcome) (i : ℕ) (o : Outcome) (n : Node S)
      → n.kind ≡ sequence m index
      → n.base.state ≡ running
      → (feed c i os (finish c o n).1).base ≡ done n.base o
  unfolding parallel_part
  fed_after_finish m index os i o n e h =
      ap (λ (k : Node S). (feed c i os k).base) (finish_sequence c m index o n e h)
      ∙ feed_over os i (record n { base = done n.base o }) (ap parallel_part e)
          (done-state n.base o)

  -- Starting one child leaves those after it as they were.
  later_start :
      (ss ts : List S) (index : ℕ)
      → ((j : ℕ) → index < j → CanStart c j ss)
      → ((j : ℕ) → suc index ≢ j → get_elem? ts j ≡ get_elem? ss j)
      → (j : ℕ) → suc index < j
      → CanStart c j ts
  unfolding CanStart
  later_start ss ts index all same j h s e =
      all j (omega (arith, h)) s (sym (same j (omega (arith, h))) ∙ e)

  -- The result ends the sequence.
  feed_now :
      (os : List Outcome) (m : Mode) (index i : ℕ) (o : Outcome) (n : Node S)
      → n.kind ≡ sequence m index
      → n.base.state ≡ running
      → ends_at m o.is_succ ≡ true
      → (feed c i (o ∷ os) n).base ≡ done n.base (verdict m o os)
  unfolding feed
  feed_now os m index i o n e h b =
      let n₁ : Node S = record n { curr_action = none } in
      ap (λ (k : Node S). (feed c (suc i) os k).base)
        (sequence_step c m index i o n e h ∙ rw b refl)
      ∙ fed_after_finish m index os (suc i) o n₁ e h
      ∙ ap (done n.base) (sym (verdict_now m o os b))

  pub feed-verdict :
      (os : List Outcome) (m : Mode) (index i : ℕ) (o : Outcome) (n : Node S)
      → ((j : ℕ) → index < j → CanStart c j n.children)
      → n.kind ≡ sequence m index
      → n.base.state ≡ running
      → index + length (o ∷ os) ≡ length n.children
      → (feed c i (o ∷ os) n).base ≡ done n.base (verdict m o os)
  unfolding feed verdict
  feed-verdict [] m index i o n all e h len =
      let n₂ : Node S = record n { curr_action = none; kind = sequence m (suc index) } in
      elim (Bool-cases (ends_at m o.is_succ)) [
        | inl b ↦ feed_now [] m index i o n e h b
        | inr b ↦
            ap (λ (k : Node S). (feed c (suc i) [] k).base)
              (sequence_step c m index i o n e h
                ∙ rw b refl
                ∙ no_next c (suc index) o n₂ (omega (arith, len)))
            ∙ fed_after_finish m (suc index) [] (suc i) o n₂ refl h
      ]
  feed-verdict (p ∷ ps) m index i o n all e h len =
      let n₂ : Node S = record n { curr_action = none; kind = sequence m (suc index) } in
      let short : suc index < length n.children = omega (arith, len) in
      let can = all (suc index) (omega arith) in
      let next = start_this_action-Started c (suc index) n₂ can short in
      let m₂ : Node S = (start_this_action c (suc index) n₂).1 in
      let later =
        feed-verdict ps m (suc index) (suc i) p m₂
          (later_start n.children m₂.children index all next.others) next.kind
          (ap (λ (a : Action). a.state) next.base ∙ h) (omega (arith, len, next.many)) in
      elim (Bool-cases (ends_at m o.is_succ)) [
        | inl b ↦ feed_now (p ∷ ps) m index i o n e h b
        | inr b ↦
            ap (λ (k : Node S). (feed c (suc i) (p ∷ ps) k).base)
              (sequence_step c m index i o n e h
                ∙ rw b refl
                ∙ start_next c (suc index) o n₂ can short)
            ∙ later
            ∙ ap (λ a. done a (verdict m p ps)) next.base
            ∙ ap (done n.base) (verdict_later m o p ps b)
      ]

-- The outcome of a whole sequence.
unfoldable pub sequence_outcome : Mode → List Outcome → Outcome
sequence_outcome m [] = plain_success
sequence_outcome m (o ∷ os) = verdict m o os

-- The finish callback of an outcome, with the next id of the loop.
abbrev pub finish_posted : Action → Outcome → Posted
finish_posted a o = record {
  run_id = a.last_run_id + 2;
  callback = finish_cb (record o { trace = o.trace ++ a.id ∷ [] });
}
