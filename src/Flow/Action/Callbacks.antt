-- ===== src/Flow/Action/Callbacks.antt =====
-- The callbacks of an action that wait in the loop, whatever is done to it.
use cpp_tbox.Common.{
  ℕ, ◌+◌, ◌<◌, ◌≡◌, refl, sym, ap, ◌∙◌, Bool, true, false, Bool-cases, not, List, [], ◌∷◌, ◌++◌,
  Option, ◌⊎◌, inl, inr, ◌==◌, if◌then◌else◌, arith, if_elim,
}
use cpp_tbox.Flow.Action.{
  State, idle, running, pausing, finished, stoped, Result, unsure, is_running, is_over, Reason,
  Outcome, Callback, finish_cb, block_cb, Posted, Action, set_state, post, base_on_finished,
  base_on_block, remove_posted, cancel_dispatched_callback,
}
use cpp_tbox.Flow.Action.Life.{calls_first}
use cpp_tbox.Flow.Action.Effects.{Reaches, stays, ends, done}

unfoldable pub is_finished : State → Bool
is_finished finished = true
is_finished _ = false

unfoldable pub is_unsure : Result → Bool
is_unsure unsure = true
is_unsure _ = false

unfoldable pub is_finish_cb : Callback → Bool
is_finish_cb (finish_cb o) = true
is_finish_cb (block_cb why trace) = false

-- The ids of the finish callbacks that wait.
unfoldable pub finish_ids : List Posted → List ℕ
finish_ids [] = []
finish_ids (p ∷ ps) =
    let rest = finish_ids ps in if is_finish_cb p.callback then p.run_id ∷ rest else rest

-- There is a result exactly after a finish, and at most one finish callback waits, only after a finish, under the
-- id that the action keeps.
pub record IsValid (a : Action) : Type 0 where
  pub has_result : is_unsure a.result ≡ not (is_finished a.state)
  pub none_before : is_finished a.state ≡ false → finish_ids a.posted ≡ []
  pub one :
      (finish_ids a.posted ≡ [])
      ⊎ ((finish_ids a.posted ≡ a.finish_cb_run_id ∷ []) × (0 < a.finish_cb_run_id))

finish_ids-append : (ps qs : List Posted) → finish_ids (ps ++ qs) ≡ finish_ids ps ++ finish_ids qs
unfolding finish_ids
finish_ids-append [] qs = refl
finish_ids-append (p ∷ ps) qs = elim (Bool-cases (is_finish_cb p.callback)) [
  | inl e ↦ rw (e, finish_ids-append ps qs) refl
  | inr e ↦ rw (e, finish_ids-append ps qs) refl
]

-- What is removed is among what waited.
remove_posted-nil :
    (i : ℕ) (ps : List Posted) → finish_ids ps ≡ [] → finish_ids (remove_posted i ps) ≡ []
unfolding finish_ids remove_posted
remove_posted-nil i [] e = refl
remove_posted-nil i (p ∷ ps) e = ground (arith, remove_posted-nil i ps)

remove_posted-one :
    (i : ℕ) (ps : List Posted) → finish_ids ps ≡ i ∷ [] → finish_ids (remove_posted i ps) ≡ []
unfolding finish_ids remove_posted
remove_posted-one i [] e = refl
remove_posted-one i (p ∷ ps) e = ground (arith, remove_posted-one i ps, remove_posted-nil i ps)

over_of_finished : (s : State) → is_over s ≡ false → is_finished s ≡ false
unfolding is_over is_finished
over_of_finished idle e = refl
over_of_finished running e = refl
over_of_finished pausing e = refl
over_of_finished finished e = absurd (ground (arith, e))
over_of_finished stoped e = refl

pub over_of_running : (s : State) → is_running s ≡ true → is_over s ≡ false
unfolding is_over is_running
over_of_running running e = refl
over_of_running idle e = absurd (ground (arith, e))
over_of_running pausing e = refl
over_of_running finished e = absurd (ground (arith, e))
over_of_running stoped e = absurd (ground (arith, e))

pub done-IsValid :
    (a : Action) (o : Outcome) → IsValid a → is_over a.state ≡ false → IsValid (done a o)
unfolding base_on_finished post is_finished is_unsure is_over finish_ids is_finish_cb
done-IsValid a o v e =
    let empty = v.none_before (over_of_finished a.state e) in
    record {
      has_result = ground arith;
      none_before = ground arith;
      one =
          if_elim
            (λ (b : Action).
              (finish_ids b.posted ≡ [])
              ⊎ ((finish_ids b.posted ≡ b.finish_cb_run_id ∷ []) × (0 < b.finish_cb_run_id)))
            a.has_finish_cb
            (λ _. inr (
              finish_ids-append a.posted (
                    (record {
                      run_id = a.last_run_id + 2;
                      callback = finish_cb (record o { trace = o.trace ++ a.id ∷ [] });
                    })
                    ∷ [])
                  ∙ ap (λ is. is ++ (a.last_run_id + 2) ∷ []) empty,
              omega arith,
            ))
            (λ _. inl empty);
    }

pub Reaches-IsValid : {a b : Action} → IsValid a → Reaches a b → IsValid b
Reaches-IsValid v stays = v
Reaches-IsValid v (ends o e) = done-IsValid _ o v e

-- Another state in which the action has not finished.
pub moved-IsValid :
    (s : State) (t : Option Bool) (a : Action)
    → is_finished s ≡ false
    → is_finished a.state ≡ false
    → IsValid a
    → IsValid (record a { state = s; timer_ev = t })
moved-IsValid s t a e h v = record {
  has_result = v.has_result ∙ ap not (h ∙ sym e);
  none_before = λ _. v.none_before h;
  one = v.one;
}

-- No finish callback is left.
pub no_finish : (a : Action) → IsValid a → finish_ids (cancel_dispatched_callback a).posted ≡ []
unfolding cancel_dispatched_callback
no_finish a v =
    let once : List Posted =
      if a.finish_cb_run_id == 0 then a.posted else remove_posted a.finish_cb_run_id a.posted in
    let none_left : finish_ids once ≡ [] =
      if_elim (λ ps. finish_ids ps ≡ []) (a.finish_cb_run_id == 0)
        (λ e. elim v.one [ inl h ↦ h | inr (h, pos) ↦ absurd (ground (arith, e, pos)) ])
        (λ _. elim v.one [
          | inl h ↦ remove_posted-nil a.finish_cb_run_id a.posted h
          | inr (h, pos) ↦ remove_posted-one a.finish_cb_run_id a.posted h
        ]) in
    if_elim (λ ps. finish_ids ps ≡ []) (a.block_cb_run_id == 0) (λ _. none_left)
      (λ _. remove_posted-nil a.block_cb_run_id once none_left)

pub cancelled-IsValid :
    (t : Option Bool) (a : Action)
    → IsValid a
    → IsValid
        (record (cancel_dispatched_callback a) { timer_ev = t; state = idle; result = unsure })
unfolding cancel_dispatched_callback is_finished is_unsure
cancelled-IsValid t a v = record {
  has_result = refl;
  none_before = λ _. no_finish a v;
  one = inl (no_finish a v);
}

pub blocked-IsValid :
    (why : Reason) (trace : List ℕ) (a : Action)
    → is_over a.state ≡ false
    → IsValid a
    → IsValid (base_on_block why trace (set_state pausing a))
unfolding base_on_block set_state post is_finished finish_ids is_finish_cb
blocked-IsValid why trace a e v =
    let none_yet = v.none_before (over_of_finished a.state e) in
    let paused = moved-IsValid pausing a.timer_ev a refl (over_of_finished a.state e) v in
    let grown =
      finish_ids-append a.posted
        ((record { run_id = a.last_run_id + 2; callback = block_cb why (trace ++ a.id ∷ []) }) ∷ [])
      ∙ ap (λ is. is ++ []) none_yet in
    if_elim IsValid a.has_block_cb
      (λ _. record { has_result = paused.has_result; none_before = λ _. grown; one = inl grown })
      (λ _. paused)

pub finish_ids-calls_first :
    (ps : List Posted) (i : ℕ)
    → (finish_ids ps ≡ []) ⊎ (finish_ids ps ≡ i ∷ [])
    → (finish_ids (calls_first ps) ≡ []) ⊎ (finish_ids (calls_first ps) ≡ i ∷ [])
unfolding finish_ids calls_first
finish_ids-calls_first [] i h = inl refl
finish_ids-calls_first (p ∷ ps) i h = ground (arith, h)

pub finish_ids-calls_first_nil :
    (ps : List Posted) → finish_ids ps ≡ [] → finish_ids (calls_first ps) ≡ []
unfolding finish_ids calls_first
finish_ids-calls_first_nil [] e = refl
finish_ids-calls_first_nil (p ∷ ps) e = ground (arith, e)
