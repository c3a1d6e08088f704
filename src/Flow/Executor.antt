-- ===== src/Flow/Executor.antt =====
-- modules/flow/action_executor.cpp: actions that wait in three queues by priority, of which one runs.
-- The actions are known by the operations of `Child`. The callbacks of the user are notes in a log. What
-- `schedule` does may be undefined: `front()` of an empty deque. Its loops run on fuel.

pub mod Ready
pub mod Rounds
pub mod Schedule
mod Actions
mod Tests
use cpp_tbox.Common.{
  ℕ, zero, suc, ◌+◌, Bool, true, false, ◌&&◌, ◌||◌, not, List, [], ◌∷◌, ◌++◌, Option, none, some,
  ◌==◌, if◌then◌else◌, ltb, get_or, set,
}
use cpp_tbox.Flow.Action.{State, is_idle, is_pause, is_over, Child}

pub record Item (S : Type 0) : Type 0 where
  pub id : ℕ
  pub action : S

pub data Note : Type 0 where
  action_started : ℕ → Note
  action_finished : ℕ → Note
  all_finished : Note

pub record Executor (S : Type 0) : Type 0 where
  pub action_deque_array : List (List (Item S))
  pub action_id_alloc_counter : ℕ
  pub curr_action_deque_index : Option ℕ
  pub log : List Note

abbrev pub new_executor : {S : Type 0} → Executor S
new_executor = record {
  action_deque_array = [] ∷ [] ∷ [] ∷ [];
  action_id_alloc_counter = 0;
  curr_action_deque_index = none;
  log = [];
}

pub shift : Option ℕ → Option ℕ
shift none = none
shift (some i) = some (suc i)

-- The queue of the highest priority that is not empty.
pub first_ready : {A : Type 0} → List (List A) → Option ℕ
first_ready [] = none
first_ready ([] ∷ qs) = shift (first_ready qs)
first_ready ((x ∷ q) ∷ qs) = some 0

-- What one round of the inner loop has come to.
pub data Step (S : Type 0) : Type 0 where
  returns : Step S
  leaves : Step S
  again : Executor S → Step S

-- What `schedule` has come to.
pub data Scheduled (S : Type 0) : Type 0 where
  scheduled : Executor S → Scheduled S
  undefined : Scheduled S
  out_of_fuel : Scheduled S

module _ {S : Type 0} where
  abbrev pub deque : ℕ → Executor S → List (Item S)
  deque i e = get_or e.action_deque_array i []

  pub with_deque : ℕ → List (Item S) → Option ℕ → List Note → Executor S → Executor S
  with_deque i q cur notes e = record e {
    action_deque_array = set e.action_deque_array i q;
    curr_action_deque_index = cur;
    log = e.log ++ notes;
  }

  -- The front of the ready queue.
  pub serve_front : Child S → ℕ → List (Item S) → Executor S → Step S
  serve_front c i [] e = leaves
  serve_front c i (item ∷ rest) e =
      let s = c.state_of item.action in
      let (ok, started) = c.start item.action in
      if is_idle s
      then (if ok
          then again (
              with_deque i ((record item { action = started }) ∷ rest) (some i)
                (action_started item.id ∷ []) e)
          else again (with_deque i rest none (action_finished item.id ∷ []) e))
      else if is_pause s
      then again
          (with_deque i ((record item { action = (c.resume item.action).1 }) ∷ rest) (some i) [] e)
      else if is_over s
      then again (with_deque i rest none (action_finished item.id ∷ []) e)
      else returns

  pub after_step :
      (Executor S → Option (Bool × Executor S)) → Step S → Executor S → Option (Bool × Executor S)
  after_step k returns e = some (true, e)
  after_step k leaves e = some (false, e)
  after_step k (again e') e = k e'

  -- The inner loop: whether it returned from `schedule`.
  pub serve : Child S → ℕ → ℕ → Executor S → Option (Bool × Executor S)
  serve c zero i e = none
  serve c (suc n) i e = after_step (λ e'. serve c n i e') (serve_front c i (deque i e) e) e

  -- The running action of a queue of lower priority is paused.
  pub pause_front : Child S → ℕ → List (Item S) → Executor S → Option (Executor S)
  pause_front c j [] e = none
  pause_front c j (item ∷ rest) e = some (record e {
    action_deque_array =
        set e.action_deque_array j ((record item { action = (c.pause item.action).1 }) ∷ rest);
  })

  pub preempt : Child S → ℕ → Option ℕ → Executor S → Option (Executor S)
  preempt c i none e = some e
  preempt c i (some j) e = if ltb i j then pause_front c j (deque j e) e else some e

  pub after_serve : (Executor S → Scheduled S) → Option (Bool × Executor S) → Scheduled S
  after_serve k none = out_of_fuel
  after_serve k (some (true, e)) = scheduled e
  after_serve k (some (false, e)) = k e

  pub after_preempt :
      (Executor S → Option (Bool × Executor S))
      → (Executor S → Scheduled S)
      → Option (Executor S)
      → Scheduled S
  after_preempt inner k none = undefined
  after_preempt inner k (some e) = after_serve k (inner e)

  -- With the queue that is ready; none where all queues are empty.
  pub attend :
      Child S
      → (ℕ → Executor S → Option (Bool × Executor S))
      → (Executor S → Scheduled S)
      → Option ℕ
      → Executor S
      → Scheduled S
  attend c inner k none e = scheduled (record e { log = e.log ++ all_finished ∷ [] })
  attend c inner k (some i) e = after_preempt (inner i) k (preempt c i e.curr_action_deque_index e)

  -- The outer loop.
  pub schedule : Child S → ℕ → Executor S → Scheduled S
  schedule c zero e = out_of_fuel
  schedule c (suc n) e =
      attend c (serve c n) (λ e'. schedule c n e') (first_ready e.action_deque_array) e

  -- `append` up to its call of `schedule`.
  pub append : S → ℕ → Executor S → ℕ × Executor S
  append action prio e =
      let id = e.action_id_alloc_counter + 1 in
      (
        id,
        record e {
          action_id_alloc_counter = id;
          action_deque_array =
              set e.action_deque_array prio
                (deque prio e ++ (record { id = id; action = action }) ∷ []);
        },
      )

  -- `current`: none where the queue pointed to is empty; some none for -1.
  pub current_at : Option ℕ → Executor S → Option (Option ℕ)
  current_at none e = some none
  current_at (some i) e = elim (deque i e) [ [] ↦ none | item ∷ _ ↦ some (some item.id) ]

  pub current : Executor S → Option (Option ℕ)
  current e = current_at e.curr_action_deque_index e

  -- `cancel` up to its call of `schedule`: the first item with the id is erased.
  pub erase_item : ℕ → List (Item S) → Bool × List (Item S)
  erase_item id [] = (false, [])
  erase_item id (x ∷ xs) =
      let (found, rest) = erase_item id xs in if x.id == id then (true, xs) else (found, x ∷ rest)

  pub erase : ℕ → List (List (Item S)) → Bool × List (List (Item S))
  erase id [] = (false, [])
  erase id (q ∷ qs) =
      let (here, q') = erase_item id q in
      let (found, qs') = erase id qs in if here then (true, q' ∷ qs) else (found, q ∷ qs')

  pub cancel : ℕ → Executor S → Bool × Executor S
  cancel id e =
      let (found, qs) = erase id e.action_deque_array in
      if found then (true, record e { action_deque_array = qs }) else (false, e)

  -- `cancelCurrent` up to its call of `schedule`; the action, which is deleted, is stopped before.
  pub cancel_current : Executor S → Option (Bool × Executor S)
  cancel_current e = elim e.curr_action_deque_index [
    | none ↦ some (false, e)
    | some i ↦ elim (deque i e) [
      | [] ↦ none
      | item ∷ rest ↦ some (true, record e { action_deque_array = set e.action_deque_array i rest })
    ]
  ]

  pub stop_front : Child S → List (Item S) → List (Item S)
  stop_front c [] = []
  stop_front c (item ∷ rest) = (record item { action = (c.stop item.action).1 }) ∷ rest

  pub cancel_all : Child S → List (List (Item S)) → List (List (Item S))
  cancel_all c [] = []
  cancel_all c (q ∷ qs) = stop_front c q ∷ cancel_all c qs
