-- ===== src/Event/RunQueue.antt =====
-- modules/event/common_loop_run.cpp: the functions that a loop is asked to run, in order.
-- A function is a number. What it does when it is called, `body`, is a parameter: the calls that it makes of the
-- loop, which may depend on all functions called before. The log is written at the call of a function only: the id
-- of its item, and the function.
-- Locks, clocks, water lines, and the counters of the longest queues are left out; a write to or read from the
-- event descriptor is the change of `has_commit_run_req`.

pub mod Cancel
pub mod Kept
pub mod Drain
mod Tests
use cpp_tbox.Common.{
  ℕ, zero, suc, ◌+◌, ◌-◌, ◌%◌, ◌^◌, Bool, true, false, ◌&&◌, ◌||◌, not, List, [], ◌∷◌, ◌++◌, Option,
  none, some, ◌==◌, if◌then◌else◌, length,
}

-- `func` is none for an empty std::function.
pub record RunFuncItem : Type 0 where
  pub id : ℕ
  pub func : Option ℕ

pub record Loop : Type 0 where
  pub run_in_loop_id_alloc : ℕ
  pub run_next_id_alloc : ℕ
  pub run_in_loop_func_queue : List RunFuncItem
  pub run_next_func_queue : List RunFuncItem
  pub tmp_func_queue : List RunFuncItem
  pub has_commit_run_req : Bool
  pub is_running : Bool
  pub cb_level : ℕ
  pub log : List (ℕ × ℕ)

abbrev pub init : Loop
init = record {
  run_in_loop_id_alloc = 0;
  run_next_id_alloc = 1;
  run_in_loop_func_queue = [];
  run_next_func_queue = [];
  tmp_func_queue = [];
  has_commit_run_req = false;
  is_running = false;
  cb_level = 0;
  log = [];
}

-- The id is not 0, though the sum wraps.
pub alloc_run_in_loop_id : Loop → ℕ
alloc_run_in_loop_id l =
    let id = (l.run_in_loop_id_alloc + 2) % 2 ^ 64 in if id == 0 then id + 2 else id

pub alloc_run_next_id : Loop → ℕ
alloc_run_next_id l = (l.run_next_id_alloc + 2) % 2 ^ 64

pub commit_run_request : Loop → Loop
commit_run_request l = record l { has_commit_run_req = true }

pub finish_run_request : Loop → Loop
finish_run_request l = record l { has_commit_run_req = false }

pub run_in_loop : Option ℕ → Loop → ℕ × Loop
unfolding alloc_run_in_loop_id commit_run_request
run_in_loop f l =
    let id = alloc_run_in_loop_id l in
    let l₁ = record l {
      run_in_loop_id_alloc = id;
      run_in_loop_func_queue = l.run_in_loop_func_queue ++ (record { id = id; func = f }) ∷ [];
    } in
    (id, if l.is_running then commit_run_request l₁ else l₁)

pub run_next : Option ℕ → Loop → ℕ × Loop
unfolding alloc_run_next_id
run_next f l =
    let id = alloc_run_next_id l in
    (
      id,
      record l {
        run_next_id_alloc = id;
        run_next_func_queue = l.run_next_func_queue ++ (record { id = id; func = f }) ∷ [];
      },
    )

-- `run`, from the loop's own thread or from another.
pub run : Bool → Option ℕ → Loop → ℕ × Loop
run in_loop_thread f l =
    if l.is_running && not in_loop_thread then run_in_loop f l else run_next f l

-- `RemoveRunFuncItemById`
pub remove_by_id : ℕ → List RunFuncItem → Bool × List RunFuncItem
remove_by_id id [] = (false, [])
remove_by_id id (x ∷ xs) =
    let (found, rest) = remove_by_id id xs in if x.id == id then (true, rest) else (found, x ∷ rest)

pub cancel : ℕ → Loop → Bool × Loop
cancel id l =
    let (in_tmp, tmp) = remove_by_id id l.tmp_func_queue in
    let (in_next, next) = remove_by_id id l.run_next_func_queue in
    let (in_queue, queue) = remove_by_id id l.run_in_loop_func_queue in
    if id == 0
    then (false, l)
    else if in_tmp
    then (true, record l { tmp_func_queue = tmp })
    else if id % 2 == 1
    then (in_next, record l { run_next_func_queue = next })
    else (in_queue, record l { run_in_loop_func_queue = queue })

-- What a function may ask of the loop while it runs.
pub data Call : Type 0 where
  runs_in_loop : Option ℕ → Call
  runs_next : Option ℕ → Call
  runs : Option ℕ → Call
  cancels : ℕ → Call

pub perform : Call → Loop → Loop
perform (runs_in_loop f) l = (run_in_loop f l).1
perform (runs_next f) l = (run_next f l).1
perform (runs f) l = (run true f l).1
perform (cancels id) l = (cancel id l).1

pub perform_all : List Call → Loop → Loop
perform_all [] l = l
perform_all (c ∷ cs) l = perform_all cs (perform c l)

module _ (body : ℕ → List (ℕ × ℕ) → List Call) where
  -- `item.func()`
  pub call_func : ℕ → ℕ → Loop → Loop
  call_func id f l =
      let log' = l.log ++ (id, f) ∷ [] in
      let l₁ = perform_all (body f log') (record l { cb_level = l.cb_level + 1; log = log' }) in
      record l₁ { cb_level = l₁.cb_level - 1 }

  -- An item whose turn it is.
  pub invoke : RunFuncItem → Loop → Loop
  invoke item l = elim item.func [ none ↦ l | some f ↦ call_func item.id f l ]

  -- The loop over `tmp_func_queue_`, with the number of its items as fuel.
  pub drain : ℕ → Loop → Loop
  drain zero l = l
  drain (suc n) l = elim l.tmp_func_queue [
    | [] ↦ l
    | item ∷ rest ↦ drain n (invoke item (record l { tmp_func_queue = rest }))
  ]

  pub handle_next_func : Loop → Loop
  handle_next_func l =
      let l₁ = record l {
        run_next_func_queue = l.tmp_func_queue;
        tmp_func_queue = l.run_next_func_queue;
      } in
      drain (length l₁.tmp_func_queue) l₁

  pub handle_run_in_loop_func : Loop → Loop
  unfolding finish_run_request
  handle_run_in_loop_func l =
      let l₁ = finish_run_request (record l {
        run_in_loop_func_queue = l.tmp_func_queue;
        tmp_func_queue = l.run_in_loop_func_queue;
      }) in
      drain (length l₁.tmp_func_queue) l₁

  -- The two loops of `cleanupDeferredTasks` over queues of its own.
  pub run_all : List RunFuncItem → Loop → Loop
  run_all [] l = l
  run_all (x ∷ xs) l = run_all xs (invoke x l)

  pub has_no_task : Loop → Bool
  has_no_task l = elim l.run_in_loop_func_queue [
    | [] ↦ elim l.run_next_func_queue [ [] ↦ true | _ ∷ _ ↦ false ]
    | _ ∷ _ ↦ false
  ]

  pub cleanup_round : Loop → Loop
  cleanup_round l = run_all l.run_in_loop_func_queue (
      run_all l.run_next_func_queue
        (record l { run_in_loop_func_queue = []; run_next_func_queue = [] }))

  -- `remain_loop_count` rounds at most.
  pub cleanup_from : ℕ → Loop → Loop
  cleanup_from zero l = l
  cleanup_from (suc n) l = elim (has_no_task l) [
    | true ↦ l
    | false ↦ cleanup_from n (cleanup_round l)
  ]

  pub cleanup_deferred_tasks : Loop → Loop
  cleanup_deferred_tasks l = cleanup_from 100 l
