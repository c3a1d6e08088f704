-- ===== src/Event/RunQueue/Cancel.antt =====
-- The ids of the items that wait, and `cancel`.
use cpp_tbox.Common.{
  ℕ, ◌+◌, ◌*◌, ◌%◌, ◌^◌, ◌≤◌, ◌<◌, ◌≡◌, refl, Bool, true, false, ◌&&◌, ◌||◌, not, List, [], ◌∷◌,
  ◌++◌, Option, ◌==◌, arith, if_elim,
}
use cpp_tbox.Event.RunQueue.{
  RunFuncItem, Loop, init, alloc_run_in_loop_id, alloc_run_next_id, commit_run_request, run_in_loop,
  run_next, run, remove_by_id, cancel, Call, runs_in_loop, runs_next, runs, cancels, perform,
}

abbrev pub has : ℕ → List RunFuncItem → Bool
has id [] = false
has id (x ∷ xs) = (x.id == id) || has id xs

pub has-append : (id : ℕ) (xs ys : List RunFuncItem) → has id (xs ++ ys) ≡ (has id xs || has id ys)
has-append id [] ys = refl
has-append id (x ∷ xs) ys = ground (arith, has-append id xs ys)

pub remove_by_id-found : (id : ℕ) (xs : List RunFuncItem) → (remove_by_id id xs).0 ≡ has id xs
unfolding remove_by_id
remove_by_id-found id [] = refl
remove_by_id-found id (x ∷ xs) = ground (arith, remove_by_id-found id xs)

pub has-remove_by_id :
    (j id : ℕ) (xs : List RunFuncItem) → has j (remove_by_id id xs).1 ≡ (has j xs && not (j == id))
unfolding remove_by_id
has-remove_by_id j id [] = refl
has-remove_by_id j id (x ∷ xs) = ground (arith, has-remove_by_id j id xs)

-- The ids are of their queue's kind, and were allocated before; no item of the queue that is being run
-- waits in another queue as well.
pub record IsValid (l : Loop) : Type 0 where
  pub next_odd : l.run_next_id_alloc % 2 ≡ 1
  pub in_loop_even : l.run_in_loop_id_alloc % 2 ≡ 0
  pub in_next :
      (id : ℕ) → has id l.run_next_func_queue ≡ true → (id % 2 ≡ 1) × (id ≤ l.run_next_id_alloc)
  pub in_queue :
      (id : ℕ)
      → has id l.run_in_loop_func_queue ≡ true
      → (id % 2 ≡ 0) × (0 < id) × (id ≤ l.run_in_loop_id_alloc)
  pub in_tmp :
      (id : ℕ)
      → has id l.tmp_func_queue ≡ true
      → (0 < id)
        × (id % 2 ≡ 1 → id ≤ l.run_next_id_alloc)
        × (id % 2 ≡ 0 → id ≤ l.run_in_loop_id_alloc)
        × (has id l.run_next_func_queue ≡ false)
        × (has id l.run_in_loop_func_queue ≡ false)

-- An item waits in one of the three queues.
abbrev pub is_pending : ℕ → Loop → Bool
is_pending id l =
    has id l.tmp_func_queue || (has id l.run_next_func_queue || has id l.run_in_loop_func_queue)

-- In a loop whose queues are well-formed, cancel returns true exactly where an item with the id
-- waits in one of the three queues, after which no item with this id waits, all others still do,
-- and nothing was run.
pub cancel_lem :
    (id : ℕ) (l : Loop)
    → IsValid l
    → let (ok, l') = cancel id l in
      (ok ≡ is_pending id l)
      × ((j : ℕ) → is_pending j l' ≡ (is_pending j l && not (j == id)))
      × (l'.log ≡ l.log)
unfolding cancel
cancel_lem id l v = (
  ground (
    arith,
    remove_by_id-found id l.tmp_func_queue,
    remove_by_id-found id l.run_next_func_queue,
    remove_by_id-found id l.run_in_loop_func_queue,
    v.in_next id,
    v.in_queue id,
    v.in_tmp id,
  ),
  (λ j. ground (
    arith,
    remove_by_id-found id l.tmp_func_queue,
    remove_by_id-found id l.run_next_func_queue,
    remove_by_id-found id l.run_in_loop_func_queue,
    has-remove_by_id j id l.tmp_func_queue,
    has-remove_by_id j id l.run_next_func_queue,
    has-remove_by_id j id l.run_in_loop_func_queue,
    v.in_next id,
    v.in_queue id,
    v.in_tmp id,
  )),
  ground arith,
)

-- A loop that was just built.
pub init-IsValid : IsValid init
init-IsValid = record {
  next_odd = refl;
  in_loop_even = refl;
  in_next = λ id e. absurd (ground (arith, e));
  in_queue = λ id e. absurd (ground (arith, e));
  in_tmp = λ id e. absurd (ground (arith, e));
}

-- Fewer than all ids have been allocated, with room for `n` more.
abbrev pub Fresh : ℕ → Loop → Type 0
Fresh n l = (l.run_next_id_alloc + 2 * n < 2 ^ 64) × (l.run_in_loop_id_alloc + 2 * n < 2 ^ 64)

run_next-IsValid : (f : Option ℕ) (l : Loop) → IsValid l → Fresh 1 l → IsValid (run_next f l).1
unfolding run_next alloc_run_next_id
run_next-IsValid f l v h = record {
  next_odd = omega (arith, v.next_odd);
  in_loop_even = v.in_loop_even;
  in_next = λ id e. ground (
    arith,
    v.next_odd,
    v.in_next id,
    has-append id l.run_next_func_queue ((record { id = alloc_run_next_id l; func = f }) ∷ []),
  );
  in_queue = v.in_queue;
  in_tmp = λ id e. ground (
    arith,
    v.next_odd,
    v.in_tmp id,
    has-append id l.run_next_func_queue ((record { id = alloc_run_next_id l; func = f }) ∷ []),
  );
}

-- The commit flag is no part of the invariant.
queued-IsValid :
    (f : Option ℕ) (l : Loop) {b : Bool}
    → IsValid l
    → Fresh 1 l
    → IsValid (record l {
      run_in_loop_id_alloc = alloc_run_in_loop_id l;
      run_in_loop_func_queue =
          l.run_in_loop_func_queue ++ (record { id = alloc_run_in_loop_id l; func = f }) ∷ [];
      has_commit_run_req = b;
    })
unfolding alloc_run_in_loop_id
queued-IsValid f l v h = record {
  next_odd = v.next_odd;
  in_loop_even = ground (arith, v.in_loop_even);
  in_next = v.in_next;
  in_queue = λ id e. ground (
    arith,
    v.in_loop_even,
    v.in_queue id,
    has-append id l.run_in_loop_func_queue
        ((record { id = alloc_run_in_loop_id l; func = f }) ∷ []),
  );
  in_tmp = λ id e. ground (
    arith,
    v.in_loop_even,
    v.in_tmp id,
    has-append id l.run_in_loop_func_queue
        ((record { id = alloc_run_in_loop_id l; func = f }) ∷ []),
  );
}

cancel-IsValid : (id : ℕ) (l : Loop) → IsValid l → IsValid (cancel id l).1
unfolding cancel
cancel-IsValid id l v = record {
  next_odd = ground (arith, v.next_odd);
  in_loop_even = ground (arith, v.in_loop_even);
  in_next = λ j e. ground (arith, v.in_next j, has-remove_by_id j id l.run_next_func_queue);
  in_queue = λ j e. ground (arith, v.in_queue j, has-remove_by_id j id l.run_in_loop_func_queue);
  in_tmp = λ j e. ground (
    arith,
    v.in_tmp j,
    has-remove_by_id j id l.tmp_func_queue,
    has-remove_by_id j id l.run_next_func_queue,
    has-remove_by_id j id l.run_in_loop_func_queue,
  );
}

run_in_loop-IsValid :
    (f : Option ℕ) (l : Loop) → IsValid l → Fresh 1 l → IsValid (run_in_loop f l).1
unfolding run_in_loop alloc_run_in_loop_id commit_run_request
run_in_loop-IsValid f l v h =
    if_elim IsValid l.is_running (λ _. queued-IsValid f l v h) (λ _. queued-IsValid f l v h)

-- While ids do not wrap, runInLoop, runNext, run and cancel keep the queues well-formed: odd ids
-- for runNext and even ones but 0 for runInLoop, all allocated before, and no item of the queue
-- being run waits in another.
pub perform-IsValid : (c : Call) (l : Loop) → IsValid l → Fresh 1 l → IsValid (perform c l)
unfolding perform run
perform-IsValid (runs_in_loop f) l v h = run_in_loop-IsValid f l v h
perform-IsValid (runs_next f) l v h = run_next-IsValid f l v h
perform-IsValid (runs f) l v h = ground (arith, run_next-IsValid f l v h)
perform-IsValid (cancels id) l v h = cancel-IsValid id l v
