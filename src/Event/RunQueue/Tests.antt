-- ===== src/Event/RunQueue/Tests.antt =====
-- A loop with three functions: 7 asks for function 8 and cancels the item with id 5, the others ask for nothing.
use cpp_tbox.Common.{
  ℕ, ◌≡◌, ◌++◌, ◌&&◌, ◌==◌, not, false, List, [], ◌∷◌, some, refl, arith, if◌then◌else◌, if_elim,
}
use cpp_tbox.Event.RunQueue.{
  RunFuncItem, Loop, init, alloc_run_in_loop_id, alloc_run_next_id, commit_run_request,
  remove_by_id, invoke, call_func, drain, run_all, cleanup_from, has_no_task, run_next, run_in_loop,
  cancel, Call, runs_in_loop, runs_next, cancels, perform, perform_all, handle_next_func,
  cleanup_round, cleanup_deferred_tasks,
}
use cpp_tbox.Event.RunQueue.Cancel.{is_pending, IsValid, init-IsValid, cancel_lem, perform-IsValid}
use cpp_tbox.Event.RunQueue.Kept.{is_cancelled}
use cpp_tbox.Event.RunQueue.Drain.{
  called, Spares, IsRound, handle_next_func_lem, run_next-handle_next_func, cleanup_round-log,
}

abbrev calls_of : ℕ → List (ℕ × ℕ) → List Call
calls_of f log = if f == 7 then runs_next (some 8) ∷ cancels 5 ∷ [] else []

abbrev three : Loop
three = perform_all (runs_next (some 7) ∷ runs_next (some 9) ∷ runs_in_loop (some 6) ∷ []) init

three-IsValid : IsValid three
unfolding perform_all perform run_next run_in_loop alloc_run_in_loop_id alloc_run_next_id
    commit_run_request
three-IsValid =
    perform-IsValid (runs_in_loop (some 6))
      (perform_all (runs_next (some 7) ∷ runs_next (some 9) ∷ []) init)
      (perform-IsValid (runs_next (some 9)) (perform (runs_next (some 7)) init)
        (perform-IsValid (runs_next (some 7)) init init-IsValid (omega arith, omega arith))
        (omega arith, omega arith))
      (omega arith, omega arith)

three_rests : three.tmp_func_queue ≡ []
unfolding perform_all perform run_next run_in_loop alloc_run_in_loop_id alloc_run_next_id
    commit_run_request
three_rests = refl

cancelled_while_running : (handle_next_func calls_of three).log ≡ (3, 7) ∷ []
unfolding perform_all perform run_next run_in_loop alloc_run_in_loop_id alloc_run_next_id
    commit_run_request handle_next_func drain invoke call_func cancel remove_by_id
cancelled_while_running = refl

cleaned_up : (cleanup_deferred_tasks calls_of three).log ≡ (3, 7) ∷ (5, 9) ∷ (2, 6) ∷ (7, 8) ∷ []
unfolding perform_all perform run_next run_in_loop alloc_run_in_loop_id alloc_run_next_id
    commit_run_request cleanup_deferred_tasks cleanup_from cleanup_round run_all has_no_task invoke
    call_func cancel remove_by_id
cleaned_up = refl

cancel_lem_example :
    let (ok, l') = cancel 5 three in
    (ok ≡ is_pending 5 three)
    × ((j : ℕ) → is_pending j l' ≡ (is_pending j three && not (j == 5)))
    × (l'.log ≡ three.log)
cancel_lem_example = cancel_lem 5 three three-IsValid

perform-IsValid_example : IsValid (perform (runs_next (some 4)) init)
perform-IsValid_example =
    perform-IsValid (runs_next (some 4)) init init-IsValid (omega arith, omega arith)

handle_next_func_lem_example :
    (ran : List RunFuncItem) × IsRound calls_of three (handle_next_func calls_of three) ran
handle_next_func_lem_example = handle_next_func_lem calls_of three three_rests

seventh_is_spared : Spares calls_of (run_next (some 3) three).0
unfolding Spares is_cancelled run_next perform_all perform run_in_loop alloc_run_next_id
    alloc_run_in_loop_id
seventh_is_spared f log =
    if_elim (λ (cs : List Call). is_cancelled 7 cs ≡ false) (f == 7) (λ _. refl) (λ _. refl)

run_next-handle_next_func_example :
    let (id, l₁) = run_next (some 3) three in
    (before : List (ℕ × ℕ)) × (after : List (ℕ × ℕ)) × ((handle_next_func calls_of l₁).log
      ≡ three.log ++ (before ++ ((id, 3) ∷ after)))
run_next-handle_next_func_example =
    run_next-handle_next_func calls_of 3 three three_rests seventh_is_spared

cleanup_round-log_example :
    (cleanup_round calls_of three).log
    ≡ (three.log ++ called three.run_next_func_queue) ++ called three.run_in_loop_func_queue
cleanup_round-log_example = cleanup_round-log calls_of three
