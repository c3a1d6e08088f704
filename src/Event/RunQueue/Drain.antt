-- ===== src/Event/RunQueue/Drain.antt =====
-- What one round of a queue runs: the items that waited when it began, in their order.
use cpp_tbox.Common.{
  ℕ, zero, suc, ◌+◌, ◌≤◌, ◌≡◌, refl, sym, ap, subst, ◌∙◌, false, List, [], ◌∷◌, ◌++◌, append-nil,
  append_assoc, Option, none, some, inl, inr, length, arith,
}
use cpp_tbox.Event.RunQueue.{
  RunFuncItem, Loop, finish_run_request, alloc_run_next_id, run_next, Call, call_func, invoke,
  drain, handle_next_func, handle_run_in_loop_func, run_all, cleanup_round,
}
use cpp_tbox.Event.RunQueue.Kept.{
  SubList, done, keep, SubList-refl, SubList-trans, SubList-length, is_cancelled,
  is_cancelled-append, In, In-right, asked, last_id, Asked, Asked-refl, Asked-trans,
  perform_all-Kept,
}

-- The calls of the functions of items, one after the other; an empty function is not called.
unfoldable pub called : List RunFuncItem → List (ℕ × ℕ)
called [] = []
called (x ∷ xs) = elim x.func [ none ↦ called xs | some f ↦ (x.id, f) ∷ called xs ]

pub In-called :
    (id f : ℕ) (xs : List RunFuncItem)
    → In (record { id = id; func = some f }) xs
    → (before : List (ℕ × ℕ)) × (after : List (ℕ × ℕ)) × (called xs ≡ before ++ ((id, f) ∷ after))
unfolding called
In-called id f [] h = absurd h
In-called id f (x ∷ xs) (inl e) = ([], called xs, ap (λ y. called (y ∷ xs)) (sym e))
In-called id f (x ∷ xs) (inr h) =
    let (before, after, e) = In-called id f xs h in behind x.func before after e
  where
    behind :
        (g : Option ℕ) (before after : List (ℕ × ℕ))
        → called xs ≡ before ++ ((id, f) ∷ after)
        → (b : List (ℕ × ℕ)) × (a : List (ℕ × ℕ)) × ((elim g [
          | none ↦ called xs
          | some k ↦ (x.id, k) ∷ called xs
        ])
            ≡ b ++ ((id, f) ∷ a))
    behind none before after e = (before, after, e)
    behind (some k) before after e = ((x.id, k) ∷ before, after, ap (λ t. (x.id, k) ∷ t) e)

module _ (body : ℕ → List (ℕ × ℕ) → List Call) where
  -- No function cancels this id, whenever it runs.
  unfoldable pub Spares : ℕ → Type 0
  Spares id = (f : ℕ) (log : List (ℕ × ℕ)) → is_cancelled id (body f log) ≡ false

  calls_of : RunFuncItem → List (ℕ × ℕ) → List Call
  calls_of x log = elim x.func [ none ↦ [] | some f ↦ body f (log ++ (x.id, f) ∷ []) ]

  -- What the functions of items ask of the loop, one after the other, after those of the record.
  unfoldable pub calls_made : List (ℕ × ℕ) → List RunFuncItem → List Call
  unfolding calls_of
  calls_made log [] = []
  calls_made log (x ∷ xs) = calls_of x log ++ calls_made (log ++ called (x ∷ [])) xs

  calls_of-Spares :
      (id : ℕ) (x : RunFuncItem) (log : List (ℕ × ℕ))
      → Spares id
      → is_cancelled id (calls_of x log) ≡ false
  unfolding calls_of Spares is_cancelled
  calls_of-Spares id x log s = of_func x.func
    where
      of_func :
          (g : Option ℕ)
          → is_cancelled id (elim g [ none ↦ [] | some f ↦ body f (log ++ (x.id, f) ∷ []) ]) ≡ false
      of_func none = refl
      of_func (some f) = s f (log ++ (x.id, f) ∷ [])

  calls_made-Spares :
      (id : ℕ) (xs : List RunFuncItem) (log : List (ℕ × ℕ))
      → Spares id
      → is_cancelled id (calls_made log xs) ≡ false
  unfolding calls_made is_cancelled
  calls_made-Spares id [] log s = refl
  calls_made-Spares id (x ∷ xs) log s = ground (
    arith,
    is_cancelled-append id (calls_of x log) (calls_made (log ++ called (x ∷ [])) xs),
    calls_of-Spares id x log s,
    calls_made-Spares id xs (log ++ called (x ∷ [])) s,
  )

  -- An item that is run.
  record Ran (x : RunFuncItem) (l l' : Loop) : Type 0 where
    log : l'.log ≡ l.log ++ called (x ∷ [])
    level : l'.cb_level ≡ l.cb_level
    sub : SubList l'.tmp_func_queue l.tmp_func_queue
    spared : (y : RunFuncItem) → Spares y.id → In y l.tmp_func_queue → In y l'.tmp_func_queue
    asks : Asked (calls_of x l.log) l l'

  invoke-Ran :
      (id : ℕ) (f : Option ℕ) (l : Loop)
      → Ran (record { id = id; func = f }) l (invoke body (record { id = id; func = f }) l)
  unfolding invoke call_func Spares called calls_of asked last_id
  invoke-Ran id none l = record {
    log = sym (append-nil l.log);
    level = refl;
    sub = SubList-refl l.tmp_func_queue;
    spared = λ y e h. h;
    asks = Asked-refl [] l l refl (sym (append-nil l.run_next_func_queue));
  }
  invoke-Ran id (some f) l =
      let log' : List (ℕ × ℕ) = l.log ++ (id, f) ∷ [] in
      let l₀ : Loop = record l { log = log'; cb_level = l.cb_level + 1 } in
      let kept = perform_all-Kept (body f log') l₀ in
      record {
        log = kept.log;
        level = omega (arith, kept.level);
        sub = kept.sub;
        spared = λ y e. kept.spared y (e f log');
        asks = record { ids = kept.asks.ids; next = kept.asks.next; waits = kept.asks.waits };
      }

  called-cons :
      (x : RunFuncItem) (xs : List RunFuncItem) → called (x ∷ []) ++ called xs ≡ called (x ∷ xs)
  unfolding called
  called-cons x xs = of_func x.func
    where
      of_func :
          (g : Option ℕ)
          → (elim g [ none ↦ [] | some f ↦ (x.id, f) ∷ [] ]) ++ called xs
            ≡ (elim g [ none ↦ called xs | some f ↦ (x.id, f) ∷ called xs ])
      of_func none = refl
      of_func (some f) = refl

  -- What the loop over the queue has done.
  pub record Drained (l l' : Loop) (ran : List RunFuncItem) : Type 0 where
    pub in_order : SubList ran l.tmp_func_queue
    pub log : l'.log ≡ l.log ++ called ran
    pub emptied : l'.tmp_func_queue ≡ []
    pub level : l'.cb_level ≡ l.cb_level
    pub spared : (x : RunFuncItem) → Spares x.id → In x l.tmp_func_queue → In x ran
    pub asks : Asked (calls_made l.log ran) l l'

  nothing_left :
      (l : Loop) → Drained (record l { tmp_func_queue = [] }) (record l { tmp_func_queue = [] }) []
  unfolding called calls_made asked last_id
  nothing_left l = record {
    in_order = done;
    log = sym (append-nil l.log);
    emptied = refl;
    level = refl;
    spared = λ x s h. h;
    asks =
        Asked-refl [] (record l { tmp_func_queue = [] }) (record l { tmp_func_queue = [] }) refl
          (sym (append-nil l.run_next_func_queue));
  }

  drain_at :
      (n : ℕ) (tmp : List RunFuncItem) (l : Loop)
      → length tmp ≤ n
      → let l₀ = record l { tmp_func_queue = tmp } in
        (ran : List RunFuncItem) × Drained l₀ (drain body n l₀) ran
  unfolding drain calls_made
  drain_at zero [] l h = ([], nothing_left l)
  drain_at zero (x ∷ rest) l h = absurd (omega arith)
  drain_at (suc n) [] l h = ([], nothing_left l)
  drain_at (suc n) (x ∷ rest) l h =
      let l₀ : Loop = record l { tmp_func_queue = rest } in
      let l₁ : Loop = invoke body x l₀ in
      let first = invoke-Ran x.id x.func l₀ in
      let (ran, later) =
        drain_at n l₁.tmp_func_queue l₁ (omega (arith, SubList-length first.sub)) in
      let made : List Call = calls_made (l.log ++ called (x ∷ [])) ran in
      let rest_asks : Asked made l₁ (drain body n l₁) =
        subst (λ k. Asked (calls_made k ran) l₁ (drain body n l₁)) first.log later.asks in
      let asks = Asked-trans (calls_of x l.log) made l₀ l₁ (drain body n l₁) first.asks rest_asks in
      (
        x ∷ ran,
        record {
          in_order = keep (SubList-trans later.in_order first.sub);
          log =
              later.log
              ∙ ap (λ k. k ++ called ran) first.log
              ∙ append_assoc l.log (called (x ∷ [])) (called ran)
              ∙ ap (λ t. l.log ++ t) (called-cons x ran);
          emptied = later.emptied;
          level = later.level ∙ first.level;
          spared = λ y s i. elim i [
            | inl e ↦ inl e
            | inr k ↦ inr (later.spared y s (first.spared y s k))
          ];
          asks = record { ids = asks.ids; next = asks.next; waits = asks.waits };
        },
      )

  handle_next_func-Drained :
      (l : Loop)
      → l.tmp_func_queue ≡ []
      → let l₁ = record l {
        run_next_func_queue = l.tmp_func_queue;
        tmp_func_queue = l.run_next_func_queue;
      } in
        (ran : List RunFuncItem) × Drained l₁ (handle_next_func body l) ran
  unfolding handle_next_func
  handle_next_func-Drained l e =
      drain_at (length l.run_next_func_queue) l.run_next_func_queue
        (record l { run_next_func_queue = l.tmp_func_queue }) (omega arith)

  -- What a round of handleNextFunc has come to.
  pub record IsRound (l l' : Loop) (ran : List RunFuncItem) : Type 0 where
    pub in_order : SubList ran l.run_next_func_queue
    pub complete : (x : RunFuncItem) → Spares x.id → In x l.run_next_func_queue → In x ran
    pub log : l'.log ≡ l.log ++ called ran
    pub emptied : l'.tmp_func_queue ≡ []
    pub level : l'.cb_level ≡ l.cb_level
    pub later : SubList l'.run_next_func_queue (asked l.run_next_id_alloc (calls_made l.log ran))
    pub waits :
        (x : RunFuncItem)
        → Spares x.id
        → In x (asked l.run_next_id_alloc (calls_made l.log ran))
        → In x l'.run_next_func_queue

  -- A round of handleNextFunc from an empty temporary queue ends with that queue empty. It takes
  -- some of the items that waited when it began, in their order, all those among them whose ids no
  -- function cancels, and calls the functions of those it takes and no others; the callback level
  -- is as before. In the queue for the next round stand then the items that these functions asked
  -- runNext and run for, with ids counted up from the last one, in their order, but for some that
  -- functions cancelled.
  pub handle_next_func_lem :
      (l : Loop)
      → l.tmp_func_queue ≡ []
      → (ran : List RunFuncItem) × IsRound l (handle_next_func body l) ran
  handle_next_func_lem l e =
      let (ran, d) = handle_next_func-Drained l e in
      let before : l.tmp_func_queue ++ asked l.run_next_id_alloc (calls_made l.log ran)
          ≡ asked l.run_next_id_alloc (calls_made l.log ran) =
        ap (λ q. q ++ asked l.run_next_id_alloc (calls_made l.log ran)) e in
      (
        ran,
        record {
          in_order = d.in_order;
          complete = d.spared;
          log = d.log;
          emptied = d.emptied;
          level = d.level;
          later = subst (SubList (handle_next_func body l).run_next_func_queue) before d.asks.next;
          waits = λ x s h.
              d.asks.waits x (calls_made-Spares x.id ran l.log s) (subst (In x) (sym before) h);
        },
      )

  -- The same of a round of the functions given by runInLoop.
  handle_run_in_loop_func_lem :
      (l : Loop)
      → l.tmp_func_queue ≡ []
      → let l' = handle_run_in_loop_func body l in
        (ran : List RunFuncItem) × SubList ran l.run_in_loop_func_queue
        × (l'.log ≡ l.log ++ called ran)
        × (l'.tmp_func_queue ≡ [])
  unfolding handle_run_in_loop_func finish_run_request
  handle_run_in_loop_func_lem l e =
      let (ran, d) =
        drain_at (length l.run_in_loop_func_queue) l.run_in_loop_func_queue
          (record l { run_in_loop_func_queue = l.tmp_func_queue; has_commit_run_req = false })
          (omega arith) in
      (ran, d.in_order, d.log, d.emptied)

  -- From an empty temporary queue, a function given to runNext is called in the next round of
  -- handleNextFunc, unless some function cancels its id; what was called before stays in the
  -- record.
  pub run_next-handle_next_func :
      (f : ℕ) (l : Loop)
      → l.tmp_func_queue ≡ []
      → Spares (run_next (some f) l).0
      → let (id, l₁) = run_next (some f) l in
        (before : List (ℕ × ℕ)) × (after : List (ℕ × ℕ)) × ((handle_next_func body l₁).log
          ≡ l.log ++ (before ++ ((id, f) ∷ after)))
  unfolding run_next
  run_next-handle_next_func f l e s =
      let id : ℕ = alloc_run_next_id l in
      let item : RunFuncItem = record { id = id; func = some f } in
      let (ran, d) = handle_next_func-Drained (run_next (some f) l).1 e in
      let (before, after, there) =
        In-called id f ran
          (d.spared item s (In-right item l.run_next_func_queue (item ∷ []) (inl refl))) in
      (before, after, d.log ∙ ap (λ t. l.log ++ t) there)

  run_all-log : (xs : List RunFuncItem) (l : Loop) → (run_all body xs l).log ≡ l.log ++ called xs
  unfolding run_all called
  run_all-log [] l = sym (append-nil l.log)
  run_all-log (x ∷ xs) l =
      run_all-log xs (invoke body x l)
      ∙ ap (λ k. k ++ called xs) (invoke-Ran x.id x.func l).log
      ∙ append_assoc l.log (called (x ∷ [])) (called xs)
      ∙ ap (λ t. l.log ++ t) (called-cons x xs)

  -- A round of cleanupDeferredTasks calls the functions of all items that waited when it began,
  -- those of runNext first, whatever ids the functions cancel meanwhile, and no others; an item
  -- with an empty function is passed over.
  pub cleanup_round-log :
      (l : Loop)
      → (cleanup_round body l).log
        ≡ (l.log ++ called l.run_next_func_queue) ++ called l.run_in_loop_func_queue
  unfolding cleanup_round
  cleanup_round-log l =
      let l₀ : Loop = record l { run_in_loop_func_queue = []; run_next_func_queue = [] } in
      run_all-log l.run_in_loop_func_queue (run_all body l.run_next_func_queue l₀)
      ∙ ap (λ k. k ++ called l.run_in_loop_func_queue) (run_all-log l.run_next_func_queue l₀)
