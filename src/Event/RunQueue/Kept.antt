-- ===== src/Event/RunQueue/Kept.antt =====
-- What the calls that a function makes leave of the queue being run, and what they ask for.
use cpp_tbox.Common.{
  ℕ, ◌+◌, ◌%◌, ◌^◌, ◌≤◌, ◌≡◌, ◌⊎◌, refl, sym, ap, subst, ◌∙◌, Bool, true, false, ◌||◌, List, [],
  ◌∷◌, ◌++◌, append-nil, append_assoc, ◌==◌, inl, inr, Bool-cases, length, arith, if_elim,
}
use cpp_tbox.Event.RunQueue.{
  RunFuncItem, Loop, commit_run_request, alloc_run_next_id, run_in_loop, run_next, run,
  remove_by_id, cancel, Call, runs_in_loop, runs_next, runs, cancels, perform, perform_all,
}

-- Some of the items of a list, in its order.
pub data SubList : List RunFuncItem → List RunFuncItem → Type 0 where
  done : SubList [] []
  keep : {x : RunFuncItem} {xs ys : List RunFuncItem} → SubList xs ys → SubList (x ∷ xs) (x ∷ ys)
  skip : {x : RunFuncItem} {xs ys : List RunFuncItem} → SubList xs ys → SubList xs (x ∷ ys)

pub SubList-refl : (xs : List RunFuncItem) → SubList xs xs
SubList-refl [] = done
SubList-refl (x ∷ xs) = keep (SubList-refl xs)

pub SubList-trans : {xs ys zs : List RunFuncItem} → SubList xs ys → SubList ys zs → SubList xs zs
SubList-trans s done = s
SubList-trans (keep s) (keep t) = keep (SubList-trans s t)
SubList-trans (skip s) (keep t) = skip (SubList-trans s t)
SubList-trans s (skip t) = skip (SubList-trans s t)

pub SubList-length : {xs ys : List RunFuncItem} → SubList xs ys → length xs ≤ length ys
SubList-length done = omega arith
SubList-length (keep s) = omega (arith, SubList-length s)
SubList-length (skip s) = omega (arith, SubList-length s)

remove_by_id-SubList : (id : ℕ) (xs : List RunFuncItem) → SubList (remove_by_id id xs).1 xs
unfolding remove_by_id
remove_by_id-SubList id [] = done
remove_by_id-SubList id (x ∷ xs) = elim (Bool-cases (x.id == id)) [
  | inl e ↦ rw e (skip (remove_by_id-SubList id xs))
  | inr e ↦ rw e (keep (remove_by_id-SubList id xs))
]

-- One of the calls cancels this id.
unfoldable pub is_cancelled : ℕ → List Call → Bool
is_cancelled id [] = false
is_cancelled id (cancels j ∷ cs) = (j == id) || is_cancelled id cs
is_cancelled id (_ ∷ cs) = is_cancelled id cs

-- An item stands in a list.
abbrev pub In : RunFuncItem → List RunFuncItem → Type 0
In x [] = ⊥
In x (y ∷ ys) = (x ≡ y) ⊎ In x ys

pub In-left : (x : RunFuncItem) (xs ys : List RunFuncItem) → In x xs → In x (xs ++ ys)
In-left x (y ∷ xs) ys (inl e) = inl e
In-left x (y ∷ xs) ys (inr h) = inr (In-left x xs ys h)
In-left x [] ys h = absurd h

pub In-right : (x : RunFuncItem) (xs ys : List RunFuncItem) → In x ys → In x (xs ++ ys)
In-right x [] ys h = h
In-right x (y ∷ xs) ys h = inr (In-right x xs ys h)

pub In-append : (x : RunFuncItem) (xs ys : List RunFuncItem) → In x (xs ++ ys) → In x xs ⊎ In x ys
In-append x [] ys h = inr h
In-append x (y ∷ xs) ys (inl e) = inl (inl e)
In-append x (y ∷ xs) ys (inr h) = elim (In-append x xs ys h) [ inl k ↦ inl (inr k) | inr k ↦ inr k ]

SubList-append :
    {xs ys : List RunFuncItem} (zs : List RunFuncItem)
    → SubList xs ys
    → SubList (xs ++ zs) (ys ++ zs)
SubList-append zs done = SubList-refl zs
SubList-append zs (keep s) = keep (SubList-append zs s)
SubList-append zs (skip s) = skip (SubList-append zs s)

remove_by_id-In :
    (id : ℕ) (x : RunFuncItem) (xs : List RunFuncItem)
    → (id == x.id) ≡ false
    → In x xs
    → In x (remove_by_id id xs).1
unfolding remove_by_id
remove_by_id-In id x [] ne h = absurd h
remove_by_id-In id x (y ∷ xs) ne (inl e) = elim (Bool-cases (y.id == id)) [
  | inl b ↦
      let other : (id == x.id) ≡ true = ground (arith, ap (λ (z : RunFuncItem). z.id) e) in
      absurd (ground arith)
  | inr b ↦ rw b (inl e)
]
remove_by_id-In id x (y ∷ xs) ne (inr h) = elim (Bool-cases (y.id == id)) [
  | inl b ↦ rw b (remove_by_id-In id x xs ne h)
  | inr b ↦ rw b (inr (remove_by_id-In id x xs ne h))
]

-- What the calls put behind the queue of runNext, whose ids go up by two from the last one.
unfoldable pub asked : ℕ → List Call → List RunFuncItem
asked a [] = []
asked a (runs_next f ∷ cs) =
    (record { id = (a + 2) % 2 ^ 64; func = f }) ∷ asked ((a + 2) % 2 ^ 64) cs
asked a (runs f ∷ cs) = (record { id = (a + 2) % 2 ^ 64; func = f }) ∷ asked ((a + 2) % 2 ^ 64) cs
asked a (_ ∷ cs) = asked a cs

-- The last id after them.
unfoldable pub last_id : ℕ → List Call → ℕ
last_id a [] = a
last_id a (runs_next f ∷ cs) = last_id ((a + 2) % 2 ^ 64) cs
last_id a (runs f ∷ cs) = last_id ((a + 2) % 2 ^ 64) cs
last_id a (_ ∷ cs) = last_id a cs

pub asked-append :
    (a : ℕ) (cs ds : List Call) → asked a (cs ++ ds) ≡ asked a cs ++ asked (last_id a cs) ds
unfolding asked last_id
asked-append a [] ds = refl
asked-append a (runs_next f ∷ cs) ds =
    ap (λ t. (record { id = (a + 2) % 2 ^ 64; func = f }) ∷ t)
      (asked-append ((a + 2) % 2 ^ 64) cs ds)
asked-append a (runs f ∷ cs) ds =
    ap (λ t. (record { id = (a + 2) % 2 ^ 64; func = f }) ∷ t)
      (asked-append ((a + 2) % 2 ^ 64) cs ds)
asked-append a (runs_in_loop f ∷ cs) ds = asked-append a cs ds
asked-append a (cancels j ∷ cs) ds = asked-append a cs ds

pub last_id-append : (a : ℕ) (cs ds : List Call) → last_id a (cs ++ ds) ≡ last_id (last_id a cs) ds
unfolding last_id
last_id-append a [] ds = refl
last_id-append a (runs_next f ∷ cs) ds = last_id-append ((a + 2) % 2 ^ 64) cs ds
last_id-append a (runs f ∷ cs) ds = last_id-append ((a + 2) % 2 ^ 64) cs ds
last_id-append a (runs_in_loop f ∷ cs) ds = last_id-append a cs ds
last_id-append a (cancels j ∷ cs) ds = last_id-append a cs ds

pub is_cancelled-append :
    (id : ℕ) (cs ds : List Call)
    → is_cancelled id (cs ++ ds) ≡ (is_cancelled id cs || is_cancelled id ds)
unfolding is_cancelled
is_cancelled-append id [] ds = refl
is_cancelled-append id (runs_in_loop f ∷ cs) ds = is_cancelled-append id cs ds
is_cancelled-append id (runs_next f ∷ cs) ds = is_cancelled-append id cs ds
is_cancelled-append id (runs f ∷ cs) ds = is_cancelled-append id cs ds
is_cancelled-append id (cancels j ∷ cs) ds = ground (arith, is_cancelled-append id cs ds)

-- In the queue of runNext stands what was there and what calls asked for, less what they cancelled.
pub record Asked (cs : List Call) (l l' : Loop) : Type 0 where
  pub ids : l'.run_next_id_alloc ≡ last_id l.run_next_id_alloc cs
  pub next : SubList l'.run_next_func_queue (l.run_next_func_queue ++ asked l.run_next_id_alloc cs)
  pub waits :
      (x : RunFuncItem)
      → is_cancelled x.id cs ≡ false
      → In x (l.run_next_func_queue ++ asked l.run_next_id_alloc cs)
      → In x l'.run_next_func_queue

pub Asked-refl :
    (cs : List Call) (l l' : Loop)
    → l'.run_next_id_alloc ≡ last_id l.run_next_id_alloc cs
    → l'.run_next_func_queue ≡ l.run_next_func_queue ++ asked l.run_next_id_alloc cs
    → Asked cs l l'
Asked-refl cs l l' i n = record {
  ids = i;
  next =
      subst (λ xs. SubList xs (l.run_next_func_queue ++ asked l.run_next_id_alloc cs)) (sym n)
        (SubList-refl (l.run_next_func_queue ++ asked l.run_next_id_alloc cs));
  waits = λ x _ h. subst (In x) (sym n) h;
}

pub Asked-trans :
    (cs ds : List Call) (l l' l'' : Loop) → Asked cs l l' → Asked ds l' l'' → Asked (cs ++ ds) l l''
Asked-trans cs ds l l' l'' one rest =
    let a = l.run_next_id_alloc in
    let later : List RunFuncItem = asked l'.run_next_id_alloc ds in
    let whole : (l.run_next_func_queue ++ asked a cs) ++ later
        ≡ l.run_next_func_queue ++ asked a (cs ++ ds) =
      append_assoc l.run_next_func_queue (asked a cs) later
      ∙ ap (λ t. l.run_next_func_queue ++ t)
          (ap (λ b. asked a cs ++ asked b ds) one.ids ∙ sym (asked-append a cs ds)) in
    record {
      ids = rest.ids ∙ ap (λ b. last_id b ds) one.ids ∙ sym (last_id-append a cs ds);
      next =
          subst (SubList l''.run_next_func_queue) whole
            (SubList-trans rest.next (SubList-append later one.next));
      waits = λ x free h.
          let both : (is_cancelled x.id cs || is_cancelled x.id ds) ≡ false =
            sym (is_cancelled-append x.id cs ds) ∙ free in
          rest.waits x (ground arith)
            (elim (In-append x (l.run_next_func_queue ++ asked a cs) later
              (subst (In x) (sym whole) h)) [
                | inl k ↦ In-left x l'.run_next_func_queue later (one.waits x (ground arith) k)
                | inr k ↦ In-right x l'.run_next_func_queue later k
              ]);
    }

-- What calls leave of the queue being run and of the record.
pub record Kept (cs : List Call) (l l' : Loop) : Type 0 where
  pub log : l'.log ≡ l.log
  pub level : l'.cb_level ≡ l.cb_level
  pub sub : SubList l'.tmp_func_queue l.tmp_func_queue
  pub spared :
      (x : RunFuncItem)
      → is_cancelled x.id cs ≡ false
      → In x l.tmp_func_queue
      → In x l'.tmp_func_queue
  pub asks : Asked cs l l'

same-Kept :
    (cs : List Call) (l l' : Loop)
    → l'.log ≡ l.log
    → l'.cb_level ≡ l.cb_level
    → l'.tmp_func_queue ≡ l.tmp_func_queue
    → Asked cs l l'
    → Kept cs l l'
same-Kept cs l l' e f g asks = record {
  log = e;
  level = f;
  sub = subst (λ xs. SubList xs l.tmp_func_queue) (sym g) (SubList-refl l.tmp_func_queue);
  spared = λ x _ h. subst (In x) (sym g) h;
  asks = asks;
}

-- A queue from which an id was removed.
left_tmp :
    (id : ℕ) (l : Loop)
    → Kept (cancels id ∷ []) l (record l { tmp_func_queue = (remove_by_id id l.tmp_func_queue).1 })
unfolding is_cancelled asked last_id
left_tmp id l = record {
  log = refl;
  level = refl;
  sub = remove_by_id-SubList id l.tmp_func_queue;
  spared = λ x e h. remove_by_id-In id x l.tmp_func_queue (ground arith) h;
  asks =
      Asked-refl (cancels id ∷ []) l
        (record l { tmp_func_queue = (remove_by_id id l.tmp_func_queue).1 }) refl
        (sym (append-nil l.run_next_func_queue));
}

left_next :
    (id : ℕ) (l : Loop)
    → Kept
        (cancels id ∷ [])
        l
        (record l { run_next_func_queue = (remove_by_id id l.run_next_func_queue).1 })
unfolding is_cancelled asked last_id
left_next id l = record {
  log = refl;
  level = refl;
  sub = SubList-refl l.tmp_func_queue;
  spared = λ x e h. h;
  asks = record {
    ids = refl;
    next =
        subst (SubList (remove_by_id id l.run_next_func_queue).1)
          (sym (append-nil l.run_next_func_queue)) (remove_by_id-SubList id l.run_next_func_queue);
    waits = λ x e h.
        remove_by_id-In id x l.run_next_func_queue (ground arith)
          (subst (In x) (append-nil l.run_next_func_queue) h);
  };
}

cancel-Kept : (id : ℕ) (l : Loop) → Kept (cancels id ∷ []) l (cancel id l).1
unfolding cancel asked last_id
cancel-Kept id l =
    let P : Bool × Loop → Type 0 = λ r. Kept (cancels id ∷ []) l r.1 in
    if_elim P (id == 0)
      (λ _.
        same-Kept (cancels id ∷ []) l l refl refl refl
          (Asked-refl (cancels id ∷ []) l l refl (sym (append-nil l.run_next_func_queue))))
      λ _.
        if_elim P (remove_by_id id l.tmp_func_queue).0 (λ _. left_tmp id l)
          λ _.
            if_elim P (id % 2 == 1) (λ _. left_next id l)
              (λ _.
                let l' : Loop = record l {
                  run_in_loop_func_queue = (remove_by_id id l.run_in_loop_func_queue).1;
                } in
                same-Kept (cancels id ∷ []) l l' refl refl refl
                  (Asked-refl (cancels id ∷ []) l l' refl (sym (append-nil l.run_next_func_queue))))

perform-Kept : (c : Call) (l : Loop) → Kept (c ∷ []) l (perform c l)
unfolding perform run run_in_loop run_next commit_run_request alloc_run_next_id asked last_id
perform-Kept (runs_in_loop f) l =
    same-Kept (runs_in_loop f ∷ []) l (run_in_loop f l).1 (ground arith) (ground arith)
      (ground arith)
      (Asked-refl (runs_in_loop f ∷ []) l (run_in_loop f l).1 (ground arith)
        (ground (arith, append-nil l.run_next_func_queue)))
perform-Kept (runs_next f) l =
    same-Kept (runs_next f ∷ []) l (run_next f l).1 refl refl refl
      (Asked-refl (runs_next f ∷ []) l (run_next f l).1 refl refl)
perform-Kept (runs f) l =
    same-Kept (runs f ∷ []) l (run true f l).1 (ground arith) (ground arith) (ground arith)
      (Asked-refl (runs f ∷ []) l (run true f l).1 (ground arith) (ground arith))
perform-Kept (cancels id) l = cancel-Kept id l

pub perform_all-Kept : (cs : List Call) (l : Loop) → Kept cs l (perform_all cs l)
unfolding perform_all asked last_id
perform_all-Kept [] l =
    same-Kept [] l l refl refl refl
      (Asked-refl [] l l refl (sym (append-nil l.run_next_func_queue)))
perform_all-Kept (c ∷ cs) l =
    let one = perform-Kept c l in
    let rest = perform_all-Kept cs (perform c l) in
    record {
      log = rest.log ∙ one.log;
      level = rest.level ∙ one.level;
      sub = SubList-trans rest.sub one.sub;
      spared = λ x e h.
          let both : (is_cancelled x.id (c ∷ []) || is_cancelled x.id cs) ≡ false =
            sym (is_cancelled-append x.id (c ∷ []) cs) ∙ e in
          rest.spared x (ground arith) (one.spared x (ground arith) h);
      asks =
          Asked-trans (c ∷ []) cs l (perform c l) (perform_all cs (perform c l)) one.asks rest.asks;
    }
