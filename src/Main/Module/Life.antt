-- ===== src/Main/Module/Life.antt =====
-- The life of a tree whose hooks all succeed, and what a failed initialization leaves behind.
use Prim.Native.Nat.{max}
use cpp_tbox.Common.{
  ℕ, zero, suc, ◌≤◌, ◌≡◌, refl, sym, ap, ap₂, ◌∙◌, Bool, true, false, List, [], ◌∷◌, ◌++◌,
  append-nil, append_assoc, Option, some, arith,
}
use cpp_tbox.Main.Module.{
  State, fresh, inited, running, is_fresh, is_inited, is_running, Module, node, Items, nil, item,
  Event, init, start, stop, clean, state_of, kids_of, stop_module, stop_kids, height, height_kids,
  cleanup_from, cleanup_kids, cleanup, start_module, start_kids, config, initialize,
  initialize_kids,
}

-- The tree with every module in one state.
mutual
  pub all_in : State → Module → Module
  all_in s (node id name p st kids) = node id name p s (kids_in s kids)

  pub kids_in : State → Items → Items
  kids_in s nil = nil
  kids_in s (item m r rest) = item (all_in s m) r (kids_in s rest)

-- One call of a hook of each module: a module before its children, first to last.
mutual
  pub calls : (ℕ → Event) → Module → List Event
  calls f (node id name p st kids) = f id ∷ calls_of f kids

  pub calls_of : (ℕ → Event) → Items → List Event
  calls_of f nil = []
  calls_of f (item m r rest) = calls f m ++ calls_of f rest

pub backward : List Event → List Event
backward [] = []
backward (x ∷ xs) = backward xs ++ x ∷ []

backward-append : (xs ys : List Event) → backward (xs ++ ys) ≡ backward ys ++ backward xs
unfolding backward
backward-append [] ys = sym (append-nil (backward ys))
backward-append (x ∷ xs) ys =
    ap (λ l. l ++ x ∷ []) (backward-append xs ys)
    ∙ append_assoc (backward ys) (backward xs) (x ∷ [])

mutual
  unfolding stop_module all_in calls backward is_running stop_kids kids_in calls_of

  stop_all :
      (m : Module) (log : List Event)
      → stop_module (all_in running m) log ≡ (all_in inited m, log ++ backward (calls stop m))
  stop_all (node id name p st kids) log = rw (stop_kids_all kids log) (
      ap (λ l. (node id name p inited (kids_in inited kids), l))
        (append_assoc log (backward (calls_of stop kids)) (stop id ∷ [])))

  stop_kids_all :
      (kids : Items) (log : List Event)
      → stop_kids (kids_in running kids) log
        ≡ (kids_in inited kids, log ++ backward (calls_of stop kids))
  stop_kids_all nil log = ap (λ l. (nil, l)) (sym (append-nil log))
  stop_kids_all (item m r rest) log =
      rw (stop_kids_all rest log, stop_all m (log ++ backward (calls_of stop rest)))
        (ap (λ l. (item (all_in inited m) r (kids_in inited rest), l))
          (append_assoc log (backward (calls_of stop rest)) (backward (calls stop m))
            ∙ ap (λ l. log ++ l) (sym (backward-append (calls stop m) (calls_of stop rest)))))

clean_kids_all :
    (n : ℕ) (kids : Items) (log : List Event)
    → ((m : Module) (log : List Event)
        → height m ≤ n
        → cleanup_from n (all_in inited m) log ≡ (all_in fresh m, log ++ backward (calls clean m)))
    → height_kids kids ≤ n
    → cleanup_kids (cleanup_from n) (kids_in inited kids) log
      ≡ (kids_in fresh kids, log ++ backward (calls_of clean kids))
unfolding cleanup_kids kids_in calls_of height_kids backward
clean_kids_all n nil log each h = ap (λ l. (nil, l)) (sym (append-nil log))
clean_kids_all n (item m r rest) log each h =
    rw
      (
        clean_kids_all n rest log each (omega arith),
        each m (log ++ backward (calls_of clean rest)) (omega arith),
      )
      (ap (λ l. (item (all_in fresh m) r (kids_in fresh rest), l))
        (append_assoc log (backward (calls_of clean rest)) (backward (calls clean m))
          ∙ ap (λ l. log ++ l) (sym (backward-append (calls clean m) (calls_of clean rest)))))

clean_all :
    (n : ℕ) (m : Module) (log : List Event)
    → height m ≤ n
    → cleanup_from n (all_in inited m) log ≡ (all_in fresh m, log ++ backward (calls clean m))
unfolding cleanup_from stop_module is_running is_fresh kids_of all_in calls backward height
clean_all zero (node id name p st kids) log h = absurd (omega arith)
clean_all (suc n) (node id name p st kids) log h =
    rw (clean_kids_all n kids log (clean_all n) (omega arith)) (
      ap (λ l. (node id name p fresh (kids_in fresh kids), l))
        (append_assoc log (backward (calls_of clean kids)) (clean id ∷ [])))

module _ (start_ok : ℕ → List Event → Bool)
    (starts : (id : ℕ) (log : List Event) → start_ok id log ≡ true) where
  mutual
    unfolding start_module is_inited all_in calls start_kids kids_in calls_of

    start_all :
        (m : Module) (log : List Event)
        → start_module start_ok (all_in inited m) log
          ≡ (true, all_in running m, log ++ calls start m)
    start_all (node id name p st kids) log =
        rw (start_kids_all kids (log ++ start id ∷ []), starts id log)
          (ap (λ l. (true, node id name p running (kids_in running kids), l))
            (append_assoc log (start id ∷ []) (calls_of start kids)))

    start_kids_all :
        (kids : Items) (log : List Event)
        → start_kids start_ok (kids_in inited kids) log
          ≡ (true, kids_in running kids, log ++ calls_of start kids)
    start_kids_all nil log = ap (λ l. (true, nil, l)) (sym (append-nil log))
    start_kids_all (item m r rest) log =
        rw (start_all m log, start_kids_all rest (log ++ calls start m))
          (ap (λ l. (true, item (all_in running m) r (kids_in running rest), l))
            (append_assoc log (calls start m) (calls_of start rest)))

module _ {J : Type 0} (field : List ℕ → J → Option J) (init_ok : ℕ → J → List Event → Bool) where
  -- The configuration has the part of every module.
  unfoldable mutual
    pub Configured : J → Module → Type 0
    Configured js (node id name p st kids) =
        (this : J) × (config field init_ok name js ≡ some this) × AllConfigured this kids

    pub AllConfigured : J → Items → Type 0
    AllConfigured js nil = Unit {0}
    AllConfigured js (item m r rest) = Configured js m × AllConfigured js rest

module _ {J : Type 0} (field : List ℕ → J → Option J) (init_ok : ℕ → J → List Event → Bool)
    (inits : (id : ℕ) (js : J) (log : List Event) → init_ok id js log ≡ true) where
  mutual
    unfolding initialize initialize_kids is_fresh all_in kids_in calls calls_of Configured
        AllConfigured

    initialize_all :
        (js : J) (m : Module) (log : List Event)
        → Configured field init_ok js m
        → initialize field init_ok js (all_in fresh m) log
          ≡ (true, all_in inited m, log ++ calls init m)
    initialize_all js (node id name p st kids) log (this, found, rest) =
        rw (found, inits id this log, initialize_all_kids this kids (log ++ init id ∷ []) rest)
          (ap (λ l. (true, node id name p inited (kids_in inited kids), l))
            (append_assoc log (init id ∷ []) (calls_of init kids)))

    initialize_all_kids :
        (js : J) (kids : Items) (log : List Event)
        → AllConfigured field init_ok js kids
        → initialize_kids field init_ok js (kids_in fresh kids) log
          ≡ (true, kids_in inited kids, log ++ calls_of init kids)
    initialize_all_kids js nil log c = ap (λ l. (true, nil, l)) (sym (append-nil log))
    initialize_all_kids js (item m r rest) log (c, cs) =
        rw (initialize_all js m log c, initialize_all_kids js rest (log ++ calls init m) cs)
          (ap (λ l. (true, item (all_in inited m) r (kids_in inited rest), l))
            (append_assoc log (calls init m) (calls_of init rest)))

-- A run of the program: initialize, start, cleanup, with the two results, the tree and the log.
pub live :
    {J : Type 0}
    → (List ℕ → J → Option J)
    → (ℕ → J → List Event → Bool)
    → (ℕ → List Event → Bool)
    → J
    → Module
    → Bool × Bool × Module × List Event
live field init_ok start_ok js m =
    let (ok, m₁, log₁) = initialize field init_ok js m [] in
    let (oks, m₂, log₂) = start_module start_ok m₁ log₁ in
    let (m₃, log₃) = cleanup m₂ log₂ in (ok, oks, m₃, log₃)

mutual
  unfolding height height_kids all_in kids_in

  height-all_in : (s : State) (m : Module) → height (all_in s m) ≡ height m
  height-all_in s (node id name p st kids) = ap suc (height-kids_in s kids)

  height-kids_in : (s : State) (kids : Items) → height_kids (kids_in s kids) ≡ height_kids kids
  height-kids_in s nil = refl
  height-kids_in s (item m r rest) = ap₂ max (height-all_in s m) (height-kids_in s rest)

cleanup_all :
    (m : Module) (log : List Event)
    → cleanup (all_in running m) log
      ≡ (all_in fresh m, (log ++ backward (calls stop m)) ++ backward (calls clean m))
unfolding cleanup cleanup_from all_in backward height calls is_fresh kids_of stop_module is_running
cleanup_all (node id name p st kids) log =
    let after : List Event = (log ++ backward (calls_of stop kids)) ++ stop id ∷ [] in
    let n : ℕ = height_kids (kids_in running kids) in
    rw
      (
        stop_kids_all kids log,
        clean_kids_all n kids after (clean_all n) (omega (arith, height-kids_in running kids)),
      )
      (ap (λ l. (node id name p fresh (kids_in fresh kids), l))
        (append_assoc after (backward (calls_of clean kids)) (clean id ∷ [])
          ∙ ap (λ l. l ++ backward (calls clean (node id name p st kids)))
              (append_assoc log (backward (calls_of stop kids)) (stop id ∷ []))))

-- In a tree of fresh modules that are all configured and whose onInit and onStart succeed,
-- initialize and start return true and cleanup gives the tree back; the hooks called are onInit
-- and onStart of every module, parents first, then onStop and onCleanup of every module, each in
-- the reverse order.
pub live_lem :
    {J : Type 0} (field : List ℕ → J → Option J) (init_ok : ℕ → J → List Event → Bool)
    (start_ok : ℕ → List Event → Bool)
    → ((id : ℕ) (js : J) (log : List Event) → init_ok id js log ≡ true)
    → ((id : ℕ) (log : List Event) → start_ok id log ≡ true)
    → (js : J) (m : Module) → Configured field init_ok js m
    → live field init_ok start_ok js (all_in fresh m) ≡ (
      true,
      true,
      all_in fresh m,
      ((calls init m ++ calls start m) ++ backward (calls stop m)) ++ backward (calls clean m),
    )
unfolding live
live_lem field init_ok start_ok inits starts js m c =
    rw
      (
        initialize_all field init_ok inits js m [] c,
        start_all start_ok starts m (calls init m),
        cleanup_all m (calls init m ++ calls start m),
      )
      (refl)

cleanup_fresh : (m : Module) (log : List Event) → state_of m ≡ fresh → cleanup m log ≡ (m, log)
unfolding cleanup cleanup_from state_of height is_fresh
cleanup_fresh (node id name p fresh kids) log h = refl
cleanup_fresh (node id name p inited kids) log h = absurd (cc)
cleanup_fresh (node id name p running kids) log h = absurd (cc)

failed_is_fresh :
    {J : Type 0} (field : List ℕ → J → Option J) (init_ok : ℕ → J → List Event → Bool) (js : J)
    (m : Module) (log : List Event)
    → state_of m ≡ fresh
    → (initialize field init_ok js m log).0 ≡ false
    → state_of (initialize field init_ok js m log).1 ≡ fresh
unfolding initialize state_of
failed_is_fresh field init_ok js (node id name p st kids) log h f = ground arith

-- After a fresh module's initialize returns false, cleanup does nothing to it, although its
-- onInit, and that of some children, may have succeeded.
pub failed_is_not_cleaned :
    {J : Type 0} (field : List ℕ → J → Option J) (init_ok : ℕ → J → List Event → Bool) (js : J)
    (m : Module) (log : List Event)
    → state_of m ≡ fresh
    → (initialize field init_ok js m log).0 ≡ false
    → let (_, m', log') = initialize field init_ok js m log in cleanup m' log' ≡ (m', log')
failed_is_not_cleaned field init_ok js m log st f =
    cleanup_fresh (initialize field init_ok js m log).1 (initialize field init_ok js m log).2
      (failed_is_fresh field init_ok js m log st f)
