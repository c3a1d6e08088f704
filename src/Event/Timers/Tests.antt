-- ===== src/Event/Timers/Tests.antt =====
-- A loop with a timer of 50 ms that calls 7 and one of 20 ms that calls 8 once, both entered at 100; and one with a
-- timer of 0 ms.
use cpp_tbox.Common.{
  ℕ, ◌+◌, ◌^◌, ◌<◌, ◌≡◌, ◌≢◌, refl, sym, ap, subst, ◌⊎◌, inl, inr, true, false, Option, none, some,
  List, [], ◌∷◌, ◌++◌, ◌==◌, if◌then◌else◌, arith, Bool-cases,
}
use cpp_tbox.Base.Cabinet.{Token, at, free, alloc, equal, find, init as no_objects}
use cpp_tbox.Event.Timers.{Loop, init, store, enter, add_timer, delete_timer, handle_expired_timers}
use cpp_tbox.Event.Timers.Heap.{sorted_lib, sorted_laws, count}
use cpp_tbox.Event.Timers.Order.{Without}
use cpp_tbox.Event.Timers.Valid.{IsValid, init-IsValid}
use cpp_tbox.Event.Timers.Calls.{add_timer-IsValid, delete_timer_lem}
use cpp_tbox.Event.Timers.Expired.{quiet, sum_below, lateness, Progresses, Handled}
use cpp_tbox.Event.Timers.Expired.All.{handle_expired_timers_lem}
use cpp_tbox.Event.Timers.Expired.Forever.{Stuck, handle-Stuck}

abbrev get : Option (Token × Loop) → Loop
get none = init
get (some (t, s)) = s

-- What addTimer leaves is valid.
get-IsValid :
    (o : Option (Token × Loop))
    → (t : Token) × (s : Loop) × (o ≡ some (t, s)) × IsValid sorted_lib sorted_laws s
    → IsValid sorted_lib sorted_laws (get o)
get-IsValid o (t, s, e, v) = subst (IsValid sorted_lib sorted_laws) (sym (ap get e)) v

abbrev one : Loop
one = get (add_timer sorted_lib 100 50 0 (some 7) init)

abbrev two : Loop
two = get (add_timer sorted_lib 100 20 1 (some 8) one)

one-IsValid : IsValid sorted_lib sorted_laws one
unfolding no_objects
one-IsValid = get-IsValid _ (
    add_timer-IsValid sorted_lib sorted_laws 100 50 0 (some 7) init
      (init-IsValid sorted_lib sorted_laws) (omega arith) (omega arith) (omega arith))

two-IsValid : IsValid sorted_lib sorted_laws two
unfolding no_objects add_timer enter alloc
two-IsValid = get-IsValid _ (
    add_timer-IsValid sorted_lib sorted_laws 100 20 1 (some 8) one one-IsValid (omega arith)
      (omega arith) (omega arith))

two_heap : two.timer_min_heap ≡ 1 ∷ 0 ∷ []
unfolding no_objects add_timer enter alloc store sorted_lib
two_heap = refl

abbrev first_token : Token
first_token = record { id = 1; pos = 0 }

delete_timer_lem_example :
    let s' = delete_timer sorted_lib first_token two in
    Without 0 two.timer_min_heap s'.timer_min_heap
    × ((u : Token)
        → at u s'.timer_cabinet ≡ (if equal u first_token then none else at u two.timer_cabinet))
    × ((q : ℕ) → 0 ≢ q → s'.memory q ≡ two.memory q)
    × (s'.doomed ≡ two.doomed ++ 0 ∷ [])
    × IsValid sorted_lib sorted_laws s'
unfolding no_objects add_timer enter alloc store sorted_lib at find
delete_timer_lem_example =
    delete_timer_lem sorted_lib sorted_laws first_token two 0 two-IsValid refl

-- The pointers of two timers.
of_two : (P : ℕ → Type 0) → P 0 → P 1 → (q : ℕ) → 0 < count q two.timer_min_heap → P q
unfolding count
of_two P a b q c = go (Bool-cases (1 == q)) (Bool-cases (0 == q))
  where
    c' : 0 < (if 1 == q then 1 else 0) + ((if 0 == q then 1 else 0) + 0)
    c' = rw two_heap at c

    go : ((1 == q) ≡ true) ⊎ ((1 == q) ≡ false) → ((0 == q) ≡ true) ⊎ ((0 == q) ≡ false) → P q
    go (inl x) y = subst P (let z : ◌≡◌ {A = ℕ} 1 q = ground arith in z) b
    go (inr x) (inl y) = subst P (let z : ◌≡◌ {A = ℕ} 0 q = ground arith in z) a
    go (inr x) (inr y) = absurd (let c'' = rw (x, y) at c' in omega arith)

two-Progresses : Progresses 260 two
unfolding no_objects add_timer enter alloc store sorted_lib
two-Progresses = record {
  moves =
      of_two (λ q. (((two.memory q).repeat == 1) ≡ true) ⊎ (0 < (two.memory q).interval))
        (inr (omega arith)) (inl refl);
  fits = of_two (λ q. 260 + (two.memory q).interval < 2 ^ 64) (omega arith) (omega arith);
}

handle_expired_timers_lem_example :
    (s' : Loop) × (new : List (ℕ × ℕ)) × (handle_expired_timers sorted_lib quiet 300 260 two
      ≡ some s')
    × Handled sorted_lib sorted_laws 260 two s' new
unfolding no_objects add_timer enter alloc store sorted_lib sum_below lateness count
handle_expired_timers_lem_example =
    handle_expired_timers_lem sorted_lib sorted_laws 300 260 two two-IsValid two-Progresses
      (omega arith)

-- 8 at 120, and 7 three times.
log_of : Option Loop → List (ℕ × ℕ)
log_of none = []
log_of (some s) = s.log

two_log :
    log_of (handle_expired_timers sorted_lib quiet 5 260 two)
    ≡ (8, 120) ∷ (7, 150) ∷ (7, 200) ∷ (7, 250) ∷ []
unfolding log_of no_objects add_timer enter alloc store sorted_lib handle_expired_timers free find
two_log = refl

abbrev instant : Loop
instant = get (add_timer sorted_lib 100 0 0 (some 7) init)

instant-IsValid : IsValid sorted_lib sorted_laws instant
unfolding no_objects
instant-IsValid = get-IsValid _ (
    add_timer-IsValid sorted_lib sorted_laws 100 0 0 (some 7) init
      (init-IsValid sorted_lib sorted_laws) (omega arith) (omega arith) (omega arith))

instant_heap : instant.timer_min_heap ≡ 0 ∷ []
unfolding no_objects add_timer enter alloc store sorted_lib
instant_heap = refl

instant_fits :
    (q : ℕ) → 0 < count q instant.timer_min_heap → 100 + (instant.memory q).interval < 2 ^ 64
unfolding count
instant_fits q c = go (Bool-cases (0 == q))
  where
    c' : 0 < (if 0 == q then 1 else 0) + 0
    c' = rw instant_heap at c

    at_first : 100 + (instant.memory 0).interval < 2 ^ 64
    at_first = unfold no_objects add_timer enter alloc store in (omega arith)

    go : ((0 == q) ≡ true) ⊎ ((0 == q) ≡ false) → 100 + (instant.memory q).interval < 2 ^ 64
    go (inl x) =
        subst (λ i. 100 + (instant.memory i).interval < 2 ^ 64)
          (let z : ◌≡◌ {A = ℕ} 0 q = ground arith in z) at_first
    go (inr x) = absurd (let c'' = rw x at c' in omega arith)

instant-Stuck : Stuck 100 0 instant
unfolding no_objects add_timer enter alloc store sorted_lib count
instant-Stuck = record {
  present = omega arith;
  persists = refl;
  instant = refl;
  is_due = omega arith;
}

handle-Stuck_example : handle_expired_timers sorted_lib quiet 1000000 100 instant ≡ none
handle-Stuck_example =
    handle-Stuck sorted_lib sorted_laws 1000000 100 0 instant instant-IsValid instant_fits
      instant-Stuck

add_timer-IsValid_example :
    (t : Token) × (s' : Loop) × (add_timer sorted_lib 100 20 1 (some 8) one ≡ some (t, s'))
    × IsValid sorted_lib sorted_laws s'
unfolding no_objects add_timer enter alloc
add_timer-IsValid_example =
    add_timer-IsValid sorted_lib sorted_laws 100 20 1 (some 8) one one-IsValid (omega arith)
      (omega arith) (omega arith)
