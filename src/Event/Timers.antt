-- ===== src/Event/Timers.antt =====
-- modules/event/common_loop_timer.cpp and common_loop.h: the timers of a loop. A timer is an object in memory,
-- known by its pointer, a number; the cabinet of Base/Cabinet.antt finds it by its token, and the vector
-- timer_min_heap_ keeps the pointers in the order of std::make_heap.
-- An object pool never hands out a pointer that is in use: here the pointers are handed out in turn. The objects of
-- deleted timers, which are given back later by a function for the loop, are kept in `doomed`.
-- The clock is the argument `now`; callbacks are numbers, and what they ask of the timers is a parameter.
pub mod Heap
pub mod Order
pub mod Valid
pub mod Calls
pub mod Expired
mod Tests
use cpp_tbox.Common.{
  ℕ, zero, suc, ◌+◌, ◌-◌, ◌%◌, ◌^◌, Bool, true, false, Option, none, some, List, [], ◌∷◌, ◌++◌, ltb,
  ◌==◌, if◌then◌else◌,
}
use cpp_tbox.Base.Cabinet.{Token, Cabinet, alloc, free, init as no_objects}

-- A function of C++, empty or not.
abbrev pub Func : Type 0
Func = Option ℕ

pub record Timer : Type 0 where
  pub token : Token
  pub interval : ℕ
  pub expired : ℕ
  pub repeat : ℕ
  pub cb : Func

-- std::push_heap, std::pop_heap and std::make_heap on pointers, by the numbers that TimerCmp compares.
pub record HeapLib : Type 0 where
  pub push_heap : (ℕ → ℕ) → List ℕ → List ℕ
  pub pop_heap : (ℕ → ℕ) → List ℕ → List ℕ
  pub make_heap : (ℕ → ℕ) → List ℕ → List ℕ

-- The log has the callbacks in the order in which they are called, each with the time it was due.
pub record Loop : Type 0 where
  pub timer_cabinet : Cabinet ℕ
  pub timer_min_heap : List ℕ
  pub memory : ℕ → Timer
  pub next_pointer : ℕ
  pub doomed : List ℕ
  pub cb_level : ℕ
  pub log : List (ℕ × ℕ)

-- Nothing in memory counts before a timer is entered.
abbrev pub init : Loop
init = record {
  timer_cabinet = no_objects;
  timer_min_heap = [];
  memory = λ _. record {
    token = record { id = 0; pos = 0 };
    interval = 0;
    expired = 0;
    repeat = 0;
    cb = none;
  };
  next_pointer = 0;
  doomed = [];
  cb_level = 0;
  log = [];
}

-- Write an object.
pub store : ℕ → Timer → Loop → Loop
store p t s = record s { memory = λ q. if q == p then t else s.memory q }

-- What TimerCmp compares.
abbrev pub key : Loop → ℕ → ℕ
key s p = (s.memory p).expired

pub pop_back : List ℕ → List ℕ
pop_back [] = []
pop_back (x ∷ []) = []
pop_back (x ∷ (y ∷ l)) = x ∷ pop_back (y ∷ l)

-- What a callback asks for.
pub data Call : Type 0 where
  adds : ℕ → ℕ → ℕ → Call
  deletes : Token → Call

module _ (lib : HeapLib) where
  open lib use {push_heap, pop_heap, make_heap}

  -- With the token that the cabinet gave.
  pub enter : ℕ → ℕ → ℕ → Func → Token × Cabinet ℕ → Loop → Token × Loop
  unfolding store
  enter now interval repeat cb (token, cabinet) s =
      let p = s.next_pointer in
      let s₁ =
        store p
          (record {
            token = token;
            interval = interval;
            expired = (now + interval) % 2 ^ 64;
            repeat = repeat;
            cb = cb;
          })
          s in
      (
        token,
        record s₁ {
          timer_cabinet = cabinet;
          next_pointer = p + 1;
          timer_min_heap = push_heap (key s₁) (s.timer_min_heap ++ p ∷ []);
        },
      )

  -- `none` where the cabinet throws.
  pub add_timer : ℕ → ℕ → ℕ → Func → Loop → Option (Token × Loop)
  unfolding enter
  add_timer now interval repeat cb s = elim (alloc (some s.next_pointer) s.timer_cabinet) [
    | none ↦ none
    | some (token, cabinet) ↦ some (enter now interval repeat cb (token, cabinet) s)
  ]

  -- The timer is made the first one by `expired = 0`, and taken from the heap.
  pub remove : ℕ → Loop → Loop
  unfolding store pop_back
  remove p s =
      let s₁ = store p (record (s.memory p) { expired = 0 }) s in
      record s₁ {
        timer_min_heap = pop_back (pop_heap (key s₁) (make_heap (key s₁) s.timer_min_heap));
        doomed = s.doomed ++ p ∷ [];
      }

  pub delete_timer : Token → Loop → Loop
  unfolding remove
  delete_timer token s =
      let (o, cabinet) = free token s.timer_cabinet in
      elim o [
        | none ↦ record s { timer_cabinet = cabinet }
        | some p ↦ remove p (record s { timer_cabinet = cabinet })
      ]

  -- Before the callback of the timer at the front: it is taken out, or put back for its next time.
  pub advance : ℕ → Loop → Loop
  unfolding store pop_back
  advance p s =
      let t = s.memory p in
      let heap = pop_heap (key s) s.timer_min_heap in
      let s₁ =
        store p
          (record t {
            expired = (t.expired + t.interval) % 2 ^ 64;
            repeat = if t.repeat == 0 then 0 else t.repeat - 1;
          })
          s in
      if t.repeat == 1
      then record s {
        timer_min_heap = pop_back heap;
        timer_cabinet = (free t.token s.timer_cabinet).1;
      }
      else record s₁ { timer_min_heap = push_heap (key s₁) heap }

  pub perform : ℕ → Call → Loop → Option Loop
  unfolding add_timer delete_timer
  perform now (adds interval repeat cb) s = elim (add_timer now interval repeat (some cb) s) [
    | none ↦ none
    | some (token, s') ↦ some s'
  ]
  perform now (deletes token) s = some (delete_timer token s)

  pub perform_all : ℕ → List Call → Loop → Option Loop
  unfolding perform
  perform_all now [] s = some s
  perform_all now (c ∷ cs) s = elim (perform now c s) [
    | none ↦ none
    | some s' ↦ perform_all now cs s'
  ]

  module _ (body : ℕ → List (ℕ × ℕ) → List Call) where
    -- Call the function that was kept, of a timer due at `due`.
    pub call_back : ℕ → Func → ℕ → Loop → Option Loop
    unfolding perform_all
    call_back now none due s = some s
    call_back now (some f) due s =
        elim (perform_all now (body f s.log)
          (record s { cb_level = s.cb_level + 1; log = s.log ++ (f, due) ∷ [] })) [
            | none ↦ none
            | some s' ↦ some (record s' { cb_level = s'.cb_level - 1 })
          ]

    -- One round of the loop, for the timer at the front.
    pub round : ℕ → ℕ → Loop → Option Loop
    unfolding advance call_back
    round now p s = call_back now (s.memory p).cb (s.memory p).expired (advance p s)

    -- With the heap at the loop's test, and the rest of the loop.
    visit : (ℕ → Loop → Option Loop) → List ℕ → ℕ → Loop → Option Loop
    unfolding round
    visit rest [] now s = some s
    visit rest (p ∷ l) now s =
        if ltb now (s.memory p).expired
        then some s
        else elim (round now p s) [ none ↦ none | some s' ↦ rest now s' ]

    -- `none` where the fuel runs out or the cabinet throws.
    pub handle_expired_timers : ℕ → ℕ → Loop → Option Loop
    unfolding visit
    handle_expired_timers zero now s = none
    handle_expired_timers (suc fuel) now s =
        visit (handle_expired_timers fuel) s.timer_min_heap now s
