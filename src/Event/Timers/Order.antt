-- ===== src/Event/Timers/Order.antt =====
-- modules/event/common_loop_timer.cpp: the heap of timers under each operation.
use cpp_tbox.Common.{
  ℕ, ◌+◌, ◌-◌, ◌%◌, ◌^◌, ◌≤◌, ◌<◌, ◌≡◌, ◌≢◌, refl, sym, ap, ◌∙◌, ◌⊎◌, inl, inr, Bool, true, false,
  List, [], ◌∷◌, ◌++◌, ◌==◌, if◌then◌else◌, arith, Bool-cases,
}
use cpp_tbox.Base.Cabinet.{Token, Cabinet}
use cpp_tbox.Event.Timers.{Func, Timer, HeapLib, Loop, store, key, pop_back, enter, remove, advance}
use cpp_tbox.Event.Timers.Heap.{count, count-append, count-one, pop_back-append, HeapLaws}

pub memory-store :
    (p : ℕ) (t : Timer) (s : Loop) (q : ℕ)
    → (store p t s).memory q ≡ (if q == p then t else s.memory q)
unfolding store
memory-store p t s q = refl

pub key-store_self : (p : ℕ) (t : Timer) (s : Loop) → key (store p t s) p ≡ t.expired
key-store_self p t s =
    let e : (p == p) ≡ true = ground arith in
    ap (λ (u : Timer). u.expired) (memory-store p t s p)
    ∙ ap (λ (b : Bool). (if b then t else s.memory p).expired) e

pub key-store_ne : (p : ℕ) (t : Timer) (s : Loop) (q : ℕ) → p ≢ q → key (store p t s) q ≡ key s q
key-store_ne p t s q n =
    let e : (q == p) ≡ false = ground arith in
    ap (λ (u : Timer). u.expired) (memory-store p t s q)
    ∙ ap (λ (b : Bool). (if b then t else s.memory q).expired) e

-- `heap'` is `heap` without one `p`.
abbrev pub Without : ℕ → List ℕ → List ℕ → Type 0
Without p heap heap' = (q : ℕ) → count q heap' + (if p == q then 1 else 0) ≡ count q heap

module _ (lib : HeapLib) (laws : HeapLaws lib) where
  open laws use {IsHeap, front, congr, pushed, popped, made}

  -- The heap: no pointer is in it twice, all were handed out, and none is due at 0.
  pub record IsOrdered (s : Loop) : Type 0 where
    pub heap : IsHeap (key s) s.timer_min_heap
    pub distinct : (p : ℕ) → count p s.timer_min_heap ≤ 1
    pub below : (p : ℕ) → 0 < count p s.timer_min_heap → p < s.next_pointer
    pub due : (p : ℕ) → 0 < count p s.timer_min_heap → 0 < key s p

  -- The pointer at the front of a heap in which only `p` has the number 0.
  front_is :
      (k : ℕ → ℕ) (p : ℕ) (l : List ℕ)
      → IsHeap k l
      → 0 < count p l
      → k p ≡ 0
      → ((q : ℕ) → 0 < count q l → p ≢ q → 0 < k q)
      → (r : List ℕ) × (l ≡ p ∷ r)
  unfolding count
  front_is k p [] h c z o = absurd (omega arith)
  front_is k p (x ∷ l) h c z o = go (Bool-cases (p == x))
    where
      least : (p == x) ≡ false → k x ≤ k p
      least b = front k x l p h (
          let c' : 0 < (if x == p then 1 else 0) + count p l = c in
          let e : (x == p) ≡ false = ground arith in
          let c'' : 0 < 0 + count p l = rw e at c' in omega arith)

      go : ((p == x) ≡ true) ⊎ ((p == x) ≡ false) → (r : List ℕ) × (x ∷ l ≡ p ∷ r)
      go (inl b) = (l, ap (λ y. y ∷ l) (ground arith))
      go (inr b) =
          let n : p ≢ x = ground arith in
          let in_heap : 0 < (if x == x then 1 else 0) + count x l =
            let e : (x == x) ≡ true = ground arith in rw e (omega arith) in
          absurd (omega (arith, least b, o x in_heap n))

  -- deleteTimer takes the timer, and no other, out of the heap.
  pub remove-heap :
      {s : Loop} (p : ℕ)
      → IsOrdered s
      → 0 < count p s.timer_min_heap
      → IsHeap (key (remove lib p s)) (remove lib p s).timer_min_heap
        × Without p s.timer_min_heap (remove lib p s).timer_min_heap
  unfolding remove store
  remove-heap {s} p v c =
      go (front_is k p made_heap (made k s.timer_min_heap).0 (rw (same p) c) zero_at others)
    where
      k : ℕ → ℕ
      k = key (store p (record (s.memory p) { expired = 0 }) s)

      made_heap : List ℕ
      made_heap = lib.make_heap k s.timer_min_heap

      same : (q : ℕ) → count q made_heap ≡ count q s.timer_min_heap
      same = (made k s.timer_min_heap).1

      zero_at : k p ≡ 0
      zero_at = key-store_self p (record (s.memory p) { expired = 0 }) s

      others : (q : ℕ) → 0 < count q made_heap → p ≢ q → 0 < k q
      others q h n =
          rw (key-store_ne p (record (s.memory p) { expired = 0 }) s q n)
            (v.due q (rw (← same q) h))

      go :
          (r : List ℕ) × (made_heap ≡ p ∷ r)
          → IsHeap k (pop_back (lib.pop_heap k made_heap))
            × Without p s.timer_min_heap (pop_back (lib.pop_heap k made_heap))
      go (r, e) =
          let (r', f, h, c') = popped k p r (rw e at (made k s.timer_min_heap).0) in
          let g : pop_back (lib.pop_heap k made_heap) ≡ r' =
            ap (λ l. pop_back (lib.pop_heap k l)) e ∙ ap pop_back f ∙ pop_back-append r' p in
          (
            rw g h,
            λ q.
                let n : count q (p ∷ r) ≡ (if p == q then 1 else 0) + count q r =
                  unfold count in refl in
                rw g (omega (arith, c' q, n, ap (count q) e, same q)),
          )

  pub Without-self :
      (p : ℕ) (heap heap' : List ℕ) → Without p heap heap' → count p heap ≤ 1 → count p heap' ≡ 0
  Without-self p heap heap' w h =
      let e : (p == p) ≡ true = ground arith in let w' = rw e at (w p) in omega arith

  -- The timer at the front has run for the last time.
  pub advance-once :
      {s : Loop} (p : ℕ) (l : List ℕ)
      → IsOrdered s
      → s.timer_min_heap ≡ p ∷ l
      → ((s.memory p).repeat == 1) ≡ true
      → IsHeap (key (advance lib p s)) (advance lib p s).timer_min_heap
        × Without p s.timer_min_heap (advance lib p s).timer_min_heap
  unfolding advance
  advance-once {s} p l v e b =
      let (r, f, h, c) = popped (key s) p l (rw e at v.heap) in
      let g : pop_back (lib.pop_heap (key s) s.timer_min_heap) ≡ r =
        ap (λ l. pop_back (lib.pop_heap (key s) l)) e ∙ ap pop_back f ∙ pop_back-append r p in
      rw b (
        rw g h,
        λ q.
            let n : count q (p ∷ l) ≡ (if p == q then 1 else 0) + count q l =
              unfold count in refl in
            rw g (omega (arith, c q, n, ap (count q) e)),
      )

  -- It has been put back, due later.
  pub advance-again :
      {s : Loop} (p : ℕ) (l : List ℕ)
      → IsOrdered s
      → s.timer_min_heap ≡ p ∷ l
      → ((s.memory p).repeat == 1) ≡ false
      → IsHeap (key (advance lib p s)) (advance lib p s).timer_min_heap
        × ((q : ℕ) → count q (advance lib p s).timer_min_heap ≡ count q s.timer_min_heap)
  unfolding advance
  advance-again {s} p l v e b = rw b (go (popped (key s) p l (rw e at v.heap)))
    where
      t : Timer
      t = record (s.memory p) {
        expired = ((s.memory p).expired + (s.memory p).interval) % 2 ^ 64;
        repeat = if (s.memory p).repeat == 0 then 0 else (s.memory p).repeat - 1;
      }

      k : ℕ → ℕ
      k = key (store p t s)

      n : (q : ℕ) → count q (p ∷ l) ≡ (if p == q then 1 else 0) + count q l
      n q = unfold count in refl

      go :
          (r : List ℕ) × (lib.pop_heap (key s) (p ∷ l) ≡ r ++ p ∷ [])
            × IsHeap (key s) r
            × ((q : ℕ) → count q r ≡ count q l)
          → IsHeap k (lib.push_heap k (lib.pop_heap (key s) s.timer_min_heap))
            × ((q : ℕ)
                → count q (lib.push_heap k (lib.pop_heap (key s) s.timer_min_heap))
                  ≡ count q s.timer_min_heap)
      go (r, f, h, c) =
          let away : (q : ℕ) → 0 < count q r → p ≢ q = (λ q z x.
            let one : (p == q) ≡ true = ground arith in
            let m = rw one at (n q) in omega (arith, m, z, c q, ap (count q) e, v.distinct q)) in
          let kept : IsHeap k r =
            congr (key s) k r (λ q z. sym (key-store_ne p t s q (away q z))) h in
          let heap : lib.pop_heap (key s) s.timer_min_heap ≡ r ++ p ∷ [] =
            ap (lib.pop_heap (key s)) e ∙ f in
          let (h', c') = pushed k r p kept in
          (
            rw heap h',
            λ q. rw heap (
                omega (
                  arith,
                  c' q,
                  count-append q r (p ∷ []),
                  count-one p q,
                  c q,
                  n q,
                  ap (count q) e,
                )),
          )

  -- A new timer.
  pub enter-heap :
      {s : Loop} (now interval repeat : ℕ) (cb : Func) (token : Token) (cabinet : Cabinet ℕ)
      → IsOrdered s
      → let s' = (enter lib now interval repeat cb (token, cabinet) s).1 in
        IsHeap (key s') s'.timer_min_heap
        × ((q : ℕ)
            → count q s'.timer_min_heap
              ≡ count q s.timer_min_heap + (if s.next_pointer == q then 1 else 0))
  unfolding enter
  enter-heap {s} now interval repeat cb token cabinet v =
      let p = s.next_pointer in
      let t : Timer = record {
        token = token;
        interval = interval;
        expired = (now + interval) % 2 ^ 64;
        repeat = repeat;
        cb = cb;
      } in
      let k = key (store p t s) in
      let away : (q : ℕ) → 0 < count q s.timer_min_heap → p ≢ q =
        (λ q z x. omega (arith, v.below q z)) in
      let kept : IsHeap k s.timer_min_heap =
        congr (key s) k s.timer_min_heap (λ q z. sym (key-store_ne p t s q (away q z))) v.heap in
      let (h', c') = pushed k s.timer_min_heap p kept in
      (h', λ q. omega (arith, c' q, count-append q s.timer_min_heap (p ∷ []), count-one p q))
