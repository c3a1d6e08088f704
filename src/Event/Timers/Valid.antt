-- ===== src/Event/Timers/Valid.antt =====
-- modules/event/common_loop_timer.cpp: the heap and the cabinet hold the same timers, whatever is asked of them.
use cpp_tbox.Common.{
  ℕ, ◌+◌, ◌-◌, ◌%◌, ◌^◌, ◌<◌, ◌≡◌, ◌≢◌, refl, sym, ap, ap₂, subst, ◌∙◌, ◌⊎◌, inl, inr, Bool, true,
  false, none, some, List, ◌∷◌, ◌==◌, if◌then◌else◌, arith, Bool-cases,
}
use cpp_tbox.Base.Cabinet.{Token, free, at, find, equal, init as no_objects}
use cpp_tbox.Base.Cabinet.Invariant.{Inv, init-Inv, free-Inv}
use cpp_tbox.Base.Cabinet.Laws.{at-free}
use cpp_tbox.Event.Timers.{Timer, HeapLib, Loop, init, store, key, advance}
use cpp_tbox.Event.Timers.Heap.{count, HeapLaws}
use cpp_tbox.Event.Timers.Order.{
  memory-store, Without, IsOrdered, Without-self, advance-once, advance-again,
}

module _ (lib : HeapLib) (laws : HeapLaws lib) where
  open laws use {IsHeap}

  -- The cabinet finds the timers of the heap, under their tokens, and no other.
  pub record IsValid (s : Loop) : Type 0 where
    pub ordered : IsOrdered lib laws s
    pub inv : Inv s.timer_cabinet
    pub finds :
        (p : ℕ) → 0 < count p s.timer_min_heap → at (s.memory p).token s.timer_cabinet ≡ some p
    pub owned :
        (t : Token) (p : ℕ)
        → at t s.timer_cabinet ≡ some p
        → (0 < count p s.timer_min_heap) × ((s.memory p).token ≡ t)

  -- A loop that has no timer.
  pub init-IsValid : IsValid init
  unfolding no_objects count at find
  init-IsValid = record {
    ordered = record {
      heap = laws.nil (key init);
      distinct = λ p. omega arith;
      below = λ p c. absurd (omega arith);
      due = λ p c. absurd (omega arith);
    };
    inv = init-Inv;
    finds = λ p c. absurd (omega arith);
    owned = λ t p e. absurd (ground arith);
  }

  pub equal→eq : (s t : Token) → equal s t ≡ true → s ≡ t
  unfolding equal
  equal→eq s t h =
      let a : s.id ≡ t.id = ground arith in
      let b : s.pos ≡ t.pos = ground arith in λ i. record { id = a i; pos = b i }

  pub equal_self : (t : Token) → equal t t ≡ true
  unfolding equal
  equal_self t = ground arith

  -- A timer taken from the heap and from the cabinet.
  pub removed :
      (s s' : Loop) (p : ℕ) (t : Token)
      → IsValid s
      → at t s.timer_cabinet ≡ some p
      → s'.timer_cabinet ≡ (free t s.timer_cabinet).1
      → s'.next_pointer ≡ s.next_pointer
      → ((q : ℕ) → p ≢ q → (s'.memory q).token ≡ (s.memory q).token)
      → ((q : ℕ) → p ≢ q → key s' q ≡ key s q)
      → IsHeap (key s') s'.timer_min_heap × Without p s.timer_min_heap s'.timer_min_heap
      → IsValid s'
  removed s s' p t v e ec en et ek (h, w) = record {
    ordered = record {
      heap = h;
      distinct = λ q. omega (arith, w q, v.ordered.distinct q);
      below = λ q c. omega (arith, w q, v.ordered.below q (still q c), en);
      due = λ q c. rw (ek q (other q c)) (v.ordered.due q (still q c));
    };
    inv = subst Inv (sym ec) (free-Inv t v.inv);
    finds = λ q c.
        ap (at (s'.memory q).token) ec
        ∙ ap (λ u. at u (free t s.timer_cabinet).1) (et q (other q c))
        ∙ (at-free (s.memory q).token t s.timer_cabinet).1
        ∙ not_freed q (other q c) (Bool-cases (equal (s.memory q).token t)) (v.finds q (still q c));
    owned = λ u q f.
        kept u q (Bool-cases (equal u t))
          (sym (at-free u t s.timer_cabinet).1 ∙ ap (at u) (sym ec) ∙ f);
  }
    where
      mine : (0 < count p s.timer_min_heap) × ((s.memory p).token ≡ t)
      mine = v.owned t p e

      gone : count p s'.timer_min_heap ≡ 0
      gone = Without-self lib laws p s.timer_min_heap s'.timer_min_heap w (v.ordered.distinct p)

      other : (q : ℕ) → 0 < count q s'.timer_min_heap → p ≢ q
      other q c x =
          let g : count q s'.timer_min_heap ≡ 0 =
            subst (λ y. count y s'.timer_min_heap ≡ 0) x gone in
          omega (arith, g, c)

      still : (q : ℕ) → 0 < count q s'.timer_min_heap → 0 < count q s.timer_min_heap
      still q c = omega (arith, w q)

      not_freed :
          (q : ℕ)
          → p ≢ q
          → (equal (s.memory q).token t ≡ true) ⊎ (equal (s.memory q).token t ≡ false)
          → at (s.memory q).token s.timer_cabinet ≡ some q
          → (if equal (s.memory q).token t then none else at (s.memory q).token s.timer_cabinet)
            ≡ some q
      not_freed q n (inl b) f = absurd (
          n (
            let x : at t s.timer_cabinet ≡ some q =
              subst (λ u. at u s.timer_cabinet ≡ some q) (equal→eq _ _ b) f in
            cc))
      not_freed q n (inr b) f = rw b f

      kept :
          (u : Token) (q : ℕ)
          → (equal u t ≡ true) ⊎ (equal u t ≡ false)
          → (if equal u t then none else at u s.timer_cabinet) ≡ some q
          → (0 < count q s'.timer_min_heap) × ((s'.memory q).token ≡ u)
      kept u q (inl b) f = absurd (let f' : none ≡ some q = rw b at f in cc)
      kept u q (inr b) f =
          let f' : at u s.timer_cabinet ≡ some q = rw b at f in
          let (c, k) = v.owned u q f' in
          let n : p ≢ q = (λ x.
            let z : t ≡ u = sym mine.1 ∙ ap (λ y. (s.memory y).token) x ∙ k in
            let y : equal u t ≡ true = subst (λ a. equal u a ≡ true) (sym z) (equal_self u) in
            cc) in
          let z : (p == q) ≡ false = ground arith in
          let w' = rw z at (w q) in (omega (arith, w'), et q n ∙ k)

  -- What a timer that is put back becomes.
  abbrev pub again : Timer → Timer
  again t = record t {
    expired = (t.expired + t.interval) % 2 ^ 64;
    repeat = if t.repeat == 0 then 0 else t.repeat - 1;
  }

  pub memory-again :
      (s : Loop) (p q : ℕ)
      → ((s.memory p).repeat == 1) ≡ false
      → (advance lib p s).memory q ≡ (if q == p then again (s.memory p) else s.memory q)
  unfolding advance
  memory-again s p q b = rw b (memory-store p (again (s.memory p)) s q)

  pub memory-once :
      (s : Loop) (p q : ℕ)
      → ((s.memory p).repeat == 1) ≡ true
      → (advance lib p s).memory q ≡ s.memory q
  unfolding advance
  memory-once s p q b = rw b

  pub next-advance : (s : Loop) (p : ℕ) → (advance lib p s).next_pointer ≡ s.next_pointer
  unfolding advance store
  next-advance s p = elim (Bool-cases ((s.memory p).repeat == 1)) [ inl b ↦ rw b | inr b ↦ rw b ]

  -- Through the test that memory-again makes.
  if_same :
      {B : Type 0} (f : Timer → B) (b : Bool) (t u : Timer)
      → (b ≡ true → f t ≡ f u)
      → f (if b then t else u) ≡ f u
  if_same f true t u h = h refl
  if_same f false t u h = refl

  token-again :
      (s : Loop) (p q : ℕ)
      → ((s.memory p).repeat == 1) ≡ false
      → ((advance lib p s).memory q).token ≡ (s.memory q).token
  token-again s p q b =
      ap (λ (t : Timer). t.token) (memory-again s p q b)
      ∙ if_same (λ t. t.token) (q == p) (again (s.memory p)) (s.memory q)
          (λ e. ap (λ r. (s.memory r).token) (let x : p ≡ q = ground arith in x))

  -- advance keeps the timers well-formed, whether the one at the front is taken out or put back.
  pub advance-IsValid :
      (s : Loop) (p : ℕ) (l : List ℕ)
      → IsValid s
      → s.timer_min_heap ≡ p ∷ l
      → (s.memory p).expired + (s.memory p).interval < 2 ^ 64
      → IsValid (advance lib p s)
  advance-IsValid s p l v e h = go (Bool-cases ((s.memory p).repeat == 1))
    where
      first : 0 < count p s.timer_min_heap
      first =
          let one : (p == p) ≡ true = ground arith in rw e (unfold count in (rw one (omega arith)))

      due_again :
          (q : ℕ)
          → ((s.memory p).repeat == 1) ≡ false
          → 0 < key s q
          → ((q == p) ≡ true) ⊎ ((q == p) ≡ false)
          → 0 < key (advance lib p s) q
      due_again q b k (inl x) =
          let d : 0 < (s.memory p).expired = v.ordered.due p first in
          let z : key (advance lib p s) q
              ≡ ((s.memory p).expired + (s.memory p).interval) % 2 ^ 64 =
            ap (λ (t : Timer). t.expired) (memory-again s p q b)
            ∙ ap (λ (c : Bool). (if c then again (s.memory p) else s.memory q).expired) x in
          omega (arith, z, d, h)
      due_again q b k (inr x) =
          let z : key (advance lib p s) q ≡ key s q =
            ap (λ (t : Timer). t.expired) (memory-again s p q b)
            ∙ ap (λ (c : Bool). (if c then again (s.memory p) else s.memory q).expired) x in
          omega (arith, z, k)

      go :
          (((s.memory p).repeat == 1) ≡ true) ⊎ (((s.memory p).repeat == 1) ≡ false)
          → IsValid (advance lib p s)
      go (inl b) =
          removed s (advance lib p s) p (s.memory p).token v (v.finds p first)
            (unfold advance in (rw b)) (next-advance s p)
            (λ q n. ap (λ (t : Timer). t.token) (memory-once s p q b))
            (λ q n. ap (λ (t : Timer). t.expired) (memory-once s p q b))
            (advance-once lib laws p l v.ordered e b)
      go (inr b) =
          let (heap, c) = advance-again lib laws p l v.ordered e b in
          let cab : (advance lib p s).timer_cabinet ≡ s.timer_cabinet =
            unfold advance store in (rw b) in
          record {
            ordered = record {
              heap = heap;
              distinct = λ q. omega (arith, c q, v.ordered.distinct q);
              below = λ q z. omega (arith, c q, v.ordered.below q (rw (← c q) z), next-advance s p);
              due = λ q z. due_again q b (v.ordered.due q (rw (← c q) z)) (Bool-cases (q == p));
            };
            inv = subst Inv (sym cab) v.inv;
            finds = λ q z. ap₂ (λ t u. at t u) (token-again s p q b) cab ∙ v.finds q (rw (← c q) z);
            owned = λ t q f.
                let (m, k) = v.owned t q (ap (at t) (sym cab) ∙ f) in
                (rw (c q) m, token-again s p q b ∙ k);
          }
