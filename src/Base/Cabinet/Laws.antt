-- ===== src/Base/Cabinet/Laws.antt =====
-- A cabinet as a map from tokens to objects: what each operation changes of it.
use cpp_tbox.Common.{
  ◌+◌, ◌%◌, ◌^◌, ◌<◌, ◌≡◌, ◌≢◌, refl, ◌&&◌, Option, none, some, List, inl, inr, arith, ◌==◌,
  if◌then◌else◌, length, length-set, set, get_elem?, get_elem?-set, lt_of_get_elem?, Option-cases,
}
use cpp_tbox.Base.Cabinet.{
  size_max, Token, Cell, Cabinet, obj_ptr, next_free, is_null, equal, find, at, update, free,
}

module _ {ℓ} {A : Type ℓ} where
  -- A token opens at most the cell at its position, which lies in range and has its id.
  pub find-inv :
      (t : Token) (cells : List (Cell A)) {cell : Cell A}
      → find t cells ≡ some cell
      → (get_elem? cells t.pos ≡ some cell) × (cell.id ≡ t.id) × (t.id ≢ 0)
  unfolding find is_null
  find-inv t cells h = (ground arith, ground arith, ground arith)

  pub find-some :
      (t : Token) (cells : List (Cell A)) {cell : Cell A}
      → get_elem? cells t.pos ≡ some cell
      → cell.id ≡ t.id
      → t.id ≢ 0
      → find t cells ≡ some cell
  unfolding find is_null
  find-some t cells h e n = ground (arith, lt_of_get_elem? cells t.pos h)

  -- Writing cell `t.pos` changes only what the tokens of that position find.
  pub find-set :
      (s t : Token) (cells : List (Cell A)) (cell : Cell A)
      → t.pos < length cells
      → find s (set cells t.pos cell) ≡ (
          if s.pos == t.pos
          then (if s.id == 0 then none else if cell.id == s.id then some cell else none)
          else find s cells)
  unfolding find is_null
  find-set s t cells cell h =
      ground (arith, length-set cells t.pos cell, get_elem?-set cells t.pos s.pos cell h)

  -- Where one token finds its cell, another of that position finds it if the ids agree.
  pub find_of_same_pos :
      (s t : Token) (cells : List (Cell A)) {cell : Cell A}
      → find t cells ≡ some cell
      → s.pos ≡ t.pos
      → find s cells ≡ (if s.id == t.id then some cell else none)
  unfolding find is_null
  find_of_same_pos s t cells h e = ground arith

  find-congr :
      (s t : Token) (cells : List (Cell A))
      → s.pos ≡ t.pos
      → s.id ≡ t.id
      → find s cells ≡ find t cells
  find-congr s t cells p e = λ i. find (record { id = e i; pos = p i }) cells

  -- After an update that returns true its token finds the new object, and every other token finds
  -- what it found before; where it returns false nothing is found differently.
  pub at-update :
      (s t : Token) (o : Option A) (c : Cabinet A)
      → let (done, c') = update t o c in at s c' ≡ (if done && equal s t then o else at s c)
  unfolding update at equal
  at-update s t o c = elim (Option-cases (find t c.cells)) [
    | inl e ↦ rw (e, update) refl
    | inr (cell, e) ↦ rw (e, update) (found cell e)
  ]
    where
      found :
          (cell : Cell A)
          → find t c.cells ≡ some cell
          → at s
              (record c { cells = set c.cells t.pos (record { id = cell.id; slot = obj_ptr o }) })
            ≡ (if equal s t then o else at s c)
      found cell e = ground (
        arith,
        find-inv t c.cells e,
        lt_of_get_elem? c.cells t.pos (find-inv t c.cells e).0,
        find_of_same_pos s t c.cells e,
        find-set s t c.cells (record { id = cell.id; slot = obj_ptr o }),
      )

  -- free returns what its token finds, after which this token finds nothing and every other token
  -- finds what it found before.
  pub at-free :
      (s t : Token) (c : Cabinet A)
      → let (o, c') = free t c in (o ≡ at t c) × (at s c' ≡ (if equal s t then none else at s c))
  unfolding free at equal
  at-free s t c = elim (Option-cases (find t c.cells)) [
    | inl e ↦ rw (e, free) (rw (e, at), ground (arith, find-congr s t c.cells))
    | inr (cell, e) ↦ rw (e, free) (rw (e, at), freed cell e)
  ]
    where
      freed :
          (cell : Cell A)
          → find t c.cells ≡ some cell
          → at s (record c {
            cells = set c.cells t.pos (record { id = 0; slot = next_free c.first_free });
            first_free = t.pos;
            count = (c.count + size_max) % 2 ^ 64;
          })
            ≡ (if equal s t then none else at s c)
      freed cell e = ground (
        arith,
        find-inv t c.cells e,
        lt_of_get_elem? c.cells t.pos (find-inv t c.cells e).0,
        find_of_same_pos s t c.cells e,
        find-set s t c.cells (record { id = 0; slot = next_free c.first_free }),
      )
