-- ===== src/Base/Cabinet/Stale.antt =====
-- Sequences of operations on a cabinet: a token that has been freed stays dead.
use cpp_tbox.Common.{
  ◌+◌, ◌≤◌, ◌<◌, ◌≡◌, refl, false, Option, none, some, List, [], ◌∷◌, ◌⊎◌, inl, inr, arith, length,
  length-set, set, lt_of_get_elem?, Option-cases,
}
use cpp_tbox.Base.Cabinet.{
  size_max, Token, Cell, Cabinet, obj_ptr, next_free, equal, alloc, find, at, update, free,
}
use cpp_tbox.Base.Cabinet.Laws.{find-inv, find-set, find_of_same_pos}
use cpp_tbox.Base.Cabinet.Invariant.{Inv, update-Inv, free-Inv}
use cpp_tbox.Base.Cabinet.Alloc.{alloc_total}

-- A client's calls that change the cabinet.
pub data Call {ℓ} (A : Type ℓ) : Type ℓ where
  allocs : Option A → Call A
  updates : Token → Option A → Call A
  frees : Token → Call A

module _ {ℓ} {A : Type ℓ} where
  -- `none` where `alloc` throws.
  pub step : Call A → Cabinet A → Option (Cabinet A)
  step (allocs o) c = elim (alloc o c) [ none ↦ none | some (t, c') ↦ some c' ]
  step (updates t o) c = some (update t o c).1
  step (frees t) c = some (free t c).1

  pub run : List (Call A) → Cabinet A → Option (Cabinet A)
  run [] c = some c
  run (call ∷ calls) c = elim (step call c) [ none ↦ none | some c' ↦ run calls c' ]

  -- What one call does to a token `s` whose id is not of the future.
  record Kept (s : Token) (c c' : Cabinet A) : Type ℓ where
    inv : Inv c'
    dead : find s c.cells ≡ none → find s c'.cells ≡ none
    last : (c.last_id ≤ c'.last_id) × (c'.last_id ≤ c.last_id + 1)
    grown : length c'.cells ≤ length c.cells + 1

  -- Rewriting the cell of a held token under its own id, or as free, brings no token to life.
  dead-set :
      (s t : Token) (cells : List (Cell A)) {cell : Cell A} (new : Cell A)
      → find t cells ≡ some cell
      → (new.id ≡ 0) ⊎ (new.id ≡ t.id)
      → find s cells ≡ none
      → find s (set cells t.pos new) ≡ none
  dead-set s t cells new e w d = ground (
    arith,
    find-inv t cells e,
    lt_of_get_elem? cells t.pos (find-inv t cells e).0,
    find_of_same_pos s t cells e,
    find-set s t cells new,
  )

  update-Kept : (s t : Token) (o : Option A) {c : Cabinet A} → Inv c → Kept s c (update t o c).1
  unfolding update
  update-Kept s t o {c} v = elim (Option-cases (find t c.cells)) [
    | inl e ↦
        rw (e, update) (record { inv = v; dead = λ d. d; last = omega arith; grown = omega arith })
    | inr (cell, e) ↦
        let new : Cell A = record { id = cell.id; slot = obj_ptr o } in
        let kept = update-Inv t o v in
        rw (e, update)
          (record {
            inv = rw (e, update) at kept;
            dead = dead-set s t c.cells new e (inr (find-inv t c.cells e).1);
            last = omega arith;
            grown = omega (arith, length-set c.cells t.pos new);
          })
  ]

  free-Kept : (s t : Token) {c : Cabinet A} → Inv c → Kept s c (free t c).1
  unfolding free
  free-Kept s t {c} v = elim (Option-cases (find t c.cells)) [
    | inl e ↦
        rw (e, free) (record { inv = v; dead = λ d. d; last = omega arith; grown = omega arith })
    | inr (cell, e) ↦
        let new : Cell A = record { id = 0; slot = next_free c.first_free } in
        let kept = free-Inv t v in
        rw (e, free)
          (record {
            inv = rw (e, free) at kept;
            dead = dead-set s t c.cells new e (inl refl);
            last = omega arith;
            grown = omega (arith, length-set c.cells t.pos new);
          })
  ]

  -- Right after `free` the token opens nothing.
  find-free : (t : Token) (c : Cabinet A) → find t (free t c).1.cells ≡ none
  unfolding free
  find-free t c = elim (Option-cases (find t c.cells)) [
    | inl e ↦ rw (e, free) e
    | inr (cell, e) ↦
        rw (e, free)
          (ground (
            arith,
            find-inv t c.cells e,
            lt_of_get_elem? c.cells t.pos (find-inv t c.cells e).0,
            find-set t t c.cells (record { id = 0; slot = next_free c.first_free }),
          ))
  ]

  free_sizes :
      (t : Token) (c : Cabinet A)
      → (length (free t c).1.cells ≡ length c.cells) × ((free t c).1.last_id ≡ c.last_id)
  unfolding free
  free_sizes t c =
      ground (arith, length-set c.cells t.pos (record { id = 0; slot = next_free c.first_free }))

  step-Kept :
      (s : Token) (call : Call A) {c : Cabinet A}
      → Inv c
      → s.id ≤ c.last_id
      → c.last_id < size_max
      → length c.cells + 1 < size_max
      → (c' : Cabinet A) × (step call c ≡ some c') × Kept s c c'
  unfolding step equal
  step-Kept s (updates t o) v old ids room = (_, refl, update-Kept s t o v)
  step-Kept s (frees t) v old ids room = (_, refl, free-Kept s t v)
  step-Kept s (allocs o) {c} v old ids room =
      let (t, c', e, a) = alloc_total o v room in
      (
        c',
        rw (e, step),
        record {
          inv = a.inv;
          dead = λ d. ground (arith, a.finds s, a.fresh_id, d);
          last = ground (arith, a.last, a.fresh_id);
          grown = a.grown;
        },
      )

  run-dead :
      (s : Token) (calls : List (Call A)) {c : Cabinet A}
      → Inv c
      → find s c.cells ≡ none
      → s.id ≤ c.last_id
      → c.last_id + length calls ≤ size_max
      → length c.cells + length calls < size_max
      → (c' : Cabinet A) × (run calls c ≡ some c') × Inv c' × (find s c'.cells ≡ none)
  unfolding run
  run-dead s [] {c} v d old ids room = (c, refl, v, d)
  run-dead s (call ∷ calls) {c} v d old ids room =
      let (c₁, e, k) = step-Kept s call v old (omega arith) (omega arith) in
      let (c₂, f, w, d₂) =
        run-dead s calls k.inv (k.dead d) (omega (arith, k.last)) (omega (arith, k.last))
          (omega (arith, k.grown)) in
      (c₂, rw (e, run) f, w, d₂)

  -- From a well-formed cabinet, after a token is freed every sequence of alloc, update and free
  -- runs through, while the ids do not wrap and there is room, and the token then finds nothing
  -- and cannot be updated or freed.
  pub freed_stays_dead :
      (t : Token) (o : Option A) (calls : List (Call A)) {c : Cabinet A}
      → Inv c
      → t.id ≤ c.last_id
      → c.last_id + length calls ≤ size_max
      → length c.cells + length calls < size_max
      → (c' : Cabinet A) × (run calls (free t c).1 ≡ some c')
        × (at t c' ≡ none)
        × (update t o c' ≡ (false, c'))
        × (free t c' ≡ (none, c'))
  unfolding at update free
  freed_stays_dead t o calls {c} v old ids room =
      let z = free_sizes t c in
      let (c', e, w, d) =
        run-dead t calls (free-Inv t v) (find-free t c) (omega (arith, z)) (omega (arith, z))
          (omega (arith, z)) in
      (c', e, rw (d, at), rw (d, update), rw (d, free))
