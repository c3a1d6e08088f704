-- ===== src/Base/Cabinet/Invariant.antt =====
-- The representation invariant of a cabinet: the free list threads through exactly the free cells.
use cpp_tbox.Common.{
  ℕ, zero, suc, ◌+◌, ◌%◌, ◌^◌, ◌<◌, ◌≡◌, ◌≢◌, refl, Bool, true, false, not, Option, none, some,
  List, [], ◌∷◌, ◌++◌, inl, inr, arith, ◌==◌, if◌then◌else◌, length, length-set, set, get_elem?,
  get_elem?-set, lt_of_get_elem?, Option-cases,
}
use cpp_tbox.Base.Cabinet.{
  size_max, Token, Cell, Cabinet, Slot, obj_ptr, next_free, link, init, find, update, free,
}
use cpp_tbox.Base.Cabinet.Laws.{find-inv}

abbrev pub first : List ℕ → ℕ
first [] = size_max
first (q ∷ qs) = q

abbrev pub NotIn : ℕ → List ℕ → Type 0
NotIn i [] = Unit {0}
NotIn i (q ∷ qs) = (i ≢ q) × NotIn i qs

abbrev pub Distinct : List ℕ → Type 0
Distinct [] = Unit {0}
Distinct (q ∷ qs) = NotIn q qs × Distinct qs

abbrev pub in_use : ℕ → ℕ
in_use id = if id == 0 then 0 else 1

module _ {ℓ} {A : Type ℓ} where
  -- The link that a free cell holds; `none` for a cell in use or out of range.
  unfoldable pub link_at : List (Cell A) → ℕ → Option ℕ
  link_at cells q = elim (get_elem? cells q) [
    | none ↦ none
    | some cell ↦ if cell.id == 0 then some (link cell.slot) else none
  ]

  -- Each position of the list is a free cell that names the next.
  abbrev pub Links : List (Cell A) → List ℕ → Type 0
  Links cells [] = Unit {0}
  Links cells (q ∷ qs) = (link_at cells q ≡ some (first qs)) × Links cells qs

  unfoldable pub live : List (Cell A) → ℕ
  live [] = 0
  live (cell ∷ cells) = in_use cell.id + live cells

  abbrev pub holds_object : Slot A → Bool
  holds_object (obj_ptr o) = true
  holds_object (next_free p) = false

  -- The active member of each cell's union is the one that its id says.
  abbrev pub Tagged : List (Cell A) → Type 0
  Tagged [] = Unit {0}
  Tagged (cell ∷ cells) = (holds_object cell.slot ≡ not (cell.id == 0)) × Tagged cells

  pub record Inv (c : Cabinet A) : Type 0 where
    pub free_list : List ℕ
    pub links : Links c.cells free_list
    pub starts : c.first_free ≡ first free_list
    pub distinct : Distinct free_list
    pub counted : c.count ≡ live c.cells
    pub filled : live c.cells + length free_list ≡ length c.cells
    pub tagged : Tagged c.cells
    pub room : length c.cells < size_max

  pub live-set :
      (cells : List (Cell A)) (i : ℕ) {old : Cell A} (new : Cell A)
      → get_elem? cells i ≡ some old
      → live (set cells i new) + in_use old.id ≡ live cells + in_use new.id
  unfolding live
  live-set [] i new h = absurd (cc)
  live-set (x ∷ cells) zero new h = ground arith
  live-set (x ∷ cells) (suc i) new h = omega (arith, live-set cells i new h)

  pub live-append :
      (cells : List (Cell A)) (new : Cell A) → live (cells ++ new ∷ []) ≡ live cells + in_use new.id
  unfolding live
  live-append [] new = ground arith
  live-append (x ∷ cells) new = omega (arith, live-append cells new)

  pub Tagged-set :
      (cells : List (Cell A)) (i : ℕ) (new : Cell A)
      → holds_object new.slot ≡ not (new.id == 0)
      → Tagged cells
      → Tagged (set cells i new)
  Tagged-set [] i new h t = tt
  Tagged-set (x ∷ cells) zero new h t = (h, t.1)
  Tagged-set (x ∷ cells) (suc i) new h t = (t.0, Tagged-set cells i new h t.1)

  pub Tagged-append :
      (cells : List (Cell A)) (new : Cell A)
      → holds_object new.slot ≡ not (new.id == 0)
      → Tagged cells
      → Tagged (cells ++ new ∷ [])
  Tagged-append [] new h t = (h, tt)
  Tagged-append (x ∷ cells) new h t = (t.0, Tagged-append cells new h t.1)

  pub Links-set :
      (cells : List (Cell A)) (i : ℕ) (new : Cell A) (qs : List ℕ)
      → i < length cells
      → NotIn i qs
      → Links cells qs
      → Links (set cells i new) qs
  unfolding link_at
  Links-set cells i new [] h n l = tt
  Links-set cells i new (q ∷ qs) h n l =
      (ground (arith, n.0, l.0, get_elem?-set cells i q new h), Links-set cells i new qs h n.1 l.1)

  -- A cell in use is on no free list.
  not-in-Links :
      (cells : List (Cell A)) (i : ℕ) {cell : Cell A} (qs : List ℕ)
      → get_elem? cells i ≡ some cell
      → cell.id ≢ 0
      → Links cells qs
      → NotIn i qs
  unfolding link_at
  not-in-Links cells i [] h n l = tt
  not-in-Links cells i {cell} (q ∷ qs) h n l = ((λ e. clash e), not-in-Links cells i qs h n l.1)
    where
      clash : i ≡ q → ⊥
      clash e = ground (arith, l.0)

  pub init-Inv : Inv init
  unfolding init live
  init-Inv = record {
    free_list = [];
    links = tt;
    starts = refl;
    distinct = tt;
    counted = refl;
    filled = omega arith;
    tagged = tt;
    room = omega arith;
  }

  -- update keeps the cabinet well-formed.
  pub update-Inv : (t : Token) (o : Option A) {c : Cabinet A} → Inv c → Inv (update t o c).1
  unfolding update
  update-Inv t o {c} v = elim (Option-cases (find t c.cells)) [
    | inl e ↦ rw (e, update) v
    | inr (cell, e) ↦ rw (e, update) (found cell (find-inv t c.cells e))
  ]
    where
      found :
          (cell : Cell A)
          → (get_elem? c.cells t.pos ≡ some cell) × (cell.id ≡ t.id) × (t.id ≢ 0)
          → Inv (record c { cells = set c.cells t.pos (record { id = cell.id; slot = obj_ptr o }) })
      found cell (h, i, n) =
          let new : Cell A = record { id = cell.id; slot = obj_ptr o } in
          let n' : cell.id ≢ 0 = (λ z. n (omega arith)) in
          record {
            free_list = v.free_list;
            links =
                Links-set c.cells t.pos new v.free_list (lt_of_get_elem? c.cells t.pos h)
                  (not-in-Links c.cells t.pos v.free_list h n' v.links) v.links;
            starts = v.starts;
            distinct = v.distinct;
            counted = omega (arith, v.counted, live-set c.cells t.pos new h);
            filled =
                omega (arith, v.filled, live-set c.cells t.pos new h, length-set c.cells t.pos new);
            tagged = Tagged-set c.cells t.pos new (ground arith) v.tagged;
            room = omega (arith, v.room, length-set c.cells t.pos new);
          }

  link_at-set :
      (cells : List (Cell A)) (i n : ℕ)
      → i < length cells
      → link_at (set cells i (record { id = 0; slot = next_free n })) i ≡ some n
  unfolding link_at
  link_at-set cells i n h =
      ground (arith, get_elem?-set cells i i (record { id = 0; slot = next_free n }) h)

  -- free keeps the cabinet well-formed: the free list links exactly the free cells, and the count
  -- is that of the cells in use.
  pub free-Inv : (t : Token) {c : Cabinet A} → Inv c → Inv (free t c).1
  unfolding free
  free-Inv t {c} v = elim (Option-cases (find t c.cells)) [
    | inl e ↦ rw (e, free) v
    | inr (cell, e) ↦ rw (e, free) (found cell (find-inv t c.cells e))
  ]
    where
      found :
          (cell : Cell A)
          → (get_elem? c.cells t.pos ≡ some cell) × (cell.id ≡ t.id) × (t.id ≢ 0)
          → Inv (record c {
            cells = set c.cells t.pos (record { id = 0; slot = next_free c.first_free });
            first_free = t.pos;
            count = (c.count + size_max) % 2 ^ 64;
          })
      found cell (h, i, n) =
          let new : Cell A = record { id = 0; slot = next_free c.first_free } in
          let n' : cell.id ≢ 0 = (λ z. n (omega arith)) in
          let inside = lt_of_get_elem? c.cells t.pos h in
          let apart = not-in-Links c.cells t.pos v.free_list h n' v.links in
          let change : live (set c.cells t.pos new) + 1 ≡ live c.cells =
            ground (arith, live-set c.cells t.pos new h, n') in
          record {
            free_list = t.pos ∷ v.free_list;
            links = (
              ground (arith, link_at-set c.cells t.pos c.first_free inside, v.starts),
              Links-set c.cells t.pos new v.free_list inside apart v.links,
            );
            starts = refl;
            distinct = (apart, v.distinct);
            counted = omega (arith, v.counted, change, v.filled, v.room);
            filled = omega (arith, v.filled, change, length-set c.cells t.pos new);
            tagged = Tagged-set c.cells t.pos new refl v.tagged;
            room = omega (arith, v.room, length-set c.cells t.pos new);
          }
