-- ===== src/Base/Cabinet.antt =====
-- modules/base/cabinet.hpp and cabinet_token.h: objects kept under generation-counted tokens.
-- A pointer is an `Option`, `none` for nullptr. `size_t` has 64 bits; an index that leaves
-- `cells_` makes `std::vector::at` throw, which is the `none` of `alloc`.
mod Tests
pub mod Laws
pub mod Alloc
pub mod Invariant
pub mod Stale
use cpp_tbox.Common.{
  ℕ, ◌+◌, ◌-◌, ◌*◌, ◌%◌, ◌^◌, Bool, true, false, ◌&&◌, ◌||◌, Option, none, some, List, [], ◌∷◌,
  ◌++◌, ltb, leb, ◌==◌, if◌then◌else◌, length, get_elem?, set,
}

-- The largest `size_t`; as a position it ends the free list.
abbrev pub size_max : ℕ
size_max = 2 ^ 64 - 1

pub record Token : Type 0 where
  pub id : ℕ
  pub pos : ℕ

pub is_null : Token → Bool
is_null t = t.id == 0

unfoldable pub equal : Token → Token → Bool
equal s t = s.id == t.id && s.pos == t.pos

unfoldable pub less : Token → Token → Bool
less s t = if s.id == t.id then ltb s.pos t.pos else ltb s.id t.id

-- `(id_ << 8) | (pos_ & 0xff)`: the low byte of the shifted id is empty, so the two are added.
unfoldable pub hash : Token → ℕ
hash t = t.id * 256 % 2 ^ 64 + t.pos % 256

-- The id after `last`: never 0.
abbrev pub new_id : ℕ → ℕ
new_id last = if last == size_max then 1 else last + 1

module _ {ℓ} (A : Type ℓ) where
  -- The union of a cell.
  pub data Slot : Type ℓ where
    obj_ptr : Option A → Slot
    next_free : ℕ → Slot

  pub record Cell : Type ℓ where
    pub id : ℕ
    pub slot : Slot

  pub record Cabinet : Type ℓ where
    pub last_id : ℕ
    pub cells : List Cell
    pub first_free : ℕ
    pub count : ℕ

module _ {ℓ} {A : Type ℓ} where
  -- Reading the member of the union that is not active gives no object (and the end of the list);
  -- the invariant rules such reads out.
  abbrev pub object : Slot A → Option A
  object (obj_ptr o) = o
  object (next_free p) = none

  abbrev pub link : Slot A → ℕ
  link (obj_ptr o) = size_max
  link (next_free p) = p

  unfoldable pub init : Cabinet A
  init = record { last_id = 0; cells = []; first_free = size_max; count = 0 }

  alloc_id : Cabinet A → ℕ × Cabinet A
  alloc_id c = (new_id c.last_id, record c { last_id = new_id c.last_id })

  abbrev pub blank : Cell A
  blank = record { id = 0; slot = obj_ptr none }

  alloc_pos : Cabinet A → Option (ℕ × Cabinet A)
  alloc_pos c =
      if c.first_free == size_max
      then some (length c.cells, record c { cells = c.cells ++ (blank ∷ []) })
      else elim (get_elem? c.cells c.first_free) [
        | none ↦ none
        | some cell ↦ some (c.first_free, record c { first_free = link cell.slot })
      ]

  -- Store `o` in the cell at `t.pos`, which `at` must find.
  fill : Token → Option A → Cabinet A → Option (Token × Cabinet A)
  fill t o c = elim (get_elem? c.cells t.pos) [
    | none ↦ none
    | some cell ↦ some (
      t,
      record c {
        cells = set c.cells t.pos (record { id = t.id; slot = obj_ptr o });
        count = (c.count + 1) % 2 ^ 64;
      },
    )
  ]

  unfoldable pub alloc : Option A → Cabinet A → Option (Token × Cabinet A)
  unfolding alloc_id alloc_pos fill
  alloc o c =
      let (id, c₁) = alloc_id c in
      elim (alloc_pos c₁) [
        | none ↦ none
        | some (pos, c₂) ↦ fill (record { id = id; pos = pos }) o c₂
      ]

  -- The cell that a token opens: the token is not null, in range, and of the cell's generation.
  unfoldable pub find : Token → List (Cell A) → Option (Cell A)
  unfolding is_null
  find t cells =
      if is_null t || leb (length cells) t.pos then none else elim (get_elem? cells t.pos) [
        | none ↦ none
        | some cell ↦ if cell.id == t.id then some cell else none
      ]

  unfoldable pub at : Token → Cabinet A → Option A
  at t c = elim (find t c.cells) [ none ↦ none | some cell ↦ object cell.slot ]

  pub update : Token → Option A → Cabinet A → Bool × Cabinet A
  update t o c = elim (find t c.cells) [
    | none ↦ (false, c)
    | some cell ↦
        (true, record c { cells = set c.cells t.pos (record { id = cell.id; slot = obj_ptr o }) })
  ]

  -- `--count_` wraps at 0.
  unfoldable pub free : Token → Cabinet A → Option A × Cabinet A
  free t c = elim (find t c.cells) [
    | none ↦ (none, c)
    | some cell ↦ (
      object cell.slot,
      record c {
        cells = set c.cells t.pos (record { id = 0; slot = next_free c.first_free });
        first_free = t.pos;
        count = (c.count + size_max) % 2 ^ 64;
      },
    )
  ]

  pub clear : Cabinet A → Cabinet A
  unfolding init
  clear c = init

  abbrev pub size : Cabinet A → ℕ
  size c = c.count

  abbrev pub empty : Cabinet A → Bool
  empty c = c.count == 0

  -- The objects that `foreach` hands to its function, in order.
  pub visit : List (Cell A) → List (Option A)
  visit [] = []
  visit (cell ∷ cells) =
      let rest = visit cells in if cell.id == 0 then rest else object cell.slot ∷ rest
