-- ===== src/Base/Cabinet/Alloc.antt =====
-- `Cabinet::alloc`: it takes a cell of the free list, or appends one.
use cpp_tbox.Common.{
  ℕ, suc, ◌+◌, ◌%◌, ◌^◌, ◌≤◌, ◌<◌, ◌≡◌, ◌≢◌, refl, ap, subst, ◌∙◌, Option, none, some, List, [],
  ◌∷◌, ◌++◌, inl, inr, arith, ◌==◌, if◌then◌else◌, length, length-set, length-append, set,
  get_elem?, lt_of_get_elem?, get_elem?-of_le, get_elem?-append_left, get_elem?-append_end,
  Option-cases, dec_lt, ℕ_discrete,
}
use cpp_tbox.Base.Cabinet.{
  size_max, Token, Cell, Cabinet, obj_ptr, is_null, equal, link, new_id, blank, alloc, find,
}
use cpp_tbox.Base.Cabinet.Laws.{find-set}
use cpp_tbox.Base.Cabinet.Invariant.{
  Inv, first, Distinct, link_at, Links, in_use, live-set, live-append, Tagged-set, Tagged-append,
  Links-set,
}

pub new_id-ne-zero : (n : ℕ) → new_id n ≢ 0
new_id-ne-zero n h = ground arith

module _ {ℓ} {A : Type ℓ} where
  -- What a call of `alloc` that returns has done, at an old cabinet `c`.
  pub record Allocated (o : Option A) (c : Cabinet A) (t : Token) (c' : Cabinet A) : Type ℓ where
    pub inv : Inv c'
    pub fresh_id : t.id ≡ new_id c.last_id
    pub last : c'.last_id ≡ t.id
    pub bigger : c'.count ≡ c.count + 1
    pub grown : length c'.cells ≤ length c.cells + 1
    pub unused : find t c.cells ≡ none
    pub finds :
        (s : Token)
        → find s c'.cells
          ≡ (if equal s t then some (record { id = t.id; slot = obj_ptr o }) else find s c.cells)

  set-append_end :
      (xs : List (Cell A)) (y z : Cell A) → set (xs ++ y ∷ []) (length xs) z ≡ xs ++ z ∷ []
  set-append_end [] y z = refl
  set-append_end (x ∷ xs) y z = ap (λ r. x ∷ r) (set-append_end xs y z)

  lt_of_link_at :
      (cells : List (Cell A)) (q : ℕ) {r : ℕ} → link_at cells q ≡ some r → q < length cells
  unfolding link_at
  lt_of_link_at cells q h = ground (arith, get_elem?-of_le cells q)

  Links-append :
      (cells : List (Cell A)) (new : Cell A) (qs : List ℕ)
      → Links cells qs
      → Links (cells ++ new ∷ []) qs
  unfolding link_at
  Links-append cells new [] l = tt
  Links-append cells new (q ∷ qs) l = (
    ground (arith, l.0, get_elem?-append_left cells (new ∷ []) q, lt_of_link_at cells q l.0),
    Links-append cells new qs l.1,
  )

  -- Nothing is found at a position out of range, or in a free cell.
  find-outside : (s : Token) (cells : List (Cell A)) → length cells ≤ s.pos → find s cells ≡ none
  unfolding find is_null
  find-outside s cells h = ground (arith, get_elem?-of_le cells s.pos h)

  find-vacant :
      (s : Token) (cells : List (Cell A)) {cell : Cell A}
      → get_elem? cells s.pos ≡ some cell
      → cell.id ≡ 0
      → find s cells ≡ none
  unfolding find is_null
  find-vacant s cells h z = ground arith

  alloc-append :
      (o : Option A) (c : Cabinet A)
      → c.first_free ≡ size_max
      → alloc o c
        ≡ some (
          record { id = new_id c.last_id; pos = length c.cells },
          record {
            last_id = new_id c.last_id;
            cells = c.cells ++ (record { id = new_id c.last_id; slot = obj_ptr o }) ∷ [];
            first_free = c.first_free;
            count = (c.count + 1) % 2 ^ 64;
          },
        )
  unfolding alloc
  alloc-append o c e = ground (
    arith,
    get_elem?-append_end c.cells blank,
    set-append_end c.cells blank (record { id = new_id c.last_id; slot = obj_ptr o }),
  )

  alloc-reuse :
      (o : Option A) (c : Cabinet A) {cell : Cell A}
      → c.first_free ≢ size_max
      → get_elem? c.cells c.first_free ≡ some cell
      → alloc o c
        ≡ some (
          record { id = new_id c.last_id; pos = c.first_free },
          record {
            last_id = new_id c.last_id;
            cells = set c.cells c.first_free (record { id = new_id c.last_id; slot = obj_ptr o });
            first_free = link cell.slot;
            count = (c.count + 1) % 2 ^ 64;
          },
        )
  unfolding alloc
  alloc-reuse o c n e = ground (arith)

  find-append :
      (s : Token) (cells : List (Cell A)) (new : Cell A)
      → find s (cells ++ new ∷ []) ≡ (
          if s.pos == length cells
          then (if s.id == 0 then none else if new.id == s.id then some new else none)
          else find s cells)
  unfolding find is_null
  find-append s cells new = elim (dec_lt s.pos (length cells)) [
    | yes h ↦
        ground
          (arith, get_elem?-append_left cells (new ∷ []) s.pos h, length-append cells (new ∷ []))
    | no h ↦ elim (ℕ_discrete s.pos (length cells)) [
      | yes e ↦ ground (arith, get_elem?-append_end cells new, length-append cells (new ∷ []))
      | no n ↦
          let over : suc (length cells) ≤ s.pos = omega arith in
          let grown : length (cells ++ new ∷ []) ≤ s.pos =
            omega (arith, length-append cells (new ∷ [])) in
          rw (find-outside s (cells ++ new ∷ []) grown, find-outside s cells (omega arith))
            (ground arith)
    ]
  ]

  -- So the new token opens the new cell, and every other token what it opened before.
  append-finds :
      (s : Token) (cells : List (Cell A)) (id : ℕ) (o : Option A)
      → id ≢ 0
      → find s (cells ++ (record { id = id; slot = obj_ptr o }) ∷ []) ≡ (
          if equal s (record { id = id; pos = length cells })
          then some (record { id = id; slot = obj_ptr o })
          else find s cells)
  unfolding equal
  append-finds s cells id o h =
      ground
        (arith, find-append s cells (record { id = id; slot = obj_ptr o }), find-outside s cells)

  set-finds :
      (s : Token) (cells : List (Cell A)) (id pos : ℕ) (o : Option A) {cell : Cell A}
      → id ≢ 0
      → get_elem? cells pos ≡ some cell
      → cell.id ≡ 0
      → find s (set cells pos (record { id = id; slot = obj_ptr o })) ≡ (
          if equal s (record { id = id; pos = pos })
          then some (record { id = id; slot = obj_ptr o })
          else find s cells)
  unfolding equal
  set-finds s cells id pos o {cell} h e z = ground (
    arith,
    lt_of_get_elem? cells pos e,
    find-set s (record { id = id; pos = pos }) cells (record { id = id; slot = obj_ptr o }),
    find-vacant s cells {cell = cell},
  )

  append-Allocated :
      (o : Option A) {c : Cabinet A} (v : Inv c)
      → v.free_list ≡ []
      → length c.cells + 1 < size_max
      → (t : Token) × (c' : Cabinet A) × (alloc o c ≡ some (t, c')) × Allocated o c t c'
  append-Allocated o {c} v e h = (
    _,
    _,
    alloc-append o c (ground (arith, v.starts)),
    record {
      inv = record {
        free_list = [];
        links = tt;
        starts = ground (arith, v.starts);
        distinct = tt;
        counted =
            ground (arith, v.counted, v.filled, live-append c.cells new, new_id-ne-zero c.last_id);
        filled = ground (
          arith,
          v.filled,
          live-append c.cells new,
          length-append c.cells (new ∷ []),
          new_id-ne-zero c.last_id,
        );
        tagged = Tagged-append c.cells new (ground (arith, new_id-ne-zero c.last_id)) v.tagged;
        room = omega (arith, length-append c.cells (new ∷ []));
      };
      fresh_id = refl;
      last = refl;
      bigger = omega (arith, v.counted, v.filled);
      grown = omega (arith, length-append c.cells (new ∷ []));
      unused =
          find-outside (record { id = new_id c.last_id; pos = length c.cells }) c.cells
            (omega arith);
      finds = λ s. append-finds s c.cells (new_id c.last_id) o (new_id-ne-zero c.last_id);
    },
  )
    where
      new : Cell A
      new = record { id = new_id c.last_id; slot = obj_ptr o }

  link_at-inv :
      (cells : List (Cell A)) (q : ℕ) {r : ℕ}
      → link_at cells q ≡ some r
      → (cell : Cell A) × (get_elem? cells q ≡ some cell) × (cell.id ≡ 0) × (link cell.slot ≡ r)
  unfolding link_at
  link_at-inv cells q h = elim (Option-cases (get_elem? cells q)) [
    | inl e ↦ absurd (ground arith)
    | inr (cell, e) ↦ (cell, e, ground arith, ground arith)
  ]

  reuse-Allocated :
      (o : Option A) {c : Cabinet A} (v : Inv c) (q : ℕ) (qs : List ℕ)
      → v.free_list ≡ q ∷ qs
      → (t : Token) × (c' : Cabinet A) × (alloc o c ≡ some (t, c')) × Allocated o c t c'
  reuse-Allocated o {c} v q qs e =
      by_cell (link_at-inv c.cells c.first_free (rw at_head (subst (Links c.cells) e v.links).0))
    where
      at_head : c.first_free ≡ q
      at_head = v.starts ∙ ap first e

      by_cell :
          (cell : Cell A) × (get_elem? c.cells c.first_free ≡ some cell)
            × (cell.id ≡ 0)
            × (link cell.slot ≡ first qs)
          → (t : Token) × (c' : Cabinet A) × (alloc o c ≡ some (t, c')) × Allocated o c t c'
      by_cell (cell, f, z, l) =
          let id = new_id c.last_id in
          let new : Cell A = record { id = id; slot = obj_ptr o } in
          let inside = lt_of_get_elem? c.cells c.first_free f in
          let used : in_use id ≡ 1 = ground (arith, new_id-ne-zero c.last_id) in
          let size = ap length e in
          (
            _,
            _,
            alloc-reuse o c {cell = cell} (λ k. absurd (omega (arith, v.room))) f,
            record {
              inv = record {
                free_list = qs;
                links =
                    Links-set c.cells c.first_free new qs inside
                      (rw at_head (subst Distinct e v.distinct).0)
                      (subst (Links c.cells) e v.links).1;
                starts = l;
                distinct = (subst Distinct e v.distinct).1;
                counted = omega (
                  arith,
                  v.counted,
                  v.filled,
                  v.room,
                  ap in_use z,
                  used,
                  live-set c.cells c.first_free new f,
                );
                filled = omega (
                  arith,
                  v.filled,
                  size,
                  ap in_use z,
                  used,
                  live-set c.cells c.first_free new f,
                  length-set c.cells c.first_free new,
                );
                tagged =
                    Tagged-set c.cells c.first_free new (ground (arith, new_id-ne-zero c.last_id))
                      v.tagged;
                room = omega (arith, v.room, length-set c.cells c.first_free new);
              };
              fresh_id = refl;
              last = refl;
              bigger = omega (arith, v.counted, v.filled, v.room);
              grown = omega (arith, length-set c.cells c.first_free new);
              unused =
                  find-vacant (record { id = id; pos = c.first_free }) c.cells {cell = cell} f z;
              finds = λ s. set-finds s c.cells id c.first_free o (new_id-ne-zero c.last_id) f z;
            },
          )

  -- While there is room, alloc on a well-formed cabinet returns a token with the next id under
  -- which the object is found, keeps the cabinet well-formed, and every other token finds what it
  -- found before.
  pub alloc_total :
      (o : Option A) {c : Cabinet A}
      → Inv c
      → length c.cells + 1 < size_max
      → (t : Token) × (c' : Cabinet A) × (alloc o c ≡ some (t, c')) × Allocated o c t c'
  alloc_total o {c} v h = by_list v.free_list refl
    where
      by_list :
          (l : List ℕ)
          → v.free_list ≡ l
          → (t : Token) × (c' : Cabinet A) × (alloc o c ≡ some (t, c')) × Allocated o c t c'
      by_list [] e = append-Allocated o v e h
      by_list (q ∷ qs) e = reuse-Allocated o v q qs e
