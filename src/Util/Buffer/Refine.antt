-- ===== src/Util/Buffer/Refine.antt =====
-- A buffer as a queue of bytes: `append` and `fetch` against a list.
use cpp_tbox.Common.{
  ℕ, ◌+◌, ◌*◌, ◌^◌, ◌≤◌, ◌<◌, ◌≡◌, refl, sym, ap, ◌∙◌, List, [], ◌∷◌, ◌++◌, ltb, if◌then◌else◌,
  length, take, drop, blit, arith, length-take, length-blit, take-blit, drop-append_of_le,
  drop-drop, take_all, drop_all, take-drop-take, Bool-cases, dec_lt, inl, inr,
}
use cpp_tbox.Util.Buffer.{
  Buffer, null, writable_size, readable_size, contents, has_written, has_read, fetch, put, append,
  clone_from, shrink,
}
use cpp_tbox.Util.Buffer.Laws.{IsValid, sizes, length-contents, ensure_lem}

put-eq :
    (bytes : List ℕ) {b : Buffer}
    → IsValid b
    → length bytes ≤ writable_size b
    → put bytes b ≡ record b {
      store = blit b.store b.write_index bytes;
      write_index = b.write_index + length bytes;
    }
unfolding put has_written
put-eq bytes {b} v h = ground (arith, sizes v)

put-IsValid :
    (bytes : List ℕ) {b : Buffer}
    → IsValid b
    → length bytes ≤ writable_size b
    → IsValid (put bytes b)
put-IsValid bytes {b} v h = rw (put-eq bytes v h) (record {
  sized = omega (arith, v.sized, sizes v, length-blit b.store b.write_index bytes);
  written = omega (arith, sizes v);
  ordered = omega arith;
  small = v.small;
})

contents-put :
    (bytes : List ℕ) {b : Buffer}
    → IsValid b
    → length bytes ≤ writable_size b
    → contents (put bytes b) ≡ contents b ++ bytes
contents-put bytes {b} v h = rw (put-eq bytes v h) (
    ap (drop b.read_index)
      (take-blit b.store b.write_index (b.write_index + length bytes) bytes (omega arith) refl)
    ∙ drop-append_of_le b.read_index (take b.write_index b.store) bytes
        (omega (arith, length-take b.write_index b.store)))

has_read_all_case :
    (n : ℕ) {b : Buffer}
    → IsValid b
    → n < 2 ^ 63
    → b.write_index ≤ b.read_index + n
    → has_read n b ≡ record b { read_index = 0; write_index = 0 }
unfolding has_read
has_read_all_case n v h e = ground arith

has_read_part_case :
    (n : ℕ) {b : Buffer}
    → IsValid b
    → b.read_index + n < b.write_index
    → has_read n b ≡ record b { read_index = b.read_index + n }
unfolding has_read
has_read_part_case n v e = ground arith

nil_of_length : (xs : List ℕ) → length xs ≤ 0 → xs ≡ []
nil_of_length [] h = refl
nil_of_length (x ∷ xs) h = absurd (omega arith)

-- `hasRead` drops that many readable bytes, and all of them if there are fewer.
pub has_read_lem :
    (n : ℕ) {b : Buffer}
    → IsValid b
    → n < 2 ^ 63
    → IsValid (has_read n b)
      × (contents (has_read n b) ≡ drop n (contents b))
      × ((has_read n b).write_index ≤ b.write_index)
has_read_lem n {b} v h = elim (dec_lt (b.read_index + n) b.write_index) [
  | yes e ↦ rw (has_read_part_case n v e) (
    omega (arith, v),
    sym (drop-drop n b.read_index (b.read_index + n) (take b.write_index b.store) refl),
    omega arith,
  )
  | no e ↦ rw (has_read_all_case n v h (omega arith)) (
    omega (arith, v),
    sym (drop_all n (contents b) (omega (arith, length-contents v))),
    omega arith,
  )
]

-- fetch of n returns the first n readable bytes, or all of them if there are fewer, and leaves the
-- rest readable.
pub fetch_lem :
    (n : ℕ) {b : Buffer}
    → IsValid b
    → let (out, b') = fetch n b in
      IsValid b'
      × (out ≡ take n (contents b))
      × (contents b' ≡ drop n (contents b))
      × (b'.write_index ≤ b.write_index)
unfolding fetch
fetch_lem n {b} v = elim (Bool-cases (ltb (readable_size b) n)) [
  | inl e ↦
      let few = has_read_lem (readable_size b) v (omega (arith, sizes v)) in
      let short : length (contents b) ≤ n = ground (arith, length-contents v, sizes v) in
      let short' : length (contents b) ≤ readable_size b =
        ground (arith, length-contents v, sizes v) in
      rw (e, fetch)
        (
          few.0,
          sym (
                take-drop-take (readable_size b) b.read_index b.write_index b.store
                  (omega (arith, sizes v)))
              ∙ take_all (readable_size b) (contents b) short'
              ∙ sym (take_all n (contents b) short),
          few.1
              ∙ drop_all (readable_size b) (contents b) short'
              ∙ sym (drop_all n (contents b) short),
          few.2,
        )
  | inr e ↦
      let all = has_read_lem n v (ground (arith, sizes v)) in
      rw (e, fetch)
        (
          all.0,
          sym (take-drop-take n b.read_index b.write_index b.store (ground (arith, sizes v))),
          all.1,
          all.2,
        )
]

module _ (fresh : ℕ → List ℕ) (allocates : (n : ℕ) → length (fresh n) ≡ n) where
  -- append on a well-formed buffer whose indices do not overflow returns the number of its bytes
  -- and puts them behind the readable ones.
  pub append_lem :
      (bytes : List ℕ) {b : Buffer}
      → IsValid b
      → (b.write_index + length bytes) * 2 < 2 ^ 63
      → let (n, b') = append fresh bytes b in
        (n ≡ length bytes)
        × IsValid b'
        × (contents b' ≡ contents b ++ bytes)
        × (b'.write_index ≤ b.write_index + length bytes)
  unfolding append
  append_lem bytes {b} v h =
      let (done, valid, room, same, low) = ensure_lem fresh allocates (length bytes) v h in
      rw (done, append)
        (
          refl,
          put-IsValid bytes valid room,
          contents-put bytes valid room ∙ ap (λ l. l ++ bytes) same,
          rw (put-eq bytes valid room) (omega (arith, low)),
        )

  clone-eq :
      {b : Buffer}
      → IsValid b
      → clone_from fresh b ≡ (
          if ltb 0 (readable_size b)
          then record {
            store = blit (fresh (readable_size b)) 0 (contents b);
            size = readable_size b;
            read_index = 0;
            write_index = readable_size b;
          }
          else null)
  unfolding clone_from
  clone-eq {b} v = rw copied refl
    where
      copied : take (readable_size b) (drop b.read_index b.store) ≡ contents b
      copied =
          sym (
            take-drop-take (readable_size b) b.read_index b.write_index b.store
              (omega (arith, sizes v)))
          ∙ take_all (readable_size b) (contents b) (omega (arith, length-contents v, sizes v))

  -- shrink keeps the readable bytes, in a store that they fill.
  pub shrink_lem :
      {b : Buffer}
      → IsValid b
      → let b' = shrink fresh b in
        IsValid b'
        × (contents b' ≡ contents b)
        × (b'.size ≡ length (contents b))
        × (b'.write_index ≤ b.write_index)
  unfolding shrink
  shrink_lem {b} v = elim (Bool-cases (ltb 0 (readable_size b))) [
    | inl e ↦
        rw (clone-eq v, e)
          (
            record {
              sized = omega (
                arith,
                sizes v,
                length-contents v,
                allocates (readable_size b),
                length-blit (fresh (readable_size b)) 0 (contents b),
              );
              written = omega arith;
              ordered = omega arith;
              small = omega (arith, sizes v);
            },
            take-blit (fresh (readable_size b)) 0 (readable_size b) (contents b) (omega arith)
                (omega (arith, sizes v, length-contents v)),
            omega (arith, sizes v, length-contents v),
            omega (arith, sizes v),
          )
    | inr e ↦
        let none_left : length (contents b) ≤ 0 = ground (arith, sizes v, length-contents v) in
        rw (clone-eq v, e)
          (omega arith, sym (nil_of_length (contents b) none_left), omega arith, omega arith)
  ]
