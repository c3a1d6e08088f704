-- ===== src/Util/Serializer/RoundTrip.antt =====
-- An appended value stands behind what was written before, in a fixed block as in a vector.
use cpp_tbox.Common.{
  ℕ, zero, suc, ◌+◌, ◌-◌, ◌%◌, ◌^◌, ◌≤◌, ◌<◌, ◌≡◌, refl, sym, ap, ap₂, ◌∙◌, true, List, [], ◌∷◌,
  ◌++◌, length, take, blit, replicate, length-append, length-take, length-replicate, length-blit,
  take-blit, take-take_of_le, arith,
}
use cpp_tbox.Util.Serializer.{
  Endian, Target, raw, vector, Serializer, Item, resize, extend_size, append, place, layout,
  size_of,
}
use cpp_tbox.Util.Serializer.Bytes.{length-layout}

-- What has been written.
unfoldable pub written : Serializer → List ℕ
written s = take s.pos s.store

-- The position is in the block, and a fixed block has the size given.
pub record IsValid (s : Serializer) : Type 0 where
  pub placed : s.pos ≤ length s.store
  pub sized : (n : ℕ) → s.target ≡ raw n → length s.store ≡ n
  pub small : length s.store < 2 ^ 62

-- There is room for `n` more bytes: in a fixed block below its end, in a vector below what `size_t` counts.
unfoldable pub Room : ℕ → Serializer → Type 0
Room n s = (s.pos + n < 2 ^ 62) × ((m : ℕ) → s.target ≡ raw m → s.pos + n ≤ m)

-- What `extend_size` leaves: what is written is as before, and there are `n` bytes behind it.
record Extended (n : ℕ) (s s' : Serializer) : Type 0 where
  kept : take s.pos s'.store ≡ take s.pos s.store
  room : s.pos + n ≤ length s'.store
  same_size : (m : ℕ) → s.target ≡ raw m → length s'.store ≡ m
  bounded : length s'.store < 2 ^ 62
  same_pos : s'.pos ≡ s.pos
  same_endian : s'.endian ≡ s.endian
  same_target : s'.target ≡ s.target

take-append_of_le : (n : ℕ) (xs ys : List ℕ) → n ≤ length xs → take n (xs ++ ys) ≡ take n xs
take-append_of_le zero xs ys h = refl
take-append_of_le (suc n) [] ys h = absurd (omega arith)
take-append_of_le (suc n) (x ∷ xs) ys h = ap (λ r. x ∷ r) (take-append_of_le n xs ys (omega arith))

take-resize : (n w : ℕ) (l : List ℕ) → n ≤ w → n ≤ length l → take n (resize w l) ≡ take n l
unfolding resize
take-resize n w l h k =
    take-append_of_le n (take w l) (replicate (w - length l) 0) (omega (arith, length-take w l))
    ∙ take-take_of_le n w l h

extend_at :
    (n : ℕ) (t : Target) (store : List ℕ) (e : Endian) (pos : ℕ)
    → let s : Serializer = record { target = t; store = store; endian = e; pos = pos } in
      IsValid s → Room n s → ((extend_size n s).0 ≡ true) × Extended n s (extend_size n s).1
unfolding extend_size Room resize
extend_at n (raw m) store e pos v room =
    let fits : pos + n ≤ m = room.1 m refl in
    let size : length store ≡ m = v.sized m refl in
    (
      ground arith,
      record {
        kept = refl;
        room = omega arith;
        same_size = v.sized;
        bounded = v.small;
        same_pos = refl;
        same_endian = refl;
        same_target = refl;
      },
    )
extend_at n vector store e pos v room =
    let whole : (pos + n) % 2 ^ 64 ≡ pos + n = omega (arith, room.0) in
    (
      refl,
      record {
        kept = take-resize pos ((pos + n) % 2 ^ 64) store (omega arith) v.placed;
        room = omega (
          arith,
          length-take ((pos + n) % 2 ^ 64) store,
          length-append (take ((pos + n) % 2 ^ 64) store)
              (replicate ((pos + n) % 2 ^ 64 - length store) 0),
          length-replicate {A = ℕ} ((pos + n) % 2 ^ 64 - length store) 0,
        );
        same_size = λ m f. absurd (cc);
        bounded = omega (
          arith,
          room.0,
          length-take ((pos + n) % 2 ^ 64) store,
          length-append (take ((pos + n) % 2 ^ 64) store)
              (replicate ((pos + n) % 2 ^ 64 - length store) 0),
          length-replicate {A = ℕ} ((pos + n) % 2 ^ 64 - length store) 0,
        );
        same_pos = refl;
        same_endian = refl;
        same_target = refl;
      },
    )

-- What an append with room leaves.
pub record Appended (v : Item) (s s' : Serializer) : Type 0 where
  pub valid : IsValid s'
  pub added : written s' ≡ written s ++ layout s.endian v
  pub same_endian : s'.endian ≡ s.endian
  pub same_target : s'.target ≡ s.target
  pub advanced : s'.pos ≡ s.pos + size_of v

place_lem :
    (v : Item) {s s₁ : Serializer}
    → Extended (size_of v) s s₁
    → s.pos + size_of v < 2 ^ 62
    → Appended v s (place v s₁)
unfolding place written
place_lem v {s} {s₁} x room =
    let bytes : List ℕ = layout s₁.endian v in
    let count : length bytes ≡ size_of v = length-layout s₁.endian v in
    let goes : (s₁.pos + size_of v) % 2 ^ 64 ≡ s₁.pos + size_of v = omega (arith, x.same_pos) in
    let measure : length (blit s₁.store s₁.pos bytes) ≡ length s₁.store =
      length-blit s₁.store s₁.pos bytes (omega (arith, x.room, x.same_pos)) in
    record {
      valid = record {
        placed = omega (arith, x.room, x.same_pos);
        sized = λ n f. measure ∙ x.same_size n (sym x.same_target ∙ f);
        small = omega (arith, x.bounded);
      };
      added =
          take-blit s₁.store s₁.pos ((s₁.pos + size_of v) % 2 ^ 64) bytes
            (omega (arith, x.room, x.same_pos)) (omega arith)
          ∙ ap₂ (λ l e. l ++ layout e v) (ap (λ n. take n s₁.store) x.same_pos ∙ x.kept)
              x.same_endian;
      same_endian = x.same_endian;
      same_target = x.same_target;
      advanced = omega (arith, x.same_pos);
    }

-- Where there is room, append returns true, adds the bytes of the value in the serializer's byte
-- order to what is written, and keeps the rest of its state.
pub append_adds :
    (v : Item) {s : Serializer}
    → IsValid s
    → Room (size_of v) s
    → ((append v s).0 ≡ true) × Appended v s (append v s).1
unfolding append Room
append_adds v {s} h room =
    let (ok, x) = extend_at (size_of v) s.target s.store s.endian s.pos h room in
    rw ok (refl, place_lem v x room.0)
