-- ===== src/Util/Serializer/Vector.antt =====
-- modules/util/serializer.cpp: a serializer over a vector appends to its end.
use cpp_tbox.Common.{
  ℕ, ◌+◌, ◌-◌, ◌%◌, ◌^◌, ◌<◌, ◌≡◌, refl, ap, ap₂, ◌∙◌, true, List, ◌++◌, append-nil, length, take,
  replicate, blit, take-append_left, drop_all, take_all, length-append, length-replicate, arith,
}
use cpp_tbox.Util.Serializer.{
  Endian, Item, append, layout, size_of, vector, resize, extend_size, place,
}
use cpp_tbox.Util.Serializer.Bytes.{length-layout}

-- What the block is filled up with is written over.
fill_up :
    (block added : List ℕ) (n : ℕ)
    → length added ≡ n
    → blit
        (take (length block + n) block ++ replicate (length block + n - length block) 0)
        (length block)
        added
      ≡ block ++ added
fill_up block added n h =
    let t : take (length block + n) block ≡ block =
      take_all (length block + n) block (omega arith) in
    let whole : List ℕ = block ++ replicate (length block + n - length block) 0 in
    let all : length whole ≡ length block + n = omega (
      arith,
      length-append block (replicate (length block + n - length block) 0),
      length-replicate {A = ℕ} (length block + n - length block) 0,
    ) in
    ap (λ l. blit (l ++ replicate (length block + n - length block) 0) (length block) added) t
    ∙ ap₂ (λ a b. a ++ (added ++ b))
        (take-append_left (length block) block (replicate (length block + n - length block) 0) refl)
        (drop_all (length block + length added) whole (omega arith))
    ∙ ap (λ l. block ++ l) (append-nil added)

-- At the end of what was written, while the size does not wrap.
pub append-vector :
    (v : Item) (block : List ℕ) (e : Endian)
    → length block + size_of v < 2 ^ 64
    → append v (record { target = vector; store = block; endian = e; pos = length block }) ≡ (
      true,
      record {
        target = vector;
        store = block ++ layout e v;
        endian = e;
        pos = length (block ++ layout e v);
      },
    )
unfolding append extend_size place resize
append-vector v block e h =
    let n : (length block + size_of v) % 2 ^ 64 ≡ length block + size_of v = omega arith in
    rw n (λ i. (
      true,
      record {
        target = vector;
        store = fill_up block (layout e v) (size_of v) (length-layout e v) i;
        endian = e;
        pos = sized i;
      },
    ))
  where
    sized : length block + size_of v ≡ length (block ++ layout e v)
    sized = omega (arith, length-append block (layout e v), length-layout e v)
