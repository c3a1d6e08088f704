-- ===== src/Util/Buffer/Laws.antt =====
-- The representation invariant, and what each operation does to the readable bytes.
use cpp_tbox.Common.{
  ℕ, ◌+◌, ◌-◌, ◌*◌, ◌%◌, ◌^◌, ◌≤◌, ◌<◌, ◌≡◌, ap, ◌∙◌, true, List, length, take, drop, arith,
  length-take, length-drop, length-blit, take-blit, drop-append_left,
}
use cpp_tbox.Util.Buffer.{
  Buffer, writable_size, readable_size, contents, slide, grow, ensure_writable_size,
}

-- The indices are in order and within a store of the recorded size.
pub record IsValid (b : Buffer) : Type 0 where
  pub sized : length b.store ≡ b.size
  pub written : b.write_index ≤ b.size
  pub ordered : b.read_index ≤ b.write_index
  pub small : b.size < 2 ^ 63

pub sizes :
    {b : Buffer}
    → IsValid b
    → (readable_size b ≡ b.write_index - b.read_index) × (writable_size b ≡ b.size - b.write_index)
unfolding readable_size writable_size
sizes v = omega arith

pub length-contents : {b : Buffer} → IsValid b → length (contents b) ≡ b.write_index - b.read_index
length-contents {b} v = omega (
  arith,
  v.sized,
  length-drop b.read_index (take b.write_index b.store),
  length-take b.write_index b.store,
)

slide-IsValid : {b : Buffer} → IsValid b → IsValid (slide b)
unfolding slide
slide-IsValid {b} v = record {
  sized = omega (arith, v.sized, length-blit b.store 0 (contents b), length-contents v);
  written = omega arith;
  ordered = omega arith;
  small = v.small;
}

contents-slide : {b : Buffer} → IsValid b → contents (slide b) ≡ contents b
unfolding slide
contents-slide {b} v =
    take-blit b.store 0 (b.write_index - b.read_index) (contents b) (omega arith)
      (omega (arith, length-contents v))

writable-slide :
    {b : Buffer} → IsValid b → writable_size (slide b) ≡ b.size - (b.write_index - b.read_index)
unfolding slide writable_size
writable-slide v = omega arith

write_index-slide : (b : Buffer) → (slide b).write_index ≤ b.write_index
unfolding slide
write_index-slide b = omega arith

module _ (fresh : ℕ → List ℕ) (allocates : (n : ℕ) → length (fresh n) ≡ n) where
  grow-IsValid :
      (n : ℕ) {b : Buffer} → IsValid b → b.write_index ≤ n → n < 2 ^ 63 → IsValid (grow fresh n b)
  unfolding grow
  grow-IsValid n {b} v h small = record {
    sized =
        omega
          (arith, allocates n, length-blit (fresh n) b.read_index (contents b), length-contents v);
    written = omega arith;
    ordered = v.ordered;
    small = small;
  }

  contents-grow :
      (n : ℕ) {b : Buffer} → IsValid b → b.write_index ≤ n → contents (grow fresh n b) ≡ contents b
  unfolding grow
  contents-grow n {b} v h =
      ap (drop b.read_index) (
        take-blit (fresh n) b.read_index b.write_index (contents b) (omega (arith, allocates n))
          (omega (arith, length-contents v)))
      ∙ drop-append_left b.read_index (take b.read_index (fresh n)) (contents b)
          (omega (arith, allocates n, length-take b.read_index (fresh n)))

  write_index-grow : (n : ℕ) (b : Buffer) → (grow fresh n b).write_index ≤ b.write_index
  unfolding grow
  write_index-grow n b = omega arith

  writable-grow :
      (n : ℕ) {b : Buffer}
      → IsValid b
      → b.write_index ≤ n
      → n < 2 ^ 63
      → writable_size (grow fresh n b) ≡ n - b.write_index
  unfolding grow writable_size
  writable-grow n v h small = omega arith

  -- ensureWritableSize on a well-formed buffer whose indices do not overflow returns true, makes
  -- the room asked for, keeps the readable bytes and the buffer well-formed, and does not raise
  -- the write index.
  pub ensure_lem :
      (n : ℕ) {b : Buffer}
      → IsValid b
      → (b.write_index + n) * 2 < 2 ^ 63
      → let (done, b') = ensure_writable_size fresh n b in
        (done ≡ true)
        × IsValid b'
        × (n ≤ writable_size b')
        × (contents b' ≡ contents b)
        × (b'.write_index ≤ b.write_index)
  unfolding ensure_writable_size
  ensure_lem n {b} v h = ground (
    arith,
    write_index-slide b,
    write_index-grow ((b.write_index + n) * 2 % 2 ^ 64) b,
    sizes v,
    slide-IsValid v,
    contents-slide v,
    writable-slide v,
    grow-IsValid ((b.write_index + n) * 2 % 2 ^ 64) v,
    contents-grow ((b.write_index + n) * 2 % 2 ^ 64) v,
    writable-grow ((b.write_index + n) * 2 % 2 ^ 64) v,
  )
