-- ===== src/Util/Buffer.antt =====
-- modules/util/buffer.cpp and buffer.h: a byte buffer with a read and a write index.
-- `size_t` has 64 bits. A store is a list of bytes, and nullptr is the empty one; `new uint8_t[n]`
-- leaves its bytes unspecified, so they are a parameter, `fresh n`. `new` that throws is not modelled.
mod Tests
pub mod Laws
pub mod Refine
pub mod Run
use cpp_tbox.Common.{
  ℕ, zero, suc, ◌+◌, ◌-◌, ◌*◌, ◌%◌, ◌^◌, Bool, true, false, List, [], ◌∷◌, ◌++◌, ltb, leb, ◌==◌,
  if◌then◌else◌, length, take, drop, blit,
}

pub record Buffer : Type 0 where
  pub store : List ℕ
  pub size : ℕ
  pub read_index : ℕ
  pub write_index : ℕ

abbrev pub null : Buffer
null = record { store = []; size = 0; read_index = 0; write_index = 0 }

-- size_t subtraction wraps.
pub writable_size : Buffer → ℕ
writable_size b = (b.size + 2 ^ 64 - b.write_index) % 2 ^ 64

pub readable_size : Buffer → ℕ
readable_size b = (b.write_index + 2 ^ 64 - b.read_index) % 2 ^ 64

-- The bytes from `readableBegin()` up to the write index.
abbrev pub contents : Buffer → List ℕ
contents b = drop b.read_index (take b.write_index b.store)

pub has_written : ℕ → Buffer → Buffer
has_written n b =
    if ltb b.size ((b.write_index + n) % 2 ^ 64)
    then record b { write_index = b.size }
    else record b { write_index = (b.write_index + n) % 2 ^ 64 }

pub has_read : ℕ → Buffer → Buffer
has_read n b =
    let next = (b.read_index + n) % 2 ^ 64 in
    if ltb b.write_index next
    then record b { read_index = 0; write_index = 0 }
    else if next == b.write_index
    then record b { read_index = 0; write_index = 0 }
    else record b { read_index = next }

pub has_read_all : Buffer → Buffer
has_read_all b = record b { read_index = 0; write_index = 0 }

-- The `memcpy` out of the readable part.
pub fetch : ℕ → Buffer → List ℕ × Buffer
unfolding readable_size
fetch n b =
    let count = if ltb (readable_size b) n then readable_size b else n in
    (take count (drop b.read_index b.store), has_read count b)

-- The readable bytes are moved to the front.
slide : Buffer → Buffer
slide b = record b {
  store = blit b.store 0 (contents b);
  write_index = b.write_index - b.read_index;
  read_index = 0;
}

-- What `append` does once there is room.
pub put : List ℕ → Buffer → Buffer
put bytes b = has_written (length bytes) (record b { store = blit b.store b.write_index bytes })

module _ (fresh : ℕ → List ℕ) where
  -- `Buffer(reverse_size)`
  pub create : ℕ → Buffer
  create n = if ltb 0 n then record null { store = fresh n; size = n } else null

  -- A new store, with the readable bytes at their old place.
  grow : ℕ → Buffer → Buffer
  grow new_size b = record b {
    store = blit (fresh new_size) b.read_index (contents b);
    size = new_size;
  }

  pub ensure_writable_size : ℕ → Buffer → Bool × Buffer
  unfolding writable_size slide grow
  ensure_writable_size n b =
      if n == 0
      then (true, b)
      else if leb n (writable_size b)
      then (true, b)
      else if leb n ((writable_size b + b.read_index) % 2 ^ 64)
      then (true, slide b)
      else (true, grow ((b.write_index + n) * 2 % 2 ^ 64) b)

  pub append : List ℕ → Buffer → ℕ × Buffer
  append bytes b =
      let (done, b') = ensure_writable_size (length bytes) b in
      if done then (length bytes, put bytes b') else (0, b)

  -- `cloneFrom`: only the readable bytes of the other buffer are copied.
  pub clone_from : Buffer → Buffer
  unfolding readable_size
  clone_from other =
      if ltb 0 (readable_size other)
      then record {
        store =
            blit (fresh (readable_size other)) 0
              (take (readable_size other) (drop other.read_index other.store));
        size = readable_size other;
        read_index = 0;
        write_index = readable_size other;
      }
      else null

  pub reset : Buffer → Buffer
  unfolding create
  reset b = create 0

  -- The clone takes the place of the buffer.
  pub shrink : Buffer → Buffer
  unfolding clone_from
  shrink b = clone_from b
