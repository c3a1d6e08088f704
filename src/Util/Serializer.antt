-- ===== src/Util/Serializer.antt =====
-- modules/util/serializer.cpp and serializer.h: values written to a byte block in a chosen byte
-- order, and read back. A block is a list of bytes, a position an index in it, and `size_t` has 64 bits.
-- Values are numbers below the width of their C++ type; a POD is its bytes in memory.
-- `resize` fills with zeros. The operators for signed and floating types cast to these and are left out.
mod Tests
pub mod Bytes
pub mod RoundTrip
pub mod Stream
pub mod Position
pub mod Vector
use cpp_tbox.Common.{
  ℕ, zero, suc, ◌+◌, ◌-◌, ◌*◌, ◌/◌, ◌%◌, ◌^◌, Bool, true, false, List, [], ◌∷◌, ◌++◌, Option, none,
  some, ltb, leb, if◌then◌else◌, length, take, drop, replicate, blit, get_or,
}

pub data Endian : Type 0 where
  big : Endian
  little : Endian

pub data Target : Type 0 where
  raw : ℕ → Target
  vector : Target

pub record Serializer : Type 0 where
  pub target : Target
  pub store : List ℕ
  pub endian : Endian
  pub pos : ℕ

abbrev pub on_raw : List ℕ → ℕ → Endian → Serializer
on_raw start size e = record { target = raw size; store = start; endian = e; pos = 0 }

abbrev pub on_vector : List ℕ → Endian → Serializer
on_vector block e = record { target = vector; store = block; endian = e; pos = 0 }

pub resize : ℕ → List ℕ → List ℕ
resize n block = take n block ++ replicate (n - length block) 0

pub extend_size : ℕ → Serializer → Bool × Serializer
extend_size need s =
    let whole = (s.pos + need) % 2 ^ 64 in
    elim s.target [
      | raw size ↦ (leb whole size, s)
      | vector ↦ (true, record s { store = resize whole s.store })
    ]

-- `n` times: the low byte, then `in >>= 8`.
pub low_bytes : ℕ → ℕ → List ℕ
low_bytes zero v = []
low_bytes (suc n) v = v % 2 ^ 8 ∷ low_bytes n (v / 2 ^ 8)

-- A loop that writes, or reads, from the last address to the first.
pub backward : List ℕ → List ℕ
backward [] = []
backward (x ∷ xs) = backward xs ++ x ∷ []

-- What the overloads of `append` and `<<` take.
pub data Item : Type 0 where
  u8 : ℕ → Item
  u16 : ℕ → Item
  u32 : ℕ → Item
  u64 : ℕ → Item
  bytes : List ℕ → Item
  pod : List ℕ → Item

pub in_order : Endian → List ℕ → List ℕ
in_order big l = backward l
in_order little l = l

-- The bytes each overload writes at `start_ + pos_`, lowest address first.
unfoldable pub layout : Endian → Item → List ℕ
layout e (u8 v) = v ∷ []
layout e (u16 v) = in_order e (low_bytes 2 v)
layout e (u32 v) = in_order e (low_bytes 4 v)
layout e (u64 v) = in_order e (low_bytes 8 v)
layout e (bytes l) = l
layout e (pod l) = in_order e l

unfoldable pub size_of : Item → ℕ
size_of (u8 v) = 1
size_of (u16 v) = 2
size_of (u32 v) = 4
size_of (u64 v) = 8
size_of (bytes l) = length l
size_of (pod l) = length l

place : Item → Serializer → Serializer
place v s = record s {
  store = blit s.store s.pos (layout s.endian v);
  pos = (s.pos + size_of v) % 2 ^ 64;
}

pub append : Item → Serializer → Bool × Serializer
append v s =
    let (fits, s₁) = extend_size (size_of v) s in if fits then (true, place v s₁) else (false, s₁)

pub set_endian : Endian → Serializer → Endian × Serializer
set_endian e s = (s.endian, record s { endian = e })

pub record Deserializer : Type 0 where
  pub start : List ℕ
  pub size : ℕ
  pub endian : Endian
  pub pos : ℕ

abbrev pub reader : List ℕ → Endian → Deserializer
reader block e = record { start = block; size = length block; endian = e; pos = 0 }

unfoldable pub check_size : ℕ → Deserializer → Bool
check_size need d = leb ((d.pos + need) % 2 ^ 64) d.size

pub set_pos : ℕ → Deserializer → Bool × Deserializer
set_pos n d = if ltb n d.size then (true, record d { pos = n }) else (false, d)

-- What is to be read: the overload, and the size for those that take one.
pub data Shape : Type 0 where
  a8 : Shape
  a16 : Shape
  a32 : Shape
  a64 : Shape
  some_bytes : ℕ → Shape
  a_pod : ℕ → Shape

pub width : Shape → ℕ
width a8 = 1
width a16 = 2
width a32 = 4
width a64 = 8
width (some_bytes n) = n
width (a_pod n) = n

-- `out <<= 8; out |= byte` for each byte, in a `w`-bit `out`; the byte falls on bits that are 0.
pub join : ℕ → ℕ → List ℕ → ℕ
join w out [] = out
join w out (b ∷ bs) = join w (out * 2 ^ 8 % 2 ^ w + b) bs

-- The bytes go into `out` from the most significant.
pub descending : Endian → List ℕ → List ℕ
descending big l = l
descending little l = backward l

pub decode : Endian → Shape → List ℕ → Item
decode e a8 l = u8 (get_or l 0 0)
decode e a16 l = u16 (join 16 0 (descending e l))
decode e a32 l = u32 (join 32 0 (descending e l))
decode e a64 l = u64 (join 64 0 (descending e l))
decode e (some_bytes n) l = bytes l
decode e (a_pod n) l = pod (in_order e l)

-- `none` is a return of false, with the out-parameter not written.
unfoldable pub fetch : Shape → Deserializer → Option Item × Deserializer
unfolding check_size
fetch k d =
    if check_size (width k) d
    then (
      some (decode d.endian k (take (width k) (drop d.pos d.start))),
      record d { pos = (d.pos + width k) % 2 ^ 64 },
    )
    else (none, d)

-- A pointer into the block is its index.
unfoldable pub fetch_no_copy : ℕ → Deserializer → Option ℕ × Deserializer
unfolding check_size
fetch_no_copy n d =
    if check_size n d then (some d.pos, record d { pos = (d.pos + n) % 2 ^ 64 }) else (none, d)

pub skip : ℕ → Deserializer → Bool × Deserializer
unfolding check_size
skip n d = if check_size n d then (true, record d { pos = (d.pos + n) % 2 ^ 64 }) else (false, d)

pub turn : Endian → Deserializer → Endian × Deserializer
turn e d = (d.endian, record d { endian = e })
