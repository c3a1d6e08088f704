-- ===== src/Util/ScalableInteger.antt =====
-- modules/util/scalable_integer.cpp: unsigned 64-bit integers in 1 to 10 bytes, seven bits in each,
-- where every length starts where the shorter one ends. `x & 0x7f` is `x % 128`, `x >> 7` is
-- `x / 128`, and `0x80 |` of seven bits adds 128.
mod Tests
pub mod RoundTrip
pub mod Overlong
use cpp_tbox.Common.{
  ℕ, zero, suc, ◌+◌, ◌-◌, ◌*◌, ◌/◌, ◌%◌, ◌^◌, Bool, true, false, List, [], ◌∷◌, ◌++◌, Option, none,
  some, ltb, leb, ◌==◌, if◌then◌else◌, length, get_elem?, get_or,
}

abbrev byte1_max : ℕ
byte1_max = 0x7F

abbrev byte2_max : ℕ
byte2_max = byte1_max + 1 + 0x3FFF

abbrev byte3_max : ℕ
byte3_max = byte2_max + 1 + 0x1FFFFF

abbrev byte4_max : ℕ
byte4_max = byte3_max + 1 + 0xFFFFFFF

abbrev byte5_max : ℕ
byte5_max = byte4_max + 1 + 0x7FFFFFFFF

abbrev byte6_max : ℕ
byte6_max = byte5_max + 1 + 0x3FFFFFFFFFF

abbrev byte7_max : ℕ
byte7_max = byte6_max + 1 + 0x1FFFFFFFFFFFF

abbrev byte8_max : ℕ
byte8_max = byte7_max + 1 + 0xFFFFFFFFFFFFFF

abbrev byte9_max : ℕ
byte9_max = byte8_max + 1 + 0x7FFFFFFFFFFFFFFF

-- `_min_value_tbl`, of 11 entries.
abbrev pub min_values : List ℕ
min_values =
    0
    ∷ 0
    ∷ (byte1_max + 1)
    ∷ (byte2_max + 1)
    ∷ (byte3_max + 1)
    ∷ (byte4_max + 1)
    ∷ (byte5_max + 1)
    ∷ (byte6_max + 1)
    ∷ (byte7_max + 1)
    ∷ (byte8_max + 1)
    ∷ (byte9_max + 1)
    ∷ []

-- `_max_value_tbl`, of 10 entries.
abbrev pub max_values : List ℕ
max_values =
    0 ∷ byte1_max ∷ byte2_max ∷ byte3_max ∷ byte4_max ∷ byte5_max ∷ byte6_max ∷ byte7_max
    ∷ byte8_max ∷ byte9_max ∷ []

-- The loop that counts the bytes needed, with `rounds` values of the counter left before 10; it
-- reads `max_values` at 1 to 9 only.
need_from : ℕ → ℕ → ℕ → ℕ
need_from zero n value = n
need_from (suc rounds) n value =
    let longer = need_from rounds (suc n) value in
    if leb value (get_or max_values n 0) then n else longer

pub need_bytes : ℕ → ℕ
unfolding need_from
need_bytes value = need_from 9 1 value

-- The second loop of `DumpScalableInteger`, from the last byte to the first.
pub dump_high : ℕ → ℕ → List ℕ → List ℕ
dump_high zero value bytes = bytes
dump_high (suc k) value bytes = dump_high k (value / 128) ((128 + value % 128) ∷ bytes)

-- The bytes written for a value that takes `n` bytes; `need_bytes` is never 0 or above 10.
pub dump_bytes : ℕ → ℕ → List ℕ
unfolding dump_high
dump_bytes n value =
    let store = if ltb 1 n then value - get_or min_values n 0 else value in
    dump_high (n - 1) (store / 128) (store % 128 ∷ [])

-- What is returned, and the bytes written.
pub dump : ℕ → ℕ → ℕ × List ℕ
dump value buff_size =
    if ltb buff_size (need_bytes value)
    then (0, [])
    else (need_bytes value, dump_bytes (need_bytes value) value)

-- `incomplete` returns 0; `beyond_table` reads past the end of `_min_value_tbl`.
pub data Parsed : Type 0 where
  incomplete : Parsed
  complete : ℕ → ℕ → Parsed
  beyond_table : Parsed

pub finish : ℕ → ℕ → Parsed
finish read_bytes read_value = elim (get_elem? min_values read_bytes) [
  | none ↦ beyond_table
  | some base ↦ complete read_bytes ((base + read_value) % 2 ^ 64)
]

-- The loop with `rounds` values of `i` left.
pub parse_from : ℕ → List ℕ → ℕ → ℕ → Parsed
unfolding finish
parse_from zero bytes read_bytes read_value = incomplete
parse_from (suc rounds) [] read_bytes read_value = incomplete
parse_from (suc rounds) (byte ∷ bytes) read_bytes read_value =
    let value = read_value * 128 % 2 ^ 64 + byte % 128 in
    let more = parse_from rounds bytes (suc read_bytes) value in
    if byte / 128 % 2 == 0 then finish read_bytes value else more

-- `i` runs from 0 to 10.
pub parse : List ℕ → Parsed
parse bytes = parse_from 11 bytes 1 0
