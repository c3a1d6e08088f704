-- ===== src/Util/Base64.antt =====
-- modules/util/base64.cpp and base64.h: bytes to text of base 64, and back.
-- A char is its code; a char of 128 or more, negative where char is signed, is outside of the table
-- `base64de`. The asserts that data is not empty are left out.
mod Tests
pub mod RoundTrip
use cpp_tbox.Common.{
  ℕ, zero, suc, ◌+◌, ◌-◌, ◌*◌, ◌/◌, ◌%◌, Bool, true, false, ◌||◌, not, List, [], ◌∷◌, ◌++◌, Option,
  none, some, ltb, ◌==◌, if◌then◌else◌, length, get_elem?, get_or,
}

abbrev pub pad : ℕ
pad = 61

abbrev pub encode_table : List ℕ
encode_table =
    65 ∷ 66 ∷ 67 ∷ 68 ∷ 69 ∷ 70 ∷ 71 ∷ 72 ∷ 73 ∷ 74 ∷ 75 ∷ 76 ∷ 77 ∷ 78 ∷ 79 ∷ 80 ∷ 81 ∷ 82 ∷ 83
    ∷ 84 ∷ 85 ∷ 86 ∷ 87 ∷ 88 ∷ 89 ∷ 90 ∷ 97 ∷ 98 ∷ 99 ∷ 100 ∷ 101 ∷ 102 ∷ 103 ∷ 104 ∷ 105 ∷ 106
    ∷ 107 ∷ 108 ∷ 109 ∷ 110 ∷ 111 ∷ 112 ∷ 113 ∷ 114 ∷ 115 ∷ 116 ∷ 117 ∷ 118 ∷ 119 ∷ 120 ∷ 121 ∷ 122
    ∷ 48 ∷ 49 ∷ 50 ∷ 51 ∷ 52 ∷ 53 ∷ 54 ∷ 55 ∷ 56 ∷ 57 ∷ 43 ∷ 47 ∷ []

abbrev pub decode_table : List ℕ
decode_table =
    255 ∷ 255 ∷ 255 ∷ 255 ∷ 255 ∷ 255 ∷ 255 ∷ 255 ∷ 255 ∷ 255 ∷ 255 ∷ 255 ∷ 255 ∷ 255 ∷ 255 ∷ 255
    ∷ 255 ∷ 255 ∷ 255 ∷ 255 ∷ 255 ∷ 255 ∷ 255 ∷ 255 ∷ 255 ∷ 255 ∷ 255 ∷ 255 ∷ 255 ∷ 255 ∷ 255 ∷ 255
    ∷ 255 ∷ 255 ∷ 255 ∷ 255 ∷ 255 ∷ 255 ∷ 255 ∷ 255 ∷ 255 ∷ 255 ∷ 255 ∷ 62 ∷ 255 ∷ 255 ∷ 255 ∷ 63
    ∷ 52 ∷ 53 ∷ 54 ∷ 55 ∷ 56 ∷ 57 ∷ 58 ∷ 59 ∷ 60 ∷ 61 ∷ 255 ∷ 255 ∷ 255 ∷ 255 ∷ 255 ∷ 255 ∷ 255 ∷ 0
    ∷ 1 ∷ 2 ∷ 3 ∷ 4 ∷ 5 ∷ 6 ∷ 7 ∷ 8 ∷ 9 ∷ 10 ∷ 11 ∷ 12 ∷ 13 ∷ 14 ∷ 15 ∷ 16 ∷ 17 ∷ 18 ∷ 19 ∷ 20 ∷ 21
    ∷ 22 ∷ 23 ∷ 24 ∷ 25 ∷ 255 ∷ 255 ∷ 255 ∷ 255 ∷ 255 ∷ 255 ∷ 26 ∷ 27 ∷ 28 ∷ 29 ∷ 30 ∷ 31 ∷ 32 ∷ 33
    ∷ 34 ∷ 35 ∷ 36 ∷ 37 ∷ 38 ∷ 39 ∷ 40 ∷ 41 ∷ 42 ∷ 43 ∷ 44 ∷ 45 ∷ 46 ∷ 47 ∷ 48 ∷ 49 ∷ 50 ∷ 51 ∷ 255
    ∷ 255 ∷ 255 ∷ 255 ∷ 255 ∷ []

pub letter : ℕ → ℕ
letter i = get_or encode_table i 0

-- The `s` of the loops.
pub data Phase : Type 0 where
  s0 : Phase
  s1 : Phase
  s2 : Phase
  s3 : Phase

-- What follows the loop of `Encode`, with the last byte.
pub finish : Phase → ℕ → List ℕ
finish s1 l = letter (l % 4 * 16) ∷ pad ∷ pad ∷ []
finish s2 l = letter (l % 16 * 4) ∷ pad ∷ []
finish _ l = []

-- The loop, with the last byte; its `s` is never 3.
pub encode_from : Phase → ℕ → List ℕ → List ℕ
encode_from s l [] = finish s l
encode_from s0 l (c ∷ cs) = letter (c / 4 % 64) ∷ encode_from s1 c cs
encode_from s1 l (c ∷ cs) = letter (l % 4 * 16 + c / 16 % 16) ∷ encode_from s2 c cs
encode_from s2 l (c ∷ cs) = letter (l % 16 * 4 + c / 64 % 4) ∷ letter (c % 64) ∷ encode_from s0 c cs
encode_from s3 l (c ∷ cs) = encode_from s3 c cs

pub encode : List ℕ → List ℕ
encode bytes = encode_from s0 0 bytes

pub encode_length : ℕ → ℕ
encode_length n = (n + 2) / 3 * 4

-- `Encode` into a buffer: the number of chars, and these.
pub encode_into : List ℕ → ℕ → ℕ × List ℕ
encode_into bytes size =
    if ltb size (encode_length (length bytes))
    then (0, [])
    else (length (encode bytes), encode bytes)

-- A loop over the chars that ends, meets a char that is not a letter, or reads outside of the table.
pub data Outcome : Type 0 where
  finished : List ℕ → Outcome
  invalid : List ℕ → Outcome
  outside : Outcome

-- One letter's value: what is pushed to the bytes, and the new `s` and `tmp`. The `|` is of disjoint bits.
pub take_in : Phase → ℕ → ℕ → List ℕ → Phase × ℕ × List ℕ
take_in s0 tmp v out = (s1, v * 4 % 256, out)
take_in s1 tmp v out = (s2, v * 16 % 256, out ++ (tmp + v / 16) ∷ [])
take_in s2 tmp v out = (s3, v * 64 % 256, out ++ (tmp + v / 4) ∷ [])
take_in s3 tmp v out = (s0, tmp, out ++ (tmp + v) ∷ [])

pub decode_from : Phase → ℕ → List ℕ → List ℕ → Outcome
decode_from s tmp [] out = finished out
decode_from s tmp (c ∷ cs) out =
    if c == pad then finished out else elim (get_elem? decode_table c) [
      | none ↦ outside
      | some v ↦
          let (s', tmp', out') = take_in s tmp v out in
          if v == 255 then invalid out else decode_from s' tmp' cs out'
    ]

pub decode_length : List ℕ → ℕ
decode_length text =
    let n = length text in
    if n == 0 || not (n % 4 == 0)
    then 0
    else let len = n / 4 * 3 in
      let len₁ = if get_or text (n - 1) 0 == pad then len - 1 else len in
      if get_or text (n - 2) 0 == pad then len₁ - 1 else len₁

-- `Decode` to a vector: the number returned, and the vector; none reads outside of the table.
pub decode : List ℕ → List ℕ → Option (ℕ × List ℕ)
decode text raw_data =
    if decode_length text == 0 then some (0, raw_data) else elim (decode_from s0 0 text raw_data) [
      | finished out ↦ some (decode_length text, out)
      | invalid out ↦ some (0, out)
      | outside ↦ none
    ]
