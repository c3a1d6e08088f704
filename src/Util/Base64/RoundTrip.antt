-- ===== src/Util/Base64/RoundTrip.antt =====
-- What is encoded decodes back.
use cpp_tbox.Common.{
  ℕ, zero, suc, ◌+◌, ◌-◌, ◌*◌, ◌/◌, ◌%◌, ◌≤◌, ◌<◌, ◌≡◌, refl, sym, ap, subst, ◌∙◌, Bool, true,
  false, ◌&&◌, not, List, [], ◌∷◌, ◌++◌, append-nil, append_assoc, Option, none, some, ◌==◌, length,
  get_elem?, get_or, arith, dec_lt,
}
use cpp_tbox.Util.Base64.{
  pad, decode_table, letter, Phase, s0, s1, s2, s3, finish, encode_from, encode, finished, take_in,
  decode_from, decode_length, decode,
}

-- A letter of a value is found in the table under this value, and is not the pad.
reads : Option ℕ → ℕ → Bool
reads none i = false
reads (some v) i = (v == i) && not (v == 255)

good : ℕ → Bool
good i = reads (get_elem? decode_table (letter i)) i && not (letter i == pad)

all_good : ℕ → Bool
all_good zero = true
all_good (suc n) = good n && all_good n

good_of_all : (n i : ℕ) → all_good n ≡ true → i < n → good i ≡ true
unfolding all_good
good_of_all zero i h k = absurd (omega arith)
good_of_all (suc n) i h k = elim (dec_lt i n) [
  | yes l ↦ good_of_all n i (ground arith) l
  | no g ↦ let same : n ≡ i = omega arith in subst (λ j. good j ≡ true) same (ground arith)
]

all_letters : all_good 64 ≡ true
unfolding all_good good letter reads
all_letters = refl

good_parts :
    (o : Option ℕ) (p : Bool) (i : ℕ)
    → (reads o i && not p) ≡ true
    → (o ≡ some i) × (p ≡ false) × ((i == 255) ≡ false)
unfolding reads
good_parts none p i h = absurd (cc)
good_parts (some v) p i h = ground arith

letter_lem :
    (i : ℕ)
    → i < 64
    → (get_elem? decode_table (letter i) ≡ some i)
      × ((letter i == pad) ≡ false)
      × ((i == 255) ≡ false)
unfolding good
letter_lem i h =
    good_parts (get_elem? decode_table (letter i)) (letter i == pad) i
      (good_of_all 64 i all_letters h)

-- So the loop takes it in.
decode-letter :
    (s : Phase) (tmp i : ℕ) (cs out : List ℕ)
    → i < 64
    → decode_from s tmp (letter i ∷ cs) out
      ≡ (let (s', tmp', out') = take_in s tmp i out in decode_from s' tmp' cs out')
unfolding decode_from
decode-letter s tmp i cs out h =
    let (found, not_pad, real) = letter_lem i h in rw (not_pad, found, real) refl

-- Bytes are below 256.
unfoldable pub AllBytes : List ℕ → Type 0
AllBytes [] = Unit {0}
AllBytes (b ∷ bs) = (b < 256) × AllBytes bs

decode-nil : (s : Phase) (tmp : ℕ) (out : List ℕ) → decode_from s tmp [] out ≡ finished out
unfolding decode_from
decode-nil s tmp out = refl

decode-pad :
    (s : Phase) (tmp : ℕ) (cs out : List ℕ) → decode_from s tmp (pad ∷ cs) out ≡ finished out
unfolding decode_from
decode-pad s tmp cs out = refl

-- Three bytes are taken from their four letters, whatever follows.
decode-three :
    (a b c tmp : ℕ) (cs out : List ℕ)
    → a < 256
    → b < 256
    → c < 256
    → (tmp' : ℕ) × (decode_from s0 tmp
          (letter (a / 4 % 64)
            ∷ letter (a % 4 * 16 + b / 16 % 16)
            ∷ letter (b % 16 * 4 + c / 64 % 4)
            ∷ letter (c % 64)
            ∷ cs)
          out
        ≡ decode_from s0 tmp' cs (out ++ a ∷ b ∷ c ∷ []))
unfolding take_in
decode-three a b c tmp cs out ha hb hc =
    let first : a / 4 % 64 * 4 % 256 + (a % 4 * 16 + b / 16 % 16) / 16 ≡ a = omega arith in
    let second : (a % 4 * 16 + b / 16 % 16) * 16 % 256 + (b % 16 * 4 + c / 64 % 4) / 4 ≡ b =
      omega arith in
    let third : (b % 16 * 4 + c / 64 % 4) * 64 % 256 + c % 64 ≡ c = omega arith in
    let x = (a % 4 * 16 + b / 16 % 16) in
    let y = (b % 16 * 4 + c / 64 % 4) in
    (
      y * 64 % 256,
      decode-letter s0 tmp (a / 4 % 64) _ out (omega arith)
          ∙ decode-letter s1 (a / 4 % 64 * 4 % 256) x _ out (omega arith)
          ∙ decode-letter s2 (x * 16 % 256) y _ _ (omega arith)
          ∙ decode-letter s3 (y * 64 % 256) (c % 64) cs _ (omega arith)
          ∙ (λ k.
              decode_from s0 (y * 64 % 256) cs
                (((out ++ first k ∷ []) ++ second k ∷ []) ++ third k ∷ []))
          ∙ ap (decode_from s0 (y * 64 % 256) cs) (
              append_assoc (out ++ a ∷ []) (b ∷ []) (c ∷ [])
              ∙ append_assoc out (a ∷ []) (b ∷ c ∷ [])),
    )

-- The loop of `Decode` over the text of some bytes pushes these bytes.
decode_from-encode_from :
    (bytes : List ℕ) (l tmp : ℕ) (out : List ℕ)
    → AllBytes bytes
    → decode_from s0 tmp (encode_from s0 l bytes) out ≡ finished (out ++ bytes)
unfolding encode_from finish take_in AllBytes
decode_from-encode_from [] l tmp out h = decode-nil s0 tmp out ∙ ap finished (sym (append-nil out))
decode_from-encode_from (a ∷ []) l tmp out h =
    let ha = h.0 in
    let first : a / 4 % 64 * 4 % 256 + a % 4 * 16 / 16 ≡ a = omega arith in
    decode-letter s0 tmp (a / 4 % 64) _ out (omega arith)
    ∙ decode-letter s1 (a / 4 % 64 * 4 % 256) (a % 4 * 16) _ out (omega arith)
    ∙ decode-pad s2 (a % 4 * 16 * 16 % 256) (pad ∷ []) _
    ∙ (λ k. finished (out ++ first k ∷ []))
decode_from-encode_from (a ∷ b ∷ []) l tmp out h =
    let ha = h.0 in
    let hb = h.1.0 in
    let x = a % 4 * 16 + b / 16 % 16 in
    let first : a / 4 % 64 * 4 % 256 + (a % 4 * 16 + b / 16 % 16) / 16 ≡ a = omega arith in
    let second : (a % 4 * 16 + b / 16 % 16) * 16 % 256 + b % 16 * 4 / 4 ≡ b = omega arith in
    decode-letter s0 tmp (a / 4 % 64) _ out (omega arith)
    ∙ decode-letter s1 (a / 4 % 64 * 4 % 256) x _ out (omega arith)
    ∙ decode-letter s2 (x * 16 % 256) (b % 16 * 4) _ _ (omega arith)
    ∙ decode-pad s3 (b % 16 * 4 * 64 % 256) [] _
    ∙ (λ k. finished ((out ++ first k ∷ []) ++ second k ∷ []))
    ∙ ap finished (append_assoc out (a ∷ []) (b ∷ []))
decode_from-encode_from (a ∷ b ∷ c ∷ rest) l tmp out h =
    let (tmp', three) = decode-three a b c tmp (encode_from s0 c rest) out h.0 h.1.0 h.1.1.0 in
    three
    ∙ decode_from-encode_from rest c tmp' (out ++ a ∷ b ∷ c ∷ []) h.1.1.1
    ∙ ap finished (append_assoc out (a ∷ b ∷ c ∷ []) rest)

-- Four chars before a text that is not empty.
get_or-four :
    (p q r s : ℕ) (text : List ℕ) (i k : ℕ)
    → i ≡ suc (suc (suc (suc k)))
    → get_or (p ∷ q ∷ r ∷ s ∷ text) i 0 ≡ get_or text k 0
get_or-four p q r s text i k e = ap (λ n. get_or (p ∷ q ∷ r ∷ s ∷ text) n 0) e

decode_length-four :
    (p q r s : ℕ) (text : List ℕ)
    → length text % 4 ≡ 0
    → 4 ≤ length text
    → decode_length (p ∷ q ∷ r ∷ s ∷ text) ≡ 3 + decode_length text
unfolding decode_length
decode_length-four p q r s text h k =
    rw
      (
        get_or-four p q r s text (length (p ∷ q ∷ r ∷ s ∷ text) - 1) (length text - 1)
            (omega arith),
        get_or-four p q r s text (length (p ∷ q ∷ r ∷ s ∷ text) - 2) (length text - 2)
            (omega arith),
      )
      (ground arith)

decode_length-encode_from :
    (b : ℕ) (bytes : List ℕ) (l : ℕ)
    → AllBytes (b ∷ bytes)
    → let text = encode_from s0 l (b ∷ bytes) in
      (decode_length text ≡ length (b ∷ bytes)) × (length text % 4 ≡ 0) × (4 ≤ length text)
unfolding encode_from finish AllBytes decode_length
decode_length-encode_from a [] l h = (refl, refl, omega arith)
decode_length-encode_from a (b ∷ []) l h =
    let (_, real, _) = letter_lem (b % 16 * 4) (omega arith) in (rw real refl, refl, omega arith)
decode_length-encode_from a (b ∷ c ∷ []) l h =
    let (_, third, _) = letter_lem (b % 16 * 4 + c / 64 % 4) (omega arith) in
    let (_, fourth, _) = letter_lem (c % 64) (omega arith) in
    (rw (third, fourth) refl, refl, omega arith)
decode_length-encode_from a (b ∷ c ∷ d ∷ rest) l h =
    let (same, fours, long) = decode_length-encode_from d rest c h.1.1.1 in
    (
      decode_length-four (letter (a / 4 % 64)) (letter (a % 4 * 16 + b / 16 % 16))
            (letter (b % 16 * 4 + c / 64 % 4)) (letter (c % 64)) (encode_from s0 c (d ∷ rest)) fours
            long
          ∙ ap (λ n. 3 + n) same
          ∙ omega arith,
      omega arith,
      omega arith,
    )

-- Some bytes, encoded and decoded to the end of a vector: Decode returns their number and has put
-- them behind what was there, and never reads outside of its table.
pub decode-encode :
    (b : ℕ) (bytes raw_data : List ℕ)
    → AllBytes (b ∷ bytes)
    → decode (encode (b ∷ bytes)) raw_data ≡ some (length (b ∷ bytes), raw_data ++ b ∷ bytes)
unfolding decode encode
decode-encode b bytes raw_data h =
    let (same, _, _) = decode_length-encode_from b bytes 0 h in
    let some_bytes : (decode_length (encode_from s0 0 (b ∷ bytes)) == 0) ≡ false = ground arith in
    rw (some_bytes, decode_from-encode_from (b ∷ bytes) 0 0 raw_data h)
      (ap (λ n. some (n, raw_data ++ b ∷ bytes)) same)
