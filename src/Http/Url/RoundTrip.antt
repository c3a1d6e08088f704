-- ===== src/Http/Url/RoundTrip.antt =====
-- modules/http/url.cpp: UrlDecode of what UrlEncode writes.
use cpp_tbox.Common.{
  ℕ, zero, suc, ◌+◌, ◌*◌, ◌/◌, ◌%◌, ◌<◌, ◌≡◌, refl, sym, ap, ◌∙◌, inl, inr, Bool, true, false, ◌&&◌,
  ◌||◌, not, none, some, List, [], ◌∷◌, ◌++◌, ◌==◌, if◌then◌else◌, get_or, arith, Bool-cases, subst,
}
use cpp_tbox.Common.Maybe.{◌>>=◌}
use cpp_tbox.Http.Url.{
  path_special_chars, full_special_chars, char_to_hex, hex_char_to_value, contains, is_print,
  encode_char, url_encode, outside, decode_from, url_decode,
}

-- A property of all numbers below `n`, by evaluation.
unfoldable pub all_below : ℕ → (ℕ → Bool) → Bool
all_below zero p = true
all_below (suc n) p = p n && all_below n p

pub all_below-holds : (n : ℕ) (p : ℕ → Bool) (x : ℕ) → all_below n p ≡ true → x < n → p x ≡ true
unfolding all_below
all_below-holds zero p x h lt = absurd (omega arith)
all_below-holds (suc n) p x h lt = ground (arith, all_below-holds n p x)

-- The digit of a number below 16 is read as the number.
reads_digit : ℕ → Bool
reads_digit v = elim (hex_char_to_value (get_or char_to_hex v 0)) [ none ↦ false | some w ↦ w == v ]

digits : all_below 16 reads_digit ≡ true
unfolding all_below reads_digit hex_char_to_value
digits = refl

digit : (v : ℕ) → v < 16 → hex_char_to_value (get_or char_to_hex v 0) ≡ some v
digit v h = ground (arith, read v (all_below-holds 16 reads_digit v digits h))
  where
    read : (v : ℕ) → reads_digit v ≡ true → hex_char_to_value (get_or char_to_hex v 0) ≡ some v
    read v e = unfold reads_digit in (ground arith)

abbrev pub AllBytes : List ℕ → Type 0
AllBytes [] = Unit {0}
AllBytes (c ∷ l) = (c < 256) × AllBytes l

decode_escaped :
    (c tmp : ℕ) (rest : List ℕ)
    → c < 256
    → decode_from outside tmp
        (37 ∷ (get_or char_to_hex (c / 16) 0 ∷ (get_or char_to_hex (c % 16) 0 ∷ rest)))
      ≡ (decode_from outside c rest >>= λ l. some (c ∷ l))
unfolding decode_from
decode_escaped c tmp rest h =
    let high : hex_char_to_value (get_or char_to_hex (c / 16) 0) ≡ some (c / 16) =
      digit (c / 16) (omega arith) in
    let low : hex_char_to_value (get_or char_to_hex (c % 16) 0) ≡ some (c % 16) =
      digit (c % 16) (omega arith) in
    let whole : c / 16 * 16 % 256 + c % 16 ≡ c = omega arith in rw (high, low, whole) refl

-- A character that stands for itself.
pub decode_plain :
    (c tmp : ℕ) (rest : List ℕ)
    → (c == 37) ≡ false
    → decode_from outside tmp (c ∷ rest) ≡ (decode_from outside tmp rest >>= λ l. some (c ∷ l))
unfolding decode_from
decode_plain c tmp rest h = rw (h) refl

special-percent :
    (m : Bool) → contains (if m then path_special_chars else full_special_chars) 37 ≡ true
unfolding contains
special-percent true = refl
special-percent false = refl

plain-percent :
    (m : Bool) (c : ℕ)
    → (contains (if m then path_special_chars else full_special_chars) c || not (is_print c))
      ≡ false
    → (c == 37) ≡ false
plain-percent m c e = elim (Bool-cases (c == 37)) [
  | inl same ↦
      let is : c ≡ 37 = ground arith in
      let special : contains (if m then path_special_chars else full_special_chars) c ≡ true =
        subst (λ d. contains (if m then path_special_chars else full_special_chars) d ≡ true)
          (sym is) (special-percent m) in
      absurd (ground arith)
  | inr other ↦ other
]

-- One character, and what follows.
decode-encode_char :
    (m : Bool) (c tmp : ℕ) (rest : List ℕ)
    → c < 256
    → (t : ℕ) × (decode_from outside tmp (encode_char m c ++ rest)
        ≡ (decode_from outside t rest >>= λ l. some (c ∷ l)))
unfolding encode_char decode_from
decode-encode_char m c tmp rest h =
    elim (Bool-cases
      (contains (if m then path_special_chars else full_special_chars) c || not (is_print c))) [
        | inl e ↦ (c, (rw (e) (decode_escaped c tmp rest h)))
        | inr e ↦ (tmp, (rw (e) (decode_plain c tmp rest (plain-percent m c e))))
      ]

decodes :
    (m : Bool) (s : List ℕ) (tmp : ℕ)
    → AllBytes s
    → decode_from outside tmp (url_encode m s) ≡ some s
unfolding url_encode decode_from
decodes m [] tmp h = refl
decodes m (c ∷ s) tmp (b, h) =
    let (t, e) = decode-encode_char m c tmp (url_encode m s) b in
    e ∙ ap (λ o. o >>= λ l. some (c ∷ l)) (decodes m s t h)

-- UrlDecode of what UrlEncode writes for a text of bytes is the text, in either mode.
pub url_decode-url_encode :
    (path_mode : Bool) (s : List ℕ) → AllBytes s → url_decode (url_encode path_mode s) ≡ some s
unfolding url_encode url_decode
url_decode-url_encode path_mode s h = decodes path_mode s 0 h
