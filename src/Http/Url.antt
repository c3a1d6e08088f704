-- ===== src/Http/Url.antt =====
-- modules/http/url.cpp: characters of a text that a URL cannot hold are written as %XX. A character is a byte;
-- isprint is that of the C locale.
pub mod RoundTrip
pub mod Path
mod Tests
use cpp_tbox.Common.{
  ℕ, zero, suc, ◌+◌, ◌-◌, ◌*◌, ◌/◌, ◌%◌, ◌^◌, Bool, true, false, ◌&&◌, ◌||◌, not, Option, none,
  some, List, [], ◌∷◌, ◌++◌, leb, ◌==◌, if◌then◌else◌, get_or,
}
use cpp_tbox.Common.Maybe.{◌>>=◌}

-- ` +&=<>"#,%{}|\^[]`;?:@$`
abbrev pub path_special_chars : List ℕ
path_special_chars =
    32 ∷ 43 ∷ 38 ∷ 61 ∷ 60 ∷ 62 ∷ 34 ∷ 35 ∷ 44 ∷ 37 ∷ 123 ∷ 125 ∷ 124 ∷ 92 ∷ 94 ∷ 91 ∷ 93 ∷ 96 ∷ 59
    ∷ 63 ∷ 58 ∷ 64 ∷ 36 ∷ []

-- These, and `/.`
abbrev pub full_special_chars : List ℕ
full_special_chars = path_special_chars ++ 47 ∷ 46 ∷ []

-- `0123456789ABCDEF`
abbrev pub char_to_hex : List ℕ
char_to_hex = 48 ∷ 49 ∷ 50 ∷ 51 ∷ 52 ∷ 53 ∷ 54 ∷ 55 ∷ 56 ∷ 57 ∷ 65 ∷ 66 ∷ 67 ∷ 68 ∷ 69 ∷ 70 ∷ []

-- `none` is the exception out_of_range.
pub hex_char_to_value : ℕ → Option ℕ
hex_char_to_value c =
    if leb 48 c && leb c 57
    then some (c - 48)
    else if leb 65 c && leb c 70
    then some (c - 65 + 10)
    else if leb 97 c && leb c 102
    then some (c - 97 + 10)
    else none

unfoldable pub contains : List ℕ → ℕ → Bool
contains [] c = false
contains (d ∷ l) c = d == c || contains l c

unfoldable pub is_print : ℕ → Bool
is_print c = leb 32 c && leb c 126

-- What UrlEncode writes for a character.
pub encode_char : Bool → ℕ → List ℕ
unfolding contains is_print
encode_char path_mode c =
    if contains (if path_mode then path_special_chars else full_special_chars) c || not (is_print c)
    then 37 ∷ (get_or char_to_hex (c / 16) 0 ∷ (get_or char_to_hex (c % 16) 0 ∷ []))
    else c ∷ []

pub url_encode : Bool → List ℕ → List ℕ
unfolding encode_char
url_encode path_mode [] = []
url_encode path_mode (c ∷ local_str) = encode_char path_mode c ++ url_encode path_mode local_str

pub data State : Type 0 where
  outside start half_hex : State

-- `tmp` is a char, of which the first half is written before the second one.
pub decode_from : State → ℕ → List ℕ → Option (List ℕ)
unfolding hex_char_to_value
decode_from state tmp [] = some []
decode_from outside tmp (c ∷ url_str) =
    if c == 37
    then decode_from start 0 url_str
    else (decode_from outside tmp url_str >>= λ local_str. some (c ∷ local_str))
decode_from start tmp (c ∷ url_str) =
    hex_char_to_value c >>= λ v. decode_from half_hex (v * 16 % 256) url_str
decode_from half_hex tmp (c ∷ url_str) = hex_char_to_value c >>= λ v.
    (decode_from outside (tmp + v) url_str >>= λ local_str. some ((tmp + v) ∷ local_str))

pub url_decode : List ℕ → Option (List ℕ)
unfolding decode_from
url_decode url_str = decode_from outside 0 url_str
