-- ===== src/Http/Url/Tests.antt =====
-- A blank that is encoded, and a text that is refused.
use cpp_tbox.Common.{◌≡◌, [], ◌∷◌, none, refl, false}
use cpp_tbox.Http.Url.{
  hex_char_to_value, contains, is_print, encode_char, url_encode, decode_from, url_decode,
}

blank_written : url_encode false (65 ∷ 32 ∷ []) ≡ 65 ∷ 37 ∷ 50 ∷ 48 ∷ []
unfolding url_encode encode_char contains is_print
blank_written = refl

not_hex : url_decode (37 ∷ 71 ∷ 48 ∷ []) ≡ none
unfolding url_decode decode_from hex_char_to_value
not_hex = refl
