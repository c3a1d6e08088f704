-- ===== src/Util/Base64/Tests.antt =====
-- The theorem at four bytes, behind one that was there.
use cpp_tbox.Common.{◌≡◌, [], ◌∷◌, arith, some}
use cpp_tbox.Util.Base64.{encode, decode}
use cpp_tbox.Util.Base64.RoundTrip.{AllBytes, decode-encode}

all_bytes : AllBytes (65 ∷ 66 ∷ 255 ∷ 0 ∷ [])
unfolding AllBytes
all_bytes = ground arith

decode-encode_example :
    decode (encode (65 ∷ 66 ∷ 255 ∷ 0 ∷ [])) (7 ∷ []) ≡ some (4, 7 ∷ 65 ∷ 66 ∷ 255 ∷ 0 ∷ [])
decode-encode_example = decode-encode 65 (66 ∷ 255 ∷ 0 ∷ []) (7 ∷ []) all_bytes
