-- ===== src/Http/Url/Path/Free.antt =====
-- What is encoded holds none of the characters between the parts of a URL.
use cpp_tbox.Common.{
  ℕ, ◌/◌, ◌%◌, ◌<◌, ◌≡◌, subst, inl, inr, Bool, true, false, ◌||◌, not, List, [], ◌∷◌, ◌++◌, ◌==◌,
  if◌then◌else◌, get_or, arith, Bool-cases, ==_iff,
}
use cpp_tbox.Http.Url.{
  path_special_chars, full_special_chars, char_to_hex, contains, is_print, encode_char, url_encode,
}
use cpp_tbox.Http.Url.RoundTrip.{AllBytes, all_below, all_below-holds}
use cpp_tbox.Util.Strings.Separated.{Free}

abbrev pub chars : Bool → List ℕ
chars m = if m then path_special_chars else full_special_chars

-- A character that is encoded, and with which nothing that is encoded begins.
abbrev pub IsSpecial : Bool → ℕ → Type 0
IsSpecial m c =
    (contains (chars m) c ≡ true)
    × ((c == 37) ≡ false)
    × (all_below 16 (λ v. not (c == get_or char_to_hex v 0)) ≡ true)

pub Free-append : (c : ℕ) (s t : List ℕ) → Free c s → Free c t → Free c (s ++ t)
Free-append c [] t h k = k
Free-append c (d ∷ s) t (e, h) k = (e, Free-append c s t h k)

other :
    (m : Bool) (c d : ℕ)
    → contains (chars m) c ≡ true
    → contains (chars m) d ≡ false
    → (c == d) ≡ false
other m c d h k = elim (Bool-cases (c == d)) [
  | inr e ↦ e
  | inl e ↦
      let special : contains (chars m) d ≡ true =
        subst (λ x. contains (chars m) x ≡ true) ((==_iff c d).0 e) h in
      absurd (ground arith)
]

not_digit : (m : Bool) (c v : ℕ) → IsSpecial m c → v < 16 → (c == get_or char_to_hex v 0) ≡ false
not_digit m c v (h, e, d) lt =
    let t : not (c == get_or char_to_hex v 0) ≡ true =
      all_below-holds 16 (λ v. not (c == get_or char_to_hex v 0)) v d lt in
    ground arith

encode_char-Free : (m : Bool) (c d : ℕ) → IsSpecial m c → d < 256 → Free c (encode_char m d)
unfolding encode_char
encode_char-Free m c d s lt = elim (Bool-cases (contains (chars m) d || not (is_print d))) [
  | inl e ↦
      (rw (e) (
        s.1,
        (not_digit m c (d / 16) s (omega arith), (not_digit m c (d % 16) s (omega arith), _)),
      ))
  | inr e ↦ (rw (e) (other m c d s.0 (ground arith), _))
]

pub url_encode-Free :
    (m : Bool) (c : ℕ) (s : List ℕ) → IsSpecial m c → AllBytes s → Free c (url_encode m s)
unfolding url_encode
url_encode-Free m c [] h b = _
url_encode-Free m c (d ∷ s) h (lt, b) =
    Free-append c (encode_char m d) (url_encode m s) (encode_char-Free m c d h lt)
      (url_encode-Free m c s h b)
