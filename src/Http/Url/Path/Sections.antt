-- ===== src/Http/Url/Path/Sections.antt =====
-- The parts of a URL's path in their places: the parameters, the query and the fragment, written and read.
use cpp_tbox.Common.{
  ℕ, suc, ◌≡◌, inl, inr, refl, ap, subst, ◌∙◌, false, Option, none, some, List, [], ◌∷◌, ◌++◌,
  append-nil, length, map, ◌==◌, arith,
}
use cpp_tbox.Common.Maybe.{◌>>=◌}
use cpp_tbox.Http.Url.{url_decode, decode_from, outside, url_encode}
use cpp_tbox.Http.Url.RoundTrip.{decode_plain}
use cpp_tbox.Http.Url.Path.{
  StringMap, item_to_string, items_to_string, query_to_string, frag_to_string, find_first_of,
  or_else, substr, split_at, read_section, read_frag,
}
use cpp_tbox.Http.Url.Path.Free.{IsSpecial, Free-append, url_encode-Free}
use cpp_tbox.Http.Url.Path.Items.{IsItem, IsMap, split_at-join, read_items-map}
use cpp_tbox.Http.Url.Path.Places.{Ends, find_first_of-Free, find_first_of-at, substr-after}
use cpp_tbox.Util.Strings.{join, join_rest}
use cpp_tbox.Util.Strings.Separated.{Free, AllFree}

-- The items behind a character, with separators between them.
abbrev pub section : ℕ → ℕ → StringMap → List ℕ
section c sep [] = []
section c sep (item ∷ m) = c ∷ join (sep ∷ []) (map item_to_string (item ∷ m))

items_to_string-join :
    (sep : ℕ) (m : StringMap) → items_to_string sep m ≡ join_rest (sep ∷ []) (map item_to_string m)
unfolding items_to_string join_rest
items_to_string-join sep [] = refl
items_to_string-join sep (item ∷ m) =
    ap (λ t. sep ∷ (item_to_string item ++ t)) (items_to_string-join sep m)

pub params_section : (m : StringMap) → items_to_string 59 m ≡ section 59 59 m
unfolding items_to_string join
params_section [] = refl
params_section (item ∷ m) = ap (λ t. 59 ∷ (item_to_string item ++ t)) (items_to_string-join 59 m)

pub query_section : (m : StringMap) → query_to_string m ≡ section 63 38 m
unfolding query_to_string join
query_section [] = refl
query_section (item ∷ m) = ap (λ t. 63 ∷ (item_to_string item ++ t)) (items_to_string-join 38 m)

-- A character that no item holds.
abbrev pub IsApart : ℕ → Type 0
IsApart c = IsSpecial false c × ((c == 61) ≡ false)

item-Free :
    (c : ℕ) (item : List ℕ × List ℕ) → IsApart c → IsItem item → Free c (item_to_string item)
unfolding item_to_string
item-Free c ([], v) a h = absurd h
item-Free c (d ∷ k, v) (s, e) (bk, bv) =
    Free-append c (url_encode false (d ∷ k)) (61 ∷ url_encode false v)
      (url_encode-Free false c (d ∷ k) s bk) (e, url_encode-Free false c v s bv)

items-Free : (c : ℕ) (m : StringMap) → IsApart c → IsMap m → AllFree c (map item_to_string m)
items-Free c [] a h = _
items-Free c ((k, v) ∷ m) a (i, f, h) = (item-Free c (k, v) a i, items-Free c m a h)

join_rest-Free :
    (c sep : ℕ) (ss : List (List ℕ))
    → (c == sep) ≡ false
    → AllFree c ss
    → Free c (join_rest (sep ∷ []) ss)
unfolding join_rest
join_rest-Free c sep [] e h = _
join_rest-Free c sep (s ∷ ss) e (h, hs) =
    (e, Free-append c s (join_rest (sep ∷ []) ss) h (join_rest-Free c sep ss e hs))

pub section-Free :
    (d c sep : ℕ) (m : StringMap)
    → IsApart d
    → (d == c) ≡ false
    → (d == sep) ≡ false
    → IsMap m
    → Free d (section c sep m)
unfolding join
section-Free d c sep [] a e e' h = _
section-Free d c sep ((k, v) ∷ m) a e e' (i, f, h) = (
  e,
  Free-append d (item_to_string (k, v)) (join_rest (sep ∷ []) (map item_to_string m))
      (item-Free d (k, v) a i)
      (join_rest-Free d sep (map item_to_string m) e' (items-Free d m a h)),
)

-- The first of two positions, when the first one's part may be missing.
pub or_else-Ends :
    (c sep : ℕ) (m : StringMap) (s rest : List ℕ) (later : Option ℕ)
    → Free c s
    → Free c rest
    → Ends (length (s ++ section c sep m)) later rest
    → Ends
        (length s)
        (or_else (find_first_of c (s ++ (section c sep m ++ rest))) later)
        (section c sep m ++ rest)
unfolding or_else
or_else-Ends c sep [] s rest later h k e =
    (rw (find_first_of-Free c (s ++ rest) (Free-append c s rest h k))
      (subst (λ t. Ends (length t) later rest) (append-nil s) e))
or_else-Ends c sep (item ∷ m) s rest later h k e =
    inl (ap (λ o. or_else o later) (find_first_of-at c s _ h))

-- A section that stands between two texts without its first character is read back.
pub read_section-section :
    (c sep : ℕ) (m : StringMap) (s rest : List ℕ) (end_pos : Option ℕ)
    → IsApart sep
    → Free c s
    → Free c rest
    → IsMap m
    → Ends (length (s ++ section c sep m)) end_pos rest
    → read_section sep
        (find_first_of c (s ++ (section c sep m ++ rest)))
        end_pos
        (s ++ (section c sep m ++ rest))
        []
      ≡ some m
unfolding read_section
read_section-section c sep [] s rest end_pos a h k w e =
    (rw (find_first_of-Free c (s ++ rest) (Free-append c s rest h k)) refl)
read_section-section c sep ((key, v) ∷ m) s rest end_pos a h k (i, f, w) e =
    let text : List ℕ = join (sep ∷ []) (map item_to_string ((key, v) ∷ m)) in
    let taken : substr (suc (length s)) end_pos (s ++ (c ∷ (text ++ rest))) ≡ text =
      substr-after c s text rest end_pos e in
    let pieces : split_at sep text ≡ some (map item_to_string ((key, v) ∷ m)) =
      split_at-join sep (item_to_string (key, v)) (map item_to_string m)
        (item-Free sep (key, v) a i) (items-Free sep m a w) in
    (rw (find_first_of-at c s (text ++ rest) h, taken, pieces)
      (read_items-map [] ((key, v) ∷ m) (i, f, w)))

-- A fragment without the percent sign, which is written as it is and decoded.
decode-Free : (tmp : ℕ) (s : List ℕ) → Free 37 s → decode_from outside tmp s ≡ some s
unfolding decode_from
decode-Free tmp [] h = refl
decode-Free tmp (c ∷ s) (e, h) =
    let other : (c == 37) ≡ false = ground arith in
    decode_plain c tmp s other ∙ ap (λ o. o >>= λ l. some (c ∷ l)) (decode-Free tmp s h)

pub read_frag-frag_to_string :
    (s frag : List ℕ)
    → Free 35 s
    → Free 37 frag
    → read_frag (find_first_of 35 (s ++ frag_to_string frag)) (s ++ frag_to_string frag) []
      ≡ some frag
unfolding read_frag frag_to_string url_decode
read_frag-frag_to_string s [] h k =
    (rw (find_first_of-Free 35 (s ++ []) (Free-append 35 s [] h _)) refl)
read_frag-frag_to_string s (c ∷ frag) h k =
    let taken : substr (suc (length s)) none (s ++ (35 ∷ (c ∷ frag))) ≡ c ∷ frag =
      subst (λ t. substr (suc (length s)) none (s ++ (35 ∷ t)) ≡ c ∷ frag) (append-nil (c ∷ frag))
        (substr-after 35 s (c ∷ frag) [] none (inr (refl, refl))) in
    (rw (find_first_of-at 35 s (c ∷ frag) h, taken) (decode-Free 0 (c ∷ frag) k))

pub pound-Ends :
    (s frag : List ℕ)
    → Free 35 s
    → Ends (length s) (find_first_of 35 (s ++ frag_to_string frag)) (frag_to_string frag)
unfolding frag_to_string
pound-Ends s [] h = inr (find_first_of-Free 35 (s ++ []) (Free-append 35 s [] h _), refl)
pound-Ends s (c ∷ frag) h = inl (find_first_of-at 35 s (c ∷ frag) h)
