-- ===== src/Http/Url/Path.antt =====
-- modules/http/url.cpp: the part of a URL from the path on, `/<path>;<params>?<query>#<frag>`.
-- A position is none for npos. A result none is the answer false; what was written before it is not kept.

pub mod Free
pub mod Items
pub mod Places
pub mod RoundTrip
pub mod Sections
mod Tests
use cpp_tbox.Common.{
  ℕ, zero, suc, ◌+◌, ◌-◌, Bool, true, false, ◌&&◌, ◌||◌, Option, none, some, List, [], ◌∷◌, ◌++◌,
  ltb, leb, ◌==◌, if◌then◌else◌, length,
}
use cpp_tbox.Common.Maybe.{◌>>=◌}
use cpp_tbox.Http.Url.{url_encode, url_decode}
use cpp_tbox.Util.Strings.{split}

abbrev pub StringMap : Type 0
StringMap = List (List ℕ × List ℕ)

-- The order of texts, by their bytes.
unfoldable pub less : List ℕ → List ℕ → Bool
less s [] = false
less [] (d ∷ t) = true
less (c ∷ s) (d ∷ t) = let rest = less s t in ltb c d || ((c == d) && rest)

-- A std::map keeps its keys in order, and an assignment replaces the value of a key that is there.
unfoldable pub assign : List ℕ → List ℕ → StringMap → StringMap
unfolding less
assign k v [] = (k, v) ∷ []
assign k v ((k', v') ∷ m) =
    let rest = assign k v m in
    if less k k' then (k, v) ∷ ((k', v') ∷ m) else if less k' k then (k', v') ∷ rest else (k, v) ∷ m

pub record UrlPath : Type 0 where
  path : List ℕ
  params : StringMap
  query : StringMap
  frag : List ℕ

pub item_to_string : List ℕ × List ℕ → List ℕ
item_to_string (k, v) = url_encode false k ++ 61 ∷ url_encode false v

-- Each item behind the character.
pub items_to_string : ℕ → StringMap → List ℕ
items_to_string sep [] = []
items_to_string sep (item ∷ m) = (sep ∷ item_to_string item) ++ items_to_string sep m

pub query_to_string : StringMap → List ℕ
query_to_string [] = []
query_to_string (item ∷ m) = (63 ∷ item_to_string item) ++ items_to_string 38 m

pub frag_to_string : List ℕ → List ℕ
frag_to_string [] = []
frag_to_string (c ∷ frag) = 35 ∷ (c ∷ frag)

pub url_path_to_string : UrlPath → List ℕ
url_path_to_string p =
    url_encode true p.path
    ++ (items_to_string 59 p.params ++ (query_to_string p.query ++ frag_to_string p.frag))

unfoldable pub find_first_of : ℕ → List ℕ → Option ℕ
find_first_of c [] = none
find_first_of c (d ∷ s) =
    let rest = find_first_of c s in if c == d then some 0 else (rest >>= λ n. some (suc n))

unfoldable pub or_else : Option ℕ → Option ℕ → Option ℕ
or_else none later = later
or_else (some n) later = some n

pub take : ℕ → List ℕ → List ℕ
take zero s = []
take (suc n) [] = []
take (suc n) (c ∷ s) = c ∷ take n s

pub drop : ℕ → List ℕ → List ℕ
drop zero s = s
drop (suc n) [] = []
drop (suc n) (c ∷ s) = drop n s

-- `substr(start, end - start)`: of an end before the start the difference wraps, to more than is left.
unfoldable pub substr : ℕ → Option ℕ → List ℕ → List ℕ
unfolding take drop
substr start none s = drop start s
substr start (some end_pos) s =
    if leb start end_pos then take (end_pos - start) (drop start s) else drop start s

-- `Split`, on fuel that is enough for a separator of one character.
pub split_at : ℕ → List ℕ → Option (List (List ℕ))
split_at sep s = split (suc (length s)) (sep ∷ []) s

-- `kv.size() != 2 || kv[0].empty()`, and else the two.
pub key_value : List (List ℕ) → Option (List ℕ × List ℕ)
key_value [] = none
key_value (k ∷ []) = none
key_value ([] ∷ (v ∷ [])) = none
key_value ((c ∷ k) ∷ (v ∷ [])) = some (c ∷ k, v)
key_value (k ∷ (v ∷ (w ∷ kv))) = none

pub read_item : List ℕ → StringMap → Option StringMap
unfolding split_at key_value
read_item item_str m = split_at 61 item_str >>= λ kv.
    (key_value kv >>= λ item.
    (url_decode item.0 >>= λ k. (url_decode item.1 >>= λ v. some (assign k v m))))

pub read_items : List (List ℕ) → StringMap → Option StringMap
read_items [] m = some m
read_items (item_str ∷ items) m = read_item item_str m >>= λ m'. read_items items m'

-- The items between two positions, where there are any.
pub read_section : ℕ → Option ℕ → Option ℕ → List ℕ → StringMap → Option StringMap
unfolding read_items
read_section sep none end_pos str m = some m
read_section sep (some pos) end_pos str m =
    split_at sep (substr (suc pos) end_pos str) >>= λ items. read_items items m

pub read_frag : Option ℕ → List ℕ → List ℕ → Option (List ℕ)
read_frag none str frag = some frag
read_frag (some pos) str frag = url_decode (substr (suc pos) none str)

pub parse_path : List ℕ → UrlPath → Option UrlPath
unfolding read_section read_frag
parse_path str p =
    let semi_pos = find_first_of 59 str in
    let query_pos = find_first_of 63 str in
    let pound_pos = find_first_of 35 str in
    url_decode (substr 0 (or_else semi_pos (or_else query_pos pound_pos)) str) >>= λ path.
    (read_section 59 semi_pos (or_else query_pos pound_pos) str p.params >>= λ params.
    (read_section 38 query_pos pound_pos str p.query >>= λ query.
    (read_frag pound_pos str p.frag >>= λ frag.
    some (record { path = path; params = params; query = query; frag = frag }))))

pub string_to_url_path : List ℕ → UrlPath → Option UrlPath
unfolding parse_path
string_to_url_path [] p = none
string_to_url_path (c ∷ str) p = if c == 47 then parse_path (c ∷ str) p else none
