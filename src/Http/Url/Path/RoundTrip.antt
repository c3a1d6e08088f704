-- ===== src/Http/Url/Path/RoundTrip.antt =====
-- StringToUrlPath of what UrlPathToString writes.
use cpp_tbox.Common.{
  ℕ, Bool, ◌≡◌, refl, sym, ap, subst, ◌∙◌, true, false, some, List, [], ◌∷◌, ◌++◌, append_assoc,
  length, ◌==◌,
}
use cpp_tbox.Http.Url.{contains, is_print, encode_char, url_encode, url_decode}
use cpp_tbox.Http.Url.RoundTrip.{AllBytes, all_below, url_decode-url_encode}
use cpp_tbox.Http.Url.Path.{
  UrlPath, frag_to_string, url_path_to_string, find_first_of, or_else, substr, read_section,
  read_frag, parse_path, string_to_url_path,
}
use cpp_tbox.Http.Url.Path.Free.{IsSpecial, Free-append, url_encode-Free}
use cpp_tbox.Http.Url.Path.Items.{IsMap}
use cpp_tbox.Http.Url.Path.Places.{Ends, substr-front}
use cpp_tbox.Http.Url.Path.Sections.{
  section, params_section, query_section, IsApart, section-Free, or_else-Ends, read_section-section,
  read_frag-frag_to_string, pound-Ends,
}
use cpp_tbox.Util.Strings.Separated.{Free}

-- A path of bytes from the root, maps with keys that are not empty, and a fragment without `%`, `;` and `?`.
pub record IsPath (p : UrlPath) : Type 0 where
  pub rest : List ℕ
  pub rooted : p.path ≡ 47 ∷ rest
  pub bytes : AllBytes p.path
  pub params_map : IsMap p.params
  pub query_map : IsMap p.query
  pub no_percent : Free 37 p.frag
  pub no_semicolon : Free 59 p.frag
  pub no_question : Free 63 p.frag

abbrev pub no_path : UrlPath
no_path = record { path = []; params = []; query = []; frag = [] }

frag-Free : (c : ℕ) (frag : List ℕ) → (c == 35) ≡ false → Free c frag → Free c (frag_to_string frag)
unfolding frag_to_string
frag-Free c [] e h = _
frag-Free c (d ∷ frag) e h = (e, h)

special : (m : Bool) → IsSpecial m 59 × IsSpecial m 63 × IsSpecial m 35
unfolding contains all_below
special true = ((refl, refl, refl), (refl, refl, refl), (refl, refl, refl))
special false = ((refl, refl, refl), (refl, refl, refl), (refl, refl, refl))

ampersand : IsApart 38
unfolding contains all_below
ampersand = ((refl, refl, refl), refl)

special-IsApart : IsApart 59 × IsApart 63 × IsApart 35
special-IsApart = (((special false).0, refl), ((special false).1, refl), ((special false).2, refl))

-- The parts that are read make up the path.
parse_path-parts :
    (str : List ℕ) (p : UrlPath)
    → url_decode (
        substr 0
          (or_else (find_first_of 59 str) (or_else (find_first_of 63 str) (find_first_of 35 str)))
          str)
      ≡ some p.path
    → read_section 59
        (find_first_of 59 str)
        (or_else (find_first_of 63 str) (find_first_of 35 str))
        str
        []
      ≡ some p.params
    → read_section 38 (find_first_of 63 str) (find_first_of 35 str) str [] ≡ some p.query
    → read_frag (find_first_of 35 str) str [] ≡ some p.frag
    → parse_path str no_path ≡ some p
unfolding parse_path
parse_path-parts str p e1 e2 e3 e4 = rw (e1, e2, e3, e4) refl

parse_path-sections :
    (p : UrlPath)
    → IsPath p
    → parse_path
        (url_encode true p.path
          ++ (section 59 59 p.params ++ (section 63 38 p.query ++ frag_to_string p.frag)))
        no_path
      ≡ some p
parse_path-sections p h =
    let one : List ℕ = url_encode true p.path in
    let s : List ℕ = section 59 59 p.params in
    let q : List ℕ = section 63 38 p.query in
    let f : List ℕ = frag_to_string p.frag in
    let str : List ℕ = one ++ (s ++ (q ++ f)) in
    let two : (one ++ s) ++ (q ++ f) ≡ str = append_assoc one s (q ++ f) in
    let three : ((one ++ s) ++ q) ++ f ≡ str = append_assoc (one ++ s) q f ∙ two in
    let free : (c : ℕ) → IsSpecial true c → Free c one =
      λ c t. url_encode-Free true c p.path t h.bytes in
    let s63 : Free 63 s =
      section-Free 63 59 59 p.params (special-IsApart.1) refl refl h.params_map in
    let s35 : Free 35 s =
      section-Free 35 59 59 p.params (special-IsApart.2) refl refl h.params_map in
    let q59 : Free 59 q = section-Free 59 63 38 p.query (special-IsApart.0) refl refl h.query_map in
    let q35 : Free 35 q = section-Free 35 63 38 p.query (special-IsApart.2) refl refl h.query_map in
    let f59 : Free 59 f = frag-Free 59 p.frag refl h.no_semicolon in
    let f63 : Free 63 f = frag-Free 63 p.frag refl h.no_question in
    let a63 : Free 63 (one ++ s) = Free-append 63 one s (free 63 (special true).1) s63 in
    let a35 : Free 35 (one ++ s) = Free-append 35 one s (free 35 (special true).2) s35 in
    let b35 : Free 35 ((one ++ s) ++ q) = Free-append 35 (one ++ s) q a35 q35 in
    let r59 : Free 59 (q ++ f) = Free-append 59 q f q59 f59 in
    let end_q : Ends (length ((one ++ s) ++ q)) (find_first_of 35 str) f =
      subst (λ t. Ends (length ((one ++ s) ++ q)) (find_first_of 35 t) f) three
        (pound-Ends ((one ++ s) ++ q) p.frag b35) in
    let end_s : Ends (length (one ++ s)) (or_else (find_first_of 63 str) (find_first_of 35 str))
        (q ++ f) =
      subst
        (λ t.
          Ends (length (one ++ s)) (or_else (find_first_of 63 t) (find_first_of 35 str)) (q ++ f))
        two (or_else-Ends 63 38 p.query (one ++ s) f (find_first_of 35 str) a63 f63 end_q) in
    let end_one =
      or_else-Ends 59 59 p.params one (q ++ f)
        (or_else (find_first_of 63 str) (find_first_of 35 str)) (free 59 (special true).0) r59
        end_s in
    parse_path-parts str p
      (ap url_decode (substr-front one (s ++ (q ++ f)) _ end_one)
        ∙ url_decode-url_encode true p.path h.bytes)
      (read_section-section 59 59 p.params one (q ++ f) _ special-IsApart.0
        (free 59 (special true).0) r59 h.params_map end_s)
      (subst (λ t. read_section 38 (find_first_of 63 t) (find_first_of 35 str) t [] ≡ some p.query)
        two
        (read_section-section 63 38 p.query (one ++ s) f (find_first_of 35 str) ampersand a63 f63
          h.query_map end_q))
      (subst (λ t. read_frag (find_first_of 35 t) t [] ≡ some p.frag) three
        (read_frag-frag_to_string ((one ++ s) ++ q) p.frag b35 h.no_percent))

-- What begins with a slash is parsed.
string_to_url_path-rooted :
    (t rest : List ℕ)
    → string_to_url_path (url_encode true (47 ∷ t) ++ rest) no_path
      ≡ parse_path (url_encode true (47 ∷ t) ++ rest) no_path
unfolding string_to_url_path url_encode encode_char contains is_print
string_to_url_path-rooted t rest = refl

-- For the part of a URL from the path on, with a path of bytes that begins with a slash, maps in
-- the order of their keys with keys that are not empty, keys and values of bytes, and a fragment
-- without the characters `%`, `;` and `?`, StringToUrlPath into an empty path of what
-- UrlPathToString writes gives back the path, the parameters, the query and the fragment.
pub string_to_url_path-url_path_to_string :
    (p : UrlPath) → IsPath p → string_to_url_path (url_path_to_string p) no_path ≡ some p
unfolding url_path_to_string
string_to_url_path-url_path_to_string p h =
    let text : List ℕ =
      section 59 59 p.params ++ (section 63 38 p.query ++ frag_to_string p.frag) in
    let begun : string_to_url_path (url_encode true p.path ++ text) no_path
        ≡ parse_path (url_encode true p.path ++ text) no_path =
      subst
        (λ t.
          string_to_url_path (url_encode true t ++ text) no_path
          ≡ parse_path (url_encode true t ++ text) no_path)
        (sym h.rooted) (string_to_url_path-rooted h.rest text) in
    (rw (params_section p.params, query_section p.query) (begun ∙ parse_path-sections p h))
