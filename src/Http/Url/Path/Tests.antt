-- ===== src/Http/Url/Path/Tests.antt =====
-- The theorem at `/a b;k=v%3D?q=1&r=#f#`, and a fragment that is taken for a query.
use cpp_tbox.Common.{◌≡◌, [], ◌∷◌, arith, none, some, refl}
use cpp_tbox.Http.Url.{decode_from, url_decode}
use cpp_tbox.Http.Url.Path.{
  UrlPath, less, find_first_of, or_else, substr, split_at, key_value, read_item, read_items,
  read_section, parse_path, string_to_url_path, url_path_to_string,
}
use cpp_tbox.Util.Strings.{split, split_more, push_chip, find, found_here, further, after_sep}
use cpp_tbox.Http.Url.Path.RoundTrip.{IsPath, no_path, string_to_url_path-url_path_to_string}

abbrev whole : UrlPath
whole = record {
  path = 47 ∷ 97 ∷ 32 ∷ 98 ∷ [];
  params = (107 ∷ [], 118 ∷ 61 ∷ []) ∷ [];
  query = (113 ∷ [], 49 ∷ []) ∷ (114 ∷ [], []) ∷ [];
  frag = 102 ∷ 35 ∷ [];
}

whole-IsPath : IsPath whole
unfolding less
whole-IsPath = record {
  rest = 97 ∷ 32 ∷ 98 ∷ [];
  rooted = refl;
  bytes = ground arith;
  params_map = ((ground arith), _, _);
  query_map = ((ground arith), (refl, refl, _), ((ground arith), _, _));
  no_percent = (refl, (refl, _));
  no_semicolon = (refl, (refl, _));
  no_question = (refl, (refl, _));
}

string_to_url_path-url_path_to_string_example :
    string_to_url_path (url_path_to_string whole) no_path ≡ some whole
string_to_url_path-url_path_to_string_example =
    string_to_url_path-url_path_to_string whole whole-IsPath

-- `/a#b?c`
question_in_frag : string_to_url_path (47 ∷ 97 ∷ 35 ∷ 98 ∷ 63 ∷ 99 ∷ []) no_path ≡ none
unfolding string_to_url_path parse_path find_first_of or_else substr url_decode decode_from
    read_section split_at read_items read_item key_value split split_more push_chip find found_here
    further after_sep
question_in_frag = refl
