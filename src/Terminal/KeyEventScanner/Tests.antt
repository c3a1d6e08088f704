-- ===== src/Terminal/KeyEventScanner/Tests.antt =====
-- The key F10, and the bytes that key_event_scanner.h gives for it, which are refused.
use cpp_tbox.Common.{ℕ, ◌≡◌, ◌++◌, refl, List, [], ◌∷◌, true}
use cpp_tbox.Terminal.KeyEventScanner.{start, feed, next, dispatch, ensure, fail, f10}
use cpp_tbox.Terminal.KeyEventScanner.Keys.{is_key, feed_sound, feed_complete}

abbrev f10_bytes : List ℕ
f10_bytes = 27 ∷ 91 ∷ 50 ∷ 49 ∷ 126 ∷ []

feed_sound_example :
    let (status, s, rest) = feed start (f10_bytes ++ 65 ∷ []) in
    (bytes : List ℕ) × (f10_bytes ++ 65 ∷ [] ≡ bytes ++ rest)
    × (is_key s.result s.extra bytes ≡ true)
unfolding feed next
feed_sound_example = feed_sound (f10_bytes ++ 65 ∷ []) refl

feed_complete_example :
    ((feed start f10_bytes).0 ≡ ensure)
    × ((feed start f10_bytes).1.result ≡ f10)
    × ((feed start f10_bytes).1.extra ≡ 0)
    × ((feed start f10_bytes).2 ≡ [])
feed_complete_example = feed_complete f10 0 f10_bytes refl

header_f10 : (feed start (27 ∷ 91 ∷ 49 ∷ 49 ∷ 126 ∷ [])).0 ≡ fail
unfolding feed next dispatch
header_f10 = refl

header_f10_left : (feed start (27 ∷ 91 ∷ 49 ∷ 49 ∷ 126 ∷ [])).2 ≡ 126 ∷ []
unfolding feed next dispatch
header_f10_left = refl
