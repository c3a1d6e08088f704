-- ===== src/Util/Strings/Tests.antt =====
-- The text "a,b,", whose characters have the codes 97, 44, 98 and 44.
use cpp_tbox.Common.{ℕ, ◌≡◌, refl, List, [], ◌∷◌, some, arith}
use cpp_tbox.Util.Strings.{
  split, join, split_more, push_chip, find, found_here, further, after_sep, strip, strip_left,
  strip_right, keep_unless_blank,
}
use cpp_tbox.Util.Strings.Pieces.{join-split}

abbrev text : List ℕ
text = 97 ∷ 44 ∷ 98 ∷ 44 ∷ []

pieces_of_text : split 5 (44 ∷ []) text ≡ some ((97 ∷ []) ∷ (98 ∷ []) ∷ [] ∷ [])
unfolding split split_more push_chip find found_here further after_sep
pieces_of_text = refl

stripped : strip (32 ∷ 97 ∷ 32 ∷ 98 ∷ 32 ∷ []) ≡ 97 ∷ 32 ∷ 98 ∷ []
unfolding strip strip_left strip_right keep_unless_blank
stripped = refl

join-split_example :
    (ss : List (List ℕ)) × (split 5 (44 ∷ []) text ≡ some ss) × (join (44 ∷ []) ss ≡ text)
join-split_example = join-split 5 (44 ∷ []) text (omega arith) (omega arith)
