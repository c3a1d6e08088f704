-- ===== src/Util/Serializer/Tests.antt =====
-- Three values in a block of twelve bytes.
use cpp_tbox.Common.{◌≡◌, refl, true, List, [], ◌∷◌, some, arith, replicate, map}
use cpp_tbox.Util.Serializer.{little, Serializer, Item, u16, u32, pod, on_raw, size_of, reader}
use cpp_tbox.Util.Serializer.Bytes.{shape_of, Small}
use cpp_tbox.Util.Serializer.RoundTrip.{IsValid, written, Room}
use cpp_tbox.Util.Serializer.Stream.{append_all, fetch_all, total, AllSmall, fetch_all-append_all}

abbrev values : List Item
values = u16 258 ∷ pod (1 ∷ 2 ∷ 3 ∷ []) ∷ u32 70000 ∷ []

abbrev block : Serializer
block = on_raw (replicate 12 0) 12 little

block-IsValid : IsValid block
block-IsValid = record { placed = omega arith; sized = λ n e. ground arith; small = omega arith }

block-Room : Room (total values) block
unfolding Room total size_of
block-Room = (omega arith, λ m e. ground arith)

values-AllSmall : AllSmall values
unfolding AllSmall Small
values-AllSmall = (omega arith, (omega arith, (omega arith, tt)))

fetch_all-append_all_example :
    let (ok, s') = append_all values block in
    (ok ≡ true)
    × ((fetch_all (map shape_of values) (reader (written s') little)).0 ≡ map some values)
fetch_all-append_all_example =
    fetch_all-append_all values block-IsValid refl block-Room values-AllSmall
