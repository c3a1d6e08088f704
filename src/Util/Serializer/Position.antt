-- ===== src/Util/Serializer/Position.antt =====
-- The calls that only move the position of a deserializer.
use cpp_tbox.Common.{◌+◌, ◌-◌, ◌%◌, ◌^◌, ◌<◌, ◌≡◌, ◌↔◌, true, false, none, arith}
use cpp_tbox.Util.Serializer.{Deserializer, check_size, fetch, fetch_no_copy, skip, Shape, width}

-- skip, fetchNoCopy and a fetch of the same size move the position alike, and return false,
-- nullptr and false in the same cases.
pub skip-fetch :
    (k : Shape) (d : Deserializer)
    → ((skip (width k) d).1 ≡ (fetch k d).1)
      × ((fetch_no_copy (width k) d).1 ≡ (fetch k d).1)
      × (((skip (width k) d).0 ≡ false) ↔ ((fetch k d).0 ≡ none))
      × (((fetch_no_copy (width k) d).0 ≡ none) ↔ ((fetch k d).0 ≡ none))
unfolding skip fetch fetch_no_copy check_size
skip-fetch k d = ground arith

-- From a position other than 0, skip of 2^64 less the position returns true and puts the position
-- back to 0: the size check wraps.
pub skip_wraps :
    (d : Deserializer)
    → 0 < d.pos
    → d.pos < 2 ^ 64
    → skip (2 ^ 64 - d.pos) d ≡ (true, record d { pos = 0 })
unfolding skip check_size
skip_wraps d h k =
    let wraps : (d.pos + (2 ^ 64 - d.pos)) % 2 ^ 64 ≡ 0 = omega arith in rw wraps (ground arith)
