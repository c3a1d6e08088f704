-- ===== src/Util/ScalableInteger/Tests.antt =====
-- The round trip of 300.
use cpp_tbox.Common.{◌≤◌, ◌<◌, ◌≡◌, ◌++◌, [], ◌∷◌, arith, length}
use cpp_tbox.Util.ScalableInteger.{need_bytes, dump, parse, complete}
use cpp_tbox.Util.ScalableInteger.RoundTrip.{parse-dump}

parse-dump_example :
    let (n, bytes) = dump 300 4 in
    (0 < n) × (n ≤ 10) × (length bytes ≡ n) × (parse (bytes ++ 255 ∷ []) ≡ complete n 300)
unfolding need_bytes
parse-dump_example = parse-dump 300 4 (255 ∷ []) (omega arith) (omega arith)
