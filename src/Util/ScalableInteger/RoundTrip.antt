-- ===== src/Util/ScalableInteger/RoundTrip.antt =====
-- What is dumped parses back, whatever follows it.
use native.Mathlib.Nat.{pow-suc}
use cpp_tbox.Common.{
  ℕ, zero, suc, ◌+◌, ◌-◌, ◌*◌, ◌/◌, ◌%◌, ◌^◌, ◌≤◌, ◌<◌, ◌≡◌, refl, ap, ◌∙◌, true, false, List, [],
  ◌∷◌, ◌++◌, ltb, ◌==◌, if◌then◌else◌, length, get_or, get_elem?-eq-get_or, arith, lt→ltb, subst,
}
use cpp_tbox.Util.ScalableInteger.{
  min_values, need_bytes, dump_high, dump_bytes, dump, complete, finish, parse_from, parse,
}

-- The length chosen: from 1 to 10 bytes, and what is stored fits in them.
need_fits :
    (v : ℕ)
    → v < 2 ^ 64
    → let n = need_bytes v in
      (0 < n) × (n ≤ 10) × (get_or min_values n 0 ≤ v) × (v < get_or min_values n 0 + 128 ^ n)
unfolding need_bytes
need_fits v h = ground arith

length-dump_high : (k v : ℕ) (bytes : List ℕ) → length (dump_high k v bytes) ≡ k + length bytes
unfolding dump_high
length-dump_high zero v bytes = omega arith
length-dump_high (suc k) v bytes =
    omega (arith, length-dump_high k (v / 128) ((128 + v % 128) ∷ bytes))

-- A byte with its top bit set is taken in, and the next is awaited.
parse_high :
    (r v rb : ℕ) (bytes : List ℕ)
    → v < 2 ^ 64
    → parse_from (suc r) ((128 + v % 128) ∷ bytes) rb (v / 128) ≡ parse_from r bytes (suc rb) v
unfolding parse_from
parse_high r v rb bytes h =
    let top : ((128 + v % 128) / 128 % 2 == 0) ≡ false = ground arith in
    let value : v / 128 * 128 % 2 ^ 64 + (128 + v % 128) % 128 ≡ v = omega arith in rw (top, value)

parse-dump_high :
    (k r m v rb n : ℕ) (bytes : List ℕ)
    → m ≡ k + r
    → n ≡ rb + k
    → v < 128 ^ k
    → v < 2 ^ 64
    → parse_from m (dump_high k v bytes) rb 0 ≡ parse_from r bytes n v
unfolding dump_high
parse-dump_high zero r m v rb n bytes e f h small =
    let m' : m ≡ r = omega arith in
    let n' : n ≡ rb = omega arith in let v' : v ≡ 0 = omega arith in rw (m', n', v')
parse-dump_high (suc k) r m v rb n bytes e f h small =
    let n' : n ≡ suc (rb + k) = omega arith in
    rw n' (
      parse-dump_high k (suc r) m (v / 128) rb (rb + k) ((128 + v % 128) ∷ bytes) (omega arith) refl
        (omega (arith, pow-suc 128 k)) (omega arith)
      ∙ parse_high r v (rb + k) bytes small)

-- The last byte, its top bit clear, ends the number.
parse_last :
    (r v rb : ℕ) (rest : List ℕ)
    → v < 2 ^ 64
    → parse_from (suc r) (v % 128 ∷ rest) rb (v / 128) ≡ finish rb v
unfolding parse_from
parse_last r v rb rest h =
    let top : (v % 128 / 128 % 2 == 0) ≡ true = ground arith in
    let value : v / 128 * 128 % 2 ^ 64 + v % 128 % 128 ≡ v = omega arith in
    rw top (ap (finish rb) value)

dump_high-append :
    (k v : ℕ) (bytes rest : List ℕ) → dump_high k v bytes ++ rest ≡ dump_high k v (bytes ++ rest)
unfolding dump_high
dump_high-append zero v bytes rest = refl
dump_high-append (suc k) v bytes rest = dump_high-append k (v / 128) ((128 + v % 128) ∷ bytes) rest

-- The table ends at 10 bytes.
finish_lem :
    (n v : ℕ)
    → 0 < n
    → n ≤ 10
    → get_or min_values n 0 ≤ v
    → v < 2 ^ 64
    → finish n (v - get_or min_values n 0) ≡ complete n v
unfolding finish
finish_lem n v p q low small =
    let total : (get_or min_values n 0 + (v - get_or min_values n 0)) % 2 ^ 64 ≡ v = omega arith in
    rw (get_elem?-eq-get_or min_values n 0 (omega arith), finish) (ap (complete n) total)

store_value :
    (n v : ℕ)
    → 0 < n
    → (if ltb 1 n then v - get_or min_values n 0 else v) ≡ v - get_or min_values n 0
store_value zero v h = absurd (omega arith)
store_value (suc zero) v h = omega arith
store_value (suc (suc n)) v h = rw (lt→ltb 1 (suc (suc n)) (omega arith))

dump_bytes-eq :
    (m v : ℕ)
    → dump_bytes (suc m) v
      ≡ dump_high m
          ((v - get_or min_values (suc m) 0) / 128)
          ((v - get_or min_values (suc m) 0) % 128 ∷ [])
unfolding dump_bytes
dump_bytes-eq m v =
    let less_one : suc m - 1 ≡ m = omega arith in
    λ i.
      dump_high (less_one i) (store_value (suc m) v (omega arith) i / 128)
        (store_value (suc m) v (omega arith) i % 128 ∷ [])

parse-dump_bytes :
    (m v : ℕ) (rest : List ℕ)
    → suc m ≤ 10
    → v < 2 ^ 64
    → get_or min_values (suc m) 0 ≤ v
    → v < get_or min_values (suc m) 0 + 128 ^ suc m
    → (length (dump_bytes (suc m) v) ≡ suc m)
      × (parse (dump_bytes (suc m) v ++ rest) ≡ complete (suc m) v)
unfolding parse
parse-dump_bytes m v rest q small low high =
    let s = v - get_or min_values (suc m) 0 in
    rw (dump_bytes-eq m v) (
      omega (arith, length-dump_high m (s / 128) (s % 128 ∷ [])),
      ap (λ l. parse_from 11 l 1 0) (dump_high-append m (s / 128) (s % 128 ∷ []) rest)
          ∙ parse-dump_high m (suc (10 - m)) 11 (s / 128) 1 (suc m) (s % 128 ∷ rest) (omega arith)
              (omega arith) (omega (arith, pow-suc 128 m)) (omega arith)
          ∙ parse_last (10 - m) s (suc m) rest (omega arith)
          ∙ finish_lem (suc m) v (omega arith) q low small,
    )

-- Every 64-bit value is dumped in 1 to 10 bytes if these fit in the buffer, and parsing them,
-- whatever bytes follow, gives back their number and the value.
pub parse-dump :
    (v size : ℕ) (rest : List ℕ)
    → v < 2 ^ 64
    → need_bytes v ≤ size
    → let (n, bytes) = dump v size in
      (0 < n) × (n ≤ 10) × (length bytes ≡ n) × (parse (bytes ++ rest) ≡ complete n v)
unfolding dump
parse-dump v size rest h room = by_length (need_bytes v) refl
  where
    enough : ltb size (need_bytes v) ≡ false
    enough = ground arith

    by_length :
        (n : ℕ)
        → need_bytes v ≡ n
        → let (n, bytes) = dump v size in
          (0 < n) × (n ≤ 10) × (length bytes ≡ n) × (parse (bytes ++ rest) ≡ complete n v)
    by_length zero e = absurd (omega (arith, need_fits v h))
    by_length (suc m) e =
        let fits =
          subst
            (λ n.
              (0 < n)
              × (n ≤ 10)
              × (get_or min_values n 0 ≤ v)
              × (v < get_or min_values n 0 + 128 ^ n))
            e (need_fits v h) in
        let done = parse-dump_bytes m v rest fits.1 h fits.2 fits.3 in
        rw (enough, dump) (rw e (fits.0, fits.1, done.0, done.1))
