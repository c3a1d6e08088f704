-- ===== src/Util/ScalableInteger/Overlong.antt =====
-- Parsing bytes that all ask for more: cut off input, and input that is too long.
use cpp_tbox.Common.{
  ℕ, zero, suc, ◌+◌, ◌/◌, ◌%◌, ◌*◌, ◌^◌, ◌≤◌, ◌<◌, ◌≡◌, refl, ◌∙◌, ap, true, false, List, [], ◌∷◌,
  ◌++◌, ◌-◌, ◌==◌, length, arith, append-nil, sym,
}
use cpp_tbox.Util.ScalableInteger.{incomplete, beyond_table, finish, parse_from, parse}

-- Bytes whose top bit is set.
abbrev pub Unfinished : List ℕ → Type 0
Unfinished [] = Unit {0}
Unfinished (b ∷ bs) = (128 ≤ b) × (b < 256) × Unfinished bs

parse_step :
    (b : ℕ) (bytes : List ℕ) (m rb rv : ℕ)
    → (b / 128 % 2 == 0) ≡ false
    → parse_from (suc m) (b ∷ bytes) rb rv
      ≡ parse_from m bytes (suc rb) (rv * 128 % 2 ^ 64 + b % 128)
unfolding parse_from
parse_step b bytes m rb rv top = rw top

parse-Unfinished :
    (bs tail : List ℕ) (r m rb n rv : ℕ)
    → Unfinished bs
    → m ≡ length bs + r
    → n ≡ rb + length bs
    → (value : ℕ) × (parse_from m (bs ++ tail) rb rv ≡ parse_from r tail n value)
parse-Unfinished [] tail r m rb n rv u e f =
    let m' : m ≡ r = omega arith in let n' : n ≡ rb = omega arith in (rv, rw (m', n'))
parse-Unfinished (b ∷ bs) tail r zero rb n rv u e f = absurd (omega arith)
parse-Unfinished (b ∷ bs) tail r (suc m) rb n rv u e f =
    let top : (b / 128 % 2 == 0) ≡ false = ground (arith, u.0, u.1) in
    let (value, rest) =
      parse-Unfinished bs tail r m (suc rb) n (rv * 128 % 2 ^ 64 + b % 128) u.2 (omega arith)
        (omega arith) in
    (value, parse_step b (bs ++ tail) m rb rv top ∙ rest)

-- Parsing at most ten bytes that all have their top bit set returns 0.
pub parse_cut_off : (bs : List ℕ) → Unfinished bs → length bs ≤ 10 → parse bs ≡ incomplete
unfolding parse parse_from
parse_cut_off bs u h =
    let (value, e) =
      parse-Unfinished bs [] (suc (10 - length bs)) 11 1 (1 + length bs) 0 u (omega arith) refl in
    ap (λ l. parse_from 11 l 1 0) (sym (append-nil bs)) ∙ e

-- Ten bytes with their top bit set and an eleventh without it are taken as a number of 11 bytes,
-- for which the table of minima has no entry.
pub parse_overlong :
    (bs rest : List ℕ) (last : ℕ)
    → Unfinished bs
    → length bs ≡ 10
    → last < 128
    → parse (bs ++ last ∷ rest) ≡ beyond_table
unfolding parse
parse_overlong bs rest last u h low =
    let (value, e) = parse-Unfinished bs (last ∷ rest) 1 11 1 11 0 u (omega arith) (omega arith) in
    e ∙ last_read value
  where
    top : (last / 128 % 2 == 0) ≡ true
    top = ground arith

    last_read : (value : ℕ) → parse_from 1 (last ∷ rest) 11 value ≡ beyond_table
    last_read value = unfold parse_from finish in rw top
