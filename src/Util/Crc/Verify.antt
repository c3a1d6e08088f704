-- ===== src/Util/Crc/Verify.antt =====
-- Data followed by its check has the check 0, and the tables are those of the polynomials.
use cpp_tbox.Common.{
  ℕ, zero, suc, ◌*◌, ◌/◌, ◌%◌, ◌^◌, ◌<◌, ◌≡◌, refl, ap, ap₂, ◌∙◌, Bool, true, false, List, [], ◌∷◌,
  ◌++◌, ◌==◌, if◌then◌else◌, ==_iff, get_or, arith,
}
use Prim.Native.Nat.{bit_xor}
use cpp_tbox.Util.Crc.{ccitt16_table, crc32_table, crc16_step, calc_crc16, generate16, generate32}

-- A test passed by the first numbers, as many as are given.
passes : (ℕ → Bool) → ℕ → Bool
passes test zero = true
passes test (suc count) = if test count then passes test count else false

passed : (test : ℕ → Bool) (count i : ℕ) → passes test count ≡ true → i < count → test i ≡ true
unfolding passes
passed test zero i ok h = absurd (omega (arith, h))
passed test (suc count) i ok h = ground (arith, passed test count i, ok, h)

xor_self_table : passes (λ x. bit_xor x x == 0) 256 ≡ true
unfolding passes
xor_self_table = refl

shifted_table : passes (λ x. bit_xor 0 (x * 256) == x * 256) 256 ≡ true
unfolding passes
shifted_table = refl

table16_all : passes (λ i. get_or ccitt16_table i 0 == generate16 8 0 (i * 256)) 256 ≡ true
unfolding passes generate16
table16_all = refl

table32_all : passes (λ i. get_or crc32_table i 0 == generate32 8 i) 256 ≡ true
unfolding passes generate32
table32_all = refl

-- All 256 entries of both tables are what the generators beside them compute bit by bit from the
-- polynomials.
pub tables_generated :
    (i : ℕ)
    → i < 256
    → (get_or ccitt16_table i 0 ≡ generate16 8 0 (i * 256))
      × (get_or crc32_table i 0 ≡ generate32 8 i)
tables_generated i h = (
  (==_iff (get_or ccitt16_table i 0) (generate16 8 0 (i * 256))).0
      (passed (λ i. get_or ccitt16_table i 0 == generate16 8 0 (i * 256)) 256 i table16_all h),
  (==_iff (get_or crc32_table i 0) (generate32 8 i)).0
      (passed (λ i. get_or crc32_table i 0 == generate32 8 i) 256 i table32_all h),
)

calc_crc16-append :
    (bs cs : List ℕ) (crc : ℕ) → calc_crc16 (bs ++ cs) crc ≡ calc_crc16 cs (calc_crc16 bs crc)
unfolding calc_crc16
calc_crc16-append [] cs crc = refl
calc_crc16-append (b ∷ bs) cs crc = calc_crc16-append bs cs (crc16_step crc b)

-- The high byte of the check takes the step to its low byte, shifted.
crc16_step-high : (crc : ℕ) → crc < 2 ^ 16 → crc16_step crc (crc / 2 ^ 8) ≡ crc % 2 ^ 8 * 2 ^ 8
unfolding crc16_step
crc16_step-high crc h =
    let high : ℕ = crc / 2 ^ 8 in
    let low : ℕ = crc % 2 ^ 8 in
    let same : bit_xor high high ≡ 0 =
      (==_iff (bit_xor high high) 0).0
        (passed (λ x. bit_xor x x == 0) 256 high xor_self_table (omega (arith, h))) in
    let shift : crc * 2 ^ 8 % 2 ^ 16 ≡ low * 256 = omega arith in
    let kept : bit_xor 0 (low * 256) ≡ low * 256 =
      (==_iff (bit_xor 0 (low * 256)) (low * 256)).0
        (passed (λ x. bit_xor 0 (x * 256) == x * 256) 256 low shifted_table (omega arith)) in
    ap₂ (λ x y. bit_xor (get_or ccitt16_table (x % 2 ^ 8) 0) y % 2 ^ 16) same shift
    ∙ ap (λ x. x % 2 ^ 16) kept
    ∙ omega arith

calc_crc16-lt : (bytes : List ℕ) (seed : ℕ) → seed < 2 ^ 16 → calc_crc16 bytes seed < 2 ^ 16
unfolding calc_crc16 crc16_step
calc_crc16-lt [] seed h = h
calc_crc16-lt (b ∷ bytes) seed h = calc_crc16-lt bytes (crc16_step seed b) (omega arith)

-- From any seed of 16 bits, bytes followed by their 16-bit CRC, the high byte first, have the CRC
-- 0.
pub calc_crc16_check :
    (bytes : List ℕ) (seed : ℕ)
    → seed < 2 ^ 16
    → let crc = calc_crc16 bytes seed in
      calc_crc16 (bytes ++ crc / 2 ^ 8 ∷ crc % 2 ^ 8 ∷ []) seed ≡ 0
unfolding calc_crc16
calc_crc16_check bytes seed h =
    let crc : ℕ = calc_crc16 bytes seed in
    let low : ℕ = crc % 2 ^ 8 in
    calc_crc16-append bytes (crc / 2 ^ 8 ∷ low ∷ []) seed
    ∙ ap (λ c. crc16_step c low) (crc16_step-high crc (calc_crc16-lt bytes seed h))
    ∙ ap (λ b. crc16_step (low * 2 ^ 8) b) (omega arith)
    ∙ crc16_step-high (low * 2 ^ 8) (omega arith)
    ∙ omega arith
