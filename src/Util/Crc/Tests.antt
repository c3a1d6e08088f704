-- ===== src/Util/Crc/Tests.antt =====
-- The checks of the bytes of "123456789".
use cpp_tbox.Common.{ℕ, ◌≡◌, ◌/◌, ◌%◌, ◌^◌, ◌++◌, List, [], ◌∷◌, refl, arith}
use cpp_tbox.Util.Crc.{crc16_step, calc_crc16, crc32_step, crc32_loop, calc_crc32}
use cpp_tbox.Util.Crc.Verify.{calc_crc16_check}

abbrev digits : List ℕ
digits = 0x31 ∷ 0x32 ∷ 0x33 ∷ 0x34 ∷ 0x35 ∷ 0x36 ∷ 0x37 ∷ 0x38 ∷ 0x39 ∷ []

crc16_of_digits : calc_crc16 digits 0xffff ≡ 0x29B1
unfolding calc_crc16 crc16_step
crc16_of_digits = refl

crc32_of_digits : calc_crc32 digits 0xffffffff ≡ 0xCBF43926
unfolding calc_crc32 crc32_loop crc32_step
crc32_of_digits = refl

calc_crc16_check_example :
    let crc = calc_crc16 digits 0xffff in
    calc_crc16 (digits ++ crc / 2 ^ 8 ∷ crc % 2 ^ 8 ∷ []) 0xffff ≡ 0
calc_crc16_check_example = calc_crc16_check digits 0xffff (omega arith)
