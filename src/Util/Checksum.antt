-- ===== src/Util/Checksum.antt =====
-- modules/util/checksum.cpp: sums with end-around carry, complemented. Bytes are below 256.
pub mod Verify
use cpp_tbox.Common.{ℕ, zero, suc, ◌+◌, ◌-◌, ◌*◌, ◌/◌, ◌%◌, ◌^◌, List, [], ◌∷◌, ◌==◌, if◌then◌else◌}

-- The inner `while`: it adds what is above the low part to the low part, at most `fuel` times. Two rounds
-- are more than the sums need.
pub fold : ℕ → ℕ → ℕ → ℕ
fold m zero acc = acc
fold m (suc fuel) acc =
    let rest = fold m fuel (acc % m + acc / m) in if acc / m == 0 then acc else rest

-- The loop of `CalcCheckSum8`, with its 16-bit `acc`.
pub sum8 : ℕ → List ℕ → ℕ
sum8 acc [] = acc
sum8 acc (b ∷ bs) = sum8 (fold (2 ^ 8) 2 ((acc + b) % 2 ^ 16)) bs

pub check_sum8 : List ℕ → ℕ
check_sum8 bytes = 255 - sum8 0 bytes

-- The loop of `CalcCheckSum16` over pairs of bytes, with its 32-bit `acc`, and the odd byte.
pub sum16 : ℕ → List ℕ → ℕ
sum16 acc [] = acc
sum16 acc (a ∷ []) = fold (2 ^ 16) 2 ((acc + a * 256) % 2 ^ 32)
sum16 acc (a ∷ b ∷ bs) = sum16 (fold (2 ^ 16) 2 ((acc + (a * 256 + b)) % 2 ^ 32)) bs

pub check_sum16 : List ℕ → ℕ
check_sum16 bytes = 65535 - sum16 0 bytes % 2 ^ 16
