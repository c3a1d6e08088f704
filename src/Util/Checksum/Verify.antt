-- ===== src/Util/Checksum/Verify.antt =====
-- Data followed by its checksum has the checksum 0.
use cpp_tbox.Common.{
  ℕ, ◌+◌, ◌-◌, ◌*◌, ◌/◌, ◌%◌, ◌^◌, ◌≤◌, ◌<◌, ◌≡◌, refl, ap, ◌∙◌, List, [], ◌∷◌, ◌++◌, ◌==◌,
  if◌then◌else◌, length, arith,
}
use cpp_tbox.Util.Checksum.{fold, sum8, check_sum8, sum16, check_sum16}

-- A sum of two numbers of one byte is folded in one round.
fold8 : (acc : ℕ) → acc ≤ 510 → fold (2 ^ 8) 2 acc ≡ (if acc / 256 == 0 then acc else acc - 255)
unfolding fold
fold8 acc h = ground arith

fold16 :
    (acc : ℕ) → acc ≤ 131070 → fold (2 ^ 16) 2 acc ≡ (if acc / 65536 == 0 then acc else acc - 65535)
unfolding fold
fold16 acc h = ground arith

unfoldable pub AllBytes : List ℕ → Type 0
AllBytes [] = Unit {0}
AllBytes (b ∷ bs) = (b < 256) × AllBytes bs

sum8_lt : (acc : ℕ) (bs : List ℕ) → acc < 256 → AllBytes bs → sum8 acc bs < 256
unfolding sum8 AllBytes
sum8_lt acc [] h all = h
sum8_lt acc (b ∷ bs) h all =
    sum8_lt (fold (2 ^ 8) 2 ((acc + b) % 2 ^ 16)) bs
      (ground (arith, all.0, fold8 ((acc + b) % 2 ^ 16))) all.1

sum8-append :
    (acc : ℕ) (bs : List ℕ) (b : ℕ)
    → sum8 acc (bs ++ b ∷ []) ≡ fold (2 ^ 8) 2 ((sum8 acc bs + b) % 2 ^ 16)
unfolding sum8
sum8-append acc [] b = refl
sum8-append acc (x ∷ bs) b = sum8-append (fold (2 ^ 8) 2 ((acc + x) % 2 ^ 16)) bs b

-- Bytes followed by their 8-bit checksum have the checksum 0.
pub check_sum8-append :
    (bytes : List ℕ) → AllBytes bytes → check_sum8 (bytes ++ check_sum8 bytes ∷ []) ≡ 0
unfolding check_sum8
check_sum8-append bytes all =
    let small : sum8 0 bytes < 256 = sum8_lt 0 bytes (omega arith) all in
    ground (
      arith,
      sum8-append 0 bytes (255 - sum8 0 bytes),
      fold8 ((sum8 0 bytes + (255 - sum8 0 bytes)) % 2 ^ 16),
    )

sum16_lt : (acc : ℕ) (bs : List ℕ) → acc < 65536 → AllBytes bs → sum16 acc bs < 65536
unfolding sum16 AllBytes
sum16_lt acc [] h all = h
sum16_lt acc (a ∷ []) h all = ground (arith, all.0, fold16 ((acc + a * 256) % 2 ^ 32))
sum16_lt acc (a ∷ b ∷ bs) h all =
    sum16_lt (fold (2 ^ 16) 2 ((acc + (a * 256 + b)) % 2 ^ 32)) bs
      (ground (arith, all.0, all.1.0, fold16 ((acc + (a * 256 + b)) % 2 ^ 32))) all.1.1

sum16-append :
    (acc : ℕ) (bs : List ℕ) (a b : ℕ)
    → length bs % 2 ≡ 0
    → sum16 acc (bs ++ a ∷ b ∷ []) ≡ fold (2 ^ 16) 2 ((sum16 acc bs + (a * 256 + b)) % 2 ^ 32)
unfolding sum16
sum16-append acc [] a b h = refl
sum16-append acc (x ∷ []) a b h = absurd (omega arith)
sum16-append acc (x ∷ y ∷ bs) a b h =
    sum16-append (fold (2 ^ 16) 2 ((acc + (x * 256 + y)) % 2 ^ 32)) bs a b (omega arith)

-- An even number of bytes followed by their 16-bit checksum, the high byte first, have the
-- checksum 0.
pub check_sum16-append :
    (bytes : List ℕ)
    → AllBytes bytes
    → length bytes % 2 ≡ 0
    → check_sum16 (bytes ++ check_sum16 bytes / 256 ∷ check_sum16 bytes % 256 ∷ []) ≡ 0
unfolding check_sum16
check_sum16-append bytes all even =
    let s : ℕ = sum16 0 bytes in
    let small : s < 65536 = sum16_lt 0 bytes (omega arith) all in
    let c : ℕ = 65535 - s % 2 ^ 16 in
    let total : (s + (c / 256 * 256 + c % 256)) % 2 ^ 32 ≡ 65535 = omega arith in
    let whole : sum16 0 (bytes ++ c / 256 ∷ c % 256 ∷ []) ≡ 65535 =
      sum16-append 0 bytes (c / 256) (c % 256) even
      ∙ ap (fold (2 ^ 16) 2) total
      ∙ fold16 65535 (omega arith) in
    omega arith
