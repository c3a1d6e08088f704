-- ===== src/Util/Serializer/Bytes.antt =====
-- Byte order: what is written in an order is read back in it.
use native.Mathlib.Nat.{pow-suc, mod-eq_of_lt}
use cpp_tbox.Common.{
  ℕ, zero, suc, ◌+◌, ◌*◌, ◌/◌, ◌%◌, ◌^◌, ◌<◌, ◌≡◌, refl, sym, ap, ◌∙◌, List, [], ◌∷◌, ◌++◌, length,
  length-append, arith,
}
use cpp_tbox.Util.Serializer.{
  Endian, big, little, Item, u8, u16, u32, u64, bytes, pod, Shape, a8, a16, a32, a64, some_bytes,
  a_pod, low_bytes, backward, in_order, descending, layout, size_of, width, join, decode,
}

length-backward : (l : List ℕ) → length (backward l) ≡ length l
unfolding backward
length-backward [] = refl
length-backward (x ∷ xs) = omega (arith, length-append (backward xs) (x ∷ []), length-backward xs)

length-low_bytes : (n v : ℕ) → length (low_bytes n v) ≡ n
unfolding low_bytes
length-low_bytes zero v = refl
length-low_bytes (suc n) v = ap suc (length-low_bytes n (v / 2 ^ 8))

backward-append : (l : List ℕ) (x : ℕ) → backward (l ++ x ∷ []) ≡ x ∷ backward l
unfolding backward
backward-append [] x = refl
backward-append (y ∷ ys) x = rw (backward-append ys x)

backward-backward : (l : List ℕ) → backward (backward l) ≡ l
unfolding backward
backward-backward [] = refl
backward-backward (x ∷ xs) =
    backward-append (backward xs) x ∙ ap (λ r. x ∷ r) (backward-backward xs)

in_order-in_order : (e : Endian) (l : List ℕ) → in_order e (in_order e l) ≡ l
unfolding in_order
in_order-in_order big l = backward-backward l
in_order-in_order little l = refl

descending-in_order : (e : Endian) (l : List ℕ) → descending e (in_order e l) ≡ backward l
unfolding in_order descending
descending-in_order big l = refl
descending-in_order little l = refl

length-in_order : (e : Endian) (l : List ℕ) → length (in_order e l) ≡ length l
unfolding in_order
length-in_order big l = length-backward l
length-in_order little l = refl

pub length-layout : (e : Endian) (v : Item) → length (layout e v) ≡ size_of v
unfolding layout size_of
length-layout e (u8 v) = refl
length-layout e (u16 v) = length-in_order e (low_bytes 2 v) ∙ length-low_bytes 2 v
length-layout e (u32 v) = length-in_order e (low_bytes 4 v) ∙ length-low_bytes 4 v
length-layout e (u64 v) = length-in_order e (low_bytes 8 v) ∙ length-low_bytes 8 v
length-layout e (bytes l) = refl
length-layout e (pod l) = length-in_order e l

join-append :
    (w out : ℕ) (l : List ℕ) (b : ℕ) → join w out (l ++ b ∷ []) ≡ join w out l * 2 ^ 8 % 2 ^ w + b
unfolding join
join-append w out [] b = refl
join-append w out (x ∷ xs) b = join-append w (out * 2 ^ 8 % 2 ^ w + x) xs b

join-low_bytes :
    (w n v m : ℕ) → m ≡ 2 ^ w → v < m → v < (2 ^ 8) ^ n → join w 0 (backward (low_bytes n v)) ≡ v
unfolding backward low_bytes join
join-low_bytes w zero v m e h k = omega arith
join-low_bytes w (suc n) v m e h k =
    let rest : join w 0 (backward (low_bytes n (v / 2 ^ 8))) ≡ v / 2 ^ 8 =
      join-low_bytes w n (v / 2 ^ 8) m e (omega arith) (omega (arith, pow-suc (2 ^ 8) n)) in
    join-append w 0 (backward (low_bytes n (v / 2 ^ 8))) (v % 2 ^ 8) ∙ rw (rest, sym e) (value)
  where
    value : v / 2 ^ 8 * 2 ^ 8 % m + v % 2 ^ 8 ≡ v
    value = omega (arith, mod-eq_of_lt {n = v / 2 ^ 8 * 2 ^ 8} {m = m} (omega arith))

-- The number fits its C++ type.
unfoldable pub Small : Item → Type 0
Small (u8 v) = v < 2 ^ 8
Small (u16 v) = v < 2 ^ 16
Small (u32 v) = v < 2 ^ 32
Small (u64 v) = v < 2 ^ 64
Small (bytes l) = length l < 2 ^ 62
Small (pod l) = length l < 2 ^ 62

unfoldable pub shape_of : Item → Shape
shape_of (u8 v) = a8
shape_of (u16 v) = a16
shape_of (u32 v) = a32
shape_of (u64 v) = a64
shape_of (bytes l) = some_bytes (length l)
shape_of (pod l) = a_pod (length l)

pub width-shape_of : (v : Item) → width (shape_of v) ≡ size_of v
unfolding width shape_of size_of
width-shape_of (u8 v) = refl
width-shape_of (u16 v) = refl
width-shape_of (u32 v) = refl
width-shape_of (u64 v) = refl
width-shape_of (bytes l) = refl
width-shape_of (pod l) = refl

-- The bytes of a value, in either byte order, are read as this value.
pub decode-layout : (e : Endian) (v : Item) → Small v → decode e (shape_of v) (layout e v) ≡ v
unfolding decode layout shape_of Small
decode-layout e (u8 v) h = refl
decode-layout e (u16 v) h =
    ap (λ l. u16 (join 16 0 l)) (descending-in_order e (low_bytes 2 v))
    ∙ ap u16 (join-low_bytes 16 2 v (2 ^ 16) refl h h)
decode-layout e (u32 v) h =
    ap (λ l. u32 (join 32 0 l)) (descending-in_order e (low_bytes 4 v))
    ∙ ap u32 (join-low_bytes 32 4 v (2 ^ 32) refl h h)
decode-layout e (u64 v) h =
    ap (λ l. u64 (join 64 0 l)) (descending-in_order e (low_bytes 8 v))
    ∙ ap u64 (join-low_bytes 64 8 v (2 ^ 64) refl h h)
decode-layout e (bytes l) h = refl
decode-layout e (pod l) h = ap pod (in_order-in_order e l)
