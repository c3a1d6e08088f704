-- ===== src/Util/Serializer/Stream.antt =====
-- Values appended one after another are fetched back, from a fixed block as from a vector.
use cpp_tbox.Common.{
  ℕ, ◌+◌, ◌%◌, ◌^◌, ◌≤◌, ◌<◌, ◌≡◌, ◌≢◌, refl, sym, ap, ap₂, ◌∙◌, Bool, true, ◌&&◌, List, [], ◌∷◌,
  ◌++◌, Option, none, some, append-nil, append_assoc, leb, length, take, drop, map, length-append,
  take-append_left, drop-append_left, arith,
}
use cpp_tbox.Util.Serializer.{
  Endian, Serializer, Item, append, layout, size_of, Deserializer, reader, check_size, fetch, Shape,
  width,
}
use cpp_tbox.Util.Serializer.Bytes.{length-layout, Small, shape_of, width-shape_of, decode-layout}
use cpp_tbox.Util.Serializer.RoundTrip.{written, IsValid, Room, Appended, append_adds}

-- `<<` and `>>` for a sequence, with what the calls return.
pub append_all : List Item → Serializer → Bool × Serializer
append_all [] s = (true, s)
append_all (v ∷ vs) s =
    let (ok, s₁) = append v s in let (oks, s₂) = append_all vs s₁ in (ok && oks, s₂)

pub fetch_all : List Shape → Deserializer → List (Option Item) × Deserializer
fetch_all [] d = ([], d)
fetch_all (k ∷ ks) d = let (v, d₁) = fetch k d in let (vs, d₂) = fetch_all ks d₁ in (v ∷ vs, d₂)

unfoldable pub total : List Item → ℕ
total [] = 0
total (v ∷ vs) = size_of v + total vs

pub layouts : Endian → List Item → List ℕ
layouts e [] = []
layouts e (v ∷ vs) = layout e v ++ layouts e vs

unfoldable pub AllSmall : List Item → Type 0
AllSmall [] = Unit {0}
AllSmall (v ∷ vs) = Small v × AllSmall vs

length-layouts : (e : Endian) (vs : List Item) → length (layouts e vs) ≡ total vs
unfolding layouts total
length-layouts e [] = refl
length-layouts e (v ∷ vs) =
    omega (arith, length-append (layout e v) (layouts e vs), length-layout e v, length-layouts e vs)

Room-first : (s : Serializer) (m n : ℕ) → Room (m + n) s → Room m s
unfolding Room
Room-first s m n r = (omega (arith, r.0), λ k e. omega (arith, r.1 k e))

Room-rest :
    {v : Item} {s s' : Serializer} (n : ℕ) → Appended v s s' → Room (size_of v + n) s → Room n s'
unfolding Room
Room-rest n a r = (
  omega (arith, r.0, a.advanced),
  λ k e. omega (arith, a.advanced, r.1 k (sym a.same_target ∙ e)),
)

-- Where there is room for all of them, every call returns true, and the bytes stand in order.
append_all_lem :
    (vs : List Item) {s : Serializer}
    → IsValid s
    → Room (total vs) s
    → let (ok, s') = append_all vs s in
      (ok ≡ true) × IsValid s' × (written s' ≡ written s ++ layouts s.endian vs)
unfolding append_all total layouts
append_all_lem [] {s} v room = (refl, v, sym (append-nil (written s)))
append_all_lem (x ∷ xs) {s} v room =
    let (ok, a) = append_adds x v (Room-first s (size_of x) (total xs) room) in
    let (oks, valid, same) = append_all_lem xs a.valid (Room-rest (total xs) a room) in
    (
      ap₂ (λ p q. p && q) ok oks,
      valid,
      same
          ∙ ap₂ (λ l e. l ++ layouts e xs) a.added a.same_endian
          ∙ append_assoc (written s) (layout s.endian x) (layouts s.endian xs),
    )

-- A value that lies at the position is fetched.
pub fetch_lem :
    (v : Item) (before after : List ℕ) (d : Deserializer)
    → Small v
    → d.start ≡ before ++ (layout d.endian v ++ after)
    → d.pos ≡ length before
    → d.size ≡ length d.start
    → d.size < 2 ^ 62
    → fetch (shape_of v) d ≡ (some v, record d { pos = d.pos + size_of v })
unfolding fetch check_size
fetch_lem v before after d small at pos size bound =
    let w : width (shape_of v) ≡ size_of v = width-shape_of v in
    let count : length (layout d.endian v) ≡ size_of v = length-layout d.endian v in
    let measure : length d.start ≡ length before + (size_of v + length after) =
      ap length at
      ∙ length-append before (layout d.endian v ++ after)
      ∙ ap (λ n. length before + n)
          (length-append (layout d.endian v) after ∙ ap (λ n. n + length after) count) in
    let goes : (d.pos + width (shape_of v)) % 2 ^ 64 ≡ d.pos + size_of v = omega arith in
    let fits : leb (d.pos + size_of v) d.size ≡ true = ground arith in
    let bytes : take (width (shape_of v)) (drop d.pos d.start) ≡ layout d.endian v =
      ap (λ l. take (width (shape_of v)) (drop d.pos l)) at
      ∙ ap (take (width (shape_of v)))
          (drop-append_left d.pos before (layout d.endian v ++ after) pos)
      ∙ take-append_left (width (shape_of v)) (layout d.endian v) after (omega arith) in
    rw (goes, fits, bytes)
      (ap (λ x. (some x, record d { pos = d.pos + size_of v })) (decode-layout d.endian v small))

fetch_all_lem :
    (vs : List Item) (before : List ℕ) (d : Deserializer)
    → AllSmall vs
    → d.start ≡ before ++ layouts d.endian vs
    → d.pos ≡ length before
    → d.size ≡ length d.start
    → d.size < 2 ^ 62
    → (fetch_all (map shape_of vs) d).0 ≡ map some vs
unfolding fetch_all AllSmall layouts
fetch_all_lem [] before d small at pos size bound = refl
fetch_all_lem (v ∷ vs) before d small at pos size bound =
    let first = fetch_lem v before (layouts d.endian vs) d small.0 at pos size bound in
    let rest =
      fetch_all_lem vs (before ++ layout d.endian v) (record d { pos = d.pos + size_of v }) small.1
        (at ∙ sym (append_assoc before (layout d.endian v) (layouts d.endian vs)))
        (omega (arith, length-append before (layout d.endian v), length-layout d.endian v)) size
        bound in
    rw first (ap (λ l. some v ∷ l) rest)

-- Values that fit their types, appended to an empty serializer with room for them (over a fixed
-- block or a vector), are all accepted, and a deserializer of the same byte order over the bytes
-- written fetches the same values in order.
pub fetch_all-append_all :
    (vs : List Item) {s : Serializer}
    → IsValid s
    → s.pos ≡ 0
    → Room (total vs) s
    → AllSmall vs
    → let (ok, s') = append_all vs s in
      (ok ≡ true) × ((fetch_all (map shape_of vs) (reader (written s') s.endian)).0 ≡ map some vs)
unfolding written Room
fetch_all-append_all vs {s} v empty room small =
    let (ok, valid, same) = append_all_lem vs v room in
    let bytes : written (append_all vs s).1 ≡ layouts s.endian vs =
      same ∙ ap (λ n. take n s.store ++ layouts s.endian vs) empty in
    (
      ok,
      fetch_all_lem vs [] (reader (written (append_all vs s).1) s.endian) small bytes refl refl
          (omega (arith, ap length bytes, length-layouts s.endian vs, room.0)),
    )

-- A fetch from a position within the block, of a size that does not overflow, leaves the position
-- within the block; it fails and moves nothing exactly where fewer bytes are left.
pub fetch_bounded :
    (k : Shape) (d : Deserializer)
    → d.pos ≤ d.size
    → d.pos + width k < 2 ^ 64
    → let (v, d') = fetch k d in
      (d'.pos ≤ d'.size)
      × ((d.size < d.pos + width k → (v ≡ none) × (d' ≡ d))
          × (d.pos + width k ≤ d.size → (v ≢ none) × (d'.pos ≡ d.pos + width k)))
unfolding fetch check_size
fetch_bounded k d h small = ground arith
