-- ===== src/Jsonrpc/HeaderStream/Frames.antt =====
-- modules/jsonrpc/protos/header_stream_proto.cpp: what was sent is received, and what is not there is waited for.
use cpp_tbox.Common.{
  ℕ, zero, suc, ◌+◌, ◌-◌, ◌%◌, ◌^◌, ◌≤◌, ◌<◌, ◌≡◌, refl, sym, ap, ap₂, ◌∙◌, ◌⊎◌, inl, inr,
  Bool-cases, ltb→lt, lt→ltb, min, Bool, true, false, none, some, List, [], ◌∷◌, ◌++◌, append_assoc,
  ltb, leb, ◌==◌, not, if◌then◌else◌, length, take, drop, length-append, length-take,
  take-append_left, drop-append_left, arith,
}
use cpp_tbox.Util.Serializer.{
  big, u16, u32, bytes, a16, a32, Serializer, on_vector, append, reader, fetch, fetch_no_copy,
  check_size, layout, size_of,
}
use cpp_tbox.Util.Serializer.Bytes.{length-layout, Small, shape_of}
use cpp_tbox.Util.Serializer.Stream.{fetch_lem}
use cpp_tbox.Util.Serializer.Vector.{append-vector}
use cpp_tbox.Jsonrpc.HeaderStream.{
  JsonLib, head_size, need_more, head_mismatch, parse_fail, taken, null_text, send_json, take_text,
  parse_text, on_recv_data,
}

-- The bytes of a message: the code, the size and the text.
abbrev pub frame : ℕ → ℕ → List ℕ → List ℕ
frame code size rest = layout big (u16 code) ++ (layout big (u32 size) ++ rest)

pub length-frame : (code size : ℕ) (rest : List ℕ) → length (frame code size rest) ≡ 6 + length rest
unfolding size_of
length-frame code size rest = omega (
  arith,
  length-append (layout big (u16 code)) (layout big (u32 size) ++ rest),
  length-append (layout big (u32 size)) rest,
  length-layout big (u16 code),
  length-layout big (u32 size),
)

take-append_right :
    (n k : ℕ) (xs ys : List ℕ) → n ≡ length xs + k → take n (xs ++ ys) ≡ xs ++ take k ys
take-append_right n k [] ys h = ap (λ i. take i ys) (let e : n ≡ k = omega arith in e)
take-append_right zero k (x ∷ xs) ys h = absurd (omega arith)
take-append_right (suc n) k (x ∷ xs) ys h =
    ap (λ l. x ∷ l) (take-append_right n k xs ys (omega arith))

take-frame : (k c m : ℕ) (rest : List ℕ) → take (6 + k) (frame c m rest) ≡ frame c m (take k rest)
unfolding size_of
take-frame k c m rest =
    take-append_right (6 + k) (4 + k) (layout big (u16 c)) (layout big (u32 m) ++ rest)
      (omega (arith, length-layout big (u16 c)))
    ∙ ap (λ l. layout big (u16 c) ++ l)
        (take-append_right (4 + k) k (layout big (u32 m)) rest
          (omega (arith, length-layout big (u32 m))))

-- fetchNoCopy behind the header.
fetch_no_copy-fits :
    (m : ℕ) (f : List ℕ)
    → 6 + m ≤ length f
    → length f < 2 ^ 62
    → fetch_no_copy m (record (reader f big) { pos = 6 })
      ≡ (some 6, record (reader f big) { pos = 6 + m })
unfolding fetch_no_copy check_size
fetch_no_copy-fits m f h hf =
    let w : (6 + m) % 2 ^ 64 ≡ 6 + m = omega arith in
    let e : leb (6 + m) (length f) ≡ true = ground arith in rw (w, e)

fetch_no_copy-short :
    (m : ℕ) (f : List ℕ)
    → length f < 6 + m
    → m < 2 ^ 32
    → fetch_no_copy m (record (reader f big) { pos = 6 })
      ≡ (none, record (reader f big) { pos = 6 })
unfolding fetch_no_copy check_size
fetch_no_copy-short m f h hm =
    let w : (6 + m) % 2 ^ 64 ≡ 6 + m = omega arith in
    let e : leb (6 + m) (length f) ≡ false = ground arith in rw (w, e)

module _ (lib : JsonLib) where
  open lib use {Json, dump, parse}

  pub send_json-frame :
      (code : ℕ) (js : Json)
      → length (dump js) < 2 ^ 32
      → send_json lib code js ≡ frame code (length (dump js)) (dump js)
  unfolding send_json size_of layout
  send_json-frame code js h =
      let n = length (dump js) in
      let l₁ : List ℕ = layout big (u16 code) in
      let l₂ : List ℕ = l₁ ++ layout big (u32 n) in
      let c₁ : length l₁ ≡ 2 = length-layout big (u16 code) in
      let c₂ : length l₂ ≡ 6 =
        omega (arith, length-append l₁ (layout big (u32 n)), c₁, length-layout big (u32 n)) in
      let w : n % 2 ^ 32 ≡ n = omega arith in
      let last : Serializer → List ℕ = λ s. (append (bytes (dump js)) s).1.store in
      ap (λ (r : Bool × Serializer). last (append (u32 (n % 2 ^ 32)) r.1).1)
        (append-vector (u16 code) [] big (omega arith))
      ∙ ap (λ k. last (append (u32 k) (record (on_vector l₁ big) { pos = length l₁ })).1) w
      ∙ ap (λ (r : Bool × Serializer). last r.1) (append-vector (u32 n) l₁ big (omega arith))
      ∙ ap (λ (r : Bool × Serializer). r.1.store)
          (append-vector (bytes (dump js)) l₂ big (omega arith))
      ∙ append_assoc l₁ (layout big (u32 n)) (dump js)

  -- After the header has been read.
  recv-frame :
      (code c m : ℕ) (rest : List ℕ)
      → c < 2 ^ 16
      → m < 2 ^ 32
      → length rest < 2 ^ 61
      → on_recv_data lib code (frame c m rest) ≡ (
          if not (c == code)
          then head_mismatch
          else if ltb (6 + length rest) ((m + 6) % 2 ^ 32)
          then need_more
          else take_text lib m (frame c m rest) (record (reader (frame c m rest) big) { pos = 6 }))
  unfolding on_recv_data shape_of size_of Small
  recv-frame code c m rest hc hm hr =
      let f = frame c m rest in
      let size : length f ≡ 6 + length rest = length-frame c m rest in
      let f₁ : fetch a16 (reader f big) ≡ (some (u16 c), record (reader f big) { pos = 2 }) =
        fetch_lem (u16 c) [] (layout big (u32 m) ++ rest) (reader f big) hc refl refl refl
          (omega arith) in
      let f₂ : fetch a32 (record (reader f big) { pos = 2 })
          ≡ (some (u32 m), record (reader f big) { pos = 6 }) =
        fetch_lem (u32 m) (layout big (u16 c)) rest (record (reader f big) { pos = 2 }) hm refl
          (sym (length-layout big (u16 c))) refl (omega arith) in
      let e : ltb (length f) head_size ≡ false = ground arith in rw (f₁, f₂, e, size)

  take_text-lem :
      (c m : ℕ) (rest : List ℕ)
      → m ≤ length rest
      → length rest < 2 ^ 61
      → take_text lib m (frame c m rest) (record (reader (frame c m rest) big) { pos = 6 })
        ≡ elim (parse (take m rest)) [ none ↦ parse_fail | some js ↦ taken (6 + m) js ]
  unfolding take_text size_of
  take_text-lem c m rest h hr =
      let f = frame c m rest in
      let size : length f ≡ 6 + length rest = length-frame c m rest in
      let l : layout big (u16 c) ++ (layout big (u32 m) ++ rest)
          ≡ (layout big (u16 c) ++ layout big (u32 m)) ++ rest =
        sym (append_assoc (layout big (u16 c)) (layout big (u32 m)) rest) in
      let d : drop 6 f ≡ rest =
        ap (drop 6) l
        ∙ drop-append_left 6 (layout big (u16 c) ++ layout big (u32 m)) rest (
            omega (
              arith,
              length-append (layout big (u16 c)) (layout big (u32 m)),
              length-layout big (u16 c),
              length-layout big (u32 m),
            )) in
      ap (parse_text lib m f) (fetch_no_copy-fits m f (omega arith) (omega arith))
      ∙ rw (d, parse_text)

  -- A message that sendJson wrote, with a text shorter than 2^32 - 6 bytes that the JSON library
  -- reads as the value sent, is taken by onRecvData of the same header code whatever bytes follow:
  -- the value is handed on, and the number of bytes is that of the message.
  pub on_recv_data-send_json :
      (code : ℕ) (js : Json) (after : List ℕ)
      → code < 2 ^ 16
      → length (dump js) < 2 ^ 32 - 6
      → length after < 2 ^ 60
      → parse (dump js) ≡ some js
      → on_recv_data lib code (send_json lib code js ++ after)
        ≡ taken (length (send_json lib code js)) js
  on_recv_data-send_json code js after hc hl ha hp =
      let t : List ℕ = dump js in
      let n = length t in
      let sent : send_json lib code js ≡ frame code n t = send_json-frame code js (omega arith) in
      let whole : send_json lib code js ++ after ≡ frame code n (t ++ after) =
        ap (λ l. l ++ after) sent
        ∙ append_assoc (layout big (u16 code)) (layout big (u32 n) ++ t) after
        ∙ ap (λ l. layout big (u16 code) ++ l) (append_assoc (layout big (u32 n)) t after) in
      let size : length (t ++ after) ≡ n + length after = length-append t after in
      let got = recv-frame code code n (t ++ after) hc (omega arith) (omega arith) in
      let e₁ : (code == code) ≡ true = ground arith in
      let w : (n + 6) % 2 ^ 32 ≡ n + 6 = omega arith in
      let e₂ : ltb (6 + length (t ++ after)) (n + 6) ≡ false = ground arith in
      let p : parse (take n (t ++ after)) ≡ some js =
        ap parse (take-append_left n t after refl) ∙ hp in
      ap (on_recv_data lib code) whole
      ∙ got
      ∙ (rw (e₁, w, e₂)
          (take_text-lem code n (t ++ after) (omega arith) (omega arith)
            ∙ rw p (ap (λ k. taken k js) (sym (ap length sent ∙ length-frame code n t)))))

  too_short : (code : ℕ) (l : List ℕ) → length l < 6 → on_recv_data lib code l ≡ need_more
  unfolding on_recv_data
  too_short code l h = let e : ltb (length l) head_size ≡ true = ground arith in rw e

  -- Of a message that sendJson wrote, with a text shorter than 2^32 - 6 bytes, every part from its
  -- beginning that is not the whole makes onRecvData wait for more.
  pub on_recv_data-take :
      (code : ℕ) (js : Json) (n : ℕ)
      → code < 2 ^ 16
      → length (dump js) < 2 ^ 32 - 6
      → n < length (send_json lib code js)
      → on_recv_data lib code (take n (send_json lib code js)) ≡ need_more
  on_recv_data-take code js n hc hl hn = go (Bool-cases (ltb n 6))
    where
      t : List ℕ
      t = dump js

      sent : send_json lib code js ≡ frame code (length t) t
      sent = send_json-frame code js (omega arith)

      size : length (send_json lib code js) ≡ 6 + length t
      size = ap length sent ∙ length-frame code (length t) t

      short : length (take (n - 6) t) ≡ min (n - 6) (length t)
      short = length-take (n - 6) t

      go :
          ((ltb n 6 ≡ true) ⊎ (ltb n 6 ≡ false))
          → on_recv_data lib code (take n (send_json lib code js)) ≡ need_more
      go (inl b) =
          too_short code (take n (send_json lib code js))
            (omega (arith, length-take n (send_json lib code js), ltb→lt n 6 b))
      go (inr b) =
          let split : n ≡ 6 + (n - 6) = ground arith in
          let e₁ : (code == code) ≡ true = ground arith in
          let w : (length t + 6) % 2 ^ 32 ≡ length t + 6 = omega arith in
          let s : 6 + length (take (n - 6) t) < length t + 6 = omega (arith, short, size) in
          let e₂ : ltb (6 + length (take (n - 6) t)) (length t + 6) ≡ true = lt→ltb _ _ s in
          ap₂ (λ i l. on_recv_data lib code (take i l)) split sent
          ∙ ap (on_recv_data lib code) (take-frame (n - 6) code (length t) t)
          ∙ recv-frame code code (length t) (take (n - 6) t) hc (omega arith) (omega (arith, s))
          ∙ rw (e₁, w, e₂)

  -- A header with the right code and a size of 2^32 - 6 or more, with fewer bytes behind it than
  -- it says, is not waited for: the sum with the header's size wraps, and a string is made of the
  -- null pointer that fetchNoCopy returns.
  pub on_recv_data-wrap :
      (code m : ℕ) (rest : List ℕ)
      → code < 2 ^ 16
      → 2 ^ 32 - 6 ≤ m
      → m < 2 ^ 32
      → length rest < m
      → on_recv_data lib code (frame code m rest) ≡ null_text
  unfolding take_text
  on_recv_data-wrap code m rest hc hm hm' hr =
      let f = frame code m rest in
      let size : length f ≡ 6 + length rest = length-frame code m rest in
      let e₁ : (code == code) ≡ true = ground arith in
      let w : (m + 6) % 2 ^ 32 ≡ m + 6 - 2 ^ 32 = omega arith in
      let e₂ : ltb (6 + length rest) (m + 6 - 2 ^ 32) ≡ false = ground arith in
      recv-frame code code m rest hc hm' (omega arith)
      ∙ rw (e₁, w, e₂) (ap (parse_text lib m f) (fetch_no_copy-short m f (omega arith) hm'))
