-- ===== src/Jsonrpc/HeaderStream.antt =====
-- modules/jsonrpc/protos/header_stream_proto.cpp: a JSON text behind a header of six bytes, the code of the
-- protocol and the size of the text, written and read by the serializer of Util/Serializer.antt.
-- The JSON library is a parameter: what it prints, and what it makes of a text (none where parse throws).
pub mod Frames
mod Tests
use cpp_tbox.Common.{
  ℕ, ◌+◌, ◌-◌, ◌%◌, ◌^◌, ◌≡◌, Bool, true, false, Option, none, some, List, [], ◌∷◌, ltb, ◌==◌, not,
  if◌then◌else◌, length, take, drop,
}
use cpp_tbox.Util.Serializer.{
  big, u16, u32, bytes, Item, a16, a32, Serializer, on_vector, append, Deserializer, reader, fetch,
  fetch_no_copy,
}

pub record JsonLib : Type 1 where
  pub Json : Type 0
  pub dump : Json → List ℕ
  pub parse : List ℕ → Option Json

abbrev pub head_size : ℕ
head_size = 6

-- What onRecvData comes to: it returns 0, -2 or -1, hands a value on and returns the position, or makes a string
-- of a null pointer, which throws or reads from it.
pub data Received (J : Type 0) : Type 0 where
  need_more : Received J
  head_mismatch : Received J
  parse_fail : Received J
  taken : ℕ → J → Received J
  null_text : Received J

-- The number in an item that was fetched; the variables start as 0.
abbrev pub number : Option Item → ℕ
number (some (u16 v)) = v
number (some (u32 v)) = v
number _ = 0

module _ (lib : JsonLib) where
  open lib use {Json, dump, parse}

  -- The bytes that sendJson hands to its callback.
  pub send_json : ℕ → Json → List ℕ
  send_json header_code js =
      let text = dump js in
      let (_, s₁) = append (u16 header_code) (on_vector [] big) in
      let (_, s₂) = append (u32 (length text % 2 ^ 32)) s₁ in
      let (_, s₃) = append (bytes text) s₂ in s₃.store

  -- With the pointer that fetchNoCopy returned.
  parse_text : ℕ → List ℕ → Option ℕ × Deserializer → Received Json
  parse_text content_size data_ptr (none, d) = null_text
  parse_text content_size data_ptr (some p, d) =
      elim (parse (take content_size (drop p data_ptr))) [
        | none ↦ parse_fail
        | some js ↦ taken d.pos js
      ]

  -- From the header on.
  take_text : ℕ → List ℕ → Deserializer → Received Json
  unfolding parse_text
  take_text content_size data_ptr d =
      parse_text content_size data_ptr (fetch_no_copy content_size d)

  -- `content_size + kHeadSize` has 32 bits.
  pub on_recv_data : ℕ → List ℕ → Received Json
  unfolding take_text
  on_recv_data header_code data_ptr =
      let data_size = length data_ptr in
      let (magic, d₁) = fetch a16 (reader data_ptr big) in
      let (size, d₂) = fetch a32 d₁ in
      if ltb data_size head_size
      then need_more
      else if not (number magic == header_code)
      then head_mismatch
      else if ltb data_size ((number size + head_size) % 2 ^ 32)
      then need_more
      else take_text (number size) data_ptr d₂
