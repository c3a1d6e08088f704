-- ===== src/Jsonrpc/HeaderStream/Tests.antt =====
-- Messages of one number, whose text is the number's bytes.
use cpp_tbox.Common.{
  ℕ, ◌<◌, ◌≡◌, refl, ap, Option, none, some, List, [], ◌∷◌, ◌++◌, length, take, arith,
}
use cpp_tbox.Jsonrpc.HeaderStream.{JsonLib, need_more, taken, null_text, send_json, on_recv_data}
use cpp_tbox.Jsonrpc.HeaderStream.Frames.{
  frame, length-frame, send_json-frame, on_recv_data-send_json, on_recv_data-take,
  on_recv_data-wrap,
}

-- The text of a number is a letter and itself.
abbrev print_number : ℕ → List ℕ
print_number n = b'n' ∷ n ∷ []

abbrev read_number : List ℕ → Option ℕ
read_number (l ∷ n ∷ []) = some n
read_number _ = none

abbrev numbers : JsonLib
numbers = record { Json = ℕ; dump = print_number; parse = read_number }

on_recv_data-send_json_example :
    on_recv_data numbers 0x1234 (send_json numbers 0x1234 7 ++ 0x12 ∷ 0x34 ∷ [])
    ≡ taken (length (send_json numbers 0x1234 7)) 7
on_recv_data-send_json_example =
    on_recv_data-send_json numbers 0x1234 7 (0x12 ∷ 0x34 ∷ []) (omega arith) (omega arith)
      (omega arith) refl

sent_length : 7 < length (send_json numbers 0x1234 7)
sent_length = omega (
  arith,
  ap length (send_json-frame numbers 0x1234 7 (omega arith)),
  length-frame 0x1234 2 (print_number 7),
)

on_recv_data-take_example :
    on_recv_data numbers 0x1234 (take 7 (send_json numbers 0x1234 7)) ≡ need_more
on_recv_data-take_example =
    on_recv_data-take numbers 0x1234 7 7 (omega arith) (omega arith) sent_length

on_recv_data-wrap_example :
    on_recv_data numbers 0x1234 (frame 0x1234 0xffff_fffc (1 ∷ 2 ∷ [])) ≡ null_text
on_recv_data-wrap_example =
    on_recv_data-wrap numbers 0x1234 0xffff_fffc (1 ∷ 2 ∷ []) (omega arith) (omega arith)
      (omega arith) (omega arith)
