-- ===== src/Terminal/KeyEventScanner.antt =====
-- modules/terminal/impl/key_event_scanner.cpp and key_event_scanner.h: the keys of a terminal,
-- recognised from their bytes. `isprint` and `islower` are those of the C locale; a byte below 0x20
-- after 0xc2 gives `islower` a negative number, which is taken to be no lower-case letter.
mod Tests
pub mod Keys
use cpp_tbox.Common.{
  ℕ, ◌+◌, ◌-◌, Bool, true, false, ◌&&◌, ◌||◌, List, [], ◌∷◌, ltb, leb, ◌==◌, if◌then◌else◌,
}

pub data Status : Type 0 where
  unsure ensure fail : Status

pub data Result : Type 0 where
  nothing printable tab backspace escape enter alt_plus ctrl_alt_plus : Result
  move_up move_down move_left move_right home insert delete end page_up page_down : Result
  f1 f2 f3 f4 f5 f6 f7 f8 f9 f10 f11 f12 : Result

-- The steps are named after the bytes that lead to them: `esc_bracket_15` is `k1b5b3135`.
pub data Step : Type 0 where
  begin cr c2 esc esc_bracket : Step
  esc_bracket_1 esc_bracket_15 esc_bracket_17 esc_bracket_18 esc_bracket_19 : Step
  esc_bracket_2 esc_bracket_20 esc_bracket_21 esc_bracket_23 esc_bracket_24 : Step
  esc_bracket_3 esc_bracket_4 esc_bracket_5 esc_bracket_6 esc_o : Step

pub record Scanner : Type 0 where
  pub result : Result
  pub extra : ℕ
  pub step : Step

abbrev pub start : Scanner
start = record { result = nothing; extra = 0; step = begin }

abbrev pub is_print : ℕ → Bool
is_print c = leb 0x20 c && leb c 0x7e

-- `::islower(byte - 0x20)`
abbrev pub is_lower_shifted : ℕ → Bool
is_lower_shifted byte = leb 0x81 byte && leb byte 0x9a

abbrev found : Result → Scanner → Status × Scanner
found r s = (ensure, record s { result = r })

abbrev found_with : Result → ℕ → Scanner → Status × Scanner
found_with r x s = (ensure, record s { result = r; extra = x })

abbrev await : Step → Scanner → Status × Scanner
await k s = (unsure, record s { step = k })

-- The end of `next`, which every branch that does not return falls through to.
abbrev failed : Scanner → Status × Scanner
failed s = (fail, record s { step = begin })

dispatch : Step → ℕ → Scanner → Status × Scanner
dispatch begin byte s =
    if byte == 0x09
    then found tab s
    else if byte == 0x7f || byte == 0x08
    then found backspace s
    else if byte == 0x0d
    then await cr s
    else if byte == 0x0a
    then found enter s
    else if byte == 0x1b
    then await esc s
    else if byte == 0xc2
    then await c2 s
    else if is_print byte
    then found_with printable byte s
    else failed s
dispatch cr byte s = if byte == 0x00 || byte == 0x0a then found enter s else failed s
dispatch c2 byte s =
    if is_lower_shifted byte then found_with ctrl_alt_plus (byte - 0x20) s else failed s
dispatch esc byte s =
    if byte == 0x5b
    then await esc_bracket s
    else if byte == 0x4f
    then await esc_o s
    else if is_print byte
    then found_with alt_plus byte s
    else failed s
dispatch esc_bracket byte s =
    if byte == 0x41
    then found move_up s
    else if byte == 0x42
    then found move_down s
    else if byte == 0x43
    then found move_right s
    else if byte == 0x44
    then found move_left s
    else if byte == 0x31
    then await esc_bracket_1 s
    else if byte == 0x32
    then await esc_bracket_2 s
    else if byte == 0x33
    then await esc_bracket_3 s
    else if byte == 0x34
    then await esc_bracket_4 s
    else if byte == 0x35
    then await esc_bracket_5 s
    else if byte == 0x36
    then await esc_bracket_6 s
    else failed s
dispatch esc_o byte s =
    if leb 0x50 byte && leb byte 0x53
    then (if byte == 0x50
        then found f1 s
        else if byte == 0x51
        then found f2 s
        else if byte == 0x52
        then found f3 s
        else found f4 s)
    else failed s
dispatch esc_bracket_1 byte s =
    if byte == 0x7e
    then found home s
    else if byte == 0x35
    then await esc_bracket_15 s
    else if byte == 0x37
    then await esc_bracket_17 s
    else if byte == 0x38
    then await esc_bracket_18 s
    else if byte == 0x39
    then await esc_bracket_19 s
    else failed s
dispatch esc_bracket_2 byte s =
    if byte == 0x7e
    then found insert s
    else if byte == 0x30
    then await esc_bracket_20 s
    else if byte == 0x31
    then await esc_bracket_21 s
    else if byte == 0x33
    then await esc_bracket_23 s
    else if byte == 0x34
    then await esc_bracket_24 s
    else failed s
dispatch esc_bracket_3 byte s = if byte == 0x7e then found delete s else failed s
dispatch esc_bracket_4 byte s = if byte == 0x7e then found end s else failed s
dispatch esc_bracket_5 byte s = if byte == 0x7e then found page_up s else failed s
dispatch esc_bracket_6 byte s = if byte == 0x7e then found page_down s else failed s
dispatch esc_bracket_15 byte s = if byte == 0x7e then found f5 s else failed s
dispatch esc_bracket_17 byte s = if byte == 0x7e then found f6 s else failed s
dispatch esc_bracket_18 byte s = if byte == 0x7e then found f7 s else failed s
dispatch esc_bracket_19 byte s = if byte == 0x7e then found f8 s else failed s
dispatch esc_bracket_20 byte s = if byte == 0x7e then found f9 s else failed s
dispatch esc_bracket_21 byte s = if byte == 0x7e then found f10 s else failed s
dispatch esc_bracket_23 byte s = if byte == 0x7e then found f11 s else failed s
dispatch esc_bracket_24 byte s = if byte == 0x7e then found f12 s else failed s

unfoldable pub next : Scanner → ℕ → Status × Scanner
unfolding dispatch
next s byte = dispatch s.step byte s

unfoldable pub stop : Scanner → Status × Scanner
stop s = elim s.step [
  | esc ↦ (ensure, record s { result = escape })
  | cr ↦ (ensure, record s { result = enter })
  | _ ↦ failed s
]

-- A user's loop: bytes are fed while the scanner is unsure; what is left is returned too.
pub feed : Scanner → List ℕ → Status × Scanner × List ℕ
feed s [] = (unsure, s, [])
feed s (byte ∷ bytes) =
    let r = next s byte in
    elim r.0 [ unsure ↦ feed r.1 bytes | ensure ↦ (ensure, r.1, bytes) | fail ↦ (fail, r.1, bytes) ]
