-- ===== src/Terminal/KeyEventScanner/Keys.antt =====
-- Which bytes are which key. The table of keys in key_event_scanner.h is taken without its row of ESC, and with other
-- bytes for F10, F11 and F12.
use cpp_tbox.Common.{
  ℕ, ◌-◌, ◌≤◌, ◌≡◌, refl, sym, ap, ◌∙◌, Bool, true, false, not, ◌&&◌, ◌||◌, List, [], ◌∷◌, ◌++◌,
  ◌==◌, arith, append_assoc, length, subst, append-nil, inl, inr, Bool-cases,
}
use cpp_tbox.Terminal.KeyEventScanner.{
  Status, unsure, ensure, fail, Result, printable, tab, backspace, enter, alt_plus, ctrl_alt_plus,
  move_up, move_down, move_left, move_right, home, insert, delete, end, page_up, page_down, f1, f2,
  f3, f4, f5, f6, f7, f8, f9, f10, f11, f12, Step, begin, cr, c2, esc, esc_bracket, esc_bracket_1,
  esc_bracket_15, esc_bracket_17, esc_bracket_18, esc_bracket_19, esc_bracket_2, esc_bracket_20,
  esc_bracket_21, esc_bracket_23, esc_bracket_24, esc_bracket_3, esc_bracket_4, esc_bracket_5,
  esc_bracket_6, esc_o, Scanner, start, is_print, is_lower_shifted, dispatch, next, feed,
}

-- The byte sequences of each fixed key: the table of key_event_scanner.h without its row of ESC, and with
-- `1b 5b 32` in place of `1b 5b 31` at the beginning of F10, F11 and F12.
abbrev pub spelling : Result → List (List ℕ)
spelling tab = (0x09 ∷ []) ∷ []
spelling backspace = (0x7f ∷ []) ∷ (0x08 ∷ []) ∷ []
spelling enter = (0x0a ∷ []) ∷ (0x0d ∷ 0x00 ∷ []) ∷ (0x0d ∷ 0x0a ∷ []) ∷ []
spelling move_up = (0x1b ∷ 0x5b ∷ 0x41 ∷ []) ∷ []
spelling move_down = (0x1b ∷ 0x5b ∷ 0x42 ∷ []) ∷ []
spelling move_right = (0x1b ∷ 0x5b ∷ 0x43 ∷ []) ∷ []
spelling move_left = (0x1b ∷ 0x5b ∷ 0x44 ∷ []) ∷ []
spelling f1 = (0x1b ∷ 0x4f ∷ 0x50 ∷ []) ∷ []
spelling f2 = (0x1b ∷ 0x4f ∷ 0x51 ∷ []) ∷ []
spelling f3 = (0x1b ∷ 0x4f ∷ 0x52 ∷ []) ∷ []
spelling f4 = (0x1b ∷ 0x4f ∷ 0x53 ∷ []) ∷ []
spelling home = (0x1b ∷ 0x5b ∷ 0x31 ∷ 0x7e ∷ []) ∷ []
spelling insert = (0x1b ∷ 0x5b ∷ 0x32 ∷ 0x7e ∷ []) ∷ []
spelling delete = (0x1b ∷ 0x5b ∷ 0x33 ∷ 0x7e ∷ []) ∷ []
spelling end = (0x1b ∷ 0x5b ∷ 0x34 ∷ 0x7e ∷ []) ∷ []
spelling page_up = (0x1b ∷ 0x5b ∷ 0x35 ∷ 0x7e ∷ []) ∷ []
spelling page_down = (0x1b ∷ 0x5b ∷ 0x36 ∷ 0x7e ∷ []) ∷ []
spelling f5 = (0x1b ∷ 0x5b ∷ 0x31 ∷ 0x35 ∷ 0x7e ∷ []) ∷ []
spelling f6 = (0x1b ∷ 0x5b ∷ 0x31 ∷ 0x37 ∷ 0x7e ∷ []) ∷ []
spelling f7 = (0x1b ∷ 0x5b ∷ 0x31 ∷ 0x38 ∷ 0x7e ∷ []) ∷ []
spelling f8 = (0x1b ∷ 0x5b ∷ 0x31 ∷ 0x39 ∷ 0x7e ∷ []) ∷ []
spelling f9 = (0x1b ∷ 0x5b ∷ 0x32 ∷ 0x30 ∷ 0x7e ∷ []) ∷ []
spelling f10 = (0x1b ∷ 0x5b ∷ 0x32 ∷ 0x31 ∷ 0x7e ∷ []) ∷ []
spelling f11 = (0x1b ∷ 0x5b ∷ 0x32 ∷ 0x33 ∷ 0x7e ∷ []) ∷ []
spelling f12 = (0x1b ∷ 0x5b ∷ 0x32 ∷ 0x34 ∷ 0x7e ∷ []) ∷ []
spelling _ = []

abbrev same : List ℕ → List ℕ → Bool
same [] [] = true
same [] (b ∷ bs) = false
same (a ∷ as') [] = false
same (a ∷ as') (b ∷ bs) = a == b && same as' bs

abbrev one_of : List ℕ → List (List ℕ) → Bool
one_of bytes [] = false
one_of bytes (l ∷ ls) = same bytes l || one_of bytes ls

-- Whether these bytes are this key, with this value of `extra`.
abbrev pub is_key : Result → ℕ → List ℕ → Bool
is_key printable x (c ∷ []) = is_print c && x == c
is_key printable x _ = false
is_key alt_plus x (b ∷ c ∷ []) =
    b == 0x1b && is_print c && not (c == 0x5b) && not (c == 0x4f) && x == c
is_key alt_plus x _ = false
is_key ctrl_alt_plus x (b ∷ c ∷ []) = b == 0xc2 && is_lower_shifted c && x == c - 0x20
is_key ctrl_alt_plus x _ = false
is_key r x bytes = x == 0 && one_of bytes (spelling r)

-- The bytes that lead to a step.
abbrev pub bytes_to : Step → List ℕ
bytes_to begin = []
bytes_to cr = 0x0d ∷ []
bytes_to c2 = 0xc2 ∷ []
bytes_to esc = 0x1b ∷ []
bytes_to esc_bracket = 0x1b ∷ 0x5b ∷ []
bytes_to esc_o = 0x1b ∷ 0x4f ∷ []
bytes_to esc_bracket_1 = 0x1b ∷ 0x5b ∷ 0x31 ∷ []
bytes_to esc_bracket_2 = 0x1b ∷ 0x5b ∷ 0x32 ∷ []
bytes_to esc_bracket_3 = 0x1b ∷ 0x5b ∷ 0x33 ∷ []
bytes_to esc_bracket_4 = 0x1b ∷ 0x5b ∷ 0x34 ∷ []
bytes_to esc_bracket_5 = 0x1b ∷ 0x5b ∷ 0x35 ∷ []
bytes_to esc_bracket_6 = 0x1b ∷ 0x5b ∷ 0x36 ∷ []
bytes_to esc_bracket_15 = 0x1b ∷ 0x5b ∷ 0x31 ∷ 0x35 ∷ []
bytes_to esc_bracket_17 = 0x1b ∷ 0x5b ∷ 0x31 ∷ 0x37 ∷ []
bytes_to esc_bracket_18 = 0x1b ∷ 0x5b ∷ 0x31 ∷ 0x38 ∷ []
bytes_to esc_bracket_19 = 0x1b ∷ 0x5b ∷ 0x31 ∷ 0x39 ∷ []
bytes_to esc_bracket_20 = 0x1b ∷ 0x5b ∷ 0x32 ∷ 0x30 ∷ []
bytes_to esc_bracket_21 = 0x1b ∷ 0x5b ∷ 0x32 ∷ 0x31 ∷ []
bytes_to esc_bracket_23 = 0x1b ∷ 0x5b ∷ 0x32 ∷ 0x33 ∷ []
bytes_to esc_bracket_24 = 0x1b ∷ 0x5b ∷ 0x32 ∷ 0x34 ∷ []

-- A step's reply to byte `b`: a key that it ends is spelled by the bytes so far, ...
dispatch_ensure :
    (k : Step) (b : ℕ) (s : Scanner)
    → s.extra ≡ 0
    → (dispatch k b s).0 ≡ ensure
    → is_key (dispatch k b s).1.result (dispatch k b s).1.extra (bytes_to k ++ b ∷ []) ≡ true
unfolding dispatch
dispatch_ensure begin b s h e = ground arith
dispatch_ensure _ b s h e = ground arith

-- ... and the step that it waits in is the one of the bytes so far.
dispatch_unsure :
    (k : Step) (b : ℕ) (s : Scanner)
    → (dispatch k b s).0 ≡ unsure
    → (bytes_to (dispatch k b s).1.step ≡ bytes_to k ++ b ∷ [])
      × ((dispatch k b s).1.extra ≡ s.extra)
unfolding dispatch
dispatch_unsure begin b s e = ground arith
dispatch_unsure _ b s e = ground arith

-- What feeding has come to: the bytes taken spell the key, or lead to the step it waits in.
record Fed (path input : List ℕ) (out : Status × Scanner × List ℕ) : Type 0 where
  key :
      out.0 ≡ ensure
      → (bytes : List ℕ) × (path ++ input ≡ bytes ++ out.2)
        × (is_key out.1.result out.1.extra bytes ≡ true)
  waiting : out.0 ≡ unsure → (bytes_to out.1.step ≡ path ++ input) × (out.2 ≡ [])

feed-Fed : (input : List ℕ) (s : Scanner) → s.extra ≡ 0 → Fed (bytes_to s.step) input (feed s input)
unfolding feed next
feed-Fed [] s h = record {
  key = λ e. absurd (cc);
  waiting = λ e. (sym (append-nil (bytes_to s.step)), refl);
}
feed-Fed (b ∷ input) s h = by_status (dispatch s.step b s).0 refl (λ s' h'. feed-Fed input s' h')
  where
    taken : bytes_to s.step ++ b ∷ input ≡ (bytes_to s.step ++ b ∷ []) ++ input
    taken = sym (append_assoc (bytes_to s.step) (b ∷ []) input)

    by_status :
        (st : Status)
        → (dispatch s.step b s).0 ≡ st
        → ((s' : Scanner) → s'.extra ≡ 0 → Fed (bytes_to s'.step) input (feed s' input))
        → Fed (bytes_to s.step) (b ∷ input) (feed s (b ∷ input))
    by_status ensure e _ =
        rw (e, feed)
          (record {
            key = λ _. (bytes_to s.step ++ b ∷ [], taken, dispatch_ensure s.step b s h e);
            waiting = λ f. absurd (cc);
          })
    by_status fail e _ =
        rw (e, feed) (record { key = λ f. absurd (cc); waiting = λ f. absurd (cc) })
    by_status unsure e later =
        let (p, x) = dispatch_unsure s.step b s e in
        let rest = later (dispatch s.step b s).1 (x ∙ h) in
        rw (e, feed)
          (record {
            key = λ f.
                let (bytes, split, hit) = rest.key f in
                (bytes, taken ∙ ap (λ l. l ++ input) (sym p) ∙ split, hit);
            waiting = λ f.
                let (at, done) = rest.waiting f in (at ∙ ap (λ l. l ++ input) p ∙ sym taken, done);
          })

-- If a fresh scanner fed an input says kEnsure, what is left follows bytes that are the key it
-- gives: a printable character, ALT with one, c2 with a byte that CTRL and ALT give, or a fixed
-- key of the table in key_event_scanner.h without ESC, with F10, F11 and F12 as 1b 5b 32 31|33|34
-- 7e where that table has 1b 5b 31 31|33|34 7e.
pub feed_sound :
    (input : List ℕ)
    → let (status, s, rest) = feed start input in
      status ≡ ensure
      → (bytes : List ℕ) × (input ≡ bytes ++ rest) × (is_key s.result s.extra bytes ≡ true)
feed_sound input e = (feed-Fed input start refl).key e

length-bytes_to : (k : Step) → length (bytes_to k) ≤ 4
length-bytes_to begin = omega arith
length-bytes_to _ = omega arith

-- An input that leaves a fresh scanner unsure has at most four bytes, and they are those that lead
-- to the step it waits in.
pub unsure_length :
    (input : List ℕ)
    → let (status, s, rest) = feed start input in
      status ≡ unsure → (bytes_to s.step ≡ input) × (length input ≤ 4)
unsure_length input e =
    let (at, done) = (feed-Fed input start refl).waiting e in
    (at, subst (λ l. length l ≤ 4) at (length-bytes_to (feed start input).1.step))

-- What the scanner says of bytes that are one key, and of nothing more.
Scans : Result → ℕ → List ℕ → Type 0
Scans r x bytes =
    ((feed start bytes).0 ≡ ensure)
    × ((feed start bytes).1.result ≡ r)
    × ((feed start bytes).1.extra ≡ x)
    × ((feed start bytes).2 ≡ [])

AllScan : Result → List (List ℕ) → Type 0
AllScan r [] = Unit {0}
AllScan r (l ∷ ls) = Scans r 0 l × AllScan r ls

spelling-AllScan : (r : Result) → AllScan r (spelling r)
unfolding feed next AllScan Scans
spelling-AllScan tab = ((refl, refl, refl, refl), tt)
spelling-AllScan backspace = ((refl, refl, refl, refl), ((refl, refl, refl, refl), tt))
spelling-AllScan enter =
    ((refl, refl, refl, refl), ((refl, refl, refl, refl), ((refl, refl, refl, refl), tt)))
spelling-AllScan move_up = ((refl, refl, refl, refl), tt)
spelling-AllScan move_down = ((refl, refl, refl, refl), tt)
spelling-AllScan move_left = ((refl, refl, refl, refl), tt)
spelling-AllScan move_right = ((refl, refl, refl, refl), tt)
spelling-AllScan home = ((refl, refl, refl, refl), tt)
spelling-AllScan insert = ((refl, refl, refl, refl), tt)
spelling-AllScan delete = ((refl, refl, refl, refl), tt)
spelling-AllScan end = ((refl, refl, refl, refl), tt)
spelling-AllScan page_up = ((refl, refl, refl, refl), tt)
spelling-AllScan page_down = ((refl, refl, refl, refl), tt)
spelling-AllScan f1 = ((refl, refl, refl, refl), tt)
spelling-AllScan f2 = ((refl, refl, refl, refl), tt)
spelling-AllScan f3 = ((refl, refl, refl, refl), tt)
spelling-AllScan f4 = ((refl, refl, refl, refl), tt)
spelling-AllScan f5 = ((refl, refl, refl, refl), tt)
spelling-AllScan f6 = ((refl, refl, refl, refl), tt)
spelling-AllScan f7 = ((refl, refl, refl, refl), tt)
spelling-AllScan f8 = ((refl, refl, refl, refl), tt)
spelling-AllScan f9 = ((refl, refl, refl, refl), tt)
spelling-AllScan f10 = ((refl, refl, refl, refl), tt)
spelling-AllScan f11 = ((refl, refl, refl, refl), tt)
spelling-AllScan f12 = ((refl, refl, refl, refl), tt)
spelling-AllScan _ = tt

same→eq : (as' bs : List ℕ) → same as' bs ≡ true → as' ≡ bs
same→eq [] [] h = refl
same→eq [] (b ∷ bs) h = absurd (cc)
same→eq (a ∷ as') [] h = absurd (cc)
same→eq (a ∷ as') (b ∷ bs) h = ground (arith, same→eq as' bs)

one_of-Scans :
    (r : Result) (bytes : List ℕ) (ls : List (List ℕ))
    → one_of bytes ls ≡ true
    → AllScan r ls
    → Scans r 0 bytes
unfolding AllScan
one_of-Scans r bytes [] h all = absurd (cc)
one_of-Scans r bytes (l ∷ ls) h all = elim (Bool-cases (same bytes l)) [
  | inl e ↦ subst (Scans r 0) (sym (same→eq bytes l e)) all.0
  | inr e ↦ one_of-Scans r bytes ls (ground arith) all.1
]

fixed-Scans :
    (r : Result) (x : ℕ) (bytes : List ℕ)
    → (x == 0 && one_of bytes (spelling r)) ≡ true
    → Scans r x bytes
fixed-Scans r x bytes h =
    let zero_extra : x ≡ 0 = ground arith in
    rw zero_extra (one_of-Scans r bytes (spelling r) (ground arith) (spelling-AllScan r))

-- The bytes of a key, fed to a fresh scanner, give kEnsure at the last byte with that key as the
-- result and that extra byte. The fixed keys are those of the table in key_event_scanner.h without
-- ESC, with F10, F11 and F12 as 1b 5b 32 31|33|34 7e where that table has 1b 5b 31 31|33|34 7e;
-- the others are a printable character, ALT with one that is neither `[` nor `O`, and c2 with a
-- byte that CTRL and ALT give.
pub feed_complete :
    (r : Result) (x : ℕ) (bytes : List ℕ)
    → is_key r x bytes ≡ true
    → ((feed start bytes).0 ≡ ensure)
      × ((feed start bytes).1.result ≡ r)
      × ((feed start bytes).1.extra ≡ x)
      × ((feed start bytes).2 ≡ [])
unfolding Scans feed next dispatch
feed_complete printable x [] h = absurd (cc)
feed_complete printable x (c ∷ []) h = ground arith
feed_complete printable x (c ∷ d ∷ bytes) h = absurd (cc)
feed_complete alt_plus x [] h = absurd (cc)
feed_complete alt_plus x (b ∷ []) h = absurd (cc)
feed_complete alt_plus x (b ∷ c ∷ []) h = ground arith
feed_complete alt_plus x (b ∷ c ∷ d ∷ bytes) h = absurd (cc)
feed_complete ctrl_alt_plus x [] h = absurd (cc)
feed_complete ctrl_alt_plus x (b ∷ []) h = absurd (cc)
feed_complete ctrl_alt_plus x (b ∷ c ∷ []) h = ground arith
feed_complete ctrl_alt_plus x (b ∷ c ∷ d ∷ bytes) h = absurd (cc)
feed_complete r x bytes h = fixed-Scans r x bytes h
