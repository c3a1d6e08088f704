-- ===== src/Util/Buffer/Tests.antt =====
-- A buffer of eight bytes that holds three, from index 2.
use cpp_tbox.Common.{ℕ, ◌≡◌, refl, List, [], ◌∷◌, arith, length, replicate, length-replicate}
use cpp_tbox.Util.Buffer.{Buffer, contents}
use cpp_tbox.Util.Buffer.Laws.{IsValid}
use cpp_tbox.Util.Buffer.Run.{Call, appends, fetches, reads, shrinks, run, queue_run, run_refines}

-- New memory is full of nines.
abbrev nines : ℕ → List ℕ
nines n = replicate n 9

length-nines : (n : ℕ) → length (nines n) ≡ n
length-nines n = length-replicate n 9

abbrev three : Buffer
three = record {
  store = 9 ∷ 9 ∷ 1 ∷ 2 ∷ 3 ∷ 9 ∷ 9 ∷ 9 ∷ [];
  size = 8;
  read_index = 2;
  write_index = 5;
}

three-IsValid : IsValid three
three-IsValid = record {
  sized = refl;
  written = omega arith;
  ordered = omega arith;
  small = omega arith;
}

abbrev calls : List Call
calls = appends (4 ∷ 5 ∷ 6 ∷ 7 ∷ []) ∷ fetches 2 ∷ reads 1 ∷ shrinks ∷ fetches 10 ∷ []

run_refines_example :
    let (outs, b') = run nines calls three in
    IsValid b' × ((outs, contents b') ≡ queue_run calls (1 ∷ 2 ∷ 3 ∷ []))
run_refines_example =
    run_refines nines length-nines calls three-IsValid (omega arith, (omega arith, tt))
