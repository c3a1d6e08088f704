-- ===== src/Util/Buffer/Run.antt =====
-- Sequences of calls on a buffer against the same calls on a list of bytes.
use cpp_tbox.Common.{
  ℕ, ◌+◌, ◌*◌, ◌^◌, ◌≤◌, ◌<◌, ◌≡◌, refl, ap, ◌∙◌, List, [], ◌∷◌, ◌++◌, length, take, drop, arith,
}
use cpp_tbox.Util.Buffer.{Buffer, contents, has_read, fetch, append, shrink}
use cpp_tbox.Util.Buffer.Laws.{IsValid}
use cpp_tbox.Util.Buffer.Refine.{has_read_lem, fetch_lem, append_lem, shrink_lem}

-- A client's calls.
pub data Call : Type 0 where
  appends : List ℕ → Call
  fetches : ℕ → Call
  reads : ℕ → Call
  shrinks : Call

module _ (fresh : ℕ → List ℕ) where
  -- The calls in order, with the bytes that the fetches return.
  pub run : List Call → Buffer → List (List ℕ) × Buffer
  run [] b = ([], b)
  run (appends bytes ∷ calls) b = run calls (append fresh bytes b).1
  run (fetches n ∷ calls) b =
      let (out, b₁) = fetch n b in let (outs, b₂) = run calls b₁ in (out ∷ outs, b₂)
  run (reads n ∷ calls) b = run calls (has_read n b)
  run (shrinks ∷ calls) b = run calls (shrink fresh b)

-- The same calls on a plain list of bytes.
pub queue_run : List Call → List ℕ → List (List ℕ) × List ℕ
queue_run [] q = ([], q)
queue_run (appends bytes ∷ calls) q = queue_run calls (q ++ bytes)
queue_run (fetches n ∷ calls) q =
    let (outs, q') = queue_run calls (drop n q) in (take n q ∷ outs, q')
queue_run (reads n ∷ calls) q = queue_run calls (drop n q)
queue_run (shrinks ∷ calls) q = queue_run calls q

-- The calls keep the indices below what `size_t` can double, from a write index of at most `w`.
abbrev pub Fits : List Call → ℕ → Type 0
Fits [] w = Unit {0}
Fits (appends bytes ∷ calls) w = ((w + length bytes) * 2 < 2 ^ 63) × Fits calls (w + length bytes)
Fits (fetches n ∷ calls) w = Fits calls w
Fits (reads n ∷ calls) w = (n < 2 ^ 63) × Fits calls w
Fits (shrinks ∷ calls) w = Fits calls w

module _ (fresh : ℕ → List ℕ) (allocates : (n : ℕ) → length (fresh n) ≡ n) where
  run_from :
      (calls : List Call) (w : ℕ) {b : Buffer}
      → IsValid b
      → b.write_index ≤ w
      → Fits calls w
      → let (outs, b') = run fresh calls b in
        IsValid b' × ((outs, contents b') ≡ queue_run calls (contents b))
  unfolding run queue_run
  run_from [] w {b} v h fit = (v, refl)
  run_from (appends bytes ∷ calls) w {b} v h fit =
      let (n, valid, same, low) = append_lem fresh allocates bytes v (omega (arith, fit.0)) in
      let rest = run_from calls (w + length bytes) valid (omega (arith, low)) fit.1 in
      (rest.0, rest.1 ∙ ap (queue_run calls) same)
  run_from (fetches n ∷ calls) w {b} v h fit =
      let (valid, out, same, low) = fetch_lem n v in
      let rest = run_from calls w valid (omega (arith, low)) fit in
      let later = rest.1 ∙ ap (queue_run calls) same in
      (rest.0, λ i. (out i ∷ (later i).0, (later i).1))
  run_from (reads n ∷ calls) w {b} v h fit =
      let (valid, same, low) = has_read_lem n v fit.0 in
      let rest = run_from calls w valid (omega (arith, low)) fit.1 in
      (rest.0, rest.1 ∙ ap (queue_run calls) same)
  run_from (shrinks ∷ calls) w {b} v h fit =
      let (valid, same, full, low) = shrink_lem fresh allocates v in
      let rest = run_from calls w valid (omega (arith, low)) fit in
      (rest.0, rest.1 ∙ ap (queue_run calls) same)

  -- Every sequence of append, fetch, hasRead and shrink on a well-formed buffer, while no index
  -- overflows, returns the bytes that the same calls on a plain list of bytes return, leaves the
  -- same bytes readable and the buffer well-formed.
  pub run_refines :
      (calls : List Call) {b : Buffer}
      → IsValid b
      → Fits calls b.write_index
      → let (outs, b') = run fresh calls b in
        IsValid b' × ((outs, contents b') ≡ queue_run calls (contents b))
  run_refines calls {b} v fit = run_from calls b.write_index v (omega arith) fit
