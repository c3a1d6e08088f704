-- ===== src/Alarm/Schedules/Next.antt =====
-- modules/alarm: the time found is the first one after the present at which the alarm goes off.
use cpp_tbox.Common.{
  ℕ, zero, suc, ◌+◌, ◌-◌, ◌*◌, ◌/◌, ◌%◌, ◌^◌, ◌≤◌, ◌<◌, ◌≡◌, refl, sym, ap, ◌∙◌, ◌⊎◌, inl, inr,
  Bool, true, false, ◌&&◌, ltb, leb, arith, Bool-cases, ltb→lt, lt→ltb,
}
use cpp_tbox.Alarm.Schedules.{
  seconds_of_day, has_bit, todays, scan, Weekly, next_weekly, next_oneshot, Calendar, is_workday,
  Workday, same, next_workday,
}

-- `t` is the first time after `curr` of which `P` holds.
pub record IsNext (P : ℕ → Type 0) (curr t : ℕ) : Type 0 where
  pub later : curr < t
  pub holds : P t
  pub first : (u : ℕ) → curr < u → u < t → P u → ⊥

not_ltb→le : (u t : ℕ) → ltb u t ≡ false → t ≤ u
not_ltb→le u t h = ground arith

-- There is one next time, and the time that passes before it does not change it.
pub IsNext-unique :
    {P : ℕ → Type 0} {c c' t t' : ℕ} → IsNext P c t → IsNext P c' t' → c ≤ c' → c' < t → t' ≡ t
IsNext-unique {c = c} {c' = c'} {t = t} {t' = t'} n n' h k =
    go (Bool-cases (ltb t t')) (Bool-cases (ltb t' t))
  where
    later : c' < t'
    later = n'.later

    go :
        ((ltb t t' ≡ true) ⊎ (ltb t t' ≡ false)) → ((ltb t' t ≡ true) ⊎ (ltb t' t ≡ false)) → t' ≡ t
    go (inl b) r = absurd (n'.first t k (ltb→lt t t' b) n.holds)
    go (inr b) (inl b') = absurd (n.first t' (omega arith) (ltb→lt t' t b') n'.holds)
    go (inr b) (inr b') = omega (arith, not_ltb→le t t' b, not_ltb→le t' t b')

-- The times of day `seconds` on the days that are `ok`, counted from 1970.
abbrev pub OnDays : (ℕ → Bool) → ℕ → ℕ → Type 0
OnDays ok seconds t = (t % seconds_of_day ≡ seconds) × (ok (t / seconds_of_day) ≡ true)

Hit : (ℕ → Bool) → ℕ → ℕ → ℕ → ℕ → ℕ → Type 0
Hit good curr rounds i next t =
    (j : ℕ) × (j < rounds)
    × (t ≡ next + j * seconds_of_day)
    × (curr < t)
    × (good (i + j) ≡ true)
    × ((l : ℕ) → l < j → curr < next + l * seconds_of_day → good (i + l) ≡ true → ⊥)

scan-Hit :
    (good : ℕ → Bool) (curr rounds i next : ℕ) {t : ℕ}
    → next + rounds * seconds_of_day < 2 ^ 32
    → scan good curr rounds i next ≡ (true, t)
    → Hit good curr rounds i next t
unfolding scan Hit
scan-Hit good curr zero i next h e = absurd (cc)
scan-Hit good curr (suc rounds) i next {t} h e = elim (Bool-cases (ltb curr next && good i)) [
  | inl b ↦
      let e' : next ≡ t = ground arith in
      let g : good (i + 0) ≡ true = let z : i + 0 ≡ i = omega arith in rw z (ground arith) in
      (0, omega arith, omega arith, ground arith, g, λ l p. absurd (omega arith))
  | inr b ↦
      later b (scan-Hit good curr rounds (i + 1) (next + seconds_of_day) (omega arith) (moved b))
]
  where
    moved :
        (ltb curr next && good i) ≡ false
        → scan good curr rounds (i + 1) (next + seconds_of_day) ≡ (true, t)
    moved b =
        let w : (next + seconds_of_day) % 2 ^ 32 ≡ next + seconds_of_day = omega arith in
        rw w at (rw b at e)

    later :
        (ltb curr next && good i) ≡ false
        → Hit good curr rounds (i + 1) (next + seconds_of_day) t
        → Hit good curr (suc rounds) i next t
    later b (j, p, q, c, g, f) =
        let z : i + 1 + j ≡ i + suc j = omega arith in
        (suc j, omega arith, omega arith, c, rw z at g, none_before)
      where
        none_before :
            (l : ℕ) → l < suc j → curr < next + l * seconds_of_day → good (i + l) ≡ true → ⊥
        none_before zero lt k g' =
            let z : i + 0 ≡ i = omega arith in
            let g'' : good i ≡ true = rw z at g' in
            let k' : ltb curr next ≡ true = lt→ltb curr next (omega arith) in ground arith
        none_before (suc l) lt k g' =
            let z : i + suc l ≡ i + 1 + l = omega arith in
            f l (omega arith) (omega arith) (rw z at g')

scan_miss :
    (good : ℕ → Bool) (curr rounds i next l : ℕ) {t : ℕ}
    → next + rounds * seconds_of_day < 2 ^ 32
    → scan good curr rounds i next ≡ (false, t)
    → l < rounds
    → curr < next + l * seconds_of_day
    → good (i + l) ≡ true
    → ⊥
unfolding scan
scan_miss good curr zero i next l h e lt k g = absurd (omega arith)
scan_miss good curr (suc rounds) i next zero h e lt k g =
    let z : i + 0 ≡ i = omega arith in
    let g' : good i ≡ true = rw z at g in
    let k' : ltb curr next ≡ true = lt→ltb curr next (omega arith) in ground arith
scan_miss good curr (suc rounds) i next (suc l) {t} h e lt k g =
    let z : i + suc l ≡ i + 1 + l = omega arith in
    scan_miss good curr rounds (i + 1) (next + seconds_of_day) l (omega arith)
      (go (Bool-cases (ltb curr next && good i))) (omega arith) (omega arith) (rw z at g)
  where
    go :
        ((ltb curr next && good i) ≡ true) ⊎ ((ltb curr next && good i) ≡ false)
        → scan good curr rounds (i + 1) (next + seconds_of_day) ≡ (false, t)
    go (inl b) = absurd (ground arith)
    go (inr b) =
        let w : (next + seconds_of_day) % 2 ^ 32 ≡ next + seconds_of_day = omega arith in
        rw w at (rw b at e)

-- A scan over days that begins today.
module _ (ok good : ℕ → Bool) (seconds curr rounds : ℕ)
    (bridge : (l : ℕ) → good l ≡ ok (curr / seconds_of_day + l)) (valid : seconds < seconds_of_day)
    (fits : curr + (rounds + 1) * seconds_of_day < 2 ^ 32) where
  base : todays seconds curr ≡ curr / seconds_of_day * seconds_of_day + seconds
  base = omega (arith, valid, fits)

  -- A time after the present is on the l-th day from today.
  on_day :
      (u : ℕ)
      → curr < u
      → u % seconds_of_day ≡ seconds
      → (u ≡ todays seconds curr + (u / seconds_of_day - curr / seconds_of_day) * seconds_of_day)
        × (u / seconds_of_day
            ≡ curr / seconds_of_day + (u / seconds_of_day - curr / seconds_of_day))
  on_day u h e = (omega (arith, base, valid), omega (arith, valid))

  good_on :
      (u : ℕ)
      → curr < u
      → OnDays ok seconds u
      → good (0 + (u / seconds_of_day - curr / seconds_of_day)) ≡ true
  good_on u h (e, g) =
      let l : ℕ = u / seconds_of_day - curr / seconds_of_day in
      let z : 0 + l ≡ l = omega arith in ap good z ∙ bridge l ∙ ap ok (sym (on_day u h e).1) ∙ g

  pub scan-IsNext :
      (t : ℕ)
      → scan good curr rounds 0 (todays seconds curr) ≡ (true, t)
      → IsNext (OnDays ok seconds) curr t
  unfolding Hit
  scan-IsNext t e =
      go (scan-Hit good curr rounds 0 (todays seconds curr) (omega (arith, base, valid, fits)) e)
    where
      go : Hit good curr rounds 0 (todays seconds curr) t → IsNext (OnDays ok seconds) curr t
      go (j, p, q, c, g, f) =
          let z : 0 + j ≡ j = omega arith in
          let day : curr / seconds_of_day + j ≡ t / seconds_of_day = omega (arith, base, valid) in
          record {
            later = c;
            holds = (
              omega (arith, base, valid),
              sym (ap ok day) ∙ sym (bridge j) ∙ sym (ap good z) ∙ g,
            );
            first = λ u h k (e', g').
                f (u / seconds_of_day - curr / seconds_of_day) (omega (arith, (on_day u h e').0, q))
                  (omega (arith, (on_day u h e').0)) (good_on u h (e', g'));
          }

  -- Where none is found there is none on the days that were tried.
  pub scan-none :
      (t u : ℕ)
      → scan good curr rounds 0 (todays seconds curr) ≡ (false, t)
      → curr < u
      → u < todays seconds curr + rounds * seconds_of_day
      → OnDays ok seconds u
      → ⊥
  scan-none t u e h k (e', g') =
      scan_miss good curr rounds 0 (todays seconds curr)
        (u / seconds_of_day - curr / seconds_of_day) (omega (arith, base, valid, fits)) e
        (omega (arith, (on_day u h e').0)) (omega (arith, (on_day u h e').0)) (good_on u h (e', g'))

-- 1970 began on a Thursday, the day 4 of a week from Sunday.
abbrev pub weekday : ℕ → ℕ
weekday day = (day + 4) % 7

weekly_bridge :
    (mask curr l : ℕ)
    → has_bit mask ((l + (curr % (seconds_of_day * 7) / seconds_of_day + 4) % 7) % 7)
      ≡ has_bit mask (weekday (curr / seconds_of_day + l))
weekly_bridge mask curr l = ap (has_bit mask) (
    let e : (l + (curr % (seconds_of_day * 7) / seconds_of_day + 4) % 7) % 7
        ≡ (curr / seconds_of_day + l + 4) % 7 =
      omega arith in
    e)

scan-cases : (r : Bool × ℕ) → ((t : ℕ) × (r ≡ (true, t))) ⊎ ((t : ℕ) × (r ≡ (false, t)))
scan-cases (true, t) = inl (t, refl)
scan-cases (false, t) = inr (t, refl)

pub next_weekly_lem :
    (w : Weekly) (curr d : ℕ)
    → w.seconds < seconds_of_day
    → curr + 9 * seconds_of_day < 2 ^ 32
    → d < 7
    → has_bit w.week_mask d ≡ true
    → (t : ℕ) × (next_weekly w curr ≡ (true, t))
      × IsNext (OnDays (λ day. has_bit w.week_mask (weekday day)) w.seconds) curr t
      × (t < curr + 9 * seconds_of_day)
unfolding next_weekly
next_weekly_lem w curr d hs hc hd hb = go (scan-cases (next_weekly w curr))
  where
    ok : ℕ → Bool
    ok day = has_bit w.week_mask (weekday day)

    m : ℕ
    m = (curr / seconds_of_day + 4) % 7

    l : ℕ
    l = (d + 13 - m) % 7 + 1

    u : ℕ
    u = (curr / seconds_of_day + l) * seconds_of_day + w.seconds

    on_u : OnDays ok w.seconds u
    on_u =
        let e : weekday (u / seconds_of_day) ≡ d = omega arith in
        (omega arith, ap (has_bit w.week_mask) e ∙ hb)

    go :
        ((t : ℕ) × (next_weekly w curr ≡ (true, t))) ⊎ ((t : ℕ) × (next_weekly w curr ≡ (false, t)))
        → (t : ℕ) × (next_weekly w curr ≡ (true, t))
          × IsNext (OnDays ok w.seconds) curr t
          × (t < curr + 9 * seconds_of_day)
    go (inl (t, e)) =
        let n : IsNext (OnDays ok w.seconds) curr t =
          scan-IsNext ok _ w.seconds curr 8 (weekly_bridge w.week_mask curr) hs hc t e in
        (
          t,
          e,
          n,
          elim (Bool-cases (ltb u t)) [
            | inl b ↦ absurd (n.first u (omega arith) (ltb→lt u t b) on_u)
            | inr b ↦ omega (arith, not_ltb→le u t b)
          ],
        )
    go (inr (t, e)) = absurd (
        scan-none ok _ w.seconds curr 8 (weekly_bridge w.week_mask curr) hs hc t u e (omega arith)
          (omega arith) on_u)

-- Where a workday alarm finds a time, while no time stamp wraps within 368 days, it is the first
-- one after the present that is at its time of day and on a day of its kind by the calendar.
pub next_workday-IsNext :
    (w : Workday) (c : Calendar) (curr t : ℕ)
    → w.seconds < seconds_of_day
    → curr + 368 * seconds_of_day < 2 ^ 32
    → next_workday w c curr ≡ (true, t)
    → IsNext (OnDays (λ day. same w.workday (is_workday c day)) w.seconds) curr t
unfolding next_workday
next_workday-IsNext w c curr t hs hc e =
    scan-IsNext (λ day. same w.workday (is_workday c day)) _ w.seconds curr 367 (λ l. refl) hs hc t
      e

-- A workday alarm that finds nothing has no such day among this one and the 366 that follow.
pub next_workday-none :
    (w : Workday) (c : Calendar) (curr t u : ℕ)
    → w.seconds < seconds_of_day
    → curr + 368 * seconds_of_day < 2 ^ 32
    → next_workday w c curr ≡ (false, t)
    → curr < u
    → u / seconds_of_day < curr / seconds_of_day + 367
    → OnDays (λ day. same w.workday (is_workday c day)) w.seconds u
    → ⊥
unfolding next_workday
next_workday-none w c curr t u hs hc e h k g =
    scan-none (λ day. same w.workday (is_workday c day)) _ w.seconds curr 367 (λ l. refl) hs hc t u
      e h (omega (arith, g.0, hs)) g

pub next_oneshot-IsNext :
    (seconds curr : ℕ)
    → seconds < seconds_of_day
    → curr + seconds_of_day * 2 < 2 ^ 32
    → (t : ℕ) × (next_oneshot seconds curr ≡ (true, t))
      × IsNext (λ u. u % seconds_of_day ≡ seconds) curr t
unfolding next_oneshot
next_oneshot-IsNext seconds curr hs hc = elim (Bool-cases (leb (todays seconds curr) curr)) [
  | inl b ↦
      let b' : todays seconds curr ≤ curr = ground arith in
      (
        (todays seconds curr + seconds_of_day) % 2 ^ 32,
        rw b,
        record { later = omega arith; holds = omega arith; first = λ u h k e. omega arith },
      )
  | inr b ↦
      let b' : curr < todays seconds curr = ground arith in
      (
        todays seconds curr,
        rw b,
        record { later = b'; holds = omega arith; first = λ u h k e. omega arith },
      )
]
