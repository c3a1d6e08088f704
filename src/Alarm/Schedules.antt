-- ===== src/Alarm/Schedules.antt =====
-- modules/alarm/weekly_alarm.cpp, oneshot_alarm.cpp, workday_alarm.cpp and workday_calendar.cpp:
-- when an alarm goes off next. A time stamp has 32 bits; a day of 1970 begins at a multiple of 86400.
pub mod Next
use cpp_tbox.Common.{
  ℕ, zero, suc, ◌+◌, ◌-◌, ◌*◌, ◌/◌, ◌%◌, ◌^◌, Bool, true, false, ◌&&◌, ◌||◌, not, Option, none,
  some, List, [], ◌∷◌, ◌++◌, ltb, leb, ◌==◌, if◌then◌else◌, length,
}
use cpp_tbox.Common.Int.{ℤ, pos, negsuc}
use cpp_tbox.Alarm.{State, Kind, Alarm}

abbrev pub seconds_of_day : ℕ
seconds_of_day = 86400

-- `mask & (1 << week)`.
abbrev pub has_bit : ℕ → ℕ → Bool
has_bit mask week = mask / 2 ^ week % 2 == 1

-- Today's time of the alarm.
abbrev pub todays : ℕ → ℕ → ℕ
todays seconds curr = (curr - curr % seconds_of_day + seconds) % 2 ^ 32

-- The loop over the days: `good` says whether the alarm goes off on the i-th day from today.
unfoldable pub scan : (ℕ → Bool) → ℕ → ℕ → ℕ → ℕ → Bool × ℕ
scan good curr zero i next = (false, next)
scan good curr (suc rounds) i next =
    let rest = scan good curr rounds (i + 1) ((next + seconds_of_day) % 2 ^ 32) in
    if ltb curr next && good i then (true, next) else rest

pub record Weekly : Type 0 where
  pub seconds : ℕ
  pub week_mask : ℕ

unfoldable pub next_weekly : Weekly → ℕ → Bool × ℕ
unfolding scan
next_weekly w curr =
    let curr_week = (curr % (seconds_of_day * 7) / seconds_of_day + 4) % 7 in
    scan (λ i. has_bit w.week_mask ((i + curr_week) % 7)) curr 8 0 (todays w.seconds curr)

unfoldable pub next_oneshot : ℕ → ℕ → Bool × ℕ
next_oneshot seconds curr =
    let next = todays seconds curr in
    (true, if leb next curr then (next + seconds_of_day) % 2 ^ 32 else next)

-- The alarms that watch a calendar are numbers.
pub record Calendar : Type 0 where
  pub week_mask : ℕ
  pub special_days : List (ℕ × Bool)
  pub watch_alarms : List ℕ

find_day : ℕ → List (ℕ × Bool) → Option Bool
find_day day [] = none
find_day day ((d, b) ∷ days) = if d == day then some b else find_day day days

unfoldable pub is_workday : Calendar → ℕ → Bool
unfolding find_day
is_workday c day = elim (find_day day c.special_days) [
  | some b ↦ b
  | none ↦ has_bit c.week_mask ((day % 7 + 4) % 7)
]

unfoldable pub subscribe : ℕ → Calendar → Calendar
subscribe alarm c = record c { watch_alarms = c.watch_alarms ++ alarm ∷ [] }

pub remove : ℕ → List ℕ → List ℕ
remove alarm [] = []
remove alarm (b ∷ bs) = let rest = remove alarm bs in if b == alarm then rest else b ∷ rest

pub unsubscribe : ℕ → Calendar → Calendar
unfolding remove
unsubscribe alarm c = record c { watch_alarms = remove alarm c.watch_alarms }

pub record Workday : Type 0 where
  pub seconds : ℕ
  pub workday : Bool

-- Two truth values are equal.
abbrev pub same : Bool → Bool → Bool
same a b = if a then b else not b

unfoldable pub next_workday : Workday → Calendar → ℕ → Bool × ℕ
unfolding scan is_workday
next_workday w c curr =
    scan (λ i. same w.workday (is_workday c (curr / seconds_of_day + i))) curr 367 0
      (todays w.seconds curr)

-- The classes. The weekly and the one-shot alarm have hooks that do nothing.
abbrev pub weekly_kind : Weekly → Kind (Unit {0})
weekly_kind w = record {
  calculate = λ _ curr. next_weekly w curr;
  on_enable = λ e. (true, e);
  on_disable = λ e. (true, e);
}

abbrev pub oneshot_kind : ℕ → Kind (Unit {0})
oneshot_kind seconds = record {
  calculate = λ _ curr. next_oneshot seconds curr;
  on_enable = λ e. (true, e);
  on_disable = λ e. (true, e);
}

-- The workday alarm of the number `me`.
abbrev pub workday_kind : ℕ → Workday → Kind Calendar
workday_kind me w = record {
  calculate = next_workday w;
  on_enable = λ c. (true, subscribe me c);
  on_disable = λ c. (true, unsubscribe me c);
}

-- initialize of the weekly alarm: the bits of a text of seven letters, the first one lowest.
bits : ℕ → List ℕ → ℕ
bits i [] = 0
bits i (c ∷ cs) = (if c == b'1' then 2 ^ i else 0) + bits (i + 1) cs

unfoldable pub set_up_weekly : ℤ → List ℕ → Alarm → Weekly → Bool × Alarm × Weekly
unfolding bits
set_up_weekly (negsuc n) mask a w = (false, a, w)
set_up_weekly (pos n) mask a w = elim a.state [
  | State.running ↦ (false, a, w)
  | _ ↦ if leb seconds_of_day n || not (length mask == 7) then (false, a, w) else (
    true,
    record a { state = State.inited },
    record { seconds = n; week_mask = bits 0 mask },
  )
]

unfoldable pub set_up_oneshot : ℤ → Alarm → ℕ → Bool × Alarm × ℕ
set_up_oneshot (negsuc n) a seconds = (false, a, seconds)
set_up_oneshot (pos n) a seconds = elim a.state [
  | State.running ↦ (false, a, seconds)
  | _ ↦
      if leb seconds_of_day n
      then (false, a, seconds)
      else (true, record a { state = State.inited }, n)
]

-- The second argument says whether a calendar was given.
unfoldable pub set_up_workday : ℤ → Bool → Bool → Alarm → Workday → Bool × Alarm × Workday
set_up_workday (negsuc n) given workday a w = (false, a, w)
set_up_workday (pos n) given workday a w = elim a.state [
  | State.running ↦ (false, a, w)
  | _ ↦
      if leb seconds_of_day n || not given
      then (false, a, w)
      else (true, record a { state = State.inited }, record { seconds = n; workday = workday })
]
