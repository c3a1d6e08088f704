-- ===== src/Alarm/Tests.antt =====
-- The theorems on alarms at concrete inputs: a weekly alarm at 10:00 on the days from Monday to Friday, and a
-- workday alarm at 10:00.
use cpp_tbox.Common.{
  ℕ, ◌+◌, ◌-◌, ◌*◌, ◌/◌, ◌^◌, ◌≤◌, ◌<◌, ◌≡◌, refl, true, false, none, some, List, [], ◌∷◌, ◌++◌,
  arith,
}
use cpp_tbox.Common.Int.{pos}
use cpp_tbox.Alarm.{
  unready, inited, running, off, armed, Alarm, init, enable, disable, refresh, cleanup,
  active_timer, start_sec, to_u32, offset,
}
use cpp_tbox.Alarm.Schedules.{
  Weekly, weekly_kind, Workday, Calendar, workday_kind, next_workday, next_weekly, subscribe,
  is_workday, same,
}
use cpp_tbox.Alarm.Schedules.Next.{IsNext, OnDays, next_workday-IsNext}
use cpp_tbox.Alarm.Life.{IsSound}
use cpp_tbox.Alarm.Classes.{
  weekly_class, oneshot_class, workday_class, Op, initialized, zone, enabled, disabled, cleaned,
  refreshed, expired, apply_all, apply_all-IsSound,
}
use cpp_tbox.Alarm.Target.{
  local, WeeklyTime, enable-weekly, disable-enable, refresh-weekly, active_timer_early,
  failed_enable-watches,
}

abbrev at_ten : Weekly
at_ten = record { seconds = 36000; week_mask = 62 }

-- Set up, and in the zone UTC+8.
abbrev ready : Alarm
ready = record init {
  timer = off 0;
  using_independ_timezone = true;
  timezone_offset_seconds = pos 28800;
  state = inited;
}

-- Tuesday, 14 November 2023, 22:13:20 UTC, which is Wednesday, 6:13:20, in that zone.
abbrev tuesday : ℕ
tuesday = 1700000000

-- Armed at that time for 10:00.
abbrev waiting : Alarm
waiting = record ready { timer = armed 13599500; state = running; target_utc_sec = tuesday + 13600 }

next_weekly_example : next_weekly at_ten (tuesday + 28800) ≡ (true, tuesday + 28800 + 13600)
unfolding next_weekly
next_weekly_example = refl

enable_at : (enable (weekly_kind at_ten) (pos 0) (some (tuesday, 500000)) tt ready).2 ≡ waiting
unfolding enable next_weekly
enable_at = refl

enable-weekly_example :
    (d : ℕ) × (enable (weekly_kind at_ten) (pos 0) (some (tuesday, 500000)) tt ready ≡ (
      true,
      tt,
      record ready {
        timer = armed (d * 1000 - 500000 / 1000);
        state = running;
        target_utc_sec = tuesday + d;
      },
    ))
    × IsNext (WeeklyTime at_ten) (local (pos 0) ready tuesday) (local (pos 0) ready tuesday + d)
unfolding to_u32 offset
enable-weekly_example =
    enable-weekly at_ten (pos 0) ready tuesday 500000 1 refl (omega arith) (omega arith)
      (omega arith) refl (omega arith) (omega arith) (omega arith)

disable-enable_example :
    let (_, e, a') = disable (weekly_kind at_ten) (pos 0) tt waiting in
    (d : ℕ) × (0 < d)
    × ((enable (weekly_kind at_ten) (pos 0) (some (tuesday + 60, 0)) e a').2.target_utc_sec
        ≡ tuesday + 13600 + d)
unfolding to_u32 offset
disable-enable_example =
    disable-enable at_ten (pos 0) waiting (tuesday + 60) 0 1 refl (omega arith) (omega arith)
      (omega arith) refl (omega arith) (omega arith)

waiting-IsNext :
    IsNext
      (WeeklyTime at_ten)
      (local (pos 0) waiting tuesday)
      (local (pos 0) waiting tuesday + 13600)
unfolding to_u32 offset
waiting-IsNext = record {
  later = omega arith;
  holds = (refl, refl);
  first = λ u h k g. omega (arith, g.0);
}

refresh-weekly_example :
    refresh (weekly_kind at_ten) (pos 0) (some (tuesday + 60, 0)) tt waiting
    ≡ record waiting { timer = armed ((tuesday + 13600 - (tuesday + 60)) * 1000 - 0 / 1000) }
unfolding to_u32 offset
refresh-weekly_example =
    refresh-weekly at_ten (pos 0) waiting tuesday 13600 (tuesday + 60) 0 1 refl refl waiting-IsNext
      (omega arith) (omega arith) (omega arith) (omega arith) refl (omega arith) (omega arith)
      (omega arith)

-- No day is a workday, except for one that is 60 days away.
abbrev holidays : Calendar
holidays = record { week_mask = 0; special_days = (19735, true) ∷ []; watch_alarms = [] }

abbrev workdays : Workday
workdays = record { seconds = 36000; workday = true }

abbrev plain : Alarm
plain = record init { timer = off 0; state = inited }

active_timer_early_example :
    (ms : ℕ) × ((active_timer
        (workday_kind 7 workdays)
        (pos 0)
        holidays
        (some (tuesday, 0))
        plain).1.timer
      ≡ armed ms)
    × ((active_timer
          (workday_kind 7 workdays)
          (pos 0)
          holidays
          (some (tuesday, 0))
          plain).1.target_utc_sec
        ≡ start_sec tuesday plain + 5140000)
    × (ms + 2 ^ 32 ≤ (start_sec tuesday plain + 5140000 - tuesday) * 1000 - 0 / 1000)
unfolding to_u32 offset start_sec next_workday
active_timer_early_example =
    active_timer_early (workday_kind 7 workdays) (pos 0) holidays plain tuesday 0 5140000 refl
      (omega arith) (omega arith) (omega arith)

next_workday-IsNext_example :
    IsNext (OnDays (λ day. same true (is_workday holidays day)) 36000) tuesday 1705140000
unfolding next_workday
next_workday-IsNext_example =
    next_workday-IsNext workdays holidays tuesday 1705140000 (omega arith) (omega arith) refl

abbrev never : Calendar
never = record { week_mask = 0; special_days = []; watch_alarms = [] }

failed_enable-watches_example :
    let (done, c', a') = enable (workday_kind 7 workdays) (pos 0) (some (tuesday, 0)) never plain in
    let (c'', a'') = cleanup (workday_kind 7 workdays) (pos 0) c' a' in
    (done ≡ false) × (a''.state ≡ unready) × (c''.watch_alarms ≡ [] ++ 7 ∷ [])
unfolding to_u32 offset start_sec next_workday subscribe
failed_enable-watches_example =
    failed_enable-watches 7 workdays (pos 0) never plain tuesday 0 1731664800 refl refl

-- Set up, enabled, gone off, disabled, refused an enabling, refreshed and cleaned up.
abbrev after_set_up : {I : Type 0} → I → List (Op I)
after_set_up i =
    initialized i
    ∷ zone (pos 480)
    ∷ enabled (some (tuesday, 0))
    ∷ expired (some (tuesday + 13600, 0))
    ∷ disabled
    ∷ enabled none
    ∷ refreshed (some (tuesday, 0))
    ∷ cleaned
    ∷ []

apply_all-IsSound_example :
    let (_, a₁) =
      apply_all weekly_class
        (pos 0)
        (after_set_up (pos 36000, 49 ∷ 49 ∷ 49 ∷ 49 ∷ 49 ∷ 48 ∷ 48 ∷ []))
        at_ten
        init in
    let (_, a₂) = apply_all oneshot_class (pos 0) (after_set_up (pos 36000)) 0 init in
    let (_, a₃) =
      apply_all
        (workday_class 7)
        (pos 0)
        (after_set_up (pos 36000, true, true))
        (workdays, never)
        init in
    IsSound a₁.state a₁.timer × IsSound a₂.state a₂.timer × IsSound a₃.state a₃.timer
apply_all-IsSound_example =
    apply_all-IsSound (pos 0) init (after_set_up (pos 36000, 49 ∷ 49 ∷ 49 ∷ 49 ∷ 49 ∷ 48 ∷ 48 ∷ []))
      at_ten (after_set_up (pos 36000)) 0 (after_set_up (pos 36000, true, true)) 7 (workdays, never)
      tt
