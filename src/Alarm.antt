-- ===== src/Alarm.antt =====
-- modules/alarm/alarm.cpp and alarm.h: what every alarm does with its timer.
-- A class of alarms is a `Kind` over the type `E` of what its hooks read and change, such as a calendar.
-- What gettimeofday gives is the argument `now`, and the offset of the system's time zone is `system`.
-- The callback is only noted, in `fired`.
pub mod Schedules
pub mod Life
pub mod Classes
pub mod Target
mod Tests
use cpp_tbox.Common.{
  ℕ, ◌+◌, ◌-◌, ◌*◌, ◌/◌, ◌%◌, ◌^◌, Bool, true, false, Option, none, some, ltb, if◌then◌else◌,
}
use cpp_tbox.Common.Int.{ℤ, pos, negsuc}

pub data State : Type 0 where
  unready inited running : State

-- The one-shot timer event: never initialised, or with its interval in milliseconds, not enabled or enabled.
pub data Timer : Type 0 where
  fresh : Timer
  off : ℕ → Timer
  armed : ℕ → Timer

pub record Alarm : Type 0 where
  pub timer : Timer
  pub using_independ_timezone : Bool
  pub timezone_offset_seconds : ℤ
  pub has_cb : Bool
  pub fired : ℕ
  pub state : State
  pub target_utc_sec : ℕ

abbrev pub init : Alarm
init = record {
  timer = fresh;
  using_independ_timezone = false;
  timezone_offset_seconds = pos 0;
  has_cb = false;
  fired = 0;
  state = unready;
  target_utc_sec = 0;
}

-- The virtual functions of a class. `calculate` returns its result and what it left in next_local_ts.
pub record Kind (E : Type 0) : Type 0 where
  pub calculate : E → ℕ → Bool × ℕ
  pub on_enable : E → Bool × E
  pub on_disable : E → Bool × E

-- A signed number in 32 bits.
pub to_u32 : ℤ → ℕ
to_u32 (pos n) = n % 2 ^ 32
to_u32 (negsuc n) = 2 ^ 32 - 1 - n % 2 ^ 32

-- Sixty times a number.
minutes : ℤ → ℤ
minutes (pos n) = pos (n * 60)
minutes (negsuc n) = negsuc ((n + 1) * 60 - 1)

pub set_timezone : ℤ → Alarm → Alarm
unfolding minutes
set_timezone offset_minutes a = record a {
  timezone_offset_seconds = minutes offset_minutes;
  using_independ_timezone = true;
}

pub is_enabled : Alarm → Bool
is_enabled a = elim a.state [ running ↦ true | _ ↦ false ]

-- `sp_timer_ev_->disable()`.
pub disable_timer : Timer → Bool × Timer
disable_timer fresh = (false, fresh)
disable_timer (off n) = (true, off n)
disable_timer (armed n) = (true, off n)

pub offset : ℤ → Alarm → ℤ
offset system a = if a.using_independ_timezone then a.timezone_offset_seconds else system

-- The milliseconds to wait: the product and the difference have 32 bits.
pub wait : ℕ → ℕ → ℕ
wait remain_sec curr_usec = (remain_sec * 1000 % 2 ^ 32 + 2 ^ 32 - curr_usec / 1000) % 2 ^ 32

-- Arm the timer for the local time `next_local`.
pub arm : ℕ → ℕ → ℕ → ℕ → Alarm → Alarm
unfolding wait
arm zone next_local curr_sec curr_usec a =
    let next_utc = (next_local + 2 ^ 32 - zone) % 2 ^ 32 in
    record a {
      timer = armed (wait ((next_utc + 2 ^ 32 - curr_sec) % 2 ^ 32) curr_usec);
      state = running;
      target_utc_sec = next_utc;
    }

-- The later of the present and the last target.
pub start_sec : ℕ → Alarm → ℕ
start_sec curr_sec a = if ltb curr_sec a.target_utc_sec then a.target_utc_sec else curr_sec

module _ {E : Type 0} (k : Kind E) (system : ℤ) where
  pub active_timer : E → Option (ℕ × ℕ) → Alarm → Bool × Alarm
  unfolding to_u32 offset arm start_sec
  active_timer e none a = (false, a)
  active_timer e (some (curr_sec, curr_usec)) a =
      let zone = to_u32 (offset system a) in
      let (ready, next_local) = k.calculate e ((start_sec curr_sec a + zone) % 2 ^ 32) in
      if ready then (true, arm zone next_local curr_sec curr_usec a) else (false, a)

  pub enable : Option (ℕ × ℕ) → E → Alarm → Bool × E × Alarm
  unfolding active_timer
  enable now e a = elim a.state [
    | inited ↦
        let (accepted, e') = k.on_enable e in
        let (done, a') = active_timer e' now a in
        if accepted then (done, e', a') else (false, e', a)
    | _ ↦ (false, e, a)
  ]

  pub disable : E → Alarm → Bool × E × Alarm
  unfolding disable_timer
  disable e a = elim a.state [
    | running ↦
        let (accepted, e') = k.on_disable e in
        let (done, t) = disable_timer a.timer in
        if accepted then (done, e', record a { state = inited; timer = t }) else (false, e', a)
    | _ ↦ (false, e, a)
  ]

  wipe : Alarm → Alarm
  wipe a = record a {
    has_cb = false;
    using_independ_timezone = false;
    timezone_offset_seconds = pos 0;
    state = unready;
    target_utc_sec = 0;
  }

  pub cleanup : E → Alarm → E × Alarm
  unfolding disable wipe
  cleanup e a = elim a.state [
    | unready ↦ (e, a)
    | _ ↦ let (done, e', a') = disable e a in (e', wipe a')
  ]

  pub refresh : Option (ℕ × ℕ) → E → Alarm → Alarm
  unfolding active_timer disable_timer
  refresh now e a = elim a.state [
    | running ↦
        (active_timer e now
          (record a { state = inited; timer = (disable_timer a.timer).1; target_utc_sec = 0 })).1
    | _ ↦ a
  ]

  pub remain_seconds : Option (ℕ × ℕ) → Alarm → ℕ
  remain_seconds none a = 0
  remain_seconds (some (curr_sec, curr_usec)) a = elim a.state [
    | running ↦ (a.target_utc_sec + 2 ^ 32 - curr_sec) % 2 ^ 32
    | _ ↦ 0
  ]

-- The timer event has disabled itself before it calls its function.
pub expire : Timer → Timer
expire fresh = fresh
expire (off n) = off n
expire (armed n) = off n

pub call_back : Alarm → Alarm
call_back a = if a.has_cb then record a { fired = a.fired + 1 } else a

module _ {E : Type 0} (k : Kind E) (system : ℤ) where
  pub on_time_expired : Option (ℕ × ℕ) → E → Alarm → Alarm
  unfolding active_timer expire call_back
  on_time_expired now e a =
      call_back
        (active_timer k system e now (record a { state = inited; timer = expire a.timer })).1

-- The one-shot alarm does not arm itself again.
pub on_time_expired_once : Alarm → Alarm
unfolding expire call_back
on_time_expired_once a = call_back (record a { state = inited; timer = expire a.timer })
