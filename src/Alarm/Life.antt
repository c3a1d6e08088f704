-- ===== src/Alarm/Life.antt =====
-- modules/alarm/alarm.cpp: the state, the timer and the target of an alarm over its life.
use cpp_tbox.Common.{
  ℕ, ◌+◌, ◌-◌, ◌*◌, ◌/◌, ◌%◌, ◌^◌, ◌≤◌, ◌<◌, ◌≡◌, true, Option, none, some, arith,
}
use cpp_tbox.Common.Int.{ℤ, pos, negsuc}
use cpp_tbox.Alarm.{
  State, unready, inited, running, Timer, fresh, off, armed, Alarm, Kind, to_u32, wait, arm,
  active_timer, enable, disable, cleanup, refresh, on_time_expired, on_time_expired_once, call_back,
  expire, disable_timer, wipe,
}

-- The timer is armed exactly while the alarm is in the state running.
abbrev pub IsSound : State → Timer → Type 0
IsSound running (armed n) = Unit {0}
IsSound running fresh = ⊥
IsSound running (off n) = ⊥
IsSound unready (armed n) = ⊥
IsSound inited (armed n) = ⊥
IsSound _ _ = Unit {0}

module _ {E : Type 0} (k : Kind E) (system : ℤ) where
  -- Whether or not a time is found, from a timer that is not armed.
  active_timer-IsSound :
      (e : E) (now : Option (ℕ × ℕ)) (a : Alarm)
      → IsSound a.state a.timer
      → IsSound (active_timer k system e now a).1.state (active_timer k system e now a).1.timer
  unfolding active_timer arm
  active_timer-IsSound e none a s = s
  active_timer-IsSound e (some (sec, usec)) a s = ground arith

  pub enable-IsSound :
      (e : E) (now : Option (ℕ × ℕ)) (a : Alarm)
      → IsSound a.state a.timer
      → IsSound (enable k system now e a).2.state (enable k system now e a).2.timer
  unfolding enable
  enable-IsSound e now a s = ground (arith, active_timer-IsSound (k.on_enable e).1 now a s)

  pub refresh-IsSound :
      (e : E) (now : Option (ℕ × ℕ)) (a : Alarm)
      → IsSound a.state a.timer
      → IsSound (refresh k system now e a).state (refresh k system now e a).timer
  unfolding refresh disable_timer
  refresh-IsSound e now a s = ground (
    arith,
    active_timer-IsSound e now
        (record a { state = inited; timer = (disable_timer a.timer).1; target_utc_sec = 0 }),
  )

  pub call_back-IsSound :
      (a : Alarm) → IsSound a.state a.timer → IsSound (call_back a).state (call_back a).timer
  unfolding call_back
  call_back-IsSound a s = ground arith

  pub on_time_expired-IsSound :
      (e : E) (now : Option (ℕ × ℕ)) (a : Alarm)
      → IsSound a.state a.timer
      → IsSound (on_time_expired k system now e a).state (on_time_expired k system now e a).timer
  unfolding on_time_expired
  on_time_expired-IsSound e now a s =
      call_back-IsSound _
        (active_timer-IsSound e now (record a { state = inited; timer = expire a.timer }) sound)
    where
      sound : IsSound inited (expire a.timer)
      sound = unfold expire in (ground arith)

  module _ (accepts : (e : E) → (k.on_disable e).0 ≡ true) where
    pub disable-IsSound :
        (e : E) (a : Alarm)
        → IsSound a.state a.timer
        → IsSound (disable k system e a).2.state (disable k system e a).2.timer
    unfolding disable disable_timer
    disable-IsSound e a s = ground (arith, accepts e)

    pub cleanup-IsSound :
        (e : E) (a : Alarm)
        → IsSound a.state a.timer
        → IsSound (cleanup k system e a).1.state (cleanup k system e a).1.timer
    unfolding cleanup disable disable_timer wipe
    cleanup-IsSound e a s = ground (arith, accepts e)

pub on_time_expired_once-IsSound :
    (a : Alarm)
    → IsSound a.state a.timer
    → IsSound (on_time_expired_once a).state (on_time_expired_once a).timer
unfolding on_time_expired_once call_back expire
on_time_expired_once-IsSound a s = ground arith

-- The timer's milliseconds.
pub wait_exact :
    (remain usec : ℕ)
    → 0 < remain
    → remain * 1000 < 2 ^ 32
    → usec < 1000000
    → wait remain usec ≡ remain * 1000 - usec / 1000
unfolding wait
wait_exact remain usec h k u = omega arith

pub wait_early :
    (remain usec : ℕ)
    → remain < 2 ^ 32
    → 4294969 ≤ remain
    → usec < 1000000
    → wait remain usec + 2 ^ 32 ≤ remain * 1000 - usec / 1000
unfolding wait
wait_early remain usec h k u = omega arith

-- The timer armed `d` seconds after a start that is not before the present.
pub arm_lem :
    (z start d sec usec : ℕ) (a : Alarm)
    → z < 2 ^ 32
    → sec ≤ start
    → start + d < 2 ^ 32
    → arm z ((start + z) % 2 ^ 32 + d) sec usec a ≡ record a {
      timer = armed (wait (start + d - sec) usec);
      state = running;
      target_utc_sec = start + d;
    }
unfolding arm
arm_lem z start d sec usec a hz hs hd =
    let e : ((start + z) % 2 ^ 32 + d + 2 ^ 32 - z) % 2 ^ 32 ≡ start + d = omega arith in
    let f : (start + d + 2 ^ 32 - sec) % 2 ^ 32 ≡ start + d - sec = omega arith in rw e (rw f)

pub to_u32-lt : (n : ℤ) → to_u32 n < 2 ^ 32
unfolding to_u32
to_u32-lt (pos n) = omega arith
to_u32-lt (negsuc n) = omega arith
