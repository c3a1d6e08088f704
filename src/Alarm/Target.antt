-- ===== src/Alarm/Target.antt =====
-- modules/alarm/alarm.cpp with the classes of alarms: the time that an alarm is armed for.
use cpp_tbox.Common.{
  ℕ, ◌+◌, ◌-◌, ◌*◌, ◌/◌, ◌%◌, ◌^◌, ◌≤◌, ◌<◌, ◌≡◌, refl, sym, ap, ◌∙◌, true, false, Option, some, [],
  ◌∷◌, ◌++◌, arith, subst,
}
use cpp_tbox.Common.Int.{ℤ}
use cpp_tbox.Alarm.{
  unready, inited, running, armed, Alarm, Kind, to_u32, offset, wait, start_sec, active_timer,
  enable, disable, cleanup, refresh, disable_timer, wipe,
}
use cpp_tbox.Alarm.Schedules.{
  seconds_of_day, has_bit, Weekly, next_weekly, weekly_kind, Workday, Calendar, workday_kind,
  next_workday, subscribe,
}
use cpp_tbox.Alarm.Schedules.Next.{IsNext, IsNext-unique, OnDays, weekday, next_weekly_lem}
use cpp_tbox.Alarm.Life.{arm_lem, to_u32-lt, wait_exact, wait_early}

-- The zone of an alarm in 32 bits, and the local time at a UTC time.
abbrev pub zone_of : ℤ → Alarm → ℕ
zone_of system a = to_u32 (offset system a)

abbrev pub local : ℤ → Alarm → ℕ → ℕ
local system a sec = (sec + zone_of system a) % 2 ^ 32

-- Armed for `d` seconds after `start`, at the time `sec` and `usec`.
abbrev pub armed_for : ℕ → ℕ → ℕ → ℕ → Alarm → Alarm
armed_for start d sec usec a = record a {
  timer = armed (wait (start + d - sec) usec);
  state = running;
  target_utc_sec = start + d;
}

start_sec-ge : (sec : ℕ) (a : Alarm) → sec ≤ start_sec sec a
unfolding start_sec
start_sec-ge sec a = ground arith

module _ {E : Type 0} (k : Kind E) (system : ℤ) where
  pub active_timer-armed :
      (e : E) (a : Alarm) (sec usec d : ℕ)
      → k.calculate e (local system a (start_sec sec a))
        ≡ (true, local system a (start_sec sec a) + d)
      → start_sec sec a + d < 2 ^ 32
      → active_timer k system e (some (sec, usec)) a
        ≡ (true, armed_for (start_sec sec a) d sec usec a)
  unfolding active_timer
  active_timer-armed e a sec usec d c h = rw c (
      rw (
        arm_lem (zone_of system a) (start_sec sec a) d sec usec a (to_u32-lt (offset system a))
          (start_sec-ge sec a) h))

  -- Where the next time of an alarm of any class is 4294969 seconds away or more, the product in
  -- milliseconds wraps: activeTimer arms the timer at least 2^32 milliseconds too early, with the
  -- right target kept.
  pub active_timer_early :
      (e : E) (a : Alarm) (sec usec d : ℕ)
      → k.calculate e (local system a (start_sec sec a))
        ≡ (true, local system a (start_sec sec a) + d)
      → start_sec sec a + d < 2 ^ 32
      → 4294969 ≤ start_sec sec a + d - sec
      → usec < 1000000
      → (ms : ℕ) × ((active_timer k system e (some (sec, usec)) a).1.timer ≡ armed ms)
        × ((active_timer k system e (some (sec, usec)) a).1.target_utc_sec ≡ start_sec sec a + d)
        × (ms + 2 ^ 32 ≤ (start_sec sec a + d - sec) * 1000 - usec / 1000)
  active_timer_early e a sec usec d c h far u = (
    wait (start_sec sec a + d - sec) usec,
    rw (active_timer-armed e a sec usec d c h),
    rw (active_timer-armed e a sec usec d c h),
    wait_early (start_sec sec a + d - sec) usec (omega arith) far u,
  )

  enable-inited :
      (now : Option (ℕ × ℕ)) (e : E) (a : Alarm)
      → a.state ≡ inited
      → (k.on_enable e).0 ≡ true
      → enable k system now e a ≡ (
        (active_timer k system (k.on_enable e).1 now a).0,
        (k.on_enable e).1,
        (active_timer k system (k.on_enable e).1 now a).1,
      )
  unfolding enable
  enable-inited now e a h h' = ground arith

  disable-running :
      (e : E) (a : Alarm)
      → a.state ≡ running
      → (k.on_disable e).0 ≡ true
      → disable k system e a ≡ (
        (disable_timer a.timer).0,
        (k.on_disable e).1,
        record a { state = inited; timer = (disable_timer a.timer).1 },
      )
  unfolding disable
  disable-running e a h h' = ground arith

  refresh-running :
      (now : Option (ℕ × ℕ)) (e : E) (a : Alarm)
      → a.state ≡ running
      → refresh k system now e a
        ≡ (active_timer k system e now
            (record a { state = inited; timer = (disable_timer a.timer).1; target_utc_sec = 0 })).1
  unfolding refresh
  refresh-running now e a h = ground arith

-- The times of a weekly alarm.
abbrev pub WeeklyTime : Weekly → ℕ → Type 0
WeeklyTime w = OnDays (λ day. has_bit w.week_mask (weekday day)) w.seconds

module _ (w : Weekly) (system : ℤ) where
  -- `active_timer` arms the timer for the next time of the alarm.
  abbrev Armed : Alarm → ℕ → ℕ → Type 0
  Armed a sec usec =
      (d : ℕ) × (0 < d)
      × (d < 9 * seconds_of_day)
      × (active_timer (weekly_kind w) system tt (some (sec, usec)) a
          ≡ (true, armed_for (start_sec sec a) d sec usec a))
      × IsNext (WeeklyTime w) (local system a (start_sec sec a))
          (local system a (start_sec sec a) + d)

  weekly-Armed :
      (a : Alarm) (sec usec day : ℕ)
      → w.seconds < seconds_of_day
      → day < 7
      → has_bit w.week_mask day ≡ true
      → local system a (start_sec sec a) + 9 * seconds_of_day < 2 ^ 32
      → start_sec sec a + 9 * seconds_of_day < 2 ^ 32
      → Armed a sec usec
  weekly-Armed a sec usec day hs hd hb hl hc =
      go (next_weekly_lem w (local system a (start_sec sec a)) day hs hl hd hb)
    where
      l : ℕ
      l = local system a (start_sec sec a)

      go :
          (t : ℕ) × (next_weekly w l ≡ (true, t))
            × IsNext (WeeklyTime w) l t
            × (t < l + 9 * seconds_of_day)
          → Armed a sec usec
      go (t, e, n, b) =
          let later : l < t = n.later in
          let s : t ≡ l + (t - l) = omega arith in
          (
            t - l,
            omega arith,
            omega arith,
            active_timer-armed (weekly_kind w) system tt a sec usec (t - l)
                (e ∙ ap (λ x. (true, x)) s) (omega arith),
            subst (IsNext (WeeklyTime w) l) s n,
          )

  start_sec-of_le : (sec : ℕ) (a : Alarm) → a.target_utc_sec ≤ sec → start_sec sec a ≡ sec
  unfolding start_sec
  start_sec-of_le sec a h = ground arith

  start_sec-of_lt :
      (sec : ℕ) (a : Alarm) → sec < a.target_utc_sec → start_sec sec a ≡ a.target_utc_sec
  unfolding start_sec
  start_sec-of_lt sec a h = ground arith

  -- Enabling an initialised weekly alarm whose last target is not ahead, with a time below a day
  -- and a bit for some day of the week, while no time stamp wraps within 9 days, returns true and
  -- arms the timer up to the next local time of that kind, the first one after the present, to the
  -- millisecond.
  pub enable-weekly :
      (a : Alarm) (sec usec day : ℕ)
      → a.state ≡ inited
      → a.target_utc_sec ≤ sec
      → w.seconds < seconds_of_day
      → day < 7
      → has_bit w.week_mask day ≡ true
      → local system a sec + 9 * seconds_of_day < 2 ^ 32
      → sec + 9 * seconds_of_day < 2 ^ 32
      → usec < 1000000
      → (d : ℕ) × (enable (weekly_kind w) system (some (sec, usec)) tt a ≡ (
        true,
        tt,
        record a {
          timer = armed (d * 1000 - usec / 1000);
          state = running;
          target_utc_sec = sec + d;
        },
      ))
        × IsNext (WeeklyTime w) (local system a sec) (local system a sec + d)
  enable-weekly a sec usec day hi ht hs hd hb hl hc hu =
      let s : start_sec sec a ≡ sec = start_sec-of_le sec a ht in
      let (d, p, q, e, n) = weekly-Armed a sec usec day hs hd hb (rw s hl) (rw s hc) in
      let z : sec + d - sec ≡ d = omega arith in
      let x : wait d usec ≡ d * 1000 - usec / 1000 = wait_exact d usec p (omega arith) hu in
      (
        d,
        enable-inited (weekly_kind w) system (some (sec, usec)) tt a hi refl ∙ rw e (rw (s, z, x)),
        rw s at n,
      )

  -- A running weekly alarm that is disabled and enabled again before its target skips it: the new
  -- target is a later one, while no time stamp wraps within 9 days of it.
  pub disable-enable :
      (a : Alarm) (sec usec day : ℕ)
      → a.state ≡ running
      → sec < a.target_utc_sec
      → w.seconds < seconds_of_day
      → day < 7
      → has_bit w.week_mask day ≡ true
      → local system a a.target_utc_sec + 9 * seconds_of_day < 2 ^ 32
      → a.target_utc_sec + 9 * seconds_of_day < 2 ^ 32
      → let (_, e, a') = disable (weekly_kind w) system tt a in
        (d : ℕ) × (0 < d)
        × ((enable (weekly_kind w) system (some (sec, usec)) e a').2.target_utc_sec
            ≡ a.target_utc_sec + d)
  unfolding offset
  disable-enable a sec usec day hr ht hs hd hb hl hc =
      let a₁ : Alarm = record a { state = inited; timer = (disable_timer a.timer).1 } in
      let s : start_sec sec a₁ ≡ a.target_utc_sec = start_sec-of_lt sec a₁ ht in
      let (d, p, q, e, n) = weekly-Armed a₁ sec usec day hs hd hb (rw s hl) (rw s hc) in
      (
        d,
        p,
        rw (disable-running (weekly_kind w) system tt a hr refl) (
            rw (enable-inited (weekly_kind w) system (some (sec, usec)) tt a₁ refl refl)
              (rw e (ap (λ x. x + d) s))),
      )

  -- A refresh before the target of a running weekly alarm, which was the first of its times after
  -- an earlier present, keeps the target and arms the timer for what is left up to it, while no
  -- time stamp wraps within 9 days of it.
  pub refresh-weekly :
      (a : Alarm) (sec₀ d₀ sec usec day : ℕ)
      → a.state ≡ running
      → a.target_utc_sec ≡ sec₀ + d₀
      → IsNext (WeeklyTime w) (local system a sec₀) (local system a sec₀ + d₀)
      → sec₀ ≤ sec
      → sec < sec₀ + d₀
      → w.seconds < seconds_of_day
      → day < 7
      → has_bit w.week_mask day ≡ true
      → local system a sec₀ + d₀ + 9 * seconds_of_day < 2 ^ 32
      → sec₀ + d₀ + 9 * seconds_of_day < 2 ^ 32
      → usec < 1000000
      → refresh (weekly_kind w) system (some (sec, usec)) tt a
        ≡ record a { timer = armed ((sec₀ + d₀ - sec) * 1000 - usec / 1000) }
  unfolding offset
  refresh-weekly a sec₀ d₀ sec usec day hr ht hn h₁ h₂ hs hd hb hl hc hu = go (
      weekly-Armed a₁ sec usec day hs hd hb
        (subst (λ t. local system a t + 9 * seconds_of_day < 2 ^ 32) (sym s) (omega (arith, l)))
        (subst (λ t. t + 9 * seconds_of_day < 2 ^ 32) (sym s) (omega arith)))
    where
      a₁ : Alarm
      a₁ = record a { state = inited; timer = (disable_timer a.timer).1; target_utc_sec = 0 }

      s : start_sec sec a₁ ≡ sec
      s = start_sec-of_le sec a₁ (omega arith)

      l : local system a sec ≡ local system a sec₀ + (sec - sec₀)
      l = omega arith

      go :
          Armed a₁ sec usec
          → refresh (weekly_kind w) system (some (sec, usec)) tt a
            ≡ record a { timer = armed ((sec₀ + d₀ - sec) * 1000 - usec / 1000) }
      go (d, p, q, e, n) =
          let n' : IsNext (WeeklyTime w) (local system a sec) (local system a sec + d) =
            subst (λ t. IsNext (WeeklyTime w) (local system a t) (local system a t + d)) s n in
          let u : local system a sec + d ≡ local system a sec₀ + d₀ =
            IsNext-unique hn n' (omega (arith, l)) (omega (arith, l)) in
          let v : sec + d ≡ sec₀ + d₀ = omega (arith, l, u) in
          let x : wait (sec₀ + d₀ - sec) usec ≡ (sec₀ + d₀ - sec) * 1000 - usec / 1000 =
            wait_exact (sec₀ + d₀ - sec) usec (omega arith) (omega arith) hu in
          refresh-running (weekly_kind w) system (some (sec, usec)) tt a hr
          ∙ ap (λ r. r.1) e
          ∙ (λ i. record a {
            timer = armed (wait ((ap (λ t. t + d) s ∙ v) i - sec) usec);
            state = running;
            target_utc_sec = (ap (λ t. t + d) s ∙ v) i;
          })
          ∙ (λ i. record a { timer = armed (x i); state = sym hr i; target_utc_sec = sym ht i })

module _ {E : Type 0} (k : Kind E) (system : ℤ) where
  active_timer-none :
      (e : E) (a : Alarm) (sec usec t : ℕ)
      → k.calculate e (local system a (start_sec sec a)) ≡ (false, t)
      → active_timer k system e (some (sec, usec)) a ≡ (false, a)
  unfolding active_timer
  active_timer-none e a sec usec t h = rw h

  cleanup-inited :
      (e : E) (a : Alarm)
      → a.state ≡ inited
      → ((cleanup k system e a).0 ≡ e) × ((cleanup k system e a).1.state ≡ unready)
  unfolding cleanup disable wipe
  cleanup-inited e a h = ground arith

-- Where an initialised workday alarm finds no time, enable returns false, and the calendar still
-- has the alarm among those that it refreshes, also after the alarm's cleanup.
pub failed_enable-watches :
    (me : ℕ) (w : Workday) (system : ℤ) (c : Calendar) (a : Alarm) (sec usec t : ℕ)
    → a.state ≡ inited
    → next_workday w (subscribe me c) (local system a (start_sec sec a)) ≡ (false, t)
    → let (done, c', a') = enable (workday_kind me w) system (some (sec, usec)) c a in
      let (c'', a'') = cleanup (workday_kind me w) system c' a' in
      (done ≡ false) × (a''.state ≡ unready) × (c''.watch_alarms ≡ c.watch_alarms ++ me ∷ [])
unfolding subscribe
failed_enable-watches me w system c a sec usec t hi h =
    rw (enable-inited (workday_kind me w) system (some (sec, usec)) c a hi refl) (
      rw (active_timer-none (workday_kind me w) system (subscribe me c) a sec usec t h) (
        let x = cleanup-inited (workday_kind me w) system (subscribe me c) a hi in
        (refl, x.1, ap (λ (d : Calendar). d.watch_alarms) x.0)))
