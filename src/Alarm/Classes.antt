-- ===== src/Alarm/Classes.antt =====
-- modules/alarm: all that can be done to a weekly, a one-shot and a workday alarm. What a class keeps is its own
-- state, which initialize sets; a workday alarm keeps its one calendar.
use cpp_tbox.Common.{ℕ, ◌≡◌, refl, Bool, true, Option, List, [], ◌∷◌, arith}
use cpp_tbox.Common.Int.{ℤ, pos, negsuc}
use cpp_tbox.Alarm.{
  armed, Alarm, Kind, set_timezone, enable, disable, cleanup, refresh, on_time_expired,
  on_time_expired_once,
}
use cpp_tbox.Alarm.Schedules.{
  Weekly, next_weekly, next_oneshot, Calendar, subscribe, unsubscribe, Workday, next_workday,
  set_up_weekly, set_up_oneshot, set_up_workday,
}
use cpp_tbox.Alarm.Life.{
  IsSound, enable-IsSound, refresh-IsSound, disable-IsSound, cleanup-IsSound,
  on_time_expired-IsSound, on_time_expired_once-IsSound,
}

-- The virtual functions of a class, its initialize from arguments in `I`, and its onTimeExpired.
pub record AlarmClass (E I : Type 0) : Type 0 where
  kind : Kind E
  initialize : I → E → Alarm → Bool × E × Alarm
  on_expired : ℤ → Option (ℕ × ℕ) → E → Alarm → Alarm

abbrev pub weekly_class : AlarmClass Weekly (ℤ × List ℕ)
weekly_class =
    let kind : Kind Weekly = record {
      calculate = next_weekly;
      on_enable = λ w. (true, w);
      on_disable = λ w. (true, w);
    } in
    record {
      kind = kind;
      initialize = λ (n, mask) w a. let (ok, a', w') = set_up_weekly n mask a w in (ok, w', a');
      on_expired = on_time_expired kind;
    }

abbrev pub oneshot_class : AlarmClass ℕ ℤ
oneshot_class = record {
  kind = record {
    calculate = next_oneshot;
    on_enable = λ seconds. (true, seconds);
    on_disable = λ seconds. (true, seconds);
  };
  initialize =
      λ n seconds a. let (ok, a', seconds') = set_up_oneshot n a seconds in (ok, seconds', a');
  on_expired = λ _ _ _ a. on_time_expired_once a;
}

-- The alarm of the number `me`.
abbrev pub workday_class : ℕ → AlarmClass (Workday × Calendar) (ℤ × Bool × Bool)
workday_class me =
    let kind : Kind (Workday × Calendar) = record {
      calculate = λ (w, c) curr. next_workday w c curr;
      on_enable = λ (w, c). (true, (w, subscribe me c));
      on_disable = λ (w, c). (true, (w, unsubscribe me c));
    } in
    record {
      kind = kind;
      initialize = λ (n, given, workday) (w, c) a.
          let (ok, a', w') = set_up_workday n given workday a w in (ok, (w', c), a');
      on_expired = on_time_expired kind;
    }

-- What is done to an alarm; the event loop calls the function of an armed timer only.
pub data Op (I : Type 0) : Type 0 where
  initialized : I → Op I
  zone : ℤ → Op I
  enabled : Option (ℕ × ℕ) → Op I
  disabled : Op I
  cleaned : Op I
  refreshed : Option (ℕ × ℕ) → Op I
  expired : Option (ℕ × ℕ) → Op I

module _ {E I : Type 0} (c : AlarmClass E I) (system : ℤ) where
  pub apply : Op I → E → Alarm → E × Alarm
  apply (initialized i) e a = let (ok, e', a') = c.initialize i e a in (e', a')
  apply (zone n) e a = (e, set_timezone n a)
  apply (enabled now) e a = let (ok, e', a') = enable c.kind system now e a in (e', a')
  apply disabled e a = let (ok, e', a') = disable c.kind system e a in (e', a')
  apply cleaned e a = cleanup c.kind system e a
  apply (refreshed now) e a = (e, refresh c.kind system now e a)
  apply (expired now) e a = elim a.timer [ armed n ↦ (e, c.on_expired system now e a) | _ ↦ (e, a) ]

  pub apply_all : List (Op I) → E → Alarm → E × Alarm
  apply_all [] e a = (e, a)
  apply_all (op ∷ ops) e a = let (e', a') = apply op e a in apply_all ops e' a'

  module _ (accepts : (e : E) → (c.kind.on_disable e).0 ≡ true)
      (begun : (i : I) (e : E) (a : Alarm)
        → IsSound a.state a.timer
        → IsSound (c.initialize i e a).2.state (c.initialize i e a).2.timer)
      (ended : (now : Option (ℕ × ℕ)) (e : E) (a : Alarm)
        → IsSound a.state a.timer
        → IsSound (c.on_expired system now e a).state (c.on_expired system now e a).timer) where
    apply-IsSound :
        (op : Op I) (e : E) (a : Alarm)
        → IsSound a.state a.timer
        → IsSound (apply op e a).1.state (apply op e a).1.timer
    unfolding apply set_timezone
    apply-IsSound (initialized i) e a s = begun i e a s
    apply-IsSound (zone n) e a s = s
    apply-IsSound (enabled now) e a s = enable-IsSound c.kind system e now a s
    apply-IsSound disabled e a s = disable-IsSound c.kind system accepts e a s
    apply-IsSound cleaned e a s = cleanup-IsSound c.kind system accepts e a s
    apply-IsSound (refreshed now) e a s = refresh-IsSound c.kind system e now a s
    apply-IsSound (expired now) e a s = ground (arith, ended now e a s)

    all-IsSound :
        (ops : List (Op I)) (e : E) (a : Alarm)
        → IsSound a.state a.timer
        → IsSound (apply_all ops e a).1.state (apply_all ops e a).1.timer
    unfolding apply_all
    all-IsSound [] e a s = s
    all-IsSound (op ∷ ops) e a s =
        all-IsSound ops (apply op e a).0 (apply op e a).1 (apply-IsSound op e a s)

weekly-IsSound :
    (i : ℤ × List ℕ) (w : Weekly) (a : Alarm)
    → IsSound a.state a.timer
    → IsSound (weekly_class.initialize i w a).2.state (weekly_class.initialize i w a).2.timer
unfolding set_up_weekly
weekly-IsSound (pos n, mask) w a s = ground arith
weekly-IsSound (negsuc n, mask) w a s = s

oneshot-IsSound :
    (i : ℤ) (w : ℕ) (a : Alarm)
    → IsSound a.state a.timer
    → IsSound (oneshot_class.initialize i w a).2.state (oneshot_class.initialize i w a).2.timer
unfolding set_up_oneshot
oneshot-IsSound (pos n) w a s = ground arith
oneshot-IsSound (negsuc n) w a s = s

workday-IsSound :
    (me : ℕ) (i : ℤ × Bool × Bool) (e : Workday × Calendar) (a : Alarm)
    → IsSound a.state a.timer
    → IsSound
        ((workday_class me).initialize i e a).2.state
        ((workday_class me).initialize i e a).2.timer
unfolding set_up_workday
workday-IsSound me (pos n, given, workday) e a s = ground arith
workday-IsSound me (negsuc n, given, workday) e a s = s

-- Of a weekly, a one-shot and a workday alarm, whatever sequence of initialize, setTimezone,
-- enable, disable, cleanup, refresh and calls of its armed timer is done to it, the timer is armed
-- exactly while the alarm is in the state running, if it was so before.
pub apply_all-IsSound :
    (system : ℤ) (a : Alarm) (as_weekly : List (Op (ℤ × List ℕ))) (w : Weekly)
    (as_oneshot : List (Op ℤ)) (seconds : ℕ) (as_workday : List (Op (ℤ × Bool × Bool))) (me : ℕ)
    (e : Workday × Calendar)
    → IsSound a.state a.timer
    → let (_, a₁) = apply_all weekly_class system as_weekly w a in
      let (_, a₂) = apply_all oneshot_class system as_oneshot seconds a in
      let (_, a₃) = apply_all (workday_class me) system as_workday e a in
      IsSound a₁.state a₁.timer × IsSound a₂.state a₂.timer × IsSound a₃.state a₃.timer
apply_all-IsSound system a as_weekly w as_oneshot seconds as_workday me e s = (
  all-IsSound weekly_class system (λ _. refl) weekly-IsSound
      (λ now e' b h. on_time_expired-IsSound weekly_class.kind system e' now b h) as_weekly w a s,
  all-IsSound oneshot_class system (λ _. refl) oneshot-IsSound
      (λ now e' b h. on_time_expired_once-IsSound b h) as_oneshot seconds a s,
  all-IsSound (workday_class me) system (λ _. refl) (workday-IsSound me)
      (λ now e' b h. on_time_expired-IsSound (workday_class me).kind system e' now b h) as_workday e
      a s,
)
