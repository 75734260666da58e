-- ===== src/Time/Examples.antt =====
-- kernel/time/time.c at concrete timers and times.
use os_lyre.Base.{ℕ, ◌*◌, ◌<◌, ◌≡◌, ◌≢◌, refl, arith, true, false, none, some, Bool, List, [], ◌∷◌}
use os_lyre.Time.{Timespec, Timer, Clock, timer_arm, zero_time}
use os_lyre.Time.Spec.{nanos, IsNormal}
use os_lyre.Time.Interrupts.{interrupts, locked_count, interrupts_lem}
use os_lyre.Time.Armed.{IsIn, IsValid}
use os_lyre.Time.Arming.{timer_arm-IsValid}

-- two milliseconds and a half
abbrev short : Timespec
short = record { tv_sec = 0; tv_nsec = 2500000 }

abbrev long : Timespec
long = record { tv_sec = 3; tv_nsec = 999999999 }

abbrev fresh : Timer
fresh = record { index = none; fired = false; when = short; triggered = 0 }

abbrev unarmed : Clock
unarmed = record { monotonic = zero_time; realtime = long; timer = λ u. fresh; armed = [] }

none-not : {i : ℕ} → none ≢ some i
none-not e = grind arith

unarmed-IsValid : IsValid unarmed
unarmed-IsValid = ((λ k h. absurd (omega arith)), λ u i e. absurd (none-not e))

abbrev one_timer : Clock
one_timer = timer_arm 7 unarmed

abbrev two_timers : Clock
two_timers = timer_arm 4 one_timer

one_timer-IsValid : IsValid one_timer
one_timer-IsValid = (timer_arm-IsValid unarmed 7 unarmed-IsValid refl).0

index_four : (one_timer.timer 4).index ≡ none
unfolding timer_arm
index_four = refl

two_timers-IsValid : IsValid two_timers
two_timers-IsValid = (timer_arm-IsValid one_timer 4 one_timer-IsValid index_four).0

long-IsNormal : IsNormal long
long-IsNormal = omega arith

armed_four : IsIn two_timers 4
unfolding timer_arm
armed_four = (1, omega arith, refl)

-- Four interrupts, of which one does not get the lock.
abbrev four : List Bool
four = true ∷ false ∷ true ∷ true ∷ []

interrupts_lem_example :
    (nanos short < locked_count four * 1000000
      → (((interrupts four two_timers).timer 4).fired ≡ true)
        × (((interrupts four two_timers).timer 4).triggered ≡ 1))
    × (locked_count four * 1000001 < nanos short
        → (((interrupts four two_timers).timer 4).fired ≡ false)
          × (((interrupts four two_timers).timer 4).triggered ≡ 0))
unfolding timer_arm
interrupts_lem_example =
    interrupts_lem four two_timers 4 two_timers-IsValid armed_four (omega arith) refl
