-- ===== src/Time/Spec.antt =====
-- The arithmetic of kernel/time/time.k.h in nanoseconds.
use os_lyre.Base.{ℕ, ◌+◌, ◌-◌, ◌*◌, ◌/◌, ◌<◌, ◌≡◌, arith, ltb, if◌then◌else◌}
use os_lyre.Time.{Timespec, timespec_add, timespec_sub, nsleep_duration}

abbrev pub nanos : Timespec → ℕ
nanos t = t.tv_sec * 1000000000 + t.tv_nsec

-- fewer nanoseconds than a second has
abbrev pub IsNormal : Timespec → Type 0
IsNormal t = t.tv_nsec < 1000000000

-- The sum of two normal times is normal and has the sum of their nanoseconds.
pub timespec_add_lem :
    (a b : Timespec)
    → IsNormal a
    → IsNormal b
    → IsNormal (timespec_add a b) × (nanos (timespec_add a b) ≡ nanos a + nanos b)
unfolding timespec_add
timespec_add_lem a b h k = ground arith

-- What `timespec_sub` takes off on top of `b` where it borrows a second.
abbrev pub borrow : Timespec → Timespec → ℕ
borrow a b = if ltb a.tv_nsec b.tv_nsec then 1 else 0

-- The difference of two normal times is normal. Where no second is borrowed it is exact, cut off at
-- zero; where one is borrowed it is one nanosecond short, cut off at zero.
pub timespec_sub_lem :
    (a b : Timespec)
    → IsNormal a
    → IsNormal b
    → IsNormal (timespec_sub a b) × (nanos (timespec_sub a b) ≡ nanos a - nanos b - borrow a b)
unfolding timespec_sub
timespec_sub_lem a b h k = ground arith

-- The duration of a sleep of at least a second is longer than was asked for, by its whole seconds.
pub nsleep_duration_lem : (ns : ℕ) → nanos (nsleep_duration ns) ≡ ns + ns / 1000000000 * 1000000000
unfolding nsleep_duration
nsleep_duration_lem ns = omega arith
