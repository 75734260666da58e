-- ===== src/Pipe/Poll.antt =====
-- The readiness flags of kernel/ipc/pipe.c, which poll reads.
use os_lyre.Base.{ℕ, ◌+◌, ◌^◌, ◌<◌, ◌≡◌, arith, true, false, List, length}
use os_lyre.Pipe.{OpenFlags, Pipe, read_bytes, pipe_read, write_bytes, write_resumed, pipe_write}
use os_lyre.Pipe.Refine.{IsValid, write_count_lem}

-- A flag that is clear means what poll takes it for; a pipe with POLLOUT has room.
pub record IsPolled (p : Pipe) : Type 0 where
  pub no_input : p.pollin ≡ false → p.used ≡ 0
  pub room : p.pollout ≡ true → p.used < p.capacity

-- Every read and every write of a valid pipe keep this: with bytes held POLLIN is set, and
-- with POLLOUT set there is room.
pub pipe-IsPolled :
    (f : OpenFlags) (asked : ℕ) (bytes : List ℕ) (p : Pipe)
    → IsValid p
    → IsPolled p
    → p.used + length bytes < 2 ^ 64
    → IsPolled (pipe_read f asked p).1 × IsPolled (pipe_write bytes p).1
unfolding pipe_read read_bytes pipe_write write_resumed write_bytes
pipe-IsPolled f asked bytes p v k h = (
  record { no_input = ground (arith, k.no_input); room = ground (arith, k.room) },
  record {
    no_input = ground (arith, k.no_input);
    room =
        ground (arith, k.room, write_count_lem p.capacity p.used (length bytes) v.fits v.small h);
  },
)
