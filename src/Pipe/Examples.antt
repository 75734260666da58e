-- ===== src/Pipe/Examples.antt =====
-- Tests of the pipe, and its theorems at a small one.
use os_lyre.Base.{◌≡◌, refl, arith, true, false, not, [], ◌∷◌, ◌==◌}
use os_lyre.Pipe.{
  OpenFlags, Pipe, done, split_transfer, copy_out, read_bytes, pipe_read, write_count, write_bytes,
  write_resumed, pipe_write,
}
use os_lyre.Pipe.Ring.{ahead}
use os_lyre.Pipe.Refine.{
  IsValid, contents, queue_read, queue_write, pipe_read_refines, pipe_write_refines,
}
use os_lyre.Pipe.Poll.{IsPolled}

abbrev reading : OpenFlags
reading = record { rdwr = false; wronly = false; nonblock = false }

-- Three bytes, round the end of the data.
abbrev wrapped : Pipe
wrapped = record {
  buf = 9 ∷ 0 ∷ 7 ∷ 8 ∷ [];
  capacity = 4;
  read_ptr = 2;
  write_ptr = 1;
  used = 3;
  reader_count = 1;
  writer_count = 1;
  refcount = 2;
  pollin = true;
  pollout = true;
  wakeups = 0;
}

read_wraps : (pipe_read reading 10 wrapped).0 ≡ done (7 ∷ 8 ∷ 9 ∷ [])
unfolding pipe_read read_bytes split_transfer copy_out
read_wraps = refl

write_fits : (pipe_write (1 ∷ 2 ∷ []) wrapped).0 ≡ done 1
unfolding pipe_write write_resumed write_bytes write_count
write_fits = refl

wrapped-IsValid : IsValid wrapped
unfolding ahead
wrapped-IsValid = omega arith

wrapped-IsPolled : IsPolled wrapped
wrapped-IsPolled = record { no_input = λ h. absurd (cc); room = λ h. omega arith }

pipe_read_refines_example :
    (((pipe_read reading 2 wrapped).0, contents (pipe_read reading 2 wrapped).1)
      ≡ queue_read (not (1 == 0)) false 2 (contents wrapped))
    × IsValid (pipe_read reading 2 wrapped).1
pipe_read_refines_example = pipe_read_refines reading 2 wrapped wrapped-IsValid

pipe_write_refines_example :
    (((pipe_write (1 ∷ 2 ∷ []) wrapped).0, contents (pipe_write (1 ∷ 2 ∷ []) wrapped).1)
      ≡ queue_write 4 (not (1 == 0)) (1 ∷ 2 ∷ []) (contents wrapped))
    × (((write_resumed (1 ∷ 2 ∷ []) wrapped).0, contents (write_resumed (1 ∷ 2 ∷ []) wrapped).1)
        ≡ queue_write 4 true (1 ∷ 2 ∷ []) (contents wrapped))
    × IsValid (pipe_write (1 ∷ 2 ∷ []) wrapped).1
    × IsValid (write_resumed (1 ∷ 2 ∷ []) wrapped).1
pipe_write_refines_example = pipe_write_refines (1 ∷ 2 ∷ []) wrapped wrapped-IsValid (omega arith)
