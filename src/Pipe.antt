-- ===== src/Pipe.antt =====
-- kernel/ipc/pipe.c: a pipe, a ring of bytes with a count of readers and of writers. Each function
-- takes and returns the state; what runs between two waits holds `lock` and is one step, so a read
-- or write that has to wait is the result `wait`, after which the thread tries again on the state it
-- then finds. Pointers into `data` are indices. Flags of <fcntl.h> are the Booleans that the code
-- tests.
pub mod Ring
pub mod Refine
pub mod Poll
mod Examples
use os_lyre.Base.{
  ℕ, zero, suc, ◌+◌, ◌-◌, ◌*◌, Bool, true, false, Option, none, some, List, [], ◌∷◌, ◌++◌, ltb,
  ◌==◌, if◌then◌else◌, length, get_or, set, take, drop, replicate,
}
use os_lyre.Base.Words.{add64, sub64}

-- The access mode and status flags of a description that a pipe looks at.
pub record OpenFlags : Type 0 where
  pub rdwr : Bool
  pub wronly : Bool
  pub nonblock : Bool

pub data Errno : Type 0 where
  epipe eintr : Errno

-- How a read or write ends, or that it waits on the pipe's event.
pub data Outcome {ℓ} (A : Type ℓ) : Type ℓ where
  done : A → Outcome A
  wait : Outcome A
  failed : Errno → Outcome A

-- `struct pipe`, the `status` and `refcount` of its resource included; `wakeups` counts the calls of
-- event_trigger on its event.
pub record Pipe : Type 0 where
  pub buf : List ℕ
  pub capacity : ℕ
  pub read_ptr : ℕ
  pub write_ptr : ℕ
  pub used : ℕ
  pub reader_count : ℕ
  pub writer_count : ℕ
  pub refcount : ℕ
  pub pollin : Bool
  pub pollout : Bool
  pub wakeups : ℕ

-- PIPE_BUF
abbrev pub pipe_buf : ℕ
pipe_buf = 4096 * 16

-- `none` is the panic of ASSERT_MSG.
unfoldable pub pipe_ref : OpenFlags → Pipe → Option Pipe
pipe_ref f p =
    if f.rdwr
    then none
    else some (record p {
      writer_count = if f.wronly then add64 p.writer_count 1 else p.writer_count;
      reader_count = if f.wronly then p.reader_count else add64 p.reader_count 1;
      refcount = add64 p.refcount 1;
      wakeups = p.wakeups + 1;
    })

unfoldable pub pipe_unref : OpenFlags → Pipe → Option Pipe
pipe_unref f p =
    if f.rdwr
    then none
    else some (record p {
      writer_count = if f.wronly then sub64 p.writer_count 1 else p.writer_count;
      reader_count = if f.wronly then p.reader_count else sub64 p.reader_count 1;
      refcount = sub64 p.refcount 1;
      wakeups = p.wakeups + 1;
    })

-- The two parts of a transfer of `count` bytes from index `ptr` on, and the index behind it.
pub record Split : Type 0 where
  pub before_wrap : ℕ
  pub after_wrap : ℕ
  pub new_ptr : ℕ

unfoldable pub split_transfer : ℕ → ℕ → ℕ → Split
split_transfer capacity ptr count =
    if ltb capacity (ptr + count)
    then record {
      before_wrap = capacity - ptr;
      after_wrap = count - (capacity - ptr);
      new_ptr = count - (capacity - ptr);
    }
    else record {
      before_wrap = count;
      after_wrap = 0;
      new_ptr = if ptr + count == capacity then 0 else ptr + count;
    }

-- memcpy out of the ring: `n` bytes from index `i` on.
pub copy_out : List ℕ → ℕ → ℕ → List ℕ
copy_out b i zero = []
copy_out b i (suc n) = get_or b i 0 ∷ copy_out b (i + 1) n

-- memcpy into the ring, from index `i` on.
pub copy_in : List ℕ → ℕ → List ℕ → List ℕ
copy_in b i [] = b
copy_in b i (x ∷ xs) = copy_in (set b i x) (i + 1) xs

-- `pipe_read` from behind its loop to the end, with the bytes that it copies to the caller.
unfoldable pub read_bytes : ℕ → Pipe → List ℕ × Pipe
read_bytes asked p =
    let count = if ltb p.used asked then p.used else asked in
    let s = split_transfer p.capacity p.read_ptr count in
    let used' = p.used - count in
    (
      copy_out p.buf p.read_ptr s.before_wrap ++ copy_out p.buf 0 s.after_wrap,
      record p {
        read_ptr = s.new_ptr;
        used = used';
        pollin = if used' == 0 then false else p.pollin;
        pollout = if ltb used' p.capacity then true else p.pollout;
        wakeups = p.wakeups + 1;
      },
    )

-- One pass of `pipe_read` with the lock held: the test of its loop, and the transfer.
unfoldable pub pipe_read : OpenFlags → ℕ → Pipe → Outcome (List ℕ) × Pipe
pipe_read f asked p =
    if p.used == 0
    then (if p.writer_count == 0
        then (done [], p)
        else if f.nonblock
        then (done [], p)
        else (wait, p))
    else (let (bytes, p') = read_bytes asked p in (done bytes, p'))

-- event_await was interrupted while the read or write waited.
unfoldable pub interrupted {ℓ} : {A : Type ℓ} → Pipe → Outcome A × Pipe
interrupted p = (failed eintr, p)

-- The clamp of `pipe_write`; `used + count` is a size_t.
unfoldable pub write_count : ℕ → ℕ → ℕ → ℕ
write_count capacity used count = if ltb capacity (add64 used count) then capacity - used else count

-- `pipe_write` from behind its loop to the end.
unfoldable pub write_bytes : List ℕ → Pipe → ℕ × Pipe
write_bytes bytes p =
    let count = write_count p.capacity p.used (length bytes) in
    let s = split_transfer p.capacity p.write_ptr count in
    let first = copy_in p.buf p.write_ptr (take s.before_wrap bytes) in
    let used' = p.used + count in
    (
      count,
      record p {
        buf = copy_in first 0 (take s.after_wrap (drop s.before_wrap bytes));
        write_ptr = s.new_ptr;
        used = used';
        pollin = true;
        pollout = if used' == p.capacity then false else p.pollout;
        wakeups = p.wakeups + 1;
      },
    )

-- `pipe_write` from the test of its loop on: where a writer that has waited goes on.
unfoldable pub write_resumed : List ℕ → Pipe → Outcome ℕ × Pipe
write_resumed bytes p =
    if p.used == p.capacity then (wait, p) else (let (n, p') = write_bytes bytes p in (done n, p'))

-- `pipe_write` up to its first wait: a writer that has waited goes on with `write_resumed`, at the pipe as it
-- then is, and so past the test for readers.
unfoldable pub pipe_write : List ℕ → Pipe → Outcome ℕ × Pipe
pipe_write bytes p = if p.reader_count == 0 then (failed epipe, p) else write_resumed bytes p

-- The allocator hands out zeroed memory; whether each allocation succeeds is a parameter.
unfoldable pub pipe_create : Bool → Bool → Option Pipe
pipe_create resource_allocated data_allocated =
    if resource_allocated
    then (if data_allocated
        then some (record {
          buf = replicate pipe_buf 0;
          capacity = pipe_buf;
          read_ptr = 0;
          write_ptr = 0;
          used = 0;
          reader_count = 0;
          writer_count = 0;
          refcount = 0;
          pollin = false;
          pollout = false;
          wakeups = 0;
        })
        else none)
    else none
