-- ===== src/Pipe/Refine.antt =====
-- kernel/ipc/pipe.c as a bounded first-in-first-out queue of bytes.
use os_lyre.Base.{
  true, ℕ, ◌+◌, ◌-◌, ◌^◌, ◌≤◌, ◌<◌, ◌≡◌, refl, ap, ◌∙◌, sym, arith, Bool, List, [], ◌++◌, ltb, ◌==◌,
  if◌then◌else◌, length, take, drop, min, length-take, take-append_length, drop-append_length,
  take_all, drop_all, ◌&&◌, not, leb, Bool-cases, inl, inr,
}
use os_lyre.Pipe.{
  OpenFlags, Outcome, done, wait, failed, epipe, Pipe, read_bytes, pipe_read, write_count,
  write_bytes, write_resumed, pipe_write,
}
use os_lyre.Pipe.Ring.{
  window, length-window, ahead, ahead-lt, window-add, window-fill, fill, length-fill, split-new_ptr,
  copy_out_parts, copy_in_parts,
}

-- The data has the pipe's capacity, the indices lie in it, and the writer is `used` bytes ahead.
pub record IsValid (p : Pipe) : Type 0 where
  pub storage : length p.buf ≡ p.capacity
  pub small : p.capacity ≤ 2 ^ 32
  pub fits : p.used ≤ p.capacity
  pub reader : p.read_ptr < p.capacity
  pub writer : p.write_ptr ≡ ahead p.capacity p.read_ptr p.used

-- the bytes written and not yet read, oldest first
abbrev pub contents : Pipe → List ℕ
contents p = window p.buf p.capacity p.read_ptr p.used

take_prefix : (n : ℕ) (xs ys : List ℕ) → length xs ≡ n → take n (xs ++ ys) ≡ xs
take_prefix n xs ys e = rw (← e) (take-append_length xs ys)

drop_prefix : (n : ℕ) (xs ys : List ℕ) → length xs ≡ n → drop n (xs ++ ys) ≡ ys
drop_prefix n xs ys e = rw (← e) (drop-append_length xs ys)

take-window :
    (b : List ℕ) (size i m n : ℕ)
    → i < size
    → m + n ≤ size
    → (take m (window b size i (m + n)) ≡ window b size i m)
      × (drop m (window b size i (m + n)) ≡ window b size (ahead size i m) n)
take-window b size i m n h g =
    let e = window-add b size i m n h (omega arith) in
    let len = length-window b size i m in
    (
      ap (take m) e ∙ take_prefix m (window b size i m) _ len,
      ap (drop m) e ∙ drop_prefix m (window b size i m) _ len,
    )

-- The queue that a pipe stands for: what a read and a write of it return, and what they leave.
unfoldable pub queue_read : Bool → Bool → ℕ → List ℕ → Outcome (List ℕ) × List ℕ
queue_read writers nonblock asked q =
    if length q == 0
    then (if writers && not nonblock then wait else done [], q)
    else (done (take asked q), drop asked q)

unfoldable pub queue_write : ℕ → Bool → List ℕ → List ℕ → Outcome ℕ × List ℕ
queue_write capacity readers bytes q =
    let n = min (length bytes) (capacity - length q) in
    if readers
    then (if length q == capacity then (wait, q) else (done n, q ++ take n bytes))
    else (failed epipe, q)

clamp_count : (used asked : ℕ) → (if ltb used asked then used else asked) ≡ min asked used
clamp_count used asked = ground arith

take_clamped :
    (asked : ℕ) (q : List ℕ)
    → (take (min asked (length q)) q ≡ take asked q)
      × (drop (min asked (length q)) q ≡ drop asked q)
take_clamped asked q = elim (Bool-cases (leb asked (length q))) [
  | inl h ↦ let e : min asked (length q) ≡ asked = ground arith in rw e (refl, refl)
  | inr h ↦
      let e : min asked (length q) ≡ length q = ground arith in
      rw
        (
          e,
          take_all (length q) q (omega arith),
          take_all asked q (ground arith),
          drop_all (length q) q (omega arith),
          drop_all asked q (ground arith),
        )
        (refl, refl)
]

ahead-add :
    (size i m n : ℕ)
    → i < size
    → m + n ≤ size
    → ahead size (ahead size i m) n ≡ ahead size i (m + n)
unfolding ahead
ahead-add size i m n h g = ground arith

-- What is left when `n` of the bytes held have been taken.
module _ (p : Pipe) (v : IsValid p) (n : ℕ) (held : n ≤ p.used) where
  taken : take n (contents p) ≡ window p.buf p.capacity p.read_ptr n
  taken =
      let all : p.used ≡ n + (p.used - n) = omega arith in
      ap (λ k. take n (window p.buf p.capacity p.read_ptr k)) all
      ∙ (take-window p.buf p.capacity p.read_ptr n (p.used - n) v.reader (omega (arith, v.fits))).0

  remaining :
      drop n (contents p) ≡ window p.buf p.capacity (ahead p.capacity p.read_ptr n) (p.used - n)
  remaining =
      let all : p.used ≡ n + (p.used - n) = omega arith in
      ap (λ k. drop n (window p.buf p.capacity p.read_ptr k)) all
      ∙ (take-window p.buf p.capacity p.read_ptr n (p.used - n) v.reader (omega (arith, v.fits))).1

  writer_stays : p.write_ptr ≡ ahead p.capacity (ahead p.capacity p.read_ptr n) (p.used - n)
  writer_stays =
      let all : n + (p.used - n) ≡ p.used = omega arith in
      v.writer
      ∙ sym (ap (ahead p.capacity p.read_ptr) all)
      ∙ sym (ahead-add p.capacity p.read_ptr n (p.used - n) v.reader (omega (arith, v.fits)))

-- The transfer of a read: the bytes are the oldest, as many as asked for and held, in order.
read_bytes_lem :
    (asked : ℕ) (p : Pipe)
    → IsValid p
    → ((read_bytes asked p).0 ≡ take asked (contents p))
      × (contents (read_bytes asked p).1 ≡ drop asked (contents p))
      × IsValid (read_bytes asked p).1
unfolding read_bytes
read_bytes_lem asked p v =
    rw (clamp_count p.used asked, split-new_ptr p.capacity p.read_ptr n v.reader (omega arith))
      (
        copy_out_parts p.capacity p.read_ptr n v.reader (omega arith) p.buf
            ∙ sym (taken p v n (omega arith))
            ∙ clamped.0,
        sym (remaining p v n (omega arith)) ∙ clamped.1,
        record {
          storage = v.storage;
          small = v.small;
          fits = omega arith;
          reader = ahead-lt p.capacity p.read_ptr n v.reader (omega arith);
          writer = writer_stays p v n (omega arith);
        },
      )
  where
    n : ℕ
    n = min asked p.used

    len : length (contents p) ≡ p.used
    len = length-window p.buf p.capacity p.read_ptr p.used

    clamped :
        (take n (contents p) ≡ take asked (contents p))
        × (drop n (contents p) ≡ drop asked (contents p))
    clamped = rw len at (take_clamped asked (contents p))

pub write_count_lem :
    (capacity used count : ℕ)
    → used ≤ capacity
    → capacity ≤ 2 ^ 32
    → used + count < 2 ^ 64
    → write_count capacity used count ≡ min count (capacity - used)
unfolding write_count
write_count_lem capacity used count h k l = ground arith

-- The transfer of a write: the bytes that fit, in order, become the newest.
write_bytes_lem :
    (bytes : List ℕ) (p : Pipe)
    → IsValid p
    → p.used + length bytes < 2 ^ 64
    → let n = min (length bytes) (p.capacity - p.used) in
      ((write_bytes bytes p).0 ≡ n)
      × (contents (write_bytes bytes p).1 ≡ contents p ++ take n bytes)
      × IsValid (write_bytes bytes p).1
unfolding write_bytes
write_bytes_lem bytes p v h =
    rw
      (
        write_count_lem p.capacity p.used (length bytes) v.fits v.small h,
        v.writer,
        split-new_ptr p.capacity (ahead p.capacity p.read_ptr p.used) n
            (ahead-lt p.capacity p.read_ptr p.used v.reader v.fits) (omega arith),
        copy_in_parts p.capacity (ahead p.capacity p.read_ptr p.used) n
            (ahead-lt p.capacity p.read_ptr p.used v.reader v.fits) (omega arith) p.buf bytes
            (omega arith),
      )
      (
        refl,
        ap (λ k. window filled p.capacity p.read_ptr (p.used + k)) (sym len)
            ∙ window-fill p.buf p.capacity p.read_ptr p.used (take n bytes) v.reader
                (omega (arith, len)) (omega (arith, v.storage)),
        record {
          storage =
              length-fill p.buf p.capacity (ahead p.capacity p.read_ptr p.used) (take n bytes)
              ∙ v.storage;
          small = v.small;
          fits = omega arith;
          reader = v.reader;
          writer = ahead-add p.capacity p.read_ptr p.used n v.reader (omega arith);
        },
      )
  where
    n : ℕ
    n = min (length bytes) (p.capacity - p.used)

    filled : List ℕ
    filled = fill p.buf p.capacity (ahead p.capacity p.read_ptr p.used) (take n bytes)

    len : length (take n bytes) ≡ n
    len = omega (arith, length-take n bytes)

-- On a valid pipe `pipe_read` is the read of the queue: with bytes held it returns the oldest, as many
-- as are asked for and held, and removes them; with none it ends with no byte if no writer is left or
-- the description does not block, and waits otherwise. The pipe stays valid.
pub pipe_read_refines :
    (f : OpenFlags) (asked : ℕ) (p : Pipe)
    → IsValid p
    → (((pipe_read f asked p).0, contents (pipe_read f asked p).1)
        ≡ queue_read (not (p.writer_count == 0)) f.nonblock asked (contents p))
      × IsValid (pipe_read f asked p).1
unfolding pipe_read queue_read
pipe_read_refines f asked p v =
    ground (arith, read_bytes_lem asked p v, length-window p.buf p.capacity p.read_ptr p.used)

-- On a valid pipe `pipe_write` of a list of bytes (whose length with the bytes held does not wrap) is, up to
-- its first wait, the write of the queue: it fails with EPIPE if no reader is left, waits if the queue is
-- full, and otherwise appends as many bytes as fit and returns their number. Where it goes on after a wait it
-- is the write of a queue that has a reader, whether or not one is left. The pipe stays valid.
pub pipe_write_refines :
    (bytes : List ℕ) (p : Pipe)
    → IsValid p
    → p.used + length bytes < 2 ^ 64
    → (((pipe_write bytes p).0, contents (pipe_write bytes p).1)
        ≡ queue_write p.capacity (not (p.reader_count == 0)) bytes (contents p))
      × (((write_resumed bytes p).0, contents (write_resumed bytes p).1)
          ≡ queue_write p.capacity true bytes (contents p))
      × IsValid (pipe_write bytes p).1
      × IsValid (write_resumed bytes p).1
unfolding pipe_write write_resumed queue_write
pipe_write_refines bytes p v h =
    let w = write_bytes_lem bytes p v h in
    let n = length-window p.buf p.capacity p.read_ptr p.used in
    (ground (arith, w, n), ground (arith, w, n), ground (arith, w), ground (arith, w))
