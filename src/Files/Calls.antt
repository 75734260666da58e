-- ===== src/Files/Calls.antt =====
-- kernel/lib/resource.c: duplicating a descriptor, and the system calls that go through one.
use os_lyre.Base.{
  ℕ, ◌+◌, Bool, true, false, ◌&&◌, Option, none, some, List, ◌==◌, if◌then◌else◌, length,
}
use os_lyre.Base.Int.{ℤ, pos, negsuc, ◌+ℤ◌, minus_one}
use os_lyre.Files.{
  einval, enomem, espipe, OpenFlags, no_flags, FileType, other, ResourceOps, Files, update,
  fail_with, set_description, retain, resource_ref, fd_from_fdnum, fdnum_close,
  fdnum_create_from_fd,
}

abbrev int_eq : ℤ → ℤ → Bool
int_eq (pos a) (pos b) = a == b
int_eq (negsuc a) (negsuc b) = a == b
int_eq _ _ = false

module _ {R : Type 0} where
  -- `description->offset += n`
  unfoldable pub advance : ℕ → ℕ → Files R → Files R
  unfolding set_description
  advance d n s =
      let desc = s.description d in set_description d (record desc { offset = desc.offset + n }) s

  unfoldable pub set_flags : ℕ → OpenFlags → Files R → Files R
  unfolding set_description
  set_flags d flags s = set_description d (record (s.description d) { flags = flags }) s

  unfoldable pub set_cloexec : ℕ → Bool → Files R → Files R
  set_cloexec fd on s = record s {
    descriptor = update s.descriptor fd (record (s.descriptor fd) { cloexec = on });
  }

module _ {R : Type 0} (ops : ResourceOps R) where
  -- The end of `fdnum_dup`, once the copy `new_fd` has its number.
  unfoldable pub finish_dup : ℕ → ℕ → OpenFlags → Bool → ℤ × Files R → ℤ × Files R
  unfolding set_cloexec retain resource_ref
  finish_dup old_fd new_fd flags cloexec (negsuc n, s) = (minus_one, s)
  finish_dup old_fd new_fd flags cloexec (pos i, s) =
      let d = (s.descriptor old_fd).description in
      let masked = flags.cloexec in
      let s' = set_cloexec new_fd (if cloexec then masked && true else masked) s in
      (pos i, resource_ref ops d (retain d s'))

  -- `fdnum_dup` from the allocation on, the copy being made at the next free address.
  unfoldable pub copy_fd : Bool → Option ℕ → ℕ → ℤ → OpenFlags → Bool → Bool → Files R → ℤ × Files R
  unfolding finish_dup fail_with
  copy_fd allocated none new_proc new_fdnum flags specific cloexec s = (minus_one, s)
  copy_fd allocated (some old_fd) new_proc new_fdnum flags specific cloexec s =
      let copied = record s {
        descriptor = update s.descriptor s.next (s.descriptor old_fd);
        next = s.next + 1;
      } in
      if allocated
      then finish_dup old_fd s.next flags cloexec
          (fdnum_create_from_fd ops new_proc s.next new_fdnum specific copied)
      else (minus_one, fail_with enomem s)

  unfoldable pub fdnum_dup : Bool → ℕ → ℤ → ℕ → ℤ → OpenFlags → Bool → Bool → Files R → ℤ × Files R
  unfolding copy_fd fail_with
  fdnum_dup allocated old_proc old_fdnum new_proc new_fdnum flags specific cloexec s =
      if specific && int_eq old_fdnum new_fdnum && old_proc == new_proc
      then (minus_one, fail_with einval s)
      else (let (old_fd, s') = fd_from_fdnum old_proc old_fdnum s in
          copy_fd allocated old_fd new_proc new_fdnum flags specific cloexec s')

  unfoldable pub syscall_close : ℕ → ℤ → Files R → ℤ × Files R
  syscall_close proc fdnum s =
      let (ok, s') = fdnum_close ops proc fdnum s in (if ok then pos 0 else minus_one, s')

  -- A transfer that went through: its length is the result, and moves the offset.
  unfoldable pub finish_transfer : ℕ → Option ℕ → Files R → ℤ × Files R
  unfolding advance
  finish_transfer d none s = (minus_one, s)
  finish_transfer d (some n) s = (pos n, advance d n s)

  unfoldable pub read_fd : Option ℕ → ℕ → Files R → ℤ × Files R
  unfolding finish_transfer
  read_fd none count s = (minus_one, s)
  read_fd (some fd) count s =
      let d = (s.descriptor fd).description in
      let desc = s.description d in
      let (bytes, r) = ops.read (s.resource desc.res) desc desc.offset count in
      finish_transfer d (elim bytes [ none ↦ none | some b ↦ some (length b) ])
        (record s { resource = update s.resource desc.res r })

  unfoldable pub syscall_read : ℕ → ℤ → ℕ → Files R → ℤ × Files R
  unfolding read_fd
  syscall_read proc fdnum count s = let (fd, s') = fd_from_fdnum proc fdnum s in read_fd fd count s'

  unfoldable pub write_fd : Option ℕ → List ℕ → Files R → ℤ × Files R
  unfolding finish_transfer
  write_fd none bytes s = (minus_one, s)
  write_fd (some fd) bytes s =
      let d = (s.descriptor fd).description in
      let desc = s.description d in
      let (n, r) = ops.write (s.resource desc.res) desc bytes desc.offset in
      finish_transfer d n (record s { resource = update s.resource desc.res r })

  unfoldable pub syscall_write : ℕ → ℤ → List ℕ → Files R → ℤ × Files R
  unfolding write_fd
  syscall_write proc fdnum bytes s =
      let (fd, s') = fd_from_fdnum proc fdnum s in write_fd fd bytes s'

  unfoldable pub ioctl_fd : Option ℕ → ℕ → ℕ → Files R → ℤ × Files R
  ioctl_fd none request arg s = (minus_one, s)
  ioctl_fd (some fd) request arg s =
      let desc = s.description (s.descriptor fd).description in
      let (n, r) = ops.ioctl (s.resource desc.res) desc request arg in
      (
        elim n [ none ↦ minus_one | some v ↦ pos v ],
        record s { resource = update s.resource desc.res r },
      )

  unfoldable pub syscall_ioctl : ℕ → ℤ → ℕ → ℕ → Files R → ℤ × Files R
  unfolding ioctl_fd
  syscall_ioctl proc fdnum request arg s =
      let (fd, s') = fd_from_fdnum proc fdnum s in ioctl_fd fd request arg s'

-- The arguments `whence` of a seek.
pub data Whence : Type 0 where
  seek_cur seek_end seek_set bad_whence : Whence

abbrev pub can_seek : FileType → Bool
can_seek other = true
can_seek _ = false

-- The new offset, if `whence` is known.
unfoldable pub seek_target : Whence → ℕ → ℕ → ℤ → Option ℤ
seek_target seek_cur at size offset = some (pos at +ℤ offset)
seek_target seek_end at size offset = some (offset +ℤ pos size)
seek_target seek_set at size offset = some offset
seek_target bad_whence at size offset = none

module _ {R : Type 0} (ops : ResourceOps R) where
  unfoldable pub finish_seek : ℕ → Option ℤ → Files R → ℤ × Files R
  unfolding fail_with set_description
  finish_seek d none s = (minus_one, fail_with einval s)
  finish_seek d (some (negsuc n)) s = (minus_one, fail_with einval s)
  finish_seek d (some (pos n)) s =
      (pos n, set_description d (record (s.description d) { offset = n }) s)

  unfoldable pub seek_fd : Option ℕ → ℤ → Whence → Files R → ℤ × Files R
  unfolding finish_seek fail_with seek_target
  seek_fd none offset whence s = (minus_one, s)
  seek_fd (some fd) offset whence s =
      let d = (s.descriptor fd).description in
      let desc = s.description d in
      let r = s.resource desc.res in
      if can_seek (ops.kind r)
      then finish_seek d (seek_target whence desc.offset (ops.size r) offset) s
      else (minus_one, fail_with espipe s)

  unfoldable pub syscall_seek : ℕ → ℤ → ℤ → Whence → Files R → ℤ × Files R
  unfolding seek_fd
  syscall_seek proc fdnum offset whence s =
      let (fd, s') = fd_from_fdnum proc fdnum s in seek_fd fd offset whence s'

  unfoldable pub syscall_dup3 : Bool → ℕ → ℤ → ℤ → OpenFlags → Files R → ℤ × Files R
  syscall_dup3 allocated proc old_fdnum new_fdnum flags s =
      fdnum_dup ops allocated proc old_fdnum proc new_fdnum flags true false s

-- The requests of fcntl with their arguments.
pub data Request : Type 0 where
  dupfd dupfd_cloexec : ℤ → Request
  getfd : Request
  setfd : Bool → Request
  getfl : Request
  setfl : OpenFlags → Request
  unknown : Request

-- What fcntl returns: a number, or the flags asked for.
pub data Reply : Type 0 where
  number : ℤ → Reply
  fd_flags : Bool → Reply
  file_flags : OpenFlags → Reply

abbrev as_reply : {S : Type 0} → ℤ × S → Reply × S
as_reply (n, s) = (number n, s)

module _ {R : Type 0} (ops : ResourceOps R) where
  unfoldable pub fcntl_fd : Bool → ℕ → ℤ → Option ℕ → Request → Files R → Reply × Files R
  unfolding fail_with set_cloexec set_flags
  fcntl_fd allocated proc fdnum none request s = (number minus_one, s)
  fcntl_fd allocated proc fdnum (some fd) request s =
      let d = (s.descriptor fd).description in
      elim request [
        | dupfd arg ↦ as_reply (fdnum_dup ops allocated proc fdnum proc arg no_flags false false s)
        | dupfd_cloexec arg ↦
            as_reply (fdnum_dup ops allocated proc fdnum proc arg no_flags false true s)
        | getfd ↦ (fd_flags (s.descriptor fd).cloexec, s)
        | setfd on ↦ (number (pos 0), set_cloexec fd on s)
        | getfl ↦ (file_flags (s.description d).flags, s)
        | setfl flags ↦ (number (pos 0), set_flags d flags s)
        | unknown ↦ (number minus_one, fail_with einval s)
      ]

  unfoldable pub syscall_fcntl : Bool → ℕ → ℤ → Request → Files R → Reply × Files R
  unfolding fcntl_fd
  syscall_fcntl allocated proc fdnum request s =
      let (fd, s') = fd_from_fdnum proc fdnum s in fcntl_fd allocated proc fdnum fd request s'
