-- ===== src/Files.antt =====
-- kernel/lib/resource.c and resource.k.h: descriptors, open file descriptions and the system calls on
-- them. Pointers are addresses in the stores of `Files`; freed memory is marked, and the spinlocks are
-- not modelled: a call runs with the table's lock held. Whether an allocation succeeds is an argument.
pub mod Create
pub mod Close
pub mod Calls
pub mod Dup
pub mod Leak
pub mod Syscalls
pub mod Stubs
mod Examples
use os_lyre.Base.{
  ℕ, zero, suc, ◌+◌, ◌-◌, Bool, true, false, ◌&&◌, Option, none, some, List, [], ◌∷◌, ltb, ◌==◌,
  if◌then◌else◌, length, get_or, set,
}
use os_lyre.Base.Words.{add64, sub64}
use os_lyre.Base.Int.{ℤ, pos, negsuc, ◌+ℤ◌, minus_one}

-- MAX_FDS of kernel/sched/proc.k.h
abbrev pub max_fds : ℕ
max_fds = 256

pub data Errno : Type 0 where
  no_error ebadf einval enomem espipe enotty enosys : Errno

-- The bits of an `int` of open flags, in the three groups that resource.k.h tells apart: O_CLOEXEC,
-- the file creation flags and all others.
pub record OpenFlags : Type 0 where
  pub cloexec : Bool
  pub creation : ℕ
  pub status : ℕ

-- flags & FILE_STATUS_FLAGS_MASK
unfoldable pub status_flags : OpenFlags → OpenFlags
status_flags f = record { cloexec = false; creation = 0; status = f.status }

abbrev pub no_flags : OpenFlags
no_flags = record { cloexec = false; creation = 0; status = 0 }

-- `struct f_description`; `live` is false once it is freed.
pub record Description : Type 0 where
  pub refcount : ℕ
  pub offset : ℕ
  pub flags : OpenFlags
  pub res : ℕ
  pub live : Bool

-- `struct f_descriptor`, whose flags are O_CLOEXEC or nothing.
pub record Descriptor : Type 0 where
  pub description : ℕ
  pub cloexec : Bool
  pub live : Bool

-- What st_mode says of the file type, as far as `syscall_seek` asks.
pub data FileType : Type 0 where
  character_device fifo socket other : FileType

-- The methods of a `struct resource`, over what a kind of resource keeps: `none` is a negative
-- result. A read returns the bytes that it put into the caller's buffer.
pub record ResourceOps (R : Type 0) : Type 0 where
  pub ref : R → Description → R
  pub unref : R → Description → R
  pub read : R → Description → ℕ → ℕ → Option (List ℕ) × R
  pub write : R → Description → List ℕ → ℕ → Option ℕ × R
  pub ioctl : R → Description → ℕ → ℕ → Option ℕ × R
  pub kind : R → FileType
  pub size : R → ℕ

-- The descriptor table of each process, the stores, the next free address and `errno`.
pub record Files (R : Type 0) : Type 0 where
  pub table : ℕ → List (Option ℕ)
  pub descriptor : ℕ → Descriptor
  pub description : ℕ → Description
  pub resource : ℕ → R
  pub next : ℕ
  pub errno : Errno

abbrev pub update : {A : Type 0} → (ℕ → A) → ℕ → A → ℕ → A
update f k v j = if j == k then v else f j

-- `fdnum < 0 || fdnum >= MAX_FDS` gives none.
unfoldable pub fd_index : ℤ → Option ℕ
fd_index (pos n) = if ltb n max_fds then some n else none
fd_index (negsuc n) = none

-- The loop of `fdnum_create_from_fd`: the first free slot from `i` on, by the rounds left.
pub find_free : List (Option ℕ) → ℕ → ℕ → Option ℕ
find_free fds i zero = none
find_free fds i (suc rounds) = elim (get_or fds i none) [
  | none ↦ some i
  | some fd ↦ find_free fds (i + 1) rounds
]

module _ {R : Type 0} where
  unfoldable pub fail_with : Errno → Files R → Files R
  fail_with e s = record s { errno = e }

  -- proc->fds[i]
  abbrev pub slot : Files R → ℕ → ℕ → Option ℕ
  slot s proc i = get_or (s.table proc) i none

  unfoldable pub set_slot : ℕ → ℕ → Option ℕ → Files R → Files R
  set_slot proc i v s = record s { table = update s.table proc (set (s.table proc) i v) }

  -- The change of a description's count in place.
  unfoldable pub set_description : ℕ → Description → Files R → Files R
  set_description d v s = record s { description = update s.description d v }

  -- `refcount++`
  unfoldable pub retain : ℕ → Files R → Files R
  unfolding set_description
  retain d s =
      let desc = s.description d in
      set_description d (record desc { refcount = add64 desc.refcount 1 }) s

  -- `if (description->refcount-- == 1) free(description);`
  unfoldable pub release : ℕ → Files R → Files R
  unfolding set_description
  release d s =
      let desc = s.description d in
      set_description d
        (record desc {
          refcount = sub64 desc.refcount 1;
          live = if desc.refcount == 1 then false else desc.live;
        })
        s

  unfoldable pub fd_from_slot : Option ℕ → Files R → Option ℕ × Files R
  unfolding retain fail_with
  fd_from_slot none s = (none, fail_with ebadf s)
  fd_from_slot (some fd) s = (some fd, retain (s.descriptor fd).description s)

  unfoldable pub fd_from_fdnum : ℕ → ℤ → Files R → Option ℕ × Files R
  unfolding fd_from_slot fd_index
  fd_from_fdnum proc fdnum s = elim (fd_index fdnum) [
    | none ↦ (none, fail_with ebadf s)
    | some i ↦ fd_from_slot (slot s proc i) s
  ]

module _ {R : Type 0} (ops : ResourceOps R) where
  -- `res->unref(res, description)`
  unfoldable pub resource_unref : ℕ → Files R → Files R
  resource_unref d s =
      let desc = s.description d in
      record s { resource = update s.resource desc.res (ops.unref (s.resource desc.res) desc) }

  unfoldable pub resource_ref : ℕ → Files R → Files R
  resource_ref d s =
      let desc = s.description d in
      record s { resource = update s.resource desc.res (ops.ref (s.resource desc.res) desc) }

  unfoldable pub free_descriptor : ℕ → Files R → Files R
  free_descriptor fd s = record s {
    descriptor = update s.descriptor fd (record (s.descriptor fd) { live = false });
  }

  unfoldable pub close_slot : ℕ → ℕ → Option ℕ → Files R → Bool × Files R
  unfolding resource_unref release free_descriptor set_slot fail_with
  close_slot proc i none s = (false, fail_with ebadf s)
  close_slot proc i (some fd) s =
      let d = (s.descriptor fd).description in
      (true, set_slot proc i none (free_descriptor fd (release d (resource_unref d s))))

  unfoldable pub fdnum_close : ℕ → ℤ → Files R → Bool × Files R
  unfolding close_slot fd_index
  fdnum_close proc fdnum s = elim (fd_index fdnum) [
    | none ↦ (false, fail_with ebadf s)
    | some i ↦ close_slot proc i (slot s proc i) s
  ]

  -- Where a descriptor is put: into the first free slot, if there is one, or into the one given.
  unfoldable pub put_free : ℕ → ℕ → Option ℕ → Files R → ℤ × Files R
  unfolding set_slot
  put_free proc fd none s = (minus_one, s)
  put_free proc fd (some i) s = (pos i, set_slot proc i (some fd) s)

  unfoldable pub fdnum_create_from_fd : ℕ → ℕ → ℤ → Bool → Files R → ℤ × Files R
  unfolding put_free fd_index
  fdnum_create_from_fd proc fd old_fdnum specific s = elim (fd_index old_fdnum) [
    | none ↦ (minus_one, fail_with ebadf s)
    | some i ↦
        if specific
        then (pos i, set_slot proc i (some fd) (fdnum_close proc (pos i) s).1)
        else put_free proc fd (find_free (s.table proc) i (max_fds - i)) s
  ]

  -- Two allocations: the description's and the descriptor's.
  unfoldable pub fd_create_from_resource :
      Bool → Bool → ℕ → OpenFlags → Files R → Option ℕ × Files R
  unfolding status_flags
  fd_create_from_resource alloc_description alloc_descriptor res flags s =
      let desc : Description = record {
        refcount = 1;
        offset = 0;
        flags = status_flags flags;
        res = res;
        live = true;
      } in
      let fd : Descriptor = record { description = s.next; cloexec = flags.cloexec; live = true } in
      if alloc_description && alloc_descriptor
      then (
        some (s.next + 1),
        record s {
          description = update s.description s.next desc;
          resource = update s.resource res (ops.ref (s.resource res) desc);
          descriptor = update s.descriptor (s.next + 1) fd;
          next = s.next + 2;
        },
      )
      else (none, s)

  unfoldable pub fdnum_create_from_resource :
      Bool → Bool → ℕ → ℕ → OpenFlags → ℤ → Bool → Files R → ℤ × Files R
  fdnum_create_from_resource alloc_description alloc_descriptor proc res flags old_fdnum specific
        s =
      let (fd, s') = fd_create_from_resource alloc_description alloc_descriptor res flags s in
      elim fd [
        | none ↦ (minus_one, s')
        | some a ↦ fdnum_create_from_fd proc a old_fdnum specific s'
      ]
