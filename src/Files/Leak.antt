-- ===== src/Files/Leak.antt =====
-- kernel/lib/resource.c: `fd_from_fdnum` takes a reference to the description, and the system calls
-- never give it back.
use os_lyre.Base.{
  ℕ, zero, suc, ◌+◌, ◌-◌, ◌^◌, ◌<◌, ◌≡◌, refl, ap, ◌∙◌, arith, true, Option, none, some, length,
  get_or,
}
use os_lyre.Base.Words.{add64}
use os_lyre.Base.Int.{pos}
use os_lyre.Files.{
  ResourceOps, Files, max_fds, slot, retain, fd_from_slot, fd_from_fdnum, fdnum_close,
}
use os_lyre.Files.Calls.{read_fd, finish_transfer, syscall_read}
use os_lyre.Files.Create.{fd_index-pos}
use os_lyre.Files.Close.{fdnum_close-IsClosed}

-- What one read through an open descriptor does to the tables, whatever the resource answers.
record IsRead {R : Type 0} (fd : ℕ) (s s' : Files R) : Type 0 where
  table : s'.table ≡ s.table
  descriptor : s'.descriptor ≡ s.descriptor
  count :
      (s'.description (s.descriptor fd).description).refcount
      ≡ add64 (s.description (s.descriptor fd).description).refcount 1
  live :
      (s'.description (s.descriptor fd).description).live
      ≡ (s.description (s.descriptor fd).description).live

pub from_open :
    {R : Type 0} (proc i fd : ℕ) (s : Files R)
    → i < max_fds
    → slot s proc i ≡ some fd
    → fd_from_fdnum proc (pos i) s ≡ (some fd, retain (s.descriptor fd).description s)
unfolding fd_from_fdnum
from_open proc i fd s h e = rw (fd_index-pos i h, fd_from_fdnum) (rw (e, fd_from_slot))

module _ {R : Type 0} (ops : ResourceOps R) where
  finish_transfer-IsRead :
      (fd : ℕ) (o : Option ℕ) (s t : Files R)
      → t.table ≡ s.table
      → t.descriptor ≡ s.descriptor
      → t.description ≡ (retain (s.descriptor fd).description s).description
      → IsRead fd s (finish_transfer ops (s.descriptor fd).description o t).1
  unfolding finish_transfer retain
  finish_transfer-IsRead fd none s t a b c = record {
    table = a;
    descriptor = b;
    count = rw c (ground arith);
    live = rw c (ground arith);
  }
  finish_transfer-IsRead fd (some n) s t a b c = record {
    table = a;
    descriptor = b;
    count = rw c (ground arith);
    live = rw c (ground arith);
  }

  IsRead-open-IsRead :
      (fd count : ℕ) (s : Files R)
      → IsRead fd s (read_fd ops (some fd) count (retain (s.descriptor fd).description s)).1
  unfolding read_fd retain
  IsRead-open-IsRead fd count s = finish_transfer-IsRead fd _ s _ refl refl refl

  syscall_read-IsRead :
      (proc i fd count : ℕ) (s : Files R)
      → i < max_fds
      → slot s proc i ≡ some fd
      → IsRead fd s (syscall_read ops proc (pos i) count s).1
  unfolding syscall_read
  syscall_read-IsRead proc i fd count s h e =
      rw (from_open proc i fd s h e, syscall_read) (IsRead-open-IsRead fd count s)

  -- a number of reads in a row
  pub reads : ℕ → ℕ → ℕ → ℕ → Files R → Files R
  reads zero proc i count s = s
  reads (suc n) proc i count s = reads n proc i count (syscall_read ops proc (pos i) count s).1

  reads-IsRead :
      (n proc i fd count k : ℕ) (s : Files R)
      → i < max_fds
      → slot s proc i ≡ some fd
      → (s.description (s.descriptor fd).description).refcount ≡ k
      → k + n < 2 ^ 64
      → let t = reads n proc i count s in
        (t.table ≡ s.table)
        × (t.descriptor ≡ s.descriptor)
        × ((t.description (s.descriptor fd).description).refcount ≡ k + n)
        × ((t.description (s.descriptor fd).description).live
            ≡ (s.description (s.descriptor fd).description).live)
  unfolding reads
  reads-IsRead zero proc i fd count k s h e r b = (refl, refl, omega arith, refl)
  reads-IsRead (suc n) proc i fd count k s h e r b =
      let one = syscall_read-IsRead proc i fd count s h e in
      let t = (syscall_read ops proc (pos i) count s).1 in
      let open_ : slot t proc i ≡ some fd = ap (λ tbl. get_or (tbl proc) i none) one.table ∙ e in
      let same : (t.descriptor fd).description ≡ (s.descriptor fd).description =
        ap (λ ds. (ds fd).description) one.descriptor in
      let counted : (t.description (t.descriptor fd).description).refcount ≡ k + 1 =
        rw same (omega (arith, one.count)) in
      let rest = reads-IsRead n proc i fd count (k + 1) t h open_ counted (omega arith) in
      (
        rest.0 ∙ one.table,
        rest.1 ∙ one.descriptor,
        omega (arith, rw same at rest.2),
        (rw same at rest.3) ∙ one.live,
      )

  -- A description that was just opened (its count is one) and then read from at least once, whatever
  -- the reads return, is still live after its only descriptor is closed: each read has taken a
  -- reference that nothing gives back, and as many as there were reads are left.
  pub close_leaks :
      (n proc i fd count : ℕ) (s : Files R)
      → i < max_fds
      → i < length (s.table proc)
      → slot s proc i ≡ some fd
      → (s.description (s.descriptor fd).description).refcount ≡ 1
      → (s.description (s.descriptor fd).description).live ≡ true
      → 0 < n
      → n < 2 ^ 64 - 1
      → let t = (fdnum_close ops proc (pos i) (reads n proc i count s)).1 in
        ((t.description (s.descriptor fd).description).live ≡ true)
        × ((t.description (s.descriptor fd).description).refcount ≡ n)
  close_leaks n proc i fd count s h l e r v p b =
      let a = reads-IsRead n proc i fd count 1 s h e r (omega arith) in
      let t = reads n proc i count s in
      let open_ : slot t proc i ≡ some fd = ap (λ tbl. get_or (tbl proc) i none) a.0 ∙ e in
      let same : (t.descriptor fd).description ≡ (s.descriptor fd).description =
        ap (λ ds. (ds fd).description) a.1 in
      let long : i < length (t.table proc) = rw a.0 l in
      let c = (fdnum_close-IsClosed ops proc i fd t h long open_).1 in
      (ground (arith, rw same at c.live, a.2, a.3), omega (arith, rw same at c.count, a.2))
