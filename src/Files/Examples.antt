-- ===== src/Files/Examples.antt =====
-- Tests of the descriptor table, and its theorems at one process with one open file.
use os_lyre.Base.{
  ℕ, ◌+◌, ◌-◌, ◌<◌, ◌≤◌, ◌≡◌, ◌≢◌, refl, arith, true, false, ◌&&◌, none, some, ◌∷◌, replicate,
  length, ◌==◌, if◌then◌else◌, ◌⊎◌,
}
use mathlib.Core.Option.{some-injective}
use os_lyre.Base.Words.{add64}
use os_lyre.Base.Int.{ℤ, pos, minus_one}
use os_lyre.Files.{
  no_error, no_flags, other, ResourceOps, Files, slot, fd_index, find_free, fd_from_fdnum,
  fdnum_create_from_fd, fdnum_close, max_fds,
}
use os_lyre.Files.Calls.{syscall_read, fdnum_dup}
use os_lyre.Files.Create.{IsFirstFree, fdnum_create_lowest}
use os_lyre.Files.Close.{IsClosed, fdnum_close-IsClosed}
use os_lyre.Files.Dup.{fdnum_dup_lem}
use os_lyre.Files.Leak.{reads, close_leaks}
use os_lyre.Files.Stubs.{Resource}

-- A file of zeros that counts its references: a read returns what is asked for.
abbrev zero_ops : ResourceOps ℕ
zero_ops = record {
  ref = λ r d. r + 1;
  unref = λ r d. r - 1;
  read = λ r d offset count. (some (replicate count 0), r);
  write = λ r d bytes offset. (some (length bytes), r);
  ioctl = λ r d request arg. (none, r);
  kind = λ r. other;
  size = λ r. 100;
}

-- Descriptor 1 of description 0 stands in slot 0 of every process; all other slots are free.
abbrev opened : Files ℕ
opened = record {
  table = λ proc. some 1 ∷ replicate 255 none;
  descriptor = λ fd. record { description = 0; cloexec = false; live = true };
  description = λ d. record { refcount = 1; offset = 10; flags = no_flags; res = 0; live = true };
  resource = λ r. 1;
  next = 2;
  errno = no_error;
}

third_is_free : (fdnum_create_from_fd zero_ops 7 5 (pos 0) false opened).0 ≡ pos 1
unfolding fdnum_create_from_fd find_free
third_is_free = refl

read_moves : (syscall_read zero_ops 7 (pos 0) 3 opened).0 ≡ pos 3
unfolding syscall_read fd_from_fdnum
read_moves = refl

fdnum_create_lowest_example :
    let (n, s') = fdnum_create_from_fd zero_ops 7 5 (pos 0) false opened in
    ((j : ℕ) × (n ≡ pos j)
      × IsFirstFree (opened.table 7) 0 (max_fds - 0) j
      × ((q k : ℕ) → slot s' q k ≡ (if q == 7 && k == j then some 5 else slot opened q k)))
    ⊎ ((n ≡ minus_one) × (s' ≡ opened) × ((k : ℕ) → 0 ≤ k → k < max_fds → slot opened 7 k ≢ none))
fdnum_create_lowest_example = fdnum_create_lowest zero_ops 7 5 0 opened (omega arith) refl

fdnum_close-IsClosed_example :
    ((fdnum_close zero_ops 7 (pos 0) opened).0 ≡ true)
    × IsClosed zero_ops 7 0 1 opened (fdnum_close zero_ops 7 (pos 0) opened).1
fdnum_close-IsClosed_example =
    fdnum_close-IsClosed zero_ops 7 0 1 opened (omega arith) (omega arith) refl

not_open : (i : ℕ) → fd_index (pos 9) ≡ some i → slot opened 7 i ≡ none
unfolding fd_index
not_open i e = rw (← some-injective 9 i e) refl

abbrev duplicated : ℤ × Files ℕ
duplicated = fdnum_dup zero_ops true 7 (pos 0) 7 (pos 0) no_flags false true opened

duplicates :
    fdnum_dup zero_ops true 7 (pos 0) 7 (pos 0) no_flags false true opened ≡ (pos 1, duplicated.1)
unfolding fdnum_dup fd_from_fdnum fdnum_create_from_fd find_free
duplicates = refl

fdnum_dup_lem_example :
    ((duplicated.1.descriptor 2).cloexec ≡ false)
    × ((duplicated.1.descriptor 2).description ≡ 0)
    × ((duplicated.1.description 0).refcount ≡ add64 (add64 1 1) 1)
    × IsFirstFree (opened.table 7) 0 max_fds 1
    × ((q k : ℕ) → slot duplicated.1 q k ≡ (if q == 7 && k == 1 then some 2 else slot opened q k))
fdnum_dup_lem_example =
    fdnum_dup_lem zero_ops 7 0 1 7 0 no_flags true opened 1 duplicated.1 (omega arith) (omega arith)
      refl refl (omega arith) duplicates

close_leaks_example :
    let t = (fdnum_close zero_ops 7 (pos 0) (reads zero_ops 2 7 0 5 opened)).1 in
    ((t.description 0).live ≡ true) × ((t.description 0).refcount ≡ 2)
close_leaks_example =
    close_leaks zero_ops 2 7 0 1 5 opened (omega arith) (omega arith) refl refl refl (omega arith)
      (omega arith)

abbrev directory : Resource
directory = record { refcount = 1; mode = 0o40755; size = 0; errno = no_error }
