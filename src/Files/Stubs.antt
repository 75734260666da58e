-- ===== src/Files/Stubs.antt =====
-- kernel/lib/resource.c: the methods that `resource_create` gives a resource before its owner sets
-- others, as methods over the fields that they use.
use os_lyre.Base.{
  ℕ, ◌+◌, ◌*◌, ◌/◌, ◌%◌, ◌≡◌, arith, Bool, true, ◌||◌, Option, none, some, ◌==◌, if◌then◌else◌,
}
use os_lyre.Base.Words.{add64, sub64}
use os_lyre.Files.{Errno, enosys, enotty, einval, no_error, other, ResourceOps}

-- The fields of a `struct resource` that the stubs read or write. `mode` is st_mode.
pub record Resource : Type 0 where
  pub refcount : ℕ
  pub mode : ℕ
  pub size : ℕ
  pub errno : Errno

-- The requests that `resource_default_ioctl` answers with ENOTTY: TCGETS, TCSETS, TIOCSCTTY and
-- TIOCGWINSZ of the system headers, which are parameters.
pub record TtyRequests : Type 0 where
  pub tcgets : ℕ
  pub tcsets : ℕ
  pub tiocsctty : ℕ
  pub tiocgwinsz : ℕ

unfoldable pub resource_default_ioctl : TtyRequests → Resource → ℕ → Option ℕ × Resource
resource_default_ioctl t r request =
    if request == t.tcgets
      || request == t.tcsets
      || request == t.tiocsctty
      || request == t.tiocgwinsz
    then (none, record r { errno = enotty })
    else (none, record r { errno = einval })

unfoldable pub stub_fail {ℓ} : {A : Type ℓ} → Resource → Option A × Resource
stub_fail r = (none, record r { errno = enosys })

-- st_mode &= ~0777; st_mode |= mode & 0777;
unfoldable pub stub_chmod : ℕ → Resource → Bool × Resource
stub_chmod mode r = (true, record r { mode = r.mode / 512 * 512 + mode % 512 })

unfoldable pub stub_ref : Resource → Resource
stub_ref r = record r { refcount = add64 r.refcount 1 }

unfoldable pub stub_unref : Resource → Resource
stub_unref r = record r { refcount = sub64 r.refcount 1 }

-- The methods of a fresh resource, for the ones that the system calls use.
abbrev pub stub_ops : TtyRequests → ResourceOps Resource
stub_ops t = record {
  ref = λ r d. stub_ref r;
  unref = λ r d. stub_unref r;
  read = λ r d offset count. stub_fail r;
  write = λ r d bytes offset. stub_fail r;
  ioctl = λ r d request arg. resource_default_ioctl t r request;
  kind = λ r. other;
  size = λ r. r.size;
}

-- `resource_create`: zeroed memory with the stubs, if the allocation succeeds.
unfoldable pub resource_create : Bool → Option Resource
resource_create allocated =
    if allocated then some (record { refcount = 0; mode = 0; size = 0; errno = no_error }) else none

-- chmod sets the nine permission bits to those asked for and leaves the bits of the file type alone;
-- a second chmod makes the first without effect.
pub stub_chmod_lem :
    (m n : ℕ) (r : Resource)
    → ((stub_chmod m r).1.mode % 512 ≡ m % 512)
      × ((stub_chmod m r).1.mode / 512 ≡ r.mode / 512)
      × ((stub_chmod n (stub_chmod m r).1).1 ≡ (stub_chmod n r).1)
unfolding stub_chmod
stub_chmod_lem m n r = (omega arith, omega arith, ground arith)
