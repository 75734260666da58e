-- ===== src/Tmpfs/Examples.antt =====
-- Tests of kernel/fs/tmpfs.c, and its theorems at a file of three bytes.
use mathlib.Core.Path.{subst}
use os_lyre.Base.{
  some_inj, ℕ, ◌+◌, ◌-◌, ◌^◌, ◌≤◌, ◌<◌, ◌≡◌, ◌⊎◌, refl, arith, true, false, none, some, List, [],
  ◌∷◌, leb, ◌==◌,
}
use os_lyre.Base.Words.{add64}
use os_lyre.Misc.{div_roundup}
use os_lyre.Tmpfs.{
  Bytes, TmpfsResource, copy_bytes, tmpfs_resource_read, read_count, tmpfs_resource_write,
  write_grown, write_into, grow_data, double_while, set_size,
}
use os_lyre.Tmpfs.Laws.{
  IsValid, IsWritten, tmpfs_resource_read-past_end, tmpfs_resource_write-IsWritten,
  tmpfs_resource_write-none,
}
use os_lyre.Tmpfs.Truncate.{tmpfs_resource_read-tmpfs_resource_write}
use os_lyre.Tmpfs.Files.{
  Tmpfs, Node, Call, create, write, run_call, run_calls, tmpfs_create, create_tmpfs_resource,
}
use os_lyre.Tmpfs.Inodes.{IsSound, IsFile, IsCall, AreCalls, run, run_calls-AreDistinct}

abbrev file : TmpfsResource
file = record {
  stat = record {
    st_size = 3;
    st_blocks = 1;
    st_blksize = 512;
    st_dev = 1;
    st_ino = 0;
    st_mode = 1;
    st_nlink = 1;
  };
  can_mmap = true;
  has_data = true;
  bytes = λ i. i + 60;
  capacity = 4096;
}

abbrev ones : Bytes
ones = λ i. 1

abbrev written : TmpfsResource
written = record file {
  stat = record file.stat { st_size = 4100; st_blocks = 9 };
  bytes = copy_bytes (copy_bytes ones 0 file.bytes 0 4096) 4090 ones 0 10;
  capacity = 8192;
}

file-IsValid : IsValid file
file-IsValid = record {
  has_data = refl;
  has_block = omega arith;
  fits = omega arith;
  limit = omega arith;
  block_size = refl;
  blocks = refl;
}

write_over : tmpfs_resource_write (some ones) file ones 4090 10 ≡ some (some 10, written)
unfolding tmpfs_resource_write grow_data double_while write_grown write_into set_size div_roundup
write_over = refl

-- The end of the file is at 3: reading at 8 is to copy 2^64 - 5 bytes.
read_past : read_count file 8 4 ≡ 18446744073709551611
unfolding read_count
read_past = refl

tmpfs_resource_read-past_end_example :
    (read_count file 8 4 ≡ 2 ^ 64 - (8 - 3)) × (tmpfs_resource_read file ones 8 4 ≡ none)
tmpfs_resource_read-past_end_example =
    tmpfs_resource_read-past_end file file-IsValid ones 8 4 (omega arith) (omega arith)
      (omega arith)

tmpfs_resource_write-IsWritten_example :
    ((some ones ≡ none)
      × (4096 ≤ 4090 + 10)
      × (tmpfs_resource_write (some ones) file ones 4090 10 ≡ some (none, file)))
    ⊎ ((g : TmpfsResource) × (tmpfs_resource_write (some ones) file ones 4090 10
          ≡ some (some 10, g))
        × IsWritten file ones 4090 10 g)
tmpfs_resource_write-IsWritten_example =
    tmpfs_resource_write-IsWritten file file-IsValid (some ones) ones 4090 10 (omega arith)

abbrev folder : TmpfsResource
folder = record file { can_mmap = false; has_data = false; capacity = 0 }

tmpfs_resource_write-none_example :
    ((n : ℕ) → double_while n (λ c. leb c (add64 0 5)) 0 ≡ none)
    × (tmpfs_resource_write (some ones) folder ones 0 5 ≡ none)
tmpfs_resource_write-none_example = tmpfs_resource_write-none folder (some ones) ones 0 5 refl

tmpfs_resource_read-tmpfs_resource_write_example :
    (out : Bytes) × (tmpfs_resource_read written file.bytes 4090 10 ≡ some (10, out))
    × ((i : ℕ) → i < 10 → out i ≡ 1)
tmpfs_resource_read-tmpfs_resource_write_example =
    tmpfs_resource_read-tmpfs_resource_write file file-IsValid (some ones) ones file.bytes 4090 10
      written (omega arith) write_over

-- A file system in which 1 is the mode of regular files, 2 that of directories and 3 that of symbolic links.
abbrev files : Tmpfs
files = record { dev_id = 1; inode_counter = 1; resource_count = 1; resources = λ i. file }

abbrev node : Node
node = record { name = 97 ∷ []; is_directory = false; resource = 0; symlink_target = none }

files-IsSound : IsSound files
files-IsSound = record {
  counter = refl;
  inode = λ i l. omega (arith, l);
  file = λ i l h. file-IsValid;
}

abbrev calls : List (Call)
calls = create true none (98 ∷ []) 1 ∷ write none node ones 1 5 ∷ []

created_there :
    (that : Tmpfs)
    → run (λ m. m == 1) (λ m. m == 2) 3 (create true none (98 ∷ []) 1) files ≡ some that
    → (0 < that.resource_count) × ((that.resources 0).has_data ≡ true) × (1 + 5 < 2 ^ 63)
unfolding run_call tmpfs_create create_tmpfs_resource
created_there that e =
    subst
      (λ (t : Tmpfs). (0 < t.resource_count) × ((t.resources 0).has_data ≡ true) × (1 + 5 < 2 ^ 63))
      (some_inj _ _ e) (omega arith, refl, omega arith)

calls-AreCalls : AreCalls (λ m. m == 1) (λ m. m == 2) 3 calls files
unfolding AreCalls IsCall
calls-AreCalls = (omega arith, λ that e. (created_there that e, λ last f. omega arith))

run_calls-AreDistinct_example :
    (that : Tmpfs) × (run_calls (λ m. m == 1) (λ m. m == 2) 3 calls files ≡ some that)
    × ((i : ℕ) → i < that.resource_count → IsFile (that.resources i))
    × ((i j : ℕ)
        → i < that.resource_count
        → j < that.resource_count
        → that.resource_count ≤ 2 ^ 64
        → (that.resources i).stat.st_ino ≡ (that.resources j).stat.st_ino
        → i ≡ j)
run_calls-AreDistinct_example =
    run_calls-AreDistinct (λ m. m == 1) (λ m. m == 2) 3 calls files files-IsSound calls-AreCalls
