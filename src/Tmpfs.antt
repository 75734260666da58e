-- ===== src/Tmpfs.antt =====
-- kernel/fs/tmpfs.c: files whose bytes are in memory. The block `data`, here `bytes`, is a function from the offset to
-- the byte, of which the first `capacity` are the block's. Offsets and counts are 64-bit words, and the casts
-- to off_t compare them as signed. `lock` is held; time stamps are left out. An allocation is given by its
-- outcome: none where memory is out, or the bytes that the new block holds before it is written. `has_data`
-- is false where `data` is NULL; `capacity` can then still be 4096. A read or write that copies outside of
-- its block, or at NULL, has no outcome. Mapping and syncing are modelled for files with data.
pub mod Grow
pub mod Laws
pub mod Truncate
pub mod Files
pub mod Inodes
mod Examples
use Prim.Native.Nat.{bit_and, bit_or}
use os_lyre.Base.{
  ℕ, zero, suc, ◌+◌, ◌-◌, ◌*◌, ◌%◌, ◌^◌, Bool, true, false, not, Option, none, some, List, [], ◌∷◌,
  ltb, leb, ◌==◌, ◌&&◌, ◌||◌, if◌then◌else◌,
}
use os_lyre.Base.Words.{add64, sub64, mul64}
use os_lyre.Misc.{page_size, div_roundup}

abbrev pub Bytes : Type 0
Bytes = ℕ → ℕ

-- memcpy between two blocks: `n` bytes of `src` from `from` on, to `dest` from `at` on.
abbrev pub copy_bytes : Bytes → ℕ → Bytes → ℕ → ℕ → Bytes
copy_bytes dest at src from n j =
    if leb at j && ltb j (at + n) then src (from + (j - at)) else dest j

-- The comparison of two words as numbers of the type off_t.
abbrev pub signed_leb : ℕ → ℕ → Bool
signed_leb a b = leb ((a + 2 ^ 63) % 2 ^ 64) ((b + 2 ^ 63) % 2 ^ 64)

pub record Stat : Type 0 where
  pub st_size : ℕ
  pub st_blocks : ℕ
  pub st_blksize : ℕ
  pub st_dev : ℕ
  pub st_ino : ℕ
  pub st_mode : ℕ
  pub st_nlink : ℕ

pub record TmpfsResource : Type 0 where
  pub stat : Stat
  pub can_mmap : Bool
  pub has_data : Bool
  pub bytes : Bytes
  pub capacity : ℕ

unfoldable pub read_count : TmpfsResource → ℕ → ℕ → ℕ
read_count this offset count =
    if signed_leb this.stat.st_size (add64 offset count)
    then sub64 count (sub64 (add64 offset count) this.stat.st_size)
    else count

-- A copy of `n` bytes from `offset` on stays in the block.
unfoldable pub is_inside : TmpfsResource → ℕ → ℕ → Bool
is_inside this offset n = n == 0 || (this.has_data && leb (offset + n) this.capacity)

-- What read returns and the buffer after it; none where memcpy reads outside of the block.
unfoldable pub tmpfs_resource_read : TmpfsResource → Bytes → ℕ → ℕ → Option (ℕ × Bytes)
unfolding read_count is_inside
tmpfs_resource_read this buf offset count =
    let actual_count = read_count this offset count in
    if is_inside this offset actual_count
    then some (actual_count, copy_bytes buf 0 this.bytes offset actual_count)
    else none

-- The loops `while (more) new_capacity *= 2`, on fuel; none stands for a loop that the fuel does not end.
unfoldable pub double_while : ℕ → (ℕ → Bool) → ℕ → Option ℕ
double_while zero more c = none
double_while (suc n) more c =
    let rest = double_while n more (mul64 c 2) in if more c then rest else some c

-- The number of doublings after which a loop either has ended or goes on forever.
abbrev pub rounds : ℕ
rounds = 64

-- The data moves to a new block of the size the loop found, and false is returned where there is none.
unfoldable pub grow_data : (ℕ → Bool) → Option Bytes → TmpfsResource → Option (Bool × TmpfsResource)
grow_data more block this = elim (double_while rounds more this.capacity) [
  | none ↦ none
  | some c ↦ elim block [
    | none ↦ some (false, this)
    | some fresh ↦ some (
      true,
      record this {
        has_data = true;
        bytes = copy_bytes fresh 0 this.bytes 0 (if this.has_data then this.capacity else 0);
        capacity = c;
      },
    )
  ]
]

unfoldable pub set_size : ℕ → TmpfsResource → TmpfsResource
set_size size this = record this {
  stat = record this.stat { st_size = size; st_blocks = div_roundup size this.stat.st_blksize };
}

unfoldable pub write_into : Bytes → ℕ → ℕ → Bool × TmpfsResource → Option ℕ × TmpfsResource
write_into buf offset count (false, this) = (none, this)
write_into buf offset count (true, this) =
    let written = record this { bytes = copy_bytes this.bytes offset buf 0 count } in
    (
      some count,
      if signed_leb this.stat.st_size (add64 offset count)
          then set_size (add64 offset count) written
          else written,
    )

-- The copy into the block that there is room in; none where it is at NULL.
unfoldable pub write_grown :
    Bytes → ℕ → ℕ → Bool × TmpfsResource → Option (Option ℕ × TmpfsResource)
write_grown buf offset count (ok, this) =
    if not ok || this.has_data then some (write_into buf offset count (ok, this)) else none

-- The count, or none for -1 with ENOMEM.
unfoldable pub tmpfs_resource_write :
    Option Bytes → TmpfsResource → Bytes → ℕ → ℕ → Option (Option ℕ × TmpfsResource)
tmpfs_resource_write block this buf offset count =
    elim (if leb this.capacity (add64 offset count)
      then grow_data (λ c. leb c (add64 offset count)) block this
      else some (true, this)) [ none ↦ none | some grown ↦ write_grown buf offset count grown ]

unfoldable pub truncate_to : ℕ → Bool × TmpfsResource → Bool × TmpfsResource
truncate_to length (false, this) = (false, this)
truncate_to length (true, this) = (true, set_size length this)

-- A new block is filled from the old one: none where that is at NULL.
unfoldable pub truncate_grown :
    TmpfsResource → ℕ → Bool × TmpfsResource → Option (Bool × TmpfsResource)
truncate_grown this length (ok, grown) =
    if not ok || this.has_data || leb length this.capacity
    then some (truncate_to length (ok, grown))
    else none

unfoldable pub tmpfs_truncate : Option Bytes → TmpfsResource → ℕ → Option (Bool × TmpfsResource)
tmpfs_truncate block this length =
    elim (if ltb this.capacity length
      then grow_data (λ c. ltb c length) block this
      else some (true, this)) [ none ↦ none | some grown ↦ truncate_grown this length grown ]

-- A page for a mapping: the file's own, by its offset in the data, or a copy in a new page.
pub data Page : Type 0 where
  shared : ℕ → Page
  private : Bytes → Page

-- MAP_SHARED is a parameter of the flags' type: `is_shared` is the test of the flag.
unfoldable pub tmpfs_resource_mmap : Option Bytes → TmpfsResource → ℕ → Bool → Option Page
tmpfs_resource_mmap page this file_page is_shared =
    if is_shared then some (shared (file_page * page_size)) else elim page [
      | none ↦ none
      | some fresh ↦
          some (private (copy_bytes fresh 0 this.bytes (file_page * page_size) page_size))
    ]

unfoldable pub tmpfs_resource_msync : TmpfsResource → ℕ → Bytes → Bool → Bool × TmpfsResource
tmpfs_resource_msync this file_page phys is_shared = if is_shared then (true, this) else (
  true,
  record this { bytes = copy_bytes this.bytes (file_page * page_size) phys 0 page_size },
)
