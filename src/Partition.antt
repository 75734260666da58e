-- ===== src/Partition.antt =====
-- kernel/dev/storage/partition.c: finding the partitions of a disk, and reading and writing inside of one.
-- The disk is the interface `BlockDevice`. Structures on it are read as bytes and decoded with the offsets
-- of their fields. The names of the devices, which printf makes of their numbers, are left out, and
-- resource_create, whose outcome is not checked, succeeds.
pub mod Isolation
pub mod Table
mod Examples
use Prim.Native.Nat.{bit_and}
use os_lyre.Base.{
  ℕ, zero, suc, ◌+◌, ◌*◌, ◌/◌, ◌%◌, ◌^◌, ◌≤◌, ◌<◌, ◌≡◌, ◌⊎◌, Bool, true, false, not, Option, none,
  some, List, [], ◌∷◌, leb, ltb, ◌==◌, ◌&&◌, ◌||◌, if◌then◌else◌,
}
use os_lyre.Base.Words.{add64, sub64, mul64}

abbrev pub Bytes : Type 0
Bytes = ℕ → ℕ

-- What is read and written by position: `read` gives the count and the buffer after it, none standing for
-- -1. The laws are those of a disk.
pub record BlockDevice (S : Type 0) : Type 0 where
  pub byte_at : S → ℕ → ℕ
  pub read : S → Bytes → ℕ → ℕ → Option ℕ × Bytes
  pub write : S → Bytes → ℕ → ℕ → Option ℕ × S
  pub read-bytes :
      (s : S) (buf : Bytes) (loc count n i : ℕ)
      → (read s buf loc count).0 ≡ some n
      → i < n
      → (read s buf loc count).1 i ≡ byte_at s (loc + i)
  pub write-bytes :
      (s : S) (buf : Bytes) (loc count n i : ℕ)
      → (write s buf loc count).0 ≡ some n
      → i < n
      → byte_at (write s buf loc count).1 (loc + i) ≡ buf i
  pub write-others :
      (s : S) (buf : Bytes) (loc count j : ℕ)
      → ((j < loc) ⊎ (loc + count ≤ j))
      → byte_at (write s buf loc count).1 j ≡ byte_at s j

pub record PartitionDevice : Type 0 where
  pub number : ℕ
  pub start : ℕ
  pub sectors : ℕ
  pub blksize : ℕ
  pub st_size : ℕ
  pub st_blocks : ℕ
  pub st_rdev : ℕ

module _ {S : Type 0} (root : BlockDevice S) where
  unfoldable pub readpart : PartitionDevice → S → Bytes → ℕ → ℕ → Option ℕ × Bytes
  readpart this s buf loc count =
      if leb (mul64 this.sectors this.blksize) loc
      then (none, buf)
      else root.read s buf (add64 loc (mul64 this.start this.blksize)) count

  unfoldable pub writepart : PartitionDevice → S → Bytes → ℕ → ℕ → Option ℕ × S
  writepart this s buf loc count =
      if leb (mul64 this.sectors this.blksize) loc
      then (none, s)
      else root.write s buf (add64 loc (mul64 this.start this.blksize)) count

-- The number that `n` bytes give, the lowest first.
unfoldable pub le : ℕ → ℕ → Bytes → ℕ
le zero at b = 0
le (suc n) at b = b at + 256 * le n (suc at) b

pub record MbrEntry : Type 0 where
  pub type_byte : ℕ
  pub startsect : ℕ
  pub entry_sectors : ℕ

abbrev pub mbr_entry : ℕ → Bytes → MbrEntry
mbr_entry at b = record {
  type_byte = b (at + 4);
  startsect = le 4 (at + 8) b;
  entry_sectors = le 4 (at + 12) b;
}

pub record GptHeader : Type 0 where
  pub sig : ℕ
  pub len : ℕ
  pub lba : ℕ
  pub first : ℕ
  pub last : ℕ
  pub partlba : ℕ
  pub entries : ℕ

abbrev pub gpt_header : Bytes → GptHeader
gpt_header b = record {
  sig = le 8 0 b;
  len = le 4 12 b;
  lba = le 8 24 b;
  first = le 8 40 b;
  last = le 8 48 b;
  partlba = le 8 72 b;
  entries = le 4 80 b;
}

pub record GptEntry : Type 0 where
  pub unilow : ℕ
  pub unihi : ℕ
  pub entry_start : ℕ
  pub entry_end : ℕ
  pub attr : ℕ

abbrev pub gpt_entry : Bytes → GptEntry
gpt_entry b = record {
  unilow = le 8 16 b;
  unihi = le 8 24 b;
  entry_start = le 8 32 b;
  entry_end = le 8 40 b;
  attr = le 8 48 b;
}

-- "EFI PART", as a number
abbrev pub efi_part : ℕ
efi_part = 0x5452415020494645

abbrev pub gpt_dontmount : ℕ
gpt_dontmount = 2

abbrev pub gpt_legacy : ℕ
gpt_legacy = 4

unfoldable pub is_gpt : ℕ → GptHeader → Bool
is_gpt st_size header =
    (header.sig == efi_part)
    && not (ltb header.len 92)
    && not (ltb st_size header.len)
    && (header.lba == 1)
    && not (ltb header.last header.first)

unfoldable pub gpt_device : ℕ → ℕ → ℕ → GptEntry → PartitionDevice
gpt_device number blocksize rdev entry = record {
  number = number;
  start = entry.entry_start;
  sectors = sub64 entry.entry_end entry.entry_start / blocksize;
  blksize = blocksize;
  st_size = sub64 entry.entry_end entry.entry_start;
  st_blocks = sub64 entry.entry_end entry.entry_start / blocksize;
  st_rdev = rdev;
}

-- The product of a uint32_t and a uint16_t is one of 32 bits.
unfoldable pub mbr_device : ℕ → ℕ → ℕ → MbrEntry → PartitionDevice
mbr_device number blocksize rdev entry = record {
  number = number;
  start = entry.startsect;
  sectors = entry.entry_sectors;
  blksize = blocksize;
  st_size = (entry.entry_sectors * blocksize) % 2 ^ 32;
  st_blocks = entry.entry_sectors;
  st_rdev = rdev;
}

module _ {S : Type 0} (root : BlockDevice S) (s : S) (blocksize : ℕ) where
  -- The loop over the entries, with `n` to go; `i` and `rdev` are the number of the next and the next number
  -- of a device. A read that fails leaves the entry before.
  unfoldable pub gpt_entries : ℕ → ℕ → ℕ → ℕ → Bytes → List PartitionDevice
  gpt_entries zero i rdev loc b = []
  gpt_entries (suc n) i rdev loc b =
      let c = (root.read s b loc 128).1 in
      let entry = gpt_entry c in
      let skipped =
        ((entry.unilow == 0) && (entry.unihi == 0))
        || not (bit_and entry.attr (gpt_dontmount + gpt_legacy) == 0) in
      let rest = gpt_entries n (suc i) (if skipped then rdev else suc rdev) (add64 loc 128) c in
      if skipped then rest else gpt_device (suc i) blocksize rdev entry ∷ rest

  unfoldable pub mbr_entries : ℕ → ℕ → ℕ → Bytes → List PartitionDevice
  mbr_entries zero i rdev b = []
  mbr_entries (suc n) i rdev b =
      let entry = mbr_entry (i * 16) b in
      let skipped = entry.type_byte == 0 in
      let rest = mbr_entries n (suc i) (if skipped then rdev else suc rdev) b in
      if skipped then rest else mbr_device (suc i) blocksize rdev entry ∷ rest

  -- `stack` is what the variables hold that are not initialised.
  unfoldable pub mbr_partitions : ℕ → Bytes → List PartitionDevice
  mbr_partitions rdev stack =
      let hint = le 2 0 (root.read s stack 444 2).1 in
      let found = mbr_entries 4 0 rdev (root.read s stack 446 64).1 in
      if not (hint == 0) && not (hint == 0x5a5a) then [] else found

  -- The devices that are added, in order.
  unfoldable pub partition_enum : ℕ → ℕ → Bytes → List PartitionDevice
  partition_enum st_size rdev stack =
      let header = gpt_header (root.read s (λ i. 0) 512 96).1 in
      if is_gpt st_size header
      then gpt_entries header.entries 0 rdev (mul64 header.partlba 512) (λ i. 0)
      else mbr_partitions rdev stack
