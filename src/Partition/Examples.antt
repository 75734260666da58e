-- ===== src/Partition/Examples.antt =====
-- Tests of kernel/dev/storage/partition.c, and its theorems at a disk in memory.
use os_lyre.Base.{
  some_inj, ℕ, ◌+◌, ◌-◌, ◌<◌, ◌≡◌, inl, refl, arith, none, some, [], ◌∷◌, leb, ltb, ◌==◌, ◌&&◌,
  if◌then◌else◌,
}
use os_lyre.Partition.{
  Bytes, BlockDevice, PartitionDevice, GptEntry, readpart, writepart, gpt_device, partition_enum,
  mbr_partitions, mbr_entries, mbr_device, is_gpt, le,
}
use os_lyre.Partition.Isolation.{base, writepart-IsKept, readpart-writepart, gpt_device-limit}
use os_lyre.Partition.Table.{AreNumbered, entry_limit, partition_enum-AreNumbered}

abbrev part_of : Bytes → ℕ → ℕ → Bytes → ℕ → ℕ
part_of disk loc count buf i = if leb loc i && ltb i (loc + count) then buf (i - loc) else disk i

inside_part :
    (disk : Bytes) (loc count i : ℕ) (buf : Bytes)
    → i < count
    → part_of disk loc count buf (loc + i) ≡ buf i
inside_part disk loc count i buf h =
    let place : loc + i - loc ≡ i = omega arith in rw place (ground (arith, h))

-- A disk that never fails.
abbrev disk : BlockDevice Bytes
disk = record {
  byte_at = λ s i. s i;
  read = λ s buf loc count. (some count, λ i. if ltb i count then s (loc + i) else buf i);
  write = λ s buf loc count. (some count, part_of s loc count buf);
  read-bytes = λ s buf loc count n i e l.
      let full : count ≡ n = some_inj count n e in ground (arith, full, l);
  write-bytes = λ s buf loc count n i e l.
      let full : count ≡ n = some_inj count n e in
      inside_part s loc count i buf (omega (arith, full, l));
  write-others = λ s buf loc count j o. ground (arith, o);
}

abbrev first_part : PartitionDevice
first_part = record {
  number = 1;
  start = 2;
  sectors = 4;
  blksize = 512;
  st_size = 2048;
  st_blocks = 4;
  st_rdev = 9;
}

abbrev second_part : PartitionDevice
second_part = record first_part { number = 2; start = 6; st_rdev = 10 }

-- A write at the last byte of the first partition goes on into the second.
writes_over : (writepart disk first_part (λ i. 0) (λ i. 7) 2047 2).1 (base second_part) ≡ 7
unfolding writepart
writes_over = refl

writepart-IsKept_example :
    (writepart disk first_part (λ i. i) (λ i. 7) 100 8).1 (base second_part + 5)
    ≡ base second_part + 5
writepart-IsKept_example =
    writepart-IsKept disk first_part (omega arith) second_part (λ i. i) (λ i. 7) 100 8 5
      (inl (omega arith)) (omega arith) (omega arith)

write_done : (writepart disk first_part (λ i. i) (λ i. 7) 100 8).0 ≡ some 8
unfolding writepart
write_done = refl

read_done :
    (readpart disk first_part
      (writepart disk first_part (λ i. i) (λ i. 7) 100 8).1
      (λ i. 0)
      100
      8).0
    ≡ some 8
unfolding readpart
read_done = refl

readpart-writepart_example :
    (readpart disk first_part
        (writepart disk first_part (λ i. i) (λ i. 7) 100 8).1
        (λ i. 0)
        100
        8).1
      3
    ≡ 7
readpart-writepart_example =
    readpart-writepart disk first_part (omega arith) (λ i. i) (λ i. 7) (λ i. 0) 100 8 8 8 3
      write_done read_done (omega arith) (omega arith)

-- A partition of the 2048 blocks from 2048 on, of a megabyte.
abbrev megabyte : GptEntry
megabyte = record { unilow = 1; unihi = 0; entry_start = 2048; entry_end = 4095; attr = 0 }

gpt_device-limit_example :
    readpart disk (gpt_device 1 512 9 megabyte) (λ i. i) (λ i. 0) 4096 512 ≡ (none, λ i. 0)
gpt_device-limit_example =
    gpt_device-limit disk (λ i. i) (λ i. 0) megabyte 1 512 9 4096 512 (omega arith) (omega arith)
      (omega arith) (omega arith)

-- A disk with an MBR whose second entry is a partition of eight blocks.
abbrev mbr_disk : Bytes
mbr_disk i = if i == 466 then 131 else (if i == 470 then 63 else (if i == 474 then 8 else 0))

mbr_found :
    partition_enum disk mbr_disk 512 100000 9 (λ i. 0)
    ≡ record {
      number = 2;
      start = 63;
      sectors = 8;
      blksize = 512;
      st_size = 4096;
      st_blocks = 8;
      st_rdev = 9;
    }
      ∷ []
unfolding partition_enum mbr_partitions mbr_entries mbr_device is_gpt le
mbr_found = refl

partition_enum-AreNumbered_example :
    AreNumbered 0
      (entry_limit disk mbr_disk 512 100000)
      9
      512
      (partition_enum disk mbr_disk 512 100000 9 (λ i. 0))
partition_enum-AreNumbered_example = partition_enum-AreNumbered disk mbr_disk 512 100000 9 (λ i. 0)
