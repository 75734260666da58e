-- ===== src/Partition/Table.antt =====
-- The devices that partition_enum of kernel/dev/storage/partition.c adds.
use os_lyre.Base.{
  ℕ, zero, suc, ◌+◌, ◌*◌, ◌≤◌, ◌<◌, ◌≡◌, refl, arith, Bool, true, false, not, List, [], ◌∷◌, ◌==◌,
  ◌&&◌, if◌then◌else◌, if_cases,
}
use mathlib.Core.Path.{subst}
use os_lyre.Base.Words.{add64, mul64}
use os_lyre.Partition.{
  Bytes, BlockDevice, PartitionDevice, gpt_header, gpt_entry, mbr_entry, gpt_device, mbr_device,
  is_gpt, gpt_entries, mbr_entries, mbr_partitions, partition_enum, le,
}

-- The devices have numbers after `low`, up to `high` and ascending, consecutive device ids from `rdev` on,
-- and blocks of the given size.
unfoldable pub AreNumbered : ℕ → ℕ → ℕ → ℕ → List PartitionDevice → Type 0
AreNumbered low high rdev blocksize [] = 0 ≤ 0
AreNumbered low high rdev blocksize (d ∷ ds) =
    (low < d.number)
    × (d.number ≤ high)
    × (d.st_rdev ≡ rdev)
    × (d.blksize ≡ blocksize)
    × AreNumbered d.number high (suc rdev) blocksize ds

AreNumbered-lower :
    (ds : List PartitionDevice) (low less high rdev blocksize : ℕ)
    → less ≤ low
    → AreNumbered low high rdev blocksize ds
    → AreNumbered less high rdev blocksize ds
unfolding AreNumbered
AreNumbered-lower [] low less high rdev blocksize h n = n
AreNumbered-lower (d ∷ ds) low less high rdev blocksize h n =
    (omega (arith, h, n.0), n.1, n.2, n.3, n.4)

plus_left : (n : ℕ) → 0 + n ≡ n
plus_left n = omega arith

nothing : 0 ≤ 0
nothing = omega arith

module _ {S : Type 0} (root : BlockDevice S) (s : S) (blocksize : ℕ) where
  -- One entry, where the devices of the others are numbered.
  one_more :
      (skipped : Bool) (i high rdev : ℕ) (d : PartitionDevice) (rest : ℕ → List PartitionDevice)
      → i < high
      → d.number ≡ suc i
      → d.st_rdev ≡ rdev
      → d.blksize ≡ blocksize
      → ((r : ℕ) → AreNumbered (suc i) high r blocksize (rest r))
      → AreNumbered i high rdev blocksize (
          if skipped
          then rest (if skipped then rdev else suc rdev)
          else d ∷ rest (if skipped then rdev else suc rdev))
  unfolding AreNumbered
  one_more true i high rdev d rest h n r b k =
      AreNumbered-lower (rest rdev) (suc i) i high rdev blocksize (omega arith) (k rdev)
  one_more false i high rdev d rest h n r b k = (
    omega (arith, n),
    omega (arith, n, h),
    r,
    b,
    AreNumbered-lower (rest (suc rdev)) (suc i) d.number high (suc rdev) blocksize
        (omega (arith, n)) (k (suc rdev)),
  )

  gpt_entries-AreNumbered :
      (n i rdev loc : ℕ) (b : Bytes)
      → AreNumbered i (i + n) rdev blocksize (gpt_entries root s blocksize n i rdev loc b)
  unfolding gpt_entries AreNumbered gpt_device
  gpt_entries-AreNumbered zero i rdev loc b = omega arith
  gpt_entries-AreNumbered (suc n) i rdev loc b =
      let c = (root.read s b loc 128).1 in
      one_more _ i (i + suc n) rdev (gpt_device (suc i) blocksize rdev (gpt_entry c))
        (λ r. gpt_entries root s blocksize n (suc i) r (add64 loc 128) c) (omega arith) refl refl
        refl
        (λ r.
          subst
            (λ h.
              AreNumbered (suc i) h r blocksize
                (gpt_entries root s blocksize n (suc i) r (add64 loc 128) c))
            (omega arith) (gpt_entries-AreNumbered n (suc i) r (add64 loc 128) c))

  mbr_entries-AreNumbered :
      (n i rdev : ℕ) (b : Bytes)
      → AreNumbered i (i + n) rdev blocksize (mbr_entries root s blocksize n i rdev b)
  unfolding mbr_entries AreNumbered mbr_device
  mbr_entries-AreNumbered zero i rdev b = omega arith
  mbr_entries-AreNumbered (suc n) i rdev b =
      one_more _ i (i + suc n) rdev (mbr_device (suc i) blocksize rdev (mbr_entry (i * 16) b))
        (λ r. mbr_entries root s blocksize n (suc i) r b) (omega arith) refl refl refl
        (λ r.
          subst
            (λ h. AreNumbered (suc i) h r blocksize (mbr_entries root s blocksize n (suc i) r b))
            (omega arith) (mbr_entries-AreNumbered n (suc i) r b))

  mbr_partitions-AreNumbered :
      (rdev : ℕ) (stack : Bytes)
      → AreNumbered 0 4 rdev blocksize (mbr_partitions root s blocksize rdev stack)
  unfolding mbr_partitions AreNumbered
  mbr_partitions-AreNumbered rdev stack =
      if_cases (AreNumbered 0 4 rdev blocksize)
        (not (le 2 0 (root.read s stack 444 2).1 == 0)
          && not (le 2 0 (root.read s stack 444 2).1 == 0x5a5a))
        [] (mbr_entries root s blocksize 4 0 rdev (root.read s stack 446 64).1) (λ e. nothing)
        (λ e. mbr_entries-AreNumbered 4 0 rdev (root.read s stack 446 64).1)

  -- The number of entries that are looked at.
  abbrev pub entry_limit : ℕ → ℕ
  entry_limit st_size =
      let header = gpt_header (root.read s (λ i. 0) 512 96).1 in
      if is_gpt st_size header then header.entries else 4

  -- For every disk, the enumeration ends. Its devices have ascending numbers, from 1 to the number of
  -- entries of the table, consecutive device ids, and blocks of the disk's size.
  pub partition_enum-AreNumbered :
      (st_size rdev : ℕ) (stack : Bytes)
      → AreNumbered 0
          (entry_limit st_size)
          rdev
          blocksize
          (partition_enum root s blocksize st_size rdev stack)
  unfolding partition_enum
  partition_enum-AreNumbered st_size rdev stack =
      numbered (is_gpt st_size (gpt_header (root.read s (λ i. 0) 512 96).1))
    where
      numbered :
          (b : Bool)
          → AreNumbered 0
              (if b then (gpt_header (root.read s (λ i. 0) 512 96).1).entries else 4)
              rdev
              blocksize
              (if b
                then gpt_entries root s blocksize
                    (gpt_header (root.read s (λ i. 0) 512 96).1).entries
                    0
                    rdev
                    (mul64 (gpt_header (root.read s (λ i. 0) 512 96).1).partlba 512)
                    (λ i. 0)
                else mbr_partitions root s blocksize rdev stack)
      numbered true =
          subst
            (λ h. AreNumbered 0 h rdev blocksize (
              gpt_entries root s blocksize (gpt_header (root.read s (λ i. 0) 512 96).1).entries 0
                rdev (mul64 (gpt_header (root.read s (λ i. 0) 512 96).1).partlba 512) (λ i. 0)))
            (plus_left (gpt_header (root.read s (λ i. 0) 512 96).1).entries)
            (gpt_entries-AreNumbered (gpt_header (root.read s (λ i. 0) 512 96).1).entries 0 rdev
              (mul64 (gpt_header (root.read s (λ i. 0) 512 96).1).partlba 512) (λ i. 0))
      numbered false = mbr_partitions-AreNumbered rdev stack
