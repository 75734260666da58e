-- ===== src/Partition/Isolation.antt =====
-- readpart and writepart of kernel/dev/storage/partition.c: a partition is a disk again, and keeps to itself.
use native.Mathlib.Nat.{div-mul-le_self, mod-le}
use os_lyre.Base.{
  ℕ, ◌+◌, ◌-◌, ◌*◌, ◌/◌, ◌%◌, ◌^◌, ◌≤◌, ◌<◌, ◌≡◌, ◌⊎◌, inl, inr, ap, sym, ◌∙◌, arith, true, false,
  Option, none, some, some_ne_none, leb, Bool-cases, if_true, if_false,
}
use os_lyre.Base.Words.{add64, sub64, mul64}
use os_lyre.Partition.{
  Bytes, BlockDevice, PartitionDevice, readpart, writepart, GptEntry, gpt_device,
}

-- The partition lies where positions do not wrap around.
abbrev pub Fits : PartitionDevice → Type 0
Fits this = this.start * this.blksize + this.sectors * this.blksize < 2 ^ 64

-- The position on the disk of the first byte, and the number of bytes.
abbrev pub base : PartitionDevice → ℕ
base this = this.start * this.blksize

abbrev pub size : PartitionDevice → ℕ
size this = this.sectors * this.blksize

-- The test of the guard, and the position where it passes.
guard-cases :
    (this : PartitionDevice) (loc : ℕ)
    → Fits this
    → ((leb (mul64 this.sectors this.blksize) loc ≡ true) × (size this ≤ loc))
      ⊎ ((leb (mul64 this.sectors this.blksize) loc ≡ false)
          × (loc < size this)
          × (add64 loc (mul64 this.start this.blksize) ≡ base this + loc))
guard-cases this loc h =
    let limit : mul64 this.sectors this.blksize ≡ this.sectors * this.blksize = omega (arith, h) in
    let first : mul64 this.start this.blksize ≡ this.start * this.blksize = omega (arith, h) in
    elim (Bool-cases (leb (mul64 this.sectors this.blksize) loc)) [
      | inl e ↦ inl (e, ground (arith, e, limit))
      | inr e ↦
          let low : loc < this.sectors * this.blksize = ground (arith, e, limit) in
          inr (e, low, rw first (omega (arith, h, low)))
    ]

module _ {S : Type 0} (root : BlockDevice S) (this : PartitionDevice) (h : Fits this) where
  -- The two outcomes of a read and of a write.
  readpart-cases :
      (s : S) (buf : Bytes) (loc count : ℕ)
      → ((size this ≤ loc) × (readpart root this s buf loc count ≡ (none, buf)))
        ⊎ ((loc < size this)
            × (readpart root this s buf loc count ≡ root.read s buf (base this + loc) count))
  unfolding readpart
  readpart-cases s buf loc count = elim (guard-cases this loc h) [
    | inl (e, past) ↦ inl (past, if_true _ _ _ e)
    | inr (e, low, at) ↦ inr (low, if_false _ _ _ e ∙ ap (λ p. root.read s buf p count) at)
  ]

  writepart-cases :
      (s : S) (buf : Bytes) (loc count : ℕ)
      → ((size this ≤ loc) × (writepart root this s buf loc count ≡ (none, s)))
        ⊎ ((loc < size this)
            × (writepart root this s buf loc count ≡ root.write s buf (base this + loc) count))
  unfolding writepart
  writepart-cases s buf loc count = elim (guard-cases this loc h) [
    | inl (e, past) ↦ inl (past, if_true _ _ _ e)
    | inr (e, low, at) ↦ inr (low, if_false _ _ _ e ∙ ap (λ p. root.write s buf p count) at)
  ]

  pub part-read-bytes :
      (s : S) (buf : Bytes) (loc count n i : ℕ)
      → (readpart root this s buf loc count).0 ≡ some n
      → i < n
      → (readpart root this s buf loc count).1 i ≡ root.byte_at s (base this + (loc + i))
  part-read-bytes s buf loc count n i e l = elim (readpart-cases s buf loc count) [
    | inl (past, failed) ↦ absurd (some_ne_none (sym e ∙ ap (λ r. r.0) failed))
    | inr (low, done) ↦
        ap (λ (r : Option ℕ × Bytes). r.1 i) done
        ∙ root.read-bytes s buf (base this + loc) count n i (sym (ap (λ r. r.0) done) ∙ e) l
        ∙ ap (root.byte_at s) (omega arith)
  ]

  pub part-write-bytes :
      (s : S) (buf : Bytes) (loc count n i : ℕ)
      → (writepart root this s buf loc count).0 ≡ some n
      → i < n
      → root.byte_at (writepart root this s buf loc count).1 (base this + (loc + i)) ≡ buf i
  part-write-bytes s buf loc count n i e l = elim (writepart-cases s buf loc count) [
    | inl (past, failed) ↦ absurd (some_ne_none (sym e ∙ ap (λ r. r.0) failed))
    | inr (low, done) ↦
        ap (λ (r : Option ℕ × S). root.byte_at r.1 (base this + (loc + i))) done
        ∙ ap (root.byte_at (root.write s buf (base this + loc) count).1) (omega arith)
        ∙ root.write-bytes s buf (base this + loc) count n i (sym (ap (λ r. r.0) done) ∙ e) l
  ]

  -- A write reaches the disk only at its own positions.
  pub writepart-others :
      (s : S) (buf : Bytes) (loc count j : ℕ)
      → ((j < base this + loc) ⊎ (base this + loc + count ≤ j))
      → root.byte_at (writepart root this s buf loc count).1 j ≡ root.byte_at s j
  writepart-others s buf loc count j o = elim (writepart-cases s buf loc count) [
    | inl (past, failed) ↦ ap (λ (r : Option ℕ × S). root.byte_at r.1 j) failed
    | inr (low, done) ↦
        ap (λ (r : Option ℕ × S). root.byte_at r.1 j) done
        ∙ root.write-others s buf (base this + loc) count j o
  ]

  -- A partition of a disk keeps the laws of a disk.
  abbrev pub part : BlockDevice S
  part = record {
    byte_at = λ s j. root.byte_at s (base this + j);
    read = readpart root this;
    write = writepart root this;
    read-bytes = part-read-bytes;
    write-bytes = part-write-bytes;
    write-others =
        λ s buf loc count j o. writepart-others s buf loc count (base this + j) (grind arith);
  }

  -- A write that ends in the partition keeps every byte of a partition that does not overlap it.
  pub writepart-IsKept :
      (that : PartitionDevice) (s : S) (buf : Bytes) (loc count j : ℕ)
      → ((base this + size this ≤ base that) ⊎ (base that + size that ≤ base this))
      → loc + count ≤ size this
      → j < size that
      → root.byte_at (writepart root this s buf loc count).1 (base that + j)
        ≡ root.byte_at s (base that + j)
  writepart-IsKept that s buf loc count j apart inside l =
      writepart-others s buf loc count (base that + j) (grind (arith, apart))

  -- What was written to a partition is read from it: a read after a write of the same place, where both
  -- succeed, gives the bytes that were written.
  pub readpart-writepart :
      (s : S) (buf out : Bytes) (loc count n k i : ℕ)
      → (writepart root this s buf loc count).0 ≡ some n
      → (readpart root this (writepart root this s buf loc count).1 out loc count).0 ≡ some k
      → i < n
      → i < k
      → (readpart root this (writepart root this s buf loc count).1 out loc count).1 i ≡ buf i
  readpart-writepart s buf out loc count n k i e f l m =
      part-read-bytes (writepart root this s buf loc count).1 out loc count k i f m
      ∙ part-write-bytes s buf loc count n i e l

blocks-leb : (d b loc : ℕ) → d ≤ loc → leb (mul64 (d / b) b) loc ≡ true
blocks-leb d b loc h =
    let below : d / b * b ≤ d = div-mul-le_self d b in
    let word : (d / b * b) % 2 ^ 64 ≤ d / b * b = mod-le _ _ in ground (arith, below, word, h)

-- Of a partition of a GPT only as many bytes can be read as it has blocks beyond the first: at the
-- difference of its last and first block, and from there on, every read fails.
pub gpt_device-limit :
    {S : Type 0} (root : BlockDevice S) (s : S) (buf : Bytes) (entry : GptEntry)
    (number blocksize rdev loc count : ℕ)
    → entry.entry_start ≤ entry.entry_end
    → entry.entry_end < 2 ^ 64
    → 0 < blocksize
    → entry.entry_end - entry.entry_start ≤ loc
    → readpart root (gpt_device number blocksize rdev entry) s buf loc count ≡ (none, buf)
unfolding readpart gpt_device
gpt_device-limit root s buf entry number blocksize rdev loc count ordered small pos past =
    let length : sub64 entry.entry_end entry.entry_start ≡ entry.entry_end - entry.entry_start =
      omega arith in
    if_true _ _ _ (
      ap (λ d. leb (mul64 (d / blocksize) blocksize) loc) length
      ∙ blocks-leb (entry.entry_end - entry.entry_start) blocksize loc past)
