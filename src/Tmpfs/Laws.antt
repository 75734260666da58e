-- ===== src/Tmpfs/Laws.antt =====
-- Reading, writing and truncating a file of kernel/fs/tmpfs.c.
use os_lyre.Base.{
  ℕ, ◌+◌, ◌-◌, ◌/◌, ◌%◌, ◌^◌, ◌≤◌, ◌<◌, ◌≡◌, ◌⊎◌, inl, inr, refl, ap, sym, ◌∙◌, arith, Bool, true,
  false, ◌==◌, Option, none, some, ltb, leb, ◌&&◌, max, if◌then◌else◌, if_true, if_cases,
}
use os_lyre.Base.Words.{add64, sub64}
use os_lyre.Misc.{div_roundup}
use os_lyre.Tmpfs.{
  Bytes, TmpfsResource, Stat, copy_bytes, read_count, is_inside, write_grown, signed_leb,
  tmpfs_resource_read, grow_data, set_size, write_into, tmpfs_resource_write, double_while,
}
use os_lyre.Tmpfs.Grow.{double_while-zero, IsGrown, make_room, make_room-HasRoom}

-- A regular file: it has a block, in which its bytes are, and counts its blocks of 512 bytes.
pub record IsValid (f : TmpfsResource) : Type 0 where
  pub has_data : f.has_data ≡ true
  pub has_block : 0 < f.capacity
  pub fits : f.stat.st_size ≤ f.capacity
  pub limit : f.stat.st_size < 2 ^ 63
  pub block_size : f.stat.st_blksize ≡ 512
  pub blocks : f.stat.st_blocks ≡ (f.stat.st_size + 511) / 512

pub add_small : (a b : ℕ) → a + b < 2 ^ 63 → add64 a b ≡ a + b
add_small a b h = omega arith

pub signed_small : (a b : ℕ) → a < 2 ^ 63 → b < 2 ^ 63 → signed_leb a b ≡ leb a b
signed_small a b h k =
    let left : (a + 2 ^ 63) % 2 ^ 64 ≡ a + 2 ^ 63 = omega arith in
    let right : (b + 2 ^ 63) % 2 ^ 64 ≡ b + 2 ^ 63 = omega arith in rw (left, right) (ground arith)

pub blocks_of : (n k : ℕ) → k ≡ 512 → n < 2 ^ 63 → div_roundup n k ≡ (n + 511) / 512
unfolding div_roundup
blocks_of n k e h = rw e (omega arith)

pub copied_in :
    (dest : Bytes) (at : ℕ) (src : Bytes) (from n i : ℕ)
    → i < n
    → copy_bytes dest at src from n (at + i) ≡ src (from + i)
copied_in dest at src from n i h =
    let place : at + i - at ≡ i = omega arith in
    let inside : (leb at (at + i) && ltb (at + i) (at + n)) ≡ true = ground arith in
    if_true _ _ _ inside ∙ ap (λ k. src (from + k)) place

pub copied_out :
    (dest : Bytes) (at : ℕ) (src : Bytes) (from n j : ℕ)
    → ((j < at) ⊎ (at + n ≤ j))
    → copy_bytes dest at src from n j ≡ dest j
copied_out dest at src from n j h = ground (arith, h)

pub low_in : (m p : Bytes) (from n i : ℕ) → i < n → copy_bytes m 0 p from n i ≡ p (from + i)
low_in m p from n i h = ground (arith, h)

low_out : (m p : Bytes) (from n i : ℕ) → n ≤ i → copy_bytes m 0 p from n i ≡ m i
low_out m p from n i h = ground (arith, h)

left_over :
    (size offset count : ℕ)
    → size < 2 ^ 63
    → offset + count < 2 ^ 63
    → offset ≤ size
    → size ≤ offset + count
    → sub64 count (sub64 (offset + count) size) ≡ size - offset
left_over size offset count h k inside more = omega arith

no_left :
    (size offset count : ℕ)
    → offset + count < 2 ^ 63
    → size < offset
    → sub64 count (sub64 (offset + count) size) ≡ 2 ^ 64 - (offset - size)
no_left size offset count k past = omega arith

clipped :
    (size offset count left : ℕ)
    → offset ≤ size
    → (size ≤ offset + count → left ≡ size - offset)
    → (if leb size (offset + count) then left else count)
      ≡ (if leb (offset + count) size then count else size - offset)
clipped size offset count left inside h = ground (arith, h)

-- `g` is `f` with `count` bytes of `buf` from `offset` on.
pub record IsWritten (f : TmpfsResource) (buf : Bytes) (offset count : ℕ) (g : TmpfsResource)
    : Type 0 where
  pub valid : IsValid g
  pub size : g.stat.st_size ≡ max f.stat.st_size (offset + count)
  pub inode : g.stat.st_ino ≡ f.stat.st_ino
  pub new : (i : ℕ) → i < count → g.bytes (offset + i) ≡ buf i
  pub kept :
      (j : ℕ) → j < f.capacity → ((j < offset) ⊎ (offset + count ≤ j)) → g.bytes j ≡ f.bytes j

module _ (f : TmpfsResource) (h : IsValid f) where
  actual_count :
      (offset count : ℕ)
      → offset ≤ f.stat.st_size
      → offset + count < 2 ^ 63
      → read_count f offset count
        ≡ (if leb (offset + count) f.stat.st_size then count else f.stat.st_size - offset)
  unfolding read_count
  actual_count offset count inside small =
      rw (add_small offset count small, signed_small f.stat.st_size (offset + count) h.limit small)
        (clipped f.stat.st_size offset count _ inside
          (λ more. left_over f.stat.st_size offset count h.limit small inside more))

  stays_inside :
      (offset count n : ℕ)
      → offset ≤ f.stat.st_size
      → n ≡ (if leb (offset + count) f.stat.st_size then count else f.stat.st_size - offset)
      → is_inside f offset n ≡ true
  unfolding is_inside
  stays_inside offset count n inside e =
      let low : leb (offset + n) f.capacity ≡ true = ground (arith, e, inside, h.fits) in
      rw (h.has_data, low) (ground arith)

  -- A read that starts in the file gives the bytes there, as many as are asked for or left, and keeps the
  -- rest of the buffer.
  pub tmpfs_resource_read-IsRead :
      (buf : Bytes) (offset count : ℕ)
      → offset ≤ f.stat.st_size
      → offset + count < 2 ^ 63
      → let n = if leb (offset + count) f.stat.st_size then count else f.stat.st_size - offset in
        (out : Bytes) × (tmpfs_resource_read f buf offset count ≡ some (n, out))
        × ((i : ℕ) → i < n → out i ≡ f.bytes (offset + i))
        × ((i : ℕ) → n ≤ i → out i ≡ buf i)
  unfolding tmpfs_resource_read
  tmpfs_resource_read-IsRead buf offset count inside small =
      let n = if leb (offset + count) f.stat.st_size then count else f.stat.st_size - offset in
      let amount = actual_count offset count inside small in
      (
        copy_bytes buf 0 f.bytes offset n,
        if_true _ _ _ (stays_inside offset count (read_count f offset count) inside amount)
            ∙ ap (λ k. some (k, copy_bytes buf 0 f.bytes offset k)) amount,
        (λ i l. low_in buf f.bytes offset n i l),
        λ i l. low_out buf f.bytes offset n i l,
      )

  past_count :
      (offset count : ℕ)
      → f.stat.st_size < offset
      → offset + count < 2 ^ 63
      → read_count f offset count ≡ 2 ^ 64 - (offset - f.stat.st_size)
  unfolding read_count
  past_count offset count past small =
      let after : leb f.stat.st_size (offset + count) ≡ true = ground arith in
      rw (add_small offset count small, signed_small f.stat.st_size (offset + count) h.limit small)
        (if_true _ _ _ after ∙ no_left f.stat.st_size offset count small past)

  -- A read that starts after the end of a file, whose block is smaller than the address space, is to copy
  -- nearly 2^64 bytes, which leaves the block.
  pub tmpfs_resource_read-past_end :
      (buf : Bytes) (offset count : ℕ)
      → f.capacity < 2 ^ 64
      → f.stat.st_size < offset
      → offset + count < 2 ^ 63
      → (read_count f offset count ≡ 2 ^ 64 - (offset - f.stat.st_size))
        × (tmpfs_resource_read f buf offset count ≡ none)
  unfolding tmpfs_resource_read is_inside
  tmpfs_resource_read-past_end buf offset count limit past small =
      let amount = past_count offset count past small in
      let some_bytes : (read_count f offset count == 0) ≡ false =
        ground (arith, amount, past, small) in
      let outside : leb (offset + read_count f offset count) f.capacity ≡ false =
        ground (arith, amount, past, small) in
      (amount, rw (some_bytes, outside, h.has_data) refl)

  abbrev write_more : ℕ → ℕ → ℕ → Bool
  write_more offset count c = leb c (add64 offset count)

  module _ (buf : Bytes) (offset count : ℕ) (small : offset + count < 2 ^ 63) where
    module _ (g : TmpfsResource) (w : IsGrown (write_more offset count) f g) where
      same_size : g.stat.st_size ≡ f.stat.st_size
      same_size = ap (λ (t : Stat). t.st_size) w.stat

      room : offset + count < g.capacity
      room = ground (arith, w.enough, add_small offset count small)

      abbrev filled : TmpfsResource
      filled = record g { bytes = copy_bytes g.bytes offset buf 0 count }

      filled-kept :
          (j : ℕ)
          → j < f.capacity
          → ((j < offset) ⊎ (offset + count ≤ j))
          → filled.bytes j ≡ f.bytes j
      filled-kept j l o = copied_out g.bytes offset buf 0 count j o ∙ w.kept j l

      filled-new : (i : ℕ) → i < count → filled.bytes (offset + i) ≡ buf i
      filled-new i l = copied_in g.bytes offset buf 0 count i l ∙ ap buf (omega arith)

      extended :
          f.stat.st_size ≤ offset + count
          → IsWritten f buf offset count (set_size (add64 offset count) filled)
      unfolding set_size
      extended longer =
          let size : add64 offset count ≡ offset + count = add_small offset count small in
          record {
            valid = record {
              has_data = w.has_data h.has_data;
              has_block = omega (arith, h.has_block, w.larger);
              fits = omega (arith, room, size);
              limit = omega (arith, size);
              block_size = ap (λ (t : Stat). t.st_blksize) w.stat ∙ h.block_size;
              blocks =
                  blocks_of _ _ (ap (λ (t : Stat). t.st_blksize) w.stat ∙ h.block_size)
                    (omega (arith, size));
            };
            size = size ∙ omega arith;
            inode = ap (λ (t : Stat). t.st_ino) w.stat;
            new = filled-new;
            kept = filled-kept;
          }

      not_extended : offset + count ≤ f.stat.st_size → IsWritten f buf offset count filled
      not_extended shorter = record {
        valid = record {
          has_data = w.has_data h.has_data;
          has_block = omega (arith, h.has_block, w.larger);
          fits = omega (arith, same_size, h.fits, w.larger);
          limit = omega (arith, same_size, h.limit);
          block_size = ap (λ (t : Stat). t.st_blksize) w.stat ∙ h.block_size;
          blocks =
              ap (λ (t : Stat). t.st_blocks) w.stat
              ∙ h.blocks
              ∙ ap (λ n. (n + 511) / 512) (sym same_size);
        };
        size = same_size ∙ omega arith;
        inode = ap (λ (t : Stat). t.st_ino) w.stat;
        new = filled-new;
        kept = filled-kept;
      }

      longer_iff :
          signed_leb g.stat.st_size (add64 offset count) ≡ leb f.stat.st_size (offset + count)
      longer_iff =
          rw (add_small offset count small, same_size)
            (signed_small f.stat.st_size (offset + count) h.limit small)

      write_into-IsWritten :
          (write_into buf offset count (true, g)).0 ≡ some count
          × IsWritten f buf offset count (write_into buf offset count (true, g)).1
      unfolding write_into
      write_into-IsWritten = (
        refl,
        if_cases (IsWritten f buf offset count) _ _ _
            (λ e. extended (ground (arith, longer_iff, e)))
            (λ e. not_extended (ground (arith, longer_iff, e))),
      )

  -- Writing to a regular file ends. It writes all of the buffer, keeps the other bytes, and extends the file
  -- to the end of what is written; only if memory is out does it fail, and then nothing changed.
  pub tmpfs_resource_write-IsWritten :
      (block : Option Bytes) (buf : Bytes) (offset count : ℕ)
      → offset + count < 2 ^ 63
      → ((block ≡ none)
          × (f.capacity ≤ offset + count)
          × (tmpfs_resource_write block f buf offset count ≡ some (none, f)))
        ⊎ ((g : TmpfsResource) × (tmpfs_resource_write block f buf offset count
              ≡ some (some count, g))
            × IsWritten f buf offset count g)
  unfolding tmpfs_resource_write write_grown write_into
  tmpfs_resource_write-IsWritten block buf offset count small =
      elim (make_room-HasRoom (write_more offset count) (offset + count) f
        (λ d e. ground (arith, e, add_small offset count small)) small h.has_block h.has_data
        block) [
          | inl (e, out, more) ↦ inl (
            out,
            ground (arith, more, add_small offset count small),
            rw (e, tmpfs_resource_write, write_grown) refl,
          )
          | inr (g, e, w) ↦
              let (done, written) = write_into-IsWritten buf offset count small g w in
              inr (
                (write_into buf offset count (true, g)).1,
                rw (e, tmpfs_resource_write, write_grown, w.has_data h.has_data) refl,
                written,
              )
        ]

zero_leb : (n : ℕ) → leb 0 n ≡ true
zero_leb n = ground arith

grow_none :
    (more : ℕ → Bool) (block : Option Bytes) (f : TmpfsResource)
    → double_while 64 more f.capacity ≡ none
    → grow_data more block f ≡ none
unfolding grow_data
grow_none more block f e = rw (e, grow_data) refl

no_room :
    (f : TmpfsResource) (block : Option Bytes) (buf : Bytes) (offset count : ℕ)
    → leb f.capacity (add64 offset count) ≡ true
    → double_while 64 (λ c. leb c (add64 offset count)) f.capacity ≡ none
    → tmpfs_resource_write block f buf offset count ≡ none
unfolding tmpfs_resource_write
no_room f block buf offset count e d =
    let nothing : make_room (λ c. leb c (add64 offset count)) block f ≡ none =
      if_true _ _ _ e ∙ grow_none (λ c. leb c (add64 offset count)) block f d in
    rw (nothing, tmpfs_resource_write) refl

-- Writing to what has no block, as a directory, never ends: the loop goes on after any number of rounds.
pub tmpfs_resource_write-none :
    (f : TmpfsResource) (block : Option Bytes) (buf : Bytes) (offset count : ℕ)
    → f.capacity ≡ 0
    → ((n : ℕ) → double_while n (λ c. leb c (add64 offset count)) f.capacity ≡ none)
      × (tmpfs_resource_write block f buf offset count ≡ none)
tmpfs_resource_write-none f block buf offset count empty =
    let forever : (n : ℕ) → double_while n (λ c. leb c (add64 offset count)) f.capacity ≡ none =
      λ n.
        ap (double_while n (λ c. leb c (add64 offset count))) empty
        ∙ double_while-zero n (λ c. leb c (add64 offset count)) (zero_leb (add64 offset count)) in
    (
      forever,
      no_room f block buf offset count
          (ap (λ c. leb c (add64 offset count)) empty ∙ zero_leb (add64 offset count)) (forever 64),
    )
