-- ===== src/Tmpfs/Truncate.antt =====
-- Truncating a file of kernel/fs/tmpfs.c, and how its operations undo one another.
use mathlib.Core.Path.{subst}
use os_lyre.Base.{
  some_ne_none, some_inj, ℕ, ◌+◌, ◌-◌, ◌*◌, ◌^◌, ◌≤◌, ◌<◌, ◌≡◌, ◌⊎◌, inl, inr, refl, ap, sym, ◌∙◌,
  arith, Bool, true, false, Option, none, some, ltb, leb, if_true, if_cases,
}
use os_lyre.Misc.{page_size}
use os_lyre.Tmpfs.{
  Bytes, TmpfsResource, Stat, copy_bytes, tmpfs_resource_read, set_size, tmpfs_resource_write,
  truncate_to, truncate_grown, tmpfs_truncate, Page, shared, private, tmpfs_resource_mmap,
  tmpfs_resource_msync,
}
use os_lyre.Tmpfs.Grow.{IsGrown, make_room-HasRoom}
use os_lyre.Tmpfs.Laws.{
  IsValid, IsWritten, blocks_of, low_in, tmpfs_resource_write-IsWritten, tmpfs_resource_read-IsRead,
}

-- `g` is `f` with the given size; the bytes are kept, also those after the new end.
pub record IsTruncated (f : TmpfsResource) (length : ℕ) (g : TmpfsResource) : Type 0 where
  pub valid : IsValid g
  pub size : g.stat.st_size ≡ length
  pub inode : g.stat.st_ino ≡ f.stat.st_ino
  pub kept : (j : ℕ) → j < f.capacity → g.bytes j ≡ f.bytes j

abbrev page_bytes : Page → Bytes
page_bytes (shared at) = λ j. 0
page_bytes (private bytes) = bytes

page_byte :
    (m p : Bytes) (k j : ℕ)
    → k * page_size ≤ j
    → j < k * page_size + page_size
    → copy_bytes m 0 p (k * page_size) page_size (0 + (j - k * page_size)) ≡ p j
page_byte m p k j h l =
    low_in m p (k * page_size) page_size (0 + (j - k * page_size)) (omega arith)
    ∙ ap p (omega arith)

module _ (f : TmpfsResource) (h : IsValid f) where
  abbrev truncate_more : ℕ → ℕ → Bool
  truncate_more length c = ltb c length

  truncate_to-IsTruncated :
      (length : ℕ) (g : TmpfsResource)
      → length < 2 ^ 63
      → IsGrown (truncate_more length) f g
      → IsTruncated f length (set_size length g)
  unfolding set_size
  truncate_to-IsTruncated length g small w = record {
    valid = record {
      has_data = w.has_data h.has_data;
      has_block = omega (arith, h.has_block, w.larger);
      fits = ground (arith, w.enough);
      limit = small;
      block_size = ap (λ (t : Stat). t.st_blksize) w.stat ∙ h.block_size;
      blocks = blocks_of _ _ (ap (λ (t : Stat). t.st_blksize) w.stat ∙ h.block_size) small;
    };
    size = refl;
    inode = ap (λ (t : Stat). t.st_ino) w.stat;
    kept = w.kept;
  }

  -- Truncating a regular file ends. It sets the size and keeps the bytes; only if memory is out does it
  -- fail, and then nothing changed.
  pub tmpfs_truncate-IsTruncated :
      (block : Option Bytes) (length : ℕ)
      → length < 2 ^ 63
      → ((block ≡ none) × (f.capacity < length) × (tmpfs_truncate block f length ≡ some (false, f)))
        ⊎ ((g : TmpfsResource) × (tmpfs_truncate block f length ≡ some (true, g))
            × IsTruncated f length g)
  unfolding truncate_to truncate_grown tmpfs_truncate
  tmpfs_truncate-IsTruncated block length small =
      elim (make_room-HasRoom (truncate_more length) length f (λ d e. ground (arith, e)) small
        h.has_block h.has_data block) [
          | inl (e, out, more) ↦
              inl (out, ground (arith, more), rw (e, tmpfs_truncate, truncate_grown) refl)
          | inr (g, e, w) ↦ inr (
            set_size length g,
            rw (e, tmpfs_truncate, truncate_grown, h.has_data) refl,
            truncate_to-IsTruncated length g small w,
          )
        ]

  pub written_lem :
      (block : Option Bytes) (buf : Bytes) (offset count : ℕ) (g : TmpfsResource)
      → offset + count < 2 ^ 63
      → tmpfs_resource_write block f buf offset count ≡ some (some count, g)
      → IsWritten f buf offset count g
  written_lem block buf offset count g small e =
      elim (tmpfs_resource_write-IsWritten f h block buf offset count small) [
        | inl (out, more, failed) ↦ absurd (
            some_ne_none
              (sym (ap (λ r. r.0) (some_inj (none, f) (some count, g) (sym failed ∙ e)))))
        | inr (w, done, written) ↦
            subst (IsWritten f buf offset count)
              (ap (λ r. r.1) (some_inj (some count, w) (some count, g) (sym done ∙ e))) written
      ]

  -- What was written is read back.
  pub tmpfs_resource_read-tmpfs_resource_write :
      (block : Option Bytes) (buf other : Bytes) (offset count : ℕ) (g : TmpfsResource)
      → offset + count < 2 ^ 63
      → tmpfs_resource_write block f buf offset count ≡ some (some count, g)
      → (out : Bytes) × (tmpfs_resource_read g other offset count ≡ some (count, out))
        × ((i : ℕ) → i < count → out i ≡ buf i)
  tmpfs_resource_read-tmpfs_resource_write block buf other offset count g small e =
      let w = written_lem block buf offset count g small e in
      let inside : leb (offset + count) g.stat.st_size ≡ true = ground (arith, w.size) in
      let (out, done, bytes, rest) =
        tmpfs_resource_read-IsRead g w.valid other offset count (omega (arith, w.size)) small in
      let all =
        if_true (leb (offset + count) g.stat.st_size) count (g.stat.st_size - offset) inside in
      (out, done ∙ ap (λ n. some (n, out)) all, λ i l. bytes i (omega (arith, all)) ∙ w.new i l)

  -- A private page of a mapping that is written back changes nothing of the file.
  pub tmpfs_resource_msync-tmpfs_resource_mmap :
      (fresh copy : Bytes) (file_page : ℕ)
      → tmpfs_resource_mmap (some fresh) f file_page false ≡ some (private copy)
      → (j : ℕ) → (tmpfs_resource_msync f file_page copy false).1.bytes j ≡ f.bytes j
  unfolding tmpfs_resource_msync tmpfs_resource_mmap
  tmpfs_resource_msync-tmpfs_resource_mmap fresh copy file_page e j =
      let page = ap page_bytes (some_inj _ _ (sym e)) in
      if_cases (λ b. b ≡ f.bytes j) _ _ _
        (λ inside.
          ap (λ (b : Bytes). b (0 + (j - file_page * page_size))) page
          ∙ page_byte fresh f.bytes file_page j (ground (arith, inside)) (ground (arith, inside)))
        (λ outside. refl)
