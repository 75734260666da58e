-- ===== src/Files/Syscalls.antt =====
-- The file offset under the system calls of kernel/lib/resource.c.
use os_lyre.Base.{
  ℕ, ◌+◌, ◌<◌, ◌≡◌, ◌≢◌, refl, arith, true, false, Option, none, some, List, ◌⊎◌, inl, inr,
  Bool-cases,
}
use mathlib.Core.Path.{subst₂}
use os_lyre.Base.Int.{ℤ, pos, negsuc, minus_one}
use os_lyre.Files.{ResourceOps, Files, max_fds, slot, retain}
use os_lyre.Files.Calls.{
  read_fd, write_fd, finish_transfer, syscall_read, syscall_write, Whence, can_seek, seek_target,
  finish_seek, seek_fd, syscall_seek,
}
use os_lyre.Files.Leak.{from_open}

-- A transfer that returns n moves the offset by n; one that fails leaves it.
abbrev pub IsMoved : {R : Type 0} → ℕ → Files R → ℤ × Files R → Type 0
IsMoved d s r =
    ((n : ℕ) × (r.0 ≡ pos n) × ((r.1.description d).offset ≡ (s.description d).offset + n))
    ⊎ ((r.0 ≡ minus_one) × ((r.1.description d).offset ≡ (s.description d).offset))

retain_offset :
    {R : Type 0} (d : ℕ) (s : Files R)
    → ((retain d s).description d).offset ≡ (s.description d).offset
unfolding retain
retain_offset d s = ground arith

retain_res :
    {R : Type 0} (d : ℕ) (s : Files R) → ((retain d s).description d).res ≡ (s.description d).res
unfolding retain
retain_res d s = ground arith

module _ {R : Type 0} (ops : ResourceOps R) where
  finish_transfer-IsMoved :
      (d : ℕ) (o : Option ℕ) (s t : Files R)
      → t.description ≡ (retain d s).description
      → IsMoved d s (finish_transfer ops d o t)
  unfolding finish_transfer retain
  finish_transfer-IsMoved d none s t e = inr (refl, rw e (ground arith))
  finish_transfer-IsMoved d (some n) s t e = inl (n, refl, rw e (ground arith))

  read_open :
      (fd count : ℕ) (s : Files R)
      → IsMoved
          (s.descriptor fd).description
          s
          (read_fd ops (some fd) count (retain (s.descriptor fd).description s))
  unfolding read_fd retain
  read_open fd count s = finish_transfer-IsMoved (s.descriptor fd).description _ s _ refl

  write_open :
      (fd : ℕ) (bytes : List ℕ) (s : Files R)
      → IsMoved
          (s.descriptor fd).description
          s
          (write_fd ops (some fd) bytes (retain (s.descriptor fd).description s))
  unfolding write_fd retain
  write_open fd bytes s = finish_transfer-IsMoved (s.descriptor fd).description _ s _ refl

  -- A read or a write through an open descriptor moves the offset of its description by what it
  -- returns, and leaves it where it returns -1.
  pub transfer-IsMoved :
      (proc i fd count : ℕ) (bytes : List ℕ) (s : Files R)
      → i < max_fds
      → slot s proc i ≡ some fd
      → IsMoved (s.descriptor fd).description s (syscall_read ops proc (pos i) count s)
        × IsMoved (s.descriptor fd).description s (syscall_write ops proc (pos i) bytes s)
  unfolding syscall_read syscall_write
  transfer-IsMoved proc i fd count bytes s h e =
      rw (from_open proc i fd s h e, syscall_read, syscall_write)
        (read_open fd count s, write_open fd bytes s)

  finish_seek_lem :
      (d : ℕ) (o : Option ℤ) (s : Files R)
      → ((n : ℕ) × (o ≡ some (pos n))
          × ((finish_seek ops d o s).0 ≡ pos n)
          × (((finish_seek ops d o s).1.description d).offset ≡ n))
        ⊎ (((n : ℕ) → o ≢ some (pos n))
            × ((finish_seek ops d o s).0 ≡ minus_one)
            × (((finish_seek ops d o s).1.description d).offset ≡ (s.description d).offset))
  unfolding finish_seek
  finish_seek_lem d none s = inr ((λ n p. cc), refl, refl)
  finish_seek_lem d (some (negsuc m)) s = inr ((λ n p. cc), refl, refl)
  finish_seek_lem d (some (pos n)) s = inl (n, refl, refl, ground arith)

  -- What a seek of description `d`, with offset `at` and resource `r`, has done.
  abbrev pub IsSought : ℕ → ℕ → R → ℤ → Whence → ℤ × Files R → Type 0
  IsSought d at r offset whence out =
      ((n : ℕ) × (can_seek (ops.kind r) ≡ true)
        × (seek_target whence at (ops.size r) offset ≡ some (pos n))
        × (out.0 ≡ pos n)
        × ((out.1.description d).offset ≡ n))
      ⊎ (((can_seek (ops.kind r) ≡ false)
            ⊎ ((n : ℕ) → seek_target whence at (ops.size r) offset ≢ some (pos n)))
          × (out.0 ≡ minus_one)
          × ((out.1.description d).offset ≡ at))

  seek_fd_lem :
      (fd : ℕ) (offset : ℤ) (whence : Whence) (t : Files R)
      → let d = (t.descriptor fd).description in
        IsSought d
          (t.description d).offset
          (t.resource (t.description d).res)
          offset
          whence
          (seek_fd ops (some fd) offset whence t)
  unfolding seek_fd
  seek_fd_lem fd offset whence t =
      let d = (t.descriptor fd).description in
      let r = t.resource (t.description d).res in
      let target = seek_target whence (t.description d).offset (ops.size r) offset in
      elim (Bool-cases (can_seek (ops.kind r))) [
        | inr bad ↦ rw (bad, seek_fd) (inr (inl refl, refl, refl))
        | inl good ↦
            rw (good, seek_fd)
              (elim (finish_seek_lem d target t) [
                | inl (n, a, b, c) ↦ inl (n, refl, a, b, c)
                | inr (a, b, c) ↦ inr (inr a, b, c)
              ])
      ]

  -- A seek through an open descriptor sets the offset to the target and returns it, if the file can
  -- seek and the target is known and not negative; otherwise it returns -1 and leaves the offset.
  pub syscall_seek_lem :
      (proc i fd : ℕ) (offset : ℤ) (whence : Whence) (s : Files R)
      → i < max_fds
      → slot s proc i ≡ some fd
      → let d = (s.descriptor fd).description in
        IsSought d
          (s.description d).offset
          (s.resource (s.description d).res)
          offset
          whence
          (syscall_seek ops proc (pos i) offset whence s)
  unfolding syscall_seek seek_target retain
  syscall_seek_lem proc i fd offset whence s h e =
      rw (from_open proc i fd s h e, syscall_seek)
        (subst₂
          (λ at res.
            IsSought (s.descriptor fd).description at (s.resource res) offset whence
              (seek_fd ops (some fd) offset whence (retain (s.descriptor fd).description s)))
          (retain_offset (s.descriptor fd).description s)
          (retain_res (s.descriptor fd).description s)
          (seek_fd_lem fd offset whence (retain (s.descriptor fd).description s)))
