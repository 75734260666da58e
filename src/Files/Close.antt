-- ===== src/Files/Close.antt =====
-- `fdnum_close` of kernel/lib/resource.c on every branch.
use os_lyre.Base.{
  ℕ, ◌<◌, ◌≡◌, ◌≢◌, refl, arith, true, false, ◌&&◌, none, some, Option-cases, inl, inr, ◌∙◌, ◌==◌,
  if◌then◌else◌, length,
}
use os_lyre.Base.Words.{sub64}
use os_lyre.Base.Int.{ℤ, pos}
use os_lyre.Files.{
  ResourceOps, Files, ebadf, max_fds, slot, fail_with, close_slot, fd_index, fdnum_close,
}
use os_lyre.Files.Create.{slot-set_slot, fd_index-pos}

-- What closing the open descriptor `fd` in slot `i` of `proc` has done.
pub record IsClosed {R : Type 0} (ops : ResourceOps R) (proc i fd : ℕ) (s s' : Files R)
    : Type 0 where
  pub slots : (q k : ℕ) → slot s' q k ≡ (if q == proc && k == i then none else slot s q k)
  pub freed : (s'.descriptor fd).live ≡ false
  pub count :
      (s'.description (s.descriptor fd).description).refcount
      ≡ sub64 (s.description (s.descriptor fd).description).refcount 1
  pub live : (s'.description (s.descriptor fd).description).live ≡ (
      if (s.description (s.descriptor fd).description).refcount == 1
      then false
      else (s.description (s.descriptor fd).description).live)
  pub others : (d : ℕ) → d ≢ (s.descriptor fd).description → s'.description d ≡ s.description d
  pub resource :
      s'.resource (s.description (s.descriptor fd).description).res
      ≡ ops.unref
          (s.resource (s.description (s.descriptor fd).description).res)
          (s.description (s.descriptor fd).description)

close_at :
    {R : Type 0} (ops : ResourceOps R) (proc i : ℕ) (fdnum : ℤ) (s : Files R)
    → fd_index fdnum ≡ some i
    → fdnum_close ops proc fdnum s ≡ close_slot ops proc i (slot s proc i) s
unfolding fdnum_close
close_at ops proc i fdnum s e = rw (e, fdnum_close)

close_slot-IsClosed :
    {R : Type 0} (ops : ResourceOps R) (proc i fd : ℕ) (s : Files R)
    → i < length (s.table proc)
    → IsClosed ops proc i fd s (close_slot ops proc i (some fd) s).1
unfolding close_slot
close_slot-IsClosed ops proc i fd s l = record {
  slots = slot-set_slot s proc i none l;
  freed = ground arith;
  count = ground arith;
  live = ground arith;
  others = λ d n. ground arith;
  resource = ground arith;
}

-- Closing an open descriptor empties its slot and no other, drops the resource's reference, takes one
-- off the description's count, frees the descriptor, and frees the description exactly if the count
-- was one; other descriptions stay as they are.
pub fdnum_close-IsClosed :
    {R : Type 0} (ops : ResourceOps R) (proc i fd : ℕ) (s : Files R)
    → i < max_fds
    → i < length (s.table proc)
    → slot s proc i ≡ some fd
    → ((fdnum_close ops proc (pos i) s).0 ≡ true)
      × IsClosed ops proc i fd s (fdnum_close ops proc (pos i) s).1
unfolding close_slot
fdnum_close-IsClosed ops proc i fd s h l e =
    rw (close_at ops proc i (pos i) s (fd_index-pos i h), e)
      (refl, close_slot-IsClosed ops proc i fd s l)

bad_index :
    {R : Type 0} (ops : ResourceOps R) (proc : ℕ) (fdnum : ℤ) (s : Files R)
    → fd_index fdnum ≡ none
    → fdnum_close ops proc fdnum s ≡ (false, fail_with ebadf s)
unfolding fdnum_close
bad_index ops proc fdnum s e = rw (e, fdnum_close)

bad_slot :
    {R : Type 0} (ops : ResourceOps R) (proc i : ℕ) (s : Files R)
    → slot s proc i ≡ none
    → close_slot ops proc i (slot s proc i) s ≡ (false, fail_with ebadf s)
unfolding close_slot
bad_slot ops proc i s e = rw e

-- A number that is negative, too large or not open is refused with EBADF, and nothing is closed.
pub fdnum_close_bad :
    {R : Type 0} (ops : ResourceOps R) (proc : ℕ) (fdnum : ℤ) (s : Files R)
    → ((i : ℕ) → fd_index fdnum ≡ some i → slot s proc i ≡ none)
    → fdnum_close ops proc fdnum s ≡ (false, fail_with ebadf s)
fdnum_close_bad ops proc fdnum s h = elim (Option-cases (fd_index fdnum)) [
  | inl e ↦ bad_index ops proc fdnum s e
  | inr (i, e) ↦ close_at ops proc i fdnum s e ∙ bad_slot ops proc i s (h i e)
]
