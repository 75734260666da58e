-- ===== src/Files/Dup.antt =====
-- `fdnum_dup` of kernel/lib/resource.c, as fcntl calls it: the new descriptor takes the lowest free
-- number from the one given on.
use os_lyre.Base.{
  ℕ, ◌+◌, ◌-◌, ◌<◌, ◌≡◌, refl, ap, ◌∙◌, sym, arith, Bool, true, false, Option, none, some,
  Option-cases, inl, inr, ◌==◌, ◌&&◌, if◌then◌else◌, length, get_or,
}
use os_lyre.Base.Words.{add64}
use os_lyre.Base.Int.{ℤ, pos, negsuc}
use os_lyre.Files.{
  ResourceOps, Files, Description, Descriptor, OpenFlags, max_fds, update, slot, retain, fail_with,
  fd_index, put_free, find_free, fdnum_create_from_fd,
}
use os_lyre.Files.Calls.{copy_fd, finish_dup, fdnum_dup}
use os_lyre.Files.Create.{IsFirstFree, fdnum_create_lowest}
use mathlib.Core.Path.{subst}
use os_lyre.Files.Leak.{from_open}

update_self : {A : Type 0} (g : ℕ → A) (k : ℕ) (v : A) → update g k v k ≡ v
update_self g k v = ground arith

update_other : {A : Type 0} (g : ℕ → A) (k : ℕ) (v : A) (j : ℕ) → j < k → update g k v j ≡ g j
update_other g k v j h = ground arith

module _ {R : Type 0} (ops : ResourceOps R) where
  pos-injective : {a b : ℕ} → pos a ≡ pos b → a ≡ b
  pos-injective e = cc

  -- The search for a number leaves descriptors and descriptions alone.
  put_free_same :
      (proc fd : ℕ) (o : Option ℕ) (s : Files R)
      → ((put_free ops proc fd o s).1.descriptor ≡ s.descriptor)
        × ((put_free ops proc fd o s).1.description ≡ s.description)
  unfolding put_free
  put_free_same proc fd none s = (refl, refl)
  put_free_same proc fd (some i) s = (refl, refl)

  create_same :
      (proc fd : ℕ) (old : ℤ) (s : Files R)
      → ((fdnum_create_from_fd ops proc fd old false s).1.descriptor ≡ s.descriptor)
        × ((fdnum_create_from_fd ops proc fd old false s).1.description ≡ s.description)
  unfolding fdnum_create_from_fd fail_with
  create_same proc fd old s = elim (Option-cases (fd_index old)) [
    | inl e ↦ rw (e, fdnum_create_from_fd) (refl, refl)
    | inr (i, e) ↦
        rw (e, fdnum_create_from_fd)
          (put_free_same proc fd (find_free (s.table proc) i (max_fds - i)) s)
  ]

  finish_dup_lem :
      (old_fd new_fd : ℕ) (flags : OpenFlags) (cloexec : Bool) (n j : ℤ) (t s' : Files R) (m : ℕ)
      → j ≡ pos m
      → finish_dup ops old_fd new_fd flags cloexec (n, t) ≡ (j, s')
      → ((s'.descriptor new_fd).cloexec ≡ flags.cloexec)
        × ((s'.descriptor new_fd).description ≡ (t.descriptor new_fd).description)
        × ((s'.description (t.descriptor old_fd).description).refcount
            ≡ add64 (t.description (t.descriptor old_fd).description).refcount 1)
        × (s'.table ≡ t.table)
        × (n ≡ j)
  unfolding finish_dup
  finish_dup_lem old_fd new_fd flags cloexec (negsuc n) j t s' m q e = absurd (cc)
  finish_dup_lem old_fd new_fd flags cloexec (pos n) j t s' m q e =
      (ground arith, ground arith, ground arith, ground arith, ground arith)

  by_copy :
      (proc i fd new_proc : ℕ) (new_fdnum : ℤ) (flags : OpenFlags) (cloexec : Bool) (s : Files R)
      → i < max_fds
      → slot s proc i ≡ some fd
      → fdnum_dup ops true proc (pos i) new_proc new_fdnum flags false cloexec s
        ≡ copy_fd ops true
            (some fd)
            new_proc
            new_fdnum
            flags
            false
            cloexec
            (retain (s.descriptor fd).description s)
  unfolding fdnum_dup
  by_copy proc i fd new_proc new_fdnum flags cloexec s h e =
      rw (from_open proc i fd s h e, fdnum_dup)

  -- The number that was found is the lowest free one, and holds the new descriptor.
  numbered :
      (new_proc n fd : ℕ) (t s' : Files R) (j : ℕ)
      → n < max_fds
      → length (t.table new_proc) ≡ max_fds
      → (fdnum_create_from_fd ops new_proc fd (pos n) false t).0 ≡ pos j
      → s'.table ≡ (fdnum_create_from_fd ops new_proc fd (pos n) false t).1.table
      → IsFirstFree (t.table new_proc) n (max_fds - n) j
        × ((q k : ℕ) → slot s' q k ≡ (if q == new_proc && k == j then some fd else slot t q k))
  numbered new_proc n fd t s' j b w e same = elim (fdnum_create_lowest ops new_proc fd n t b w) [
    | inr (minus, kept, full) ↦ absurd (cc)
    | inl (i, found, first, slots) ↦
        let p : i ≡ j = pos-injective (sym found ∙ e) in
        (
          subst (IsFirstFree (t.table new_proc) n (max_fds - n)) p first,
          λ q k. ap (λ g. get_or (g q) k none) same ∙ slots q k ∙ rw p refl,
        )
  ]

  -- If the descriptor is open, the allocation succeeds, no particular number is asked for and the call
  -- returns one, then that is the lowest free number from the given one on, and it holds the new
  -- descriptor, no other number of any process being changed. The new descriptor has the description of
  -- the old. Its close-on-exec flag is the one in `flags`, whatever `cloexec` asks, and the description
  -- has two references more.
  pub fdnum_dup_lem :
      (proc i fd new_proc n : ℕ) (flags : OpenFlags) (cloexec : Bool) (s : Files R) (j : ℕ)
      (s' : Files R)
      → i < max_fds
      → n < max_fds
      → length (s.table new_proc) ≡ max_fds
      → slot s proc i ≡ some fd
      → fd < s.next
      → fdnum_dup ops true proc (pos i) new_proc (pos n) flags false cloexec s ≡ (pos j, s')
      → ((s'.descriptor s.next).cloexec ≡ flags.cloexec)
        × ((s'.descriptor s.next).description ≡ (s.descriptor fd).description)
        × ((s'.description (s.descriptor fd).description).refcount
            ≡ add64 (add64 (s.description (s.descriptor fd).description).refcount 1) 1)
        × IsFirstFree (s.table new_proc) n (max_fds - n) j
        × ((q k : ℕ) → slot s' q k ≡ (if q == new_proc && k == j then some s.next else slot s q k))
  unfolding finish_dup copy_fd retain
  fdnum_dup_lem proc i fd new_proc n flags cloexec s j s' h b w e f r =
      let d = (s.descriptor fd).description in
      let held = retain d s in
      let copied : Files R = record held {
        descriptor = update held.descriptor held.next (held.descriptor fd);
        next = held.next + 1;
      } in
      let made = fdnum_create_from_fd ops new_proc held.next (pos n) false copied in
      let same = create_same new_proc held.next (pos n) copied in
      let r' : finish_dup ops fd held.next flags cloexec made ≡ (pos j, s') =
        sym (by_copy proc i fd new_proc (pos n) flags cloexec s h e) ∙ r in
      let l = finish_dup_lem fd held.next flags cloexec made.0 (pos j) made.1 s' j refl r' in
      let at_new : made.1.descriptor s.next ≡ s.descriptor fd =
        ap (λ g. g s.next) same.0 ∙ update_self s.descriptor s.next (s.descriptor fd) in
      let at_old : made.1.descriptor fd ≡ s.descriptor fd =
        ap (λ g. g fd) same.0 ∙ update_other s.descriptor s.next (s.descriptor fd) fd f in
      let count : (made.1.description d).refcount ≡ add64 (s.description d).refcount 1 =
        ap (λ g. (g d).refcount) same.1
        ∙ ap (λ (x : Description). x.refcount) (update_self s.description d _) in
      let of_old : (made.1.descriptor fd).description ≡ d =
        ap (λ (x : Descriptor). x.description) at_old in
      let new = numbered new_proc n held.next copied s' j b w l.4 l.3 in
      (
        l.0,
        l.1 ∙ ap (λ (x : Descriptor). x.description) at_new,
        (rw of_old at l.2) ∙ ap (λ n. add64 n 1) count,
        new.0,
        new.1,
      )
