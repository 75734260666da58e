-- ===== src/Tmpfs/Inodes.antt =====
-- The inode numbers of kernel/fs/tmpfs.c, and files with two names.
use os_lyre.Base.{
  ℕ, ◌+◌, ◌%◌, ◌^◌, ◌≤◌, ◌<◌, ◌≡◌, inl, inr, refl, ap, sym, ◌∙◌, arith, Bool, true, false, Option,
  none, some, List, [], ◌∷◌, ◌==◌, ◌&&◌, ==_iff, if◌then◌else◌, if_true, if_false, if_cases,
}
use os_lyre.Tmpfs.{Bytes, TmpfsResource, tmpfs_resource_read, tmpfs_resource_write}
use os_lyre.Tmpfs.Laws.{IsValid, tmpfs_resource_write-IsWritten}
use os_lyre.Tmpfs.Truncate.{tmpfs_truncate-IsTruncated, tmpfs_resource_read-tmpfs_resource_write}
use os_lyre.Tmpfs.Files.{
  is_some, Tmpfs, Node, new_resource, create_tmpfs_resource, tmpfs_create, tmpfs_mount,
  tmpfs_instantiate, tmpfs_symlink, tmpfs_link, Call, create, symlink, write, truncate,
  set_resource, run_call, run_calls,
}

-- What has a block is well formed.
abbrev pub IsFile : TmpfsResource → Type 0
IsFile r = r.has_data ≡ true → IsValid r

pub record IsSound (this : Tmpfs) : Type 0 where
  pub counter : this.inode_counter ≡ this.resource_count % 2 ^ 64
  pub inode : (i : ℕ) → i < this.resource_count → (this.resources i).stat.st_ino ≡ i % 2 ^ 64
  pub file : (i : ℕ) → i < this.resource_count → IsFile (this.resources i)

IsSound-set :
    (this : Tmpfs) (k : ℕ) (r : TmpfsResource)
    → IsSound this
    → r.stat.st_ino ≡ (this.resources k).stat.st_ino
    → IsFile r
    → IsSound (set_resource k r this)
unfolding set_resource
IsSound-set this k r h same file = record {
  counter = h.counter;
  inode = λ i l.
      if_cases (λ (t : TmpfsResource). t.stat.st_ino ≡ i % 2 ^ 64) _ _ _
        (λ e.
          same ∙ ap (λ j. (this.resources j).stat.st_ino) (sym ((==_iff i k).0 e)) ∙ h.inode i l)
        (λ e. h.inode i l);
  file = λ i l. if_cases IsFile _ _ _ (λ e. file) (λ e. h.file i l);
}

regular-room : (b c : Bool) → (b && c) ≡ true → 0 < (if b then 4096 else 0)
regular-room true c h = omega arith
regular-room false c h = absurd (cc)

module _ (s_isreg s_isdir : ℕ → Bool) (symlink_mode : ℕ) where
  new_resource-IsFile :
      (this : Tmpfs) (block : Option Bytes) (mode : ℕ)
      → IsFile (new_resource s_isreg s_isdir symlink_mode this block mode)
  unfolding new_resource
  new_resource-IsFile this block mode h = record {
    has_data = h;
    has_block = regular-room (s_isreg mode) (is_some block) h;
    fits = omega arith;
    limit = omega arith;
    block_size = refl;
    blocks = refl;
  }

  new_inode :
      (this : Tmpfs) (block : Option Bytes) (mode i : ℕ)
      → IsSound this
      → i ≡ this.resource_count
      → (new_resource s_isreg s_isdir symlink_mode this block mode).stat.st_ino ≡ i % 2 ^ 64
  unfolding new_resource
  new_inode this block mode i h e = h.counter ∙ ap (λ k. k % 2 ^ 64) (sym e)

  create_tmpfs_resource-IsSound :
      (ok : Bool) (block : Option Bytes) (mode : ℕ) (this : Tmpfs)
      → IsSound this
      → IsSound (create_tmpfs_resource s_isreg s_isdir symlink_mode ok block mode this).1
  unfolding create_tmpfs_resource
  create_tmpfs_resource-IsSound false block mode this h = h
  create_tmpfs_resource-IsSound true block mode this h = record {
    counter = omega (arith, h.counter);
    inode = λ i l.
        if_cases (λ (t : TmpfsResource). t.stat.st_ino ≡ i % 2 ^ 64) (i == this.resource_count)
          (new_resource s_isreg s_isdir symlink_mode this block mode) (this.resources i)
          (λ e. new_inode this block mode i h ((==_iff i this.resource_count).0 e))
          (λ e. h.inode i (ground (arith, l, e)));
    file = λ i l.
        if_cases IsFile (i == this.resource_count)
          (new_resource s_isreg s_isdir symlink_mode this block mode) (this.resources i)
          (λ e. new_resource-IsFile this block mode) (λ e. h.file i (ground (arith, l, e)));
  }

  -- A new file system is sound, whether or not its root could be made.
  pub tmpfs_mount-IsSound :
      (ok : Bool) (block : Option Bytes) (name : List ℕ) (directory_mode : ℕ)
      → IsSound (tmpfs_mount s_isreg s_isdir symlink_mode ok block name directory_mode).1
  unfolding tmpfs_mount tmpfs_create
  tmpfs_mount-IsSound ok block name directory_mode =
      create_tmpfs_resource-IsSound ok block directory_mode tmpfs_instantiate (record {
        counter = refl;
        inode = λ i l. absurd (omega arith);
        file = λ i l. absurd (omega arith);
      })

  -- The calls that the system makes: on regular files, and at offsets below 2^63.
  unfoldable pub IsCall : Call → Tmpfs → Type 0
  IsCall (create ok block name mode) this = 0 ≤ 0
  IsCall (symlink ok block name target) this = 0 ≤ 0
  IsCall (write block node buf offset count) this =
      (node.resource < this.resource_count)
      × ((this.resources node.resource).has_data ≡ true)
      × (offset + count < 2 ^ 63)
  IsCall (truncate block node length) this =
      (node.resource < this.resource_count)
      × ((this.resources node.resource).has_data ≡ true)
      × (length < 2 ^ 63)

  abbrev pub run : Call → Tmpfs → Option Tmpfs
  run = run_call s_isreg s_isdir symlink_mode

  unfoldable pub AreCalls : List Call → Tmpfs → Type 0
  AreCalls [] this = 0 ≤ 0
  AreCalls (c ∷ cs) this =
      IsCall c this × ((that : Tmpfs) → run c this ≡ some that → AreCalls cs that)

  -- A call ends, and the inode numbers stay those of the order of creation.
  run_call-IsSound :
      (c : Call) (this : Tmpfs)
      → IsSound this
      → IsCall c this
      → (that : Tmpfs) × (run c this ≡ some that) × IsSound that
  unfolding run_call tmpfs_create tmpfs_symlink IsCall
  run_call-IsSound (create ok block name mode) this h k =
      (_, refl, create_tmpfs_resource-IsSound ok block mode this h)
  run_call-IsSound (symlink ok block name target) this h k =
      (_, refl, create_tmpfs_resource-IsSound ok block symlink_mode this h)
  run_call-IsSound (write block node buf offset count) this h (low, block_there, small) =
      let f = this.resources node.resource in
      let valid : IsValid f = h.file node.resource low block_there in
      elim (tmpfs_resource_write-IsWritten f valid block buf offset count small) [
        | inl (out, more, failed) ↦ (
          set_resource node.resource f this,
          rw (failed, run_call) refl,
          IsSound-set this node.resource f h refl (λ p. valid),
        )
        | inr (g, done, w) ↦ (
          set_resource node.resource g this,
          rw (done, run_call) refl,
          IsSound-set this node.resource g h w.inode (λ p. w.valid),
        )
      ]
  run_call-IsSound (truncate block node length) this h (low, block_there, small) =
      let f = this.resources node.resource in
      let valid : IsValid f = h.file node.resource low block_there in
      elim (tmpfs_truncate-IsTruncated f valid block length small) [
        | inl (out, more, failed) ↦ (
          set_resource node.resource f this,
          rw (failed, run_call) refl,
          IsSound-set this node.resource f h refl (λ p. valid),
        )
        | inr (g, done, w) ↦ (
          set_resource node.resource g this,
          rw (done, run_call) refl,
          IsSound-set this node.resource g h w.inode (λ p. w.valid),
        )
      ]

  -- A sequence of calls on a sound file system ends, in a sound file system.
  run_calls-IsSound :
      (cs : List Call) (this : Tmpfs)
      → IsSound this
      → AreCalls cs this
      → (that : Tmpfs) × (run_calls s_isreg s_isdir symlink_mode cs this ≡ some that) × IsSound that
  unfolding run_calls AreCalls
  run_calls-IsSound [] this h k = (this, refl, h)
  run_calls-IsSound (c ∷ cs) this h (first, others) =
      let (that, e, sound) = run_call-IsSound c this h first in
      let (last, d, end) = run_calls-IsSound cs that sound (others that e) in
      (last, rw (e, run_calls) d, end)

  -- From a sound file system, a sequence of creations, writes to files and truncations ends. The files that
  -- have a block then keep their invariant, and while there are at most 2^64 of them no two have the same inode number.
  pub run_calls-AreDistinct :
      (cs : List Call) (this : Tmpfs)
      → IsSound this
      → AreCalls cs this
      → (that : Tmpfs) × (run_calls s_isreg s_isdir symlink_mode cs this ≡ some that)
        × ((i : ℕ) → i < that.resource_count → IsFile (that.resources i))
        × ((i j : ℕ)
            → i < that.resource_count
            → j < that.resource_count
            → that.resource_count ≤ 2 ^ 64
            → (that.resources i).stat.st_ino ≡ (that.resources j).stat.st_ino
            → i ≡ j)
  run_calls-AreDistinct cs this h k =
      let (that, e, sound) = run_calls-IsSound cs this h k in
      (
        that,
        e,
        sound.file,
        λ i j l m limit same. omega (arith, same, sound.inode i l, sound.inode j m),
      )

  -- A file that is no directory gets a second name by a link, and what is written under the one is read
  -- under the other.
  pub tmpfs_resource_read-tmpfs_link :
      (this : Tmpfs) (node : Node) (name : List ℕ) (block : Option Bytes) (buf out : Bytes)
      (offset count : ℕ) (g : TmpfsResource)
      → IsValid (this.resources node.resource)
      → s_isdir (this.resources node.resource).stat.st_mode ≡ false
      → offset + count < 2 ^ 63
      → tmpfs_resource_write block (this.resources node.resource) buf offset count
        ≡ some (some count, g)
      → (other : Node) × (read : Bytes) × (tmpfs_link s_isreg s_isdir symlink_mode name node this
          ≡ some other)
        × (run (write block node buf offset count) this ≡ some (set_resource node.resource g this))
        × (tmpfs_resource_read
              ((set_resource node.resource g this).resources other.resource)
              out
              offset
              count
            ≡ some (count, read))
        × ((i : ℕ) → i < count → read i ≡ buf i)
  unfolding run_call tmpfs_link set_resource
  tmpfs_resource_read-tmpfs_link this node name block buf out offset count g valid file small done =
      let at_self : (if node.resource == node.resource then g else this.resources node.resource)
          ≡ g =
        if_true _ _ _ ((==_iff node.resource node.resource).1 refl) in
      let (read, amount, bytes) =
        tmpfs_resource_read-tmpfs_resource_write (this.resources node.resource) valid block buf out
          offset count g small done in
      (
        record {
          name = name;
          is_directory = false;
          resource = node.resource;
          symlink_target = none;
        },
        read,
        if_false _ _ _ file,
        rw (done, run_call) refl,
        rw at_self amount,
        bytes,
      )
