-- ===== src/Tmpfs/Files.antt =====
-- The nodes of kernel/fs/tmpfs.c. A file's resource is known by its number in the file system, so that two
-- nodes can share it. The allocations of nodes, whose outcome vfs_create_node uses unchecked, succeed. The
-- first block of a file, which create_tmpfs_resource does not check, is none where memory is out.
use os_lyre.Base.{
  ℕ, suc, Bool, true, false, ◌&&◌, Option, none, some, List, [], ◌∷◌, ◌==◌, if◌then◌else◌,
}
use os_lyre.Base.Words.{add64}
use os_lyre.Tmpfs.{Bytes, TmpfsResource, tmpfs_resource_write, tmpfs_truncate}

pub record Tmpfs : Type 0 where
  pub dev_id : ℕ
  pub inode_counter : ℕ
  pub resource_count : ℕ
  pub resources : ℕ → TmpfsResource

pub record Node : Type 0 where
  pub name : List ℕ
  pub is_directory : Bool
  pub resource : ℕ
  pub symlink_target : Option (List ℕ)

-- The calls that change a file system.
pub data Call : Type 0 where
  create : Bool → Option Bytes → List ℕ → ℕ → Call
  symlink : Bool → Option Bytes → List ℕ → List ℕ → Call
  write : Option Bytes → Node → Bytes → ℕ → ℕ → Call
  truncate : Option Bytes → Node → ℕ → Call

unfoldable pub set_resource : ℕ → TmpfsResource → Tmpfs → Tmpfs
set_resource k r this = record this { resources = λ i. if i == k then r else this.resources i }

unfoldable pub is_some : Option Bytes → Bool
is_some none = false
is_some (some block) = true

-- What the slots that no resource is in hold.
abbrev pub no_resource : TmpfsResource
no_resource = record {
  stat = record {
    st_size = 0;
    st_blocks = 0;
    st_blksize = 0;
    st_dev = 0;
    st_ino = 0;
    st_mode = 0;
    st_nlink = 0;
  };
  can_mmap = false;
  has_data = false;
  bytes = λ i. 0;
  capacity = 0;
}

-- The allocated structure is zero, also its device id.
abbrev pub tmpfs_instantiate : Tmpfs
tmpfs_instantiate = record {
  dev_id = 0;
  inode_counter = 0;
  resource_count = 0;
  resources = λ i. no_resource;
}

-- S_ISREG, S_ISDIR, S_IFDIR and S_IFLNK are of the C library.
module _ (s_isreg s_isdir : ℕ → Bool) (symlink_mode : ℕ) where
  unfoldable pub new_resource : Tmpfs → Option Bytes → ℕ → TmpfsResource
  unfolding is_some
  new_resource this block mode = record {
    stat = record {
      st_size = 0;
      st_blocks = 0;
      st_blksize = 512;
      st_dev = this.dev_id;
      st_ino = this.inode_counter;
      st_mode = mode;
      st_nlink = 1;
    };
    can_mmap = s_isreg mode;
    has_data = s_isreg mode && is_some block;
    bytes = elim block [ none ↦ (λ i. 0) | some fresh ↦ fresh ];
    capacity = if s_isreg mode then 4096 else 0;
  }

  -- The number of the resource; none where resource_create, whose outcome is `ok`, fails.
  unfoldable pub create_tmpfs_resource : Bool → Option Bytes → ℕ → Tmpfs → Option ℕ × Tmpfs
  create_tmpfs_resource ok block mode this =
      if ok
      then (
        some this.resource_count,
        record this {
          inode_counter = add64 this.inode_counter 1;
          resource_count = suc this.resource_count;
          resources = λ i.
              if i == this.resource_count then new_resource this block mode else this.resources i;
        },
      )
      else (none, this)

  unfoldable pub tmpfs_create : Bool → Option Bytes → List ℕ → ℕ → Tmpfs → Option Node × Tmpfs
  tmpfs_create ok block name mode this =
      let r = create_tmpfs_resource ok block mode this in
      (
        elim r.0 [
          | none ↦ none
          | some k ↦ some (record {
            name = name;
            is_directory = s_isdir mode;
            resource = k;
            symlink_target = none;
          })
        ],
        r.1,
      )

  -- A new file system with its root; the outcome of the allocation of its structure is not checked.
  unfoldable pub tmpfs_mount : Bool → Option Bytes → List ℕ → ℕ → Option Node × Tmpfs
  tmpfs_mount ok block name directory_mode =
      tmpfs_create ok block name directory_mode tmpfs_instantiate

  unfoldable pub tmpfs_symlink : Bool → Option Bytes → List ℕ → List ℕ → Tmpfs → Option Node × Tmpfs
  tmpfs_symlink ok block name target this =
      let r = create_tmpfs_resource ok block symlink_mode this in
      (
        elim r.0 [
          | none ↦ none
          | some k ↦ some (record {
            name = name;
            is_directory = false;
            resource = k;
            symlink_target = some target;
          })
        ],
        r.1,
      )

  -- none stands for EISDIR.
  unfoldable pub tmpfs_link : List ℕ → Node → Tmpfs → Option Node
  tmpfs_link name node this =
      if s_isdir (this.resources node.resource).stat.st_mode
      then none
      else some (record {
        name = name;
        is_directory = false;
        resource = node.resource;
        symlink_target = none;
      })

  -- none where the loop of a write or of a truncation does not end
  unfoldable pub run_call : Call → Tmpfs → Option Tmpfs
  run_call (create ok block name mode) this = some (tmpfs_create ok block name mode this).1
  run_call (symlink ok block name target) this = some (tmpfs_symlink ok block name target this).1
  run_call (write block node buf offset count) this =
      elim (tmpfs_resource_write block (this.resources node.resource) buf offset count) [
        | none ↦ none
        | some r ↦ some (set_resource node.resource r.1 this)
      ]
  run_call (truncate block node length) this =
      elim (tmpfs_truncate block (this.resources node.resource) length) [
        | none ↦ none
        | some r ↦ some (set_resource node.resource r.1 this)
      ]

  unfoldable pub run_calls : List Call → Tmpfs → Option Tmpfs
  run_calls [] this = some this
  run_calls (c ∷ cs) this = elim (run_call c this) [ none ↦ none | some that ↦ run_calls cs that ]
