-- ===== src/Initramfs.antt =====
-- kernel/fs/initramfs.c: the archive that the first file system is made from, as bytes by address. The calls
-- into the virtual file system, which panic where they fail, are listed in order, and names are the
-- addresses of their strings. The comparison of a name with "./" reads its three bytes.
pub mod Unpack
pub mod Octal
mod Examples
use os_lyre.Base.{
  ℕ, zero, suc, ◌+◌, ◌-◌, ◌*◌, ◌/◌, ◌%◌, ◌^◌, ltb, Bool, true, false, not, Option, none, some, List,
  [], ◌∷◌, ◌++◌, ◌==◌, ◌&&◌, if◌then◌else◌,
}
use os_lyre.Base.Words.{add64, sub64, mul64}
use os_lyre.Misc.{page_size, align_up}

abbrev pub Bytes : Type 0
Bytes = ℕ → ℕ

-- A character is signed, and is extended to a word.
abbrev pub char_word : ℕ → ℕ
char_word c = if ltb c 128 then c else c + 2 ^ 64 - 256

-- At most `len` digits, up to the zero, with the value of those before.
unfoldable pub octal_from : Bytes → ℕ → ℕ → ℕ → ℕ
octal_from m str zero value = value
octal_from m str (suc len) value =
    let rest = octal_from m (str + 1) len (add64 (mul64 value 8) (sub64 (char_word (m str)) 48)) in
    if m str == 0 then value else rest

unfoldable pub oct2int : Bytes → ℕ → ℕ → ℕ
oct2int m str len = octal_from m str len 0

pub data TarType : Type 0 where
  normal symlink directory gnu_long_path other : TarType

unfoldable pub tar_type : ℕ → TarType
tar_type c =
    if c == 48
    then normal
    else (if c == 50
        then symlink
        else (if c == 53 then directory else (if c == 76 then gnu_long_path else other)))

-- The calls that are made: a file has its mode, its data and their size, and all nodes the time of change.
pub data Action : Type 0 where
  make_file : ℕ → ℕ → ℕ → ℕ → ℕ → Action
  make_symlink : ℕ → ℕ → ℕ → Action
  make_directory : ℕ → ℕ → ℕ → Action
  end_name : ℕ → Action
  free_pages : ℕ → ℕ → Action

-- strncmp(magic, "ustar", 5) == 0
abbrev pub is_ustar : Bytes → ℕ → Bool
is_ustar m p =
    (m (p + 257) == 117)
    && (m (p + 258) == 115)
    && (m (p + 259) == 116)
    && (m (p + 260) == 97)
    && (m (p + 261) == 114)

abbrev pub is_dot_slash : Bytes → ℕ → Bool
is_dot_slash m name = (m name == 46) && (m (name + 1) == 47) && (m (name + 2) == 0)

abbrev pub name_at : ℕ → Option ℕ → ℕ
name_at p none = p
name_at p (some name) = name

unfoldable pub entry_actions : Bytes → ℕ → ℕ → List Action
entry_actions m p name =
    let mode = oct2int m (p + 100) 8 in
    let size = oct2int m (p + 124) 12 in
    let mtime = oct2int m (p + 136) 12 in
    elim (tar_type (m (p + 156))) [
      | normal ↦ make_file name mode (p + 512) size mtime ∷ []
      | symlink ↦ make_symlink (p + 157) name mtime ∷ []
      | directory ↦ make_directory name mode mtime ∷ []
      | gnu_long_path ↦ end_name (add64 (p + 512) size) ∷ []
      | other ↦ []
    ]

abbrev pub next_override : Bytes → ℕ → Option ℕ
next_override m p = elim (tar_type (m (p + 156))) [ gnu_long_path ↦ some (p + 512) | _ ↦ none ]

-- name_override[size] = 0 ends a long name, also where that is in the next header.
abbrev pub next_memory : Bytes → ℕ → Bytes
next_memory m p = elim (tar_type (m (p + 156))) [
  | gnu_long_path ↦ λ a. if a == add64 (p + 512) (oct2int m (p + 124) 12) then 0 else m a
  | _ ↦ m
]

-- The rounded size of the data of an entry.
abbrev pub data_size : Bytes → ℕ → ℕ
data_size m p = align_up (oct2int m (p + 124) 12) 512

-- The header of an entry and its data.
abbrev pub entry_size : Bytes → ℕ → ℕ
entry_size m p = add64 512 (data_size m p)

-- The loop over the entries, on fuel; none stands for a loop that the fuel does not end.
unfoldable pub unpack : ℕ → Bytes → ℕ → Option ℕ → Option (List Action)
unpack zero m p name_override = none
unpack (suc fuel) m p name_override =
    let name = name_at p name_override in
    let skipped = is_dot_slash m name in
    let rest =
      unpack fuel (if skipped then m else next_memory m p)
        (if skipped then p else add64 p (entry_size m p))
        (if skipped then none else next_override m p) in
    let here =
      if skipped
      then []
      else entry_actions m p name ++ (free_pages p (entry_size m p / page_size) ∷ []) in
    if is_ustar m p
    then (elim rest [ none ↦ none | some actions ↦ some (here ++ actions) ])
    else some []
