-- ===== src/Vmm.antt =====
-- kernel/mm/vmm.c and kernel/mm/vmm.k.h: the page tables of an address space. A table is known by the
-- physical address of its page and is a function from the index to the entry; the offset of the higher half
-- is left out of the pointers. Where pages come from is the interface `PageSource`. `lock` is held, and
-- tlb_shootdown, which tells the other processors, is not modelled.
pub mod Pte
pub mod Tree
pub mod Alloc
pub mod Descend
pub mod Entries
pub mod Map
pub mod New
pub mod Source
mod Examples
use Prim.Native.Nat.{bit_and, bit_or}
use os_lyre.Base.{
  ℕ, zero, suc, ◌+◌, ◌*◌, ◌/◌, ◌%◌, ◌^◌, ◌<◌, ◌≡◌, Bool, true, false, not, Option, none, some, List,
  [], ◌∷◌, ltb, leb, ◌==◌, ◌&&◌, if◌then◌else◌,
}

-- `pmm_alloc(1)`, with what callers rely on: `IsOk` is an invariant of the allocator,
-- and `is_used` tells the pages, by address, that are not free.
pub record PageSource (S : Type 0) : Type 1 where
  pub alloc_page : S → Option ℕ × S
  pub is_used : S → ℕ → Bool
  pub IsOk : S → Type 0
  pub alloc-IsOk : (s : S) → IsOk s → IsOk (alloc_page s).1
  pub alloc-fresh : (s : S) (a : ℕ) → IsOk s → (alloc_page s).0 ≡ some a → is_used s a ≡ false
  pub alloc-used :
      (s : S) (a : ℕ) → IsOk s → (alloc_page s).0 ≡ some a → is_used (alloc_page s).1 a ≡ true
  pub alloc-keeps :
      (s : S) (b : ℕ) → IsOk s → is_used s b ≡ true → is_used (alloc_page s).1 b ≡ true
  pub alloc-aligned :
      (s : S) (a : ℕ) → IsOk s → (alloc_page s).0 ≡ some a → (a % 4096 ≡ 0) × (a < 2 ^ 52)

pub data Errno : Type 0 where
  enomem einval : Errno

-- Physical memory as far as it holds page tables, and where pages come from.
pub record Machine (S : Type 0) : Type 0 where
  pub source : S
  pub table : ℕ → ℕ → ℕ
  pub errno : Option Errno

-- PTE_PRESENT, PTE_WRITABLE, PTE_USER, PTE_NX
abbrev pub pte_present : ℕ
pte_present = 1

abbrev pub pte_writable : ℕ
pte_writable = 2

abbrev pub pte_user : ℕ
pte_user = 4

abbrev pub pte_nx : ℕ
pte_nx = 2 ^ 63

-- PTE_ADDR_MASK, the bits 12 to 51
abbrev pub pte_addr_mask : ℕ
pte_addr_mask = 0x000ffffffffff000

unfoldable pub pte_get_addr : ℕ → ℕ
pte_get_addr v = bit_and v pte_addr_mask

-- the complement of the mask, on 64 bits
unfoldable pub pte_get_flags : ℕ → ℕ
pte_get_flags v = bit_and v 0xfff0000000000fff

unfoldable pub is_present : ℕ → Bool
is_present v = not (bit_and v pte_present == 0)

-- `(virt & (0x1ffull << s)) >> s`
unfoldable pub table_index : ℕ → ℕ → ℕ
table_index s virt = bit_and virt (0x1ff * 2 ^ s) / 2 ^ s

abbrev pub set_entry : ℕ → ℕ → ℕ → (ℕ → ℕ → ℕ) → ℕ → ℕ → ℕ
set_entry t i e f u j = if u == t && j == i then e else f u j

-- pmm_alloc clears the page.
abbrev pub clear_table : ℕ → (ℕ → ℕ → ℕ) → ℕ → ℕ → ℕ
clear_table t f u j = if u == t then 0 else f u j

-- The indices of the three upper levels, pml4 first, and that of the lowest.
abbrev pub upper_indices : ℕ → List ℕ
upper_indices virt = table_index 39 virt ∷ table_index 30 virt ∷ table_index 21 virt ∷ []

abbrev pub pml1_index : ℕ → ℕ
pml1_index virt = table_index 12 virt

module _ {S : Type 0} where
  -- A new table for the entry `i` of the table `t`. As pmm_alloc does, the interface gives none for NULL.
  unfoldable pub attach_table : ℕ → ℕ → Option ℕ × S → Machine S → Option ℕ × Machine S
  attach_table t i (none, s) m = (none, record m { source = s; errno = some enomem })
  attach_table t i (some a, s) m = (
    some a,
    record m {
      source = s;
      table =
          set_entry t i (bit_or (bit_or (bit_or a pte_present) pte_writable) pte_user)
            (clear_table a m.table);
    },
  )

  -- What `vmm_map_page` does with the lowest table.
  unfoldable pub map_entry : ℕ → ℕ → Option ℕ × Machine S → Bool × Machine S
  map_entry i e (none, m) = (false, m)
  map_entry i e (some pml1, m) =
      if is_present (m.table pml1 i)
      then (false, record m { errno = some einval })
      else (true, record m { table = set_entry pml1 i e m.table })

  -- What `vmm_flag_page` and `vmm_unmap_page` do with it: the entry changes by `change`.
  unfoldable pub change_entry : ℕ → (ℕ → ℕ) → Option ℕ × Machine S → Bool × Machine S
  change_entry i change (none, m) = (false, m)
  change_entry i change (some pml1, m) =
      if is_present (m.table pml1 i)
      then (true, record m { table = set_entry pml1 i (change (m.table pml1 i)) m.table })
      else (false, record m { errno = some einval })

  -- none stands for INVALID_PHYS.
  unfoldable pub phys_of : Option (ℕ × ℕ) → Machine S → Option ℕ
  phys_of none m = none
  phys_of (some (t, i)) m =
      if bit_and (pte_get_flags (m.table t i)) pte_present == 0
      then none
      else some (pte_get_addr (m.table t i))

  -- The upper half of a new top level is that of the kernel's.
  unfoldable pub new_top : ℕ → Option ℕ × S → Machine S → Option ℕ × Machine S
  new_top kernel_top (none, s) m = (none, record m { source = s; errno = some enomem })
  new_top kernel_top (some a, s) m = (
    some a,
    record m {
      source = s;
      table = λ t i.
          if t == a
          then (if leb 256 i && ltb i 512 then m.table kernel_top i else 0)
          else m.table t i;
    },
  )

module _ {S : Type 0} (src : PageSource S) where
  unfoldable pub get_next_level : ℕ → ℕ → Bool → Machine S → Option ℕ × Machine S
  get_next_level t i allocate m =
      if is_present (m.table t i)
      then (some (pte_get_addr (m.table t i)), m)
      else (if allocate then attach_table t i (src.alloc_page m.source) m else (none, m))

  -- From a table down through the entries with the indices given.
  unfoldable pub descend : List ℕ → ℕ → Bool → Machine S → Option ℕ × Machine S
  descend [] t allocate m = (some t, m)
  descend (i ∷ is) t allocate m =
      let r = get_next_level t i allocate m in
      elim r.0 [ none ↦ (none, r.1) | some u ↦ descend is u allocate r.1 ]

  -- A pointer to an entry is its table and its index.
  unfoldable pub vmm_virt2pte : ℕ → ℕ → Bool → Machine S → Option (ℕ × ℕ) × Machine S
  vmm_virt2pte top virt allocate m =
      let r = descend (upper_indices virt) top allocate m in
      (elim r.0 [ none ↦ none | some pml1 ↦ some (pml1, pml1_index virt) ], r.1)

  unfoldable pub vmm_map_page : ℕ → ℕ → ℕ → ℕ → Machine S → Bool × Machine S
  vmm_map_page top virt phys flags m =
      map_entry (pml1_index virt) (bit_or phys flags) (descend (upper_indices virt) top true m)

  unfoldable pub vmm_flag_page : ℕ → ℕ → ℕ → Machine S → Bool × Machine S
  vmm_flag_page top virt flags m =
      change_entry (pml1_index virt) (λ e. bit_or (pte_get_addr e) flags)
        (descend (upper_indices virt) top false m)

  unfoldable pub vmm_unmap_page : ℕ → ℕ → Machine S → Bool × Machine S
  vmm_unmap_page top virt m =
      change_entry (pml1_index virt) (λ e. 0) (descend (upper_indices virt) top false m)

  unfoldable pub vmm_virt2phys : ℕ → ℕ → Machine S → Option ℕ
  vmm_virt2phys top virt m = let r = vmm_virt2pte top virt false m in phys_of r.0 r.1

  -- The top level of a new address space; `ok` is the outcome of the allocation of its structure.
  unfoldable pub vmm_new_pagemap : Bool → ℕ → Machine S → Option ℕ × Machine S
  vmm_new_pagemap ok kernel_top m =
      if ok
      then new_top kernel_top (src.alloc_page m.source) m
      else (none, record m { errno = some enomem })
