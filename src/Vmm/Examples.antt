-- ===== src/Vmm/Examples.antt =====
-- Tests of the page tables of kernel/mm/vmm.c, and their theorems at an empty address space whose pages come
-- from the page allocator.
use os_lyre.Base.{
  some_ne_none, some_inj, ℕ, ◌/◌, ◌≡◌, refl, ap, sym, ◌∙◌, arith, true, none, some, List, [], ◌∷◌,
  ◌==◌, if◌then◌else◌,
}
use os_lyre.Base.Bytes.{bit_of, bit_on}
use os_lyre.Bitmap.{bitmap_test, bitmap_set}
use os_lyre.Pmm.{Pmm, pmm_alloc_nozero, inner_alloc, inner_loop, take_run, mark_pages}
use os_lyre.Vmm.{
  Machine, is_present, pte_get_addr, pte_get_flags, table_index, get_next_level, descend,
  attach_table, map_entry, phys_of, new_top, vmm_map_page, vmm_unmap_page, vmm_virt2pte,
  vmm_virt2phys, vmm_new_pagemap,
}
use os_lyre.Vmm.Tree.{table_at, IsMap, step-none}
use os_lyre.Vmm.Pte.{page_of}
use os_lyre.Vmm.Map.{vmm_virt2phys-vmm_map_page, vmm_unmap_page-vmm_map_page}
use os_lyre.Vmm.New.{IsNew, vmm_new_pagemap-IsNew}
use os_lyre.Vmm.Source.{pmm_source}

-- Twenty pages, of which 3 to 15 are free; the top level is page 1.
abbrev machine : Machine Pmm
machine = record {
  source = record {
    bitmap = 7 ∷ 0 ∷ 255 ∷ [];
    highest_page_index = 20;
    last_used_index = 3;
    usable_pages = 13;
    used_pages = 0;
    reserved_pages = 7;
  };
  table = λ t i. 0;
  errno = none;
}

no_table : (j : ℕ) (q : List ℕ) → table_at machine.table 0x1000 (j ∷ q) ≡ none
unfolding table_at is_present
no_table j [] = refl
no_table j (i ∷ q) = step-none machine.table 0x1000 j (i ∷ q) (no_table i q)

machine-IsTree :
    (p q : List ℕ) (a : ℕ)
    → table_at machine.table 0x1000 p ≡ some a
    → table_at machine.table 0x1000 q ≡ some a
    → p ≡ q
machine-IsTree [] [] a x y = refl
machine-IsTree [] (j ∷ q) a x y = absurd (some_ne_none (sym y ∙ no_table j q))
machine-IsTree (i ∷ p) q a x y = absurd (some_ne_none (sym x ∙ no_table i p))

in_use :
    (p : List ℕ) (a : ℕ)
    → table_at machine.table 0x1000 p ≡ some a
    → pmm_source.is_used machine.source a ≡ true
unfolding table_at bitmap_test bit_of
in_use [] a x = ap (λ b. bitmap_test machine.source.bitmap (b / 4096)) (sym (some_inj 0x1000 a x))
in_use (i ∷ p) a x = absurd (some_ne_none (sym x ∙ no_table i p))

machine-IsMap : IsMap pmm_source 0x1000 machine
machine-IsMap = record {
  ok = omega arith;
  tree = λ p q a h k. machine-IsTree p q a;
  used = λ p a h. in_use p a;
}

-- Mapping the page at 0x400000 to the one at 0x9000 takes three tables.
mapped : (vmm_map_page pmm_source 0x1000 0x400000 0x9000 7 machine).0 ≡ true
unfolding vmm_map_page descend get_next_level attach_table map_entry is_present table_index
    pte_get_addr pmm_alloc_nozero inner_alloc inner_loop take_run mark_pages bitmap_test bitmap_set
    bit_of bit_on
mapped = refl

translated :
    vmm_virt2phys pmm_source 0x1000 0x400123
      (vmm_map_page pmm_source 0x1000 0x400000 0x9000 7 machine).1
    ≡ some 0x9000
unfolding mapped vmm_virt2phys vmm_virt2pte phys_of pte_get_flags
translated = refl

new_space : (vmm_new_pagemap pmm_source true 0x1000 machine).0 ≡ some 0x3000
unfolding mapped vmm_new_pagemap new_top
new_space = refl

vmm_virt2phys-vmm_map_page_example :
    vmm_virt2phys pmm_source 0x1000 0x7000
      (vmm_map_page pmm_source 0x1000 0x400000 0x9000 7 machine).1
    ≡ (if page_of 0x7000 == page_of 0x400000
        then some 0x9000
        else vmm_virt2phys pmm_source 0x1000 0x7000 machine)
unfolding pte_get_addr
vmm_virt2phys-vmm_map_page_example =
    vmm_virt2phys-vmm_map_page pmm_source 0x1000 machine 0x400000 0x9000 7 machine-IsMap refl
      (omega arith) refl refl mapped 0x7000

vmm_unmap_page-vmm_map_page_example :
    vmm_virt2phys pmm_source 0x1000 0x400010
      (vmm_unmap_page pmm_source 0x1000 0x400000
        (vmm_map_page pmm_source 0x1000 0x400000 0x9000 7 machine).1).1
    ≡ vmm_virt2phys pmm_source 0x1000 0x400010 machine
vmm_unmap_page-vmm_map_page_example =
    vmm_unmap_page-vmm_map_page pmm_source 0x1000 machine 0x400000 0x9000 7 machine-IsMap mapped
      0x400010

vmm_new_pagemap-IsNew_example :
    IsNew pmm_source 0x1000 machine 0x3000 (vmm_new_pagemap pmm_source true 0x1000 machine).1
vmm_new_pagemap-IsNew_example =
    vmm_new_pagemap-IsNew pmm_source 0x1000 machine machine-IsMap true 0x3000 new_space
