-- ===== src/Pmm.antt =====
-- kernel/mm/pmm.c: the physical page allocator. Its static variables are the fields of `Pmm`, each
-- function takes and returns them, and `lock` is not modelled: a call runs with it held. A page is
-- in use if its bit is set. A pointer is its address, and NULL is `none`.
pub mod Search
pub mod Alloc
pub mod Free
pub mod Live
pub mod Size
pub mod Init
pub mod Place
mod Examples
use mathlib.Core.Option
use os_lyre.Base.{
  ℕ, zero, suc, ◌+◌, ◌-◌, ◌*◌, ◌/◌, Bool, true, false, ◌&&◌, Option, none, some, List, [], ◌∷◌, ltb,
  leb, ◌==◌, if◌then◌else◌, replicate,
}
use os_lyre.Base.Words.{add64, sub64, mul64}
use os_lyre.Misc.{page_size, max_of, div_roundup, align_up}
use os_lyre.Bitmap.{Bitmap, bitmap_test, bitmap_set, bitmap_reset}

-- The types of a memory map entry that the switch of `pmm_init` tells apart.
pub data MemType : Type 0 where
  usable reserved acpi_reclaimable acpi_nvs bootloader_reclaimable kernel_and_modules other :
      MemType

-- `struct limine_memmap_entry`
pub record MemEntry : Type 0 where
  pub base : ℕ
  pub length : ℕ
  pub kind : MemType

pub record Pmm : Type 0 where
  pub bitmap : Bitmap
  pub highest_page_index : ℕ
  pub last_used_index : ℕ
  pub usable_pages : ℕ
  pub used_pages : ℕ
  pub reserved_pages : ℕ

-- `for (i = page; i < page + n; i++) bitmap_set(bitmap, i);`
unfoldable pub mark_pages : Bitmap → ℕ → ℕ → Bitmap
mark_pages b page zero = b
mark_pages b page (suc n) = mark_pages (bitmap_set b page) (page + 1) n

-- `for (i = page; i < page + n; i++) bitmap_reset(bitmap, i);`
pub clear_pages : Bitmap → ℕ → ℕ → Bitmap
clear_pages b page zero = b
clear_pages b page (suc n) = clear_pages (bitmap_reset b page) (page + 1) n

-- The address 0 is NULL.
abbrev pub pointer : ℕ → Option ℕ
pointer a = if a == 0 then none else some a

-- The branch of `inner_alloc` that has found `pages` free pages, the last one just passed.
unfoldable pub take_run : Pmm → ℕ → Option ℕ × Pmm
take_run s pages =
    let page = s.last_used_index - pages in
    (pointer (mul64 page page_size), record s { bitmap = mark_pages s.bitmap page pages })

-- The loop of `inner_alloc`, by the rounds left, `limit - last_used_index`; `p` is the length of the
-- run of free pages that ends at `last_used_index`. The index grows only below the limit.
unfoldable pub inner_loop : ℕ → ℕ → ℕ → Pmm → Option ℕ × Pmm
inner_loop zero pages p s = (none, s)
inner_loop (suc rounds) pages p s =
    let s' = record s { last_used_index = s.last_used_index + 1 } in
    elim (bitmap_test s.bitmap s.last_used_index) [
      | false ↦ elim (p + 1 == pages) [
        | true ↦ take_run s' pages
        | false ↦ inner_loop rounds pages (p + 1) s'
      ]
      | true ↦ inner_loop rounds pages 0 s'
    ]

unfoldable pub inner_alloc : ℕ → ℕ → Pmm → Option ℕ × Pmm
inner_alloc pages limit s = inner_loop (limit - s.last_used_index) pages 0 s

-- The second pass of `pmm_alloc_nozero`, from page 0 up to where the first began.
unfoldable pub second_pass : ℕ → ℕ → Option ℕ × Pmm → Option ℕ × Pmm
second_pass pages last (some addr, s) = (some addr, s)
second_pass pages last (none, s) = inner_alloc pages last (record s { last_used_index = 0 })

-- `used_pages += pages;`, which runs whatever the search returned.
unfoldable pub count_used : ℕ → Option ℕ × Pmm → Option ℕ × Pmm
count_used pages (ret, s) = (ret, record s { used_pages = add64 s.used_pages pages })

unfoldable pub pmm_alloc_nozero : ℕ → Pmm → Option ℕ × Pmm
unfolding count_used second_pass
pmm_alloc_nozero pages s =
    count_used pages
      (second_pass pages s.last_used_index (inner_alloc pages s.highest_page_index s))

-- Physical memory is a function from addresses to bytes; the higher half maps it one to one.
abbrev pub Memory : Type 0
Memory = ℕ → ℕ

unfoldable pub zero_memory : ℕ → ℕ → Memory → Memory
zero_memory addr n mem a = if leb addr a then (if ltb a (addr + n) then 0 else mem a) else mem a

unfoldable pub zero_result : ℕ → Option ℕ → Memory → Memory
zero_result pages none mem = mem
zero_result pages (some addr) mem = zero_memory addr (mul64 pages page_size) mem

unfoldable pub pmm_alloc : ℕ → Pmm → Memory → Option ℕ × Pmm × Memory
pmm_alloc pages s mem =
    let (ret, s') = pmm_alloc_nozero pages s in (ret, s', zero_result pages ret mem)

unfoldable pub pmm_free : ℕ → ℕ → Pmm → Pmm
pmm_free addr pages s = record s {
  bitmap = clear_pages s.bitmap (addr / page_size) pages;
  used_pages = sub64 s.used_pages pages;
}

-- The counters of `pmm_init`'s first loop.
pub record Totals : Type 0 where
  pub usable_pages : ℕ
  pub reserved_pages : ℕ
  pub highest_addr : ℕ

unfoldable pub count_entry : MemEntry → Totals → Totals
count_entry e t =
    let pages = div_roundup e.length page_size in
    let set_aside = record t { reserved_pages = add64 t.reserved_pages pages } in
    elim e.kind [
      | usable ↦ record t {
        usable_pages = add64 t.usable_pages pages;
        highest_addr = max_of t.highest_addr (add64 e.base e.length);
      }
      | reserved ↦ set_aside
      | acpi_reclaimable ↦ set_aside
      | acpi_nvs ↦ set_aside
      | bootloader_reclaimable ↦ set_aside
      | kernel_and_modules ↦ set_aside
      | other ↦ t
    ]

pub count_entries : List MemEntry → Totals → Totals
count_entries [] t = t
count_entries (e ∷ es) t = count_entries es (count_entry e t)

abbrev pub is_usable : MemEntry → Bool
is_usable e = elim e.kind [ usable ↦ true | _ ↦ false ]

-- Bytes of the bitmap for so many pages.
unfoldable pub bitmap_bytes : ℕ → ℕ
unfolding align_up
bitmap_bytes highest_page_index = align_up (highest_page_index / 8) page_size

-- The second loop: the first usable entry that is long enough gives its start to the bitmap. `none`
-- if there is none; the code then goes on with a NULL bitmap.
unfoldable pub cut_entry : ℕ → MemEntry → MemEntry
cut_entry size e = record e { base = add64 e.base size; length = e.length - size }

abbrev pub keep_entry : MemEntry → Option (List MemEntry) → Option (List MemEntry)
keep_entry e none = none
keep_entry e (some es) = some (e ∷ es)

unfoldable pub place_bitmap : ℕ → List MemEntry → Option (List MemEntry)
place_bitmap size [] = none
place_bitmap size (e ∷ es) =
    if is_usable e && leb size e.length
    then some (cut_entry size e ∷ es)
    else keep_entry e (place_bitmap size es)

-- The third loop, over the pages of one entry: `j` goes up by a page while it is below the length.
unfoldable pub free_entry : MemEntry → Bitmap → Bitmap
free_entry e b =
    if is_usable e then clear_pages b (e.base / page_size) ((e.length + 4095) / 4096) else b

pub free_entries : List MemEntry → Bitmap → Bitmap
free_entries [] b = b
free_entries (e ∷ es) b = free_entries es (free_entry e b)

-- The state that `pmm_init` leaves, once the bitmap of `size` bytes has its place.
unfoldable pub built : Totals → ℕ → List MemEntry → Pmm
built t size left = record {
  bitmap = free_entries left (replicate size 255);
  highest_page_index = t.highest_addr / page_size;
  last_used_index = 0;
  usable_pages = t.usable_pages;
  used_pages = 0;
  reserved_pages = t.reserved_pages;
}

unfoldable pub pmm_init : List MemEntry → Option Pmm
pmm_init entries =
    let t =
      count_entries entries (record { usable_pages = 0; reserved_pages = 0; highest_addr = 0 }) in
    let size = bitmap_bytes (t.highest_addr / page_size) in
    Option.map (built t size) (place_bitmap size entries)
