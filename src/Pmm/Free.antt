-- ===== src/Pmm/Free.antt =====
-- `pmm_free` of kernel/mm/pmm.c, alone and after an allocation.
use os_lyre.Base.{ℕ, ◌+◌, ◌*◌, ◌/◌, ◌^◌, ◌≤◌, ◌<◌, ◌≡◌, arith, not, ◌&&◌, some}
use os_lyre.Base.Words.{sub64}
use os_lyre.Bitmap.{bitmap_test}
use os_lyre.Pmm.{Pmm, pmm_alloc_nozero, pmm_free}
use os_lyre.Pmm.Search.{inside, clear_pages_lem, clear_pages-IsBytes, length-clear_pages}
use os_lyre.Pmm.Alloc.{IsValid, IsAllocated, pmm_alloc_nozero-IsAllocated}

div_page : (page : ℕ) → page * 4096 / 4096 ≡ page
div_page page = omega arith

-- Freeing `pages` pages from `page` on that lie below the highest page clears their bits and no
-- others, takes their number off `used_pages`, and keeps the state valid.
pub pmm_free-clears :
    (page pages : ℕ) (s : Pmm)
    → IsValid s
    → page + pages ≤ s.highest_page_index
    → IsValid (pmm_free (page * 4096) pages s)
      × ((pmm_free (page * 4096) pages s).used_pages ≡ sub64 s.used_pages pages)
      × ((i : ℕ)
          → bitmap_test (pmm_free (page * 4096) pages s).bitmap i
            ≡ (not (inside page pages i) && bitmap_test s.bitmap i))
unfolding pmm_free
pmm_free-clears page pages s v h = rw (div_page page) (
  record {
    bytes = clear_pages-IsBytes s.bitmap page pages v.bytes;
    covers = omega (arith, length-clear_pages s.bitmap page pages);
    index = v.index;
    small = v.small;
  },
  omega arith,
  clear_pages_lem s.bitmap page pages v.bytes (omega arith),
)

-- Giving back what an allocation returned restores the bit of every page and the count of used pages.
pub pmm_free-pmm_alloc_nozero :
    (pages : ℕ) (s : Pmm) {addr : ℕ} {s' : Pmm}
    → IsValid s
    → s.used_pages < 2 ^ 64
    → pages < 2 ^ 64
    → pmm_alloc_nozero pages s ≡ (some addr, s')
    → ((i : ℕ) → bitmap_test (pmm_free addr pages s').bitmap i ≡ bitmap_test s.bitmap i)
      × ((pmm_free addr pages s').used_pages ≡ s.used_pages)
pmm_free-pmm_alloc_nozero pages s {addr} {s'} v hu hp e = rw a.address (bits, count)
  where
    a : IsAllocated s pages addr s'
    a = pmm_alloc_nozero-IsAllocated pages s v e

    freed :
        IsValid (pmm_free (a.page * 4096) pages s')
        × ((pmm_free (a.page * 4096) pages s').used_pages ≡ sub64 s'.used_pages pages)
        × ((i : ℕ)
            → bitmap_test (pmm_free (a.page * 4096) pages s').bitmap i
              ≡ (not (inside a.page pages i) && bitmap_test s'.bitmap i))
    freed = pmm_free-clears a.page pages s' a.valid (omega (arith, a.in_range, a.limit))

    bits :
        (i : ℕ) → bitmap_test (pmm_free (a.page * 4096) pages s').bitmap i ≡ bitmap_test s.bitmap i
    bits i = ground (arith, freed.2 i, a.marked i, a.free i)

    count : (pmm_free (a.page * 4096) pages s').used_pages ≡ s.used_pages
    count = omega (arith, freed.1, a.counted)
