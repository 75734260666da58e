-- ===== src/Pmm/Examples.antt =====
-- Tests of the physical page allocator, and its theorems at a machine with twenty pages.
use os_lyre.Base.{
  ℕ, ◌*◌, ◌/◌, ◌%◌, ◌≤◌, ◌<◌, ◌≡◌, ◌↔◌, refl, true, arith, ◌⊎◌, inl, none, some, List, [], ◌∷◌,
  replicate,
}
use os_lyre.Base.Bytes.{bit_of, bit_on}
use os_lyre.Base.Words.{add64}
use os_lyre.Bitmap.{bitmap_test, bitmap_set}
use os_lyre.Pmm.{
  MemEntry, usable, reserved, Pmm, mark_pages, take_run, inner_loop, inner_alloc, pmm_alloc_nozero,
  pmm_free, bitmap_bytes,
}
use os_lyre.Pmm.Search.{FreeRun}
use os_lyre.Pmm.Alloc.{
  IsFull, IsNullRun, IsValid, IsAllocated, pmm_alloc_nozero-IsAllocated, pmm_alloc_nozero-none,
  pmm_alloc_nozero-total,
}
use os_lyre.Pmm.Free.{pmm_free-pmm_alloc_nozero}
use os_lyre.Pmm.Live.{Region, start, next, alloc, free, here, IsSafe, Run-IsSafe}
use os_lyre.Pmm.Size.{bitmap_bytes_short}

-- Pages 3 to 15 are free; the search goes on at page 3.
abbrev machine : Pmm
machine = record {
  bitmap = 7 ∷ 0 ∷ 255 ∷ [];
  highest_page_index = 20;
  last_used_index = 3;
  usable_pages = 13;
  used_pages = 0;
  reserved_pages = 7;
}

abbrev after_alloc : Pmm
after_alloc = record machine { bitmap = 31 ∷ 0 ∷ 255 ∷ []; last_used_index = 5; used_pages = 2 }

abbrev after_failure : Pmm
after_failure = record machine { used_pages = 14 }

machine-IsValid : IsValid machine
machine-IsValid = omega arith

alloc_two : pmm_alloc_nozero 2 machine ≡ (some 0x3000, after_alloc)
unfolding pmm_alloc_nozero inner_alloc inner_loop take_run mark_pages bitmap_test bitmap_set bit_of
    bit_on
alloc_two = refl

-- Fourteen pages do not fit, and are counted as used all the same.
alloc_fourteen : pmm_alloc_nozero 14 machine ≡ (none, after_failure)
unfolding alloc_two
alloc_fourteen = refl

pmm_alloc_nozero-IsAllocated_example : IsAllocated machine 2 0x3000 after_alloc
pmm_alloc_nozero-IsAllocated_example =
    pmm_alloc_nozero-IsAllocated 2 machine machine-IsValid alloc_two

pmm_alloc_nozero-none_example :
    (after_failure.used_pages ≡ add64 0 14)
    × (after_failure.highest_page_index ≡ machine.highest_page_index)
    × IsValid after_failure
    × (IsFull 14 machine after_failure ⊎ IsNullRun 14 machine after_failure)
pmm_alloc_nozero-none_example =
    pmm_alloc_nozero-none 14 machine machine-IsValid (omega arith) alloc_fourteen

-- Where page 0 is free, a search that begins there finds it, marks it and gives NULL.
abbrev from_zero : Pmm
from_zero = record machine { bitmap = 6 ∷ 0 ∷ 255 ∷ []; last_used_index = 0 }

null_at_zero :
    pmm_alloc_nozero 1 from_zero
    ≡ (none, record from_zero { bitmap = 7 ∷ 0 ∷ 255 ∷ []; used_pages = 1 })
unfolding alloc_two
null_at_zero = refl

first_used : bitmap_test machine.bitmap 0 ≡ true
unfolding bitmap_test bit_of
first_used = refl

pages_free : FreeRun machine.bitmap 4 2
unfolding bitmap_test bit_of
pages_free i lo hi = ground (arith, at i lo hi)
  where
    at : (i : ℕ) → 4 ≤ i → i < 6 → (i ≡ 4) ⊎ (i ≡ 5)
    at i lo hi = omega arith

pmm_alloc_nozero-total_example :
    (addr : ℕ) × (s' : Pmm) × (pmm_alloc_nozero 2 machine ≡ (some addr, s'))
pmm_alloc_nozero-total_example =
    pmm_alloc_nozero-total 2 machine 4 machine-IsValid (omega arith) first_used
      (inl (omega arith, omega arith)) pages_free

pmm_free-pmm_alloc_nozero_example :
    ((i : ℕ) → bitmap_test (pmm_free 0x3000 2 after_alloc).bitmap i ≡ bitmap_test machine.bitmap i)
    × ((pmm_free 0x3000 2 after_alloc).used_pages ≡ 0)
pmm_free-pmm_alloc_nozero_example =
    pmm_free-pmm_alloc_nozero 2 machine machine-IsValid (omega arith) (omega arith) alloc_two

abbrev region : Region
region = record { page = 3; pages = 2 }

Run-IsSafe_example : IsSafe (pmm_free (3 * 4096) 2 after_alloc) []
Run-IsSafe_example =
    Run-IsSafe (next (next start (alloc region alloc_two)) (free region here))
      (record { valid = machine-IsValid; held_used = tt; apart = tt })

bitmap_bytes_short_example :
    (8 * bitmap_bytes 32771 < 32771) ↔ ((32771 / 8 % 4096 ≡ 0) × (0 < 32771 % 8))
bitmap_bytes_short_example = bitmap_bytes_short 32771 (omega arith)

abbrev memory_map : List MemEntry
memory_map =
    record { base = 0; length = 0x2000; kind = reserved }
    ∷ record { base = 0x2000; length = 0x12000; kind = usable }
    ∷ []

abbrev booted : Pmm
booted = record {
  bitmap = 7 ∷ 0 ∷ 240 ∷ replicate 4093 255;
  highest_page_index = 20;
  last_used_index = 0;
  usable_pages = 18;
  used_pages = 0;
  reserved_pages = 2;
}
