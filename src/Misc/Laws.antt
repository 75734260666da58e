-- ===== src/Misc/Laws.antt =====
-- Rounding to pages: where it does not wrap, and what it gives.
use os_lyre.Base.{ℕ, ◌+◌, ◌-◌, ◌*◌, ◌%◌, ◌^◌, ◌≤◌, ◌<◌, ◌≡◌, arith}
use os_lyre.Misc.{page_size, div_roundup, align_up, align_down}

-- Below 2^64 - 4096 the page count of a size is the least that covers it.
pub div_roundup_page :
    (v : ℕ)
    → v ≤ 2 ^ 64 - 4096
    → (v ≤ div_roundup v page_size * 4096) × (div_roundup v page_size * 4096 < v + 4096)
unfolding div_roundup
div_roundup_page v h = omega arith

-- Rounding up gives the least multiple of the page size that is not below the value, and rounding
-- down the greatest that is not above it, where the sum does not wrap.
pub align_bounds :
    (v : ℕ)
    → v ≤ 2 ^ 64 - 4096
    → (align_up v page_size % 4096 ≡ 0)
      × (v ≤ align_up v page_size)
      × (align_up v page_size < v + 4096)
      × (align_down v page_size % 4096 ≡ 0)
      × (align_down v page_size ≤ v)
      × (v < align_down v page_size + 4096)
unfolding align_up align_down
align_bounds v h = omega arith
