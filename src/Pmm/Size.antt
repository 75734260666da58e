-- ===== src/Pmm/Size.antt =====
-- The size that `pmm_init` of kernel/mm/pmm.c gives the bitmap.
use os_lyre.Base.{ℕ, ◌*◌, ◌/◌, ◌%◌, ◌^◌, ◌≤◌, ◌<◌, ◌≡◌, ◌↔◌, arith}
use os_lyre.Pmm.{bitmap_bytes}

-- The bitmap has fewer bits than there are pages exactly when the number of pages is not a multiple
-- of eight and its eighth, rounded down, is a multiple of 4096: the size rounds the bits down to bytes
-- before it rounds the bytes up to pages. (A 64-bit address has at most 2^52 pages.)
pub bitmap_bytes_short :
    (highest : ℕ)
    → highest ≤ 2 ^ 52
    → (8 * bitmap_bytes highest < highest) ↔ ((highest / 8 % 4096 ≡ 0) × (0 < highest % 8))
unfolding bitmap_bytes
bitmap_bytes_short highest h = (λ p. (omega arith, omega arith), λ p. omega (arith, p.0, p.1))
