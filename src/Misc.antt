-- ===== src/Misc.antt =====
-- The macros of kernel/lib/misc.k.h, on 64-bit unsigned words.
pub mod Laws
use os_lyre.Base.{ℕ, ◌+◌, ◌-◌, ◌*◌, ◌/◌, ltb, if◌then◌else◌}
use os_lyre.Base.Words.{add64, sub64, mul64}

abbrev pub page_size : ℕ
page_size = 4096

unfoldable pub min_of : ℕ → ℕ → ℕ
min_of a b = if ltb a b then a else b

unfoldable pub max_of : ℕ → ℕ → ℕ
max_of a b = if ltb b a then a else b

-- (value + (div - 1)) / div
unfoldable pub div_roundup : ℕ → ℕ → ℕ
div_roundup value div = add64 value (sub64 div 1) / div

unfoldable pub align_up : ℕ → ℕ → ℕ
unfolding div_roundup
align_up value align = mul64 (div_roundup value align) align

unfoldable pub align_down : ℕ → ℕ → ℕ
align_down value align = mul64 (value / align) align
