-- ===== src/Bitmap.antt =====
-- kernel/lib/bitmap.k.h: bits in an array of bytes. A read past the array gives 0 and a write there
-- changes nothing; the theorems ask that the bit lies inside.
pub mod Laws
use os_lyre.Base.{ℕ, ◌+◌, ◌-◌, ◌*◌, ◌/◌, ◌%◌, List, Bool, get_or, set}
use os_lyre.Base.Bytes.{bit_of, bit_on, bit_off}

abbrev pub Bitmap : Type 0
Bitmap = List ℕ

unfoldable pub bitmap_test : Bitmap → ℕ → Bool
bitmap_test b bit = bit_of (get_or b (bit / 8) 0) (bit % 8)

unfoldable pub bitmap_set : Bitmap → ℕ → Bitmap
bitmap_set b bit = set b (bit / 8) (bit_on (get_or b (bit / 8) 0) (bit % 8))

unfoldable pub bitmap_reset : Bitmap → ℕ → Bitmap
bitmap_reset b bit = set b (bit / 8) (bit_off (get_or b (bit / 8) 0) (bit % 8))
