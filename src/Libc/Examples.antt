-- ===== src/Libc/Examples.antt =====
-- kernel/lib/libc.c at concrete bytes.
use os_lyre.Base.{ℕ, [], ◌∷◌, get_or}
use os_lyre.Libc.{Memory}

abbrev memory : Memory
memory a = a

abbrev abc : ℕ → ℕ
abc i = get_or (97 ∷ 98 ∷ 99 ∷ []) i 0

abbrev abd : ℕ → ℕ
abd i = get_or (97 ∷ 98 ∷ 100 ∷ []) i 0
