-- ===== src/Streams.antt =====
-- kernel/dev/char/streams.c: the devices null, full, zero and urandom. A buffer is in the memory of Libc.
mod Laws
mod Examples
use os_lyre.Base.{ℕ, suc, Option, none, some, List, [], ◌∷◌}
use os_lyre.Libc.{Memory, store, memset}
use os_lyre.Random.{Random, random_fill}

pub data Errno : Type 0 where
  enospc : Errno

unfoldable pub null_read : ℕ → ℕ → Memory → ℕ × Memory
null_read buf count m = (0, m)

unfoldable pub null_write : ℕ → ℕ → Memory → ℕ × Memory
null_write buf count m = (count, m)

unfoldable pub full_read : ℕ → ℕ → Memory → ℕ × Memory
full_read buf count m = (count, memset buf 0 count m)

-- An error stands for -1.
unfoldable pub full_write : ℕ → ℕ → Memory → Errno × Memory
full_write buf count m = (enospc, m)

unfoldable pub zero_read : ℕ → ℕ → Memory → ℕ × Memory
zero_read buf count m = (count, memset buf 0 count m)

unfoldable pub zero_write : ℕ → ℕ → Memory → ℕ × Memory
zero_write buf count m = (count, m)

-- The stores that `random_fill` makes.
unfoldable pub put_bytes : ℕ → List ℕ → Memory → Memory
put_bytes buf [] m = m
put_bytes buf (b ∷ bs) m = put_bytes (suc buf) bs (store buf b m)

unfoldable pub urandom_read : ℕ → ℕ → Random → Memory → Option (ℕ × Memory × Random)
urandom_read buf count s m = elim (random_fill count s) [
  | none ↦ none
  | some (bytes, t) ↦ some (count, put_bytes buf bytes m, t)
]

unfoldable pub urandom_write : ℕ → ℕ → Memory → ℕ × Memory
urandom_write buf count m = (count, m)
