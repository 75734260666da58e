-- ===== src/Streams/Examples.antt =====
-- Tests of kernel/dev/char/streams.c.
use os_lyre.Base.{ℕ, ◌+◌, ◌*◌, ◌≤◌, ◌<◌, ◌≡◌, ◌⊎◌, refl, some, get_or}
use os_lyre.Libc.{Memory, memset}
use os_lyre.Random.{Random}
use os_lyre.Random.Fill.{filled}
use os_lyre.Streams.{urandom_read, zero_read}
use os_lyre.Streams.Laws.{urandom_read-IsRead}

-- Four bytes at the address 100 become zero.
zero_four : (zero_read 100 4 (λ a. a)).1 103 ≡ 0
unfolding zero_read memset
zero_four = refl

abbrev machine : Random
machine = record { mt = λ i. i * 0x123456789; index = 3 }

urandom_read-IsRead_example :
    (n : Memory) × (urandom_read 100 5 machine (λ a. a) ≡ some (5, n, (filled 5 machine).1))
    × ((i : ℕ) → i < 5 → (n (100 + i) ≡ get_or (filled 5 machine).0 i 0) × (n (100 + i) < 256))
    × ((a : ℕ) → ((a < 100) ⊎ (100 + 5 ≤ a)) → n a ≡ a)
urandom_read-IsRead_example = urandom_read-IsRead 100 5 machine (λ a. a)
