-- ===== src/Libc.antt =====
-- kernel/lib/libc.c: the functions on bytes. Memory is a function from addresses to bytes, and a pointer
-- that is only read is the function from the offset to the byte there. Of the functions on strings only
-- strncpy is modelled, which is bounded.
pub mod Copy
pub mod Compare
mod Examples
use os_lyre.Base.{
  ℕ, zero, suc, ◌+◌, ◌%◌, Bool, true, false, ◌&&◌, ltb, leb, ◌==◌, ◌-◌, if◌then◌else◌,
}
use os_lyre.Base.Int.{ℤ, pos, minus_one}

abbrev pub Memory : Type 0
Memory = ℕ → ℕ

abbrev pub store : ℕ → ℕ → Memory → Memory
store a v m j = if j == a then v else m j

unfoldable pub toupper : ℕ → ℕ
toupper c = if leb 97 c && leb c 122 then c - 32 else c

-- The loop of `memcpy`, with `n` bytes to go.
unfoldable pub copy_up : ℕ → ℕ → ℕ → Memory → Memory
copy_up dest src zero m = m
copy_up dest src (suc n) m = copy_up (suc dest) (suc src) n (store dest (m src) m)

unfoldable pub memcpy : ℕ → ℕ → ℕ → Memory → Memory
memcpy dest src n m = copy_up dest src n m

-- The loop of `memmove` that starts at the end.
unfoldable pub copy_down : ℕ → ℕ → ℕ → Memory → Memory
copy_down dest src zero m = m
copy_down dest src (suc n) m = copy_down dest src n (store (dest + n) (m (src + n)) m)

unfoldable pub memmove : ℕ → ℕ → ℕ → Memory → Memory
memmove dest src n m =
    if ltb dest src
    then copy_up dest src n m
    else (if ltb src dest then copy_down dest src n m else m)

-- `c` is a natural number, which the cast to a byte reduces.
unfoldable pub memset : ℕ → ℕ → ℕ → Memory → Memory
memset s c zero m = m
memset s c (suc n) m = memset (suc s) c n (store s (c % 256) m)

-- With the `n` bytes to go: up to the zero of the source they are copied, and from there on they are zero.
unfoldable pub strncpy : ℕ → ℕ → ℕ → Memory → Memory
strncpy dest src zero m = m
strncpy dest src (suc n) m =
    let rest = strncpy (suc dest) (suc src) n (store dest (m src) m) in
    if m src == 0 then memset dest 0 (suc n) m else rest

unfoldable pub memcmp : (ℕ → ℕ) → (ℕ → ℕ) → ℕ → ℤ
memcmp p q zero = pos 0
memcmp p q (suc n) =
    let rest = memcmp (λ i. p (suc i)) (λ i. q (suc i)) n in
    if p 0 == q 0 then rest else (if ltb (p 0) (q 0) then minus_one else pos 1)
