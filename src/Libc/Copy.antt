-- ===== src/Libc/Copy.antt =====
-- What memcpy, memmove and memset of kernel/lib/libc.c write.
use os_lyre.Base.{
  ℕ, zero, suc, ◌+◌, ◌%◌, ◌≤◌, ◌<◌, ◌≡◌, ◌≢◌, ◌⊎◌, inl, inr, refl, ap, ◌∙◌, sym, arith, false, ltb,
  ◌==◌, Bool-cases, ==_iff, ltb→lt,
}
use os_lyre.Libc.{Memory, store, copy_up, copy_down, memcpy, memmove, memset, strncpy}

-- `n` bytes at `dest` are those at `src` in the memory before, and the others are kept.
abbrev pub IsCopied : ℕ → ℕ → ℕ → Memory → Memory → Type 0
IsCopied dest src n before after =
    ((i : ℕ) → i < n → after (dest + i) ≡ before (src + i))
    × ((a : ℕ) → ((a < dest) ⊎ (dest + n ≤ a)) → after a ≡ before a)

pub store_ne : (a v j : ℕ) (m : Memory) → j ≢ a → store a v m j ≡ m j
store_ne a v j m h = ground (arith, h)

pub store_self : (a v : ℕ) (m : Memory) → store a v m a ≡ v
store_self a v m = ground arith

before_end : (i n : ℕ) → i < suc n → (i == n) ≡ false → i < n
before_end i n l e = ground arith

ltb_eq : (a b : ℕ) → ltb a b ≡ false → ltb b a ≡ false → a ≡ b
ltb_eq a b e f = ground arith

plus_zero : (a : ℕ) → a + zero ≡ a
plus_zero a = omega arith

plus_suc : (a i : ℕ) → a + suc i ≡ suc a + i
plus_suc a i = omega arith

copy_up_out :
    (n dest src a : ℕ) (m : Memory) → ((a < dest) ⊎ (dest + n ≤ a)) → copy_up dest src n m a ≡ m a
unfolding copy_up
copy_up_out zero dest src a m h = refl
copy_up_out (suc n) dest src a m h =
    copy_up_out n (suc dest) (suc src) a (store dest (m src) m) (grind arith)
    ∙ store_ne dest (m src) a m (grind arith)

copy_up_in :
    (n dest src i : ℕ) (m : Memory)
    → ((dest ≤ src) ⊎ (src + n ≤ dest))
    → i < n
    → copy_up dest src n m (dest + i) ≡ m (src + i)
unfolding copy_up
copy_up_in zero dest src i m h l = absurd (omega arith)
copy_up_in (suc n) dest src zero m h l =
    ap (copy_up (suc dest) (suc src) n (store dest (m src) m)) (plus_zero dest)
    ∙ copy_up_out n (suc dest) (suc src) dest (store dest (m src) m) (inl (omega arith))
    ∙ store_self dest (m src) m
    ∙ ap m (sym (plus_zero src))
copy_up_in (suc n) dest src (suc i) m h l =
    ap (copy_up (suc dest) (suc src) n (store dest (m src) m)) (plus_suc dest i)
    ∙ copy_up_in n (suc dest) (suc src) i (store dest (m src) m) (grind arith) (omega arith)
    ∙ store_ne dest (m src) (suc src + i) m (grind arith)
    ∙ ap m (sym (plus_suc src i))

copy_down_out :
    (n dest src a : ℕ) (m : Memory) → ((a < dest) ⊎ (dest + n ≤ a)) → copy_down dest src n m a ≡ m a
unfolding copy_down
copy_down_out zero dest src a m h = refl
copy_down_out (suc n) dest src a m h =
    copy_down_out n dest src a (store (dest + n) (m (src + n)) m) (grind arith)
    ∙ store_ne (dest + n) (m (src + n)) a m (grind arith)

copy_down_in :
    (n dest src i : ℕ) (m : Memory)
    → src ≤ dest
    → i < n
    → copy_down dest src n m (dest + i) ≡ m (src + i)
unfolding copy_down
copy_down_in zero dest src i m h l = absurd (omega arith)
copy_down_in (suc n) dest src i m h l = elim (Bool-cases (i == n)) [
  | inl e ↦ rw ((==_iff i n).0 e) (
      copy_down_out n dest src (dest + n) (store (dest + n) (m (src + n)) m) (inr (omega arith))
      ∙ store_self (dest + n) (m (src + n)) m)
  | inr e ↦
      let before : i < n = before_end i n l e in
      copy_down_in n dest src i (store (dest + n) (m (src + n)) m) h before
      ∙ store_ne (dest + n) (m (src + n)) (src + i) m (omega (arith, before))
]

-- memcpy copies the bytes and keeps the others, where the regions do not overlap or the destination
-- starts first.
pub memcpy-IsCopied :
    (dest src n : ℕ) (m : Memory)
    → ((dest ≤ src) ⊎ (src + n ≤ dest))
    → IsCopied dest src n m (memcpy dest src n m)
unfolding memcpy
memcpy-IsCopied dest src n m h =
    (λ i l. copy_up_in n dest src i m h l, λ a o. copy_up_out n dest src a m o)

-- memmove copies the bytes and keeps the others, however the regions overlap.
pub memmove-IsCopied : (dest src n : ℕ) (m : Memory) → IsCopied dest src n m (memmove dest src n m)
unfolding memmove
memmove-IsCopied dest src n m = elim (Bool-cases (ltb dest src)) [
  | inl e ↦ rw e (
    λ i l. copy_up_in n dest src i m (inl (ground (arith, ltb→lt dest src e))) l,
    λ a o. copy_up_out n dest src a m o,
  )
  | inr e ↦ elim (Bool-cases (ltb src dest)) [
    | inl f ↦
        rw (e, f)
          (
            λ i l. copy_down_in n dest src i m (ground (arith, ltb→lt src dest f)) l,
            λ a o. copy_down_out n dest src a m o,
          )
    | inr f ↦ rw (e, f) (λ i l. ap (λ b. m (b + i)) (ltb_eq dest src e f), λ a o. refl)
  ]
]

memset_out : (n s c a : ℕ) (m : Memory) → ((a < s) ⊎ (s + n ≤ a)) → memset s c n m a ≡ m a
unfolding memset
memset_out zero s c a m h = refl
memset_out (suc n) s c a m h =
    memset_out n (suc s) c a (store s (c % 256) m) (grind arith)
    ∙ store_ne s (c % 256) a m (grind arith)

memset_in : (n s c i : ℕ) (m : Memory) → i < n → memset s c n m (s + i) ≡ c % 256
unfolding memset
memset_in zero s c i m l = absurd (omega arith)
memset_in (suc n) s c zero m l =
    ap (memset (suc s) c n (store s (c % 256) m)) (plus_zero s)
    ∙ memset_out n (suc s) c s (store s (c % 256) m) (inl (omega arith))
    ∙ store_self s (c % 256) m
memset_in (suc n) s c (suc i) m l =
    ap (memset (suc s) c n (store s (c % 256) m)) (plus_suc s i)
    ∙ memset_in n (suc s) c i (store s (c % 256) m) (omega arith)

-- strncpy writes to no byte but its `n`.
pub strncpy_out :
    (n dest src a : ℕ) (m : Memory) → ((a < dest) ⊎ (dest + n ≤ a)) → strncpy dest src n m a ≡ m a
unfolding strncpy
strncpy_out zero dest src a m h = refl
strncpy_out (suc n) dest src a m h = elim (Bool-cases (m src == 0)) [
  | inl e ↦ rw e (memset_out (suc n) dest 0 a m h)
  | inr e ↦ rw e (
      strncpy_out n (suc dest) (suc src) a (store dest (m src) m) (grind arith)
      ∙ store_ne dest (m src) a m (grind arith))
]

-- memset writes the low byte of `c` to `n` bytes and keeps the others.
pub memset_lem :
    (s c n : ℕ) (m : Memory)
    → ((i : ℕ) → i < n → memset s c n m (s + i) ≡ c % 256)
      × ((a : ℕ) → ((a < s) ⊎ (s + n ≤ a)) → memset s c n m a ≡ m a)
memset_lem s c n m = ((λ i l. memset_in n s c i m l), λ a o. memset_out n s c a m o)
