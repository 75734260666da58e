-- ===== src/Base/Bytes.antt =====
-- Single bits of a byte: the laws of `|` and `&` with one bit, checked over all bytes.
use Prim.Native.Nat.{ℕ, zero, suc, ◌-◌, ◌<◌, ◌^◌, bit_and, bit_or}
use mathlib.Core.Path.{◌≡◌, refl}
use mathlib.Core.Bool.{Bool, true, false, not, ◌&&◌, ◌||◌}
use native.Mathlib.Omega.{arith}
use os_lyre.Base.Tests.{ltb, ◌==◌}

-- `byte & (1 << k)` as a truth value
unfoldable pub bit_of : ℕ → ℕ → Bool
bit_of x k = not (bit_and x (2 ^ k) == 0)

-- `byte | (1 << k)`
unfoldable pub bit_on : ℕ → ℕ → ℕ
bit_on x k = bit_or x (2 ^ k)

-- `byte & ~(1 << k)`, on eight bits
unfoldable pub bit_off : ℕ → ℕ → ℕ
bit_off x k = bit_and x (255 - 2 ^ k)

-- The test `p` on 0, …, k - 1.
unfoldable pub holds_up_to : (ℕ → Bool) → ℕ → Bool
holds_up_to p zero = true
holds_up_to p (suc k) = holds_up_to p k && p k

pub holds_up_to-at : (p : ℕ → Bool) (i k : ℕ) → i < k → holds_up_to p k ≡ true → p i ≡ true
unfolding holds_up_to
holds_up_to-at p i zero lt e = elim lt [ ]
holds_up_to-at p i (suc k) lt e = ground (arith, holds_up_to-at p i k)

abbrev same : Bool → Bool → Bool
same true b = b
same false b = not b

same→eq : (a b : Bool) → same a b ≡ true → a ≡ b
same→eq a b h = ground arith

abbrev on_law : ℕ → ℕ → ℕ → Bool
on_law x k l = same (bit_of (bit_on x k) l) (k == l || bit_of x l)

abbrev off_law : ℕ → ℕ → ℕ → Bool
off_law x k l = same (bit_of (bit_off x k) l) (not (k == l) && bit_of x l)

-- All bytes, and all pairs of bits.
table : (ℕ → ℕ → ℕ → Bool) → Bool
table p = holds_up_to (λ x. holds_up_to (λ k. holds_up_to (p x k) 8) 8) 256

table-at :
    (p : ℕ → ℕ → ℕ → Bool) (x k l : ℕ) → table p ≡ true → x < 256 → k < 8 → l < 8 → p x k l ≡ true
unfolding table
table-at p x k l h hx hk hl =
    let at_byte = holds_up_to-at (λ y. holds_up_to (λ j. holds_up_to (p y j) 8) 8) x 256 hx h in
    holds_up_to-at (p x k) l 8 hl (holds_up_to-at (λ j. holds_up_to (p x j) 8) k 8 hk at_byte)

on_table : table on_law ≡ true
unfolding table holds_up_to bit_of bit_on
on_table = refl

off_table : table off_law ≡ true
unfolding table holds_up_to bit_of bit_off
off_table = refl

byte_table : table (λ x k l. ltb (bit_on x k) 256 && ltb (bit_off x k) 256) ≡ true
unfolding table holds_up_to bit_on bit_off
byte_table = refl

module _ (x k : ℕ) (hx : x < 256) (hk : k < 8) where
  pub bit_of-bit_on : (l : ℕ) → l < 8 → bit_of (bit_on x k) l ≡ (k == l || bit_of x l)
  bit_of-bit_on l hl = same→eq _ _ (table-at on_law x k l on_table hx hk hl)

  pub bit_of-bit_off : (l : ℕ) → l < 8 → bit_of (bit_off x k) l ≡ (not (k == l) && bit_of x l)
  bit_of-bit_off l hl = same→eq _ _ (table-at off_law x k l off_table hx hk hl)

  both_lt : (ltb (bit_on x k) 256 && ltb (bit_off x k) 256) ≡ true
  both_lt =
      table-at (λ x k l. ltb (bit_on x k) 256 && ltb (bit_off x k) 256) x k 0 byte_table hx hk
        (omega arith)

  pub bit_on-lt : bit_on x k < 256
  bit_on-lt = ground (arith, both_lt)

  pub bit_off-lt : bit_off x k < 256
  bit_off-lt = ground (arith, both_lt)
