-- ===== src/Random.antt =====
-- kernel/lib/random.c: the generator of random numbers. Words are natural numbers below 2^64. `lock` is held,
-- and what random_init seeds with comes from the processor.
pub mod Fill
pub mod Twist
mod Examples
use Prim.Native.Nat.{bit_and, bit_xor}
use os_lyre.Base.{
  ℕ, zero, suc, ◌+◌, ◌-◌, ◌*◌, ◌/◌, ◌%◌, ◌^◌, Bool, true, false, not, Option, none, some, List, [],
  ◌∷◌, ◌++◌, leb, ltb, ◌==◌, if◌then◌else◌,
}
use os_lyre.Base.Words.{add64, mul64}

abbrev pub mt_n : ℕ
mt_n = 312

abbrev pub mt_m : ℕ
mt_m = 156

abbrev pub mt_a : ℕ
mt_a = 0xB5026F5AA96619E9

abbrev pub mt_f : ℕ
mt_f = 0x5851F42D4C957F2D

-- `(uint64_t)(1 << 31) - 1`: the shift is of an int and gives its least number, which the cast extends.
abbrev pub mt_lower_mask : ℕ
mt_lower_mask = 0xFFFFFFFF80000000 - 1

-- The complement of the lower mask.
abbrev pub mt_upper_mask : ℕ
mt_upper_mask = 0xFFFFFFFFFFFFFFFF - mt_lower_mask

pub record Random : Type 0 where
  pub mt : ℕ → ℕ
  pub index : ℕ

abbrev pub set_word : ℕ → ℕ → (ℕ → ℕ) → ℕ → ℕ
set_word i v mt j = if j == i then v else mt j

-- The word that replaces `a`, from the next word and from the one at the distance MT_M.
unfoldable pub twist_word : ℕ → ℕ → ℕ → ℕ
twist_word a next far =
    let x = add64 (bit_and a mt_upper_mask) (bit_and next mt_lower_mask) in
    let x_a = if bit_and x 1 == 0 then x / 2 else bit_xor (x / 2) mt_a in bit_xor far x_a

-- The loop of `twist`, with `n` rounds to go.
unfoldable pub twist_from : ℕ → ℕ → (ℕ → ℕ) → ℕ → ℕ
twist_from zero i mt = mt
twist_from (suc n) i mt =
    twist_from n (suc i)
      (set_word i (twist_word (mt i) (mt ((i + 1) % mt_n)) (mt ((i + mt_m) % mt_n))) mt)

unfoldable pub twist : Random → Random
twist s = record { mt = twist_from (mt_n - 1) 0 s.mt; index = 0 }

unfoldable pub temper : ℕ → ℕ
temper y =
    let y1 = bit_xor y (bit_and (y / 2 ^ 29) 0x5555555555555555) in
    let y2 = bit_xor y1 (bit_and (y1 / 2 ^ 17) 0x71D67FFFEDA60000) in
    let y3 = bit_xor y2 (bit_and (y2 / 2 ^ 37) 0xFFF7EEE000000000) in bit_xor y3 (y3 / 2 ^ 43)

unfoldable pub generate : Random → ℕ × Random
generate s =
    let t = if leb mt_n s.index then twist s else s in
    (temper (t.mt t.index), record t { index = t.index + 1 })

-- The loop of `random_seed`, with `n` rounds to go.
unfoldable pub seed_from : ℕ → ℕ → (ℕ → ℕ) → ℕ → ℕ
seed_from zero i mt = mt
seed_from (suc n) i mt =
    seed_from n (suc i)
      (set_word i (add64 (mul64 mt_f (bit_xor (mt (i - 1)) (mt (i - 1) / 2 ^ 62))) i) mt)

unfoldable pub random_seed : ℕ → Random → Random
random_seed seed s = record { mt = seed_from (mt_n - 2) 1 (set_word 0 seed s.mt); index = mt_n }

-- The eight bytes that the first loop of `random_fill` stores.
unfoldable pub word_bytes : ℕ → List ℕ
word_bytes value =
    bit_and value 0xFF
    ∷ bit_and (value / 2 ^ 8) 0xFF
    ∷ bit_and (value / 2 ^ 16) 0xFF
    ∷ bit_and (value / 2 ^ 24) 0xFF
    ∷ bit_and (value / 2 ^ 32) 0xFF
    ∷ bit_and (value / 2 ^ 40) 0xFF
    ∷ bit_and (value / 2 ^ 48) 0xFF
    ∷ bit_and (value / 2 ^ 56) 0xFF
    ∷ []

-- Its second loop, with `n` bytes to go.
unfoldable pub tail_bytes : ℕ → ℕ → List ℕ
tail_bytes zero value = []
tail_bytes (suc n) value = bit_and value 0xFF ∷ tail_bytes n (value / 2 ^ 8)

-- The rest of the buffer, where `fuel` bounds the rounds of the first loop.
unfoldable pub fill_from : ℕ → ℕ → Random → Option (List ℕ × Random)
fill_from zero length s = none
fill_from (suc fuel) length s =
    let g = generate s in
    let rest = fill_from fuel (length - 8) g.1 in
    if leb 8 length
    then (elim rest [ none ↦ none | some (bytes, t) ↦ some (word_bytes g.0 ++ bytes, t) ])
    else (if length == 0 then some ([], s) else some (tail_bytes length g.0, g.1))

-- A loop of `length` bytes ends in fewer rounds.
unfoldable pub random_fill : ℕ → Random → Option (List ℕ × Random)
random_fill length s = fill_from (suc length) length s

unfoldable pub random_generate : Random → ℕ × Random
random_generate s = generate s
