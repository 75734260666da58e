-- ===== src/Base/Bits.antt =====
-- `&` and `|` of whole words: masks, shifts and disjoint parts, from the laws of the lowest bit.
use Prim.Native.Nat.{
  ℕ, zero, suc, ◌+◌, ◌-◌, ◌*◌, ◌/◌, ◌%◌, ◌^◌, ◌≤◌, ◌<◌, min, max, bit_and, bit_or, digits,
  bit_and-bitwise, bit_or-bitwise,
}
use mathlib.Core.Path.{◌≡◌, refl, ap, sym, ◌∙◌}
use native.Mathlib.Omega.{arith}
use native.Mathlib.Nat.{pow-suc, div-div-eq-div-mul, mod-eq-sub-div-mul, div-mul-le_self, mod-one}

-- The digits do not depend on how many steps are left, if there are enough.
module _ (z : ℕ → ℕ) (f : ℕ → ℕ → ℕ) where
  enough : (n m a b : ℕ) → a ≤ n → a ≤ m → digits z f n a b ≡ digits z f m a b
  enough zero zero a b p q = refl
  enough zero (suc m) zero b p q = refl
  enough zero (suc m) (suc a) b p q = absurd (omega arith)
  enough (suc n) zero zero b p q = refl
  enough (suc n) zero (suc a) b p q = absurd (omega arith)
  enough (suc n) (suc m) zero b p q = refl
  enough (suc n) (suc m) (suc a) b p q =
      ap (λ r. r * 2 + f (suc a % 2) (b % 2))
        (enough n m (suc a / 2) (b / 2) (omega arith) (omega arith))

and_nothing : (b : ℕ) → bit_and 0 b ≡ 0
and_nothing b = bit_and-bitwise 0 b

or_nothing : (b : ℕ) → bit_or 0 b ≡ b
or_nothing b = bit_or-bitwise 0 b

pub bit_and_low : (a b : ℕ) → bit_and a b ≡ bit_and (a / 2) (b / 2) * 2 + min (a % 2) (b % 2)
bit_and_low zero b = omega (arith, and_nothing b, and_nothing (b / 2))
bit_and_low (suc a) b = omega (
  arith,
  bit_and-bitwise (suc a) b,
  bit_and-bitwise (suc a / 2) (b / 2),
  enough (λ c. zero) min a (suc a / 2) (suc a / 2) (b / 2) (omega arith) (omega arith),
)

pub bit_or_low : (a b : ℕ) → bit_or a b ≡ bit_or (a / 2) (b / 2) * 2 + max (a % 2) (b % 2)
bit_or_low zero b = omega (arith, or_nothing b, or_nothing (b / 2))
bit_or_low (suc a) b = omega (
  arith,
  bit_or-bitwise (suc a) b,
  bit_or-bitwise (suc a / 2) (b / 2),
  enough (λ c. c) max a (suc a / 2) (suc a / 2) (b / 2) (omega arith) (omega arith),
)

div_twice : (v w : ℕ) → v / 2 / w ≡ v / (w * 2)
div_twice v w = div-div-eq-div-mul v 2 w ∙ ap (λ d. v / d) (omega arith)

mod_twice : (v w : ℕ) → v % (w * 2) ≡ (v / 2) % w * 2 + v % 2
mod_twice v w = omega (
  arith,
  mod-eq-sub-div-mul v (w * 2),
  mod-eq-sub-div-mul (v / 2) w,
  div_twice v w,
  div-mul-le_self (v / 2) w,
  div-mul-le_self v (w * 2),
  ap (λ q. q * w) (div_twice v w),
)

by_one : (a : ℕ) → a / 1 ≡ a
by_one a = omega arith

bit_and_even : (v k : ℕ) → bit_and v (k * 2) ≡ bit_and (v / 2) k * 2
bit_and_even v k =
    let half : k * 2 / 2 ≡ k = omega arith in
    omega (arith, bit_and_low v (k * 2), ap (bit_and (v / 2)) half)

bit_and_odd : (v k : ℕ) → bit_and v (k * 2 + 1) ≡ bit_and (v / 2) k * 2 + v % 2
bit_and_odd v k =
    let half : (k * 2 + 1) / 2 ≡ k = omega arith in
    omega (arith, bit_and_low v (k * 2 + 1), ap (bit_and (v / 2)) half)

and_zero_upto : (n a : ℕ) → a ≤ n → bit_and a 0 ≡ 0
and_zero_upto n zero h = and_nothing 0
and_zero_upto zero (suc a) h = absurd (omega arith)
and_zero_upto (suc n) (suc a) h =
    omega (arith, bit_and_low (suc a) 0, and_zero_upto n (suc a / 2) (omega arith))

-- A mask that starts at the bit `n`.
pub bit_and-shift : (n v m : ℕ) → bit_and v (m * 2 ^ n) ≡ bit_and (v / 2 ^ n) m * 2 ^ n
bit_and-shift zero v m =
    let once : m * 1 ≡ m = omega arith in
    omega (arith, ap (bit_and v) once, ap (λ x. bit_and x m) (by_one v))
bit_and-shift (suc n) v m =
    let twice : m * (2 ^ n * 2) ≡ m * 2 ^ n * 2 = omega arith in
    rw (pow-suc 2 n, sym (div_twice v (2 ^ n)))
      (ap (bit_and v) twice
        ∙ bit_and_even v (m * 2 ^ n)
        ∙ ap (λ x. x * 2) (bit_and-shift n (v / 2) m)
        ∙ omega arith)

one-le : (n : ℕ) → 1 ≤ 2 ^ n
one-le zero = omega arith
one-le (suc n) = rw (pow-suc 2 n) (omega (arith, one-le n))

pub bit_and-ones : (n v : ℕ) → bit_and v (2 ^ n - 1) ≡ v % 2 ^ n
bit_and-ones zero v = omega (arith, and_zero_upto v v (omega arith))
bit_and-ones (suc n) v =
    let odd : 2 ^ n * 2 - 1 ≡ (2 ^ n - 1) * 2 + 1 = omega (arith, one-le n) in
    rw (pow-suc 2 n) (
      ap (bit_and v) odd
      ∙ bit_and_odd v (2 ^ n - 1)
      ∙ ap (λ x. x * 2 + v % 2) (bit_and-ones n (v / 2))
      ∙ sym (mod_twice v (2 ^ n)))

or_zero_upto : (n a : ℕ) → a ≤ n → bit_or a 0 ≡ a
or_zero_upto n zero h = refl
or_zero_upto zero (suc a) h = absurd (omega arith)
or_zero_upto (suc n) (suc a) h =
    omega (arith, bit_or_low (suc a) 0, or_zero_upto n (suc a / 2) (omega arith))

pub bit_or-zero : (a : ℕ) → bit_or a 0 ≡ a
bit_or-zero a = or_zero_upto a a (omega arith)

pub bit_or-div : (n a b : ℕ) → bit_or a b / 2 ^ n ≡ bit_or (a / 2 ^ n) (b / 2 ^ n)
bit_or-div zero a b =
    by_one (bit_or a b)
    ∙ ap (bit_or a) (sym (by_one b))
    ∙ ap (λ x. bit_or x (b / 1)) (sym (by_one a))
bit_or-div (suc n) a b =
    rw
      (
        pow-suc 2 n,
        sym (div_twice (bit_or a b) (2 ^ n)),
        sym (div_twice a (2 ^ n)),
        sym (div_twice b (2 ^ n)),
      )
      (ap (λ x. x / 2 ^ n) (omega (arith, bit_or_low a b)) ∙ bit_or-div n (a / 2) (b / 2))

bit_or_join :
    (a b c d : ℕ) → c < 2 → d < 2 → bit_or (a * 2 + c) (b * 2 + d) ≡ bit_or a b * 2 + max c d
bit_or_join a b c d h k =
    let left : (a * 2 + c) / 2 ≡ a = omega arith in
    let right : (b * 2 + d) / 2 ≡ b = omega arith in
    omega (
      arith,
      bit_or_low (a * 2 + c) (b * 2 + d),
      ap (bit_or ((a * 2 + c) / 2)) right,
      ap (λ x. bit_or x b) left,
    )

bit_or-half : (a b : ℕ) → bit_or a b / 2 ≡ bit_or (a / 2) (b / 2)
bit_or-half a b = omega (arith, bit_or_low a b)

pub bit_or-mod : (n a b : ℕ) → bit_or a b % 2 ^ n ≡ bit_or (a % 2 ^ n) (b % 2 ^ n)
bit_or-mod zero a b =
    omega (
      arith,
      mod-one (bit_or a b),
      ap (bit_or (a % 1)) (mod-one b),
      ap (λ x. bit_or x 0) (mod-one a),
    )
bit_or-mod (suc n) a b = rw (pow-suc 2 n) (
    mod_twice (bit_or a b) (2 ^ n)
    ∙ omega
        (arith, ap (λ x. x % 2 ^ n) (bit_or-half a b), bit_or-mod n (a / 2) (b / 2), bit_or_low a b)
    ∙ sym (
        bit_or_join ((a / 2) % 2 ^ n) ((b / 2) % 2 ^ n) (a % 2) (b % 2) (omega arith) (omega arith))
    ∙ ap (bit_or ((a / 2) % 2 ^ n * 2 + a % 2)) (sym (mod_twice b (2 ^ n)))
    ∙ ap (λ x. bit_or x (b % (2 ^ n * 2))) (sym (mod_twice a (2 ^ n))))
