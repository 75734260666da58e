-- ===== src/Bitmap/Laws.antt =====
-- Setting or clearing one bit of a bitmap changes that bit and no other.
use os_lyre.Base.{
  ℕ, ◌*◌, ◌/◌, ◌%◌, ◌<◌, ◌≡◌, ◌≢◌, arith, false, not, ◌&&◌, ◌||◌, ◌==◌, length, get_or, All,
  length-set, get_or-set_self, get_or-set_ne, get_or-All, set-All, inl, inr, Bool-cases, List,
  ==_iff,
}
use os_lyre.Base.Bytes.{bit_of-bit_on, bit_of-bit_off, bit_on-lt, bit_off-lt}
use os_lyre.Bitmap.{Bitmap, bitmap_test, bitmap_set, bitmap_reset}

-- every element is a byte
abbrev pub IsBytes : List ℕ → Type 0
IsBytes b = All (λ x. x < 256) b

byte_lt : (b : Bitmap) (i : ℕ) → IsBytes b → get_or b i 0 < 256
byte_lt b i h = get_or-All (λ x. x < 256) b i 0 h (omega arith)

-- Equal indices are equal bytes and equal places in the byte.
index_eq : (i j : ℕ) → i / 8 ≡ j / 8 → (i % 8 == j % 8) ≡ (i == j)
index_eq i j h = ground arith

index_ne : (i j : ℕ) → i / 8 ≢ j / 8 → (i == j) ≡ false
index_ne i j h = ground arith

module _ (b : Bitmap) (i : ℕ) (bytes : IsBytes b) (inside : i < 8 * length b) where
  pub bitmap_test-bitmap_set :
      (j : ℕ) → bitmap_test (bitmap_set b i) j ≡ (i == j || bitmap_test b j)
  unfolding bitmap_test bitmap_set
  bitmap_test-bitmap_set j = elim (Bool-cases (i / 8 == j / 8)) [
    | inl e ↦
        let e' : i / 8 ≡ j / 8 = (==_iff _ _).0 e in
        rw (← e', get_or-set_self b (i / 8) _ 0 (omega arith))
          (rw (
            bit_of-bit_on _ (i % 8) (byte_lt b (i / 8) bytes) (omega arith) (j % 8) (omega arith),
            index_eq i j e',
          ))
    | inr e ↦
        let n : i / 8 ≢ j / 8 = λ p. ground arith in
        rw (get_or-set_ne b (i / 8) (j / 8) _ 0 n, index_ne i j n)
  ]

  pub bitmap_test-bitmap_reset :
      (j : ℕ) → bitmap_test (bitmap_reset b i) j ≡ (not (i == j) && bitmap_test b j)
  unfolding bitmap_test bitmap_reset
  bitmap_test-bitmap_reset j = elim (Bool-cases (i / 8 == j / 8)) [
    | inl e ↦
        let e' : i / 8 ≡ j / 8 = (==_iff _ _).0 e in
        rw (← e', get_or-set_self b (i / 8) _ 0 (omega arith))
          (rw (
            bit_of-bit_off _ (i % 8) (byte_lt b (i / 8) bytes) (omega arith) (j % 8) (omega arith),
            index_eq i j e',
          ))
    | inr e ↦
        let n : i / 8 ≢ j / 8 = λ p. ground arith in
        rw (get_or-set_ne b (i / 8) (j / 8) _ 0 n, index_ne i j n)
  ]

pub bitmap_set-IsBytes : (b : Bitmap) (i : ℕ) → IsBytes b → IsBytes (bitmap_set b i)
unfolding bitmap_set
bitmap_set-IsBytes b i h =
    set-All (λ x. x < 256) b (i / 8) _ h (bit_on-lt _ (i % 8) (byte_lt b (i / 8) h) (omega arith))

pub bitmap_reset-IsBytes : (b : Bitmap) (i : ℕ) → IsBytes b → IsBytes (bitmap_reset b i)
unfolding bitmap_reset
bitmap_reset-IsBytes b i h =
    set-All (λ x. x < 256) b (i / 8) _ h (bit_off-lt _ (i % 8) (byte_lt b (i / 8) h) (omega arith))

pub length-bitmap_set : (b : Bitmap) (i : ℕ) → length (bitmap_set b i) ≡ length b
unfolding bitmap_set
length-bitmap_set b i = length-set b (i / 8) _

pub length-bitmap_reset : (b : Bitmap) (i : ℕ) → length (bitmap_reset b i) ≡ length b
unfolding bitmap_reset
length-bitmap_reset b i = length-set b (i / 8) _
