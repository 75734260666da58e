-- ===== src/Initramfs/Octal.antt =====
-- oct2int of kernel/fs/initramfs.c reads back what is printed in octal.
use os_lyre.Base.{
  ℕ, suc, ◌+◌, ◌-◌, ◌*◌, ◌^◌, ◌≤◌, ◌<◌, ◌≡◌, refl, ap, ◌∙◌, sym, ◌⊎◌, inl, inr, arith, false, ltb,
  List, [], ◌∷◌, ◌==◌, if_true, if_false, length,
}
use os_lyre.Base.Words.{add64, sub64, mul64}
use os_lyre.Initramfs.{char_word, Bytes, octal_from, oct2int}

-- The digits at an address, as characters.
unfoldable pub AreDigits : Bytes → ℕ → List ℕ → Type 0
AreDigits m str [] = 0 ≤ 0
AreDigits m str (d ∷ ds) = (d < 8) × (m str ≡ d + 48) × AreDigits m (str + 1) ds

-- The number that digits make, after a number.
unfoldable pub number_of : ℕ → List ℕ → ℕ
number_of value [] = value
number_of value (d ∷ ds) = number_of (value * 8 + d) ds

number_of-ge : (value : ℕ) (ds : List ℕ) → value ≤ number_of value ds
unfolding number_of
number_of-ge value [] = omega arith
number_of-ge value (d ∷ ds) = omega (arith, number_of-ge (value * 8 + d) ds)

digit_step :
    (value d c : ℕ)
    → d < 8
    → c ≡ d + 48
    → value * 8 + d < 2 ^ 64
    → add64 (mul64 value 8) (sub64 (char_word c) 48) ≡ value * 8 + d
digit_step value d c h e l =
    let plain : char_word c ≡ c = if_true (ltb c 128) _ _ (ground (arith, h, e)) in
    rw plain (omega (arith, h, e, l))

digit_nonzero : (d c : ℕ) → c ≡ d + 48 → (c == 0) ≡ false
digit_nonzero d c e = ground (arith, e)

octal_from-number_of :
    (m : Bytes) (ds : List ℕ) (str extra value : ℕ)
    → AreDigits m str ds
    → m (str + length ds) ≡ 0
    → number_of value ds < 2 ^ 64
    → octal_from m str (length ds + suc extra) value ≡ number_of value ds
unfolding octal_from AreDigits number_of
octal_from-number_of m [] str extra value h e l =
    let room : 0 + suc extra ≡ suc extra = omega arith in
    let ended : m str ≡ 0 = ap m (omega arith) ∙ e in
    ap (λ n. octal_from m str n value) room ∙ if_true (m str == 0) _ _ (rw ended refl)
octal_from-number_of m (d ∷ ds) str extra value (small, char, others) e l =
    let room : suc (length ds) + suc extra ≡ suc (length ds + suc extra) = omega arith in
    let fits : value * 8 + d < 2 ^ 64 = omega (arith, l, number_of-ge (value * 8 + d) ds) in
    ap (λ n. octal_from m str n value) room
    ∙ if_false (m str == 0) _ _ (digit_nonzero d (m str) char)
    ∙ ap (octal_from m (str + 1) (length ds + suc extra))
        (digit_step value d (m str) small char fits)
    ∙ octal_from-number_of m ds (str + 1) extra (value * 8 + d) others (ap m (omega arith) ∙ e) l

octal_from-filled :
    (m : Bytes) (ds : List ℕ) (str value : ℕ)
    → AreDigits m str ds
    → number_of value ds < 2 ^ 64
    → octal_from m str (length ds) value ≡ number_of value ds
unfolding octal_from AreDigits number_of
octal_from-filled m [] str value h l = refl
octal_from-filled m (d ∷ ds) str value (small, char, others) l =
    let fits : value * 8 + d < 2 ^ 64 = omega (arith, l, number_of-ge (value * 8 + d) ds) in
    if_false (m str == 0) _ _ (digit_nonzero d (m str) char)
    ∙ ap (octal_from m (str + 1) (length ds)) (digit_step value d (m str) small char fits)
    ∙ octal_from-filled m ds (str + 1) (value * 8 + d) others l

-- oct2int reads the number that the digits at an address make, where they fit into a word and either fill
-- the field or end with a zero before its end.
pub oct2int-number_of :
    (m : Bytes) (str : ℕ) (ds : List ℕ) (len : ℕ)
    → AreDigits m str ds
    → ((length ds < len) × (m (str + length ds) ≡ 0)) ⊎ (length ds ≡ len)
    → number_of 0 ds < 2 ^ 64
    → oct2int m str len ≡ number_of 0 ds
unfolding oct2int
oct2int-number_of m str ds len h o l = elim o [
  | inr full ↦ ap (λ n. octal_from m str n 0) (sym full) ∙ octal_from-filled m ds str 0 h l
  | inl (short, e) ↦
      let room : len ≡ length ds + suc (len - length ds - 1) = omega (arith, short) in
      ap (λ n. octal_from m str n 0) room
      ∙ octal_from-number_of m ds str (len - length ds - 1) 0 h e l
]
