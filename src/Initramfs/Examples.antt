-- ===== src/Initramfs/Examples.antt =====
-- Tests of kernel/fs/initramfs.c, and its theorems at small archives.
use mathlib.Core.Path.{subst}
use os_lyre.Base.{
  inl, inr, ◌≢◌, Bool-cases, ==_iff, sym, true, ℕ, ◌+◌, ◌≤◌, ◌≡◌, refl, arith, false, none, some,
  List, [], ◌∷◌, ◌==◌, ◌&&◌, leb, ltb, if◌then◌else◌,
}
use os_lyre.Misc.{align_up, div_roundup}
use os_lyre.Initramfs.{
  Bytes, Action, make_directory, free_pages, is_ustar, octal_from, oct2int, tar_type, entry_actions,
  unpack,
}
use os_lyre.Initramfs.Octal.{AreDigits, number_of, oct2int-number_of}
use os_lyre.Initramfs.Unpack.{IsPlain, unpack-none, unpack-total}

-- A header at 0 for a directory with the name "a" and the mode 0755.
abbrev one_entry : Bytes
one_entry i =
    if i == 0
    then 97
    else (if i == 100
        then 55
        else (if leb 101 i && ltb i 103
            then 53
            else (if i == 156
                then 53
                else (if i == 257
                    then 117
                    else (if i == 258
                        then 115
                        else (if i == 259
                            then 116
                            else (if i == 260 then 97 else (if i == 261 then 114 else 0))))))))

unpacked : unpack 3 one_entry 0 none ≡ some (make_directory 0 493 0 ∷ free_pages 0 0 ∷ [])
unfolding unpack entry_actions oct2int octal_from tar_type align_up div_roundup
unpacked = refl

oct2int-number_of_example : oct2int one_entry 100 8 ≡ number_of 0 (7 ∷ 5 ∷ 5 ∷ [])
unfolding AreDigits number_of
oct2int-number_of_example =
    oct2int-number_of one_entry 100 (7 ∷ 5 ∷ 5 ∷ []) 8
      (omega arith, refl, (omega arith, refl, (omega arith, refl, omega arith)))
      (inl (omega arith, refl)) (omega arith)

-- The same entry with the name "./".
abbrev dot_entry : Bytes
dot_entry i = if i == 0 then 46 else (if i == 1 then 47 else one_entry i)

unpack-none_example : unpack 1000 dot_entry 0 none ≡ none
unpack-none_example = unpack-none dot_entry 0 refl refl 1000

zero_after : (i : ℕ) → 262 ≤ i → one_entry i ≡ 0
zero_after i h = ground (arith, h)

no_dot : (i : ℕ) → (one_entry i == 46) ≡ false
no_dot i = ground arith

ends_there : (q : ℕ) → 512 ≤ q → is_ustar one_entry q ≡ false
ends_there q h = rw (zero_after (q + 257) (omega (arith, h))) refl

first-IsPlain : IsPlain one_entry 0
unfolding oct2int octal_from align_up div_roundup
first-IsPlain = record { named = refl; short = refl; ends = omega arith }

not_there : (q : ℕ) → q ≢ 0 → is_ustar one_entry q ≡ false
not_there q n = ground (arith, n)

entry-IsPlain : (q : ℕ) → is_ustar one_entry q ≡ true → IsPlain one_entry q
entry-IsPlain q u = elim (Bool-cases (q == 0)) [
  | inr e ↦ absurd (cc (not_there q (λ z. ground arith)))
  | inl e ↦ subst (IsPlain one_entry) (sym ((==_iff q 0).0 e)) first-IsPlain
]

unpack-total_example : (actions : List Action) × (unpack 3 one_entry 0 none ≡ some actions)
unpack-total_example = unpack-total one_entry 512 ends_there entry-IsPlain
