-- ===== src/Libc/Compare.antt =====
-- What memcmp of kernel/lib/libc.c compares.
use os_lyre.Base.{
  ℕ, zero, suc, ◌<◌, ◌≡◌, ◌⊎◌, refl, ◌∙◌, arith, true, false, ◌==◌, ==_iff, Bool-cases, inl, inr,
}
use os_lyre.Base.Int.{pos, minus_one}
use os_lyre.Libc.{memcmp}

-- The first bytes that differ are in place `k`, and memcmp has the sign of their comparison.
abbrev pub FirstDiffers : (ℕ → ℕ) → (ℕ → ℕ) → ℕ → ℕ → Type 0
FirstDiffers p q n k =
    (k < n)
    × ((i : ℕ) → i < k → p i ≡ q i)
    × (((p k < q k) × (memcmp p q n ≡ minus_one)) ⊎ ((q k < p k) × (memcmp p q n ≡ pos 1)))

here_differs : (n : ℕ) (p q : ℕ → ℕ) → (p 0 == q 0) ≡ false → FirstDiffers p q (suc n) 0
unfolding memcmp
here_differs n p q e = (omega arith, (λ i l. absurd (omega arith)), grind arith)

same_step :
    (n : ℕ) (p q : ℕ → ℕ)
    → (p 0 == q 0) ≡ true
    → memcmp p q (suc n) ≡ memcmp (λ i. p (suc i)) (λ i. q (suc i)) n
unfolding memcmp
same_step n p q e = rw e refl

extend :
    (p q : ℕ → ℕ) (k : ℕ)
    → p 0 ≡ q 0
    → ((i : ℕ) → i < k → p (suc i) ≡ q (suc i))
    → (i : ℕ) → i < suc k
    → p i ≡ q i
extend p q k e h zero l = e
extend p q k e h (suc i) l = h i (omega arith)

later_differs :
    (n k : ℕ) (p q : ℕ → ℕ)
    → (p 0 == q 0) ≡ true
    → FirstDiffers (λ i. p (suc i)) (λ i. q (suc i)) n k
    → FirstDiffers p q (suc n) (suc k)
later_differs n k p q e (l, h, c) = (
  omega arith,
  extend p q k ((==_iff (p 0) (q 0)).0 e) h,
  elim c [
    | inl w ↦ inl (w.0, same_step n p q e ∙ w.1)
    | inr w ↦ inr (w.0, same_step n p q e ∙ w.1)
  ],
)

-- Either memcmp is zero and all the bytes are the same, or its sign is that of the comparison of the first
-- bytes that differ.
pub memcmp_lem :
    (p q : ℕ → ℕ) (n : ℕ)
    → ((memcmp p q n ≡ pos 0) × ((i : ℕ) → i < n → p i ≡ q i)) ⊎ ((k : ℕ) × FirstDiffers p q n k)
unfolding memcmp
memcmp_lem p q zero = inl (refl, λ i l. absurd (omega arith))
memcmp_lem p q (suc n) = elim (Bool-cases (p 0 == q 0)) [
  | inl e ↦ elim (memcmp_lem (λ i. p (suc i)) (λ i. q (suc i)) n) [
    | inl w ↦ inl (rw e w.0, extend p q n ((==_iff (p 0) (q 0)).0 e) w.1)
    | inr w ↦ inr (suc w.0, later_differs n w.0 p q e w.1)
  ]
  | inr e ↦ inr (0, here_differs n p q e)
]
