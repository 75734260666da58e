-- ===== src/Hashmap/Keys.antt =====
-- The comparison of keys in kernel/lib/hashmap.k.h.
use os_lyre.Base.{
  ℕ, suc, ◌<◌, ◌≡◌, ◌≢◌, ◌⊎◌, inl, inr, refl, ap, ◌∙◌, sym, arith, Bool, true, false, ◌&&◌, List,
  [], ◌∷◌, ◌==◌, ==_iff, Bool-cases, length, get_or,
}
use os_lyre.Base.Int.{ℤ, pos, minus_one}
use os_lyre.Libc.{memcmp}
use os_lyre.Libc.Compare.{memcmp_lem}
use os_lyre.Hashmap.{is_zero, same_key}

list_ext :
    (a b : List ℕ)
    → length a ≡ length b
    → ((i : ℕ) → i < length a → get_or a i 0 ≡ get_or b i 0)
    → a ≡ b
list_ext [] [] e h = refl
list_ext [] (y ∷ b) e h = absurd (omega (arith, e))
list_ext (x ∷ a) [] e h = absurd (omega (arith, e))
list_ext (x ∷ a) (y ∷ b) e h =
    rw (h 0 (omega arith), list_ext a b (omega (arith, e)) (λ i l. h (suc i) (omega arith))) refl

both : (a b : Bool) → (a && b) ≡ true → (a ≡ true) × (b ≡ true)
both a b h = ground arith

pub not_both : {b : Bool} → b ≡ true → b ≡ false → (A : Type 0) → A
not_both h k A = absurd (grind arith)

nonzero : (r : ℤ) → ((r ≡ minus_one) ⊎ (r ≡ pos 1)) → is_zero r ≡ false
nonzero r h = elim h [ inl e ↦ ap is_zero e | inr e ↦ ap is_zero e ]

zero-memcmp : (p q : ℕ → ℕ) (n : ℕ) → is_zero (memcmp p q n) ≡ true → (i : ℕ) → i < n → p i ≡ q i
zero-memcmp p q n z = elim (memcmp_lem p q n) [
  | inl w ↦ w.1
  | inr (k, (l, h, c)) ↦
      let sign : (memcmp p q n ≡ minus_one) ⊎ (memcmp p q n ≡ pos 1) = elim c [
        | inl w ↦ inl w.1
        | inr w ↦ inr w.1
      ] in
      not_both z (nonzero (memcmp p q n) sign) ((i : ℕ) → i < n → p i ≡ q i)
]

memcmp_self : (p : ℕ → ℕ) (n : ℕ) → memcmp p p n ≡ pos 0
memcmp_self p n = elim (memcmp_lem p p n) [
  | inl w ↦ w.0
  | inr (k, (l, h, c)) ↦ elim c [
    | inl w ↦ absurd (omega (arith, w.0))
    | inr w ↦ absurd (omega (arith, w.0))
  ]
]

pub same_key_self : (a : List ℕ) → same_key a a ≡ true
unfolding same_key
same_key_self a = rw (memcmp_self (λ i. get_or a i 0) (length a)) (ground arith)

pub same_key→eq : (a b : List ℕ) → same_key a b ≡ true → a ≡ b
unfolding same_key
same_key→eq a b h =
    let parts =
      both (length a == length b)
        (is_zero (memcmp (λ i. get_or a i 0) (λ i. get_or b i 0) (length a))) h in
    list_ext a b ((==_iff (length a) (length b)).0 parts.0)
      (zero-memcmp (λ i. get_or a i 0) (λ i. get_or b i 0) (length a) parts.1)

pub same_key-ne : (a b : List ℕ) → a ≢ b → same_key a b ≡ false
same_key-ne a b n = elim (Bool-cases (same_key a b)) [
  | inl e ↦ absurd (n (same_key→eq a b e))
  | inr e ↦ e
]

pub key_cases : (a b : List ℕ) → (a ≡ b) ⊎ (a ≢ b)
key_cases a b = elim (Bool-cases (same_key a b)) [
  | inl e ↦ inl (same_key→eq a b e)
  | inr e ↦ inr (λ p. not_both (ap (same_key a) (sym p) ∙ same_key_self a) e ⊥)
]
