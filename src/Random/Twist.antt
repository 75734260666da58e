-- ===== src/Random/Twist.antt =====
-- What the loops of kernel/lib/random.c make of the words.
use mathlib.Core.Path.{subst}
use os_lyre.Base.{
  ℕ, zero, suc, ◌+◌, ◌-◌, ◌%◌, ◌≤◌, ◌<◌, ◌≡◌, ◌≢◌, ◌⊎◌, inl, inr, refl, ap, sym, ◌∙◌, arith, List,
  [], ◌∷◌, leb, ltb, ◌==◌, ==_iff, ltb→lt, Bool-cases, if◌then◌else◌, if_cases,
}
use os_lyre.Random.{
  Random, mt_n, mt_m, set_word, twist_word, twist_from, twist, generate, seed_from, random_seed,
}

set_word_ne : (i v j : ℕ) (m : ℕ → ℕ) → j ≢ i → set_word i v m j ≡ m j
set_word_ne i v j m h = ground (arith, h)

set_word_self : (i v : ℕ) (m : ℕ → ℕ) → set_word i v m i ≡ v
set_word_self i v m = ground arith

twist_from-out : (n i : ℕ) (m : ℕ → ℕ) (j : ℕ) → ((j < i) ⊎ (i + n ≤ j)) → twist_from n i m j ≡ m j
unfolding twist_from
twist_from-out zero i m j h = refl
twist_from-out (suc n) i m j h =
    twist_from-out n (suc i) _ j (grind arith) ∙ set_word_ne i _ j m (grind arith)

-- The word that is MT_M further on: an old one in the first half, a new one in the second.
abbrev pub far_word : (ℕ → ℕ) → (ℕ → ℕ) → ℕ → ℕ
far_word old new j = if ltb j mt_m then old (j + mt_m) else new (j - mt_m)

module _ (n i : ℕ) (m : ℕ → ℕ) (k : i + suc n ≤ 311) where
  abbrev stepped : ℕ → ℕ
  stepped = set_word i (twist_word (m i) (m ((i + 1) % mt_n)) (m ((i + mt_m) % mt_n))) m

  abbrev result : ℕ → ℕ
  result = twist_from n (suc i) stepped

  before : (j : ℕ) → j < i → result j ≡ m j
  before j l =
      twist_from-out n (suc i) stepped j (inl (omega arith)) ∙ set_word_ne i _ j m (omega arith)

  far-here : m ((i + mt_m) % mt_n) ≡ far_word m result i
  far-here =
      if_cases (λ x. m ((i + mt_m) % mt_n) ≡ x) (ltb i mt_m) (m (i + mt_m)) (result (i - mt_m))
        (λ e.
          let l : i < 156 = ltb→lt i 156 e in
          let same : (i + 156) % 312 ≡ i + 156 = omega arith in ap m same)
        (λ e.
          let l : 156 ≤ i = ground (arith, e) in
          let same : (i + 156) % 312 ≡ i - 156 = omega arith in
          ap m same ∙ sym (before (i - 156) (omega arith)))

  here : result i ≡ twist_word (m i) (m (i + 1)) (far_word m result i)
  here =
      let next : (i + 1) % 312 ≡ i + 1 = omega arith in
      twist_from-out n (suc i) stepped i (inl (omega arith))
      ∙ set_word_self i _ m
      ∙ ap (λ x. twist_word (m i) x (m ((i + mt_m) % mt_n))) (ap m next)
      ∙ ap (twist_word (m i) (m (i + 1))) far-here

  later :
      (j : ℕ)
      → i < j
      → result j ≡ twist_word (stepped j) (stepped (j + 1)) (far_word stepped result j)
      → result j ≡ twist_word (m j) (m (j + 1)) (far_word m result j)
  later j l e =
      e
      ∙ ap (λ x. twist_word x (stepped (j + 1)) (far_word stepped result j))
          (set_word_ne i _ j m (omega arith))
      ∙ ap (λ x. twist_word (m j) x (far_word stepped result j))
          (set_word_ne i _ (j + 1) m (omega arith))
      ∙ ap (λ x. twist_word (m j) (m (j + 1)) (if ltb j mt_m then x else result (j - mt_m)))
          (set_word_ne i _ (j + mt_m) m (omega arith))

twist_from-in :
    (n i : ℕ) (m : ℕ → ℕ) (j : ℕ)
    → i ≤ j
    → j < i + n
    → i + n ≤ 311
    → twist_from n i m j ≡ twist_word (m j) (m (j + 1)) (far_word m (twist_from n i m) j)
unfolding twist_from
twist_from-in zero i m j h l k = absurd (omega arith)
twist_from-in (suc n) i m j h l k = elim (Bool-cases (j == i)) [
  | inl e ↦
      subst (λ p. result n i m k p ≡ twist_word (m p) (m (p + 1)) (far_word m (result n i m k) p))
        (sym ((==_iff j i).0 e)) (here n i m k)
  | inr e ↦ later n i m k j (ground (arith, h, e)) (
      twist_from-in n (suc i) (stepped n i m k) j (ground (arith, h, e)) (omega arith)
        (omega arith))
]

-- Twisting replaces the words 0 to 310 by the recurrence of the generator and keeps the last one.
pub twist_lem :
    (s : Random)
    → ((j : ℕ)
        → j < 311
        → (twist s).mt j ≡ twist_word (s.mt j) (s.mt (j + 1)) (far_word s.mt (twist s).mt j))
      × ((j : ℕ) → 311 ≤ j → (twist s).mt j ≡ s.mt j)
unfolding twist
twist_lem s = (
  λ j l. twist_from-in 311 0 s.mt j (omega arith) (omega arith) (omega arith),
  λ j l. twist_from-out 311 0 s.mt j (inr (omega arith)),
)

seed_from-out : (n i : ℕ) (m : ℕ → ℕ) (j : ℕ) → ((j < i) ⊎ (i + n ≤ j)) → seed_from n i m j ≡ m j
unfolding seed_from
seed_from-out zero i m j h = refl
seed_from-out (suc n) i m j h =
    seed_from-out n (suc i) _ j (grind arith) ∙ set_word_ne i _ j m (grind arith)

-- What is done with the generator.
pub data Use : Type 0 where
  seeding : ℕ → Use
  generating : Use

unfoldable pub run_uses : List Use → Random → Random
run_uses [] s = s
run_uses (seeding seed ∷ us) s = run_uses us (random_seed seed s)
run_uses (generating ∷ us) s = run_uses us (generate s).1

seed-last : (seed : ℕ) (s : Random) → (random_seed seed s).mt 311 ≡ s.mt 311
unfolding random_seed
seed-last seed s =
    seed_from-out 310 1 _ 311 (inr (omega arith)) ∙ set_word_ne 0 seed 311 s.mt (omega arith)

generate-last : (s : Random) → (generate s).1.mt 311 ≡ s.mt 311
unfolding generate
generate-last s =
    if_cases (λ (t : Random). t.mt 311 ≡ s.mt 311) (leb mt_n s.index) (twist s) s
      (λ e. (twist_lem s).1 311 (omega arith)) (λ e. refl)

-- No seeding and no generation, in whatever order, changes the last word.
pub run_uses-last : (us : List Use) (s : Random) → (run_uses us s).mt 311 ≡ s.mt 311
unfolding run_uses
run_uses-last [] s = refl
run_uses-last (seeding seed ∷ us) s = run_uses-last us (random_seed seed s) ∙ seed-last seed s
run_uses-last (generating ∷ us) s = run_uses-last us (generate s).1 ∙ generate-last s
