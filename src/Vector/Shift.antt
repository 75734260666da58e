-- ===== src/Vector/Shift.antt =====
-- The loops of kernel/lib/vector.k.h.
use os_lyre.Base.{
  ℕ, zero, suc, ◌+◌, ◌≤◌, ◌<◌, ◌≡◌, ◌≢◌, ◌⊎◌, inl, inr, refl, ap, ◌∙◌, sym, arith, false, none,
  some, ◌==◌, ==_iff, Bool-cases,
}
use os_lyre.Vector.{put, shift_up, shift_down, find_from}

pub put_ne : (i x j : ℕ) (f : ℕ → ℕ) → j ≢ i → put i x f j ≡ f j
put_ne i x j f h = ground (arith, h)

pub put_self : (i x : ℕ) (f : ℕ → ℕ) → put i x f i ≡ x
put_self i x f = ground arith

plus_suc : (a b : ℕ) → suc (a + b) ≡ a + suc b
plus_suc a b = omega arith

not_last : (k n : ℕ) → k < suc n → (k == n) ≡ false → k < n
not_last k n h e = ground arith

not_first : (k i : ℕ) → i ≤ k → (k == i) ≡ false → i < k
not_first k i h e = ground arith

differs : (a b : ℕ) → (a == b) ≡ false → a ≢ b
differs a b e p = ground arith

-- A place that does not have the value, before those that do not.
not_in :
    (i j : ℕ) (f : ℕ → ℕ) (x : ℕ)
    → (f i == x) ≡ false
    → ((k : ℕ) → suc i ≤ k → k < j → f k ≢ x)
    → (k : ℕ) → i ≤ k
    → k < j
    → f k ≢ x
not_in i j f x e a k h l = elim (Bool-cases (k == i)) [
  | inl p ↦ λ q. differs (f i) x e (ap f (sym ((==_iff k i).0 p)) ∙ q)
  | inr p ↦ a k (not_first k i h p) l
]

pub shift_up_out :
    (index n : ℕ) (f : ℕ → ℕ) (k : ℕ) → ((k ≤ index) ⊎ (index + n < k)) → shift_up index n f k ≡ f k
unfolding shift_up
shift_up_out index zero f k h = refl
shift_up_out index (suc n) f k h =
    shift_up_out index n (put (index + suc n) (f (index + n)) f) k (grind arith)
    ∙ put_ne (index + suc n) (f (index + n)) k f (grind arith)

pub shift_up_in :
    (index n : ℕ) (f : ℕ → ℕ) (k : ℕ) → index ≤ k → k < index + n → shift_up index n f (suc k) ≡ f k
unfolding shift_up
shift_up_in index zero f k h l = absurd (omega arith)
shift_up_in index (suc n) f k h l = elim (Bool-cases (k == index + n)) [
  | inl e ↦
      let here = (==_iff k (index + n)).0 e in
      ap (λ j. shift_up index n (put (index + suc n) (f (index + n)) f) (suc j)) here
      ∙ shift_up_out index n (put (index + suc n) (f (index + n)) f) (suc (index + n))
          (inr (omega arith))
      ∙ ap (put (index + suc n) (f (index + n)) f) (plus_suc index n)
      ∙ put_self (index + suc n) (f (index + n)) f
      ∙ ap f (sym here)
  | inr e ↦
      let before : k < index + n = not_last k (index + n) (omega arith) e in
      shift_up_in index n (put (index + suc n) (f (index + n)) f) k h before
      ∙ put_ne (index + suc n) (f (index + n)) k f (omega (arith, before))
]

pub shift_down_out : (i n : ℕ) (f : ℕ → ℕ) (k : ℕ) → k < i → shift_down i n f k ≡ f k
unfolding shift_down
shift_down_out i zero f k h = refl
shift_down_out i (suc n) f k h =
    shift_down_out (suc i) n (put i (f (suc i)) f) k (omega arith)
    ∙ put_ne i (f (suc i)) k f (omega arith)

pub shift_down_in :
    (i n : ℕ) (f : ℕ → ℕ) (k : ℕ) → i ≤ k → k < i + n → shift_down i n f k ≡ f (suc k)
unfolding shift_down
shift_down_in i zero f k h l = absurd (omega arith)
shift_down_in i (suc n) f k h l = elim (Bool-cases (k == i)) [
  | inl e ↦
      let here = (==_iff k i).0 e in
      ap (shift_down (suc i) n (put i (f (suc i)) f)) here
      ∙ shift_down_out (suc i) n (put i (f (suc i)) f) i (omega arith)
      ∙ put_self i (f (suc i)) f
      ∙ ap (λ j. f (suc j)) (sym here)
  | inr e ↦
      let later : i < k = not_first k i h e in
      shift_down_in (suc i) n (put i (f (suc i)) f) k later (omega arith)
      ∙ put_ne i (f (suc i)) (suc k) f (omega arith)
]

-- Either the value is found in its first place, or it is in none.
pub find_from_lem :
    (i n : ℕ) (f : ℕ → ℕ) (x : ℕ)
    → ((find_from i n f x ≡ none) × ((k : ℕ) → i ≤ k → k < i + n → f k ≢ x))
      ⊎ ((j : ℕ) × (find_from i n f x ≡ some j)
          × (i ≤ j)
          × (j < i + n)
          × (f j ≡ x)
          × ((k : ℕ) → i ≤ k → k < j → f k ≢ x))
unfolding find_from
find_from_lem i zero f x = inl (refl, λ k h l. absurd (omega arith))
find_from_lem i (suc n) f x = elim (Bool-cases (f i == x)) [
  | inl e ↦
      inr (
        i,
        rw e refl,
        omega arith,
        omega arith,
        (==_iff (f i) x).0 e,
        λ k h l. absurd (omega arith),
      )
  | inr e ↦ elim (find_from_lem (suc i) n f x) [
    | inl (p, a) ↦ inl (rw e p, λ k h l. not_in i (suc i + n) f x e a k h (omega arith))
    | inr (j, p, h, l, q, a) ↦ inr (j, rw e p, omega arith, omega arith, q, not_in i j f x e a)
  ]
]
