-- ===== src/Tmpfs/Grow.antt =====
-- The loops of kernel/fs/tmpfs.c that double the capacity.
use os_lyre.Base.{
  ℕ, zero, suc, ◌*◌, ◌^◌, ◌≤◌, ◌<◌, ◌≡◌, ◌⊎◌, inl, inr, refl, ap, sym, ◌∙◌, arith, Bool, true,
  false, Option, none, some, Bool-cases, if◌then◌else◌, if_true, if_false,
}
use mathlib.Core.Path.{subst}
use os_lyre.Base.Words.{mul64}
use os_lyre.Tmpfs.{double_while, grow_data, TmpfsResource, copy_bytes, Bytes}

double_word : (c b : ℕ) → c ≤ b → b < 2 ^ 63 → mul64 c 2 ≡ c * 2
double_word c b h k = omega arith

twice_more : (c b n : ℕ) → b < c * 2 ^ suc n → b < c * 2 * 2 ^ n
twice_more c b n h = grind arith

double_more :
    (n : ℕ) (more : ℕ → Bool) (c : ℕ)
    → more c ≡ true
    → double_while (suc n) more c ≡ double_while n more (mul64 c 2)
unfolding double_while
double_more n more c e = rw e refl

-- The loop ends at the first of the doubled capacities for which the test fails.
pub double_while-ends :
    (n : ℕ) (more : ℕ → Bool) (b c : ℕ)
    → ((d : ℕ) → more d ≡ true → d ≤ b)
    → b < 2 ^ 63
    → 0 < c
    → b < c * 2 ^ n
    → (d : ℕ) × (double_while (suc n) more c ≡ some d)
      × (more d ≡ false)
      × (c ≤ d)
      × ((d ≡ c) ⊎ (d ≤ b * 2))
unfolding double_while
double_while-ends zero more b c small h pos enough = elim (Bool-cases (more c)) [
  | inl e ↦ absurd (omega (arith, small c e))
  | inr e ↦ (c, rw e refl, e, omega arith, inl refl)
]
double_while-ends (suc n) more b c small h pos enough = elim (Bool-cases (more c)) [
  | inr e ↦ (c, rw e refl, e, omega arith, inl refl)
  | inl e ↦
      let twice : mul64 c 2 ≡ c * 2 = double_word c b (small c e) h in
      let (d, found, stop, more_than, less_than) =
        double_while-ends n more b (c * 2) small h (omega arith) (twice_more c b n enough) in
      (
        d,
        double_more (suc n) more c e ∙ ap (double_while (suc n) more) twice ∙ found,
        stop,
        omega (arith, more_than),
        inr (elim less_than [ inl same ↦ omega (arith, same, small c e) | inr k ↦ k ]),
      )
]

-- Without a block there is nothing to double: the loop never ends.
pub double_while-zero : (n : ℕ) (more : ℕ → Bool) → more 0 ≡ true → double_while n more 0 ≡ none
unfolding double_while
double_while-zero zero more h = refl
double_while-zero (suc n) more h = rw h (double_while-zero n more h)

-- The block `g` has is larger, and holds what that of `f` holds.
pub record IsGrown (more : ℕ → Bool) (f g : TmpfsResource) : Type 0 where
  pub stat : g.stat ≡ f.stat
  pub flags : g.can_mmap ≡ f.can_mmap
  pub has_data : f.has_data ≡ true → g.has_data ≡ true
  pub enough : more g.capacity ≡ false
  pub larger : f.capacity ≤ g.capacity
  pub kept : (j : ℕ) → j < f.capacity → g.bytes j ≡ f.bytes j

-- What the data is given room by, in `tmpfs_resource_write` and in `tmpfs_truncate`.
abbrev pub make_room : (ℕ → Bool) → Option Bytes → TmpfsResource → Option (Bool × TmpfsResource)
make_room more block f = if more f.capacity then grow_data more block f else some (true, f)

abbrev pub HasRoom :
    (ℕ → Bool) → Option Bytes → TmpfsResource → Option (Bool × TmpfsResource) → Type 0
HasRoom more block f r =
    ((r ≡ some (false, f)) × (block ≡ none) × (more f.capacity ≡ true))
    ⊎ ((g : TmpfsResource) × (r ≡ some (true, g)) × IsGrown more f g)

copied_low : (m p : Bytes) (n j : ℕ) → j < n → copy_bytes m 0 p 0 n j ≡ p j
copied_low m p n j h = ground (arith, h)

module _ (more : ℕ → Bool) (b : ℕ) (f : TmpfsResource) (small : (d : ℕ) → more d ≡ true → d ≤ b)
    (limit : b < 2 ^ 63) (pos : 0 < f.capacity) (there : f.has_data ≡ true) where
  grow_data-HasRoom :
      (block : Option Bytes)
      → more f.capacity ≡ true
      → HasRoom more block f (grow_data more block f)
  unfolding grow_data
  grow_data-HasRoom none e =
      let (d, found, stop, larger, least) =
        double_while-ends 63 more b f.capacity small limit pos (omega (arith, pos)) in
      inl (rw (found, grow_data) refl, refl, e)
  grow_data-HasRoom (some fresh) e =
      let (d, found, stop, larger, least) =
        double_while-ends 63 more b f.capacity small limit pos (omega (arith, pos)) in
      inr (
        record f {
          has_data = true;
          bytes = copy_bytes fresh 0 f.bytes 0 (if f.has_data then f.capacity else 0);
          capacity = d;
        },
        rw (found, grow_data) refl,
        record {
          stat = refl;
          flags = refl;
          has_data = λ h. refl;
          enough = stop;
          larger = larger;
          kept =
              λ j h. copied_low fresh f.bytes (if f.has_data then f.capacity else 0) j (rw there h);
        },
      )

  -- With a positive capacity the loop ends, and either there is room or memory is out and nothing changed.
  pub make_room-HasRoom : (block : Option Bytes) → HasRoom more block f (make_room more block f)
  make_room-HasRoom block = elim (Bool-cases (more f.capacity)) [
    | inl e ↦
        subst (HasRoom more block f) (sym (if_true (more f.capacity) _ _ e))
          (grow_data-HasRoom block e)
    | inr e ↦ inr (
      f,
      if_false (more f.capacity) _ _ e,
      record {
        stat = refl;
        flags = refl;
        has_data = λ h. h;
        enough = e;
        larger = omega arith;
        kept = λ j h. refl;
      },
    )
  ]
