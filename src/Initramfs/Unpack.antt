-- ===== src/Initramfs/Unpack.antt =====
-- When the loop of kernel/fs/initramfs.c ends.
use os_lyre.Base.{
  ℕ, zero, suc, ◌+◌, ◌*◌, ◌/◌, ◌≤◌, ◌<◌, ◌≡◌, inl, inr, refl, ap, ◌∙◌, arith, true, false, none,
  some, List, [], ◌∷◌, ◌++◌, if◌then◌else◌, if_true, if_false, Bool-cases,
}
use os_lyre.Misc.{page_size}
use os_lyre.Base.{◌<◌, ◌^◌, ◌==◌, ◌≢◌}
use os_lyre.Base.Words.{add64}
use os_lyre.Initramfs.{
  next_memory, entry_size, Bytes, Action, TarType, tar_type, normal, symlink, directory,
  gnu_long_path, other, free_pages, is_ustar, is_dot_slash, entry_actions, next_override, data_size,
  unpack,
}

-- An entry with the name "./" is not left again: whatever the number of rounds, the loop does not end.
pub unpack-none :
    (m : Bytes) (p : ℕ)
    → is_ustar m p ≡ true
    → is_dot_slash m p ≡ true
    → (fuel : ℕ) → unpack fuel m p none ≡ none
unfolding unpack
unpack-none m p ustar dot zero = refl
unpack-none m p ustar dot (suc fuel) = rw (ustar, dot) (rw (unpack-none m p ustar dot fuel) refl)

-- A header is not named "./", has no long name behind it, and its entry ends in the address space.
pub record IsPlain (m : Bytes) (q : ℕ) : Type 0 where
  pub named : is_dot_slash m q ≡ false
  pub short : (m (q + 156) == 76) ≡ false
  pub ends : q + 512 + data_size m q < 2 ^ 64

not_long : (c : ℕ) → (c == 76) ≡ false → tar_type c ≢ gnu_long_path
unfolding tar_type
not_long c e = elim (Bool-cases (c == 48)) [
  | inl a ↦ rw a (λ q. cc)
  | inr a ↦ elim (Bool-cases (c == 50)) [
    | inl b ↦ rw (a, b) (λ q. cc)
    | inr b ↦ elim (Bool-cases (c == 53)) [
      | inl d ↦ rw (a, b, d) (λ q. cc)
      | inr d ↦ rw (a, b, d, e) (λ q. cc)
    ]
  ]
]

-- Such a header leaves no name for the next, and the memory as it is.
kept_lem :
    {A : Type 0} (t : TarType) (x y : A)
    → t ≢ gnu_long_path
    → elim t [ gnu_long_path ↦ x | _ ↦ y ] ≡ y
kept_lem normal x y n = refl
kept_lem symlink x y n = refl
kept_lem directory x y n = refl
kept_lem other x y n = refl
kept_lem gnu_long_path x y n = absurd (n refl)

next_lem :
    (m : Bytes) (p : ℕ)
    → IsPlain m p
    → (next_override m p ≡ none)
      × (next_memory m p ≡ m)
      × (add64 p (entry_size m p) ≡ p + 512 + data_size m p)
next_lem m p h =
    let n = not_long (m (p + 156)) h.short in
    (
      kept_lem (tar_type (m (p + 156))) _ _ n,
      kept_lem (tar_type (m (p + 156))) _ _ n,
      omega (arith, h.ends),
    )

unpack-step :
    (m : Bytes) (p fuel : ℕ) (actions : List Action)
    → IsPlain m p
    → unpack fuel m (p + 512 + data_size m p) none ≡ some actions
    → (all : List Action) × (unpack (suc fuel) m p none ≡ some all)
unfolding unpack
unpack-step m p fuel actions plain e = elim (Bool-cases (is_ustar m p)) [
  | inr u ↦ ([], if_false _ _ _ u)
  | inl u ↦
      let (name, memory, place) = next_lem m p plain in
      let there : unpack fuel (next_memory m p) (add64 p (entry_size m p)) (next_override m p)
          ≡ some actions =
        ap (λ x. unpack fuel x (add64 p (entry_size m p)) (next_override m p)) memory
        ∙ ap (λ x. unpack fuel m x (next_override m p)) place
        ∙ ap (unpack fuel m (p + 512 + data_size m p)) name
        ∙ e in
      let skipped = is_dot_slash m p in
      let after : unpack fuel (if skipped then m else next_memory m p)
            (if skipped then p else add64 p (entry_size m p))
            (if skipped then none else next_override m p)
          ≡ some actions =
        rw plain.named there in
      (
        (if skipped
              then []
              else entry_actions m p p ++ (free_pages p (entry_size m p / page_size) ∷ []))
            ++ actions,
        if_true (is_ustar m p) _ _ u ∙ rw after refl,
      )
]

unpack-ends :
    (m : Bytes) (limit fuel p : ℕ)
    → ((q : ℕ) → limit ≤ q → is_ustar m q ≡ false)
    → ((q : ℕ) → is_ustar m q ≡ true → IsPlain m q)
    → limit < p + 512 * fuel
    → (actions : List Action) × (unpack (suc fuel) m p none ≡ some actions)
unfolding unpack
unpack-ends m limit zero p past plain enough =
    ([], if_false (is_ustar m p) _ _ (past p (omega (arith, enough))))
unpack-ends m limit (suc fuel) p past plain enough = elim (Bool-cases (is_ustar m p)) [
  | inr u ↦ ([], if_false (is_ustar m p) _ _ u)
  | inl u ↦
      let (rest, e) =
        unpack-ends m limit fuel (p + 512 + data_size m p) past plain (omega (arith, enough)) in
      unpack-step m p (suc fuel) rest (plain p u) e
]

-- Where no header is named "./" or has a long name, each entry ends in the address space, and no header
-- stands at `limit` or later, the loop over the archive ends within one round for every 512 bytes and two
-- more.
pub unpack-total :
    (m : Bytes) (limit : ℕ)
    → ((q : ℕ) → limit ≤ q → is_ustar m q ≡ false)
    → ((q : ℕ) → is_ustar m q ≡ true → IsPlain m q)
    → (actions : List Action) × (unpack (suc (suc (limit / 512))) m 0 none ≡ some actions)
unpack-total m limit past plain = unpack-ends m limit (suc (limit / 512)) 0 past plain (omega arith)
