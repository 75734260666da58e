-- ===== src/Hashmap/Drop.antt =====
-- The removal of an item from one bucket of kernel/lib/hashmap.k.h: the last item takes its place.
use os_lyre.Base.{
  ℕ, zero, suc, ◌+◌, ◌≡◌, ◌≢◌, ◌⊎◌, inl, inr, refl, ap, ◌∙◌, sym, arith, Bool, true, false, Option,
  none, some, List, [], ◌∷◌, ◌++◌, ◌==◌, if◌then◌else◌, length, set, take, length-take,
}
use os_lyre.Hashmap.{Item, find_item, find_index, last_item, drop_item}
use os_lyre.Hashmap.Keys.{same_key_self, same_key-ne, key_cases}
use os_lyre.Hashmap.Scan.{
  some_ne_none, AreDistinct, find-head, find-tail, find-nil, find-one, unsnoc-AreDistinct,
  find-rotate,
}

zero-suc : (n : ℕ) → (zero == suc n) ≡ false
zero-suc n = ground arith

suc-suc : (i n : ℕ) → (suc i == suc n) ≡ (i == n)
suc-suc i n = ground arith

some_inj : (i j : ℕ) → some i ≡ some j → i ≡ j
some_inj i j e = grind arith

abbrev next : Option ℕ → Option ℕ
next none = none
next (some i) = some (suc i)

next_eq : (o : Option ℕ) → elim o [ none ↦ none | some i ↦ some (suc i) ] ≡ next o
next_eq none = refl
next_eq (some i) = refl

index-nil : (A : Type 0) (key : List ℕ) → find_index {A = A} key [] ≡ none
unfolding find_index
index-nil A key = refl

-- The number before the place that a search in a tail gives.
prior : (o : Option ℕ) (i : ℕ) → next o ≡ some i → (j : ℕ) × (o ≡ some j) × (i ≡ suc j)
prior none i e = absurd (some_ne_none (sym e))
prior (some j) i e = (j, refl, sym (some_inj (suc j) i e))

module _ {A : Type 0} where
  -- The list as all its items but the last, and the last.
  split_last :
      (x : Item A) (xs : List (Item A))
      → take (length xs) (x ∷ xs) ++ (last_item x xs ∷ []) ≡ x ∷ xs
  unfolding last_item
  split_last x [] = refl
  split_last x (y ∷ ys) = ap (λ l. x ∷ l) (split_last y ys)

  drop-only : (x : Item A) → drop_item 0 (x ∷ []) ≡ []
  unfolding drop_item
  drop-only x = refl

  drop-first :
      (x y : Item A) (ys : List (Item A))
      → drop_item 0 (x ∷ y ∷ ys) ≡ last_item y ys ∷ take (length ys) (y ∷ ys)
  unfolding drop_item last_item
  drop-first x y ys = rw (zero-suc (length ys)) refl

  cons_if :
      (b : Bool) (x : Item A) (l r : List (Item A))
      → (if b then x ∷ l else x ∷ r) ≡ x ∷ (if b then l else r)
  cons_if true x l r = refl
  cons_if false x l r = refl

  drop-later :
      (i : ℕ) (x y : Item A) (ys : List (Item A))
      → drop_item (suc i) (x ∷ y ∷ ys) ≡ x ∷ drop_item i (y ∷ ys)
  unfolding drop_item last_item
  drop-later i x y ys = rw (suc-suc i (length ys)) (
      cons_if (i == length ys) x (take (length ys) (y ∷ ys))
        (take (length ys) (set (y ∷ ys) i (last_item y ys))))

  -- `ys` is `xs` without the item of `key`, in whatever order.
  abbrev pub IsWithout : List ℕ → List (Item A) → List (Item A) → Type 0
  IsWithout key xs ys =
      AreDistinct ys
      × ((k : List ℕ) → k ≢ key → find_item k ys ≡ find_item k xs)
      × (find_item key ys ≡ none)
      × (length ys + 1 ≡ length xs)

  index-head :
      (key : List ℕ) (x : Item A) (xs : List (Item A))
      → key ≡ x.key
      → find_index key (x ∷ xs) ≡ some 0
  unfolding find_index
  index-head key x xs e = rw (e, same_key_self x.key) refl

  index-tail :
      (key : List ℕ) (x : Item A) (xs : List (Item A))
      → key ≢ x.key
      → find_index key (x ∷ xs) ≡ next (find_index key xs)
  unfolding find_index
  index-tail key x xs n = rw (same_key-ne key x.key n) (next_eq (find_index key xs))

  IsWithout-first :
      (key : List ℕ) (x : Item A) (xs : List (Item A))
      → AreDistinct (x ∷ xs)
      → key ≡ x.key
      → IsWithout key (x ∷ xs) (drop_item 0 (x ∷ xs))
  IsWithout-first key x [] d p =
      rw (drop-only x)
        (tt, (λ k n. find-nil k ∙ sym (find-one k x (λ q. n (q ∙ sym p)))), find-nil key, refl)
  IsWithout-first key x (y ∷ ys) d p =
      let z = last_item y ys in
      let init = take (length ys) (y ∷ ys) in
      let parts : AreDistinct init × (find_item z.key init ≡ none) =
        unsnoc-AreDistinct init z (rw (split_last y ys) d.1) in
      let found : (k : List ℕ) → find_item k (z ∷ init) ≡ find_item k (y ∷ ys) =
        λ k. find-rotate k init z parts.1 ∙ ap (find_item k) (split_last y ys) in
      rw (drop-first x y ys) (
        (parts.1, parts.0),
        (λ k n. found k ∙ sym (find-tail k x (y ∷ ys) (λ q. n (q ∙ sym p)))),
        found key ∙ ap (λ k. find_item k (y ∷ ys)) p ∙ d.0,
        omega (arith, length-take (length ys) (y ∷ ys)),
      )

  IsWithout-later :
      (i : ℕ) (key : List ℕ) (x y : Item A) (ys : List (Item A))
      → AreDistinct (x ∷ y ∷ ys)
      → key ≢ x.key
      → IsWithout key (y ∷ ys) (drop_item i (y ∷ ys))
      → IsWithout key (x ∷ y ∷ ys) (drop_item (suc i) (x ∷ y ∷ ys))
  IsWithout-later i key x y ys d n (w, o, g, l) =
      let rest = drop_item i (y ∷ ys) in
      let apart : x.key ≢ key = λ p. n (sym p) in
      rw (drop-later i x y ys) (
        (o x.key apart ∙ d.0, w),
        (λ k m. elim (key_cases k x.key) [
          | inl p ↦ find-head k x rest p ∙ sym (find-head k x (y ∷ ys) p)
          | inr p ↦ find-tail k x rest p ∙ o k m ∙ sym (find-tail k x (y ∷ ys) p)
        ]),
        find-tail key x rest n ∙ g,
        omega (arith, l),
      )

  -- Dropping the item that a search gives leaves the others.
  pub drop-IsWithout :
      (key : List ℕ) (xs : List (Item A)) (i : ℕ)
      → AreDistinct xs
      → find_index key xs ≡ some i
      → IsWithout key xs (drop_item i xs)
  drop-IsWithout key [] i d e = absurd (some_ne_none (sym e ∙ index-nil A key))
  drop-IsWithout key (x ∷ []) i d e = elim (key_cases key x.key) [
    | inl p ↦
        rw (sym (some_inj 0 i (sym (index-head key x [] p) ∙ e))) (IsWithout-first key x [] d p)
    | inr n ↦ absurd (some_ne_none (sym e ∙ index-tail key x [] n ∙ ap next (index-nil A key)))
  ]
  drop-IsWithout key (x ∷ y ∷ ys) i d e = elim (key_cases key x.key) [
    | inl p ↦
        rw (sym (some_inj 0 i (sym (index-head key x (y ∷ ys) p) ∙ e)))
          (IsWithout-first key x (y ∷ ys) d p)
    | inr n ↦
        let (j, f, q) = prior (find_index key (y ∷ ys)) i (sym (index-tail key x (y ∷ ys) n) ∙ e) in
        rw q (IsWithout-later j key x y ys d n (drop-IsWithout key (y ∷ ys) j d.1 f))
  ]

  -- The search for the place and that for the item find the same.
  pub index-item :
      (key : List ℕ) (xs : List (Item A))
      → ((find_index key xs ≡ none) × (find_item key xs ≡ none))
        ⊎ ((i : ℕ) × (v : A) × (find_index key xs ≡ some i) × (find_item key xs ≡ some v))
  index-item key [] = inl (index-nil A key, find-nil key)
  index-item key (x ∷ xs) = elim (key_cases key x.key) [
    | inl p ↦ inr (0, x.item, index-head key x xs p, find-head key x xs p)
    | inr n ↦ elim (index-item key xs) [
      | inl w ↦ inl (index-tail key x xs n ∙ ap next w.0, find-tail key x xs n ∙ w.1)
      | inr (i, v, a, b) ↦
          inr (suc i, v, index-tail key x xs n ∙ ap next a, find-tail key x xs n ∙ b)
    ]
  ]
