-- ===== src/Hashmap/Scan.antt =====
-- The search for a key in one bucket of kernel/lib/hashmap.k.h, and the item that takes a removed one's
-- place.
use os_lyre.Base.{
  ℕ, ◌≡◌, ◌≢◌, inl, inr, refl, ap, ◌∙◌, sym, arith, Option, none, some, List, [], ◌∷◌, ◌++◌,
}
use os_lyre.Hashmap.{Item, find_item}
use os_lyre.Hashmap.Keys.{same_key_self, same_key-ne, key_cases}

abbrev pub or_else {ℓ} : {A : Type ℓ} → Option A → Option A → Option A
or_else none d = d
or_else (some a) d = some a

pub some_ne_none {ℓ} : {A : Type ℓ} {a : A} → some a ≢ none
some_ne_none e = grind arith

or_none {ℓ} : {A : Type ℓ} (o d : Option A) → or_else o d ≡ none → (o ≡ none) × (d ≡ none)
or_none none d e = (refl, e)
or_none (some a) d e = absurd (some_ne_none e)

pub or_none_right {ℓ} : {A : Type ℓ} (o : Option A) → or_else o none ≡ o
or_none_right none = refl
or_none_right (some a) = refl

module _ {A : Type 0} where
  pub find-head :
      (key : List ℕ) (x : Item A) (xs : List (Item A))
      → key ≡ x.key
      → find_item key (x ∷ xs) ≡ some x.item
  unfolding find_item
  find-head key x xs e = rw (e, same_key_self x.key) refl

  pub find-tail :
      (key : List ℕ) (x : Item A) (xs : List (Item A))
      → key ≢ x.key
      → find_item key (x ∷ xs) ≡ find_item key xs
  unfolding find_item
  find-tail key x xs n = rw (same_key-ne key x.key n) refl

  pub find-nil : (key : List ℕ) → find_item {A = A} key [] ≡ none
  unfolding find_item
  find-nil key = refl

  -- A search in a list with one more item at its end.
  pub find-snoc :
      (key : List ℕ) (xs : List (Item A)) (z : Item A)
      → find_item key (xs ++ (z ∷ [])) ≡ or_else (find_item key xs) (find_item key (z ∷ []))
  find-snoc key [] z = rw (find-nil key) refl
  find-snoc key (x ∷ xs) z = elim (key_cases key x.key) [
    | inl p ↦ find-head key x (xs ++ (z ∷ [])) p ∙ rw (find-head key x xs p) refl
    | inr n ↦
        find-tail key x (xs ++ (z ∷ [])) n ∙ find-snoc key xs z ∙ rw (find-tail key x xs n) refl
  ]

  -- No two items have the same key.
  abbrev pub AreDistinct : List (Item A) → Type 0
  AreDistinct [] = Unit
  AreDistinct (x ∷ xs) = (find_item x.key xs ≡ none) × AreDistinct xs

  pub absent-head :
      (key : List ℕ) (x : Item A) (xs : List (Item A)) → find_item key (x ∷ xs) ≡ none → key ≢ x.key
  absent-head key x xs e p = some_ne_none (sym (find-head key x xs p) ∙ e)

  pub absent-tail :
      (key : List ℕ) (x : Item A) (xs : List (Item A))
      → find_item key (x ∷ xs) ≡ none
      → find_item key xs ≡ none
  absent-tail key x xs e = sym (find-tail key x xs (absent-head key x xs e)) ∙ e

  pub find-one : (key : List ℕ) (z : Item A) → key ≢ z.key → find_item key (z ∷ []) ≡ none
  find-one key z n = find-tail key z [] n ∙ find-nil key

  pub snoc-AreDistinct :
      (xs : List (Item A)) (z : Item A)
      → AreDistinct xs
      → find_item z.key xs ≡ none
      → AreDistinct (xs ++ (z ∷ []))
  snoc-AreDistinct [] z d e = (e, tt)
  snoc-AreDistinct (x ∷ xs) z d e = (
    find-snoc x.key xs z ∙ rw d.0 (find-one x.key z (λ p. absent-head z.key x xs e (sym p))),
    snoc-AreDistinct xs z d.1 (absent-tail z.key x xs e),
  )

  -- The parts of such a list with an item at its end.
  pub unsnoc-AreDistinct :
      (xs : List (Item A)) (z : Item A)
      → AreDistinct (xs ++ (z ∷ []))
      → AreDistinct xs × (find_item z.key xs ≡ none)
  unsnoc-AreDistinct [] z d = (tt, find-nil z.key)
  unsnoc-AreDistinct (x ∷ xs) z d =
      let rest = unsnoc-AreDistinct xs z d.1 in
      let parts =
        or_none (find_item x.key xs) (find_item x.key (z ∷ []))
          (sym (find-snoc x.key xs z) ∙ d.0) in
      let apart : z.key ≢ x.key = λ p. absent-head x.key z [] parts.1 (sym p) in
      ((parts.0, rest.0), find-tail z.key x xs apart ∙ rest.1)

  -- The last item in front is found as well as at the end.
  pub find-rotate :
      (key : List ℕ) (xs : List (Item A)) (z : Item A)
      → find_item z.key xs ≡ none
      → find_item key (z ∷ xs) ≡ find_item key (xs ++ (z ∷ []))
  find-rotate key xs z e = elim (key_cases key z.key) [
    | inl p ↦
        find-head key z xs p
        ∙ sym (find-snoc key xs z ∙ rw (ap (λ k. find_item k xs) p ∙ e) (find-head key z [] p))
    | inr n ↦
        find-tail key z xs n
        ∙ sym (find-snoc key xs z ∙ rw (find-one key z n) (or_none_right (find_item key xs)))
  ]
