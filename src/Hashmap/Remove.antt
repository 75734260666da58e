-- ===== src/Hashmap/Remove.antt =====
-- HASHMAP_REMOVE of kernel/lib/hashmap.k.h.
use os_lyre.Base.{
  ℕ, ◌%◌, ◌<◌, ◌≡◌, ◌≢◌, inl, inr, refl, ap, ◌∙◌, sym, arith, Bool, false, Option, none, some, List,
  length, get_or, set, ◌↔◌, get_or-set_self, length-set, set-All,
}
use os_lyre.Hashmap.{
  Bucket, Hashmap, hash, find_item, find_index, empty_bucket, bucket_of, get_in, hashmap_get,
  remove_found, remove_in, hashmap_remove,
}
use os_lyre.Hashmap.Scan.{some_ne_none}
use os_lyre.Hashmap.Drop.{drop-IsWithout, index-item}
use os_lyre.Hashmap.Buckets.{IsBucket, AreBuckets, IsValid, bucket_of-IsBucket, get-set}

-- What a removal of `key` from `m` makes: whether it says that there was an entry, and the map after it.
abbrev pub IsRemoved : {A : Type 0} → Hashmap A → List ℕ → Bool × Hashmap A → Type 0
IsRemoved m key r =
    IsValid r.1
    × (hashmap_get r.1 key ≡ none)
    × ((k : List ℕ) → k ≢ key → hashmap_get r.1 k ≡ hashmap_get m k)
    × ((r.0 ≡ false) ↔ (hashmap_get m key ≡ none))

own_place : (a n l : ℕ) → 0 < n → l ≡ n → a % n < l
own_place a n l h e = omega arith

module _ {A : Type 0} where
  -- The bucket of a key after the removal.
  abbrev IsCleared : List ℕ → Bucket A → Bool × Bucket A → Type 0
  IsCleared key b r =
      IsBucket r.1
      × (find_item key r.1.items ≡ none)
      × ((k : List ℕ) → k ≢ key → find_item k r.1.items ≡ find_item k b.items)
      × ((r.0 ≡ false) ↔ (find_item key b.items ≡ none))

  remove_found-IsCleared :
      (key : List ℕ) (b : Bucket A)
      → IsBucket b
      → IsCleared key b (remove_found (find_index key b.items) b)
  unfolding remove_found
  remove_found-IsCleared key b h = elim (index-item key b.items) [
    | inl (i, f) ↦ rw i (h, f, (λ k n. refl), (λ e. f, λ e. refl))
    | inr (i, v, e, f) ↦
        let (w, o, g, l) = drop-IsWithout key b.items i h.0 e in
        rw e (
          (w, omega (arith, l, h.1)),
          g,
          o,
          (λ p. absurd (grind arith), λ p. absurd (some_ne_none (sym f ∙ p))),
        )
  ]

  abbrev removed : Hashmap A → List (Bucket A) → List ℕ → Bool × Bucket A
  removed m bs key =
      remove_found (find_index key (bucket_of m.cap bs key).items) (bucket_of m.cap bs key)

  -- A search after the removal, in an array whose bucket of the key is cleared.
  find-removed :
      (m : Hashmap A) (bs : List (Bucket A)) (key k : List ℕ)
      → 0 < m.cap
      → AreBuckets m.cap (some bs)
      → k ≢ key
      → find_item k (bucket_of m.cap (set bs (hash key % m.cap) (removed m bs key).1) k).items
        ≡ find_item k (bucket_of m.cap bs k).items
  find-removed m bs key k p a n =
      let cleared =
        remove_found-IsCleared key (bucket_of m.cap bs key) (bucket_of-IsBucket m.cap bs key a.1) in
      elim (get-set m.cap bs (removed m bs key).1 key k p a.0) [
        | inl (same, e) ↦
            ap (λ b. find_item k b.items) e
            ∙ cleared.2 k n
            ∙ ap (λ i. find_item k (get_or bs i empty_bucket).items) (sym same)
        | inr (l, e) ↦ ap (λ b. find_item k b.items) e
      ]

  carry_buckets : (n : ℕ) (o p : Option (List (Bucket A))) → o ≡ p → AreBuckets n o → AreBuckets n p
  carry_buckets n o p e h = rw (sym e) h

  remove_in-IsRemoved :
      (m : Hashmap A) (o : Option (List (Bucket A))) (key : List ℕ)
      → IsValid m
      → m.buckets ≡ o
      → IsRemoved m key (remove_in m o key)
  unfolding hashmap_get
  remove_in-IsRemoved m none key h e = (h, rw e refl, (λ k n. refl), (λ p. rw e refl, λ p. refl))
  remove_in-IsRemoved m (some bs) key h e =
      let a = carry_buckets m.cap m.buckets (some bs) e h.1 in
      let b = bucket_of-IsBucket m.cap bs key a.1 in
      let cleared = remove_found-IsCleared key (bucket_of m.cap bs key) b in
      let own =
        get_or-set_self bs (hash key % m.cap) (removed m bs key).1 empty_bucket
          (own_place (hash key) m.cap (length bs) h.0 a.0) in
      (
        (
          h.0,
          (
            length-set bs (hash key % m.cap) (removed m bs key).1 ∙ a.0,
            set-All IsBucket bs (hash key % m.cap) (removed m bs key).1 a.1 cleared.0,
          ),
        ),
        ap (λ c. find_item key c.items) own ∙ cleared.1,
        (λ k n. find-removed m bs key k h.0 a n ∙ ap (λ o. get_in m.cap o k) (sym e)),
        (
          λ p. ap (λ o. get_in m.cap o key) e ∙ cleared.3.0 p,
          λ p. cleared.3.1 (ap (λ o. get_in m.cap o key) (sym e) ∙ p),
        ),
      )

  -- Removing a key from a valid map gives a valid map without it, in which every other key has what it
  -- had; the result is true exactly if the key was in the map.
  pub hashmap_remove_lem :
      (m : Hashmap A) (key : List ℕ) → IsValid m → IsRemoved m key (hashmap_remove m key)
  unfolding hashmap_remove
  hashmap_remove_lem m key h = remove_in-IsRemoved m m.buckets key h refl
