-- ===== src/Hashmap/Buckets.antt =====
-- The buckets of kernel/lib/hashmap.k.h: what holds of each, and the replacement of one.
use os_lyre.Base.{
  ℕ, zero, suc, ◌%◌, ◌≤◌, ◌<◌, ◌≡◌, ◌≢◌, ◌⊎◌, inl, inr, refl, ap, ◌∙◌, sym, arith, Option, none,
  some, List, ◌==◌, ==_iff, Bool-cases, length, get_or, set, All, length-replicate, get_or-set_self,
  get_or-set_ne, get_or-All,
}
use os_lyre.Hashmap.{
  Bucket, Hashmap, hash, find_item, empty_bucket, no_buckets, or_new, bucket_of, get_in,
  hashmap_get, buckets_or_new,
}
use os_lyre.Hashmap.Scan.{AreDistinct, find-nil}

mod-lt : (a n : ℕ) → 0 < n → a % n < n
mod-lt a n h = omega arith

module _ {A : Type 0} where
  -- The items of a bucket fit its array, and no two have the same key.
  abbrev pub IsBucket : Bucket A → Type 0
  IsBucket b = AreDistinct b.items × (length b.items ≤ b.cap)

  abbrev pub AreBuckets : ℕ → Option (List (Bucket A)) → Type 0
  AreBuckets n none = Unit
  AreBuckets n (some bs) = (length bs ≡ n) × All IsBucket bs

  abbrev pub IsValid : Hashmap A → Type 0
  IsValid m = (0 < m.cap) × AreBuckets m.cap m.buckets

empty-IsBucket : (A : Type 0) → IsBucket {A = A} empty_bucket
empty-IsBucket A = (tt, omega arith)

no_buckets-AreBuckets : (A : Type 0) (n : ℕ) → All (IsBucket {A = A}) (no_buckets n)
no_buckets-AreBuckets A zero = tt
no_buckets-AreBuckets A (suc n) = (empty-IsBucket A, no_buckets-AreBuckets A n)

module _ {A : Type 0} where
  get-no_buckets :
      (n i : ℕ) (d : Bucket A) → d ≡ empty_bucket → get_or (no_buckets n) i d ≡ empty_bucket
  get-no_buckets zero i d e = e
  get-no_buckets (suc n) zero d e = refl
  get-no_buckets (suc n) (suc i) d e = get-no_buckets n i d e

  -- The array that an insertion works on holds what a search finds.
  find-or_new :
      (n : ℕ) (o : Option (List (Bucket A))) (key : List ℕ)
      → find_item key (bucket_of n (or_new n o) key).items ≡ get_in n o key
  find-or_new n none key =
      ap (λ b. find_item key b.items) (get-no_buckets n (hash key % n) empty_bucket refl)
      ∙ find-nil key
  find-or_new n (some bs) key = refl

  pub get-buckets_or_new :
      (m : Hashmap A) (key : List ℕ)
      → find_item key (bucket_of m.cap (buckets_or_new m) key).items ≡ hashmap_get m key
  unfolding hashmap_get
  get-buckets_or_new m key = find-or_new m.cap m.buckets key

  pub or_new-AreBuckets :
      (n : ℕ) (o : Option (List (Bucket A))) → AreBuckets n o → AreBuckets n (some (or_new n o))
  or_new-AreBuckets n none v = (length-replicate n empty_bucket, no_buckets-AreBuckets A n)
  or_new-AreBuckets n (some bs) v = v

  pub bucket_of-IsBucket :
      (n : ℕ) (bs : List (Bucket A)) (key : List ℕ)
      → All IsBucket bs
      → IsBucket (bucket_of n bs key)
  bucket_of-IsBucket n bs key h =
      get_or-All IsBucket bs (hash key % n) empty_bucket h (empty-IsBucket A)

  -- A new bucket in the place of a key's own.
  pub get-set :
      (n : ℕ) (bs : List (Bucket A)) (b : Bucket A) (key k : List ℕ)
      → 0 < n
      → length bs ≡ n
      → ((hash k % n ≡ hash key % n) × (bucket_of n (set bs (hash key % n) b) k ≡ b))
        ⊎ ((k ≢ key) × (bucket_of n (set bs (hash key % n) b) k ≡ bucket_of n bs k))
  get-set n bs b key k p l = elim (Bool-cases (hash key % n == hash k % n)) [
    | inl e ↦
        let q = (==_iff _ _).0 e in
        inl (
          sym q,
          ap (λ i. get_or (set bs (hash key % n) b) i empty_bucket) (sym q)
              ∙ get_or-set_self bs (hash key % n) b empty_bucket
                  (omega (arith, l, mod-lt (hash key) n p)),
        )
    | inr e ↦
        let apart : hash key % n ≢ hash k % n = ground arith in
        inr (
          (λ q. apart (ap (λ a. hash a % n) (sym q))),
          get_or-set_ne bs (hash key % n) (hash k % n) b empty_bucket apart,
        )
  ]
