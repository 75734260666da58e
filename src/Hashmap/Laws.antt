-- ===== src/Hashmap/Laws.antt =====
-- The macros of kernel/lib/hashmap.k.h as a finite map from keys.
use os_lyre.Base.{
  ℕ, ◌+◌, ◌*◌, ◌%◌, ◌≤◌, ◌≡◌, refl, ap, ◌∙◌, arith, true, false, not, leb, ◌<◌, ◌&&◌, ◌||◌,
  if_false, Option, none, some, List, [], ◌∷◌, ◌++◌, ltb, ◌==◌, if◌then◌else◌, length, set,
  length-append, length-set, set-All,
}
use os_lyre.Hashmap.{
  Item, Bucket, Hashmap, hash, key_data_max, same_key, find_item, bucket_of, needs_items, add_item,
  is_null, put_bucket, hashmap_get, push_item, buckets_or_new, hashmap_insert,
}
use os_lyre.Hashmap.Scan.{snoc-AreDistinct}
use os_lyre.Hashmap.Buckets.{
  IsBucket, IsValid, get-buckets_or_new, or_new-AreBuckets, bucket_of-IsBucket,
}

-- What a search for `k` finds in the one item that an insertion adds.
abbrev pub found_new {ℓ} : {A : Type ℓ} → List ℕ → A → List ℕ → Option A
found_new key v k = if same_key k key then some v else none

grown :
    (l n k : ℕ)
    → l ≤ n
    → k ≡ l + 1
    → k ≤ (
        if l == (if n == 0 then 16 else n)
        then (if n == 0 then 16 else n) * 2
        else (if n == 0 then 16 else n))
grown l n k h e = ground arith

roomy :
    (l n : ℕ)
    → l ≤ n
    → l < (
        if l == (if n == 0 then 16 else n)
        then (if n == 0 then 16 else n) * 2
        else (if n == 0 then 16 else n))
roomy l n h = ground arith

module _ {A : Type 0} where
  push-IsBucket :
      (b : Bucket A) (x : Item A)
      → IsBucket b
      → find_item x.key b.items ≡ none
      → IsBucket (push_item b x)
  unfolding push_item
  push-IsBucket b x v e = (
    snoc-AreDistinct b.items x v.0 e,
    grown (length b.items) b.cap (length (b.items ++ (x ∷ []))) v.1
        (length-append b.items (x ∷ [])),
  )

  abbrev pushed : Hashmap A → List ℕ → A → Bucket A
  pushed m key v =
      push_item (bucket_of m.cap (buckets_or_new m) key) (record { key = key; item = v })

  abbrev inserted : Hashmap A → List ℕ → A → Hashmap A
  inserted m key v = record m {
    buckets = some (set (buckets_or_new m) (hash key % m.cap) (pushed m key v));
  }

  add_some : (b : Bucket A) (x : Item A) → IsBucket b → add_item true b x ≡ some (push_item b x)
  unfolding add_item push_item
  add_some b x h =
      let granted : (needs_items b && not true) ≡ false = ground arith in
      let room : leb (push_item b x).cap (length b.items) ≡ false =
        ground (arith, roomy (length b.items) b.cap h.1) in
      rw (granted, room) refl

  insert_some :
      (m : Hashmap A) (key : List ℕ) (v : A)
      → IsValid m
      → length key ≤ key_data_max
      → hashmap_insert true true m key v ≡ some (inserted m key v)
  unfolding hashmap_insert put_bucket
  insert_some m key v h l =
      let allowed : (ltb key_data_max (length key) || (is_null m.buckets && not true)) ≡ false =
        ground (arith, l) in
      let x : Item A = record { key = key; item = v } in
      let b =
        bucket_of-IsBucket m.cap (buckets_or_new m) key (or_new-AreBuckets m.cap m.buckets h.1).1 in
      if_false _ _ _ allowed
      ∙ ap (put_bucket (hash key % m.cap) m) (add_some (bucket_of m.cap (buckets_or_new m) key) x b)

  -- Where the allocations succeed, inserting in a valid map under a key of at most 256 bytes that is not in it gives a valid map.
  pub hashmap_insert-IsValid :
      (m : Hashmap A) (key : List ℕ) (v : A)
      → IsValid m
      → length key ≤ key_data_max
      → hashmap_get m key ≡ none
      → (after : Hashmap A) × (hashmap_insert true true m key v ≡ some after) × IsValid after
  hashmap_insert-IsValid m key v h l e =
      let bs = buckets_or_new m in
      let ok = or_new-AreBuckets m.cap m.buckets h.1 in
      let b = bucket_of-IsBucket m.cap bs key ok.1 in
      let absent = get-buckets_or_new m key ∙ e in
      (
        inserted m key v,
        insert_some m key v h l,
        (
          h.0,
          (
            length-set bs (hash key % m.cap) (pushed m key v) ∙ ok.0,
            set-All IsBucket bs (hash key % m.cap) (pushed m key v) ok.1
                (push-IsBucket (bucket_of m.cap bs key) (record { key = key; item = v }) b absent),
          ),
        ),
      )
