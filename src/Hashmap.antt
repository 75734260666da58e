-- ===== src/Hashmap.antt =====
-- kernel/lib/hashmap.k.h: the hash map from byte strings. `cap` and the buckets are as in the source,
-- and a bucket's list holds the `filled` items of its array. An allocation that succeeds gives zeroes. An
-- index is a 32-bit value, and a key of the list form has `length key` bytes.
pub mod Keys
pub mod Scan
pub mod Drop
pub mod Buckets
pub mod Laws
pub mod Remove
mod Examples
use os_lyre.Base.{
  ℕ, zero, suc, ◌+◌, ◌-◌, ◌*◌, ◌%◌, ◌^◌, Bool, true, false, not, leb, ◌&&◌, ◌||◌, Option, none,
  some, List, [], ◌∷◌, ◌++◌, ltb, ◌==◌, if◌then◌else◌, length, get_or, set, take, replicate,
}
use os_lyre.Base.Int.{ℤ, pos, negsuc}
use os_lyre.Libc.{memcmp}

-- HASHMAP_KEY_DATA_MAX
abbrev pub key_data_max : ℕ
key_data_max = 256

-- One step of the sdbm hash, on 32 bits.
unfoldable pub hash_step : ℕ → ℕ → ℕ
hash_step h c = (c + (h * 2 ^ 6) % 2 ^ 32 + (h * 2 ^ 16) % 2 ^ 32 + (2 ^ 32 - h)) % 2 ^ 32

unfoldable pub hash_from : ℕ → List ℕ → ℕ
hash_from h [] = h
hash_from h (c ∷ cs) = hash_from (hash_step h c) cs

unfoldable pub hash : List ℕ → ℕ
hash key = hash_from 0 key

-- `key` is the first `key_length` bytes of `key_data`.
pub record Item (A : Type 0) : Type 0 where
  pub key : List ℕ
  pub item : A

pub record Bucket (A : Type 0) : Type 0 where
  pub cap : ℕ
  pub items : List (Item A)

-- `buckets` is none for NULL.
pub record Hashmap (A : Type 0) : Type 0 where
  pub cap : ℕ
  pub buckets : Option (List (Bucket A))

abbrev pub is_zero : ℤ → Bool
is_zero (pos n) = n == 0
is_zero (negsuc n) = false

-- The test of the loops: first the lengths, then memcmp.
unfoldable pub same_key : List ℕ → List ℕ → Bool
same_key a b =
    length a == length b && is_zero (memcmp (λ i. get_or a i 0) (λ i. get_or b i 0) (length a))

module _ {A : Type 0} where
  abbrev pub empty_bucket : Bucket A
  empty_bucket = record { cap = 0; items = [] }

  abbrev pub no_buckets : ℕ → List (Bucket A)
  no_buckets n = replicate n empty_bucket

  -- HASHMAP_INIT
  unfoldable pub hashmap_init : ℕ → Hashmap A
  hashmap_init n = record { cap = n; buckets = none }

  -- The loop of HASHMAP_GET.
  unfoldable pub find_item : List ℕ → List (Item A) → Option A
  find_item key [] = none
  find_item key (x ∷ xs) =
      let rest = find_item key xs in if same_key key x.key then some x.item else rest

  -- The bucket of a key in an array of `n`.
  abbrev pub bucket_of : ℕ → List (Bucket A) → List ℕ → Bucket A
  bucket_of n bs key = get_or bs (hash key % n) empty_bucket

  abbrev pub get_in : ℕ → Option (List (Bucket A)) → List ℕ → Option A
  get_in n none key = none
  get_in n (some bs) key = find_item key (bucket_of n bs key).items

  unfoldable pub hashmap_get : Hashmap A → List ℕ → Option A
  hashmap_get m key = get_in m.cap m.buckets key

  -- The place of the first item with the key.
  unfoldable pub find_index : List ℕ → List (Item A) → Option ℕ
  find_index key [] = none
  find_index key (x ∷ xs) =
      let rest = find_index key xs in
      if same_key key x.key then some 0 else elim rest [ none ↦ none | some i ↦ some (suc i) ]

  -- The last item of a list with one more than `xs`.
  unfoldable pub last_item : Item A → List (Item A) → Item A
  last_item x [] = x
  last_item x (y ∷ ys) = last_item y ys

  -- The last item goes to the place `i`, unless it stands there, and the list gets shorter.
  unfoldable pub drop_item : ℕ → List (Item A) → List (Item A)
  drop_item i [] = []
  drop_item i (x ∷ xs) =
      if i == length xs
      then take (length xs) (x ∷ xs)
      else take (length xs) (set (x ∷ xs) i (last_item x xs))

  unfoldable pub remove_found : Option ℕ → Bucket A → Bool × Bucket A
  remove_found none b = (false, b)
  remove_found (some i) b = (true, record b { items = drop_item i b.items })

  abbrev pub remove_in : Hashmap A → Option (List (Bucket A)) → List ℕ → Bool × Hashmap A
  remove_in m none key = (false, m)
  remove_in m (some bs) key =
      let b = bucket_of m.cap bs key in
      let r = remove_found (find_index key b.items) b in
      (r.0, record m { buckets = some (set bs (hash key % m.cap) r.1) })

  unfoldable pub hashmap_remove : Hashmap A → List ℕ → Bool × Hashmap A
  hashmap_remove m key = remove_in m m.buckets key

  -- The bucket with an item at its end, its array larger where it is full.
  unfoldable pub push_item : Bucket A → Item A → Bucket A
  push_item b x =
      let n = if b.cap == 0 then 16 else b.cap in
      record { cap = if length b.items == n then n * 2 else n; items = b.items ++ (x ∷ []) }

  -- An array is allocated where there is none, and reallocated where it is full.
  abbrev pub needs_items : Bucket A → Bool
  needs_items b = b.cap == 0 || length b.items == b.cap

  -- The item is written behind the `filled` ones: none where that is at NULL, the allocation, whose outcome
  -- is `ok`, having failed, or past the end of the array.
  unfoldable pub add_item : Bool → Bucket A → Item A → Option (Bucket A)
  add_item ok b x =
      if (needs_items b && not ok) || leb (push_item b x).cap (length b.items)
      then none
      else some (push_item b x)

  abbrev pub or_new : ℕ → Option (List (Bucket A)) → List (Bucket A)
  or_new n none = no_buckets n
  or_new n (some bs) = bs

  abbrev pub buckets_or_new : Hashmap A → List (Bucket A)
  buckets_or_new m = or_new m.cap m.buckets

  abbrev pub is_null : Option (List (Bucket A)) → Bool
  is_null none = true
  is_null (some bs) = false

  unfoldable pub put_bucket : ℕ → Hashmap A → Option (Bucket A) → Option (Hashmap A)
  put_bucket i m none = none
  put_bucket i m (some b) = some (record m { buckets = some (set (buckets_or_new m) i b) })

  -- `table` and `array` are the outcomes of the allocations of the buckets and of the items. none stands for
  -- a write at NULL, or past the end of the items or of the item's `key_data`.
  unfoldable pub hashmap_insert : Bool → Bool → Hashmap A → List ℕ → A → Option (Hashmap A)
  unfolding put_bucket
  hashmap_insert table array m key item =
      let x : Item A = record { key = key; item = item } in
      if ltb key_data_max (length key) || (is_null m.buckets && not table)
      then none
      else put_bucket (hash key % m.cap) m
          (add_item array (bucket_of m.cap (buckets_or_new m) key) x)
