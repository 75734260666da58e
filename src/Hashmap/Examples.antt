-- ===== src/Hashmap/Examples.antt =====
-- kernel/lib/hashmap.k.h at a concrete map.
use os_lyre.Base.{ℕ, ◌≡◌, refl, arith, true, none, some, List, [], ◌∷◌}
use os_lyre.Hashmap.{
  Hashmap, hashmap_init, hashmap_get, hashmap_insert, hashmap_remove, hash, hash_from, hash_step,
}
use os_lyre.Hashmap.Buckets.{IsValid}
use os_lyre.Hashmap.Laws.{hashmap_insert-IsValid}
use os_lyre.Hashmap.Remove.{IsRemoved, hashmap_remove_lem}

abbrev empty_map : Hashmap ℕ
empty_map = hashmap_init 4

empty_map-IsValid : IsValid empty_map
unfolding hashmap_init
empty_map-IsValid = (omega arith, tt)

-- the keys "a" and "e", which share a bucket of four
abbrev key_a : List ℕ
key_a = 97 ∷ []

abbrev key_e : List ℕ
key_e = 101 ∷ []

absent-empty : hashmap_get empty_map key_a ≡ none
unfolding hashmap_get hashmap_init
absent-empty = refl

first-IsValid :
    (after : Hashmap ℕ) × (hashmap_insert true true empty_map key_a 5 ≡ some after) × IsValid after
first-IsValid =
    hashmap_insert-IsValid empty_map key_a 5 empty_map-IsValid (omega arith) absent-empty

hashmap_remove_lem_example : IsRemoved first-IsValid.0 key_a (hashmap_remove first-IsValid.0 key_a)
hashmap_remove_lem_example = hashmap_remove_lem first-IsValid.0 key_a first-IsValid.2

-- sdbm of "ab"
hash_value : hash (97 ∷ 98 ∷ []) ≡ 6363201
unfolding hash hash_from hash_step
hash_value = refl
