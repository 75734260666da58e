-- ===== src/Vector.antt =====
-- kernel/lib/vector.k.h: the growing arrays. `elements` is `data`, as a function of the index; what stands
-- from `length` on is not an element. A reallocation succeeds and keeps the elements, so that growing only
-- changes `capacity`. Elements are numbers: those that the kernel searches for are addresses.
pub mod Shift
pub mod Laws
mod Examples
use os_lyre.Base.{
  ℕ, zero, suc, ◌+◌, ◌-◌, ◌*◌, ◌^◌, Bool, true, false, Option, none, some, ltb, leb, ◌==◌,
  if◌then◌else◌,
}
use os_lyre.Base.Words.{sub64}

pub record Vector : Type 0 where
  pub elements : ℕ → ℕ
  pub length : ℕ
  pub capacity : ℕ

-- VECTOR_INIT
abbrev pub vector_init : Vector
vector_init = record { elements = λ i. 0; length = 0; capacity = 0 }

abbrev pub put : ℕ → ℕ → (ℕ → ℕ) → ℕ → ℕ
put i x f j = if j == i then x else f j

unfoldable pub vector_ensure_length : Vector → ℕ → Vector
vector_ensure_length v n =
    if leb v.capacity n
    then record v { capacity = if v.capacity == 0 then 8 else v.capacity * 2 }
    else v

unfoldable pub vector_push_back : Vector → ℕ → ℕ × Vector
vector_push_back v x =
    let grown = vector_ensure_length v v.length in
    (
      grown.length,
      record grown { elements = put grown.length x grown.elements; length = grown.length + 1 },
    )

-- The loop of VECTOR_INSERT, which moves `n` elements from `index` on one place up, the last one first.
unfoldable pub shift_up : ℕ → ℕ → (ℕ → ℕ) → ℕ → ℕ
shift_up index zero f = f
shift_up index (suc n) f = shift_up index n (put (index + suc n) (f (index + n)) f)

unfoldable pub vector_insert : Vector → ℕ → ℕ → Vector
vector_insert v index x =
    let grown = vector_ensure_length v v.length in
    record grown {
      elements = put index x (shift_up index (grown.length - index) grown.elements);
      length = grown.length + 1;
    }

unfoldable pub vector_push_front : Vector → ℕ → Vector
vector_push_front v x = vector_insert v 0 x

-- The loop of VECTOR_REMOVE, with `n` rounds to go from the place `i` on.
unfoldable pub shift_down : ℕ → ℕ → (ℕ → ℕ) → ℕ → ℕ
shift_down i zero f = f
shift_down i (suc n) f = shift_down (suc i) n (put i (f (suc i)) f)

-- The lengths are size_t, so that that of an empty vector wraps around.
unfoldable pub vector_remove : Vector → ℕ → Vector
vector_remove v index = record v {
  elements = shift_down index (sub64 v.length 1 - index) v.elements;
  length = sub64 v.length 1;
}

-- none stands for VECTOR_INVALID_INDEX.
unfoldable pub vector_item : Vector → ℕ → Option ℕ
vector_item v index = if ltb index v.length then some (v.elements index) else none

-- The loop of VECTOR_FIND, with `n` elements to go from the place `i` on.
unfoldable pub find_from : ℕ → ℕ → (ℕ → ℕ) → ℕ → Option ℕ
find_from i zero f x = none
find_from i (suc n) f x = let rest = find_from (suc i) n f x in if f i == x then some i else rest

unfoldable pub vector_find : Vector → ℕ → Option ℕ
vector_find v x = find_from 0 v.length v.elements x

-- VECTOR_INVALID_INDEX as a size_t
abbrev pub as_size : Option ℕ → ℕ
as_size none = 2 ^ 64 - 1
as_size (some i) = i

unfoldable pub vector_remove_by_value : Vector → ℕ → Vector
vector_remove_by_value v x = vector_remove v (as_size (vector_find v x))
