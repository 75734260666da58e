-- ===== src/Vector/Laws.antt =====
-- The operations of kernel/lib/vector.k.h on the elements of a vector.
use os_lyre.Base.{
  ℕ, suc, ◌+◌, ◌-◌, ◌^◌, ◌≤◌, ◌<◌, ◌≡◌, ◌≢◌, ◌⊎◌, inl, inr, refl, ap, ◌∙◌, arith, leb, Bool-cases,
}
use os_lyre.Base.Words.{sub64}
use os_lyre.Vector.{
  Vector, vector_ensure_length, shift_up, vector_insert, shift_down, vector_remove, find_from,
  vector_find, as_size, vector_remove_by_value,
}
use os_lyre.Vector.Shift.{
  put_ne, put_self, shift_up_out, shift_up_in, shift_down_out, shift_down_in, find_from_lem,
}

-- The elements fit the array.
abbrev pub IsValid : Vector → Type 0
IsValid v = v.length ≤ v.capacity

ensure_lem :
    (v : Vector)
    → ((vector_ensure_length v v.length).elements ≡ v.elements)
      × ((vector_ensure_length v v.length).length ≡ v.length)
unfolding vector_ensure_length
ensure_lem v = elim (Bool-cases (leb v.capacity v.length)) [
  | inl e ↦ rw e (refl, refl)
  | inr e ↦ rw e (refl, refl)
]

ensure-room : (v : Vector) → IsValid v → v.length < (vector_ensure_length v v.length).capacity
unfolding vector_ensure_length
ensure-room v h = ground arith

-- Inserting into a valid vector at one of its places, or at its end, puts the element there, moves those
-- from there on one place up and keeps those before; the elements still fit the array.
pub vector_insert_lem :
    (v : Vector) (index x : ℕ)
    → IsValid v
    → index ≤ v.length
    → IsValid (vector_insert v index x)
      × ((vector_insert v index x).length ≡ v.length + 1)
      × ((vector_insert v index x).elements index ≡ x)
      × ((k : ℕ) → k < index → (vector_insert v index x).elements k ≡ v.elements k)
      × ((k : ℕ)
          → index ≤ k
          → k < v.length
          → (vector_insert v index x).elements (suc k) ≡ v.elements k)
unfolding vector_insert
vector_insert_lem v index x h l =
    let grown = vector_ensure_length v v.length in
    let (same, long) = ensure_lem v in
    let n = grown.length - index in
    (
      omega (arith, ensure-room v h, long),
      omega (arith, long),
      put_self index x (shift_up index n grown.elements),
      (λ k b.
          put_ne index x k (shift_up index n grown.elements) (omega arith)
          ∙ shift_up_out index n grown.elements k (inl (omega arith))
          ∙ ap (λ f. f k) same),
      λ k a b.
          put_ne index x (suc k) (shift_up index n grown.elements) (omega arith)
          ∙ shift_up_in index n grown.elements k a (omega (arith, long))
          ∙ ap (λ f. f k) same,
    )

less_one : (n : ℕ) → 0 < n → n < 2 ^ 64 → sub64 n 1 ≡ n - 1
less_one n h l = omega arith

-- Removing at a place of a vector keeps the elements before it and moves those behind it one place down.
pub vector_remove_lem :
    (v : Vector) (index : ℕ)
    → index < v.length
    → v.length < 2 ^ 64
    → ((vector_remove v index).length + 1 ≡ v.length)
      × ((k : ℕ) → k < index → (vector_remove v index).elements k ≡ v.elements k)
      × ((k : ℕ)
          → index ≤ k
          → suc k < v.length
          → (vector_remove v index).elements k ≡ v.elements (suc k))
unfolding vector_remove
vector_remove_lem v index h l =
    let one = less_one v.length (omega arith) l in
    let n = sub64 v.length 1 - index in
    (
      omega (arith, one),
      (λ k b. shift_down_out index n v.elements k b),
      λ k a b. shift_down_in index n v.elements k a (omega (arith, one)),
    )

remove-behind :
    (v : Vector) (i : ℕ)
    → i ≡ 2 ^ 64 - 1
    → 0 < v.length
    → v.length < 2 ^ 64
    → ((vector_remove v i).length + 1 ≡ v.length) × ((vector_remove v i).elements ≡ v.elements)
unfolding vector_remove shift_down
remove-behind v i e h l =
    let none_left : sub64 v.length 1 - i ≡ 0 = omega (arith, less_one v.length h l) in
    (omega (arith, less_one v.length h l), rw none_left refl)

-- Removing a value from a vector that is not empty removes its first place, where it has one: the elements
-- before it stay and those behind it move one place down. Where it has none, the last element is removed.
pub vector_remove_by_value_lem :
    (v : Vector) (x : ℕ)
    → 0 < v.length
    → v.length < 2 ^ 64
    → ((j : ℕ) × (j < v.length)
        × (v.elements j ≡ x)
        × ((k : ℕ) → k < j → v.elements k ≢ x)
        × ((vector_remove_by_value v x).length + 1 ≡ v.length)
        × ((k : ℕ) → k < j → (vector_remove_by_value v x).elements k ≡ v.elements k)
        × ((k : ℕ)
            → j ≤ k
            → suc k < v.length
            → (vector_remove_by_value v x).elements k ≡ v.elements (suc k)))
      ⊎ (((k : ℕ) → k < v.length → v.elements k ≢ x)
          × ((vector_remove_by_value v x).length + 1 ≡ v.length)
          × ((vector_remove_by_value v x).elements ≡ v.elements))
unfolding vector_remove_by_value vector_find
vector_remove_by_value_lem v x h l = elim (find_from_lem 0 v.length v.elements x) [
  | inr (j, e, a, b, c, d) ↦
      let inside : j < v.length = omega arith in
      let gone = vector_remove_lem v j inside l in
      rw e (inl (j, inside, c, (λ k m. d k (omega arith) m), gone.0, gone.1, gone.2))
  | inl (e, a) ↦
      let gone = remove-behind v (as_size (find_from 0 v.length v.elements x)) (ap as_size e) h l in
      inr ((λ k m. a k (omega arith) (omega arith)), gone.0, gone.1)
]
