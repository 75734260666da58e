-- ===== src/Vector/Examples.antt =====
-- kernel/lib/vector.k.h at a vector of three.
use os_lyre.Base.{ℕ, suc, ◌+◌, ◌≤◌, ◌<◌, ◌≡◌, ◌≢◌, ◌⊎◌, arith}
use os_lyre.Vector.{Vector, vector_remove_by_value}
use os_lyre.Vector.Laws.{vector_remove_by_value_lem}

abbrev three : Vector
three = record { elements = λ i. i + 10; length = 3; capacity = 8 }

vector_remove_by_value_lem_example :
    ((j : ℕ) × (j < 3)
      × (three.elements j ≡ 99)
      × ((k : ℕ) → k < j → three.elements k ≢ 99)
      × ((vector_remove_by_value three 99).length + 1 ≡ 3)
      × ((k : ℕ) → k < j → (vector_remove_by_value three 99).elements k ≡ three.elements k)
      × ((k : ℕ)
          → j ≤ k
          → suc k < 3
          → (vector_remove_by_value three 99).elements k ≡ three.elements (suc k)))
    ⊎ (((k : ℕ) → k < 3 → three.elements k ≢ 99)
        × ((vector_remove_by_value three 99).length + 1 ≡ 3)
        × ((vector_remove_by_value three 99).elements ≡ three.elements))
vector_remove_by_value_lem_example = vector_remove_by_value_lem three 99 (omega arith) (omega arith)
