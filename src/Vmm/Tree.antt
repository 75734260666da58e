-- ===== src/Vmm/Tree.antt =====
-- The tables of an address space as a tree: a path is the list of the indices that lead to a table, the
-- last one first.
use os_lyre.Base.{
  ℕ, ◌≤◌, ◌<◌, ◌≡◌, ◌≢◌, ◌⊎◌, inl, inr, refl, ap, sym, ◌∙◌, arith, true, Option, none, some, List,
  [], ◌∷◌, Option-cases, if◌then◌else◌, length,
}
use os_lyre.Vmm.{PageSource, Machine, is_present, pte_get_addr, set_entry}

abbrev pub next_table : (ℕ → ℕ → ℕ) → ℕ → ℕ → Option ℕ
next_table f t i = if is_present (f t i) then some (pte_get_addr (f t i)) else none

-- The table at the end of a path.
unfoldable pub table_at : (ℕ → ℕ → ℕ) → ℕ → List ℕ → Option ℕ
table_at f top [] = some top
table_at f top (i ∷ p) = elim (table_at f top p) [ none ↦ none | some t ↦ next_table f t i ]

abbrev pub entry_of : (ℕ → ℕ → ℕ) → Option ℕ → ℕ → ℕ
entry_of f none j = 0
entry_of f (some t) j = f t j

-- An entry of the table at the end of a path, or 0, which is not present, where the path leads nowhere.
abbrev pub entry_at : (ℕ → ℕ → ℕ) → ℕ → List ℕ → ℕ → ℕ
entry_at f top p j = entry_of f (table_at f top p) j

-- No two paths lead to the same table.
abbrev pub IsTree : (ℕ → ℕ → ℕ) → ℕ → Type 0
IsTree f top =
    (p q : List ℕ) (a : ℕ)
    → length p ≤ 3
    → length q ≤ 3
    → table_at f top p ≡ some a
    → table_at f top q ≡ some a
    → p ≡ q

-- The tables of an address space with the given top level form a tree, and their pages are in use.
pub record IsMap {S : Type 0} (src : PageSource S) (top : ℕ) (m : Machine S) : Type 0 where
  pub ok : src.IsOk m.source
  pub tree : IsTree m.table top
  pub used :
      (p : List ℕ) (a : ℕ)
      → length p ≤ 3
      → table_at m.table top p ≡ some a
      → src.is_used m.source a ≡ true

pub step-none :
    (f : ℕ → ℕ → ℕ) (top j : ℕ) (q : List ℕ)
    → table_at f top q ≡ none
    → table_at f top (j ∷ q) ≡ none
unfolding table_at
step-none f top j q e = rw (e, table_at) refl

pub step-some :
    (f : ℕ → ℕ → ℕ) (top j u : ℕ) (q : List ℕ)
    → table_at f top q ≡ some u
    → table_at f top (j ∷ q) ≡ next_table f u j
unfolding table_at
step-some f top j u q e = rw (e, table_at) refl

pub next-same : (f g : ℕ → ℕ → ℕ) (u j : ℕ) → f u j ≡ g u j → next_table f u j ≡ next_table g u j
next-same f g u j e = ap (λ v. if is_present v then some (pte_get_addr v) else none) e

shorter : (q p : List ℕ) → length q < length p → q ≢ p
shorter q p h e = omega (arith, ap length e)

-- One entry of a lowest table is written.
module _ (f : ℕ → ℕ → ℕ) (top : ℕ) (tree : IsTree f top) (p : List ℕ) (t i e : ℕ)
    (at : table_at f top p ≡ some t) (deep : length p ≡ 3) where
  abbrev written : ℕ → ℕ → ℕ
  written = set_entry t i e f

  write-apart : (u j : ℕ) → u ≢ t → written u j ≡ f u j
  write-apart u j n = ground (arith, n)

  pub write-table_at : (q : List ℕ) → length q ≤ 3 → table_at written top q ≡ table_at f top q
  unfolding table_at
  write-table_at [] h = refl
  write-table_at (j ∷ q) h = elim (Option-cases (table_at f top q)) [
    | inl none_at ↦
        step-none written top j q (write-table_at q (omega arith) ∙ none_at)
        ∙ sym (step-none f top j q none_at)
    | inr (u, some_at) ↦
        let apart : u ≢ t = λ same.
          shorter q p (omega arith)
            (tree q p t (omega arith) (omega arith) (some_at ∙ ap some same) at) in
        step-some written top j u q (write-table_at q (omega arith) ∙ some_at)
        ∙ next-same written f u j (write-apart u j apart)
        ∙ sym (step-some f top j u q some_at)
  ]

  pub write-IsTree : IsTree written top
  write-IsTree q r a h k x y =
      tree q r a h k (sym (write-table_at q h) ∙ x) (sym (write-table_at r k) ∙ y)

  pub write_self : entry_at written top p i ≡ e
  write_self = ap (λ o. entry_of written o i) (write-table_at p (omega arith) ∙ at) ∙ ground arith

  pub write-other :
      (q : List ℕ) (j : ℕ)
      → length q ≡ 3
      → ((q ≢ p) ⊎ (j ≢ i))
      → entry_at written top q j ≡ entry_at f top q j
  write-other q j h n = elim (Option-cases (table_at f top q)) [
    | inl none_at ↦
        ap (λ o. entry_of written o j) (write-table_at q (omega arith) ∙ none_at)
        ∙ sym (ap (λ o. entry_of f o j) none_at)
    | inr (u, some_at) ↦
        ap (λ o. entry_of written o j) (write-table_at q (omega arith) ∙ some_at)
        ∙ elim n [
          | inl away ↦
              write-apart u j
                (λ same. away (tree q p t (omega arith) (omega arith) (some_at ∙ ap some same) at))
          | inr other ↦ ground (arith, other)
        ]
        ∙ sym (ap (λ o. entry_of f o j) some_at)
  ]
