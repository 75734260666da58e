-- ===== src/Vmm/Entries.antt =====
-- The entries of the lowest tables of kernel/mm/vmm.c as a function from pages.
use os_lyre.Base.{
  ℕ, ◌+◌, ◌*◌, ◌≡◌, ◌≢◌, ◌⊎◌, inl, inr, refl, ap, sym, ◌∙◌, arith, false, some, List, [], ◌∷◌, ◌==◌,
  ==_iff, Bool-cases, if◌then◌else◌,
}
use os_lyre.Vmm.{PageSource, Machine, set_entry, table_index, upper_indices, pml1_index}
use os_lyre.Vmm.Pte.{page_of, page_of_lem, table_index_lem}
use os_lyre.Vmm.Tree.{
  table_at, entry_at, IsMap, write-table_at, write-IsTree, write_self, write-other,
}
use os_lyre.Vmm.Alloc.{nat_cases}
use os_lyre.Vmm.Descend.{path_on, SameEntries}

-- The path to the lowest table of an address.
abbrev pub leaf : ℕ → List ℕ
leaf virt = path_on (upper_indices virt) []

-- The entry of an address, 0 where there is no table for it: what an address space is.
abbrev pub pte : {S : Type 0} → ℕ → Machine S → ℕ → ℕ
pte top m virt = entry_at m.table top (leaf virt) (pml1_index virt)

page_from : List ℕ → ℕ → ℕ
page_from (a ∷ b ∷ c ∷ []) d = ((c * 512 + b) * 512 + a) * 512 + d
page_from _ d = d

page_of-leaf : (v : ℕ) → page_of v ≡ page_from (leaf v) (pml1_index v)
unfolding page_from
page_of-leaf v = page_of_lem v

-- Addresses of different pages have different entries.
page_apart : (v w : ℕ) → page_of v ≢ page_of w → (leaf v ≢ leaf w) ⊎ (pml1_index v ≢ pml1_index w)
page_apart v w n = elim (nat_cases (pml1_index v) (pml1_index w)) [
  | inr away ↦ inr away
  | inl same ↦ inl (λ e. n (
      page_of-leaf v
      ∙ ap (λ l. page_from l (pml1_index v)) e
      ∙ ap (page_from (leaf w)) same
      ∙ sym (page_of-leaf w)))
]

==_false : (a b : ℕ) → (a == b) ≡ false → a ≢ b
==_false a b e p = ground arith

pub same_page :
    (v w : ℕ) → page_of v ≡ page_of w → (leaf v ≡ leaf w) × (pml1_index v ≡ pml1_index w)
same_page v w e =
    let i4 : table_index 39 v ≡ table_index 39 w =
      omega (arith, table_index_lem 39 v (omega arith), table_index_lem 39 w (omega arith)) in
    let i3 : table_index 30 v ≡ table_index 30 w =
      omega (arith, table_index_lem 30 v (omega arith), table_index_lem 30 w (omega arith)) in
    let i2 : table_index 21 v ≡ table_index 21 w =
      omega (arith, table_index_lem 21 v (omega arith), table_index_lem 21 w (omega arith)) in
    let i1 : table_index 12 v ≡ table_index 12 w =
      omega (arith, table_index_lem 12 v (omega arith), table_index_lem 12 w (omega arith)) in
    (rw (i4, i3, i2) refl, i1)

module _ {S : Type 0} (src : PageSource S) (top : ℕ) where
  pub pte-same : (m n : Machine S) → SameEntries src top m n → (v : ℕ) → pte top n v ≡ pte top m v
  pte-same m n h v = h (leaf v) (pml1_index v) refl

  -- One entry of the lowest table of `virt` is written.
  module _ (m : Machine S) (h : IsMap src top m) (virt t e : ℕ)
      (at : table_at m.table top (leaf virt) ≡ some t) where
    abbrev pub stored : Machine S
    stored = record m { table = set_entry t (pml1_index virt) e m.table }

    pub stored-IsMap : IsMap src top stored
    stored-IsMap = record {
      ok = h.ok;
      tree = write-IsTree m.table top h.tree (leaf virt) t (pml1_index virt) e at refl;
      used = λ p a l x. h.used p a l (
          sym (write-table_at m.table top h.tree (leaf virt) t (pml1_index virt) e at refl p l)
          ∙ x);
    }

    pub stored-pte :
        (v : ℕ) → pte top stored v ≡ (if page_of v == page_of virt then e else pte top m v)
    stored-pte v = elim (Bool-cases (page_of v == page_of virt)) [
      | inl same ↦
          let (path, index) = same_page v virt ((==_iff (page_of v) (page_of virt)).0 same) in
          rw same (
            ap (λ p. entry_at stored.table top p (pml1_index v)) path
            ∙ ap (entry_at stored.table top (leaf virt)) index
            ∙ write_self m.table top h.tree (leaf virt) t (pml1_index virt) e at refl)
      | inr apart ↦ rw apart (
          write-other m.table top h.tree (leaf virt) t (pml1_index virt) e at refl (leaf v)
            (pml1_index v) refl (page_apart v virt (==_false (page_of v) (page_of virt) apart)))
    ]
