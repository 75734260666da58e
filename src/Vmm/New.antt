-- ===== src/Vmm/New.antt =====
-- vmm_new_pagemap of kernel/mm/vmm.c: the upper half of a new address space is the kernel's.
use os_lyre.Base.{
  some_ne_none, some_inj, ℕ, ◌≤◌, ◌≡◌, ◌≢◌, inl, inr, refl, ap, sym, ◌∙◌, arith, Bool, true, false,
  Option, none, some, List, [], ◌∷◌, ◌==◌, ◌&&◌, leb, ltb, Bool-cases, Option-cases, if◌then◌else◌,
  if_true, if_false, length,
}
use os_lyre.Vmm.{
  PageSource, Machine, is_present, pte_get_addr, new_top, vmm_new_pagemap, table_index,
}
use mathlib.Core.Path.{subst}
use os_lyre.Vmm.Pte.{is_present_lem, table_index-lt}
use os_lyre.Vmm.Tree.{
  next_table, table_at, entry_of, entry_at, IsTree, IsMap, step-none, step-some, next-same,
}
use os_lyre.Vmm.Descend.{clash}
use os_lyre.Vmm.Entries.{leaf, pte}

-- an index of the upper half of a top level
abbrev pub is_upper : ℕ → Bool
is_upper i = leb 256 i && ltb i 512

-- the first index of a path
abbrev first_index : ℕ → List ℕ → ℕ
first_index i [] = i
first_index i (j ∷ p) = first_index j p

upper_if :
    (b : Bool) (v : ℕ)
    → (if is_present (if b then v else 0) then some (pte_get_addr (if b then v else 0)) else none)
      ≡ (if b then (if is_present v then some (pte_get_addr v) else none) else none)
upper_if true v = refl
upper_if false v = rw (is_present_lem 0) refl

module _ (f : ℕ → ℕ → ℕ) (top a : ℕ) (tree : IsTree f top)
    (fresh : (q : List ℕ) → length q ≤ 3 → table_at f top q ≢ some a) where
  abbrev copied : ℕ → ℕ → ℕ
  copied t i = if t == a then (if is_upper i then f top i else 0) else f t i

  copied-kept : (u j : ℕ) → u ≢ a → copied u j ≡ f u j
  copied-kept u j n = ground (arith, n)

  copied-top : (j : ℕ) → copied a j ≡ (if is_upper j then f top j else 0)
  copied-top j = ground arith

  old-table_at : (q : List ℕ) → length q ≤ 3 → table_at copied top q ≡ table_at f top q
  unfolding table_at
  old-table_at [] h = refl
  old-table_at (j ∷ q) h = elim (Option-cases (table_at f top q)) [
    | inl old ↦
        step-none copied top j q (old-table_at q (omega arith) ∙ old)
        ∙ sym (step-none f top j q old)
    | inr (u, old) ↦
        step-some copied top j u q (old-table_at q (omega arith) ∙ old)
        ∙ next-same copied f u j (copied-kept u j (λ e. fresh q (omega arith) (old ∙ ap some e)))
        ∙ sym (step-some f top j u q old)
  ]

  upper_next : (j : ℕ) → next_table copied a j ≡ (if is_upper j then next_table f top j else none)
  upper_next j =
      ap (λ v. if is_present v then some (pte_get_addr v) else none) (copied-top j)
      ∙ upper_if (is_upper j) (f top j)

  -- From the new top level a path leads where it leads from the kernel's, if it starts in the upper half.
  new-table_at :
      (j : ℕ) (q : List ℕ)
      → length q ≤ 2
      → table_at copied a (j ∷ q)
        ≡ (if is_upper (first_index j q) then table_at f top (j ∷ q) else none)
  unfolding table_at
  new-table_at j [] h = upper_next j
  new-table_at j (i ∷ q) h = elim (Bool-cases (is_upper (first_index i q))) [
    | inr e ↦ rw e (step-none copied a j (i ∷ q) (new-table_at i q (omega arith) ∙ rw e refl))
    | inl e ↦
        let before : table_at copied a (i ∷ q) ≡ table_at f top (i ∷ q) =
          new-table_at i q (omega arith) ∙ rw e refl in
        rw e (elim (Option-cases (table_at f top (i ∷ q))) [
          | inl old ↦
              step-none copied a j (i ∷ q) (before ∙ old) ∙ sym (step-none f top j (i ∷ q) old)
          | inr (u, old) ↦
              step-some copied a j u (i ∷ q) (before ∙ old)
              ∙ next-same copied f u j
                  (copied-kept u j (λ x. fresh (i ∷ q) (omega arith) (old ∙ ap some x)))
              ∙ sym (step-some f top j u (i ∷ q) old)
        ])
  ]

  -- A table below the new top level is one of the kernel's.
  new-old :
      (j : ℕ) (q : List ℕ) (b : ℕ)
      → length q ≤ 2
      → table_at copied a (j ∷ q) ≡ some b
      → table_at f top (j ∷ q) ≡ some b
  new-old j q b h e = elim (Bool-cases (is_upper (first_index j q))) [
    | inl u ↦ sym (new-table_at j q h ∙ if_true (is_upper (first_index j q)) _ _ u) ∙ e
    | inr u ↦
        absurd
          (some_ne_none (sym e ∙ new-table_at j q h ∙ if_false (is_upper (first_index j q)) _ _ u))
  ]

  new-IsTree : IsTree copied a
  unfolding table_at
  new-IsTree [] [] b h k x y = refl
  new-IsTree [] (j ∷ q) b h k x y = absurd (fresh (j ∷ q) k (new-old j q b (omega arith) y ∙ sym x))
  new-IsTree (i ∷ p) [] b h k x y = absurd (fresh (i ∷ p) h (new-old i p b (omega arith) x ∙ sym y))
  new-IsTree (i ∷ p) (j ∷ q) b h k x y =
      tree (i ∷ p) (j ∷ q) b h k (new-old i p b (omega arith) x) (new-old j q b (omega arith) y)

  same_entry :
      (q : List ℕ) (k : ℕ)
      → length q ≤ 3
      → entry_of copied (table_at f top q) k ≡ entry_at f top q k
  same_entry q k h = elim (Option-cases (table_at f top q)) [
    | inl old ↦ rw old refl
    | inr (u, old) ↦ rw old (copied-kept u k (λ x. fresh q h (old ∙ ap some x)))
  ]

  new-entry_at :
      (j : ℕ) (q : List ℕ) (k : ℕ)
      → length q ≡ 2
      → entry_at copied a (j ∷ q) k
        ≡ (if is_upper (first_index j q) then entry_at f top (j ∷ q) k else 0)
  new-entry_at j q k h = elim (Bool-cases (is_upper (first_index j q))) [
    | inr u ↦
        ap (λ o. entry_of copied o k)
          (new-table_at j q (omega arith) ∙ if_false (is_upper (first_index j q)) _ _ u)
        ∙ sym (if_false (is_upper (first_index j q)) _ _ u)
    | inl u ↦
        ap (λ o. entry_of copied o k)
          (new-table_at j q (omega arith) ∙ if_true (is_upper (first_index j q)) _ _ u)
        ∙ same_entry (j ∷ q) k (omega arith)
        ∙ sym (if_true (is_upper (first_index j q)) _ _ u)
  ]

  old-entry_at : (q : List ℕ) (k : ℕ) → length q ≤ 3 → entry_at copied top q k ≡ entry_at f top q k
  old-entry_at q k h = ap (λ o. entry_of copied o k) (old-table_at q h) ∙ same_entry q k h

-- What a new address space `a` of the machine `m` comes with, where the kernel's top level is `top`.
abbrev pub IsNew : {S : Type 0} → PageSource S → ℕ → Machine S → ℕ → Machine S → Type 0
IsNew src top m a n =
    IsMap src a n
    × IsMap src top n
    × ((v : ℕ) → pte a n v ≡ (if leb 256 (table_index 39 v) then pte top m v else 0))
    × ((v : ℕ) → pte top n v ≡ pte top m v)

-- The index of the top level in the path of an address.
upper_leaf : (v : ℕ) → is_upper (table_index 39 v) ≡ leb 256 (table_index 39 v)
upper_leaf v = ground (arith, table_index-lt 39 v (omega arith))

module _ {S : Type 0} (src : PageSource S) (top : ℕ) (m : Machine S) (h : IsMap src top m) where
  abbrev after : S
  after = (src.alloc_page m.source).1

  abbrev copied_machine : ℕ → Machine S
  copied_machine b = record m {
    source = after;
    table = λ t i.
        if t == b then (if leb 256 i && ltb i 512 then m.table top i else 0) else m.table t i;
  }

  module _ (b : ℕ) (e : (src.alloc_page m.source).0 ≡ some b) where
    unreached : (q : List ℕ) → length q ≤ 3 → table_at m.table top q ≢ some b
    unreached q l x = clash (h.used q b l x) (src.alloc-fresh m.source b h.ok e)

    keeps :
        (q : List ℕ) (c : ℕ)
        → length q ≤ 3
        → table_at m.table top q ≡ some c
        → src.is_used after c ≡ true
    keeps q c l x = src.alloc-keeps m.source c h.ok (h.used q c l x)

    old-IsMap : IsMap src top (copied_machine b)
    old-IsMap = record {
      ok = src.alloc-IsOk m.source h.ok;
      tree = λ p q c l k x y.
          h.tree p q c l k (sym (old-table_at m.table top b h.tree unreached p l) ∙ x)
            (sym (old-table_at m.table top b h.tree unreached q k) ∙ y);
      used = λ q c l x. keeps q c l (sym (old-table_at m.table top b h.tree unreached q l) ∙ x);
    }

    new-used :
        (q : List ℕ) (c : ℕ)
        → length q ≤ 3
        → table_at (copied_machine b).table b q ≡ some c
        → src.is_used after c ≡ true
    unfolding table_at
    new-used [] c l x =
        ap (src.is_used after) (sym (some_inj b c x)) ∙ src.alloc-used m.source b h.ok e
    new-used (j ∷ q) c l x =
        keeps (j ∷ q) c l (new-old m.table top b h.tree unreached j q c (omega arith) x)

    new-IsMap : IsMap src b (copied_machine b)
    new-IsMap = record {
      ok = src.alloc-IsOk m.source h.ok;
      tree = new-IsTree m.table top b h.tree unreached;
      used = new-used;
    }

    copied-IsNew : IsNew src top m b (copied_machine b)
    copied-IsNew = (
      new-IsMap,
      old-IsMap,
      λ v.
          new-entry_at m.table top b h.tree unreached (table_index 21 v)
            (table_index 30 v ∷ table_index 39 v ∷ []) (table_index 12 v) refl
          ∙ ap (λ u. if u then pte top m v else 0) (upper_leaf v),
      λ v. old-entry_at m.table top b h.tree unreached (leaf v) (table_index 12 v) (omega arith),
    )

  new_top-IsNew :
      (o : Option ℕ) (a : ℕ)
      → (src.alloc_page m.source).0 ≡ o
      → (new_top top (o, after) m).0 ≡ some a
      → IsNew src top m a (new_top top (o, after) m).1
  unfolding new_top
  new_top-IsNew none a e f = absurd (some_ne_none (sym f))
  new_top-IsNew (some b) a e f =
      subst (λ c. IsNew src top m c (copied_machine b)) (some_inj b a f) (copied-IsNew b e)

  -- Where the new address space can be made, it and the kernel's are trees of tables in use. In its upper half
  -- the new one has the kernel's entries, in its lower half none, and the kernel's keeps its own.
  pub vmm_new_pagemap-IsNew :
      (ok : Bool) (a : ℕ)
      → (vmm_new_pagemap src ok top m).0 ≡ some a
      → IsNew src top m a (vmm_new_pagemap src ok top m).1
  unfolding vmm_new_pagemap
  vmm_new_pagemap-IsNew true a e = new_top-IsNew (src.alloc_page m.source).0 a refl e
  vmm_new_pagemap-IsNew false a e = absurd (some_ne_none (sym e))
