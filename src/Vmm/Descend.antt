-- ===== src/Vmm/Descend.antt =====
-- The way down the levels of kernel/mm/vmm.c, with and without allocation.
use os_lyre.Base.{
  some_inj, ℕ, ◌+◌, ◌≤◌, ◌<◌, ◌≡◌, ◌≢◌, ◌⊎◌, inl, inr, refl, ap, sym, ◌∙◌, arith, Bool, true, false,
  Option, none, some, List, [], ◌∷◌, Bool-cases, Option-cases, length,
}
use os_lyre.Vmm.{
  PageSource, Machine, enomem, is_present, pte_get_addr, set_entry, clear_table, attach_table,
  get_next_level, descend,
}
use os_lyre.Vmm.Pte.{table_entry}
use os_lyre.Vmm.Tree.{next_table, table_at, entry_at, IsMap, step-none, step-some}
use os_lyre.Vmm.Alloc.{attach-path, attach-IsTree, attach-entry_at, attach-table_at}

pub clash : {b : Bool} → b ≡ true → b ≡ false → ⊥
clash x y = cc

-- The path that the indices, one after the other, add to another.
abbrev pub path_on : List ℕ → List ℕ → List ℕ
path_on [] p = p
path_on (i ∷ is) p = path_on is (i ∷ p)

module _ {S : Type 0} (src : PageSource S) (top : ℕ) where
  -- The entries of the lowest tables are the same.
  abbrev pub SameEntries : Machine S → Machine S → Type 0
  SameEntries m n =
      (q : List ℕ) (j : ℕ) → length q ≡ 3 → entry_at n.table top q j ≡ entry_at m.table top q j

  -- What a way down to the path `q` from the machine `m` comes to.
  abbrev pub IsReached : Machine S → List ℕ → Option ℕ × Machine S → Type 0
  IsReached m q r =
      IsMap src top r.1
      × SameEntries m r.1
      × (((r.0 ≡ none) × (r.1.errno ≡ some enomem))
          ⊎ ((u : ℕ) × (r.0 ≡ some u) × (table_at r.1.table top q ≡ some u)))

  module _ (m : Machine S) (h : IsMap src top m) (p : List ℕ) (t i : ℕ) (high : length p < 3)
      (at : table_at m.table top p ≡ some t) where
    unreached :
        (a : ℕ)
        → (src.alloc_page m.source).0 ≡ some a
        → (q : List ℕ) → length q ≤ 3
        → table_at m.table top q ≢ some a
    unreached a e q l x = clash (h.used q a l x) (src.alloc-fresh m.source a h.ok e)

    abbrev next : S
    next = (src.alloc_page m.source).1

    keeps :
        (f : ℕ → ℕ → ℕ)
        → ((q : List ℕ) (a : ℕ)
            → length q ≤ 3
            → table_at f top q ≡ some a
            → (table_at m.table top q ≡ some a) ⊎ (src.is_used next a ≡ true))
        → (q : List ℕ) (a : ℕ) → length q ≤ 3
        → table_at f top q ≡ some a
        → src.is_used next a ≡ true
    keeps f old q a l x = elim (old q a l x) [
      | inl y ↦ src.alloc-keeps m.source a h.ok (h.used q a l y)
      | inr y ↦ y
    ]

    none-IsReached : IsReached m (i ∷ p) (none, record m { source = next; errno = some enomem })
    none-IsReached = (
      record {
        ok = src.alloc-IsOk m.source h.ok;
        tree = h.tree;
        used = keeps m.table (λ q a l x. inl x);
      },
      (λ q j l. refl),
      inl (refl, refl),
    )

    new-IsReached :
        (a : ℕ)
        → is_present (m.table t i) ≡ false
        → (src.alloc_page m.source).0 ≡ some a
        → IsReached m (i ∷ p) (
          some a,
          record m { source = next; table = set_entry t i (table_entry a) (clear_table a m.table) },
        )
    new-IsReached a missing e =
        let fresh = unreached a e in
        let (aligned, small) = src.alloc-aligned m.source a h.ok e in
        (
          record {
            ok = src.alloc-IsOk m.source h.ok;
            tree = attach-IsTree m.table top h.tree p t i a at high missing fresh aligned small;
            used = keeps (set_entry t i (table_entry a) (clear_table a m.table)) (λ q b l x.
                elim (attach-table_at m.table top h.tree p t i a at high missing fresh aligned small
                  q l) [
                    | inl (d, new, old) ↦ inr (
                        ap (src.is_used next) (some_inj b a (sym x ∙ new))
                        ∙ src.alloc-used m.source a h.ok e)
                    | inr same ↦ inl (sym same ∙ x)
                  ]);
          },
          attach-entry_at m.table top h.tree p t i a at high missing fresh aligned small,
          inr (a, refl, attach-path m.table top h.tree p t i a at high missing fresh aligned small),
        )

    attach-IsReached :
        is_present (m.table t i) ≡ false
        → (o : Option ℕ) → (src.alloc_page m.source).0 ≡ o
        → IsReached m (i ∷ p) (attach_table t i (o, next) m)
    unfolding attach_table
    attach-IsReached missing none e = none-IsReached
    attach-IsReached missing (some a) e = new-IsReached a missing e

    get_next_level-IsReached : IsReached m (i ∷ p) (get_next_level src t i true m)
    unfolding get_next_level
    get_next_level-IsReached = elim (Bool-cases (is_present (m.table t i))) [
      | inl e ↦ rw e (
        h,
        (λ q j l. refl),
        inr (pte_get_addr (m.table t i), refl, step-some m.table top i t p at ∙ rw e refl),
      )
      | inr e ↦ rw e (attach-IsReached e (src.alloc_page m.source).0 refl)
    ]

  descend_stop :
      (i : ℕ) (is : List ℕ) (t : ℕ) (b : Bool) (m : Machine S)
      → (get_next_level src t i b m).0 ≡ none
      → descend src (i ∷ is) t b m ≡ (none, (get_next_level src t i b m).1)
  unfolding descend
  descend_stop i is t b m e = rw (e, descend) refl

  descend_go :
      (i : ℕ) (is : List ℕ) (t u : ℕ) (b : Bool) (m : Machine S)
      → (get_next_level src t i b m).0 ≡ some u
      → descend src (i ∷ is) t b m ≡ descend src is u b (get_next_level src t i b m).1
  unfolding descend
  descend_go i is t u b m e = rw (e, descend) refl

  -- A way down with allocation changes no entry of a lowest table, and reaches the path, or memory is out.
  pub descend-IsReached :
      (is p : List ℕ) (t : ℕ) (m : Machine S)
      → IsMap src top m
      → length p + length is ≤ 3
      → table_at m.table top p ≡ some t
      → IsReached m (path_on is p) (descend src is t true m)
  unfolding descend
  descend-IsReached [] p t m h l at = (h, (λ q j x. refl), inr (t, refl, at))
  descend-IsReached (i ∷ is) p t m h l at =
      let (map, same, found) = get_next_level-IsReached m h p t i (omega arith) at in
      elim found [
        | inl (e, err) ↦ rw (descend_stop i is t true m e) (map, same, inl (refl, err))
        | inr (u, e, next_at) ↦
            let (map2, same2, found2) =
              descend-IsReached is (i ∷ p) u (get_next_level src t i true m).1 map (omega arith)
                next_at in
            rw (descend_go i is t u true m e) (map2, (λ q j x. same2 q j x ∙ same q j x), found2)
      ]

  path-none :
      (m : Machine S) (is p : List ℕ)
      → table_at m.table top p ≡ none
      → table_at m.table top (path_on is p) ≡ none
  path-none m [] p e = e
  path-none m (i ∷ is) p e = path-none m is (i ∷ p) (step-none m.table top i p e)

  look-next :
      (t i : ℕ) (m : Machine S) → get_next_level src t i false m ≡ (next_table m.table t i, m)
  unfolding get_next_level
  look-next t i m = elim (Bool-cases (is_present (m.table t i))) [
    | inl e ↦ rw e refl
    | inr e ↦ rw e refl
  ]

  -- A way down without allocation changes nothing and gives the table at the end of the path.
  pub descend-table_at :
      (is p : List ℕ) (t : ℕ) (m : Machine S)
      → table_at m.table top p ≡ some t
      → descend src is t false m ≡ (table_at m.table top (path_on is p), m)
  unfolding descend
  descend-table_at [] p t m at = rw at refl
  descend-table_at (i ∷ is) p t m at = elim (Option-cases (next_table m.table t i)) [
    | inl e ↦
        descend_stop i is t false m (ap (λ r. r.0) (look-next t i m) ∙ e)
        ∙ ap (λ r. (none, r.1)) (look-next t i m)
        ∙ ap (λ o. (o, m)) (sym (path-none m is (i ∷ p) (step-some m.table top i t p at ∙ e)))
    | inr (u, e) ↦
        descend_go i is t u false m (ap (λ r. r.0) (look-next t i m) ∙ e)
        ∙ ap (λ r. descend src is u false r.1) (look-next t i m)
        ∙ descend-table_at is (i ∷ p) u m (step-some m.table top i t p at ∙ e)
  ]
