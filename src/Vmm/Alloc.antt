-- ===== src/Vmm/Alloc.antt =====
-- `get_next_level` of kernel/mm/vmm.c: a new table changes no entry of a lowest table.
use os_lyre.Base.{
  some_ne_none, some_inj, ℕ, ◌%◌, ◌^◌, ◌≤◌, ◌<◌, ◌≡◌, ◌≢◌, ◌⊎◌, inl, inr, refl, ap, sym, ◌∙◌, arith,
  false, none, some, List, [], ◌∷◌, ◌==◌, ==_iff, Bool-cases, Option-cases, length,
}
use os_lyre.Vmm.{is_present, set_entry, clear_table}
use os_lyre.Vmm.Pte.{table_entry, table_entry-present, table_entry-addr}
use os_lyre.Vmm.Tree.{
  next_table, table_at, entry_of, entry_at, IsTree, step-none, step-some, next-same,
}

pub nat_cases : (j k : ℕ) → (j ≡ k) ⊎ (j ≢ k)
nat_cases j k = elim (Bool-cases (j == k)) [
  | inl e ↦ inl ((==_iff j k).0 e)
  | inr e ↦ inr (λ p. ground arith)
]

path_ne : (q p : List ℕ) → length p < length q → q ≢ p
path_ne q p h e = omega (arith, ap length e)

-- A cleared table `a`, which no path leads to, becomes the entry `i` of the table `t`.
module _ (f : ℕ → ℕ → ℕ) (top : ℕ) (tree : IsTree f top) (p : List ℕ) (t i a : ℕ)
    (at : table_at f top p ≡ some t) (high : length p < 3) (missing : is_present (f t i) ≡ false)
    (fresh : (q : List ℕ) → length q ≤ 3 → table_at f top q ≢ some a) (aligned : a % 4096 ≡ 0)
    (small : a < 2 ^ 52) where
  abbrev attached : ℕ → ℕ → ℕ
  attached = set_entry t i (table_entry a) (clear_table a f)

  new_ne : a ≢ t
  new_ne e = fresh p (omega arith) (at ∙ ap some (sym e))

  attached-kept : (u j : ℕ) → u ≢ a → ((u ≢ t) ⊎ (j ≢ i)) → attached u j ≡ f u j
  attached-kept u j n h = elim h [ inl k ↦ ground (arith, n, k) | inr k ↦ ground (arith, n, k) ]

  attached-new : (j : ℕ) → attached a j ≡ 0
  attached-new j = ground (arith, new_ne)

  attached-entry : next_table attached t i ≡ some a
  attached-entry =
      let here : attached t i ≡ table_entry a = ground arith in
      rw (here, table_entry-present a) (ap some (table_entry-addr a aligned small))

  missing-next : next_table f t i ≡ none
  missing-next = rw missing refl

  empty-next : (j : ℕ) → next_table attached a j ≡ none
  unfolding is_present
  empty-next j = rw (attached-new j) refl

  -- Every path but the new one leads where it did, and the new one led nowhere.
  pub attach-table_at :
      (q : List ℕ)
      → length q ≤ 3
      → ((q ≡ i ∷ p) × (table_at attached top q ≡ some a) × (table_at f top q ≡ none))
        ⊎ (table_at attached top q ≡ table_at f top q)
  unfolding table_at
  attach-table_at [] h = inr refl
  attach-table_at (j ∷ q) h = elim (attach-table_at q (omega arith)) [
    | inl (e, new, old) ↦
        inr (step-some attached top j a q new ∙ empty-next j ∙ sym (step-none f top j q old))
    | inr same ↦ elim (Option-cases (table_at f top q)) [
      | inl old ↦ inr (step-none attached top j q (same ∙ old) ∙ sym (step-none f top j q old))
      | inr (u, old) ↦
          let apart : u ≢ a = λ e. fresh q (omega arith) (old ∙ ap some e) in
          let kept : ((u ≢ t) ⊎ (j ≢ i)) → table_at attached top (j ∷ q) ≡ table_at f top (j ∷ q) =
            λ n.
              step-some attached top j u q (same ∙ old)
              ∙ next-same attached f u j (attached-kept u j apart n)
              ∙ sym (step-some f top j u q old) in
          elim (nat_cases u t) [
            | inr n ↦ inr (kept (inl n))
            | inl here ↦ elim (nat_cases j i) [
              | inr n ↦ inr (kept (inr n))
              | inl index ↦
                  let path : q ≡ p =
                    tree q p t (omega arith) (omega arith) (old ∙ ap some here) at in
                  inl (
                    ap (λ k. k ∷ q) index ∙ ap (λ r. i ∷ r) path,
                    step-some attached top j u q (same ∙ old)
                        ∙ ap (next_table attached u) index
                        ∙ ap (λ v. next_table attached v i) here
                        ∙ attached-entry,
                    step-some f top j u q old
                        ∙ ap (next_table f u) index
                        ∙ ap (λ v. next_table f v i) here
                        ∙ missing-next,
                  )
            ]
          ]
    ]
  ]

  pub attach-path : table_at attached top (i ∷ p) ≡ some a
  attach-path = elim (attach-table_at p (omega arith)) [
    | inl (e, new, old) ↦ absurd (some_ne_none (sym at ∙ old))
    | inr same ↦ step-some attached top i t p (same ∙ at) ∙ attached-entry
  ]

  pub attach-IsTree : IsTree attached top
  attach-IsTree q r b h k x y = elim (attach-table_at q h) [
    | inl (e, new, old) ↦ elim (attach-table_at r k) [
      | inl (d, new2, old2) ↦ e ∙ sym d
      | inr same ↦
          let b_new : b ≡ a = some_inj b a (sym x ∙ new) in
          absurd (fresh r k (sym same ∙ y ∙ ap some b_new))
    ]
    | inr same ↦ elim (attach-table_at r k) [
      | inl (d, new2, old2) ↦
          let b_new : b ≡ a = some_inj b a (sym y ∙ new2) in
          absurd (fresh q h (sym same ∙ x ∙ ap some b_new))
      | inr same2 ↦ tree q r b h k (sym same ∙ x) (sym same2 ∙ y)
    ]
  ]

  pub attach-entry_at :
      (q : List ℕ) (j : ℕ) → length q ≡ 3 → entry_at attached top q j ≡ entry_at f top q j
  attach-entry_at q j h = elim (attach-table_at q (omega arith)) [
    | inl (e, new, old) ↦
        ap (λ o. entry_of attached o j) new ∙ attached-new j ∙ sym (ap (λ o. entry_of f o j) old)
    | inr same ↦ elim (Option-cases (table_at f top q)) [
      | inl old ↦ ap (λ o. entry_of attached o j) (same ∙ old) ∙ sym (ap (λ o. entry_of f o j) old)
      | inr (u, old) ↦
          let apart : u ≢ a = λ e. fresh q (omega arith) (old ∙ ap some e) in
          let other : u ≢ t = λ e.
            path_ne q p (omega arith)
              (tree q p t (omega arith) (omega arith) (old ∙ ap some e) at) in
          ap (λ o. entry_of attached o j) (same ∙ old)
          ∙ attached-kept u j apart (inl other)
          ∙ sym (ap (λ o. entry_of f o j) old)
    ]
  ]
