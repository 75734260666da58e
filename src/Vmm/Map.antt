-- ===== src/Vmm/Map.antt =====
-- vmm_map_page, vmm_flag_page, vmm_unmap_page and vmm_virt2phys of kernel/mm/vmm.c as operations on one
-- function from pages to entries.
use Prim.Native.Nat.{bit_or}
use os_lyre.Base.{
  some_ne_none, ℕ, ◌%◌, ◌^◌, ◌<◌, ◌≡◌, ◌≢◌, ◌⊎◌, inl, inr, refl, ap, sym, ◌∙◌, arith, Bool, true,
  false, not, Option, none, some, [], ◌==◌, ◌&&◌, ==_iff, Bool-cases, if◌then◌else◌,
}
use os_lyre.Vmm.{
  PageSource, Machine, enomem, einval, is_present, pte_get_addr, upper_indices, pml1_index, descend,
  map_entry, vmm_map_page, change_entry, vmm_flag_page, vmm_unmap_page, vmm_virt2pte, phys_of,
  vmm_virt2phys,
}
use os_lyre.Vmm.Pte.{page_of, addr-or, addr_aligned, present-or, flags_present, is_present_lem}
use os_lyre.Vmm.Tree.{table_at, entry_of, entry_at, IsMap}
use os_lyre.Vmm.Descend.{IsReached, descend-IsReached, descend-table_at}
use os_lyre.Vmm.Entries.{same_page, leaf, pte, pte-same, stored-IsMap, stored-pte}

if_and-true {ℓ} :
    {A : Type ℓ} (a : Bool) {b : Bool} (x y : A)
    → b ≡ true
    → (if a && b then x else y) ≡ (if a then x else y)
if_and-true true x y e = rw e refl
if_and-true false x y e = refl

if_and-false {ℓ} :
    {A : Type ℓ} (a : Bool) {b : Bool} (x y : A) → b ≡ false → (if a && b then x else y) ≡ y
if_and-false true x y e = rw e refl
if_and-false false x y e = refl

if-not {ℓ} : {A : Type ℓ} (b : Bool) (x y : A) → (if not b then x else y) ≡ (if b then y else x)
if-not true x y = refl
if-not false x y = refl

==_self : (a : ℕ) → (a == a) ≡ true
==_self a = ground arith

abbrev pub phys_in : ℕ → Option ℕ
phys_in e = if is_present e then some (pte_get_addr e) else none

absent : (e : ℕ) → is_present e ≡ false → phys_in e ≡ none
absent e h = rw h refl

-- An entry that is set to zero where it is present.
unmapped : (e : ℕ) → phys_in (if is_present e then 0 else e) ≡ none
unmapped e = elim (Bool-cases (is_present e)) [
  | inl p ↦ rw p (absent 0 (is_present_lem 0))
  | inr p ↦ rw p (absent e p)
]

true_ne_false : true ≢ false
true_ne_false e = cc

module _ {S : Type 0} (src : PageSource S) (top : ℕ) where
  pte_page : (m : Machine S) (v w : ℕ) → page_of v ≡ page_of w → pte top m v ≡ pte top m w
  pte_page m v w e =
      let (path, index) = same_page v w e in
      ap (λ p. entry_at m.table top p (pml1_index v)) path
      ∙ ap (entry_at m.table top (leaf w)) index

  -- What mapping the page of `virt` to the entry `e` in the machine `m` makes.
  abbrev pub IsMapped : Machine S → ℕ → ℕ → Bool × Machine S → Type 0
  IsMapped m virt e r =
      IsMap src top r.1
      × (((r.0 ≡ true)
            × (is_present (pte top m virt) ≡ false)
            × ((v : ℕ) → pte top r.1 v ≡ (if page_of v == page_of virt then e else pte top m v)))
          ⊎ ((r.0 ≡ false)
              × (((is_present (pte top m virt) ≡ true) × (r.1.errno ≡ some einval))
                  ⊎ (r.1.errno ≡ some enomem))
              × ((v : ℕ) → pte top r.1 v ≡ pte top m v)))

  map_entry-IsMapped :
      (m : Machine S) (virt e : ℕ) (r : Option ℕ × Machine S)
      → IsReached src top m (leaf virt) r
      → IsMapped m virt e (map_entry (pml1_index virt) e r)
  unfolding map_entry
  map_entry-IsMapped m virt e (none, n) (h, same, found) = elim found [
    | inl (x, err) ↦ (h, inr (refl, inr err, pte-same src top m n same))
    | inr (u, x, at) ↦ absurd (some_ne_none (sym x))
  ]
  map_entry-IsMapped m virt e (some t, n) (h, same, found) = elim found [
    | inl (x, err) ↦ absurd (some_ne_none x)
    | inr (u, x, at) ↦
        let here : table_at n.table top (leaf virt) ≡ some t = at ∙ sym x in
        let old : n.table t (pml1_index virt) ≡ pte top m virt =
          sym (ap (λ o. entry_of n.table o (pml1_index virt)) here)
          ∙ pte-same src top m n same virt in
        elim (Bool-cases (is_present (n.table t (pml1_index virt)))) [
          | inl p ↦ rw p (
            record { ok = h.ok; tree = h.tree; used = h.used },
            inr (refl, inl (ap is_present (sym old) ∙ p, refl), pte-same src top m n same),
          )
          | inr p ↦ rw p (
            stored-IsMap src top n h virt t e here,
            inl (
              refl,
              ap is_present (sym old) ∙ p,
              λ v.
                  stored-pte src top n h virt t e here v
                  ∙ ap (λ x. if page_of v == page_of virt then e else x)
                      (pte-same src top m n same v),
            ),
          )
        ]
  ]

  pub vmm_map_page-IsMapped :
      (m : Machine S) (virt phys flags : ℕ)
      → IsMap src top m
      → IsMapped m virt (bit_or phys flags) (vmm_map_page src top virt phys flags m)
  unfolding vmm_map_page table_at
  vmm_map_page-IsMapped m virt phys flags h =
      map_entry-IsMapped m virt (bit_or phys flags) (descend src (upper_indices virt) top true m)
        (descend-IsReached src top (upper_indices virt) [] top m h (omega arith) refl)

  -- What changing the entry of `virt` makes, where it is present.
  abbrev pub IsChanged : Machine S → ℕ → (ℕ → ℕ) → Bool × Machine S → Type 0
  IsChanged m virt change r =
      IsMap src top r.1
      × (r.0 ≡ is_present (pte top m virt))
      × ((v : ℕ)
          → pte top r.1 v ≡ (
              if (page_of v == page_of virt) && is_present (pte top m virt)
              then change (pte top m virt)
              else pte top m v))

  change_entry-IsChanged :
      (m : Machine S) (virt : ℕ) (change : ℕ → ℕ) (o : Option ℕ)
      → IsMap src top m
      → table_at m.table top (leaf virt) ≡ o
      → IsChanged m virt change (change_entry (pml1_index virt) change (o, m))
  unfolding change_entry is_present
  change_entry-IsChanged m virt change none h at =
      let zero_entry : pte top m virt ≡ 0 = ap (λ o. entry_of m.table o (pml1_index virt)) at in
      let absent : is_present (pte top m virt) ≡ false = ap is_present zero_entry in
      (h, sym absent, λ v. sym (if_and-false (page_of v == page_of virt) _ _ absent))
  change_entry-IsChanged m virt change (some t) h at =
      let old : pte top m virt ≡ m.table t (pml1_index virt) =
        ap (λ o. entry_of m.table o (pml1_index virt)) at in
      elim (Bool-cases (is_present (m.table t (pml1_index virt)))) [
        | inl p ↦
            let present : is_present (pte top m virt) ≡ true = ap is_present old ∙ p in
            rw p (
              stored-IsMap src top m h virt t (change (m.table t (pml1_index virt))) at,
              sym present,
              λ v.
                  stored-pte src top m h virt t (change (m.table t (pml1_index virt))) at v
                  ∙ ap (λ x. if page_of v == page_of virt then change x else pte top m v) (sym old)
                  ∙ sym (if_and-true (page_of v == page_of virt) _ _ present),
            )
        | inr p ↦
            let absent : is_present (pte top m virt) ≡ false = ap is_present old ∙ p in
            rw p (
              record { ok = h.ok; tree = h.tree; used = h.used },
              sym absent,
              λ v. sym (if_and-false (page_of v == page_of virt) _ _ absent),
            )
      ]

  change-IsChanged :
      (m : Machine S) (virt : ℕ) (change : ℕ → ℕ)
      → IsMap src top m
      → IsChanged m virt change
          (change_entry (pml1_index virt) change (descend src (upper_indices virt) top false m))
  unfolding table_at
  change-IsChanged m virt change h =
      rw (descend-table_at src top (upper_indices virt) [] top m refl)
        (change_entry-IsChanged m virt change (table_at m.table top (leaf virt)) h refl)

  -- Changing the flags of a page succeeds exactly if it is present, keeps its address and every other
  -- entry; where it is not present no entry changes.
  pub vmm_flag_page-IsChanged :
      (m : Machine S) (virt flags : ℕ)
      → IsMap src top m
      → IsChanged m virt (λ e. bit_or (pte_get_addr e) flags) (vmm_flag_page src top virt flags m)
  unfolding vmm_flag_page
  vmm_flag_page-IsChanged m virt flags h =
      change-IsChanged m virt (λ e. bit_or (pte_get_addr e) flags) h

  -- Unmapping a page succeeds exactly if it is present, sets its entry to zero and keeps every other
  -- entry; where it is not present no entry changes.
  pub vmm_unmap_page-IsChanged :
      (m : Machine S) (virt : ℕ)
      → IsMap src top m
      → IsChanged m virt (λ e. 0) (vmm_unmap_page src top virt m)
  unfolding vmm_unmap_page
  vmm_unmap_page-IsChanged m virt h = change-IsChanged m virt (λ e. 0) h

  phys_of_table :
      (m : Machine S) (i : ℕ) (o : Option ℕ)
      → phys_of (elim o [ none ↦ none | some t ↦ some (t, i) ]) m ≡ phys_in (entry_of m.table o i)
  unfolding phys_of is_present
  phys_of_table m i none = refl
  phys_of_table m i (some t) =
      ap (λ b. if b then none else some (pte_get_addr (m.table t i))) (flags_present (m.table t i))
      ∙ if-not (is_present (m.table t i)) _ _

  pub vmm_virt2phys_lem :
      (m : Machine S) (virt : ℕ) → vmm_virt2phys src top virt m ≡ phys_in (pte top m virt)
  unfolding vmm_virt2phys vmm_virt2pte table_at
  vmm_virt2phys_lem m virt =
      ap
        (λ (r : Option ℕ × Machine S).
          phys_of
            (elim r.0 as (λ o. Option (ℕ × ℕ)) [ none ↦ none | some t ↦ some (t, pml1_index virt) ])
            r.1)
        (descend-table_at src top (upper_indices virt) [] top m refl)
      ∙ phys_of_table m (pml1_index virt) (table_at m.table top (leaf virt))

  -- After a page is mapped to a page of physical memory, with flags that have the present bit and no
  -- bit of an address, its address translates to that page, and the addresses of the other pages to what
  -- they did.
  pub vmm_virt2phys-vmm_map_page :
      (m : Machine S) (virt phys flags : ℕ)
      → IsMap src top m
      → phys % 4096 ≡ 0
      → phys < 2 ^ 52
      → flags % 2 ≡ 1
      → pte_get_addr flags ≡ 0
      → (vmm_map_page src top virt phys flags m).0 ≡ true
      → (v : ℕ)
      → vmm_virt2phys src top v (vmm_map_page src top virt phys flags m).1
        ≡ (if page_of v == page_of virt then some phys else vmm_virt2phys src top v m)
  vmm_virt2phys-vmm_map_page m virt phys flags h aligned small on clear ok v =
      let after = (vmm_map_page src top virt phys flags m).1 in
      let here : phys_in (bit_or phys flags) ≡ some phys =
        rw (present-or phys flags on)
          (ap some (addr-or phys flags clear ∙ addr_aligned phys aligned small)) in
      elim (vmm_map_page-IsMapped m virt phys flags h).1 [
        | inr (failed, why, same) ↦ absurd (true_ne_false (sym ok ∙ failed))
        | inl (done, old, new) ↦
            vmm_virt2phys_lem after v
            ∙ ap phys_in (new v)
            ∙ elim (Bool-cases (page_of v == page_of virt)) [
              | inl e ↦ rw e here
              | inr e ↦ rw e (sym (vmm_virt2phys_lem m v))
            ]
      ]

  -- Unmapping a page that was just mapped restores what every address translates to.
  pub vmm_unmap_page-vmm_map_page :
      (m : Machine S) (virt phys flags : ℕ)
      → IsMap src top m
      → (vmm_map_page src top virt phys flags m).0 ≡ true
      → (v : ℕ)
      → vmm_virt2phys src top v
          (vmm_unmap_page src top virt (vmm_map_page src top virt phys flags m).1).1
        ≡ vmm_virt2phys src top v m
  vmm_unmap_page-vmm_map_page m virt phys flags h ok v =
      let mapped = vmm_map_page src top virt phys flags m in
      let (map, outcome) = vmm_map_page-IsMapped m virt phys flags h in
      let (map2, done2, gone) = vmm_unmap_page-IsChanged mapped.1 virt map in
      elim outcome [
        | inr (failed, why, same) ↦ absurd (true_ne_false (sym ok ∙ failed))
        | inl (done, old, new) ↦
            vmm_virt2phys_lem (vmm_unmap_page src top virt mapped.1).1 v
            ∙ elim (Bool-cases (page_of v == page_of virt)) [
              | inr e ↦ ap phys_in (gone v ∙ rw e (new v ∙ rw e refl))
              | inl e ↦
                  let here : pte top mapped.1 virt ≡ bit_or phys flags =
                    new virt ∙ rw (==_self (page_of virt)) refl in
                  let now = gone v ∙ rw (e, here, new v, e) refl in
                  let before : pte top m v ≡ pte top m virt =
                    pte_page m v virt ((==_iff (page_of v) (page_of virt)).0 e) in
                  ap phys_in now
                  ∙ unmapped (bit_or phys flags)
                  ∙ sym (absent (pte top m v) (ap is_present before ∙ old))
            ]
            ∙ sym (vmm_virt2phys_lem m v)
      ]
