-- ===== src/Vmm/Source.antt =====
-- The page allocator of kernel/mm/pmm.c as the source of pages of kernel/mm/vmm.c, on a machine with at most
-- 2^52 bytes of physical addresses.
use os_lyre.Base.{
  ℕ, ◌/◌, ◌%◌, ◌^◌, ◌≤◌, ◌<◌, ◌≡◌, ◌⊎◌, inl, inr, ap, ◌∙◌, arith, Bool, true, false, ◌||◌, none,
  some, Option-cases,
}
use os_lyre.Bitmap.{bitmap_test}
use os_lyre.Pmm.{Pmm, pmm_alloc_nozero}
use os_lyre.Pmm.Search.{inside}
use os_lyre.Pmm.Alloc.{
  IsFull, IsNullRun, IsValid, IsAllocated, pmm_alloc_nozero-IsAllocated, pmm_alloc_nozero-none,
}
use os_lyre.Vmm.{PageSource}

abbrev pub page_used : Pmm → ℕ → Bool
page_used s a = bitmap_test s.bitmap (a / 4096)

abbrev pub IsReady : Pmm → Type 0
IsReady s = IsValid s × (s.highest_page_index ≤ 2 ^ 40)

or-true : (b : Bool) → (b || true) ≡ true
or-true b = ground arith

module _ (s : Pmm) (h : IsReady s) where
  -- The two outcomes of an allocation of one page.
  one_page :
      ((pmm_alloc_nozero 1 s).0 ≡ none)
        × IsReady (pmm_alloc_nozero 1 s).1
        × ((b : ℕ) → page_used s b ≡ true → page_used (pmm_alloc_nozero 1 s).1 b ≡ true)
      ⊎ ((a : ℕ) × ((pmm_alloc_nozero 1 s).0 ≡ some a) × IsAllocated s 1 a (pmm_alloc_nozero 1 s).1)
  one_page = elim (Option-cases (pmm_alloc_nozero 1 s).0) [
    | inl e ↦
        let (count, limit, valid, outcome) =
          pmm_alloc_nozero-none 1 s h.0 (omega arith) (ap (λ o. (o, (pmm_alloc_nozero 1 s).1)) e) in
        inl (e, (valid, omega (arith, limit, h.1)), λ b u. kept (b / 4096) u outcome)
    | inr (a, e) ↦
        inr (a, e, pmm_alloc_nozero-IsAllocated 1 s h.0 (ap (λ o. (o, (pmm_alloc_nozero 1 s).1)) e))
  ]
    where
      kept :
          (i : ℕ)
          → bitmap_test s.bitmap i ≡ true
          → IsFull 1 s (pmm_alloc_nozero 1 s).1 ⊎ IsNullRun 1 s (pmm_alloc_nozero 1 s).1
          → bitmap_test (pmm_alloc_nozero 1 s).1.bitmap i ≡ true
      kept i u (inl full) = ap (λ m. bitmap_test m i) full.0 ∙ u
      kept i u (inr null) = ground (arith, null.2 i, u)

  taken : (a : ℕ) → (pmm_alloc_nozero 1 s).0 ≡ some a → IsAllocated s 1 a (pmm_alloc_nozero 1 s).1
  taken a e = pmm_alloc_nozero-IsAllocated 1 s h.0 (ap (λ o. (o, (pmm_alloc_nozero 1 s).1)) e)

  pub one_page-IsReady : IsReady (pmm_alloc_nozero 1 s).1
  one_page-IsReady = elim one_page [
    | inl w ↦ w.1
    | inr (a, e, r) ↦ (r.valid, omega (arith, r.limit, h.1))
  ]

  pub one_page-fresh : (a : ℕ) → (pmm_alloc_nozero 1 s).0 ≡ some a → page_used s a ≡ false
  one_page-fresh a e =
      let r = taken a e in
      let place : a / 4096 ≡ r.page = omega (arith, r.address) in
      ap (bitmap_test s.bitmap) place ∙ r.free r.page (omega arith) (omega arith)

  pub one_page-used :
      (a : ℕ) → (pmm_alloc_nozero 1 s).0 ≡ some a → page_used (pmm_alloc_nozero 1 s).1 a ≡ true
  one_page-used a e =
      let r = taken a e in
      let place : a / 4096 ≡ r.page = omega (arith, r.address) in
      ap (bitmap_test (pmm_alloc_nozero 1 s).1.bitmap) place ∙ r.marked r.page ∙ ground arith

  pub one_page-keeps : (b : ℕ) → page_used s b ≡ true → page_used (pmm_alloc_nozero 1 s).1 b ≡ true
  one_page-keeps b u = elim one_page [
    | inl w ↦ w.2 b u
    | inr (a, e, r) ↦ r.marked (b / 4096) ∙ rw u (or-true (inside r.page 1 (b / 4096)))
  ]

  pub one_page-aligned : (a : ℕ) → (pmm_alloc_nozero 1 s).0 ≡ some a → (a % 4096 ≡ 0) × (a < 2 ^ 52)
  one_page-aligned a e = let r = taken a e in omega (arith, r.address, r.in_range, h.1)

-- The page allocator keeps the laws that the page tables rely on: what it gives is aligned, small enough
-- for an entry and was not in use, and what was in use stays so.
abbrev pub pmm_source : PageSource Pmm
pmm_source = record {
  alloc_page = pmm_alloc_nozero 1;
  is_used = page_used;
  IsOk = IsReady;
  alloc-IsOk = one_page-IsReady;
  alloc-fresh = λ s a h. one_page-fresh s h a;
  alloc-used = λ s a h. one_page-used s h a;
  alloc-keeps = λ s b h. one_page-keeps s h b;
  alloc-aligned = λ s a h. one_page-aligned s h a;
}
