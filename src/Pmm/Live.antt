-- ===== src/Pmm/Live.antt =====
-- Runs of the allocator of kernel/mm/pmm.c: any sequence of allocations, failed ones too, and of
-- releases of what is allocated.
use os_lyre.Base.{
  ℕ, ◌+◌, ◌*◌, ◌≤◌, ◌<◌, ◌≡◌, refl, ap, ◌∙◌, arith, true, false, ◌⊎◌, inl, inr, none, some, List,
  [], ◌∷◌, All, leb, Bool-cases,
}
use os_lyre.Bitmap.{bitmap_test}
use os_lyre.Pmm.{Pmm, pmm_alloc_nozero, pmm_free}
use os_lyre.Pmm.Search.{inside}
use os_lyre.Pmm.Alloc.{
  IsFull, IsNullRun, IsValid, IsAllocated, pmm_alloc_nozero-IsAllocated, pmm_alloc_nozero-none,
}
use os_lyre.Pmm.Free.{pmm_free-clears}

-- a first page and a number of pages that somebody holds
pub record Region : Type 0 where
  pub page : ℕ
  pub pages : ℕ

-- The second list is the first without one occurrence of the region.
pub data Removed (r : Region) : List Region → List Region → Type 0 where
  here : {rs : List Region} → Removed r (r ∷ rs) rs
  there : {q : Region} {rs rs' : List Region} → Removed r rs rs' → Removed r (q ∷ rs) (q ∷ rs')

pub data Step (s : Pmm) (held : List Region) : Pmm → List Region → Type 0 where
  alloc :
      {s' : Pmm} (r : Region)
      → pmm_alloc_nozero r.pages s ≡ (some (r.page * 4096), s')
      → Step s held s' (r ∷ held)
  failed : {s' : Pmm} (n : ℕ) → 0 < n → pmm_alloc_nozero n s ≡ (none, s') → Step s held s' held
  free :
      {held' : List Region} (r : Region)
      → Removed r held held'
      → Step s held (pmm_free (r.page * 4096) r.pages s) held'

pub data Run (s : Pmm) (held : List Region) : Pmm → List Region → Type 0 where
  start : Run s held s held
  next :
      {t u : Pmm} {held' held'' : List Region}
      → Run s held t held'
      → Step t held' u held''
      → Run s held u held''

abbrev pub Apart : Region → Region → Type 0
Apart r q = (r.page + r.pages ≤ q.page) ⊎ (q.page + q.pages ≤ r.page)

abbrev pub AllApart : List Region → Type 0
AllApart [] = Unit
AllApart (r ∷ rs) = All (Apart r) rs × AllApart rs

-- A held region is not empty, lies below the highest page, and its pages are in use.
pub record IsHeld (s : Pmm) (r : Region) : Type 0 where
  pub nonempty : 0 < r.pages
  pub in_range : r.page + r.pages ≤ s.highest_page_index
  pub used : (i : ℕ) → inside r.page r.pages i ≡ true → bitmap_test s.bitmap i ≡ true

pub record IsSafe (s : Pmm) (held : List Region) : Type 0 where
  pub valid : IsValid s
  pub held_used : All (IsHeld s) held
  pub apart : AllApart held

All-map :
    {P Q : Region → Type 0} (f : (r : Region) → P r → Q r) (rs : List Region) → All P rs → All Q rs
All-map f [] a = tt
All-map f (r ∷ rs) a = (f r a.0, All-map f rs a.1)

All-Removed :
    {r : Region} {rs rs' : List Region} (P : Region → Type 0)
    → Removed r rs rs'
    → All P rs
    → P r × All P rs'
All-Removed P here a = (a.0, a.1)
All-Removed P (there m) a = let t = All-Removed P m a.1 in (t.0, (a.0, t.1))

Apart-sym : (r q : Region) → Apart r q → Apart q r
Apart-sym r q (inl h) = inr h
Apart-sym r q (inr h) = inl h

AllApart-Removed :
    {r : Region} {rs rs' : List Region}
    → Removed r rs rs'
    → AllApart rs
    → All (Apart r) rs' × AllApart rs'
AllApart-Removed here a = (a.0, a.1)
AllApart-Removed {r} (there {q} m) a =
    let t = AllApart-Removed m a.1 in
    let p = All-Removed (Apart q) m a.0 in ((Apart-sym q r p.0, t.0), (p.1, t.1))

-- A free run and a held region do not meet.
fresh-Apart :
    (s : Pmm) (r q : Region)
    → 0 < r.pages
    → ((i : ℕ) → r.page ≤ i → i < r.page + r.pages → bitmap_test s.bitmap i ≡ false)
    → IsHeld s q
    → Apart r q
fresh-Apart s r q p run h = elim (Bool-cases (leb (r.page + r.pages) q.page)) [
  | inl e ↦ inl (ground arith)
  | inr e ↦ elim (Bool-cases (leb (q.page + q.pages) r.page)) [
    | inl e' ↦ inr (ground arith)
    | inr e' ↦ elim (Bool-cases (leb r.page q.page)) [
      | inl low ↦ ground (arith, h.nonempty, run q.page, h.used q.page)
      | inr high ↦ ground (arith, run r.page, h.used r.page)
    ]
  ]
]

-- A change of state that keeps the used bits of a region, and the range.
IsHeld-keep :
    (s t : Pmm)
    → t.highest_page_index ≡ s.highest_page_index
    → (r : Region)
    → ((i : ℕ)
        → inside r.page r.pages i ≡ true
        → bitmap_test s.bitmap i ≡ true
        → bitmap_test t.bitmap i ≡ true)
    → IsHeld s r
    → IsHeld t r
IsHeld-keep s t e r keep h = record {
  nonempty = h.nonempty;
  in_range = omega (arith, h.in_range);
  used = λ i k. keep i k (h.used i k);
}

alloc-IsSafe :
    (s s' : Pmm) (held : List Region) (r : Region)
    → IsSafe s held
    → pmm_alloc_nozero r.pages s ≡ (some (r.page * 4096), s')
    → IsSafe s' (r ∷ held)
alloc-IsSafe s s' held r safe e = record {
  valid = a.valid;
  held_used = (
    record {
      nonempty = a.nonempty;
      in_range = omega (arith, a.in_range, a.limit, page_eq);
      used = λ i k. ground (arith, a.marked i, page_eq);
    },
    All-map (λ q h. IsHeld-keep s s' a.limit q (λ i k u. ground (arith, a.marked i)) h) held
        safe.held_used,
  );
  apart = (
    All-map
        (λ q h.
          fresh-Apart s r q a.nonempty
            (λ i lo hi. a.free i (omega (arith, page_eq)) (omega (arith, page_eq))) h)
        held safe.held_used,
    safe.apart,
  );
}
  where
    a : IsAllocated s r.pages (r.page * 4096) s'
    a = pmm_alloc_nozero-IsAllocated r.pages s safe.valid e

    page_eq : a.page ≡ r.page
    page_eq = omega (arith, a.address)

failed-IsSafe :
    (s s' : Pmm) (held : List Region) (n : ℕ)
    → IsSafe s held
    → 0 < n
    → pmm_alloc_nozero n s ≡ (none, s')
    → IsSafe s' held
failed-IsSafe s s' held n safe p e =
    let (counted, limit, valid, outcome) = pmm_alloc_nozero-none n s safe.valid p e in
    record {
      valid = valid;
      held_used =
          All-map (λ q h. IsHeld-keep s s' limit q (λ i k u. kept i u outcome) h) held
            safe.held_used;
      apart = safe.apart;
    }
  where
    kept :
        (i : ℕ)
        → bitmap_test s.bitmap i ≡ true
        → IsFull n s s' ⊎ IsNullRun n s s'
        → bitmap_test s'.bitmap i ≡ true
    kept i u (inl full) = ap (λ b. bitmap_test b i) full.0 ∙ u
    kept i u (inr null) = ground (arith, null.2 i, u)

Apart-keeps :
    (r q : Region) (i : ℕ)
    → Apart r q
    → inside q.page q.pages i ≡ true
    → inside r.page r.pages i ≡ false
Apart-keeps r q i a h = ground arith

All-pair :
    {P Q R : Region → Type 0} (f : (r : Region) → P r → Q r → R r) (rs : List Region)
    → All P rs
    → All Q rs
    → All R rs
All-pair f [] a b = tt
All-pair f (r ∷ rs) a b = (f r a.0 b.0, All-pair f rs a.1 b.1)

pmm_free_limit :
    (r : Region) (s : Pmm)
    → (pmm_free (r.page * 4096) r.pages s).highest_page_index ≡ s.highest_page_index
unfolding pmm_free
pmm_free_limit r s = refl

free-IsSafe :
    (s : Pmm) (held held' : List Region) (r : Region)
    → IsSafe s held
    → Removed r held held'
    → IsSafe (pmm_free (r.page * 4096) r.pages s) held'
free-IsSafe s held held' r safe m =
    let h = All-Removed (IsHeld s) m safe.held_used in
    let d = AllApart-Removed m safe.apart in
    let c = pmm_free-clears r.page r.pages s safe.valid h.0.in_range in
    record {
      valid = c.0;
      held_used =
          All-pair
            (λ q ap_ hq.
              IsHeld-keep s _ (pmm_free_limit r s) q
                (λ i k u. ground (arith, c.2 i, Apart-keeps r q i ap_ k)) hq)
            held' d.0 h.1;
      apart = d.1;
    }

Step-IsSafe :
    {s t : Pmm} {held held' : List Region} → Step s held t held' → IsSafe s held → IsSafe t held'
Step-IsSafe {s} {t} {held} (alloc r e) safe = alloc-IsSafe s t held r safe e
Step-IsSafe {s} {t} {held} (failed n p e) safe = failed-IsSafe s t held n safe p e
Step-IsSafe {s} {t} {held} {held'} (free r m) safe = free-IsSafe s held held' r safe m

-- From a state that is valid, in which the held regions are in use and apart, any sequence of allocations and releases of what is
-- held leaves the state valid, the pages of every held region in use and below the highest page, and
-- no two held regions with a page in common.
pub Run-IsSafe :
    {s : Pmm} {held : List Region} {t : Pmm} {held' : List Region}
    → Run s held t held'
    → IsSafe s held
    → IsSafe t held'
Run-IsSafe start safe = safe
Run-IsSafe (next r st) safe = Step-IsSafe st (Run-IsSafe r safe)
