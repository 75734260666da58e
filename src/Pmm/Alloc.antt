-- ===== src/Pmm/Alloc.antt =====
-- `pmm_alloc_nozero` of kernel/mm/pmm.c: what an allocation returns, and when it fails.
use os_lyre.Base.{
  ℕ, ◌+◌, ◌-◌, ◌*◌, ◌^◌, ◌≤◌, ◌<◌, ◌≡◌, refl, ap, ◌∙◌, sym, arith, ◌||◌, ◌⊎◌, inl, inr, Option,
  none, some, length, true, false,
}
use mathlib.Core.Path.{subst, subst₂}
use mathlib.Core.Option.{some-injective}
use os_lyre.Base.Words.{add64}
use os_lyre.Bitmap.{bitmap_test}
use os_lyre.Bitmap.Laws.{IsBytes}
use os_lyre.Pmm.{
  Pmm, mark_pages, inner_loop, inner_alloc, second_pass, count_used, pmm_alloc_nozero,
}
use os_lyre.Pmm.Search.{
  FreeRun, inside, IsFound, IsNull, inner_loop-some, inner_loop-none, mark_pages_lem,
  mark_pages-IsBytes, length-mark_pages,
}

true_ne_false : true ≡ false → ⊥
true_ne_false e = cc

-- The bitmap holds a bit for every page, and addresses fit in 64 bits.
pub record IsValid (s : Pmm) : Type 0 where
  pub bytes : IsBytes s.bitmap
  pub covers : s.highest_page_index ≤ 8 * length s.bitmap
  pub index : s.last_used_index ≤ s.highest_page_index
  pub small : s.highest_page_index ≤ 2 ^ 52

-- What `addr` stands for after an allocation of `pages` pages that took `s` to `s'`.
pub record IsAllocated (s : Pmm) (pages addr : ℕ) (s' : Pmm) : Type 0 where
  pub page : ℕ
  pub nonempty : 0 < pages
  pub address : addr ≡ page * 4096
  pub in_range : page + pages ≤ s.highest_page_index
  pub free : FreeRun s.bitmap page pages
  pub marked : (i : ℕ) → bitmap_test s'.bitmap i ≡ (inside page pages i || bitmap_test s.bitmap i)
  pub counted : s'.used_pages ≡ add64 s.used_pages pages
  pub limit : s'.highest_page_index ≡ s.highest_page_index
  pub valid : IsValid s'

-- The state that a search from `t` has left, with the pages counted.
abbrev counted_state : Pmm → ℕ → Pmm
counted_state s pages = record s { used_pages = add64 s.used_pages pages }

-- A search from any index of the same state allocates.
IsFound-IsAllocated :
    (s : Pmm) (start pages low high : ℕ) {addr : ℕ} {t : Pmm}
    → IsValid s
    → high ≤ s.highest_page_index
    → IsFound (record s { last_used_index = start }) pages low high addr t
    → IsAllocated s pages addr (counted_state t pages)
IsFound-IsAllocated s start pages low high {addr} {t} v hi f = record {
  page = f.page;
  nonempty = f.nonempty;
  address = omega (arith, f.address, f.nonempty);
  in_range = omega arith;
  free = f.free;
  marked = λ i.
      ap (λ (t : Pmm). bitmap_test t.bitmap i) f.state
      ∙ mark_pages_lem s.bitmap f.page pages v.bytes (omega arith) i;
  counted = ap (λ (t : Pmm). add64 t.used_pages pages) f.state;
  limit = ap (λ (t : Pmm). t.highest_page_index) f.state;
  valid = rw f.state (record {
    bytes = mark_pages-IsBytes s.bitmap f.page pages v.bytes;
    covers = omega (arith, length-mark_pages s.bitmap f.page pages);
    index = omega arith;
    small = v.small;
  });
}

-- A search of at most the pages up to `limit` that succeeds.
inner_alloc-some :
    (pages limit : ℕ) (s : Pmm) {addr : ℕ} {t : Pmm}
    → s.last_used_index ≤ limit
    → inner_alloc pages limit s ≡ (some addr, t)
    → IsFound s pages s.last_used_index limit addr t
unfolding inner_alloc
inner_alloc-some pages limit s h e = widen (
    inner_loop-some (limit - s.last_used_index) pages 0 s (omega arith)
      (λ i lo hi. absurd (omega arith)) e)
  where
    widen :
        {addr : ℕ} {t : Pmm}
        → IsFound s pages
            (s.last_used_index - 0)
            (s.last_used_index + (limit - s.last_used_index))
            addr
            t
        → IsFound s pages s.last_used_index limit addr t
    widen f = record {
      page = f.page;
      nonempty = f.nonempty;
      address = f.address;
      above = omega arith;
      below = omega arith;
      free = f.free;
      state = f.state;
    }

-- What a search up to `limit` that found no run has done.
abbrev IsSearched : ℕ → ℕ → Pmm → Pmm → Type 0
IsSearched pages limit s t =
    (t ≡ record s { last_used_index = limit })
    × ((q : ℕ) → s.last_used_index ≤ q → q + pages ≤ limit → ¬ FreeRun s.bitmap q pages)

inner_alloc-none :
    (pages limit : ℕ) (s : Pmm) {t : Pmm}
    → s.last_used_index ≤ limit
    → limit ≤ 2 ^ 52
    → 0 < pages
    → inner_alloc pages limit s ≡ (none, t)
    → IsSearched pages limit s t ⊎ ((s.last_used_index ≡ 0) × IsNull s pages limit t)
unfolding inner_alloc
inner_alloc-none pages limit s {t} h small p e =
    let end : s.last_used_index + (limit - s.last_used_index) ≡ limit = omega arith in
    elim (inner_loop-none (limit - s.last_used_index) pages 0 s p (omega arith) (omega arith)
      (λ i lo hi. absurd (omega arith)) e) [
        | inl r ↦ inl (rw end at r.0, λ q lo hi run. r.1 q (omega arith) (omega arith) run)
        | inr (at, null) ↦ inr (
          omega (arith, at),
          record { below = omega (arith, null.below); free = null.free; state = null.state },
        )
      ]

-- A search up to page 0 does nothing.
inner_alloc_zero : (pages : ℕ) (s : Pmm) → s.last_used_index ≡ 0 → inner_alloc pages 0 s ≡ (none, s)
unfolding inner_alloc inner_loop
inner_alloc_zero pages s e =
    let rounds : 0 - s.last_used_index ≡ 0 = omega arith in ap (λ n. inner_loop n pages 0 s) rounds

-- The result of `pmm_alloc_nozero`, by the result of the first search, and then of the second.
abbrev after_second : ℕ → Option ℕ × Pmm → Option ℕ × Pmm
after_second pages (ret, t) = (ret, counted_state t pages)

abbrev restarted : Pmm → Pmm
restarted s = record s { last_used_index = 0 }

data Outcome (pages : ℕ) (s : Pmm) (ret : Option ℕ) (s' : Pmm) : Type 0 where
  first :
      (addr : ℕ) (t : Pmm)
      → inner_alloc pages s.highest_page_index s ≡ (some addr, t)
      → ret ≡ some addr
      → s' ≡ counted_state t pages
      → Outcome pages s ret s'
  second :
      (t u : Pmm)
      → inner_alloc pages s.highest_page_index s ≡ (none, t)
      → inner_alloc pages s.last_used_index (restarted t) ≡ (ret, u)
      → s' ≡ counted_state u pages
      → Outcome pages s ret s'

outcome :
    (pages : ℕ) (s : Pmm) {ret : Option ℕ} {s' : Pmm}
    → pmm_alloc_nozero pages s ≡ (ret, s')
    → Outcome pages s ret s'
unfolding pmm_alloc_nozero
outcome pages s {ret} {s'} e = go (inner_alloc pages s.highest_page_index s) refl e
  where
    go :
        (r : Option ℕ × Pmm)
        → inner_alloc pages s.highest_page_index s ≡ r
        → count_used pages (second_pass pages s.last_used_index r) ≡ (ret, s')
        → Outcome pages s ret s'
    go (some addr, t) i h =
        first addr t i (sym (ap (λ (r : Option ℕ × Pmm). r.0) h))
          (sym (ap (λ (r : Option ℕ × Pmm). r.1) h))
    go (none, t) i h =
        second t (inner_alloc pages s.last_used_index (restarted t)).1 i
          (ap (λ r. (r, (inner_alloc pages s.last_used_index (restarted t)).1))
            (ap (λ (r : Option ℕ × Pmm). r.0) h))
          (sym (ap (λ (r : Option ℕ × Pmm). r.1) h))

-- What the two searches did where the first gave NULL.
data Searched (pages : ℕ) (s : Pmm) (ret : Option ℕ) (u : Pmm) : Type 0 where
  no_run :
      ((q : ℕ)
        → s.last_used_index ≤ q
        → q + pages ≤ s.highest_page_index
        → ¬ FreeRun s.bitmap q pages)
      → inner_alloc pages s.last_used_index (restarted s) ≡ (ret, u)
      → Searched pages s ret u
  at_zero :
      {t : Pmm}
      → s.last_used_index ≡ 0
      → IsNull s pages s.highest_page_index t
      → ret ≡ none
      → u ≡ restarted t
      → Searched pages s ret u

second_search :
    (pages : ℕ) (s : Pmm) {ret : Option ℕ} {t u : Pmm}
    → IsValid s
    → 0 < pages
    → inner_alloc pages s.highest_page_index s ≡ (none, t)
    → inner_alloc pages s.last_used_index (restarted t) ≡ (ret, u)
    → Searched pages s ret u
second_search pages s {ret} {t} {u} v p i k =
    elim (inner_alloc-none pages s.highest_page_index s v.index v.small p i) [
      | inl low ↦
          no_run low.1 (ap (λ x. inner_alloc pages s.last_used_index (restarted x)) (sym low.0) ∙ k)
      | inr (zero_index, null) ↦
          let nothing : inner_alloc pages s.last_used_index (restarted t) ≡ (none, restarted t) =
            ap (λ n. inner_alloc pages n (restarted t)) zero_index
            ∙ inner_alloc_zero pages (restarted t) refl in
          at_zero zero_index null (sym (ap (λ r. r.0) (sym nothing ∙ k)))
            (sym (ap (λ r. r.1) (sym nothing ∙ k)))
    ]

inner_alloc-positive :
    (pages limit : ℕ) (s : Pmm) {addr : ℕ} {t : Pmm}
    → s.last_used_index ≤ limit
    → inner_alloc pages limit s ≡ (some addr, t)
    → 0 < pages
inner_alloc-positive pages limit s h e = (inner_alloc-some pages limit s h e).nonempty

-- If the bitmap is valid and the call returns an address, it is that of a run of free pages below the
-- highest page; these and no others become used, `used_pages` grows by their number, and the state
-- stays valid.
pub pmm_alloc_nozero-IsAllocated :
    (pages : ℕ) (s : Pmm) {addr : ℕ} {s' : Pmm}
    → IsValid s
    → pmm_alloc_nozero pages s ≡ (some addr, s')
    → IsAllocated s pages addr s'
pmm_alloc_nozero-IsAllocated pages s {addr} {s'} v e = go (outcome pages s e)
  where
    searched :
        (u : Pmm)
        → s' ≡ counted_state u pages
        → Searched pages s (some addr) u
        → IsAllocated s pages addr s'
    searched u es (no_run low k) = rw es (
        IsFound-IsAllocated s 0 pages 0 s.last_used_index v v.index
          (inner_alloc-some pages s.last_used_index (restarted s) (omega arith) k))
    searched u es (at_zero z null none_there eu) = absurd (cc)

    go : Outcome pages s (some addr) s' → IsAllocated s pages addr s'
    go (first a t i ea es) = subst₂ (IsAllocated s pages) (sym (some-injective _ _ ea)) (sym es) (
        IsFound-IsAllocated s s.last_used_index pages s.last_used_index s.highest_page_index v
          (omega arith) (inner_alloc-some pages s.highest_page_index s v.index i))
    go (second t u i k es) = searched u es (
        second_search pages s v
          (inner_alloc-positive pages s.last_used_index (restarted t) (omega arith) k) i k)

-- A call that returns NULL and found no run.
abbrev pub IsFull : ℕ → Pmm → Pmm → Type 0
IsFull pages s s' =
    (s'.bitmap ≡ s.bitmap)
    × ((q : ℕ)
        → ((s.last_used_index ≤ q) × (q + pages ≤ s.highest_page_index))
          ⊎ (q + pages ≤ s.last_used_index)
        → ¬ FreeRun s.bitmap q pages)

-- A call that returns NULL because the run that it found is at page 0.
abbrev pub IsNullRun : ℕ → Pmm → Pmm → Type 0
IsNullRun pages s s' =
    (pages ≤ s.highest_page_index)
    × FreeRun s.bitmap 0 pages
    × ((i : ℕ) → bitmap_test s'.bitmap i ≡ (inside 0 pages i || bitmap_test s.bitmap i))

full_state :
    (s : Pmm) (pages index : ℕ)
    → IsValid s
    → index ≤ s.highest_page_index
    → IsValid (counted_state (record s { last_used_index = index }) pages)
full_state s pages index v h = record {
  bytes = v.bytes;
  covers = v.covers;
  index = h;
  small = v.small;
}

abbrev marked_state : Pmm → ℕ → ℕ → Pmm
marked_state s pages index =
    counted_state (record s { bitmap = mark_pages s.bitmap 0 pages; last_used_index = index }) pages

null_lem :
    (s s' : Pmm) (pages index : ℕ)
    → IsValid s
    → index ≤ s.highest_page_index
    → pages ≤ s.highest_page_index
    → FreeRun s.bitmap 0 pages
    → s' ≡ marked_state s pages index
    → (s'.used_pages ≡ add64 s.used_pages pages)
      × (s'.highest_page_index ≡ s.highest_page_index)
      × IsValid s'
      × (IsFull pages s s' ⊎ IsNullRun pages s s')
null_lem s s' pages index v low below free state = (
  ap (λ (t : Pmm). t.used_pages) state,
  ap (λ (t : Pmm). t.highest_page_index) state,
  subst IsValid (sym state) (record {
    bytes = mark_pages-IsBytes s.bitmap 0 pages v.bytes;
    covers = omega (arith, length-mark_pages s.bitmap 0 pages, v.covers);
    index = low;
    small = v.small;
  }),
  inr (
    below,
    free,
    λ i.
        ap (λ (t : Pmm). bitmap_test t.bitmap i) state
        ∙ mark_pages_lem s.bitmap 0 pages v.bytes (omega (arith, below, v.covers)) i,
  ),
)

-- If the bitmap is valid, pages are asked for and the call returns NULL, then either the bitmap is as it
-- was, and no run of so many free pages lies in the part from `last_used_index` on, nor in the part before
-- it; or the search found a free run at page 0, whose address is NULL, and has marked just this run. In both cases the state stays valid, and `used_pages` grows by the pages asked for.
pub pmm_alloc_nozero-none :
    (pages : ℕ) (s : Pmm) {s' : Pmm}
    → IsValid s
    → 0 < pages
    → pmm_alloc_nozero pages s ≡ (none, s')
    → (s'.used_pages ≡ add64 s.used_pages pages)
      × (s'.highest_page_index ≡ s.highest_page_index)
      × IsValid s'
      × (IsFull pages s s' ⊎ IsNullRun pages s s')
pmm_alloc_nozero-none pages s {s'} v p e = go (outcome pages s e)
  where
    searched :
        (u : Pmm)
        → s' ≡ counted_state u pages
        → Searched pages s none u
        → (s'.used_pages ≡ add64 s.used_pages pages)
          × (s'.highest_page_index ≡ s.highest_page_index)
          × IsValid s'
          × (IsFull pages s s' ⊎ IsNullRun pages s s')
    searched u es (no_run low k) =
        elim (inner_alloc-none pages s.last_used_index (restarted s) (omega arith)
          (omega (arith, v.index, v.small)) p k) [
            | inl high ↦
                let state : s'
                    ≡ counted_state (record s { last_used_index = s.last_used_index }) pages =
                  es ∙ ap (λ t. counted_state t pages) high.0 in
                (
                  ap (λ (t : Pmm). t.used_pages) state,
                  ap (λ (t : Pmm). t.highest_page_index) state,
                  subst IsValid (sym state) (full_state s pages s.last_used_index v v.index),
                  inl (
                    ap (λ (t : Pmm). t.bitmap) state,
                    λ q where_. elim where_ [
                      | inl r ↦ low q r.0 r.1
                      | inr r ↦ high.1 q (omega arith) r
                    ],
                  ),
                )
            | inr (z, null) ↦
                null_lem s s' pages pages v (omega (arith, null.below, v.index))
                  (omega (arith, null.below, v.index)) null.free
                  (es ∙ ap (λ t. counted_state t pages) null.state)
          ]
    searched u es (at_zero {t} z null none_there eu) =
        null_lem s s' pages 0 v (omega arith) null.below null.free
          (es ∙ ap (λ t. counted_state t pages) (eu ∙ ap restarted null.state))

    go :
        Outcome pages s none s'
        → (s'.used_pages ≡ add64 s.used_pages pages)
          × (s'.highest_page_index ≡ s.highest_page_index)
          × IsValid s'
          × (IsFull pages s s' ⊎ IsNullRun pages s s')
    go (first a t i ea es) = absurd (cc)
    go (second t u i k es) = searched u es (second_search pages s v p i k)

-- If the bitmap is valid, page 0 is in use and a run of so many free pages lies on one side of
-- `last_used_index`, the call returns an address.
pub pmm_alloc_nozero-total :
    (pages : ℕ) (s : Pmm) (q : ℕ)
    → IsValid s
    → 0 < pages
    → bitmap_test s.bitmap 0 ≡ true
    → ((s.last_used_index ≤ q) × (q + pages ≤ s.highest_page_index))
      ⊎ (q + pages ≤ s.last_used_index)
    → FreeRun s.bitmap q pages
    → (addr : ℕ) × (s' : Pmm) × (pmm_alloc_nozero pages s ≡ (some addr, s'))
pmm_alloc_nozero-total pages s q v p first_used place run = go (pmm_alloc_nozero pages s) refl
  where
    go :
        (r : Option ℕ × Pmm)
        → pmm_alloc_nozero pages s ≡ r
        → (addr : ℕ) × (s' : Pmm) × (pmm_alloc_nozero pages s ≡ (some addr, s'))
    go (some addr, s') e = (addr, s', e)
    go (none, s') e = elim (pmm_alloc_nozero-none pages s v p e).3 [
      | inl full ↦ absurd (full.1 q place run)
      | inr null ↦ absurd (true_ne_false (sym first_used ∙ null.1 0 (omega arith) (omega arith)))
    ]
