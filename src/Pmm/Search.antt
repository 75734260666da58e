-- ===== src/Pmm/Search.antt =====
-- `inner_alloc` of kernel/mm/pmm.c: the linear search for a run of free pages.
use os_lyre.Base.{
  ℕ, zero, suc, ◌+◌, ◌-◌, ◌*◌, ◌≤◌, ◌<◌, ◌≡◌, refl, ap, ◌∙◌, sym, arith, Bool, true, false, not,
  ◌&&◌, ◌||◌, none, some, ltb, leb, ◌==◌, ==_iff, Bool-cases, inl, inr, ◌⊎◌, ◌^◌, length,
}
use os_lyre.Base.Words.{mul64}
use os_lyre.Misc.{page_size}
use os_lyre.Bitmap.{Bitmap, bitmap_test, bitmap_set, bitmap_reset}
use os_lyre.Bitmap.Laws.{
  IsBytes, bitmap_test-bitmap_set, bitmap_test-bitmap_reset, bitmap_set-IsBytes,
  bitmap_reset-IsBytes, length-bitmap_set, length-bitmap_reset,
}
use os_lyre.Pmm.{Pmm, pointer, mark_pages, clear_pages, take_run, inner_loop}

-- the pages `page`, …, `page + n - 1` are free
abbrev pub FreeRun : Bitmap → ℕ → ℕ → Type 0
FreeRun b page n = (i : ℕ) → page ≤ i → i < page + n → bitmap_test b i ≡ false

abbrev pub inside : ℕ → ℕ → ℕ → Bool
inside page n i = leb page i && ltb i (page + n)

pub mark_pages_lem :
    (b : Bitmap) (page n : ℕ)
    → IsBytes b
    → page + n ≤ 8 * length b
    → (i : ℕ) → bitmap_test (mark_pages b page n) i ≡ (inside page n i || bitmap_test b i)
unfolding mark_pages
mark_pages_lem b page zero h k i = ground arith
mark_pages_lem b page (suc n) h k i = ground (
  arith,
  mark_pages_lem (bitmap_set b page) (page + 1) n (bitmap_set-IsBytes b page h)
      (omega (arith, length-bitmap_set b page)) i,
  bitmap_test-bitmap_set b page h (omega arith) i,
)

pub clear_pages_lem :
    (b : Bitmap) (page n : ℕ)
    → IsBytes b
    → page + n ≤ 8 * length b
    → (i : ℕ) → bitmap_test (clear_pages b page n) i ≡ (not (inside page n i) && bitmap_test b i)
unfolding clear_pages
clear_pages_lem b page zero h k i = ground arith
clear_pages_lem b page (suc n) h k i = ground (
  arith,
  clear_pages_lem (bitmap_reset b page) (page + 1) n (bitmap_reset-IsBytes b page h)
      (omega (arith, length-bitmap_reset b page)) i,
  bitmap_test-bitmap_reset b page h (omega arith) i,
)

pub mark_pages-IsBytes : (b : Bitmap) (page n : ℕ) → IsBytes b → IsBytes (mark_pages b page n)
unfolding mark_pages
mark_pages-IsBytes b page zero h = h
mark_pages-IsBytes b page (suc n) h =
    mark_pages-IsBytes (bitmap_set b page) (page + 1) n (bitmap_set-IsBytes b page h)

pub length-mark_pages : (b : Bitmap) (page n : ℕ) → length (mark_pages b page n) ≡ length b
unfolding mark_pages
length-mark_pages b page zero = refl
length-mark_pages b page (suc n) =
    omega (arith, length-mark_pages (bitmap_set b page) (page + 1) n, length-bitmap_set b page)

pub clear_pages-IsBytes : (b : Bitmap) (page n : ℕ) → IsBytes b → IsBytes (clear_pages b page n)
unfolding clear_pages
clear_pages-IsBytes b page zero h = h
clear_pages-IsBytes b page (suc n) h =
    clear_pages-IsBytes (bitmap_reset b page) (page + 1) n (bitmap_reset-IsBytes b page h)

pub length-clear_pages : (b : Bitmap) (page n : ℕ) → length (clear_pages b page n) ≡ length b
unfolding clear_pages
length-clear_pages b page zero = refl
length-clear_pages b page (suc n) =
    omega (arith, length-clear_pages (bitmap_reset b page) (page + 1) n, length-bitmap_reset b page)

-- What a search that returns `addr` has done: the run from `page` on lies between `low` and `high`,
-- was free, and is marked; nothing else has changed but the index, which stands behind the run.
pub record IsFound (s : Pmm) (pages low high : ℕ) (addr : ℕ) (s' : Pmm) : Type 0 where
  pub page : ℕ
  pub nonempty : 0 < pages
  pub address : addr ≡ mul64 page page_size
  pub above : low ≤ page
  pub below : page + pages ≤ high
  pub free : FreeRun s.bitmap page pages
  pub state :
      s' ≡ record s { bitmap = mark_pages s.bitmap page pages; last_used_index = page + pages }

-- A free page behind a run of free pages makes the run longer.
FreeRun-suc :
    (b : Bitmap) (last p : ℕ)
    → p ≤ last
    → FreeRun b (last - p) p
    → bitmap_test b last ≡ false
    → FreeRun b (last - p) (suc p)
FreeRun-suc b last p h run here i lo hi = elim (Bool-cases (i == last)) [
  | inl e ↦ let e' : i ≡ last = (==_iff _ _).0 e in ap (bitmap_test b) e' ∙ here
  | inr e ↦ run i lo (ground arith)
]

abbrev advance : Pmm → Pmm
advance s = record s { last_used_index = s.last_used_index + 1 }

module _ (rounds pages p : ℕ) (s : Pmm) where
  step_used :
      bitmap_test s.bitmap s.last_used_index ≡ true
      → inner_loop (suc rounds) pages p s ≡ inner_loop rounds pages 0 (advance s)
  unfolding inner_loop
  step_used h = rw (h, inner_loop)

  step_done :
      bitmap_test s.bitmap s.last_used_index ≡ false
      → (p + 1 == pages) ≡ true
      → inner_loop (suc rounds) pages p s ≡ take_run (advance s) pages
  unfolding inner_loop
  step_done h e = rw (h, inner_loop) (rw (e, inner_loop))

  step_more :
      bitmap_test s.bitmap s.last_used_index ≡ false
      → (p + 1 == pages) ≡ false
      → inner_loop (suc rounds) pages p s ≡ inner_loop rounds pages (p + 1) (advance s)
  unfolding inner_loop
  step_more h e = rw (h, inner_loop) (rw (e, inner_loop))

-- What a search from the next index found, the search from this one found.
IsFound-advance :
    (s : Pmm) (pages low high low' high' : ℕ) {addr : ℕ} {s' : Pmm}
    → low' ≤ low
    → high ≤ high'
    → IsFound (advance s) pages low high addr s'
    → IsFound s pages low' high' addr s'
IsFound-advance s pages low high low' high' a b f = record {
  page = f.page;
  nonempty = f.nonempty;
  address = f.address;
  above = omega arith;
  below = omega arith;
  free = f.free;
  state = f.state;
}

take_run-IsFound :
    (pages p rounds : ℕ) (s : Pmm) {addr : ℕ} {s' : Pmm}
    → p ≤ s.last_used_index
    → FreeRun s.bitmap (s.last_used_index - p) (suc p)
    → p + 1 ≡ pages
    → take_run (advance s) pages ≡ (some addr, s')
    → IsFound s pages (s.last_used_index - p) (s.last_used_index + suc rounds) addr s'
unfolding take_run
take_run-IsFound pages p rounds s {addr} {s'} h run e t = record {
  page = s.last_used_index + 1 - pages;
  nonempty = omega arith;
  address = address_of (mul64 (s.last_used_index + 1 - pages) page_size) addr (ap (λ r. r.0) t);
  above = omega arith;
  below = omega arith;
  free = λ i lo hi. run i (omega arith) (omega arith);
  state = ground (arith, ap (λ r. r.1) t);
}
  where
    address_of : (a b : ℕ) → pointer a ≡ some b → b ≡ a
    address_of a b e = ground (arith, e)

none_of_zero :
    (pages p : ℕ) (s : Pmm) {addr : ℕ} {s' : Pmm} → inner_loop zero pages p s ≡ (some addr, s') → ⊥
unfolding inner_loop
none_of_zero pages p s e = cc

end_of_zero :
    (pages p : ℕ) (s : Pmm) {s' : Pmm}
    → inner_loop zero pages p s ≡ (none, s')
    → s' ≡ record s { last_used_index = s.last_used_index + 0 }
unfolding inner_loop
end_of_zero pages p s e = ground arith

-- What a search that gives NULL although it found a run has done: the run is at page 0, and is marked.
pub record IsNull (s : Pmm) (pages high : ℕ) (s' : Pmm) : Type 0 where
  pub below : pages ≤ high
  pub free : FreeRun s.bitmap 0 pages
  pub state : s' ≡ record s { bitmap = mark_pages s.bitmap 0 pages; last_used_index = pages }

pointer-none : (page : ℕ) → page < 2 ^ 52 → pointer (mul64 page page_size) ≡ none → page ≡ 0
pointer-none page h e = ground (arith, e, h)

take_run-IsNull :
    (pages p rounds : ℕ) (s : Pmm) {s' : Pmm}
    → p ≤ s.last_used_index
    → s.last_used_index + suc rounds ≤ 2 ^ 52
    → FreeRun s.bitmap (s.last_used_index - p) (suc p)
    → p + 1 ≡ pages
    → take_run (advance s) pages ≡ (none, s')
    → (s.last_used_index ≤ p) × IsNull s pages (s.last_used_index + suc rounds) s'
unfolding take_run
take_run-IsNull pages p rounds s {s'} h small run e t =
    let zero_page : s.last_used_index + 1 - pages ≡ 0 =
      pointer-none (s.last_used_index + 1 - pages) (omega arith) (ap (λ r. r.0) t) in
    let at_end : s.last_used_index + 1 ≡ pages = omega (arith, zero_page) in
    (
      omega (arith, zero_page),
      record {
        below = omega (arith, zero_page);
        free = λ i lo hi. run i (omega (arith, zero_page)) (omega (arith, zero_page));
        state =
            sym (ap (λ r. r.1) t)
            ∙ ap
                (λ k. record s {
                  bitmap = mark_pages s.bitmap k pages;
                  last_used_index = s.last_used_index + 1;
                })
                zero_page
            ∙ ap (λ k. record s { bitmap = mark_pages s.bitmap 0 pages; last_used_index = k })
                at_end;
      },
    )

move_end :
    (s : Pmm) (rounds : ℕ) {s' : Pmm}
    → s' ≡ record (advance s) { last_used_index = s.last_used_index + 1 + rounds }
    → s' ≡ record s { last_used_index = s.last_used_index + suc rounds }
move_end s rounds e = ground arith

-- A search that succeeds returns a free run, and takes it.
pub inner_loop-some :
    (rounds pages p : ℕ) (s : Pmm) {addr : ℕ} {s' : Pmm}
    → p ≤ s.last_used_index
    → FreeRun s.bitmap (s.last_used_index - p) p
    → inner_loop rounds pages p s ≡ (some addr, s')
    → IsFound s pages (s.last_used_index - p) (s.last_used_index + rounds) addr s'
inner_loop-some zero pages p s h run e = absurd (none_of_zero pages p s e)
inner_loop-some (suc rounds) pages p s h run e =
    elim (Bool-cases (bitmap_test s.bitmap s.last_used_index)) [
      | inl used ↦
          IsFound-advance s pages (s.last_used_index + 1 - 0) (s.last_used_index + 1 + rounds) _ _
            (omega arith) (omega arith)
            (inner_loop-some rounds pages 0 (advance s) (omega arith)
              (λ i lo hi. absurd (omega arith)) (sym (step_used rounds pages p s used) ∙ e))
      | inr free ↦ elim (Bool-cases (p + 1 == pages)) [
        | inl done ↦
            take_run-IsFound pages p rounds s h
              (FreeRun-suc s.bitmap s.last_used_index p h run free) ((==_iff _ _).0 done)
              (sym (step_done rounds pages p s free done) ∙ e)
        | inr more ↦
            IsFound-advance s pages (s.last_used_index + 1 - (p + 1))
              (s.last_used_index + 1 + rounds) _ _ (omega arith) (omega arith)
              (inner_loop-some rounds pages (p + 1) (advance s) (omega arith)
                (λ i lo hi.
                  FreeRun-suc s.bitmap s.last_used_index p h run free i (omega arith) (omega arith))
                (sym (step_more rounds pages p s free more) ∙ e))
      ]
    ]

-- What a search that found no run has done: it looked at every page, and the bitmap is as it was.
abbrev pub IsMissed : ℕ → ℕ → ℕ → Pmm → Pmm → Type 0
IsMissed rounds pages p s s' =
    (s' ≡ record s { last_used_index = s.last_used_index + rounds })
    × ((q : ℕ)
        → s.last_used_index ≤ q + p
        → q + pages ≤ s.last_used_index + rounds
        → ¬ FreeRun s.bitmap q pages)

IsMissed-used :
    (rounds pages p : ℕ) (s : Pmm) {s' : Pmm}
    → bitmap_test s.bitmap s.last_used_index ≡ true
    → p < pages
    → IsMissed rounds pages 0 (advance s) s'
    → IsMissed (suc rounds) pages p s s'
IsMissed-used rounds pages p s used h rest = (
  move_end s rounds rest.0,
  λ q lo hi run. elim (Bool-cases (ltb s.last_used_index q)) [
    | inl beyond ↦ rest.1 q (ground arith) (omega arith) run
    | inr upto ↦ ground (arith, run s.last_used_index (ground arith) (omega arith))
  ],
)

-- A search that gives NULL found no run, or the one at page 0; then it started there.
pub inner_loop-none :
    (rounds pages p : ℕ) (s : Pmm) {s' : Pmm}
    → p < pages
    → p ≤ s.last_used_index
    → s.last_used_index + rounds ≤ 2 ^ 52
    → FreeRun s.bitmap (s.last_used_index - p) p
    → inner_loop rounds pages p s ≡ (none, s')
    → IsMissed rounds pages p s s'
      ⊎ ((s.last_used_index ≤ p) × IsNull s pages (s.last_used_index + rounds) s')
inner_loop-none zero pages p s h k small run e =
    inl (end_of_zero pages p s e, λ q lo hi free. absurd (omega arith))
inner_loop-none (suc rounds) pages p s h k small run e =
    elim (Bool-cases (bitmap_test s.bitmap s.last_used_index)) [
      | inl used ↦
          elim (inner_loop-none rounds pages 0 (advance s) (omega arith) (omega arith) (omega arith)
            (λ i lo hi. absurd (omega arith)) (sym (step_used rounds pages p s used) ∙ e)) [
              | inl rest ↦ inl (IsMissed-used rounds pages p s used h rest)
              | inr (at, null) ↦ absurd (omega (arith, at))
            ]
      | inr free ↦ elim (Bool-cases (p + 1 == pages)) [
        | inl done ↦ inr (
            take_run-IsNull pages p rounds s k small
              (FreeRun-suc s.bitmap s.last_used_index p k run free) ((==_iff _ _).0 done)
              (sym (step_done rounds pages p s free done) ∙ e))
        | inr more ↦
            elim (inner_loop-none rounds pages (p + 1) (advance s) (ground arith) (omega arith)
              (omega arith)
              (λ i lo hi.
                FreeRun-suc s.bitmap s.last_used_index p k run free i (omega arith) (omega arith))
              (sym (step_more rounds pages p s free more) ∙ e)) [
                | inl rest ↦ inl (
                  move_end s rounds rest.0,
                  λ q lo hi all. rest.1 q (omega arith) (omega arith) all,
                )
                | inr (at, null) ↦ inr (
                  omega (arith, at),
                  record {
                    below = omega (arith, null.below);
                    free = null.free;
                    state = null.state;
                  },
                )
              ]
      ]
    ]
