-- ===== src/Pmm/Init.antt =====
-- `pmm_init` of kernel/mm/pmm.c: the state that it builds from a memory map.
use os_lyre.Base.{
  ℕ, zero, suc, ◌+◌, ◌*◌, ◌/◌, ◌%◌, ◌^◌, ◌≤◌, ◌<◌, ◌≡◌, refl, ap, ◌∙◌, sym, arith, Bool, true,
  false, not, ◌&&◌, ◌||◌, Option, none, some, List, [], ◌∷◌, All, Bool-cases, inl, inr, length,
  replicate, length-replicate, leb, leb→le, get_or,
}
use mathlib.Core.Path.{subst}
use mathlib.Core.Option
use mathlib.Core.Option.{some-injective}
use os_lyre.Misc.{page_size, max_of}
use os_lyre.Base.Bytes.{holds_up_to, holds_up_to-at, bit_of}
use os_lyre.Bitmap.{Bitmap, bitmap_test}
use os_lyre.Bitmap.Laws.{IsBytes}
use os_lyre.Pmm.{
  MemEntry, Pmm, Totals, count_entry, count_entries, is_usable, bitmap_bytes, place_bitmap,
  free_entry, free_entries, clear_pages, built, pmm_init, cut_entry, keep_entry,
}
use os_lyre.Pmm.Search.{inside, clear_pages_lem, clear_pages-IsBytes, length-clear_pages}
use os_lyre.Pmm.Alloc.{IsValid}

-- Page `i` lies in a usable entry.
unfoldable pub covered : List MemEntry → ℕ → Bool
covered [] i = false
covered (e ∷ es) i =
    (is_usable e && inside (e.base / 4096) ((e.length + 4095) / 4096) i) || covered es i

-- What the boot protocol promises of usable entries: page-aligned, inside the address space.
abbrev pub IsAligned : MemEntry → Type 0
IsAligned e =
    is_usable e ≡ true → (e.base % 4096 ≡ 0) × (e.length % 4096 ≡ 0) × (e.base + e.length < 2 ^ 64)

-- The usable entry is aligned and ends at or below `top`.
abbrev Below : ℕ → MemEntry → Type 0
Below top e =
    is_usable e ≡ true → (e.base % 4096 ≡ 0) × (e.length % 4096 ≡ 0) × (e.base + e.length ≤ top)

count_entry_mono : (e : MemEntry) (t : Totals) → t.highest_addr ≤ (count_entry e t).highest_addr
unfolding count_entry max_of
count_entry_mono e t = ground arith

count_entry-covers :
    (e : MemEntry) (t : Totals)
    → IsAligned e
    → is_usable e ≡ true
    → e.base + e.length ≤ (count_entry e t).highest_addr
unfolding count_entry max_of
count_entry-covers e t a u = ground (arith, a u)

count_entry-lt :
    (e : MemEntry) (t : Totals) → t.highest_addr < 2 ^ 64 → (count_entry e t).highest_addr < 2 ^ 64
unfolding count_entry max_of
count_entry-lt e t h = ground arith

count_entries_mono :
    (es : List MemEntry) (t : Totals) → t.highest_addr ≤ (count_entries es t).highest_addr
unfolding count_entries
count_entries_mono [] t = omega arith
count_entries_mono (e ∷ es) t =
    omega (arith, count_entries_mono es (count_entry e t), count_entry_mono e t)

count_entries-lt :
    (es : List MemEntry) (t : Totals)
    → t.highest_addr < 2 ^ 64
    → (count_entries es t).highest_addr < 2 ^ 64
unfolding count_entries
count_entries-lt [] t h = h
count_entries-lt (e ∷ es) t h = count_entries-lt es (count_entry e t) (count_entry-lt e t h)

count_entries-Below :
    (es : List MemEntry) (t : Totals)
    → All IsAligned es
    → All (Below (count_entries es t).highest_addr) es
unfolding count_entries
count_entries-Below [] t a = tt
count_entries-Below (e ∷ es) t a = (
  λ u. (
    (a.0 u).0,
    (a.0 u).1,
    omega (arith, count_entry-covers e t a.0 u, count_entries_mono es (count_entry e t)),
  ),
  count_entries-Below es (count_entry e t) a.1,
)

cut_entry-Below :
    (size top : ℕ) (e : MemEntry)
    → size % 4096 ≡ 0
    → top < 2 ^ 64
    → leb size e.length ≡ true
    → Below top e
    → Below top (cut_entry size e)
unfolding cut_entry
cut_entry-Below size top e m t h b u =
    let fits : size ≤ e.length = leb→le size e.length h in
    let facts = b u in (omega (arith, facts.0), omega (arith, facts.1), omega (arith, facts.2))

pub keep_entry-some :
    (e : MemEntry) (o : Option (List MemEntry)) {left : List MemEntry}
    → keep_entry e o ≡ some left
    → (es : List MemEntry) × (o ≡ some es) × (left ≡ e ∷ es)
keep_entry-some e none h = absurd (cc)
keep_entry-some e (some es) h = (es, refl, cc)

place_bitmap-Below :
    (size top : ℕ) (es : List MemEntry) {left : List MemEntry}
    → size % 4096 ≡ 0
    → top < 2 ^ 64
    → place_bitmap size es ≡ some left
    → All (Below top) es
    → All (Below top) left
unfolding place_bitmap
place_bitmap-Below size top [] m t h a = absurd (cc)
place_bitmap-Below size top (e ∷ es) {left} m t h a =
    elim (Bool-cases (is_usable e && leb size e.length)) [
      | inl here ↦
          let found : some (cut_entry size e ∷ es) ≡ some left = rw here at h in
          subst (All (Below top)) (some-injective _ _ found)
            (cut_entry-Below size top e m t (ground arith) a.0, a.1)
      | inr past ↦
          let kept : keep_entry e (place_bitmap size es) ≡ some left = rw past at h in
          let k = keep_entry-some e (place_bitmap size es) kept in
          rw k.2 (a.0, place_bitmap-Below size top es m t k.1 a.1)
    ]

-- Clearing the pages of the usable entries.
module _ (pages : ℕ) where
  abbrev Fits : MemEntry → Type 0
  Fits e = is_usable e ≡ true → e.base / 4096 + (e.length + 4095) / 4096 ≤ pages

  free_entries_lem :
      (es : List MemEntry) (b : Bitmap)
      → IsBytes b
      → pages ≤ 8 * length b
      → All Fits es
      → IsBytes (free_entries es b)
        × (length (free_entries es b) ≡ length b)
        × ((i : ℕ) → bitmap_test (free_entries es b) i ≡ (not (covered es i) && bitmap_test b i))
  unfolding free_entries free_entry covered
  free_entries_lem [] b h k f = (h, refl, λ i. refl)
  free_entries_lem (e ∷ es) b h k f = elim (Bool-cases (is_usable e)) [
    | inl u ↦
        let first = e.base / 4096 in
        let n = (e.length + 4095) / 4096 in
        let b' = clear_pages b first n in
        let bytes = clear_pages-IsBytes b first n h in
        let len = length-clear_pages b first n in
        let rest = free_entries_lem es b' bytes (omega (arith, len)) f.1 in
        rw u (
          rest.0,
          rest.1 ∙ len,
          λ i. ground (arith, rest.2 i, clear_pages_lem b first n h (omega (arith, f.0 u)) i),
        )
    | inr n ↦ rw n (free_entries_lem es b h k f.1)
  ]

abbrev ones : ℕ
ones = 255

replicate-IsBytes : (n : ℕ) → IsBytes (replicate n ones)
replicate-IsBytes zero = tt
replicate-IsBytes (suc n) = (omega arith, replicate-IsBytes n)

get_or-replicate : (n i : ℕ) → i < n → get_or (replicate n ones) i 0 ≡ ones
get_or-replicate zero i h = elim h [ ]
get_or-replicate (suc n) zero h = refl
get_or-replicate (suc n) (suc i) h = get_or-replicate n i (omega arith)

ones_table : holds_up_to (λ k. bit_of ones k) 8 ≡ true
unfolding holds_up_to bit_of
ones_table = refl

bitmap_test-replicate : (n i : ℕ) → i < 8 * n → bitmap_test (replicate n ones) i ≡ true
unfolding bitmap_test
bitmap_test-replicate n i h =
    rw (get_or-replicate n (i / 8) (omega arith))
      (holds_up_to-at (λ k. bit_of ones k) (i % 8) 8 (omega arith) ones_table)

Below-Fits :
    (top highest pages : ℕ)
    → highest ≡ top / 4096
    → highest ≤ pages
    → (es : List MemEntry) → All (Below top) es
    → All (Fits pages) es
Below-Fits top highest pages q h [] a = tt
Below-Fits top highest pages q h (e ∷ es) a =
    (λ u. let f = a.0 u in omega (arith, f.0, f.1, f.2), Below-Fits top highest pages q h es a.1)

pub bitmap_bytes-mod : (h : ℕ) → h ≤ 2 ^ 52 → bitmap_bytes h % 4096 ≡ 0
unfolding bitmap_bytes
bitmap_bytes-mod h k = omega arith

abbrev no_totals : Totals
no_totals = record { usable_pages = 0; reserved_pages = 0; highest_addr = 0 }

-- What `pmm_init` has built, and from what.
record IsBuilt (entries : List MemEntry) (s : Pmm) : Type 0 where
  left : List MemEntry
  placed : place_bitmap (bitmap_bytes s.highest_page_index) entries ≡ some left
  top : s.highest_page_index ≡ (count_entries entries no_totals).highest_addr / 4096
  bits : s.bitmap ≡ free_entries left (replicate (bitmap_bytes s.highest_page_index) ones)
  start : s.last_used_index ≡ 0

map-some :
    {A : Type 0} {B : Type 0} (f : A → B) (o : Option A) {b : B}
    → Option.map f o ≡ some b
    → (a : A) × (o ≡ some a) × (b ≡ f a)
map-some f none h = absurd (cc)
map-some f (some a) h = (a, refl, sym (some-injective _ _ h))

pmm_init-IsBuilt :
    (entries : List MemEntry) {s : Pmm} → pmm_init entries ≡ some s → IsBuilt entries s
unfolding pmm_init built
pmm_init-IsBuilt entries {s} h =
    let t = count_entries entries no_totals in
    let size = bitmap_bytes (t.highest_addr / page_size) in
    let m = map-some (built t size) (place_bitmap size entries) h in
    rw m.2 (record { left = m.0; placed = m.1; top = refl; bits = refl; start = refl })

-- If the usable entries of the map are page-aligned, and the bitmap is large enough for the pages (it
-- is not always), then `pmm_init` leaves a valid state, in which a page below the highest is free
-- exactly if it lies in a usable entry that is left after the bitmap has taken its place.
pub pmm_init-IsValid :
    (entries : List MemEntry) {s : Pmm}
    → All IsAligned entries
    → pmm_init entries ≡ some s
    → s.highest_page_index ≤ 8 * bitmap_bytes s.highest_page_index
    → IsValid s
      × (left : List MemEntry) × (place_bitmap (bitmap_bytes s.highest_page_index) entries
          ≡ some left)
      × ((i : ℕ) → i < s.highest_page_index → bitmap_test s.bitmap i ≡ not (covered left i))
pmm_init-IsValid entries {s} aligned h large = (
  record {
    bytes = rw b.bits freed.0;
    covers = omega (arith, ap length b.bits, freed.1, len);
    index = omega (arith, b.start);
    small = small;
  },
  b.left,
  b.placed,
  λ i lt. ground (
    arith,
    ap (λ m. bitmap_test m i) b.bits,
    freed.2 i,
    bitmap_test-replicate size i (omega arith),
  ),
)
  where
    b : IsBuilt entries s
    b = pmm_init-IsBuilt entries h

    top_lt : (count_entries entries no_totals).highest_addr < 2 ^ 64
    top_lt = count_entries-lt entries no_totals (omega arith)

    small : s.highest_page_index ≤ 2 ^ 52
    small = omega (arith, b.top, top_lt)

    size : ℕ
    size = bitmap_bytes s.highest_page_index

    len :
        length (replicate (bitmap_bytes s.highest_page_index) ones)
        ≡ bitmap_bytes s.highest_page_index
    len = length-replicate (bitmap_bytes s.highest_page_index) ones

    fits : All (Fits s.highest_page_index) b.left
    fits =
        Below-Fits (count_entries entries no_totals).highest_addr s.highest_page_index
          s.highest_page_index b.top (omega arith) b.left
          (place_bitmap-Below (bitmap_bytes s.highest_page_index)
            (count_entries entries no_totals).highest_addr entries (bitmap_bytes-mod _ small) top_lt
            b.placed (count_entries-Below entries no_totals aligned))

    freed :
        IsBytes (free_entries b.left (replicate size ones))
        × (length (free_entries b.left (replicate size ones)) ≡ length (replicate size ones))
        × ((i : ℕ)
            → bitmap_test (free_entries b.left (replicate size ones)) i
              ≡ (not (covered b.left i) && bitmap_test (replicate size ones) i))
    freed =
        free_entries_lem s.highest_page_index b.left (replicate size ones) (replicate-IsBytes size)
          (omega (arith, len)) fits
