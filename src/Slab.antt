-- ===== src/Slab.antt =====
-- kernel/mm/slab.c: blocks of ten sizes, and of whole pages. Memory holds words of eight bytes by address,
-- from which the offset of the higher half is left out. The header of a page and the metadata of a large
-- block, at the start of their pages, are kept apart from it; a slab is known by its index. Locks are held.
pub mod Chain
pub mod Blocks
mod Examples
use os_lyre.Base.{
  ℕ, zero, suc, ◌+◌, ◌-◌, ◌*◌, ◌/◌, ◌%◌, Bool, true, false, Option, none, some, List, [], ◌∷◌, leb,
  ltb, ◌==◌, ◌&&◌, if◌then◌else◌,
}
use os_lyre.Misc.{page_size, div_roundup, align_up}
use os_lyre.Pmm.{Pmm, pmm_alloc_nozero, pmm_free}

pub record Slab : Type 0 where
  pub first_free : ℕ
  pub ent_size : ℕ

pub record AllocMetadata : Type 0 where
  pub pages : ℕ
  pub size : ℕ

pub record Heap : Type 0 where
  pub pmm : Pmm
  pub words : ℕ → ℕ
  pub slabs : ℕ → Slab
  pub header : ℕ → ℕ
  pub metadata : ℕ → AllocMetadata

abbrev pub set_word : ℕ → ℕ → (ℕ → ℕ) → ℕ → ℕ
set_word a v m b = if b == a then v else m b

-- memset to zero
abbrev pub clear_words : ℕ → ℕ → (ℕ → ℕ) → ℕ → ℕ
clear_words a n m b = if leb a b && ltb b (a + n) then 0 else m b

abbrev pub set_slab : ℕ → Slab → (ℕ → Slab) → ℕ → Slab
set_slab i s slabs j = if j == i then s else slabs j

-- The loop of `slab_for`, with `n` slabs to go.
unfoldable pub find_slab : ℕ → ℕ → ℕ → Heap → Option ℕ
find_slab zero i size h = none
find_slab (suc n) i size h =
    let rest = find_slab n (suc i) size h in if leb size (h.slabs i).ent_size then some i else rest

unfoldable pub slab_for : ℕ → Heap → Option ℕ
slab_for size h = find_slab 10 0 size h

-- The loop of `create_slab`, with `n` links to go; an index of `arr` is eight bytes.
unfoldable pub link_blocks : ℕ → ℕ → ℕ → ℕ → (ℕ → ℕ) → ℕ → ℕ
link_blocks zero i arr fact m = m
link_blocks (suc n) i arr fact m =
    link_blocks n (suc i) arr fact (set_word (arr + 8 * (i * fact)) (arr + 8 * ((i + 1) * fact)) m)

-- The address 0 of a page that is not there is used like any other.
abbrev pub or_null : Option ℕ → ℕ
or_null none = 0
or_null (some a) = a

unfoldable pub create_slab : ℕ → ℕ → Heap → Heap
create_slab i ent_size h =
    let r = pmm_alloc_nozero 1 h.pmm in
    let page = or_null r.0 in
    let header_offset = align_up 8 ent_size in
    let arr = page + header_offset in
    let max = (page_size - header_offset) / ent_size - 1 in
    let fact = ent_size / 8 in
    record h {
      pmm = r.1;
      words = set_word (arr + 8 * (max * fact)) 0 (link_blocks max 0 arr fact h.words);
      slabs = set_slab i (record { first_free = arr; ent_size = ent_size }) h.slabs;
      header = λ a. if a == page then i else h.header a;
    }

-- What `alloc_from_slab` does with a slab that has a free block.
unfoldable pub take_block : ℕ → Heap → ℕ × Heap
take_block i h =
    let s = h.slabs i in
    (
      s.first_free,
      record h {
        words = clear_words s.first_free s.ent_size h.words;
        slabs = set_slab i (record s { first_free = h.words s.first_free }) h.slabs;
      },
    )

unfoldable pub alloc_from_slab : ℕ → Heap → ℕ × Heap
alloc_from_slab i h =
    take_block i (if (h.slabs i).first_free == 0 then create_slab i (h.slabs i).ent_size h else h)

unfoldable pub free_in_slab : ℕ → ℕ → Heap → Heap
free_in_slab i addr h = if addr == 0 then h else record h {
  words = set_word addr (h.slabs i).first_free h.words;
  slabs = set_slab i (record (h.slabs i) { first_free = addr }) h.slabs;
}

unfoldable pub create_slabs : ℕ → List ℕ → Heap → Heap
create_slabs i [] h = h
create_slabs i (n ∷ ns) h = create_slabs (suc i) ns (create_slab i n h)

unfoldable pub slab_init : Heap → Heap
slab_init h = create_slabs 0 (8 ∷ 16 ∷ 24 ∷ 32 ∷ 48 ∷ 64 ∷ 128 ∷ 256 ∷ 512 ∷ 1024 ∷ []) h

-- A block of whole pages, after the page of its metadata.
unfoldable pub large_block : ℕ → ℕ → Option ℕ × Pmm → Heap → ℕ × Heap
large_block page_count size (none, p) h = (0, record h { pmm = p })
large_block page_count size (some a, p) h = (
  a + page_size,
  record h {
    pmm = p;
    words = clear_words a ((page_count + 1) * page_size) h.words;
    metadata = λ b. if b == a then record { pages = page_count; size = size } else h.metadata b;
  },
)

unfoldable pub slab_alloc : ℕ → Heap → ℕ × Heap
slab_alloc size h = elim (slab_for size h) [
  | some i ↦ alloc_from_slab i h
  | none ↦
      let page_count = div_roundup size page_size in
      large_block page_count size (pmm_alloc_nozero (page_count + 1) h.pmm) h
]

unfoldable pub slab_free : ℕ → Heap → Heap
slab_free addr h =
    if addr == 0
    then h
    else (if addr % page_size == 0
        then record h {
          pmm = pmm_free (addr - page_size) ((h.metadata (addr - page_size)).pages + 1) h.pmm;
        }
        else free_in_slab (h.header (addr - addr % page_size)) addr h)
