-- ===== src/Slab/Examples.antt =====
-- Tests of kernel/mm/slab.c, and its theorems at a slab with two free blocks.
use os_lyre.Base.{ℕ, ◌≤◌, ◌<◌, ◌+◌, ◌≤◌, ◌≡◌, inl, inr, refl, arith, some, [], ◌∷◌, All}
use os_lyre.Base.Bytes.{bit_of, bit_on}
use os_lyre.Bitmap.{bitmap_test, bitmap_set}
use os_lyre.Misc.{align_up, div_roundup}
use os_lyre.Pmm.{pmm_alloc_nozero, inner_alloc, inner_loop, take_run, mark_pages}
use os_lyre.Slab.{
  Heap, set_word, take_block, free_in_slab, alloc_from_slab, create_slab, link_blocks, slab_for,
  find_slab, slab_alloc,
}
use os_lyre.Slab.Chain.{IsChain, AreApart, IsSlab, alloc_from_slab-free_in_slab}
use os_lyre.Slab.Blocks.{page_blocks, create_slab-IsSlab}

-- Every slab has blocks of 1024 bytes, of which those at 4096 and 8192 are free.
abbrev heap : Heap
heap = record {
  pmm = record {
    bitmap = 15 ∷ 0 ∷ 255 ∷ [];
    highest_page_index = 20;
    last_used_index = 4;
    usable_pages = 12;
    used_pages = 0;
    reserved_pages = 8;
  };
  words = set_word 4096 8192 (λ a. 0);
  slabs = λ i. record { first_free = 4096; ent_size = 1024 };
  header = λ a. 0;
  metadata = λ a. record { pages = 0; size = 0 };
}

heap-IsSlab : IsSlab heap.words (heap.slabs 0) (4096 ∷ 8192 ∷ [])
unfolding IsChain AreApart
heap-IsSlab = record {
  room = omega arith;
  chain = (refl, (λ e. omega (arith, e)), (refl, (λ e. omega (arith, e)), refl));
  apart = ((inl (omega arith), tt), (tt, omega arith));
}

-- A new page gives three blocks, which are linked.
created : (create_slab 2 1024 heap).words 0x4400 ≡ 0x4800
unfolding create_slab link_blocks align_up div_roundup pmm_alloc_nozero inner_alloc inner_loop
    take_run mark_pages bitmap_test bitmap_set bit_of bit_on
created = refl

last_block : (create_slab 2 1024 heap).words 0x4c00 ≡ 0
unfolding created
last_block = refl

allocated : (slab_alloc 700 heap).0 ≡ 4096
unfolding slab_alloc slab_for find_slab alloc_from_slab take_block
allocated = refl

alloc_from_slab-free_in_slab_example :
    ((alloc_from_slab 0 (free_in_slab 0 12288 heap)).0 ≡ 12288)
    × IsSlab
        (alloc_from_slab 0 (free_in_slab 0 12288 heap)).1.words
        ((alloc_from_slab 0 (free_in_slab 0 12288 heap)).1.slabs 0)
        (4096 ∷ 8192 ∷ [])
    × ((b : ℕ)
        → 12288 ≤ b
        → b < 12288 + 1024
        → (alloc_from_slab 0 (free_in_slab 0 12288 heap)).1.words b ≡ 0)
alloc_from_slab-free_in_slab_example =
    alloc_from_slab-free_in_slab 0 heap 12288 (4096 ∷ 8192 ∷ []) (λ e. omega (arith, e))
      (inr (omega arith), (inr (omega arith), tt)) heap-IsSlab

page_given : (pmm_alloc_nozero 1 heap.pmm).0 ≡ some 0x4000
unfolding created
page_given = refl

create_slab-IsSlab_example :
    IsSlab
      (create_slab 2 1024 heap).words
      ((create_slab 2 1024 heap).slabs 2)
      (page_blocks 0x4000 1024)
    × All (λ b. 0x4000 + 8 ≤ b) (page_blocks 0x4000 1024)
    × All (λ b. b + 1024 ≤ 0x4000 + 4096) (page_blocks 0x4000 1024)
create_slab-IsSlab_example =
    create_slab-IsSlab 2 heap 0x4000 1024 refl (omega arith) (omega arith) page_given
