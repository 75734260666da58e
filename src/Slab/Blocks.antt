-- ===== src/Slab/Blocks.antt =====
-- create_slab of kernel/mm/slab.c: a page becomes a list of blocks.
use mathlib.Core.Path.{subst}
use native.Mathlib.Nat.{le-div_iff_mul-le, add-div_right, div-eq_of_lt, div-mul-le_self}
use os_lyre.Base.{
  ℕ, zero, suc, ◌+◌, ◌-◌, ◌*◌, ◌/◌, ◌%◌, ◌^◌, ◌≤◌, ◌<◌, ◌≡◌, ◌≢◌, inl, refl, ap, sym, ◌∙◌, arith,
  some, List, [], ◌∷◌, All,
}
use os_lyre.Misc.{page_size, align_up, div_roundup}
use os_lyre.Pmm.{pmm_alloc_nozero}
use os_lyre.Slab.{Slab, Heap, set_word, link_blocks, create_slab, or_null}
use os_lyre.Slab.Chain.{set_slab_self, All-map, IsChain, AreApart, IsSlab}

-- `n` blocks, `size` bytes apart.
unfoldable pub stride : ℕ → ℕ → ℕ → List ℕ
stride zero size a = []
stride (suc n) size a = a ∷ stride n size (a + size)

set_word_ne : (a v b : ℕ) (m : ℕ → ℕ) → b ≢ a → set_word a v m b ≡ m b
set_word_ne a v b m h = ground (arith, h)

-- The same links by their addresses, and the address of the last block.
unfoldable links : ℕ → ℕ → ℕ → (ℕ → ℕ) → ℕ → ℕ
links zero p size m = m
links (suc n) p size m = links n (p + size) size (set_word p (p + size) m)

unfoldable last_of : ℕ → ℕ → ℕ → ℕ
last_of zero p size = p
last_of (suc n) p size = last_of n (p + size) size

next_index : (i arr fact : ℕ) → arr + 8 * ((i + 1) * fact) ≡ arr + 8 * (i * fact) + 8 * fact
next_index i arr fact = grind arith

link_blocks-links :
    (n i arr fact : ℕ) (m : ℕ → ℕ)
    → link_blocks n i arr fact m ≡ links n (arr + 8 * (i * fact)) (8 * fact) m
unfolding link_blocks links
link_blocks-links zero i arr fact m = refl
link_blocks-links (suc n) i arr fact m =
    link_blocks-links n (suc i) arr fact _
    ∙ ap
        (λ p. links n p (8 * fact) (set_word (arr + 8 * (i * fact)) (arr + 8 * ((i + 1) * fact)) m))
        (step i)
    ∙ ap
        (λ q.
          links n (arr + 8 * (i * fact) + 8 * fact) (8 * fact)
            (set_word (arr + 8 * (i * fact)) q m))
        (next_index i arr fact)
  where
    step : (i : ℕ) → arr + 8 * (suc i * fact) ≡ arr + 8 * (i * fact) + 8 * fact
    step i = grind arith

links-low : (n p size : ℕ) (m : ℕ → ℕ) (b : ℕ) → b < p → links n p size m b ≡ m b
unfolding links
links-low zero p size m b l = refl
links-low (suc n) p size m b l =
    links-low n (p + size) size _ b (omega (arith, l)) ∙ set_word_ne p _ b m (omega (arith, l))

last_of-ge : (n p size : ℕ) → p ≤ last_of n p size
unfolding last_of
last_of-ge zero p size = omega arith
last_of-ge (suc n) p size = omega (arith, last_of-ge n (p + size) size)

self_word : (a v : ℕ) (m : ℕ → ℕ) → set_word a v m a ≡ v
self_word a v m = ground arith

links-IsChain :
    (n p size : ℕ) (m : ℕ → ℕ)
    → 0 < p
    → 0 < size
    → IsChain (set_word (last_of n p size) 0 (links n p size m)) p (stride (suc n) size p)
unfolding links last_of IsChain stride
links-IsChain zero p size m h k = (refl, (λ e. omega (arith, e, h)), self_word p 0 m)
links-IsChain (suc n) p size m h k =
    let below : p < last_of n (p + size) size = omega (arith, last_of-ge n (p + size) size, k) in
    let link : set_word (last_of n (p + size) size) 0
          (links n (p + size) size (set_word p (p + size) m)) p
        ≡ p + size =
      set_word_ne (last_of n (p + size) size) 0 p
        (links n (p + size) size (set_word p (p + size) m)) (omega (arith, below))
      ∙ links-low n (p + size) size (set_word p (p + size) m) p (omega (arith, k))
      ∙ self_word p (p + size) m in
    (
      refl,
      (λ e. omega (arith, e, h)),
      subst
          (λ l.
            IsChain
              (set_word (last_of n (p + size) size) 0
                (links n (p + size) size (set_word p (p + size) m)))
              l (stride (suc n) size (p + size)))
          (sym link)
          (links-IsChain n (p + size) size (set_word p (p + size) m) (omega (arith, h)) k),
    )

stride-above : (n size p q : ℕ) → q ≤ p → All (λ b. q ≤ b) (stride n size p)
unfolding stride
stride-above zero size p q h = tt
stride-above (suc n) size p q h = (h, stride-above n size (p + size) q (omega (arith, h)))

stride-below : (n size p top : ℕ) → p + n * size ≤ top → All (λ b. b + size ≤ top) (stride n size p)
unfolding stride
stride-below zero size p top h = tt
stride-below (suc n) size p top h = (first h, stride-below n size (p + size) top (others h))
  where
    first : p + suc n * size ≤ top → p + size ≤ top
    first h = grind (arith, h)

    others : p + suc n * size ≤ top → p + size + n * size ≤ top
    others h = grind (arith, h)

stride-AreApart : (n size p : ℕ) → AreApart size (stride n size p)
unfolding stride AreApart
stride-AreApart zero size p = omega arith
stride-AreApart (suc n) size p = (
  All-map (stride n size (p + size)) (λ b l. inl l)
      (stride-above n size (p + size) (p + size) (omega arith)),
  stride-AreApart n size (p + size),
)

header_size : (size : ℕ) → 8 ≤ size → size < 2 ^ 32 → align_up 8 size ≡ size
unfolding align_up div_roundup
header_size size h k =
    let sum : (8 + (size + 2 ^ 64 - 1 % 2 ^ 64) % 2 ^ 64) % 2 ^ 64 ≡ 7 + size = omega arith in
    let one : (7 + size) / size ≡ 1 =
      add-div_right 7 (omega arith) ∙ ap (λ q. q + 1) (div-eq_of_lt (omega arith)) in
    rw (sum, one) (omega arith)

last_of_lem : (n p size : ℕ) → last_of n p size ≡ p + n * size
unfolding last_of
last_of_lem zero p size = omega arith
last_of_lem (suc n) p size = last_of_lem n (p + size) size ∙ later p n size
  where
    later : (p n size : ℕ) → p + size + n * size ≡ p + suc n * size
    later p n size = grind arith

-- The blocks that a page `a` gives, after its header.
abbrev pub page_blocks : ℕ → ℕ → List ℕ
page_blocks a size = stride (suc ((page_size - size) / size - 1)) size (a + size)

page_links :
    (a fact : ℕ) (m : ℕ → ℕ) (n : ℕ)
    → 0 < a
    → 0 < fact
    → IsChain
        (set_word (a + 8 * (n * fact)) 0 (link_blocks n 0 a fact m))
        a
        (stride (suc n) (8 * fact) a)
page_links a fact m n k h =
    let start : a + 8 * (0 * fact) ≡ a = grind arith in
    let end : a + 8 * (n * fact) ≡ last_of n a (8 * fact) =
      grind (arith, last_of_lem n a (8 * fact)) in
    let same : set_word (a + 8 * (n * fact)) 0 (link_blocks n 0 a fact m)
        ≡ set_word (last_of n a (8 * fact)) 0 (links n a (8 * fact) m) =
      ap (set_word (a + 8 * (n * fact)) 0)
        (link_blocks-links n 0 a fact m ∙ ap (λ p. links n p (8 * fact) m) start)
      ∙ ap (λ q. set_word q 0 (links n a (8 * fact) m)) end in
    subst (λ f. IsChain f a (stride (suc n) (8 * fact) a)) (sym same)
      (links-IsChain n a (8 * fact) m k (omega (arith, h)))

blocks_fit :
    (a size : ℕ)
    → 0 < size
    → size ≤ 2048
    → a + size + suc ((page_size - size) / size - 1) * size ≤ a + page_size
blocks_fit a size h k =
    let some_blocks : 1 ≤ (4096 - size) / size = (le-div_iff_mul-le h).1 (omega arith) in
    let count : suc ((4096 - size) / size - 1) ≡ (4096 - size) / size =
      omega (arith, some_blocks) in
    let fit : (4096 - size) / size * size ≤ 4096 - size = div-mul-le_self (4096 - size) size in
    rw count (omega (arith, fit, k))

module _ (i : ℕ) (h : Heap) (a size : ℕ) (whole : size % 8 ≡ 0) (least : 8 ≤ size)
    (most : size ≤ 2048) where
  abbrev new_words : ℕ → ℕ → ℕ → ℕ
  new_words page offset =
      let max = (page_size - offset) / size - 1 in
      set_word (page + offset + 8 * (max * (size / 8))) 0
        (link_blocks max 0 (page + offset) (size / 8) h.words)

  abbrev new_slab : ℕ → ℕ → Slab
  new_slab page offset = record { first_free = page + offset; ent_size = size }

  page-IsSlab : IsSlab (new_words a size) (new_slab a size) (page_blocks a size)
  page-IsSlab =
      let words : 8 * (size / 8) ≡ size = omega (arith, whole) in
      let max = (page_size - size) / size - 1 in
      record {
        room = least;
        chain =
            subst (λ s. IsChain (new_words a size) (a + size) (stride (suc max) s (a + size))) words
              (page_links (a + size) (size / 8) h.words max (omega (arith, least))
                (omega (arith, least)));
        apart = stride-AreApart (suc max) size (a + size);
      }

  -- A slab that gets a new page has the blocks of the page free: they overlap neither each other nor the
  -- header, and do not go beyond the page.
  pub create_slab-IsSlab :
      (pmm_alloc_nozero 1 h.pmm).0 ≡ some a
      → IsSlab (create_slab i size h).words ((create_slab i size h).slabs i) (page_blocks a size)
        × All (λ b. a + 8 ≤ b) (page_blocks a size)
        × All (λ b. b + size ≤ a + page_size) (page_blocks a size)
  unfolding create_slab
  create_slab-IsSlab e =
      let page = or_null (pmm_alloc_nozero 1 h.pmm).0 in
      let offset = align_up 8 size in
      (
        subst (λ s. IsSlab (new_words page offset) s (page_blocks a size))
            (sym (set_slab_self i (new_slab page offset) h.slabs))
            (subst (λ p. IsSlab (new_words p offset) (new_slab p offset) (page_blocks a size))
              (sym (ap or_null e))
              (subst (λ o. IsSlab (new_words a o) (new_slab a o) (page_blocks a size))
                (sym (header_size size least (omega arith))) page-IsSlab)),
        stride-above (suc ((page_size - size) / size - 1)) size (a + size) (a + 8) (omega arith),
        stride-below (suc ((page_size - size) / size - 1)) size (a + size) (a + page_size)
            (blocks_fit a size (omega arith) most),
      )
