-- ===== src/Slab/Chain.antt =====
-- The list of the free blocks of a slab of kernel/mm/slab.c, which runs through the blocks.
use os_lyre.Base.{
  ℕ, ◌+◌, ◌≤◌, ◌<◌, ◌≡◌, ◌≢◌, ◌⊎◌, inl, inr, refl, ap, sym, ◌∙◌, arith, false, List, [], ◌∷◌, ◌==◌,
  All, if_false,
}
use mathlib.Core.Path.{subst}
use os_lyre.Slab.{
  Slab, Heap, set_word, clear_words, set_slab, take_block, free_in_slab, alloc_from_slab,
}

-- The words at the blocks are the links of a list that ends with NULL.
unfoldable pub IsChain : (ℕ → ℕ) → ℕ → List ℕ → Type 0
IsChain m first [] = first ≡ 0
IsChain m first (x ∷ xs) = (first ≡ x) × (x ≢ 0) × IsChain m (m x) xs

-- Two blocks of the size `n` do not overlap.
abbrev pub Apart : ℕ → ℕ → ℕ → Type 0
Apart n a b = (a + n ≤ b) ⊎ (b + n ≤ a)

unfoldable pub AreApart : ℕ → List ℕ → Type 0
AreApart n [] = 0 ≤ 0
AreApart n (x ∷ xs) = All (Apart n x) xs × AreApart n xs

-- The free blocks of a slab are the given ones.
pub record IsSlab (m : ℕ → ℕ) (s : Slab) (free : List ℕ) : Type 0 where
  pub room : 8 ≤ s.ent_size
  pub chain : IsChain m s.first_free free
  pub apart : AreApart s.ent_size free

-- A chain is kept where no link of it is written.
IsChain-same :
    (m p : ℕ → ℕ) (first : ℕ) (xs : List ℕ)
    → All (λ x. p x ≡ m x) xs
    → IsChain m first xs
    → IsChain p first xs
unfolding IsChain
IsChain-same m p first [] h c = c
IsChain-same m p first (x ∷ xs) h c =
    (c.0, c.1, IsChain-same m p (p x) xs h.1 (subst (λ l. IsChain m l xs) (sym h.0) c.2))

pub All-map : {P Q : ℕ → Type 0} (xs : List ℕ) → ((x : ℕ) → P x → Q x) → All P xs → All Q xs
All-map [] f a = tt
All-map (x ∷ xs) f a = (f x a.0, All-map xs f a.1)

cleared-Apart : (m : ℕ → ℕ) (a n b : ℕ) → 8 ≤ n → Apart n a b → clear_words a n m b ≡ m b
cleared-Apart m a n b h o = elim o [ inl l ↦ ground (arith, l) | inr l ↦ ground (arith, l, h) ]

set-Apart : (m : ℕ → ℕ) (a v n b : ℕ) → 8 ≤ n → Apart n a b → set_word a v m b ≡ m b
set-Apart m a v n b h o = elim o [ inl l ↦ ground (arith, l, h) | inr l ↦ ground (arith, l, h) ]

pub set_slab_self : (i : ℕ) (s : Slab) (f : ℕ → Slab) → set_slab i s f i ≡ s
set_slab_self i s f = ground arith

module _ (i : ℕ) (h : Heap) where
  -- Taking a block of a slab takes the first free one, clears it and nothing else, and leaves the others free.
  pub take_block-IsTaken :
      (a : ℕ) (xs : List ℕ)
      → IsSlab h.words (h.slabs i) (a ∷ xs)
      → ((take_block i h).0 ≡ a)
        × IsSlab (take_block i h).1.words ((take_block i h).1.slabs i) xs
        × ((b : ℕ) → a ≤ b → b < a + (h.slabs i).ent_size → (take_block i h).1.words b ≡ 0)
        × ((b : ℕ)
            → ((b < a) ⊎ (a + (h.slabs i).ent_size ≤ b))
            → (take_block i h).1.words b ≡ h.words b)
  unfolding take_block IsChain AreApart
  take_block-IsTaken a xs w =
      let first : (h.slabs i).first_free ≡ a = w.chain.0 in
      let size = (h.slabs i).ent_size in
      let now : Slab = record {
        first_free = h.words (h.slabs i).first_free;
        ent_size = (h.slabs i).ent_size;
      } in
      let cleared = clear_words (h.slabs i).first_free size h.words in
      let at_first : (b : ℕ) → Apart size a b → cleared b ≡ h.words b = λ b o.
        cleared-Apart h.words (h.slabs i).first_free size b w.room (moved size a b first o) in
      let rest : IsSlab cleared now xs = record {
        room = w.room;
        chain =
            IsChain-same h.words cleared (h.words (h.slabs i).first_free) xs
              (All-map xs at_first w.apart.0)
              (subst (λ x. IsChain h.words (h.words x) xs) (sym first) w.chain.2);
        apart = w.apart.1;
      } in
      (
        first,
        subst (λ s. IsSlab cleared s xs) (sym (set_slab_self i now h.slabs)) rest,
        λ b l k. ground (arith, first, l, k),
        λ b o. elim o [ inl l ↦ ground (arith, first, l) | inr l ↦ ground (arith, first, l) ],
      )
    where
      moved :
          (n a b : ℕ) → (h.slabs i).first_free ≡ a → Apart n a b → Apart n (h.slabs i).first_free b
      moved n a b e o = subst (λ x. Apart n x b) (sym e) o

  freed_lem :
      (a : ℕ)
      → a ≢ 0
      → free_in_slab i a h ≡ record h {
        words = set_word a (h.slabs i).first_free h.words;
        slabs = set_slab i (record (h.slabs i) { first_free = a }) h.slabs;
      }
  unfolding free_in_slab
  freed_lem a n = if_false (a == 0) _ _ (ground (arith, n))

  -- Freeing a block that overlaps no free one makes it the first free one.
  pub free_in_slab-IsFreed :
      (a : ℕ) (xs : List ℕ)
      → a ≢ 0
      → All (Apart (h.slabs i).ent_size a) xs
      → IsSlab h.words (h.slabs i) xs
      → IsSlab (free_in_slab i a h).words ((free_in_slab i a h).slabs i) (a ∷ xs)
        × ((b : ℕ) → b ≢ a → (free_in_slab i a h).words b ≡ h.words b)
  unfolding IsChain AreApart
  free_in_slab-IsFreed a xs there out w =
      let size = (h.slabs i).ent_size in
      let now : Slab = record { first_free = a; ent_size = size } in
      let linked = set_word a (h.slabs i).first_free h.words in
      let link : linked a ≡ (h.slabs i).first_free = ground arith in
      let more : IsSlab linked now (a ∷ xs) = record {
        room = w.room;
        chain = (
          refl,
          there,
          IsChain-same h.words linked (linked a) xs
              (All-map xs (λ b o. set-Apart h.words a (h.slabs i).first_free size b w.room o) out)
              (subst (λ x. IsChain h.words x xs) (sym link) w.chain),
        );
        apart = (out, w.apart);
      } in
      let done = freed_lem a there in
      (
        subst (λ (g : Heap). IsSlab g.words (g.slabs i) (a ∷ xs)) (sym done)
            (subst (λ s. IsSlab linked s (a ∷ xs)) (sym (set_slab_self i now h.slabs)) more),
        λ b n. ap (λ (g : Heap). g.words b) done ∙ ground (arith, n),
      )

-- A block that was freed is the next that is allocated, cleared, and the free blocks are then those before.
pub alloc_from_slab-free_in_slab :
    (i : ℕ) (h : Heap) (a : ℕ) (xs : List ℕ)
    → a ≢ 0
    → All (Apart (h.slabs i).ent_size a) xs
    → IsSlab h.words (h.slabs i) xs
    → ((alloc_from_slab i (free_in_slab i a h)).0 ≡ a)
      × IsSlab
          (alloc_from_slab i (free_in_slab i a h)).1.words
          ((alloc_from_slab i (free_in_slab i a h)).1.slabs i)
          xs
      × ((b : ℕ)
          → a ≤ b
          → b < a + (h.slabs i).ent_size
          → (alloc_from_slab i (free_in_slab i a h)).1.words b ≡ 0)
unfolding alloc_from_slab IsChain
alloc_from_slab-free_in_slab i h a xs there out w =
    let freed = free_in_slab i a h in
    let (listed, kept) = free_in_slab-IsFreed i h a xs there out w in
    let full : ((freed.slabs i).first_free == 0) ≡ false = ground (arith, listed.chain.0, there) in
    let same : (freed.slabs i).ent_size ≡ (h.slabs i).ent_size =
      ap (λ (g : Heap). (g.slabs i).ent_size) (freed_lem i h a there)
      ∙ ap (λ (s : Slab). s.ent_size)
          (set_slab_self i (record (h.slabs i) { first_free = a }) h.slabs) in
    let (got, left, clear, others) = take_block-IsTaken i freed a xs listed in
    rw full (got, left, λ b lo hi. clear b lo (omega (arith, same)))
