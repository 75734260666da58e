-- ===== src/Pmm/Place.antt =====
-- Which pages `pmm_init` of kernel/mm/pmm.c leaves free: the usable ones but those of the bitmap itself.
use os_lyre.Base.{
  ℕ, ◌+◌, ◌/◌, ◌≤◌, ◌≡◌, Bool, true, false, ◌&&◌, Option, none, some, List, [], ◌∷◌, leb,
  if◌then◌else◌,
}
use os_lyre.Pmm.{MemEntry, Pmm, is_usable}
use os_lyre.Pmm.Search.{inside}
use os_lyre.Pmm.Init.{covered}

-- The address of the first usable entry that holds `size` bytes.
unfoldable pub first_fit : ℕ → List MemEntry → Option ℕ
first_fit size [] = none
first_fit size (e ∷ es) =
    let rest = first_fit size es in if is_usable e && leb size e.length then some e.base else rest

-- Page `i` lies in the usable entry.
abbrev pub holds_page : MemEntry → ℕ → Bool
holds_page e i = is_usable e && inside (e.base / 4096) ((e.length + 4095) / 4096) i

-- No page lies in two usable entries.
unfoldable pub AreDisjoint : List MemEntry → Type 0
AreDisjoint [] = 0 ≤ 0
AreDisjoint (e ∷ es) = ((i : ℕ) → holds_page e i ≡ true → covered es i ≡ false) × AreDisjoint es

-- Page `i` lies in the bitmap, which is at `base`.
abbrev pub in_bitmap : ℕ → ℕ → ℕ → Bool
in_bitmap size base i = inside (base / 4096) (size / 4096) i
