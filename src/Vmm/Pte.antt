-- ===== src/Vmm/Pte.antt =====
-- The entries of the page tables of kernel/mm/vmm.k.h as numbers.
use Prim.Native.Nat.{bit_and, bit_or, max}
use os_lyre.Base.{
  ℕ, ◌+◌, ◌-◌, ◌*◌, ◌/◌, ◌%◌, ◌^◌, ◌<◌, ◌≡◌, refl, ap, sym, ◌∙◌, arith, true, not, ◌==◌,
}
use native.Mathlib.Nat.{div-eq_of_eq-mul_left}
use os_lyre.Base.Bits.{
  bit_and-shift, bit_and-ones, bit_and_low, bit_or_low, bit_or-zero, bit_or-div, bit_or-mod,
}
use os_lyre.Vmm.{
  pte_get_addr, pte_get_flags, is_present, pte_present, pte_writable, pte_user, table_index,
}

mul-div_self : (k : ℕ) {w : ℕ} → 0 < w → k * w / w ≡ k
mul-div_self k h = div-eq_of_eq-mul_left h refl

pub pte_get_addr_lem : (v : ℕ) → pte_get_addr v ≡ (v / 4096) % 2 ^ 40 * 4096
unfolding pte_get_addr
pte_get_addr_lem v =
    bit_and-shift 12 v (2 ^ 40 - 1) ∙ ap (λ x. x * 4096) (bit_and-ones 40 (v / 4096))

pub is_present_lem : (v : ℕ) → is_present v ≡ (v % 2 == 1)
unfolding is_present
is_present_lem v = ap (λ x. not (x == 0)) (bit_and-ones 1 v) ∙ ground arith

pub table_index_lem : (s v : ℕ) → 0 < 2 ^ s → table_index s v ≡ (v / 2 ^ s) % 512
unfolding table_index
table_index_lem s v h =
    ap (λ x. x / 2 ^ s) (bit_and-shift s v 0x1ff)
    ∙ mul-div_self (bit_and (v / 2 ^ s) 0x1ff) h
    ∙ bit_and-ones 9 (v / 2 ^ s)

-- An `|` with flags keeps the address.
pub addr-or : (a f : ℕ) → pte_get_addr f ≡ 0 → pte_get_addr (bit_or a f) ≡ pte_get_addr a
addr-or a f z =
    let none_set : (f / 4096) % 2 ^ 40 ≡ 0 = omega (arith, pte_get_addr_lem f) in
    let parts = ap (λ x. x % 2 ^ 40) (bit_or-div 12 a f) ∙ bit_or-mod 40 (a / 4096) (f / 4096) in
    let whole =
      parts ∙ ap (bit_or ((a / 4096) % 2 ^ 40)) none_set ∙ bit_or-zero ((a / 4096) % 2 ^ 40) in
    pte_get_addr_lem (bit_or a f) ∙ ap (λ x. x * 4096) whole ∙ sym (pte_get_addr_lem a)

pub addr_aligned : (a : ℕ) → a % 4096 ≡ 0 → a < 2 ^ 52 → pte_get_addr a ≡ a
addr_aligned a h l = omega (arith, pte_get_addr_lem a)

pub addr-addr : (v : ℕ) → pte_get_addr (pte_get_addr v) ≡ pte_get_addr v
addr-addr v =
    addr_aligned (pte_get_addr v) (omega (arith, pte_get_addr_lem v))
      (omega (arith, pte_get_addr_lem v))

pub present-or : (a f : ℕ) → f % 2 ≡ 1 → is_present (bit_or a f) ≡ true
present-or a f h = is_present_lem (bit_or a f) ∙ ground (arith, bit_or_low a f)

abbrev pub table_entry : ℕ → ℕ
table_entry a = bit_or (bit_or (bit_or a pte_present) pte_writable) pte_user

low-or : (a f : ℕ) → bit_or a f % 2 ≡ max (a % 2) (f % 2)
low-or a f = omega (arith, bit_or_low a f)

pub table_entry-present : (a : ℕ) → is_present (table_entry a) ≡ true
table_entry-present a =
    is_present_lem (table_entry a)
    ∙ ground (arith, low-or (bit_or (bit_or a 1) 2) 4, low-or (bit_or a 1) 2, low-or a 1)

pub table_entry-addr : (a : ℕ) → a % 4096 ≡ 0 → a < 2 ^ 52 → pte_get_addr (table_entry a) ≡ a
table_entry-addr a h l =
    addr-or (bit_or (bit_or a 1) 2) 4 (omega (arith, pte_get_addr_lem 4))
    ∙ addr-or (bit_or a 1) 2 (omega (arith, pte_get_addr_lem 2))
    ∙ addr-or a 1 (omega (arith, pte_get_addr_lem 1))
    ∙ addr_aligned a h l

-- The present bit is among the flags.
pub flags_present : (v : ℕ) → (bit_and (pte_get_flags v) pte_present == 0) ≡ not (is_present v)
unfolding pte_get_flags is_present
flags_present v =
    let all : bit_and (bit_and v 0xfff0000000000fff) 1 ≡ bit_and v 1 = omega (
      arith,
      bit_and-ones 1 (bit_and v 0xfff0000000000fff),
      bit_and-ones 1 v,
      bit_and_low v 0xfff0000000000fff,
    ) in
    ap (λ x. x == 0) all ∙ ground arith

-- the number of the page in 48 bits of an address
abbrev pub page_of : ℕ → ℕ
page_of v = (v / 4096) % 2 ^ 36

pub page_of_lem :
    (v : ℕ)
    → page_of v
      ≡ ((table_index 39 v * 512 + table_index 30 v) * 512 + table_index 21 v) * 512
        + table_index 12 v
page_of_lem v = omega (
  arith,
  table_index_lem 39 v (omega arith),
  table_index_lem 30 v (omega arith),
  table_index_lem 21 v (omega arith),
  table_index_lem 12 v (omega arith),
)

pub table_index-lt : (s v : ℕ) → 0 < 2 ^ s → table_index s v < 512
table_index-lt s v h = omega (arith, table_index_lem s v h)
