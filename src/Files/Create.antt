-- ===== src/Files/Create.antt =====
-- `fdnum_create_from_fd` of kernel/lib/resource.c: which number a descriptor gets.
use os_lyre.Base.{
  ℕ, zero, suc, ◌+◌, ◌-◌, ◌≤◌, ◌<◌, ◌≡◌, ◌≢◌, refl, ◌∙◌, sym, arith, false, ◌&&◌, ◌⊎◌, inl, inr,
  Option, none, some, List, lt→ltb, ◌==◌, ==_iff, Bool-cases, Option-cases, if◌then◌else◌, length,
  get_or, get_or-set_self, get_or-set_ne,
}
use mathlib.Core.Option.{some-injective}
use os_lyre.Base.Int.{pos, minus_one}
use os_lyre.Files.{
  ResourceOps, Files, max_fds, slot, set_slot, fd_index, find_free, put_free, fdnum_create_from_fd,
}

-- What a search from `i` over `rounds` slots finds.
pub record IsFirstFree (fds : List (Option ℕ)) (i rounds j : ℕ) : Type 0 where
  pub from : i ≤ j
  pub before : j < i + rounds
  pub empty : get_or fds j none ≡ none
  pub taken : (k : ℕ) → i ≤ k → k < j → get_or fds k none ≢ none

find_free_here :
    (fds : List (Option ℕ)) (i rounds : ℕ)
    → get_or fds i none ≡ none
    → find_free fds i (suc rounds) ≡ some i
unfolding find_free
find_free_here fds i rounds e = rw (e, find_free)

find_free_later :
    (fds : List (Option ℕ)) (i rounds : ℕ) {fd : ℕ}
    → get_or fds i none ≡ some fd
    → find_free fds i (suc rounds) ≡ find_free fds (i + 1) rounds
unfolding find_free
find_free_later fds i rounds e = rw (e, find_free)

find_free-nil : (fds : List (Option ℕ)) (i : ℕ) {j : ℕ} → find_free fds i zero ≡ some j → ⊥
unfolding find_free
find_free-nil fds i h = cc

-- Slots taken at `i` and behind it are taken from `i` on.
taken_from :
    (fds : List (Option ℕ)) (i k : ℕ)
    → (fd : ℕ) × (get_or fds i none ≡ some fd)
    → (i + 1 ≤ k → get_or fds k none ≢ none)
    → i ≤ k
    → get_or fds k none ≢ none
taken_from fds i k (fd, e) later lo = elim (Bool-cases (i == k)) [
  | inl here ↦ λ p. cc ((==_iff i k).0 here)
  | inr past ↦ later (ground arith)
]

find_free-some :
    (fds : List (Option ℕ)) (i rounds : ℕ) {j : ℕ}
    → find_free fds i rounds ≡ some j
    → IsFirstFree fds i rounds j
find_free-some fds i zero h = absurd (find_free-nil fds i h)
find_free-some fds i (suc rounds) {j} h = elim (Option-cases (get_or fds i none)) [
  | inl e ↦
      let here : i ≡ j = some-injective _ _ (sym (find_free_here fds i rounds e) ∙ h) in
      record {
        from = omega arith;
        before = omega arith;
        empty = rw (← here) e;
        taken = λ k lo hi. absurd (omega arith);
      }
  | inr (fd, e) ↦
      let f = find_free-some fds (i + 1) rounds (sym (find_free_later fds i rounds e) ∙ h) in
      record {
        from = omega (arith, f.from);
        before = omega (arith, f.before);
        empty = f.empty;
        taken = λ k lo hi. taken_from fds i k (fd, e) (λ m. f.taken k m hi) lo;
      }
]

find_free-none :
    (fds : List (Option ℕ)) (i rounds : ℕ)
    → find_free fds i rounds ≡ none
    → (k : ℕ) → i ≤ k
    → k < i + rounds
    → get_or fds k none ≢ none
find_free-none fds i zero h k lo hi = absurd (omega arith)
find_free-none fds i (suc rounds) h k lo hi = elim (Option-cases (get_or fds i none)) [
  | inl e ↦ absurd (cc (find_free_here fds i rounds e))
  | inr e ↦
      taken_from fds i k e
        (λ m.
          find_free-none fds (i + 1) rounds (sym (find_free_later fds i rounds e.1) ∙ h) k m
            (omega arith))
        lo
]

pub slot-set_slot :
    {R : Type 0} (s : Files R) (proc i : ℕ) (v : Option ℕ)
    → i < length (s.table proc)
    → (q k : ℕ) → slot (set_slot proc i v s) q k ≡ (if q == proc && k == i then v else slot s q k)
unfolding set_slot
slot-set_slot s proc i v h q k = elim (Bool-cases (q == proc)) [
  | inr e ↦ rw e
  | inl e ↦ elim (Bool-cases (k == i)) [
    | inl e' ↦ rw (e, e', (==_iff k i).0 e', get_or-set_self (s.table proc) i v none h)
    | inr e' ↦
        rw (e, e', (==_iff q proc).0 e, get_or-set_ne (s.table proc) i k v none (λ p. ground arith))
  ]
]

put_free-some :
    {R : Type 0} (ops : ResourceOps R) (proc fd i : ℕ) (s : Files R)
    → (o : Option ℕ) → find_free (s.table proc) i (max_fds - i) ≡ o
    → i < max_fds
    → length (s.table proc) ≡ max_fds
    → let (n, s') = put_free ops proc fd o s in
      ((j : ℕ) × (n ≡ pos j)
        × IsFirstFree (s.table proc) i (max_fds - i) j
        × ((q k : ℕ) → slot s' q k ≡ (if q == proc && k == j then some fd else slot s q k)))
      ⊎ ((n ≡ minus_one) × (s' ≡ s) × ((k : ℕ) → i ≤ k → k < max_fds → slot s proc k ≢ none))
unfolding put_free
put_free-some ops proc fd i s none e h l =
    inr (refl, refl, λ k lo hi. find_free-none (s.table proc) i (max_fds - i) e k lo (omega arith))
put_free-some ops proc fd i s (some j) e h l =
    let f = find_free-some (s.table proc) i (max_fds - i) e in
    inl (j, refl, f, slot-set_slot s proc j (some fd) (omega (arith, f.before)))

pub fd_index-pos : (i : ℕ) → i < max_fds → fd_index (pos i) ≡ some i
unfolding fd_index
fd_index-pos i h = rw (lt→ltb i max_fds h)

create_at :
    {R : Type 0} (ops : ResourceOps R) (proc fd i : ℕ) (s : Files R)
    → i < max_fds
    → fdnum_create_from_fd ops proc fd (pos i) false s
      ≡ put_free ops proc fd (find_free (s.table proc) i (max_fds - i)) s
unfolding fdnum_create_from_fd
create_at ops proc fd i s h = ground (arith, fd_index-pos i h)

-- With a full-sized table, a descriptor that is given no particular number gets the lowest free one
-- from `i` on: that slot was free, all from `i` to it are taken, and no other slot of any process
-- changes. It gets -1, with nothing changed, exactly when all of them are taken.
pub fdnum_create_lowest :
    {R : Type 0} (ops : ResourceOps R) (proc fd i : ℕ) (s : Files R)
    → i < max_fds
    → length (s.table proc) ≡ max_fds
    → let (n, s') = fdnum_create_from_fd ops proc fd (pos i) false s in
      ((j : ℕ) × (n ≡ pos j)
        × IsFirstFree (s.table proc) i (max_fds - i) j
        × ((q k : ℕ) → slot s' q k ≡ (if q == proc && k == j then some fd else slot s q k)))
      ⊎ ((n ≡ minus_one) × (s' ≡ s) × ((k : ℕ) → i ≤ k → k < max_fds → slot s proc k ≢ none))
fdnum_create_lowest ops proc fd i s h l =
    rw (create_at ops proc fd i s h)
      (put_free-some ops proc fd i s (find_free (s.table proc) i (max_fds - i)) refl h l)
