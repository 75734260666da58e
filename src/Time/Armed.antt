-- ===== src/Time/Armed.antt =====
-- The list of armed timers of kernel/time/time.c: each timer knows its place in it.
use os_lyre.Base.{
  ℕ, zero, suc, ◌-◌, ◌<◌, ◌≡◌, ◌≢◌, refl, ap, ◌∙◌, sym, arith, Bool, true, false, Option, none,
  some, List, [], ◌∷◌, ◌==◌, ==_iff, if◌then◌else◌, length, get_or, set, take, length-set,
  length-take, get_or-set_self, get_or-set_ne, Bool-cases, Option-cases, lt→ltb, ◌↔◌, inl, inr, ◌⊎◌,
}
use os_lyre.Time.{Clock, remove_at, disarm_index, timer_disarm}

-- The timer in place `k` of the list has the index `k`.
abbrev pub IsIndexed : Clock → Type 0
IsIndexed s = (k : ℕ) → k < length s.armed → (s.timer (get_or s.armed k 0)).index ≡ some k

-- The timer `u` stands in the list.
abbrev pub IsIn : Clock → ℕ → Type 0
IsIn s u = (k : ℕ) × (k < length s.armed) × (get_or s.armed k 0 ≡ u)

-- Every timer in the list has its place as its index, and a timer with an index stands there.
abbrev pub IsValid : Clock → Type 0
IsValid s =
    IsIndexed s
    × ((u i : ℕ) → (s.timer u).index ≡ some i → (i < length s.armed) × (get_or s.armed i 0 ≡ u))

get_or-take : (n k : ℕ) (xs : List ℕ) → k < n → get_or (take n xs) k 0 ≡ get_or xs k 0
get_or-take zero k xs h = elim h [ ]
get_or-take (suc n) k [] h = refl
get_or-take (suc n) zero (x ∷ xs) h = refl
get_or-take (suc n) (suc k) (x ∷ xs) h = get_or-take n k xs (omega arith)

pub nat_cases : (j k : ℕ) → (j ≡ k) ⊎ (j ≢ k)
nat_cases j k = elim (Bool-cases (j == k)) [
  | inl e ↦ inl ((==_iff j k).0 e)
  | inr e ↦ inr (λ p. ground arith)
]

if-true : (b : Bool) (x y : ℕ) → b ≡ true → (if b then x else y) ≡ x
if-true b x y e = rw e refl

if-false : (b : Bool) (x y : ℕ) → b ≡ false → (if b then x else y) ≡ y
if-false b x y e = rw e refl

<_ne : {j k : ℕ} → j < k → j ≢ k
<_ne h e = omega arith

last_ne : {j n : ℕ} → j < n → j ≢ n - 1 → j < n - 1
last_ne h e = omega (arith, e)

==_refl : (k : ℕ) → (k == k) ≡ true
==_refl k = ground arith

pub ==_ne : (j k : ℕ) → j ≢ k → (j == k) ≡ false
==_ne j k h = ground arith

value : Option ℕ → ℕ
value none = 0
value (some n) = n

pub some_inj : (j k : ℕ) → some j ≡ some k → j ≡ k
unfolding value
some_inj j k e = ap value e

module _ (s : Clock) (v : IsIndexed s) (t i : ℕ) (inside : i < length s.armed)
    (at : get_or s.armed i 0 ≡ t) where
  length-remove_at : length (remove_at t i s).armed ≡ length s.armed - 1
  unfolding remove_at
  length-remove_at = omega (
    arith,
    length-take (length s.armed - 1) (set s.armed i (get_or s.armed (length s.armed - 1) 0)),
    length-set s.armed i (get_or s.armed (length s.armed - 1) 0),
  )

  element :
      (k : ℕ)
      → k < length s.armed - 1
      → get_or (remove_at t i s).armed k 0
        ≡ (if k == i then get_or s.armed (length s.armed - 1) 0 else get_or s.armed k 0)
  unfolding remove_at
  element k h =
      get_or-take (length s.armed - 1) k (set s.armed i (get_or s.armed (length s.armed - 1) 0)) h
      ∙ elim (Bool-cases (k == i)) [
        | inl e ↦ rw (
          e,
          (==_iff k i).0 e,
          get_or-set_self s.armed i (get_or s.armed (length s.armed - 1) 0) 0 inside,
        )
        | inr e ↦ rw (
          e,
          get_or-set_ne s.armed i k (get_or s.armed (length s.armed - 1) 0) 0 (λ p. ground arith),
        )
      ]

  index_after :
      (u : ℕ)
      → ((remove_at t i s).timer u).index ≡ (
          if u == t
          then none
          else if u == get_or s.armed (length s.armed - 1) 0
          then some i
          else (s.timer u).index)
  unfolding remove_at
  index_after u = ground arith

  shorter : (k : ℕ) → k < length (remove_at t i s).armed → k < length s.armed - 1
  shorter k h = omega (arith, length-remove_at)

  index_of : (s.timer t).index ≡ some i
  index_of = ap (λ u. (s.timer u).index) (sym at) ∙ v i inside

  index_last : (s.timer (get_or s.armed (length s.armed - 1) 0)).index ≡ some (length s.armed - 1)
  index_last = v (length s.armed - 1) (omega arith)

  remove_at-IsIndexed : IsIndexed (remove_at t i s)
  remove_at-IsIndexed k h =
      let le = shorter k h in
      elim (Bool-cases (k == i)) [
        | inl e ↦
            rw (element k le, e)
              (index_after _ ∙ ground (arith, index_last, index_of, (==_iff k i).0 e))
        | inr e ↦
            rw (element k le, e)
              (index_after _ ∙ ground (arith, index_last, index_of, v k (omega arith)))
      ]

  -- two places with the same timer are one
  same_place :
      (j k : ℕ)
      → j < length s.armed
      → k < length s.armed
      → get_or s.armed j 0 ≡ get_or s.armed k 0
      → j ≡ k
  same_place j k h l e = some_inj j k (sym (v j h) ∙ ap (λ u. (s.timer u).index) e ∙ v k l)

  moved_place :
      i < length s.armed - 1
      → get_or (remove_at t i s).armed i 0 ≡ get_or s.armed (length s.armed - 1) 0
  moved_place h = element i h ∙ if-true _ _ _ (==_refl i)

  kept_place :
      (k : ℕ)
      → k ≢ i
      → k < length s.armed - 1
      → get_or (remove_at t i s).armed k 0 ≡ get_or s.armed k 0
  kept_place k n h = element k h ∙ if-false _ _ _ (==_ne k i n)

  remove_at-IsIn : (u : ℕ) → u ≢ t → IsIn s u → IsIn (remove_at t i s) u
  remove_at-IsIn u n (k, h, e) = elim (nat_cases k (length s.armed - 1)) [
    | inl last ↦
        let ends : get_or s.armed (length s.armed - 1) 0 ≡ u =
          ap (λ j. get_or s.armed j 0) (sym last) ∙ e in
        let apart : i ≢ length s.armed - 1 =
          λ p. n (sym ends ∙ ap (λ j. get_or s.armed j 0) (sym p) ∙ at) in
        let lt : i < length s.armed - 1 = omega (arith, apart) in
        (i, omega (arith, lt, length-remove_at), moved_place lt ∙ ends)
    | inr before ↦
        let lt : k < length s.armed - 1 = omega (arith, before) in
        (
          k,
          omega (arith, lt, length-remove_at),
          kept_place k (λ p. n (sym e ∙ ap (λ j. get_or s.armed j 0) p ∙ at)) lt ∙ e,
        )
  ]

  remove_at-out : (u : ℕ) → IsIn (remove_at t i s) u → (u ≢ t) × IsIn s u
  remove_at-out u (k, h, e) =
      let lt = shorter k h in
      elim (nat_cases k i) [
        | inl here ↦
            let ends : get_or s.armed (length s.armed - 1) 0 ≡ u =
              sym (moved_place (rw (sym here) lt))
              ∙ ap (λ j. get_or (remove_at t i s).armed j 0) (sym here)
              ∙ e in
            (
              λ p. <_ne lt (
                  here
                  ∙ same_place i (length s.armed - 1) inside (omega arith) (at ∙ sym p ∙ sym ends)),
              (length s.armed - 1, omega arith, ends),
            )
        | inr away ↦
            let same = sym (kept_place k away lt) ∙ e in
            (
              λ p. away (same_place k i (omega arith) inside (same ∙ p ∙ sym at)),
              (k, omega arith, same),
            )
      ]

pub none_ne_some : (i : ℕ) → none ≢ some i
none_ne_some i e = grind arith

module _ (s : Clock) (v : IsValid s) (t i : ℕ) (inside : i < length s.armed)
    (at : get_or s.armed i 0 ≡ t) where
  index_self : (u : ℕ) → u ≡ t → ((remove_at t i s).timer u).index ≡ none
  index_self u p = index_after s v.0 t i inside at u ∙ ground (arith, p)

  index_moved :
      (u : ℕ)
      → u ≢ t
      → u ≡ get_or s.armed (length s.armed - 1) 0
      → ((remove_at t i s).timer u).index ≡ some i
  index_moved u n p = index_after s v.0 t i inside at u ∙ ground (arith, n, p)

  index_kept :
      (u : ℕ)
      → u ≢ t
      → u ≢ get_or s.armed (length s.armed - 1) 0
      → ((remove_at t i s).timer u).index ≡ (s.timer u).index
  index_kept u n m = index_after s v.0 t i inside at u ∙ ground (arith, n, m)

  index_back :
      (u j : ℕ)
      → ((remove_at t i s).timer u).index ≡ some j
      → (j < length s.armed - 1) × (get_or (remove_at t i s).armed j 0 ≡ u)
  index_back u j e = elim (nat_cases u t) [
    | inl p ↦ absurd (none_ne_some j (sym (index_self u p) ∙ e))
    | inr n ↦ elim (nat_cases u (get_or s.armed (length s.armed - 1) 0)) [
      | inl l ↦
          let here = some_inj j i (sym e ∙ index_moved u n l) in
          let apart : i ≢ length s.armed - 1 =
            λ p. n (l ∙ ap (λ k. get_or s.armed k 0) (sym p) ∙ at) in
          let lt : i < length s.armed - 1 = omega (arith, apart) in
          rw here (lt, moved_place s v.0 t i inside at lt ∙ sym l)
      | inr m ↦
          let old = v.1 u j (sym (index_kept u n m) ∙ e) in
          let lt : j < length s.armed - 1 =
            last_ne old.0 (λ p. m (sym old.1 ∙ ap (λ k. get_or s.armed k 0) p)) in
          (
            lt,
            kept_place s v.0 t i inside at j
                  (λ p. n (sym old.1 ∙ ap (λ k. get_or s.armed k 0) p ∙ at)) lt
                ∙ old.1,
          )
    ]
  ]

  remove_at-IsValid : IsValid (remove_at t i s)
  remove_at-IsValid = (
    remove_at-IsIndexed s v.0 t i inside at,
    λ u j e. let b = index_back u j e in (rw (length-remove_at s v.0 t i inside at) b.0, b.1),
  )

-- Where the indices agree with the list, disarming a timer keeps them so, and the timers in the list
-- afterwards are those that were in it, without this one.
pub timer_disarm-IsValid :
    (s : Clock) (t : ℕ)
    → IsValid s
    → IsValid (timer_disarm t s) × ((u : ℕ) → IsIn (timer_disarm t s) u ↔ ((u ≢ t) × IsIn s u))
unfolding timer_disarm disarm_index
timer_disarm-IsValid s t v = elim (Option-cases (s.timer t).index) [
  | inl e ↦ rw e (
    v,
    λ u. (
      (λ w. (
        (λ p.
            none_ne_some w.0 (sym e ∙ ap (λ k. (s.timer k).index) (sym p ∙ sym w.2) ∙ v.0 w.0 w.1)),
        w,
      )),
      λ w. w.1,
    ),
  )
  | inr (i, e) ↦
      let old = v.1 t i e in
      rw (e, lt→ltb _ _ old.0)
        (
          remove_at-IsValid s v t i old.0 old.1,
          λ u. (
            remove_at-out s v.0 t i old.0 old.1 u,
            λ w. remove_at-IsIn s v.0 t i old.0 old.1 u w.0 w.1,
          ),
        )
]
