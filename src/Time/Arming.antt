-- ===== src/Time/Arming.antt =====
-- How `timer_arm` of kernel/time/time.c adds a timer to the list of armed timers.
use os_lyre.Base.{
  ℕ, zero, suc, ◌+◌, ◌<◌, ◌≡◌, ◌≢◌, ◌↔◌, ◌⊎◌, inl, inr, refl, ap, ◌∙◌, sym, arith, false, none,
  some, List, [], ◌∷◌, ◌++◌, length, get_or, length-append,
}
use os_lyre.Time.{Clock, timer_arm}
use os_lyre.Time.Armed.{IsIndexed, IsIn, IsValid, nat_cases, some_inj, none_ne_some}

get_or-append_old :
    (xs : List ℕ) (t k : ℕ) → k < length xs → get_or (xs ++ (t ∷ [])) k 0 ≡ get_or xs k 0
get_or-append_old [] t k h = absurd (omega arith)
get_or-append_old (x ∷ xs) t zero h = refl
get_or-append_old (x ∷ xs) t (suc k) h = get_or-append_old xs t k (omega arith)

get_or-append_new : (xs : List ℕ) (t : ℕ) → get_or (xs ++ (t ∷ [])) (length xs) 0 ≡ t
get_or-append_new [] t = refl
get_or-append_new (x ∷ xs) t = get_or-append_new xs t

module _ (s : Clock) (t : ℕ) (v : IsValid s) (n : (s.timer t).index ≡ none) where
  longer : length (timer_arm t s).armed ≡ length s.armed + 1
  unfolding timer_arm
  longer = length-append s.armed (t ∷ [])

  place_old : (k : ℕ) → k < length s.armed → get_or (timer_arm t s).armed k 0 ≡ get_or s.armed k 0
  unfolding timer_arm
  place_old k h = get_or-append_old s.armed t k h

  place_new : get_or (timer_arm t s).armed (length s.armed) 0 ≡ t
  unfolding timer_arm
  place_new = get_or-append_new s.armed t

  index_new : (u : ℕ) → u ≡ t → ((timer_arm t s).timer u).index ≡ some (length s.armed)
  unfolding timer_arm
  index_new u p = ground (arith, p)

  index_old : (u : ℕ) → u ≢ t → ((timer_arm t s).timer u).index ≡ (s.timer u).index
  unfolding timer_arm
  index_old u p = ground (arith, p)

  not_in : (k : ℕ) → k < length s.armed → get_or s.armed k 0 ≢ t
  not_in k h p = none_ne_some k (sym n ∙ ap (λ u. (s.timer u).index) (sym p) ∙ v.0 k h)

  IsIn-old : (u : ℕ) → IsIn s u → IsIn (timer_arm t s) u
  IsIn-old u (k, h, e) = (k, omega (arith, longer), place_old k h ∙ e)

  IsIn-new : (u : ℕ) → u ≡ t → IsIn (timer_arm t s) u
  IsIn-new u p = (length s.armed, omega (arith, longer), place_new ∙ sym p)

  armed_split : (u : ℕ) → IsIn (timer_arm t s) u → (u ≡ t) ⊎ IsIn s u
  armed_split u (k, h, e) = elim (nat_cases k (length s.armed)) [
    | inl p ↦ inl (sym e ∙ ap (λ j. get_or (timer_arm t s).armed j 0) p ∙ place_new)
    | inr p ↦
        let lt : k < length s.armed = omega (arith, longer, p) in
        inr (k, lt, sym (place_old k lt) ∙ e)
  ]

  indexed : IsIndexed (timer_arm t s)
  indexed k h = elim (nat_cases k (length s.armed)) [
    | inl p ↦
        index_new _ (ap (λ j. get_or (timer_arm t s).armed j 0) p ∙ place_new) ∙ ap some (sym p)
    | inr p ↦
        let lt : k < length s.armed = omega (arith, longer, p) in
        ap (λ u. ((timer_arm t s).timer u).index) (place_old k lt)
        ∙ index_old _ (not_in k lt)
        ∙ v.0 k lt
  ]

  index_back :
      (u i : ℕ)
      → ((timer_arm t s).timer u).index ≡ some i
      → (i < length (timer_arm t s).armed) × (get_or (timer_arm t s).armed i 0 ≡ u)
  index_back u i e = elim (nat_cases u t) [
    | inl p ↦
        let here = some_inj i (length s.armed) (sym e ∙ index_new u p) in
        rw here (omega (arith, longer), place_new ∙ sym p)
    | inr p ↦
        let old = v.1 u i (sym (index_old u p) ∙ e) in
        (omega (arith, longer, old.0), place_old i old.0 ∙ old.1)
  ]

  not_fired : ((timer_arm t s).timer t).fired ≡ false
  unfolding timer_arm
  not_fired = ground arith

-- Where the indices agree with the list, arming a timer that is not in it keeps them so, and the timers
-- in the list afterwards are those that were in it and this one, which has not fired.
pub timer_arm-IsValid :
    (s : Clock) (t : ℕ)
    → IsValid s
    → (s.timer t).index ≡ none
    → IsValid (timer_arm t s)
      × ((u : ℕ) → IsIn (timer_arm t s) u ↔ ((u ≡ t) ⊎ IsIn s u))
      × (((timer_arm t s).timer t).fired ≡ false)
timer_arm-IsValid s t v n = (
  (indexed s t v n, index_back s t v n),
  (λ u. (
    armed_split s t v n u,
    λ w. elim w [ inl p ↦ IsIn-new s t v n u p | inr h ↦ IsIn-old s t v n u h ],
  )),
  not_fired s t v n,
)
