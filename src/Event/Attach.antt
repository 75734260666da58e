-- ===== src/Event/Attach.antt =====
-- `attach_listeners` of kernel/lib/event.c.
use os_lyre.Base.{
  ℕ, suc, ◌≡◌, ◌⊎◌, inl, inr, refl, ◌∙◌, sym, arith, true, none, some, List, [], ◌∷◌, ◌++◌, ◌==◌,
  ==_iff, Bool-cases, length, All,
}
use os_lyre.Event.{
  World, Listener, set_event, set_thread, attach_one, attach_from, event_max_listeners, max_events,
}
use os_lyre.Event.Settled.{IsSettled, set_event-IsSettled}

-- The thread is among the listeners.
abbrev pub IsListed : ℕ → List Listener → Type 0
IsListed t [] = ⊥
IsListed t (l ∷ ls) = (l.thread ≡ t) ⊎ IsListed t ls

IsListed-snoc :
    (t : ℕ) (ls : List Listener) (l : Listener) → l.thread ≡ t → IsListed t (ls ++ (l ∷ []))
IsListed-snoc t [] l e = inl e
IsListed-snoc t (k ∷ ls) l e = inr (IsListed-snoc t ls l e)

pub IsListed-append : (t : ℕ) (ls ks : List Listener) → IsListed t ls → IsListed t (ls ++ ks)
IsListed-append t [] ks h = elim h [ ]
IsListed-append t (l ∷ ls) ks h = elim h [ inl e ↦ inl e | inr e ↦ inr (IsListed-append t ls ks e) ]

==_self : (e : ℕ) → (e == e) ≡ true
==_self e = ground arith

still :
    (w v : World) (es : List ℕ)
    → ((d : ℕ) → (v.event d).pending ≡ (w.event d).pending)
    → All (λ e. (w.event e).pending ≡ 0) es
    → All (λ e. (v.event e).pending ≡ 0) es
still w v [] z a = tt
still w v (e ∷ es) z a = (z e ∙ a.0, still w v es z a.1)

-- What attaching a thread to some events makes of a settled world.
abbrev pub IsAttached : ℕ → World → World → Type 0
IsAttached t w v =
    IsSettled v
    × ((d : ℕ) → (v.event d).pending ≡ (w.event d).pending)
    × ((d : ℕ) → IsListed t (w.event d).listeners → IsListed t (v.event d).listeners)

module _ (t i e : ℕ) (w : World) where
  abbrev added : Listener
  added = record { thread = t; which = i }

  abbrev listened : World
  listened =
      set_thread t
        (record (w.thread t) { attached_events = (w.thread t).attached_events ++ (e ∷ []) })
        (set_event e (record (w.event e) { listeners = (w.event e).listeners ++ (added ∷ []) }) w)

  listened-IsAttached : IsSettled w → (w.event e).pending ≡ 0 → IsAttached t w listened
  listened-IsAttached h z = (
    set_event-IsSettled e (record (w.event e) { listeners = (w.event e).listeners ++ (added ∷ []) })
        w (inl z) h,
    (λ d. elim (Bool-cases (d == e)) [ inl p ↦ rw (p, (==_iff d e).0 p) refl | inr p ↦ rw p refl ]),
    λ d l. elim (Bool-cases (d == e)) [
      | inl p ↦
          rw p
            (IsListed-append t (w.event e).listeners (added ∷ []) (rw (sym ((==_iff d e).0 p)) l))
      | inr p ↦ rw p l
    ],
  )

  listened-IsListed : IsListed t (listened.event e).listeners
  listened-IsListed = rw (==_self e) (IsListed-snoc t (w.event e).listeners added refl)

  attach_one_lem : (attach_one t i e w ≡ none) ⊎ (attach_one t i e w ≡ some listened)
  unfolding attach_one
  attach_one_lem = elim (Bool-cases (length (w.event e).listeners == event_max_listeners)) [
    | inl p ↦ inl (rw p refl)
    | inr p ↦ elim (Bool-cases (length (w.thread t).attached_events == max_events)) [
      | inl q ↦ inl (rw (p, q) refl)
      | inr q ↦ inr (rw (p, q) refl)
    ]
  ]

attach_stop :
    (t i e : ℕ) (es : List ℕ) (w : World)
    → attach_one t i e w ≡ none
    → attach_from t i (e ∷ es) w ≡ none
unfolding attach_from
attach_stop t i e es w p = rw (p, attach_from) refl

attach_go :
    (t i e : ℕ) (es : List ℕ) (w v : World)
    → attach_one t i e w ≡ some v
    → attach_from t i (e ∷ es) w ≡ attach_from t (suc i) es v
unfolding attach_from
attach_go t i e es w v p = rw (p, attach_from) refl

-- Where nothing is pending, attaching keeps the world settled and lists the thread with every event,
-- unless it panics.
pub attach_from_lem :
    (t i : ℕ) (es : List ℕ) (w : World)
    → IsSettled w
    → All (λ e. (w.event e).pending ≡ 0) es
    → (attach_from t i es w ≡ none)
      ⊎ ((v : World) × (attach_from t i es w ≡ some v)
          × IsAttached t w v
          × All (λ e. IsListed t (v.event e).listeners) es)
unfolding attach_from
attach_from_lem t i [] w h a = inr (w, refl, (h, (λ d. refl), λ d l. l), tt)
attach_from_lem t i (e ∷ es) w h a = elim (attach_one_lem t i e w) [
  | inl p ↦ inl (attach_stop t i e es w p)
  | inr p ↦
      let u = listened t i e w in
      let (s, z, k) = listened-IsAttached t i e w h a.0 in
      elim (attach_from_lem t (suc i) es u s (still w u es z a.1)) [
        | inl q ↦ inl (attach_go t i e es w u p ∙ q)
        | inr (v, q, (s2, z2, k2), l) ↦ inr (
          v,
          attach_go t i e es w u p ∙ q,
          (s2, (λ d. z2 d ∙ z d), λ d x. k2 d (k d x)),
          (k2 e (listened-IsListed t i e w), l),
        )
      ]
]
