-- ===== src/Pipe/Ring.antt =====
-- The ring of kernel/ipc/pipe.c as the list of bytes it holds: copying in two parts is pushing and
-- popping byte by byte.
use os_lyre.Base.{
  ℕ, zero, suc, ◌+◌, ◌-◌, ◌≤◌, ◌<◌, ◌≡◌, ◌≢◌, refl, ap, ◌∙◌, sym, arith, ◌⊎◌, List, [], ◌∷◌, ◌++◌,
  ltb, ◌==◌, if◌then◌else◌, length, get_or, set, take, drop, length-set, get_or-set_self,
  get_or-set_ne, inl, inr, length-take,
}
use mathlib.Core.Path.{ap₂}
use mathlib.Core.List.{append-nil, append_assoc}
use os_lyre.Pipe.{split_transfer, copy_out, copy_in}

-- the index behind `i`, and the index `k` places behind it
unfoldable pub next_index : ℕ → ℕ → ℕ
next_index size i = if i + 1 == size then 0 else i + 1

unfoldable pub ahead : ℕ → ℕ → ℕ → ℕ
ahead size i k = if ltb (i + k) size then i + k else i + k - size

-- the `n` bytes from index `i` on, going round at `size`
pub window : List ℕ → ℕ → ℕ → ℕ → List ℕ
window b size i zero = []
window b size i (suc n) = get_or b i 0 ∷ window b size (next_index size i) n

pub length-window : (b : List ℕ) (size i n : ℕ) → length (window b size i n) ≡ n
unfolding window
length-window b size i zero = refl
length-window b size i (suc n) = ap suc (length-window b size (next_index size i) n)

ahead-suc :
    (size i k : ℕ)
    → i < size
    → suc k ≤ size
    → ahead size (next_index size i) k ≡ ahead size i (suc k)
unfolding ahead next_index
ahead-suc size i k h g = ground arith

pub next_index-lt : (size i : ℕ) → i < size → next_index size i < size
unfolding next_index
next_index-lt size i h = ground arith

next_index_step : (size i : ℕ) → suc i < size → next_index size i ≡ i + 1
unfolding next_index
next_index_step size i h = ground arith

pub ahead-lt : (size i k : ℕ) → i < size → k ≤ size → ahead size i k < size
unfolding ahead
ahead-lt size i k h g = ground arith

ahead-zero : (size i : ℕ) → i < size → ahead size i 0 ≡ i
unfolding ahead next_index
ahead-zero size i h = ground arith

pub window-add :
    (b : List ℕ) (size i m n : ℕ)
    → i < size
    → m ≤ size
    → window b size i (m + n) ≡ window b size i m ++ window b size (ahead size i m) n
unfolding window
window-add b size i zero n h g =
    ap₂ (λ j k. window b size j k) (sym (ahead-zero size i h)) (omega arith)
window-add b size i (suc m) n h g =
    let e : suc m + n ≡ suc (m + n) = omega arith in
    rw (
      e,
      window-add b size (next_index size i) m n (next_index-lt size i h) (omega arith),
      ahead-suc size i m h g,
    )

-- A copy that does not reach past the end.
pub copy_out-window :
    (b : List ℕ) (size i n : ℕ) → i + n ≤ size → copy_out b i n ≡ window b size i n
unfolding window copy_out
copy_out-window b size i zero h = refl
copy_out-window b size i (suc zero) h = refl
copy_out-window b size i (suc (suc n)) h =
    rw (next_index_step size i (omega arith), copy_out-window b size (i + 1) (suc n) (omega arith))

ahead-next :
    (size i k : ℕ) → i < size → k < size → next_index size (ahead size i k) ≡ ahead size i (suc k)
unfolding ahead next_index
ahead-next size i k h g = ground arith

ahead-ne : (size i k : ℕ) → i < size → suc k < size → ahead size i (suc k) ≢ i
unfolding ahead next_index
ahead-ne size i k h g = ground arith

-- A write behind a window does not change it.
window-set :
    (b : List ℕ) (size i k n v : ℕ)
    → i < size
    → n ≤ k
    → k < size
    → window (set b (ahead size i k) v) size i n ≡ window b size i n
unfolding window
window-set b size i k zero v h g l = refl
window-set b size i zero (suc n) v h g l = absurd (omega arith)
window-set b size i (suc k) (suc n) v h g l =
    ap₂ ◌∷◌ (get_or-set_ne b (ahead size i (suc k)) i v 0 (ahead-ne size i k h l)) (
      ap (λ j. window (set b j v) size (next_index size i) n)
        (sym (ahead-suc size i k h (omega arith)))
      ∙ window-set b size (next_index size i) k n v (next_index-lt size i h) (omega arith)
          (omega arith))

window_one : (b : List ℕ) (size i : ℕ) → window b size i 1 ≡ get_or b i 0 ∷ []
unfolding window
window_one b size i = refl

window-push :
    (b : List ℕ) (size i k v : ℕ)
    → i < size
    → k < size
    → size ≤ length b
    → window (set b (ahead size i k) v) size i (suc k) ≡ window b size i k ++ (v ∷ [])
window-push b size i k v h g l =
    let b' = set b (ahead size i k) v in
    let j = ahead size i k in
    let e : suc k ≡ k + 1 = omega arith in
    ap (window b' size i) e
    ∙ window-add b' size i k 1 h (omega arith)
    ∙ ap₂ ◌++◌ (window-set b size i k k v h (omega arith) g) (
        window_one b' size j
        ∙ ap (λ x. x ∷ [])
            (get_or-set_self b j v 0 (omega (arith, ahead-lt size i k h (omega arith)))))

-- Writing bytes one by one, going round at `size`.
pub fill : List ℕ → ℕ → ℕ → List ℕ → List ℕ
fill b size i [] = b
fill b size i (x ∷ xs) = fill (set b i x) size (next_index size i) xs

pub length-fill : (b : List ℕ) (size i : ℕ) (xs : List ℕ) → length (fill b size i xs) ≡ length b
unfolding fill
length-fill b size i [] = refl
length-fill b size i (x ∷ xs) =
    length-fill (set b i x) size (next_index size i) xs ∙ length-set b i x

-- Bytes written behind a window of `k` bytes are the end of the longer window.
pub window-fill :
    (b : List ℕ) (size i k : ℕ) (xs : List ℕ)
    → i < size
    → k + length xs ≤ size
    → size ≤ length b
    → window (fill b size (ahead size i k) xs) size i (k + length xs) ≡ window b size i k ++ xs
unfolding fill
window-fill b size i k [] h g l = rw (append-nil) (ap (window b size i) (omega arith))
window-fill b size i k (x ∷ xs) h g l =
    let e : k + suc (length xs) ≡ suc k + length xs = omega arith in
    rw (
      e,
      ahead-next size i k h (omega arith),
      window-fill (set b (ahead size i k) x) size i (suc k) xs h (omega arith)
          (omega (arith, length-set b (ahead size i k) x)),
      window-push b size i k x h (omega arith) l,
      append_assoc,
    )

copy_in-fill :
    (b : List ℕ) (size i : ℕ) (xs : List ℕ)
    → i + length xs ≤ size
    → copy_in b i xs ≡ fill b size i xs
unfolding copy_in fill
copy_in-fill b size i [] h = refl
copy_in-fill b size i (x ∷ []) h = refl
copy_in-fill b size i (x ∷ y ∷ xs) h = rw (
  next_index_step size i (omega arith),
  copy_in-fill (set b i x) size (i + 1) (y ∷ xs) (omega arith),
)

fill-append :
    (b : List ℕ) (size i : ℕ) (xs ys : List ℕ)
    → i < size
    → length xs ≤ size
    → fill b size i (xs ++ ys) ≡ fill (fill b size i xs) size (ahead size i (length xs)) ys
unfolding fill
fill-append b size i [] ys h g = ap (λ j. fill b size j ys) (sym (ahead-zero size i h))
fill-append b size i (x ∷ xs) ys h g =
    rw (← ahead-suc size i (length xs) h g) (
      fill-append (set b i x) size (next_index size i) xs ys (next_index-lt size i h) (omega arith))

take-nil : (n : ℕ) → take {A = ℕ} n [] ≡ []
take-nil zero = refl
take-nil (suc n) = refl

take-append-take : (m n : ℕ) (xs : List ℕ) → take (m + n) xs ≡ take m xs ++ take n (drop m xs)
take-append-take zero n xs = ap (λ k. take k xs) (omega arith)
take-append-take (suc m) n [] = take-nil (suc m + n) ∙ sym (take-nil n)
take-append-take (suc m) n (x ∷ xs) =
    let e : suc m + n ≡ suc (m + n) = omega arith in
    ap (λ k. take k (x ∷ xs)) e ∙ ap (λ r. x ∷ r) (take-append-take m n xs)

copy_nothing : (b : List ℕ) (size i j : ℕ) → copy_out b i 0 ≡ window b size j 0
unfolding copy_out window
copy_nothing b size i j = refl

fill-nil : (b : List ℕ) (size i : ℕ) → fill b size i [] ≡ b
unfolding fill
fill-nil b size i = refl

copy_in-nil : (b : List ℕ) (i : ℕ) → copy_in b i [] ≡ b
unfolding copy_in
copy_in-nil b i = refl

-- The two parts of a transfer.
module _ (size ptr count : ℕ) (inside : ptr < size) (fits : count ≤ size) where
  pub split-new_ptr : (split_transfer size ptr count).new_ptr ≡ ahead size ptr count
  unfolding split_transfer ahead
  split-new_ptr = ground arith

  split-sum :
      (split_transfer size ptr count).before_wrap + (split_transfer size ptr count).after_wrap
      ≡ count
  unfolding split_transfer
  split-sum = ground arith

  split-before : ptr + (split_transfer size ptr count).before_wrap ≤ size
  unfolding split_transfer
  split-before = ground arith

  -- The second part is empty, or the first ends at the end of the ring.
  split-after :
      ((split_transfer size ptr count).after_wrap ≡ 0)
      ⊎ (ahead size ptr (split_transfer size ptr count).before_wrap ≡ 0)
  unfolding split_transfer ahead
  split-after = ground arith

  split-after-le : (split_transfer size ptr count).after_wrap ≤ ptr
  unfolding split_transfer
  split-after-le = ground arith

  abbrev before : ℕ
  before = (split_transfer size ptr count).before_wrap

  abbrev after : ℕ
  after = (split_transfer size ptr count).after_wrap

  -- Copying out in two parts gives the bytes from `ptr` on, going round.
  pub copy_out_parts :
      (b : List ℕ) → copy_out b ptr before ++ copy_out b 0 after ≡ window b size ptr count
  copy_out_parts b =
      ap₂ ◌++◌ (copy_out-window b size ptr before split-before) (second split-after)
      ∙ sym (window-add b size ptr before after inside (omega (arith, split-sum)))
      ∙ ap (window b size ptr) split-sum
    where
      second :
          (after ≡ 0) ⊎ (ahead size ptr before ≡ 0)
          → copy_out b 0 after ≡ window b size (ahead size ptr before) after
      second (inl e) = rw e (copy_nothing b size 0 _)
      second (inr e) = rw e (copy_out-window b size 0 after (omega (arith, split-after-le)))

  -- Copying in in two parts is writing byte by byte, going round.
  pub copy_in_parts :
      (b xs : List ℕ)
      → count ≤ length xs
      → copy_in (copy_in b ptr (take before xs)) 0 (take after (drop before xs))
        ≡ fill b size ptr (take count xs)
  copy_in_parts b xs h =
      ap (λ r. copy_in r 0 (take after (drop before xs)))
        (copy_in-fill b size ptr (take before xs) (omega (arith, first_length, split-before)))
      ∙ second split-after
      ∙ sym (
          fill-append b size ptr (take before xs) (take after (drop before xs)) inside
            (omega (arith, first_length, split-sum)))
      ∙ ap (fill b size ptr) (sym (take-append-take before after xs))
      ∙ ap (λ n. fill b size ptr (take n xs)) split-sum
    where
      first_length : length (take before xs) ≡ before
      first_length = omega (arith, length-take before xs, split-sum)

      second :
          (after ≡ 0) ⊎ (ahead size ptr before ≡ 0)
          → copy_in (fill b size ptr (take before xs)) 0 (take after (drop before xs))
            ≡ fill
                (fill b size ptr (take before xs))
                size
                (ahead size ptr (length (take before xs)))
                (take after (drop before xs))
      second (inl e) = rw e (copy_in-nil _ 0 ∙ sym (fill-nil _ size _))
      second (inr e) =
          rw (first_length, e)
            (copy_in-fill _ size 0 (take after (drop before xs))
              (omega (arith, length-take after (drop before xs), split-after-le)))
