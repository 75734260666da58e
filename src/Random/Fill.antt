-- ===== src/Random/Fill.antt =====
-- random_fill of kernel/lib/random.c: the bytes of the generated words.
use Prim.Native.Nat.{bit_and}
use os_lyre.Base.{
  ℕ, zero, suc, ◌+◌, ◌-◌, ◌*◌, ◌/◌, ◌^◌, ◌≤◌, ◌<◌, ◌≡◌, inl, inr, refl, ap, sym, ◌∙◌, arith, true,
  false, some, List, [], ◌∷◌, ◌++◌, leb, ◌==◌, ==_iff, Bool-cases, if◌then◌else◌, if_true, if_false,
  length, take, All, length-append, length-take,
}
use os_lyre.Base.Bits.{bit_and-ones}
use os_lyre.Random.{Random, generate, word_bytes, tail_bytes, fill_from, random_fill}

-- The words that a number of calls generate, and the generator after them.
unfoldable pub words : ℕ → Random → List ℕ × Random
words zero s = ([], s)
words (suc k) s = let r = words k (generate s).1 in ((generate s).0 ∷ r.0, r.1)

-- Words as bytes, each with the lowest byte first.
unfoldable pub bytes_of : List ℕ → List ℕ
bytes_of [] = []
bytes_of (w ∷ ws) = tail_bytes 8 w ++ bytes_of ws

word_bytes_lem : (v : ℕ) → word_bytes v ≡ tail_bytes 8 v
unfolding word_bytes tail_bytes
word_bytes_lem v =
    let b2 : v / 2 ^ 16 ≡ v / 2 ^ 8 / 2 ^ 8 = omega arith in
    let b3 : v / 2 ^ 24 ≡ v / 2 ^ 8 / 2 ^ 8 / 2 ^ 8 = omega arith in
    let b4 : v / 2 ^ 32 ≡ v / 2 ^ 8 / 2 ^ 8 / 2 ^ 8 / 2 ^ 8 = omega arith in
    let b5 : v / 2 ^ 40 ≡ v / 2 ^ 8 / 2 ^ 8 / 2 ^ 8 / 2 ^ 8 / 2 ^ 8 = omega arith in
    let b6 : v / 2 ^ 48 ≡ v / 2 ^ 8 / 2 ^ 8 / 2 ^ 8 / 2 ^ 8 / 2 ^ 8 / 2 ^ 8 = omega arith in
    let b7 : v / 2 ^ 56 ≡ v / 2 ^ 8 / 2 ^ 8 / 2 ^ 8 / 2 ^ 8 / 2 ^ 8 / 2 ^ 8 / 2 ^ 8 = omega arith in
    rw (b2, b3, b4, b5, b6, b7) refl

take-tail_bytes :
    (n k v : ℕ) (rest : List ℕ) → n ≤ k → take n (tail_bytes k v ++ rest) ≡ tail_bytes n v
unfolding tail_bytes
take-tail_bytes zero k v rest h = refl
take-tail_bytes (suc n) zero v rest h = absurd (omega arith)
take-tail_bytes (suc n) (suc k) v rest h =
    ap (λ l. bit_and v 0xFF ∷ l) (take-tail_bytes n k (v / 2 ^ 8) rest (omega arith))

take_eight :
    (m w : ℕ) (rest : List ℕ) → take (8 + m) (word_bytes w ++ rest) ≡ word_bytes w ++ take m rest
unfolding word_bytes
take_eight m w rest =
    let n : 8 + m ≡ suc (suc (suc (suc (suc (suc (suc (suc m))))))) = omega arith in
    ap (λ k. take k (word_bytes w ++ rest)) n

-- The buffer that the words give, and the generator after them.
abbrev pub filled : ℕ → Random → List ℕ × Random
filled length s = let r = words ((length + 7) / 8) s in (take length (bytes_of r.0), r.1)

filled-more :
    (m : ℕ) (s : Random)
    → filled (8 + m) s
      ≡ (word_bytes (generate s).0 ++ (filled m (generate s).1).0, (filled m (generate s).1).1)
unfolding words bytes_of
filled-more m s =
    let k : (8 + m + 7) / 8 ≡ suc ((m + 7) / 8) = omega arith in
    rw (k, sym (word_bytes_lem (generate s).0))
      (ap (λ l. (l, (filled m (generate s).1).1))
        (take_eight m (generate s).0 (bytes_of (words ((m + 7) / 8) (generate s).1).0)))

filled-last :
    (n : ℕ) (s : Random)
    → 0 < n
    → n < 8
    → filled n s ≡ (tail_bytes n (generate s).0, (generate s).1)
unfolding words bytes_of
filled-last n s h l =
    let k : (n + 7) / 8 ≡ 1 = omega arith in
    rw k (ap (λ l. (l, (generate s).1)) (take-tail_bytes n 8 (generate s).0 [] (omega arith)))

fill_more :
    (fuel n : ℕ) (s t : Random) (bytes : List ℕ)
    → leb 8 n ≡ true
    → fill_from fuel (n - 8) (generate s).1 ≡ some (bytes, t)
    → fill_from (suc fuel) n s ≡ some (word_bytes (generate s).0 ++ bytes, t)
unfolding fill_from
fill_more fuel n s t bytes e f = rw (e, f) refl

fill_last :
    (fuel n : ℕ) (s : Random)
    → leb 8 n ≡ false
    → fill_from (suc fuel) n s
      ≡ (if n == 0 then some ([], s) else some (tail_bytes n (generate s).0, (generate s).1))
unfolding fill_from
fill_last fuel n s e = rw e refl

fill_from_lem : (fuel n : ℕ) (s : Random) → n < fuel → fill_from fuel n s ≡ some (filled n s)
unfolding words
fill_from_lem zero n s h = absurd (omega arith)
fill_from_lem (suc fuel) n s h = elim (Bool-cases (leb 8 n)) [
  | inl e ↦
      let n_split : 8 + (n - 8) ≡ n = ground (arith, e) in
      fill_more fuel n s _ _ e (fill_from_lem fuel (n - 8) (generate s).1 (ground (arith, h, e)))
      ∙ ap some (sym (filled-more (n - 8) s))
      ∙ ap (λ k. some (filled k s)) n_split
  | inr e ↦ elim (Bool-cases (n == 0)) [
    | inl z ↦
        let empty : n ≡ 0 = (==_iff n 0).0 z in
        fill_last fuel n s e ∙ if_true _ _ _ z ∙ sym (ap (λ k. some (filled k s)) empty)
    | inr z ↦
        fill_last fuel n s e
        ∙ if_false _ _ _ z
        ∙ ap some (sym (filled-last n s (ground (arith, z)) (ground (arith, e))))
  ]
]

-- Filling a buffer ends, for every length, and puts there the first bytes of as many words as it takes.
pub random_fill_lem : (n : ℕ) (s : Random) → random_fill n s ≡ some (filled n s)
unfolding random_fill
random_fill_lem n s = fill_from_lem (suc n) n s (omega arith)

length-tail_bytes : (n v : ℕ) → length (tail_bytes n v) ≡ n
unfolding tail_bytes
length-tail_bytes zero v = refl
length-tail_bytes (suc n) v = ap suc (length-tail_bytes n (v / 2 ^ 8))

length-bytes_of : (k : ℕ) (s : Random) → length (bytes_of (words k s).0) ≡ 8 * k
unfolding words bytes_of
length-bytes_of zero s = refl
length-bytes_of (suc k) s = omega (
  arith,
  length-append (tail_bytes 8 (generate s).0) (bytes_of (words k (generate s).1).0),
  length-tail_bytes 8 (generate s).0,
  length-bytes_of k (generate s).1,
)

-- The buffer is full.
pub length-filled : (n : ℕ) (s : Random) → length (filled n s).0 ≡ n
length-filled n s =
    omega
      (arith, length-take n (bytes_of (words ((n + 7) / 8) s).0), length-bytes_of ((n + 7) / 8) s)

tail_bytes-All : (n v : ℕ) → All (λ b. b < 256) (tail_bytes n v)
unfolding tail_bytes
tail_bytes-All zero v = tt
tail_bytes-All (suc n) v = (omega (arith, bit_and-ones 8 v), tail_bytes-All n (v / 2 ^ 8))

append-All :
    (xs ys : List ℕ) → All (λ b. b < 256) xs → All (λ b. b < 256) ys → All (λ b. b < 256) (xs ++ ys)
append-All [] ys p q = q
append-All (x ∷ xs) ys p q = (p.0, append-All xs ys p.1 q)

take-All : (n : ℕ) (xs : List ℕ) → All (λ b. b < 256) xs → All (λ b. b < 256) (take n xs)
take-All zero xs p = tt
take-All (suc n) [] p = tt
take-All (suc n) (x ∷ xs) p = (p.0, take-All n xs p.1)

bytes_of-All : (ws : List ℕ) → All (λ b. b < 256) (bytes_of ws)
unfolding bytes_of
bytes_of-All [] = tt
bytes_of-All (w ∷ ws) =
    append-All (tail_bytes 8 w) (bytes_of ws) (tail_bytes-All 8 w) (bytes_of-All ws)

-- It holds bytes.
pub filled-All : (n : ℕ) (s : Random) → All (λ b. b < 256) (filled n s).0
filled-All n s = take-All n _ (bytes_of-All (words ((n + 7) / 8) s).0)
