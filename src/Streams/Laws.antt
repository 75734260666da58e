-- ===== src/Streams/Laws.antt =====
-- Reading from the devices of kernel/dev/char/streams.c.
use os_lyre.Base.{
  ℕ, zero, suc, ◌+◌, ◌≤◌, ◌<◌, ◌≡◌, ◌⊎◌, inl, refl, ap, ◌∙◌, arith, some, List, [], ◌∷◌, length,
  get_or, get_or-All,
}
use os_lyre.Libc.{Memory, store}
use os_lyre.Libc.Copy.{store_ne, store_self}
use os_lyre.Random.{Random}
use os_lyre.Random.Fill.{filled, random_fill_lem, length-filled, filled-All}
use os_lyre.Streams.{put_bytes, urandom_read}

put_bytes-out :
    (bs : List ℕ) (buf : ℕ) (m : Memory) (a : ℕ)
    → ((a < buf) ⊎ (buf + length bs ≤ a))
    → put_bytes buf bs m a ≡ m a
unfolding put_bytes
put_bytes-out [] buf m a h = refl
put_bytes-out (b ∷ bs) buf m a h =
    put_bytes-out bs (suc buf) (store buf b m) a (grind arith) ∙ store_ne buf b a m (grind arith)

put_bytes-in :
    (bs : List ℕ) (buf : ℕ) (m : Memory) (i : ℕ)
    → i < length bs
    → put_bytes buf bs m (buf + i) ≡ get_or bs i 0
unfolding put_bytes
put_bytes-in [] buf m i h = absurd (omega arith)
put_bytes-in (b ∷ bs) buf m zero h =
    ap (put_bytes (suc buf) bs (store buf b m)) (omega arith)
    ∙ put_bytes-out bs (suc buf) (store buf b m) buf (inl (omega arith))
    ∙ store_self buf b m
put_bytes-in (b ∷ bs) buf m (suc i) h =
    ap (put_bytes (suc buf) bs (store buf b m)) (omega arith)
    ∙ put_bytes-in bs (suc buf) (store buf b m) i (omega arith)

-- Reading from urandom ends and returns the count. The buffer then holds the bytes of the generated words,
-- and the other memory is kept.
pub urandom_read-IsRead :
    (buf count : ℕ) (s : Random) (m : Memory)
    → (n : Memory) × (urandom_read buf count s m ≡ some (count, n, (filled count s).1))
      × ((i : ℕ) → i < count → (n (buf + i) ≡ get_or (filled count s).0 i 0) × (n (buf + i) < 256))
      × ((a : ℕ) → ((a < buf) ⊎ (buf + count ≤ a)) → n a ≡ m a)
unfolding urandom_read
urandom_read-IsRead buf count s m =
    let bytes = (filled count s).0 in
    let full : length bytes ≡ count = length-filled count s in
    let there : (i : ℕ) → i < count → put_bytes buf bytes m (buf + i) ≡ get_or bytes i 0 =
      λ i l. put_bytes-in bytes buf m i (omega (arith, full)) in
    (
      put_bytes buf bytes m,
      rw (random_fill_lem count s, urandom_read) refl,
      λ i l. (
        there i l,
        omega (
          arith,
          there i l,
          get_or-All (λ b. b < 256) bytes i 0 (filled-All count s) (omega arith),
        ),
      ),
      λ a o. put_bytes-out bytes buf m a (grind (arith, full)),
    )
