-- ===== src/Random/Examples.antt =====
-- Tests of kernel/lib/random.c. Its theorems hold for every generator.
use os_lyre.Base.{◌+◌, ◌*◌, ◌%◌, ◌^◌, ◌≡◌, refl, some, [], ◌∷◌}
use os_lyre.Random.{Random, generate, random_seed, seed_from, twist, random_fill}
use os_lyre.Random.Fill.{filled, random_fill_lem}
use os_lyre.Random.Twist.{seeding, generating, run_uses, run_uses-last}

abbrev machine : Random
machine = record { mt = λ i. i * 0x123456789; index = 312 }

first_word : (generate machine).1.index ≡ 1
unfolding generate twist
first_word = refl

seeded : (random_seed 7 machine).mt 1 ≡ 6364136223846793005 * 7 % 2 ^ 64 + 1
unfolding random_seed seed_from
seeded = refl

random_fill_lem_example : random_fill 11 machine ≡ some (filled 11 machine)
random_fill_lem_example = random_fill_lem 11 machine

run_uses-last_example : (run_uses (seeding 7 ∷ generating ∷ []) machine).mt 311 ≡ 311 * 0x123456789
run_uses-last_example = run_uses-last (seeding 7 ∷ generating ∷ []) machine
