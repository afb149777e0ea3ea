-- ===== src/Hash.antt =====
-- utils/hash_helper.cpp, which spreads the keys over the writers.
use yangkv_v.Base.{ℕ, ◌+◌, ◌-◌, ◌*◌, ◌%◌, ◌^◌, ◌<◌, List, [], ◌∷◌, ltb, if◌then◌else◌, arith}

-- `char` is signed: a byte from 128 on counts as a negative number, which the sum with a uint64_t
-- wraps around.
unfoldable pub char_value : ℕ → ℕ
char_value ch = if ltb ch 128 then ch else ch + 2 ^ 64 - 256

-- The loop `val = (val + ch) * seed`.
unfoldable pub hash_loop : List ℕ → ℕ → ℕ → ℕ
unfolding char_value
hash_loop [] seed val = val
hash_loop (ch ∷ str) seed val = hash_loop str seed ((val + char_value ch) % 2 ^ 64 * seed % 2 ^ 64)

-- strHash(str, seed)
unfoldable pub str_hash : List ℕ → ℕ → ℕ
unfolding hash_loop
str_hash str seed = hash_loop str seed 1

abbrev pub k_seed_for_writer : ℕ
k_seed_for_writer = 37

abbrev pub k_max_writer : ℕ
k_max_writer = 4

-- strHash(key, k_seed_for_writer) % k_max_writer
unfoldable pub writer_of : List ℕ → ℕ
unfolding str_hash
writer_of key = str_hash key k_seed_for_writer % k_max_writer

pub writer_of-lt : (key : List ℕ) → writer_of key < k_max_writer
unfolding writer_of
writer_of-lt key = omega arith
