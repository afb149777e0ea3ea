-- ===== src/Tests/Filters.antt =====
-- A run of table/filter_block.cpp with a policy that keeps the first byte of each key.
use yangkv_v.Base.{
  inr, inl, Bool-cases, ◌<◌, ◌^◌, ℕ, ◌==◌, ==_refl, ◌∷◌, [], List, ◌≡◌, refl, Bool, true, false,
  ◌||◌, All, All-mono, length, arith,
}
use yangkv_v.Base.Outcome.{Outcome, done}
use yangkv_v.FilterBlock.{
  FilterPolicy, FilterBlockBuilder, new_filter_block, start_block, start_loop, generate_filter,
  add_key, finish, put_offsets, tmp_keys,
}
use yangkv_v.FilterBlock.Groups.{add_blocks, add_keys}
use yangkv_v.FilterBlock.Found.{FindsAll, add_blocks-FindsAll}
use yangkv_v.Coding.{put_fixed32, encode_fixed32}

-- The first byte of a key, and 0 of the empty one.
abbrev first_byte : List ℕ → ℕ
first_byte [] = 0
first_byte (b ∷ key) = b

abbrev first_bytes : List (List ℕ) → List ℕ
first_bytes [] = []
first_bytes (key ∷ keys) = first_byte key ∷ first_bytes keys

abbrev has_byte : ℕ → List ℕ → Bool
has_byte b [] = false
has_byte b (c ∷ l) = (b == c) || has_byte b l

among :
    (keys : List (List ℕ)) → All (λ key. has_byte (first_byte key) (first_bytes keys) ≡ true) keys
among [] = tt
among (key ∷ keys) = (
  rw (==_refl (first_byte key)) refl,
  All-mono (λ j. has_byte (first_byte j) (first_bytes keys) ≡ true)
      (λ j. has_byte (first_byte j) (first_bytes (key ∷ keys)) ≡ true) keys
      (λ j h. rw h (elim (Bool-cases (first_byte j == first_byte key)) [
        | inl e ↦ rw e refl
        | inr e ↦ rw e refl
      ]))
      (among keys),
)

abbrev by_first_byte : FilterPolicy
by_first_byte = record {
  create_filter = first_bytes;
  matches = λ key filter. has_byte (first_byte key) filter;
  finds = among;
}

abbrev two_blocks : List (ℕ × List (List ℕ))
two_blocks = (0, (97 ∷ 98 ∷ []) ∷ (99 ∷ []) ∷ []) ∷ (5000, (100 ∷ []) ∷ []) ∷ []

abbrev builder_of : Outcome FilterBlockBuilder → FilterBlockBuilder
builder_of (done b) = b
builder_of _ = new_filter_block

abbrev two_added : FilterBlockBuilder
two_added = builder_of (add_blocks by_first_byte two_blocks new_filter_block)

two_added_done : add_blocks by_first_byte two_blocks new_filter_block ≡ done two_added
unfolding add_blocks start_block start_loop generate_filter add_keys add_key tmp_keys
two_added_done = refl

short : length (finish by_first_byte two_added) < 2 ^ 32
unfolding add_blocks start_block start_loop generate_filter add_keys add_key tmp_keys finish
    put_offsets put_fixed32 encode_fixed32
short = omega arith

add_blocks-FindsAll_example : FindsAll by_first_byte (finish by_first_byte two_added) two_blocks
add_blocks-FindsAll_example =
    add_blocks-FindsAll by_first_byte two_blocks two_added (omega arith) two_added_done short
