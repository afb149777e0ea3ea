-- ===== src/FilterBlock/Found.antt =====
-- What the reader of table/filter_block.cpp answers for the keys that the builder was given.
use yangkv_v.Base.{
  ℕ, zero, suc, ◌^◌, ◌<◌, ◌≡◌, sym, ap, ◌∙◌, List, [], ◌∷◌, ◌++◌, length, true, false, arith, ◌==◌,
}
use yangkv_v.Base.Outcome.{done, ◌>>=◌}
use yangkv_v.FilterBlock.{
  FilterPolicy, FilterBlockBuilder, new_filter_block, finish, open_filter, key_may_match,
}
use yangkv_v.FilterBlock.Groups.{
  In, Extends, key_bytes, Grouped, Grouped-Extends, add_blocks, add_blocks-Grouped,
}
use yangkv_v.FilterBlock.Joined.{joined, starts, holds, generate_filter-holds}
use yangkv_v.FilterBlock.Asked.{bytes, put_offsets-bytes, asked}
use mathlib.Core.Path.{subst}

Extends-empty : (gs : List (List (List ℕ))) → Extends (gs ++ [] ∷ []) gs
Extends-empty [] key zero h = h
Extends-empty [] key (suc i) h = h
Extends-empty (g ∷ gs) key zero h = h
Extends-empty (g ∷ gs) key (suc i) h = Extends-empty gs key i h

finish-bytes :
    (policy : FilterPolicy) (gs : List (List (List ℕ))) (ks : List (List ℕ))
    → length (joined ks) < 2 ^ 64
    → (made : List (List (List ℕ))) × (finish policy (holds policy gs ks) ≡ bytes policy made)
      × Extends (gs ++ ks ∷ []) made
unfolding finish
finish-bytes policy gs [] small = (gs, put_offsets-bytes policy gs, Extends-empty gs)
finish-bytes policy gs (k ∷ ks) small =
    let some_keys : (length (starts 0 (k ∷ ks)) == 0) ≡ false = ground arith in
    (
      gs ++ (k ∷ ks) ∷ [],
      rw (some_keys, generate_filter-holds policy gs (k ∷ ks) small)
          (put_offsets-bytes policy (gs ++ (k ∷ ks) ∷ [])),
      (λ key i h. h),
    )

-- Every key of a block is found by the offset of the block.
abbrev pub FindsAll : FilterPolicy → List ℕ → List (ℕ × List (List ℕ)) → Type 0
FindsAll policy content [] = Unit {0}
FindsAll policy content ((block_offset, ks) ∷ blocks) =
    ((key : List ℕ)
      → In key ks
      → (open_filter content >>= λ r. key_may_match policy r block_offset key) ≡ done true)
    × FindsAll policy content blocks

Grouped-FindsAll :
    (policy : FilterPolicy) (gs : List (List (List ℕ))) (blocks : List (ℕ × List (List ℕ)))
    → length (bytes policy gs) < 2 ^ 32
    → Grouped blocks gs
    → FindsAll policy (bytes policy gs) blocks
Grouped-FindsAll policy gs [] small grouped = tt
Grouped-FindsAll policy gs ((block_offset, ks) ∷ blocks) small grouped = (
  λ key h. asked policy gs block_offset key small (grouped.0 key h),
  Grouped-FindsAll policy gs blocks small grouped.1,
)

-- When StartBlock and AddKey, called for blocks with offsets and keys, fail no assertion, the keys
-- have fewer than 2^64 bytes together and the filter block that Finish makes fewer than 2^32, then
-- for every block and every key of it the reader that is opened on the filter block answers true
-- for the key at the offset of the block, whatever policy keeps the law of FilterPolicy.
pub add_blocks-FindsAll :
    (policy : FilterPolicy) (blocks : List (ℕ × List (List ℕ))) (b : FilterBlockBuilder)
    → key_bytes blocks < 2 ^ 64
    → add_blocks policy blocks new_filter_block ≡ done b
    → length (finish policy b) < 2 ^ 32
    → FindsAll policy (finish policy b) blocks
add_blocks-FindsAll policy blocks b fits run small =
    let (gs, ks, same, short, extends, grouped) =
      add_blocks-Grouped policy blocks [] [] b (omega (arith, fits)) run in
    let (made, all_bytes, extends') = finish-bytes policy gs ks short in
    let whole : finish policy b ≡ bytes policy made = ap (finish policy) same ∙ all_bytes in
    subst (λ (l : List ℕ). FindsAll policy l blocks) (sym whole)
      (Grouped-FindsAll policy made blocks (omega (arith, small, ap (length {A = ℕ}) whole))
        (Grouped-Extends blocks (gs ++ ks ∷ []) made extends' grouped))
