-- ===== src/FilterBlock.antt =====
-- table/filter_block.h and table/filter_block.cpp: a block of filters, one for each 2 KB of the offsets
-- of the data blocks. The filter policy is an interface.
pub mod Joined
pub mod Groups
pub mod Words
pub mod Asked
pub mod Found
use yangkv_v.Base.{
  get_or, ℕ, zero, suc, ◌+◌, ◌-◌, ◌*◌, ◌/◌, ◌%◌, ◌^◌, ltb, leb, ◌==◌, ◌&&◌, Bool, true, false, List,
  [], ◌∷◌, ◌++◌, length, take, drop, if◌then◌else◌, ◌≡◌, All,
}
use yangkv_v.Base.Outcome.{Outcome, done, fault, ◌>>=◌}
use yangkv_v.Coding.{put_fixed32, decode_fixed32}

-- FilterPolicy: the bytes that CreateFilter appends, and the law of KeyMayMatch.
pub record FilterPolicy : Type 0 where
  pub create_filter : List (List ℕ) → List ℕ
  pub matches : List ℕ → List ℕ → Bool
  pub finds : (keys : List (List ℕ)) → All (λ key. matches key (create_filter keys) ≡ true) keys

abbrev pub k_filter_base_lg : ℕ
k_filter_base_lg = 11

abbrev pub k_filter_base : ℕ
k_filter_base = 2 ^ k_filter_base_lg

pub record FilterBlockBuilder : Type 0 where
  -- The keys, one behind the other, and where each begins.
  pub keys : List ℕ
  pub start : List ℕ
  pub result : List ℕ
  pub filter_offsets : List ℕ

abbrev pub new_filter_block : FilterBlockBuilder
new_filter_block = record { keys = []; start = []; result = []; filter_offsets = [] }

-- The keys between the starts.
unfoldable pub tmp_keys : List ℕ → List ℕ → List (List ℕ)
tmp_keys keys [] = []
tmp_keys keys (a ∷ []) = []
tmp_keys keys (a ∷ b ∷ start) =
    take ((b + 2 ^ 64 - a) % 2 ^ 64) (drop a keys) ∷ tmp_keys keys (b ∷ start)

-- The loop of Finish.
unfoldable pub put_offsets : List ℕ → List ℕ → List ℕ
put_offsets result [] = result
put_offsets result (o ∷ offsets) = put_offsets (put_fixed32 result o) offsets

module _ (policy : FilterPolicy) where
  unfoldable pub generate_filter : FilterBlockBuilder → FilterBlockBuilder
  generate_filter b =
      let offsets = b.filter_offsets ++ length b.result % 2 ^ 32 ∷ [] in
      if length b.start == 0 then record b { filter_offsets = offsets } else record {
        keys = [];
        start = [];
        result = b.result ++ policy.create_filter (tmp_keys b.keys (b.start ++ length b.keys ∷ []));
        filter_offsets = offsets;
      }

  -- The loop of StartBlock; each round makes one filter.
  unfoldable pub start_loop : ℕ → ℕ → FilterBlockBuilder → FilterBlockBuilder
  start_loop zero index b = b
  start_loop (suc n) index b =
      let rest = start_loop n index (generate_filter b) in
      if ltb (length b.filter_offsets) index then rest else b

  unfoldable pub start_block : ℕ → FilterBlockBuilder → Outcome FilterBlockBuilder
  start_block block_offset b =
      let index = block_offset / k_filter_base in
      if leb (length b.filter_offsets) index
      then done (start_loop (index - length b.filter_offsets) index b)
      else fault

  unfoldable pub finish : FilterBlockBuilder → List ℕ
  finish b =
      let b' = if length b.start == 0 then b else generate_filter b in
      put_fixed32 (put_offsets b'.result b'.filter_offsets) (length b'.result % 2 ^ 32)
      ++ k_filter_base_lg ∷ []

unfoldable pub add_key : List ℕ → FilterBlockBuilder → FilterBlockBuilder
add_key key b = record b { start = b.start ++ length b.keys ∷ []; keys = b.keys ++ key }

-- The reader: the bytes, where the offsets begin in them, and how many they are.
pub record FilterBlockReader : Type 0 where
  pub contents : List ℕ
  pub offset : ℕ
  pub num : ℕ
  pub base_lg : ℕ

-- A char that is made a size_t.
abbrev widened : ℕ → ℕ
widened c = if ltb c 128 then c else c + 2 ^ 64 - 256

abbrev read_offset : List ℕ → ℕ → FilterBlockReader
read_offset contents last_word =
    let n = length contents in
    let base_lg = widened (get_or contents (n - 1) 0) in
    if ltb (n - 5) last_word
    then record { contents = []; offset = 0; num = 0; base_lg = base_lg }
    else record {
      contents = contents;
      offset = last_word;
      num = (n - 5 - last_word) / 4;
      base_lg = base_lg;
    }

-- FilterBlockReader(policy, contents)
unfoldable pub open_filter : List ℕ → Outcome FilterBlockReader
open_filter contents =
    let n = length contents in
    let read = (do
      last_word ← decode_fixed32 (drop (n - 5) contents)
      done (read_offset contents last_word)) in
    if ltb n 5 then done (record { contents = []; offset = 0; num = 0; base_lg = 0 }) else read

abbrev judged : FilterPolicy → FilterBlockReader → List ℕ → ℕ → ℕ → Bool
judged policy r key start limit =
    if leb start limit && leb limit r.offset
    then policy.matches key (take (limit - start) (drop start r.contents))
    else if start == limit
    then false
    else true

-- KeyMayMatch
unfoldable pub key_may_match : FilterPolicy → FilterBlockReader → ℕ → List ℕ → Outcome Bool
key_may_match policy r block_offset key =
    let index = block_offset / 2 ^ r.base_lg in
    let read = (do
      start ← decode_fixed32 (drop (r.offset + index * 4) r.contents)
      limit ← decode_fixed32 (drop (r.offset + index * 4 + 4) r.contents)
      done (judged policy r key start limit)) in
    if ltb index r.num then read else done true
