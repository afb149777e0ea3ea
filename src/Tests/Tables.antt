-- ===== src/Tests/Tables.antt =====
-- Runs of the parts of table/, of main/versionedit.cpp, utils/comparator.h and of utils/bloomfilter.cpp.
use yangkv_v.Base.{◌≤◌, ◌≡◌, [], ◌∷◌, length, refl, arith, true, false, some, same_bytes}
use yangkv_v.Base.Outcome.{done}
use yangkv_v.Comparator.{common_prefix, find_shortest_separator, find_short_successor}
use yangkv_v.Coding.{put_varint32, encode_varint32}
use yangkv_v.Map.{key_compare}
use yangkv_v.BloomFilter.{query, recover}
use yangkv_v.BloomFilter.Members.{insert_all, query-insert_all}
use yangkv_v.BloomFilter.Recovery.{recover-insert_all}
use yangkv_v.Comparator.Short.{IsBetween, find_shortest_separator-IsBetween}
use yangkv_v.BlockBuilder.{
  BlockBuilder, new_builder, add, add_shared, may_add, finish, open_block, current_size_estimate,
}
use yangkv_v.BlockBuilder.Restarts.{open_block-finish}
use yangkv_v.BlockBuilder.Entries.{Adds, add_lem}
use yangkv_v.BloomFilter

query-insert_all_example :
    query (107 ∷ []) (insert_all ((1 ∷ []) ∷ (107 ∷ []) ∷ (2 ∷ []) ∷ []) BloomFilter.init) ≡ true
query-insert_all_example = query-insert_all 107 [] ((1 ∷ []) ∷ []) ((2 ∷ []) ∷ []) BloomFilter.init

recover-insert_all_example :
    recover (some (insert_all ((1 ∷ []) ∷ (107 ∷ []) ∷ []) BloomFilter.init).saved)
    ≡ done (insert_all ((1 ∷ []) ∷ (107 ∷ []) ∷ []) BloomFilter.init)
recover-insert_all_example = recover-insert_all ((1 ∷ []) ∷ (107 ∷ []) ∷ [])

find_short_successor_run : find_short_successor (255 ∷ 7 ∷ 1 ∷ []) ≡ 255 ∷ 8 ∷ []
unfolding find_short_successor
find_short_successor_run = refl

find_shortest_separator-IsBetween_example :
    IsBetween (5 ∷ 1 ∷ 9 ∷ []) (find_shortest_separator (5 ∷ 1 ∷ 9 ∷ []) (5 ∷ 7 ∷ [])) (5 ∷ 7 ∷ [])
unfolding key_compare
find_shortest_separator-IsBetween_example =
    find_shortest_separator-IsBetween (5 ∷ 1 ∷ 9 ∷ []) (5 ∷ 7 ∷ []) refl

-- A builder behind the key "ab" with the value "v".
abbrev one_entry : BlockBuilder
one_entry = record {
  buffer = 0 ∷ 2 ∷ 1 ∷ 97 ∷ 98 ∷ 118 ∷ [];
  restarts = 0 ∷ [];
  counter = 1;
  finished = false;
  last_key = 97 ∷ 98 ∷ [];
}

add_first : add 16 (97 ∷ 98 ∷ []) (118 ∷ []) new_builder ≡ done one_entry
unfolding add may_add add_shared same_bytes common_prefix put_varint32 encode_varint32
add_first = refl

add_lem_example :
    (b' : BlockBuilder) × (add 16 (97 ∷ 99 ∷ []) (119 ∷ []) one_entry ≡ done b')
    × (b'.last_key ≡ 97 ∷ 99 ∷ [])
    × (b'.counter ≤ 16)
    × Adds (97 ∷ 99 ∷ []) (119 ∷ []) one_entry b'
unfolding may_add key_compare
add_lem_example =
    add_lem 16 (97 ∷ 99 ∷ []) (119 ∷ []) one_entry (omega arith) refl (omega arith) (omega arith)

open_block-finish_example :
    open_block (record { ptr = (finish one_entry).buffer; size = length (finish one_entry).buffer })
    ≡ done (record {
      contents = (finish one_entry).buffer;
      size = current_size_estimate one_entry;
      restart_offset = 6;
    })
open_block-finish_example = open_block-finish one_entry (omega arith) (omega arith)
