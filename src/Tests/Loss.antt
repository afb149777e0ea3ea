-- ===== src/Tests/Loss.antt =====
-- A store whose only entry is in a frozen list, and a round of the compacter of memory/compacter.cpp.
use yangkv_v.Base.{
  none, inl, same_bytes, lt_wf, ℕ, ◌≡◌, refl, [], ◌∷◌, true, arith, Bool-cases, inr,
}
use yangkv_v.Base.Outcome.{done}
use yangkv_v.Builder.{
  merge_list, merge_lists, merge_writers, build_table, add_loop, pair_of, set_meta_data,
}
use yangkv_v.Env.{WritableFile, wrote, append, flush_buffer, write_unbuffered, sync, close}
use yangkv_v.BlockBuilder.{may_add, add_shared, current_size_estimate, put_restarts}
use yangkv_v.Coding.{
  get_varint32_ptr, encode_varint32, decode_fixed64, encode_fixed64, decode_fixed32, encode_fixed32,
  encode_varint64, get_varint32_ptr_fallback, put_fixed32, put_varint32, put_varint64,
}
use yangkv_v.Comparator.{common_prefix, find_short_successor}
use yangkv_v.Format.{encode_handle, encode_footer, resize}
use yangkv_v.MemEntry.{decode_mem_entry}
use yangkv_v.Hash.{writer_of}
use yangkv_v.Map.{find, key_compare}
use yangkv_v.SkipList.{SkipList, new_list}
use yangkv_v.Slice.{to_string, copy}
use yangkv_v.TableBuilder.{
  add, finish, index_before, add_entry, flush, flush_block, put_index, write_block, write_raw_block,
  finish_closed, index_last, write_index,
}
use yangkv_v.Tests.Store.{key, put_key, put_key-IsStorable, fresh, log_of}
use yangkv_v.Version.{Version, read_hit, first_hit}
use yangkv_v.VersionSet.{
  Node, VersionSet, new_node, seen, work_round, Compaction, compacted, install, apply,
  append_version, unref, ref_files, unref_files, unref_lists, unref_all, level_zero,
}
use yangkv_v.VersionSet.Counts.{IsShared}
use yangkv_v.MessageQueue.Window.{entries, new_queue-IsValid}
use yangkv_v.Status.{not_found}
use yangkv_v.Tests.Compaction.{slice, one_list, table_log, slice-IsBinding}
use yangkv_v.Version.Frozen.{Holds, last_of}
use yangkv_v.YangkvMain.{YangkvMain, init, writer_at, get_value}
use yangkv_v.YangkvMain.Latest.{IsSettled, answer_of}
use yangkv_v.YangkvMain.Lost.{get_value_compacted}
use yangkv_v.Env
use yangkv_v.BlockBuilder
use yangkv_v.Map
use yangkv_v.Version
use yangkv_v.SkipList

abbrev one_node : Node
one_node = record new_node { refs = 1; list = (one_list ∷ []) ∷ [] ∷ [] ∷ [] ∷ []; list_count = 10 }

abbrev one_set : VersionSet
one_set = record { older = []; current = one_node; heap = [] }

abbrev one_list_db : YangkvMain
one_list_db = record fresh { idx = 2; current = seen [] one_node }

frozen-Holds : Holds (put_key ∷ []) (one_list ∷ []) new_list
unfolding last_of first_hit SkipList.get find
frozen-Holds k = elim (Bool-cases (same_bytes k key)) [
  | inl hit ↦ rw hit refl
  | inr miss ↦ rw miss refl
]

one_list_db-IsSettled : IsSettled key one_list_db (put_key ∷ [])
unfolding writer_of init entries
one_list_db-IsSettled = record {
  holding = record {
    valid = new_queue-IsValid (log_of 0);
    placed = omega arith;
    holds = frozen-Holds;
  };
  own = refl;
  storable = (put_key-IsStorable, tt);
  numbered = (omega arith, tt);
  queued = tt;
}

one_set-IsShared : IsShared one_set
one_set-IsShared = record {
  alone = refl;
  one = refl;
  levels = omega arith;
  lists = ((omega arith, tt), (tt, (tt, (tt, tt))));
  places = tt;
  counts = λ p. refl;
}

merged : merge_writers one_node.list [] ≡ (key, slice) ∷ []
unfolding merge_writers merge_lists merge_list Map.insert key_compare
merged = refl

abbrev round : Compaction
round = work_round true true table_log 0 one_set

abbrev set_of : Compaction → VersionSet
set_of (compacted n s f) = s
set_of _ = one_set

abbrev number_of : Compaction → ℕ
number_of (compacted n s f) = n
number_of _ = 0

abbrev file_of : Compaction → WritableFile
file_of (compacted n s f) = f
file_of _ = table_log

round_ends : round ≡ compacted (number_of round) (set_of round) (file_of round)
unfolding add_loop pair_of decode_mem_entry get_varint32_ptr encode_varint32 decode_fixed64
    encode_fixed64 to_string add index_before add_entry BlockBuilder.add may_add add_shared
    same_bytes common_prefix current_size_estimate BlockBuilder.finish put_restarts decode_fixed32
    encode_fixed32 encode_varint64 get_varint32_ptr_fallback put_fixed32 put_varint32 put_varint64
    append Env.flush flush_buffer write_unbuffered encode_handle copy flush flush_block put_index
    write_block write_raw_block finish finish_closed index_last write_index encode_footer
    find_short_successor lt_wf resize work_round build_table merge_writers merge_lists merge_list
    Map.insert key_compare set_meta_data sync close install apply append_version unref ref_files
    unref_files unref_lists unref_all level_zero SkipList.unref Version.is_full
round_ends = refl

not_there : SkipList.get key (writer_at one_list_db (writer_of key)).list ≡ none
unfolding SkipList.get find writer_of init
not_there = refl

get_value_compacted_example :
    (get_value key one_list_db ≡ done (answer_of (last_of key (put_key ∷ []))))
    × (get_value key
          (record one_list_db { current = seen (set_of round).heap (set_of round).current })
        ≡ done (not_found, none))
unfolding Version.is_full
get_value_compacted_example =
    get_value_compacted true true key one_list_db (put_key ∷ []) one_set (set_of round) table_log
      (file_of round) 0 (number_of round) one_list_db-IsSettled not_there refl one_set-IsShared refl
      (λ e. cc (e, merged)) (((slice-IsBinding, tt), tt), (tt, (tt, (tt, tt))))
      (rw merged (omega arith)) round_ends
