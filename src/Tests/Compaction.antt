-- ===== src/Tests/Compaction.antt =====
-- Runs of main/builder.cpp, table/table_builder.cpp and memory/compacter.cpp on one entry.
use yangkv_v.Base.{
  inl, same_bytes, lt_wf, ℕ, zero, suc, ◌^◌, ◌≤◌, ◌<◌, ◌≡◌, ◌≢◌, refl, sym, List, [], ◌∷◌, length,
  All, get_or, replicate, take, drop, true, some, arith,
}
use yangkv_v.Base.Outcome.{done}
use yangkv_v.Map.Laws.{IsOrdered}
use yangkv_v.Builder.{merge_list, merge_lists, merge_writers, build_table, add_loop, pair_of}
use yangkv_v.Builder.Extent.{Makes, build_table-Makes}
use yangkv_v.Builder.Merged.{AreOrdered, Lacks, find-merge_writers}
use yangkv_v.Builder.Readable.{finish-Opens, pairs_of}
use yangkv_v.Builder.Tables.{IsBinding, new_table-HasPlace, finish-add_loop_failed}
use yangkv_v.Env.{WritableFile, wrote, append, flush_buffer, write_unbuffered}
use yangkv_v.BlockBuilder.{may_add, add_shared, current_size_estimate, put_restarts}
use yangkv_v.Coding.{
  get_varint32_ptr, encode_varint32, decode_fixed64, encode_fixed64, decode_fixed32, encode_fixed32,
  encode_varint64, get_varint32_ptr_fallback, put_fixed32, put_varint32, put_varint64,
}
use yangkv_v.Comparator.{common_prefix, find_short_successor}
use yangkv_v.Format.{encode_handle, encode_footer, resize}
use yangkv_v.MemEntry.{decode_mem_entry}
use yangkv_v.Env.Buffer.{contents}
use yangkv_v.Hash.{writer_of}
use yangkv_v.Log.{Pread}
use yangkv_v.Map.{find, key_compare}
use yangkv_v.MemEntry.Storable.{code}
use yangkv_v.SkipList.{SkipList}
use yangkv_v.Slice.{Slice, to_string, copy}
use yangkv_v.Status.{error, ok}
use yangkv_v.TableBuilder.{
  TableBuilder, Build, built, on_built, new_table, add, finish, file_size, index_before, add_entry,
  flush, flush_block, put_index, write_block, write_raw_block, finish_closed, index_last,
  write_index,
}
use yangkv_v.TableBuilder.Ensures.{Ensures}
use yangkv_v.TableBuilder.Opened.{Opens}
use yangkv_v.TableBuilder.Rising.{Added, add-Added}
use yangkv_v.Tests.Store.{key, value, put_key, writer_of_key, put_key-IsStorable}
use yangkv_v.Version.{Version, read_hit, first_hit}
use yangkv_v.VersionSet.{Node, VersionSet, new_node, seen, work_round}
use yangkv_v.VersionSet.Compacted.{Compacts, work_round-Compacts}
use yangkv_v.VersionSet.Counts.{IsShared}
use yangkv_v.Env
use yangkv_v.BlockBuilder
use yangkv_v.Map
use yangkv_v.Version

abbrev pub slice : Slice
slice = record { ptr = code put_key; size = length (code put_key) }

abbrev pub one_list : SkipList
one_list = record { id = 1; list = (key, slice) ∷ []; refs = 1 }

abbrev ten_lists : List (List SkipList)
ten_lists = replicate 10 one_list ∷ [] ∷ [] ∷ [] ∷ []

abbrev pub table_log : WritableFile
table_log = record { buf = []; disk = []; answers = wrote 100 ∷ wrote 100 ∷ [] }

abbrev full_node : Node
full_node = record new_node { refs = 1; list = ten_lists; list_count = 10 }

abbrev full_set : VersionSet
full_set = record { older = []; current = full_node; heap = [] }

pub slice-IsBinding : IsBinding (key, slice)
slice-IsBinding = (put_key, put_key-IsStorable, refl, refl)

every_list : (P : SkipList → Type 0) (n : ℕ) → P one_list → All P (replicate n one_list)
every_list P zero h = tt
every_list P (suc n) h = (h, every_list P n h)

full_set-IsShared : IsShared full_set
full_set-IsShared = record {
  alone = refl;
  one = refl;
  levels = omega arith;
  lists = (every_list (λ l. 1 ≤ l.refs) 10 (omega arith), (tt, (tt, (tt, tt))));
  places = tt;
  counts = λ p. refl;
}

full_set-bindings : All (λ lists. All (λ l. All IsBinding l.list) lists) ten_lists
full_set-bindings =
    (every_list (λ l. All IsBinding l.list) 10 (slice-IsBinding, tt), (tt, (tt, (tt, tt))))

merged : merge_writers ten_lists [] ≡ (key, slice) ∷ []
unfolding merge_writers merge_lists merge_list Map.insert key_compare
merged = refl

some_keys : merge_writers ten_lists [] ≢ []
some_keys e = cc (e, merged)

few_keys : length (merge_writers ten_lists []) < 2 ^ 24
few_keys = rw merged (omega arith)

work_round-Compacts_example : Compacts 0 full_set (work_round true true table_log 0 full_set)
unfolding Version.is_full
work_round-Compacts_example =
    work_round-Compacts true true table_log 0 full_set full_set-IsShared refl some_keys
      full_set-bindings few_keys

build_table-Makes_example :
    Makes 1 (merge_writers ten_lists []) (build_table true true 1 ten_lists table_log)
build_table-Makes_example =
    build_table-Makes true true 1 ten_lists table_log some_keys full_set-bindings few_keys

only_there : (i : ℕ) → i ≢ writer_of key → Lacks key (get_or ten_lists i [])
unfolding first_hit
only_there zero other = absurd (other (sym writer_of_key))
only_there (suc zero) other = refl
only_there (suc (suc zero)) other = refl
only_there (suc (suc (suc zero))) other = refl
only_there (suc (suc (suc (suc i)))) other = refl

ten_lists-AreOrdered : All AreOrdered ten_lists
ten_lists-AreOrdered = (every_list (λ l. IsOrdered l.list) 10 tt, (tt, (tt, (tt, tt))))

find-merge_writers_example :
    read_hit (find key (merge_writers (seen [] full_node).list []))
    ≡ Version.get key (seen [] full_node)
find-merge_writers_example =
    find-merge_writers key (seen [] full_node) ten_lists-AreOrdered only_there

add-Added_example : Ensures (add key value (new_table table_log)) (Added key (new_table table_log))
add-Added_example =
    add-Added key value (new_table table_log) (new_table-HasPlace 0 table_log (omega arith)).well
      refl refl (omega arith) (inl refl) (omega arith) (omega arith)

abbrev failed_table : TableBuilder
failed_table = record (new_table table_log) { status = error }

finish-add_loop_failed_example :
    on_built (add_loop ((key, slice) ∷ []) failed_table) finish
    ≡ built (record failed_table { closed = true })
finish-add_loop_failed_example =
    finish-add_loop_failed ((key, slice) ∷ []) failed_table (slice-IsBinding, tt) refl refl

abbrev read_all : Pread
read_all content offset n = some (take n (drop offset content))

abbrev table_of : Build → TableBuilder
table_of (built r) = r
table_of _ = failed_table

abbrev one_table : Build
one_table = on_built (add_loop ((key, slice) ∷ []) (new_table table_log)) finish

-- The run to its end.
abbrev Ends : Build → Type 0
Ends b =
    (b ≡ built (table_of b))
    × ((table_of b).status ≡ ok)
    × (length (contents (table_of b).file) < 2 ^ 63)

one_table-Ends : Ends one_table
unfolding add_loop pair_of decode_mem_entry get_varint32_ptr encode_varint32 decode_fixed64
    encode_fixed64 to_string add index_before add_entry BlockBuilder.add may_add add_shared
    same_bytes common_prefix current_size_estimate BlockBuilder.finish put_restarts decode_fixed32
    encode_fixed32 encode_varint64 get_varint32_ptr_fallback put_fixed32 put_varint32 put_varint64
    append Env.flush flush_buffer write_unbuffered encode_handle copy flush flush_block put_index
    write_block write_raw_block finish finish_closed index_last write_index encode_footer
    find_short_successor lt_wf resize
one_table-Ends = (refl, refl, omega arith)

finish-Opens_example :
    (pairs : List (List ℕ × List ℕ)) × (pairs_of ((key, slice) ∷ []) ≡ done pairs)
    × Opens read_all pairs (contents (table_of one_table).file)
    × (file_size (table_of one_table) ≡ length (contents (table_of one_table).file))
finish-Opens_example =
    finish-Opens read_all ((key, slice) ∷ []) table_log (table_of one_table)
      (λ content offset n. refl) refl refl one_table-Ends.0 one_table-Ends.1 one_table-Ends.2
