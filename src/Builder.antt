-- ===== src/Builder.antt =====
-- main/builder.cpp: the lists of a version, merged and written as one table. The file is the one that
-- NewWritableFile has opened; where that fails, the first write goes through a null pointer, which is
-- not followed. `synced` and `closed` are what fdatasync and close answer.
pub mod Merged
pub mod Tables
pub mod Extent
pub mod Readable
use yangkv_v.Base.{ℕ, ◌==◌, Bool, List, [], ◌∷◌, if◌then◌else◌, Option, none, some}
use yangkv_v.Base.Outcome.{Outcome, done, fault, ◌>>=◌}
use yangkv_v.Env.{WritableFile, Run, returns, waits, crash, sync, close}
use yangkv_v.Log.{and_then}
use yangkv_v.Map.{Map, first?, last?}
use yangkv_v.MemEntry.{MemEntry, decode_mem_entry}
use yangkv_v.SkipList.{SkipList}
use yangkv_v.Slice.{Slice, to_string}
use yangkv_v.Status.{is_ok}
use yangkv_v.TableBuilder.{
  TableBuilder, Build, built, blocked, broken, on_built, new_table, add, finish, file_size,
}
use yangkv_v.Version.{FileMetaData}
use yangkv_v.Map

-- The innermost loop of MergeIterator, over the bindings of one list.
unfoldable pub merge_list : Map Slice → Map Slice → Map Slice
merge_list [] mp = mp
merge_list ((key, slice) ∷ list) mp = merge_list list (Map.insert key slice mp)

unfoldable pub merge_lists : List SkipList → Map Slice → Map Slice
merge_lists [] mp = mp
merge_lists (l ∷ lists) mp = merge_lists lists (merge_list l.list mp)

-- MergeIterator(frozenlists), over the lists of each writer; what is left of the map is what the
-- iterator has not passed.
unfoldable pub merge_writers : List (List SkipList) → Map Slice → Map Slice
merge_writers [] mp = mp
merge_writers (lists ∷ writers) mp = merge_writers writers (merge_lists lists mp)

abbrev entry_at : Option (List ℕ × Slice) → Outcome MemEntry
entry_at none = fault
entry_at (some (key, slice)) = decode_mem_entry slice

-- setMetaData, on an object with a number; the map must not be empty.
unfoldable pub set_meta_data : ℕ → Map Slice → Outcome FileMetaData
set_meta_data number mp = do
  smallest ← entry_at (first? mp)
  largest ← entry_at (last? mp)
  done (record { refs = 0; smallest = smallest; largest = largest; file_size = 0; number = number })

-- The key and the value of an entry, as Add gets them.
unfoldable pub pair_of : Slice → Outcome (List ℕ × List ℕ)
pair_of slice = do
  entry ← decode_mem_entry slice
  key ← to_string entry.key
  value ← to_string entry.value
  done (key, value)

abbrev pub add_pair : Outcome (List ℕ × List ℕ) → TableBuilder → Build
add_pair (done (key, value)) builder = add key value builder
add_pair _ builder = broken

-- The loop of BuildTable, by GetNext and End.
unfoldable pub add_loop : Map Slice → TableBuilder → Build
add_loop [] builder = built builder
add_loop ((key, slice) ∷ mp) builder = on_built (add_pair (pair_of slice) builder) (add_loop mp)

-- What BuildTable comes to: the metadata and the file. Its status is OK whatever has failed.
pub data Table : Type 0 where
  made : FileMetaData → WritableFile → Table
  unanswered : Table
  failed : Table

abbrev made_by : FileMetaData → Run → Table
made_by meta (returns s f) = made meta f
made_by meta waits = unanswered
made_by meta crash = failed

-- Sync and Close; where the table or the Sync has failed, the destructor of the file closes it.
abbrev end_file : Bool → Bool → TableBuilder → Run
end_file synced closed builder =
    if is_ok builder.status
    then and_then (sync synced builder.file) (close closed)
    else close closed builder.file

-- The part of BuildTable behind Finish.
abbrev pub after_finish : Bool → Bool → FileMetaData → Build → Table
after_finish synced closed meta (built builder) =
    if is_ok builder.status
    then (if file_size builder == 0
        then failed
        else made_by (record meta { file_size = file_size builder })
            (end_file synced closed builder))
    else made_by meta (end_file synced closed builder)
after_finish synced closed meta blocked = unanswered
after_finish synced closed meta broken = failed

abbrev pub write_table : Bool → Bool → Map Slice → WritableFile → Outcome FileMetaData → Table
write_table synced closed mp file (done meta) =
    after_finish synced closed meta (on_built (add_loop mp (new_table file)) finish)
write_table synced closed mp file _ = failed

-- BuildTable
unfoldable pub build_table : Bool → Bool → ℕ → List (List SkipList) → WritableFile → Table
build_table synced closed number frozenlists file =
    let mp = merge_writers frozenlists [] in
    write_table synced closed mp file (set_meta_data number mp)
