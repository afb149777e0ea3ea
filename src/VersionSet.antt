-- ===== src/VersionSet.antt =====
-- The versions of main/versionset.cpp as objects that share their files, and the rounds of
-- memory/compacter.cpp. A file is a pointer, a place in the heap of the FileMetaData that have been made.
pub mod Shared
pub mod Counts
pub mod Compacted
pub mod Builder
pub mod Ascending
pub mod Saved
pub mod Ordered
pub mod Edited
pub mod Applied
pub mod Threads
pub mod Exclusive
pub mod Kept
pub mod Sleeping
use yangkv_v.Base.{
  ℕ, ◌+◌, ◌-◌, ◌%◌, ◌^◌, leb, ◌==◌, Bool, true, false, List, [], ◌∷◌, ◌++◌, replicate, set, get_or,
  if◌then◌else◌, Option, none, some, map,
}
use yangkv_v.Builder.{Table, made, unanswered, failed, build_table}
use yangkv_v.Env.{WritableFile}
use yangkv_v.Hash.{k_max_writer}
use yangkv_v.SkipList.{SkipList}
use yangkv_v.Version.{Version, FileMetaData, k_max_level}
use yangkv_v.VersionEdit.{Heap, VersionEdit, new_meta, cleared, add_file}
use yangkv_v.SkipList
use yangkv_v.Version

-- A version whose files are pointers.
pub record Node : Type 0 where
  pub refs : ℕ
  pub list : List (List SkipList)
  pub list_count : ℕ
  pub files : List (List ℕ)

-- Version(set)
abbrev pub new_node : Node
new_node = record {
  refs = 0;
  list = replicate k_max_writer [];
  list_count = 0;
  files = replicate k_max_level [];
}

-- What a reader of the node sees.
abbrev pub seen : Heap → Node → Version
seen heap v = record {
  refs = v.refs;
  list = v.list;
  list_count = v.list_count;
  files = map (λ level. map (λ place. get_or heap place new_meta) level) v.files;
}

-- The versions that are linked behind dummy_versions_: the current one is the last.
pub record VersionSet : Type 0 where
  pub older : List Node
  pub current : Node
  pub heap : Heap

abbrev pub flat : List (List ℕ) → List ℕ
flat [] = []
flat (l ∷ ls) = l ++ flat ls

abbrev with_refs : ℕ → FileMetaData → FileMetaData
with_refs n f = record f { refs = n }

-- FileMetaData::ref
abbrev pub ref_file : ℕ → Heap → Heap
ref_file place heap =
    let f = get_or heap place new_meta in set heap place (with_refs (f.refs + 1) f)

unfoldable pub ref_files : List ℕ → Heap → Heap
ref_files [] heap = heap
ref_files (place ∷ places) heap = ref_files places (ref_file place heap)

abbrev pub unref_at : ℕ → ℕ → Heap → Heap
unref_at n place heap = set heap place (with_refs (n - 1) (get_or heap place new_meta))

-- FileMetaData::unref on each; `none` is a failed assertion.
unfoldable pub unref_files : List ℕ → Heap → Option Heap
unref_files [] heap = some heap
unref_files (place ∷ places) heap =
    let n = (get_or heap place new_meta).refs in
    let rest = unref_files places (unref_at n place heap) in if leb 1 n then rest else none

-- The loop of Version::Unref over the lists of one writer; `false` is a failed assertion.
unfoldable pub unref_lists : List SkipList → Bool
unref_lists [] = true
unref_lists (l ∷ ls) = elim (SkipList.unref l) [ none ↦ false | some r ↦ unref_lists ls ]

unfoldable pub unref_all : List (List SkipList) → Bool
unref_all [] = true
unref_all (ls ∷ writers) = if unref_lists ls then unref_all writers else false

abbrev kept : Node → Option Heap → Option (List Node × Heap)
kept v (some heap) = some ([], heap)
kept v none = none

-- Version::Unref and, at no reference, the destructor: the versions that are left of the one, and the
-- heap.
unfoldable pub unref : Node → Heap → Option (List Node × Heap)
unref v heap =
    let deleted = if unref_all v.list then kept v (unref_files (flat v.files) heap) else none in
    if leb 1 v.refs
    then (if v.refs - 1 == 0 then deleted else some (record v { refs = v.refs - 1 } ∷ [], heap))
    else none

-- The places of the new files of level 0; those of other levels are passed over.
unfoldable pub level_zero : List (ℕ × ℕ) → List ℕ
level_zero [] = []
level_zero ((level, place) ∷ l) = if level == 0 then place ∷ level_zero l else level_zero l

-- Version::apply on a new version: the deleted files of the edit play no part.
unfoldable pub apply : Node → VersionEdit → Heap → Node × Heap
apply curr edit heap =
    let files = set curr.files 0 (get_or curr.files 0 [] ++ level_zero edit.new_files) in
    (record new_node { files = files }, ref_files (flat files) heap)

abbrev placed : Node → VersionSet → Option (List Node × Heap) → Option VersionSet
placed v s (some (left, heap)) =
    some (record { older = s.older ++ left; current = record v { refs = 1 }; heap = heap })
placed v s none = none

-- VersionSet::AppendVersion behind the first version, with its assertion on the count.
unfoldable pub append_version : Node → VersionSet → Option VersionSet
append_version v s = if v.refs == 0 then placed v s (unref s.current s.heap) else none

-- What a round of workRound comes to, with the number of the last file.
pub data Compaction : Type 0 where
  -- The version is not full.
  rested : Compaction
  compacted : ℕ → VersionSet → WritableFile → Compaction
  -- The table waits for the system.
  held_up : Compaction
  aborted : Compaction

abbrev swapped : ℕ → WritableFile → Option VersionSet → Compaction
swapped number file (some s) = compacted number s file
swapped number file none = aborted

-- AddFile of the table, a new version, apply and AppendVersion.
unfoldable pub install : ℕ → Table → VersionSet → Compaction
install number (made meta file) s =
    let (heap, edit) =
      add_file 0 meta.number meta.file_size meta.smallest meta.largest s.heap cleared in
    let (v, heap') = apply s.current edit heap in
    swapped number file (append_version v (record s { heap = heap' }))
install number unanswered s = held_up
install number failed s = aborted

-- One round of Compacter::workRound, with Compacter::compact in it; `file` is the new table file.
unfoldable pub work_round : Bool → Bool → WritableFile → ℕ → VersionSet → Compaction
work_round synced closed file file_seq_num s =
    let number = (file_seq_num + 1) % 2 ^ 32 in
    if Version.is_full (seen s.heap s.current)
    then install number (build_table synced closed number s.current.list file) s
    else rested
