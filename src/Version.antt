-- ===== src/Version.antt =====
-- main/versionset.h and main/versionset.cpp: what a version of the store holds, and how it is read.
pub mod Frozen
use yangkv_v.Base.{
  ℕ, ◌+◌, ◌%◌, ◌^◌, List, [], ◌∷◌, ◌++◌, take, replicate, get_or, set, leb, Bool, true, false, not,
  ◌&&◌, if◌then◌else◌, Option, none, some,
}
use yangkv_v.Base.Outcome.{Outcome, done, ◌>>=◌}
use yangkv_v.Slice.{Slice, to_string}
use yangkv_v.Map.{key_compare}
use yangkv_v.MemEntry.{MemEntry, decode_mem_entry}
use yangkv_v.SkipList.{SkipList}
use yangkv_v.Hash.{writer_of, k_max_writer}
use mathlib.Core.List.{reverse}
use Prim.Native.Nat.{Ordering, lt}
use yangkv_v.SkipList

abbrev pub k_max_level : ℕ
k_max_level = 7

abbrev pub k_max_frozen_list : ℕ
k_max_frozen_list = 10

-- struct FileMetaData of main/versionedit.h.
pub record FileMetaData : Type 0 where
  pub refs : ℕ
  pub smallest : MemEntry
  pub largest : MemEntry
  pub file_size : ℕ
  pub number : ℕ

-- The references, the frozen lists of each writer (oldest first), their number, and the files of each
-- level.
pub record Version : Type 0 where
  pub refs : ℕ
  pub list : List (List SkipList)
  pub list_count : ℕ
  pub files : List (List FileMetaData)

-- Version(set): no list and no file.
abbrev pub new_version : Version
new_version = record {
  refs = 0;
  list = replicate k_max_writer [];
  list_count = 0;
  files = replicate k_max_level [];
}

unfoldable pub is_full : Version → Bool
is_full v = leb k_max_frozen_list v.list_count

-- AppendList
unfoldable pub append_list : SkipList → ℕ → Version → Version
append_list l idx v = record v {
  list = set v.list idx (get_or v.list idx [] ++ l ∷ []);
  list_count = (v.list_count + 1) % 2 ^ 32;
}

abbrev pub or_hit : Option Slice → Option Slice → Option Slice
or_hit (some s) later = some s
or_hit none later = later

-- The loop of Get over the lists of one writer, in the order in which it looks at them.
unfoldable pub first_hit : List ℕ → List SkipList → Option Slice
first_hit key [] = none
first_hit key (l ∷ ls) = or_hit (SkipList.get key l) (first_hit key ls)

abbrev is_lt : Ordering → Bool
is_lt lt = true
is_lt _ = false

-- mayInFile, on the bytes that the smallest and the largest key show.
unfoldable pub may_in_file : FileMetaData → List ℕ → Bool
may_in_file f key =
    not (is_lt (key_compare key (take f.smallest.key.size f.smallest.key.ptr)))
    && not (is_lt (key_compare (take f.largest.key.size f.largest.key.ptr) key))

-- What an entry that was found says to Get: `none` is the answer false.
abbrev pub found : MemEntry → Outcome (Option (List ℕ))
found entry =
    let value = (do v ← to_string entry.value; done (some v)) in
    if entry.value_type then done none else value

unfoldable pub read_hit : Option Slice → Outcome (Option (List ℕ))
read_hit none = done none
read_hit (some slice) = do entry ← decode_mem_entry slice; found entry

-- Version::Get: the newest frozen list of the key's writer that has the key. The files that may hold
-- the key are collected behind it and not read, so that the answer is false then.
unfoldable pub get : List ℕ → Version → Outcome (Option (List ℕ))
get key v = read_hit (first_hit key (reverse (get_or v.list (writer_of key) [])))

pub data Append : Type 0 where
  appended : Version → Append
  -- Waits for the compacter's broadcast, with the lock given up.
  parked : Append

-- VersionSet::AppendFrozenList on the current version.
unfoldable pub append_frozen_list : SkipList → ℕ → Version → Append
unfolding is_full append_list
append_frozen_list l idx v = if is_full v then parked else appended (append_list l idx v)
