-- ===== src/Tests/Edits.antt =====
-- Runs of VersionEdit in main/versionedit.cpp and of VersionSet::Builder in main/versionset.cpp.
use yangkv_v.Base.{
  All, ℕ, ◌==◌, ◌≡◌, ◌≢◌, refl, List, [], ◌∷◌, ◌++◌, length, replicate, none, some, true, false,
  if◌then◌else◌, arith,
}
use yangkv_v.Base.Outcome.{done, refused}
use yangkv_v.Coding.{encode_varint32, encode_fixed64}
use yangkv_v.Map.{key_compare}
use yangkv_v.MemEntry.{MemEntry, of_strings}
use yangkv_v.Status.{ok}
use yangkv_v.Version.{FileMetaData}
use yangkv_v.VersionEdit.{VersionEdit, Heap, cleared, encode_to, decode_from, decode_loop, start}
use yangkv_v.VersionEdit.Enough.{decode_loop-enough}
use yangkv_v.Slice.{Slice}
use yangkv_v.VersionEdit.Fields.{ShowsFile}
use yangkv_v.VersionEdit.RoundTrip.{IsEncodable, read_edit, decode_from-encode_edit}
use yangkv_v.VersionSet.{Node, new_node, ref_files, flat}
use yangkv_v.VersionSet.Applied.{builder_on-IsOrdered, save_to-apply_edit}
use yangkv_v.VersionSet.Ascending.{IsAscending}
use yangkv_v.VersionSet.Builder.{Builder, follows, builder_on, by_smallest_key, apply_edit, save_to}
use yangkv_v.VersionSet.Edited.{IsOrdered, IsSaved}
use yangkv_v.VersionSet.Saved.{
  split_bound, saved, keep, merge, all_apart, ranges_apart, save_to-saved,
}

abbrev entry : ℕ → MemEntry
entry c = of_strings (c ∷ []) (b'v' ∷ []) 5 false

abbrev file : ℕ → ℕ → ℕ → FileMetaData
file from to number = record {
  refs = 1;
  smallest = entry from;
  largest = entry to;
  file_size = 30;
  number = number;
}

-- The file of the version, and that of the edit, which has the smaller keys.
abbrev files : Heap
files = file b'm' b'z' 1 ∷ file b'a' b'c' 2 ∷ []

abbrev base : Node
base = record new_node { files = (0 ∷ []) ∷ replicate 6 [] }

abbrev edit : VersionEdit
edit = record cleared {
  last_sequence = some 7;
  deleted_files = (0, 9) ∷ [];
  new_files = (0, 1) ∷ [];
}

-- The edit is written and read.
edit-IsEncodable : IsEncodable files edit
unfolding encode_varint32 encode_fixed64
edit-IsEncodable = record {
  prev_log_fits = tt;
  next_file_fits = tt;
  last_sequence_fits = omega arith;
  deleted_set = (tt, tt);
  deleted_fit = ((omega arith, omega arith), tt);
  new_fit = (
    record {
      level_fits = omega arith;
      number_fits = omega arith;
      size_fits = omega arith;
      smallest = omega arith;
      largest = omega arith;
      smallest_fits = omega arith;
      largest_fits = omega arith;
    },
    tt,
  );
}

decode_from-encode_edit_example :
    (bytes : List ℕ) × (meta : FileMetaData) × (encode_to files edit [] ≡ done bytes)
    × (decode_from (record { ptr = bytes ++ 9 ∷ []; size = length bytes })
        ≡ done (ok, record { edit = read_edit edit; meta = meta }))
    × ShowsFile (some (file b'a' b'c' 2)) meta
decode_from-encode_edit_example = decode_from-encode_edit files edit (9 ∷ []) edit-IsEncodable

-- The edit is applied to the version.
abbrev begun : Builder
begun = builder_on base

begun-IsOrdered : IsOrdered files begun
begun-IsOrdered = builder_on-IsOrdered files base refl (
  ((tt, tt), (omega arith, tt)),
  ((tt, tt), ((tt, tt), ((tt, tt), ((tt, tt), ((tt, tt), ((tt, tt), tt)))))),
)

abbrev copied : Heap
copied = files ++ record (file b'a' b'c' 2) { refs = 1 } ∷ []

abbrev edited : Builder
edited = record begun {
  levels =
      record {
        deleted_files = λ n. if n == 2 then false else if n == 9 then true else false;
        added_files = 2 ∷ [];
      }
      ∷ replicate 6 (record { deleted_files = λ n. false; added_files = [] });
}

apply_edit-begun : apply_edit edit begun files ≡ some (edited, copied)
unfolding apply_edit
apply_edit-begun = refl

saved-edited : saved copied edited.base.files edited.levels ≡ (2 ∷ 0 ∷ []) ∷ replicate 6 []
unfolding keep merge by_smallest_key key_compare
saved-edited = refl

edited-IsAscending : All (IsAscending copied) edited.base.files
edited-IsAscending = ((tt, tt), (tt, (tt, (tt, (tt, (tt, (tt, tt)))))))

save_to-saved_example : save_to split_bound edited copied ≡ (
    if all_apart copied 0 (saved copied edited.base.files edited.levels)
    then some (
      record new_node { files = saved copied edited.base.files edited.levels },
      ref_files (flat (saved copied edited.base.files edited.levels)) copied,
    )
    else none)
save_to-saved_example =
    save_to-saved split_bound edited copied (λ keys a l h. refl) edited-IsAscending

all_apart-edited : all_apart copied 0 (saved copied edited.base.files edited.levels) ≡ true
unfolding all_apart ranges_apart follows keep merge by_smallest_key key_compare
all_apart-edited = refl

save_to-apply_edit_example :
    (v : Node) × (heap : Heap) × (save_to split_bound edited copied ≡ some (v, heap))
    × IsOrdered copied edited
    × IsSaved edited copied v heap
save_to-apply_edit_example =
    save_to-apply_edit split_bound edit begun edited files copied (λ keys a l h. refl)
      begun-IsOrdered apply_edit-begun all_apart-edited

-- A number, and a tag that DecodeFrom does not know.
abbrev unknown_tag : Slice
unknown_tag = record { ptr = 4 ∷ 7 ∷ 5 ∷ 1 ∷ []; size = 4 }

decode_loop-enough_example :
    (decode_loop 5 unknown_tag start ≢ refused)
    × (decode_loop 5 unknown_tag start ≡ decode_loop 9 unknown_tag start)
decode_loop-enough_example = decode_loop-enough 5 9 unknown_tag start (omega arith) (omega arith)
