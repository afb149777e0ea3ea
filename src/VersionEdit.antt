-- ===== src/VersionEdit.antt =====
-- main/versionedit.h and main/versionedit.cpp: a change of the version, and its encoding. A new file is
-- a pointer: the heap is the list of the FileMetaData that have been made, and the edit keeps places
-- in it.
pub mod Steps
pub mod Fields
pub mod Files
pub mod PairSet
pub mod RoundTrip
pub mod Enough
use yangkv_v.Base.{
  ℕ, zero, suc, ◌+◌, ltb, ◌==◌, Bool, true, false, List, [], ◌∷◌, ◌++◌, length, take, replicate,
  set, get_or, if◌then◌else◌, Option, none, some,
}
use yangkv_v.Base.Outcome.{Outcome, done, refused, fault, ◌>>=◌}
use yangkv_v.Slice.{Slice, empty_slice}
use yangkv_v.Coding.{
  put_varint32, put_varint64, put_length_prefixed_slice, get_varint32, get_varint64,
  get_length_prefixed_slice,
}
use yangkv_v.Hash.{k_max_writer}
use yangkv_v.MemEntry.{MemEntry, encode_mem_entry, decode_mem_entry}
use yangkv_v.Status.{Status, ok, corruption}
use yangkv_v.Version.{FileMetaData, k_max_level}

-- The heap of files, and what a pointer to one of them shows.
abbrev pub Heap : Type 0
Heap = List FileMetaData

abbrev no_entry : MemEntry
no_entry = record { key = empty_slice; value = empty_slice; seq_num = 0; value_type = false }

-- FileMetaData()
abbrev pub new_meta : FileMetaData
new_meta = record { refs = 0; smallest = no_entry; largest = no_entry; file_size = 0; number = 0 }

-- A flag and its number are an option; the numbers of the log files keep their array.
pub record VersionEdit : Type 0 where
  pub log_number : List ℕ
  pub has_log_number : Bool
  pub prev_log_number : Option ℕ
  pub next_file_number : Option ℕ
  pub last_sequence : Option ℕ
  -- In the order of the set: by level, then by number.
  pub deleted_files : List (ℕ × ℕ)
  pub new_files : List (ℕ × ℕ)

-- Clear
abbrev pub cleared : VersionEdit
cleared = record {
  log_number = replicate k_max_writer 0;
  has_log_number = false;
  prev_log_number = none;
  next_file_number = none;
  last_sequence = none;
  deleted_files = [];
  new_files = [];
}

abbrev pub set_log_number : ℕ → ℕ → VersionEdit → VersionEdit
set_log_number num writerid e = record e {
  has_log_number = true;
  log_number = set e.log_number writerid num;
}

abbrev pub set_prev_log_number : ℕ → VersionEdit → VersionEdit
set_prev_log_number num e = record e { prev_log_number = some num }

abbrev pub set_next_file : ℕ → VersionEdit → VersionEdit
set_next_file num e = record e { next_file_number = some num }

abbrev pub set_last_sequence : ℕ → VersionEdit → VersionEdit
set_last_sequence seq e = record e { last_sequence = some seq }

-- The insertion into a std::set of pairs.
unfoldable pub insert_pair : ℕ × ℕ → List (ℕ × ℕ) → List (ℕ × ℕ)
insert_pair p [] = p ∷ []
insert_pair p (q ∷ l) =
    let later = q ∷ insert_pair p l in
    if ltb p.0 q.0
    then p ∷ q ∷ l
    else if ltb q.0 p.0
    then later
    else if ltb p.1 q.1
    then p ∷ q ∷ l
    else if ltb q.1 p.1
    then later
    else q ∷ l

abbrev pub delete_file : ℕ → ℕ → VersionEdit → VersionEdit
delete_file level file e = record e { deleted_files = insert_pair (level, file) e.deleted_files }

-- AddFile: a new object, and a pointer to it.
abbrev pub add_file : ℕ → ℕ → ℕ → MemEntry → MemEntry → Heap → VersionEdit → Heap × VersionEdit
add_file level file file_size smallest largest heap e = (
  heap
      ++ record {
        refs = 0;
        smallest = smallest;
        largest = largest;
        file_size = file_size;
        number = file;
      }
        ∷ [],
  record e { new_files = e.new_files ++ (level, length heap) ∷ [] },
)

-- A number with its tag, where it is set.
abbrev put_number : ℕ → Option ℕ → List ℕ → List ℕ
put_number tag none dst = dst
put_number tag (some num) dst = put_varint64 (put_varint32 dst tag) num

unfoldable pub put_deleted : List (ℕ × ℕ) → List ℕ → List ℕ
put_deleted [] dst = dst
put_deleted ((level, num) ∷ l) dst =
    put_deleted l (put_varint64 (put_varint32 (put_varint32 dst 6) level) num)

unfoldable pub put_new : Heap → List (ℕ × ℕ) → List ℕ → Outcome (List ℕ)
put_new heap [] dst = done dst
put_new heap ((level, place) ∷ l) dst =
    let f = get_or heap place new_meta in
    do
      smallest ← encode_mem_entry f.smallest
      largest ← encode_mem_entry f.largest
      let head =
          put_varint64 (put_varint64 (put_varint32 (put_varint32 dst 7) level) f.number) f.file_size
      put_new heap l (
          put_length_prefixed_slice
            (put_length_prefixed_slice head (take smallest.size smallest.ptr))
            (take largest.size largest.ptr))

-- EncodeTo; the log numbers are not written.
unfoldable pub encode_to : Heap → VersionEdit → List ℕ → Outcome (List ℕ)
unfolding put_deleted put_new
encode_to heap e dst = put_new heap e.new_files (
    put_deleted e.deleted_files (
      put_number 4 e.last_sequence
        (put_number 3 e.next_file_number (put_number 9 e.prev_log_number dst))))

-- GetMemEntry and GetLevel
unfoldable pub get_mem_entry : Slice → Outcome (MemEntry × Slice)
get_mem_entry input = do
  (str, input₁) ← get_length_prefixed_slice input
  entry ← decode_mem_entry str
  done (entry, input₁)

unfoldable pub get_level : Slice → Outcome (ℕ × Slice)
get_level input = do
  (v, input₁) ← get_varint32 input
  if ltb v k_max_level then done (v, input₁) else refused

-- What DecodeFrom has made so far: the edit, and the one file object that its new files point to.
pub record Decoded : Type 0 where
  pub edit : VersionEdit
  pub meta : FileMetaData

abbrev decode_deleted : Slice → Decoded → Outcome (Decoded × Slice)
decode_deleted input d = do
  (level, input₁) ← get_level input
  (num, input₂) ← get_varint64 input₁
  done (record d { edit = delete_file level num d.edit }, input₂)

-- Every new file is the place 0 of the heap, and is overwritten by the next one.
abbrev decode_new : Slice → Decoded → Outcome (Decoded × Slice)
decode_new input d = do
  (level, input₁) ← get_level input
  (num, input₂) ← get_varint64 input₁
  (file_size, input₃) ← get_varint64 input₂
  (smallest, input₄) ← get_mem_entry input₃
  (largest, input₅) ← get_mem_entry input₄
  done (
    record {
      edit = record d.edit { new_files = d.edit.new_files ++ (level, 0) ∷ [] };
      meta = record d.meta {
        number = num;
        file_size = file_size;
        smallest = smallest;
        largest = largest;
      };
    },
    input₅,
  )

abbrev decode_number : (ℕ → VersionEdit → VersionEdit) → Slice → Decoded → Outcome (Decoded × Slice)
decode_number put input d = do
  (num, input₁) ← get_varint64 input
  done (record d { edit = put num d.edit }, input₁)

-- The switch over the tag; `refused` sets the message.
unfoldable pub decode_field : ℕ → Slice → Decoded → Outcome (Decoded × Slice)
decode_field tag input d =
    if tag == 9
    then decode_number set_prev_log_number input d
    else if tag == 3
    then decode_number set_next_file input d
    else if tag == 4
    then decode_number set_last_sequence input d
    else if tag == 6
    then decode_deleted input d
    else if tag == 7
    then decode_new input d
    else refused

abbrev pub on_result {ℓ κ} :
    {A : Type ℓ} {B : Type κ} → Outcome A → Outcome B → (A → Outcome B) → Outcome B
on_result (done a) other k = k a
on_result refused other k = other
on_result fault other k = fault

-- The loop of DecodeFrom, and whether it ends with no message and nothing left of the input. Each
-- round but the last takes a byte at least, so one more round than the input has bytes is enough;
-- `refused` says that the rounds have run out.
unfoldable pub decode_loop : ℕ → Slice → Decoded → Outcome (Bool × Decoded)
decode_loop zero input d = refused
decode_loop (suc fuel) input d =
    on_result (get_varint32 input) (done (input.size == 0, d))
      (λ t. on_result (decode_field t.0 t.1 d) (done (false, d)) (λ r. decode_loop fuel r.1 r.0))

abbrev pub start : Decoded
start = record { edit = cleared; meta = new_meta }

abbrev status_of : Bool → Status
status_of true = ok
status_of false = corruption

-- DecodeFrom
unfoldable pub decode_from : Slice → Outcome (Status × Decoded)
unfolding decode_loop
decode_from src = do (clean, d) ← decode_loop (src.size + 1) src start; done (status_of clean, d)
