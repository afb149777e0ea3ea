-- ===== src/VersionEdit/Files.antt =====
-- The files of an edit in EncodeTo and DecodeFrom of main/versionedit.cpp.
use yangkv_v.Base.{
  ℕ, ◌+◌, ◌<◌, ◌≡◌, refl, sym, ap, ◌∙◌, List, [], ◌∷◌, ◌++◌, length, get_or, All, take_all, Option,
  some, append_assoc, append-nil, arith,
}
use yangkv_v.Base.Outcome.{done}
use yangkv_v.Coding.{
  IsU32, IsU64, put_varint32, put_varint64, put_length_prefixed_slice, encode_varint32,
  encode_varint64,
}
use yangkv_v.MemEntry.RoundTrip.{reread, reread-shown}
use yangkv_v.MemEntry.Storable.{IsStorable, code, encode_mem_entry-code}
use yangkv_v.Version.{FileMetaData, k_max_level}
use yangkv_v.VersionEdit.{
  VersionEdit, Heap, new_meta, decode_field, delete_file, put_deleted, put_new,
}
use yangkv_v.VersionEdit.Fields.{
  Reads, Reads-nil, Reads-append, Reads-field, shows-append, level_back, number64_back, prefixed,
  entry_back,
}
use native.Mathlib.Nat.{le_refl}

-- A deleted file.
abbrev pub deleted_code : ℕ × ℕ → List ℕ
deleted_code p = encode_varint32 6 ++ (encode_varint32 p.0 ++ encode_varint64 p.1)

abbrev pub all_deleted : List (ℕ × ℕ) → List ℕ
all_deleted [] = []
all_deleted (p ∷ l) = deleted_code p ++ all_deleted l

abbrev pub IsDeleted : ℕ × ℕ → Type 0
IsDeleted p = (p.0 < k_max_level) × IsU64 p.1

pub put_deleted-all_deleted :
    (l : List (ℕ × ℕ)) (dst : List ℕ) → put_deleted l dst ≡ dst ++ all_deleted l
unfolding put_deleted put_varint32 put_varint64
put_deleted-all_deleted [] dst = sym (append-nil dst)
put_deleted-all_deleted ((level, num) ∷ l) dst =
    put_deleted-all_deleted l
      (((dst ++ encode_varint32 6) ++ encode_varint32 level) ++ encode_varint64 num)
    ∙ simp append_assoc

abbrev pub delete_all : List (ℕ × ℕ) → VersionEdit → VersionEdit
delete_all [] e = e
delete_all ((level, num) ∷ l) e = delete_all l (delete_file level num e)

Reads-deleted :
    (level num : ℕ) (e : VersionEdit) (last : Option FileMetaData)
    → IsDeleted (level, num)
    → Reads (deleted_code (level, num)) e last (delete_file level num e) last
unfolding decode_field
Reads-deleted level num e last h =
    Reads-field 6 (encode_varint32 level ++ encode_varint64 num) e (delete_file level num e) last
      last (omega arith)
      (λ d n rest at. (
        record d { edit = delete_file level num d.edit },
        (ap (delete_file level num) at.0, at.1),
        rw (
          shows-append (encode_varint32 level) (encode_varint64 num) rest n,
          level_back level (length (encode_varint64 num) + n) (encode_varint64 num ++ rest) h.0,
          number64_back num n rest h.1,
        ),
      ))

pub Reads-all_deleted :
    (l : List (ℕ × ℕ)) (e : VersionEdit) (last : Option FileMetaData)
    → All IsDeleted l
    → Reads (all_deleted l) e last (delete_all l e) last
Reads-all_deleted [] e last h = Reads-nil e last
Reads-all_deleted ((level, num) ∷ l) e last h =
    let e' = delete_file level num e in
    Reads-append (deleted_code (level, num)) (all_deleted l) e e' (delete_all l e') last last last
      (Reads-deleted level num e last h.0) (Reads-all_deleted l e' last h.1)

-- A new file.
abbrev pub file_code : ℕ → FileMetaData → List ℕ
file_code level f =
    encode_varint32 7
    ++ (encode_varint32 level
        ++ (encode_varint64 f.number
            ++ (encode_varint64 f.file_size ++ (prefixed f.smallest ++ prefixed f.largest))))

-- A file that EncodeTo can write and DecodeFrom can read.
pub record IsWritable (level : ℕ) (f : FileMetaData) : Type 0 where
  pub level_fits : level < k_max_level
  pub number_fits : IsU64 f.number
  pub size_fits : IsU64 f.file_size
  pub smallest : IsStorable f.smallest
  pub largest : IsStorable f.largest
  pub smallest_fits : IsU32 (length (code f.smallest))
  pub largest_fits : IsU32 (length (code f.largest))

abbrev pub all_new : Heap → List (ℕ × ℕ) → List ℕ
all_new heap [] = []
all_new heap ((level, place) ∷ l) = file_code level (get_or heap place new_meta) ++ all_new heap l

abbrev pub AreWritable : Heap → List (ℕ × ℕ) → Type 0
AreWritable heap [] = Unit {0}
AreWritable heap ((level, place) ∷ l) =
    IsWritable level (get_or heap place new_meta) × AreWritable heap l

pub put_new-all_new :
    (heap : Heap) (l : List (ℕ × ℕ)) (dst : List ℕ)
    → AreWritable heap l
    → put_new heap l dst ≡ done (dst ++ all_new heap l)
unfolding put_new put_varint32 put_varint64 put_length_prefixed_slice
put_new-all_new heap [] dst h = ap done (sym (append-nil dst))
put_new-all_new heap ((level, place) ∷ l) dst h =
    let f = get_or heap place new_meta in
    rw
      (
        encode_mem_entry-code f.smallest h.0.smallest,
        encode_mem_entry-code f.largest h.0.largest,
        take_all (length (code f.smallest)) (code f.smallest) (le_refl (length (code f.smallest))),
        take_all (length (code f.largest)) (code f.largest) (le_refl (length (code f.largest))),
      )
      (put_new-all_new heap l _ h.1 ∙ ap done (simp append_assoc))

-- The edit with one more new file; every new file is the place 0.
abbrev pub with_file : ℕ → VersionEdit → VersionEdit
with_file level e = record e { new_files = e.new_files ++ (level, 0) ∷ [] }

Reads-file :
    (level : ℕ) (f : FileMetaData) (e : VersionEdit) (last : Option FileMetaData)
    → IsWritable level f
    → Reads (file_code level f) e last (with_file level e) (some f)
unfolding decode_field
Reads-file level f e last h =
    let num = encode_varint64 f.number in
    let size = encode_varint64 f.file_size in
    let small = prefixed f.smallest in
    let large = prefixed f.largest in
    Reads-field 7 (encode_varint32 level ++ (num ++ (size ++ (small ++ large)))) e
      (with_file level e) last (some f) (omega arith)
      (λ d n rest at. (
        record {
          edit = with_file level d.edit;
          meta = record d.meta {
            number = f.number;
            file_size = f.file_size;
            smallest = reread f.smallest (large ++ rest);
            largest = reread f.largest rest;
          };
        },
        (
          ap (with_file level) at.0,
          (
            refl,
            refl,
            reread-shown f.smallest (large ++ rest) h.smallest,
            reread-shown f.largest rest h.largest,
          ),
        ),
        rw (
          shows-append (encode_varint32 level) (num ++ (size ++ (small ++ large))) rest n,
          level_back level (length (num ++ (size ++ (small ++ large))) + n)
              ((num ++ (size ++ (small ++ large))) ++ rest) h.level_fits,
          shows-append num (size ++ (small ++ large)) rest n,
          number64_back f.number (length (size ++ (small ++ large)) + n)
              ((size ++ (small ++ large)) ++ rest) h.number_fits,
          shows-append size (small ++ large) rest n,
          number64_back f.file_size (length (small ++ large) + n) ((small ++ large) ++ rest)
              h.size_fits,
          shows-append small large rest n,
          entry_back f.smallest (length large + n) (large ++ rest) h.smallest h.smallest_fits,
          entry_back f.largest n rest h.largest h.largest_fits,
        ),
      ))

-- The edit and the object behind some new files.
abbrev pub with_files : List (ℕ × ℕ) → VersionEdit → VersionEdit
with_files [] e = e
with_files ((level, place) ∷ l) e = with_files l (with_file level e)

abbrev pub last_file : Heap → List (ℕ × ℕ) → Option FileMetaData → Option FileMetaData
last_file heap [] last = last
last_file heap ((level, place) ∷ l) last = last_file heap l (some (get_or heap place new_meta))

pub Reads-all_new :
    (heap : Heap) (l : List (ℕ × ℕ)) (e : VersionEdit) (last : Option FileMetaData)
    → AreWritable heap l
    → Reads (all_new heap l) e last (with_files l e) (last_file heap l last)
Reads-all_new heap [] e last h = Reads-nil e last
Reads-all_new heap ((level, place) ∷ l) e last h =
    let f = get_or heap place new_meta in
    Reads-append (file_code level f) (all_new heap l) e (with_file level e)
      (with_files l (with_file level e)) last (some f) (last_file heap l (some f))
      (Reads-file level f e last h.0) (Reads-all_new heap l (with_file level e) (some f) h.1)
