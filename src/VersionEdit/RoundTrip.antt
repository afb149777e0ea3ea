-- ===== src/VersionEdit/RoundTrip.antt =====
-- DecodeFrom of main/versionedit.cpp reads back what EncodeTo has written, files included.
use yangkv_v.Base.{
  ℕ, suc, ◌+◌, ◌-◌, ◌≡◌, refl, ap, ◌∙◌, List, [], ◌++◌, map, length, All, Option, none, some,
  append_assoc, arith, true,
}
use yangkv_v.Base.Outcome.{done}
use yangkv_v.Status.{ok}
use yangkv_v.Version.{FileMetaData}
use yangkv_v.VersionEdit.{
  VersionEdit, Heap, cleared, start, encode_to, decode_from, decode_field, decode_loop,
  set_prev_log_number, set_next_file, set_last_sequence,
}
use yangkv_v.VersionEdit.Fields.{ShowsFile, Reads, Reads-append, Reads-number, with_number}
use yangkv_v.VersionEdit.Files.{
  IsDeleted, all_deleted, delete_all, put_deleted-all_deleted, Reads-all_deleted, AreWritable,
  all_new, put_new-all_new, with_files, last_file, Reads-all_new,
}
use yangkv_v.VersionEdit.Steps.{loop_end, number_code, Fits, put_number-number_code}
use yangkv_v.VersionEdit.PairSet.{IsPairSet, at_zero, delete_all-set, with_files-map}
use mathlib.Core.Path.{subst}

-- The bytes of an edit.
abbrev edit_code : Heap → VersionEdit → List ℕ
edit_code heap e =
    number_code 9 e.prev_log_number
    ++ (number_code 3 e.next_file_number
        ++ (number_code 4 e.last_sequence
            ++ (all_deleted e.deleted_files ++ all_new heap e.new_files)))

encode_to-edit_code :
    (heap : Heap) (e : VersionEdit)
    → AreWritable heap e.new_files
    → encode_to heap e [] ≡ done (edit_code heap e)
unfolding encode_to
encode_to-edit_code heap e h =
    let a = number_code 9 e.prev_log_number in
    let b = number_code 3 e.next_file_number in
    let c = number_code 4 e.last_sequence in
    put_new-all_new heap e.new_files _ h
    ∙ ap done (
        rw
          (
            put_number-number_code 9 e.prev_log_number [],
            put_number-number_code 3 e.next_file_number a,
            put_number-number_code 4 e.last_sequence (a ++ b),
            put_deleted-all_deleted e.deleted_files ((a ++ b) ++ c),
          )
          (simp append_assoc))

-- What DecodeFrom makes of an edit: the log numbers are not written, and every new file is the one
-- object.
abbrev pub read_edit : VersionEdit → VersionEdit
read_edit e = record cleared {
  prev_log_number = e.prev_log_number;
  next_file_number = e.next_file_number;
  last_sequence = e.last_sequence;
  deleted_files = e.deleted_files;
  new_files = map at_zero e.new_files;
}

all_numbers :
    (x y z : Option ℕ)
    → with_number set_last_sequence z
        (with_number set_next_file y (with_number set_prev_log_number x cleared))
      ≡ record cleared { prev_log_number = x; next_file_number = y; last_sequence = z }
all_numbers none none none = refl
all_numbers none none (some z) = refl
all_numbers none (some y) none = refl
all_numbers none (some y) (some z) = refl
all_numbers (some x) none none = refl
all_numbers (some x) none (some z) = refl
all_numbers (some x) (some y) none = refl
all_numbers (some x) (some y) (some z) = refl

-- An edit whose numbers fit 64 bits and whose files can be written.
pub record IsEncodable (heap : Heap) (e : VersionEdit) : Type 0 where
  pub prev_log_fits : Fits e.prev_log_number
  pub next_file_fits : Fits e.next_file_number
  pub last_sequence_fits : Fits e.last_sequence
  pub deleted_set : IsPairSet e.deleted_files
  pub deleted_fit : All IsDeleted e.deleted_files
  pub new_fit : AreWritable heap e.new_files

Reads-edit_code :
    (heap : Heap) (e : VersionEdit)
    → IsEncodable heap e
    → Reads (edit_code heap e) cleared none (read_edit e) (last_file heap e.new_files none)
unfolding decode_field
Reads-edit_code heap e h =
    let e₁ = with_number set_prev_log_number e.prev_log_number cleared in
    let e₂ = with_number set_next_file e.next_file_number e₁ in
    let e₃ = with_number set_last_sequence e.last_sequence e₂ in
    let e₄ = delete_all e.deleted_files e₃ in
    let e₅ = with_files e.new_files e₄ in
    let same : e₅ ≡ read_edit e =
      ap (λ (x : VersionEdit). with_files e.new_files (delete_all e.deleted_files x))
        (all_numbers e.prev_log_number e.next_file_number e.last_sequence)
      ∙ ap (with_files e.new_files) (
          delete_all-set e.deleted_files
            (record cleared {
              prev_log_number = e.prev_log_number;
              next_file_number = e.next_file_number;
              last_sequence = e.last_sequence;
            })
            h.deleted_set h.deleted_fit)
      ∙ with_files-map e.new_files (record cleared {
        prev_log_number = e.prev_log_number;
        next_file_number = e.next_file_number;
        last_sequence = e.last_sequence;
        deleted_files = e.deleted_files;
      }) in
    let last = last_file heap e.new_files none in
    let all : Reads (edit_code heap e) cleared none e₅ last =
      Reads-append _ _ cleared e₁ e₅ none none last
        (Reads-number 9 set_prev_log_number e.prev_log_number cleared none (omega arith)
          (λ input d. refl) h.prev_log_fits)
        (Reads-append _ _ e₁ e₂ e₅ none none last
          (Reads-number 3 set_next_file e.next_file_number e₁ none (omega arith) (λ input d. refl)
            h.next_file_fits)
          (Reads-append _ _ e₂ e₃ e₅ none none last
            (Reads-number 4 set_last_sequence e.last_sequence e₂ none (omega arith)
              (λ input d. refl) h.last_sequence_fits)
            (Reads-append _ _ e₃ e₄ e₅ none none last
              (Reads-all_deleted e.deleted_files e₃ none h.deleted_fit)
              (Reads-all_new heap e.new_files e₄ none h.new_fit)))) in
    subst (λ (x : VersionEdit). Reads (edit_code heap e) cleared none x last) same all

-- An edit whose numbers fit 64 bits where they are set, whose deleted files are an ordered set with
-- levels below 7 and 64-bit numbers, and whose new files have levels below 7, 64-bit numbers and
-- sizes, and storable keys with encodings shorter than 2^32 bytes, is encoded into an empty string,
-- and DecodeFrom reads OK and the same numbers, flags, deleted files and levels of new files back,
-- whatever stands behind the bytes; the log numbers of the writers come back as 0, and all new
-- files are one object, which shows the number, the size and the keys of the last one.
pub decode_from-encode_edit :
    (heap : Heap) (e : VersionEdit) (rest : List ℕ)
    → IsEncodable heap e
    → (code : List ℕ) × (meta : FileMetaData) × (encode_to heap e [] ≡ done code)
      × (decode_from (record { ptr = code ++ rest; size = length code })
          ≡ done (ok, record { edit = read_edit e; meta = meta }))
      × ShowsFile (last_file heap e.new_files none) meta
unfolding decode_from
decode_from-encode_edit heap e rest h =
    let code = edit_code heap e in
    let (k, d, left, at, step) =
      Reads-edit_code heap e h start (length code + 1) 1 0 rest (refl, refl) (omega arith) in
    let more : k ≡ suc (k - 1) = omega (arith, left) in
    let size : length code ≡ length code + 0 = omega arith in
    let read : decode_loop (length code + 1) (record { ptr = code ++ rest; size = length code })
          start
        ≡ done (true, d) =
      ap (λ (n : ℕ). decode_loop (length code + 1) (record { ptr = code ++ rest; size = n }) start)
        size
      ∙ step
      ∙ ap (λ (j : ℕ). decode_loop j (record { ptr = rest; size = 0 }) d) more
      ∙ loop_end (k - 1) rest d in
    (
      code,
      d.meta,
      encode_to-edit_code heap e h.new_fit,
      rw read (ap (λ (x : VersionEdit). done (ok, record { edit = x; meta = d.meta })) at.0),
      at.1,
    )
