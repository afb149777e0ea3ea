-- ===== src/Builder/Extent.antt =====
-- The metadata that BuildTable of main/builder.cpp makes.
use yangkv_v.Base.{
  some_inj, ℕ, ◌^◌, ◌<◌, ◌≡◌, ◌≢◌, ◌⊎◌, inl, inr, refl, List, [], ◌∷◌, length, All, Bool, true,
  false, Bool-cases, ◌==◌, arith, some,
}
use yangkv_v.Builder.Merged.{Above-trans, merge_writers-IsOrdered}
use yangkv_v.Base.Outcome.{done}
use yangkv_v.Builder.{
  Table, made, unanswered, failed, set_meta_data, merge_list, merge_lists, merge_writers,
  write_table, after_finish, build_table, made_by,
}
use yangkv_v.Builder.Tables.{IsBinding, read-IsBinding, write_Closed}
use yangkv_v.Env.{WritableFile, Run, returns, waits, crash, sync, close}
use yangkv_v.Log.{and_then}
use yangkv_v.Env.Safe.{Safe, sync-Safe, close-Safe}
use yangkv_v.Map.{Map, key_compare, first?, last?}
use yangkv_v.Map.Laws.{insert-All, Above, IsOrdered, key_compare_refl, key_compare_flip_lt}
use yangkv_v.MemEntry.Storable.{view}
use yangkv_v.Slice.{Slice}
use yangkv_v.SkipList.{SkipList}
use yangkv_v.Status.{is_ok}
use yangkv_v.TableBuilder.{Build, built, blocked, broken, file_size}
use yangkv_v.TableBuilder.Ensures.{Ensures}
use yangkv_v.TableBuilder.Finished.{Closed}
use yangkv_v.Version.{FileMetaData, may_in_file}
use Prim.Native.Nat.{lt, eq, gt}
use yangkv_v.Map

-- A key that is not greater than another.
abbrev AtMost : List ℕ → List ℕ → Type 0
AtMost j k = (j ≡ k) ⊎ (key_compare j k ≡ lt)

Above-AtMost : (k : List ℕ) (m : Map Slice) → Above k m → All (λ b. AtMost k b.0) m
Above-AtMost k [] above = tt
Above-AtMost k ((j, s) ∷ m) (less, above) =
    (inr less, Above-AtMost k m (Above-trans k j m less above))

abbrev Last : Map Slice → Type 0
Last m = (b : List ℕ × Slice) × (last? m ≡ some b) × IsBinding b × All (λ c. AtMost c.0 b.0) m

-- What the last binding is above of, the first one is below of.
below_last :
    (k : List ℕ) (m : Map Slice) (b : List ℕ × Slice) → Above k m → last? m ≡ some b → AtMost k b.0
below_last k [] b above found = absurd (cc found)
below_last k (c ∷ []) b (less, above) found = inr (rw⁻¹ (some_inj found) less)
below_last k ((i, s) ∷ d ∷ m) b (less, above) found =
    below_last k (d ∷ m) b (Above-trans k i (d ∷ m) less above) found

last_lem :
    (k : List ℕ) (s : Slice) (m : Map Slice)
    → Above k m
    → All IsBinding ((k, s) ∷ m)
    → Last ((k, s) ∷ m)
last_lem k s [] above bindings = ((k, s), refl, bindings.0, (inl refl, tt))
last_lem k s ((j, t) ∷ m) (less, above) bindings =
    let (b, found, binding, all) = last_lem j t m above bindings.1 in
    (b, found, binding, (below_last k ((j, t) ∷ m) b (less, above) found, all))

not_below : (j k : List ℕ) → AtMost j k → (key_compare k j ≡ eq) ⊎ (key_compare k j ≡ gt)
not_below j k (inl same) = inl (rw same (key_compare_refl k))
not_below j k (inr less) = inr (key_compare_flip_lt j k less)

within :
    (f : FileMetaData) (key : List ℕ)
    → AtMost (view f.smallest.key) key
    → AtMost key (view f.largest.key)
    → may_in_file f key ≡ true
unfolding may_in_file
within f key low high = elim (not_below (view f.smallest.key) key low) [
  | inl a ↦ elim (not_below key (view f.largest.key) high) [
    | inl b ↦ rw (a, b) refl
    | inr b ↦ rw (a, b) refl
  ]
  | inr a ↦ elim (not_below key (view f.largest.key) high) [
    | inl b ↦ rw (a, b) refl
    | inr b ↦ rw (a, b) refl
  ]
]

All-both :
    {P Q R : List ℕ × Slice → Type 0} (m : Map Slice)
    → All P m
    → All Q m
    → ((b : List ℕ × Slice) → P b → Q b → R b)
    → All R m
All-both [] p q f = tt
All-both (b ∷ m) p q f = (f b p.0 q.0, All-both m p.1 q.1 f)

-- The file covers the keys of a map.
abbrev pub CoversAll : Map Slice → FileMetaData → Type 0
CoversAll mp f = All (λ b. may_in_file f b.0 ≡ true) mp

set_meta_data-CoversAll :
    (number : ℕ) (k : List ℕ) (s : Slice) (m : Map Slice)
    → Above k m
    → All IsBinding ((k, s) ∷ m)
    → (meta : FileMetaData) × (set_meta_data number ((k, s) ∷ m) ≡ done meta)
      × (meta.number ≡ number)
      × ((size : ℕ) → CoversAll ((k, s) ∷ m) (record meta { file_size = size }))
unfolding set_meta_data
set_meta_data-CoversAll number k s m above bindings =
    let ((kl, sl), found, binding, all) = last_lem k s m above bindings in
    let (first, read, named, storable) = read-IsBinding k s bindings.0 in
    let (last, read', named', storable') = read-IsBinding kl sl binding in
    let low : All (λ b. AtMost k b.0) ((k, s) ∷ m) = (inl refl, Above-AtMost k m above) in
    (
      record { refs = 0; smallest = first; largest = last; file_size = 0; number = number },
      rw (read, found, read') refl,
      refl,
      λ size. All-both ((k, s) ∷ m) low all (λ b l h. within _ b.0 (rw named l) (rw named' h)),
    )

-- What the call leaves: metadata with the number, that cover the map.
abbrev pub Makes : ℕ → Map Slice → Table → Type 0
Makes number mp (made meta f) = (meta.number ≡ number) × CoversAll mp meta
Makes number mp unanswered = Unit {0}
Makes number mp failed = ⊥

made_by-Makes :
    (number : ℕ) (mp : Map Slice) (meta : FileMetaData) (run : Run)
    → Safe run
    → meta.number ≡ number
    → CoversAll mp meta
    → Makes number mp (made_by meta run)
made_by-Makes number mp meta (returns s f) safe n covers = (n, covers)
made_by-Makes number mp meta waits safe n covers = tt
made_by-Makes number mp meta crash safe n covers = safe

and_then-Safe :
    (r : Run) (k : WritableFile → Run)
    → Safe r
    → ((f : WritableFile) → Safe (k f))
    → Safe (and_then r k)
and_then-Safe (returns s f) k h hk = hk f
and_then-Safe waits k h hk = h
and_then-Safe crash k h hk = h

after_finish-Makes :
    (synced closed : Bool) (number : ℕ) (mp : Map Slice) (meta : FileMetaData) (b : Build)
    → Ensures b Closed
    → meta.number ≡ number
    → ((size : ℕ) → CoversAll mp (record meta { file_size = size }))
    → Makes number mp (after_finish synced closed meta b)
after_finish-Makes synced closed number mp meta (built r) (shut, some_bytes) n covers =
    elim (Bool-cases (is_ok r.status)) [
      | inr bad ↦ simp bad (
          made_by-Makes number mp meta (close closed r.file) (close-Safe closed r.file) n
            (covers meta.file_size))
      | inl fine ↦
          let sized : (file_size r == 0) ≡ false = ground (arith, some_bytes fine) in
          simp (fine, sized)
            (made_by-Makes number mp (record meta { file_size = r.offset })
              (and_then (sync synced r.file) (close closed))
              (and_then-Safe (sync synced r.file) (close closed) (sync-Safe synced r.file)
                (close-Safe closed))
              n (covers r.offset))
    ]
after_finish-Makes synced closed number mp meta blocked h n covers = tt
after_finish-Makes synced closed number mp meta broken h n covers = h

-- The bindings of the merged map are those of the lists.
merge_list-All :
    (list mp : Map Slice)
    → All IsBinding list
    → All IsBinding mp
    → All IsBinding (merge_list list mp)
unfolding merge_list
merge_list-All [] mp h hs = hs
merge_list-All ((j, s) ∷ list) mp h hs =
    merge_list-All list (Map.insert j s mp) h.1 (insert-All IsBinding j s mp h.0 hs)

merge_lists-All :
    (lists : List SkipList) (mp : Map Slice)
    → All (λ l. All IsBinding l.list) lists
    → All IsBinding mp
    → All IsBinding (merge_lists lists mp)
unfolding merge_lists
merge_lists-All [] mp h hs = hs
merge_lists-All (l ∷ lists) mp h hs =
    merge_lists-All lists (merge_list l.list mp) h.1 (merge_list-All l.list mp h.0 hs)

merge_writers-All :
    (writers : List (List SkipList)) (mp : Map Slice)
    → All (λ lists. All (λ l. All IsBinding l.list) lists) writers
    → All IsBinding mp
    → All IsBinding (merge_writers writers mp)
unfolding merge_writers
merge_writers-All [] mp h hs = hs
merge_writers-All (lists ∷ writers) mp h hs =
    merge_writers-All writers (merge_lists lists mp) h.1 (merge_lists-All lists mp h.0 hs)

write_table-Makes :
    (synced closed : Bool) (number : ℕ) (mp : Map Slice) (file : WritableFile)
    → mp ≢ []
    → IsOrdered mp
    → All IsBinding mp
    → length mp < 2 ^ 24
    → Makes number mp (write_table synced closed mp file (set_meta_data number mp))
write_table-Makes synced closed number [] file some_bytes o bindings small =
    absurd (some_bytes refl)
write_table-Makes synced closed number ((k, s) ∷ mp) file some_bytes o bindings small =
    let (meta, set, n, covers) = set_meta_data-CoversAll number k s mp o bindings in
    rw set (
      after_finish-Makes synced closed number ((k, s) ∷ mp) meta _
        (write_Closed ((k, s) ∷ mp) file o bindings small) n covers)

-- On lists of storable entries that hold one key at least and fewer than 2^24, BuildTable fails no
-- assertion, and where it returns, whatever the file answers, the metadata have the number, and
-- mayInFile is true of every key of the merged lists.
pub build_table-Makes :
    (synced closed : Bool) (number : ℕ) (writers : List (List SkipList)) (file : WritableFile)
    → merge_writers writers [] ≢ []
    → All (λ lists. All (λ l. All IsBinding l.list) lists) writers
    → length (merge_writers writers []) < 2 ^ 24
    → Makes number (merge_writers writers []) (build_table synced closed number writers file)
unfolding build_table
build_table-Makes synced closed number writers file some_keys bindings small =
    write_table-Makes synced closed number (merge_writers writers []) file some_keys
      (merge_writers-IsOrdered writers [] tt) (merge_writers-All writers [] bindings tt) small
