-- ===== src/VersionSet/Compacted.antt =====
-- A round of the compacter of memory/compacter.cpp over the versions of main/versionset.cpp.
use yangkv_v.Base.{
  length-set, ℕ, zero, suc, ◌+◌, ◌%◌, ◌^◌, ◌<◌, ◌≡◌, ◌≢◌, refl, sym, ap, ◌∙◌, List, [], ◌∷◌, ◌++◌,
  length, length-append, All, All-mono, get_or, replicate, Bool, true, false, arith, none,
}
use yangkv_v.Base.Outcome.{done}
use yangkv_v.Builder.{Table, made, unanswered, failed, build_table, merge_writers}
use yangkv_v.Builder.Extent.{Makes, CoversAll, build_table-Makes}
use yangkv_v.Builder.Tables.{IsBinding}
use yangkv_v.Env.{WritableFile}
use yangkv_v.Hash.{k_max_writer, writer_of}
use yangkv_v.SkipList.{SkipList}
use yangkv_v.Version.{FileMetaData, may_in_file, k_max_level, first_hit, read_hit}
use yangkv_v.VersionEdit.{Heap}
use yangkv_v.VersionSet.{
  Node, VersionSet, Compaction, rested, compacted, held_up, aborted, seen, flat, ref_files, apply,
  level_zero, append_version, install, work_round, new_node,
}
use yangkv_v.VersionSet.Shared.{file_at, of_file, ref_files_lem, unref_files_lem}
use yangkv_v.VersionSet.Counts.{
  IsShared, file_at_front, file_at_last, one_more, places_one_more, refs_at-append, unref_fine,
}
use mathlib.Core.Path.{subst}
use yangkv_v.Version

abbrev pub table_file : FileMetaData → FileMetaData
table_file meta = record {
  refs = 0;
  smallest = meta.smallest;
  largest = meta.largest;
  file_size = meta.file_size;
  number = meta.number;
}

-- What a compaction leaves: the file of the table behind the others of level 0, and no list.
pub record Swaps (meta : FileMetaData) (s s' : VersionSet) : Type 0 where
  pub shared : IsShared s'
  pub emptied : s'.current.list ≡ replicate k_max_writer []
  pub none_counted : s'.current.list_count ≡ 0
  pub files : s'.current.files ≡ one_more (length s.heap) s.current.files
  pub added : of_file (file_at (length s.heap) s'.heap) ≡ table_file meta
  pub others :
      (p : ℕ) → p < length s.heap → of_file (file_at p s'.heap) ≡ of_file (file_at p s.heap)

install-Swaps :
    (number : ℕ) (meta : FileMetaData) (file : WritableFile) (s : VersionSet)
    → IsShared s
    → (s' : VersionSet) × (install number (made meta file) s ≡ compacted number s' file)
      × Swaps meta s s'
unfolding install apply append_version level_zero
install-Swaps number meta file s h =
    let f = table_file meta in
    let heap₁ = s.heap ++ f ∷ [] in
    let files = one_more (length s.heap) s.current.files in
    let longer : length heap₁ ≡ length s.heap + 1 = omega (arith, length-append s.heap (f ∷ [])) in
    let (lengths₂, counts₂, same₂) = ref_files_lem (flat files) heap₁ (
      subst (λ (n : ℕ). All (λ p. p < n) (flat files)) (sym longer)
        (places_one_more (length s.heap) s.current.files h.places)) in
    let heap₂ = ref_files (flat files) heap₁ in
    let longer₂ : length heap₂ ≡ length s.heap + 1 = lengths₂ ∙ longer in
    let old : All (λ (p : ℕ). p < length heap₂) (flat s.current.files) =
      All-mono (λ (p : ℕ). p < length s.heap) (λ (p : ℕ). p < length heap₂) (flat s.current.files)
        (λ p k. omega (arith, longer₂)) h.places in
    let (heap₃, run, lengths₃, counts₃, same₃) =
      unref_files_lem (flat s.current.files) heap₂ old
        (λ p. omega (arith, counts₂ p, refs_at-append f p s.heap refl, h.counts p)) in
    (
      record { older = []; current = record new_node { files = files; refs = 1 }; heap = heap₃ },
      rw (unref_fine s.current heap₂ heap₃ h.one h.lists run) (
          ap
            (λ (older : List Node).
              compacted number
                (record {
                  older = older ++ [];
                  current = record new_node { files = files; refs = 1 };
                  heap = heap₃;
                })
                file)
            h.alone),
      record {
        shared = record {
          alone = refl;
          one = refl;
          levels = omega (
            arith,
            length-set s.current.files 0 (get_or s.current.files 0 [] ++ length s.heap ∷ []),
            h.levels,
          );
          lists = (tt, (tt, (tt, (tt, tt))));
          places =
              subst (λ (n : ℕ). All (λ p. p < n) (flat files)) (sym (lengths₃ ∙ longer₂))
                (places_one_more (length s.heap) s.current.files h.places);
          counts =
              λ p. omega (arith, counts₃ p, counts₂ p, refs_at-append f p s.heap refl, h.counts p);
        };
        emptied = refl;
        none_counted = refl;
        files = refl;
        added = same₃ (length s.heap) ∙ same₂ (length s.heap) ∙ ap of_file (file_at_last f s.heap);
        others = λ p k. same₃ p ∙ same₂ p ∙ ap of_file (file_at_front f p s.heap k);
      },
    )

get_or-replicate : (n i : ℕ) (d : List SkipList) → get_or (replicate n d) i d ≡ d
get_or-replicate zero i d = refl
get_or-replicate (suc n) zero d = refl
get_or-replicate (suc n) (suc i) d = get_or-replicate n i d

-- No version without lists has a key.
get-none :
    (key : List ℕ) (heap : Heap) (v : Node)
    → v.list ≡ replicate k_max_writer []
    → Version.get key (seen heap v) ≡ done none
unfolding Version.get first_hit read_hit
get-none key heap v none_there =
    rw (none_there, get_or-replicate k_max_writer (writer_of key) []) refl

covers_still :
    (f g : FileMetaData) (key : List ℕ)
    → of_file f ≡ of_file g
    → may_in_file g key ≡ true
    → may_in_file f key ≡ true
unfolding may_in_file
covers_still f g key same h = ap (λ (x : FileMetaData). may_in_file x key) same ∙ h

-- What a round on a full version comes to, by the number of the last file.
abbrev pub Compacts : ℕ → VersionSet → Compaction → Type 0
Compacts last s rested = ⊥
Compacts last s (compacted number s' file) =
    (number ≡ (last + 1) % 2 ^ 32)
    × IsShared s'
    × (Version.is_full (seen s'.heap s'.current) ≡ false)
    × (s'.current.files ≡ one_more (length s.heap) s.current.files)
    × ((p : ℕ) → p < length s.heap → of_file (file_at p s'.heap) ≡ of_file (file_at p s.heap))
    × CoversAll (merge_writers s.current.list []) (file_at (length s.heap) s'.heap)
    × ((key : List ℕ) → Version.get key (seen s'.heap s'.current) ≡ done none)
Compacts last s held_up = Unit {0}
Compacts last s aborted = ⊥

install-Compacts :
    (last : ℕ) (s : VersionSet) (t : Table)
    → IsShared s
    → Makes ((last + 1) % 2 ^ 32) (merge_writers s.current.list []) t
    → Compacts last s (install ((last + 1) % 2 ^ 32) t s)
unfolding Version.is_full
install-Compacts last s (made meta file) h (number, covers) =
    let (s', run, swaps) = install-Swaps ((last + 1) % 2 ^ 32) meta file s h in
    rw run (
      refl,
      swaps.shared,
      rw swaps.none_counted refl,
      swaps.files,
      swaps.others,
      All-mono _ _ (merge_writers s.current.list [])
          (λ b c. covers_still (file_at (length s.heap) s'.heap) meta b.0 swaps.added c) covers,
      λ key. get-none key s'.heap s'.current swaps.emptied,
    )
install-Compacts last s unanswered h makes = unfold install in tt
install-Compacts last s failed h makes = absurd makes

-- On a full version that is the only one, with one reference of each list and as many references of
-- a file as it has places for it, with lists of storable entries that hold one key at least and
-- fewer than 2^24, a round of workRound fails no assertion; where it returns, the new version is
-- again such a version, is not full, has the old files unchanged but for their counts and one file
-- more at level 0, with the next number, which may hold every key of the frozen lists; and
-- Version::Get answers false for every key, since the lists are gone and the files are not read.
pub work_round-Compacts :
    (synced closed : Bool) (file : WritableFile) (last : ℕ) (s : VersionSet)
    → IsShared s
    → Version.is_full (seen s.heap s.current) ≡ true
    → merge_writers s.current.list [] ≢ []
    → All (λ lists. All (λ l. All IsBinding l.list) lists) s.current.list
    → length (merge_writers s.current.list []) < 2 ^ 24
    → Compacts last s (work_round synced closed file last s)
unfolding work_round
work_round-Compacts synced closed file last s h full some_keys bindings small = rw full (
    install-Compacts last s (build_table synced closed ((last + 1) % 2 ^ 32) s.current.list file) h
      (build_table-Makes synced closed ((last + 1) % 2 ^ 32) s.current.list file some_keys bindings
        small))
