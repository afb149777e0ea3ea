-- ===== src/VersionSet/Saved.antt =====
-- SaveTo of VersionSet::Builder in main/versionset.cpp is a merge.
use yangkv_v.Base.{
  ℕ, ◌+◌, ◌≡◌, refl, sym, ap, ◌∙◌, Bool, true, ◌&&◌, List, [], ◌∷◌, ◌++◌, get_or, All, append_assoc,
  append-nil, Option, none, some, if◌then◌else◌, Bool-cases, inl, inr,
}
use yangkv_v.VersionEdit.{Heap, new_meta}
use yangkv_v.VersionSet.{new_node, flat, ref_file, ref_files}
use yangkv_v.VersionSet.Ascending.{IsAscending}
use yangkv_v.VersionSet.Builder.{
  Builder, LevelState, Filled, by_smallest_key, last_of, follows, maybe_add_file, and_fill,
  add_files, UpperBound, save_level, save_levels, save_to,
}

-- The merge of two lists of files by the order of BySmallestKey, the second in front where that is
-- less.
unfoldable pub merge : Heap → List ℕ → List ℕ → List ℕ
merge keys base [] = base
merge keys [] added = added
merge keys (b ∷ base) (a ∷ added) =
    let first = a ∷ merge keys (b ∷ base) added in
    let other = b ∷ merge keys base (a ∷ added) in
    if by_smallest_key (get_or keys a new_meta) (get_or keys b new_meta) then first else other

-- Without the files whose number is deleted.
unfoldable pub keep : Heap → LevelState → List ℕ → List ℕ
keep keys s [] = []
keep keys s (p ∷ l) =
    if s.deleted_files (get_or keys p new_meta).number then keep keys s l else p ∷ keep keys s l

-- Behind a file, the ranges of the files of a level above 0 lie one behind the other.
unfoldable pub ranges_apart : Heap → ℕ → Option ℕ → List ℕ → Bool
ranges_apart keys level before [] = true
ranges_apart keys level before (p ∷ l) =
    follows keys level before p && ranges_apart keys level (some p) l

-- What a level of the new version comes to.
abbrev checked_files : Heap → ℕ → List ℕ → List ℕ × Heap → Filled
checked_files keys level l (files, heap) =
    if ranges_apart keys level (last_of files) l then some (files ++ l, ref_files l heap) else none

last_of-append : (l : List ℕ) (p : ℕ) → last_of (l ++ p ∷ []) ≡ some p
last_of-append [] p = refl
last_of-append (q ∷ []) p = refl
last_of-append (q ∷ r ∷ l) p = last_of-append (r ∷ l) p

add_files-checked_files :
    (keys : Heap) (level : ℕ) (s : LevelState) (l files : List ℕ) (heap : Heap)
    → add_files keys level s l (files, heap)
      ≡ checked_files keys level (keep keys s l) (files, heap)
unfolding add_files maybe_add_file keep ranges_apart ref_files
add_files-checked_files keys level s [] files heap = rw append-nil
add_files-checked_files keys level s (p ∷ l) files heap =
    elim (Bool-cases (s.deleted_files (get_or keys p new_meta).number)) [
      | inl gone ↦ rw gone (add_files-checked_files keys level s l files heap)
      | inr stays ↦ elim (Bool-cases (follows keys level (last_of files) p)) [
        | inl fits ↦
            rw (stays, fits)
              (add_files-checked_files keys level s l (files ++ p ∷ []) (ref_file p heap)
                ∙ rw (last_of-append files p, append_assoc files (p ∷ []) (keep keys s l)))
        | inr clash ↦ rw (stays, clash)
      ]
    ]

and_fill-ext :
    (m : Filled) (f g : List ℕ × Heap → Filled)
    → ((r : List ℕ × Heap) → f r ≡ g r)
    → and_fill m f ≡ and_fill m g
and_fill-ext none f g h = refl
and_fill-ext (some r) f g h = h r

and_fill_assoc :
    (m : Filled) (f g : List ℕ × Heap → Filled)
    → and_fill m (λ r. and_fill (f r) g) ≡ and_fill (and_fill m f) g
and_fill_assoc none f g = refl
and_fill_assoc (some r) f g = refl

add_files-append :
    (keys : Heap) (level : ℕ) (s : LevelState) (k l : List ℕ) (r : List ℕ × Heap)
    → add_files keys level s (k ++ l) r
      ≡ and_fill (add_files keys level s k r) (add_files keys level s l)
unfolding add_files
add_files-append keys level s [] l r = refl
add_files-append keys level s (p ∷ k) l r =
    and_fill-ext (maybe_add_file keys level s p r) (add_files keys level s (k ++ l))
      (λ r₁. and_fill (add_files keys level s k r₁) (add_files keys level s l))
      (add_files-append keys level s k l)
    ∙ and_fill_assoc (maybe_add_file keys level s p r) (add_files keys level s k)
        (add_files keys level s l)

-- The files in front of the first that the file `a` stands before, and those from there on.
pub split_bound : Heap → ℕ → List ℕ → List ℕ × List ℕ
split_bound keys a [] = ([], [])
split_bound keys a (p ∷ l) =
    let (front, back) = split_bound keys a l in
    if by_smallest_key (get_or keys a new_meta) (get_or keys p new_meta)
    then ([], p ∷ l)
    else (p ∷ front, back)

-- What std::upper_bound is to answer on files in their order.
abbrev pub IsUpperBound : UpperBound → Type 0
IsUpperBound upper_bound =
    (keys : Heap) (a : ℕ) (l : List ℕ)
    → IsAscending keys l
    → upper_bound keys a l ≡ split_bound keys a l

split_bound-IsAscending :
    (keys : Heap) (a : ℕ) (l : List ℕ)
    → IsAscending keys l
    → IsAscending keys (split_bound keys a l).1
unfolding split_bound
split_bound-IsAscending keys a [] h = tt
split_bound-IsAscending keys a (p ∷ l) h =
    elim (Bool-cases (by_smallest_key (get_or keys a new_meta) (get_or keys p new_meta))) [
      | inl before ↦ rw before h
      | inr behind ↦ rw behind (split_bound-IsAscending keys a l h.1)
    ]

-- The merge takes the files in front of the upper bound, the added one, and goes on.
merge-split_bound :
    (keys : Heap) (base : List ℕ) (a : ℕ) (added : List ℕ)
    → merge keys base (a ∷ added)
      ≡ (split_bound keys a base).0 ++ a ∷ merge keys (split_bound keys a base).1 added
unfolding merge split_bound
merge-split_bound keys [] a [] = refl
merge-split_bound keys [] a (a' ∷ added) = refl
merge-split_bound keys (b ∷ base) a added =
    elim (Bool-cases (by_smallest_key (get_or keys a new_meta) (get_or keys b new_meta))) [
      | inl before ↦ rw before
      | inr behind ↦ rw behind (ap (λ (l : List ℕ). b ∷ l) (merge-split_bound keys base a added))
    ]

add_files-merge_nothing :
    (keys : Heap) (level : ℕ) (s : LevelState) (l : List ℕ) (r : List ℕ × Heap)
    → add_files keys level s l r ≡ add_files keys level s (merge keys l []) r
unfolding merge
add_files-merge_nothing keys level s [] r = refl
add_files-merge_nothing keys level s (b ∷ l) r = refl

save_level-merge :
    (upper_bound : UpperBound) (keys : Heap) (level : ℕ) (s : LevelState) (base added : List ℕ)
    (r : List ℕ × Heap)
    → IsUpperBound upper_bound
    → IsAscending keys base
    → save_level upper_bound keys level s base added r
      ≡ add_files keys level s (merge keys base added) r
unfolding save_level add_files
save_level-merge upper_bound keys level s base [] r law ordered =
    add_files-merge_nothing keys level s base r
save_level-merge upper_bound keys level s base (a ∷ added) r law ordered =
    let (front, back) = split_bound keys a base in
    rw (law keys a base ordered) (
      and_fill-ext (add_files keys level s front r)
        (λ r₁.
          and_fill (maybe_add_file keys level s a r₁)
            (save_level upper_bound keys level s back added))
        (add_files keys level s (a ∷ merge keys back added))
        (λ r₁.
          and_fill-ext (maybe_add_file keys level s a r₁)
            (save_level upper_bound keys level s back added)
            (add_files keys level s (merge keys back added))
            (λ r₂.
              save_level-merge upper_bound keys level s back added r₂ law
                (split_bound-IsAscending keys a base ordered)))
      ∙ sym (add_files-append keys level s front (a ∷ merge keys back added) r)
      ∙ ap (λ (l : List ℕ). add_files keys level s l r) (sym (merge-split_bound keys base a added)))

-- The levels of the new version.
abbrev pub saved : Heap → List (List ℕ) → List LevelState → List (List ℕ)
saved keys [] states = []
saved keys (base ∷ bases) [] = []
saved keys (base ∷ bases) (s ∷ states) =
    keep keys s (merge keys base s.added_files) ∷ saved keys bases states

-- Every level above 0 has ranges one behind the other.
unfoldable pub all_apart : Heap → ℕ → List (List ℕ) → Bool
all_apart keys level [] = true
all_apart keys level (files ∷ levels) =
    ranges_apart keys level none files && all_apart keys (level + 1) levels

ref_files-append :
    (k l : List ℕ) (heap : Heap) → ref_files (k ++ l) heap ≡ ref_files l (ref_files k heap)
unfolding ref_files
ref_files-append [] l heap = refl
ref_files-append (p ∷ k) l heap = ref_files-append k l (ref_file p heap)

save_levels-saved :
    (upper_bound : UpperBound) (keys : Heap) (level : ℕ) (bases : List (List ℕ))
    (states : List LevelState) (heap : Heap)
    → IsUpperBound upper_bound
    → All (IsAscending keys) bases
    → save_levels upper_bound keys level bases states heap ≡ (
        if all_apart keys level (saved keys bases states)
        then some (saved keys bases states, ref_files (flat (saved keys bases states)) heap)
        else none)
unfolding save_levels all_apart
save_levels-saved u keys level [] states heap law ordered = unfold ref_files in refl
save_levels-saved u keys level (base ∷ bases) [] heap law ordered = unfold ref_files in refl
save_levels-saved u keys level (base ∷ bases) (s ∷ states) heap law ordered =
    let files = keep keys s (merge keys base s.added_files) in
    let rest = saved keys bases states in
    let now =
      save_level-merge u keys level s base s.added_files ([], heap) law ordered.0
      ∙ add_files-checked_files keys level s (merge keys base s.added_files) [] heap in
    let then_ =
      save_levels-saved u keys (level + 1) bases states (ref_files files heap) law ordered.1 in
    elim (Bool-cases (ranges_apart keys level none files)) [
      | inl fits ↦
          rw (now, fits, then_)
            (elim (Bool-cases (all_apart keys (level + 1) rest)) [
              | inl fit ↦ rw (fit, ref_files-append files (flat rest) heap)
              | inr clash ↦ rw clash
            ])
      | inr clash ↦ rw (now, clash)
    ]

-- Where the files of the base stand in the order of BySmallestKey in each level, and
-- std::upper_bound answers, on files in that order, the place of the first that the file stands
-- before, SaveTo on a new version leaves in each level the merge of the files of the base and the
-- added files by BySmallestKey, without those whose number is deleted, and makes one reference for
-- each place of the version; its assertion fails exactly when two neighbours of a level above 0 do
-- not lie one behind the other.
pub save_to-saved :
    (upper_bound : UpperBound) (b : Builder) (heap : Heap)
    → IsUpperBound upper_bound
    → All (IsAscending heap) b.base.files
    → save_to upper_bound b heap ≡ (
        let files = saved heap b.base.files b.levels in
        if all_apart heap 0 files
        then some (record new_node { files = files }, ref_files (flat files) heap)
        else none)
unfolding save_to
save_to-saved upper_bound b heap law ordered =
    let files = saved heap b.base.files b.levels in
    let all = save_levels-saved upper_bound heap 0 b.base.files b.levels heap law ordered in
    elim (Bool-cases (all_apart heap 0 files)) [
      | inl fits ↦ rw (all, fits)
      | inr clash ↦ rw (all, clash)
    ]
