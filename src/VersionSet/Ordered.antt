-- ===== src/VersionSet/Ordered.antt =====
-- The order of the files in VersionSet::Builder of main/versionset.cpp.
use yangkv_v.Base.{ℕ, ◌+◌, ◌≡◌, List, [], ◌∷◌, get_or, All, All-mono, Bool-cases, inl, inr, arith}
use yangkv_v.Version.{FileMetaData}
use yangkv_v.VersionEdit.{Heap, new_meta}
use yangkv_v.VersionSet.Shared.{count}
use yangkv_v.VersionSet.Builder.{LevelState, by_smallest_key, insert_file}
use yangkv_v.VersionSet.Saved.{merge, keep}
use yangkv_v.VersionSet.Ascending.{IsAscending, NotBefore, NotBefore-of_before, NotBefore-trans}

pub All-merge :
    (P : ℕ → Type 0) (keys : Heap) (base added : List ℕ)
    → All P base
    → All P added
    → All P (merge keys base added)
unfolding merge
All-merge P keys [] [] h k = tt
All-merge P keys [] (a ∷ added) h k = k
All-merge P keys (b ∷ base) [] h k = h
All-merge P keys (b ∷ base) (a ∷ added) h k =
    elim (Bool-cases (by_smallest_key (get_or keys a new_meta) (get_or keys b new_meta))) [
      | inl before ↦ rw before (k.0, All-merge P keys (b ∷ base) added h k.1)
      | inr behind ↦ rw behind (h.0, All-merge P keys base (a ∷ added) h.1 k)
    ]

pub All-keep :
    (P : ℕ → Type 0) (keys : Heap) (s : LevelState) (l : List ℕ) → All P l → All P (keep keys s l)
unfolding keep
All-keep P keys s [] h = tt
All-keep P keys s (p ∷ l) h = elim (Bool-cases (s.deleted_files (get_or keys p new_meta).number)) [
  | inl gone ↦ rw gone (All-keep P keys s l h.1)
  | inr stays ↦ rw stays (h.0, All-keep P keys s l h.1)
]

pub keep-IsAscending :
    (keys : Heap) (s : LevelState) (l : List ℕ)
    → IsAscending keys l
    → IsAscending keys (keep keys s l)
unfolding keep
keep-IsAscending keys s [] h = tt
keep-IsAscending keys s (p ∷ l) h =
    elim (Bool-cases (s.deleted_files (get_or keys p new_meta).number)) [
      | inl gone ↦ rw gone (keep-IsAscending keys s l h.1)
      | inr stays ↦ rw stays (All-keep _ keys s l h.0, keep-IsAscending keys s l h.1)
    ]

-- What does not stand before a file does not stand before one that the file does not stand before.
All-behind :
    (keys : Heap) (f g : FileMetaData) (l : List ℕ)
    → NotBefore f g
    → All (λ q. NotBefore g (get_or keys q new_meta)) l
    → All (λ q. NotBefore f (get_or keys q new_meta)) l
All-behind keys f g l h =
    All-mono (λ q. NotBefore g (get_or keys q new_meta)) (λ q. NotBefore f (get_or keys q new_meta))
      l (λ q. NotBefore-trans f g (get_or keys q new_meta) h)

pub merge-IsAscending :
    (keys : Heap) (base added : List ℕ)
    → IsAscending keys base
    → IsAscending keys added
    → IsAscending keys (merge keys base added)
unfolding merge
merge-IsAscending keys [] [] h k = tt
merge-IsAscending keys [] (a ∷ added) h k = k
merge-IsAscending keys (b ∷ base) [] h k = h
merge-IsAscending keys (b ∷ base) (a ∷ added) h k =
    let f = get_or keys a new_meta in
    let g = get_or keys b new_meta in
    elim (Bool-cases (by_smallest_key f g)) [
      | inl before ↦
          let le = NotBefore-of_before f g before in
          rw before (
            All-merge (λ q. NotBefore f (get_or keys q new_meta)) keys (b ∷ base) added
                (le, All-behind keys f g base le h.0) k.0,
            merge-IsAscending keys (b ∷ base) added h k.1,
          )
      | inr behind ↦ rw behind (
        All-merge (λ q. NotBefore g (get_or keys q new_meta)) keys base (a ∷ added) h.0
            (behind, All-behind keys g f added behind k.0),
        merge-IsAscending keys base (a ∷ added) h.1 k,
      )
    ]

pub All-insert_file :
    (P : ℕ → Type 0) (keys : Heap) (p : ℕ) (l : List ℕ)
    → P p
    → All P l
    → All P (insert_file keys p l)
unfolding insert_file
All-insert_file P keys p [] h k = (h, tt)
All-insert_file P keys p (q ∷ l) h k =
    let f = get_or keys p new_meta in
    let g = get_or keys q new_meta in
    elim (Bool-cases (by_smallest_key f g)) [
      | inl before ↦ rw before (h, k)
      | inr other ↦ elim (Bool-cases (by_smallest_key g f)) [
        | inl behind ↦ rw (other, behind) (k.0, All-insert_file P keys p l h k.1)
        | inr same ↦ rw (other, same) k
      ]
    ]

pub insert_file-IsAscending :
    (keys : Heap) (p : ℕ) (l : List ℕ)
    → IsAscending keys l
    → IsAscending keys (insert_file keys p l)
unfolding insert_file
insert_file-IsAscending keys p [] h = (tt, tt)
insert_file-IsAscending keys p (q ∷ l) h =
    let f = get_or keys p new_meta in
    let g = get_or keys q new_meta in
    elim (Bool-cases (by_smallest_key f g)) [
      | inl before ↦
          let le = NotBefore-of_before f g before in
          rw before ((le, All-behind keys f g l le h.0), h)
      | inr other ↦ elim (Bool-cases (by_smallest_key g f)) [
        | inl behind ↦
            rw (other, behind)
              (
                All-insert_file (λ r. NotBefore g (get_or keys r new_meta)) keys p l other h.0,
                insert_file-IsAscending keys p l h.1,
              )
        | inr same ↦ rw (other, same) h
      ]
    ]

pub count-merge :
    (p : ℕ) (keys : Heap) (base added : List ℕ)
    → count p (merge keys base added) ≡ count p base + count p added
unfolding merge
count-merge p keys [] [] = omega arith
count-merge p keys [] (a ∷ added) = omega arith
count-merge p keys (b ∷ base) [] = omega arith
count-merge p keys (b ∷ base) (a ∷ added) =
    elim (Bool-cases (by_smallest_key (get_or keys a new_meta) (get_or keys b new_meta))) [
      | inl before ↦ rw before (omega (arith, count-merge p keys (b ∷ base) added))
      | inr behind ↦ rw behind (omega (arith, count-merge p keys base (a ∷ added)))
    ]
