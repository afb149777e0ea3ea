-- ===== src/VersionSet/Ascending.antt =====
-- The order of BySmallestKey in main/versionset.cpp, and lists of files in that order.
use yangkv_v.Base.{ℕ, ◌≡◌, refl, ltb, true, false, List, [], ◌∷◌, get_or, All, inl, inr, arith}
use yangkv_v.Map.{key_compare}
use yangkv_v.Map.Laws.{
  key_compare→eq, key_compare_flip, key_compare_flip_lt, key_compare_trans, key_compare_refl,
  Ordering-cases,
}
use yangkv_v.Version.{FileMetaData}
use yangkv_v.VersionEdit.{Heap, new_meta}
use yangkv_v.VersionSet.Builder.{key_of, by_smallest_key}

-- The file `g` does not stand before `f`.
abbrev pub NotBefore : FileMetaData → FileMetaData → Type 0
NotBefore f g = by_smallest_key g f ≡ false

pub NotBefore-trans : (f g h : FileMetaData) → NotBefore f g → NotBefore g h → NotBefore f h
unfolding by_smallest_key
NotBefore-trans f g h p q =
    let x = key_of f.smallest in
    let y = key_of g.smallest in
    let z = key_of h.smallest in
    elim (Ordering-cases (key_compare y x)) [
      | inl before ↦ absurd (ground (arith, before))
      | inr (inl same) ↦ rw (← key_compare→eq y x same) (elim (Ordering-cases (key_compare z y)) [
        | inl before ↦ absurd (ground (arith, before))
        | inr (inl too) ↦
            let m : ltb g.number f.number ≡ false = rw same at p in
            let n : ltb h.number g.number ≡ false = rw too at q in rw too (ground arith)
        | inr (inr behind) ↦ rw behind refl
      ])
      | inr (inr behind) ↦ elim (Ordering-cases (key_compare z y)) [
        | inl before ↦ absurd (ground (arith, before))
        | inr (inl same) ↦ rw (key_compare→eq z y same, behind) refl
        | inr (inr too) ↦
            let up =
              key_compare_trans x y z (key_compare_flip y x behind) (key_compare_flip z y too) in
            rw (key_compare_flip_lt x z up) refl
      ]
    ]

pub NotBefore-of_before : (f g : FileMetaData) → by_smallest_key f g ≡ true → NotBefore f g
unfolding by_smallest_key
NotBefore-of_before f g h =
    let x = key_of f.smallest in
    let y = key_of g.smallest in
    elim (Ordering-cases (key_compare x y)) [
      | inl before ↦ rw (key_compare_flip_lt x y before) refl
      | inr (inl same) ↦
          let less : ltb f.number g.number ≡ true = rw same at h in
          let e = key_compare→eq x y same in rw (← e, key_compare_refl x) (ground arith)
      | inr (inr behind) ↦ absurd (ground (arith, behind))
    ]

-- No file stands before one that is in front of it.
abbrev pub IsAscending : Heap → List ℕ → Type 0
IsAscending keys [] = Unit {0}
IsAscending keys (p ∷ l) =
    All (λ q. NotBefore (get_or keys p new_meta) (get_or keys q new_meta)) l × IsAscending keys l
