-- ===== src/VersionSet/Edited.antt =====
-- The version that VersionSet::Builder of main/versionset.cpp makes of a version and of edits.
use yangkv_v.Base.{
  ℕ, zero, suc, ◌+◌, ◌<◌, ◌≡◌, refl, ◌∙◌, ◌==◌, ==_iff, true, List, [], ◌∷◌, length, get_or, set,
  All, All-mono, All-append, some, if◌then◌else◌, Bool-cases, inl, inr, arith,
}
use yangkv_v.VersionEdit.{Heap, new_meta}
use yangkv_v.VersionSet.{Node, new_node, flat, ref_files}
use yangkv_v.VersionSet.Shared.{count, refs_at, ref_files_lem}
use yangkv_v.VersionSet.Builder.{Builder, LevelState, new_level, UpperBound, save_to}
use yangkv_v.VersionSet.Ordered.{
  merge-IsAscending, keep-IsAscending, count-merge, All-merge, All-keep,
}
use yangkv_v.VersionSet.Ascending.{IsAscending}
use yangkv_v.VersionSet.Saved.{merge, keep, saved, all_apart, IsUpperBound, save_to-saved}

-- The places of a level are in the heap, and in their order.
abbrev pub IsLevel : Heap → List ℕ → Type 0
IsLevel heap l = IsAscending heap l × All (λ p. p < length heap) l

-- The files of the base and those that have been added stand in their order in each level.
pub record IsOrdered (heap : Heap) (b : Builder) : Type 0 where
  pub same_levels : length b.base.files ≡ length b.levels
  pub base_levels : All (IsLevel heap) b.base.files
  pub added_levels : All (λ s. IsLevel heap s.added_files) b.levels

count-keep :
    (p : ℕ) (keys : Heap) (s : LevelState) (l : List ℕ)
    → count p (keep keys s l)
      ≡ (if s.deleted_files (get_or keys p new_meta).number then 0 else count p l)
unfolding keep
count-keep p keys s [] = ground arith
count-keep p keys s (q ∷ l) =
    let rest = count-keep p keys s l in
    elim (Bool-cases (q == p)) [
      | inl same ↦ rw ((==_iff q p).0 same) (ground (arith, rest))
      | inr other ↦ ground (arith, rest, other)
    ]

pub All-get_or {ℓ} :
    {A : Type ℓ} (P : A → Type 0) (xs : List A) (i : ℕ) (d : A) → All P xs → P d → P (get_or xs i d)
All-get_or P [] i d h k = k
All-get_or P (x ∷ xs) zero d h k = h.0
All-get_or P (x ∷ xs) (suc i) d h k = All-get_or P xs i d h.1 k

pub All-set {ℓ} :
    {A : Type ℓ} (P : A → Type 0) (xs : List A) (i : ℕ) (v : A)
    → All P xs
    → P v
    → All P (set xs i v)
All-set P [] i v h k = tt
All-set P (x ∷ xs) zero v h k = (k, h.1)
All-set P (x ∷ xs) (suc i) v h k = (h.0, All-set P xs i v h.1 k)

saved-level :
    (keys : Heap) (bases : List (List ℕ)) (states : List LevelState) (level : ℕ)
    → length bases ≡ length states
    → get_or (saved keys bases states) level []
      ≡ keep keys
          (get_or states level new_level)
          (merge keys (get_or bases level []) (get_or states level new_level).added_files)
saved-level keys [] [] level h = unfold keep merge in refl
saved-level keys [] (s ∷ states) level h = absurd (omega arith)
saved-level keys (base ∷ bases) [] level h = absurd (omega arith)
saved-level keys (base ∷ bases) (s ∷ states) zero h = refl
saved-level keys (base ∷ bases) (s ∷ states) (suc level) h =
    saved-level keys bases states level (omega arith)

saved-there :
    (keys : Heap) (bases : List (List ℕ)) (states : List LevelState)
    → All (IsLevel keys) bases
    → All (λ s. IsLevel keys s.added_files) states
    → All (λ p. p < length keys) (flat (saved keys bases states))
saved-there keys [] states h k = tt
saved-there keys (base ∷ bases) [] h k = tt
saved-there keys (base ∷ bases) (s ∷ states) h k =
    let below : ℕ → Type 0 = λ p. p < length keys in
    let files = merge keys base s.added_files in
    All-append (λ p. p < length keys) (keep keys s files) (flat (saved keys bases states))
      (All-keep below keys s files (All-merge below keys base s.added_files h.0.1 k.0.1))
      (saved-there keys bases states h.1 k.1)

-- What SaveTo leaves of a builder.
pub record IsSaved (b : Builder) (heap : Heap) (v : Node) (heap' : Heap) : Type 0 where
  pub ascending : (level : ℕ) → IsAscending heap (get_or v.files level [])
  pub contents :
      (level p : ℕ)
      → count p (get_or v.files level []) ≡ (
          if (get_or b.levels level new_level).deleted_files (get_or heap p new_meta).number
          then 0
          else count p (get_or b.base.files level [])
            + count p (get_or b.levels level new_level).added_files)
  pub references : (p : ℕ) → refs_at p heap' ≡ refs_at p heap + count p (flat v.files)

saved-IsSaved :
    (b : Builder) (heap : Heap)
    → IsOrdered heap b
    → IsSaved b heap
        (record new_node { files = saved heap b.base.files b.levels })
        (ref_files (flat (saved heap b.base.files b.levels)) heap)
saved-IsSaved b heap o =
    let files = saved heap b.base.files b.levels in
    let at = λ (level : ℕ). saved-level heap b.base.files b.levels level o.same_levels in
    let base_at =
      λ (level : ℕ). All-get_or (IsLevel heap) b.base.files level [] o.base_levels (tt, tt) in
    let added_at = λ (level : ℕ).
      All-get_or (λ s. IsLevel heap s.added_files) b.levels level new_level o.added_levels
        (tt, tt) in
    record {
      ascending = λ level.
          let s = get_or b.levels level new_level in
          let base = get_or b.base.files level [] in
          rw (at level) (
            keep-IsAscending heap s (merge heap base s.added_files)
              (merge-IsAscending heap base s.added_files (base_at level).0 (added_at level).0));
      contents = λ level p.
          let s = get_or b.levels level new_level in
          let base = get_or b.base.files level [] in
          rw (at level) (
            count-keep p heap s (merge heap base s.added_files)
            ∙ rw (count-merge p heap base s.added_files));
      references =
          (ref_files_lem (flat files) heap
            (saved-there heap b.base.files b.levels o.base_levels o.added_levels)).1;
    }

pub save_to-IsSaved :
    (upper_bound : UpperBound) (b : Builder) (heap : Heap)
    → IsUpperBound upper_bound
    → IsOrdered heap b
    → all_apart heap 0 (saved heap b.base.files b.levels) ≡ true
    → (v : Node) × (heap' : Heap) × (save_to upper_bound b heap ≡ some (v, heap'))
      × IsSaved b heap v heap'
save_to-IsSaved upper_bound b heap law o apart =
    let files = saved heap b.base.files b.levels in
    let ordered =
      All-mono (IsLevel heap) (IsAscending heap) b.base.files (λ l h. h.0) o.base_levels in
    (
      record new_node { files = files },
      ref_files (flat files) heap,
      rw (save_to-saved upper_bound b heap law ordered, apart),
      saved-IsSaved b heap o,
    )
