-- ===== src/VersionSet/Shared.antt =====
-- The counts of references to files in main/versionset.cpp.
use yangkv_v.Base.{
  ℕ, ◌+◌, ◌-◌, ◌≤◌, ◌<◌, ◌≡◌, refl, sym, ap, ◌∙◌, List, [], ◌∷◌, length, All, get_or, set,
  get_or-set_self, get_or-set_ne, length-set, le→leb, ◌==◌, ==_refl, Bool, true, false, arith,
  if◌then◌else◌, some,
}
use yangkv_v.Version.{FileMetaData}
use yangkv_v.VersionEdit.{Heap, new_meta}
use yangkv_v.VersionSet.{ref_file, ref_files, unref_at, unref_files}
use native.Mathlib.Decide.{ℕ_discrete}
use mathlib.Core.Path.{subst}

abbrev pub file_at : ℕ → Heap → FileMetaData
file_at p heap = get_or heap p new_meta

abbrev pub refs_at : ℕ → Heap → ℕ
refs_at p heap = (file_at p heap).refs

abbrev pub one_if : Bool → ℕ
one_if true = 1
one_if false = 0

-- How often a place stands in a list.
abbrev pub count : ℕ → List ℕ → ℕ
count p [] = 0
count p (q ∷ l) = one_if (q == p) + count p l

-- The file but for its count.
abbrev pub of_file : FileMetaData → FileMetaData
of_file f = record f { refs = 0 }

changed :
    (q p n : ℕ) (heap : Heap)
    → q < length heap
    → (refs_at p (set heap q (record (file_at q heap) { refs = n }))
        ≡ (if q == p then n else refs_at p heap))
      × (of_file (file_at p (set heap q (record (file_at q heap) { refs = n })))
          ≡ of_file (file_at p heap))
changed q p n heap h = elim (ℕ_discrete q p) [
  | yes same ↦
      let there = get_or-set_self heap q (record (file_at q heap) { refs = n }) new_meta h in
      subst
        (λ (x : ℕ).
          (refs_at x (set heap q (record (file_at q heap) { refs = n }))
            ≡ (if q == x then n else refs_at x heap))
          × (of_file (file_at x (set heap q (record (file_at q heap) { refs = n })))
              ≡ of_file (file_at x heap)))
        same (ap (λ (f : FileMetaData). f.refs) there ∙ rw (==_refl q) refl, ap of_file there)
  | no other ↦
      let there = get_or-set_ne heap q p (record (file_at q heap) { refs = n }) new_meta other in
      let differ : (q == p) ≡ false = ground (arith, other) in
      (ap (λ (f : FileMetaData). f.refs) there ∙ rw differ refl, ap of_file there)
]

-- What one ref and one unref do to the counts.
bumped :
    (q p : ℕ) (heap : Heap)
    → q < length heap
    → refs_at p (ref_file q heap) ≡ refs_at p heap + one_if (q == p)
bumped q p heap h = elim (ℕ_discrete q p) [
  | yes same ↦
      (changed q p (refs_at q heap + 1) heap h).0
      ∙ subst
          (λ (x : ℕ).
            (if q == x then refs_at q heap + 1 else refs_at x heap)
            ≡ refs_at x heap + one_if (q == x))
          same (rw (==_refl q) refl)
  | no other ↦
      let differ : (q == p) ≡ false = ground (arith, other) in
      (changed q p (refs_at q heap + 1) heap h).0 ∙ rw differ (omega arith)
]

dropped :
    (q p : ℕ) (heap : Heap)
    → q < length heap
    → 1 ≤ refs_at q heap
    → refs_at p (unref_at (refs_at q heap) q heap) + one_if (q == p) ≡ refs_at p heap
dropped q p heap h one = elim (ℕ_discrete q p) [
  | yes same ↦
      ap (λ (n : ℕ). n + one_if (q == p)) (changed q p (refs_at q heap - 1) heap h).0
      ∙ subst
          (λ (x : ℕ).
            (if q == x then refs_at q heap - 1 else refs_at x heap) + one_if (q == x)
            ≡ refs_at x heap)
          same (rw (==_refl q) (omega (arith, one)))
  | no other ↦
      let differ : (q == p) ≡ false = ground (arith, other) in
      ap (λ (n : ℕ). n + one_if (q == p)) (changed q p (refs_at q heap - 1) heap h).0
      ∙ rw differ (omega arith)
]

-- What ref on each of some places does.
pub ref_files_lem :
    (l : List ℕ) (heap : Heap)
    → All (λ p. p < length heap) l
    → (length (ref_files l heap) ≡ length heap)
      × ((p : ℕ) → refs_at p (ref_files l heap) ≡ refs_at p heap + count p l)
      × ((p : ℕ) → of_file (file_at p (ref_files l heap)) ≡ of_file (file_at p heap))
unfolding ref_files
ref_files_lem [] heap h = (refl, λ p. omega arith, λ p. refl)
ref_files_lem (q ∷ l) heap h =
    let same_length : length (ref_file q heap) ≡ length heap = length-set heap q _ in
    let (lengths, counts, files) =
      ref_files_lem l (ref_file q heap)
        (subst (λ (n : ℕ). All (λ p. p < n) l) (sym same_length) h.1) in
    (
      lengths ∙ same_length,
      λ p. omega (arith, counts p, bumped q p heap h.0),
      λ p. files p ∙ (changed q p (refs_at q heap + 1) heap h.0).1,
    )

-- Where every place has as many references as are given up, no assertion fails.
pub unref_files_lem :
    (l : List ℕ) (heap : Heap)
    → All (λ p. p < length heap) l
    → ((p : ℕ) → count p l ≤ refs_at p heap)
    → (heap' : Heap) × (unref_files l heap ≡ some heap')
      × (length heap' ≡ length heap)
      × ((p : ℕ) → refs_at p heap' + count p l ≡ refs_at p heap)
      × ((p : ℕ) → of_file (file_at p heap') ≡ of_file (file_at p heap))
unfolding unref_files
unref_files_lem [] heap h enough = (heap, refl, refl, λ p. omega arith, λ p. refl)
unref_files_lem (q ∷ l) heap h enough =
    let one : 1 ≤ refs_at q heap = omega (arith, enough q, ap one_if (==_refl q)) in
    let heap₁ = unref_at (refs_at q heap) q heap in
    let same_length : length heap₁ ≡ length heap = length-set heap q _ in
    let (heap', run, lengths, counts, files) =
      unref_files_lem l heap₁ (subst (λ (n : ℕ). All (λ p. p < n) l) (sym same_length) h.1)
        (λ p. omega (arith, enough p, dropped q p heap h.0 one)) in
    (
      heap',
      rw (le→leb 1 (refs_at q heap) one) run,
      lengths ∙ same_length,
      λ p. omega (arith, counts p, dropped q p heap h.0 one),
      λ p. files p ∙ (changed q p (refs_at q heap - 1) heap h.0).1,
    )
