-- ===== src/VersionSet/Applied.antt =====
-- Apply of VersionSet::Builder in main/versionset.cpp keeps the files of a level in their order.
use yangkv_v.Base.{
  ℕ, zero, suc, ◌<◌, ◌≡◌, ◌≢◌, refl, sym, ◌∙◌, ltb, ◌==◌, true, false, List, [], ◌∷◌, ◌++◌, length,
  get_or, set, length-set, length-append, All, All-mono, none, some, some_inj, if◌then◌else◌,
  Bool-cases, Option-cases, inl, inr, arith,
}
use yangkv_v.VersionEdit.{Heap, VersionEdit, new_meta}
use yangkv_v.VersionSet.{Node}
use yangkv_v.VersionSet.Builder.{
  Builder, LevelState, new_level, builder_on, insert_file, apply_deleted, apply_new, apply_edit,
  UpperBound, save_to,
}
use yangkv_v.VersionSet.Ordered.{All-insert_file, insert_file-IsAscending}
use yangkv_v.VersionSet.Ascending.{NotBefore, IsAscending}
use yangkv_v.VersionSet.Saved.{IsUpperBound, saved, all_apart}
use yangkv_v.VersionSet.Edited.{IsLevel, IsOrdered, IsSaved, save_to-IsSaved, All-get_or, All-set}
use mathlib.Core.Path.{subst}

none_ne_some {ℓ} : {A : Type ℓ} {a : A} → none ≢ some a
none_ne_some h = cc

-- Files that are put behind the others of the heap.
get_or-append :
    (keys more : Heap) (p : ℕ)
    → p < length keys
    → get_or (keys ++ more) p new_meta ≡ get_or keys p new_meta
get_or-append [] more p h = absurd (omega arith)
get_or-append (f ∷ keys) more zero h = refl
get_or-append (f ∷ keys) more (suc p) h = get_or-append keys more p (omega arith)

All-NotBefore-append :
    (keys more : Heap) (p : ℕ) (l : List ℕ)
    → p < length keys
    → All (λ q. q < length keys) l
    → All (λ q. NotBefore (get_or keys p new_meta) (get_or keys q new_meta)) l
    → All (λ q. NotBefore (get_or (keys ++ more) p new_meta) (get_or (keys ++ more) q new_meta)) l
All-NotBefore-append keys more p [] here there h = tt
All-NotBefore-append keys more p (q ∷ l) here there h = (
  rw (get_or-append keys more p here, get_or-append keys more q there.0) h.0,
  All-NotBefore-append keys more p l here there.1 h.1,
)

IsAscending-append :
    (keys more : Heap) (l : List ℕ)
    → All (λ q. q < length keys) l
    → IsAscending keys l
    → IsAscending (keys ++ more) l
IsAscending-append keys more [] there h = tt
IsAscending-append keys more (p ∷ l) there h = (
  All-NotBefore-append keys more p l there.0 there.1 h.0,
  IsAscending-append keys more l there.1 h.1,
)

IsLevel-append : (keys more : Heap) (l : List ℕ) → IsLevel keys l → IsLevel (keys ++ more) l
IsLevel-append keys more l h = (
  IsAscending-append keys more l h.1 h.0,
  All-mono (λ p. p < length keys) (λ p. p < length (keys ++ more)) l
      (λ p below. omega (arith, length-append keys more)) h.1,
)

IsOrdered-append : (keys more : Heap) (b : Builder) → IsOrdered keys b → IsOrdered (keys ++ more) b
IsOrdered-append keys more b o = record {
  same_levels = o.same_levels;
  base_levels =
      All-mono (IsLevel keys) (IsLevel (keys ++ more)) b.base.files
        (λ l h. IsLevel-append keys more l h) o.base_levels;
  added_levels =
      All-mono (λ s. IsLevel keys s.added_files) (λ s. IsLevel (keys ++ more) s.added_files)
        b.levels (λ s h. IsLevel-append keys more s.added_files h) o.added_levels;
}

-- A level of the builder that is changed.
abbrev set_level : Builder → ℕ → LevelState → Builder
set_level b level s = record b { levels = set b.levels level s }

set_level-IsOrdered :
    (heap : Heap) (b : Builder) (level : ℕ) (s : LevelState)
    → IsOrdered heap b
    → IsLevel heap s.added_files
    → IsOrdered heap (set_level b level s)
set_level-IsOrdered heap b level s o h = record {
  same_levels = o.same_levels ∙ sym (length-set b.levels level s);
  base_levels = o.base_levels;
  added_levels = All-set (λ s. IsLevel heap s.added_files) b.levels level s o.added_levels h;
}

added_at-IsLevel :
    (heap : Heap) (b : Builder) (level : ℕ)
    → IsOrdered heap b
    → IsLevel heap (get_or b.levels level new_level).added_files
added_at-IsLevel heap b level o =
    All-get_or (λ s. IsLevel heap s.added_files) b.levels level new_level o.added_levels (tt, tt)

apply_deleted-IsOrdered :
    (l : List (ℕ × ℕ)) (b : Builder) (heap : Heap) (levels : List LevelState)
    → IsOrdered heap b
    → apply_deleted l b.levels ≡ some levels
    → IsOrdered heap (record b { levels = levels })
unfolding apply_deleted
apply_deleted-IsOrdered [] b heap levels o h =
    subst (λ (x : List LevelState). IsOrdered heap (record b { levels = x })) (some_inj h) o
apply_deleted-IsOrdered ((level, number) ∷ l) b heap levels o h =
    let s = get_or b.levels level new_level in
    let s' : LevelState = record s {
      deleted_files = λ n. if n == number then true else s.deleted_files n;
    } in
    elim (Bool-cases (ltb level (length b.levels))) [
      | inl inside ↦
          apply_deleted-IsOrdered l (set_level b level s') heap levels
            (set_level-IsOrdered heap b level s' o (added_at-IsLevel heap b level o))
            (rw inside at h)
      | inr outside ↦ absurd (none_ne_some (rw outside at h))
    ]

apply_new-IsOrdered :
    (l : List (ℕ × ℕ)) (b : Builder) (heap heap' : Heap) (levels : List LevelState)
    → IsOrdered heap b
    → apply_new l b.levels heap ≡ some (levels, heap')
    → IsOrdered heap' (record b { levels = levels })
unfolding apply_new
apply_new-IsOrdered [] b heap heap' levels o h =
    subst (λ (x : List LevelState × Heap). IsOrdered x.1 (record b { levels = x.0 })) (some_inj h) o
apply_new-IsOrdered ((level, place) ∷ l) b heap heap' levels o h =
    let f = record (get_or heap place new_meta) { refs = 1 } in
    let keys = heap ++ f ∷ [] in
    let s = get_or b.levels level new_level in
    let s' : LevelState = record {
      deleted_files = λ n. if n == f.number then false else s.deleted_files n;
      added_files = insert_file keys (length heap) s.added_files;
    } in
    let o' = IsOrdered-append heap (f ∷ []) b o in
    let old = added_at-IsLevel keys b level o' in
    let new : IsLevel keys s'.added_files = (
      insert_file-IsAscending keys (length heap) s.added_files old.0,
      All-insert_file (λ p. p < length keys) keys (length heap) s.added_files
          (omega (arith, length-append heap (f ∷ []))) old.1,
    ) in
    elim (Bool-cases (ltb level (length b.levels))) [
      | inl inside ↦
          apply_new-IsOrdered l (set_level b level s') keys heap' levels
            (set_level-IsOrdered keys b level s' o' new) (rw inside at h)
      | inr outside ↦ absurd (none_ne_some (rw outside at h))
    ]

-- Apply of an edit keeps the files of the base and the added files of each level in their order.
pub apply_edit-IsOrdered :
    (edit : VersionEdit) (b b' : Builder) (heap heap' : Heap)
    → IsOrdered heap b
    → apply_edit edit b heap ≡ some (b', heap')
    → IsOrdered heap' b'
unfolding apply_edit
apply_edit-IsOrdered edit b b' heap heap' o h =
    elim (Option-cases (apply_deleted edit.deleted_files b.levels)) [
      | inl failed ↦ absurd (none_ne_some (rw failed at h))
      | inr (levels, deleted) ↦
          let b₁ : Builder = record b { levels = levels } in
          let o₁ = apply_deleted-IsOrdered edit.deleted_files b heap levels o deleted in
          elim (Option-cases (apply_new edit.new_files levels heap)) [
            | inl failed ↦ absurd (none_ne_some (rw (deleted, failed) at h))
            | inr ((levels', keys), added) ↦
                subst (λ (x : Builder × Heap). IsOrdered x.1 x.0)
                  (some_inj (rw (deleted, added) at h))
                  (apply_new-IsOrdered edit.new_files b₁ heap keys levels' o₁ added)
          ]
    ]

-- A new builder on a version whose levels are in their order.
pub builder_on-IsOrdered :
    (heap : Heap) (base : Node)
    → length base.files ≡ 7
    → All (IsLevel heap) base.files
    → IsOrdered heap (builder_on base)
builder_on-IsOrdered heap base seven ordered = record {
  same_levels = seven;
  base_levels = ordered;
  added_levels =
      ((tt, tt), ((tt, tt), ((tt, tt), ((tt, tt), ((tt, tt), ((tt, tt), ((tt, tt), tt)))))));
}

-- With an std::upper_bound that answers, on files in their order, the place of the first that the
-- file stands before: when Apply returns on a builder whose files stand in their order in each
-- level, and the files that SaveTo keeps lie one behind the other in each level above 0, the files
-- of the builder still stand in their order, SaveTo returns, and in each level of the new version
-- the files stand in the order of their smallest keys, each file as often as in the base and among
-- the added files together, and none whose number is deleted; every file has as many references
-- more as the version has places for it.
pub save_to-apply_edit :
    (upper_bound : UpperBound) (edit : VersionEdit) (b b' : Builder) (heap heap' : Heap)
    → IsUpperBound upper_bound
    → IsOrdered heap b
    → apply_edit edit b heap ≡ some (b', heap')
    → all_apart heap' 0 (saved heap' b'.base.files b'.levels) ≡ true
    → (v : Node) × (heap'' : Heap) × (save_to upper_bound b' heap' ≡ some (v, heap''))
      × IsOrdered heap' b'
      × IsSaved b' heap' v heap''
save_to-apply_edit upper_bound edit b b' heap heap' law o applied apart =
    let o' = apply_edit-IsOrdered edit b b' heap heap' o applied in
    let (v, heap'', done_, s) = save_to-IsSaved upper_bound b' heap' law o' apart in
    (v, heap'', done_, o', s)
