-- ===== src/VersionSet/Builder.antt =====
-- VersionSet::Builder of main/versionset.cpp: the files of a version, and the edits to it, put
-- together to a new version. A file is a place in the heap; the slices of the keys are read by the
-- bytes that they show. allowed_seeks, which nothing reads, is left out.
use yangkv_v.Base.{
  ℕ, ◌+◌, ltb, ◌==◌, Bool, true, false, ◌||◌, List, [], ◌∷◌, ◌++◌, length, replicate, set, get_or,
  take, Option, none, some, if◌then◌else◌,
}
use yangkv_v.Map.{key_compare}
use yangkv_v.MemEntry.{MemEntry}
use yangkv_v.Version.{FileMetaData, k_max_level}
use yangkv_v.VersionEdit.{Heap, VersionEdit, new_meta}
use yangkv_v.VersionSet.{Node, new_node, ref_file, unref_at, unref}
use Prim.Native.Nat.{Ordering, lt, eq, gt}

abbrev pub key_of : MemEntry → List ℕ
key_of e = take e.key.size e.key.ptr

-- What BySmallestKey makes of the comparison of the keys: ties are broken by the number.
abbrev pub break_ties : Ordering → ℕ → ℕ → Bool
break_ties lt m n = true
break_ties eq m n = ltb m n
break_ties gt m n = false

-- BySmallestKey
unfoldable pub by_smallest_key : FileMetaData → FileMetaData → Bool
by_smallest_key f g =
    break_ties (key_compare (key_of f.smallest) (key_of g.smallest)) f.number g.number

abbrev pub is_less : Ordering → Bool
is_less lt = true
is_less _ = false

-- LevelState: which numbers are in deleted_files, and added_files in the order of the set.
pub record LevelState : Type 0 where
  pub deleted_files : ℕ → Bool
  pub added_files : List ℕ

pub record Builder : Type 0 where
  pub base : Node
  pub levels : List LevelState

abbrev pub new_level : LevelState
new_level = record { deleted_files = λ n. false; added_files = [] }

-- Builder(vset, base), with the reference to the base.
abbrev pub builder_on : Node → Builder
builder_on base = record {
  base = record base { refs = base.refs + 1 };
  levels = replicate k_max_level new_level;
}

-- added_files->insert(f)
unfoldable pub insert_file : Heap → ℕ → List ℕ → List ℕ
insert_file heap p [] = p ∷ []
insert_file heap p (q ∷ l) =
    let f = get_or heap p new_meta in
    let g = get_or heap q new_meta in
    let rest = insert_file heap p l in
    if by_smallest_key f g then p ∷ q ∷ l else if by_smallest_key g f then q ∷ rest else q ∷ l

-- `levels_[level].deleted_files.insert(number)`; `none` is an index outside of levels_.
unfoldable pub apply_deleted : List (ℕ × ℕ) → List LevelState → Option (List LevelState)
apply_deleted [] levels = some levels
apply_deleted ((level, number) ∷ l) levels =
    let s = get_or levels level new_level in
    let rest = apply_deleted l (
      set levels level
        (record s { deleted_files = λ n. if n == number then true else s.deleted_files n })) in
    if ltb level (length levels) then rest else none

-- The loop of Apply over the new files: each is copied, with one reference.
unfoldable pub apply_new : List (ℕ × ℕ) → List LevelState → Heap → Option (List LevelState × Heap)
unfolding insert_file
apply_new [] levels heap = some (levels, heap)
apply_new ((level, place) ∷ l) levels heap =
    let f = record (get_or heap place new_meta) { refs = 1 } in
    let heap' = heap ++ f ∷ [] in
    let s = get_or levels level new_level in
    let s' : LevelState = record {
      deleted_files = λ n. if n == f.number then false else s.deleted_files n;
      added_files = insert_file heap' (length heap) s.added_files;
    } in
    let rest = apply_new l (set levels level s') heap' in
    if ltb level (length levels) then rest else none

abbrev then_new :
    Builder → VersionEdit → Heap → Option (List LevelState) → Option (List LevelState × Heap)
then_new b edit heap none = none
then_new b edit heap (some levels) = apply_new edit.new_files levels heap

abbrev with_levels : Builder → Option (List LevelState × Heap) → Option (Builder × Heap)
with_levels b none = none
with_levels b (some (levels, heap)) = some (record b { levels = levels }, heap)

-- Apply
unfoldable pub apply_edit : VersionEdit → Builder → Heap → Option (Builder × Heap)
unfolding apply_deleted apply_new
apply_edit edit b heap =
    with_levels b (then_new b edit heap (apply_deleted edit.deleted_files b.levels))

-- The last file of those that have been put into a level.
abbrev pub last_of : List ℕ → Option ℕ
last_of [] = none
last_of (p ∷ []) = some p
last_of (p ∷ q ∷ l) = last_of (q ∷ l)

-- What the assertion of MaybeAddFile asks for.
unfoldable pub follows : Heap → ℕ → Option ℕ → ℕ → Bool
follows heap level none p = true
follows heap level (some q) p =
    level == 0
    || is_less (
        key_compare (key_of (get_or heap q new_meta).largest)
          (key_of (get_or heap p new_meta).smallest))

-- A level of the new version as it is filled, with the heap; `none` is a failed assertion.
abbrev pub Filled : Type 0
Filled = Option (List ℕ × Heap)

-- MaybeAddFile. `keys` is the heap as SaveTo finds it: a reference changes no key and no number.
unfoldable pub maybe_add_file : Heap → ℕ → LevelState → ℕ → List ℕ × Heap → Filled
unfolding follows
maybe_add_file keys level s p (files, heap) =
    if s.deleted_files (get_or keys p new_meta).number
    then some (files, heap)
    else if follows keys level (last_of files) p
    then some (files ++ p ∷ [], ref_file p heap)
    else none

abbrev pub and_fill : Filled → (List ℕ × Heap → Filled) → Filled
and_fill none k = none
and_fill (some r) k = k r

-- `for (; base_iter != end; ++base_iter) MaybeAddFile(v, level, *base_iter)`
unfoldable pub add_files : Heap → ℕ → LevelState → List ℕ → List ℕ × Heap → Filled
unfolding maybe_add_file
add_files keys level s [] r = some r
add_files keys level s (p ∷ l) r =
    and_fill (maybe_add_file keys level s p r) (add_files keys level s l)

-- std::upper_bound(base_iter, base_end, *added_iter, cmp), as the files in front of the place that
-- it answers, and those from there on.
abbrev pub UpperBound : Type 0
UpperBound = Heap → ℕ → List ℕ → List ℕ × List ℕ

abbrev pub and_level : Option (List (List ℕ) × Heap) → List ℕ → Option (List (List ℕ) × Heap)
and_level none files = none
and_level (some (rest, heap)) files = some (files ∷ rest, heap)

abbrev pub and_levels :
    Filled → (Heap → Option (List (List ℕ) × Heap)) → Option (List (List ℕ) × Heap)
and_levels none k = none
and_levels (some (files, heap)) k = and_level (k heap) files

abbrev pub as_node : Option (List (List ℕ) × Heap) → Option (Node × Heap)
as_node none = none
as_node (some (files, heap)) = some (record new_node { files = files }, heap)

module _ (upper_bound : UpperBound) where
  -- The body of SaveTo for a level.
  unfoldable pub save_level : Heap → ℕ → LevelState → List ℕ → List ℕ → List ℕ × Heap → Filled
  unfolding add_files
  save_level keys level s base [] r = add_files keys level s base r
  save_level keys level s base (a ∷ added) r =
      let (front, back) = upper_bound keys a base in
      and_fill (add_files keys level s front r)
        λ r₁. and_fill (maybe_add_file keys level s a r₁) (save_level keys level s back added)

  -- The loop of SaveTo over the levels, for a version that has no file yet.
  unfoldable pub save_levels :
      Heap → ℕ → List (List ℕ) → List LevelState → Heap → Option (List (List ℕ) × Heap)
  unfolding save_level
  save_levels keys level (base ∷ bases) (s ∷ states) heap =
      and_levels (save_level keys level s base s.added_files ([], heap))
        (save_levels keys (level + 1) bases states)
  save_levels keys level _ _ heap = some ([], heap)

  -- SaveTo on a new version.
  unfoldable pub save_to : Builder → Heap → Option (Node × Heap)
  unfolding save_levels
  save_to b heap = as_node (save_levels heap 0 b.base.files b.levels heap)

-- `f->refs--` on each added file; a file with no reference is deleted.
unfoldable pub drop_files : List ℕ → Heap → Heap
drop_files [] heap = heap
drop_files (p ∷ l) heap = drop_files l (unref_at (get_or heap p new_meta).refs p heap)

abbrev pub all_added : List LevelState → List ℕ
all_added [] = []
all_added (s ∷ states) = s.added_files ++ all_added states

-- ~Builder: what is left of the base, and the heap.
unfoldable pub destroy : Builder → Heap → Option (List Node × Heap)
unfolding drop_files
destroy b heap = unref b.base (drop_files (all_added b.levels) heap)
