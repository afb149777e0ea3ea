-- ===== src/VersionSet/Counts.antt =====
-- The counts of references in main/versionset.cpp.
use yangkv_v.Base.{
  ℕ, zero, suc, ◌+◌, ◌≤◌, ◌<◌, ◌≡◌, refl, List, [], ◌∷◌, ◌++◌, length, All, All-append, All-mono,
  get_or, set, le→leb, true, arith, some,
}
use yangkv_v.SkipList.{SkipList}
use yangkv_v.Version.{FileMetaData}
use yangkv_v.VersionEdit.{Heap}
use yangkv_v.VersionSet.{Node, VersionSet, flat, unref_files, unref_lists, unref_all, unref}
use yangkv_v.VersionSet.Shared.{file_at, refs_at, count}
use yangkv_v.SkipList

-- Between two rounds: the current version is the only one, it alone refers to its lists, and a file has
-- as many references as the version has places for it.
pub record IsShared (s : VersionSet) : Type 0 where
  pub alone : s.older ≡ []
  pub one : s.current.refs ≡ 1
  pub levels : 1 ≤ length s.current.files
  pub lists : All (λ ls. All (λ l. 1 ≤ l.refs) ls) s.current.list
  pub places : All (λ p. p < length s.heap) (flat s.current.files)
  pub counts : (p : ℕ) → refs_at p s.heap ≡ count p (flat s.current.files)

unref_lists_fine : (ls : List SkipList) → All (λ l. 1 ≤ l.refs) ls → unref_lists ls ≡ true
unfolding unref_lists SkipList.unref
unref_lists_fine [] h = refl
unref_lists_fine (l ∷ ls) h = rw (le→leb 1 l.refs h.0, unref_lists) (unref_lists_fine ls h.1)

unref_all_fine :
    (writers : List (List SkipList))
    → All (λ ls. All (λ l. 1 ≤ l.refs) ls) writers
    → unref_all writers ≡ true
unfolding unref_all
unref_all_fine [] h = refl
unref_all_fine (ls ∷ writers) h = rw (unref_lists_fine ls h.0) (unref_all_fine writers h.1)

pub unref_fine :
    (v : Node) (heap heap' : Heap)
    → v.refs ≡ 1
    → All (λ ls. All (λ l. 1 ≤ l.refs) ls) v.list
    → unref_files (flat v.files) heap ≡ some heap'
    → unref v heap ≡ some ([], heap')
unfolding unref
unref_fine v heap heap' one lists run = simp (one, unref_all_fine v.list lists, run)

-- A new file at the end of the heap.
pub refs_at-append :
    (f : FileMetaData) (p : ℕ) (heap : Heap)
    → f.refs ≡ 0
    → refs_at p (heap ++ f ∷ []) ≡ refs_at p heap
refs_at-append f zero [] h = h
refs_at-append f (suc p) [] h = refl
refs_at-append f zero (g ∷ heap) h = refl
refs_at-append f (suc p) (g ∷ heap) h = refs_at-append f p heap h

pub file_at_last : (f : FileMetaData) (heap : Heap) → file_at (length heap) (heap ++ f ∷ []) ≡ f
file_at_last f [] = refl
file_at_last f (g ∷ heap) = file_at_last f heap

pub file_at_front :
    (f : FileMetaData) (p : ℕ) (heap : Heap)
    → p < length heap
    → file_at p (heap ++ f ∷ []) ≡ file_at p heap
file_at_front f p [] h = absurd (omega arith)
file_at_front f zero (g ∷ heap) h = refl
file_at_front f (suc p) (g ∷ heap) h = file_at_front f p heap (omega arith)

-- The places of a version with one file more at level 0.
abbrev pub one_more : ℕ → List (List ℕ) → List (List ℕ)
one_more n files = set files 0 (get_or files 0 [] ++ n ∷ [])

All-split : (P : ℕ → Type 0) (xs ys : List ℕ) → All P (xs ++ ys) → All P xs × All P ys
All-split P [] ys h = (tt, h)
All-split P (x ∷ xs) ys h = let (a, b) = All-split P xs ys h.1 in ((h.0, a), b)

pub places_one_more :
    (n : ℕ) (files : List (List ℕ))
    → All (λ p. p < n) (flat files)
    → All (λ p. p < n + 1) (flat (one_more n files))
places_one_more n [] h = tt
places_one_more n (l ∷ files) h =
    let more : (p : ℕ) → p < n → p < n + 1 = λ p k. omega arith in
    let (front, back) = All-split (λ (p : ℕ). p < n) l (flat files) h in
    All-append (λ (p : ℕ). p < n + 1) (l ++ n ∷ []) (flat files)
      (All-append (λ (p : ℕ). p < n + 1) l (n ∷ [])
        (All-mono (λ (p : ℕ). p < n) (λ (p : ℕ). p < n + 1) l more front) (omega arith, tt))
      (All-mono (λ (p : ℕ). p < n) (λ (p : ℕ). p < n + 1) (flat files) more back)
