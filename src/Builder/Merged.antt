-- ===== src/Builder/Merged.antt =====
-- The map that MergeIterator of main/builder.cpp makes, beside Version::Get.
use yangkv_v.Base.{
  ℕ, zero, suc, ◌≢◌, get_or, arith, ◌≡◌, refl, sym, ap, ◌∙◌, inl, inr, List, [], ◌∷◌, ◌++◌,
  same_bytes, Bool-cases, All, same_bytes→eq, Option, none, some,
}
use yangkv_v.Hash.{writer_of}
use yangkv_v.Map.{Map, find, key_compare}
use yangkv_v.Map.Laws.{find-insert, Above, IsOrdered, insert-IsOrdered, key_compare_trans, same_ne}
use yangkv_v.Slice.{Slice}
use yangkv_v.SkipList.{SkipList}
use yangkv_v.Version.{Version, first_hit, or_hit, read_hit, get}
use yangkv_v.Builder.{merge_list, merge_lists, merge_writers}
use mathlib.Core.Path.{subst}
use Prim.Native.Nat.{lt}
use mathlib.Core.List.{reverse, reverse-append}
use yangkv_v.Map
use yangkv_v.SkipList

-- The order of the keys, list by list.
abbrev pub AreOrdered : List SkipList → Type 0
AreOrdered lists = All (λ l. IsOrdered l.list) lists

pub Above-trans : (i j : List ℕ) (m : Map Slice) → key_compare i j ≡ lt → Above j m → Above i m
Above-trans i j [] less above = tt
Above-trans i j ((k, v) ∷ m) less (below, above) = (key_compare_trans i j k less below, above)

find-Above : (i : List ℕ) (m : Map Slice) → Above i m → find i m ≡ none
unfolding find
find-Above i [] above = refl
find-Above i ((k, v) ∷ m) (below, above) =
    rw (same_ne i k (λ e. cc (below, e))) (find-Above i m (Above-trans i k m below above))

or_hit_assoc : (a b c : Option Slice) → or_hit a (or_hit b c) ≡ or_hit (or_hit a b) c
or_hit_assoc (some s) b c = refl
or_hit_assoc none b c = refl

pub Above-IsOrdered : (j : List ℕ) (m : Map Slice) → Above j m → IsOrdered m
Above-IsOrdered j [] above = tt
Above-IsOrdered j ((k, v) ∷ m) (below, above) = above

-- A binding of a list hides what the map had.
find-merge_list :
    (key : List ℕ) (list mp : Map Slice)
    → IsOrdered list
    → find key (merge_list list mp) ≡ or_hit (find key list) (find key mp)
unfolding merge_list find
find-merge_list key [] mp o = refl
find-merge_list key ((j, s) ∷ list) mp o =
    find-merge_list key list (Map.insert j s mp) (Above-IsOrdered j list o)
    ∙ rw (find-insert key j s mp) (elim (Bool-cases (same_bytes key j)) [
      | inl same ↦
          rw
            (
              same,
              subst (λ (k : List ℕ). find k list ≡ none) (sym (same_bytes→eq key j same))
                  (find-Above j list o),
            )
            refl
      | inr other ↦ rw other refl
    ])

or_hit_right : (o : Option Slice) → or_hit o none ≡ o
or_hit_right none = refl
or_hit_right (some s) = refl

first_hit_last :
    (key : List ℕ) (lists : List SkipList) (l : SkipList)
    → first_hit key (lists ++ l ∷ []) ≡ or_hit (first_hit key lists) (SkipList.get key l)
unfolding first_hit
first_hit_last key [] l = or_hit_right (SkipList.get key l)
first_hit_last key (x ∷ lists) l =
    ap (or_hit (SkipList.get key x)) (first_hit_last key lists l)
    ∙ or_hit_assoc (SkipList.get key x) (first_hit key lists) (SkipList.get key l)

find-merge_lists :
    (key : List ℕ) (lists : List SkipList) (mp : Map Slice)
    → AreOrdered lists
    → find key (merge_lists lists mp) ≡ or_hit (first_hit key (reverse lists)) (find key mp)
unfolding merge_lists SkipList.get
find-merge_lists key [] mp o = unfold first_hit in refl
find-merge_lists key (l ∷ lists) mp o =
    find-merge_lists key lists (merge_list l.list mp) o.1
    ∙ rw
        (
          find-merge_list key l.list mp o.0,
          reverse-append (l ∷ []) lists,
          first_hit_last key (reverse lists) l,
        )
        (or_hit_assoc (first_hit key (reverse lists)) (find key l.list) (find key mp))

-- No list of a writer has the key.
abbrev pub Lacks : List ℕ → List SkipList → Type 0
Lacks key lists = first_hit key (reverse lists) ≡ none

find-merge_writers_lacking :
    (key : List ℕ) (writers : List (List SkipList)) (mp : Map Slice)
    → All AreOrdered writers
    → ((i : ℕ) → Lacks key (get_or writers i []))
    → find key (merge_writers writers mp) ≡ find key mp
unfolding merge_writers
find-merge_writers_lacking key [] mp o lacks = refl
find-merge_writers_lacking key (lists ∷ writers) mp o lacks =
    find-merge_writers_lacking key writers (merge_lists lists mp) o.1 (λ i. lacks (suc i))
    ∙ find-merge_lists key lists mp o.0
    ∙ ap (λ (h : Option Slice). or_hit h (find key mp)) (lacks 0)

find-merge_writers_own :
    (key : List ℕ) (own : ℕ) (writers : List (List SkipList)) (mp : Map Slice)
    → All AreOrdered writers
    → ((i : ℕ) → i ≢ own → Lacks key (get_or writers i []))
    → find key (merge_writers writers mp)
      ≡ or_hit (first_hit key (reverse (get_or writers own []))) (find key mp)
unfolding merge_writers
find-merge_writers_own key own [] mp o lacks = unfold first_hit in refl
find-merge_writers_own key zero (lists ∷ writers) mp o lacks =
    find-merge_writers_lacking key writers (merge_lists lists mp) o.1
      (λ i. lacks (suc i) (λ e. omega (arith, e)))
    ∙ find-merge_lists key lists mp o.0
find-merge_writers_own key (suc own) (lists ∷ writers) mp o lacks =
    find-merge_writers_own key own writers (merge_lists lists mp) o.1
      (λ i other. lacks (suc i) (λ e. other (omega (arith, e))))
    ∙ ap (or_hit (first_hit key (reverse (get_or writers own [])))) (
        find-merge_lists key lists mp o.0
        ∙ ap (λ (h : Option Slice). or_hit h (find key mp)) (lacks 0 (λ e. omega (arith, e))))

-- Where the lists are in the order of their keys and a key stands in no list of a writer but its
-- own, the map that MergeIterator makes of all lists has of the key what Version::Get finds.
pub find-merge_writers :
    (key : List ℕ) (v : Version)
    → All AreOrdered v.list
    → ((i : ℕ) → i ≢ writer_of key → Lacks key (get_or v.list i []))
    → read_hit (find key (merge_writers v.list [])) ≡ get key v
unfolding get find
find-merge_writers key v o lacks = ap read_hit (
    find-merge_writers_own key (writer_of key) v.list [] o lacks
    ∙ or_hit_right (first_hit key (reverse (get_or v.list (writer_of key) []))))

merge_list-IsOrdered : (list mp : Map Slice) → IsOrdered mp → IsOrdered (merge_list list mp)
unfolding merge_list
merge_list-IsOrdered [] mp o = o
merge_list-IsOrdered ((j, s) ∷ list) mp o =
    merge_list-IsOrdered list (Map.insert j s mp) (insert-IsOrdered j s mp o)

merge_lists-IsOrdered :
    (lists : List SkipList) (mp : Map Slice) → IsOrdered mp → IsOrdered (merge_lists lists mp)
unfolding merge_lists
merge_lists-IsOrdered [] mp o = o
merge_lists-IsOrdered (l ∷ lists) mp o =
    merge_lists-IsOrdered lists (merge_list l.list mp) (merge_list-IsOrdered l.list mp o)

-- The keys of the merged map rise.
pub merge_writers-IsOrdered :
    (writers : List (List SkipList)) (mp : Map Slice)
    → IsOrdered mp
    → IsOrdered (merge_writers writers mp)
unfolding merge_writers
merge_writers-IsOrdered [] mp o = o
merge_writers-IsOrdered (lists ∷ writers) mp o =
    merge_writers-IsOrdered writers (merge_lists lists mp) (merge_lists-IsOrdered lists mp o)
