-- ===== src/VersionEdit/PairSet.antt =====
-- The deleted files of main/versionedit.cpp as an ordered set of pairs.
use yangkv_v.Base.{
  false, ℕ, ◌+◌, ◌*◌, ◌^◌, ◌<◌, ◌≡◌, refl, sym, ap, ◌∙◌, List, [], ◌∷◌, ◌++◌, map, All,
  append_assoc, append-nil, ltb, le→not_ltb, arith, true, Bool-cases, inl, inr,
}
use yangkv_v.Coding.{IsU64}
use yangkv_v.VersionEdit.{VersionEdit, insert_pair}
use yangkv_v.VersionEdit.Files.{IsDeleted, delete_all, with_files}

-- The order of a std::set of pairs, whose second parts are 64-bit numbers.
abbrev pub Less : ℕ × ℕ → ℕ × ℕ → Type 0
Less p q = p.0 * 2 ^ 64 + p.1 < q.0 * 2 ^ 64 + q.1

abbrev pub IsPairSet : List (ℕ × ℕ) → Type 0
IsPairSet [] = Unit {0}
IsPairSet (p ∷ l) = All (Less p) l × IsPairSet l

insert_last :
    (p : ℕ × ℕ) (l : List (ℕ × ℕ))
    → IsU64 p.1
    → All (λ q. Less q p × IsU64 q.1) l
    → insert_pair p l ≡ l ++ p ∷ []
unfolding insert_pair
insert_last p [] h k = refl
insert_last p (q ∷ l) h k =
    let rest = insert_last p l h k.1 in
    let first : ltb p.0 q.0 ≡ false = le→not_ltb p.0 q.0 (omega (arith, k.0)) in
    elim (Bool-cases (ltb q.0 p.0)) [
      | inl later ↦ rw (first, later, rest)
      | inr same ↦
          let second : ltb p.1 q.1 ≡ false = ground (arith, k.0, first, same) in
          let behind : ltb q.1 p.1 ≡ true = ground (arith, k.0, first, same) in
          rw (first, same, second, behind, rest)
    ]

All-here :
    (P : ℕ × ℕ → Type 0) (k : List (ℕ × ℕ)) (p : ℕ × ℕ) (l : List (ℕ × ℕ))
    → All P (k ++ p ∷ l)
    → P p
All-here P [] p l h = h.0
All-here P (q ∷ k) p l h = All-here P k p l h.1

in_front :
    (k : List (ℕ × ℕ)) (p : ℕ × ℕ) (l : List (ℕ × ℕ))
    → IsPairSet (k ++ p ∷ l)
    → All IsDeleted (k ++ p ∷ l)
    → All (λ q. Less q p × IsU64 q.1) k
in_front [] p l h d = tt
in_front (q ∷ k) p l h d = ((All-here (Less q) k p l h.0, d.0.1), in_front k p l h.1 d.1)

pub delete_all-set :
    (l : List (ℕ × ℕ)) (e : VersionEdit)
    → IsPairSet (e.deleted_files ++ l)
    → All IsDeleted (e.deleted_files ++ l)
    → delete_all l e ≡ record e { deleted_files = e.deleted_files ++ l }
delete_all-set [] e s d =
    ap (λ (x : List (ℕ × ℕ)). record e { deleted_files = x }) (sym (append-nil e.deleted_files))
delete_all-set (p ∷ l) e s d =
    let k = e.deleted_files in
    let next : insert_pair p k ≡ k ++ p ∷ [] =
      insert_last p k (All-here IsDeleted k p l d).1 (in_front k p l s d) in
    let e' : VersionEdit = record e { deleted_files = k ++ p ∷ [] } in
    ap (λ (x : List (ℕ × ℕ)). delete_all l (record e { deleted_files = x })) next
    ∙ delete_all-set l e' (rw (append_assoc k (p ∷ []) l) s) (rw (append_assoc k (p ∷ []) l) d)
    ∙ ap (λ (x : List (ℕ × ℕ)). record e { deleted_files = x }) (append_assoc k (p ∷ []) l)

abbrev pub at_zero : ℕ × ℕ → ℕ × ℕ
at_zero p = (p.0, 0)

pub with_files-map :
    (l : List (ℕ × ℕ)) (e : VersionEdit)
    → with_files l e ≡ record e { new_files = e.new_files ++ map at_zero l }
with_files-map [] e =
    ap (λ (x : List (ℕ × ℕ)). record e { new_files = x }) (sym (append-nil e.new_files))
with_files-map ((level, place) ∷ l) e =
    with_files-map l (record e { new_files = e.new_files ++ (level, 0) ∷ [] })
    ∙ ap (λ (x : List (ℕ × ℕ)). record e { new_files = x })
        (append_assoc e.new_files ((level, 0) ∷ []) (map at_zero l))
