-- ===== src/Map/Laws.antt =====
-- The laws of the ordered map.
use yangkv_v.Base.{
  All, length, ◌≤◌, ◌+◌, same_bytes→eq, same_bytes, ℕ, ◌≡◌, ◌≢◌, ◌⊎◌, inl, inr, refl, List, [], ◌∷◌,
  false, if◌then◌else◌, some, arith, Bool-cases,
}
use yangkv_v.Map.{Map, key_compare, insert, find}
use mathlib.Core.Path.{subst}
use Prim.Native.Nat.{Ordering, lt, eq, gt}

pub key_compare_refl : (k : List ℕ) → key_compare k k ≡ eq
unfolding key_compare
key_compare_refl [] = refl
key_compare_refl (a ∷ k) = ground (arith, key_compare_refl k)

pub key_compare→eq : (j k : List ℕ) → key_compare j k ≡ eq → j ≡ k
unfolding key_compare
key_compare→eq [] [] h = refl
key_compare→eq [] (b ∷ k) h = ground arith
key_compare→eq (a ∷ j) [] h = ground arith
key_compare→eq (a ∷ j) (b ∷ k) h = ground (arith, key_compare→eq j k)

pub key_compare_flip : (j k : List ℕ) → key_compare j k ≡ gt → key_compare k j ≡ lt
unfolding key_compare
key_compare_flip [] [] h = ground arith
key_compare_flip [] (b ∷ k) h = ground arith
key_compare_flip (a ∷ j) [] h = ground arith
key_compare_flip (a ∷ j) (b ∷ k) h = ground (arith, key_compare_flip j k)

pub key_compare_flip_lt : (j k : List ℕ) → key_compare j k ≡ lt → key_compare k j ≡ gt
unfolding key_compare
key_compare_flip_lt [] [] h = ground arith
key_compare_flip_lt [] (b ∷ k) h = ground arith
key_compare_flip_lt (a ∷ j) [] h = ground arith
key_compare_flip_lt (a ∷ j) (b ∷ k) h = ground (arith, key_compare_flip_lt j k)

pub key_compare_trans :
    (i j k : List ℕ) → key_compare i j ≡ lt → key_compare j k ≡ lt → key_compare i k ≡ lt
unfolding key_compare
key_compare_trans [] [] [] p q = ground arith
key_compare_trans [] (b ∷ j) [] p q = ground arith
key_compare_trans [] j (c ∷ k) p q = refl
key_compare_trans (a ∷ i) [] k p q = ground arith
key_compare_trans (a ∷ i) (b ∷ j) [] p q = ground arith
key_compare_trans (a ∷ i) (b ∷ j) (c ∷ k) p q = ground (arith, key_compare_trans i j k)

pub Ordering-cases : (o : Ordering) → (o ≡ lt) ⊎ ((o ≡ eq) ⊎ (o ≡ gt))
Ordering-cases lt = inl refl
Ordering-cases eq = inr (inl refl)
Ordering-cases gt = inr (inr refl)

pub same_ne : (j k : List ℕ) → key_compare j k ≢ eq → same_bytes j k ≡ false
same_ne j k h = elim (Bool-cases (same_bytes j k)) [
  | inl e ↦ absurd (h (rw (same_bytes→eq j k e) (key_compare_refl k)))
  | inr e ↦ e
]

module _ {ℓ} {V : Type ℓ} where
  -- Every key is above the one before it.
  abbrev pub Above : List ℕ → Map V → Type 0
  Above k [] = Unit {0}
  Above k ((j, w) ∷ m) = (key_compare k j ≡ lt) × Above j m

  abbrev pub IsOrdered : Map V → Type 0
  IsOrdered [] = Unit {0}
  IsOrdered ((j, w) ∷ m) = Above j m

  insert-lt :
      (k j : List ℕ) (v w : V) (m : Map V)
      → key_compare k j ≡ lt
      → insert k v ((j, w) ∷ m) ≡ (k, v) ∷ (j, w) ∷ m
  unfolding insert
  insert-lt k j v w m e = rw (e, insert)

  insert-eq :
      (k j : List ℕ) (v w : V) (m : Map V)
      → key_compare k j ≡ eq
      → insert k v ((j, w) ∷ m) ≡ (j, v) ∷ m
  unfolding insert
  insert-eq k j v w m e = rw (e, insert)

  insert-gt :
      (k j : List ℕ) (v w : V) (m : Map V)
      → key_compare k j ≡ gt
      → insert k v ((j, w) ∷ m) ≡ (j, w) ∷ insert k v m
  unfolding insert
  insert-gt k j v w m e = rw (e, insert)

  insert-Above :
      (i k : List ℕ) (v : V) (m : Map V) → key_compare i k ≡ lt → Above i m → Above i (insert k v m)
  insert-Above i k v [] h o = unfold insert in (h, tt)
  insert-Above i k v ((j, w) ∷ m) h o = elim (Ordering-cases (key_compare k j)) [
    | inl e ↦ rw (insert-lt k j v w m e) (h, (e, o.1))
    | inr (inl e) ↦ rw (insert-eq k j v w m e) o
    | inr (inr e) ↦
        rw (insert-gt k j v w m e) (o.0, insert-Above j k v m (key_compare_flip k j e) o.1)
  ]

  -- An insertion keeps the keys in order.
  pub insert-IsOrdered : (k : List ℕ) (v : V) (m : Map V) → IsOrdered m → IsOrdered (insert k v m)
  insert-IsOrdered k v [] o = unfold insert in tt
  insert-IsOrdered k v ((j, w) ∷ m) o = elim (Ordering-cases (key_compare k j)) [
    | inl e ↦ rw (insert-lt k j v w m e) (e, o)
    | inr (inl e) ↦ rw (insert-eq k j v w m e) o
    | inr (inr e) ↦ rw (insert-gt k j v w m e) (insert-Above j k v m (key_compare_flip k j e) o)
  ]

  pub length-insert : (k : List ℕ) (v : V) (m : Map V) → length (insert k v m) ≤ length m + 1
  length-insert k v [] = unfold insert in omega arith
  length-insert k v ((j, w) ∷ m) = elim (Ordering-cases (key_compare k j)) [
    | inl e ↦ rw (insert-lt k j v w m e) (omega arith)
    | inr (inl e) ↦ rw (insert-eq k j v w m e) (omega arith)
    | inr (inr e) ↦ rw (insert-gt k j v w m e) (omega (arith, length-insert k v m))
  ]

  -- What holds of the bindings and of the new one holds behind an insertion.
  pub insert-All {κ} :
      (P : List ℕ × V → Type κ) (k : List ℕ) (v : V) (m : Map V)
      → P (k, v)
      → All P m
      → All P (insert k v m)
  insert-All P k v [] h hs = unfold insert in (h, tt)
  insert-All P k v ((j, w) ∷ m) h hs = elim (Ordering-cases (key_compare k j)) [
    | inl e ↦ rw (insert-lt k j v w m e) (h, hs)
    | inr (inl e) ↦
        rw (insert-eq k j v w m e) (subst (λ (i : List ℕ). P (i, v)) (key_compare→eq k j e) h, hs.1)
    | inr (inr e) ↦ rw (insert-gt k j v w m e) (hs.0, insert-All P k v m h hs.1)
  ]

  pub find-insert :
      (i k : List ℕ) (v : V) (m : Map V)
      → find i (insert k v m) ≡ (if same_bytes i k then some v else find i m)
  unfolding insert find
  find-insert i k v [] = refl
  find-insert i k v ((j, w) ∷ m) = elim (Ordering-cases (key_compare k j)) [
    | inl e ↦ rw (insert-lt k j v w m e)
    | inr (inl e) ↦
        let same = key_compare→eq k j e in rw (insert-eq k j v w m e, same) (ground arith)
    | inr (inr e) ↦
        rw (insert-gt k j v w m e, find-insert i k v m)
          (elim (Bool-cases (same_bytes i j)) [
            | inl s ↦
                let below : key_compare i k ≡ lt =
                  rw (same_bytes→eq i j s) (key_compare_flip k j e) in
                let differ : same_bytes i k ≡ false = same_ne i k (λ q. cc (below, q)) in
                rw (s, differ)
            | inr s ↦ rw s
          ])
  ]
