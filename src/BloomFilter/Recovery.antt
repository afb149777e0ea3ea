-- ===== src/BloomFilter/Recovery.antt =====
-- Recover of utils/bloomfilter.cpp restores what Insert has put into the file.
use yangkv_v.Base.{
  ap, ℕ, ◌<◌, ltb, lt→ltb, Bool, List, [], ◌∷◌, ◌++◌, ◌≡◌, refl, Bool-cases, inl, inr, arith, some,
}
use yangkv_v.Base.Outcome.{done, fault}
use yangkv_v.BloomFilter.{
  BloomFilter, k_max_size, seed_set, no_slot, init, index_of, fill, put, insert_loop, insert,
  read_loop, recover,
}
use yangkv_v.BloomFilter.Members.{insert_all}

done_inj : {A : Type 0} {a b : A} → done a ≡ done b → a ≡ b
done_inj e = cc

read_loop_last :
    (file : List ℕ) (i : ℕ) (slot slot' : ℕ → Bool)
    → i < k_max_size
    → read_loop file slot ≡ done slot'
    → read_loop (file ++ i ∷ []) slot ≡ done (fill i slot')
unfolding read_loop
read_loop_last [] i slot slot' h e =
    let same : slot ≡ slot' = done_inj e in
    rw (lt→ltb i k_max_size h) (ap (λ (t : ℕ → Bool). done (fill i t)) same)
read_loop_last (x ∷ file) i slot slot' h e = elim (Bool-cases (ltb x k_max_size)) [
  | inl below ↦ rw below (read_loop_last file i (fill x slot) slot' h (rw below at e))
  | inr above ↦ let no : fault ≡ done slot' = rw above at e in absurd (cc no)
]

-- Reading the file gives the slots.
abbrev IsSaved : BloomFilter → Type 0
IsSaved b = read_loop b.saved no_slot ≡ done b.slot

put-IsSaved : (i : ℕ) (b : BloomFilter) → i < k_max_size → IsSaved b → IsSaved (put i b)
put-IsSaved i b h s = elim (Bool-cases (b.slot i)) [
  | inl full ↦ rw full s
  | inr free ↦ rw free (read_loop_last b.saved i no_slot b.slot h s)
]

index_below : (str : List ℕ) (seed : ℕ) → index_of str seed < k_max_size
unfolding index_of
index_below str seed = omega arith

insert_loop-IsSaved :
    (str seeds : List ℕ) (b : BloomFilter) → IsSaved b → IsSaved (insert_loop str seeds b)
unfolding insert_loop
insert_loop-IsSaved str [] b s = s
insert_loop-IsSaved str (seed ∷ seeds) b s =
    insert_loop-IsSaved str seeds (put (index_of str seed) b)
      (put-IsSaved (index_of str seed) b (index_below str seed) s)

insert-IsSaved : (str : List ℕ) (b : BloomFilter) → IsSaved b → IsSaved (insert str b)
unfolding insert
insert-IsSaved [] b s = s
insert-IsSaved (c ∷ str) b s = insert_loop-IsSaved (c ∷ str) seed_set b s

insert_all-IsSaved :
    (strs : List (List ℕ)) (b : BloomFilter) → IsSaved b → IsSaved (insert_all strs b)
unfolding insert_all
insert_all-IsSaved [] b s = s
insert_all-IsSaved (str ∷ strs) b s =
    insert_all-IsSaved strs (insert str b) (insert-IsSaved str b s)

recover-saved : (b : BloomFilter) → IsSaved b → recover (some b.saved) ≡ done b
unfolding recover
recover-saved b s = rw s refl

init-IsSaved : IsSaved init
unfolding read_loop
init-IsSaved = refl

-- Recover, on the file that any sequence of inserts into an initialised filter has left, gives that
-- filter back.
pub recover-insert_all :
    (strs : List (List ℕ))
    → recover (some (insert_all strs init).saved) ≡ done (insert_all strs init)
recover-insert_all strs =
    recover-saved (insert_all strs init) (insert_all-IsSaved strs init init-IsSaved)
