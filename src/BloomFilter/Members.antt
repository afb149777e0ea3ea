-- ===== src/BloomFilter/Members.antt =====
-- Query of utils/bloomfilter.cpp answers true on all that has been inserted.
use yangkv_v.Base.{
  ℕ, true, false, List, [], ◌∷◌, ◌++◌, ◌≡◌, refl, Bool-cases, inl, inr, ◌==◌, ==_refl,
}
use yangkv_v.BloomFilter.{
  BloomFilter, seed_set, index_of, put, insert_loop, insert, query_loop, query,
}

-- A set of strings inserted in order.
unfoldable pub insert_all : List (List ℕ) → BloomFilter → BloomFilter
insert_all [] b = b
insert_all (str ∷ strs) b = insert_all strs (insert str b)

abbrev Keeps : BloomFilter → BloomFilter → Type 0
Keeps b b' = (j : ℕ) → b.slot j ≡ true → b'.slot j ≡ true

put-Keeps : (i : ℕ) (b : BloomFilter) → Keeps b (put i b)
put-Keeps i b j h = elim (Bool-cases (b.slot i)) [
  | inl full ↦ rw full h
  | inr free ↦
      rw free (elim (Bool-cases (j == i)) [ inl same ↦ rw same refl | inr other ↦ rw other h ])
]

put_full : (i : ℕ) (b : BloomFilter) → (put i b).slot i ≡ true
put_full i b = elim (Bool-cases (b.slot i)) [
  | inl full ↦ rw full full
  | inr free ↦ rw (free, ==_refl i) refl
]

insert_loop-Keeps : (str seeds : List ℕ) (b : BloomFilter) → Keeps b (insert_loop str seeds b)
unfolding insert_loop
insert_loop-Keeps str [] b j h = h
insert_loop-Keeps str (seed ∷ seeds) b j h =
    insert_loop-Keeps str seeds (put (index_of str seed) b) j (put-Keeps (index_of str seed) b j h)

query_loop-insert_loop :
    (str seeds : List ℕ) (b : BloomFilter)
    → query_loop str seeds (insert_loop str seeds b).slot ≡ true
unfolding query_loop insert_loop
query_loop-insert_loop str [] b = refl
query_loop-insert_loop str (seed ∷ seeds) b =
    let i = index_of str seed in
    rw
      (
        insert_loop-Keeps str seeds (put i b) i (put_full i b),
        query_loop-insert_loop str seeds (put i b),
      )
      refl

query_loop-Keeps :
    (str seeds : List ℕ) (b b' : BloomFilter)
    → Keeps b b'
    → query_loop str seeds b.slot ≡ true
    → query_loop str seeds b'.slot ≡ true
unfolding query_loop
query_loop-Keeps str [] b b' k h = refl
query_loop-Keeps str (seed ∷ seeds) b b' k h =
    let i = index_of str seed in
    elim (Bool-cases (b.slot i)) [
      | inl full ↦ rw (k i full) (query_loop-Keeps str seeds b b' k (rw full at h))
      | inr free ↦ let no : false ≡ true = rw free at h in absurd (cc no)
    ]

insert-Keeps : (str : List ℕ) (b : BloomFilter) → Keeps b (insert str b)
unfolding insert
insert-Keeps [] b j h = h
insert-Keeps (c ∷ str) b j h = insert_loop-Keeps (c ∷ str) seed_set b j h

insert_all-Keeps : (strs : List (List ℕ)) (b : BloomFilter) → Keeps b (insert_all strs b)
unfolding insert_all
insert_all-Keeps [] b j h = h
insert_all-Keeps (str ∷ strs) b j h =
    insert_all-Keeps strs (insert str b) j (insert-Keeps str b j h)

query-insert :
    (c : ℕ) (str : List ℕ) (b : BloomFilter) → query (c ∷ str) (insert (c ∷ str) b) ≡ true
unfolding query insert
query-insert c str b = query_loop-insert_loop (c ∷ str) seed_set b

query-Keeps :
    (str : List ℕ) (b b' : BloomFilter) → Keeps b b' → query str b ≡ true → query str b' ≡ true
unfolding query
query-Keeps [] b b' k h = h
query-Keeps (c ∷ str) b b' k h = query_loop-Keeps (c ∷ str) seed_set b b' k h

-- Query answers true on every string that is not empty and has been inserted, whatever was inserted
-- before and after it.
pub query-insert_all :
    (c : ℕ) (str : List ℕ) (before after : List (List ℕ)) (b : BloomFilter)
    → query (c ∷ str) (insert_all (before ++ (c ∷ str) ∷ after) b) ≡ true
unfolding insert_all
query-insert_all c str [] after b =
    query-Keeps (c ∷ str) (insert (c ∷ str) b) (insert_all after (insert (c ∷ str) b))
      (insert_all-Keeps after (insert (c ∷ str) b)) (query-insert c str b)
query-insert_all c str (x ∷ before) after b = query-insert_all c str before after (insert x b)
