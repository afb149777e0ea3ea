-- ===== src/BloomFilter.antt =====
-- utils/bloomfilter.h and utils/bloomfilter.cpp: a set of strings that may answer yes too often, and
-- the file from which it is recovered.
pub mod Members
pub mod Recovery
use yangkv_v.Base.{
  ℕ, ◌%◌, ltb, ◌==◌, Bool, true, false, List, [], ◌∷◌, ◌++◌, if◌then◌else◌, Option, none, some,
}
use yangkv_v.Base.Outcome.{Outcome, done, fault}
use yangkv_v.Hash.{str_hash}

abbrev pub k_max_size : ℕ
k_max_size = 1000000

-- Slot_, by the index, and the numbers that stand in the file.
pub record BloomFilter : Type 0 where
  pub slot : ℕ → Bool
  pub saved : List ℕ

abbrev pub seed_set : List ℕ
seed_set = 131 ∷ 1919 ∷ 10007 ∷ 100000007 ∷ 1000000007 ∷ []

abbrev pub no_slot : ℕ → Bool
no_slot i = false

-- Init: the file is opened anew.
abbrev pub init : BloomFilter
init = record { slot = no_slot; saved = [] }

-- `HashVal % kMaxSize`
unfoldable pub index_of : List ℕ → ℕ → ℕ
index_of str seed = str_hash str seed % k_max_size

abbrev pub fill : ℕ → (ℕ → Bool) → ℕ → Bool
fill i slot j = if j == i then true else slot j

abbrev pub put : ℕ → BloomFilter → BloomFilter
put i b = if b.slot i then b else record { slot = fill i b.slot; saved = b.saved ++ i ∷ [] }

unfoldable pub insert_loop : List ℕ → List ℕ → BloomFilter → BloomFilter
insert_loop str [] b = b
insert_loop str (seed ∷ seeds) b = insert_loop str seeds (put (index_of str seed) b)

unfoldable pub insert : List ℕ → BloomFilter → BloomFilter
unfolding insert_loop
insert [] b = b
insert (c ∷ str) b = insert_loop (c ∷ str) seed_set b

unfoldable pub query_loop : List ℕ → List ℕ → (ℕ → Bool) → Bool
query_loop str [] slot = true
query_loop str (seed ∷ seeds) slot =
    let rest = query_loop str seeds slot in if slot (index_of str seed) then rest else false

unfoldable pub query : List ℕ → BloomFilter → Bool
unfolding query_loop
query [] b = false
query (c ∷ str) b = query_loop (c ∷ str) seed_set b.slot

-- The loop that reads the file, with its assertion.
unfoldable pub read_loop : List ℕ → (ℕ → Bool) → Outcome (ℕ → Bool)
read_loop [] slot = done slot
read_loop (i ∷ file) slot =
    let rest = read_loop file (fill i slot) in if ltb i k_max_size then rest else fault

abbrev recovered : List ℕ → Outcome (ℕ → Bool) → Outcome BloomFilter
recovered file (done slot) = done (record { slot = slot; saved = file })
recovered file _ = fault

-- Recover: `none` is a file that cannot be opened.
unfoldable pub recover : Option (List ℕ) → Outcome BloomFilter
unfolding read_loop
recover none = done init
recover (some file) = recovered file (read_loop file no_slot)
