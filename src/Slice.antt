-- ===== src/Slice.antt =====
-- utils/slice.h: a pointer and a size. The pointer is the bytes that may be read from where it
-- points up to the end of the object that it points into, so that a routine which reads past the
-- size, as EncodeMemEntry does, is told apart from one which reads past the object.
use yangkv_v.Base.{
  ℕ, zero, suc, ◌-◌, Bool, true, false, List, [], ◌∷◌, ◌++◌, length, take, drop, ltb, leb, ◌==◌,
  if◌then◌else◌,
}
use yangkv_v.Base.Outcome.{Outcome, done, fault, ◌>>=◌}
use Prim.Native.Nat.{compare, Ordering, lt, eq, gt}

pub record Slice : Type 0 where
  pub ptr : List ℕ
  pub size : ℕ

-- `memcpy` out of memory: the first `n` bytes from a pointer on.
unfoldable pub copy : List ℕ → ℕ → Outcome (List ℕ)
copy p n = if leb n (length p) then done (take n p) else fault

-- `Slice(const std::string&)`: the characters, and behind them the terminating zero of `data()`.
abbrev pub of_string : List ℕ → Slice
of_string s = record { ptr = s ++ 0 ∷ []; size = length s }

-- `Slice()`
abbrev pub empty_slice : Slice
empty_slice = record { ptr = 0 ∷ []; size = 0 }

unfoldable pub is_empty : Slice → Bool
is_empty s = s.size == 0

-- `operator[]`
unfoldable pub at : Slice → ℕ → Outcome ℕ
at s n = if ltb n s.size then elim (drop n s.ptr) [ [] ↦ fault | b ∷ _ ↦ done b ] else fault

unfoldable pub remove_prefix : Slice → ℕ → Outcome Slice
remove_prefix s n =
    if leb n s.size then done (record { ptr = drop n s.ptr; size = s.size - n }) else fault

-- `ToString`
unfoldable pub to_string : Slice → Outcome (List ℕ)
unfolding copy
to_string s = copy s.ptr s.size

-- `memcmp` on the first `n` bytes; of its result the callers use only the sign.
unfoldable pub memcmp : ℕ → List ℕ → List ℕ → Outcome Ordering
memcmp zero p q = done eq
memcmp (suc n) (a ∷ p) (b ∷ q) =
    let rest = memcmp n p q in elim (compare a b) [ lt ↦ done lt | eq ↦ rest | gt ↦ done gt ]
memcmp (suc n) p q = fault

-- The part of `Slice::compare` behind the `memcmp`.
abbrev by_size : ℕ → ℕ → Ordering → Ordering
by_size m n eq = if ltb m n then lt else if ltb n m then gt else eq
by_size m n r = r

unfoldable pub slice_compare : Slice → Slice → Outcome Ordering
slice_compare a b = do
  r ← memcmp (if ltb a.size b.size then a.size else b.size) a.ptr b.ptr
  done (by_size a.size b.size r)

abbrev is_eq : Ordering → Bool
is_eq eq = true
is_eq _ = false

-- `operator==(const Slice&, const Slice&)`
unfoldable pub slice_eq : Slice → Slice → Outcome Bool
slice_eq x y =
    let same = (do r ← memcmp x.size x.ptr y.ptr; done (is_eq r)) in
    if x.size == y.size then same else done false

unfoldable pub starts_with : Slice → Slice → Outcome Bool
starts_with s x =
    let same = (do r ← memcmp x.size s.ptr x.ptr; done (is_eq r)) in
    if leb x.size s.size then same else done false
