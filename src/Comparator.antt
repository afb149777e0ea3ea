-- ===== src/Comparator.antt =====
-- utils/comparator.h: the order of keys by their bytes, and the short keys that stand between others.
pub mod Short
use yangkv_v.Base.{
  ℕ, suc, ◌+◌, ltb, leb, ◌==◌, ◌&&◌, min, List, [], ◌∷◌, ◌++◌, length, take, get_or, if◌then◌else◌,
}
use yangkv_v.Base.Outcome.{Outcome}
use yangkv_v.Slice.{Slice, slice_compare}
use Prim.Native.Nat.{Ordering}

-- Compare
unfoldable pub compare_slices : Slice → Slice → Outcome Ordering
unfolding slice_compare
compare_slices a b = slice_compare a b

-- The loop that counts the bytes in which two strings begin alike, below the shorter length.
unfoldable pub common_prefix : List ℕ → List ℕ → ℕ
common_prefix [] limit = 0
common_prefix (a ∷ start) [] = 0
common_prefix (a ∷ start) (b ∷ limit) =
    let rest = common_prefix start limit in if a == b then suc rest else 0

-- FindShortestSeparator, on the bytes that `limit` shows.
unfoldable pub find_shortest_separator : List ℕ → List ℕ → List ℕ
find_shortest_separator start limit =
    let diff_index = common_prefix start limit in
    let diff_byte = get_or start diff_index 0 in
    let shorter = take diff_index start ++ (diff_byte + 1) ∷ [] in
    if leb (min (length start) (length limit)) diff_index
    then start
    else if ltb diff_byte 255 && ltb (diff_byte + 1) (get_or limit diff_index 0)
    then shorter
    else start

-- FindShortSuccessor: its loop goes over the bytes in front that are 0xff.
unfoldable pub find_short_successor : List ℕ → List ℕ
find_short_successor [] = []
find_short_successor (byte ∷ key) =
    let rest = find_short_successor key in if byte == 255 then byte ∷ rest else (byte + 1) ∷ []
