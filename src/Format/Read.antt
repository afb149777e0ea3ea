-- ===== src/Format/Read.antt =====
-- ReadBlock of table/format.cpp; pread is a parameter.
use yangkv_v.Base.{
  ℕ, ◌+◌, ◌%◌, ◌^◌, ltb, ◌==◌, List, [], ◌∷◌, length, take, drop, if◌then◌else◌, Option, none, some,
}
use yangkv_v.Base.Outcome.{Outcome, done, refused, fault}
use yangkv_v.Log.{Pread}
use yangkv_v.Format.{BlockHandle}

-- The switch on the type of the block, at `data[n]`.
abbrev typed : ℕ → List ℕ → List ℕ → Outcome (List ℕ)
typed n bytes [] = fault
typed n bytes (type ∷ rest) = if type == 0 then done (take n bytes) else refused

-- What Read has put into the new buffer of `total` bytes.
abbrev checked : ℕ → ℕ → Option (List ℕ) → Outcome (List ℕ)
checked n total none = refused
checked n total (some bytes) =
    if ltb total (length bytes)
    then fault
    else if length bytes == total
    then typed n bytes (drop n bytes)
    else refused

-- ReadBlock: the bytes of the block; `refused` is the status Error.
unfoldable pub read_block : Pread → List ℕ → BlockHandle → Outcome (List ℕ)
read_block pread content handle =
    let total = (handle.size + 5) % 2 ^ 64 in
    checked handle.size total (pread content handle.offset total)
