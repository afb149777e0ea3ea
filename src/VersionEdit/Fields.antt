-- ===== src/VersionEdit/Fields.antt =====
-- The fields that DecodeFrom of main/versionedit.cpp reads, one round each.
use yangkv_v.Base.{
  ◌-◌, ℕ, suc, ◌+◌, ◌%◌, ◌^◌, ◌<◌, ◌≤◌, ◌≡◌, ap, ◌∙◌, List, [], ◌++◌, length, length-append,
  append_assoc, Option, none, some, lt→ltb, arith,
}
use yangkv_v.Base.Outcome.{done}
use yangkv_v.Slice.{Slice}
use yangkv_v.Coding.Encode.{encode_varint32_shape}
use yangkv_v.Coding.{
  IsU32, IsU64, put_varint32, put_varint64, put_length_prefixed_slice, encode_varint32,
  encode_varint64, get_varint32, get_varint64,
}
use yangkv_v.Coding.RoundTrip.{
  shows, get_varint32-put_varint32, get_varint64-put_varint64,
  get_length_prefixed_slice-put_length_prefixed_slice,
}
use yangkv_v.MemEntry.{MemEntry}
use yangkv_v.MemEntry.RoundTrip.{reread, decode_mem_entry-code}
use yangkv_v.MemEntry.Storable.{IsStorable, code, shown}
use yangkv_v.Version.{FileMetaData, k_max_level}
use yangkv_v.VersionEdit.{
  VersionEdit, Decoded, new_meta, decode_field, decode_loop, get_level, get_mem_entry,
}
use yangkv_v.VersionEdit.Steps.{
  enough, number_code, updated, Fits, Selects, round, number_step, tag_back,
}
use mathlib.Core.Path.{ap₂}

-- The file object shows a file, or has not been written.
abbrev pub ShowsFile : Option FileMetaData → FileMetaData → Type 0
ShowsFile none m = m ≡ new_meta
ShowsFile (some f) m =
    (m.number ≡ f.number)
    × (m.file_size ≡ f.file_size)
    × (shown m.smallest ≡ shown f.smallest)
    × (shown m.largest ≡ shown f.largest)

-- What DecodeFrom has made so far: an edit, and an object that shows the last file.
abbrev pub IsAt : VersionEdit → Option FileMetaData → Decoded → Type 0
IsAt e last d = (d.edit ≡ e) × ShowsFile last d.meta

-- Rounds of the loop that read the bytes, with a round left for each byte behind them.
abbrev pub Reads :
    List ℕ → VersionEdit → Option FileMetaData → VersionEdit → Option FileMetaData → Type 0
Reads bytes e last e' last' =
    (d : Decoded) (fuel m n : ℕ) (rest : List ℕ)
    → IsAt e last d
    → length bytes + m ≤ fuel
    → (k : ℕ) × (d' : Decoded) × (m ≤ k)
      × IsAt e' last' d'
      × (decode_loop fuel (shows bytes rest n) d
          ≡ decode_loop k (record { ptr = rest; size = n }) d')

pub shows-append :
    (a b rest : List ℕ) (n : ℕ) → shows (a ++ b) rest n ≡ shows a (b ++ rest) (length b + n)
shows-append a b rest n =
    ap₂ (λ (l : List ℕ) (k : ℕ). record { ptr = l; size = k }) (append_assoc a b rest)
      (omega (arith, length-append a b))

pub Reads-nil : (e : VersionEdit) (last : Option FileMetaData) → Reads [] e last e last
Reads-nil e last d fuel m n rest at h = (
  fuel,
  d,
  omega arith,
  at,
  ap (λ (k : ℕ). decode_loop fuel (record { ptr = rest; size = k }) d) (omega arith),
)

pub Reads-append :
    (a b : List ℕ) (e₁ e₂ e₃ : VersionEdit) (l₁ l₂ l₃ : Option FileMetaData)
    → Reads a e₁ l₁ e₂ l₂
    → Reads b e₂ l₂ e₃ l₃
    → Reads (a ++ b) e₁ l₁ e₃ l₃
Reads-append a b e₁ e₂ e₃ l₁ l₂ l₃ f g d fuel m n rest at h =
    let (k₁, d₁, m₁, at₁, step₁) =
      f d fuel (length b + m) (length b + n) (b ++ rest) at (omega (arith, length-append a b)) in
    let (k₂, d₂, m₂, at₂, step₂) = g d₁ k₁ m n rest at₁ m₁ in
    (
      k₂,
      d₂,
      m₂,
      at₂,
      ap (λ (s : Slice). decode_loop fuel s d) (shows-append a b rest n) ∙ step₁ ∙ step₂,
    )

-- The edit with a number that may be set.
abbrev pub with_number : (ℕ → VersionEdit → VersionEdit) → Option ℕ → VersionEdit → VersionEdit
with_number set_it none e = e
with_number set_it (some num) e = set_it num e

updated-IsAt :
    (set_it : ℕ → VersionEdit → VersionEdit) (o : Option ℕ) (e : VersionEdit)
    (last : Option FileMetaData) (d : Decoded)
    → IsAt e last d
    → IsAt (with_number set_it o e) last (updated set_it o d)
updated-IsAt set_it none e last d h = h
updated-IsAt set_it (some num) e last d h = (ap (set_it num) h.0, h.1)

pub Reads-number :
    (tag : ℕ) (set_it : ℕ → VersionEdit → VersionEdit) (o : Option ℕ) (e : VersionEdit)
    (last : Option FileMetaData)
    → tag < 128
    → Selects tag set_it
    → Fits o
    → Reads (number_code tag o) e last (with_number set_it o e) last
Reads-number tag set_it o e last t sel fits d fuel m n rest at h =
    let (k, same, left) = enough tag o fuel m t h in
    (
      k,
      updated set_it o d,
      left,
      updated-IsAt set_it o e last d at,
      ap (λ (j : ℕ). decode_loop j (shows (number_code tag o) rest n) d) same
          ∙ number_step tag set_it o k n rest d t sel fits,
    )

-- A field behind its tag.
pub Reads-field :
    (tag : ℕ) (body : List ℕ) (e e' : VersionEdit) (last last' : Option FileMetaData)
    → tag < 128
    → ((d : Decoded) (n : ℕ) (rest : List ℕ)
        → IsAt e last d
        → (d' : Decoded) × IsAt e' last' d'
          × (decode_field tag (shows body rest n) d ≡ done (d', record { ptr = rest; size = n })))
    → Reads (encode_varint32 tag ++ body) e last e' last'
Reads-field tag body e e' last last' t back d fuel m n rest at h =
    let tag_code = encode_varint32 tag in
    let long : 1 ≤ length tag_code = (encode_varint32_shape tag (omega arith)).0 in
    let total = length-append tag_code body in
    let more : fuel ≡ suc (fuel - 1) = omega arith in
    let (d', at', field) = back d n rest at in
    (
      fuel - 1,
      d',
      omega arith,
      at',
      ap (λ (j : ℕ). decode_loop j (shows (tag_code ++ body) rest n) d) more
          ∙ round (fuel - 1) tag (shows (tag_code ++ body) rest n) (shows body rest n)
              (record { ptr = rest; size = n }) d d'
              (ap get_varint32 (shows-append tag_code body rest n)
                ∙ tag_back tag (length body + n) (body ++ rest) t)
              field,
    )

pub level_back :
    (level n : ℕ) (rest : List ℕ)
    → level < k_max_level
    → get_level (shows (encode_varint32 level) rest n)
      ≡ done (level, record { ptr = rest; size = n })
unfolding get_level put_varint32
level_back level n rest h =
    rw (get_varint32-put_varint32 level n rest (omega arith), lt→ltb level k_max_level h)

pub number64_back :
    (num n : ℕ) (rest : List ℕ)
    → IsU64 num
    → get_varint64 (shows (encode_varint64 num) rest n)
      ≡ done (num, record { ptr = rest; size = n })
unfolding put_varint64
number64_back num n rest h = get_varint64-put_varint64 num n rest h

-- An encoded entry with its length in front.
abbrev pub prefixed : MemEntry → List ℕ
prefixed e = encode_varint32 (length (code e) % 2 ^ 32) ++ code e

pub entry_back :
    (e : MemEntry) (n : ℕ) (rest : List ℕ)
    → IsStorable e
    → IsU32 (length (code e))
    → get_mem_entry (shows (prefixed e) rest n)
      ≡ done (reread e rest, record { ptr = rest; size = n })
unfolding get_mem_entry put_length_prefixed_slice put_varint32
entry_back e n rest h fits = rw (
  get_length_prefixed_slice-put_length_prefixed_slice (code e) rest n fits,
  decode_mem_entry-code e rest (length (code e)) h,
)
