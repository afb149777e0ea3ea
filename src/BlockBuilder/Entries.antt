-- ===== src/BlockBuilder/Entries.antt =====
-- What Add of table/block_builder.cpp appends can be read back with the key before it.
use yangkv_v.Base.{
  ℕ, ◌+◌, ◌-◌, ◌%◌, ◌^◌, ◌≤◌, ltb, ◌==◌, ==_iff, List, [], ◌∷◌, ◌++◌, length, length-append,
  length-drop, append_assoc, take, drop, take_all, take_front, drop_front, take-append-drop,
  same_bytes_refl, ◌≡◌, refl, ◌∙◌, ap, arith, true, Bool-cases, inl, inr,
}
use yangkv_v.Base.Outcome.{Outcome, done, ◌>>=◌}
use yangkv_v.Slice.{Slice}
use yangkv_v.Coding.{put_varint32, encode_varint32, get_varint32, IsU32}
use yangkv_v.Coding.RoundTrip.{shows, get_varint32-put_varint32}
use yangkv_v.Comparator.{common_prefix}
use yangkv_v.BlockBuilder.{BlockBuilder, add_shared, add, may_add}
use mathlib.Core.Path.{ap₂}

-- The entry in front of a run of bytes, by the key before it: how many bytes of that key it shares,
-- how many follow, the size of the value, those bytes, and the value.
unfoldable pub read_entry : List ℕ → Slice → Outcome (List ℕ × List ℕ × Slice)
read_entry last_key input = do
  (shared, input₁) ← get_varint32 input
  (non_shared, input₂) ← get_varint32 input₁
  (value_size, input₃) ← get_varint32 input₂
  let tail = drop non_shared input₃.ptr
  done (
    take shared last_key ++ take non_shared input₃.ptr,
    take value_size tail,
    record { ptr = drop value_size tail; size = input₃.size - (non_shared + value_size) },
  )

abbrev pub entry_code : ℕ → List ℕ → List ℕ → List ℕ
entry_code shared key value =
    encode_varint32 shared
    ++ (encode_varint32 (length key - shared)
        ++ (encode_varint32 (length value) ++ (drop shared key ++ value)))

pub prefix_below_right : (s t : List ℕ) → common_prefix s t ≤ length t
unfolding common_prefix
prefix_below_right [] t = omega arith
prefix_below_right (a ∷ s) [] = omega arith
prefix_below_right (a ∷ s) (b ∷ t) = ground (arith, prefix_below_right s t)

pub prefix_same : (s t : List ℕ) → take (common_prefix s t) s ≡ take (common_prefix s t) t
unfolding common_prefix
prefix_same [] t = refl
prefix_same (a ∷ s) [] = refl
prefix_same (a ∷ s) (b ∷ t) = elim (Bool-cases (a == b)) [
  | inl same ↦
      let eq = (==_iff a b).0 same in
      rw same (ap₂ (λ (x : ℕ) (l : List ℕ). x ∷ l) eq (prefix_same s t))
  | inr other ↦ rw other refl
]

pub add_shared-entry_code :
    (shared : ℕ) (key value : List ℕ) (b : BlockBuilder)
    → shared ≤ length key
    → take shared b.last_key ≡ take shared key
    → IsU32 (length key)
    → IsU32 (length value)
    → add_shared shared key value b
      ≡ done (record b {
        buffer = b.buffer ++ entry_code shared key value;
        last_key = key;
        counter = b.counter + 1;
      })
unfolding add_shared put_varint32
add_shared-entry_code shared key value b below same k v =
    let delta : take (length key - shared) (drop shared key) ≡ drop shared key =
      take_all (length key - shared) (drop shared key) (omega (arith, length-drop shared key)) in
    let one : shared % 2 ^ 32 ≡ shared = omega arith in
    let two : (length key - shared) % 2 ^ 32 ≡ length key - shared = omega arith in
    let three : length value % 2 ^ 32 ≡ length value = omega arith in
    let c₁ = encode_varint32 shared in
    let c₂ = encode_varint32 (length key - shared) in
    let c₃ = encode_varint32 (length value) in
    let whole : take shared b.last_key ++ drop shared key ≡ key =
      ap (λ (l : List ℕ). l ++ drop shared key) same ∙ take-append-drop shared key in
    let shape : ((((b.buffer ++ c₁) ++ c₂) ++ c₃) ++ drop shared key) ++ value
        ≡ b.buffer ++ entry_code shared key value =
      append_assoc (((b.buffer ++ c₁) ++ c₂) ++ c₃) (drop shared key) value
      ∙ append_assoc ((b.buffer ++ c₁) ++ c₂) c₃ (drop shared key ++ value)
      ∙ append_assoc (b.buffer ++ c₁) c₂ (c₃ ++ (drop shared key ++ value))
      ∙ append_assoc b.buffer c₁ (c₂ ++ (c₃ ++ (drop shared key ++ value))) in
    rw (delta, one, two, three, whole, same_bytes_refl key, shape) refl

read_entry-entry_code :
    (shared : ℕ) (last_key key value rest : List ℕ) (n : ℕ)
    → shared ≤ length key
    → take shared last_key ≡ take shared key
    → IsU32 (length key)
    → IsU32 (length value)
    → read_entry last_key (shows (entry_code shared key value) rest n)
      ≡ done (key, value, record { ptr = rest; size = n })
unfolding read_entry put_varint32
read_entry-entry_code shared last_key key value rest n below same k v =
    let c₁ = encode_varint32 shared in
    let c₂ = encode_varint32 (length key - shared) in
    let c₃ = encode_varint32 (length value) in
    let body = drop shared key ++ value in
    let r₃ = body ++ rest in
    let n₃ = length body + n in
    let r₂ = c₃ ++ r₃ in
    let n₂ = length c₃ + n₃ in
    let r₁ = c₂ ++ r₂ in
    let n₁ = length c₂ + n₂ in
    let bytes : entry_code shared key value ++ rest ≡ c₁ ++ r₁ =
      append_assoc c₁ (c₂ ++ (c₃ ++ body)) rest
      ∙ ap (λ (l : List ℕ). c₁ ++ l) (append_assoc c₂ (c₃ ++ body) rest)
      ∙ ap (λ (l : List ℕ). c₁ ++ (c₂ ++ l)) (append_assoc c₃ body rest) in
    let size : length (entry_code shared key value) + n ≡ length c₁ + n₁ = omega (
      arith,
      length-append c₁ (c₂ ++ (c₃ ++ body)),
      length-append c₂ (c₃ ++ body),
      length-append c₃ body,
    ) in
    let left : length body ≡ (length key - shared) + length value =
      omega (arith, length-append (drop shared key) value, length-drop shared key) in
    let at_value : r₃ ≡ drop shared key ++ (value ++ rest) =
      append_assoc (drop shared key) value rest in
    let count : length key - shared ≡ length (drop shared key) =
      omega (arith, length-drop shared key) in
    let done_size : length body + n - ((length key - shared) + length value) ≡ n =
      omega (arith, left) in
    rw
      (
        bytes,
        size,
        get_varint32-put_varint32 shared n₁ r₁ (omega arith),
        get_varint32-put_varint32 (length key - shared) n₂ r₂ (omega arith),
        get_varint32-put_varint32 (length value) n₃ r₃ (omega arith),
        at_value,
        drop_front (length key - shared) (drop shared key) (value ++ rest) count,
        take_front (length key - shared) (drop shared key) (value ++ rest) count,
        take_front (length value) value rest refl,
        drop_front (length value) value rest refl,
        same,
        take-append-drop shared key,
        done_size,
      )
      refl

abbrev pub Adds : List ℕ → List ℕ → BlockBuilder → BlockBuilder → Type 0
Adds key value b b' =
    (code : List ℕ) × (b'.buffer ≡ b.buffer ++ code)
    × ((rest : List ℕ) (n : ℕ)
        → read_entry b.last_key (shows code rest n)
          ≡ done (key, value, record { ptr = rest; size = n }))

added :
    (shared : ℕ) (key value : List ℕ) (b : BlockBuilder)
    → shared ≤ length key
    → take shared b.last_key ≡ take shared key
    → IsU32 (length key)
    → IsU32 (length value)
    → (b' : BlockBuilder) × (add_shared shared key value b ≡ done b')
      × (b'.last_key ≡ key)
      × (b'.counter ≡ b.counter + 1)
      × Adds key value b b'
added shared key value b below same k v = (
  _,
  add_shared-entry_code shared key value b below same k v,
  refl,
  refl,
  (
    entry_code shared key value,
    refl,
    λ rest n. read_entry-entry_code shared b.last_key key value rest n below same k v,
  ),
)

-- When the assertions of Add hold, with a restart interval of 1 or more and a key and value whose
-- lengths fit 32 bits, Add succeeds, remembers the key, keeps the counter within the interval, and
-- appends bytes that, with the key before and whatever follows, are read back as the key and the
-- value.
pub add_lem :
    (interval : ℕ) (key value : List ℕ) (b : BlockBuilder)
    → 1 ≤ interval
    → may_add interval key b ≡ true
    → IsU32 (length key)
    → IsU32 (length value)
    → (b' : BlockBuilder) × (add interval key value b ≡ done b')
      × (b'.last_key ≡ key)
      × (b'.counter ≤ interval)
      × Adds key value b b'
unfolding add
add_lem interval key value b one may k v = elim (Bool-cases (ltb b.counter interval)) [
  | inl more ↦
      let shared = common_prefix b.last_key key in
      let (b', run, last, count, adds) =
        added shared key value b (prefix_below_right b.last_key key) (prefix_same b.last_key key) k
          v in
      (b', rw (may, more) run, last, ground (arith, count), adds)
  | inr full ↦
      let b₀ : BlockBuilder = record b {
        restarts = b.restarts ++ length b.buffer % 2 ^ 32 ∷ [];
        counter = 0;
      } in
      let (b', run, last, count, adds) = added 0 key value b₀ (omega arith) refl k v in
      (b', rw (may, full) run, last, omega (arith, count), adds)
]
