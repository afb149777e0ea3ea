-- ===== src/BlockBuilder/Growth.antt =====
-- What an Add of table/block_builder.cpp makes of the size of a block.
use yangkv_v.Base.{
  ℕ, ◌+◌, ◌-◌, ◌%◌, ◌^◌, ◌≤◌, ltb, le→leb, ◌==◌, true, false, List, [], ◌∷◌, ◌++◌, length, take,
  drop, ◌≡◌, ◌⊎◌, inl, inr, refl, arith, Bool-cases, length-append, length-drop,
}
use yangkv_v.Base.Outcome.{done}
use yangkv_v.Coding.{IsU32, encode_varint32}
use yangkv_v.Coding.Encode.{encode_varint32_shape}
use yangkv_v.Comparator.{common_prefix}
use yangkv_v.Map.{key_compare}
use yangkv_v.Map.Laws.{key_compare_flip_lt}
use yangkv_v.BlockBuilder.{
  BlockBuilder, new_builder, add, add_shared, may_add, current_size_estimate,
}
use yangkv_v.BlockBuilder.Entries.{
  entry_code, add_shared-entry_code, prefix_below_right, prefix_same,
}
use Prim.Native.Nat.{lt}

-- A block that takes entries.
pub record IsOpen (interval : ℕ) (b : BlockBuilder) : Type 0 where
  pub unfinished : b.finished ≡ false
  pub counted : b.counter ≤ interval

pub new_builder-IsOpen : (interval : ℕ) → IsOpen interval new_builder
new_builder-IsOpen interval = record { unfinished = refl; counted = omega arith }

-- The key may come behind those of the block.
abbrev pub Follows : List ℕ → BlockBuilder → Type 0
Follows key b = (b.buffer ≡ []) ⊎ (key_compare b.last_key key ≡ lt)

may_add-Follows :
    (interval : ℕ) (key : List ℕ) (b : BlockBuilder)
    → IsOpen interval b
    → Follows key b
    → may_add interval key b ≡ true
unfolding may_add
may_add-Follows interval key b o (inl empty) =
    rw (o.unfinished, le→leb b.counter interval o.counted, empty) refl
may_add-Follows interval key b o (inr less) =
    rw (o.unfinished, le→leb b.counter interval o.counted, key_compare_flip_lt b.last_key key less)
      (elim (Bool-cases (length b.buffer == 0)) [ inl e ↦ rw e refl | inr e ↦ rw e refl ])

length-entry_code :
    (shared : ℕ) (key value : List ℕ)
    → shared ≤ length key
    → IsU32 (length key)
    → IsU32 (length value)
    → (1 ≤ length (entry_code shared key value))
      × (length (entry_code shared key value) ≤ 15 + (length key + length value))
length-entry_code shared key value below k v =
    let c₁ = encode_varint32 shared in
    let c₂ = encode_varint32 (length key - shared) in
    let c₃ = encode_varint32 (length value) in
    omega (
      arith,
      length-append c₁ (c₂ ++ (c₃ ++ (drop shared key ++ value))),
      length-append c₂ (c₃ ++ (drop shared key ++ value)),
      length-append c₃ (drop shared key ++ value),
      length-append (drop shared key) value,
      length-drop shared key,
      (encode_varint32_shape shared (omega arith)).0,
      (encode_varint32_shape shared (omega arith)).1,
      (encode_varint32_shape (length key - shared) (omega arith)).1,
      (encode_varint32_shape (length value) (omega arith)).1,
    )

abbrev pub Grown : ℕ → List ℕ → List ℕ → BlockBuilder → BlockBuilder → Type 0
Grown interval key value b b' =
    IsOpen interval b'
    × (b'.last_key ≡ key)
    × (1 ≤ length b'.buffer)
    × (current_size_estimate b' ≤ current_size_estimate b + (19 + (length key + length value)))

grown :
    (interval shared : ℕ) (key value : List ℕ) (b : BlockBuilder)
    → b.finished ≡ false
    → b.counter + 1 ≤ interval
    → shared ≤ length key
    → take shared b.last_key ≡ take shared key
    → IsU32 (length key)
    → IsU32 (length value)
    → (b' : BlockBuilder) × (add_shared shared key value b ≡ done b')
      × IsOpen interval b'
      × (b'.last_key ≡ key)
      × (1 ≤ length b'.buffer)
      × (current_size_estimate b' ≤ current_size_estimate b + (15 + (length key + length value)))
unfolding current_size_estimate
grown interval shared key value b unfinished counted below same k v =
    let size = length-entry_code shared key value below k v in
    let whole = length-append b.buffer (entry_code shared key value) in
    (
      _,
      add_shared-entry_code shared key value b below same k v,
      record { unfinished = unfinished; counted = counted },
      refl,
      omega (arith, size, whole),
      omega (arith, size, whole),
    )

-- An open block takes a key that follows its keys, and stays open.
pub add-Grown :
    (interval : ℕ) (key value : List ℕ) (b : BlockBuilder)
    → 1 ≤ interval
    → IsOpen interval b
    → Follows key b
    → IsU32 (length key)
    → IsU32 (length value)
    → (b' : BlockBuilder) × (add interval key value b ≡ done b') × Grown interval key value b b'
unfolding add current_size_estimate
add-Grown interval key value b one o follows k v =
    let may = may_add-Follows interval key b o follows in
    elim (Bool-cases (ltb b.counter interval)) [
      | inl more ↦
          let (b', run, open', last, some_bytes, size) =
            grown interval (common_prefix b.last_key key) key value b o.unfinished (ground arith)
              (prefix_below_right b.last_key key) (prefix_same b.last_key key) k v in
          (b', rw (may, more) run, (open', last, some_bytes, omega (arith, size)))
      | inr full ↦
          let mark : List ℕ = length b.buffer % 2 ^ 32 ∷ [] in
          let b₀ : BlockBuilder = record b { restarts = b.restarts ++ mark; counter = 0 } in
          let (b', run, open', last, some_bytes, size) =
            grown interval 0 key value b₀ o.unfinished one (omega arith) refl k v in
          (
            b',
            rw (may, full) run,
            (open', last, some_bytes, omega (arith, size, length-append b.restarts mark)),
          )
    ]
