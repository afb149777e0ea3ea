-- ===== src/TableBuilder/Held.antt =====
-- The entries that the data blocks of table/table_builder.cpp hold.
use yangkv_v.Base.{
  ℕ, ◌%◌, ◌^◌, ◌≤◌, ◌==◌, ◌≡◌, refl, sym, Bool-cases, inl, inr, true, List, [], ◌∷◌, ◌++◌, length,
  length-append, append_assoc, append-nil, arith, ltb, same_bytes, take, ==_iff, drop, ◌-◌,
}
use yangkv_v.Base.Outcome.{Outcome, done, refused, fault, ◌>>=◌}
use yangkv_v.BlockBuilder.{BlockBuilder, new_builder, add_shared, may_add}
use yangkv_v.Coding.{put_varint32, encode_varint32}
use yangkv_v.Coding.Encode.{encode_varint32_shape}
use yangkv_v.Comparator.{common_prefix}
use yangkv_v.TableBuilder.{k_block_restart_interval}
use mathlib.Core.Path.{subst}
use yangkv_v.BlockBuilder

-- A data block to which keys with values are added.
unfoldable pub filled : List (List ℕ × List ℕ) → BlockBuilder → Outcome BlockBuilder
filled [] b = done b
filled ((key, value) ∷ pairs) b =
    BlockBuilder.add k_block_restart_interval key value b >>= filled pairs

-- The blocks, each with the key that the index gives it, are what Finish makes of data blocks to
-- which the keys with values are added in their order.
unfoldable pub Holds : List (List ℕ × List ℕ) → List (List ℕ × List ℕ) → Type 0
Holds [] pairs = pairs ≡ []
Holds ((key, bytes) ∷ blocks) pairs =
    (own : List (List ℕ × List ℕ)) × (rest : List (List ℕ × List ℕ)) × (b : BlockBuilder) × (pairs
      ≡ own ++ rest)
    × (filled own new_builder ≡ done b)
    × (bytes ≡ (BlockBuilder.finish b).buffer)
    × Holds blocks rest

pub Holds-append :
    (blocks own pairs : List (List ℕ × List ℕ)) (key : List ℕ) (b : BlockBuilder)
    → Holds blocks pairs
    → filled own new_builder ≡ done b
    → Holds (blocks ++ (key, (BlockBuilder.finish b).buffer) ∷ []) (pairs ++ own)
unfolding Holds
Holds-append [] own pairs key b none_there e =
    (own, [], b, rw none_there (sym (append-nil own)), e, refl, refl)
Holds-append ((k, x) ∷ blocks) own pairs key b (own', rest, b', split, e', bytes, held) e = (
  own',
  rest ++ own,
  b',
  rw split (append_assoc own' rest own),
  e',
  bytes,
  Holds-append blocks own rest key b held e,
)

-- The key that the index gives the last block is no part of it.
pub Holds_rekeyed :
    (blocks pairs : List (List ℕ × List ℕ)) (key key' bytes : List ℕ)
    → Holds (blocks ++ (key, bytes) ∷ []) pairs
    → Holds (blocks ++ (key', bytes) ∷ []) pairs
unfolding Holds
Holds_rekeyed [] pairs key key' bytes held = held
Holds_rekeyed ((k, x) ∷ blocks) pairs key key' bytes (own, rest, b, split, e, same, held) =
    (own, rest, b, split, e, same, Holds_rekeyed blocks rest key key' bytes held)

reached {ℓ κ} :
    {A : Type ℓ} {B : Type κ} (m : Outcome A) (f : A → Outcome B) (b : B) (P : Type 0)
    → ((a : A) → m ≡ done a → f a ≡ done b → P)
    → (m >>= f) ≡ done b
    → P
reached (done a) f b P h e = h a refl e
reached refused f b P h e = absurd (cc e)
reached fault f b P h e = absurd (cc e)

done_pair : {a b : BlockBuilder} → done a ≡ done b → a ≡ b
done_pair e = cc

pub filled-append :
    (pairs : List (List ℕ × List ℕ)) (b b₁ b₂ : BlockBuilder) (key value : List ℕ)
    → filled pairs b ≡ done b₁
    → BlockBuilder.add k_block_restart_interval key value b₁ ≡ done b₂
    → filled (pairs ++ (key, value) ∷ []) b ≡ done b₂
unfolding filled
filled-append [] b b₁ b₂ key value e added = rw (done_pair e, added) refl
filled-append ((k, v) ∷ pairs) b b₁ b₂ key value e added =
    reached (BlockBuilder.add k_block_restart_interval k v b) (filled pairs) b₁ _
      (λ b' added' e'. rw added' (filled-append pairs b' b₁ b₂ key value e' added)) e

length-whole_entry :
    (a e c d f g : List ℕ) → 1 ≤ length e → 1 ≤ length (((((a ++ e) ++ c) ++ d) ++ f) ++ g)
length-whole_entry a e c d f g some_bytes = omega (
  arith,
  length-append ((((a ++ e) ++ c) ++ d) ++ f) g,
  length-append (((a ++ e) ++ c) ++ d) f,
  length-append ((a ++ e) ++ c) d,
  length-append (a ++ e) c,
  length-append a e,
)

add_shared_grows :
    (shared : ℕ) (key value : List ℕ) (b b' : BlockBuilder)
    → add_shared shared key value b ≡ done b'
    → 1 ≤ length b'.buffer
unfolding add_shared put_varint32
add_shared_grows shared key value b b' e =
    let non_shared = length key - shared in
    let delta = take non_shared (drop shared key) in
    elim (Bool-cases (same_bytes (take shared b.last_key ++ delta) key)) [
      | inl same ↦
          let some_bytes =
            length-whole_entry b.buffer (encode_varint32 (shared % 2 ^ 32))
              (encode_varint32 (non_shared % 2 ^ 32)) (encode_varint32 (length value % 2 ^ 32))
              delta value (encode_varint32_shape (shared % 2 ^ 32) (omega arith)).0 in
          let e' = simp same at e in
          subst (λ (x : BlockBuilder). 1 ≤ length x.buffer) (done_pair e') some_bytes
      | inr other ↦ absurd (cc (simp other at e))
    ]

add_grows :
    (key value : List ℕ) (b b' : BlockBuilder)
    → BlockBuilder.add k_block_restart_interval key value b ≡ done b'
    → 1 ≤ length b'.buffer
unfolding BlockBuilder.add
add_grows key value b b' e = elim (Bool-cases (may_add k_block_restart_interval key b)) [
  | inr refuses ↦ absurd (cc (simp refuses at e))
  | inl may ↦ elim (Bool-cases (ltb b.counter k_block_restart_interval)) [
    | inl more ↦
        add_shared_grows (common_prefix b.last_key key) key value b b' (simp (may, more) at e)
    | inr full ↦ add_shared_grows 0 key value _ b' (simp (may, full) at e)
  ]
]

filled_grows :
    (pairs : List (List ℕ × List ℕ)) (b b' : BlockBuilder)
    → filled pairs b ≡ done b'
    → 1 ≤ length b.buffer
    → 1 ≤ length b'.buffer
unfolding filled
filled_grows [] b b' e some_bytes =
    subst (λ (x : BlockBuilder). 1 ≤ length x.buffer) (done_pair e) some_bytes
filled_grows ((key, value) ∷ pairs) b b' e some_bytes =
    reached (BlockBuilder.add k_block_restart_interval key value b) (filled pairs) b' _
      (λ b₁ added e'. filled_grows pairs b₁ b' e' (add_grows key value b b₁ added)) e

-- A data block that is empty holds no entries.
pub filled_empty :
    (pairs : List (List ℕ × List ℕ)) (b : BlockBuilder)
    → filled pairs new_builder ≡ done b
    → (length b.buffer == 0) ≡ true
    → pairs ≡ []
unfolding filled
filled_empty [] b e empty = refl
filled_empty ((key, value) ∷ pairs) b e empty =
    reached (BlockBuilder.add k_block_restart_interval key value new_builder) (filled pairs) b _
      (λ b₁ added e'.
        let some_bytes = filled_grows pairs b₁ b e' (add_grows key value new_builder b₁ added) in
        let none_there : length b.buffer ≡ 0 = (==_iff (length b.buffer) 0).0 empty in
        absurd (omega (arith, some_bytes, none_there)))
      e
