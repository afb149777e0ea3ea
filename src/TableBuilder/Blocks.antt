-- ===== src/TableBuilder/Blocks.antt =====
-- The data blocks in the file of table/table_builder.cpp, and the index block that says where they
-- stand.
use yangkv_v.Base.{
  ℕ, ◌+◌, ◌%◌, ◌^◌, ◌≡◌, refl, sym, ap, ◌∙◌, Bool, true, false, List, [], ◌∷◌, ◌++◌, length,
  length-append, append_assoc, append-nil, arith,
}
use yangkv_v.Base.Outcome.{Outcome, done, refused, fault, ◌>>=◌}
use yangkv_v.BlockBuilder.{BlockBuilder, new_builder}
use yangkv_v.Coding.{encode_fixed32}
use yangkv_v.Format.{BlockHandle, encode_handle}
use yangkv_v.TableBuilder.{TableBuilder, trailer}
use yangkv_v.TableBuilder.Held.{Holds}
use mathlib.Core.Path.{subst}
use yangkv_v.BlockBuilder

-- A block with its trailer.
abbrev pub stored : List ℕ → List ℕ
stored bytes = bytes ++ trailer 0

-- Data blocks as they stand one behind the other, each with the key that the index gives it.
unfoldable pub laid : List (List ℕ × List ℕ) → List ℕ
laid [] = []
laid ((key, bytes) ∷ blocks) = stored bytes ++ laid blocks

abbrev pub placed_at : ℕ → List ℕ → BlockHandle
placed_at o bytes = record { offset = o % 2 ^ 64; size = length bytes }

-- An index block to which an entry for each of the blocks is added, where the first stands at `o`.
unfoldable pub entries : ℕ → List (List ℕ × List ℕ) → BlockBuilder → Outcome BlockBuilder
entries o [] b = done b
entries o ((key, bytes) ∷ blocks) b = do
  code ← encode_handle [] (placed_at o bytes)
  b' ← BlockBuilder.add 1 key code b
  entries (o + (length bytes + 5)) blocks b'

pub length-stored : (bytes : List ℕ) → length (stored bytes) ≡ length bytes + 5
unfolding encode_fixed32
length-stored bytes = omega (arith, length-append bytes (trailer 0))

pub laid-append :
    (blocks : List (List ℕ × List ℕ)) (key bytes : List ℕ)
    → laid (blocks ++ (key, bytes) ∷ []) ≡ laid blocks ++ stored bytes
unfolding laid
laid-append [] key bytes = append-nil (stored bytes)
laid-append ((k, x) ∷ blocks) key bytes =
    ap (λ (l : List ℕ). stored x ++ l) (laid-append blocks key bytes)
    ∙ sym (append_assoc (stored x) (laid blocks) (stored bytes))

then_same {ℓ κ} :
    {A : Type ℓ} {B : Type κ} (m : Outcome A) (f g : A → Outcome B) (b : B) (c : Outcome B)
    → ((a : A) → f a ≡ done b → g a ≡ c)
    → (m >>= f) ≡ done b
    → (m >>= g) ≡ c
then_same (done a) f g b c h e = h a e
then_same refused f g b c h e = absurd (cc e)
then_same fault f g b c h e = absurd (cc e)

done_builder : {a b : BlockBuilder} → done a ≡ done b → a ≡ b
done_builder e = cc

-- One block more.
pub entries-append :
    (o : ℕ) (blocks : List (List ℕ × List ℕ)) (b b' : BlockBuilder) (key bytes : List ℕ)
    → entries o blocks b ≡ done b'
    → entries o (blocks ++ (key, bytes) ∷ []) b
      ≡ entries (o + length (laid blocks)) ((key, bytes) ∷ []) b'
unfolding entries laid
entries-append o [] b b' key bytes e =
    let here : o + 0 ≡ o = omega arith in rw (done_builder e, here) refl
entries-append o ((k, x) ∷ blocks) b b' key bytes e =
    then_same (encode_handle [] (placed_at o x))
      (λ code. BlockBuilder.add 1 k code b >>= entries (o + (length x + 5)) blocks)
      (λ code.
        BlockBuilder.add 1 k code b >>= entries (o + (length x + 5)) (blocks ++ (key, bytes) ∷ []))
      b' _
      (λ code e₁.
        then_same (BlockBuilder.add 1 k code b) (entries (o + (length x + 5)) blocks)
          (entries (o + (length x + 5)) (blocks ++ (key, bytes) ∷ [])) b' _
          (λ b₁ e₂.
            entries-append (o + (length x + 5)) blocks b₁ b' key bytes e₂
            ∙ ap (λ (n : ℕ). entries n ((key, bytes) ∷ []) b')
                (omega (arith, length-append (stored x) (laid blocks), length-stored x)))
          e₁)
      e

-- The entry of a block that stands behind the others.
pub entries_more :
    (blocks : List (List ℕ × List ℕ)) (b b' : BlockBuilder) (h : BlockHandle) (key bytes : List ℕ)
    → entries 0 blocks new_builder ≡ done b
    → h ≡ placed_at (length (laid blocks)) bytes
    → (encode_handle [] h >>= (λ code. BlockBuilder.add 1 key code b)) ≡ done b'
    → entries 0 (blocks ++ (key, bytes) ∷ []) new_builder ≡ done b'
unfolding entries
entries_more blocks b b' h key bytes e there added =
    let o = 0 + length (laid blocks) in
    let at : h ≡ placed_at o bytes = there ∙ ap (λ (n : ℕ). placed_at n bytes) (omega arith) in
    entries-append 0 blocks new_builder b key bytes e
    ∙ then_same (encode_handle [] (placed_at o bytes)) (λ code. BlockBuilder.add 1 key code b)
        (λ code. BlockBuilder.add 1 key code b >>= entries (o + (length bytes + 5)) []) b' (done b')
        (λ code e'. rw e' refl)
        (subst (λ x. (encode_handle [] x >>= (λ code. BlockBuilder.add 1 key code b)) ≡ done b') at
          added)

-- The bytes are the blocks, which hold the pairs.
abbrev pub AreAll : List ℕ → List (List ℕ × List ℕ) → List (List ℕ × List ℕ) → Type 0
AreAll content blocks pairs = (content ≡ laid blocks) × Holds blocks pairs

-- The file has the blocks, and the last one may wait for its entry; the blocks hold the pairs.
abbrev pub Behind :
    Bool → BlockHandle → List ℕ → List (List ℕ × List ℕ) → List (List ℕ × List ℕ) → Type 0
Behind true h content blocks pairs =
    (bytes : List ℕ) × (content ≡ laid blocks ++ stored bytes)
    × (h ≡ placed_at (length (laid blocks)) bytes)
    × Holds (blocks ++ ([], bytes) ∷ []) pairs
Behind false h content blocks pairs = AreAll content blocks pairs

-- The bytes are the data blocks, with an entry of the index for each of them.
abbrev pub IsIndexed : List ℕ → List (List ℕ × List ℕ) → TableBuilder → Type 0
IsIndexed content pairs r =
    (blocks : List (List ℕ × List ℕ)) × (entries 0 blocks new_builder ≡ done r.index_block)
    × Behind r.pending_index_entry r.pending_handle content blocks pairs

pub Behind-free :
    (p : Bool) (h : BlockHandle) (content : List ℕ) (blocks pairs : List (List ℕ × List ℕ))
    → p ≡ false
    → Behind p h content blocks pairs
    → AreAll content blocks pairs
Behind-free false h content blocks pairs e there = there
Behind-free true h content blocks pairs e there = absurd (cc e)

pub Behind-pending :
    (p : Bool) (h : BlockHandle) (content : List ℕ) (blocks pairs : List (List ℕ × List ℕ))
    → p ≡ true
    → Behind p h content blocks pairs
    → Behind true h content blocks pairs
Behind-pending true h content blocks pairs e there = there
Behind-pending false h content blocks pairs e there = absurd (cc e)

-- The bytes are data blocks that hold the pairs, and the index block has an entry for each of them.
abbrev pub Lists : List ℕ → List (List ℕ × List ℕ) → BlockBuilder → Type 0
Lists content pairs b =
    (blocks : List (List ℕ × List ℕ)) × (entries 0 blocks new_builder ≡ done b)
    × AreAll content blocks pairs

pub IsIndexed-free :
    (content : List ℕ) (pairs : List (List ℕ × List ℕ)) (r : TableBuilder)
    → r.pending_index_entry ≡ false
    → IsIndexed content pairs r
    → Lists content pairs r.index_block
IsIndexed-free content pairs r free (blocks, indexed, behind) = (
  blocks,
  indexed,
  Behind-free r.pending_index_entry r.pending_handle content blocks pairs free behind,
)
