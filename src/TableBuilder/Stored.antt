-- ===== src/TableBuilder/Stored.antt =====
-- Blocks in the file of a table builder, and the last steps of Finish of table/table_builder.cpp.
use yangkv_v.Base.{
  ℕ, ◌+◌, ◌%◌, ◌^◌, ◌<◌, ◌≡◌, refl, sym, ap, ◌∙◌, List, [], ◌++◌, length, length-append, take, drop,
  take_front, drop_front, Bool-cases, inl, inr, arith, le→not_ltb, ==_refl,
}
use yangkv_v.Base.Outcome.{Outcome, done, refused, fault}
use yangkv_v.BlockBuilder.{BlockBuilder, new_builder}
use yangkv_v.Coding.{encode_fixed32}
use yangkv_v.Env.{WritableFile}
use yangkv_v.Env.Buffer.{contents}
use yangkv_v.Format.{BlockHandle, encode_footer}
use yangkv_v.Format.Read.{read_block}
use yangkv_v.Log.{Pread, ReadsAll}
use yangkv_v.Status.{ok}
use yangkv_v.TableBuilder.{
  TableBuilder, trailer, write_block, handle_at, index_last, with_footer, write_index,
}
use yangkv_v.TableBuilder.Counted.{IsCounted, length-block}
use yangkv_v.TableBuilder.Whole.{put_index-Returns}
use yangkv_v.Comparator.{find_short_successor}
use yangkv_v.TableBuilder.Blocks.{stored, IsIndexed, IsIndexed-free, Lists}
use yangkv_v.TableBuilder.Returned.{
  Returns, Returns-on_built, Fine, Returns-when_ok, Returns-then_append, write_block-Returns,
}
use yangkv_v.BlockBuilder

pub done_same : {a b : List ℕ} → done a ≡ done b → a ≡ b
done_same e = cc

-- ReadBlock finds a block where it was written.
pub read_block-stored :
    (pread : Pread) (front bytes back : List ℕ)
    → ReadsAll pread
    → length bytes + 5 < 2 ^ 64
    → read_block pread
        (front ++ (stored bytes ++ back))
        (record { offset = length front; size = length bytes })
      ≡ done bytes
unfolding read_block encode_fixed32
read_block-stored pread front bytes back reads fits =
    let total : (length bytes + 5) % 2 ^ 64 ≡ length bytes + 5 = omega arith in
    let size : length (stored bytes) ≡ length bytes + 5 =
      omega (arith, length-append bytes (trailer 0)) in
    let got : take (length bytes + 5) (drop (length front) (front ++ (stored bytes ++ back)))
        ≡ stored bytes =
      rw (drop_front (length front) front (stored bytes ++ back) refl)
        (take_front (length bytes + 5) (stored bytes) back (sym size)) in
    rw
      (
        total,
        reads (front ++ (stored bytes ++ back)) (length front) (length bytes + 5),
        got,
        size,
        le→not_ltb (length bytes + 5) (length bytes + 5) (omega arith),
        ==_refl (length bytes + 5),
        drop_front (length bytes) bytes (trailer 0) refl,
        take_front (length bytes) bytes (trailer 0) refl,
      )
      refl

with_footer-Returns :
    (o : Outcome (List ℕ)) (r : TableBuilder) (P : TableBuilder → Type 0)
    → IsCounted r
    → ((code : List ℕ) (f : WritableFile)
        → o ≡ done code
        → contents f ≡ contents r.file ++ code
        → P (record r { file = f; status = ok; offset = (r.offset + length code) % 2 ^ 64 }))
    → Returns (with_footer o r) (Fine P)
with_footer-Returns (done code) r P c h =
    Returns-then_append code r _ P c.small (λ f added small. λ fine. h code f refl added)
with_footer-Returns refused r P c h = tt
with_footer-Returns fault r P c h = tt

-- The index block and the footer behind what the file had.
abbrev pub Tail : BlockHandle → BlockBuilder → TableBuilder → TableBuilder → Type 0
Tail metaindex b r r' =
    (code : List ℕ) × (encode_footer []
        (record { metaindex_handle = metaindex; index_handle = handle_at b r })
      ≡ done code)
    × (contents r'.file ≡ (contents r.file ++ stored (BlockBuilder.finish b).buffer) ++ code)
    × (r'.offset ≡ length (contents r'.file) % 2 ^ 64)

pub write_index-Tail :
    (metaindex : BlockHandle) (r : TableBuilder)
    → IsCounted r
    → Returns (write_index metaindex r) (Fine (Tail metaindex r.index_block r))
unfolding write_index
write_index-Tail metaindex r c =
    let bytes = (BlockBuilder.finish r.index_block).buffer in
    Returns-when_ok _ _ (λ r₁. IsCounted r₁ × (contents r₁.file ≡ contents r.file ++ stored bytes))
      _
      (Returns-on_built (write_block r.index_block r) _
        (Fine (λ r₁. IsCounted r₁ × (contents r₁.file ≡ contents r.file ++ stored bytes))) _
        (write_block-Returns r.index_block r _ c.small (λ f added small. (
          record {
            counts = length-block (contents r.file) bytes 0 r.offset (contents f) added c.counts;
            small = small;
          },
          added,
        )))
        (λ r₁ h. λ fine.
          let (c₁, added) = h fine in (record { counts = c₁.counts; small = c₁.small }, added)))
      (λ r₁ fine (c₁, added). with_footer-Returns _ r₁ _ c₁ (λ code f encoded added'. (
        code,
        encoded,
        added' ∙ ap (λ (l : List ℕ). l ++ code) added,
        omega (arith, c₁.counts, ap (length {A = ℕ}) added', length-append (contents r₁.file) code),
      )))

-- Behind the last entry the index block lists all data blocks.
pub index_last-Returns :
    (content : List ℕ) (pairs : List (List ℕ × List ℕ)) (r : TableBuilder)
    → IsCounted r
    → IsIndexed content pairs r
    → Returns (index_last r) (λ r'.
      IsCounted r' × (contents r'.file ≡ contents r.file) × Lists content pairs r'.index_block)
unfolding index_last
index_last-Returns content pairs r c indexed = elim (Bool-cases r.pending_index_entry) [
  | inr free ↦ simp free (c, refl, IsIndexed-free content pairs r free indexed)
  | inl pending ↦ simp pending (
      put_index-Returns (find_short_successor r.last_key) content pairs r
        (λ r'.
          IsCounted r' × (contents r'.file ≡ contents r.file) × Lists content pairs r'.index_block)
        pending indexed (λ b listed. (record { counts = c.counts; small = c.small }, refl, listed)))
]
