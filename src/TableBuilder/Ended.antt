-- ===== src/TableBuilder/Ended.antt =====
-- What Finish of table/table_builder.cpp leaves at the end of the file.
use yangkv_v.Base.{
  ℕ, ◌%◌, ◌^◌, ◌<◌, ◌≡◌, ap, ◌∙◌, List, [], ◌++◌, length, true, Bool-cases, inl, inr, arith,
}
use yangkv_v.Base.Outcome.{done}
use yangkv_v.BlockBuilder.{BlockBuilder, new_builder}
use yangkv_v.Env.Buffer.{contents}
use yangkv_v.Format.{Footer, encode_footer}
use yangkv_v.Status.{is_ok}
use yangkv_v.TableBuilder.{
  TableBuilder, write_block, handle_at, flush, index_last, write_index, finish_closed, finish,
  file_size,
}
use yangkv_v.TableBuilder.Counted.{IsCounted, length-block}
use yangkv_v.TableBuilder.Whole.{IsWhole, IsFlushed, IsFlushed-IsIndexed, flush-IsFlushed}
use yangkv_v.TableBuilder.Held.{Holds}
use yangkv_v.TableBuilder.Blocks.{stored, laid, entries, IsIndexed, Lists}
use yangkv_v.TableBuilder.Returned.{
  Returns, Returns_mono, Returns-on_built, Fine, Returns-when_ok, write_block-Returns,
}
use yangkv_v.TableBuilder.Stored.{Tail, index_last-Returns, write_index-Tail}
use yangkv_v.BlockBuilder

-- What Finish leaves in the file.
pub record Laid (pairs : List (List ℕ × List ℕ)) (r' : TableBuilder) : Type 0 where
  pub blocks : List (List ℕ × List ℕ)
  pub index : BlockBuilder
  pub code : List ℕ
  pub footer : Footer
  pub listed : entries 0 blocks new_builder ≡ done index
  pub held : Holds blocks pairs
  pub encoded : encode_footer [] footer ≡ done code
  pub metaindex_at : footer.metaindex_handle ≡ record {
    offset = length (laid blocks) % 2 ^ 64;
    size = length (BlockBuilder.finish new_builder).buffer;
  }
  pub index_at : footer.index_handle ≡ record {
    offset = length (laid blocks ++ stored (BlockBuilder.finish new_builder).buffer) % 2 ^ 64;
    size = length (BlockBuilder.finish index).buffer;
  }
  pub whole :
      contents r'.file
      ≡ ((laid blocks ++ stored (BlockBuilder.finish new_builder).buffer)
          ++ stored (BlockBuilder.finish index).buffer)
        ++ code
  pub size : r'.offset ≡ length (contents r'.file) % 2 ^ 64

-- The metaindex block stands behind the data blocks.
abbrev Before : List (List ℕ × List ℕ) → TableBuilder → TableBuilder → Type 0
Before pairs r r₁ =
    IsCounted r₁
    × (contents r₁.file ≡ contents r.file ++ stored (BlockBuilder.finish new_builder).buffer)
    × IsIndexed (contents r.file) pairs r₁

Tail-Laid :
    (pairs : List (List ℕ × List ℕ)) (r r₂ : TableBuilder)
    → IsCounted r
    → IsCounted r₂
    → contents r₂.file ≡ contents r.file ++ stored (BlockBuilder.finish new_builder).buffer
    → Lists (contents r.file) pairs r₂.index_block
    → (r₃ : TableBuilder) → Fine (Tail (handle_at new_builder r) r₂.index_block r₂) r₃
    → Fine (Laid pairs) r₃
Tail-Laid pairs r r₂ c c₂ added (blocks, listed, (there, held)) r₃ h = λ fine.
    let none_there = (BlockBuilder.finish new_builder).buffer in
    let (code, encoded, whole, size) = h fine in
    let added' : contents r₂.file ≡ laid blocks ++ stored none_there =
      added ∙ ap (λ (l : List ℕ). l ++ stored none_there) there in
    record {
      blocks = blocks;
      index = r₂.index_block;
      code = code;
      footer = record {
        metaindex_handle = handle_at new_builder r;
        index_handle = handle_at r₂.index_block r₂;
      };
      listed = listed;
      held = held;
      encoded = encoded;
      metaindex_at =
          ap (λ (o : ℕ). record { offset = o; size = length none_there })
            (c.counts ∙ ap (λ (l : List ℕ). length l % 2 ^ 64) there);
      index_at =
          ap
            (λ (o : ℕ). record {
              offset = o;
              size = length (BlockBuilder.finish r₂.index_block).buffer;
            })
            (c₂.counts ∙ ap (λ (l : List ℕ). length l % 2 ^ 64) added');
      whole =
          whole
          ∙ ap (λ (l : List ℕ). (l ++ stored (BlockBuilder.finish r₂.index_block).buffer) ++ code)
              added';
      size = size;
    }

finish_closed-Laid :
    (pairs : List (List ℕ × List ℕ)) (r : TableBuilder)
    → Fine (IsFlushed pairs) r
    → Returns (finish_closed r) (Fine (Laid pairs))
unfolding finish_closed
finish_closed-Laid pairs r c = elim (Bool-cases (is_ok r.status)) [
  | inr failed ↦ simp failed (λ fine. absurd (cc fine))
  | inl fine ↦
      let none_there = (BlockBuilder.finish new_builder).buffer in
      let (c', indexed) = IsFlushed-IsIndexed pairs r (c fine) in
      simp fine (
        Returns-when_ok (write_block new_builder r) _ (Before pairs r) (Laid pairs)
          (write_block-Returns new_builder r (Before pairs r) c'.small (λ f added small. (
            record {
              counts =
                  length-block (contents r.file) none_there 0 r.offset (contents f) added c'.counts;
              small = small;
            },
            added,
            indexed,
          )))
          (λ r₁ fine₁ (c₁, added, indexed₁).
            Returns-on_built (index_last r₁) _
              (λ r₂.
                IsCounted r₂
                × (contents r₂.file ≡ contents r₁.file)
                × Lists (contents r.file) pairs r₂.index_block)
              (Fine (Laid pairs)) (index_last-Returns (contents r.file) pairs r₁ c₁ indexed₁)
              (λ r₂ (c₂, same, listed).
                Returns_mono (write_index (handle_at new_builder r) r₂)
                  (Fine (Tail (handle_at new_builder r) r₂.index_block r₂)) (Fine (Laid pairs))
                  (Tail-Laid pairs r r₂ c' c₂ (same ∙ added) listed)
                  (write_index-Tail (handle_at new_builder r) r₂ c₂))))
]

pub finish-Laid :
    (pairs : List (List ℕ × List ℕ)) (r : TableBuilder)
    → Fine (IsWhole pairs) r
    → Returns (finish r) (Fine (Laid pairs))
unfolding finish
finish-Laid pairs r c =
    Returns-on_built (flush r) _ (Fine (IsFlushed pairs)) (Fine (Laid pairs))
      (flush-IsFlushed pairs r c)
      (λ r₁ c₁.
        finish_closed-Laid pairs (record r₁ { closed = true })
          (λ fine.
            let ((c', written, waiting, all, made, indexed), none_there) = c₁ fine in
            (
              (
                record { counts = c'.counts; small = c'.small },
                written,
                waiting,
                all,
                made,
                indexed,
              ),
              none_there,
            )))

pub size_small :
    (pairs : List (List ℕ × List ℕ)) (r : TableBuilder)
    → length (contents r.file) < 2 ^ 63
    → Laid pairs r
    → file_size r ≡ length (contents r.file)
size_small pairs r small l = omega (arith, l.size)
