-- ===== src/TableBuilder/Whole.antt =====
-- The data blocks, the index block and the bytes of table/table_builder.cpp while entries are added.
use yangkv_v.Base.{
  ℕ, ◌%◌, ◌^◌, ◌≡◌, refl, sym, ap, ◌∙◌, List, [], ◌∷◌, ◌++◌, length, append-nil, append_assoc, true,
  false, Bool-cases, inl, inr, not, ◌&&◌, ltb, leb,
}
use yangkv_v.Base.Outcome.{Outcome, done, refused, fault}
use yangkv_v.BlockBuilder.{is_gt, BlockBuilder, new_builder, current_size_estimate}
use yangkv_v.Env.Buffer.{contents}
use yangkv_v.Map.{key_compare}
use yangkv_v.Status.{is_ok}
use yangkv_v.TableBuilder.{
  TableBuilder, on_built, write_block, k_block_size, flush_block, flush, put_index, with_index,
  index_before, add_entry, with_data, flush_full, add, is_empty,
}
use yangkv_v.Comparator.{find_shortest_separator}
use yangkv_v.TableBuilder.Blocks.{
  stored, laid, placed_at, entries, laid-append, entries_more, Lists, IsIndexed, IsIndexed-free,
  Behind-free, Behind-pending,
}
use yangkv_v.TableBuilder.Held.{filled, filled-append, filled_empty, Holds-append, Holds_rekeyed}
use yangkv_v.TableBuilder.Counted.{IsCounted, length-block, Returns-flush}
use yangkv_v.TableBuilder.Returned.{
  Returns_mono, Fine, Returns, Returns-on_built, Returns-when_ok, write_block-Returns,
}
use mathlib.Core.Path.{subst}
use yangkv_v.BlockBuilder

-- Its bytes are data blocks, and the index has entries for them.
abbrev pub IsWhole : List (List ℕ × List ℕ) → TableBuilder → Type 0
IsWhole pairs r =
    IsCounted r
    × (written : List (List ℕ × List ℕ)) × (waiting : List (List ℕ × List ℕ)) × (pairs
        ≡ written ++ waiting)
    × (filled waiting new_builder ≡ done r.data_block)
    × IsIndexed (contents r.file) written r

-- The data block and its trailer stand behind the blocks before it.
abbrev Written : List (List ℕ × List ℕ) → List ℕ → TableBuilder → Type 0
Written blocks bytes r =
    IsCounted r
    × (entries 0 blocks new_builder ≡ done r.index_block)
    × (contents r.file ≡ laid blocks ++ stored bytes)

write_data :
    (r : TableBuilder) (blocks : List (List ℕ × List ℕ))
    → IsCounted r
    → entries 0 blocks new_builder ≡ done r.index_block
    → contents r.file ≡ laid blocks
    → Returns
        (write_block r.data_block r)
        (Fine (Written blocks (BlockBuilder.finish r.data_block).buffer))
write_data r blocks c indexed there =
    let bytes = (BlockBuilder.finish r.data_block).buffer in
    write_block-Returns r.data_block r (Written blocks bytes) c.small (λ f added small. (
      record {
        counts = length-block (contents r.file) bytes 0 r.offset (contents f) added c.counts;
        small = small;
      },
      indexed,
      added ∙ ap (λ (l : List ℕ). l ++ stored bytes) there,
    ))

-- Nothing waits for a data block of its own.
abbrev pub IsFlushed : List (List ℕ × List ℕ) → TableBuilder → Type 0
IsFlushed pairs r = IsWhole pairs r × (is_empty r.data_block ≡ true)

flush_block-IsFlushed :
    (pairs : List (List ℕ × List ℕ)) (r : TableBuilder)
    → r.pending_index_entry ≡ false
    → IsWhole pairs r
    → Returns (flush_block r) (Fine (IsFlushed pairs))
unfolding flush_block filled
flush_block-IsFlushed pairs r free (c, written, waiting, all, made, (blocks, indexed, behind)) =
    let bytes = (BlockBuilder.finish r.data_block).buffer in
    let (there, held) =
      Behind-free r.pending_index_entry r.pending_handle (contents r.file) blocks written free
        behind in
    let Pending : TableBuilder → Type 0 = λ r₁.
      Written blocks bytes r₁
      × (r₁.pending_handle ≡ placed_at (length (laid blocks)) bytes)
      × (r₁.data_block ≡ new_builder) in
    Returns-when_ok _ _ Pending (IsFlushed pairs)
      (Returns-on_built (write_block r.data_block r) _ (Fine (Written blocks bytes)) (Fine Pending)
        (write_data r blocks c indexed there)
        (λ r₁ h. λ fine.
          let (c₁, indexed₁, there₁) = h fine in
          (
            (record { counts = c₁.counts; small = c₁.small }, indexed₁, there₁),
            ap (λ (o : ℕ). record { offset = o; size = length bytes })
                (c.counts ∙ ap (λ (l : List ℕ). length l % 2 ^ 64) there),
            refl,
          )))
      (λ r₂ fine ((c₂, indexed₂, there₂), handle, fresh).
        Returns-flush (record r₂ { pending_index_entry = true }) (IsFlushed pairs) c₂.small
          (λ f kept small. (
            (
              record {
                counts = c₂.counts ∙ ap (λ (l : List ℕ). length l % 2 ^ 64) (sym kept);
                small = small;
              },
              written ++ waiting,
              [],
              all ∙ sym (append-nil (written ++ waiting)),
              ap (λ (b : BlockBuilder). done b) (sym fresh),
              (
                blocks,
                indexed₂,
                (
                  bytes,
                  kept ∙ there₂,
                  handle,
                  Holds-append blocks waiting written [] r.data_block held made,
                ),
              ),
            ),
            ap is_empty fresh,
          )))

pub flush-IsFlushed :
    (pairs : List (List ℕ × List ℕ)) (r : TableBuilder)
    → Fine (IsWhole pairs) r
    → Returns (flush r) (Fine (IsFlushed pairs))
unfolding flush
flush-IsFlushed pairs r c = elim (Bool-cases r.closed) [
  | inl closed ↦ simp closed tt
  | inr open' ↦ elim (Bool-cases (is_ok r.status)) [
    | inr failed ↦ simp (open', failed) (λ fine. absurd (cc fine))
    | inl fine ↦ elim (Bool-cases (is_empty r.data_block)) [
      | inl none_there ↦ simp (open', fine, none_there) (λ e. (c fine, refl))
      | inr some_bytes ↦ elim (Bool-cases r.pending_index_entry) [
        | inl pending ↦ simp (open', fine, some_bytes, pending) tt
        | inr free ↦
            simp (open', fine, some_bytes, free) (flush_block-IsFlushed pairs r free (c fine))
      ]
    ]
  ]
]

-- All entries are in the data blocks of the file.
pub IsFlushed-IsIndexed :
    (pairs : List (List ℕ × List ℕ)) (r : TableBuilder)
    → IsFlushed pairs r
    → IsCounted r × IsIndexed (contents r.file) pairs r
IsFlushed-IsIndexed pairs r ((c, written, waiting, all, made, indexed), none_there) =
    let none_waits = filled_empty waiting r.data_block made none_there in
    let same : written ≡ pairs =
      sym
        (all ∙ ap (λ (l : List (List ℕ × List ℕ)). written ++ l) none_waits ∙ append-nil written) in
    (c, subst (λ (l : List (List ℕ × List ℕ)). IsIndexed (contents r.file) l r) same indexed)

Returns-with_index :
    (o : Outcome BlockBuilder) (r : TableBuilder) (P : TableBuilder → Type 0)
    → ((b : BlockBuilder) → o ≡ done b → P (record r { index_block = b }))
    → Returns (with_index o r) P
Returns-with_index (done b) r P h = h b refl
Returns-with_index refused r P h = tt
Returns-with_index fault r P h = tt

-- The entry of the block that waits for it.
pub put_index-Returns :
    (short content : List ℕ) (pairs : List (List ℕ × List ℕ)) (r : TableBuilder)
    (P : TableBuilder → Type 0)
    → r.pending_index_entry ≡ true
    → IsIndexed content pairs r
    → ((b : BlockBuilder)
        → Lists content pairs b
        → P (record r { last_key = short; pending_index_entry = false; index_block = b }))
    → Returns (put_index short r) P
unfolding put_index
put_index-Returns short content pairs r P pending (blocks, indexed, behind) h =
    let (bytes, there, handle, held) =
      Behind-pending r.pending_index_entry r.pending_handle content blocks pairs pending behind in
    Returns-with_index _ _ P (λ b added. h b (
      blocks ++ (short, bytes) ∷ [],
      entries_more blocks r.index_block b r.pending_handle short bytes indexed handle added,
      (
        there ∙ sym (laid-append blocks short bytes),
        Holds_rekeyed blocks pairs [] short bytes held,
      ),
    ))

Returns-with_data :
    (o : Outcome BlockBuilder) (r : TableBuilder) (P : TableBuilder → Type 0)
    → ((b : BlockBuilder) → o ≡ done b → P (record r { data_block = b }))
    → Returns (with_data o r) P
Returns-with_data (done b) r P h = h b refl
Returns-with_data refused r P h = tt
Returns-with_data fault r P h = tt

index_before-IsWhole :
    (key : List ℕ) (pairs : List (List ℕ × List ℕ)) (r : TableBuilder)
    → IsWhole pairs r
    → Returns (index_before key r) (IsWhole pairs)
unfolding index_before
index_before-IsWhole key pairs r (c, written, waiting, all, made, indexed) =
    elim (Bool-cases r.pending_index_entry) [
      | inr free ↦
          simp free (
            c,
            written,
            waiting,
            all,
            made,
            IsIndexed-free (contents r.file) written r free indexed,
          )
      | inl pending ↦ elim (Bool-cases (is_empty r.data_block)) [
        | inr some_bytes ↦ simp (pending, some_bytes) tt
        | inl none_there ↦
            simp (pending, none_there)
              (put_index-Returns (find_shortest_separator r.last_key key) (contents r.file) written
                r (IsWhole pairs) pending indexed
                (λ b listed. (
                  record { counts = c.counts; small = c.small },
                  written,
                  waiting,
                  all,
                  made,
                  listed,
                )))
      ]
    ]

add_entry-IsWhole :
    (key value : List ℕ) (pairs : List (List ℕ × List ℕ)) (r : TableBuilder)
    → IsWhole pairs r
    → Returns (add_entry key value r) (IsWhole (pairs ++ (key, value) ∷ []))
unfolding add_entry
add_entry-IsWhole key value pairs r (c, written, waiting, all, made, indexed) =
    Returns-with_data _ _ (IsWhole (pairs ++ (key, value) ∷ [])) (λ b added. (
      record { counts = c.counts; small = c.small },
      written,
      waiting ++ (key, value) ∷ [],
      ap (λ (l : List (List ℕ × List ℕ)). l ++ (key, value) ∷ []) all
          ∙ append_assoc written waiting ((key, value) ∷ []),
      filled-append waiting new_builder r.data_block b key value made added,
      indexed,
    ))

flush_full-IsWhole :
    (pairs : List (List ℕ × List ℕ)) (r : TableBuilder)
    → IsWhole pairs r
    → Returns (flush_full r) (Fine (IsWhole pairs))
flush_full-IsWhole pairs r c =
    elim (Bool-cases (leb k_block_size (current_size_estimate r.data_block))) [
      | inl large ↦ simp large (
          Returns_mono (flush r) (Fine (IsFlushed pairs)) (Fine (IsWhole pairs))
            (λ r' h. λ fine. (h fine).0) (flush-IsFlushed pairs r (λ fine. c)))
      | inr small ↦ simp small (λ fine. c)
    ]

added-IsWhole :
    (key value : List ℕ) (pairs : List (List ℕ × List ℕ)) (r : TableBuilder)
    → IsWhole pairs r
    → Returns
        (on_built (index_before key r) (λ r₁. on_built (add_entry key value r₁) flush_full))
        (Fine (IsWhole (pairs ++ (key, value) ∷ [])))
added-IsWhole key value pairs r c =
    let more = pairs ++ (key, value) ∷ [] in
    Returns-on_built (index_before key r) _ (IsWhole pairs) (Fine (IsWhole more))
      (index_before-IsWhole key pairs r c)
      (λ r₁ c₁.
        Returns-on_built (add_entry key value r₁) flush_full (IsWhole more) (Fine (IsWhole more))
          (add_entry-IsWhole key value pairs r₁ c₁) (flush_full-IsWhole more))

-- Where the file is whole while the status is ok, it is so behind an Add and a Flush that return.
pub add-IsWhole :
    (key value : List ℕ) (pairs : List (List ℕ × List ℕ)) (r : TableBuilder)
    → Fine (IsWhole pairs) r
    → Returns (add key value r) (Fine (IsWhole (pairs ++ (key, value) ∷ [])))
unfolding add
add-IsWhole key value pairs r c = elim (Bool-cases r.closed) [
  | inl closed ↦ simp closed tt
  | inr open' ↦ elim (Bool-cases (is_ok r.status)) [
    | inr failed ↦ simp (open', failed) (λ fine. absurd (cc fine))
    | inl fine ↦
        elim (Bool-cases (ltb 0 r.num_entries && not (is_gt (key_compare key r.last_key)))) [
          | inl falls ↦ simp (open', fine, falls) tt
          | inr rises ↦ simp (open', fine, rises) (added-IsWhole key value pairs r (c fine))
        ]
  ]
]
