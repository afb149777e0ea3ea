-- ===== src/TableBuilder/Rising.antt =====
-- Add of table/table_builder.cpp on keys that rise.
use yangkv_v.Base.{
  not_leb→lt, ℕ, ◌+◌, ◌^◌, ◌≤◌, ◌<◌, ◌≡◌, inl, inr, refl, ap, ◌∙◌, List, length, true, false, not,
  ◌&&◌, ltb, leb, arith, Bool-cases,
}
use yangkv_v.TableBuilder.Ensures.{Ensures_mono, Ensures, Ensures-on_built}
use yangkv_v.TableBuilder.{
  on_built, TableBuilder, built, k_block_size, flush_block, flush, flush_full, index_before,
  add_entry, add,
}
use yangkv_v.BlockBuilder.{is_gt, current_size_estimate}
use yangkv_v.BlockBuilder.Growth.{add-Grown}
use yangkv_v.Coding.{IsU32}
use yangkv_v.Map.{key_compare}
use yangkv_v.Map.Laws.{key_compare_flip_lt}
use yangkv_v.Status.{is_ok}
use yangkv_v.TableBuilder.Asserts.{IsWell, Comes, Frames, not_empty, flush_block-IsWell}
use yangkv_v.TableBuilder.Indexed.{IsReady, index_before-IsReady}

-- The builder behind an Add whose status was ok.
pub record Added (key : List ℕ) (r r' : TableBuilder) : Type 0 where
  pub well : IsWell k_block_size r'
  pub same_closed : r'.closed ≡ r.closed
  pub last : r'.last_key ≡ key
  pub count : r'.num_entries ≡ r.num_entries + 1
  pub offset : r'.offset ≤ r.offset + 2 ^ 35
  pub index_size :
      current_size_estimate r'.index_block ≤ current_size_estimate r.index_block + 2 ^ 33

-- The builder between the entry and the test of the size of the block.
record Holds (key : List ℕ) (r₀ r : TableBuilder) : Type 0 where
  well : IsWell (2 ^ 34) r
  fine : is_ok r.status ≡ true
  free : r.pending_index_entry ≡ false
  some_bytes : 1 ≤ length r.data_block.buffer
  same_closed : r.closed ≡ r₀.closed
  last : r.last_key ≡ key
  count : r.num_entries ≡ r₀.num_entries + 1
  offset : r.offset ≡ r₀.offset
  index_size : current_size_estimate r.index_block ≤ current_size_estimate r₀.index_block + 2 ^ 33

add_entry-Holds :
    (key value : List ℕ) (r₀ r : TableBuilder)
    → is_ok r₀.status ≡ true
    → IsU32 (length key)
    → IsU32 (length value)
    → IsReady key r₀ r
    → Ensures (add_entry key value r) (Holds key r₀)
unfolding add_entry
add_entry-Holds key value r₀ r fine k v ready =
    let (b, added, (still_open, last, some_bytes, grown)) =
      add-Grown 16 key value r.data_block (omega arith) ready.data_open ready.follows k v in
    rw added (record {
      well = record {
        data_open = still_open;
        index_open = ready.index_open;
        flushed = λ p. absurd (cc (p, ready.free));
        data_last = inr last;
        index_last = ready.index_follows;
        assigned = λ p. absurd (cc (p, ready.free));
        none_yet = λ z. absurd (omega (arith, z));
        data_size = omega (arith, grown, ready.data_size);
        short = k;
      };
      fine = ap is_ok ready.same_status ∙ fine;
      free = ready.free;
      some_bytes = some_bytes;
      same_closed = ready.same_closed;
      last = refl;
      count = ap (λ (n : ℕ). n + 1) ready.same_count;
      offset = ready.same_offset;
      index_size = ready.index_size;
    })

flush_full_now :
    (r : TableBuilder)
    → r.closed ≡ false
    → is_ok r.status ≡ true
    → 1 ≤ length r.data_block.buffer
    → r.pending_index_entry ≡ false
    → flush r ≡ flush_block r
unfolding flush
flush_full_now r open' fine some_bytes free =
    simp (open', fine, not_empty r.data_block some_bytes, free)

flush_full-Added :
    (key : List ℕ) (r₀ r : TableBuilder)
    → r₀.closed ≡ false
    → r₀.offset < 2 ^ 63
    → Holds key r₀ r
    → Ensures (flush_full r) (Added key r₀)
flush_full-Added key r₀ r open' room h =
    elim (Bool-cases (leb k_block_size (current_size_estimate r.data_block))) [
      | inr small ↦ simp small (record {
        well = record {
          data_open = h.well.data_open;
          index_open = h.well.index_open;
          flushed = h.well.flushed;
          data_last = h.well.data_last;
          index_last = h.well.index_last;
          assigned = h.well.assigned;
          none_yet = h.well.none_yet;
          data_size = not_leb→lt k_block_size (current_size_estimate r.data_block) small;
          short = h.well.short;
        };
        same_closed = h.same_closed;
        last = h.last;
        count = h.count;
        offset = omega (arith, h.offset);
        index_size = h.index_size;
      })
      | inl large ↦
          simp (large, flush_full_now r (h.same_closed ∙ open') h.fine h.some_bytes h.free)
            (Ensures_mono (flush_block r) (λ r'. IsWell k_block_size r' × Frames r (2 ^ 34 + 5) r')
              _
              (λ r' (well, f). record {
                well = well;
                same_closed = f.closed ∙ h.same_closed;
                last = f.last_key ∙ h.last;
                count = f.num_entries ∙ h.count;
                offset = omega (arith, f.offset, h.offset);
                index_size = rw f.index_block h.index_size;
              })
              (flush_block-IsWell (2 ^ 34) r (omega arith) (omega (arith, h.offset))
                (λ z. omega (arith, z, h.count)) h.fine h.free h.well))
    ]

rises :
    (key : List ℕ) (r : TableBuilder)
    → Comes key r
    → (ltb 0 r.num_entries && not (is_gt (key_compare key r.last_key))) ≡ false
rises key r (inl first) = rw first refl
rises key r (inr less) =
    rw (key_compare_flip_lt r.last_key key less)
      (elim (Bool-cases (ltb 0 r.num_entries)) [ inl e ↦ rw e refl | inr e ↦ rw e refl ])

add_now :
    (key value : List ℕ) (r : TableBuilder)
    → r.closed ≡ false
    → is_ok r.status ≡ true
    → Comes key r
    → add key value r
      ≡ on_built (index_before key r) (λ r₁. on_built (add_entry key value r₁) flush_full)
unfolding add
add_now key value r open' fine comes = simp (open', fine, rises key r comes)

-- On an open and well-formed table builder whose status is OK, below an offset of 2^63, Add with a
-- key that is the first or greater than the last, and lengths that fit 32 bits, fails no assertion,
-- also not where it gives the last block its entry in the index or flushes; where it returns, the
-- builder is well formed again, has the key as its last and one entry more.
pub add-Added :
    (key value : List ℕ) (r : TableBuilder)
    → IsWell k_block_size r
    → r.closed ≡ false
    → is_ok r.status ≡ true
    → r.offset < 2 ^ 63
    → Comes key r
    → IsU32 (length key)
    → IsU32 (length value)
    → Ensures (add key value r) (Added key r)
add-Added key value r w open' fine room comes k v = rw (add_now key value r open' fine comes) (
    Ensures-on_built (index_before key r) _ (IsReady key r) _ (index_before-IsReady key r w comes)
      (λ r₁ ready.
        Ensures-on_built (add_entry key value r₁) _ (Holds key r) _
          (add_entry-Holds key value r r₁ fine k v ready)
          (λ r₂. flush_full-Added key r r₂ open' room)))

-- A builder with another status takes nothing.
pub add_failed :
    (key value : List ℕ) (r : TableBuilder)
    → r.closed ≡ false
    → is_ok r.status ≡ false
    → add key value r ≡ built r
unfolding add
add_failed key value r open' failed = simp (open', failed)
