-- ===== src/TableBuilder/LastIndex.antt =====
-- The last flush and the last entry of the index in Finish of table/table_builder.cpp.
use yangkv_v.Base.{
  ℕ, ◌+◌, ◌^◌, ◌≤◌, ◌<◌, ◌≡◌, ◌≢◌, ◌⊎◌, inl, inr, refl, List, [], ◌∷◌, length, true, false, arith,
  Bool-cases,
}
use yangkv_v.BlockBuilder.{BlockBuilder, current_size_estimate}
use yangkv_v.Comparator.{find_short_successor}
use yangkv_v.Map.{key_compare}
use yangkv_v.Status.{is_ok}
use yangkv_v.TableBuilder.{TableBuilder, k_block_size, flush, is_empty, index_last}
use yangkv_v.TableBuilder.Ensures.{Ensures}
use yangkv_v.TableBuilder.Asserts.{IsWell, Frames, flush_block-IsWell}
use yangkv_v.TableBuilder.Indexed.{put_index_lem, Follows-separator}
use yangkv_v.Comparator.Short.{key_compare-find_short_successor}
use Prim.Native.Nat.{lt}

filled : (b : BlockBuilder) → is_empty b ≡ false → b.buffer ≢ []
filled b some_bytes e = ground arith

pub flush-IsWell :
    (r : TableBuilder)
    → r.closed ≡ false
    → r.offset < 2 ^ 63
    → IsWell k_block_size r
    → Ensures (flush r) (λ r'. IsWell k_block_size r' × Frames r (k_block_size + 5) r')
unfolding flush
flush-IsWell r open' room w =
    let same : Frames r (k_block_size + 5) r = record {
      closed = refl;
      last_key = refl;
      num_entries = refl;
      index_block = refl;
      offset = omega arith;
    } in
    elim (Bool-cases (is_ok r.status)) [
      | inr failed ↦ simp (open', failed) (w, same)
      | inl fine ↦ elim (Bool-cases (is_empty r.data_block)) [
        | inl none_there ↦ simp (open', fine, none_there) (w, same)
        | inr some_bytes ↦ elim (Bool-cases r.pending_index_entry) [
          | inl pending ↦ absurd (filled r.data_block some_bytes (w.flushed pending))
          | inr free ↦
              simp (open', fine, some_bytes, free)
                (flush_block-IsWell k_block_size r (omega arith) room
                  (λ z. filled r.data_block some_bytes (w.none_yet z).0) fine free w)
        ]
      ]
    ]

length-find_short_successor : (key : List ℕ) → length (find_short_successor key) ≤ length key
unfolding find_short_successor
length-find_short_successor [] = omega arith
length-find_short_successor (b ∷ key) = ground (arith, length-find_short_successor key)

successor_above :
    (key : List ℕ)
    → (find_short_successor key ≡ key) ⊎ (key_compare key (find_short_successor key) ≡ lt)
successor_above key = elim (key_compare-find_short_successor key) [
  | inl (same, all) ↦ inl same
  | inr less ↦ inr less
]

-- A closed builder that goes on to its index block.
pub record IsClosing (r : TableBuilder) : Type 0 where
  pub well : IsWell k_block_size r
  pub fine : is_ok r.status ≡ true
  pub is_closed : r.closed ≡ true
  pub room : r.offset < 2 ^ 63
  pub index_size : current_size_estimate r.index_block < 2 ^ 62

pub record CanIndex (r : TableBuilder) : Type 0 where
  pub fine : is_ok r.status ≡ true
  pub is_closed : r.closed ≡ true
  pub room : r.offset < 2 ^ 63
  pub index_size : current_size_estimate r.index_block < 2 ^ 62 + 2 ^ 34

pub index_last-CanIndex : (r : TableBuilder) → IsClosing r → Ensures (index_last r) CanIndex
unfolding index_last
index_last-CanIndex r c = elim (Bool-cases r.pending_index_entry) [
  | inr free ↦ simp free (record {
    fine = c.fine;
    is_closed = c.is_closed;
    room = c.room;
    index_size = omega (arith, c.index_size);
  })
  | inl pending ↦
      let short = find_short_successor r.last_key in
      let (b, put, (still_open, last, some_bytes, grown)) =
        put_index_lem short r (c.well.assigned pending) c.well.index_open
          (Follows-separator r.last_key short r.index_block (successor_above r.last_key)
            c.well.index_last)
          (omega (arith, length-find_short_successor r.last_key, c.well.short)) in
      simp (pending, put)
        (record {
          fine = c.fine;
          is_closed = c.is_closed;
          room = c.room;
          index_size =
              omega
                (arith, grown, c.index_size, length-find_short_successor r.last_key, c.well.short);
        })
]
