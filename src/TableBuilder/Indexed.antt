-- ===== src/TableBuilder/Indexed.antt =====
-- The entries of the index block in Add and Finish of table/table_builder.cpp.
use yangkv_v.Base.{
  ℕ, ◌+◌, ◌^◌, ◌≤◌, ◌<◌, ◌≡◌, ◌⊎◌, inl, inr, refl, sym, ap, List, [], length, true, false, ◌==◌,
  arith, Bool-cases,
}
use yangkv_v.TableBuilder.Ensures.{Ensures}
use yangkv_v.TableBuilder.{TableBuilder, built, k_block_size, put_index, index_before, is_empty}
use yangkv_v.BlockBuilder.{BlockBuilder, current_size_estimate}
use yangkv_v.BlockBuilder.Growth.{IsOpen, Follows, add-Grown}
use yangkv_v.Coding.{IsU32}
use yangkv_v.Comparator.{find_shortest_separator}
use yangkv_v.Comparator.Short.{find_shortest_separator-IsBetween}
use yangkv_v.Format.RoundTrip.{
  IsAssigned, handle_code, length-handle_code, encode_handle-handle_code,
}
use yangkv_v.Map.{key_compare}
use yangkv_v.Map.Laws.{key_compare_trans}
use yangkv_v.TableBuilder.Asserts.{IsWell, Comes}
use mathlib.Core.Path.{subst}
use Prim.Native.Nat.{lt}

-- The entry of the index is taken, and is small.
abbrev pub Indexed : List ℕ → TableBuilder → BlockBuilder → Type 0
Indexed short r b =
    IsOpen 1 b
    × (b.last_key ≡ short)
    × (1 ≤ length b.buffer)
    × (current_size_estimate b ≤ current_size_estimate r.index_block + (39 + length short))

pub put_index_lem :
    (short : List ℕ) (r : TableBuilder)
    → IsAssigned r.pending_handle
    → IsOpen 1 r.index_block
    → Follows short r.index_block
    → IsU32 (length short)
    → (b : BlockBuilder) × (put_index short r
        ≡ built (record r { index_block = b; last_key = short; pending_index_entry = false }))
      × Indexed short r b
unfolding put_index
put_index_lem short r assigned open' follows fits =
    let code = handle_code r.pending_handle in
    let size = length-handle_code r.pending_handle assigned in
    let (b, added, (still_open, last, some_bytes, grown)) =
      add-Grown 1 short code r.index_block (omega arith) open' follows fits (omega (arith, size)) in
    (
      b,
      rw (encode_handle-handle_code [] r.pending_handle assigned, added) refl,
      (still_open, last, some_bytes, omega (arith, grown, size)),
    )

-- A builder whose next step is to add `key` to the data block.
pub record IsReady (key : List ℕ) (r₀ r : TableBuilder) : Type 0 where
  pub data_open : IsOpen 16 r.data_block
  pub index_open : IsOpen 1 r.index_block
  pub follows : Follows key r.data_block
  pub index_follows : Follows key r.index_block
  pub free : r.pending_index_entry ≡ false
  pub data_size : current_size_estimate r.data_block < k_block_size
  pub same_status : r.status ≡ r₀.status
  pub same_closed : r.closed ≡ r₀.closed
  pub same_offset : r.offset ≡ r₀.offset
  pub same_count : r.num_entries ≡ r₀.num_entries
  pub index_size :
      current_size_estimate r.index_block ≤ current_size_estimate r₀.index_block + 2 ^ 33

-- A key behind the last one follows what the last one follows.
pub Follows-trans :
    (last key : List ℕ) (b : BlockBuilder)
    → key_compare last key ≡ lt
    → Follows last b
    → Follows key b
Follows-trans last key b less (inl none_there) = inl none_there
Follows-trans last key b less (inr below) = inr (key_compare_trans b.last_key last key below less)

pub Follows-last :
    (key : List ℕ) (r : TableBuilder)
    → key_compare r.last_key key ≡ lt
    → (r.data_block.buffer ≡ []) ⊎ (r.data_block.last_key ≡ r.last_key)
    → Follows key r.data_block
Follows-last key r less (inl none_there) = inl none_there
Follows-last key r less (inr same) = inr (rw same less)

-- No entry is pending.
pub free-IsReady :
    (key : List ℕ) (r : TableBuilder)
    → IsWell k_block_size r
    → Comes key r
    → r.pending_index_entry ≡ false
    → IsReady key r r
free-IsReady key r w comes free = record {
  data_open = w.data_open;
  index_open = w.index_open;
  follows = elim comes [
    | inl first ↦ inl (w.none_yet first).0
    | inr less ↦ Follows-last key r less w.data_last
  ];
  index_follows = elim comes [
    | inl first ↦ inl (w.none_yet first).1
    | inr less ↦ Follows-trans r.last_key key r.index_block less w.index_last
  ];
  free = free;
  data_size = w.data_size;
  same_status = refl;
  same_closed = refl;
  same_offset = refl;
  same_count = refl;
  index_size = omega arith;
}

-- The separator follows the keys of the index.
pub Follows-separator :
    (last short : List ℕ) (b : BlockBuilder)
    → (short ≡ last) ⊎ (key_compare last short ≡ lt)
    → Follows last b
    → Follows short b
Follows-separator last short b (inl same) h = subst (λ (k : List ℕ). Follows k b) (sym same) h
Follows-separator last short b (inr less) h = Follows-trans last short b less h

pub pending_less :
    (key : List ℕ) (r : TableBuilder)
    → IsWell k_block_size r
    → Comes key r
    → r.pending_index_entry ≡ true
    → key_compare r.last_key key ≡ lt
pending_less key r w (inl first) pending = absurd (cc (pending, (w.none_yet first).2))
pending_less key r w (inr less) pending = less

pub Indexed-IsReady :
    (key short : List ℕ) (r : TableBuilder) (b : BlockBuilder)
    → IsWell k_block_size r
    → r.pending_index_entry ≡ true
    → Indexed short r b
    → key_compare short key ≡ lt
    → length short ≤ length r.last_key
    → IsReady key r (record r { index_block = b; last_key = short; pending_index_entry = false })
Indexed-IsReady key short r b w pending (still_open, last, some_bytes, grown) below fits = record {
  data_open = w.data_open;
  index_open = still_open;
  follows = inl (w.flushed pending);
  index_follows = inr (rw last below);
  free = refl;
  data_size = w.data_size;
  same_status = refl;
  same_closed = refl;
  same_offset = refl;
  same_count = refl;
  index_size = omega (arith, grown, w.short);
}

pub index_before_pending :
    (key : List ℕ) (r : TableBuilder)
    → r.pending_index_entry ≡ true
    → r.data_block.buffer ≡ []
    → index_before key r ≡ put_index (find_shortest_separator r.last_key key) r
unfolding index_before
index_before_pending key r pending none_there =
    let e : is_empty r.data_block ≡ true = ap (λ (l : List ℕ). length l == 0) none_there in
    simp (pending, e)

pub index_before-IsReady :
    (key : List ℕ) (r : TableBuilder)
    → IsWell k_block_size r
    → Comes key r
    → Ensures (index_before key r) (IsReady key r)
unfolding index_before
index_before-IsReady key r w comes = elim (Bool-cases r.pending_index_entry) [
  | inr free ↦ simp free (free-IsReady key r w comes free)
  | inl pending ↦
      let less = pending_less key r w comes pending in
      let short = find_shortest_separator r.last_key key in
      let (above, below, fits) = find_shortest_separator-IsBetween r.last_key key less in
      let (b, put, indexed) =
        put_index_lem short r (w.assigned pending) w.index_open
          (Follows-separator r.last_key short r.index_block above w.index_last)
          (omega (arith, fits, w.short)) in
      rw (index_before_pending key r pending (w.flushed pending), put)
        (Indexed-IsReady key short r b w pending indexed below fits)
]
