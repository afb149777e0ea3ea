-- ===== src/Builder/Tables.antt =====
-- The loop of BuildTable of main/builder.cpp on the bindings of storable entries.
use yangkv_v.Base.{
  length-take, ℕ, suc, ◌+◌, ◌*◌, ◌^◌, ◌≤◌, ◌<◌, ◌≡◌, ◌⊎◌, inl, inr, refl, sym, ap, ◌∙◌, List, [],
  ◌∷◌, length, All, true, false, Bool-cases, arith, append-nil, le→leb,
}
use yangkv_v.Base.Outcome.{done}
use yangkv_v.Coding.{IsU32}
use yangkv_v.MemEntry.{MemEntry, decode_mem_entry}
use yangkv_v.MemEntry.RoundTrip.{reread, decode_mem_entry-code, reread-shown, reread-IsStorable}
use yangkv_v.MemEntry.Storable.{IsStorable, view, code}
use yangkv_v.Map.{Map}
use yangkv_v.Map.Laws.{IsOrdered, Above}
use yangkv_v.Slice.{Slice, to_string, copy}
use yangkv_v.Builder.Merged.{Above-IsOrdered, Above-trans}
use yangkv_v.Status.{is_ok}
use yangkv_v.BlockBuilder.Growth.{new_builder-IsOpen}
use yangkv_v.Env.{WritableFile}
use yangkv_v.Builder.{pair_of, add_pair, add_loop}
use yangkv_v.BlockBuilder.{current_size_estimate}
use yangkv_v.TableBuilder.{
  TableBuilder, new_table, add, finish, on_built, built, flush, finish_closed,
}
use yangkv_v.TableBuilder.Ensures.{Ensures, Ensures_mono, Ensures-on_built}
use yangkv_v.TableBuilder.Asserts.{IsWell, Comes}
use yangkv_v.TableBuilder.Rising.{Added, add-Added, add_failed}
use yangkv_v.TableBuilder.Finished.{Closed, finish-Closed}
use mathlib.Core.Path.{subst}

-- A binding that an insertion of a storable entry has made.
abbrev pub IsBinding : List ℕ × Slice → Type 0
IsBinding (key, slice) =
    (e : MemEntry) × IsStorable e
    × (key ≡ view e.key)
    × (slice ≡ record { ptr = code e; size = length (code e) })

length-view : (s : Slice) → length (view s) ≤ s.size
length-view s = omega (arith, length-take s.size s.ptr)

to_string-view : (s : Slice) → s.size ≤ length s.ptr → to_string s ≡ done (view s)
unfolding to_string copy
to_string-view s h = rw (le→leb s.size (length s.ptr) h) refl

-- The entry that is read of a binding.
pub read-IsBinding :
    (key : List ℕ) (slice : Slice)
    → IsBinding (key, slice)
    → (e : MemEntry) × (decode_mem_entry slice ≡ done e) × (view e.key ≡ key) × IsStorable e
read-IsBinding key slice (e, storable, named, kept) = (
  reread e [],
  rw kept (
      ap (λ (l : List ℕ). decode_mem_entry (record { ptr = l; size = length (code e) }))
        (sym (append-nil (code e)))
      ∙ decode_mem_entry-code e [] (length (code e)) storable),
  ap (λ x. x.0) (reread-shown e [] storable) ∙ sym named,
  reread-IsStorable e [] storable,
)

-- The pair that Add gets of a binding.
pub pair_of-IsBinding :
    (key : List ℕ) (slice : Slice)
    → IsBinding (key, slice)
    → (value : List ℕ) × (pair_of slice ≡ done (key, value))
      × IsU32 (length key)
      × IsU32 (length value)
unfolding pair_of
pair_of-IsBinding key slice binding =
    let (e, read, same, storable) = read-IsBinding key slice binding in
    (
      view e.value,
      rw
          (
            read,
            to_string-view e.key (omega (arith, storable.key_room)),
            to_string-view e.value (omega (arith, storable.value_room)),
            same,
          )
          refl,
      omega (arith, storable.key_fits, length-view e.key, ap (length {A = ℕ}) same),
      omega (arith, storable.value_fits, length-view e.value),
    )

-- The keys that are left come behind those that are in the table.
abbrev ComeAll : Map Slice → TableBuilder → Type 0
ComeAll mp r = IsOrdered mp × ((r.num_entries ≡ 0) ⊎ Above r.last_key mp)

-- A builder with room for `n` entries more.
pub record HasPlace (n : ℕ) (r : TableBuilder) : Type 0 where
  pub well : IsWell 4096 r
  pub is_open : r.closed ≡ false
  pub offset : r.offset + n * 2 ^ 35 < 2 ^ 62
  pub index_size : current_size_estimate r.index_block + n * 2 ^ 33 < 2 ^ 62

fewer : (n : ℕ) (r : TableBuilder) → HasPlace (suc n) r → HasPlace n r
fewer n r h = record {
  well = h.well;
  is_open = h.is_open;
  offset = omega (arith, h.offset);
  index_size = omega (arith, h.index_size);
}

Comes-first :
    (key : List ℕ) (slice : Slice) (mp : Map Slice) (r : TableBuilder)
    → ComeAll ((key, slice) ∷ mp) r
    → Comes key r
Comes-first key slice mp r (o, inl first) = inl first
Comes-first key slice mp r (o, inr (less, above)) = inr less

ComeAll-same :
    (key : List ℕ) (slice : Slice) (mp : Map Slice) (r : TableBuilder)
    → ComeAll ((key, slice) ∷ mp) r
    → ComeAll mp r
ComeAll-same key slice mp r (o, inl first) = (Above-IsOrdered key mp o, inl first)
ComeAll-same key slice mp r (o, inr (less, above)) =
    (Above-IsOrdered key mp o, inr (Above-trans r.last_key key mp less above))

add_pair-HasPlace :
    (key : List ℕ) (slice : Slice) (mp : Map Slice) (r : TableBuilder)
    → IsBinding (key, slice)
    → ComeAll ((key, slice) ∷ mp) r
    → HasPlace (suc (length mp)) r
    → Ensures (add_pair (pair_of slice) r) (λ r'. ComeAll mp r' × HasPlace (length mp) r')
add_pair-HasPlace key slice mp r binding come place =
    let (value, read, k, v) = pair_of-IsBinding key slice binding in
    rw read (elim (Bool-cases (is_ok r.status)) [
      | inr failed ↦
          rw (add_failed key value r place.is_open failed)
            (ComeAll-same key slice mp r come, fewer (length mp) r place)
      | inl fine ↦
          Ensures_mono (add key value r) (Added key r) _
            (λ r' a. (
              (
                Above-IsOrdered key mp come.0,
                inr (subst (λ (l : List ℕ). Above l mp) (sym a.last) come.0),
              ),
              record {
                well = a.well;
                is_open = a.same_closed ∙ place.is_open;
                offset = omega (arith, a.offset, place.offset);
                index_size = omega (arith, a.index_size, place.index_size);
              },
            ))
            (add-Added key value r place.well place.is_open fine (omega (arith, place.offset))
              (Comes-first key slice mp r come) k v)
    ])

add_loop-HasPlace :
    (mp : Map Slice) (r : TableBuilder)
    → All IsBinding mp
    → ComeAll mp r
    → HasPlace (length mp) r
    → Ensures (add_loop mp r) (HasPlace 0)
unfolding add_loop
add_loop-HasPlace [] r bindings come place = place
add_loop-HasPlace ((key, slice) ∷ mp) r (binding, bindings) come place =
    Ensures-on_built (add_pair (pair_of slice) r) (add_loop mp)
      (λ r'. ComeAll mp r' × HasPlace (length mp) r') _
      (add_pair-HasPlace key slice mp r binding come place)
      (λ r' (come', place'). add_loop-HasPlace mp r' bindings come' place')

pub new_table-HasPlace : (n : ℕ) (file : WritableFile) → n < 2 ^ 24 → HasPlace n (new_table file)
unfolding current_size_estimate
new_table-HasPlace n file small = record {
  well = record {
    data_open = new_builder-IsOpen 16;
    index_open = new_builder-IsOpen 1;
    flushed = λ p. absurd (cc p);
    data_last = inl refl;
    index_last = inl refl;
    assigned = λ p. absurd (cc p);
    none_yet = λ z. (refl, refl, refl);
    data_size = omega arith;
    short = omega arith;
  };
  is_open = refl;
  offset = omega arith;
  index_size = omega arith;
}

-- The table that BuildTable writes of a map of storable entries, with keys that rise.
pub write_Closed :
    (mp : Map Slice) (file : WritableFile)
    → IsOrdered mp
    → All IsBinding mp
    → length mp < 2 ^ 24
    → Ensures (on_built (add_loop mp (new_table file)) finish) Closed
write_Closed mp file o bindings small =
    Ensures-on_built (add_loop mp (new_table file)) finish (HasPlace 0) _
      (add_loop-HasPlace mp (new_table file) bindings (o, inl refl)
        (new_table-HasPlace (length mp) file small))
      (λ r h.
        finish-Closed r h.well h.is_open (omega (arith, h.offset)) (omega (arith, h.index_size)))

add_loop_failed :
    (mp : Map Slice) (r : TableBuilder)
    → All IsBinding mp
    → r.closed ≡ false
    → is_ok r.status ≡ false
    → add_loop mp r ≡ built r
unfolding add_loop
add_loop_failed [] r bindings open' failed = refl
add_loop_failed ((key, slice) ∷ mp) r bindings open' failed =
    let (value, read, _, _) = pair_of-IsBinding key slice bindings.0 in
    rw (read, add_failed key value r open' failed) (add_loop_failed mp r bindings.1 open' failed)

finish_failed :
    (r : TableBuilder)
    → r.closed ≡ false
    → is_ok r.status ≡ false
    → finish r ≡ built (record r { closed = true })
unfolding finish flush finish_closed
finish_failed r open' failed = simp (open', failed)

-- Once the status of an open table builder is not OK, adding the bindings of storable entries and
-- Finish put nothing into the file: the builder stays as it was, with its status, and is closed.
pub finish-add_loop_failed :
    (mp : Map Slice) (r : TableBuilder)
    → All IsBinding mp
    → r.closed ≡ false
    → is_ok r.status ≡ false
    → on_built (add_loop mp r) finish ≡ built (record r { closed = true })
finish-add_loop_failed mp r bindings open' failed =
    rw (add_loop_failed mp r bindings open' failed) (finish_failed r open' failed)
