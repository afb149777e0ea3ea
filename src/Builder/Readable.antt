-- ===== src/Builder/Readable.antt =====
-- The file of the table that BuildTable of main/builder.cpp writes.
use yangkv_v.Base.{
  Bool-cases, inl, inr, false, ◌++◌, sym, append_assoc, append-nil, ℕ, ◌^◌, ◌<◌, ◌≡◌, refl, ap,
  List, [], ◌∷◌, length, arith,
}
use yangkv_v.Base.Outcome.{Outcome, done, refused, fault, ◌>>=◌}
use yangkv_v.Builder.{pair_of, add_pair, add_loop}
use yangkv_v.Env.{WritableFile}
use yangkv_v.Env.Buffer.{contents}
use yangkv_v.Log.{Pread, ReadsAll}
use yangkv_v.Map.{Map}
use yangkv_v.Slice.{Slice}
use yangkv_v.Status.{ok, is_ok}
use yangkv_v.TableBuilder.{
  TableBuilder, built, on_built, new_table, add, finish, flush, finish_closed, file_size,
}
use yangkv_v.TableBuilder.Whole.{IsWhole, add-IsWhole}
use yangkv_v.TableBuilder.Blocks.{laid, entries}
use yangkv_v.TableBuilder.Held.{filled, Holds}
use yangkv_v.TableBuilder.Returned.{Returns, Returns_mono, Returns-on_built, Fine}
use yangkv_v.TableBuilder.Ended.{Laid, finish-Laid, size_small}
use yangkv_v.TableBuilder.Opened.{Opens, Laid-Opens}
use mathlib.Core.Path.{subst}

-- The keys and values that BuildTable hands to Add, in their order.
unfoldable pub pairs_of : Map Slice → Outcome (List (List ℕ × List ℕ))
pairs_of [] = done []
pairs_of ((key, slice) ∷ mp) = do pair ← pair_of slice; pairs ← pairs_of mp; done (pair ∷ pairs)

-- All the entries of a map stand behind those that the builder had.
abbrev Adding : Map Slice → List (List ℕ × List ℕ) → TableBuilder → Type 0
Adding mp pairs r =
    (more : List (List ℕ × List ℕ)) × (pairs_of mp ≡ done more) × IsWhole (pairs ++ more) r

add_first :
    (o : Outcome (List ℕ × List ℕ)) (mp : Map Slice) (pairs : List (List ℕ × List ℕ))
    (r : TableBuilder)
    → ((key value : List ℕ) (r₁ : TableBuilder)
        → Fine (IsWhole (pairs ++ (key, value) ∷ [])) r₁
        → Returns (add_loop mp r₁) (Fine (Adding mp (pairs ++ (key, value) ∷ []))))
    → Fine (IsWhole pairs) r
    → Returns (on_built (add_pair o r) (add_loop mp)) (
        Fine (λ r'.
          (more : List (List ℕ × List ℕ)) × ((do pair ← o; rest ← pairs_of mp; done (pair ∷ rest))
            ≡ done more)
          × IsWhole (pairs ++ more) r'))
add_first refused mp pairs r next c = tt
add_first fault mp pairs r next c = tt
add_first (done (key, value)) mp pairs r next c =
    let before = pairs ++ (key, value) ∷ [] in
    Returns-on_built (add key value r) (add_loop mp) (Fine (IsWhole before)) _
      (add-IsWhole key value pairs r c)
      (λ r₁ c₁.
        Returns_mono (add_loop mp r₁) (Fine (Adding mp before)) _
          (λ r₂ h. λ fine.
            let (more, e, whole) = h fine in
            (
              (key, value) ∷ more,
              rw e refl,
              subst (λ (l : List (List ℕ × List ℕ)). IsWhole l r₂)
                  (append_assoc pairs ((key, value) ∷ []) more) whole,
            ))
          (next key value r₁ c₁))

add_loop-Adding :
    (mp : Map Slice) (pairs : List (List ℕ × List ℕ)) (r : TableBuilder)
    → Fine (IsWhole pairs) r
    → Returns (add_loop mp r) (Fine (Adding mp pairs))
unfolding add_loop pairs_of
add_loop-Adding [] pairs r c = λ fine. (
  [],
  refl,
  subst (λ (l : List (List ℕ × List ℕ)). IsWhole l r) (sym (append-nil pairs)) (c fine),
)
add_loop-Adding ((key, slice) ∷ mp) pairs r c =
    add_first (pair_of slice) mp pairs r
      (λ k v r₁ c₁. add_loop-Adding mp (pairs ++ (k, v) ∷ []) r₁ c₁) c

-- A new table on an empty file.
new_table-IsWhole :
    (file : WritableFile) → file.buf ≡ [] → file.disk ≡ [] → IsWhole [] (new_table file)
unfolding laid entries filled Holds
new_table-IsWhole file no_buf no_disk = (
  record { counts = rw (no_buf, no_disk) refl; small = omega (arith, ap (length {A = ℕ}) no_buf) },
  [],
  [],
  refl,
  refl,
  ([], refl, (rw (no_buf, no_disk) refl, refl)),
)

finish_failed :
    (r : TableBuilder) (P : TableBuilder → Type 0)
    → is_ok r.status ≡ false
    → Returns (finish r) (Fine P)
unfolding finish flush finish_closed
finish_failed r P failed = elim (Bool-cases r.closed) [
  | inl closed ↦ simp closed tt
  | inr open' ↦ simp (open', failed) (λ fine. absurd (cc fine))
]

-- What Finish leaves of the entries of a map.
abbrev Ends : Map Slice → TableBuilder → Type 0
Ends mp r = (pairs : List (List ℕ × List ℕ)) × (pairs_of mp ≡ done pairs) × Laid pairs r

finish-Ends :
    (mp : Map Slice) (r : TableBuilder)
    → Fine (Adding mp []) r
    → Returns (finish r) (Fine (Ends mp))
finish-Ends mp r c = elim (Bool-cases (is_ok r.status)) [
  | inr failed ↦ finish_failed r (Ends mp) failed
  | inl fine ↦
      let (pairs, e, whole) = c fine in
      Returns_mono (finish r) (Fine (Laid pairs)) (Fine (Ends mp))
        (λ r' h. λ fine'. (pairs, e, h fine')) (finish-Laid pairs r (λ still. whole))
]

-- Where a table that was begun on an empty file, and was given the bindings of a map in their
-- order, is finished with a status that is OK, and the file is shorter than 2^63 bytes, the file
-- consists of data blocks, the metaindex block, an index block and a footer that Footer::DecodeFrom
-- reads. The data blocks, one behind the other, are what Finish makes of blocks to which the keys
-- and values of the entries of the map have been added in their order. The index block is what
-- Finish makes of a block to which one entry, with the handle of the block, has been added for each
-- data block in its order. ReadBlock, with a pread that reads what the file holds, gets the
-- metaindex block and this index block by the handles of the footer, and each data block by the
-- handle in its entry. FileSize is the length of the file.
pub finish-Opens :
    (pread : Pread) (mp : Map Slice) (file : WritableFile) (r : TableBuilder)
    → ReadsAll pread
    → file.buf ≡ []
    → file.disk ≡ []
    → on_built (add_loop mp (new_table file)) finish ≡ built r
    → r.status ≡ ok
    → length (contents r.file) < 2 ^ 63
    → (pairs : List (List ℕ × List ℕ)) × (pairs_of mp ≡ done pairs)
      × Opens pread pairs (contents r.file)
      × (file_size r ≡ length (contents r.file))
finish-Opens pread mp file r reads no_buf no_disk ends fine small =
    let laid : Returns (on_built (add_loop mp (new_table file)) finish) (Fine (Ends mp)) =
      Returns-on_built (add_loop mp (new_table file)) finish (Fine (Adding mp [])) (Fine (Ends mp))
        (add_loop-Adding mp [] (new_table file) (λ e. new_table-IsWhole file no_buf no_disk))
        (finish-Ends mp) in
    let (pairs, e, l) = subst (λ b. Returns b (Fine (Ends mp))) ends laid (ap is_ok fine) in
    (pairs, e, Laid-Opens pread pairs r reads small l, size_small pairs r small l)
