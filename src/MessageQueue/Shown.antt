-- ===== src/MessageQueue/Shown.antt =====
-- What the entries that the constructor of memory/message_queue.cpp recovers say.
use yangkv_v.Base.{
  Bool, ℕ, ◌+◌, ◌-◌, ◌≤◌, ◌≡◌, refl, sym, ap, ◌∙◌, List, [], ◌∷◌, ◌++◌, map, length, take, drop,
  replicate, All, length-append, length-take, append-nil, arith,
}
use yangkv_v.Coding.{encode_varint32, encode_fixed64}
use yangkv_v.Coding.Fixed.{encode_fixed64_shape}
use yangkv_v.Env.{WritableFile}
use yangkv_v.MemEntry.{MemEntry}
use yangkv_v.MemEntry.RoundTrip.{reread, reread-shown}
use yangkv_v.MemEntry.Storable.{IsStorable, code, view, info_of, value_code, shown}
use yangkv_v.Log.{Pread, ReadsAll}
use yangkv_v.Log.RoundTrip.{scratch_after}
use yangkv_v.MessageQueue.{MessageQueue, k_queue_size}
use yangkv_v.MessageQueue.Opened.{IsOldLog, on_disk, recorded, open_queue-Recovers}
use yangkv_v.MessageQueue.Rebound.{placed, reread-placed}
use yangkv_v.MessageQueue.Replay.{replayed, open_queue}
use yangkv_v.MessageQueue.Reread.{scratch_end}
use yangkv_v.MessageQueue.Window.{entries}
use mathlib.Core.Path.{ap₂}

-- The scratch buffer begins with the encoding of the last entry.
scratch_end-last :
    (buf : List ℕ) (es : List MemEntry) (e : MemEntry)
    → (rest : List ℕ) × (scratch_end buf (es ++ e ∷ []) ≡ code e ++ rest)
unfolding scratch_end scratch_after
scratch_end-last buf [] e = (_, refl)
scratch_end-last buf (x ∷ es) e = scratch_end-last (scratch_after buf x) es e

-- The key and the value are as long as those of `e`.
abbrev pub SameSizes : MemEntry → MemEntry → Type 0
SameSizes e x = (x.key.size ≡ e.key.size) × (x.value.size ≡ e.value.size)

pub length-code :
    (e : MemEntry)
    → IsStorable e
    → length (code e)
      ≡ length (encode_varint32 (e.key.size + 9))
        + (e.key.size + 1)
        + 8
        + length (encode_varint32 (e.value.size + 1))
        + (e.value.size + 1)
length-code e h = omega (
  arith,
  h.key_room,
  h.value_room,
  length-append (encode_varint32 (e.key.size + 9))
      (take (e.key.size + 1) e.key.ptr ++ (encode_fixed64 (info_of e) ++ value_code e)),
  length-append (take (e.key.size + 1) e.key.ptr) (encode_fixed64 (info_of e) ++ value_code e),
  length-append (encode_fixed64 (info_of e)) (value_code e),
  length-append (encode_varint32 (e.value.size + 1)) (take (e.value.size + 1) e.value.ptr),
  encode_fixed64_shape (info_of e),
  length-take (e.key.size + 1) e.key.ptr,
  length-take (e.value.size + 1) e.value.ptr,
)

-- An entry that points into the encoding of another with the same sizes shows that one.
placed-SameSizes :
    (e x : MemEntry) (rest : List ℕ)
    → IsStorable e
    → IsStorable x
    → SameSizes e x
    → (view (placed (code e ++ rest) x).key ≡ view e.key)
      × (view (placed (code e ++ rest) x).value ≡ view e.value)
placed-SameSizes e x rest he hx (k, v) =
    let buf = code e ++ rest in
    let heads : length (encode_varint32 (x.key.size + 9))
        ≡ length (encode_varint32 (e.key.size + 9)) =
      ap (λ (t : ℕ). length (encode_varint32 (t + 9))) k in
    let tails : length (encode_varint32 (x.value.size + 1))
        ≡ length (encode_varint32 (e.value.size + 1)) =
      ap (λ (t : ℕ). length (encode_varint32 (t + 1))) v in
    let places : length (code x) - (x.value.size + 1) ≡ length (code e) - (e.value.size + 1) =
      omega (arith, length-code e he, length-code x hx) in
    let own : reread e rest ≡ placed buf e = reread-placed e rest he in
    let says : shown (placed buf e) ≡ shown e = ap shown (sym own) ∙ reread-shown e rest he in
    (
      ap₂ (λ (n p : ℕ). take n (drop p buf)) k heads
          ∙ ap (λ (s : List ℕ × List ℕ × ℕ × Bool). s.0) says,
      ap₂ (λ (n p : ℕ). take n (drop p buf)) v places
          ∙ ap (λ (s : List ℕ × List ℕ × ℕ × Bool). s.1) says,
    )

-- What a get would report of an entry, and its number.
abbrev pub key_value : MemEntry → List ℕ × List ℕ
key_value e = (view e.key, view e.value)

abbrev pub number : MemEntry → ℕ
number e = e.seq_num

key_values-placed :
    (e : MemEntry) (rest : List ℕ) (xs : List MemEntry)
    → IsStorable e
    → All IsStorable xs
    → All (SameSizes e) xs
    → map key_value (map (placed (code e ++ rest)) xs) ≡ replicate (length xs) (key_value e)
key_values-placed e rest [] he hs same = refl
key_values-placed e rest (x ∷ xs) he hs same =
    let (k, v) = placed-SameSizes e x rest he hs.0 same.0 in
    ap₂ (λ (y : List ℕ × List ℕ) (l : List (List ℕ × List ℕ)). y ∷ l) (λ i. (k i, v i))
      (key_values-placed e rest xs he hs.1 same.1)

numbers-placed :
    (buf : List ℕ) (xs : List MemEntry) → map number (map (placed buf) xs) ≡ map number xs
numbers-placed buf [] = refl
numbers-placed buf (x ∷ xs) = ap (λ (l : List ℕ). x.seq_num ∷ l) (numbers-placed buf xs)

All-last {κ} :
    (P : MemEntry → Type κ) (es : List MemEntry) (e : MemEntry) → All P (es ++ e ∷ []) → P e
All-last P [] e h = h.0
All-last P (x ∷ es) e h = All-last P es e h.1

-- Where an older log holds forty storable entries or fewer, whose records fit the scratch buffer,
-- with keys of one length and values of one length, the log is shorter than 2^64 bytes and pread
-- reads what a file holds, the constructor of MessageQueue returns with as many queued entries,
-- which have the numbers of the recorded ones in order and, each of them, the key and the value of
-- the last one.
pub open_queue-shows_last :
    (pread : Pread) (log : WritableFile) (scratch : List ℕ) (es : List MemEntry) (e : MemEntry)
    → ReadsAll pread
    → IsOldLog (es ++ e ∷ [], scratch)
    → All (SameSizes e) (es ++ e ∷ [])
    → length (es ++ e ∷ []) ≤ k_queue_size
    → (q : MessageQueue) × (open_queue pread log (on_disk (es ++ e ∷ [], scratch) ∷ [])
        ≡ replayed q)
      × (map number (entries q) ≡ map number (es ++ e ∷ []))
      × (map key_value (entries q) ≡ replicate (length (es ++ e ∷ [])) (key_value e))
open_queue-shows_last pread log scratch es e reads_all h same few =
    let all = es ++ e ∷ [] in
    let none_else : recorded ((all, scratch) ∷ []) ≡ all = append-nil all in
    let (q, opened, _, _, held, _, _) =
      open_queue-Recovers pread reads_all log ((all, scratch) ∷ []) (h, tt) (rw none_else few) in
    let (rest, end) = scratch_end-last scratch es e in
    let held' : entries q ≡ map (placed (code e ++ rest)) all =
      held
      ∙ append-nil (map (placed (scratch_end scratch all)) all)
      ∙ ap (λ (b : List ℕ). map (placed b) all) end in
    (
      q,
      opened,
      ap (map number) held' ∙ numbers-placed (code e ++ rest) all,
      ap (map key_value) held'
          ∙ key_values-placed e rest all (All-last IsStorable es e h.0) h.0 same,
    )
