-- ===== src/MessageQueue/Rebound.antt =====
-- What the entries of the constructor of memory/message_queue.cpp show when the scratch buffer that
-- their slices point into is written again.
use yangkv_v.Base.{
  ℕ, zero, suc, ◌+◌, ◌-◌, ◌%◌, ◌≤◌, ◌<◌, ◌≡◌, refl, sym, ap, ◌∙◌, List, ◌∷◌, ◌++◌, map, length,
  take, drop, get_or, set, get_or-set_ne, get_or-set_self, length-set, length-append, length-take,
  length-drop, drop_front, append_assoc, arith,
}
use yangkv_v.Coding.{encode_varint32, encode_fixed64}
use yangkv_v.MemEntry.{MemEntry}
use yangkv_v.MemEntry.RoundTrip.{reread}
use yangkv_v.MemEntry.Storable.{IsStorable, code, value_code, info_of}
use yangkv_v.MessageQueue.{k_queue_size, blank}
use yangkv_v.MessageQueue.Replay.{rebind, rebind_places}
use yangkv_v.MessageQueue.Window.{window, window-set}
use mathlib.Core.Path.{ap₂}

-- The entry whose slices point to where the encoding of `e` has its key and its value, in a buffer
-- that began with that encoding when the entry was decoded.
abbrev pub placed : List ℕ → MemEntry → MemEntry
placed buf e = record {
  key = record { ptr = drop (length (encode_varint32 (e.key.size + 9))) buf; size = e.key.size };
  value = record { ptr = drop (length (code e) - (e.value.size + 1)) buf; size = e.value.size };
  seq_num = e.seq_num;
  value_type = e.value_type;
}

pub reread-placed :
    (e : MemEntry) (rest : List ℕ) → IsStorable e → reread e rest ≡ placed (code e ++ rest) e
reread-placed e rest h =
    let head = encode_varint32 (e.key.size + 9) in
    let k = take (e.key.size + 1) e.key.ptr in
    let info = encode_fixed64 (info_of e) in
    let size = encode_varint32 (e.value.size + 1) in
    let v = take (e.value.size + 1) e.value.ptr in
    let mid : List ℕ = k ++ (info ++ size) in
    let key : k ++ (info ++ ((size ++ v) ++ rest)) ≡ drop (length head) (code e ++ rest) =
      sym (drop_front (length head) head (k ++ (info ++ ((size ++ v) ++ rest))) refl)
      ∙ ap (drop (length head)) (simp append_assoc) in
    let value : v ++ rest ≡ drop (length (code e) - (e.value.size + 1)) (code e ++ rest) =
      sym (
        drop_front (length (code e) - (e.value.size + 1)) (head ++ mid) (v ++ rest) (
          omega (
            arith,
            h.value_room,
            length-take (e.value.size + 1) e.value.ptr,
            length-append head (k ++ (info ++ (size ++ v))),
            length-append k (info ++ (size ++ v)),
            length-append info (size ++ v),
            length-append size v,
            length-append head mid,
            length-append k (info ++ size),
            length-append info size,
          )))
      ∙ ap (drop (length (code e) - (e.value.size + 1))) (simp append_assoc) in
    λ i. record {
      key = record { ptr = key i; size = e.key.size };
      value = record { ptr = value i; size = e.value.size };
      seq_num = e.seq_num;
      value_type = e.value_type;
    }

-- The same place in two buffers of one length.
drop-same :
    (k : ℕ) (buf buf' : List ℕ)
    → k ≤ length buf
    → length buf ≡ length buf'
    → drop (length buf' - length (drop k buf)) buf' ≡ drop k buf'
drop-same k buf buf' h same =
    ap (λ (t : ℕ). drop t buf') {x = length buf' - length (drop k buf)} {y = k}
      (omega (arith, length-drop k buf))

pub rebind-placed :
    (buf buf' : List ℕ) (e : MemEntry)
    → length (code e) ≤ length buf
    → length buf ≡ length buf'
    → rebind buf' (placed buf e) ≡ placed buf' e
rebind-placed buf buf' e fits same =
    let head = encode_varint32 (e.key.size + 9) in
    let k = take (e.key.size + 1) e.key.ptr in
    let key =
      drop-same (length head) buf buf'
        (omega (arith, length-append head (k ++ (encode_fixed64 (info_of e) ++ value_code e))))
        same in
    let value = drop-same (length (code e) - (e.value.size + 1)) buf buf' (omega arith) same in
    λ i. record {
      key = record { ptr = key i; size = e.key.size };
      value = record { ptr = value i; size = e.value.size };
      seq_num = e.seq_num;
      value_type = e.value_type;
    }

-- The places outside of those that are rebound.
get_or-rebind_places :
    (buf : List ℕ) (slots : List MemEntry) (i n j : ℕ)
    → j < i
    → i + n ≤ j + k_queue_size
    → get_or (rebind_places buf slots i n) (j % k_queue_size) blank
      ≡ get_or slots (j % k_queue_size) blank
unfolding rebind_places
get_or-rebind_places buf slots i zero j h k = refl
get_or-rebind_places buf slots i (suc n) j h k =
    let e = get_or slots (i % k_queue_size) blank in
    get_or-rebind_places buf (set slots (i % k_queue_size) (rebind buf e)) (i + 1) n j (omega arith)
      (omega arith)
    ∙ get_or-set_ne slots (i % k_queue_size) (j % k_queue_size) (rebind buf e) blank
        (λ p. omega arith)

pub length-rebind_places :
    (buf : List ℕ) (slots : List MemEntry) (i n : ℕ)
    → length (rebind_places buf slots i n) ≡ length slots
unfolding rebind_places
length-rebind_places buf slots i zero = refl
length-rebind_places buf slots i (suc n) =
    let e = get_or slots (i % k_queue_size) blank in
    length-rebind_places buf (set slots (i % k_queue_size) (rebind buf e)) (i + 1) n
    ∙ length-set slots (i % k_queue_size) (rebind buf e)

pub window-rebind_places :
    (buf : List ℕ) (slots : List MemEntry) (r a i n : ℕ)
    → r + a ≤ i
    → i + n ≤ r + k_queue_size
    → window (rebind_places buf slots i n) r a ≡ window slots r a
unfolding window
window-rebind_places buf slots r zero i n h k = refl
window-rebind_places buf slots r (suc a) i n h k =
    ap₂ (λ (x : MemEntry) (l : List MemEntry). x ∷ l)
      (get_or-rebind_places buf slots i n r (omega arith) k)
      (window-rebind_places buf slots (r + 1) a i n (omega arith) (omega arith))

pub window-rebound :
    (buf : List ℕ) (slots : List MemEntry) (i n : ℕ)
    → length slots ≡ 45
    → n ≤ k_queue_size
    → window (rebind_places buf slots i n) i n ≡ map (rebind buf) (window slots i n)
unfolding window rebind_places
window-rebound buf slots i zero h k = refl
window-rebound buf slots i (suc n) h k =
    let e = get_or slots (i % k_queue_size) blank in
    let slots' = set slots (i % k_queue_size) (rebind buf e) in
    let again : set slots ((i + k_queue_size) % k_queue_size) (rebind buf e) ≡ slots' =
      ap (λ (t : ℕ). set slots t (rebind buf e)) (omega arith) in
    ap₂ (λ (x : MemEntry) (l : List MemEntry). x ∷ l)
      (get_or-rebind_places buf slots' (i + 1) n i (omega arith) (omega arith)
        ∙ get_or-set_self slots (i % k_queue_size) (rebind buf e) blank (omega arith))
      (window-rebound buf slots' (i + 1) n (length-set slots (i % k_queue_size) (rebind buf e) ∙ h)
          (omega arith)
        ∙ ap (map (rebind buf)) (
            ap (λ (s : List MemEntry). window s (i + 1) n) (sym again)
            ∙ window-set slots (i + 1) n (i + k_queue_size) (rebind buf e) (omega arith)
                (omega arith)))

pub window-add :
    (slots : List MemEntry) (i a n : ℕ)
    → window slots i (a + n) ≡ window slots i a ++ window slots (i + a) n
unfolding window
window-add slots i zero n =
    let here : i ≡ i + 0 = omega arith in
    let all : 0 + n ≡ n = omega arith in ap₂ (window slots) here all
window-add slots i (suc a) n =
    let more : suc a + n ≡ suc (a + n) = omega arith in
    let there : i + 1 + a ≡ i + suc a = omega arith in
    ap (window slots i) more
    ∙ ap (λ (l : List MemEntry). get_or slots (i % k_queue_size) blank ∷ l)
        (window-add slots (i + 1) a n
          ∙ ap (λ (t : ℕ). window slots (i + 1) a ++ window slots t n) there)
