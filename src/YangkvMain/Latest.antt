-- ===== src/YangkvMain/Latest.antt =====
-- getValue of main/yangkvMain.cpp answers by the entries that the writer threads have moved out of
-- their queues, and by no other.
use yangkv_v.Base.{
  ℕ, ◌+◌, ◌<◌, ◌≡◌, inl, inr, refl, ap, ◌∙◌, List, [], ◌∷◌, ◌++◌, length, take, get_or, ltb, leb,
  Bool, true, false, if◌then◌else◌, Option, none, some, arith, Bool-cases, Option-cases, some_inj,
  All, same_bytes, append-nil, length-take, length-append, le→leb, le→not_ltb,
}
use yangkv_v.Base.Outcome.{done, ◌>>=◌}
use yangkv_v.Slice.{Slice, to_string, copy}
use yangkv_v.Hash.{writer_of}
use yangkv_v.MemEntry.{MemEntry, decode_mem_entry}
use yangkv_v.MemEntry.RoundTrip.{reread, decode_mem_entry-code, view_behind}
use yangkv_v.MemEntry.Storable.{IsStorable, code, view}
use yangkv_v.Status.{ok, not_found}
use yangkv_v.SkipList.{SkipList}
use yangkv_v.MessageQueue.Window.{entries}
use yangkv_v.MessageQueue.Search.{search_above}
use yangkv_v.Version.{Version, first_hit, read_hit, or_hit}
use yangkv_v.Version.Frozen.{last_of, slice_of}
use yangkv_v.Writer.{get_entry, read_entry, judge}
use yangkv_v.Writer.Drain.{IsHolding}
use yangkv_v.YangkvMain.{YangkvMain, writer_at, Answer, get_value, from_entry, from_version}
use mathlib.Core.List.{reverse}
use mathlib.Core.Path.{subst}
use mathlib.Core.Option
use yangkv_v.SkipList
use yangkv_v.Version

-- What a reader is told of a key by the last entry that has it.
abbrev no_answer : Answer
no_answer = (not_found, none)

abbrev value_answer : List ℕ → Answer
value_answer v = (ok, some v)

abbrev pub answer_of : Option MemEntry → Answer
answer_of none = (not_found, none)
answer_of (some e) = if e.value_type then (not_found, none) else (ok, some (view e.value))

-- The entries that the writer of `key` has taken are those of `es`; all sequence numbers given out
-- are below idx_.
pub record IsSettled (key : List ℕ) (db : YangkvMain) (es : List MemEntry) : Type 0 where
  pub holding : IsHolding (writer_at db (writer_of key)) db.current es
  pub own : (writer_at db (writer_of key)).id ≡ writer_of key
  pub storable : All IsStorable es
  pub numbered : All (λ e. e.seq_num < db.idx) es
  pub queued : All (λ e. e.seq_num < db.idx) (entries (writer_at db (writer_of key)).queue)

last_of-All :
    (P : MemEntry → Type 0) (key : List ℕ) (es : List MemEntry) (e : MemEntry)
    → All P es
    → last_of key es ≡ some e
    → P e
unfolding last_of
last_of-All P key [] e h k = cc
last_of-All P key (x ∷ es) e h k = elim (Option-cases (last_of key es)) [
  | inl n ↦
      let k' : (if same_bytes key (view x.key) then some x else none) ≡ some e = rw n at k in
      elim (Bool-cases (same_bytes key (view x.key))) [
        | inl hit ↦ let same : some x ≡ some e = rw hit at k' in subst P (some_inj same) h.0
        | inr miss ↦ let gone : none ≡ some e = rw miss at k' in absurd (cc gone)
      ]
  | inr (y, q) ↦ let k' : some y ≡ some e = rw q at k in last_of-All P key es e h.1 (q ∙ k')
]

read_back : (e : MemEntry) → IsStorable e → decode_mem_entry (slice_of e) ≡ done (reread e [])
read_back e h = rw (append-nil (code e)) at (decode_mem_entry-code e [] (length (code e)) h)

value_back : (e : MemEntry) → IsStorable e → to_string (reread e []).value ≡ done (view e.value)
unfolding to_string copy
value_back e h =
    let room : leb e.value.size (length (take (e.value.size + 1) e.value.ptr ++ [])) ≡ true =
      le→leb e.value.size _ (
        omega (
          arith,
          h.value_room,
          length-append (take (e.value.size + 1) e.value.ptr) [],
          length-take (e.value.size + 1) e.value.ptr,
        )) in
    rw room (ap done (view_behind e.value.size e.value.ptr [] h.value_room))

judge_lem :
    (seq : ℕ) (e : MemEntry)
    → IsStorable e
    → e.seq_num < seq
    → judge seq (reread e []) ≡ done (some (answer_of (some e)))
judge_lem seq e h young =
    let old : ltb seq e.seq_num ≡ false = le→not_ltb seq e.seq_num (omega arith) in
    rw old (by_type e.value_type)
  where
    by_type :
        (b : Bool)
        → (if b
            then done (some no_answer)
            else (do v ← to_string (reread e []).value; done (some (value_answer v))))
          ≡ done (some (if b then no_answer else value_answer (view e.value)))
    by_type true = refl
    by_type false = rw (value_back e h)

found_lem :
    (e : MemEntry)
    → IsStorable e
    → (do r ← Version.found (reread e []); done (from_version r)) ≡ done (answer_of (some e))
found_lem e h = by_type e.value_type
  where
    by_type :
        (b : Bool)
        → ((if b then done none else (do v ← to_string (reread e []).value; done (some v))) >>= λ r.
            done (from_version r))
          ≡ done (if b then no_answer else value_answer (view e.value))
    by_type true = refl
    by_type false = rw (value_back e h)

-- What the list and the version say, by what the two of them hold.
below_lem :
    (seq : ℕ) (active below : Option Slice) (m : Option MemEntry)
    → or_hit active below ≡ Option.map slice_of m
    → ((e : MemEntry) → m ≡ some e → IsStorable e × (e.seq_num < seq))
    → (do r ← read_entry seq active; from_entry (read_hit below) r) ≡ done (answer_of m)
unfolding read_entry read_hit
below_lem seq (some s) below none h k = absurd (cc h)
below_lem seq (some s) below (some e) h k =
    let (storable, young) = k e refl in
    let same : s ≡ slice_of e = some_inj h in
    rw (same, read_back e storable, judge_lem seq e storable young)
below_lem seq none none none h k = refl
below_lem seq none none (some e) h k = absurd (cc h)
below_lem seq none (some s) none h k = absurd (cc h)
below_lem seq none (some s) (some e) h k =
    let (storable, _) = k e refl in
    let same : s ≡ slice_of e = some_inj h in rw (same, read_back e storable) (found_lem e storable)

-- In a settled state, getValue returns what the last entry of the key among those taken from the
-- queue of the key's writer says, over the active list and all frozen lists: its value, or NotFound
-- for a deletion or where there is none.
pub get_value-answer_of :
    (key : List ℕ) (db : YangkvMain) (es : List MemEntry)
    → IsSettled key db es
    → get_value key db ≡ done (answer_of (last_of key es))
unfolding get_value get_entry Version.get
get_value-answer_of key db es s =
    let w = writer_at db (writer_of key) in
    rw (search_above key db.idx w.queue s.holding.valid s.queued) (
      below_lem db.idx (SkipList.get key w.list)
        (first_hit key (reverse (get_or db.current.list (writer_of key) []))) (last_of key es)
        (subst
          (λ (i : ℕ).
            or_hit (SkipList.get key w.list) (first_hit key (reverse (get_or db.current.list i [])))
            ≡ Option.map slice_of (last_of key es))
          s.own (s.holding.holds key))
        (λ e k. (
          last_of-All IsStorable key es e s.storable k,
          last_of-All (λ x. x.seq_num < db.idx) key es e s.numbered k,
        )))
