-- ===== src/Version/Frozen.antt =====
-- What the lists of a writer hold: of each key, the entry that was inserted last.
use yangkv_v.Base.{
  ℕ, ◌≡◌, inl, inr, refl, ap, ◌∙◌, List, [], ◌∷◌, ◌++◌, length, ◌==◌, if◌then◌else◌, Option, none,
  some, arith, Bool-cases, same_bytes, le→leb,
}
use yangkv_v.Slice.{copy, Slice, to_string}
use yangkv_v.Base.Outcome.{done}
use yangkv_v.Map.{find}
use yangkv_v.Map.Laws.{find-insert}
use yangkv_v.MemEntry.{MemEntry}
use yangkv_v.MemEntry.Storable.{IsStorable, code, view, encode_mem_entry-code}
use yangkv_v.SkipList.{SkipList, new_list}
use yangkv_v.Version.{first_hit, or_hit}
use mathlib.Core.List.{reverse, reverse-append}
use mathlib.Core.Option
use yangkv_v.Map
use yangkv_v.SkipList

-- The last entry of a history that has the key.
abbrev pub later_or : Option MemEntry → Option MemEntry → Option MemEntry
later_or (some x) d = some x
later_or none d = d

unfoldable pub last_of : List ℕ → List MemEntry → Option MemEntry
last_of key [] = none
last_of key (e ∷ es) =
    later_or (last_of key es) (if same_bytes key (view e.key) then some e else none)

pub last_of_last :
    (key : List ℕ) (es : List MemEntry) (e : MemEntry)
    → last_of key (es ++ e ∷ []) ≡ (if same_bytes key (view e.key) then some e else last_of key es)
unfolding last_of
last_of_last key [] e = refl
last_of_last key (x ∷ es) e =
    rw (last_of_last key es e)
      (elim (Bool-cases (same_bytes key (view e.key))) [ inl hit ↦ rw hit | inr miss ↦ rw miss ])

-- The run of bytes that a list keeps of an entry.
abbrev pub slice_of : MemEntry → Slice
slice_of e = record { ptr = code e; size = length (code e) }

-- The binding of a key in the active list, or else in the newest frozen list that has one.
abbrev pub newest : List ℕ → List SkipList → SkipList → Option Slice
newest key frozen active = or_hit (SkipList.get key active) (first_hit key (reverse frozen))

-- The lists hold what the history of insertions says.
abbrev pub Holds : List MemEntry → List SkipList → SkipList → Type 0
Holds es frozen active =
    (key : List ℕ) → newest key frozen active ≡ Option.map slice_of (last_of key es)

insert_lem :
    (e : MemEntry) (l : SkipList)
    → IsStorable e
    → (l' : SkipList) × (SkipList.insert e l ≡ done l')
      × ((key : List ℕ)
          → SkipList.get key l'
            ≡ (if same_bytes key (view e.key) then some (slice_of e) else SkipList.get key l))
unfolding SkipList.insert SkipList.get to_string copy
insert_lem e l h = (
  record l {
    id = if SkipList.size l == 0 then e.seq_num else l.id;
    list = Map.insert (view e.key) (slice_of e) l.list;
  },
  rw (encode_mem_entry-code e h, le→leb e.key.size (length e.key.ptr) (omega (arith, h.key_room))),
  λ key. find-insert key (view e.key) (slice_of e) l.list,
)

-- An empty list holds the history with no entry.
pub new_list-Holds : Holds [] [] new_list
unfolding last_of first_hit SkipList.get find
new_list-Holds = λ key. refl

-- Inserting a storable entry into the active list succeeds and extends the history that the active
-- and frozen lists hold by that entry, the newer binding shadowing the older one.
pub insert-Holds :
    (e : MemEntry) (es : List MemEntry) (frozen : List SkipList) (active : SkipList)
    → IsStorable e
    → Holds es frozen active
    → (active' : SkipList) × (SkipList.insert e active ≡ done active')
      × Holds (es ++ e ∷ []) frozen active'
insert-Holds e es frozen active h holds =
    let (active', inserted, bound) = insert_lem e active h in
    (
      active',
      inserted,
      λ key.
          ap (λ (o : Option Slice). or_hit o (first_hit key (reverse frozen))) (bound key)
          ∙ rw (last_of_last key es e) (elim (Bool-cases (same_bytes key (view e.key))) [
            | inl hit ↦ rw hit
            | inr miss ↦ rw miss (holds key)
          ]),
    )

empty_get : (key : List ℕ) → SkipList.get key new_list ≡ none
unfolding SkipList.get
empty_get key = unfold Map.find in refl

-- Freezing the active list and going on with an empty one changes nothing of what is held.
pub freeze-Holds :
    (es : List MemEntry) (frozen : List SkipList) (active : SkipList)
    → Holds es frozen active
    → Holds es (frozen ++ active ∷ []) new_list
freeze-Holds es frozen active holds key =
    rw (empty_get key, reverse-append frozen (active ∷ [])) (unfold first_hit in holds key)
