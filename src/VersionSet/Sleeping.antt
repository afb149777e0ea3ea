-- ===== src/VersionSet/Sleeping.antt =====
-- A writer that waits in AppendFrozenList of main/versionset.cpp for the Boardcast of
-- memory/compacter.cpp.
use yangkv_v.Base.{
  ℕ, ◌+◌, ◌<◌, ◌≤◌, ◌≡◌, ◌≢◌, refl, ap, ◌∙◌, ◌==◌, ==_iff, Bool, false, Bool-cases, inl, inr, arith,
  ◌-◌, leb→le,
}
use yangkv_v.SkipList.{SkipList}
use yangkv_v.Version.{Version, k_max_frozen_list, is_full, append_list}
use yangkv_v.VersionSet.Threads.{
  Place, away, calling, testing, waiting, asleep, entering, returning, watching, Threads, update,
  move, Step, call, take_lock, find_full, find_room, wait, stir, retake_lock, append_list_to,
  append_late, release_lock, notice, build, put_version, broadcast, Reach, here, next,
}

-- How many more lists the version has room for.
abbrev pub room : Version → ℕ
room v = k_max_frozen_list - v.list_count

-- A writer that sleeps on, while the other writers have appended what they have.
abbrev Sleeps : ℕ → SkipList → Threads → Threads → Type 0
Sleeps i l s t =
    (t.writer i ≡ asleep l)
    × (t.compacter ≡ watching)
    × (t.current.list_count + s.appends ≡ s.current.list_count + t.appends)
    × (s.appends ≤ t.appends)

appends-le : {b : Bool} {s t : Threads} → Step b s t → s.appends ≤ t.appends
appends-le (append_list_to s i l at) = omega arith
appends-le (append_late s i l at) = omega arith
appends-le _ = omega arith

-- The move of another writer.
still :
    (f : ℕ → Place) (i j : ℕ) (l : SkipList) (p : Place)
    → f j ≢ asleep l
    → f i ≡ asleep l
    → update f j p i ≡ asleep l
still f i j l p other at = elim (Bool-cases (j == i)) [
  | inl same ↦ absurd (other (ap f ((==_iff j i).0 same) ∙ at))
  | inr apart ↦ rw apart at
]

module _ (s : Threads) (i : ℕ) (l : SkipList) where
  Sleeps-move :
      (t : Threads) (j : ℕ) (p : Place)
      → t.writer j ≢ asleep l
      → Sleeps i l s t
      → Sleeps i l s (move j p t)
  Sleeps-move t j p other (z, w, c, o) = (still t.writer i j l p other z, w, c, o)

  Step-Sleeps :
      {t u : Threads}
      → Step false t u
      → Sleeps i l s t
      → u.appends < s.appends + room s.current
      → Sleeps i l s u
  unfolding append_list is_full
  Step-Sleeps (call t j m few at) z e = Sleeps-move t j (calling m) (λ q. cc) z
  Step-Sleeps (take_lock t j m at free) z e = Sleeps-move t j (testing m) (λ q. cc) z
  Step-Sleeps (find_full t j m at full) z e = Sleeps-move t j (waiting m) (λ q. cc) z
  Step-Sleeps (find_room t j m at has) z e = Sleeps-move t j (entering m) (λ q. cc) z
  Step-Sleeps (wait t j m at) z e = Sleeps-move t j (asleep m) (λ q. cc) z
  Step-Sleeps (stir t j m may at) z e = absurd (cc may)
  Step-Sleeps (retake_lock t j m at free) z e = Sleeps-move t j (returning m) (λ q. cc) z
  Step-Sleeps (append_list_to t j m at) (z, w, c, o) e =
      (still t.writer i j l _ (λ q. cc) z, w, omega arith, omega arith)
  Step-Sleeps (append_late t j m at) (z, w, c, o) e =
      (still t.writer i j l _ (λ q. cc) z, w, omega arith, omega arith)
  Step-Sleeps (release_lock t j at) z e = Sleeps-move t j away (λ q. cc) z
  Step-Sleeps (notice t at full) (z, w, c, o) e =
      absurd (omega (arith, leb→le k_max_frozen_list t.current.list_count full))
  Step-Sleeps (build t at) (z, w, c, o) e = absurd (cc (w, at))
  Step-Sleeps (put_version t meta ls at) (z, w, c, o) e = absurd (cc (w, at))
  Step-Sleeps (broadcast t at) (z, w, c, o) e = absurd (cc (w, at))

  Reach-Sleeps :
      {t : Threads}
      → s.writer i ≡ asleep l
      → s.compacter ≡ watching
      → Reach false s t
      → t.appends < s.appends + room s.current
      → Sleeps i l s t
  Reach-Sleeps z w here e = (z, w, refl, omega arith)
  Reach-Sleeps z w (next r step) e =
      Step-Sleeps step (Reach-Sleeps z w r (omega (arith, appends-le step))) e

-- A writer that sleeps in AppendFrozenList while the compacter watches sleeps on through every run
-- without an end of a wait that nobody has signalled, as long as fewer lists have been appended
-- than the version had room for; the compacter watches on, and the version has just these lists
-- more.
pub asleep_until_full :
    (s t : Threads) (i : ℕ) (l : SkipList)
    → s.writer i ≡ asleep l
    → s.compacter ≡ watching
    → Reach false s t
    → t.appends < s.appends + room s.current
    → (t.writer i ≡ asleep l)
      × (t.compacter ≡ watching)
      × (t.current.list_count + s.appends ≡ s.current.list_count + t.appends)
asleep_until_full s t i l z w r e = let (z', w', c, _) = Reach-Sleeps s i l z w r e in (z', w', c)
