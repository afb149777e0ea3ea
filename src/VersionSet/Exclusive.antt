-- ===== src/VersionSet/Exclusive.antt =====
-- The lock of utils/condlock.h in AppendFrozenList of main/versionset.cpp: who has it, and what
-- the test of isFull is worth.
use yangkv_v.Base.{
  ℕ, ◌≡◌, if◌then◌else◌, ◌≢◌, refl, sym, ap, ◌∙◌, ◌==◌, ==_iff, Bool, true, false, Bool-cases, inl,
  inr, ◌⊎◌, Option, none, some, arith,
}
use yangkv_v.SkipList.{SkipList}
use yangkv_v.Version.{is_full}
use yangkv_v.VersionSet.Threads.{
  Place, away, calling, testing, waiting, asleep, woken, entering, returning, leaving, Threads,
  update, move, append_by, rouse, Step, call, take_lock, find_full, find_room, wait, stir,
  retake_lock, append_list_to, append_late, release_lock, notice, build, put_version, broadcast,
  Reach, here, next,
}

update-cases :
    (f : ℕ → Place) (j : ℕ) (p : Place) (i : ℕ) (q : Place)
    → update f j p i ≡ q
    → ((p ≡ q) × (j ≡ i)) ⊎ ((f i ≡ q) × (j ≢ i))
update-cases f j p i q e = elim (Bool-cases (j == i)) [
  | inl same ↦ inl (sym (ap (λ (b : Bool). if b then p else f i) same) ∙ e, (==_iff j i).0 same)
  | inr apart ↦
      inr (sym (ap (λ (b : Bool). if b then p else f i) apart) ∙ e, λ h. absurd (ground arith))
]

some_inj : {i j : ℕ} → some i ≡ some j → i ≡ j
some_inj e = cc e

-- A place inside of the critical section.
abbrev pub inside : Place → Bool
inside (testing l) = true
inside (waiting l) = true
inside (entering l) = true
inside (returning l) = true
inside leaving = true
inside _ = false

abbrev pub IsExclusive : Threads → Type 0
IsExclusive s = (i : ℕ) → inside (s.writer i) ≡ true → s.lock ≡ some i

-- A writer that is inside, and moves inside, keeps it.
IsExclusive-move :
    (s : Threads) (i : ℕ) (p : Place)
    → (inside p ≡ true → inside (s.writer i) ≡ true)
    → IsExclusive s
    → (j : ℕ) → inside (update s.writer i p j) ≡ true
    → s.lock ≡ some j
IsExclusive-move s i p h x j e = ground (arith, x i, x j)

IsExclusive-enter :
    (s : Threads) (i : ℕ) (p : Place)
    → s.lock ≡ none
    → IsExclusive s
    → (j : ℕ) → inside (update s.writer i p j) ≡ true
    → ◌≡◌ {A = Option ℕ} (some i) (some j)
IsExclusive-enter s i p free x j e = ground (arith, x j)

IsExclusive-leave :
    (s : Threads) (i : ℕ) (p : Place)
    → inside p ≡ false
    → s.lock ≡ some i
    → IsExclusive s
    → (j : ℕ) → inside (update s.writer i p j) ≡ true
    → ◌≡◌ {A = Option ℕ} none (some j)
IsExclusive-leave s i p out held x j e = ground (arith, x j)

inside-rouse : (p : Place) → inside (rouse p) ≡ inside p
inside-rouse (asleep l) = refl
inside-rouse away = refl
inside-rouse (calling l) = refl
inside-rouse (testing l) = refl
inside-rouse (waiting l) = refl
inside-rouse (woken l) = refl
inside-rouse (entering l) = refl
inside-rouse (returning l) = refl
inside-rouse leaving = refl

Step-IsExclusive : {b : Bool} {s t : Threads} → Step b s t → IsExclusive s → IsExclusive t
Step-IsExclusive (call s i l few at) x = IsExclusive-move s i (calling l) (λ e. absurd (cc e)) x
Step-IsExclusive (take_lock s i l at free) x = IsExclusive-enter s i (testing l) free x
Step-IsExclusive (find_full s i l at full) x =
    IsExclusive-move s i (waiting l) (λ e. ap inside at) x
Step-IsExclusive (find_room s i l at room) x =
    IsExclusive-move s i (entering l) (λ e. ap inside at) x
Step-IsExclusive (wait s i l at) x = IsExclusive-leave s i (asleep l) refl (x i (ap inside at)) x
Step-IsExclusive (stir s i l may at) x = IsExclusive-move s i (woken l) (λ e. absurd (cc e)) x
Step-IsExclusive (retake_lock s i l at free) x = IsExclusive-enter s i (returning l) free x
Step-IsExclusive (append_list_to s i l at) x = IsExclusive-move s i leaving (λ e. ap inside at) x
Step-IsExclusive (append_late s i l at) x = IsExclusive-move s i leaving (λ e. ap inside at) x
Step-IsExclusive (release_lock s i at) x = IsExclusive-leave s i away refl (x i (ap inside at)) x
Step-IsExclusive (notice s at full) x = x
Step-IsExclusive (build s at) x = x
Step-IsExclusive (put_version s meta ls at) x = x
Step-IsExclusive (broadcast s at) x = λ i e. x i (sym (inside-rouse (s.writer i)) ∙ e)

rouse_entering : (p : Place) (l : SkipList) → rouse p ≡ entering l → p ≡ entering l
rouse_entering (asleep m) l e = absurd (cc e)
rouse_entering away l e = e
rouse_entering (calling m) l e = e
rouse_entering (testing m) l e = e
rouse_entering (waiting m) l e = e
rouse_entering (woken m) l e = e
rouse_entering (entering m) l e = e
rouse_entering (returning m) l e = e
rouse_entering leaving l e = e

-- A writer that has found room has room.
abbrev pub IsRoomy : Threads → Type 0
IsRoomy s = (i : ℕ) (l : SkipList) → s.writer i ≡ entering l → is_full s.current ≡ false

IsRoomy-move :
    (s : Threads) (j : ℕ) (p : Place)
    → ((l : SkipList) → p ≢ entering l)
    → IsRoomy s
    → IsRoomy (move j p s)
IsRoomy-move s j p other h i l at = elim (update-cases s.writer j p i (entering l) at) [
  | inl (e, _) ↦ absurd (other l e)
  | inr (e, _) ↦ h i l e
]

-- With one writer inside, nobody else has found room when it appends.
IsRoomy-append_by :
    (s : Threads) (j : ℕ) (m : SkipList)
    → inside (s.writer j) ≡ true
    → IsExclusive s
    → IsRoomy (append_by j m s)
IsRoomy-append_by s j m in_j x i l at = elim (update-cases s.writer j leaving i (entering l) at) [
  | inl (e, _) ↦ absurd (cc e)
  | inr (e, apart) ↦ absurd (apart (some_inj (sym (x j in_j) ∙ x i (ap inside e))))
]

Step-IsRoomy : {b : Bool} {s t : Threads} → Step b s t → IsExclusive s → IsRoomy s → IsRoomy t
unfolding is_full
Step-IsRoomy (call s i l few at) x = IsRoomy-move s i (calling l) (λ m. cc)
Step-IsRoomy (take_lock s i l at free) x = IsRoomy-move s i (testing l) (λ m. cc)
Step-IsRoomy (find_full s i l at full) x = IsRoomy-move s i (waiting l) (λ m. cc)
Step-IsRoomy (find_room s i l at room) x = λ h j m e. room
Step-IsRoomy (wait s i l at) x = IsRoomy-move s i (asleep l) (λ m. cc)
Step-IsRoomy (stir s i l may at) x = IsRoomy-move s i (woken l) (λ m. cc)
Step-IsRoomy (retake_lock s i l at free) x = IsRoomy-move s i (returning l) (λ m. cc)
Step-IsRoomy (append_list_to s i l at) x = λ h. IsRoomy-append_by s i l (ap inside at) x
Step-IsRoomy (append_late s i l at) x = λ h. IsRoomy-append_by s i l (ap inside at) x
Step-IsRoomy (release_lock s i at) x = IsRoomy-move s i away (λ m. cc)
Step-IsRoomy (notice s at full) x = λ h. h
Step-IsRoomy (build s at) x = λ h. h
Step-IsRoomy (put_version s meta ls at) x = λ h i l e. refl
Step-IsRoomy (broadcast s at) x = λ h i l e. h i l (rouse_entering (s.writer i) l e)

pub Reach-IsExclusive : {b : Bool} {s t : Threads} → IsExclusive s → Reach b s t → IsExclusive t
Reach-IsExclusive x here = x
Reach-IsExclusive x (next r step) = Step-IsExclusive step (Reach-IsExclusive x r)

Reach-IsRoomy : {b : Bool} {s t : Threads} → IsExclusive s → IsRoomy s → Reach b s t → IsRoomy t
Reach-IsRoomy x h here = h
Reach-IsRoomy x h (next r step) = Step-IsRoomy step (Reach-IsExclusive x r) (Reach-IsRoomy x h r)

-- After every run from a state in which only the writer with the lock is inside of
-- AppendFrozenList, and a writer that has found room has room, a writer that has found room and
-- stands in front of AppendList has the lock, and the version has room.
pub entering_has_room :
    (stirs : Bool) (s t : Threads) (i : ℕ) (l : SkipList)
    → IsExclusive s
    → IsRoomy s
    → Reach stirs s t
    → t.writer i ≡ entering l
    → (is_full t.current ≡ false) × (t.lock ≡ some i)
entering_has_room stirs s t i l x h r at =
    (Reach-IsRoomy x h r i l at, Reach-IsExclusive x r i (ap inside at))
