-- ===== src/VersionSet/Kept.antt =====
-- The lists that the writers of memory/writer.cpp give to the current version, and what becomes of
-- them in the rounds of memory/compacter.cpp.
use yangkv_v.Base.{
  ℕ, zero, suc, ◌<◌, ◌≡◌, refl, sym, ◌∙◌, ◌==◌, ==_iff, ==_refl, Bool, true, false, Bool-cases, inl,
  inr, ◌||◌, List, [], ◌∷◌, ◌++◌, length, get_or, arith, length-set, get_or-set_self, get_or-set_ne,
  append-nil, append_assoc,
}
use yangkv_v.Hash.{k_max_writer}
use yangkv_v.SkipList.{SkipList}
use yangkv_v.Version.{Version, FileMetaData, new_version, is_full, append_list}
use yangkv_v.VersionSet.Threads.{
  returning, Stage, watching, compacting, built, installed, Threads, update, append_by, swap, Step,
  call, take_lock, find_full, find_room, wait, stir, retake_lock, append_list_to, append_late,
  release_lock, notice, build, put_version, broadcast, Reach, here, next,
}
use mathlib.Core.Path.{subst}

-- The version is full once the compacter has found it so, and the lists that it has read are those
-- of the version.
abbrev IsRead : Version → Stage → Type 0
IsRead v compacting = is_full v ≡ true
IsRead v (built ls) = (ls ≡ v.list) × (is_full v ≡ true)
IsRead v _ = Unit {0}

-- What each writer has appended, in order: the lists that the compacter has read from versions that
-- are replaced, and those that the current version has.
abbrev pub IsTraced : Threads → Type 0
IsTraced s =
    (length s.current.list ≡ k_max_writer)
    × IsRead s.current s.compacter
    × ((i : ℕ) → i < k_max_writer → s.frozen i ≡ s.handed i ++ get_or s.current.list i [])

not-IsRead : (v w : Version) (c : Stage) → is_full v ≡ false → IsRead v c → IsRead w c
not-IsRead v w (built ls) room h = absurd (cc (room, h.1))
not-IsRead v w watching room h = tt
not-IsRead v w compacting room h = absurd (cc (room, h))
not-IsRead v w installed room h = tt

neither : (a b : Bool) → (a || b) ≡ false → (a ≡ false) × (b ≡ false)
neither true b h = absurd (cc h)
neither false b h = (refl, h)

append_list-IsTraced :
    (s : Threads) (i : ℕ) (l : SkipList)
    → is_full s.current ≡ false
    → IsTraced s
    → IsTraced (append_by i l s)
unfolding append_list
append_list-IsTraced s i l room (four, read, kept) = (
  length-set s.current.list i _ ∙ four,
  not-IsRead s.current _ s.compacter room read,
  λ j below. elim (Bool-cases (i == j)) [
    | inl same ↦
        let e = (==_iff i j).0 same in
        rw (
          same,
          ← e,
          get_or-set_self s.current.list i (get_or s.current.list i [] ++ l ∷ []) []
              (omega (arith, e, four)),
          kept i (omega arith),
          append_assoc,
        )
    | inr other ↦
        rw
          (
            other,
            get_or-set_ne s.current.list i j (get_or s.current.list i [] ++ l ∷ []) []
                (λ e. absurd (ground arith)),
          )
          (kept j below)
  ],
)

append_by-IsTraced :
    (s : Threads) (i : ℕ) (l : SkipList)
    → (s.overfull ≡ false → IsTraced s)
    → (append_by i l s).overfull ≡ false
    → IsTraced (append_by i l s)
append_by-IsTraced s i l k e =
    let (early, room) = neither s.overfull (is_full s.current) e in
    append_list-IsTraced s i l room (k early)

no_list : (i : ℕ) → get_or new_version.list i [] ≡ []
no_list zero = refl
no_list (suc zero) = refl
no_list (suc (suc zero)) = refl
no_list (suc (suc (suc zero))) = refl
no_list (suc (suc (suc (suc i)))) = refl

Step-IsTraced :
    {b : Bool} {s t : Threads}
    → Step b s t
    → (s.overfull ≡ false → IsTraced s)
    → t.overfull ≡ false
    → IsTraced t
Step-IsTraced (call s i l few at) k e = k e
Step-IsTraced (take_lock s i l at free) k e = k e
Step-IsTraced (find_full s i l at full) k e = k e
Step-IsTraced (find_room s i l at room) k e = k e
Step-IsTraced (wait s i l at) k e = k e
Step-IsTraced (stir s i l may at) k e = k e
Step-IsTraced (retake_lock s i l at free) k e = k e
Step-IsTraced (append_list_to s i l at) k e = append_by-IsTraced s i l k e
Step-IsTraced (append_late s i l at) k e = append_by-IsTraced s i l k e
Step-IsTraced (release_lock s i at) k e = k e
Step-IsTraced (notice s at full) k e = let (four, read, kept) = k e in (four, full, kept)
Step-IsTraced (build s at) k e =
    let (four, read, kept) = k e in (four, (refl, subst (IsRead s.current) at read), kept)
Step-IsTraced (put_version s meta ls at) k e =
    let (four, read, kept) = k e in
    let (same, _) = subst (IsRead s.current) at read in
    (refl, tt, λ i below. rw (same, no_list i, append-nil) (kept i below))
Step-IsTraced (broadcast s at) k e = let (four, read, kept) = k e in (four, tt, kept)

-- Where the lists that each writer has appended are, in order, those that the compacter had read
-- from versions that have been replaced, and behind them those of the current version, and the
-- lists that the compacter has read are those of the current version, which is full (IsTraced), all
-- this holds after every run of the writers and the compacter, with or without ends of a wait that
-- nobody has signalled, in which no list has been appended to a full version. What BuildTable makes
-- of the lists that were read is no part of it.
pub Reach-IsTraced :
    (stirs : Bool) (s t : Threads) → IsTraced s → Reach stirs s t → t.overfull ≡ false → IsTraced t
Reach-IsTraced stirs s t k here e = k
Reach-IsTraced stirs s t k (next r step) e = Step-IsTraced step (Reach-IsTraced stirs s _ k r) e

update_self {ℓ} : {A : Type ℓ} (f : ℕ → A) (i : ℕ) (v : A) → update f i v i ≡ v
update_self f i v = rw (==_refl i) refl

-- In a state in which the lists that each writer has appended are those that the compacter had read
-- from replaced versions and those of the current version (IsTraced), the compacter has read the
-- lists for its table, and a writer stands in front of AppendList out of Wait, there is a run after
-- which the list is one that the writer has appended, and what the compacter had read and the
-- version has are the lists that the writer had appended before it, and not that list.
pub append_late_lost :
    (stirs : Bool) (s : Threads) (i : ℕ) (l : SkipList) (ls : List (List SkipList))
    (meta : FileMetaData)
    → i < k_max_writer
    → IsTraced s
    → s.compacter ≡ built ls
    → s.writer i ≡ returning l
    → (t : Threads) × Reach stirs s t
      × (t.frozen i ≡ s.frozen i ++ l ∷ [])
      × (t.handed i ++ get_or t.current.list i [] ≡ s.frozen i)
append_late_lost stirs s i l ls meta below k read at =
    let (four, same, kept) = k in
    let old = (subst (IsRead s.current) read same).0 in
    (
      swap meta ls (append_by i l s),
      next (next here (append_late s i l at)) (put_version (append_by i l s) meta ls read),
      update_self s.frozen i (s.frozen i ++ l ∷ []),
      rw (old, no_list i, append-nil) (sym (kept i below)),
    )
