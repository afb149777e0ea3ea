-- ===== src/Env/Paths.antt =====
-- Dirname and Basename of utils/env.cpp; `find` and `rfind` are those of std::string.
use yangkv_v.Base.{
  ℕ, suc, ◌+◌, ◌-◌, ◌≡◌, ◌≢◌, ◌⊎◌, inl, inr, refl, sym, ap, ◌∙◌, List, [], ◌∷◌, ◌++◌, length, take,
  drop, All, Option, none, some, ◌==◌, ==_iff, if◌then◌else◌, Bool-cases, arith, take_front,
  drop_front, length-append, append_assoc, append-nil,
}
use yangkv_v.Base.Outcome.{Outcome, done, fault}
use yangkv_v.Slice.{Slice, of_string}

abbrev pub separator : ℕ
separator = b'/'

-- The first place of a character, and the last.
pub find : ℕ → List ℕ → Option ℕ
find c [] = none
find c (x ∷ xs) =
    if x == c then some 0 else elim (find c xs) [ none ↦ none | some i ↦ some (suc i) ]

pub rfind : ℕ → List ℕ → Option ℕ
rfind c [] = none
rfind c (x ∷ xs) = elim (rfind c xs) [
  | none ↦ if x == c then some 0 else none
  | some i ↦ some (suc i)
]

-- Both routines hold an assertion that no separator stands behind the place.
abbrev asserted : Option ℕ → Outcome Slice → Outcome Slice
asserted none r = r
asserted (some _) r = fault

abbrev asserted_bytes : Option ℕ → Outcome (List ℕ) → Outcome (List ℕ)
asserted_bytes none r = r
asserted_bytes (some _) r = fault

abbrev dirname_at : List ℕ → Option ℕ → Outcome (List ℕ)
dirname_at filename none = done (b'.' ∷ [])
dirname_at filename (some p) =
    asserted_bytes (find separator (drop (p + 1) filename)) (done (take p filename))

-- WritableFile::Dirname
unfoldable pub dirname : List ℕ → Outcome (List ℕ)
unfolding find rfind
dirname filename = dirname_at filename (rfind separator filename)

abbrev basename_at : List ℕ → Option ℕ → Outcome Slice
basename_at filename none = done (of_string filename)
basename_at filename (some p) =
    asserted (find separator (drop (p + 1) filename))
      (done (record { ptr = drop (p + 1) (filename ++ 0 ∷ []); size = length filename - p - 1 }))

-- WritableFile::Basename
unfoldable pub basename : List ℕ → Outcome Slice
unfolding find rfind
basename filename = basename_at filename (rfind separator filename)

abbrev pub Lacks : ℕ → List ℕ → Type 0
Lacks c xs = All (λ x. x ≢ c) xs

find-none : (c : ℕ) (xs : List ℕ) → Lacks c xs → find c xs ≡ none
unfolding find
find-none c [] h = refl
find-none c (x ∷ xs) h = ground (arith, find-none c xs h.1, h.0)

-- Where the last place of a character is.
abbrev Splits : ℕ → List ℕ → Type 0
Splits c xs =
    ((rfind c xs ≡ none) × Lacks c xs)
    ⊎ ((dir : List ℕ) × (base : List ℕ) × (xs ≡ dir ++ c ∷ base)
        × Lacks c base
        × (rfind c xs ≡ some (length dir)))

rfind-Splits : (c : ℕ) (xs : List ℕ) → Splits c xs
unfolding rfind
rfind-Splits c [] = inl (refl, tt)
rfind-Splits c (x ∷ xs) = elim (rfind-Splits c xs) [
  | inl (absent, lacks) ↦ elim (Bool-cases (x == c)) [
    | inl here ↦
        inr ([], xs, ap (λ (y : ℕ). y ∷ xs) ((==_iff x c).0 here), lacks, rw (absent, here))
    | inr other ↦ inl (rw (absent, other), (λ e. absurd (ground arith), lacks))
  ]
  | inr (dir, base, split, lacks, at) ↦
      inr (x ∷ dir, base, ap (λ (l : List ℕ). x ∷ l) split, lacks, rw at)
]

-- The parts of a path.
abbrev pub Parts : List ℕ → Type 0
Parts s =
    (Lacks separator s × (dirname s ≡ done (b'.' ∷ [])) × (basename s ≡ done (of_string s)))
    ⊎ ((dir : List ℕ) × (base : List ℕ) × (s ≡ dir ++ separator ∷ base)
        × Lacks separator base
        × (dirname s ≡ done dir)
        × (basename s ≡ done (of_string base)))

behind :
    (dir base rest : List ℕ) (c : ℕ)
    → drop (length dir + 1) ((dir ++ c ∷ base) ++ rest) ≡ base ++ rest
behind dir base rest c =
    ap (drop (length dir + 1))
      (append_assoc dir (c ∷ base) rest ∙ sym (append_assoc dir (c ∷ []) (base ++ rest)))
    ∙ drop_front (length dir + 1) (dir ++ c ∷ []) (base ++ rest)
        (omega (arith, length-append dir (c ∷ [])))

-- On every path Dirname and Basename fail no assertion. On a path with no separator they answer a
-- dot and the path; any other path is what Dirname answers, a separator, and what Basename answers,
-- which has no separator.
pub path-Parts : (s : List ℕ) → Parts s
unfolding dirname basename
path-Parts s = elim (rfind-Splits separator s) [
  | inl (absent, lacks) ↦ inl (lacks, rw absent, rw absent)
  | inr (dir, base, split, lacks, at) ↦
      let after : drop (length dir + 1) s ≡ base =
        ap (drop (length dir + 1)) (split ∙ sym (append-nil (dir ++ separator ∷ base)))
        ∙ behind dir base [] separator
        ∙ append-nil base in
      let no_more : find separator (drop (length dir + 1) s) ≡ none =
        ap (find separator) after ∙ find-none separator base lacks in
      let front : take (length dir) s ≡ dir =
        ap (take (length dir)) split ∙ take_front (length dir) dir (separator ∷ base) refl in
      let back : drop (length dir + 1) (s ++ 0 ∷ []) ≡ base ++ 0 ∷ [] =
        ap (λ (l : List ℕ). drop (length dir + 1) (l ++ 0 ∷ [])) split
        ∙ behind dir base (0 ∷ []) separator in
      let left : length s - length dir - 1 ≡ length base =
        omega (arith, ap (length {A = ℕ}) split, length-append dir (separator ∷ base)) in
      inr (
        dir,
        base,
        split,
        lacks,
        ap (dirname_at s) at
            ∙ ap (λ (o : Option ℕ). asserted_bytes o (done (take (length dir) s))) no_more
            ∙ ap done front,
        ap (basename_at s) at
            ∙ ap
                (λ (o : Option ℕ). asserted o (
                  done (record {
                    ptr = drop (length dir + 1) (s ++ 0 ∷ []);
                    size = length s - length dir - 1;
                  })))
                no_more
            ∙ (λ i. done (record { ptr = back i; size = left i })),
      )
]
