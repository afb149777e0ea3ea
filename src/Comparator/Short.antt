-- ===== src/Comparator/Short.antt =====
-- The keys that FindShortestSeparator and FindShortSuccessor of utils/comparator.h make stand where
-- they should in the order.
use yangkv_v.Base.{
  ◌<◌, ◌∙◌, sym, ==_iff, ==_refl, ℕ, suc, ◌+◌, ◌≤◌, ltb, leb, ◌==◌, ◌&&◌, min, Bool, true, false,
  List, [], ◌∷◌, length, get_or, if◌then◌else◌, ◌≡◌, ◌⊎◌, inl, inr, refl, ap, Bool-cases, arith,
  All,
}
use yangkv_v.Map.{key_compare}
use yangkv_v.Comparator.{common_prefix, find_shortest_separator, find_short_successor}
use mathlib.Core.Path.{subst}
use Prim.Native.Nat.{lt}

key_step : (a : ℕ) (s t : List ℕ) → key_compare (a ∷ s) (a ∷ t) ≡ key_compare s t
unfolding key_compare
key_step a s t = ground arith

key_less : (a b : ℕ) (s t : List ℕ) → a < b → key_compare (a ∷ s) (b ∷ t) ≡ lt
unfolding key_compare
key_less a b s t h = ground arith

successor_step :
    (b : ℕ) (key : List ℕ)
    → find_short_successor (b ∷ key)
      ≡ (if b == 255 then b ∷ find_short_successor key else (b + 1) ∷ [])
unfolding find_short_successor
successor_step b key = refl

-- FindShortSuccessor leaves a run of 0xff alone and makes any other key greater.
pub key_compare-find_short_successor :
    (key : List ℕ)
    → ((find_short_successor key ≡ key) × All (λ b. b ≡ 255) key)
      ⊎ (key_compare key (find_short_successor key) ≡ lt)
key_compare-find_short_successor [] = inl (unfold find_short_successor in refl, tt)
key_compare-find_short_successor (b ∷ key) = elim (Bool-cases (b == 255)) [
  | inr other ↦ inr (rw (successor_step b key, other) (key_less b (b + 1) key [] (omega arith)))
  | inl top ↦ elim (key_compare-find_short_successor key) [
    | inl (same, all) ↦ inl (rw (successor_step b key, top, same) refl, ((==_iff b 255).0 top, all))
    | inr less ↦
        inr (rw (successor_step b key, top) (key_step b key (find_short_successor key) ∙ less))
  ]
]

separator_step :
    (a : ℕ) (start limit : List ℕ)
    → find_shortest_separator (a ∷ start) (a ∷ limit) ≡ a ∷ find_shortest_separator start limit
unfolding find_shortest_separator common_prefix
separator_step a start limit =
    let d = common_prefix start limit in
    let shorter : leb (min (suc (length start)) (suc (length limit))) (suc d)
        ≡ leb (min (length start) (length limit)) d =
      ground arith in
    rw (==_refl a, shorter)
      (elim (Bool-cases (leb (min (length start) (length limit)) d)) [
        | inl past ↦ rw past refl
        | inr inside ↦
            rw inside
              (elim (Bool-cases
                (ltb (get_or start d 0) 255 && ltb (get_or start d 0 + 1) (get_or limit d 0))) [
                  | inl room ↦ rw room refl
                  | inr tight ↦ rw tight refl
                ])
      ])

separator_differ :
    (a b : ℕ) (start limit : List ℕ)
    → (a == b) ≡ false
    → find_shortest_separator (a ∷ start) (b ∷ limit)
      ≡ (if ltb a 255 && ltb (a + 1) b then (a + 1) ∷ [] else a ∷ start)
unfolding find_shortest_separator common_prefix
separator_differ a b start limit h =
    let inside : leb (min (suc (length start)) (suc (length limit))) 0 ≡ false = ground arith in
    rw (h, inside) refl

abbrev pub IsBetween : List ℕ → List ℕ → List ℕ → Type 0
IsBetween start s limit =
    ((s ≡ start) ⊎ (key_compare start s ≡ lt))
    × (key_compare s limit ≡ lt)
    × (length s ≤ length start)

IsBetween-step :
    (a : ℕ) (start s limit : List ℕ)
    → IsBetween start s limit
    → IsBetween (a ∷ start) (a ∷ s) (a ∷ limit)
IsBetween-step a start s limit (lower, upper, short) = (
  elim lower [
    | inl same ↦ inl (ap (λ (l : List ℕ). a ∷ l) same)
    | inr less ↦ inr (key_step a start s ∙ less)
  ],
  key_step a s limit ∙ upper,
  omega arith,
)

IsBetween-differ :
    (a b : ℕ) (start limit : List ℕ) (room : Bool)
    → a < b
    → (room ≡ true → a + 1 < b)
    → IsBetween (a ∷ start) (if room then (a + 1) ∷ [] else a ∷ start) (b ∷ limit)
IsBetween-differ a b start limit true h k = (
  inr (key_less a (a + 1) start [] (omega arith)),
  key_less (a + 1) b [] limit (k refl),
  omega arith,
)
IsBetween-differ a b start limit false h k = (inl refl, key_less a b start limit h, omega arith)

separator_none : (limit : List ℕ) → find_shortest_separator [] limit ≡ []
unfolding find_shortest_separator common_prefix
separator_none limit = let past : leb (min 0 (length limit)) 0 ≡ true = ground arith in rw past refl

heads : (a b : ℕ) (s t : List ℕ) → key_compare (a ∷ s) (b ∷ t) ≡ lt → (a ≡ b) ⊎ (a < b)
unfolding key_compare
heads a b s t h = ground arith

-- For a key that is less than the limit, FindShortestSeparator leaves a key that is the same or
-- greater, still less than the limit, and not longer.
pub find_shortest_separator-IsBetween :
    (start limit : List ℕ)
    → key_compare start limit ≡ lt
    → IsBetween start (find_shortest_separator start limit) limit
find_shortest_separator-IsBetween [] limit h = rw (separator_none limit) (inl refl, h, omega arith)
find_shortest_separator-IsBetween (a ∷ start) [] h = absurd (unfold key_compare in ground arith)
find_shortest_separator-IsBetween (a ∷ start) (b ∷ limit) h = elim (heads a b start limit h) [
  | inl same ↦
      subst
        (λ (x : ℕ).
          IsBetween (a ∷ start) (find_shortest_separator (a ∷ start) (x ∷ limit)) (x ∷ limit))
        same
        (rw (separator_step a start limit) (
          IsBetween-step a start (find_shortest_separator start limit) limit (
            find_shortest_separator-IsBetween start limit (
              sym (key_step a start limit)
              ∙ subst (λ (x : ℕ). key_compare (a ∷ start) (x ∷ limit) ≡ lt) (sym same) h))))
  | inr less ↦
      let other : (a == b) ≡ false = ground arith in
      rw (separator_differ a b start limit other)
        (IsBetween-differ a b start limit (ltb a 255 && ltb (a + 1) b) less (λ e. ground arith))
]
