-- ===== src/FilterBlock/Joined.antt =====
-- The keys and filters of a FilterBlockBuilder of table/filter_block.cpp as lists of groups.
use yangkv_v.Base.{
  ℕ, suc, ◌+◌, ◌-◌, ◌%◌, ◌^◌, ◌<◌, ◌≡◌, refl, sym, ap, ◌∙◌, List, [], ◌∷◌, ◌++◌, length,
  length-append, append_assoc, append-nil, drop, take_front, drop_front, false, arith, ◌==◌,
}
use yangkv_v.FilterBlock.{FilterPolicy, FilterBlockBuilder, tmp_keys, generate_filter, add_key}

abbrev pub joined : List (List ℕ) → List ℕ
joined [] = []
joined (k ∷ ks) = k ++ joined ks

abbrev pub starts : ℕ → List (List ℕ) → List ℕ
starts n [] = []
starts n (k ∷ ks) = n ∷ starts (n + length k) ks

joined-append : (ks : List (List ℕ)) (k : List ℕ) → joined (ks ++ k ∷ []) ≡ joined ks ++ k
joined-append [] k = append-nil k
joined-append (x ∷ ks) k =
    ap (λ (l : List ℕ). x ++ l) (joined-append ks k) ∙ sym (append_assoc x (joined ks) k)

starts-append :
    (n : ℕ) (ks : List (List ℕ)) (k : List ℕ)
    → starts n (ks ++ k ∷ []) ≡ starts n ks ++ (n + length (joined ks)) ∷ []
starts-append n [] k = ap (λ (x : ℕ). x ∷ []) (omega arith)
starts-append n (x ∷ ks) k =
    ap (λ (l : List ℕ). n ∷ l)
      (starts-append (n + length x) ks k
        ∙ ap (λ (m : ℕ). starts (n + length x) ks ++ m ∷ [])
            (omega (arith, length-append x (joined ks))))

-- The keys are cut where they were joined.
tmp_keys-joined :
    (n : ℕ) (c pre : List ℕ) (ks : List (List ℕ))
    → n ≡ length pre
    → c ≡ pre ++ joined ks
    → length c < 2 ^ 64
    → tmp_keys c (starts n ks ++ length c ∷ []) ≡ ks
unfolding tmp_keys
tmp_keys-joined n c pre [] here whole small = refl
tmp_keys-joined n c pre (k ∷ []) here whole small =
    let size : (length c + 2 ^ 64 - n) % 2 ^ 64 ≡ length k =
      omega (arith, ap (length {A = ℕ}) whole, length-append pre (k ++ []), length-append k []) in
    let cut : drop n c ≡ k ++ [] = ap (drop n) whole ∙ drop_front n pre (k ++ []) here in
    rw (size, cut, take_front (length k) k [] refl) refl
tmp_keys-joined n c pre (k ∷ j ∷ ks) here whole small =
    let rest = j ++ joined ks in
    let size : (n + length k + 2 ^ 64 - n) % 2 ^ 64 ≡ length k =
      omega
        (arith, ap (length {A = ℕ}) whole, length-append pre (k ++ rest), length-append k rest) in
    let cut : drop n c ≡ k ++ rest = ap (drop n) whole ∙ drop_front n pre (k ++ rest) here in
    rw (size, cut, take_front (length k) k rest refl)
      (ap (λ (l : List (List ℕ)). k ∷ l)
        (tmp_keys-joined (n + length k) c (pre ++ k) (j ∷ ks) (omega (arith, length-append pre k))
          (whole ∙ sym (append_assoc pre k rest)) small))

no_more : (n : ℕ) → 0 + n ≡ n
no_more n = omega arith

module _ (policy : FilterPolicy) where
  abbrev pub filter_of : List (List ℕ) → List ℕ
  filter_of [] = []
  filter_of (k ∷ ks) = policy.create_filter (k ∷ ks)

  abbrev pub filters : List (List (List ℕ)) → List ℕ
  filters [] = []
  filters (g ∷ gs) = filter_of g ++ filters gs

  abbrev pub offsets : ℕ → List (List (List ℕ)) → List ℕ
  offsets n [] = []
  offsets n (g ∷ gs) = n % 2 ^ 32 ∷ offsets (n + length (filter_of g)) gs

  -- The builder that has made the filters of some groups and collects the keys of the next.
  abbrev pub holds : List (List (List ℕ)) → List (List ℕ) → FilterBlockBuilder
  holds gs ks = record {
    keys = joined ks;
    start = starts 0 ks;
    result = filters gs;
    filter_offsets = offsets 0 gs;
  }

  pub add_key-holds :
      (gs : List (List (List ℕ))) (ks : List (List ℕ)) (k : List ℕ)
      → add_key k (holds gs ks) ≡ holds gs (ks ++ k ∷ [])
  unfolding add_key
  add_key-holds gs ks k =
      rw (joined-append ks k, starts-append 0 ks k, no_more (length (joined ks))) refl

  filters-append :
      (gs : List (List (List ℕ))) (g : List (List ℕ))
      → filters (gs ++ g ∷ []) ≡ filters gs ++ filter_of g
  filters-append [] g = append-nil (filter_of g)
  filters-append (x ∷ gs) g =
      ap (λ (l : List ℕ). filter_of x ++ l) (filters-append gs g)
      ∙ sym (append_assoc (filter_of x) (filters gs) (filter_of g))

  offsets-append :
      (n : ℕ) (gs : List (List (List ℕ))) (g : List (List ℕ))
      → offsets n (gs ++ g ∷ []) ≡ offsets n gs ++ (n + length (filters gs)) % 2 ^ 32 ∷ []
  offsets-append n [] g = ap (λ (x : ℕ). x % 2 ^ 32 ∷ []) (omega arith)
  offsets-append n (x ∷ gs) g =
      ap (λ (l : List ℕ). n % 2 ^ 32 ∷ l)
        (offsets-append (n + length (filter_of x)) gs g
          ∙ ap (λ (m : ℕ). offsets (n + length (filter_of x)) gs ++ m % 2 ^ 32 ∷ [])
              (omega (arith, length-append (filter_of x) (filters gs))))

  pub generate_filter-holds :
      (gs : List (List (List ℕ))) (ks : List (List ℕ))
      → length (joined ks) < 2 ^ 64
      → generate_filter policy (holds gs ks) ≡ holds (gs ++ ks ∷ []) []
  unfolding generate_filter
  generate_filter-holds gs [] small =
      rw
        (
          filters-append gs [],
          offsets-append 0 gs [],
          append-nil (filters gs),
          no_more (length (filters gs)),
        )
        refl
  generate_filter-holds gs (k ∷ ks) small =
      let some_keys : (length (starts 0 (k ∷ ks)) == 0) ≡ false = ground arith in
      rw
        (
          some_keys,
          tmp_keys-joined 0 (joined (k ∷ ks)) [] (k ∷ ks) refl refl small,
          filters-append gs (k ∷ ks),
          offsets-append 0 gs (k ∷ ks),
          no_more (length (filters gs)),
        )
        refl

  pub length-offsets : (n : ℕ) (gs : List (List (List ℕ))) → length (offsets n gs) ≡ length gs
  length-offsets n [] = refl
  length-offsets n (g ∷ gs) = ap suc (length-offsets (n + length (filter_of g)) gs)
