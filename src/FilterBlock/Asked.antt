-- ===== src/FilterBlock/Asked.antt =====
-- The bytes of a filter block, and what the reader of table/filter_block.cpp answers on them.
use yangkv_v.Base.{
  ℕ, zero, suc, ◌+◌, ◌-◌, ◌*◌, ◌/◌, ◌%◌, ◌^◌, ◌≤◌, ◌<◌, ◌≡◌, inl, inr, refl, sym, ap, ◌∙◌, List, [],
  ◌∷◌, ◌++◌, length, length-append, append_assoc, take, drop, take_front, drop_front, All, get_or,
  true, false, arith, ltb, le→leb, lt→ltb, le→not_ltb,
}
use yangkv_v.Base.Outcome.{done, ◌>>=◌}
use yangkv_v.Coding.{put_fixed32, encode_fixed32, decode_fixed32}
use yangkv_v.Coding.Fixed.{decode_fixed32-encode_fixed32}
use yangkv_v.FilterBlock.{
  FilterPolicy, put_offsets, open_filter, key_may_match, k_filter_base, k_filter_base_lg,
}
use yangkv_v.FilterBlock.Groups.{In}
use yangkv_v.FilterBlock.Joined.{filter_of, filters, offsets, length-offsets}
use yangkv_v.FilterBlock.Words.{
  decode-words, drop_past, get_or-last, length-words, put_offsets-words, words, words-append,
}
use mathlib.Core.Path.{subst}

module _ (policy : FilterPolicy) where
  -- The offset array with the word behind it.
  abbrev array : ℕ → List (List (List ℕ)) → List ℕ
  array n gs = offsets policy n gs ++ (n + length (filters policy gs)) % 2 ^ 32 ∷ []

  -- The bytes of a filter block.
  abbrev pub bytes : List (List (List ℕ)) → List ℕ
  bytes gs = filters policy gs ++ (words (array 0 gs) ++ k_filter_base_lg ∷ [])

  array_small : (n : ℕ) (gs : List (List (List ℕ))) → All (λ (o : ℕ). o < 2 ^ 32) (array n gs)
  array_small n [] = (omega arith, tt)
  array_small n (g ∷ gs) = (
    omega arith,
    subst
        (λ (m : ℕ).
          All (λ (o : ℕ). o < 2 ^ 32)
            (offsets policy (n + length (filter_of policy g)) gs ++ m % 2 ^ 32 ∷ []))
        (omega (arith, length-append (filter_of policy g) (filters policy gs)))
        (array_small (n + length (filter_of policy g)) gs),
  )

  length-array : (n : ℕ) (gs : List (List (List ℕ))) → length (array n gs) ≡ length gs + 1
  length-array n gs = omega (
    arith,
    length-append (offsets policy n gs) ((n + length (filters policy gs)) % 2 ^ 32 ∷ []),
    length-offsets policy n gs,
  )

  -- Where the filter of an index begins.
  abbrev begins : ℕ → List (List (List ℕ)) → ℕ
  begins i gs = length (filters policy (take i gs))

  get_or-array :
      (n i : ℕ) (gs : List (List (List ℕ)))
      → i ≤ length gs
      → get_or (array n gs) i 0 ≡ (n + begins i gs) % 2 ^ 32
  get_or-array n zero [] h = refl
  get_or-array n (suc i) [] h = absurd (omega arith)
  get_or-array n zero (g ∷ gs) h = ap (λ (m : ℕ). m % 2 ^ 32) (omega arith)
  get_or-array n (suc i) (g ∷ gs) h =
      let f = filter_of policy g in
      subst
        (λ (m : ℕ).
          get_or (offsets policy (n + length f) gs ++ m % 2 ^ 32 ∷ []) i 0
          ≡ (n + length f + begins i gs) % 2 ^ 32)
        (omega (arith, length-append f (filters policy gs)))
        (get_or-array (n + length f) i gs (omega arith))
      ∙ ap (λ (m : ℕ). m % 2 ^ 32) (omega (arith, length-append f (filters policy (take i gs))))

  -- The bytes of the filter of an index.
  cut_filter :
      (i : ℕ) (gs : List (List (List ℕ))) (rest : List ℕ)
      → i < length gs
      → (begins i gs ≤ begins (suc i) gs)
        × (begins (suc i) gs ≤ length (filters policy gs))
        × (take (begins (suc i) gs - begins i gs) (drop (begins i gs) (filters policy gs ++ rest))
            ≡ filter_of policy (get_or gs i []))
  cut_filter i [] rest h = absurd (omega arith)
  cut_filter zero (g ∷ gs) rest h =
      let f = filter_of policy g in
      (
        omega arith,
        omega (arith, length-append f (filters policy gs), length-append f []),
        ap (take (length (f ++ []) - 0)) (append_assoc f (filters policy gs) rest)
            ∙ take_front (length (f ++ []) - 0) f (filters policy gs ++ rest)
                (omega (arith, length-append f [])),
      )
  cut_filter (suc i) (g ∷ gs) rest h =
      let f = filter_of policy g in
      let (rising, inside, cut) = cut_filter i gs rest (omega arith) in
      let one = length-append f (filters policy (take i gs)) in
      let two = length-append f (filters policy (take (suc i) gs)) in
      let size : begins (suc (suc i)) (g ∷ gs) - begins (suc i) (g ∷ gs)
          ≡ begins (suc i) gs - begins i gs =
        omega (arith, one, two) in
      (
        omega (arith, one, two, rising),
        omega (arith, two, inside, length-append f (filters policy gs)),
        ap (λ (k : ℕ). take k (drop (begins (suc i) (g ∷ gs)) ((f ++ filters policy gs) ++ rest)))
              size
            ∙ ap (take (begins (suc i) gs - begins i gs)) (
                ap (drop (begins (suc i) (g ∷ gs))) (append_assoc f (filters policy gs) rest)
                ∙ drop_past (begins (suc i) (g ∷ gs)) (begins i gs) f (filters policy gs ++ rest)
                    one)
            ∙ cut,
      )

  abbrev last_word : List (List (List ℕ)) → ℕ
  last_word gs = (0 + length (filters policy gs)) % 2 ^ 32

  split_bytes :
      (gs : List (List (List ℕ)))
      → bytes gs
        ≡ filters policy gs
          ++ (words (offsets policy 0 gs)
              ++ (encode_fixed32 (last_word gs) ++ k_filter_base_lg ∷ []))
  split_bytes gs =
      ap (λ (l : List ℕ). filters policy gs ++ l)
        (words-append (offsets policy 0 gs) (last_word gs) (k_filter_base_lg ∷ []))

  pub put_offsets-bytes :
      (gs : List (List (List ℕ)))
      → put_fixed32
            (put_offsets (filters policy gs) (offsets policy 0 gs))
            (length (filters policy gs) % 2 ^ 32)
          ++ k_filter_base_lg ∷ []
        ≡ bytes gs
  unfolding put_fixed32
  put_offsets-bytes gs =
      let f = filters policy gs in
      let w = words (offsets policy 0 gs) in
      let e = encode_fixed32 (length f % 2 ^ 32) in
      ap (λ (l : List ℕ). (l ++ e) ++ k_filter_base_lg ∷ [])
        (put_offsets-words f (offsets policy 0 gs))
      ∙ append_assoc (f ++ w) e (k_filter_base_lg ∷ [])
      ∙ append_assoc f w (e ++ k_filter_base_lg ∷ [])
      ∙ ap (λ (n : ℕ). f ++ (w ++ (encode_fixed32 (n % 2 ^ 32) ++ k_filter_base_lg ∷ [])))
          (omega arith)
      ∙ sym (split_bytes gs)

  length-bytes :
      (gs : List (List (List ℕ)))
      → length (bytes gs) ≡ length (filters policy gs) + (length gs + 1) * 4 + 1
  length-bytes gs = omega (
    arith,
    length-append (filters policy gs) (words (array 0 gs) ++ k_filter_base_lg ∷ []),
    length-append (words (array 0 gs)) (k_filter_base_lg ∷ []),
    length-words (array 0 gs),
    length-array 0 gs,
  )

  last_decoded :
      (gs : List (List (List ℕ)))
      → length (bytes gs) < 2 ^ 32
      → decode_fixed32 (drop (length (bytes gs) - 5) (bytes gs)) ≡ done (length (filters policy gs))
  last_decoded gs small =
      let f = filters policy gs in
      let w = words (offsets policy 0 gs) in
      let size = length-bytes gs in
      let wide : length w ≡ length gs * 4 =
        omega (arith, length-words (offsets policy 0 gs), length-offsets policy 0 gs) in
      let n = length (bytes gs) - 5 in
      ap (λ (l : List ℕ). decode_fixed32 (drop n l)) (split_bytes gs)
      ∙ ap decode_fixed32 (
          drop_past n (length w) f (w ++ (encode_fixed32 (last_word gs) ++ k_filter_base_lg ∷ []))
            (omega (arith, size, wide))
          ∙ drop_front (length w) w (encode_fixed32 (last_word gs) ++ k_filter_base_lg ∷ []) refl)
      ∙ decode_fixed32-encode_fixed32 (last_word gs) (k_filter_base_lg ∷ []) (omega arith)
      ∙ ap done (omega (arith, size, small))

  last_byte :
      (gs : List (List (List ℕ))) → get_or (bytes gs) (length (bytes gs) - 1) 0 ≡ k_filter_base_lg
  last_byte gs =
      let body = filters policy gs ++ words (array 0 gs) in
      let whole : bytes gs ≡ body ++ k_filter_base_lg ∷ [] =
        sym (append_assoc (filters policy gs) (words (array 0 gs)) (k_filter_base_lg ∷ [])) in
      let place : length (bytes gs) - 1 ≡ length body =
        omega (arith, ap (length {A = ℕ}) whole, length-append body (k_filter_base_lg ∷ [])) in
      ap (λ (n : ℕ). get_or (bytes gs) n 0) place
      ∙ ap (λ (l : List ℕ). get_or l (length body) 0) whole
      ∙ get_or-last body k_filter_base_lg 0

  open_filter-bytes :
      (gs : List (List (List ℕ)))
      → length (bytes gs) < 2 ^ 32
      → open_filter (bytes gs)
        ≡ done (record {
          contents = bytes gs;
          offset = length (filters policy gs);
          num = length gs;
          base_lg = k_filter_base_lg;
        })
  unfolding open_filter
  open_filter-bytes gs small =
      let size = length-bytes gs in
      let enough : ltb (length (bytes gs)) 5 ≡ false =
        le→not_ltb (length (bytes gs)) 5 (omega (arith, size)) in
      let inside : ltb (length (bytes gs) - 5) (length (filters policy gs)) ≡ false =
        le→not_ltb (length (bytes gs) - 5) (length (filters policy gs)) (omega (arith, size)) in
      let many : (length (bytes gs) - 5 - length (filters policy gs)) / 4 ≡ length gs =
        omega (arith, size) in
      rw (enough, last_decoded gs small, inside, last_byte gs, many) refl

  word_at :
      (i : ℕ) (gs : List (List (List ℕ)))
      → i ≤ length gs
      → length (bytes gs) < 2 ^ 32
      → begins i gs ≤ length (filters policy gs)
      → decode_fixed32 (drop (length (filters policy gs) + i * 4) (bytes gs)) ≡ done (begins i gs)
  word_at i gs h small inside =
      ap decode_fixed32 (
        drop_past (length (filters policy gs) + i * 4) (i * 4) (filters policy gs)
          (words (array 0 gs) ++ k_filter_base_lg ∷ []) refl)
      ∙ decode-words i (array 0 gs) (k_filter_base_lg ∷ []) (omega (arith, length-array 0 gs))
          (array_small 0 gs)
      ∙ ap done (get_or-array 0 i gs h ∙ omega (arith, inside, length-bytes gs, small))

  In-matches :
      (key : List ℕ) (g : List (List ℕ)) → In key g → policy.matches key (filter_of policy g) ≡ true
  In-matches key [] h = absurd h
  In-matches key (k ∷ ks) h = among (k ∷ ks) (policy.finds (k ∷ ks)) h
    where
      among :
          (l : List (List ℕ))
          → All (λ j. policy.matches j (policy.create_filter (k ∷ ks)) ≡ true) l
          → In key l
          → policy.matches key (policy.create_filter (k ∷ ks)) ≡ true
      among [] all h = absurd h
      among (j ∷ l) all (inl e) = rw e all.0
      among (j ∷ l) all (inr h) = among l all.1 h

  In-inside :
      (key : List ℕ) (i : ℕ) (gs : List (List (List ℕ))) → In key (get_or gs i []) → i < length gs
  In-inside key i [] h = absurd h
  In-inside key zero (g ∷ gs) h = omega arith
  In-inside key (suc i) (g ∷ gs) h = omega (arith, In-inside key i gs h)

  -- What the reader answers for a key of the group of the offset.
  pub asked :
      (gs : List (List (List ℕ))) (block_offset : ℕ) (key : List ℕ)
      → length (bytes gs) < 2 ^ 32
      → In key (get_or gs (block_offset / k_filter_base) [])
      → (open_filter (bytes gs) >>= λ r. key_may_match policy r block_offset key) ≡ done true
  unfolding key_may_match
  asked gs block_offset key small h =
      let i = block_offset / k_filter_base in
      let there = In-inside key i gs h in
      let (rising, inside, cut) =
        cut_filter i gs (words (array 0 gs) ++ k_filter_base_lg ∷ []) there in
      let more : ltb i (length gs) ≡ true = lt→ltb i (length gs) there in
      let next : length (filters policy gs) + i * 4 + 4 ≡ length (filters policy gs) + suc i * 4 =
        omega arith in
      rw
        (
          open_filter-bytes gs small,
          more,
          next,
          word_at i gs (omega (arith, there)) small (omega (arith, rising, inside)),
          word_at (suc i) gs (omega (arith, there)) small inside,
          le→leb (begins i gs) (begins (suc i) gs) rising,
          le→leb (begins (suc i) gs) (length (filters policy gs)) inside,
          cut,
        )
        (ap done (In-matches key (get_or gs i []) h))
