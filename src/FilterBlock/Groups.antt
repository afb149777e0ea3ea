-- ===== src/FilterBlock/Groups.antt =====
-- The builder of table/filter_block.cpp by the groups of keys that it has made filters of.
use yangkv_v.Base.{
  lt→ltb, ℕ, zero, suc, ◌+◌, ◌-◌, ◌/◌, ◌^◌, ◌≤◌, ◌<◌, ◌≡◌, ◌⊎◌, inl, inr, refl, sym, ap, ◌∙◌, List,
  [], ◌∷◌, ◌++◌, length, length-append, append_assoc, append-nil, get_or, true, Bool-cases, arith,
  ltb, leb, leb→le,
}
use yangkv_v.Base.Outcome.{Outcome, done, refused, fault, ◌>>=◌}
use yangkv_v.FilterBlock.{
  FilterPolicy, FilterBlockBuilder, start_loop, start_block, add_key, k_filter_base,
}
use yangkv_v.FilterBlock.Joined.{
  add_key-holds, generate_filter-holds, holds, joined, length-offsets, offsets,
}
use mathlib.Core.Path.{subst}

abbrev pub In : List ℕ → List (List ℕ) → Type 0
In key [] = ⊥
In key (k ∷ ks) = (key ≡ k) ⊎ In key ks

In-append : (key : List ℕ) (ks js : List (List ℕ)) → In key ks → In key (ks ++ js)
In-append key [] js h = absurd h
In-append key (k ∷ ks) js (inl e) = inl e
In-append key (k ∷ ks) js (inr h) = inr (In-append key ks js h)

-- Every key of a group stays in the group of its index.
abbrev pub Extends : List (List (List ℕ)) → List (List (List ℕ)) → Type 0
Extends gs gs' = (key : List ℕ) (i : ℕ) → In key (get_or gs i []) → In key (get_or gs' i [])

pub Extends-append : (gs hs : List (List (List ℕ))) → Extends gs (gs ++ hs)
Extends-append [] hs key i h = absurd h
Extends-append (g ∷ gs) hs key zero h = h
Extends-append (g ∷ gs) hs key (suc i) h = Extends-append gs hs key i h

Extends-last :
    (gs : List (List (List ℕ))) (ks js : List (List ℕ))
    → Extends (gs ++ ks ∷ []) (gs ++ (ks ++ js) ∷ [])
Extends-last [] ks js key zero h = In-append key ks js h
Extends-last [] ks js key (suc i) h = h
Extends-last (g ∷ gs) ks js key zero h = h
Extends-last (g ∷ gs) ks js key (suc i) h = Extends-last gs ks js key i h

at_last :
    (gs : List (List (List ℕ))) (ks : List (List ℕ)) → get_or (gs ++ ks ∷ []) (length gs) [] ≡ ks
at_last [] ks = refl
at_last (g ∷ gs) ks = at_last gs ks

-- AddKey for each of some keys.
unfoldable pub add_keys : List (List ℕ) → FilterBlockBuilder → FilterBlockBuilder
add_keys [] b = b
add_keys (k ∷ ks) b = add_keys ks (add_key k b)

-- (StartBlock AddKey*)*
unfoldable pub add_blocks :
    FilterPolicy → List (ℕ × List (List ℕ)) → FilterBlockBuilder → Outcome FilterBlockBuilder
add_blocks policy [] b = done b
add_blocks policy ((block_offset, ks) ∷ blocks) b =
    start_block policy block_offset b >>= λ b'. add_blocks policy blocks (add_keys ks b')

done_same : {a b : FilterBlockBuilder} → done a ≡ done b → a ≡ b
done_same e = cc

bind_done :
    (o : Outcome FilterBlockBuilder) (k : FilterBlockBuilder → Outcome FilterBlockBuilder)
    (b : FilterBlockBuilder)
    → (o >>= k) ≡ done b
    → (a : FilterBlockBuilder) × (o ≡ done a) × (k a ≡ done b)
bind_done (done a) k b e = (a, refl, e)
bind_done refused k b e = cc
bind_done fault k b e = cc

add_keys-holds :
    (policy : FilterPolicy) (gs : List (List (List ℕ))) (ks js : List (List ℕ))
    → add_keys js (holds policy gs ks) ≡ holds policy gs (ks ++ js)
unfolding add_keys
add_keys-holds policy gs ks [] = ap (holds policy gs) (sym (append-nil ks))
add_keys-holds policy gs ks (j ∷ js) =
    ap (add_keys js) (add_key-holds policy gs ks j)
    ∙ add_keys-holds policy gs (ks ++ j ∷ []) js
    ∙ ap (holds policy gs) (append_assoc ks (j ∷ []) js)

start_loop-holds :
    (policy : FilterPolicy) (n index : ℕ) (gs : List (List (List ℕ))) (ks : List (List ℕ))
    → length (joined ks) < 2 ^ 64
    → length gs + n ≡ index
    → (gs' : List (List (List ℕ))) × (ks' : List (List ℕ)) × (start_loop policy n index
          (holds policy gs ks)
        ≡ holds policy gs' ks')
      × (length gs' ≡ index)
      × Extends (gs ++ ks ∷ []) (gs' ++ ks' ∷ [])
      × (length (joined ks') ≤ length (joined ks))
unfolding start_loop
start_loop-holds policy zero index gs ks small e =
    (gs, ks, refl, omega (arith, e), (λ key i h. h), omega arith)
start_loop-holds policy (suc n) index gs ks small e =
    let (gs', ks', run, there, extends, fewer) =
      start_loop-holds policy n index (gs ++ ks ∷ []) [] (omega arith)
        (omega (arith, e, length-append gs (ks ∷ []))) in
    let more : ltb (length (offsets policy 0 gs)) index ≡ true =
      lt→ltb (length (offsets policy 0 gs)) index (omega (arith, e, length-offsets policy 0 gs)) in
    (
      gs',
      ks',
      rw (more, generate_filter-holds policy gs ks small) run,
      there,
      (λ key i h. extends key i (Extends-append (gs ++ ks ∷ []) ([] ∷ []) key i h)),
      omega (arith, fewer),
    )

length-add_keys :
    (ks js : List (List ℕ)) → length (joined (ks ++ js)) ≡ length (joined ks) + length (joined js)
length-add_keys [] js = omega arith
length-add_keys (k ∷ ks) js =
    omega (
      arith,
      length-append k (joined (ks ++ js)),
      length-append k (joined ks),
      length-add_keys ks js,
    )

-- The bytes of all keys.
abbrev pub key_bytes : List (ℕ × List (List ℕ)) → ℕ
key_bytes [] = 0
key_bytes ((block_offset, ks) ∷ blocks) = length (joined ks) + key_bytes blocks

-- Every key of a block is in the group of the offset of the block.
abbrev pub Grouped : List (ℕ × List (List ℕ)) → List (List (List ℕ)) → Type 0
Grouped [] gs = Unit {0}
Grouped ((block_offset, ks) ∷ blocks) gs =
    ((key : List ℕ) → In key ks → In key (get_or gs (block_offset / k_filter_base) []))
    × Grouped blocks gs

pub Grouped-Extends :
    (blocks : List (ℕ × List (List ℕ))) (gs gs' : List (List (List ℕ)))
    → Extends gs gs'
    → Grouped blocks gs
    → Grouped blocks gs'
Grouped-Extends [] gs gs' e h = tt
Grouped-Extends ((block_offset, ks) ∷ blocks) gs gs' e h =
    (λ key k. e key (block_offset / k_filter_base) (h.0 key k), Grouped-Extends blocks gs gs' e h.1)

In-behind : (key : List ℕ) (ks js : List (List ℕ)) → In key js → In key (ks ++ js)
In-behind key [] js h = h
In-behind key (k ∷ ks) js h = inr (In-behind key ks js h)

start_block-holds :
    (policy : FilterPolicy) (block_offset : ℕ) (gs : List (List (List ℕ))) (ks : List (List ℕ))
    (b : FilterBlockBuilder)
    → length (joined ks) < 2 ^ 64
    → start_block policy block_offset (holds policy gs ks) ≡ done b
    → (gs' : List (List (List ℕ))) × (ks' : List (List ℕ)) × (b ≡ holds policy gs' ks')
      × (length gs' ≡ block_offset / k_filter_base)
      × Extends (gs ++ ks ∷ []) (gs' ++ ks' ∷ [])
      × (length (joined ks') ≤ length (joined ks))
unfolding start_block
start_block-holds policy block_offset gs ks b small run =
    let index = block_offset / k_filter_base in
    elim (Bool-cases (leb (length (offsets policy 0 gs)) index)) [
      | inr behind ↦ absurd (cc (rw behind at run))
      | inl ahead ↦
          let (gs', ks', loop, there, extends, fewer) =
            start_loop-holds policy (index - length (offsets policy 0 gs)) index gs ks small (
              omega (
                arith,
                leb→le (length (offsets policy 0 gs)) index ahead,
                length-offsets policy 0 gs,
              )) in
          (gs', ks', sym (done_same (rw ahead at run)) ∙ loop, there, extends, fewer)
    ]

-- What the calls come to, by the groups.
pub add_blocks-Grouped :
    (policy : FilterPolicy) (blocks : List (ℕ × List (List ℕ))) (gs : List (List (List ℕ)))
    (ks : List (List ℕ)) (b : FilterBlockBuilder)
    → length (joined ks) + key_bytes blocks < 2 ^ 64
    → add_blocks policy blocks (holds policy gs ks) ≡ done b
    → (gs' : List (List (List ℕ))) × (ks' : List (List ℕ)) × (b ≡ holds policy gs' ks')
      × (length (joined ks') < 2 ^ 64)
      × Extends (gs ++ ks ∷ []) (gs' ++ ks' ∷ [])
      × Grouped blocks (gs' ++ ks' ∷ [])
unfolding add_blocks
add_blocks-Grouped policy [] gs ks b small run =
    (gs, ks, sym (done_same run), omega arith, (λ key i h. h), tt)
add_blocks-Grouped policy ((block_offset, js) ∷ blocks) gs ks b small run =
    let (b₁, started, rest) =
      bind_done (start_block policy block_offset (holds policy gs ks)) _ b run in
    let (gs₁, ks₁, same, there, extends, fewer) =
      start_block-holds policy block_offset gs ks b₁ (omega arith) started in
    let run₁ : add_blocks policy blocks (holds policy gs₁ (ks₁ ++ js)) ≡ done b =
      ap (λ x. add_blocks policy blocks x)
        (sym (add_keys-holds policy gs₁ ks₁ js) ∙ ap (add_keys js) (sym same))
      ∙ rest in
    let (gs₂, ks₂, same₂, small₂, extends₂, grouped) =
      add_blocks-Grouped policy blocks gs₁ (ks₁ ++ js) b
        (omega (arith, length-add_keys ks₁ js, fewer)) run₁ in
    (
      gs₂,
      ks₂,
      same₂,
      small₂,
      (λ key i h. extends₂ key i (Extends-last gs₁ ks₁ js key i (extends key i h))),
      (
        (λ key h.
            subst (λ (i : ℕ). In key (get_or (gs₂ ++ ks₂ ∷ []) i [])) there
              (extends₂ key (length gs₁)
                (subst (In key) (sym (at_last gs₁ (ks₁ ++ js))) (In-behind key ks₁ js h)))),
        grouped,
      ),
    )
