-- ===== src/VersionEdit/Enough.antt =====
-- How many rounds the loop of DecodeFrom of main/versionedit.cpp takes.
use yangkv_v.Base.{
  ℕ, zero, suc, ◌≤◌, ◌<◌, ◌≡◌, ◌≢◌, refl, List, arith, Bool, true, false, ltb, leb, ◌==◌,
  if◌then◌else◌,
}
use yangkv_v.Base.Outcome.{Outcome, done, refused, fault, ◌>>=◌}
use yangkv_v.Coding.{get_varint32, get_varint64, get_length_prefixed_slice, Read}
use yangkv_v.Coding.Bounds.{ptr32_takes, ptr64_takes}
use yangkv_v.MemEntry.{decode_mem_entry}
use yangkv_v.Slice.{Slice, remove_prefix}
use yangkv_v.Version.{k_max_level}
use yangkv_v.VersionEdit.{
  VersionEdit, Decoded, decode_field, decode_loop, on_result, get_level, get_mem_entry,
  decode_number, decode_deleted, decode_new, set_prev_log_number, set_next_file, set_last_sequence,
}

-- Where a reader answers, fewer than `n` bytes are left.
abbrev Leaves {ℓ} : {A : Type ℓ} → ℕ → Outcome (A × Slice) → Type 0
Leaves n (done (v, s)) = s.size < n
Leaves n refused = Unit
Leaves n fault = Unit

Leaves-bind {ℓ κ} :
    {A : Type ℓ} {B : Type κ} (n : ℕ) (o : Outcome (A × Slice))
    (k : A × Slice → Outcome (B × Slice))
    → Leaves n o
    → ((v : A) (s : Slice) → s.size < n → Leaves n (k (v, s)))
    → Leaves n (o >>= k)
Leaves-bind n (done (v, s)) k h rest = rest v s h
Leaves-bind n refused k h rest = tt
Leaves-bind n fault k h rest = tt

-- The slice that is made of what a pointer reader leaves.
rest_Leaves :
    (o : Outcome Read) (n : ℕ)
    → ((v : ℕ) (q : List ℕ) (m : ℕ) → o ≡ done (v, q, m) → m < n)
    → Leaves n (do (v, q, m) ← o; done (v, record { ptr = q; size = m }))
rest_Leaves (done (v, q, m)) n h = h v q m refl
rest_Leaves refused n h = tt
rest_Leaves fault n h = tt

Leaves-mono {ℓ} : {A : Type ℓ} (m n : ℕ) (o : Outcome (A × Slice)) → m ≤ n → Leaves m o → Leaves n o
Leaves-mono m n (done (v, s)) le h = omega arith
Leaves-mono m n refused le h = tt
Leaves-mono m n fault le h = tt

get_varint32-Leaves : (input : Slice) → Leaves input.size (get_varint32 input)
unfolding get_varint32
get_varint32-Leaves input = rest_Leaves _ input.size (ptr32_takes input.ptr input.size)

get_varint64-Leaves : (n : ℕ) (input : Slice) → input.size < n → Leaves n (get_varint64 input)
unfolding get_varint64
get_varint64-Leaves n input h =
    Leaves-mono input.size n _ (omega arith)
      (rest_Leaves _ input.size (ptr64_takes input.ptr input.size))

-- An answer that keeps the rest, and one that only refuses.
Leaves-test {ℓ} :
    {A : Type ℓ} (n : ℕ) (b : Bool) (o : Outcome (A × Slice))
    → (b ≡ true → Leaves n o)
    → Leaves n (if b then o else refused)
Leaves-test n true o h = h refl
Leaves-test n false o h = tt

Leaves-either {ℓ} :
    {A : Type ℓ} (n : ℕ) (b : Bool) (o other : Outcome (A × Slice))
    → Leaves n o
    → Leaves n other
    → Leaves n (if b then o else other)
Leaves-either n true o other h h' = h
Leaves-either n false o other h h' = h'

get_level-Leaves : (n : ℕ) (input : Slice) → input.size < n → Leaves n (get_level input)
unfolding get_level
get_level-Leaves n input h =
    Leaves-bind n (get_varint32 input) _
      (Leaves-mono input.size n _ (omega arith) (get_varint32-Leaves input))
      (λ v s small. Leaves-test n (ltb v k_max_level) (done (v, s)) (λ _. small))

get_length_prefixed_slice-Leaves :
    (n : ℕ) (input : Slice) → input.size < n → Leaves n (get_length_prefixed_slice input)
unfolding get_length_prefixed_slice remove_prefix
get_length_prefixed_slice-Leaves n input h =
    Leaves-bind n (get_varint32 input) _
      (Leaves-mono input.size n _ (omega arith) (get_varint32-Leaves input))
      (λ len s small. Leaves-test n (leb len s.size) _ (λ fits. rw fits (omega arith)))

Leaves-answer {ℓ} :
    {A : Type ℓ} (n : ℕ) (o : Outcome A) (s : Slice) → s.size < n → Leaves n (do x ← o; done (x, s))
Leaves-answer n (done x) s h = h
Leaves-answer n refused s h = tt
Leaves-answer n fault s h = tt

get_mem_entry-Leaves : (n : ℕ) (input : Slice) → input.size < n → Leaves n (get_mem_entry input)
unfolding get_mem_entry
get_mem_entry-Leaves n input h =
    Leaves-bind n (get_length_prefixed_slice input) _ (get_length_prefixed_slice-Leaves n input h)
      (λ str s small. Leaves-answer n (decode_mem_entry str) s small)

decode_number-Leaves :
    (n : ℕ) (put : ℕ → VersionEdit → VersionEdit) (input : Slice) (d : Decoded)
    → input.size < n
    → Leaves n (decode_number put input d)
decode_number-Leaves n put input d h =
    Leaves-bind n (get_varint64 input) _ (get_varint64-Leaves n input h) (λ num s small. small)

decode_deleted-Leaves :
    (n : ℕ) (input : Slice) (d : Decoded) → input.size < n → Leaves n (decode_deleted input d)
decode_deleted-Leaves n input d h =
    Leaves-bind n (get_level input) _ (get_level-Leaves n input h) (λ level s₁ h₁.
      Leaves-bind n (get_varint64 s₁) _ (get_varint64-Leaves n s₁ h₁) (λ num s₂ h₂. h₂))

decode_new-Leaves :
    (n : ℕ) (input : Slice) (d : Decoded) → input.size < n → Leaves n (decode_new input d)
decode_new-Leaves n input d h =
    Leaves-bind n (get_level input) _ (get_level-Leaves n input h) (λ level s₁ h₁.
      Leaves-bind n (get_varint64 s₁) _ (get_varint64-Leaves n s₁ h₁) (λ num s₂ h₂.
        Leaves-bind n (get_varint64 s₂) _ (get_varint64-Leaves n s₂ h₂) (λ file_size s₃ h₃.
          Leaves-bind n (get_mem_entry s₃) _ (get_mem_entry-Leaves n s₃ h₃) (λ smallest s₄ h₄.
            Leaves-bind n (get_mem_entry s₄) _ (get_mem_entry-Leaves n s₄ h₄)
              (λ largest s₅ h₅. h₅)))))

decode_field-Leaves :
    (n tag : ℕ) (input : Slice) (d : Decoded) → input.size < n → Leaves n (decode_field tag input d)
unfolding decode_field
decode_field-Leaves n tag input d h =
    Leaves-either n (tag == 9) _ _ (decode_number-Leaves n set_prev_log_number input d h) (
      Leaves-either n (tag == 3) _ _ (decode_number-Leaves n set_next_file input d h) (
        Leaves-either n (tag == 4) _ _ (decode_number-Leaves n set_last_sequence input d h) (
          Leaves-either n (tag == 6) _ _ (decode_deleted-Leaves n input d h)
            (Leaves-either n (tag == 7) _ _ (decode_new-Leaves n input d h) tt))))

-- What goes on and comes to an end on what a reader leaves, comes to an end on its answer.
on_result_ends {ℓ κ} :
    {A : Type ℓ} {B : Type κ} (n : ℕ) (o : Outcome (A × Slice)) (other : Outcome B)
    (k k' : A × Slice → Outcome B)
    → Leaves n o
    → other ≢ refused
    → ((v : A) (s : Slice) → s.size < n → (k (v, s) ≢ refused) × (k (v, s) ≡ k' (v, s)))
    → (on_result o other k ≢ refused) × (on_result o other k ≡ on_result o other k')
on_result_ends n (done (v, s)) other k k' h ends same = same v s h
on_result_ends n refused other k k' h ends same = (ends, refl)
on_result_ends n fault other k k' h ends same = ((λ e. cc), refl)

-- With more rounds than the input has bytes, the loop of DecodeFrom does not run out of them, and
-- comes to the same end with every such number of rounds.
pub decode_loop-enough :
    (fuel more : ℕ) (input : Slice) (d : Decoded)
    → input.size < fuel
    → input.size < more
    → (decode_loop fuel input d ≢ refused) × (decode_loop fuel input d ≡ decode_loop more input d)
unfolding decode_loop
decode_loop-enough zero more input d h h' = absurd (omega arith)
decode_loop-enough (suc fuel) zero input d h h' = absurd (omega arith)
decode_loop-enough (suc fuel) (suc more) input d h h' =
    on_result_ends input.size (get_varint32 input) (done (input.size == 0, d)) _ _
      (get_varint32-Leaves input) (λ e. cc)
      (λ tag s small.
        on_result_ends input.size (decode_field tag s d) (done (false, d)) _ _
          (decode_field-Leaves input.size tag s d small) (λ e. cc)
          (λ d' s' small'. decode_loop-enough fuel more s' d' (omega arith) (omega arith)))
