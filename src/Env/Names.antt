-- ===== src/Env/Names.antt =====
-- LogFileName of memory/message_queue.cpp and TableFileName of utils/filename.h.
use yangkv_v.Base.{
  ℕ, zero, suc, ◌+◌, ◌-◌, ◌*◌, ◌/◌, ◌%◌, ◌<◌, ◌≡◌, ◌≢◌, ◌↔◌, refl, sym, ap, ◌∙◌, List, [], ◌∷◌,
  ◌++◌, get_or, All, All-append, All-mono, ltb, ltb→lt, if◌then◌else◌, Bool-cases, inl, inr, arith,
}
use yangkv_v.Env.Paths.{Lacks}
use mathlib.Core.Path.{ap₂}

-- std::to_string of an unsigned number: one digit a round, and a number has fewer digits than it
-- counts.
pub decimal_loop : ℕ → ℕ → List ℕ
decimal_loop zero n = []
decimal_loop (suc fuel) n =
    let rest = decimal_loop fuel (n / 10) ++ (b'0' + n % 10) ∷ [] in
    if ltb n 10 then (b'0' + n) ∷ [] else rest

unfoldable pub decimal : ℕ → List ℕ
unfolding decimal_loop
decimal n = decimal_loop (n + 1) n

abbrev log_prefix : List ℕ
log_prefix =
    b'y' ∷ b'a' ∷ b'n' ∷ b'g' ∷ b'_' ∷ b'l' ∷ b'o' ∷ b'g' ∷ b'_' ∷ b'w' ∷ b'r' ∷ b'i' ∷ b't' ∷ b'e'
    ∷ b'r' ∷ b'_' ∷ []

abbrev table_prefix : List ℕ
table_prefix = b'y' ∷ b'a' ∷ b'n' ∷ b'g' ∷ b'_' ∷ b's' ∷ b's' ∷ b't' ∷ b'_' ∷ []

-- LogFileName
unfoldable pub log_file_name : ℕ → ℕ → List ℕ
unfolding decimal
log_file_name file_number writer_number =
    log_prefix ++ (decimal writer_number ++ b'_' ∷ decimal file_number)

-- TableFileName
unfoldable pub table_file_name : ℕ → List ℕ
unfolding decimal
table_file_name file_number = table_prefix ++ decimal file_number

-- The number that a run of digits stands for, behind those that stand for `acc`.
value_of : ℕ → List ℕ → ℕ
value_of acc [] = acc
value_of acc (c ∷ cs) = value_of (acc * 10 + (c - b'0')) cs

value_of-append :
    (acc : ℕ) (xs : List ℕ) (c : ℕ)
    → value_of acc (xs ++ c ∷ []) ≡ value_of acc xs * 10 + (c - b'0')
unfolding value_of
value_of-append acc [] c = refl
value_of-append acc (x ∷ xs) c = value_of-append (acc * 10 + (x - b'0')) xs c

decimal_loop_value : (fuel n : ℕ) → n < fuel → value_of 0 (decimal_loop fuel n) ≡ n
unfolding decimal_loop
decimal_loop_value zero n h = absurd (omega arith)
decimal_loop_value (suc fuel) n h = elim (Bool-cases (ltb n 10)) [
  | inl small ↦ rw small (unfold value_of in omega arith)
  | inr big ↦
      let rest = decimal_loop_value fuel (n / 10) (ground arith) in
      rw (big, value_of-append 0 (decimal_loop fuel (n / 10)) (b'0' + n % 10), rest) (omega arith)
]

decimal_inj : (m n : ℕ) → decimal m ≡ decimal n → m ≡ n
unfolding decimal
decimal_inj m n e =
    sym (decimal_loop_value (m + 1) m (omega arith))
    ∙ ap (value_of 0) e
    ∙ decimal_loop_value (n + 1) n (omega arith)

decimal_loop_digits : (fuel n : ℕ) → All (λ c. c < b'_') (decimal_loop fuel n)
unfolding decimal_loop
decimal_loop_digits zero n = tt
decimal_loop_digits (suc fuel) n = elim (Bool-cases (ltb n 10)) [
  | inl small ↦ rw small (omega (arith, ltb→lt n 10 small), tt)
  | inr big ↦ rw big (
      All-append (λ c. c < b'_') (decimal_loop fuel (n / 10)) ((b'0' + n % 10) ∷ [])
        (decimal_loop_digits fuel (n / 10)) (omega arith, tt))
]

decimal-Lacks : (n : ℕ) → Lacks b'_' (decimal n)
unfolding decimal
decimal-Lacks n =
    All-mono (λ c. c < b'_') (λ c. c ≢ b'_') (decimal_loop (n + 1) n) (λ c h e. omega arith)
      (decimal_loop_digits (n + 1) n)

-- Two strings that agree agree in front of their first separator, and behind it.
split_first :
    (c : ℕ) (xs ys xs' ys' : List ℕ)
    → Lacks c xs
    → Lacks c xs'
    → xs ++ c ∷ ys ≡ xs' ++ c ∷ ys'
    → (xs ≡ xs') × (ys ≡ ys')
split_first c [] ys [] ys' h h' e = (refl, ground arith)
split_first c [] ys (x ∷ xs') ys' h h' e = absurd (ground (arith, h'.0))
split_first c (x ∷ xs) ys [] ys' h h' e = absurd (ground (arith, h.0))
split_first c (x ∷ xs) ys (x' ∷ xs') ys' h h' e =
    let (same, rest) = split_first c xs ys xs' ys' h.1 h'.1 (ground arith) in
    let head : x ≡ x' = ground arith in (ap₂ (λ (y : ℕ) (l : List ℕ). y ∷ l) head same, rest)

pub log_file_name_inj :
    (f w f' w' : ℕ) → log_file_name f w ≡ log_file_name f' w' → (f ≡ f') × (w ≡ w')
unfolding log_file_name
log_file_name_inj f w f' w' e =
    let names : decimal w ++ b'_' ∷ decimal f ≡ decimal w' ++ b'_' ∷ decimal f' = ground arith in
    let (writers, files) =
      split_first b'_' (decimal w) (decimal f) (decimal w') (decimal f') (decimal-Lacks w)
        (decimal-Lacks w') names in
    (decimal_inj f f' files, decimal_inj w w' writers)

pub table_file_name_inj : (f f' : ℕ) → table_file_name f ≡ table_file_name f' → f ≡ f'
unfolding table_file_name
table_file_name_inj f f' e = decimal_inj f f' (ground arith)

pub table_ne_log : (f f' w : ℕ) → table_file_name f ≢ log_file_name f' w
unfolding table_file_name log_file_name
table_ne_log f f' w e = absurd (omega (arith, ap (λ (l : List ℕ). get_or l 5 0) e))

-- Two log names are the same exactly when the numbers and the writers are, two table names exactly
-- when the numbers are, and no table has the name of a log.
pub file_names_differ :
    (f w f' w' : ℕ)
    → ((log_file_name f w ≡ log_file_name f' w') ↔ ((f ≡ f') × (w ≡ w')))
      × ((table_file_name f ≡ table_file_name f') ↔ (f ≡ f'))
      × (table_file_name f ≢ log_file_name f' w)
file_names_differ f w f' w' = (
  (log_file_name_inj f w f' w', λ (e, h). ap₂ log_file_name e h),
  (table_file_name_inj f f', ap table_file_name),
  table_ne_log f f' w,
)
