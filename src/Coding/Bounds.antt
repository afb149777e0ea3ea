-- ===== src/Coding/Bounds.antt =====
-- The varint readers of utils/dbformat.cpp on any input: what they take and what they may answer.
use yangkv_v.Base.{
  refl, ℕ, ◌+◌, ◌-◌, ◌*◌, ◌^◌, ◌≤◌, ◌<◌, ◌≡◌, List, [], ◌∷◌, length, arith, bit_or, bit_and, ◌%◌,
}
use yangkv_v.Base.Outcome.{refused, done, fault}
use yangkv_v.Coding.{
  get_varint32_ptr, get_varint32, get_varint_loop, get_varint64_ptr, get_varint32_ptr_fallback,
}
use mathlib.Core.Logic.{◌≢◌}

module _ (top width : ℕ) where
  -- With the object reaching to the limit no read faults.
  get_varint_loop-ne-fault :
      (p : List ℕ) (n shift result : ℕ)
      → n ≤ length p
      → get_varint_loop top width p n shift result ≢ fault
  unfolding get_varint_loop
  get_varint_loop-ne-fault [] n shift result h = ground arith
  get_varint_loop-ne-fault (byte ∷ p) n shift result h = ground (
    arith,
    get_varint_loop-ne-fault p (n - 1) (shift + 7)
        (bit_or result (bit_and byte 127 * 2 ^ shift % 2 ^ width)),
  )

  -- A reader that answers has taken one byte at least, all of them before the limit, and one for
  -- each seven bits of the shift at most.
  get_varint_loop_takes :
      (p : List ℕ) (n shift result j v : ℕ) (q : List ℕ) (m : ℕ)
      → shift ≡ 7 * j
      → get_varint_loop top width p n shift result ≡ done (v, q, m)
      → (m < n) × (length q + n ≡ length p + m) × (7 * (n - m + j) ≤ top + 7)
  unfolding get_varint_loop
  get_varint_loop_takes [] n shift result j v q m hs e = ground arith
  get_varint_loop_takes (byte ∷ p) n shift result j v q m hs e = ground (
    arith,
    get_varint_loop_takes p (n - 1) (shift + 7)
        (bit_or result (bit_and byte 127 * 2 ^ shift % 2 ^ width)) (j + 1) v q m,
  )

-- GetVarint64Ptr never reads outside an object that reaches to the limit; where it answers it has
-- taken 1 to 10 bytes, all before the limit.
pub get_varint64_ptr_safe :
    (p : List ℕ) (n : ℕ)
    → n ≤ length p
    → (get_varint64_ptr p n ≢ fault)
      × ((v : ℕ) (q : List ℕ) (m : ℕ)
          → get_varint64_ptr p n ≡ done (v, q, m)
          → (m < n) × (n ≤ m + 10) × (length q + n ≡ length p + m))
unfolding get_varint64_ptr
get_varint64_ptr_safe p n h = (
  get_varint_loop-ne-fault 63 64 p n 0 0 h,
  λ v q m e. ground (arith, get_varint_loop_takes 63 64 p n 0 0 0 v q m (omega arith) e),
)

-- A reader that answers leaves fewer bytes before the limit.
pub ptr32_takes :
    (p : List ℕ) (n v : ℕ) (q : List ℕ) (m : ℕ) → get_varint32_ptr p n ≡ done (v, q, m) → m < n
unfolding get_varint32_ptr get_varint32_ptr_fallback
ptr32_takes [] n v q m e =
    ground (arith, get_varint_loop_takes 28 32 [] n 0 0 0 v q m (omega arith))
ptr32_takes (b ∷ p) n v q m e =
    ground (arith, get_varint_loop_takes 28 32 (b ∷ p) n 0 0 0 v q m (omega arith))

pub ptr64_takes :
    (p : List ℕ) (n v : ℕ) (q : List ℕ) (m : ℕ) → get_varint64_ptr p n ≡ done (v, q, m) → m < n
unfolding get_varint64_ptr
ptr64_takes p n v q m e = (get_varint_loop_takes 63 64 p n 0 0 0 v q m (omega arith) e).0

-- Nothing is read of an input with no byte left.
pub get_varint32_end : (p : List ℕ) → get_varint32 (record { ptr = p; size = 0 }) ≡ refused
unfolding get_varint32 get_varint32_ptr get_varint32_ptr_fallback get_varint_loop
get_varint32_end [] = refl
get_varint32_end (byte ∷ p) = refl
