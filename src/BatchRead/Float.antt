-- ===== src/BatchRead/Float.antt =====
-- The size of the buffer of BatchReadByLibAIO, which is computed with floats.
use practice_code_c_cpp.Prelude.{
  ℕ, suc, ◌+◌, ◌*◌, ◌/◌, ◌^◌, ◌<◌, ◌≤◌, ◌≡◌, refl, sym, ap, ◌∙◌, lt→ltb, ≤→ltb, arith,
}
use native.Mathlib.Decide.{dec_lt}
use practice_code_c_cpp.KernelAio.{seq_buf_size}
use practice_code_c_cpp.BatchRead.{round_even, float_from, to_float, align_size}

round_even-one : (n : ℕ) → round_even 1 n ≡ n
unfolding round_even
round_even-one n = ground arith

round_even-two : (m : ℕ) → round_even 2 (1024 * m + 1) ≡ 1024 * m
unfolding round_even
round_even-two m = ground arith

at_top : round_even 2 (2 ^ 24) ≡ 2 ^ 24
unfolding round_even
at_top = refl

round_even-top : (n : ℕ) → n ≡ 2 ^ 24 → round_even 2 n ≡ n
round_even-top n e = ap (round_even 2) e ∙ at_top ∙ sym e

module _ (fuel n : ℕ) where
  float_from-small : n < 2 ^ 24 → float_from (suc fuel) 1 n ≡ n
  unfolding float_from
  float_from-small h = rw (lt→ltb n (2 ^ 24) h) (round_even-one n)

  float_from-next : 2 ^ 24 ≤ n → n < 2 ^ 25 → float_from (suc (suc fuel)) 1 n ≡ round_even 2 n
  unfolding float_from
  float_from-next h k = rw (≤→ltb n (2 ^ 24) h, lt→ltb n (2 ^ 25) k) refl

to_float-exact : (n : ℕ) → n ≤ 2 ^ 24 → to_float n ≡ n
unfolding to_float
to_float-exact n h = elim (dec_lt n (2 ^ 24)) [
  | yes small ↦ float_from-small 39 n small
  | no top ↦ float_from-next 38 n (omega arith) (omega arith) ∙ round_even-top n (omega arith)
]

-- Up to 2^24 the size is the next multiple of 1024.
pub align_size-exact :
    (n : ℕ) → n ≤ 2 ^ 24 → align_size n ≡ (n + 1023) / seq_buf_size * seq_buf_size
unfolding align_size
align_size-exact n h = ap (λ k. (k + 1023) / seq_buf_size * seq_buf_size) (to_float-exact n h)

-- For each size from 2^24 to 2^25 that is one byte above a multiple of 1024 the buffer is smaller
-- than the file.
align_size-lt : (m : ℕ) → 2 ^ 14 ≤ m → m < 2 ^ 15 → align_size (1024 * m + 1) < 1024 * m + 1
unfolding align_size to_float
align_size-lt m h k =
    omega (arith, float_from-next 38 (1024 * m + 1) (omega arith) (omega arith), round_even-two m)
