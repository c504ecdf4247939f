-- ===== src/BatchRead/Result.antt =====
-- What BatchReadByLibAIO returns, and whether it returns.
use practice_code_c_cpp.Prelude.{
  ℕ, zero, suc, ◌+◌, ◌<◌, ◌≤◌, ◌^◌, leb, true, ◌≡◌, refl, ap, ◌∙◌, false, some, List, [], ◌∷◌,
  length, get_elem?, arith,
}
use native.Mathlib.Nat.{zero-add}
use practice_code_c_cpp.KernelAio.{Iocb, Aio}
use practice_code_c_cpp.BatchRead.{
  Batch, shape, complete, string_from, batch_result, Reach, AllTaken, align_size,
}
use practice_code_c_cpp.BatchRead.Float.{align_size-exact}
use practice_code_c_cpp.BatchRead.Invariant.{covers, Holds, Reach-Inv}

string_from-eq :
    (memory : ℕ → ℕ) (bytes : List ℕ) (a : ℕ)
    → ((i b : ℕ) → get_elem? bytes i ≡ some b → memory (a + i) ≡ b)
    → string_from memory a (length bytes) ≡ bytes
unfolding string_from
string_from-eq memory [] a h = refl
string_from-eq memory (c ∷ bytes) a h =
    ap (λ d. d ∷ string_from memory (suc a) (length bytes)) (ap memory here ∙ h 0 c refl)
    ∙ ap (λ ds. c ∷ ds)
        (string_from-eq memory bytes (suc a) (λ i b e. ap memory (moved i) ∙ h (suc i) b e))
  where
    here : a ≡ a + 0
    here = omega arith

    moved : (i : ℕ) → suc a + i ≡ a + suc i
    moved i = omega arith

get_elem?-lt-length : (bytes : List ℕ) (i b : ℕ) → get_elem? bytes i ≡ some b → i < length bytes
get_elem?-lt-length [] i b e = cc
get_elem?-lt-length (c ∷ bytes) zero b e = omega arith
get_elem?-lt-length (c ∷ bytes) (suc i) b e = omega (arith, get_elem?-lt-length bytes i b e)

leb-true : (m n : ℕ) → m ≤ n → leb m n ≡ true
leb-true m n h = ground arith

none_left : (cbs : List Iocb) (a : ℕ) → length cbs ≡ 0 → covers a cbs ≡ false
none_left [] a e = refl
none_left (cb ∷ cbs) a e = absurd (omega arith)

module _ (aio : Aio) {file : List ℕ} {memory : ℕ → ℕ} {n : ℕ} {s : Batch aio.Context}
    (r : Reach aio file memory n s) (all : AllTaken aio r) where
  whole :
      Holds file (shape aio s)
      → s.status ≡ complete
      → (aio.view s.ctx).lacking ≡ 0
      → (i b : ℕ) → get_elem? file i ≡ some b
      → (aio.view s.ctx).memory i ≡ b
  whole (m, inv, _) c z i b e = ground (
    arith,
    inv.done c,
    inv.inside,
    inv.counted,
    inv.filled z i b e (omega (arith, inv.done c, inv.counted, get_elem?-lt-length file i b e)),
    none_left (aio.view s.ctx).in_flight i (omega (arith, inv.done c, inv.inside, inv.counted)),
  )

  -- In a call on a file of at most 2^24 bytes in which io_setup and the first io_submit succeed, and
  -- each io_submit that succeeds takes the tasks prepared for it and no others: where the function has
  -- left its loop, it reads inside its buffer and returns the bytes of the file, whatever the order in
  -- which the kernel ended the tasks, provided that none ended with an error or a short read.
  pub batch_result-file :
      length file ≤ 2 ^ 24
      → s.status ≡ complete
      → (aio.view s.ctx).lacking ≡ 0
      → batch_result aio (length file) s ≡ some file
  unfolding batch_result
  batch_result-file h c z =
      rw (c, inside) (ap some (string_from-eq (aio.view s.ctx).memory file 0 at))
    where
      inside : leb (length file) (align_size (length file)) ≡ true
      inside = leb-true _ _ (omega (arith, align_size-exact (length file) h))

      at : (i b : ℕ) → get_elem? file i ≡ some b → (aio.view s.ctx).memory (0 + i) ≡ b
      at i b e =
          ap (aio.view s.ctx).memory (zero-add i)
          ∙ whole (Reach-Inv aio file memory r all) c z i b e
