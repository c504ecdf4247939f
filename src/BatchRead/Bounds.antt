-- ===== src/BatchRead/Bounds.antt =====
-- The tasks that BatchReadByLibAIO submits, and where in its buffer they write.
use practice_code_c_cpp.Prelude.{ℕ, ◌+◌, ◌*◌, ◌^◌, ◌<◌, ◌≤◌, ◌≡◌, List, [], ◌∷◌, length, arith}
use practice_code_c_cpp.KernelAio.{Iocb, Aio, seq_buf_size}
use practice_code_c_cpp.BatchRead.{Batch, Reach, AllTaken, SomeTaken, align_size}
use practice_code_c_cpp.BatchRead.Invariant.{pieces, Reach-Inv}
use practice_code_c_cpp.BatchRead.Fitting.{AllFit, Reach-Fits}

-- Each task writes below `size`.
abbrev pub AllBelow : ℕ → List Iocb → Type 0
AllBelow size [] = Unit
AllBelow size (cb ∷ cbs) = (cb.buf + cb.nbytes ≤ size) × AllBelow size cbs

AllFit-AllBelow : (size : ℕ) (cbs : List Iocb) → AllFit size cbs → AllBelow size cbs
AllFit-AllBelow size [] h = tt
AllFit-AllBelow size (cb ∷ cbs) h = (h.0.0, AllFit-AllBelow size cbs h.1)

module _ (aio : Aio) (file : List ℕ) (memory : ℕ → ℕ) where
  -- In a call in which io_setup and the first io_submit succeed, and each io_submit that succeeds takes
  -- the tasks prepared for it and no others, the tasks submitted so far are those of the first pieces
  -- of the file, each once and in order, and no task begins behind the end of the file.
  pub submitted_in_order :
      {n : ℕ} {s : Batch aio.Context} (r : Reach aio file memory n s)
      → AllTaken aio r
      → ((aio.view s.ctx).submitted ≡ pieces (length (aio.view s.ctx).submitted))
        × (seq_buf_size * length (aio.view s.ctx).submitted < length file + seq_buf_size)
  submitted_in_order r all =
      let (m, inv, _) = Reach-Inv aio file memory r all in
      (inv.in_order, omega (arith, inv.place, inv.inside))

  -- In a call on a file of at most 2^24 bytes in which io_setup and the first io_submit succeed, and
  -- each io_submit that succeeds takes some of the tasks prepared for it and no others, every task
  -- writes inside the buffer.
  pub submitted-AllBelow :
      {n : ℕ} {s : Batch aio.Context}
      → length file ≤ 2 ^ 24
      → (r : Reach aio file memory n s) → SomeTaken aio r
      → AllBelow (align_size (length file)) (aio.view s.ctx).submitted
  submitted-AllBelow {s = s} small r part =
      AllFit-AllBelow (align_size (length file)) (aio.view s.ctx).submitted
        (Reach-Fits aio file memory small r part).submitted
