-- ===== src/BatchRead/Invariant/Start.antt =====
-- The tasks that BatchReadByLibAIO prepares and submits before its loop.
use practice_code_c_cpp.Prelude.{
  ℕ, zero, suc, ◌+◌, ◌*◌, ◌<◌, ◌≤◌, ◌≡◌, inr, refl, some, sym, ap, subst, ◌∙◌, true, List, [], ◌∷◌,
  ◌++◌, length, length-append, take, lt→ltb, ≤→ltb, arith,
}
use native.Mathlib.Decide.{dec_lt}
use mathlib.Core.List.{append-nil}
use practice_code_c_cpp.KernelAio.{Iocb, Aio, io_prep_pread, max_event, seq_buf_size}
use practice_code_c_cpp.BatchRead.{
  Batch, shape, Prepared, prepare, prepared, batch_start, Reach, Answer, Whole, accepted, AllTaken,
}
use practice_code_c_cpp.BatchRead.Invariant.Pieces.{
  take-append, accepted-Whole, piece, pieces, AllPieces, AllPieces-pieces, covers, covers-pieces,
}
use practice_code_c_cpp.BatchRead.Invariant.Moves.{Inv}
use practice_code_c_cpp.BatchRead.Invariant.Steps.{Holds, Reach-Holds}
use practice_code_c_cpp.KernelAio.Tasks.{view-submitted}

pub length-pieces : (n : ℕ) → length (pieces n) ≡ n
length-pieces zero = refl
length-pieces (suc n) = omega (arith, length-append (pieces n) (piece n ∷ []), length-pieces n)

take-pieces : (n : ℕ) (ys : List Iocb) → take n (pieces n ++ ys) ≡ pieces n
take-pieces n ys =
    ap (λ k. take k (pieces n ++ ys)) (sym (length-pieces n)) ∙ take-append (pieces n) ys

-- `task_no` tasks are prepared, and there may be one more.
pub record IsReady (f_size least : ℕ) (p : Prepared) : Type 0 where
  pub tasks : take p.task_no p.io_cb_p ≡ pieces p.task_no
  pub place : p.offset ≡ seq_buf_size * p.task_no
  pub inside : p.offset < f_size + seq_buf_size
  grown : least ≤ p.task_no

prepare-IsReady :
    (rounds f_size : ℕ) (p : Prepared)
    → p.io_cb_p ≡ pieces p.task_no
    → p.offset ≡ seq_buf_size * p.task_no
    → p.offset < f_size + seq_buf_size
    → IsReady f_size p.task_no (prepare rounds f_size p)
unfolding prepare io_prep_pread
prepare-IsReady zero f_size p c o i = record {
  tasks = taken;
  place = o;
  inside = i;
  grown = omega arith;
}
  where
    taken : take p.task_no p.io_cb_p ≡ pieces p.task_no
    taken = ap (take p.task_no) (c ∙ sym (append-nil (pieces p.task_no))) ∙ take-pieces p.task_no []
prepare-IsReady (suc rounds) f_size p c o i = elim (dec_lt (p.offset + seq_buf_size) f_size) [
  | yes more ↦
      rw (lt→ltb _ f_size more)
        (grown (prepare-IsReady rounds f_size next longer (omega arith) (omega arith)))
  | no last ↦ rw (≤→ltb (p.offset + seq_buf_size) f_size (omega arith)) record {
    tasks = ap (λ cbs. take p.task_no (cbs ++ (cb ∷ []))) c ∙ take-pieces p.task_no (cb ∷ []);
    place = o;
    inside = i;
    grown = omega arith;
  }
]
  where
    cb : Iocb
    cb = io_prep_pread p.offset seq_buf_size p.offset

    next : Prepared
    next = record {
      io_cb_p = p.io_cb_p ++ (cb ∷ []);
      task_no = p.task_no + 1;
      offset = p.offset + seq_buf_size;
    }

    one_more : suc p.task_no ≡ p.task_no + 1
    one_more = omega arith

    longer : p.io_cb_p ++ (cb ∷ []) ≡ pieces (p.task_no + 1)
    longer =
        ap (λ cbs. cbs ++ (cb ∷ [])) c
        ∙ ap (λ q. pieces p.task_no ++ (io_prep_pread q seq_buf_size q ∷ [])) o
        ∙ ap pieces one_more

    grown : {q : Prepared} → IsReady f_size (p.task_no + 1) q → IsReady f_size p.task_no q
    grown r = record { tasks = r.tasks; place = r.place; inside = r.inside; grown = omega arith }

module _ (f_size : ℕ) where
  pub ready : IsReady f_size 0 (prepared f_size)
  unfolding prepared
  ready = prepare-IsReady max_event f_size _ refl refl (omega arith)

  -- A file of more than one piece has a first task, a smaller one has none.
  pub task_no-pos : seq_buf_size < f_size → 1 ≤ (prepared f_size).task_no
  unfolding prepared prepare
  task_no-pos h =
      rw (lt→ltb (0 + seq_buf_size) f_size h)
        (prepare-IsReady 4 f_size _ refl refl (omega arith)).grown

  pub task_no-zero : f_size ≤ seq_buf_size → (prepared f_size).task_no ≡ 0
  unfolding prepared prepare
  task_no-zero h = rw (≤→ltb (0 + seq_buf_size) f_size h) refl

module _ (aio : Aio) (file : List ℕ) (memory : ℕ → ℕ) where
  start-Inv :
      (a : Answer)
      → Whole (prepared (length file)).task_no a
      → Inv file 0 (shape aio (batch_start aio true (some a) memory (length file)))
  unfolding batch_start
  start-Inv a whole =
      subst
        (λ v.
          Inv file 0
            (record (shape aio (batch_start aio true (some a) memory (length file))) { ctx = v }))
        (sym (view-submitted aio (accepted a (take n (prepared (length file)).io_cb_p)) memory))
        record {
          in_order =
              first ∙ sym (ap (λ cbs. pieces (length cbs)) first ∙ ap pieces (length-pieces n));
          place = omega (arith, r.place, ap length first, length-pieces n);
          inside = r.inside;
          flying = subst AllPieces (sym first) (AllPieces-pieces n);
          ended = tt;
          counted = omega (arith, r.place, ap length first, length-pieces n);
          busy = inr (omega (arith, ap length first, length-pieces n));
          filled =
              λ z a b g lt. inr (ap (covers a) first ∙ covers-pieces n a (omega (arith, r.place)));
          done = λ c. cc;
        }
    where
      n : ℕ
      n = (prepared (length file)).task_no

      r : IsReady (length file) 0 (prepared (length file))
      r = ready (length file)

      first : accepted a (take n (prepared (length file)).io_cb_p) ≡ pieces n
      first = ap (accepted a) r.tasks ∙ accepted-Whole a (pieces n) n whole (length-pieces n)

  -- What holds in every state that a call reaches.
  pub Reach-Inv :
      {n : ℕ} {s : Batch aio.Context} (r : Reach aio file memory n s)
      → AllTaken aio r
      → Holds file (shape aio s)
  Reach-Inv r all =
      Reach-Holds aio file (λ a w. (0, start-Inv a w, inr (refl, unfold batch_start in λ f. cc))) r
        all
