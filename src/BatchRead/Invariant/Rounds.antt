-- ===== src/BatchRead/Invariant/Rounds.antt =====
-- The invariant of BatchReadByLibAIO when an event is counted, a task submitted, an error returned,
-- the loop left, and when events are taken.
use practice_code_c_cpp.Prelude.{
  ℕ, suc, ◌+◌, ◌*◌, ◌<◌, ◌≤◌, ◌≡◌, inl, sym, ap, ◌∙◌, List, [], ◌∷◌, ◌++◌, length, length-append,
  take, arith,
}
use practice_code_c_cpp.KernelAio.{
  Iocb, View, submit_view, taken_view, io_prep_pread, max_event, seq_buf_size,
}
use practice_code_c_cpp.BatchRead.{Batch, failed, complete, count}
use practice_code_c_cpp.BatchRead.Invariant.Pieces.{
  pieces, IsPiece, AllPieces-append, AllPieces-drop, length-take-drop, covers-append,
}
use practice_code_c_cpp.BatchRead.Invariant.Moves.{Inv}

module _ (file : List ℕ) where
  abbrev f_size : ℕ
  f_size = length file

  pub count-Inv :
      {m : ℕ} {s : Batch View} {e : Iocb}
      → Inv file (suc m) s
      → IsPiece e
      → f_size ≤ s.offset
      → Inv file m (count s e)
  unfolding count
  count-Inv inv p past = record {
    in_order = inv.in_order;
    place = inv.place;
    inside = inv.inside;
    flying = inv.flying;
    ended = inv.ended;
    counted = omega (arith, inv.counted);
    busy = inl past;
    filled = inv.filled;
    done = λ c. omega (arith, inv.done c);
  }

  pieces-append :
      (xs : List Iocb) (o : ℕ)
      → xs ≡ pieces (length xs)
      → o ≡ seq_buf_size * length xs
      → xs ++ (io_prep_pread o seq_buf_size o ∷ [])
        ≡ pieces (length (xs ++ (io_prep_pread o seq_buf_size o ∷ [])))
  unfolding io_prep_pread
  pieces-append xs o h k =
      ap (λ ys. ys ++ (io_prep_pread o seq_buf_size o ∷ [])) h
      ∙ ap (λ q. pieces (length xs) ++ (io_prep_pread q seq_buf_size q ∷ [])) k
      ∙ sym (ap pieces longer)
    where
      longer : length (xs ++ (io_prep_pread o seq_buf_size o ∷ [])) ≡ suc (length xs)
      longer = omega (arith, length-append xs (io_prep_pread o seq_buf_size o ∷ []))

  -- A task is submitted.
  abbrev submit_shape : Batch View → Iocb → Batch View
  submit_shape s e = record s {
    offset = s.offset + e.nbytes;
    ctx = submit_view (io_prep_pread s.offset seq_buf_size s.offset ∷ []) s.ctx;
  }

  pub submit-Inv :
      {m : ℕ} {s : Batch View} {e : Iocb}
      → Inv file (suc m) s
      → IsPiece e
      → s.offset < f_size
      → Inv file m (count (submit_shape s e) e)
  unfolding count io_prep_pread
  submit-Inv {m} {s} {e} inv p before = record {
    in_order = pieces-append s.ctx.submitted s.offset inv.in_order inv.place;
    place = omega (arith, inv.place, length-append s.ctx.submitted (next ∷ []));
    inside = omega arith;
    flying = AllPieces-append s.ctx.in_flight (next ∷ []) inv.flying (omega arith);
    ended = inv.ended;
    counted = omega (arith, inv.counted, length-append s.ctx.in_flight (next ∷ []));
    busy = ground (arith, inv.busy, length-append s.ctx.in_flight (next ∷ []));
    filled = λ z a b g lt.
        ground (arith, inv.filled z a b g, covers-append a s.ctx.in_flight (next ∷ []));
    done = λ c. omega (arith, inv.done c);
  }
    where
      next : Iocb
      next = record { buf = s.offset; nbytes = seq_buf_size; offset = s.offset }

  pub fail-Inv : {m : ℕ} {s : Batch View} → Inv file m s → Inv file m (record s { status = failed })
  fail-Inv inv = record {
    in_order = inv.in_order;
    place = inv.place;
    inside = inv.inside;
    flying = inv.flying;
    ended = inv.ended;
    counted = inv.counted;
    busy = inv.busy;
    filled = inv.filled;
    done = λ c. cc;
  }

  pub complete-Inv :
      {m : ℕ} {s : Batch View}
      → Inv file m s
      → f_size ≤ s.ready
      → Inv file m (record s { status = complete })
  complete-Inv inv h = record {
    in_order = inv.in_order;
    place = inv.place;
    inside = inv.inside;
    flying = inv.flying;
    ended = inv.ended;
    counted = inv.counted;
    busy = inv.busy;
    filled = inv.filled;
    done = λ c. h;
  }

  -- io_getevents takes events from those that completed.
  pub take-Inv :
      {s : Batch View}
      → Inv file 0 s
      → Inv file
          (length (take max_event s.ctx.completed))
          (record s { ctx = taken_view max_event s.ctx })
  take-Inv {s} inv = record {
    in_order = inv.in_order;
    place = inv.place;
    inside = inv.inside;
    flying = inv.flying;
    ended = AllPieces-drop max_event s.ctx.completed inv.ended;
    counted = omega (arith, inv.counted, length-take-drop max_event s.ctx.completed);
    busy = ground (arith, inv.busy, length-take-drop max_event s.ctx.completed);
    filled = inv.filled;
    done = inv.done;
  }
