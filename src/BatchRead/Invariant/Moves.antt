-- ===== src/BatchRead/Invariant/Moves.antt =====
-- The invariant of BatchReadByLibAIO, kept by the kernel and by each round of the loop.
use practice_code_c_cpp.Prelude.{
  ℕ, suc, ◌+◌, ◌*◌, ◌<◌, ◌≤◌, ◌≡◌, ◌⊎◌, subst, true, ◌||◌, some, List, [], ◌∷◌, ◌++◌, length,
  length-append, get_elem?, arith,
}
use practice_code_c_cpp.KernelAio.{Iocb, View, Ending, finish, give_up, pread, seq_buf_size}
use practice_code_c_cpp.BatchRead.{Batch, complete, prepared}
use practice_code_c_cpp.BatchRead.Invariant.Pieces.{
  pieces, IsPiece, AllPieces, AllPieces-append, AllPieces-front, AllPieces-back, within, covers,
  covers-append, pread-piece,
}

module _ (file : List ℕ) where
  abbrev f_size : ℕ
  f_size = length file

  abbrev first_tasks : ℕ
  first_tasks = (prepared f_size).task_no

  -- `m` events have been taken and not counted yet.
  pub record Inv (m : ℕ) (s : Batch View) : Type 0 where
    pub in_order : s.ctx.submitted ≡ pieces (length s.ctx.submitted)
    pub place : s.offset ≡ seq_buf_size * length s.ctx.submitted
    pub inside : s.offset < f_size + seq_buf_size
    pub flying : AllPieces s.ctx.in_flight
    pub ended : AllPieces s.ctx.completed
    pub counted :
        s.ready + seq_buf_size * (length s.ctx.in_flight + length s.ctx.completed + m) ≡ s.offset
    pub busy :
        (f_size ≤ s.offset) ⊎ (length s.ctx.in_flight + length s.ctx.completed + m ≡ first_tasks)
    pub filled :
        s.ctx.lacking ≡ 0
        → (a b : ℕ) → get_elem? file a ≡ some b
        → a < s.offset
        → (s.ctx.memory a ≡ b) ⊎ (covers a s.ctx.in_flight ≡ true)
    pub done : s.status ≡ complete → f_size ≤ s.ready

  module _ {m : ℕ} {s : Batch View} (inv : Inv m s) (front back : List Iocb) (cb : Iocb)
      (e : s.ctx.in_flight ≡ front ++ (cb ∷ back)) where
    split : AllPieces (front ++ (cb ∷ back))
    split = subst AllPieces e inv.flying

    one : IsPiece cb
    one = (AllPieces-back front (cb ∷ back) split).0

    rest : AllPieces (front ++ back)
    rest =
        AllPieces-append front back (AllPieces-front front (cb ∷ back) split)
          (AllPieces-back front (cb ∷ back) split).1

    lengths : length s.ctx.in_flight ≡ suc (length (front ++ back))
    lengths = rw e (omega (arith, length-append front (cb ∷ back), length-append front back))

    covered : (a : ℕ) → covers a s.ctx.in_flight ≡ (within cb a || covers a (front ++ back))
    covered a = rw e (ground (arith, covers-append a front (cb ∷ back), covers-append a front back))

    finish-filled :
        s.ctx.lacking ≡ 0
        → (a b : ℕ) → get_elem? file a ≡ some b
        → a < s.offset
        → (pread file cb s.ctx.memory a ≡ b) ⊎ (covers a (front ++ back) ≡ true)
    finish-filled z a b g lt =
        ground (arith, inv.filled z a b g lt, covered a, pread-piece file cb s.ctx.memory a b one g)

    finish-Inv : Inv m (record s {
      ctx = record s.ctx {
        in_flight = front ++ back;
        completed = s.ctx.completed ++ (cb ∷ []);
        memory = pread file cb s.ctx.memory;
      };
    })
    finish-Inv = record {
      in_order = inv.in_order;
      place = inv.place;
      inside = inv.inside;
      flying = rest;
      ended = AllPieces-append s.ctx.completed (cb ∷ []) inv.ended (one, tt);
      counted = omega (arith, inv.counted, lengths, length-append s.ctx.completed (cb ∷ []));
      busy = ground (arith, inv.busy, lengths, length-append s.ctx.completed (cb ∷ []));
      filled = finish-filled;
      done = inv.done;
    }

    give_up-Inv :
        (n : ℕ)
        → Inv m (record s {
          ctx = record s.ctx {
            in_flight = front ++ back;
            completed = s.ctx.completed ++ (cb ∷ []);
            memory = pread file (record cb { nbytes = n }) s.ctx.memory;
            lacking = s.ctx.lacking + 1;
          };
        })
    give_up-Inv n = record {
      in_order = inv.in_order;
      place = inv.place;
      inside = inv.inside;
      flying = rest;
      ended = AllPieces-append s.ctx.completed (cb ∷ []) inv.ended (one, tt);
      counted = omega (arith, inv.counted, lengths, length-append s.ctx.completed (cb ∷ []));
      busy = ground (arith, inv.busy, lengths, length-append s.ctx.completed (cb ∷ []));
      filled = λ z a b g lt. absurd (omega arith);
      done = inv.done;
    }

  pub Ending-Inv :
      {m : ℕ} {s : Batch View} {v' : View}
      → Inv m s
      → Ending file s.ctx v'
      → Inv m (record s { ctx = v' })
  Ending-Inv inv (finish front back cb e) = finish-Inv inv front back cb e
  Ending-Inv inv (give_up front back cb n le e) = give_up-Inv inv front back cb e n
