-- ===== src/BatchRead/Fitting.antt =====
-- The tasks of BatchReadByLibAIO fit into its buffer, whichever of them io_submit takes.
use practice_code_c_cpp.Prelude.{
  ℕ, zero, suc, ◌+◌, ◌*◌, ◌^◌, ◌<◌, ◌≤◌, ◌≡◌, refl, List, [], ◌∷◌, ◌++◌, length, sym, subst, ap,
  Option, none, some, true, take, drop, arith, inl, inr, Bool-cases, lt→ltb, ≤→ltb, leb,
}
use native.Mathlib.Decide.{dec_lt}
use practice_code_c_cpp.KernelAio.{
  Iocb, Aio, View, Ending, finish, give_up, seq_buf_size, submit_view, taken_view, max_event,
  io_prep_pread,
}
use practice_code_c_cpp.KernelAio.Tasks.{io_getevents_cases, view-submitted}
use practice_code_c_cpp.BatchRead.{
  Answer, accepted, Answers, Part, StepAnswers, SomeTaken, Batch, Step, kernel, round, Reach, start,
  later, align_size, batch_start, on_event, on_events, submit_next, count, has_failed, test_ready,
  events_of, prepared,
}
use practice_code_c_cpp.BatchRead.Invariant.{piece, pieces, IsReady, ready, length-pieces}
use practice_code_c_cpp.BatchRead.Float.{align_size-exact}

-- Each task reads a piece of 1024 bytes to a place below `size`.
abbrev pub AllFit : ℕ → List Iocb → Type 0
AllFit size [] = Unit
AllFit size (cb ∷ cbs) =
    ((cb.buf + cb.nbytes ≤ size) × (cb.nbytes ≡ seq_buf_size)) × AllFit size cbs

module _ (size : ℕ) where
  AllFit-append : (xs ys : List Iocb) → AllFit size xs → AllFit size ys → AllFit size (xs ++ ys)
  AllFit-append [] ys h k = k
  AllFit-append (x ∷ xs) ys h k = (h.0, AllFit-append xs ys h.1 k)

  AllFit-split :
      (front back : List Iocb) (cb : Iocb)
      → AllFit size (front ++ (cb ∷ back))
      → AllFit size (cb ∷ []) × AllFit size (front ++ back)
  AllFit-split [] back cb h = ((h.0, tt), h.1)
  AllFit-split (x ∷ front) back cb h =
      let (one, rest) = AllFit-split front back cb h.1 in (one, (h.0, rest))

  AllFit-take : (n : ℕ) (xs : List Iocb) → AllFit size xs → AllFit size (take n xs)
  AllFit-take zero xs h = tt
  AllFit-take (suc n) [] h = tt
  AllFit-take (suc n) (x ∷ xs) h = (h.0, AllFit-take n xs h.1)

  AllFit-drop : (n : ℕ) (xs : List Iocb) → AllFit size xs → AllFit size (drop n xs)
  AllFit-drop zero xs h = h
  AllFit-drop (suc n) [] h = tt
  AllFit-drop (suc n) (x ∷ xs) h = AllFit-drop n xs h.1

  AllFit-accepted :
      (n : ℕ) (xs ys : List Iocb) → n ≤ length xs → AllFit size xs → AllFit size (take n (xs ++ ys))
  AllFit-accepted zero xs ys le h = tt
  AllFit-accepted (suc n) [] ys le h = absurd (omega arith)
  AllFit-accepted (suc n) (x ∷ xs) ys le h = (h.0, AllFit-accepted n xs ys (omega arith) h.1)

  AllFit-pieces : (n : ℕ) → seq_buf_size * n ≤ size → AllFit size (pieces n)
  AllFit-pieces zero h = tt
  AllFit-pieces (suc n) h =
      AllFit-append (pieces n) (piece n ∷ []) (AllFit-pieces n (omega arith)) (omega arith)

  -- All tasks fit, and the next piece begins at a multiple of 1024.
  pub record Fits (offset : ℕ) (v : View) : Type 0 where
    pub submitted : AllFit size v.submitted
    flying : AllFit size v.in_flight
    ended : AllFit size v.completed
    aligned : (k : ℕ) × (offset ≡ seq_buf_size * k)

  Ending-Fits :
      {file : List ℕ} {offset : ℕ} {v v' : View} → Fits offset v → Ending file v v' → Fits offset v'
  Ending-Fits {v = v} h (finish front back cb e) =
      let (one, rest) = AllFit-split front back cb (subst (AllFit size) e h.flying) in
      record {
        submitted = h.submitted;
        flying = rest;
        ended = AllFit-append v.completed (cb ∷ []) h.ended one;
        aligned = h.aligned;
      }
  Ending-Fits {v = v} h (give_up front back cb n le e) =
      let (one, rest) = AllFit-split front back cb (subst (AllFit size) e h.flying) in
      record {
        submitted = h.submitted;
        flying = rest;
        ended = AllFit-append v.completed (cb ∷ []) h.ended one;
        aligned = h.aligned;
      }

  submit-Fits :
      {offset : ℕ} {v : View} (cbs : List Iocb) (next : ℕ)
      → AllFit size cbs
      → (k : ℕ) × (next ≡ seq_buf_size * k)
      → Fits offset v
      → Fits next (submit_view cbs v)
  submit-Fits {v = v} cbs next fit at h = record {
    submitted = AllFit-append v.submitted cbs h.submitted fit;
    flying = AllFit-append v.in_flight cbs h.flying fit;
    ended = h.ended;
    aligned = at;
  }

  take-Fits : {offset : ℕ} {v : View} → Fits offset v → Fits offset (taken_view max_event v)
  take-Fits {v = v} h = record {
    submitted = h.submitted;
    flying = h.flying;
    ended = AllFit-drop max_event v.completed h.ended;
    aligned = h.aligned;
  }

module _ (aio : Aio) (f_size : ℕ) (small : f_size ≤ 2 ^ 24) where
  open aio use {Context, view}

  -- The same of a state of the function.
  abbrev FitsState : Batch Context → Type 0
  FitsState s = Fits (align_size f_size) s.offset (view s.ctx)

  submit_next-Fits :
      (s : Batch Context) (e : Iocb) (a : Answer)
      → s.offset < f_size
      → e.nbytes ≡ seq_buf_size
      → Part 1 a
      → FitsState s
      → FitsState (submit_next aio s e a)
  unfolding submit_next io_prep_pread
  submit_next-Fits s e a lt n p h =
      subst (λ v. Fits (align_size f_size) (s.offset + e.nbytes) v)
        (sym (aio.view-io_submit (accepted a (next ∷ [])) s.ctx))
        (submit-Fits (align_size f_size) (accepted a (next ∷ [])) (s.offset + e.nbytes)
          (AllFit-accepted (align_size f_size) a.count (next ∷ []) a.beyond p ((room, refl), tt))
          (suc h.aligned.0, omega (arith, n, h.aligned.1)) h)
    where
      next : Iocb
      next = record { buf = s.offset; nbytes = seq_buf_size; offset = s.offset }

      room : s.offset + seq_buf_size ≤ align_size f_size
      room = omega (arith, lt, h.aligned.1, align_size-exact f_size small)

  on_event-Fits :
      (s : Batch Context) (e : Iocb) (answer : Option Answer)
      → e.nbytes ≡ seq_buf_size
      → Answers Part ((e, answer) ∷ [])
      → FitsState s
      → FitsState (on_event aio f_size s e answer)
  unfolding on_event count
  on_event-Fits s e (some a) n p h = elim (dec_lt s.offset f_size) [
    | yes lt ↦ rw (lt→ltb s.offset f_size lt) (submit_next-Fits s e a lt n p.0 h)
    | no past ↦ rw (≤→ltb s.offset f_size (omega arith)) h
  ]
  on_event-Fits s e none n p h = elim (dec_lt s.offset f_size) [
    | yes lt ↦ rw (lt→ltb s.offset f_size lt) h
    | no past ↦ rw (≤→ltb s.offset f_size (omega arith)) h
  ]

  Answers-split :
      (e : Iocb) (answer : Option Answer) (es : List (Iocb × Option Answer))
      → Answers Part ((e, answer) ∷ es)
      → Answers Part ((e, answer) ∷ []) × Answers Part es
  Answers-split e none es p = (tt, p)
  Answers-split e (some a) es p = ((p.0, tt), p.1)

  on_events-Fits :
      (es : List (Iocb × Option Answer)) (s : Batch Context)
      → AllFit (align_size f_size) (events_of es)
      → Answers Part es
      → FitsState s
      → FitsState (on_events aio f_size s es)
  unfolding on_events
  on_events-Fits [] s fit p h = h
  on_events-Fits ((e, answer) ∷ es) s fit p h =
      let (one, rest) = Answers-split e answer es p in
      let here = on_event-Fits s e answer fit.0.1 one h in
      elim (Bool-cases (has_failed (on_event aio f_size s e answer))) [
        | inl stop ↦ rw stop here
        | inr more ↦ rw more (on_events-Fits es (on_event aio f_size s e answer) fit.1 rest here)
      ]

  test_ready-Fits : (s : Batch Context) → FitsState s → FitsState (test_ready f_size s)
  unfolding test_ready
  test_ready-Fits s h = elim (Bool-cases (has_failed s)) [
    | inl f ↦ rw f h
    | inr nf ↦ elim (Bool-cases (leb f_size s.ready)) [
      | inl enough ↦ rw (nf, enough) h
      | inr more ↦ rw (nf, more) h
    ]
  ]

module _ (aio : Aio) (file : List ℕ) (memory : ℕ → ℕ) (small : length file ≤ 2 ^ 24) where
  open aio use {Context, view}

  start-Fits :
      (a : Answer)
      → Part (prepared (length file)).task_no a
      → FitsState aio (length file) small (batch_start aio true (some a) memory (length file))
  unfolding batch_start
  start-Fits a p =
      subst (λ v. Fits size (prepared (length file)).offset v)
        (sym (view-submitted aio (accepted a first) memory))
        record { submitted = fit; flying = fit; ended = tt; aligned = (n, r.place) }
    where
      size : ℕ
      size = align_size (length file)

      n : ℕ
      n = (prepared (length file)).task_no

      first : List Iocb
      first = take n (prepared (length file)).io_cb_p

      r : IsReady (length file) 0 (prepared (length file))
      r = ready (length file)

      fit : AllFit size (accepted a first)
      fit =
          AllFit-accepted size a.count first a.beyond
            (omega (arith, p, ap length r.tasks, length-pieces n))
            (subst (AllFit size) (sym r.tasks) (
              AllFit-pieces size n
                (omega (arith, r.place, r.inside, align_size-exact (length file) small))))

  Step-Fits :
      {s t : Batch Context} (st : Step aio file s t)
      → StepAnswers aio Part st
      → FitsState aio (length file) small s
      → FitsState aio (length file) small t
  Step-Fits {s} (kernel {ctx'} k) p h =
      Ending-Fits (align_size (length file)) h (aio.kernel_ends file s.ctx ctx' k)
  Step-Fits {s} (round es {ctx'} r e) p h =
      let (_, given, left) = io_getevents_cases aio 1 max_event s.ctx ctx' (events_of es) e in
      test_ready-Fits aio (length file) small
        (on_events aio (length file) (record s { ctx = ctx' }) es)
        (on_events-Fits aio (length file) small es (record s { ctx = ctx' })
          (subst (AllFit (align_size (length file))) (sym given)
            (AllFit-take (align_size (length file)) max_event (view s.ctx).completed h.ended))
          p
          (subst (Fits (align_size (length file)) s.offset) (sym left)
            (take-Fits (align_size (length file)) h)))

  pub Reach-Fits :
      {n : ℕ} {s : Batch Context} (r : Reach aio file memory n s)
      → SomeTaken aio r
      → FitsState aio (length file) small s
  Reach-Fits (start a) p = start-Fits a p
  Reach-Fits (later r st) p = Step-Fits st p.1 (Reach-Fits r p.0)
