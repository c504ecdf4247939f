-- ===== src/BatchRead/Invariant/Steps.antt =====
-- The invariant of BatchReadByLibAIO behind each event, each round and each step of the kernel.
use practice_code_c_cpp.Prelude.{
  ℕ, suc, ◌<◌, ◌≡◌, ◌⊎◌, ◌≢◌, inl, inr, refl, sym, ap, subst, ◌∙◌, Option, none, some, true, false,
  List, [], ◌∷◌, length, take, leb, Bool-cases, lt→ltb, ≤→ltb, arith,
}
use native.Mathlib.Decide.{dec_lt}
use practice_code_c_cpp.KernelAio.{
  Iocb, Aio, View, submit_view, taken_view, io_prep_pread, max_event, seq_buf_size,
}
use practice_code_c_cpp.BatchRead.{
  Batch, running, failed, batch_start, count, submit_next, on_event, has_failed, on_events,
  test_ready, events_of, shape, Step, kernel, round, Reach, start, later, prepared, Answer,
  accepted, Whole, AllWhole, WholeStep, AllTaken,
}
use practice_code_c_cpp.BatchRead.Invariant.Pieces.{
  accepted-Whole, IsPiece, AllPieces, AllPieces-take,
}
use practice_code_c_cpp.BatchRead.Invariant.Moves.{Inv, Ending-Inv}
use practice_code_c_cpp.BatchRead.Invariant.Rounds.{
  count-Inv, submit-Inv, fail-Inv, complete-Inv, take-Inv,
}
use practice_code_c_cpp.KernelAio.Tasks.{io_getevents_cases}

module _ (file : List ℕ) where
  abbrev f_size : ℕ
  f_size = length file

  -- What an event leaves: the function has returned with the events that it had, or it goes on.
  abbrev Behind : ℕ → Batch View → Type 0
  Behind m s = (Inv file (suc m) s × (s.status ≡ failed)) ⊎ (Inv file m s × (s.status ≡ running))

  -- What holds between two steps: the events are counted, or the function has returned before.
  abbrev pub Holds : Batch View → Type 0
  Holds s = (m : ℕ) × Inv file m s × ((s.status ≡ failed) ⊎ ((m ≡ 0) × (s.status ≢ failed)))

  failed_test : (s : Batch View) → s.status ≡ failed → has_failed s ≡ true
  failed_test s f = ground arith

  going_test : (s : Batch View) → s.status ≢ failed → has_failed s ≡ false
  going_test s nf = ground arith

  test_ready-Holds : (s : Batch View) → Holds s → Holds (test_ready f_size s)
  unfolding test_ready
  test_ready-Holds s (m, inv, inl f) = rw (failed_test s f) (m, inv, inl f)
  test_ready-Holds s (m, inv, inr (z, nf)) = elim (Bool-cases (leb f_size s.ready)) [
    | inl enough ↦
        rw (going_test s nf, enough) (m, complete-Inv file inv (ground arith), inr (z, λ f. cc))
    | inr more ↦ rw (going_test s nf, more) (m, inv, inr (z, nf))
  ]

  length-events_of : (es : List (Iocb × Option Answer)) → length (events_of es) ≡ length es
  length-events_of [] = refl
  length-events_of (e ∷ es) = ap suc (length-events_of es)

  taken-Inv :
      {s : Batch View} {v' : View} (es : List (Iocb × Option Answer))
      → Inv file 0 s
      → (events_of es ≡ take max_event s.ctx.completed) × (v' ≡ taken_view max_event s.ctx)
      → AllPieces (events_of es) × Inv file (length es) (record s { ctx = v' })
  taken-Inv {s} es inv (events, left) = (
    subst AllPieces (sym events) (AllPieces-take max_event s.ctx.completed inv.ended),
    subst (λ c. Inv file (length es) (record s { ctx = c })) (sym left)
        (subst (λ n. Inv file n (record s { ctx = taken_view max_event s.ctx }))
          (ap length (sym events) ∙ length-events_of es) (take-Inv file inv)),
  )

module _ (aio : Aio) (file : List ℕ) where
  open aio use {Context, view, io_getevents}

  submit_next-Inv :
      {m : ℕ} {s : Batch Context} {e : Iocb} (a : Answer)
      → Whole 1 a
      → Inv file (suc m) (shape aio s)
      → IsPiece e
      → s.offset < length file
      → Inv file m (shape aio (count (submit_next aio s e a) e))
  unfolding count submit_next io_prep_pread
  submit_next-Inv {m} {s} {e} a w inv p before =
      subst (λ v. Inv file m (record (shape aio (count (submit_next aio s e a) e)) { ctx = v }))
        (sym (
          aio.view-io_submit (accepted a (next ∷ [])) s.ctx
          ∙ ap (λ cbs. submit_view cbs (view s.ctx)) (accepted-Whole a (next ∷ []) 1 w refl)))
        (submit-Inv file inv p before)
    where
      next : Iocb
      next = record { buf = s.offset; nbytes = seq_buf_size; offset = s.offset }

  on_event-Inv :
      {m : ℕ} {s : Batch Context} {e : Iocb} (answer : Option Answer)
      → AllWhole ((e, answer) ∷ [])
      → Inv file (suc m) (shape aio s)
      → IsPiece e
      → s.status ≡ running
      → Behind file m (shape aio (on_event aio (length file) s e answer))
  unfolding on_event
  on_event-Inv {m} {s} {e} answer w inv p r = elim (dec_lt s.offset (length file)) [
    | yes before ↦ submits answer w before
    | no past ↦
        rw (≤→ltb s.offset (length file) (omega arith))
          (inr (unfold count in count-Inv file inv p (omega arith), unfold count in r))
  ]
    where
      submits :
          (answer : Option Answer)
          → AllWhole ((e, answer) ∷ [])
          → s.offset < length file
          → Behind file m (shape aio (on_event aio (length file) s e answer))
      submits (some a) w before =
          rw (lt→ltb s.offset (length file) before)
            (inr (submit_next-Inv a w.0 inv p before, unfold count submit_next in r))
      submits none w before =
          rw (lt→ltb s.offset (length file) before) (inl (fail-Inv file inv, refl))

  on_events-Inv :
      (es : List (Iocb × Option Answer)) {s : Batch Context}
      → AllWhole es
      → AllPieces (events_of es)
      → Inv file (length es) (shape aio s)
      → s.status ≡ running
      → Holds file (shape aio (on_events aio (length file) s es))
  unfolding on_events
  on_events-Inv [] w p inv r = (0, inv, inr (refl, λ f. cc))
  on_events-Inv ((e, answer) ∷ es) {s} w p inv r =
      elim (on_event-Inv answer (ws answer w).0 inv p.0 r) [
        | inl h ↦ rw (h.1, has_failed) (suc (length es), h.0, inl h.1)
        | inr h ↦ rw (h.1, has_failed) (on_events-Inv es (ws answer w).1 p.1 h.0 h.1)
      ]
    where
      ws :
          (answer : Option Answer)
          → AllWhole ((e, answer) ∷ es)
          → AllWhole ((e, answer) ∷ []) × AllWhole es
      ws none w = (tt, w)
      ws (some a) w = ((w.0, tt), w.1)

  shape-test_ready :
      (f_size : ℕ) (t : Batch Context)
      → shape aio (test_ready f_size t) ≡ test_ready f_size (shape aio t)
  unfolding test_ready
  shape-test_ready f_size t = elim (Bool-cases (has_failed t)) [
    | inl f ↦ rw f refl
    | inr nf ↦ elim (Bool-cases (leb f_size t.ready)) [
      | inl enough ↦ rw (nf, enough) refl
      | inr more ↦ rw (nf, more) refl
    ]
  ]

  Step-Holds :
      {s t : Batch Context}
      → Holds file (shape aio s)
      → (st : Step aio file s t) → WholeStep aio st
      → Holds file (shape aio t)
  Step-Holds {s} (m, inv, l) (kernel {ctx'} k) w =
      (m, Ending-Inv file inv (aio.kernel_ends file s.ctx ctx' k), l)
  Step-Holds {s} (m, inv, inl f) (round es r e) w = cc
  Step-Holds {s} (m, inv, inr (z, nf)) (round es {ctx'} r e) w =
      let (_, handed, rest) = io_getevents_cases aio 1 max_event s.ctx ctx' (events_of es) e in
      let (events, left) =
        taken-Inv file es (subst (λ n. Inv file n (shape aio s)) z inv) (handed, rest) in
      subst (Holds file)
        (sym (
          shape-test_ready (length file)
            (on_events aio (length file) (record s { ctx = ctx' }) es)))
        (test_ready-Holds file
          (shape aio (on_events aio (length file) (record s { ctx = ctx' }) es))
          (on_events-Inv es w events left r))

  pub Reach-Holds :
      {memory : ℕ → ℕ} {n : ℕ} {s : Batch Context}
      → ((a : Answer)
          → Whole (prepared (length file)).task_no a
          → Holds file (shape aio (batch_start aio true (some a) memory (length file))))
      → (r : Reach aio file memory n s) → AllTaken aio r
      → Holds file (shape aio s)
  Reach-Holds h (start a) w = h a w
  Reach-Holds h (later r st) w = Step-Holds (Reach-Holds h r w.0) st w.1
