-- ===== src/BatchRead/Progress.antt =====
-- Whether BatchReadByLibAIO returns, on a file of more than 1024 bytes and on any other.
use practice_code_c_cpp.Prelude.{
  ℕ, suc, ◌+◌, ◌*◌, ◌/◌, ◌<◌, ◌≤◌, ◌≡◌, ◌≢◌, ◌⊎◌, inl, inr, refl, sym, ap, ◌∙◌, Option, true, some,
  List, [], ◌∷◌, ◌++◌, length, length-append, take, arith,
}
use native.Mathlib.Decide.{dec_lt}
use practice_code_c_cpp.KernelAio.{
  Iocb, Aio, View, Ending, submit_view, empty_view, finish, give_up, taken_view, max_event,
  seq_buf_size,
}
use practice_code_c_cpp.BatchRead.{
  Answer, Whole, accepted, AllTaken, WholeStep, Batch, shape, prepared, running, batch_start,
  on_events, test_ready, events_of, Step, kernel, round, Reach, start, later,
}
use practice_code_c_cpp.BatchRead.Invariant.{Holds, Reach-Inv, task_no-pos, task_no-zero}
use practice_code_c_cpp.KernelAio.Tasks.{io_getevents_cases, view-submitted}
use practice_code_c_cpp.BatchRead.Events.{
  with_answers, with_answers-AllWhole, events_of-with_answers, Same, Same-trans, length-drop,
  on_events-Same, test_ready-Same, test_ready-going, goes_on, Spent, nothing_there,
}

module _ (file : List ℕ) where
  Ending-Spent :
      (n : ℕ) (s : Batch View) {v' : View}
      → Spent n s
      → Ending file s.ctx v'
      → Spent (suc n) (record s { ctx = v' })
  Ending-Spent n s h (finish front back cb e) = omega (
    arith,
    ap length e,
    length-append front (cb ∷ back),
    length-append front back,
    length-append s.ctx.completed (cb ∷ []),
  )
  Ending-Spent n s h (give_up front back cb k le e) = omega (
    arith,
    ap length e,
    length-append front (cb ∷ back),
    length-append front back,
    length-append s.ctx.completed (cb ∷ []),
  )

  nothing_ends : {v v' : View} → v.in_flight ≡ [] → Ending file v v' → ⊥
  nothing_ends f (finish front back cb e) = nothing_there front back cb (sym f ∙ e)
  nothing_ends f (give_up front back cb k le e) = nothing_there front back cb (sym f ∙ e)

module _ (aio : Aio) (file : List ℕ) where
  open aio use {Context, view, io_getevents}

  can_finish :
      (s : Batch Context) (cbs : List Iocb)
      → (view s.ctx).in_flight ≡ cbs
      → 0 < length cbs
      → (t : Batch Context) × (st : Step aio file s t) × WholeStep aio st
  can_finish s [] e h = absurd (omega arith)
  can_finish s (cb ∷ cbs) e h =
      let (ctx', k) = aio.kernel_goes file s.ctx [] cbs cb e in (_, kernel {ctx' = ctx'} k, tt)

  can_take :
      (s : Batch Context)
      → s.status ≡ running
      → 0 < length (view s.ctx).completed
      → (t : Batch Context) × (st : Step aio file s t) × WholeStep aio st
  can_take s r h =
      let (ctx', given, _) = aio.io_getevents_takes 1 max_event s.ctx h in
      (
        _,
        round (with_answers (take max_event (view s.ctx).completed)) {ctx' = ctx'} r (
            given
            ∙ ap (λ es. some (es, ctx'))
                (events_of-with_answers (take max_event (view s.ctx).completed))),
        with_answers-AllWhole (take max_event (view s.ctx).completed),
      )

  can-Step :
      (s : Batch Context)
      → seq_buf_size < length file
      → Holds file (shape aio s)
      → s.ready < length file
      → s.status ≡ running
      → (t : Batch Context) × (st : Step aio file s t) × WholeStep aio st
  can-Step s h (m, inv, inl f) g r = cc
  can-Step s h (m, inv, inr (z, nf)) g r = elim (dec_lt 0 (length (view s.ctx).in_flight)) [
    | yes flying ↦ can_finish s (view s.ctx).in_flight refl flying
    | no landed ↦ can_take s r (ground (arith, inv.busy, inv.counted, task_no-pos (length file) h))
  ]

  round-Same :
      (s : Batch Context) (es : List (Iocb × Option Answer))
      → Same (shape aio s) (shape aio (test_ready (length file) (on_events aio (length file) s es)))
  round-Same s es =
      Same-trans (shape aio s) (shape aio (on_events aio (length file) s es))
        (shape aio (test_ready (length file) (on_events aio (length file) s es)))
        (on_events-Same aio (length file) es s)
        (test_ready-Same aio (length file) (on_events aio (length file) s es))

  round-Spent :
      (n : ℕ) (s t : Batch View) (v' : View)
      → Spent n s
      → 0 < length s.ctx.completed
      → v' ≡ taken_view max_event s.ctx
      → Same (record s { ctx = v' }) t
      → Spent (suc n) t
  round-Spent n s t v' h some_done left same = omega (
    arith,
    ap (λ (v : View). length v.completed) left,
    ap (λ (v : View). length v.in_flight) left,
    ap (λ (v : View). length v.submitted) left,
    ap length same.0,
    length-drop s.ctx.completed,
  )

  Step-Spent :
      (n : ℕ) {s t : Batch Context}
      → Spent n (shape aio s)
      → Step aio file s t
      → Spent (suc n) (shape aio t)
  Step-Spent n {s} h (kernel {ctx'} k) =
      Ending-Spent file n (shape aio s) h (aio.kernel_ends file s.ctx ctx' k)
  Step-Spent n {s} h (round es {ctx'} r e) =
      let (some_done, _, left) = io_getevents_cases aio 1 max_event s.ctx ctx' (events_of es) e in
      round-Spent n (shape aio s)
        (shape aio
          (test_ready (length file) (on_events aio (length file) (record s { ctx = ctx' }) es)))
        (view ctx') h some_done left (round-Same (record s { ctx = ctx' }) es)

  Step-going :
      {s t : Batch Context}
      → (s.status ≡ running → s.ready < length file)
      → Step aio file s t
      → t.status ≡ running
      → t.ready < length file
  Step-going h (kernel k) r = h r
  Step-going h (round es r₀ e) r = test_ready-going aio (length file) _ r

  stuck :
      (s : Batch Context)
      → (view s.ctx).in_flight ≡ []
      → (view s.ctx).completed ≡ []
      → {t : Batch Context} → Step aio file s t
      → ⊥
  stuck s f c (kernel {ctx'} k) = nothing_ends file f (aio.kernel_ends file s.ctx ctx' k)
  stuck s f c (round es {ctx'} r e) =
      omega (arith, ap length c, (io_getevents_cases aio 1 max_event s.ctx ctx' (events_of es) e).0)

  few_submitted :
      (s : Batch View)
      → Holds file s
      → seq_buf_size * length s.ctx.submitted < length file + seq_buf_size
  few_submitted s (m, inv, _) = omega (arith, inv.place, inv.inside)

module _ (aio : Aio) (file : List ℕ) (memory : ℕ → ℕ) where
  view-start :
      (a : Answer)
      → aio.view (batch_start aio true (some a) memory (length file)).ctx
        ≡ submit_view
            (accepted a (take (prepared (length file)).task_no (prepared (length file)).io_cb_p))
            (empty_view memory)
  unfolding batch_start
  view-start a = view-submitted aio _ memory

  start-Spent :
      (a : Answer) → Spent 0 (shape aio (batch_start aio true (some a) memory (length file)))
  start-Spent a = omega (
    arith,
    ap (λ (v : View). length v.submitted) (view-start a),
    ap (λ (v : View). length v.in_flight) (view-start a),
    ap (λ (v : View). length v.completed) (view-start a),
  )

  Reach-Spent : {n : ℕ} {s : Batch aio.Context} → Reach aio file memory n s → Spent n (shape aio s)
  Reach-Spent (start a) = start-Spent a
  Reach-Spent (later {n} r st) = Step-Spent aio file n (Reach-Spent r) st

  Reach-going :
      {n : ℕ} {s : Batch aio.Context}
      → 0 < length file
      → Reach aio file memory n s
      → s.status ≡ running
      → s.ready < length file
  Reach-going h (start a) r = unfold batch_start in h
  Reach-going h (later r₀ st) r = Step-going aio file (Reach-going h r₀) st r

  -- A call on a file of more than 1024 bytes, in which io_setup and the first io_submit succeed, and
  -- each io_submit that succeeds takes the tasks prepared for it and no others, returns, whatever the
  -- kernel does: it takes at most two steps for each piece of the file, and until the function has
  -- returned there is a next step, in which again no io_submit takes fewer or others.
  pub batch_read_returns :
      {n : ℕ} {s : Batch aio.Context}
      → seq_buf_size < length file
      → (r : Reach aio file memory n s) → AllTaken aio r
      → (n ≤ 2 * ((length file + 1023) / seq_buf_size))
        × ((s.status ≢ running)
            ⊎ ((t : Batch aio.Context) × (st : Step aio file s t) × WholeStep aio st))
  batch_read_returns {n} {s} h r all = (
    omega (
      arith,
      Reach-Spent r,
      few_submitted aio file (shape aio s) (Reach-Inv aio file memory r all),
    ),
    elim (goes_on s) [
      | inl r₀ ↦ inr (
          can-Step aio file s h (Reach-Inv aio file memory r all) (Reach-going (omega arith) r r₀)
            r₀)
      | inr stopped ↦ inl stopped
    ],
  )

  module _ (small : length file ≤ seq_buf_size) where
    none_taken :
        (a : Answer)
        → Whole (prepared (length file)).task_no a
        → accepted a (take (prepared (length file)).task_no (prepared (length file)).io_cb_p) ≡ []
    none_taken a w =
        ap
          (λ k.
            take k
              (take (prepared (length file)).task_no (prepared (length file)).io_cb_p ++ a.beyond))
          (w ∙ task_no-zero (length file) small)

    start-empty :
        (a : Answer)
        → Whole (prepared (length file)).task_no a
        → ((aio.view (batch_start aio true (some a) memory (length file)).ctx).in_flight ≡ [])
          × ((aio.view (batch_start aio true (some a) memory (length file)).ctx).completed ≡ [])
          × ((batch_start aio true (some a) memory (length file)).status ≡ running)
    unfolding batch_start
    start-empty a w = (
      ap (λ (v : View). v.in_flight) (view-start a) ∙ none_taken a w,
      ap (λ (v : View). v.completed) (view-start a),
      refl,
    )

    -- In a call on a file of at most 1024 bytes, an empty one too, in which io_setup and the first
    -- io_submit succeed and that takes no other tasks than those prepared, the function never returns:
    -- nothing is submitted, and io_getevents waits for ever.
    pub small_file_waits :
        {n : ℕ} {s : Batch aio.Context} (r : Reach aio file memory n s)
        → AllTaken aio r
        → (s.status ≡ running) × ((t : Batch aio.Context) → ¬ Step aio file s t)
    small_file_waits (start a) w = let (f, c, r) = start-empty a w in (r, λ t. stuck aio file _ f c)
    small_file_waits (later r st) w = absurd ((small_file_waits r w.0).1 _ st)
