-- ===== src/BatchRead/Events.antt =====
-- The events that a round of BatchReadByLibAIO takes, and the tasks that it submits.
use practice_code_c_cpp.Prelude.{
  ℕ, ◌+◌, ◌*◌, ◌<◌, ◌≤◌, ◌≡◌, ◌≢◌, ◌⊎◌, inl, inr, refl, sym, subst, ap, ◌∙◌, Option, none, some,
  List, [], ◌∷◌, ◌++◌, length, length-append, drop, lt→ltb, ≤→ltb, leb, Bool-cases, arith,
}
use native.Mathlib.Decide.{dec_lt}
use practice_code_c_cpp.KernelAio.{Iocb, Aio, View, io_prep_pread, seq_buf_size, max_event}
use practice_code_c_cpp.BatchRead.{
  Answer, accepted, AllWhole, Batch, shape, Status, running, failed, complete, count, submit_next,
  on_event, has_failed, on_events, test_ready, events_of,
}
use practice_code_c_cpp.BatchRead.Invariant.{length-take-drop}

-- What may be completed is handed out, with answers of io_submit that take the one task asked for.
abbrev pub with_answers : List Iocb → List (Iocb × Option Answer)
with_answers [] = []
with_answers (e ∷ es) = (e, some (record { count = 1; beyond = [] })) ∷ with_answers es

pub with_answers-AllWhole : (es : List Iocb) → AllWhole (with_answers es)
with_answers-AllWhole [] = tt
with_answers-AllWhole (e ∷ es) = (refl, with_answers-AllWhole es)

pub events_of-with_answers : (es : List Iocb) → es ≡ events_of (with_answers es)
events_of-with_answers [] = refl
events_of-with_answers (e ∷ es) = ap (λ xs. e ∷ xs) (events_of-with_answers es)

-- An event leaves the tasks that completed, and each task that it submits is in flight.
abbrev pub Same : Batch View → Batch View → Type 0
Same s t =
    (t.ctx.completed ≡ s.ctx.completed)
    × (length t.ctx.submitted + length s.ctx.in_flight
        ≡ length s.ctx.submitted + length t.ctx.in_flight)

pub Same-trans : (s t u : Batch View) → Same s t → Same t u → Same s u
Same-trans s t u h k = (k.0 ∙ h.0, omega arith)

pub length-drop : (xs : List Iocb) → 0 < length xs → length (drop max_event xs) < length xs
length-drop [] h = absurd (omega arith)
length-drop (x ∷ xs) h = omega (arith, length-take-drop 4 xs)

module _ (aio : Aio) (f_size : ℕ) where
  submit_next-Same :
      (s : Batch aio.Context) (e : Iocb) (a : Answer)
      → Same (shape aio s) (shape aio (submit_next aio s e a))
  unfolding submit_next io_prep_pread
  submit_next-Same s e a =
      subst (λ v. Same (shape aio s) (record (shape aio (submit_next aio s e a)) { ctx = v }))
        (sym (aio.view-io_submit new s.ctx))
        (
          refl,
          omega (
            arith,
            length-append (aio.view s.ctx).submitted new,
            length-append (aio.view s.ctx).in_flight new,
          ),
        )
    where
      new : List Iocb
      new = accepted a (io_prep_pread s.offset seq_buf_size s.offset ∷ [])

  on_event-Same :
      (s : Batch aio.Context) (e : Iocb) (answer : Option Answer)
      → Same (shape aio s) (shape aio (on_event aio f_size s e answer))
  unfolding on_event count
  on_event-Same s e (some a) = elim (dec_lt s.offset f_size) [
    | yes h ↦ rw (lt→ltb s.offset f_size h) (submit_next-Same s e a)
    | no h ↦ rw (≤→ltb s.offset f_size (omega arith)) (refl, refl)
  ]
  on_event-Same s e none = elim (dec_lt s.offset f_size) [
    | yes h ↦ rw (lt→ltb s.offset f_size h) (refl, refl)
    | no h ↦ rw (≤→ltb s.offset f_size (omega arith)) (refl, refl)
  ]

  pub on_events-Same :
      (es : List (Iocb × Option Answer)) (s : Batch aio.Context)
      → Same (shape aio s) (shape aio (on_events aio f_size s es))
  unfolding on_events
  on_events-Same [] s = (refl, refl)
  on_events-Same ((e, answer) ∷ es) s =
      elim (Bool-cases (has_failed (on_event aio f_size s e answer))) [
        | inl stop ↦ rw stop (on_event-Same s e answer)
        | inr more ↦ rw more (
            Same-trans (shape aio s) (shape aio (on_event aio f_size s e answer))
              (shape aio (on_events aio f_size (on_event aio f_size s e answer) es))
              (on_event-Same s e answer) (on_events-Same es (on_event aio f_size s e answer)))
      ]

  pub test_ready-Same :
      (s : Batch aio.Context) → Same (shape aio s) (shape aio (test_ready f_size s))
  unfolding test_ready
  test_ready-Same s = elim (Bool-cases (has_failed s)) [
    | inl f ↦ rw f (refl, refl)
    | inr nf ↦ elim (Bool-cases (leb f_size s.ready)) [
      | inl enough ↦ rw (nf, enough) (refl, refl)
      | inr more ↦ rw (nf, more) (refl, refl)
    ]
  ]

  pub test_ready-going :
      (s : Batch aio.Context)
      → (test_ready f_size s).status ≡ running
      → (test_ready f_size s).ready < f_size
  unfolding test_ready
  test_ready-going s r = ground arith

pub goes_on : {C : Type 0} (s : Batch C) → (s.status ≡ running) ⊎ (s.status ≢ running)
goes_on s = goes_on_at s.status
  where
    goes_on_at : (x : Status) → (x ≡ running) ⊎ (x ≢ running)
    goes_on_at running = inl refl
    goes_on_at failed = inr (λ e. cc)
    goes_on_at complete = inr (λ e. cc)

-- Each step ends a task or takes an event.
abbrev pub Spent : ℕ → Batch View → Type 0
Spent n s = n + (2 * length s.ctx.in_flight + length s.ctx.completed) ≤ 2 * length s.ctx.submitted

pub nothing_there : (front back : List Iocb) (cb : Iocb) → [] ≡ front ++ (cb ∷ back) → ⊥
nothing_there [] back cb e = cc
nothing_there (x ∷ front) back cb e = cc
