-- ===== src/KernelAio/Tasks.antt =====
-- What the readers of libaio_read.h get from io_getevents, whatever the kernel does meanwhile.
use practice_code_c_cpp.Prelude.{
  ℕ, ◌+◌, ◌≤◌, ◌≡◌, refl, sym, ap, ◌∙◌, none, some, List, [], ◌∷◌, length, take, sum, sum-append,
  take-length, arith,
}
use native.Mathlib.Decide.{dec_lt}
use practice_code_c_cpp.KernelAio.{
  Iocb, View, empty_view, submit_view, taken_view, Ending, finish, give_up, Aio, Waits, here, later,
  check_by_io_getevents, prepare_from, prepare_apart, read_by_kernel_aio, submit_error1, max_event,
}

-- The weight of the tasks in flight and completed, by any measure.
abbrev pub held : (Iocb → ℕ) → View → ℕ
held f v = sum f v.in_flight + sum f v.completed

pub Ending-held :
    {file : List ℕ} {v v' : View} (f : Iocb → ℕ) → Ending file v v' → held f v' ≡ held f v
Ending-held {v = v} f (finish front back cb e) = omega (
  arith,
  ap (sum f) e,
  sum-append f front (cb ∷ back),
  sum-append f front back,
  sum-append f v.completed (cb ∷ []),
)
Ending-held {v = v} f (give_up front back cb n le e) = omega (
  arith,
  ap (sum f) e,
  sum-append f front (cb ∷ back),
  sum-append f front back,
  sum-append f v.completed (cb ∷ []),
)

pub sum-ones : (xs : List Iocb) → sum (λ cb. 1) xs ≡ length xs
sum-ones [] = refl
sum-ones (x ∷ xs) = omega (arith, sum-ones xs)

pub take-whole : (n : ℕ) (xs : List Iocb) → length xs ≡ n → take n xs ≡ xs
take-whole n xs e = ap (λ k. take k xs) (sym e) ∙ take-length xs

pub none_left : (f : Iocb → ℕ) (xs : List Iocb) → length xs ≡ 0 → sum f xs ≡ 0
none_left f [] e = refl
none_left f (x ∷ xs) e = absurd (omega arith)

module _ (aio : Aio) where
  open aio use {Context, view, io_setup, io_submit, io_getevents}

  pub Waits-held :
      {file : List ℕ} {c c' : Context} (f : Iocb → ℕ)
      → Waits aio file c c'
      → held f (view c') ≡ held f (view c)
  Waits-held f here = refl
  Waits-held {file} f (later {mid} {end} w k) =
      Ending-held f (aio.kernel_ends file mid end k) ∙ Waits-held f w

  -- Events handed out are the first that completed, and they are enough.
  pub io_getevents_cases :
      (least most : ℕ) (c c' : Context) (es : List Iocb)
      → io_getevents least most c ≡ some (es, c')
      → (least ≤ length (view c).completed)
        × (es ≡ take most (view c).completed)
        × (view c' ≡ taken_view most (view c))
  io_getevents_cases least most c c' es e = elim (dec_lt (length (view c).completed) least) [
    | yes few ↦ absurd (cc (e, aio.io_getevents_waits least most c few))
    | no many ↦ handed (omega arith)
  ]
    where
      handed :
          least ≤ length (view c).completed
          → (least ≤ length (view c).completed)
            × (es ≡ take most (view c).completed)
            × (view c' ≡ taken_view most (view c))
      handed h =
          let (x, given, left) = aio.io_getevents_takes least most c h in
          (h, cc (e, given), ap view (cc (e, given)) ∙ left)

  -- The view of a context into which tasks were submitted.
  pub view-submitted :
      (cbs : List Iocb) (memory : ℕ → ℕ)
      → view (io_submit cbs (io_setup memory)) ≡ submit_view cbs (empty_view memory)
  view-submitted cbs memory =
      aio.view-io_submit cbs (io_setup memory) ∙ ap (submit_view cbs) (aio.view-io_setup memory)

  module _ (file : List ℕ) (memory : ℕ → ℕ) where
    -- Where io_submit takes all tasks and ReadByKernelAIO goes on behind its wait, LibioCallback has been called for each of the
    -- five tasks, once, in some order (by every measure of tasks the sums are equal).
    called_back_once :
        (buf : ℕ) {c c' : Context} (es : List Iocb)
        → Waits aio file (read_by_kernel_aio aio memory buf) c
        → check_by_io_getevents aio max_event c ≡ some (es, c')
        → (f : Iocb → ℕ) → sum f es ≡ sum f (prepare_from buf max_event 0)
    unfolding read_by_kernel_aio check_by_io_getevents prepare_from
    called_back_once buf {c} {c'} es w e f =
        let (enough, taken, left) = io_getevents_cases max_event max_event c c' es e in
        omega (
          arith,
          ap (sum f) (taken ∙ take-whole max_event (view c).completed (omega (arith, enough, all))),
          Waits-held f w,
          ap (held f) (view-submitted (prepare_from buf max_event 0) memory),
          none_left f (view c).in_flight (omega (arith, enough, all)),
        )
      where
        all : length (view c).in_flight + length (view c).completed ≡ max_event
        all = omega (
          arith,
          Waits-held (λ cb. 1) w,
          ap (held (λ cb. 1)) (view-submitted (prepare_from buf max_event 0) memory),
          sum-ones (view c).in_flight,
          sum-ones (view c).completed,
        )

    -- Where only one of its tasks is taken, ReadByKernelAIOSubmitError1 never gets behind its wait,
    -- which is for five.
    submit_error1_waits :
        (bufs : ℕ → ℕ) {c : Context}
        → Waits aio file (submit_error1 aio memory bufs) c
        → check_by_io_getevents aio max_event c ≡ none
    unfolding submit_error1 check_by_io_getevents prepare_apart
    submit_error1_waits bufs {c} w = aio.io_getevents_waits max_event max_event c (
        omega (
          arith,
          Waits-held (λ cb. 1) w,
          ap (held (λ cb. 1)) (view-submitted (take 1 (prepare_apart bufs max_event 0)) memory),
          sum-ones (view c).in_flight,
          sum-ones (view c).completed,
        ))
