-- ===== src/KernelAio/Eventfd/Returning.antt =====
-- When ReadByKernelAIOAndEventfdAndEpoll leaves its loop, and when it never does.
use practice_code_c_cpp.Prelude.{
  ℕ, zero, suc, ◌+◌, ◌<◌, ◌≤◌, ◌≡◌, refl, ap, none, some, List, [], ◌∷◌, ◌++◌, length, take, drop,
  sum, sum-append, length-append, length-take, leb, Bool-cases, inl, inr, arith,
}
use practice_code_c_cpp.KernelAio.{Iocb, Aio, max_event, prepare_from, check_by_io_getevents}
use practice_code_c_cpp.KernelAio.Tasks.{
  held, Ending-held, sum-ones, none_left, io_getevents_cases, view-submitted,
}
use practice_code_c_cpp.KernelAio.Eventfd.{
  Status, watching, checking, finishing, failing, Reader, on_wait, on_checked, eventfd_start, Step,
  ends, reports, fails, checks, Reach, start, later,
}

sum-take-drop :
    (f : Iocb → ℕ) (n : ℕ) (xs : List Iocb) → sum f (take n xs) + sum f (drop n xs) ≡ sum f xs
sum-take-drop f zero xs = omega arith
sum-take-drop f (suc n) [] = omega arith
sum-take-drop f (suc n) (x ∷ xs) = omega (arith, sum-take-drop f n xs)

-- The events that are waited for.
abbrev pending : Status → ℕ
pending watching = 0
pending (checking ret) = ret
pending finishing = 0
pending failing = 0

module _ (aio : Aio) (file : List ℕ) (memory : ℕ → ℕ) (buf : ℕ) where
  open aio use {Context, view}

  -- No task is lost or called back twice, and `finished` counts the events called back or waited for.
  record IsSound (s : Reader Context) : Type 0 where
    tasks :
        (f : Iocb → ℕ) → sum f s.called + held f (view s.ctx) ≡ sum f (prepare_from buf max_event 0)
    counted : length s.called + pending s.status ≡ s.finished
    enough : s.status ≡ finishing → max_event ≤ s.finished

  start-IsSound : IsSound (eventfd_start aio memory buf)
  unfolding eventfd_start prepare_from
  start-IsSound = record {
    tasks =
        λ f. omega (arith, ap (held f) (view-submitted aio (prepare_from buf max_event 0) memory));
    counted = omega arith;
    enough = λ e. cc;
  }

  ends-IsSound :
      {s : Reader Context} {ctx' : Context}
      → IsSound s
      → aio.Kernel file s.ctx ctx'
      → IsSound (record s { ctx = ctx' })
  ends-IsSound {s} {ctx'} h k = record {
    tasks = λ f. omega (arith, h.tasks f, Ending-held f (aio.kernel_ends file s.ctx ctx' k));
    counted = h.counted;
    enough = h.enough;
  }

  -- A wait for `ret` events gets just as many.
  checked :
      (ret : ℕ) (c c' : Context) (es : List Iocb)
      → check_by_io_getevents aio ret c ≡ some (es, c')
      → (length es ≡ ret) × ((f : Iocb → ℕ) → sum f es + held f (view c') ≡ held f (view c))
  unfolding check_by_io_getevents
  checked ret c c' es e =
      let (least, given, left) = io_getevents_cases aio ret ret c c' es e in
      (
        omega (arith, ap length given, length-take ret (view c).completed, least),
        λ f.
            omega
              (arith, ap (sum f) given, ap (held f) left, sum-take-drop f ret (view c).completed),
      )

  checks-IsSound :
      (ret : ℕ) (es : List Iocb) {s : Reader Context} {ctx' : Context}
      → IsSound s
      → s.status ≡ checking ret
      → check_by_io_getevents aio ret s.ctx ≡ some (es, ctx')
      → IsSound (on_checked s es ctx')
  unfolding on_checked
  checks-IsSound ret es {s} {ctx'} h r e = elim (Bool-cases (leb max_event s.finished)) [
    | inl done ↦
        rw done (record { tasks = same; counted = all finishing refl; enough = λ f. ground arith })
    | inr more ↦ rw more (record { tasks = same; counted = all watching refl; enough = λ f. cc })
  ]
    where
      same :
          (f : Iocb → ℕ)
          → sum f (s.called ++ es) + held f (view ctx') ≡ sum f (prepare_from buf max_event 0)
      same f = omega (arith, h.tasks f, sum-append f s.called es, (checked ret s.ctx ctx' es e).1 f)

      all : (x : Status) → pending x ≡ 0 → length (s.called ++ es) + pending x ≡ s.finished
      all x z = omega (
        arith,
        h.counted,
        ap pending r,
        length-append s.called es,
        (checked ret s.ctx ctx' es e).0,
        z,
      )

  Step-IsSound : {s t : Reader Context} → IsSound s → Step aio file s t → IsSound t
  unfolding on_wait
  Step-IsSound h (ends k) = ends-IsSound h k
  Step-IsSound {s} h (reports ret r z e) = record {
    tasks = h.tasks;
    counted = omega (arith, h.counted, ap pending r);
    enough = λ f. cc;
  }
  Step-IsSound {s} h (fails r) = record {
    tasks = h.tasks;
    counted = omega (arith, h.counted, ap pending r);
    enough = λ f. cc;
  }
  Step-IsSound h (checks ret es r e) = checks-IsSound ret es h r e

  Reach-IsSound : {s : Reader Context} → Reach aio file memory buf s → IsSound s
  Reach-IsSound start = start-IsSound
  Reach-IsSound (later r st) = Step-IsSound (Reach-IsSound r) st

  at_most :
      {s : Reader Context}
      → IsSound s
      → length s.called + (length (view s.ctx).in_flight + length (view s.ctx).completed)
        ≡ max_event
  unfolding prepare_from
  at_most {s} h = omega (
    arith,
    h.tasks (λ cb. 1),
    sum-ones s.called,
    sum-ones (view s.ctx).in_flight,
    sum-ones (view s.ctx).completed,
  )

  -- Where io_submit takes all five tasks and ReadByKernelAIOAndEventfdAndEpoll leaves its loop,
  -- LibioCallback has been called for each of the five tasks, once, in some order (by every measure of tasks the sums are equal).
  pub eventfd_called_back :
      {s : Reader Context}
      → Reach aio file memory buf s
      → s.status ≡ finishing
      → (f : Iocb → ℕ) → sum f s.called ≡ sum f (prepare_from buf max_event 0)
  eventfd_called_back {s} r e f =
      let h = Reach-IsSound r in
      omega (
        arith,
        h.tasks f,
        none_left f (view s.ctx).in_flight
            (omega (arith, at_most h, h.counted, h.enough e, ap pending e)),
        none_left f (view s.ctx).completed
            (omega (arith, at_most h, h.counted, h.enough e, ap pending e)),
      )

  stuck_at :
      {s : Reader Context} (x : Status)
      → s.status ≡ x
      → IsSound s
      → max_event < s.finished
      → (ret : ℕ) × (s.status ≡ checking ret) × (check_by_io_getevents aio ret s.ctx ≡ none)
  unfolding check_by_io_getevents
  stuck_at watching e h over = absurd (omega (arith, at_most h, h.counted, ap pending e))
  stuck_at finishing e h over = absurd (omega (arith, at_most h, h.counted, ap pending e))
  stuck_at failing e h over = absurd (omega (arith, at_most h, h.counted, ap pending e))
  stuck_at {s} (checking ret) e h over = (
    ret,
    e,
    aio.io_getevents_waits ret ret s.ctx (omega (arith, at_most h, h.counted, ap pending e)),
  )

  -- Where io_submit takes all five tasks: when the numbers that epoll_wait has reported add up to more
  -- than five, the function never returns: whatever the kernel does, it waits for more events than
  -- there will be.
  pub eventfd_waits :
      {s : Reader Context}
      → Reach aio file memory buf s
      → max_event < s.finished
      → (ret : ℕ) × (s.status ≡ checking ret) × (check_by_io_getevents aio ret s.ctx ≡ none)
  eventfd_waits {s} r over = stuck_at s.status refl (Reach-IsSound r) over
