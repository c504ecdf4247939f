-- ===== src/TaskServer/Conservation.antt =====
-- Each message is answered, whatever the order in which the threads run.
use practice_code_c_cpp.Prelude.{
  ℕ, ◌+◌, ◌≡◌, refl, Option, none, some, List, [], ◌∷◌, arith, ◌==◌, if◌then◌else◌, sum, sum-append,
  sum-set, get_elem?, Bool-cases, inl, inr,
}
use practice_code_c_cpp.Posix.Sockets.{store, zeroed}
use practice_code_c_cpp.ConditionPool
use practice_code_c_cpp.ConditionPool.{
  Worker, ready, asleep, woken, running, Pool, wake_first, wake_or, notify_one, add_queue,
  take_task,
}
use practice_code_c_cpp.TaskServer.Weights.{
  carried, queued, wake_or-sum, notify_one-sum, take_task-sum, start-sum,
}
use practice_code_c_cpp.TaskServer.{
  Msg, Handler, receiving, answering, removing, closing, System, Got, message, ended, later, failed,
  answer_of, on_accept, on_event, on_recv, run_handler, run_worker, work_at, Action, accept, event,
  work, wake, step, run, init,
}

module _ (fd : ℕ) (weight : Msg → ℕ) where
  -- The message of `fd` that a worker has received and not sent.
  abbrev pub held_by : Handler → ℕ
  held_by (receiving d) = 0
  held_by (answering d m) = if d == fd then weight m else 0
  held_by (removing d) = 0
  held_by (closing d) = 0

  abbrev Conserved : System → Type 0
  Conserved sys =
      (sum weight (sys.received fd)
        ≡ sum weight (sys.sent fd) + sum (carried held_by) sys.pool.workers)
      × (sum (queued held_by) sys.pool.task_queue ≡ 0)

  take_task-Conserved :
      (sys : System) (i : ℕ) (w : Worker Handler)
      → get_elem? sys.pool.workers i ≡ some w
      → carried held_by w ≡ 0
      → Conserved sys
      → Conserved (record sys { pool = (take_task sys.pool i).1 })
  take_task-Conserved sys i w e z h =
      let (held, left) = take_task-sum held_by sys.pool.task_queue sys.pool.workers i w e z in
      (omega (arith, h.0, h.1, held, left), omega (arith, h.1, left))

  on_recv-Conserved :
      (sys : System) (i d : ℕ) (got : Got)
      → get_elem? sys.pool.workers i ≡ some (running (receiving d))
      → Conserved sys
      → Conserved (on_recv sys i d got)
  unfolding on_recv
  on_recv-Conserved sys i d (message m) e h = (
    ground (
      arith,
      h.0,
      sum-append weight (sys.received d) (store zeroed m ∷ []),
      sum-set (carried held_by) sys.pool.workers i (running (answering d (store zeroed m)))
          (running (receiving d)) e,
    ),
    h.1,
  )
  on_recv-Conserved sys i d ended e h = (
    omega (
      arith,
      h.0,
      sum-set (carried held_by) sys.pool.workers i (running (removing d)) (running (receiving d)) e,
    ),
    h.1,
  )
  on_recv-Conserved sys i d later e h = (
    omega
        (arith, h.0, sum-set (carried held_by) sys.pool.workers i ready (running (receiving d)) e),
    h.1,
  )
  on_recv-Conserved sys i d failed e h = (
    omega (
      arith,
      h.0,
      sum-set (carried held_by) sys.pool.workers i (running (removing d)) (running (receiving d)) e,
    ),
    h.1,
  )

  run_handler-Conserved :
      (sys : System) (i : ℕ) (t : Handler) (got : Got)
      → get_elem? sys.pool.workers i ≡ some (running t)
      → Conserved sys
      → Conserved (run_handler sys i t got)
  unfolding run_handler
  run_handler-Conserved sys i (receiving d) got e h =
      on_recv-Conserved sys i d (answer_of (sys.is_open d) got) e h
  run_handler-Conserved sys i (answering d m) got e h = (
    ground (
      arith,
      h.0,
      sum-append weight (sys.sent d) (m ∷ []),
      sum-set (carried held_by) sys.pool.workers i (running (receiving d)) (running (answering d m))
          e,
    ),
    h.1,
  )
  run_handler-Conserved sys i (removing d) got e h = (
    omega (
      arith,
      h.0,
      sum-set (carried held_by) sys.pool.workers i (running (closing d)) (running (removing d)) e,
    ),
    h.1,
  )
  run_handler-Conserved sys i (closing d) got e h = (
    omega (arith, h.0, sum-set (carried held_by) sys.pool.workers i ready (running (closing d)) e),
    h.1,
  )

  work_at-Conserved :
      (sys : System) (i : ℕ) (o : Option (Worker Handler)) (got : Got)
      → get_elem? sys.pool.workers i ≡ o
      → Conserved sys
      → Conserved (work_at sys i o got)
  unfolding run_worker
  work_at-Conserved sys i none got e h = h
  work_at-Conserved sys i (some ready) got e h = take_task-Conserved sys i ready e refl h
  work_at-Conserved sys i (some woken) got e h = take_task-Conserved sys i woken e refl h
  work_at-Conserved sys i (some asleep) got e h = h
  work_at-Conserved sys i (some (running t)) got e h = run_handler-Conserved sys i t got e h

  on_event-Conserved : (sys : System) (d j : ℕ) → Conserved sys → Conserved (on_event sys d j)
  unfolding on_event add_queue
  on_event-Conserved sys d j h = elim (Bool-cases (sys.watched d)) [
    | inl yes_watched ↦ rw yes_watched (
      omega (arith, h.0, notify_one-sum held_by sys.pool.workers j),
      omega (arith, h.1, sum-append (queued held_by) sys.pool.task_queue (some (receiving d) ∷ [])),
    )
    | inr no_watch ↦ rw no_watch h
  ]

  step-Conserved : (sys : System) (a : Action) → Conserved sys → Conserved (step sys a)
  unfolding step on_accept
  step-Conserved sys (accept d) h = elim (Bool-cases (sys.is_open d)) [
    | inl opened ↦ rw opened h
    | inr free ↦ rw free h
  ]
  step-Conserved sys (event d j) h = on_event-Conserved sys d j h
  step-Conserved sys (work i got) h =
      work_at-Conserved sys i (get_elem? sys.pool.workers i) got refl h
  step-Conserved sys (wake i) h = (omega (arith, h.0, wake_or-sum held_by sys.pool.workers i), h.1)

  run-Conserved :
      (actions : List Action) (sys : System) → Conserved sys → Conserved (run sys actions)
  unfolding run
  run-Conserved [] sys h = h
  run-Conserved (a ∷ rest) sys h = run-Conserved rest (step sys a) (step-Conserved sys a h)

  -- Whatever the order of the threads and whatever recv gives: the buffers received on a descriptor
  -- are those sent on it and those that a worker is about to send, counted by an arbitrary weight.
  pub each_answered :
      (pool_size : ℕ) (actions : List Action)
      → sum weight ((run (init pool_size) actions).received fd)
        ≡ sum weight ((run (init pool_size) actions).sent fd)
          + sum (carried held_by) (run (init pool_size) actions).pool.workers
  unfolding init ConditionPool.start
  each_answered pool_size actions =
      (run-Conserved actions (init pool_size) (start-Conserved pool_size)).0
    where
      start-Conserved : (n : ℕ) → Conserved (init n)
      start-Conserved n = (omega (arith, start-sum held_by n), refl)
