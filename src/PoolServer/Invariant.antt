-- ===== src/PoolServer/Invariant.antt =====
-- What every interleaving of the reactor and the workers keeps, connection by connection.
use practice_code_c_cpp.Prelude.{
  ℕ, ◌+◌, ◌≤◌, ◌≡◌, refl, ◌⊎◌, inl, inr, Option, none, some, List, [], ◌∷◌, arith, ◌==◌,
  if◌then◌else◌, length, length-append, sum, sum-append, sum-set, get_elem?, set, Option-cases,
}
use practice_code_c_cpp.SafeQueue.{push, shift, resume, shift_no_wait, wake_spuriously}
use practice_code_c_cpp.WorkerPool.{Worker, ready, waiting, running, take_task, add_queue}
use practice_code_c_cpp.PoolServer.{
  Msg, Handler, begun, handling, notifying, Reactor, idle, queueing, responding, sending, System,
  run_handler, run_worker, Action, receive, respond, react, work, wake, on_receive, on_respond,
  on_react, step, run,
}

module _ (c : ℕ) where
  abbrev pub here : ℕ → ℕ
  here d = if d == c then 1 else 0

  abbrev pub task_for : Option ℕ → ℕ
  task_for none = 0
  task_for (some d) = here d

  -- A worker that has a task of `c` and has not looked for its request.
  abbrev pub begins : Worker Handler → ℕ
  begins ready = 0
  begins waiting = 0
  begins (running (begun d)) = here d
  begins (running (handling d m)) = 0
  begins (running (notifying d)) = 0

  -- One that gave its response and has not told the reactor.
  abbrev pub notifies : Worker Handler → ℕ
  notifies ready = 0
  notifies waiting = 0
  notifies (running (begun d)) = 0
  notifies (running (handling d m)) = 0
  notifies (running (notifying d)) = here d

  abbrev pub queues : Reactor → ℕ
  queues idle = 0
  queues (queueing d) = here d
  queues (responding d) = 0
  queues (sending d m) = 0

  abbrev responds : Reactor → ℕ
  responds idle = 0
  responds (queueing d) = 0
  responds (responding d) = here d
  responds (sending d m) = 0

  module _ (weight : Msg → ℕ) where
    abbrev pub held_by : Worker Handler → ℕ
    held_by ready = 0
    held_by waiting = 0
    held_by (running (begun d)) = 0
    held_by (running (handling d m)) = if d == c then weight m else 0
    held_by (running (notifying d)) = 0

    abbrev pub held_by_reactor : Reactor → ℕ
    held_by_reactor idle = 0
    held_by_reactor (queueing d) = 0
    held_by_reactor (responding d) = 0
    held_by_reactor (sending d m) = if d == c then weight m else 0

    -- For connection `c`: each queued request has a task, each signal a response, and each message
    -- received is in one place. A weight of messages that is arbitrary counts each message.
    pub record Inv (sys : System) : Type 0 where
      pub tasks :
          length (sys.conn c).req_queue.q
          ≡ sum task_for sys.task_queue.q + sum begins sys.workers + queues sys.reactor
      pub signals :
          (sys.conn c).counter + sum notifies sys.workers + responds sys.reactor
          ≤ length (sys.conn c).rsp_queue.q
      pub conserved :
          sum weight (sys.conn c).received
          ≡ sum weight (sys.conn c).req_queue.q
            + sum held_by sys.workers
            + sum weight (sys.conn c).rsp_queue.q
            + held_by_reactor sys.reactor
            + sum weight (sys.conn c).sent

    receive-Inv :
        (sys : System) (r : Reactor) (d : ℕ) (m : Msg)
        → sys.reactor ≡ r
        → Inv sys
        → Inv (on_receive sys r d m)
    unfolding on_receive push
    receive-Inv sys idle d m e v = ground (
      arith,
      length-append (sys.conn d).req_queue.q (m ∷ []),
      sum-append weight (sys.conn d).req_queue.q (m ∷ []),
      sum-append weight (sys.conn d).received (m ∷ []),
    )
    receive-Inv sys (queueing _) d m e v = v
    receive-Inv sys (responding _) d m e v = v
    receive-Inv sys (sending _ _) d m e v = v

    respond-Inv :
        (sys : System) (r : Reactor) (d : ℕ) → sys.reactor ≡ r → Inv sys → Inv (on_respond sys r d)
    unfolding on_respond
    respond-Inv sys idle d e v = ground arith
    respond-Inv sys (queueing _) d e v = v
    respond-Inv sys (responding _) d e v = v
    respond-Inv sys (sending _ _) d e v = v

    react-Inv : (sys : System) (r : Reactor) → sys.reactor ≡ r → Inv sys → Inv (on_react sys r)
    unfolding on_react add_queue push shift_no_wait
    react-Inv sys idle e v = v
    react-Inv sys (queueing d) e v =
        ground (arith, sum-append task_for sys.task_queue.q (some d ∷ []))
    react-Inv sys (responding d) e v = ground arith
    react-Inv sys (sending d m) e v = ground (arith, sum-append weight (sys.conn d).sent (m ∷ []))

    -- A worker `w` in its pool. What its place counts for is replaced when it moves to `v`.
    module _ (sys : System) (i : ℕ) (w : Worker Handler)
        (at : get_elem? sys.workers i ≡ some w) where
      moved :
          (v : Worker Handler)
          → (sum begins (set sys.workers i v) + begins w ≡ sum begins sys.workers + begins v)
            × (sum notifies (set sys.workers i v) + notifies w
                ≡ sum notifies sys.workers + notifies v)
            × (sum held_by (set sys.workers i v) + held_by w ≡ sum held_by sys.workers + held_by v)
      moved v = (
        sum-set begins sys.workers i v w at,
        sum-set notifies sys.workers i v w at,
        sum-set held_by sys.workers i v w at,
      )

      begun-Inv :
          (d : ℕ) (q : List Msg)
          → (sys.conn d).req_queue.q ≡ q
          → w ≡ running (begun d)
          → Inv sys
          → Inv (run_worker sys i (running (begun d)))
      unfolding run_worker run_handler shift_no_wait
      begun-Inv d [] q e v = ground (arith, moved ready)
      begun-Inv d (m ∷ rest) q e v = ground (arith, moved (running (handling d m)))

      handler-Inv : (h : Handler) → w ≡ running h → Inv sys → Inv (run_worker sys i (running h))
      unfolding run_worker run_handler push
      handler-Inv (begun d) e v = begun-Inv d _ refl e v
      handler-Inv (handling d m) e v = ground (
        arith,
        moved (running (notifying d)),
        length-append (sys.conn d).rsp_queue.q (m ∷ []),
        sum-append weight (sys.conn d).rsp_queue.q (m ∷ []),
      )
      handler-Inv (notifying d) e v = ground (arith, moved ready)

      -- A worker with no task: it takes the first of the queue, or sleeps.
      take-Inv :
          (q : List (Option ℕ))
          → sys.task_queue.q ≡ q
          → (w ≡ ready) ⊎ (w ≡ waiting)
          → Inv sys
          → Inv (run_worker sys i w)
      unfolding run_worker take_task shift resume
      take-Inv [] q e v = ground (arith, moved waiting)
      take-Inv (none ∷ rest) q e v = ground (arith, moved ready, moved waiting)
      take-Inv (some d ∷ rest) q e v = ground (arith, moved (running (begun d)), moved waiting)

      worker-Inv : (u : Worker Handler) → w ≡ u → Inv sys → Inv (run_worker sys i u)
      worker-Inv (running h) e v = handler-Inv h e v
      worker-Inv ready e v = rw (← e) (take-Inv _ refl (inl e) v)
      worker-Inv waiting e v = rw (← e) (take-Inv _ refl (inr e) v)

    work-Inv : (sys : System) (i : ℕ) → Inv sys → Inv (step sys (work i))
    unfolding step
    work-Inv sys i v = elim (Option-cases (get_elem? sys.workers i)) [
      | inl e ↦ rw (e, step) v
      | inr (w, e) ↦ rw (e, step) (worker-Inv sys i w e w refl v)
    ]

    step-Inv : (sys : System) (a : Action) → Inv sys → Inv (step sys a)
    unfolding step wake_spuriously
    step-Inv sys (receive d m) v = receive-Inv sys sys.reactor d m refl v
    step-Inv sys (respond d) v = respond-Inv sys sys.reactor d refl v
    step-Inv sys react v = react-Inv sys sys.reactor refl v
    step-Inv sys (work i) v = work-Inv sys i v
    step-Inv sys wake v = ground arith

    pub run-Inv : (sys : System) (acts : List Action) → Inv sys → Inv (run sys acts)
    unfolding run
    run-Inv sys [] v = v
    run-Inv sys (a ∷ rest) v = run-Inv (step sys a) rest (step-Inv sys a v)
