-- ===== src/TaskServer/Ownership.antt =====
-- Whether a worker closes the connection whose end it read: it does as long as a connection has one
-- task at a time, and need not when it has two.
use practice_code_c_cpp.Prelude.{
  ℕ, ◌+◌, ◌≤◌, ◌≡◌, ◌⊎◌, inl, inr, refl, ap, true, false, Bool-cases, Option, none, some, List, [],
  ◌∷◌, ◌++◌, arith, ◌==◌, if◌then◌else◌, sum, sum-append, sum-set, get_elem?, set, ==_iff,
}
use practice_code_c_cpp.Posix.Sockets.{store, zeroed}
use practice_code_c_cpp.ConditionPool
use practice_code_c_cpp.ConditionPool.{
  Worker, ready, asleep, woken, running, Pool, add_queue, take_task,
}
use practice_code_c_cpp.TaskServer.Weights.{carried, queued, notify_one-sum, take_task-sum}
use practice_code_c_cpp.TaskServer.{
  Handler, receiving, answering, removing, closing, System, Got, message, ended, later, failed,
  answer_of, on_accept, on_event, on_recv, run_handler, run_worker, work_at,
}

module _ (fd : ℕ) where
  -- A task of `fd`, and one that is about to close it.
  abbrev pub mine : Handler → ℕ
  mine (receiving d) = if d == fd then 1 else 0
  mine (answering d m) = if d == fd then 1 else 0
  mine (removing d) = if d == fd then 1 else 0
  mine (closing d) = if d == fd then 1 else 0

  abbrev pub closes : Handler → ℕ
  closes (receiving d) = 0
  closes (answering d m) = 0
  closes (removing d) = 0
  closes (closing d) = if d == fd then 1 else 0

  -- The tasks of `fd`, in the queue and in the workers.
  abbrev pub tasks : System → ℕ
  tasks sys = sum (carried mine) sys.pool.workers + sum (queued mine) sys.pool.task_queue

  pub record Owned (sys : System) : Type 0 where
    pub single : tasks sys ≤ 1
    pub opened : (sys.is_open fd ≡ true) ⊎ (tasks sys ≡ 0)
    pub live : (sys.is_open fd ≡ true) ⊎ (sys.watched fd ≡ false)
    pub shut : (sum (carried closes) sys.pool.workers ≡ 0) ⊎ (sys.watched fd ≡ false)
    pub fresh : sum (queued closes) sys.pool.task_queue ≡ 0

  carried-closes : (w : Worker Handler) → carried closes w ≤ carried mine w
  carried-closes ready = omega arith
  carried-closes asleep = omega arith
  carried-closes woken = omega arith
  carried-closes (running (receiving d)) = omega arith
  carried-closes (running (answering d m)) = omega arith
  carried-closes (running (removing d)) = omega arith
  carried-closes (running (closing d)) = omega arith

  closers_le_tasks : (ws : List (Worker Handler)) → sum (carried closes) ws ≤ sum (carried mine) ws
  closers_le_tasks [] = omega arith
  closers_le_tasks (w ∷ ws) = omega (arith, carried-closes w, closers_le_tasks ws)

  -- A worker goes on with a task of the same descriptor, or ends it.
  go_on-Owned :
      (sys : System) (i : ℕ) (t : Handler) (w : Worker Handler)
      → get_elem? sys.pool.workers i ≡ some (running t)
      → carried mine w ≤ mine t
      → carried closes w ≤ closes t
      → Owned sys
      → Owned (record sys { pool = record sys.pool { workers = set sys.pool.workers i w } })
  go_on-Owned sys i t w e m c h = record {
    single = omega (arith, h.single, counted);
    opened = ground (arith, h.opened, counted);
    live = h.live;
    shut = ground (arith, h.shut, closers);
    fresh = h.fresh;
  }
    where
      counted : sum (carried mine) (set sys.pool.workers i w) ≤ sum (carried mine) sys.pool.workers
      counted = omega (arith, sum-set (carried mine) sys.pool.workers i w (running t) e)

      closers :
          sum (carried closes) (set sys.pool.workers i w) ≤ sum (carried closes) sys.pool.workers
      closers = omega (arith, sum-set (carried closes) sys.pool.workers i w (running t) e)

  take_task-Owned :
      (sys : System) (i : ℕ) (w : Worker Handler)
      → get_elem? sys.pool.workers i ≡ some w
      → carried mine w ≡ 0
      → carried closes w ≡ 0
      → Owned sys
      → Owned (record sys { pool = (take_task sys.pool i).1 })
  take_task-Owned sys i w e z y h =
      let (m, _) = take_task-sum mine sys.pool.task_queue sys.pool.workers i w e z in
      let (c, l) = take_task-sum closes sys.pool.task_queue sys.pool.workers i w e y in
      record {
        single = omega (arith, h.single, m);
        opened = ground (arith, h.opened, m);
        live = h.live;
        shut = ground (arith, h.shut, c, l, h.fresh);
        fresh = omega (arith, h.fresh, l);
      }

  removing-Owned :
      (sys : System) (i d : ℕ)
      → get_elem? sys.pool.workers i ≡ some (running (removing d))
      → Owned sys
      → Owned (run_handler sys i (removing d) later)
  unfolding run_handler
  removing-Owned sys i d e h = record {
    single = omega (arith, h.single, m);
    opened = ground (arith, h.opened, m);
    live = ground (arith, h.live);
    shut = ground (arith, h.shut, c);
    fresh = h.fresh;
  }
    where
      m :
          sum (carried mine) (set sys.pool.workers i (running (closing d)))
          ≡ sum (carried mine) sys.pool.workers
      m = omega (
        arith,
        sum-set (carried mine) sys.pool.workers i (running (closing d)) (running (removing d)) e,
      )

      c :
          sum (carried closes) (set sys.pool.workers i (running (closing d)))
          ≡ sum (carried closes) sys.pool.workers + (if d == fd then 1 else 0)
      c = omega (
        arith,
        sum-set (carried closes) sys.pool.workers i (running (closing d)) (running (removing d)) e,
      )

  closing-Owned :
      (sys : System) (i d : ℕ)
      → get_elem? sys.pool.workers i ≡ some (running (closing d))
      → Owned sys
      → Owned (run_handler sys i (closing d) later)
  unfolding run_handler
  closing-Owned sys i d e h = record {
    single = omega (arith, h.single, m);
    opened = ground (arith, h.opened, h.single, m);
    live = ground (arith, h.live, h.shut, c);
    shut = ground (arith, h.shut, c);
    fresh = h.fresh;
  }
    where
      m :
          sum (carried mine) (set sys.pool.workers i ready) + (if d == fd then 1 else 0)
          ≡ sum (carried mine) sys.pool.workers
      m = omega (arith, sum-set (carried mine) sys.pool.workers i ready (running (closing d)) e)

      c :
          sum (carried closes) (set sys.pool.workers i ready) + (if d == fd then 1 else 0)
          ≡ sum (carried closes) sys.pool.workers
      c = omega (arith, sum-set (carried closes) sys.pool.workers i ready (running (closing d)) e)

  on_recv-Owned :
      (sys : System) (i d : ℕ) (got : Got)
      → get_elem? sys.pool.workers i ≡ some (running (receiving d))
      → Owned sys
      → Owned (on_recv sys i d got)
  unfolding on_recv
  on_recv-Owned sys i d (message m) e h =
      let g =
        go_on-Owned sys i (receiving d) (running (answering d (store zeroed m))) e (omega arith)
          (omega arith) h in
      record { single = g.single; opened = g.opened; live = g.live; shut = g.shut; fresh = g.fresh }
  on_recv-Owned sys i d ended e h =
      go_on-Owned sys i (receiving d) (running (removing d)) e (omega arith) (omega arith) h
  on_recv-Owned sys i d later e h =
      go_on-Owned sys i (receiving d) ready e (omega arith) (omega arith) h
  on_recv-Owned sys i d failed e h =
      go_on-Owned sys i (receiving d) (running (removing d)) e (omega arith) (omega arith) h

  run_handler-Owned :
      (sys : System) (i : ℕ) (t : Handler) (got : Got)
      → get_elem? sys.pool.workers i ≡ some (running t)
      → Owned sys
      → Owned (run_handler sys i t got)
  unfolding run_handler
  run_handler-Owned sys i (receiving d) got e h =
      on_recv-Owned sys i d (answer_of (sys.is_open d) got) e h
  run_handler-Owned sys i (answering d m) got e h =
      let g =
        go_on-Owned sys i (answering d m) (running (receiving d)) e (omega arith) (omega arith) h in
      record { single = g.single; opened = g.opened; live = g.live; shut = g.shut; fresh = g.fresh }
  run_handler-Owned sys i (removing d) got e h = removing-Owned sys i d e h
  run_handler-Owned sys i (closing d) got e h = closing-Owned sys i d e h

  pub work_at-Owned :
      (sys : System) (i : ℕ) (o : Option (Worker Handler)) (got : Got)
      → get_elem? sys.pool.workers i ≡ o
      → Owned sys
      → Owned (work_at sys i o got)
  unfolding run_worker
  work_at-Owned sys i none got e h = h
  work_at-Owned sys i (some ready) got e h = take_task-Owned sys i ready e refl refl h
  work_at-Owned sys i (some woken) got e h = take_task-Owned sys i woken e refl refl h
  work_at-Owned sys i (some asleep) got e h = h
  work_at-Owned sys i (some (running t)) got e h = run_handler-Owned sys i t got e h

  pub on_event-Owned :
      (sys : System) (d j : ℕ)
      → ((d == fd) ≡ true → tasks sys ≡ 0)
      → Owned sys
      → Owned (on_event sys d j)
  unfolding on_event add_queue
  on_event-Owned sys d j alone h = elim (Bool-cases (sys.watched d)) [
    | inr no_watch ↦ rw no_watch h
    | inl watching ↦ rw watching (record {
      single = ground (arith, h.single, m, q, alone);
      opened = ground (arith, h.opened, h.live, m, q, here);
      live = h.live;
      shut = ground (arith, h.shut, c);
      fresh = omega (
        arith,
        h.fresh,
        sum-append (queued closes) sys.pool.task_queue (some (receiving d) ∷ []),
      );
    })
  ]
    where
      here : (d == fd) ≡ true → sys.watched d ≡ sys.watched fd
      here e = ap sys.watched ((==_iff d fd).0 e)

      m :
          sum (carried mine) (ConditionPool.notify_one sys.pool.workers j)
          ≡ sum (carried mine) sys.pool.workers
      m = notify_one-sum mine sys.pool.workers j

      c :
          sum (carried closes) (ConditionPool.notify_one sys.pool.workers j)
          ≡ sum (carried closes) sys.pool.workers
      c = notify_one-sum closes sys.pool.workers j

      q :
          sum (queued mine) (sys.pool.task_queue ++ (some (receiving d) ∷ []))
          ≡ sum (queued mine) sys.pool.task_queue + (if d == fd then 1 else 0)
      q = omega (arith, sum-append (queued mine) sys.pool.task_queue (some (receiving d) ∷ []))

  pub on_accept-Owned : (sys : System) (d : ℕ) → Owned sys → Owned (on_accept sys d)
  unfolding on_accept
  on_accept-Owned sys d h = elim (Bool-cases (sys.is_open d)) [
    | inl open_already ↦ rw open_already h
    | inr free ↦ rw free (record {
      single = h.single;
      opened = ground (arith, h.opened);
      live = ground (arith, h.live);
      shut = ground (arith, h.shut, h.opened, here, closers_le_tasks sys.pool.workers);
      fresh = h.fresh;
    })
  ]
    where
      here : (d == fd) ≡ true → sys.is_open d ≡ sys.is_open fd
      here e = ap sys.is_open ((==_iff d fd).0 e)
