-- ===== src/TaskServer/Closing.antt =====
-- Which connection a worker works on and closes: the one of its task as long as a connection has one
-- task at a time, and perhaps that of another client when it has two.
use practice_code_c_cpp.Prelude.{
  ℕ, ◌≤◌, ◌≡◌, inr, refl, subst, true, false, some, List, [], ◌∷◌, arith, sum, get_elem?,
  get_elem?-le-sum, ==_iff,
}
use practice_code_c_cpp.ConditionPool
use practice_code_c_cpp.ConditionPool.{running, take_task, add_queue}
use practice_code_c_cpp.TaskServer.Weights.{carried, wake_or-sum, start-sum}
use practice_code_c_cpp.TaskServer.{
  Handler, System, ended, later, Action, accept, event, work, wake, on_accept, on_event, on_recv,
  run_handler, run_worker, step, run, init,
}
use practice_code_c_cpp.TaskServer.Ownership.{
  mine, closes, tasks, Owned, on_event-Owned, on_accept-Owned, work_at-Owned,
}

-- Each event comes for a descriptor that has no task in the queue or in a worker.
abbrev Alone : System → List Action → Type 0
Alone sys [] = Unit
Alone sys (accept d ∷ rest) = Alone (step sys (accept d)) rest
Alone sys (event d j ∷ rest) = (tasks d sys ≡ 0) × Alone (step sys (event d j)) rest
Alone sys (work i got ∷ rest) = Alone (step sys (work i got)) rest
Alone sys (wake i ∷ rest) = Alone (step sys (wake i)) rest

module _ (fd : ℕ) where
  wake-Owned : (sys : System) (i : ℕ) → Owned fd sys → Owned fd (step sys (wake i))
  unfolding step
  wake-Owned sys i h = record {
    single = omega (arith, h.single, wake_or-sum (mine fd) sys.pool.workers i);
    opened = ground (arith, h.opened, wake_or-sum (mine fd) sys.pool.workers i);
    live = h.live;
    shut = ground (arith, h.shut, wake_or-sum (closes fd) sys.pool.workers i);
    fresh = h.fresh;
  }

  run-Owned :
      (actions : List Action) (sys : System)
      → Alone sys actions
      → Owned fd sys
      → Owned fd (run sys actions)
  unfolding run step
  run-Owned [] sys a h = h
  run-Owned (accept d ∷ rest) sys a h =
      run-Owned rest (on_accept sys d) a (on_accept-Owned fd sys d h)
  run-Owned (event d j ∷ rest) sys a h =
      run-Owned rest (on_event sys d j) a.1
        (on_event-Owned fd sys d j (λ e. subst (λ x. tasks x sys ≡ 0) ((==_iff d fd).0 e) a.0) h)
  run-Owned (work i got ∷ rest) sys a h =
      run-Owned rest (step sys (work i got)) a
        (work_at-Owned fd sys i (get_elem? sys.pool.workers i) got refl h)
  run-Owned (wake i ∷ rest) sys a h = run-Owned rest (step sys (wake i)) a (wake-Owned sys i h)

  init-Owned : (pool_size : ℕ) → Owned fd (init pool_size)
  unfolding init ConditionPool.start
  init-Owned pool_size = record {
    single = omega (arith, start-sum (mine fd) pool_size);
    opened = inr (omega (arith, start-sum (mine fd) pool_size));
    live = inr refl;
    shut = inr refl;
    fresh = refl;
  }

-- As long as each event comes for a connection that has no task yet: the connection that a worker
-- works on, or is about to close, has no other task, and is open still.
pub works_on_own :
    (pool_size : ℕ) (actions : List Action)
    → Alone (init pool_size) actions
    → (fd i : ℕ) (t : Handler)
    → get_elem? (run (init pool_size) actions).pool.workers i ≡ some (running t)
    → mine fd t ≡ 1
    → (tasks fd (run (init pool_size) actions) ≡ 1)
      × ((run (init pool_size) actions).is_open fd ≡ true)
works_on_own pool_size actions a fd i t e m =
    (omega (arith, h.single, there), ground (arith, h.opened, there))
  where
    h : Owned fd (run (init pool_size) actions)
    h = run-Owned fd actions (init pool_size) a (init-Owned fd pool_size)

    there : 1 ≤ sum (carried (mine fd)) (run (init pool_size) actions).pool.workers
    there = omega (
      arith,
      m,
      get_elem?-le-sum (carried (mine fd)) (run (init pool_size) actions).pool.workers i (running t)
          e,
    )

-- Two events of one connection make two tasks; both workers read its end. The second closes the
-- descriptor when accept has already given it to another client.
abbrev two_events : ℕ → List Action
two_events fd =
    accept fd
    ∷ event fd 0
    ∷ event fd 1
    ∷ work 0 later
    ∷ work 1 later
    ∷ work 0 ended
    ∷ work 1 ended
    ∷ work 0 later
    ∷ work 0 later
    ∷ accept fd
    ∷ []

-- With two workers and two events of one connection, a worker can close the connection of another
-- client: when the new client has been accepted, it is open and watched, and two stretches of the
-- second worker later it is neither.
closes_stranger :
    (fd : ℕ)
    → ((run (init 2) (two_events fd)).is_open fd ≡ true)
      × ((run (init 2) (two_events fd)).watched fd ≡ true)
      × ((run (run (init 2) (two_events fd)) (work 1 later ∷ work 1 later ∷ [])).is_open fd ≡ false)
      × ((run (run (init 2) (two_events fd)) (work 1 later ∷ work 1 later ∷ [])).watched fd ≡ false)
unfolding run step init ConditionPool.start on_accept on_event run_worker run_handler on_recv
    take_task add_queue ConditionPool.notify_one
closes_stranger fd = ground arith
