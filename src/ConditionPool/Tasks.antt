-- ===== src/ConditionPool/Tasks.antt =====
-- The pool loses no task and no wake-up.
use practice_code_c_cpp.Prelude.{
  ℕ, ◌+◌, ◌≤◌, ◌≡◌, refl, ◌⊎◌, inr, ap, sym, ◌∙◌, Option, none, some, List, [], ◌∷◌, ◌++◌, set,
  get_elem?, length, sum, sum-set, length-append, arith,
}
use mathlib.Core.Path.{◌≡⟨◌⟩◌, ◌∎}
use mathlib.Core.List.{append-nil, append_assoc}
use practice_code_c_cpp.ConditionPool.{
  Worker, ready, asleep, woken, running, Pool, wake_first, wake_or, notify_one, add_queue,
  take_task, run_worker, work_at, Action, add, work, wake, step, run,
}

module _ {ℓ} {Task : Type ℓ} where
  abbrev one_asleep : Worker Task → ℕ
  one_asleep ready = 0
  one_asleep asleep = 1
  one_asleep woken = 0
  one_asleep (running t) = 0

  abbrev one_woken : Worker Task → ℕ
  one_woken ready = 0
  one_woken asleep = 0
  one_woken woken = 1
  one_woken (running t) = 0

  -- No worker is asleep, or one is woken for each task in the queue.
  abbrev pub Awake : Pool Task → Type 0
  Awake pool =
      (sum one_asleep pool.workers ≡ 0) ⊎ (length pool.task_queue ≤ sum one_woken pool.workers)

  -- What a wake-up does to the two counts: one worker moves, if any is asleep.
  abbrev Moved : List (Worker Task) → List (Worker Task) → Type 0
  Moved ws ws' =
      ((sum one_asleep ws ≡ 0) × (sum one_asleep ws' ≡ 0) × (sum one_woken ws ≤ sum one_woken ws'))
      ⊎ ((sum one_asleep ws' + 1 ≡ sum one_asleep ws) × (sum one_woken ws' ≡ sum one_woken ws + 1))

  wake_first-Moved : (ws : List (Worker Task)) → Moved ws (wake_first ws)
  wake_first-Moved [] = ground arith
  wake_first-Moved (asleep ∷ ws) = ground arith
  wake_first-Moved (ready ∷ ws) = ground (arith, wake_first-Moved ws)
  wake_first-Moved (woken ∷ ws) = ground (arith, wake_first-Moved ws)
  wake_first-Moved (running t ∷ ws) = ground (arith, wake_first-Moved ws)

  set-Moved :
      (ws : List (Worker Task)) (j : ℕ) → get_elem? ws j ≡ some asleep → Moved ws (set ws j woken)
  set-Moved ws j e =
      ground (arith, sum-set one_asleep ws j woken asleep e, sum-set one_woken ws j woken asleep e)

  notify_one-Moved : (ws : List (Worker Task)) (j : ℕ) → Moved ws (notify_one ws j)
  unfolding notify_one
  notify_one-Moved ws j = go (get_elem? ws j) refl
    where
      go :
          (o : Option (Worker Task))
          → get_elem? ws j ≡ o
          → Moved ws (wake_or (wake_first ws) ws j o)
      go (some asleep) e = set-Moved ws j e
      go (some ready) e = wake_first-Moved ws
      go (some woken) e = wake_first-Moved ws
      go (some (running t)) e = wake_first-Moved ws
      go none e = wake_first-Moved ws

  add_queue-Awake :
      (pool : Pool Task) (task : Option Task) (j : ℕ) → Awake pool → Awake (add_queue pool task j)
  unfolding add_queue
  add_queue-Awake pool task j a =
      ground (arith, notify_one-Moved pool.workers j, length-append pool.task_queue (task ∷ []))

  take_task-Awake :
      (q : List (Option Task)) (ws : List (Worker Task)) (i : ℕ) (w : Worker Task)
      → get_elem? ws i ≡ some w
      → one_asleep w ≡ 0
      → one_woken w ≤ 1
      → Awake (record { task_queue = q; workers = ws })
      → Awake (take_task (record { task_queue = q; workers = ws }) i).1
  unfolding take_task
  take_task-Awake [] ws i w e h k a = inr (omega arith)
  take_task-Awake (none ∷ rest) ws i w e h k a =
      ground (arith, sum-set one_asleep ws i ready w e, sum-set one_woken ws i ready w e)
  take_task-Awake (some t ∷ rest) ws i w e h k a =
      ground
        (arith, sum-set one_asleep ws i (running t) w e, sum-set one_woken ws i (running t) w e)

  run_worker-Awake :
      (pool : Pool Task) (i : ℕ) (w : Worker Task)
      → get_elem? pool.workers i ≡ some w
      → Awake pool
      → Awake (run_worker pool i w).1
  unfolding run_worker
  run_worker-Awake pool i ready e a =
      take_task-Awake pool.task_queue pool.workers i ready e refl (omega arith) a
  run_worker-Awake pool i woken e a =
      take_task-Awake pool.task_queue pool.workers i woken e refl (omega arith) a
  run_worker-Awake pool i asleep e a = a
  run_worker-Awake pool i (running t) e a = ground (
    arith,
    sum-set one_asleep pool.workers i ready (running t) e,
    sum-set one_woken pool.workers i ready (running t) e,
  )

  wake-Awake : (pool : Pool Task) (i : ℕ) → Awake pool → Awake (step pool (wake i)).1
  unfolding step
  wake-Awake pool i a = go (get_elem? pool.workers i) refl
    where
      go :
          (o : Option (Worker Task))
          → get_elem? pool.workers i ≡ o
          → Awake (record pool { workers = wake_or pool.workers pool.workers i o })
      go (some asleep) e = ground (arith, set-Moved pool.workers i e)
      go (some ready) e = a
      go (some woken) e = a
      go (some (running t)) e = a
      go none e = a

  work-Awake : (pool : Pool Task) (i : ℕ) → Awake pool → Awake (step pool (work i)).1
  unfolding step
  work-Awake pool i a = go (get_elem? pool.workers i) refl
    where
      go : (o : Option (Worker Task)) → get_elem? pool.workers i ≡ o → Awake (work_at pool i o).1
      go none e = a
      go (some w) e = run_worker-Awake pool i w e a

  step-Awake : (pool : Pool Task) (a : Action Task) → Awake pool → Awake (step pool a).1
  unfolding step
  step-Awake pool (add task j) h = add_queue-Awake pool task j h
  step-Awake pool (work i) h = work-Awake pool i h
  step-Awake pool (wake i) h = wake-Awake pool i h

  -- For every interleaving: if at the start no worker is asleep or a worker is woken for each queued
  -- task, so it is at the end. No wake-up is lost, and no task waits while all that could take it
  -- sleep.
  pub pool_run-Awake :
      (pool : Pool Task) (actions : List (Action Task)) → Awake pool → Awake (run pool actions).1
  unfolding run
  pool_run-Awake pool [] h = h
  pool_run-Awake pool (a ∷ rest) h = pool_run-Awake (step pool a).1 rest (step-Awake pool a h)

  abbrev added_by : Action Task → List (Option Task)
  added_by (add task j) = task ∷ []
  added_by (work i) = []
  added_by (wake i) = []

  -- The tasks that are added, in order.
  abbrev pub added : List (Action Task) → List (Option Task)
  added [] = []
  added (a ∷ rest) = added_by a ++ added rest

  take_task-front :
      (q : List (Option Task)) (ws : List (Worker Task)) (i : ℕ)
      → (let (out, pool) = take_task (record { task_queue = q; workers = ws }) i in
          out ++ pool.task_queue)
        ≡ q
  unfolding take_task
  take_task-front [] ws i = refl
  take_task-front (task ∷ rest) ws i = refl

  work-front :
      (pool : Pool Task) (i : ℕ) (o : Option (Worker Task))
      → (let (out, pool') = work_at pool i o in out ++ pool'.task_queue) ≡ pool.task_queue
  unfolding run_worker
  work-front pool i none = refl
  work-front pool i (some ready) = take_task-front pool.task_queue pool.workers i
  work-front pool i (some woken) = take_task-front pool.task_queue pool.workers i
  work-front pool i (some asleep) = refl
  work-front pool i (some (running t)) = refl

  step-front :
      (pool : Pool Task) (a : Action Task)
      → (step pool a).0 ++ (step pool a).1.task_queue ≡ pool.task_queue ++ added_by a
  unfolding step add_queue
  step-front pool (add task j) = refl
  step-front pool (work i) =
      work-front pool i (get_elem? pool.workers i) ∙ sym (append-nil pool.task_queue)
  step-front pool (wake i) = sym (append-nil pool.task_queue)

  -- Whatever the threads do, the tasks taken by the workers, followed by those still queued, are
  -- those queued at the start, followed by those added: each is taken once and in order.
  pub pool_run_fifo :
      (pool : Pool Task) (actions : List (Action Task))
      → (run pool actions).0 ++ (run pool actions).1.task_queue ≡ pool.task_queue ++ added actions
  unfolding run
  pool_run_fifo pool [] = sym (append-nil pool.task_queue)
  pool_run_fifo pool (a ∷ rest) =
      let (out, pool₁) = step pool a in
      let (outs, pool₂) = run pool₁ rest in
      (out ++ outs) ++ pool₂.task_queue
      ≡⟨ append_assoc out outs pool₂.task_queue ⟩ out ++ (outs ++ pool₂.task_queue)
      ≡⟨ ap (λ xs. out ++ xs) (pool_run_fifo pool₁ rest) ⟩ out ++ (pool₁.task_queue ++ added rest)
      ≡⟨ sym (append_assoc out pool₁.task_queue (added rest)) ⟩
        (out ++ pool₁.task_queue) ++ added rest
      ≡⟨ ap (λ xs. xs ++ added rest) (step-front pool a) ⟩
        (pool.task_queue ++ added_by a) ++ added rest
      ≡⟨ append_assoc pool.task_queue (added_by a) (added rest) ⟩
        pool.task_queue ++ (added_by a ++ added rest) ∎
