-- ===== src/TaskServer/Weights.antt =====
-- What the pool does to a weight of its workers that is 0 for those that run no task.
use practice_code_c_cpp.Prelude.{
  ℕ, zero, suc, ◌+◌, ◌≤◌, ◌≡◌, refl, Option, none, some, List, [], ◌∷◌, arith, sum, sum-set,
  get_elem?, replicate,
}
use practice_code_c_cpp.ConditionPool.{
  Worker, ready, asleep, woken, running, wake_first, wake_or, notify_one, take_task,
}
use practice_code_c_cpp.TaskServer.{Handler}

-- The weight of a task in the queue is that of a worker that begins it.
abbrev pub queued : (Handler → ℕ) → Option Handler → ℕ
queued g none = 0
queued g (some t) = g t

abbrev pub carried : (Handler → ℕ) → Worker Handler → ℕ
carried g ready = 0
carried g asleep = 0
carried g woken = 0
carried g (running t) = g t

module _ (g : Handler → ℕ) where
  wake_first-sum :
      (ws : List (Worker Handler)) → sum (carried g) (wake_first ws) ≡ sum (carried g) ws
  wake_first-sum [] = refl
  wake_first-sum (asleep ∷ ws) = refl
  wake_first-sum (ready ∷ ws) = omega (arith, wake_first-sum ws)
  wake_first-sum (woken ∷ ws) = omega (arith, wake_first-sum ws)
  wake_first-sum (running t ∷ ws) = omega (arith, wake_first-sum ws)

  wake_at :
      (other ws : List (Worker Handler)) (j : ℕ) (o : Option (Worker Handler))
      → get_elem? ws j ≡ o
      → sum (carried g) other ≡ sum (carried g) ws
      → sum (carried g) (wake_or other ws j o) ≡ sum (carried g) ws
  wake_at other ws j (some asleep) e h = omega (arith, sum-set (carried g) ws j woken asleep e)
  wake_at other ws j (some ready) e h = h
  wake_at other ws j (some woken) e h = h
  wake_at other ws j (some (running t)) e h = h
  wake_at other ws j none e h = h

  -- A wait that ends by itself.
  pub wake_or-sum :
      (ws : List (Worker Handler)) (i : ℕ)
      → sum (carried g) (wake_or ws ws i (get_elem? ws i)) ≡ sum (carried g) ws
  wake_or-sum ws i = wake_at ws ws i (get_elem? ws i) refl refl

  pub notify_one-sum :
      (ws : List (Worker Handler)) (j : ℕ) → sum (carried g) (notify_one ws j) ≡ sum (carried g) ws
  unfolding notify_one
  notify_one-sum ws j = wake_at (wake_first ws) ws j (get_elem? ws j) refl (wake_first-sum ws)

  -- A worker without a task takes one: its weight moves from the queue to the workers.
  pub take_task-sum :
      (q : List (Option Handler)) (ws : List (Worker Handler)) (i : ℕ) (w : Worker Handler)
      → get_elem? ws i ≡ some w
      → carried g w ≡ 0
      → (sum (carried g) (take_task (record { task_queue = q; workers = ws }) i).1.workers
            + sum (queued g) (take_task (record { task_queue = q; workers = ws }) i).1.task_queue
          ≡ sum (carried g) ws + sum (queued g) q)
        × (sum (queued g) (take_task (record { task_queue = q; workers = ws }) i).1.task_queue
            ≤ sum (queued g) q)
  unfolding take_task
  take_task-sum [] ws i w e z = (omega (arith, sum-set (carried g) ws i asleep w e), omega arith)
  take_task-sum (none ∷ q) ws i w e z =
      (omega (arith, sum-set (carried g) ws i ready w e), omega arith)
  take_task-sum (some t ∷ q) ws i w e z =
      (omega (arith, sum-set (carried g) ws i (running t) w e), omega arith)

  pub start-sum : (n : ℕ) → sum (carried g) (replicate n ready) ≡ 0
  start-sum zero = refl
  start-sum (suc n) = omega (arith, start-sum n)
