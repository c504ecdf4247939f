-- ===== src/ConditionPool.antt =====
-- linux_event/libevent/3.single_reactor_multi_worker/WorkerPool.h: worker threads that share a queue
-- under one mutex and wait on one condition variable. A step is what one thread does while it holds
-- the mutex. A task is any type; `none` is the empty std::function.
pub mod Tasks
use practice_code_c_cpp.Prelude.{
  ℕ, Option, none, some, List, [], ◌∷◌, ◌++◌, set, get_elem?, replicate,
}

-- A worker's place in run_worker: before it takes the mutex, in the wait, released from the wait and
-- before it takes the mutex again, or in its task.
pub data Worker {ℓ} (Task : Type ℓ) : Type ℓ where
  ready asleep woken : Worker Task
  running : Task → Worker Task

pub record Pool {ℓ} (Task : Type ℓ) : Type ℓ where
  pub task_queue : List (Option Task)
  pub workers : List (Worker Task)

module _ {ℓ} {Task : Type ℓ} where
  unfoldable pub start : ℕ → Pool Task
  start pool_size = record { task_queue = []; workers = replicate pool_size ready }

  abbrev pub wake_first : List (Worker Task) → List (Worker Task)
  wake_first [] = []
  wake_first (asleep ∷ ws) = woken ∷ ws
  wake_first (ready ∷ ws) = ready ∷ wake_first ws
  wake_first (woken ∷ ws) = woken ∷ wake_first ws
  wake_first (running t ∷ ws) = running t ∷ wake_first ws

  abbrev pub wake_or :
      List (Worker Task) → List (Worker Task) → ℕ → Option (Worker Task) → List (Worker Task)
  wake_or other ws j (some asleep) = set ws j woken
  wake_or other ws j (some ready) = other
  wake_or other ws j (some woken) = other
  wake_or other ws j (some (running t)) = other
  wake_or other ws j none = other

  -- notify_one: the system picks a thread that is asleep, if there is one; here it picks thread `j`,
  -- or the first one where `j` is not asleep.
  unfoldable pub notify_one : List (Worker Task) → ℕ → List (Worker Task)
  notify_one ws j = wake_or (wake_first ws) ws j (get_elem? ws j)

  unfoldable pub add_queue : Pool Task → Option Task → ℕ → Pool Task
  unfolding notify_one
  add_queue pool task j = record {
    task_queue = pool.task_queue ++ task ∷ [];
    workers = notify_one pool.workers j;
  }

  -- A worker that got this from the queue: an empty task is skipped.
  abbrev pub begin : Option Task → Worker Task
  begin none = ready
  begin (some task) = running task

  -- With the mutex: the test of wait's predicate, and then the wait, or the first task. The tasks
  -- that are taken come first in the result.
  unfoldable pub take_task : Pool Task → ℕ → List (Option Task) × Pool Task
  take_task pool i = elim pool.task_queue [
    | [] ↦ ([], record pool { workers = set pool.workers i asleep })
    | task ∷ rest ↦
        (task ∷ [], record { task_queue = rest; workers = set pool.workers i (begin task) })
  ]

  -- A stretch of worker `i`. One that is asleep does nothing, and a task ends by itself.
  unfoldable pub run_worker : Pool Task → ℕ → Worker Task → List (Option Task) × Pool Task
  unfolding take_task
  run_worker pool i ready = take_task pool i
  run_worker pool i woken = take_task pool i
  run_worker pool i asleep = ([], pool)
  run_worker pool i (running t) = ([], record pool { workers = set pool.workers i ready })

  -- There is no worker of this number, or it is at this place.
  abbrev pub work_at : Pool Task → ℕ → Option (Worker Task) → List (Option Task) × Pool Task
  work_at pool i none = ([], pool)
  work_at pool i (some w) = run_worker pool i w

-- addQueue with the thread that is notified, a stretch of a worker, or a wait that ends by itself.
pub data Action {ℓ} (Task : Type ℓ) : Type ℓ where
  add : Option Task → ℕ → Action Task
  work wake : ℕ → Action Task

module _ {ℓ} {Task : Type ℓ} where
  unfoldable pub step : Pool Task → Action Task → List (Option Task) × Pool Task
  step pool (add task j) = ([], add_queue pool task j)
  step pool (work i) = work_at pool i (get_elem? pool.workers i)
  step pool (wake i) =
      ([], record pool { workers = wake_or pool.workers pool.workers i (get_elem? pool.workers i) })

  -- The tasks taken, in order, and the pool at the end.
  unfoldable pub run : Pool Task → List (Action Task) → List (Option Task) × Pool Task
  run pool [] = ([], pool)
  run pool (a ∷ rest) =
      let (out, pool₁) = step pool a in let (outs, pool₂) = run pool₁ rest in (out ++ outs, pool₂)
