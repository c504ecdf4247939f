-- ===== src/WorkerPool.antt =====
-- linux_event/libevent/3.1single_reactor_multi_worker/WorkerPool.h: threads that take tasks from a
-- SafeQueue and run them. A task is any type; `none` is the empty std::function.
use practice_code_c_cpp.Prelude.{ℕ, Option, none, some, List, replicate}
use practice_code_c_cpp.SafeQueue.{SafeQueue, push, shift, resume}

-- A worker's place in run_worker: before task_queue.shift(), in its wait, or in the task, whose own
-- place is of type `R`.
pub data Worker {ℓ} (R : Type ℓ) : Type ℓ where
  ready waiting : Worker R
  running : R → Worker R

-- start() makes `pool_size` threads.
unfoldable pub start {ℓ} : {R : Type ℓ} → ℕ → List (Worker R)
start pool_size = replicate pool_size ready

module _ {ℓ} {Task : Type ℓ} where
  unfoldable pub add_queue : SafeQueue (Option Task) → Option Task → SafeQueue (Option Task)
  unfolding push
  add_queue task_queue task = push task_queue task

  module _ {κ} {R : Type κ} (begin : Task → R) where
    -- What a worker does with the result of shift; it skips an empty task.
    abbrev with_task : Option (Option Task) → Worker R
    with_task none = waiting
    with_task (some none) = ready
    with_task (some (some task)) = running (begin task)

    -- A stretch of run_worker before the task: the call of shift, or its wait's end, which needs a
    -- thread to be woken.
    unfoldable pub take_task :
        SafeQueue (Option Task) → Worker R → Worker R × SafeQueue (Option Task)
    unfolding shift resume
    take_task tq ready = let (task, tq₁) = shift tq in (with_task task, tq₁)
    take_task tq waiting = let (task, tq₁) = resume tq in (with_task task, tq₁)
    take_task tq (running r) = (running r, tq)
