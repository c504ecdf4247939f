-- ===== src/Tests/ConditionPool.antt =====
-- Runs of the pool of workers around a condition variable.
use practice_code_c_cpp.Prelude.{ℕ, ◌≡◌, refl, inl, some, none, List, [], ◌∷◌, ◌++◌}
use practice_code_c_cpp.ConditionPool.{
  Pool, ready, Action, add, work, run, step, add_queue, notify_one, run_worker, take_task,
}
use practice_code_c_cpp.ConditionPool.Tasks.{Awake, added, pool_run-Awake, pool_run_fifo}

abbrev two_workers : Pool ℕ
two_workers = record { task_queue = []; workers = ready ∷ ready ∷ [] }

-- Both workers fall asleep, two tasks and an empty one come, and the second worker takes two.
abbrev busy : List (Action ℕ)
busy =
    work 0 ∷ work 1 ∷ add (some 7) 1 ∷ add none 1 ∷ add (some 8) 0 ∷ work 1 ∷ work 1 ∷ work 1 ∷ []

first_tasks : (run two_workers busy).0 ≡ some 7 ∷ none ∷ []
unfolding run step add_queue notify_one run_worker take_task
first_tasks = refl

pool_run-Awake_example : Awake (run two_workers busy).1
pool_run-Awake_example = pool_run-Awake two_workers busy (inl refl)

pool_run_fifo_example :
    (run two_workers busy).0 ++ (run two_workers busy).1.task_queue ≡ [] ++ added busy
pool_run_fifo_example = pool_run_fifo two_workers busy
