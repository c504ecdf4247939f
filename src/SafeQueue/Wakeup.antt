-- ===== src/SafeQueue/Wakeup.antt =====
-- No wake-up of SafeQueue is lost.
use practice_code_c_cpp.Prelude.{◌≤◌, ◌≡◌, ◌⊎◌, List, [], ◌∷◌, arith, length, length-append}
use practice_code_c_cpp.SafeQueue.{
  SafeQueue, notify_one, push, shift, resume, wake_spuriously, shift_no_wait, Op, pushes, shifts,
  resumes, wakes, shifts_no_wait, step, run,
}

module _ {ℓ} {A : Type ℓ} where
  -- For each value that is queued a thread is on its way, or no thread sleeps.
  abbrev pub Awake : SafeQueue A → Type 0
  Awake sq = (length sq.q ≤ sq.woken) ⊎ (sq.asleep ≡ 0)

  step-Awake : (sq : SafeQueue A) (op : Op A) → Awake sq → Awake (step sq op).1
  unfolding step push notify_one resume shift wake_spuriously shift_no_wait
  step-Awake sq (pushes t) a = ground (arith, length-append sq.q (t ∷ []))
  step-Awake sq shifts a = ground arith
  step-Awake sq resumes a = ground arith
  step-Awake sq wakes a = ground arith
  step-Awake sq shifts_no_wait a = ground arith

  -- Whatever the threads do: if at the start no thread sleeps or a thread is woken for each queued
  -- value, then at the end too no thread sleeps or a thread is woken for each queued value.
  pub run-Awake : (sq : SafeQueue A) (ops : List (Op A)) → Awake sq → Awake (run sq ops).1
  unfolding run
  run-Awake sq [] a = a
  run-Awake sq (op ∷ ops) a = run-Awake (step sq op).1 ops (step-Awake sq op a)
