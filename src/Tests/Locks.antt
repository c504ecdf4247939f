-- ===== src/Tests/Locks.antt =====
-- Runs of the spin lock, and of the provider with its consumers.
use practice_code_c_cpp.Prelude.{
  ℕ, ◌≡◌, refl, true, false, List, [], ◌∷◌, ◌++◌, replicate, arith, Bool,
}
use practice_code_c_cpp.SpinLock.{
  new_lock, run, step, step_at, try_once, compare_exchange_weak, enter, restore, unlock, holding,
}
use practice_code_c_cpp.SpinLock.Exclusion.{holds, run-excludes}
use practice_code_c_cpp.Provider
use practice_code_c_cpp.Provider.{
  Op, provides, consumes, resumes, initial, rounds, provide, notify_one, consume, resume,
}
use practice_code_c_cpp.Provider.Drained.{values, run-drained}

-- Thread 0 fails spuriously, thread 1 takes the lock, and thread 0 fails again.
abbrev contended : List (ℕ × Bool)
contended =
    (0, false) ∷ (1, false) ∷ (0, true) ∷ (1, false) ∷ (0, false) ∷ (0, false) ∷ (0, false) ∷ []

one_holds : (run new_lock contended).pc 1 ≡ holding
unfolding run step step_at try_once compare_exchange_weak enter restore unlock new_lock
one_holds = refl

run-excludes_example :
    ((i j : ℕ)
      → holds ((run new_lock contended).pc i) ≡ true
      → holds ((run new_lock contended).pc j) ≡ true
      → i ≡ j)
    × ((i : ℕ)
        → holds ((run new_lock contended).pc i) ≡ true
        → (run new_lock contended).flag ≡ true)
    × ((run new_lock contended).flag ≡ true
        → (i : ℕ) × (holds ((run new_lock contended).pc i) ≡ true))
run-excludes_example = run-excludes contended

-- A consumer sleeps, the provider runs to its end, and the consumer takes what there is.
abbrev drain : List Op
drain = consumes ∷ replicate 100 provides ++ (resumes ∷ replicate 50 consumes)

run-drained_example : (Provider.run 1 initial drain).0 ≡ values 1 rounds
unfolding Provider.run Provider.step initial provide notify_one consume resume
run-drained_example = run-drained 1 drain refl refl (omega arith)
