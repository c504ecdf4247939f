-- ===== src/SpinLock.antt =====
-- thread/condition_variable/condition_variable_test.h, class SpinLock: threads that take and release
-- one lock, each in steps of one access to the atomic flag.
pub mod Exclusion
use practice_code_c_cpp.Prelude.{ℕ, Bool, true, false, not, List, [], ◌∷◌, if◌then◌else◌, ◌==◌}

-- What compare_exchange_weak leaves in the flag and in `expect`, and its result. It may fail
-- `spuriously`, with nothing changed.
pub record Exchange : Type 0 where
  pub flag : Bool
  pub expect : Bool
  pub succeeded : Bool

abbrev pub same : Bool → Bool → Bool
same true b = b
same false b = not b

unfoldable pub compare_exchange_weak : Bool → Bool → Bool → Bool → Exchange
compare_exchange_weak spuriously flag expect desired =
    if spuriously
    then record { flag = flag; expect = flag; succeeded = false }
    else if same flag expect
    then record { flag = desired; expect = expect; succeeded = true }
    else record { flag = flag; expect = flag; succeeded = false }

-- Where a thread stands: outside, before the test of the `while` with its `expect`, in the body of
-- the loop, or between the end of lock() and unlock().
pub data Pc : Type 0 where
  outside : Pc
  trying : Bool → Pc
  in_body : Bool → Pc
  holding : Pc

-- flag_ and the threads.
pub record System : Type 0 where
  pub flag : Bool
  pub pc : ℕ → Pc

-- SpinLock(), with every thread outside
unfoldable pub new_lock : System
new_lock = record { flag = false; pc = λ i. outside }

abbrev pub update : (ℕ → Pc) → ℕ → Pc → ℕ → Pc
update f i p j = if j == i then p else f j

-- bool expect = false;
unfoldable pub enter : Pc
enter = trying false

-- Behind the failed test: expect = false;
unfoldable pub restore : Bool → Pc
restore expect = trying false

-- The test of the loop of lock().
unfoldable pub try_once : Bool → System → ℕ → Bool → System
unfolding compare_exchange_weak
try_once spuriously s i expect =
    let x = compare_exchange_weak spuriously s.flag expect true in
    record { flag = x.flag; pc = update s.pc i (if x.succeeded then holding else in_body x.expect) }

-- flag_.store(false)
unfoldable pub unlock : System → ℕ → System
unlock s i = record { flag = false; pc = update s.pc i outside }

-- One step of a thread: it calls lock(), tests, restores `expect`, or calls unlock().
unfoldable pub step_at : Bool → System → ℕ → Pc → System
unfolding enter restore try_once unlock
step_at spuriously s i outside = record s { pc = update s.pc i enter }
step_at spuriously s i (trying expect) = try_once spuriously s i expect
step_at spuriously s i (in_body expect) = record s { pc = update s.pc i (restore expect) }
step_at spuriously s i holding = unlock s i

unfoldable pub step : System → ℕ → Bool → System
unfolding step_at
step s i spuriously = step_at spuriously s i (s.pc i)

-- The threads in any order, with the spurious failures.
unfoldable pub run : System → List (ℕ × Bool) → System
unfolding step
run s [] = s
run s ((i, spuriously) ∷ rest) = run (step s i spuriously) rest
