-- ===== src/Provider.antt =====
-- thread/condition_variable/condition_variable_test.h: the provider, which pushes 50 values and
-- notifies behind each, and the consumers, which wait under a predicate. A stretch that holds the
-- lock from end to end is one function.
pub mod Drained
use practice_code_c_cpp.Prelude.{
  ℕ, zero, suc, ◌+◌, ◌-◌, Bool, true, false, Option, none, some, List, [], ◌∷◌, ◌++◌, ◌==◌, ltb,
  if◌then◌else◌,
}

-- The queue with the threads at the condition variable: asleep in wait, or woken and not yet behind
-- the lock; and the provider with its `i`, which has pushed and not yet notified where `pending`.
pub record Shared : Type 0 where
  pub queue : List ℕ
  pub asleep : ℕ
  pub woken : ℕ
  pub i : ℕ
  pub pending : Bool

unfoldable pub initial : Shared
initial = record { queue = []; asleep = 0; woken = 0; i = 0; pending = false }

-- for(int i=0;i<50;i++)
abbrev pub rounds : ℕ
rounds = 50

-- readyCondVar.notify_one(): one thread that is asleep is woken, if there is one.
unfoldable pub notify_one : Shared → Shared
notify_one s = if s.asleep == 0 then s else record s { asleep = s.asleep - 1; woken = s.woken + 1 }

-- The next stretch of provider(val): a push under the lock, or the notification behind it, which
-- ends the round of the loop.
unfoldable pub provide : ℕ → Shared → Shared
unfolding notify_one
provide val s =
    if s.pending
    then notify_one (record s { pending = false; i = s.i + 1 })
    else if ltb s.i rounds
    then record s { queue = s.queue ++ ((val + s.i) ∷ []); pending = true }
    else s

-- From the lock of a consumer, or from its waking, to its next sleep or to the end of the block:
-- the test of the predicate, and then front and pop.
unfoldable pub consume : Shared → Option ℕ × Shared
consume s = elim s.queue [
  | [] ↦ (none, record s { asleep = s.asleep + 1 })
  | val ∷ rest ↦ (some val, record s { queue = rest })
]

-- A woken consumer takes the lock again.
unfoldable pub resume : Shared → Option ℕ × Shared
unfolding consume
resume s = if s.woken == 0 then (none, s) else consume (record s { woken = s.woken - 1 })

-- wait may return without a notification.
unfoldable pub wake_spuriously : Shared → Shared
wake_spuriously s =
    if s.asleep == 0 then s else record s { asleep = s.asleep - 1; woken = s.woken + 1 }

-- The stretches of the threads, in the order in which they run.
pub data Op : Type 0 where
  provides consumes resumes wakes : Op

unfoldable pub step : ℕ → Shared → Op → Option ℕ × Shared
step val s provides = (none, provide val s)
step val s consumes = consume s
step val s resumes = resume s
step val s wakes = (none, wake_spuriously s)

abbrev pub and_then : Option ℕ → List ℕ → List ℕ
and_then none vals = vals
and_then (some val) vals = val ∷ vals

-- The values that the consumers got, in order, and the state at the end.
unfoldable pub run : ℕ → Shared → List Op → List ℕ × Shared
run val s [] = ([], s)
run val s (op ∷ ops) =
    let (got, t) = step val s op in let (more, end) = run val t ops in (and_then got more, end)
