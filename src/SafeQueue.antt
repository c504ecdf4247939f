-- ===== src/SafeQueue.antt =====
-- linux_event/libevent/3.1single_reactor_multi_worker/SafeQueue.h: a queue under one mutex with one
-- condition variable. A call that holds the mutex from end to end is one function; `shift`, which
-- gives the mutex up while it waits, is one function for each stretch between two waits.
pub mod Fifo
pub mod Wakeup
use practice_code_c_cpp.Prelude.{
  ℕ, zero, suc, ◌+◌, ◌-◌, ◌%◌, ◌^◌, Bool, true, false, Option, none, some, List, [], ◌∷◌, ◌++◌,
  length, ◌==◌, if◌then◌else◌,
}

-- std::queue<T> q, its front first. `asleep` threads block in c.wait; `woken` threads were released
-- from it and have not yet taken the mutex again.
pub record SafeQueue {ℓ} (A : Type ℓ) : Type ℓ where
  pub q : List A
  pub asleep : ℕ
  pub woken : ℕ

module _ {ℓ} {A : Type ℓ} where
  unfoldable pub empty_queue : SafeQueue A
  empty_queue = record { q = []; asleep = 0; woken = 0 }

  -- c.notify_one(): one thread that is asleep is woken, if there is one.
  notify_one : SafeQueue A → SafeQueue A
  notify_one sq =
      if sq.asleep == 0 then sq else record sq { asleep = sq.asleep - 1; woken = sq.woken + 1 }

  unfoldable pub push : SafeQueue A → A → SafeQueue A
  unfolding notify_one
  push sq t = notify_one (record sq { q = sq.q ++ t ∷ [] })

  -- From the mutex to the next c.wait or to the end: `none` means that the thread falls asleep.
  unfoldable pub shift : SafeQueue A → Option A × SafeQueue A
  shift sq = elim sq.q [
    | [] ↦ (none, record sq { asleep = sq.asleep + 1 })
    | val ∷ rest ↦ (some val, record sq { q = rest })
  ]

  -- A woken thread takes the mutex and tests `q.empty()` again.
  unfoldable pub resume : SafeQueue A → Option A × SafeQueue A
  unfolding shift
  resume sq = if sq.woken == 0 then (none, sq) else shift (record sq { woken = sq.woken - 1 })

  -- c.wait may return without a notification.
  unfoldable pub wake_spuriously : SafeQueue A → SafeQueue A
  wake_spuriously sq =
      if sq.asleep == 0 then sq else record sq { asleep = sq.asleep - 1; woken = sq.woken + 1 }

  -- `none` is the result false, which leaves the argument as it was.
  unfoldable pub shift_no_wait : SafeQueue A → Option A × SafeQueue A
  shift_no_wait sq = elim sq.q [ [] ↦ (none, sq) | val ∷ rest ↦ (some val, record sq { q = rest }) ]

  unfoldable pub empty : SafeQueue A → Bool
  empty sq = elim sq.q [ [] ↦ true | _ ∷ _ ↦ false ]

  -- The size_t of the queue as an int, by its 32 bits.
  unfoldable pub size : SafeQueue A → ℕ
  size sq = length sq.q % 2 ^ 32

-- The calls of the threads that share a queue, in the order in which they hold the mutex.
pub data Op {ℓ} (A : Type ℓ) : Type ℓ where
  pushes : A → Op A
  shifts resumes wakes shifts_no_wait : Op A

module _ {ℓ} {A : Type ℓ} where
  -- The value that the call hands out, if it does, and the queue behind it.
  unfoldable pub step : SafeQueue A → Op A → Option A × SafeQueue A
  step sq (pushes t) = (none, push sq t)
  step sq shifts = shift sq
  step sq resumes = resume sq
  step sq wakes = (none, wake_spuriously sq)
  step sq shifts_no_wait = shift_no_wait sq

  abbrev pub and_then : Option A → List A → List A
  and_then none vals = vals
  and_then (some val) vals = val ∷ vals

  -- The values handed out, in order, and the queue at the end.
  unfoldable pub run : SafeQueue A → List (Op A) → List A × SafeQueue A
  run sq [] = ([], sq)
  run sq (op ∷ ops) =
      let (val, sq₁) = step sq op in let (vals, sq₂) = run sq₁ ops in (and_then val vals, sq₂)
