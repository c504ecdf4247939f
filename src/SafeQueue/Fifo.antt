-- ===== src/SafeQueue/Fifo.antt =====
-- Across all threads a queue hands out what was pushed, in that order, once.
use practice_code_c_cpp.Prelude.{
  ◌<◌, ◌≡◌, refl, sym, ap, length, Option, none, some, List, [], ◌∷◌, ◌++◌, arith,
}
use mathlib.Core.Path.{◌≡⟨◌⟩◌, ◌∎}
use mathlib.Core.List.{append-nil, append_assoc}
use practice_code_c_cpp.SafeQueue.{
  SafeQueue, notify_one, push, shift, resume, wake_spuriously, shift_no_wait, Op, pushes, shifts,
  resumes, wakes, shifts_no_wait, step, and_then, run,
}

module _ {ℓ} {A : Type ℓ} where
  abbrev pushed_by : Op A → List A
  pushed_by (pushes t) = t ∷ []
  pushed_by shifts = []
  pushed_by resumes = []
  pushed_by wakes = []
  pushed_by shifts_no_wait = []

  -- What the calls push, in order.
  abbrev pub pushed : List (Op A) → List A
  pushed [] = []
  pushed (op ∷ ops) = pushed_by op ++ pushed ops

  and_then-append :
      (val : Option A) (xs ys : List A) → and_then val xs ++ ys ≡ and_then val (xs ++ ys)
  and_then-append none xs ys = refl
  and_then-append (some val) xs ys = refl

  shift-front : (sq : SafeQueue A) → and_then (shift sq).0 (shift sq).1.q ≡ sq.q
  unfolding shift
  shift-front sq = ground arith

  step-front :
      (sq : SafeQueue A) (op : Op A)
      → and_then (step sq op).0 (step sq op).1.q ≡ sq.q ++ pushed_by op
  unfolding step push notify_one resume shift wake_spuriously shift_no_wait
  step-front sq (pushes t) = ground arith
  step-front sq shifts = ground (arith, append-nil sq.q)
  step-front sq resumes = ground (arith, append-nil sq.q)
  step-front sq wakes = ground (arith, append-nil sq.q)
  step-front sq shifts_no_wait = ground (arith, append-nil sq.q)

  -- Whatever the threads do, the values handed out, followed by those still queued, are those
  -- queued at the start, followed by those pushed.
  pub run_fifo :
      (sq : SafeQueue A) (ops : List (Op A))
      → (run sq ops).0 ++ (run sq ops).1.q ≡ sq.q ++ pushed ops
  unfolding run
  run_fifo sq [] = sym (append-nil sq.q)
  run_fifo sq (op ∷ ops) =
      let (val, sq₁) = step sq op in
      let (vals, sq₂) = run sq₁ ops in
      and_then val vals ++ sq₂.q
      ≡⟨ and_then-append val vals sq₂.q ⟩ and_then val (vals ++ sq₂.q)
      ≡⟨ ap (and_then val) (run_fifo sq₁ ops) ⟩ and_then val (sq₁.q ++ pushed ops)
      ≡⟨ sym (and_then-append val sq₁.q (pushed ops)) ⟩ and_then val sq₁.q ++ pushed ops
      ≡⟨ ap (λ xs. xs ++ pushed ops) (step-front sq op) ⟩ (sq.q ++ pushed_by op) ++ pushed ops
      ≡⟨ append_assoc sq.q (pushed_by op) (pushed ops) ⟩ sq.q ++ (pushed_by op ++ pushed ops) ∎

  shift_front :
      (sq : SafeQueue A) (q : List A)
      → sq.q ≡ q
      → 0 < length q
      → (val : A) × ((shift_no_wait sq).0 ≡ some val)
  unfolding shift_no_wait
  shift_front sq [] e h = absurd (omega arith)
  shift_front sq (val ∷ rest) e h = (val, ground arith)

  -- A queue that is not empty gives a value at once.
  pub shift_no_wait-nonempty :
      (sq : SafeQueue A) → 0 < length sq.q → (val : A) × ((shift_no_wait sq).0 ≡ some val)
  shift_no_wait-nonempty sq h = shift_front sq sq.q refl h
