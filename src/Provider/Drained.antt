-- ===== src/Provider/Drained.antt =====
-- The consumers get the values of the provider, all and in order.
use practice_code_c_cpp.Prelude.{
  ℕ, zero, suc, ◌+◌, ◌<◌, ◌≤◌, ◌≡◌, ◌⊎◌, inl, refl, sym, ap, ◌∙◌, Bool, true, false, Option, none,
  some, List, [], ◌∷◌, ◌++◌, length, length-append, ltb, if◌then◌else◌, arith,
}
use mathlib.Core.List.{append-nil, append_assoc}
use practice_code_c_cpp.Provider.{
  Shared, initial, rounds, notify_one, provide, consume, resume, wake_spuriously, Op, provides,
  consumes, resumes, wakes, step, and_then, run,
}

abbrev bit : Bool → ℕ
bit true = 1
bit false = 0

-- How many values have been pushed.
abbrev pushed : Shared → ℕ
pushed s = s.i + bit s.pending

-- The first `n` values of provider(val).
abbrev pub values : ℕ → ℕ → List ℕ
values val zero = []
values val (suc n) = values val n ++ ((val + n) ∷ [])

-- Where a value waits, either nobody sleeps or a consumer is on its way for each, but for the value
-- that is not yet notified.
record Inv (s : Shared) : Type 0 where
  within : pushed s ≤ rounds
  awake : (s.asleep ≡ 0) ⊎ (length s.queue ≤ s.woken + bit s.pending)

provide-Inv : (val : ℕ) (s : Shared) → Inv s → Inv (provide val s)
unfolding provide notify_one
provide-Inv val s inv = record {
  within = ground (arith, inv.within);
  awake = ground (arith, inv.awake, length-append s.queue ((val + s.i) ∷ []));
}

consume-Inv : (s : Shared) (q : List ℕ) → s.queue ≡ q → Inv s → Inv (consume s).1
unfolding consume
consume-Inv s [] e inv = record {
  within = ground (arith, inv.within);
  awake = ground (arith, inv.awake);
}
consume-Inv s (x ∷ q) e inv = record {
  within = ground (arith, inv.within);
  awake = ground (arith, inv.awake);
}

resume-Inv : (s : Shared) (q : List ℕ) → s.queue ≡ q → Inv s → Inv (resume s).1
unfolding resume consume
resume-Inv s [] e inv = record {
  within = ground (arith, inv.within);
  awake = ground (arith, inv.awake);
}
resume-Inv s (x ∷ q) e inv = record {
  within = ground (arith, inv.within);
  awake = ground (arith, inv.awake);
}

wake-Inv : (s : Shared) → Inv s → Inv (wake_spuriously s)
unfolding wake_spuriously
wake-Inv s inv = record { within = ground (arith, inv.within); awake = ground (arith, inv.awake) }

step-Inv : (val : ℕ) (s : Shared) (op : Op) → Inv s → Inv (step val s op).1
unfolding step
step-Inv val s provides inv = provide-Inv val s inv
step-Inv val s consumes inv = consume-Inv s s.queue refl inv
step-Inv val s resumes inv = resume-Inv s s.queue refl inv
step-Inv val s wakes inv = wake-Inv s inv

run-Inv : (val : ℕ) (s : Shared) (ops : List Op) → Inv s → Inv (run val s ops).1
unfolding run
run-Inv val s [] inv = inv
run-Inv val s (op ∷ ops) inv = run-Inv val (step val s op).1 ops (step-Inv val s op inv)

-- What a stretch pushes.
abbrev extra : ℕ → Shared → Op → List ℕ
extra val s provides = if s.pending then [] else if ltb s.i rounds then (val + s.i) ∷ [] else []
extra val s consumes = []
extra val s resumes = []
extra val s wakes = []

step-front :
    (val : ℕ) (s : Shared) (op : Op)
    → and_then (step val s op).0 (step val s op).1.queue ≡ s.queue ++ extra val s op
unfolding step provide notify_one consume resume wake_spuriously
step-front val s provides = ground (arith, append-nil s.queue)
step-front val s consumes = ground (arith, append-nil s.queue)
step-front val s resumes = ground (arith, append-nil s.queue)
step-front val s wakes = ground (arith, append-nil s.queue)

same_values : (val n k : ℕ) → n ≡ k → values val n ≡ values val k ++ []
same_values val n k e = ap (values val) e ∙ sym (append-nil (values val k))

one_more : (val n k : ℕ) → n ≡ suc k → values val n ≡ values val k ++ ((val + k) ∷ [])
one_more val n k e = ap (values val) e

provide-grows :
    (val : ℕ) (s : Shared)
    → values val (pushed (provide val s)) ≡ values val (pushed s) ++ extra val s provides
unfolding provide notify_one
provide-grows val s = ground (
  arith,
  same_values val (pushed (provide val s)) (pushed s),
  one_more val (pushed (provide val s)) s.i,
  one_more val (pushed (provide val s)) (pushed s),
)

step-grows :
    (val : ℕ) (s : Shared) (op : Op)
    → values val (pushed (step val s op).1) ≡ values val (pushed s) ++ extra val s op
unfolding step consume resume wake_spuriously
step-grows val s provides = provide-grows val s
step-grows val s consumes = ground (arith, same_values val (pushed (consume s).1) (pushed s))
step-grows val s resumes = ground (arith, same_values val (pushed (resume s).1) (pushed s))
step-grows val s wakes = ground (arith, same_values val (pushed (wake_spuriously s)) (pushed s))

and_then-append :
    (o : Option ℕ) (xs ys : List ℕ) → and_then o xs ++ ys ≡ and_then o [] ++ (xs ++ ys)
and_then-append none xs ys = refl
and_then-append (some x) xs ys = refl

and_then-nil : (o : Option ℕ) (ys : List ℕ) → and_then o [] ++ ys ≡ and_then o ys
and_then-nil none ys = refl
and_then-nil (some x) ys = refl

run_fifo :
    (val : ℕ) (before : List ℕ) (s : Shared) (ops : List Op)
    → before ++ s.queue ≡ values val (pushed s)
    → before ++ ((run val s ops).0 ++ (run val s ops).1.queue)
      ≡ values val (pushed (run val s ops).1)
unfolding run
run_fifo val before s [] h = h
run_fifo val before s (op ∷ ops) h =
    let (got, t) = step val s op in
    let (more, end) = run val t ops in
    ap (λ xs. before ++ xs) (and_then-append got more end.queue)
    ∙ sym (append_assoc before (and_then got []) (more ++ end.queue))
    ∙ run_fifo val (before ++ and_then got []) t ops (
        append_assoc before (and_then got []) t.queue
        ∙ ap (λ xs. before ++ xs) (and_then-nil got t.queue ∙ step-front val s op)
        ∙ sym (append_assoc before s.queue (extra val s op))
        ∙ ap (λ xs. xs ++ extra val s op) h
        ∙ sym (step-grows val s op))

initial-Inv : Inv initial
unfolding initial
initial-Inv = record { within = omega arith; awake = inl refl }

-- Whatever the order of the threads: when the provider has ended, no consumer is on its way and at
-- least one sleeps, the consumers have got the 50 values val, val + 1, ..., each once and in order.
pub run-drained :
    (val : ℕ) (ops : List Op)
    → (run val initial ops).1.i ≡ rounds
    → (run val initial ops).1.woken ≡ 0
    → 0 < (run val initial ops).1.asleep
    → (run val initial ops).0 ≡ values val rounds
run-drained val ops ended nobody sleeps =
    sym (append-nil got)
    ∙ ap (λ q. got ++ q) (sym (empty end.queue (ground (arith, inv.awake, inv.within))))
    ∙ run_fifo val [] initial ops (unfold initial in refl)
    ∙ ap (values val) all
  where
    got : List ℕ
    got = (run val initial ops).0

    end : Shared
    end = (run val initial ops).1

    inv : Inv end
    inv = run-Inv val initial ops initial-Inv

    all : pushed end ≡ rounds
    all = ground (arith, inv.within)

    empty : (q : List ℕ) → length q ≡ 0 → q ≡ []
    empty [] e = refl
    empty (x ∷ q) e = absurd (omega arith)
