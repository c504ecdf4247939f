-- ===== src/SpinLock/Exclusion.antt =====
-- The spin lock excludes, and can always be taken again.
use practice_code_c_cpp.Prelude.{ℕ, ◌≡◌, refl, Bool, true, false, List, [], ◌∷◌, arith}
use practice_code_c_cpp.SpinLock.{
  compare_exchange_weak, Pc, outside, trying, in_body, holding, System, new_lock, step_at, step,
  run,
}

abbrev pub holds : Pc → Bool
holds outside = false
holds (trying e) = false
holds (in_body e) = false
holds holding = true

-- `expect` is false where it is compared.
abbrev IsFresh : Pc → Type 0
IsFresh (trying e) = e ≡ false
IsFresh outside = Unit
IsFresh (in_body e) = Unit
IsFresh holding = Unit

-- Who holds the lock finds the flag set, and nobody else holds it.
record Inv (s : System) : Type 0 where
  fresh : (i : ℕ) → IsFresh (s.pc i)
  locked : (i : ℕ) → holds (s.pc i) ≡ true → s.flag ≡ true
  taken : s.flag ≡ true → (i : ℕ) × (holds (s.pc i) ≡ true)
  alone : (i j : ℕ) → holds (s.pc i) ≡ true → holds (s.pc j) ≡ true → i ≡ j

step_at-Inv :
    (sp : Bool) (s : System) (i : ℕ) (p : Pc) → s.pc i ≡ p → Inv s → Inv (step_at sp s i p)
unfolding step_at compare_exchange_weak
step_at-Inv sp s i outside e inv = record {
  fresh = λ j. ground (arith, inv.fresh j);
  locked = λ j h. ground (arith, inv.locked j);
  taken = λ f. let (j, h) = inv.taken f in (j, ground arith);
  alone = λ j k h h'. ground (arith, inv.alone j k);
}
step_at-Inv sp s i (trying x) e inv = record {
  fresh = λ j. ground (arith, inv.fresh j, inv.fresh i);
  locked = λ j h. ground (arith, inv.locked j, inv.fresh i);
  taken = λ f. taken_by s.flag sp refl refl f;
  alone = λ j k h h'. ground (arith, inv.alone j k, inv.locked j, inv.locked k, inv.fresh i);
}
  where
    taken_by :
        (flag spurious : Bool)
        → s.flag ≡ flag
        → sp ≡ spurious
        → (step_at sp s i (trying x)).flag ≡ true
        → (j : ℕ) × (holds ((step_at sp s i (trying x)).pc j) ≡ true)
    taken_by true spurious up q f = let (j, h) = inv.taken up in (j, ground (arith, inv.fresh i))
    taken_by false true up q f = absurd (ground (arith, inv.fresh i))
    taken_by false false up q f = (i, ground (arith, inv.fresh i))
step_at-Inv sp s i (in_body x) e inv = record {
  fresh = λ j. ground (arith, inv.fresh j);
  locked = λ j h. ground (arith, inv.locked j);
  taken = λ f. let (j, h) = inv.taken f in (j, ground arith);
  alone = λ j k h h'. ground (arith, inv.alone j k);
}
step_at-Inv sp s i holding e inv = record {
  fresh = λ j. ground (arith, inv.fresh j);
  locked = λ j h. ground (arith, inv.alone i j, inv.locked j);
  taken = λ f. cc;
  alone = λ j k h h'. ground (arith, inv.alone j k);
}

run-Inv : (s : System) (rest : List (ℕ × Bool)) → Inv s → Inv (run s rest)
unfolding run
run-Inv s [] inv = inv
run-Inv s ((i, sp) ∷ rest) inv = run-Inv (step s i sp) rest (step_at-Inv sp s i (s.pc i) refl inv)

new_lock-Inv : Inv new_lock
unfolding new_lock
new_lock-Inv = record { fresh = λ i. tt; locked = λ i h. cc; taken = λ f. cc; alone = λ i j h. cc }

-- Whatever the order of the steps and whichever exchanges fail spuriously, two threads are never
-- between lock() and unlock() together, and the flag is set just while one is.
pub run-excludes :
    (schedule : List (ℕ × Bool))
    → ((i j : ℕ)
        → holds ((run new_lock schedule).pc i) ≡ true
        → holds ((run new_lock schedule).pc j) ≡ true
        → i ≡ j)
      × ((i : ℕ)
          → holds ((run new_lock schedule).pc i) ≡ true
          → (run new_lock schedule).flag ≡ true)
      × ((run new_lock schedule).flag ≡ true
          → (i : ℕ) × (holds ((run new_lock schedule).pc i) ≡ true))
run-excludes schedule =
    let inv = run-Inv new_lock schedule new_lock-Inv in (inv.alone, inv.locked, inv.taken)
