-- ===== src/Posix/Uses.antt =====
-- Termination: what a program takes from the script, one rule for each way to build a program.
use practice_code_c_cpp.Prelude.{
  ℕ, zero, suc, ◌+◌, ◌≤◌, ◌<◌, Bool, true, false, none, some, List, [], ◌∷◌, arith, length,
  if◌then◌else◌,
}
use practice_code_c_cpp.Posix.{
  M, Script, Log, Outcome, returned, halted, Halt, blocked, exited, aborted, spent, Call, pure,
  halt, ask, tell, ◌>>=◌, Int32, unless_negative,
}
use practice_code_c_cpp.Posix.Flow.{Flow, continue, break, loop, while, for_each}

-- No loop has spent its fuel.
abbrev Unspent : Halt → Type 0
Unspent spent = ⊥
Unspent blocked = Unit
Unspent (exited c) = Unit
Unspent aborted = Unit

-- A run over `n` replies that returns has taken at least `k` of them, and no fuel runs out.
abbrev pub Takes : {A : Type 0} → ℕ → ℕ → Outcome A → Type 0
Takes k n (returned a s l) = length s + k ≤ n
Takes k n (halted h l) = Unspent h

pub record Uses {A : Type 0} (k : ℕ) (m : M A) : Type 0 where
  pub at : (s : Script) (l : Log) → Takes k (length s) (m s l)

Takes-weaken : {A : Type 0} (k n : ℕ) (o : Outcome A) → Takes k n o → Takes 0 n o
Takes-weaken k n (returned a s l) h = omega arith
Takes-weaken k n (halted e l) h = h

module _ {A : Type 0} where
  pub Uses-pure : (a : A) → Uses 0 (pure a)
  unfolding pure
  Uses-pure a = record { at = λ s l. omega arith }

  -- Any halt but one for want of fuel.
  pub Uses-halt : (k : ℕ) (h : Halt) → Unspent h → Uses {A = A} k (halt h)
  unfolding halt
  Uses-halt k h u = record { at = λ s l. u }

  pub Uses-weaken : {m : M A} → Uses 1 m → Uses 0 m
  Uses-weaken {m} u = record { at = λ s l. Takes-weaken 1 (length s) (m s l) (u.at s l) }

  pub Uses-if : {k : ℕ} (b : Bool) {m n : M A} → Uses k m → Uses k n → Uses k (if b then m else n)
  Uses-if true u v = u
  Uses-if false u v = v

  pub Uses-unless_negative :
      {k : ℕ} (r : Int32) {m : M A} {f : ℕ → M A}
      → Uses k m
      → ((n : ℕ) → Uses k (f n))
      → Uses k (unless_negative r m f)
  Uses-unless_negative none u v = u
  Uses-unless_negative (some n) u v = v n

ask-Takes : (c : Call) (s : Script) (l : Log) → Takes 1 (length s) (ask c s l)
unfolding ask
ask-Takes c [] l = tt
ask-Takes c (r ∷ s) l = omega arith

pub Uses-ask : (c : Call) → Uses 1 (ask c)
Uses-ask c = record { at = ask-Takes c }

pub Uses-tell : (c : Call) → Uses 0 (tell c)
unfolding tell
Uses-tell c = record { at = λ s l. omega arith }

module _ {A B : Type 0} where
  after :
      (k n : ℕ) (o : Outcome A) (f : A → M B)
      → Takes k n o
      → ((a : A) → Uses 0 (f a))
      → Takes k n (elim o [ returned a s l ↦ f a s l | halted h l ↦ halted h l ])
  after k n (returned a s l) f h v = grow (f a s l) ((v a).at s l)
    where
      grow : (o : Outcome B) → Takes 0 (length s) o → Takes k n o
      grow (returned b s' l') g = omega arith
      grow (halted e l') g = g
  after k n (halted e l) f h v = h

  pub Uses-bind :
      {k : ℕ} {m : M A} {f : A → M B} → Uses k m → ((a : A) → Uses 0 (f a)) → Uses k (m >>= f)
  unfolding ◌>>=◌
  Uses-bind {k} {m} {f} u v = record { at = λ s l. after k (length s) (m s l) f (u.at s l) v }

  after_free :
      (k n : ℕ) (o : Outcome A) (f : A → M B)
      → Takes 0 n o
      → ((a : A) → Uses k (f a))
      → Takes k n (elim o [ returned a s l ↦ f a s l | halted h l ↦ halted h l ])
  after_free k n (returned a s l) f h v = grow (f a s l) ((v a).at s l)
    where
      grow : (o : Outcome B) → Takes k (length s) o → Takes k n o
      grow (returned b s' l') g = omega arith
      grow (halted e l') g = g
  after_free k n (halted e l) f h v = h

  -- The same where the later part takes the reply.
  pub Uses-bind_late :
      {k : ℕ} {m : M A} {f : A → M B} → Uses 0 m → ((a : A) → Uses k (f a)) → Uses k (m >>= f)
  unfolding ◌>>=◌
  Uses-bind_late {k} {m} {f} u v = record {
    at = λ s l. after_free k (length s) (m s l) f (u.at s l) v;
  }

module _ {S R : Type 0} (body : S → M (Flow S R)) (rounds : (v : S) → Uses 1 (body v)) where
  next-Takes :
      (fuel n : ℕ) (o : Outcome (Flow S R))
      → Takes 1 n o
      → n ≤ fuel
      → ((v : S) (s : Script) (l : Log)
          → length s < fuel
          → Takes 0 (length s) (loop fuel body v s l))
      → Takes 0 n (elim o [
        | returned (continue v') s' l' ↦ loop fuel body v' s' l'
        | returned (break r) s' l' ↦ returned r s' l'
        | halted h l' ↦ halted h l'
      ])
  next-Takes fuel n (returned (continue v) s l) h f ih =
      grow (loop fuel body v s l) (ih v s l (omega arith))
    where
      grow : (o : Outcome R) → Takes 0 (length s) o → Takes 0 n o
      grow (returned b s' l') g = omega arith
      grow (halted e l') g = g
  next-Takes fuel n (returned (break r) s l) h f ih = omega arith
  next-Takes fuel n (halted e l) h f ih = h

  loop-Takes :
      (fuel : ℕ) (v : S) (s : Script) (l : Log)
      → length s < fuel
      → Takes 0 (length s) (loop fuel body v s l)
  unfolding loop
  loop-Takes zero v s l h = absurd (omega arith)
  loop-Takes (suc fuel) v s l h =
      next-Takes fuel (length s) (body v s l) ((rounds v).at s l) (omega arith) (loop-Takes fuel)

  -- The fuel of a loop is enough if each round takes a reply.
  pub Uses-while : (v : S) → Uses 0 (while body v)
  unfolding while
  Uses-while v = record { at = λ s l. loop-Takes (suc (length s)) v s l (omega arith) }

pub Uses-for_each :
    {A : Type 0} (body : A → M (Unit {0})) (xs : List A)
    → ((x : A) → Uses 0 (body x))
    → Uses 0 (for_each body xs)
unfolding for_each
Uses-for_each body [] u = Uses-pure tt
Uses-for_each body (x ∷ xs) u = Uses-bind (u x) (λ _. Uses-for_each body xs u)

pub ruleset uses_rules = (
  Uses-pure, Uses-ask, Uses-tell, Uses-if, Uses-unless_negative, Uses-bind, Uses-bind_late,
  Uses-weaken,
)
