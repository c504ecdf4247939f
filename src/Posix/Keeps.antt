-- ===== src/Posix/Keeps.antt =====
-- What a program leaves in its log: a triple over the log, with one rule for each way to build a
-- program. `H` holds of the log where the program stops early.
use practice_code_c_cpp.Prelude.{
  ℕ, zero, suc, Bool, true, false, none, some, List, [], ◌∷◌, if◌then◌else◌, ◌≡◌, refl, length,
}
use practice_code_c_cpp.Posix.{
  M, Script, Log, final_log, Outcome, returned, halted, Halt, Call, Reply, asked, told, pure, halt,
  ask, tell, ◌>>=◌, Int32, unless_negative,
}
use practice_code_c_cpp.Posix.Flow.{Flow, continue, break, loop, while, for_each}

module _ {A : Type 0} (H : Log → Type 0) (Q : A → Log → Type 0) where
  abbrev pub Ends : Outcome A → Type 0
  Ends (returned a s l) = Q a l
  Ends (halted h l) = H l

  pub record Triple (P : Log → Type 0) (m : M A) : Type 0 where
    pub at : (s : Script) (l : Log) → P l → Ends (m s l)

-- What holds wherever a run ends holds of its log.
pub Ends-final_log :
    {A : Type 0} (H : Log → Type 0) (o : Outcome A) → Ends H (λ _. H) o → H (final_log o)
Ends-final_log H (returned a s l) h = h
Ends-final_log H (halted e l) h = h

module _ {A : Type 0} {H : Log → Type 0} {Q : A → Log → Type 0} {P : Log → Type 0} where
  pub Triple-pure : (a : A) → ((l : Log) → P l → Q a l) → Triple H Q P (pure a)
  unfolding pure
  Triple-pure a h = record { at = λ s l p. h l p }

  pub Triple-halt : (e : Halt) → ((l : Log) → P l → H l) → Triple H Q P (halt e)
  unfolding halt
  Triple-halt e h = record { at = λ s l p. h l p }

  pub Triple-if :
      (b : Bool) {m n : M A}
      → (b ≡ true → Triple H Q P m)
      → (b ≡ false → Triple H Q P n)
      → Triple H Q P (if b then m else n)
  Triple-if true u v = u refl
  Triple-if false u v = v refl

  pub Triple-unless_negative :
      (r : Int32) {m : M A} {f : ℕ → M A}
      → (r ≡ none → Triple H Q P m)
      → ((n : ℕ) → r ≡ some n → Triple H Q P (f n))
      → Triple H Q P (unless_negative r m f)
  Triple-unless_negative none u v = u refl
  Triple-unless_negative (some n) u v = v n refl

-- A weaker start.
pub Triple-from :
    {A : Type 0} {H : Log → Type 0} {Q : A → Log → Type 0} {P P' : Log → Type 0} {m : M A}
    → ((l : Log) → P' l → P l)
    → Triple H Q P m
    → Triple H Q P' m
Triple-from w u = record { at = λ s l p. u.at s l (w l p) }

-- A fact that does not speak of the log.
pub Triple-given :
    {A : Type 0} {H : Log → Type 0} {Q : A → Log → Type 0} {P : Log → Type 0} {C : Type 0} {m : M A}
    → (C → Triple H Q P m)
    → Triple H Q (λ l. P l × C) m
Triple-given u = record { at = λ s l p. (u p.1).at s l p.0 }

module _ {H : Log → Type 0} {P : Log → Type 0} where
  ask-Ends :
      (c : Call) (Q : Reply → Log → Type 0) (s : Script) (l : Log)
      → ((l : Log) → P l → H l)
      → ((r : Reply) (l : Log) → P l → Q r (asked c r ∷ l))
      → P l
      → Ends H Q (ask c s l)
  unfolding ask
  ask-Ends c Q [] l h q p = h l p
  ask-Ends c Q (r ∷ s) l h q p = q r l p

  pub Triple-ask :
      (c : Call) {Q : Reply → Log → Type 0}
      → ((l : Log) → P l → H l)
      → ((r : Reply) (l : Log) → P l → Q r (asked c r ∷ l))
      → Triple H Q P (ask c)
  Triple-ask c {Q} h q = record { at = λ s l. ask-Ends c Q s l h q }

  pub Triple-tell :
      (c : Call) {Q : Unit {0} → Log → Type 0}
      → ((l : Log) → P l → Q tt (told c ∷ l))
      → Triple H Q P (tell c)
  unfolding tell
  Triple-tell c q = record { at = λ s l p. q l p }

module _ {A B : Type 0} {H : Log → Type 0} {Q : A → Log → Type 0} {R : B → Log → Type 0} where
  -- A program that ended, and the rest behind it.
  pub Ends-rest :
      (o : Outcome A) (f : A → M B)
      → Ends H Q o
      → ((a : A) → Triple H R (Q a) (f a))
      → Ends H R (elim o [ returned a s l ↦ f a s l | halted h l ↦ halted h l ])
  Ends-rest (returned a s l) f q v = (v a).at s l q
  Ends-rest (halted e l) f q v = q

  pub Triple-bind :
      {P : Log → Type 0} {m : M A} {f : A → M B}
      → Triple H Q P m
      → ((a : A) → Triple H R (Q a) (f a))
      → Triple H R P (m >>= f)
  unfolding ◌>>=◌
  Triple-bind {m} {f} u v = record { at = λ s l p. Ends-rest (m s l) f (u.at s l p) v }

-- What a round leaves: the invariant if the loop goes on, the result's claim if it ends.
abbrev pub Round :
    {S R : Type 0} → (S → Log → Type 0) → (R → Log → Type 0) → Flow S R → Log → Type 0
Round I Q (continue v) l = I v l
Round I Q (break r) l = Q r l

module _ {S R : Type 0} {H : Log → Type 0} (Q : R → Log → Type 0) (I : S → Log → Type 0)
    (stop : (v : S) (l : Log) → I v l → H l) (body : S → M (Flow S R))
    (round : (v : S) → Triple H (Round I Q) (I v) (body v)) where
  next-Ends :
      (fuel : ℕ) (o : Outcome (Flow S R))
      → Ends H (Round I Q) o
      → ((v : S) (s : Script) (l : Log) → I v l → Ends H Q (loop fuel body v s l))
      → Ends H Q (elim o [
        | returned (continue v') s' l' ↦ loop fuel body v' s' l'
        | returned (break r) s' l' ↦ returned r s' l'
        | halted h l' ↦ halted h l'
      ])
  next-Ends fuel (returned (continue v) s l) h ih = ih v s l h
  next-Ends fuel (returned (break r) s l) h ih = h
  next-Ends fuel (halted e l) h ih = h

  loop-Ends : (fuel : ℕ) (v : S) (s : Script) (l : Log) → I v l → Ends H Q (loop fuel body v s l)
  unfolding loop
  loop-Ends zero v s l p = stop v l p
  loop-Ends (suc fuel) v s l p = next-Ends fuel (body v s l) ((round v).at s l p) (loop-Ends fuel)

  pub Triple-while : (v : S) → Triple H Q (I v) (while body v)
  unfolding while
  Triple-while v = record { at = λ s l. loop-Ends (suc (length s)) v s l }

-- The common case: the invariant holds wherever the program returns, and `H` where it stops.
abbrev pub Steady : {A : Type 0} → (Log → Type 0) → (Log → Type 0) → M A → Type 0
Steady H P m = Triple H (λ _. P) P m

module _ {H : Log → Type 0} {P : Log → Type 0} where
  pub Steady-bind :
      {A B : Type 0} {m : M A} {f : A → M B}
      → Steady H P m
      → ((a : A) → Steady H P (f a))
      → Steady H P (m >>= f)
  Steady-bind u v = Triple-bind u v

  pub Steady-while :
      {S R : Type 0} (body : S → M (Flow S R))
      → ((l : Log) → P l → H l)
      → ((v : S) → Triple H (Round (λ _. P) (λ _. P)) P (body v))
      → (v : S) → Steady H P (while body v)
  Steady-while body h u v = Triple-while (λ _. P) (λ _. P) (λ _. h) body u v

  -- A round that keeps the invariant whether the loop goes on or ends.
  pub Round-Steady :
      {S R : Type 0} {m : M (Flow S R)} → Steady H P m → Triple H (Round (λ _. P) (λ _. P)) P m
  Round-Steady {S} {R} {m} u = record { at = λ s l p. same (m s l) (u.at s l p) }
    where
      same : (o : Outcome (Flow S R)) → Ends H (λ _. P) o → Ends H (Round (λ _. P) (λ _. P)) o
      same (returned (continue v) s l) q = q
      same (returned (break r) s l) q = q
      same (halted e l) q = q

  pub Steady-for_each :
      {A : Type 0} (body : A → M (Unit {0})) (xs : List A)
      → ((x : A) → Steady H P (body x))
      → Steady H P (for_each body xs)
  unfolding for_each
  Steady-for_each body [] u = Triple-pure tt (λ l p. p)
  Steady-for_each body (x ∷ xs) u = Triple-bind (u x) (λ _. Steady-for_each body xs u)

pub ruleset steady_rules = (
  Triple-pure, Triple-if, Triple-unless_negative, Triple-ask, Triple-tell, Steady-bind,
  Round-Steady,
)
