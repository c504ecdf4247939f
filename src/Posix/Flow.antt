-- ===== src/Posix/Flow.antt =====
-- while loops. The body says whether the loop goes on, and the fuel is one more than the replies
-- that are left: a loop whose rounds each take a reply never spends it (Posix/Uses.antt).
use practice_code_c_cpp.Prelude.{ℕ, zero, suc, List, [], ◌∷◌, length}
use practice_code_c_cpp.Posix.{M, returned, halted, spent, pure, ◌>>=◌}

-- `continue` with the loop's variables, or `break` with the result.
pub data Flow (S R : Type 0) : Type 0 where
  continue : S → Flow S R
  break : R → Flow S R

module _ {S R : Type 0} where
  unfoldable pub loop : ℕ → (S → M (Flow S R)) → S → M R
  loop zero body v s l = halted spent l
  loop (suc fuel) body v s l = elim (body v s l) [
    | returned (continue v') s' l' ↦ loop fuel body v' s' l'
    | returned (break r) s' l' ↦ returned r s' l'
    | halted h l' ↦ halted h l'
  ]

  unfoldable pub while : (S → M (Flow S R)) → S → M R
  while body v s l = loop (suc (length s)) body v s l

-- for (x : xs) body(x)
unfoldable pub for_each : {A : Type 0} → (A → M (Unit {0})) → List A → M (Unit {0})
for_each body [] = pure tt
for_each body (x ∷ xs) = body x >>= λ _. for_each body xs
