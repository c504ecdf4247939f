-- ===== src/Posix/Reading.antt =====
-- The end of a loop that reads a descriptor of edge triggered epoll.
use practice_code_c_cpp.Prelude.{ℕ, ◌≡◌, refl, true, false, ◌∷◌, arith}
use practice_code_c_cpp.Posix.{
  Log, Reply, asked, told, done, fail, Call, failed, positive, errno, would_block, pure, tell,
}
use practice_code_c_cpp.Prelude.{if◌then◌else◌}
use practice_code_c_cpp.Posix.{M, Outcome, returned, halted, ask, ◌>>=◌}
use practice_code_c_cpp.Posix.Flow.{Flow, break}
use practice_code_c_cpp.Posix.Keeps.{
  Ends, Round, Triple, Triple-ask, Triple-bind, Triple-if, Triple-pure, Triple-tell, Triple-from,
}

-- Of the last calls, the read says that nothing is left for now; or it says that the connection
-- ended or failed, and the descriptor was closed right behind it.
abbrev pub ReadOut : ℕ → Log → Type 0
ReadOut fd l =
    (n : ℕ) × (r : Reply) × (rest : Log) × (positive r ≡ false)
    × ((if would_block (errno r)
          then asked (Call.read fd n) r ∷ rest
          else told (Call.close fd) ∷ asked (Call.read fd n) r ∷ rest)
        ≡ l)

-- The loop's result is that of the last call, a read.
abbrev pub LastRead : ℕ → Reply → Log → Type 0
LastRead fd r l =
    (n : ℕ) × (rest : Log) × (positive r ≡ false) × (asked (Call.read fd n) r ∷ rest ≡ l)

abbrev LastAsked : ℕ → Reply → Log → Type 0
LastAsked fd r l = (n : ℕ) × (rest : Log) × (asked (Call.read fd n) r ∷ rest ≡ l)

-- Nothing is said of the log.
abbrev pub Any : Log → Type 0
Any l = Unit

Any-Ends : {A : Type 0} (o : Outcome A) → Ends Any (λ _. Any) o
Any-Ends (returned a s l) = tt
Any-Ends (halted h l) = tt

pub Triple-Any : {A : Type 0} {P : Log → Type 0} (m : M A) → Triple Any (λ _. Any) P m
Triple-Any m = record { at = λ s l p. Any-Ends (m s l) }

-- The read of a round, with any code for the data it got.
pub read_body-LastRead :
    (fd size : ℕ) (body : Reply → M (Flow (Unit {0}) Reply))
    → ((r : Reply) → Triple Any (Round (λ _. Any) (LastRead fd)) Any (body r))
    → Triple Any
        (Round (λ _. Any) (LastRead fd))
        Any
        (ask (Call.read fd size) >>= λ r. if positive r then body r else pure (break r))
read_body-LastRead fd size body b =
    Triple-bind {Q = LastAsked fd} (Triple-ask _ (λ l _. tt) (λ r l _. (size, l, refl))) λ r.
      Triple-if (positive r) (λ h. Triple-from (λ l _. tt) (b r))
        (λ h. Triple-pure (break r) (λ l q. (q.0, q.1, h, q.2)))

closed-ReadOut :
    (fd : ℕ) (r : Reply) (l : Log)
    → would_block (errno r) ≡ false
    → LastRead fd r l
    → ReadOut fd (told (Call.close fd) ∷ l)
closed-ReadOut fd r l h q = (q.0, r, q.1, q.2, ground arith)

blocked-ReadOut :
    (fd : ℕ) (r : Reply) (l : Log) → would_block (errno r) ≡ true → LastRead fd r l → ReadOut fd l
blocked-ReadOut fd r l h q = (q.0, r, q.1, q.2, ground arith)

pub close_unless_blocked :
    (fd : ℕ) {H : Log → Type 0} (r : Reply)
    → Triple H
        (λ _. ReadOut fd)
        (LastRead fd r)
        (if failed r
          then (if would_block (errno r) then pure tt else tell (Call.close fd))
          else tell (Call.close fd))
close_unless_blocked fd (done n m) = Triple-tell _ (λ l q. closed-ReadOut fd (done n m) l refl q)
close_unless_blocked fd (fail e) =
    Triple-if (would_block e) (λ h. Triple-pure tt (λ l q. blocked-ReadOut fd (fail e) l h q))
      (λ h. Triple-tell _ (λ l q. closed-ReadOut fd (fail e) l h q))
