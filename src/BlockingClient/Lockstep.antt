-- ===== src/BlockingClient/Lockstep.antt =====
-- The client has one request under way at a time.
use practice_code_c_cpp.Prelude.{ℕ, ◌+◌, ◌≤◌, ◌≡◌, refl, [], ◌∷◌, length, arith, if◌then◌else◌}
use practice_code_c_cpp.Posix.{Script, Log, asked, told, Call, failed, int_of}
use practice_code_c_cpp.Posix.Uses.{
  Uses, Takes, uses_rules, Uses-ask, Uses-bind, Uses-weaken, Uses-if, Uses-pure, Uses-while,
  Uses-bind_late, Uses-tell,
}
use practice_code_c_cpp.Posix.Keeps.{
  Ends, Steady, Triple-bind, Triple-ask, Triple-if, Triple-from, Steady-while, steady_rules,
}
use practice_code_c_cpp.BlockingClient.{
  unix_round, connect_unix_domain, inet_round, connect_inet, main, send_buf,
}

-- How many requests were sent (where the result of send is read, with success), and how many
-- answers were waited for.
abbrev pub requests : Log → ℕ
requests [] = 0
requests (told (Call.send fd bs) ∷ l) = 1 + requests l
requests (asked (Call.send fd bs) r ∷ l) = (if failed r then 0 else 1) + requests l
requests (_ ∷ l) = requests l

abbrev pub answers : Log → ℕ
answers [] = 0
answers (asked (Call.recv fd n) r ∷ l) = 1 + answers l
answers (_ ∷ l) = answers l

abbrev pub Lockstep : Log → Type 0
Lockstep l = requests l ≡ answers l

-- One request may be under way.
abbrev pub UnderWay : Log → Type 0
UnderWay l = (answers l ≤ requests l) × (requests l ≤ answers l + 1)

under_way : (l : Log) → Lockstep l → UnderWay l
under_way l h = (omega arith, omega arith)

ruleset lockstep_rules = (steady_rules, under_way)

inet_round-Lockstep : (cfd : ℕ) (v : Unit {0}) → Steady UnderWay Lockstep (inet_round cfd v)
unfolding inet_round
inet_round-Lockstep cfd v =
    Triple-bind {Q = λ r l. requests l ≡ answers l + (if failed r then 0 else 1)}
      (Triple-ask (Call.send cfd send_buf) under_way (λ r l h. omega arith))
      λ r.
        Triple-if (failed r)
          (λ k. Triple-from {P = Lockstep} (λ l h. ground arith) (search lockstep_rules depth 8))
          (λ k.
            Triple-bind {Q = λ _. Lockstep}
              (Triple-ask _ (λ l h. ground arith) (λ w l h. ground arith))
              (λ w. search lockstep_rules depth 8))

inet-Steady : Steady UnderWay Lockstep connect_inet
unfolding connect_inet
inet-Steady = search (lockstep_rules, Steady-while, inet_round-Lockstep) depth 12

-- Whatever the system answers, the TCP client sends a request only when it has waited for the answer
-- to the request before: at every point of a run at most one request is under way, and where the
-- program ends none is.
pub client_main-Lockstep : (s : Script) → Ends UnderWay (λ _. Lockstep) (main s [])
client_main-Lockstep s = inet-Steady.at s [] refl

inet_round-Uses : (cfd : ℕ) (v : Unit {0}) → Uses 1 (inet_round cfd v)
unfolding inet_round
inet_round-Uses cfd v = search uses_rules depth 9

unix_round-Uses : (fd : ℕ) (v : Unit {0}) → Uses 1 (unix_round fd v)
unfolding unix_round
unix_round-Uses fd v =
    Uses-bind_late (Uses-tell _) (λ _. Uses-bind (Uses-ask _) (λ r. search uses_rules depth 8))

-- The fuel of both clients' loops is enough.
pub blocking_clients-Takes :
    (s : Script) (l : Log)
    → Takes 1 (length s) (main s l) × Takes 1 (length s) (connect_unix_domain s l)
unfolding connect_inet connect_unix_domain
blocking_clients-Takes s l = (
  (Uses-bind (Uses-ask _) (λ cfd.
        Uses-bind (Uses-weaken (Uses-ask _))
          (λ r. Uses-if _ (Uses-pure tt) (Uses-while _ (inet_round-Uses (int_of cfd)) tt)))).at
      s l,
  (Uses-bind (Uses-ask _) (λ fd.
        Uses-bind (Uses-weaken (Uses-ask _))
          (λ r. Uses-if _ (Uses-pure tt) (Uses-while _ (unix_round-Uses (int_of fd)) tt)))).at
      s l,
)
