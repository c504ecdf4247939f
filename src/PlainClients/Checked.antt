-- ===== src/PlainClients/Checked.antt =====
-- The select, poll and epoll clients send nothing but the greeting of a socket, and only where they
-- have just seen that it is connected.
pub mod BySelect
pub mod ByPoll
pub mod ByEpoll
pub mod Sending
use practice_code_c_cpp.Prelude.{
  ℕ, zero, suc, ◌≡◌, refl, Bool, true, false, List, [], ◌∷◌, ◌==◌, if◌then◌else◌, length, arith,
}
use practice_code_c_cpp.Posix.{
  Log, Script, Event, Reply, Call, asked, told, failed, value, memory, pure, ask, ◌>>=◌,
}
use practice_code_c_cpp.Posix.Keeps.{
  Ends, Triple, Steady, Triple-bind, Triple-pure, Triple-tell, Triple-ask, Triple-if, Steady-bind,
  Steady-while, Steady-for_each, Round-Steady, Triple-halt, Triple-from, steady_rules,
}
use practice_code_c_cpp.Posix.Uses.{
  Uses, Takes, uses_rules, Uses-bind, Uses-while, Uses-pure, Uses-halt, Uses-for_each,
}
use practice_code_c_cpp.Posix.Sockets.{handle_error}
use practice_code_c_cpp.PlainClients.{client_num, greeting, so_error, greet}

-- The last call asked for the error of the socket, and there was none.
abbrev Answered : ℕ → Log → Type 0
Answered fd [] = ⊥
Answered fd (asked (Call.getsockopt_error d) r ∷ l) =
    (d ≡ fd) × (failed r ≡ false) × (so_error (memory r) ≡ 0)
Answered fd (_ ∷ l) = ⊥

-- Each send hands over the greeting of its socket, right behind such an answer.
abbrev pub Checked : Log → Type 0
Checked [] = Unit
Checked (asked (Call.send fd bs) r ∷ l) = (bs ≡ greeting fd) × Answered fd l × Checked l
Checked (_ ∷ l) = Checked l

send-Checked :
    (fd : ℕ)
    → Triple Checked
        (λ _. Checked)
        (λ l. Checked l × Answered fd l)
        (ask (Call.send fd (greeting fd)))
send-Checked fd = Triple-ask (Call.send fd (greeting fd)) (λ l h. h.0) (λ r l h. (refl, h.1, h.0))

-- What is known behind the question.
abbrev Told : ℕ → Reply → Log → Type 0
Told fd r l = Checked l × (failed r ≡ false → (so_error (memory r) == 0) ≡ true → Answered fd l)

answered : (r : Reply) → (so_error (memory r) == 0) ≡ true → so_error (memory r) ≡ 0
answered r e = ground arith

pub greet-Checked : (fd : ℕ) → Steady Checked Checked (greet fd)
unfolding greet
greet-Checked fd =
    Triple-bind {Q = Told fd}
      (Triple-ask (Call.getsockopt_error fd) (λ l h. h)
        (λ r l h. (h, λ f z. (refl, f, answered r z))))
      λ r.
        Triple-if (failed r) (λ f. Triple-pure tt (λ l h. h.0))
          (λ f.
            Triple-if (so_error (memory r) == 0)
              (λ z.
                Triple-bind (Triple-from (λ l h. (h.0, h.1 f z)) (send-Checked fd))
                  (λ _. Triple-pure tt (λ l h. h)))
              (λ z. Triple-pure tt (λ l h. h.0)))

pub greet-Uses : (fd : ℕ) → Uses 1 (greet fd)
unfolding greet
greet-Uses fd = search uses_rules depth 9
