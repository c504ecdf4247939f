-- ===== src/BlockingServer/Echo.antt =====
-- The unix domain server sends back what it receives, and the loops of both servers end.
use practice_code_c_cpp.Prelude.{ℕ, ◌≡◌, refl, [], ◌==◌, arith, ap, ◌++◌}
use practice_code_c_cpp.Posix.{Log, Script, Reply, failed, value}
use practice_code_c_cpp.Posix.Keeps.{
  Ends, Steady, Triple-bind, Triple-ask, Triple-pure, Triple-tell, Triple-if, Steady-bind,
  Steady-while, Round-Steady,
}
use practice_code_c_cpp.Posix.Views.{received, message, sent, filled_part}
use practice_code_c_cpp.BlockingServer.{unix_round, unix_accept_round, accept_and_recv_unix_domain}

-- Each message was sent back, to its own connection and in order, and nothing else was sent.
abbrev pub Echoed : Log → Type 0
Echoed l = sent l ≡ received filled_part l

-- The message of a recv that is still to be sent back.
abbrev Due : ℕ → Reply → Log → Type 0
Due cfd r l = message filled_part cfd r ++ sent l ≡ received filled_part l

unix_round-Echoed : (cfd : ℕ) → Steady Echoed Echoed (unix_round cfd tt)
unfolding unix_round
unix_round-Echoed cfd =
    Triple-bind {Q = λ r l. Due cfd r l}
      (Triple-ask _ (λ l e. e) (λ r l e. ap (◌++◌ (message filled_part cfd r)) e))
      λ r.
        Triple-if (failed r) (λ h. Triple-pure _ (λ l d. ground arith))
          λ h.
            Triple-if (value r == 0) (λ k. Triple-pure _ (λ l d. ground arith))
              λ k.
                Triple-bind {Q = λ _. Echoed} (Triple-tell _ (λ l d. ground arith))
                  (λ _. Triple-pure _ (λ l e. e))

unix_accept_round-Echoed : (sfd : ℕ) → Steady Echoed Echoed (unix_accept_round sfd tt)
unfolding unix_accept_round
unix_accept_round-Echoed sfd = Steady-bind (Triple-ask _ (λ l e. e) (λ r l e. e)) λ cfd.
    Triple-if (failed cfd) (λ h. Triple-pure _ (λ l e. e))
      λ h.
        Steady-bind
          (Steady-while _ (λ l e. e) (λ _. Round-Steady (unix_round-Echoed (value cfd))) tt)
          (λ _. Steady-bind (Triple-tell _ (λ l e. e)) (λ _. Triple-pure _ (λ l e. e)))

-- At every point of every run, the unix domain server has sent back exactly what it received: each
-- message once, to the connection that it came from, in order and with its own length.
pub accept_and_recv_unix_domain-Echoed :
    (sfd : ℕ) (s : Script) → Ends Echoed (λ _. Echoed) (accept_and_recv_unix_domain sfd s [])
unfolding accept_and_recv_unix_domain
accept_and_recv_unix_domain-Echoed sfd s =
    (Steady-while _ (λ l e. e) (λ _. Round-Steady (unix_accept_round-Echoed sfd)) tt).at s [] refl
