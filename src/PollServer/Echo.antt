-- ===== src/PollServer/Echo.antt =====
-- PollINET answers each message by the whole buffer that holds it.
use practice_code_c_cpp.Prelude.{ℕ, refl, true, false, List, [], ◌∷◌, ◌==◌}
use practice_code_c_cpp.Posix.{Script, Event, Call, failed, value, pure, tell, ◌>>◌}
use practice_code_c_cpp.Posix.Keeps.{
  Ends, Steady, Triple-bind, Triple-pure, Triple-tell, Triple-if, Steady-bind, Steady-while,
  Round-Steady, Triple-halt, Triple-from, steady_rules,
}
use practice_code_c_cpp.Posix.Sockets.{handle_error, buffer_size}
use practice_code_c_cpp.Posix.Views.{whole_buffer}
use practice_code_c_cpp.Posix.Echoing.{
  Echoed, OneBehind, Echoed-or_behind, failed-Due, empty-Due, recv-Due, send-Echoed,
}
use practice_code_c_cpp.PollServer.{push_back, serve, visit, count_if, pass, poll_round, poll_inet}

ruleset echo_rules = (steady_rules, Echoed-or_behind)

serve-Echoed : (fd : ℕ) → Steady (OneBehind whole_buffer) (Echoed whole_buffer) (serve fd)
unfolding serve
serve-Echoed fd = Triple-bind (recv-Due whole_buffer fd buffer_size) λ r.
    Triple-if (failed r) (λ h. Triple-from (λ l d. failed-Due whole_buffer fd r l h d) gone)
      (λ h.
        Triple-if (value r == 0) (λ k. Triple-from (λ l d. empty-Due whole_buffer fd r l k d) gone)
          (λ k. Triple-bind (send-Echoed whole_buffer fd r h k) (λ _. Triple-pure true (λ l e. e))))
  where
    gone :
        Steady (OneBehind whole_buffer) (Echoed whole_buffer) (tell (Call.close fd) >> pure false)
    gone = Steady-bind (Triple-tell (Call.close fd) (λ l e. e)) (λ _. Triple-pure false (λ l e. e))

push_back-Echoed :
    (capacity size : ℕ) (pushed : List ℕ) (cfd : ℕ)
    → Steady (OneBehind whole_buffer) (Echoed whole_buffer) (push_back capacity size pushed cfd)
unfolding push_back
push_back-Echoed capacity size pushed cfd = search (echo_rules, Triple-halt) depth 8

visit-Echoed :
    (capacity sfd size : ℕ) (p : Event) (pushed : List ℕ)
    → Steady (OneBehind whole_buffer) (Echoed whole_buffer) (visit capacity sfd size p pushed)
unfolding visit
visit-Echoed capacity sfd size p pushed =
    search (echo_rules, serve-Echoed, push_back-Echoed) depth 12

pass-Echoed :
    (capacity sfd before : ℕ) (todo : List Event) (pushed : List ℕ)
    → Steady (OneBehind whole_buffer) (Echoed whole_buffer) (pass capacity sfd before todo pushed)
unfolding pass
pass-Echoed capacity sfd before [] pushed = Triple-pure pushed (λ l e. e)
pass-Echoed capacity sfd before (p ∷ todo) pushed =
    Steady-bind (visit-Echoed capacity sfd _ p pushed) (λ r.
      Steady-bind (pass-Echoed capacity sfd (count_if r.0 before) todo r.1)
        (λ fds. Triple-pure _ (λ l e. e)))

poll_round-Echoed :
    (capacity sfd : ℕ) (fds : List ℕ)
    → Steady (OneBehind whole_buffer) (Echoed whole_buffer) (poll_round capacity sfd fds)
unfolding poll_round handle_error
poll_round-Echoed capacity sfd fds = search (echo_rules, Triple-halt, pass-Echoed) depth 9

-- At every point of every run, up to where the iterator is no longer valid, the server has answered
-- each message that it received, in order and on its own connection, but for the last one while its
-- send is under way. An answer is the whole buffer, with the message at its start.
pub poll_inet-Echoed :
    (capacity sfd : ℕ) (s : Script)
    → Ends (OneBehind whole_buffer) (λ _. Echoed whole_buffer) (poll_inet capacity sfd s [])
unfolding poll_inet
poll_inet-Echoed capacity sfd s =
    (Steady-bind (Triple-tell Call.ignore_sigpipe (λ l e. e)) (λ _.
        Steady-while (poll_round capacity sfd) (Echoed-or_behind whole_buffer)
          (λ fds. Round-Steady (poll_round-Echoed capacity sfd fds)) (sfd ∷ []))).at
      s [] refl
