-- ===== src/LevelServer/Echo.antt =====
-- The server answers each message by the whole buffer that holds it.
use practice_code_c_cpp.Prelude.{ℕ, refl, ◌||◌, [], ◌==◌, length, arith}
use practice_code_c_cpp.Posix.{
  Log, Script, Event, Call, failed, value, nonzero, int_of, sock_stream,
}
use practice_code_c_cpp.Posix.Uses.{
  Uses, Takes, uses_rules, Uses-ask, Uses-bind, Uses-while, Uses-if, Uses-pure, Uses-weaken,
  Uses-halt, Uses-for_each,
}
use practice_code_c_cpp.Posix.Keeps.{
  Ends, Steady, Triple-bind, Triple-ask, Triple-if, Steady-bind, Steady-while, Round-Steady,
  Triple-halt, Triple-from, Steady-for_each, steady_rules,
}
use practice_code_c_cpp.Posix.Sockets.{handle_error, buffer_size, listen_inet-Uses}
use practice_code_c_cpp.Posix.Views.{whole_buffer}
use practice_code_c_cpp.Posix.Echoing.{
  Echoed, OneBehind, Echoed-or_behind, ended-Due, listen_inet-Echoed, recv-Due, send-Echoed,
}
use practice_code_c_cpp.LevelServer.{handle_connection, handle_data, handle_event, wait_round, main}

handle_connection-Uses : (efd sfd : ℕ) → Uses 0 (handle_connection efd sfd)
unfolding handle_connection handle_error
handle_connection-Uses efd sfd = search (uses_rules, Uses-halt) depth 9

handle_data-Uses : (efd cfd : ℕ) → Uses 0 (handle_data efd cfd)
unfolding handle_data handle_error
handle_data-Uses efd cfd = search (uses_rules, Uses-halt) depth 9

handle_event-Uses : (efd sfd : ℕ) (ev : Event) → Uses 0 (handle_event efd sfd ev)
unfolding handle_event
handle_event-Uses efd sfd ev = search (uses_rules, handle_connection-Uses, handle_data-Uses)

wait_round-Uses : (efd sfd : ℕ) (v : Unit {0}) → Uses 1 (wait_round efd sfd v)
unfolding wait_round handle_error
wait_round-Uses efd sfd v = Uses-bind (Uses-ask _) λ r.
    Uses-if _ (Uses-halt 0 _ tt)
      (Uses-bind (Uses-for_each _ _ (handle_event-Uses efd sfd)) (λ _. Uses-pure _))

-- The fuel of the loop is enough.
pub level_main-Takes : (s : Script) (l : Log) → Takes 1 (length s) (main s l)
unfolding main handle_error
level_main-Takes s l =
    (Uses-bind (Uses-ask (Call.epoll_create 10)) (λ efd.
        Uses-bind (Uses-weaken (listen_inet-Uses sock_stream 2)) (λ sfd.
          Uses-bind (Uses-weaken (Uses-ask _)) (λ r.
            Uses-if _ (Uses-halt 0 _ tt) (Uses-while _ (wait_round-Uses (int_of efd) sfd) tt))))).at
      s l

ruleset echo_rules = (steady_rules, Echoed-or_behind, Triple-halt)

handle_connection-Echoed :
    (efd sfd : ℕ)
    → Steady (OneBehind whole_buffer) (Echoed whole_buffer) (handle_connection efd sfd)
unfolding handle_connection handle_error
handle_connection-Echoed efd sfd = search echo_rules depth 9

handle_data-Echoed :
    (efd cfd : ℕ) → Steady (OneBehind whole_buffer) (Echoed whole_buffer) (handle_data efd cfd)
unfolding handle_data handle_error
handle_data-Echoed efd cfd = Triple-bind (recv-Due whole_buffer cfd buffer_size) λ r.
    Triple-if (failed r || value r == 0)
      (λ h. Triple-from (λ l d. ended-Due whole_buffer cfd r l h d) (search echo_rules depth 9))
      (λ h.
        Triple-bind (send-Echoed whole_buffer cfd r (ground arith) (ground arith))
          (λ w. search echo_rules depth 9))

handle_event-Echoed :
    (efd sfd : ℕ) (ev : Event)
    → Steady (OneBehind whole_buffer) (Echoed whole_buffer) (handle_event efd sfd ev)
unfolding handle_event
handle_event-Echoed efd sfd ev =
    Triple-if (ev.fd == sfd) (λ h. handle_connection-Echoed efd sfd)
      (λ h. handle_data-Echoed efd ev.fd)

wait_round-Echoed :
    (efd sfd : ℕ) (v : Unit {0})
    → Steady (OneBehind whole_buffer) (Echoed whole_buffer) (wait_round efd sfd v)
unfolding wait_round handle_error
wait_round-Echoed efd sfd v = search (echo_rules, Steady-for_each, handle_event-Echoed) depth 9

-- At every point of every run of the program it has answered each message that it received, in
-- order and on its own connection, but for the last one while its send is under way. An answer is
-- the whole buffer, with the message at its start.
pub level_main-Echoed :
    (s : Script) → Ends (OneBehind whole_buffer) (λ _. Echoed whole_buffer) (main s [])
unfolding main handle_error
level_main-Echoed s =
    (Steady-bind (Triple-ask (Call.epoll_create 10) (Echoed-or_behind whole_buffer) (λ r l e. e))
        (λ efd. Steady-bind (listen_inet-Echoed whole_buffer sock_stream 2) (λ sfd.
          Steady-bind (Triple-ask _ (Echoed-or_behind whole_buffer) (λ r l e. e)) (λ r.
            Triple-if (nonzero r) (λ h. Triple-halt _ (Echoed-or_behind whole_buffer))
              (λ h.
                Steady-while (wait_round (int_of efd) sfd) (Echoed-or_behind whole_buffer)
                  (λ v. Round-Steady (wait_round-Echoed (int_of efd) sfd v)) tt))))).at
      s [] refl
