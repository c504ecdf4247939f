-- ===== src/EdgeServer/Echo.antt =====
-- EpollINET answers each message by the whole buffer that holds it.
use practice_code_c_cpp.Prelude.{ℕ, refl, Bool, true, [], ◌==◌, length}
use practice_code_c_cpp.Posix.{Log, Script, Event, failed, value, int_of, sock_stream}
use practice_code_c_cpp.Posix.Uses.{
  Uses, Takes, uses_rules, Uses-ask, Uses-bind, Uses-while, Uses-if, Uses-pure, Uses-weaken,
  Uses-halt, Uses-for_each, Uses-tell,
}
use practice_code_c_cpp.Posix.Keeps.{
  Ends, Steady, Triple-bind, Triple-if, Steady-while, Triple-halt, Triple-from, Steady-for_each,
  steady_rules,
}
use practice_code_c_cpp.Posix.Sockets.{
  handle_error, make_nonblocking, buffer_size, listen_inet-Uses,
}
use practice_code_c_cpp.Posix.Views.{whole_buffer}
use practice_code_c_cpp.Posix.Echoing.{
  Echoed, OneBehind, Echoed-or_behind, failed-Due, empty-Due, recv-Due, send-Echoed,
}
use practice_code_c_cpp.EdgeServer.{
  accept_client, disconnect, recv_round, handle_event, wait_round, epoll_inet, main, nonblocking_if,
}

make_nonblocking-Uses : (fd : ℕ) → Uses 0 (make_nonblocking fd)
unfolding make_nonblocking
make_nonblocking-Uses fd = search uses_rules

nonblocking_if-Uses : (et_mode : Bool) (fd : ℕ) → Uses 0 (nonblocking_if et_mode fd)
nonblocking_if-Uses et_mode fd = Uses-if et_mode (make_nonblocking-Uses fd) (Uses-pure tt)

accept_client-Uses : (et_mode : Bool) (efd sfd : ℕ) → Uses 0 (accept_client et_mode efd sfd)
unfolding accept_client handle_error
accept_client-Uses et_mode efd sfd = search (uses_rules, Uses-halt, make_nonblocking-Uses) depth 12

disconnect-Uses : (efd : ℕ) (c_ev : Event) → Uses 0 (disconnect efd c_ev)
unfolding disconnect handle_error
disconnect-Uses efd c_ev = search (uses_rules, Uses-halt) depth 9

recv_round-Uses :
    (et_mode : Bool) (efd : ℕ) (c_ev : Event) (v : Unit {0})
    → Uses 1 (recv_round et_mode efd c_ev v)
unfolding recv_round
recv_round-Uses et_mode efd c_ev v = search (uses_rules, disconnect-Uses) depth 12

handle_event-Uses :
    (et_mode : Bool) (efd sfd : ℕ) (c_ev : Event) → Uses 0 (handle_event et_mode efd sfd c_ev)
unfolding handle_event
handle_event-Uses et_mode efd sfd c_ev =
    Uses-if _
      (Uses-if _ (accept_client-Uses et_mode efd sfd)
        (Uses-while _ (recv_round-Uses et_mode efd c_ev) tt))
      (Uses-pure tt)

wait_round-Uses :
    (et_mode : Bool) (efd sfd : ℕ) (v : Unit {0}) → Uses 1 (wait_round et_mode efd sfd v)
unfolding wait_round handle_error
wait_round-Uses et_mode efd sfd v = Uses-bind (Uses-ask _) λ r. Uses-if _ (Uses-halt 0 _ tt) (
    Uses-if _ (Uses-pure _)
      (Uses-bind (Uses-for_each _ _ (handle_event-Uses et_mode efd sfd)) (λ _. Uses-pure _)))

-- The fuel of the loop of epoll_wait and of the loop that reads one connection is enough.
pub edge_main-Takes : (s : Script) (l : Log) → Takes 1 (length s) (main s l)
unfolding main epoll_inet handle_error
edge_main-Takes s l =
    (Uses-bind (listen_inet-Uses sock_stream 2) (λ sfd. Uses-bind (Uses-tell _) (λ _.
        Uses-bind (Uses-weaken (Uses-ask _)) (λ efd. Uses-bind (nonblocking_if-Uses true sfd) (λ _.
          Uses-bind (Uses-weaken (Uses-ask _)) (λ r.
            Uses-if _ (Uses-halt 0 _ tt)
              (Uses-while _ (wait_round-Uses true (int_of efd) sfd) tt))))))).at
      s l

ruleset echo_rules = (steady_rules, Echoed-or_behind, Triple-halt)

make_nonblocking-Echoed :
    (fd : ℕ) → Steady (OneBehind whole_buffer) (Echoed whole_buffer) (make_nonblocking fd)
unfolding make_nonblocking
make_nonblocking-Echoed fd = search echo_rules depth 8

accept_client-Echoed :
    (et_mode : Bool) (efd sfd : ℕ)
    → Steady (OneBehind whole_buffer) (Echoed whole_buffer) (accept_client et_mode efd sfd)
unfolding accept_client handle_error
accept_client-Echoed et_mode efd sfd = search (echo_rules, make_nonblocking-Echoed) depth 12

disconnect-Echoed :
    (efd : ℕ) (c_ev : Event)
    → Steady (OneBehind whole_buffer) (Echoed whole_buffer) (disconnect efd c_ev)
unfolding disconnect handle_error
disconnect-Echoed efd c_ev = search echo_rules depth 9

recv_round-Echoed :
    (et_mode : Bool) (efd : ℕ) (c_ev : Event) (v : Unit {0})
    → Steady (OneBehind whole_buffer) (Echoed whole_buffer) (recv_round et_mode efd c_ev v)
unfolding recv_round
recv_round-Echoed et_mode efd c_ev v = Triple-bind (recv-Due whole_buffer c_ev.fd buffer_size) λ r.
    Triple-if (failed r)
      (λ h.
        Triple-from (λ l d. failed-Due whole_buffer c_ev.fd r l h d)
          (search (echo_rules, disconnect-Echoed) depth 9))
      (λ h.
        Triple-if (value r == 0)
          (λ k.
            Triple-from (λ l d. empty-Due whole_buffer c_ev.fd r l k d)
              (search (echo_rules, disconnect-Echoed) depth 9))
          (λ k.
            Triple-bind (send-Echoed whole_buffer c_ev.fd r h k) (λ w. search echo_rules depth 9)))

handle_event-Echoed :
    (et_mode : Bool) (efd sfd : ℕ) (c_ev : Event)
    → Steady (OneBehind whole_buffer) (Echoed whole_buffer) (handle_event et_mode efd sfd c_ev)
unfolding handle_event
handle_event-Echoed et_mode efd sfd c_ev =
    search (echo_rules, accept_client-Echoed, Steady-while, recv_round-Echoed) depth 9

wait_round-Echoed :
    (et_mode : Bool) (efd sfd : ℕ) (v : Unit {0})
    → Steady (OneBehind whole_buffer) (Echoed whole_buffer) (wait_round et_mode efd sfd v)
unfolding wait_round handle_error
wait_round-Echoed et_mode efd sfd v =
    search (echo_rules, Steady-for_each, handle_event-Echoed) depth 12

epoll_inet-Steady :
    (sfd : ℕ) (et_mode : Bool)
    → Steady (OneBehind whole_buffer) (Echoed whole_buffer) (epoll_inet sfd et_mode)
unfolding epoll_inet handle_error
epoll_inet-Steady sfd et_mode =
    search (echo_rules, make_nonblocking-Echoed, Steady-while, wait_round-Echoed) depth 14

-- In both modes, at every point of every run, EpollINET has answered each message that it received,
-- in order and on its own connection, but for the last one while its send is under way. An answer
-- is the whole buffer, with the message at its start.
pub edge_epoll_inet-Echoed :
    (sfd : ℕ) (et_mode : Bool) (s : Script)
    → Ends (OneBehind whole_buffer) (λ _. Echoed whole_buffer) (epoll_inet sfd et_mode s [])
edge_epoll_inet-Echoed sfd et_mode s = (epoll_inet-Steady sfd et_mode).at s [] refl
