-- ===== src/EpollServer/Termination.antt =====
-- The fuel of the server's loops is enough.
use practice_code_c_cpp.Prelude.{ℕ, Option, none, some, length}
use practice_code_c_cpp.Posix.{Event, Script, Log, pure}
use practice_code_c_cpp.Posix.Uses.{
  Uses, Takes, uses_rules, Uses-ask, Uses-bind, Uses-while, Uses-for_each, Uses-if, Uses-pure,
  Uses-weaken,
}
use practice_code_c_cpp.EpollServer.{
  Server, Packet, Callback, make_socket_nonblock, update_epoll_events, adopt, accept_round,
  on_socket_accept, deliver, read_round, on_socket_read, on_socket_write, send_data, dispatch,
  loop_round, epoll_loop, echo,
}

-- What the callback of a server, if any, takes from the script.
abbrev pub CallbackEnds : Option Callback → Type 0
CallbackEnds none = Unit
CallbackEnds (some callback) = (p : Packet) → Uses 0 (callback p)

make_socket_nonblock-Uses : (fd : ℕ) → Uses 1 (make_socket_nonblock fd)
unfolding make_socket_nonblock
make_socket_nonblock-Uses fd = search uses_rules

update_epoll_events-Uses : (efd op fd events : ℕ) → Uses 1 (update_epoll_events efd op fd events)
unfolding update_epoll_events
update_epoll_events-Uses efd op fd events = search uses_rules

adopt-Uses : (efd cli_fd : ℕ) → Uses 1 (adopt efd cli_fd)
unfolding adopt
adopt-Uses efd cli_fd =
    search (uses_rules, make_socket_nonblock-Uses, update_epoll_events-Uses) depth 8

accept_round-Uses : (srv : Server) (u : Unit {0}) → Uses 1 (accept_round srv u)
unfolding accept_round
accept_round-Uses srv u = search (uses_rules, adopt-Uses)

on_socket_accept-Uses : (srv : Server) → Uses 0 (on_socket_accept srv)
unfolding on_socket_accept
on_socket_accept-Uses srv = Uses-while _ (accept_round-Uses srv) tt

deliver-Uses : (srv : Server) (p : Packet) → CallbackEnds srv.recv_callback → Uses 0 (deliver srv p)
unfolding deliver
deliver-Uses srv p c = go srv.recv_callback c
  where
    go :
        (cb : Option Callback)
        → CallbackEnds cb
        → Uses 0 (elim cb [ none ↦ pure tt | some callback ↦ callback p ])
    go none c = Uses-pure tt
    go (some callback) c = c p

module _ (srv : Server) (ends : CallbackEnds srv.recv_callback) where
  read_round-Uses : (fd : ℕ) (u : Unit {0}) → Uses 1 (read_round srv fd u)
  unfolding read_round
  read_round-Uses fd u = search (uses_rules, deliver-Uses) depth 8

  on_socket_read-Uses : (fd : ℕ) → Uses 0 (on_socket_read srv fd)
  unfolding on_socket_read
  on_socket_read-Uses fd =
      Uses-bind (Uses-while _ (read_round-Uses fd) tt) (λ n. search uses_rules depth 8)

  dispatch-Uses : (ev : Event) → Uses 0 (dispatch srv ev)
  unfolding dispatch on_socket_write
  dispatch-Uses ev = search (uses_rules, on_socket_accept-Uses, on_socket_read-Uses) depth 8

  loop_round-Uses : (u : Unit {0}) → Uses 1 (loop_round srv u)
  unfolding loop_round
  loop_round-Uses u = Uses-bind (Uses-ask _) λ flag.
      Uses-if _
        (Uses-bind (Uses-weaken (Uses-ask _))
          λ num. Uses-bind (Uses-for_each _ _ dispatch-Uses) (λ _. Uses-pure _))
        (Uses-pure _)

  epoll_loop-Uses : Uses 0 (epoll_loop srv)
  unfolding epoll_loop
  epoll_loop-Uses =
      Uses-bind (Uses-weaken (Uses-ask _))
        λ r. Uses-if _ (Uses-pure tt) (Uses-while _ loop_round-Uses tt)

-- Given a callback that ends, no accept loop, read loop or event loop spends its fuel.
epoll_loop-Takes :
    (srv : Server) (s : Script) (l : Log)
    → CallbackEnds srv.recv_callback
    → Takes 0 (length s) (epoll_loop srv s l)
epoll_loop-Takes srv s l ends = (epoll_loop-Uses srv ends).at s l

send_data-Uses : (p : Packet) → Uses 0 (send_data p)
unfolding send_data
send_data-Uses p = search uses_rules depth 8

echo-Uses : (p : Packet) → Uses 0 (echo p)
unfolding echo
echo-Uses p = Uses-bind (send_data-Uses p) (λ _. Uses-pure tt)
