-- ===== src/EpollClient/Reading.antt =====
-- The client's loop ends, and OnSocketRead leaves nothing unread.
use practice_code_c_cpp.Prelude.{ℕ, Option, none, some, take, length}
use practice_code_c_cpp.Posix.{Event, Script, Log, Reply, pure, ◌>>◌, value, memory, bytes_of}
use practice_code_c_cpp.Posix.Uses.{
  Uses, Takes, uses_rules, Uses-ask, Uses-bind, Uses-while, Uses-for_each, Uses-if, Uses-pure,
  Uses-weaken,
}
use practice_code_c_cpp.Posix.Keeps.{Ends, Round, Triple, Triple-bind, Triple-pure, Triple-while}
use practice_code_c_cpp.Posix.Reading.{
  Any, Triple-Any, ReadOut, LastRead, read_body-LastRead, close_unless_blocked,
}
use practice_code_c_cpp.Posix.Flow.{continue}
use practice_code_c_cpp.EpollServer.{Packet, Callback, read_buf_size}
use practice_code_c_cpp.EpollServer.Termination.{CallbackEnds}
use practice_code_c_cpp.EpollClient.{
  Client, deliver, read_round, on_socket_read, on_socket_write, dispatch, loop_round, epoll_loop,
}

deliver-Uses : (cli : Client) (p : Packet) → CallbackEnds cli.recv_callback → Uses 0 (deliver cli p)
unfolding deliver
deliver-Uses cli p c = go cli.recv_callback c
  where
    go :
        (cb : Option Callback)
        → CallbackEnds cb
        → Uses 0 (elim cb [ none ↦ pure tt | some callback ↦ callback p ])
    go none c = Uses-pure tt
    go (some callback) c = c p

module _ (cli : Client) (ends : CallbackEnds cli.recv_callback) where
  read_round-Uses : (fd : ℕ) (u : Unit {0}) → Uses 1 (read_round cli fd u)
  unfolding read_round
  read_round-Uses fd u = search (uses_rules, deliver-Uses) depth 8

  on_socket_read-Uses : (fd : ℕ) → Uses 0 (on_socket_read cli fd)
  unfolding on_socket_read
  on_socket_read-Uses fd =
      Uses-bind (Uses-while _ (read_round-Uses fd) tt) (λ n. search uses_rules depth 8)

  dispatch-Uses : (ev : Event) → Uses 0 (dispatch cli ev)
  unfolding dispatch on_socket_write
  dispatch-Uses ev = search (uses_rules, on_socket_read-Uses) depth 8

  loop_round-Uses : (u : Unit {0}) → Uses 1 (loop_round cli u)
  unfolding loop_round
  loop_round-Uses u = Uses-bind (Uses-ask _) λ flag.
      Uses-if _
        (Uses-bind (Uses-weaken (Uses-ask _))
          λ num. Uses-bind (Uses-for_each _ _ dispatch-Uses) (λ _. Uses-pure _))
        (Uses-pure _)

  epoll_loop-Uses : Uses 0 (epoll_loop cli)
  unfolding epoll_loop
  epoll_loop-Uses =
      Uses-bind (Uses-weaken (Uses-ask _))
        λ r. Uses-if _ (Uses-pure tt) (Uses-while _ loop_round-Uses tt)

-- Given a callback that ends, the fuel of the client's event loop and of its read loops is enough.
client_epoll_loop-Takes :
    (cli : Client) (s : Script) (l : Log)
    → CallbackEnds cli.recv_callback
    → Takes 0 (length s) (epoll_loop cli s l)
client_epoll_loop-Takes cli s l ends = (epoll_loop-Uses cli ends).at s l

read_step-LastRead :
    (cli : Client) (fd : ℕ) (u : Unit {0})
    → Triple Any (Round (λ _. Any) (LastRead fd)) Any (read_round cli fd u)
unfolding read_round
read_step-LastRead cli fd u =
    read_body-LastRead fd read_buf_size (λ n. deliver cli (packet fd n) >> pure (continue tt))
      (λ n. Triple-bind (Triple-Any (deliver cli (packet fd n))) (λ _. Triple-pure _ (λ l _. tt)))
  where
    packet : ℕ → Reply → Packet
    packet fd n = record { fd = fd; msg = take (value n) (bytes_of (memory n)) }

-- Whatever the system answers and whatever the callback does, where OnSocketRead of the client
-- returns, its last read found that nothing is left for now, or that the connection has ended or
-- failed; and in the second case the descriptor was closed right behind it.
pub client_on_socket_read-ReadOut :
    (cli : Client) (fd : ℕ) (s : Script) (l : Log)
    → Ends (λ _. Unit) (λ _. ReadOut fd) (on_socket_read cli fd s l)
unfolding on_socket_read
client_on_socket_read-ReadOut cli fd s l =
    (Triple-bind {Q = LastRead fd}
        (Triple-while {H = Any} (LastRead fd) (λ _. Any) (λ v l _. tt) (read_round cli fd)
          (read_step-LastRead cli fd) tt)
        (close_unless_blocked fd)).at
      s l tt
