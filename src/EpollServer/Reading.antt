-- ===== src/EpollServer/Reading.antt =====
-- OnSocketRead leaves nothing unread.
use practice_code_c_cpp.Prelude.{ℕ, take}
use practice_code_c_cpp.Posix.{Script, Log, Reply, pure, ◌>>◌, value, memory, bytes_of}
use practice_code_c_cpp.Posix.Flow.{continue}
use practice_code_c_cpp.Posix.Keeps.{Ends, Round, Triple, Triple-bind, Triple-pure, Triple-while}
use practice_code_c_cpp.Posix.Reading.{
  Any, Triple-Any, ReadOut, LastRead, read_body-LastRead, close_unless_blocked,
}
use practice_code_c_cpp.EpollServer.{
  Server, Packet, read_buf_size, deliver, read_round, on_socket_read,
}

read_step-LastRead :
    (srv : Server) (fd : ℕ) (u : Unit {0})
    → Triple Any (Round (λ _. Any) (LastRead fd)) Any (read_round srv fd u)
unfolding read_round
read_step-LastRead srv fd u =
    read_body-LastRead fd read_buf_size (λ n. deliver srv (packet fd n) >> pure (continue tt))
      (λ n. Triple-bind (Triple-Any (deliver srv (packet fd n))) (λ _. Triple-pure _ (λ l _. tt)))
  where
    packet : ℕ → Reply → Packet
    packet fd n = record { fd = fd; msg = take (value n) (bytes_of (memory n)) }

-- Whatever the system answers and whatever the callback does, where OnSocketRead of the server
-- returns, its last read found that nothing is left for now, or that the connection has ended or
-- failed; and in the second case the descriptor was closed right behind it.
pub on_socket_read-ReadOut :
    (srv : Server) (fd : ℕ) (s : Script) (l : Log)
    → Ends (λ _. Unit) (λ _. ReadOut fd) (on_socket_read srv fd s l)
unfolding on_socket_read
on_socket_read-ReadOut srv fd s l =
    (Triple-bind {Q = LastRead fd}
        (Triple-while {H = Any} (LastRead fd) (λ _. Any) (λ v l _. tt) (read_round srv fd)
          (read_step-LastRead srv fd) tt)
        (close_unless_blocked fd)).at
      s l tt
