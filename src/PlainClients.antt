-- ===== src/PlainClients.antt =====
-- The clients of linux_io/2.nonblocking and linux_io/3.io_multiplexing/{select,poll,epoll}: five
-- sockets that do not block, connected by one thread. This file has what three of them share word
-- for word: the greeting of a socket that can be written.
pub mod OnSelect
pub mod OnPoll
pub mod OnEpoll
pub mod Nonblocking
pub mod Checked
use practice_code_c_cpp.Prelude.{
  ℕ, zero, suc, ◌+◌, ◌/◌, ◌%◌, ◌*◌, List, [], ◌∷◌, ◌++◌, ltb, ◌==◌, if◌then◌else◌,
}
use practice_code_c_cpp.Posix.{
  M, pure, ask, ◌>>=◌, Call, Memory, bytes, failed, memory, minus_one, sock_stream, sock_nonblock,
}
use practice_code_c_cpp.Posix.Sockets.{store, zeroed}

-- CLIENT_NUM
abbrev pub client_num : ℕ
client_num = 5

-- SOCK_STREAM | SOCK_NONBLOCK
abbrev pub stream_nonblock : ℕ
stream_nonblock = sock_stream + sock_nonblock

-- std::to_string of an int that is not negative: at most ten digits.
decimal : ℕ → ℕ → List ℕ
decimal zero n = []
decimal (suc left) n =
    let front = decimal left (n / 10) in
    if ltb n 10 then (0x30 + n) ∷ [] else front ++ ((0x30 + n % 10) ∷ [])

unfoldable pub to_string : ℕ → List ℕ
unfolding decimal
to_string n = decimal 10 n

-- "hello from fd" + std::to_string(fd), in a cleared buffer
abbrev pub greeting : ℕ → List ℕ
greeting fd = store zeroed (
    (b'h' ∷ b'e' ∷ b'l' ∷ b'l' ∷ b'o' ∷ b' ' ∷ b'f' ∷ b'r' ∷ b'o' ∷ b'm' ∷ b' ' ∷ b'f' ∷ b'd' ∷ [])
    ++ to_string fd)

-- What getsockopt leaves in connect_ret, which is -1 before.
abbrev pub so_error : Memory → ℕ
so_error (bytes (e ∷ bs)) = e
so_error (bytes []) = minus_one
so_error Memory.nothing = minus_one
so_error (Memory.ready es) = minus_one

-- A socket that can be written: the greeting is sent if it is connected. A send that fails is only
-- reported.
unfoldable pub greet : ℕ → M (Unit {0})
greet fd = do
  ret ← ask (Call.getsockopt_error fd)
  if failed ret
      then pure tt
      else if so_error (memory ret) == 0
      then (ask (Call.send fd (greeting fd)) >>= λ r. pure tt)
      else pure tt
