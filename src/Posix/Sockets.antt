-- ===== src/Posix/Sockets.antt =====
-- What the plain socket servers share: their buffer, and the listener that several files set up in
-- the same words (ListenINET of linux_io/3.io_multiplexing/poll/server.cpp).
use practice_code_c_cpp.Prelude.{ℕ, ◌++◌, List, length, drop, replicate, if◌then◌else◌}
use practice_code_c_cpp.Posix.{
  M, pure, halt, exited, ask, tell, ◌>>=◌, Call, Address, int_of, nonzero, flag_or, o_nonblock,
}
use practice_code_c_cpp.Posix.Uses.{Uses, uses_rules, Uses-halt}

abbrev pub buffer_size : ℕ
buffer_size = 1024

-- A buffer after a call wrote `bytes` to its start.
abbrev pub store : List ℕ → List ℕ → List ℕ
store buf bytes = bytes ++ drop (length bytes) buf

-- After bzero or memset.
abbrev pub zeroed : List ℕ
zeroed = replicate buffer_size 0

-- handle_error(msg): perror and exit(EXIT_FAILURE).
unfoldable pub handle_error : {A : Type 0} → M A
handle_error = halt (exited 1)

-- socket, bind to any address and port 8080, listen. The result of socket is not tested.
unfoldable pub listen_inet : ℕ → ℕ → M ℕ
listen_inet type backlog = do
  sfd ← ask (Call.socket type)
  bound ← ask (Call.bind (int_of sfd) Address.any 8080)
  if nonzero bound then handle_error else do
    ret ← ask (Call.listen (int_of sfd) backlog)
    if nonzero ret then handle_error else pure (int_of sfd)

-- fcntl twice, with no test of the results.
unfoldable pub make_nonblocking : ℕ → M (Unit {0})
make_nonblocking fd = do
  origin_flags ← ask (Call.getfl fd)
  tell (Call.setfl fd (flag_or (int_of origin_flags) o_nonblock))

pub listen_inet-Uses : (type backlog : ℕ) → Uses 1 (listen_inet type backlog)
unfolding listen_inet handle_error
listen_inet-Uses type backlog = search (uses_rules, Uses-halt) depth 9
