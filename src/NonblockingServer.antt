-- ===== src/NonblockingServer.antt =====
-- linux_io/2.nonblocking/server.cpp: one thread polls a nonblocking listener and, after each try, a
-- vector of nonblocking connections.
pub mod Tracking
use practice_code_c_cpp.Prelude.{
  ℕ, Bool, true, false, List, [], ◌∷◌, ◌++◌, ◌==◌, ◌+◌, if◌then◌else◌, keep_if,
}
use practice_code_c_cpp.Posix.{
  M, pure, ask, tell, ◌>>=◌, ◌>>◌, Call, Address, failed, value, errno, would_block, memory,
  bytes_of, int_of, sock_stream, sock_nonblock,
}
use practice_code_c_cpp.Posix.Flow.{Flow, continue, break, while}
use practice_code_c_cpp.Posix.Sockets.{buffer_size, store, zeroed, handle_error, make_nonblocking}

abbrev pub listen_backlog : ℕ
listen_backlog = 4

unfoldable pub nonblocking_listen_inet : M ℕ
nonblocking_listen_inet = do
  sfd ← ask (Call.socket (sock_stream + sock_nonblock))
  bound ← ask (Call.bind (int_of sfd) Address.any 8080)
  if failed bound then handle_error else do
    ret ← ask (Call.listen (int_of sfd) listen_backlog)
    if failed ret then handle_error else pure (int_of sfd)

-- One connection: whether it stays in the vector. The whole cleared buffer is sent back.
unfoldable pub visit : ℕ → M Bool
visit fd = do
  r ← ask (Call.recv fd buffer_size)
  if failed r
      then (if would_block (errno r) then pure true else (tell (Call.close fd) >> pure false))
      else (if value r == 0
          then (tell (Call.close fd) >> pure false)
          else (tell (Call.send fd (store zeroed (bytes_of (memory r)))) >> pure true))

-- The pass over the vector, with the connections that are left.
unfoldable pub recv_all : List ℕ → M (List ℕ)
recv_all [] = pure []
recv_all (fd ∷ rest) = do kept ← visit fd; rest₁ ← recv_all rest; pure (keep_if kept fd rest₁)

unfoldable pub accept_round : ℕ → List ℕ → M (Flow (List ℕ) ℕ)
accept_round sfd client_fds = do
  client_fd ← ask (Call.accept sfd)
  if failed client_fd
      then (if would_block (errno client_fd)
          then (recv_all client_fds >>= λ fds. pure (continue fds))
          else pure (break 0))
      else do
        make_nonblocking (value client_fd)
        fds ← recv_all (client_fds ++ value client_fd ∷ [])
        pure (continue fds)

unfoldable pub accept_and_recv : ℕ → M ℕ
accept_and_recv sfd = while (accept_round sfd) []

unfoldable pub main : M ℕ
main = do sfd ← nonblocking_listen_inet; accept_and_recv sfd
