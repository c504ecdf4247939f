-- ===== src/BlockingServer.antt =====
-- linux_io/1.blocking/server.cpp: one connection after the other, over a unix domain socket or over
-- TCP, each served by blocking calls.
pub mod Echo
pub mod Stale
use practice_code_c_cpp.Prelude.{ℕ, List, ◌==◌, if◌then◌else◌, take}
use practice_code_c_cpp.Posix.{
  M, pure, ask, tell, ◌>>=◌, ◌>>◌, Call, Address, failed, value, memory, bytes_of, int_of,
  sock_stream,
}
use practice_code_c_cpp.Posix.Flow.{Flow, continue, break, while}
use practice_code_c_cpp.Posix.Sockets.{buffer_size, store, zeroed, handle_error}

abbrev pub listen_backlog : ℕ
listen_backlog = 2

-- The path of the socket is a constant of the source.
unfoldable listen_unix_domain : M ℕ
listen_unix_domain = do
  sfd ← ask (Call.socket_unix sock_stream)
  if failed sfd then handle_error else do
    bound ← ask (Call.bind_unix (value sfd))
    if failed bound then handle_error else do
      ret ← ask (Call.listen (value sfd) listen_backlog)
      if failed ret then handle_error else pure (value sfd)

-- The result of socket is not tested.
unfoldable pub listen_inet_port : M ℕ
listen_inet_port = do
  sfd ← ask (Call.socket sock_stream)
  bound ← ask (Call.bind (int_of sfd) Address.any 8080)
  if failed bound then handle_error else do
    ret ← ask (Call.listen (int_of sfd) listen_backlog)
    if failed ret then handle_error else pure (int_of sfd)

-- A round of the inner loop: the buffer is cleared, and as many bytes are sent as were received.
unfoldable pub unix_round : ℕ → Unit {0} → M (Flow (Unit {0}) (Unit {0}))
unix_round cfd _ = do
  r ← ask (Call.recv cfd buffer_size)
  if failed r
      then pure (continue tt)
      else if value r == 0
      then pure (break tt)
      else (tell (Call.send cfd (take (value r) (store zeroed (bytes_of (memory r)))))
          >> pure (continue tt))

-- A round of the outer loop; an accept that fails ends the function with 0.
unfoldable pub unix_accept_round : ℕ → Unit {0} → M (Flow (Unit {0}) ℕ)
unix_accept_round sfd _ = do
  cfd ← ask (Call.accept sfd)
  if failed cfd
      then pure (break 0)
      else do while (unix_round (value cfd)) tt; tell (Call.close (value cfd)); pure (continue tt)

unfoldable pub accept_and_recv_unix_domain : ℕ → M ℕ
accept_and_recv_unix_domain sfd = while (unix_accept_round sfd) tt

-- The same over TCP: `bzero(buf, 0)` clears nothing, and the whole buffer is sent. The buffer is
-- the loop's variable.
unfoldable pub inet_round : ℕ → List ℕ → M (Flow (List ℕ) (Unit {0}))
inet_round cfd buf = do
  r ← ask (Call.recv cfd buffer_size)
  if failed r
      then pure (continue buf)
      else if value r == 0
      then pure (break tt)
      else (let buf₁ = store buf (bytes_of (memory r)) in
          tell (Call.send cfd buf₁) >> pure (continue buf₁))

-- `garbage` is what the buffer of each connection, which is not initialised, holds at first.
unfoldable pub inet_accept_round : (ℕ → List ℕ) → ℕ → Unit {0} → M (Flow (Unit {0}) ℕ)
inet_accept_round garbage sfd _ = do
  cfd ← ask (Call.accept sfd)
  if failed cfd then pure (break 0) else do
    while (inet_round (value cfd)) (garbage (value cfd))
    tell (Call.close (value cfd))
    pure (continue tt)

unfoldable pub accept_and_recv_inet : (ℕ → List ℕ) → ℕ → M ℕ
accept_and_recv_inet garbage sfd = while (inet_accept_round garbage sfd) tt

unfoldable pub main : (ℕ → List ℕ) → M ℕ
main garbage = do sfd ← listen_inet_port; accept_and_recv_inet garbage sfd
