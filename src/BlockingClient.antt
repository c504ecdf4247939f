-- ===== src/BlockingClient.antt =====
-- linux_io/1.blocking/client.cpp: one connection over a unix domain socket or TCP, with one request
-- at a time.
pub mod Lockstep
use practice_code_c_cpp.Prelude.{ℕ, List, [], ◌∷◌, ◌==◌, if◌then◌else◌}
use practice_code_c_cpp.Posix.{
  M, pure, ask, tell, ◌>>=◌, ◌>>◌, Call, Address, failed, nonzero, value, int_of, sock_stream,
}
use practice_code_c_cpp.Posix.Flow.{Flow, continue, break, while}
use practice_code_c_cpp.Posix.Sockets.{buffer_size, store, zeroed}

-- "hello", and the buffer that holds it.
abbrev pub hello : List ℕ
hello = 104 ∷ 101 ∷ 108 ∷ 108 ∷ 111 ∷ []

abbrev pub send_buf : List ℕ
send_buf = store zeroed hello

-- The results of send and recv are not read. The round waits for its recv.
unfoldable pub unix_round : ℕ → Unit {0} → M (Flow (Unit {0}) (Unit {0}))
unix_round fd _ = do
  tell (Call.send fd hello)
  ret ← ask (Call.recv fd buffer_size)
  tell (Call.sleep 10)
  pure (continue tt)

-- Any result of connect but 0 ends the program.
unfoldable pub connect_unix_domain : M (Unit {0})
connect_unix_domain = do
  fd ← ask (Call.socket_unix sock_stream)
  ret ← ask (Call.connect_unix (int_of fd))
  if nonzero ret then pure tt else while (unix_round (int_of fd)) tt

unfoldable pub inet_round : ℕ → Unit {0} → M (Flow (Unit {0}) (Unit {0}))
inet_round cfd _ = do
  sent ← ask (Call.send cfd send_buf)
  if failed sent then (tell (Call.sleep 10) >> pure (continue tt)) else do
    ret ← ask (Call.recv cfd buffer_size)
    if failed ret
        then (tell (Call.sleep 10) >> pure (continue tt))
        else if value ret == 0
        then pure (break tt)
        else (tell (Call.sleep 10) >> pure (continue tt))

unfoldable pub connect_inet : M (Unit {0})
connect_inet = do
  cfd ← ask (Call.socket sock_stream)
  ret ← ask (Call.connect (int_of cfd) Address.any 8080)
  if nonzero ret then pure tt else while (inet_round (int_of cfd)) tt

abbrev pub main : M (Unit {0})
main = connect_inet
