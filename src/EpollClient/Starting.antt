-- ===== src/EpollClient/Starting.antt =====
-- EpollTcpClient::Start: what a success means, and what a failure leaves behind.
use practice_code_c_cpp.Prelude.{
  ℕ, ◌+◌, ◌≡◌, ◌≢◌, refl, Bool, true, false, [], ◌∷◌, some, none, arith,
}
use practice_code_c_cpp.Posix.{
  M, Script, Log, asked, told, Call, Address, done, fail, Memory, returned, ctl_add, epollin,
  epollet, sock_stream, ◌>>=◌,
}
use practice_code_c_cpp.Posix.Views.{closed}
use practice_code_c_cpp.EpollServer.{Callback, update_epoll_events}
use practice_code_c_cpp.EpollClient.{
  Client, start, create_epoll, create_socket, connect, spawn_loop, stop,
  unregister_on_recv_callback,
}

-- A run of Start that succeeded: the results of its four calls, what it leaves in the client, and
-- the calls in the log, newest first.
pub record Started (cli cli' : Client) (s s' : Script) (l l' : Log) : Type 0 where
  pub epoll : ℕ
  pub cli_fd : ℕ
  pub connect_ret : ℕ
  pub ctl_ret : ℕ
  pub m₁ : Memory
  pub m₂ : Memory
  pub m₃ : Memory
  pub m₄ : Memory
  pub replies : s ≡ done epoll m₁ ∷ done cli_fd m₂ ∷ done connect_ret m₃ ∷ done ctl_ret m₄ ∷ s'
  pub client : cli' ≡ record cli { handle = cli_fd; efd = epoll; th_loop = true }
  pub calls :
      l'
      ≡ told Call.spawn
        ∷ asked (Call.epoll_ctl epoll ctl_add cli_fd (epollin + epollet)) (done ctl_ret m₄)
        ∷ asked
            (Call.connect cli_fd (Address.ip cli.server_ip) cli.server_port)
            (done connect_ret m₃)
        ∷ asked (Call.socket sock_stream) (done cli_fd m₂)
        ∷ asked (Call.epoll_create 1) (done epoll m₁)
        ∷ l

-- Start returns true only if each of its four calls succeeds. Then the client's socket is connected
-- to the server's address and under the epoll instance, edge triggered; the client knows both, and
-- the loop's thread runs.
client_start-true :
    (cli cli' : Client) (s s' : Script) (l l' : Log)
    → start cli s l ≡ returned (true, cli') s' l'
    → Started cli cli' s s' l l'
unfolding ◌>>=◌ start create_epoll create_socket connect update_epoll_events spawn_loop
client_start-true cli cli' [] s' l l' q = cc
client_start-true cli cli' (fail e ∷ s) s' l l' q = cc
client_start-true cli cli' (done e m₁ ∷ []) s' l l' q = cc
client_start-true cli cli' (done e m₁ ∷ fail x ∷ s) s' l l' q = cc
client_start-true cli cli' (done e m₁ ∷ done h m₂ ∷ []) s' l l' q = cc
client_start-true cli cli' (done e m₁ ∷ done h m₂ ∷ fail x ∷ s) s' l l' q = cc
client_start-true cli cli' (done e m₁ ∷ done h m₂ ∷ done x m₃ ∷ []) s' l l' q = cc
client_start-true cli cli' (done e m₁ ∷ done h m₂ ∷ done x m₃ ∷ fail y ∷ s) s' l l' q = cc
client_start-true cli cli' (done e m₁ ∷ done h m₂ ∷ done x m₃ ∷ done y m₄ ∷ s) s' l l' q = record {
  epoll = e;
  cli_fd = h;
  connect_ret = x;
  ctl_ret = y;
  m₁ = m₁;
  m₂ = m₂;
  m₃ = m₃;
  m₄ = m₄;
  replies = ground arith;
  client = ground arith;
  calls = ground arith;
}

-- The life of a client whose Start fails: the destructor calls Stop.
abbrev pub start_then_stop : Client → M (Bool × Client)
start_then_stop cli = start cli >>= λ r. stop r.1

-- Where connect fails, Start returns false and forgets the socket that it opened: Stop closes the
-- handle from before and the epoll instance, and the socket stays open.
failed_connect_leaks :
    (cli : Client) (cb : Callback) (s : Script) (l : Log) (e h err : ℕ) (m₁ m₂ : Memory)
    → cli.recv_callback ≡ some cb
    → cli.handle ≢ h
    → e ≢ h
    → (r : Client) × (l' : Log) × (start_then_stop cli (done e m₁ ∷ done h m₂ ∷ fail err ∷ s) l
        ≡ returned (true, r) s l')
      × (closed h l' ≡ closed h l)
unfolding ◌>>=◌ start stop unregister_on_recv_callback create_epoll create_socket connect
    update_epoll_events spawn_loop
failed_connect_leaks cli cb s l e h err m₁ m₂ c n n' = (
  record cli { efd = e; loop_flag = false; recv_callback = none },
  told (Call.close e)
      ∷ told (Call.close cli.handle)
      ∷ asked (Call.connect h (Address.ip cli.server_ip) cli.server_port) (fail err)
      ∷ asked (Call.socket sock_stream) (done h m₂)
      ∷ asked (Call.epoll_create 1) (done e m₁)
      ∷ l,
  rw c refl,
  ground arith,
)
