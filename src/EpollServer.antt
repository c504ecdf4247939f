-- ===== src/EpollServer.antt =====
-- linux_io/3.io_multiplexing/epoll_demo/epoll_server.cpp: the class EpollTcpServer, one edge
-- triggered epoll loop in a thread of its own, and the echo callback of main.
pub mod Termination
pub mod Echo
pub mod Accept
pub mod Lifecycle
pub mod Reading
use practice_code_c_cpp.Prelude.{
  ℕ, ◌+◌, ◌-◌, ◌^◌, Bool, true, false, ◌||◌, Option, none, some, List, take, ◌==◌, if◌then◌else◌,
}
use practice_code_c_cpp.Posix.{
  M, pure, halt, aborted, exited, ask, tell, ◌>>=◌, ◌>>◌, Call, Address, Reply, Event, Int32,
  unless_negative, failed, nonzero, positive, value, errno, memory, bytes_of, events_of,
  would_block, has, ctl_add, epollin, epollout, epollerr, epollhup, epollrdhup, epollet,
  sock_stream, o_nonblock, flag_or, minus_one, somaxconn,
}
use practice_code_c_cpp.Posix.Flow.{Flow, continue, break, while, for_each}

-- k_max_events = 100 and k_epoll_wait_time = 10
abbrev pub k_epoll_wait_time : ℕ
k_epoll_wait_time = 10

abbrev pub k_max_events : ℕ
k_max_events = 100

abbrev pub read_buf_size : ℕ
read_buf_size = 4096

-- A descriptor of -1 is `minus_one`.
pub record Packet : Type 0 where
  pub fd : ℕ
  pub msg : List ℕ

abbrev pub Callback : Type 0
Callback = Packet → M (Unit {0})

pub record Server : Type 0 where
  pub local_ip : List ℕ
  pub local_port : ℕ
  pub handle : ℕ
  pub efd : ℕ
  -- whether th_loop_ holds a thread
  pub th_loop : Bool
  pub loop_flag : Bool
  pub recv_callback : Option Callback

unfoldable pub new_server : List ℕ → ℕ → Server
new_server ip port = record {
  local_ip = ip;
  local_port = port;
  handle = minus_one;
  efd = minus_one;
  th_loop = false;
  loop_flag = true;
  recv_callback = none;
}

unfoldable pub create_epoll : Server → M (Int32 × Server)
create_epoll srv = do
  r ← ask (Call.epoll_create 1)
  if failed r then pure (none, srv) else pure (some (value r), record srv { efd = value r })

unfoldable pub create_socket : Server → M Int32
create_socket srv = do
  listenfd ← ask (Call.socket sock_stream)
  if failed listenfd then pure none else do
    r ← ask (Call.bind (value listenfd) (Address.ip srv.local_ip) srv.local_port)
    if nonzero r
        then (tell (Call.close (value listenfd)) >> pure none)
        else pure (some (value listenfd))

unfoldable pub make_socket_nonblock : ℕ → M Int32
make_socket_nonblock fd = do
  flags ← ask (Call.getfl fd)
  if failed flags then pure none else do
    r ← ask (Call.setfl fd (flag_or (value flags) o_nonblock))
    if failed r then pure none else pure (some 0)

unfoldable pub listen : ℕ → M Int32
listen listenfd = do
  r ← ask (Call.listen listenfd somaxconn)
  if failed r then pure none else pure (some 0)

unfoldable pub update_epoll_events : ℕ → ℕ → ℕ → ℕ → M Int32
update_epoll_events efd op fd events = do
  r ← ask (Call.epoll_ctl efd op fd events)
  if failed r then pure none else pure (some 0)

-- assert(!th_loop_), then the thread of EpollLoop is made and detached.
unfoldable pub spawn_loop : Server → M (Bool × Server)
spawn_loop srv =
    if srv.th_loop
    then halt aborted
    else (tell Call.spawn >> pure (true, record srv { th_loop = true }))

unfoldable pub start : Server → M (Bool × Server)
start srv = do
  (epollfd, srv₁) ← create_epoll srv
  unless_negative epollfd (pure (false, srv₁)) λ _. do
    lfd ← create_socket srv₁
    unless_negative lfd (pure (false, srv₁)) λ listenfd. do
      mr ← make_socket_nonblock listenfd
      unless_negative mr (pure (false, srv₁)) λ _. do
        lr ← listen listenfd
        unless_negative lr (pure (false, srv₁)) λ _. do
          let srv₂ = record srv₁ { handle = listenfd }
          er ← update_epoll_events srv₂.efd ctl_add listenfd (epollin + epollet)
          unless_negative er (tell (Call.close listenfd) >> pure (false, srv₂)) λ _. spawn_loop srv₂

-- assert(!recv_callback_)
unfoldable pub register_on_recv_callback : Server → Callback → M Server
register_on_recv_callback srv callback = elim srv.recv_callback [
  | none ↦ pure (record srv { recv_callback = some callback })
  | some _ ↦ halt aborted
]

-- assert(recv_callback_)
unfoldable pub unregister_on_recv_callback : Server → M Server
unregister_on_recv_callback srv = elim srv.recv_callback [
  | none ↦ halt aborted
  | some _ ↦ pure (record srv { recv_callback = none })
]

unfoldable pub stop : Server → M (Bool × Server)
stop srv = do
  let srv₁ = record srv { loop_flag = false }
  tell (Call.close srv₁.handle)
  tell (Call.close srv₁.efd)
  srv₂ ← unregister_on_recv_callback srv₁
  pure (true, srv₂)

-- The rest of a round for a connection that was accepted.
unfoldable pub adopt : ℕ → ℕ → M (Flow (Unit {0}) (Unit {0}))
adopt efd cli_fd = do
  r ← ask (Call.getpeername cli_fd)
  if failed r then pure (continue tt) else do
    mr ← make_socket_nonblock cli_fd
    unless_negative mr (tell (Call.close cli_fd) >> pure (continue tt)) λ _. do
      er ← update_epoll_events efd ctl_add cli_fd (epollin + epollrdhup + epollet)
      unless_negative er (tell (Call.close cli_fd) >> pure (continue tt)) λ _. pure (continue tt)

unfoldable pub accept_round : Server → Unit {0} → M (Flow (Unit {0}) (Unit {0}))
accept_round srv _ = do
  cli ← ask (Call.accept srv.handle)
  if failed cli
      then (if would_block (errno cli) then pure (break tt) else pure (continue tt))
      else adopt srv.efd (value cli)

unfoldable pub on_socket_accept : Server → M (Unit {0})
on_socket_accept srv = while (accept_round srv) tt

-- `if (recv_callback_) recv_callback_(data)`
unfoldable pub deliver : Server → Packet → M (Unit {0})
deliver srv packet = elim srv.recv_callback [ none ↦ pure tt | some callback ↦ callback packet ]

-- `while ((n = read(...)) > 0)`: the loop ends with the result that is not positive.
unfoldable pub read_round : Server → ℕ → Unit {0} → M (Flow (Unit {0}) Reply)
read_round srv fd _ = do
  n ← ask (Call.read fd read_buf_size)
  if positive n
      then (deliver srv (record { fd = fd; msg = take (value n) (bytes_of (memory n)) })
          >> pure (continue tt))
      else pure (break n)

unfoldable pub on_socket_read : Server → ℕ → M (Unit {0})
on_socket_read srv fd = do
  n ← while (read_round srv fd) tt
  if failed n
      then (if would_block (errno n) then pure tt else tell (Call.close fd))
      else tell (Call.close fd)

-- It only prints.
unfoldable pub on_socket_write : ℕ → M (Unit {0})
on_socket_write fd = pure tt

unfoldable pub send_data : Packet → M Int32
send_data packet = if packet.fd == minus_one then pure none else do
  r ← ask (Call.write packet.fd packet.msg)
  if failed r
      then (if would_block (errno r) then pure none else (tell (Call.close packet.fd) >> pure none))
      else pure (some (value r))

unfoldable pub dispatch : Server → Event → M (Unit {0})
dispatch srv ev =
    if has ev.events epollerr || has ev.events epollhup
    then tell (Call.close ev.fd)
    else if has ev.events epollrdhup
    then tell (Call.close ev.fd)
    else if has ev.events epollin
    then (if ev.fd == srv.handle then on_socket_accept srv else on_socket_read srv ev.fd)
    else if has ev.events epollout
    then on_socket_write ev.fd
    else pure tt

-- loop_flag_ is read anew in each round: another thread may have cleared it.
unfoldable pub loop_round : Server → Unit {0} → M (Flow (Unit {0}) (Unit {0}))
loop_round srv _ = do
  flag ← ask Call.load_flag
  if nonzero flag
      then (do
        num ← ask (Call.epoll_wait srv.efd k_max_events)
        for_each (dispatch srv) (take (value num) (events_of (memory num)))
        pure (continue tt))
      else pure (break tt)

unfoldable pub epoll_loop : Server → M (Unit {0})
epoll_loop srv = do
  alive_events ← ask Call.calloc
  if failed alive_events then pure tt else while (loop_round srv) tt

-- The lambda of main: `epoll_server->SendData(data)`.
unfoldable pub echo : Callback
echo packet = send_data packet >>= λ _. pure tt

-- A round of main's loop: a second passes.
unfoldable pub sleep_round : Unit {0} → M (Flow (Unit {0}) (Unit {0}))
sleep_round _ = ask (Call.sleep 1) >>= λ _. pure (continue tt)

-- main with the address and the port that its arguments give. What it does behind its loop is never
-- reached.
unfoldable pub main : List ℕ → ℕ → M (Unit {0})
main local_ip local_port = do
  srv ← register_on_recv_callback (new_server local_ip local_port) echo
  (started, srv₁) ← start srv
  if started then while sleep_round tt else halt (exited 1)
