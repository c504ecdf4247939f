-- ===== src/EpollClient.antt =====
-- linux_io/3.io_multiplexing/epoll_demo/epoll_client.cpp: the class EpollTcpClient, whose loop reads
-- in a thread of its own what the server sends, and main, which sends what is typed. What the file
-- has in common with epoll_server.cpp word for word is taken from there: Packet, the callback's
-- type, UpdateEpollEvents.
pub mod Reading
pub mod Typing
pub mod Starting
use practice_code_c_cpp.Prelude.{
  ℕ, ◌+◌, Bool, true, false, ◌||◌, Option, none, some, List, [], take, if◌then◌else◌,
}
use practice_code_c_cpp.Posix.{
  M, pure, halt, aborted, exited, ask, tell, ◌>>=◌, ◌>>◌, Call, Address, Memory, bytes, Reply,
  Event, Int32, unless_negative, failed, nonzero, positive, value, errno, memory, bytes_of,
  events_of, would_block, has, ctl_add, epollin, epollout, epollerr, epollhup, epollrdhup, epollet,
  sock_stream, minus_one,
}
use practice_code_c_cpp.Posix.Flow.{Flow, continue, break, while, for_each}
use practice_code_c_cpp.EpollServer.{
  Packet, Callback, update_epoll_events, k_max_events, read_buf_size,
}

pub record Client : Type 0 where
  pub server_ip : List ℕ
  pub server_port : ℕ
  pub handle : ℕ
  pub efd : ℕ
  -- whether th_loop_ holds a thread
  pub th_loop : Bool
  pub loop_flag : Bool
  pub recv_callback : Option Callback

unfoldable pub new_client : List ℕ → ℕ → Client
new_client ip port = record {
  server_ip = ip;
  server_port = port;
  handle = minus_one;
  efd = minus_one;
  th_loop = false;
  loop_flag = true;
  recv_callback = none;
}

unfoldable pub create_epoll : Client → M (Int32 × Client)
create_epoll cli = do
  r ← ask (Call.epoll_create 1)
  if failed r then pure (none, cli) else pure (some (value r), record cli { efd = value r })

unfoldable pub create_socket : M Int32
create_socket = do
  cli_fd ← ask (Call.socket sock_stream)
  if failed cli_fd then pure none else pure (some (value cli_fd))

unfoldable pub connect : Client → ℕ → M Int32
connect cli cli_fd = do
  r ← ask (Call.connect cli_fd (Address.ip cli.server_ip) cli.server_port)
  if failed r then pure none else pure (some 0)

-- assert(!th_loop_), then the thread of EpollLoop is made and detached.
unfoldable pub spawn_loop : Client → M (Bool × Client)
spawn_loop cli =
    if cli.th_loop
    then halt aborted
    else (tell Call.spawn >> pure (true, record cli { th_loop = true }))

unfoldable pub start : Client → M (Bool × Client)
start cli = do
  (epollfd, cli₁) ← create_epoll cli
  unless_negative epollfd (pure (false, cli₁)) λ _. do
    fd ← create_socket
    unless_negative fd (pure (false, cli₁)) λ cli_fd. do
      lr ← connect cli₁ cli_fd
      unless_negative lr (pure (false, cli₁)) λ _. do
        let cli₂ = record cli₁ { handle = cli_fd }
        er ← update_epoll_events cli₂.efd ctl_add cli_fd (epollin + epollet)
        unless_negative er (tell (Call.close cli_fd) >> pure (false, cli₂)) λ _. spawn_loop cli₂

-- assert(!recv_callback_)
unfoldable pub register_on_recv_callback : Client → Callback → M Client
register_on_recv_callback cli callback = elim cli.recv_callback [
  | none ↦ pure (record cli { recv_callback = some callback })
  | some _ ↦ halt aborted
]

-- assert(recv_callback_)
unfoldable pub unregister_on_recv_callback : Client → M Client
unregister_on_recv_callback cli = elim cli.recv_callback [
  | none ↦ halt aborted
  | some _ ↦ pure (record cli { recv_callback = none })
]

unfoldable pub stop : Client → M (Bool × Client)
stop cli = do
  let cli₁ = record cli { loop_flag = false }
  tell (Call.close cli₁.handle)
  tell (Call.close cli₁.efd)
  cli₂ ← unregister_on_recv_callback cli₁
  pure (true, cli₂)

-- `if (recv_callback_) recv_callback_(data)`
unfoldable pub deliver : Client → Packet → M (Unit {0})
deliver cli packet = elim cli.recv_callback [ none ↦ pure tt | some callback ↦ callback packet ]

unfoldable pub read_round : Client → ℕ → Unit {0} → M (Flow (Unit {0}) Reply)
read_round cli fd _ = do
  n ← ask (Call.read fd read_buf_size)
  if positive n
      then (deliver cli (record { fd = fd; msg = take (value n) (bytes_of (memory n)) })
          >> pure (continue tt))
      else pure (break n)

unfoldable pub on_socket_read : Client → ℕ → M (Unit {0})
on_socket_read cli fd = do
  n ← while (read_round cli fd) tt
  if failed n
      then (if would_block (errno n) then pure tt else tell (Call.close fd))
      else tell (Call.close fd)

-- It only prints.
unfoldable pub on_socket_write : ℕ → M (Unit {0})
on_socket_write fd = pure tt

-- The packet's own descriptor is not used.
unfoldable pub send_data : Client → Packet → M Int32
send_data cli packet = do
  r ← ask (Call.write cli.handle packet.msg)
  if failed r
      then (if would_block (errno r)
          then pure none
          else (tell (Call.close cli.handle) >> pure none))
      else pure (some (value r))

unfoldable pub dispatch : Client → Event → M (Unit {0})
dispatch cli ev =
    if has ev.events epollerr || has ev.events epollhup
    then tell (Call.close ev.fd)
    else if has ev.events epollrdhup
    then tell (Call.close ev.fd)
    else if has ev.events epollin
    then on_socket_read cli ev.fd
    else if has ev.events epollout
    then on_socket_write ev.fd
    else pure tt

-- loop_flag_ is read anew in each round: another thread may have cleared it.
unfoldable pub loop_round : Client → Unit {0} → M (Flow (Unit {0}) (Unit {0}))
loop_round cli _ = do
  flag ← ask Call.load_flag
  if nonzero flag
      then (do
        num ← ask (Call.epoll_wait cli.efd k_max_events)
        for_each (dispatch cli) (take (value num) (events_of (memory num)))
        pure (continue tt))
      else pure (break tt)

unfoldable pub epoll_loop : Client → M (Unit {0})
epoll_loop cli = do
  alive_events ← ask Call.calloc
  if failed alive_events then pure tt else while (loop_round cli) tt

-- The lambda of main: it only prints.
unfoldable pub recv_call : Callback
recv_call packet = pure tt

-- What std::getline leaves in msg: it writes a line, or at the end of the input nothing.
abbrev pub line_in : List ℕ → Memory → List ℕ
line_in msg (bytes bs) = bs
line_in msg (Memory.ready es) = msg
line_in msg Memory.nothing = msg

-- A round of main's loop, with msg before it.
unfoldable pub input_round : Client → List ℕ → M (Flow (List ℕ) (Unit {0}))
input_round cli msg = do
  r ← ask Call.getline
  let line = line_in msg (memory r)
  sent ← send_data cli (record { fd = minus_one; msg = line })
  pure (continue line)

-- main with the address and the port that its arguments give.
unfoldable pub main : List ℕ → ℕ → M (Unit {0})
main server_ip server_port = do
  cli ← register_on_recv_callback (new_client server_ip server_port) recv_call
  (started, cli₁) ← start cli
  if started then while (input_round cli₁) [] else halt (exited 1)
