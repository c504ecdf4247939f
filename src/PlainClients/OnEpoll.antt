-- ===== src/PlainClients/OnEpoll.antt =====
-- linux_io/3.io_multiplexing/epoll/client.cpp, in both modes
use practice_code_c_cpp.Prelude.{ℕ, zero, suc, ◌+◌, Bool, ◌==◌, if◌then◌else◌, take}
use practice_code_c_cpp.Posix.{
  M, pure, ask, tell, ◌>>=◌, ◌>>◌, Call, Address, Event, failed, nonzero, value, errno, would_block,
  int_of, memory, events_of, has, epollin, epollout, ctl_add, ctl_del,
}
use practice_code_c_cpp.Posix.Flow.{Flow, continue, break, while, for_each}
use practice_code_c_cpp.Posix.Sockets.{buffer_size, handle_error}
use practice_code_c_cpp.PlainClients.{client_num, stream_nonblock, greet}

-- EPOLL_MAX_EVENTS
abbrev pub epoll_max_events : ℕ
epoll_max_events = 10

unfoldable pub open_one : ℕ → M (Unit {0})
open_one efd = do
  cfd ← ask (Call.socket stream_nonblock)
  if failed cfd then pure tt else do
    added ← ask (Call.epoll_ctl efd ctl_add (value cfd) (epollin + epollout))
    if nonzero added then handle_error else tell (Call.connect (value cfd) Address.any 8080)

unfoldable pub open_all : ℕ → ℕ → M (Unit {0})
open_all efd zero = pure tt
open_all efd (suc left) = open_one efd >> open_all efd left

unfoldable pub write_visit : Event → M (Unit {0})
write_visit ev = if has ev.events epollout then greet ev.fd else pure tt

unfoldable pub disconnect : ℕ → ℕ → M (Unit {0})
disconnect efd cfd = do
  ret ← ask (Call.epoll_ctl_none efd ctl_del cfd)
  if nonzero ret then handle_error else tell (Call.close cfd)

-- The body of the do loop, which goes on in edge triggered mode while data comes.
unfoldable pub recv_round : Bool → ℕ → ℕ → Unit {0} → M (Flow (Unit {0}) (Unit {0}))
recv_round et_mode efd cfd _ = do
  ret ← ask (Call.recv cfd buffer_size)
  if failed ret
      then (if would_block (errno ret)
          then pure (break tt)
          else (disconnect efd cfd >> pure (break tt)))
      else if value ret == 0
      then (disconnect efd cfd >> pure (break tt))
      else pure (if et_mode then continue tt else break tt)

unfoldable pub read_visit : Bool → ℕ → Event → M (Unit {0})
read_visit et_mode efd ev =
    if has ev.events epollin then while (recv_round et_mode efd ev.fd) tt else pure tt

unfoldable pub wait_round : Bool → ℕ → Unit {0} → M (Flow (Unit {0}) (Unit {0}))
wait_round et_mode efd _ = do
  ret ← ask (Call.epoll_wait efd epoll_max_events)
  if failed ret then handle_error else if value ret == 0 then pure (continue tt) else (do
    for_each write_visit (take (value ret) (events_of (memory ret)))
    for_each (read_visit et_mode efd) (take (value ret) (events_of (memory ret)))
    pure (continue tt))

-- PollClient(etMode): the result of epoll_create is not tested.
unfoldable pub epoll_client : Bool → M (Unit {0})
epoll_client et_mode = do
  efd ← ask (Call.epoll_create 10)
  open_all (int_of efd) client_num
  while (wait_round et_mode (int_of efd)) tt
