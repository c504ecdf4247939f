-- ===== src/EdgeServer.antt =====
-- linux_io/3.io_multiplexing/epoll/server.cpp: one thread that waits by epoll, edge or level
-- triggered as `et_mode` says. (ListenINET is Posix.Sockets.listen_inet, MakeFdNonblocking
-- Posix.Sockets.make_nonblocking.)
pub mod Echo
pub mod Drain
use practice_code_c_cpp.Prelude.{
  ℕ, ◌+◌, Bool, true, false, ◌&&◌, not, List, ◌==◌, if◌then◌else◌, take,
}
use practice_code_c_cpp.Posix.{
  M, pure, ask, tell, ◌>>=◌, ◌>>◌, Call, Event, failed, nonzero, positive, value, errno, int_of,
  memory, bytes_of, events_of, would_block, has, epollin, epollet, ctl_add, ctl_del, sock_stream,
}
use practice_code_c_cpp.Posix.Flow.{Flow, continue, break, while, for_each}
use practice_code_c_cpp.Posix.Sockets.{
  buffer_size, store, zeroed, handle_error, listen_inet, make_nonblocking,
}

abbrev pub epoll_max_events : ℕ
epoll_max_events = 10

-- What each descriptor is watched for.
abbrev pub event : Bool → ℕ
event et_mode = if et_mode then epollin + epollet else epollin

abbrev pub nonblocking_if : Bool → ℕ → M (Unit {0})
nonblocking_if et_mode fd = if et_mode then make_nonblocking fd else pure tt

-- An accept that fails is only reported.
unfoldable pub accept_client : Bool → ℕ → ℕ → M (Unit {0})
accept_client et_mode efd sfd = do
  cfd ← ask (Call.accept sfd)
  if failed cfd then pure tt else do
    nonblocking_if et_mode (value cfd)
    ret ← ask (Call.epoll_ctl efd ctl_add (value cfd) (event et_mode))
    if nonzero ret then handle_error else pure tt

unfoldable pub disconnect : ℕ → Event → M (Unit {0})
disconnect efd c_ev = do
  ret ← ask (Call.epoll_ctl efd ctl_del c_ev.fd c_ev.events)
  if nonzero ret then handle_error else tell (Call.close c_ev.fd)

-- A round of the do-while loop over one connection. `ret` is overwritten by the result of send, so
-- that the loop's condition reads the size that was received.
unfoldable pub recv_round : Bool → ℕ → Event → Unit {0} → M (Flow (Unit {0}) (Unit {0}))
recv_round et_mode efd c_ev _ = do
  recv_size ← ask (Call.recv c_ev.fd buffer_size)
  if failed recv_size
      then (if would_block (errno recv_size)
          then pure (break tt)
          else (disconnect efd c_ev >> pure (break tt)))
      else if value recv_size == 0
      then (disconnect efd c_ev >> pure (break tt))
      else (do
        ret ← ask (Call.send c_ev.fd (store zeroed (bytes_of (memory recv_size))))
        if failed ret
            then pure (break tt)
            else if et_mode && positive recv_size
            then pure (continue tt)
            else pure (break tt))

unfoldable pub handle_event : Bool → ℕ → ℕ → Event → M (Unit {0})
handle_event et_mode efd sfd c_ev =
    if has c_ev.events epollin
    then (if c_ev.fd == sfd
        then accept_client et_mode efd sfd
        else while (recv_round et_mode efd c_ev) tt)
    else pure tt

unfoldable pub wait_round : Bool → ℕ → ℕ → Unit {0} → M (Flow (Unit {0}) (Unit {0}))
wait_round et_mode efd sfd _ = do
  ret ← ask (Call.epoll_wait efd epoll_max_events)
  if failed ret then handle_error else if value ret == 0 then pure (continue tt) else (do
    for_each (handle_event et_mode efd sfd) (take (value ret) (events_of (memory ret)))
    pure (continue tt))

-- The result of epoll_create is not tested.
unfoldable pub epoll_inet : ℕ → Bool → M (Unit {0})
epoll_inet sfd et_mode = do
  tell Call.ignore_sigpipe
  efd ← ask (Call.epoll_create 10)
  nonblocking_if et_mode sfd
  ret ← ask (Call.epoll_ctl (int_of efd) ctl_add sfd (event et_mode))
  if nonzero ret then handle_error else while (wait_round et_mode (int_of efd) sfd) tt

unfoldable pub main : M (Unit {0})
main = do sfd ← listen_inet sock_stream 2; epoll_inet sfd true
