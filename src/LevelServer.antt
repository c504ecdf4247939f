-- ===== src/LevelServer.antt =====
-- linux_event/libevent/1.common_epoll/server.cpp: one thread, level triggered epoll, blocking
-- sockets.
pub mod Echo
use practice_code_c_cpp.Prelude.{ℕ, ◌+◌, ◌||◌, List, ◌==◌, if◌then◌else◌, take}
use practice_code_c_cpp.Posix.{
  M, pure, ask, tell, ◌>>=◌, ◌>>◌, Call, Event, failed, nonzero, value, int_of, memory, bytes_of,
  events_of, epollin, epollout, ctl_add, ctl_del, sock_stream,
}
use practice_code_c_cpp.Posix.Flow.{Flow, continue, while, for_each}
use practice_code_c_cpp.Posix.Sockets.{buffer_size, store, zeroed, handle_error, listen_inet}

unfoldable pub handle_connection : ℕ → ℕ → M (Unit {0})
handle_connection efd sfd = do
  cfd ← ask (Call.accept sfd)
  if failed cfd then handle_error else do
    ret ← ask (Call.epoll_ctl efd ctl_add (value cfd) epollin)
    if nonzero ret then handle_error else pure tt

-- The end of a connection and an error are handled alike. The whole cleared buffer is sent back.
unfoldable pub handle_data : ℕ → ℕ → M (Unit {0})
handle_data efd cfd = do
  size ← ask (Call.recv cfd buffer_size)
  if failed size || value size == 0
      then (do
        ret ← ask (Call.epoll_ctl efd ctl_del cfd 0)
        if nonzero ret then handle_error else tell (Call.close cfd))
      else (do
        size₁ ← ask (Call.send cfd (store zeroed (bytes_of (memory size))))
        if failed size₁ then handle_error else pure tt)

unfoldable pub handle_event : ℕ → ℕ → Event → M (Unit {0})
handle_event efd sfd ev = if ev.fd == sfd then handle_connection efd sfd else handle_data efd ev.fd

unfoldable pub wait_round : ℕ → ℕ → Unit {0} → M (Flow (Unit {0}) (Unit {0}))
wait_round efd sfd _ = do
  ev_num ← ask (Call.epoll_wait efd 10)
  if failed ev_num then handle_error else do
    for_each (handle_event efd sfd) (take (value ev_num) (events_of (memory ev_num)))
    pure (continue tt)

-- The results of epoll_create and socket are not tested.
unfoldable pub main : M (Unit {0})
main = do
  efd ← ask (Call.epoll_create 10)
  sfd ← listen_inet sock_stream 2
  ret ← ask (Call.epoll_ctl (int_of efd) ctl_add sfd (epollin + epollout))
  if nonzero ret then handle_error else while (wait_round (int_of efd) sfd) tt
