-- ===== src/ReactorServer.antt =====
-- linux_event/libevent/2.single_reactor_single_worker/server.cpp: one thread with level triggered
-- epoll, where the data of an event points to a reactor_event on the heap, which says what handles
-- it. An access to a reactor_event that was freed, or never made, writes `stray` and stops the run.
pub mod Memory
pub mod Safety
pub mod Echo
use practice_code_c_cpp.Prelude.{
  ℕ, zero, suc, ◌+◌, ◌||◌, Option, none, some, List, [], ◌∷◌, ◌++◌, length, set, take, ◌==◌,
  if◌then◌else◌,
}
use practice_code_c_cpp.Posix.{
  M, pure, halt, aborted, ask, tell, ◌>>=◌, ◌>>◌, Call, Event, failed, nonzero, value, int_of,
  memory, bytes_of, events_of, epollin, epollout, ctl_add, ctl_del, sock_stream,
}
use practice_code_c_cpp.Posix.Flow.{Flow, continue, while}
use practice_code_c_cpp.Posix.Sockets.{buffer_size, store, zeroed, handle_error, listen_inet}

-- void (*callback)(int efd, epoll_event *ev)
pub data Callback : Type 0 where
  connection_handler data_handler : Callback

pub record ReactorEvent : Type 0 where
  pub client_fd : ℕ
  pub callback : Callback

-- What malloc gave, each at its own address; `none` was freed.
abbrev pub Heap : Type 0
Heap = List (Option ReactorEvent)

unfoldable pub lookup : Heap → ℕ → Option ReactorEvent
lookup [] p = none
lookup (o ∷ os) zero = o
lookup (o ∷ os) (suc p) = lookup os p

abbrev pub at_address : Option ReactorEvent → ℕ → M ReactorEvent
at_address none p = tell (Call.stray p) >> halt aborted
at_address (some rev) p = pure rev

-- `(reactor_event*)ev->data.ptr`, with an access to it
unfoldable pub deref : Heap → ℕ → M ReactorEvent
deref heap p = at_address (lookup heap p) p

-- The pointer that is put into the event, and the heap.
unfoldable pub bind_reactor_event : Heap → ℕ → Callback → ℕ × Heap
bind_reactor_event heap fd callback =
    (length heap, heap ++ some (record { client_fd = fd; callback = callback }) ∷ [])

unfoldable pub unbind_reactor_event : Heap → ℕ → Heap
unbind_reactor_event heap p = set heap p none

-- The end of a connection.
unfoldable pub disconnect : Heap → ℕ → Event → ReactorEvent → M Heap
disconnect heap efd ev rev = do
  ret ← ask (Call.epoll_ctl_ptr efd ctl_del rev.client_fd ev.events ev.fd)
  if nonzero ret
      then handle_error
      else (tell (Call.close rev.client_fd) >> pure (unbind_reactor_event heap ev.fd))

-- The whole cleared buffer is sent back, a second after it came.
unfoldable pub answer : Heap → ReactorEvent → List ℕ → M Heap
answer heap rev buf = do
  tell (Call.sleep 1)
  size ← ask (Call.send rev.client_fd buf)
  if failed size then handle_error else pure heap

-- The data of the event `ev` is in its field `fd`.
unfoldable pub handle_data : Heap → ℕ → Event → M Heap
handle_data heap efd ev = do
  rev ← deref heap ev.fd
  size ← ask (Call.recv rev.client_fd buffer_size)
  if failed size || value size == 0
      then disconnect heap efd ev rev
      else answer heap rev (store zeroed (bytes_of (memory size)))

unfoldable pub handle_connection : Heap → ℕ → Event → M Heap
handle_connection heap efd ev = do
  rev ← deref heap ev.fd
  cfd ← ask (Call.accept rev.client_fd)
  if failed cfd then handle_error else do
    let (ptr, heap₁) = bind_reactor_event heap (value cfd) data_handler
    ret ← ask (Call.epoll_ctl_ptr efd ctl_add (value cfd) epollin ptr)
    if nonzero ret then handle_error else pure heap₁

abbrev pub call : Callback → Heap → ℕ → Event → M Heap
call connection_handler = handle_connection
call data_handler = handle_data

-- `rev->callback(efd, ev)`
unfoldable pub handle_event : Heap → ℕ → Event → M Heap
handle_event heap efd ev = do rev ← deref heap ev.fd; call rev.callback heap efd ev

unfoldable pub handle_events : ℕ → Heap → List Event → M Heap
handle_events efd heap [] = pure heap
handle_events efd heap (ev ∷ evs) = do heap₁ ← handle_event heap efd ev; handle_events efd heap₁ evs

unfoldable pub wait_round : ℕ → Heap → M (Flow Heap (Unit {0}))
wait_round efd heap = do
  ev_num ← ask (Call.epoll_wait efd 10)
  if failed ev_num then handle_error else do
    heap₁ ← handle_events efd heap (take (value ev_num) (events_of (memory ev_num)))
    pure (continue heap₁)

-- The results of epoll_create and socket are not tested.
unfoldable pub main : M (Unit {0})
main = do
  efd ← ask (Call.epoll_create 10)
  sfd ← listen_inet sock_stream 2
  let (ptr, heap) = bind_reactor_event [] sfd connection_handler
  ret ← ask (Call.epoll_ctl_ptr (int_of efd) ctl_add sfd (epollin + epollout) ptr)
  if nonzero ret then handle_error else while (wait_round (int_of efd)) heap
