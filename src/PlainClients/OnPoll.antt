-- ===== src/PlainClients/OnPoll.antt =====
-- linux_io/3.io_multiplexing/poll/client.cpp
use practice_code_c_cpp.Prelude.{
  ℕ, zero, suc, Bool, true, false, List, [], ◌∷◌, ◌++◌, ◌==◌, if◌then◌else◌, keep_if,
}
use practice_code_c_cpp.Posix.{
  M, pure, ask, tell, ◌>>=◌, ◌>>◌, Call, Address, Event, failed, value, memory, events_of, has,
  pollin, epollout,
}
use practice_code_c_cpp.Posix.Flow.{Flow, continue, while, for_each}
use practice_code_c_cpp.Posix.Sockets.{buffer_size, handle_error}
use practice_code_c_cpp.PlainClients.{client_num, stream_nonblock, greet}

-- One socket of the first loop; one that cannot be made is passed over.
unfoldable pub open_one : List ℕ → M (List ℕ)
open_one fds = do
  cfd ← ask (Call.socket stream_nonblock)
  if failed cfd
      then pure fds
      else (tell (Call.connect (value cfd) Address.any 8080) >> pure (fds ++ (value cfd ∷ [])))

unfoldable pub open_all : ℕ → List ℕ → M (List ℕ)
open_all zero fds = pure fds
open_all (suc left) fds = open_one fds >>= open_all left

-- What poll leaves in revents of the element for `fd`.
abbrev pub revents : ℕ → List Event → ℕ
revents fd [] = 0
revents fd (e ∷ es) = if e.fd == fd then e.events else revents fd es

-- The first pass: POLLOUT is 4.
unfoldable pub write_visit : List Event → ℕ → M (Unit {0})
write_visit es fd = if has (revents fd es) epollout then greet fd else pure tt

-- The second pass: whether the element stays in the vector.
unfoldable pub read_visit : List Event → ℕ → M Bool
read_visit es fd =
    if has (revents fd es) pollin
    then (do
      ret ← ask (Call.recv fd buffer_size)
      if failed ret
          then pure true
          else if value ret == 0
          then (tell (Call.close fd) >> pure false)
          else pure true)
    else pure true

unfoldable pub read_pass : List Event → List ℕ → M (List ℕ)
read_pass es [] = pure []
read_pass es (fd ∷ todo) = do
  kept ← read_visit es fd
  rest ← read_pass es todo
  pure (keep_if kept fd rest)

unfoldable pub poll_round : List ℕ → M (Flow (List ℕ) (Unit {0}))
poll_round fds = do
  ret ← ask (Call.poll_both fds)
  if failed ret then handle_error else if value ret == 0 then pure (continue fds) else (do
    for_each (write_visit (events_of (memory ret))) fds
    left ← read_pass (events_of (memory ret)) fds
    pure (continue left))

unfoldable pub poll_client : M (Unit {0})
poll_client = open_all client_num [] >>= λ fds. while poll_round fds
