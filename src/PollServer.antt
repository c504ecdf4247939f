-- ===== src/PollServer.antt =====
-- linux_io/3.io_multiplexing/poll/server.cpp: one thread that waits by poll for a listener and the
-- connections, which it keeps in one vector of pollfd. (ListenINET is Posix.Sockets.listen_inet.)
pub mod Tracking
pub mod Echo
use practice_code_c_cpp.Prelude.{
  ℕ, ◌+◌, Bool, true, false, List, [], ◌∷◌, ◌++◌, ◌==◌, ltb, if◌then◌else◌, length, keep_if,
}
use practice_code_c_cpp.Posix.{
  M, pure, halt, aborted, ask, tell, ◌>>=◌, ◌>>◌, Call, Event, failed, value, memory, bytes_of,
  events_of, has, pollin, sock_stream,
}
use practice_code_c_cpp.Posix.Flow.{Flow, continue, while}
use practice_code_c_cpp.Posix.Sockets.{buffer_size, store, zeroed, handle_error, listen_inet}

abbrev pub listen_backlog : ℕ
listen_backlog = 2

-- Each pollfd with its revents. One that poll said nothing of has revents 0.
abbrev pub with_revents : List ℕ → List Event → List Event
with_revents [] es = []
with_revents (fd ∷ fds) [] = record { fd = fd; events = 0 } ∷ with_revents fds []
with_revents (fd ∷ fds) (e ∷ es) = record { fd = fd; events = e.events } ∷ with_revents fds es

-- A connection with data: whether it stays in the vector. The whole cleared buffer is sent back,
-- and a send that fails is only reported.
unfoldable pub serve : ℕ → M Bool
serve fd = do
  ret ← ask (Call.recv fd buffer_size)
  if failed ret
      then (tell (Call.close fd) >> pure false)
      else if value ret == 0
      then (tell (Call.close fd) >> pure false)
      else (ask (Call.send fd (store zeroed (bytes_of (memory ret)))) >>= λ r. pure true)

-- fds.push_back({cfd, POLLIN}) in the pass. Where the vector is full its elements move, and the
-- iterator, which is incremented next, is no longer valid: the model ends there.
unfoldable pub push_back : ℕ → ℕ → List ℕ → ℕ → M (List ℕ)
push_back capacity size pushed cfd =
    if ltb size capacity
    then pure (pushed ++ (cfd ∷ []))
    else (tell (Call.stray cfd) >> halt aborted)

-- One entry of the vector, which holds `size` entries: whether it stays, and the connections pushed
-- so far.
unfoldable pub visit : ℕ → ℕ → ℕ → Event → List ℕ → M (Bool × List ℕ)
visit capacity sfd size p pushed =
    if has p.events pollin
    then (if p.fd == sfd
        then (do
          cfd ← ask (Call.accept sfd)
          if failed cfd
              then pure (true, pushed)
              else (push_back capacity size pushed (value cfd) >>= λ pushed₁. pure (true, pushed₁)))
        else (serve p.fd >>= λ kept. pure (kept, pushed)))
    else pure (true, pushed)

abbrev pub count_if : Bool → ℕ → ℕ
count_if kept n = if kept then n + 1 else n

-- The pass over the vector, with `before` entries in front of the iterator. `pushed` are the
-- connections that were accepted in this pass and pushed at the vector's end: their revents are 0, so
-- that the pass, when it comes to them, skips them.
unfoldable pub pass : ℕ → ℕ → ℕ → List Event → List ℕ → M (List ℕ)
pass capacity sfd before [] pushed = pure pushed
pass capacity sfd before (p ∷ todo) pushed = do
  (kept, pushed₁) ← visit capacity sfd (before + 1 + length todo + length pushed) p pushed
  fds ← pass capacity sfd (count_if kept before) todo pushed₁
  pure (keep_if kept p.fd fds)

-- poll with a time limit of two seconds; 0 means that it ran out.
unfoldable pub poll_round : ℕ → ℕ → List ℕ → M (Flow (List ℕ) (Unit {0}))
poll_round capacity sfd fds = do
  ret ← ask (Call.poll fds 2000)
  if failed ret then handle_error else if value ret == 0 then pure (continue fds) else do
    fds₁ ← pass capacity sfd 0 (with_revents fds (events_of (memory ret))) []
    pure (continue fds₁)

-- `capacity` is what the library gives the vector at its first push_back, at least 1. It never grows in
-- a run, for a push_back that lets it grow is where the model ends.
unfoldable pub poll_inet : ℕ → ℕ → M (Unit {0})
poll_inet capacity sfd = tell Call.ignore_sigpipe >> while (poll_round capacity sfd) (sfd ∷ [])

unfoldable pub main : ℕ → M (Unit {0})
main capacity = do sfd ← listen_inet sock_stream listen_backlog; poll_inet capacity sfd
