-- ===== src/PlainClients/OnSelect.antt =====
-- linux_io/3.io_multiplexing/select/client.cpp
use practice_code_c_cpp.Prelude.{
  ℕ, zero, suc, ◌+◌, Bool, false, ◌&&◌, ◌||◌, List, [], ◌∷◌, ◌==◌, if◌then◌else◌,
}
use practice_code_c_cpp.Posix.{
  M, pure, ask, tell, ◌>>=◌, ◌>>◌, Call, Address, Reply, Event, failed, value, memory, events_of,
  has, pollin, epollout,
}
use practice_code_c_cpp.Posix.Flow.{Flow, continue, while, for_each}
use practice_code_c_cpp.Posix.Sockets.{buffer_size, handle_error}
use practice_code_c_cpp.SelectServer.{Watch, add_fd, or_stray, empty_watch, remove_fd, watched}
use practice_code_c_cpp.PlainClients.{client_num, stream_nonblock, greet}

-- A descriptor is among the events of a reply with the flag.
abbrev flagged : ℕ → ℕ → List Event → Bool
flagged flag fd [] = false
flagged flag fd (e ∷ es) = (e.fd == fd && has e.events flag) || flagged flag fd es

-- FD_ISSET on a set that select has left.
abbrev is_set : ℕ → (ℕ → Bool) → Reply → ℕ → Bool
is_set flag set r fd = set fd && flagged flag fd (events_of (memory r))

-- One socket of the first loop; one that cannot be made is passed over.
unfoldable pub open_one : Watch → M Watch
open_one w = do
  cfd ← ask (Call.socket stream_nonblock)
  if failed cfd then pure w else (do
    w₁ ← or_stray (value cfd) (add_fd w (value cfd))
    tell (Call.connect (value cfd) Address.any 8080)
    pure w₁)

unfoldable pub open_all : ℕ → Watch → M Watch
open_all zero w = pure w
open_all (suc left) w = open_one w >>= open_all left

-- The first pass, over the sockets that can be written.
unfoldable pub write_visit : (ℕ → Bool) → ℕ → M (Unit {0})
write_visit wirte_set fd = if wirte_set fd then greet fd else pure tt

-- The second pass, over those that can be read.
unfoldable pub read_visit : (ℕ → Bool) → Watch → ℕ → M Watch
read_visit read_set w fd =
    if read_set fd
    then (do
      ret ← ask (Call.recv fd buffer_size)
      if failed ret
          then pure w
          else if value ret == 0
          then (tell (Call.close fd) >> pure (remove_fd w fd))
          else pure w)
    else pure w

unfoldable pub read_pass : (ℕ → Bool) → Watch → List ℕ → M Watch
read_pass read_set w [] = pure w
read_pass read_set w (fd ∷ todo) = do w₁ ← read_visit read_set w fd; read_pass read_set w₁ todo

-- timeval{5, 0}
abbrev select_timeout : ℕ
select_timeout = 5

unfoldable pub select_round : Watch → M (Flow Watch (Unit {0}))
select_round w = do
  ret ← ask (Call.select_both (watched w.origin_set (w.max_fd + 1)) (w.max_fd + 1) select_timeout)
  if failed ret then handle_error else if value ret == 0 then pure (continue w) else (do
    for_each (write_visit (is_set epollout w.origin_set ret)) w.fds
    w₁ ← read_pass (is_set pollin w.origin_set ret) w w.fds
    pure (continue w₁))

unfoldable pub select_client : M (Unit {0})
select_client = do w ← open_all client_num empty_watch; while select_round w
