-- ===== src/SelectServer.antt =====
-- linux_io/3.io_multiplexing/select/server.cpp, with the two helpers of utils.h: one thread that
-- waits by select for a listener and the connections. (ListenINET is Posix.Sockets.listen_inet.)
-- A fd_set is the function that says which of its FD_SETSIZE descriptors are in it. A std::set is the
-- list of its elements in order.
pub mod Sets
pub mod Contract
pub mod Printing
pub mod Tracking
pub mod Echo
use practice_code_c_cpp.Prelude.{
  ℕ, zero, suc, ◌+◌, Bool, true, false, ◌&&◌, ◌||◌, not, List, [], ◌∷◌, ◌++◌, ◌==◌, ltb,
  if◌then◌else◌, map, mem, Option, none, some,
}
use practice_code_c_cpp.Posix.{
  M, pure, halt, aborted, ask, tell, ◌>>=◌, ◌>>◌, Call, Reply, Event, failed, value, memory,
  bytes_of, events_of, sock_stream,
}
use practice_code_c_cpp.Posix.Flow.{Flow, continue, while}
use practice_code_c_cpp.Posix.Sockets.{buffer_size, store, zeroed, handle_error, listen_inet}

-- std::set<int>: insert, erase of an element, and *rbegin() (the argument stands for no element).
unfoldable pub insert : ℕ → List ℕ → List ℕ
insert fd [] = fd ∷ []
insert fd (c ∷ cs) =
    let rest = insert fd cs in
    if ltb fd c then fd ∷ c ∷ cs else if fd == c then c ∷ cs else c ∷ rest

unfoldable pub erase : ℕ → List ℕ → List ℕ
erase fd [] = []
erase fd (c ∷ cs) = let rest = erase fd cs in if fd == c then cs else c ∷ rest

unfoldable pub rbegin : ℕ → List ℕ → ℕ
rbegin d [] = d
rbegin d (c ∷ cs) = rbegin c cs

abbrev pub is_empty : List ℕ → Bool
is_empty [] = true
is_empty (_ ∷ _) = false

-- FD_SETSIZE, the number of descriptors that fit into a fd_set.
abbrev pub fd_setsize : ℕ
fd_setsize = 1024

-- FD_SET. It does not test its descriptor: one that does not fit is written outside the set.
abbrev pub fd_set : ℕ → (ℕ → Bool) → Option (ℕ → Bool)
fd_set fd set = if ltb fd fd_setsize then some (λ d. d == fd || set d) else none

-- FD_CLR. RemoveFd gives it an element of fds, which was added, so that it fits.
abbrev fd_clr : ℕ → (ℕ → Bool) → ℕ → Bool
fd_clr fd set d = not (d == fd) && set d

-- The variables origin_set, fds and max_fd.
pub record Watch : Type 0 where
  pub origin_set : ℕ → Bool
  pub fds : List ℕ
  pub max_fd : ℕ

-- What AddFd leaves with this set.
abbrev pub with_fd : Watch → ℕ → (ℕ → Bool) → Watch
with_fd w fd set = record {
  origin_set = set;
  fds = insert fd w.fds;
  max_fd = if ltb w.max_fd fd then fd else w.max_fd;
}

unfoldable pub add_fd : Watch → ℕ → Option Watch
add_fd w fd = elim (fd_set fd w.origin_set) [ none ↦ none | some set ↦ some (with_fd w fd set) ]

-- A call of AddFd: where it writes outside the set, the model ends.
unfoldable pub or_stray : ℕ → Option Watch → M Watch
or_stray fd none = tell (Call.stray fd) >> halt aborted
or_stray fd (some w) = pure w

unfoldable pub remove_fd : Watch → ℕ → Watch
remove_fd w fd =
    let fds = erase fd w.fds in
    record {
      origin_set = fd_clr fd w.origin_set;
      fds = fds;
      max_fd = if not (ltb fd w.max_fd) && not (is_empty fds) then rbegin 0 fds else w.max_fd;
    }

-- What select watches: the descriptors below its first argument that are in the set.
unfoldable pub watched : (ℕ → Bool) → ℕ → List ℕ
watched set zero = []
watched set (suc n) = let rest = watched set n in if set n then rest ++ n ∷ [] else rest

-- FD_ISSET(fd, &readfds): select leaves those of the given set that are ready.
abbrev pub is_ready : (ℕ → Bool) → Reply → ℕ → Bool
is_ready set r fd = set fd && mem fd (map (λ e. e.fd) (events_of (memory r)))

-- A connection with data. The whole cleared buffer is sent back, and a send that fails is only
-- reported.
unfoldable pub serve : Watch → ℕ → M Watch
serve w fd = do
  ret ← ask (Call.recv fd buffer_size)
  if failed ret
      then (tell (Call.close fd) >> pure (remove_fd w fd))
      else if value ret == 0
      then (tell (Call.close fd) >> pure (remove_fd w fd))
      else (ask (Call.send fd (store zeroed (bytes_of (memory ret)))) >>= λ r. pure w)

unfoldable pub visit : ℕ → (ℕ → Bool) → Watch → ℕ → M Watch
visit sfd readfds w fd =
    if readfds fd
    then (if fd == sfd
        then (do
          cfd ← ask (Call.accept sfd)
          if failed cfd then pure w else or_stray (value cfd) (add_fd w (value cfd)))
        else serve w fd)
    else pure w

-- The iteration over fds, as it was when select returned. A descriptor that is added on the way is
-- either behind the iterator or not in readfds, which is older, so that it is passed over; one that
-- is removed is the iterator's own.
unfoldable pub pass : ℕ → (ℕ → Bool) → Watch → List ℕ → M Watch
pass sfd readfds w [] = pure w
pass sfd readfds w (fd ∷ todo) = do w₁ ← visit sfd readfds w fd; pass sfd readfds w₁ todo

unfoldable pub select_round : ℕ → Watch → M (Flow Watch (Unit {0}))
select_round sfd w = do
  ret ← ask (Call.select (watched w.origin_set (w.max_fd + 1)) (w.max_fd + 1))
  if failed ret
      then handle_error
      else if value ret == 0
      then pure (continue w)
      else do w₁ ← pass sfd (is_ready w.origin_set ret) w w.fds; pure (continue w₁)

-- FD_ZERO, and the variables at the start.
abbrev pub empty_watch : Watch
empty_watch = record { origin_set = λ d. false; fds = []; max_fd = 0 }

unfoldable pub select_inet : ℕ → M (Unit {0})
select_inet sfd = do
  tell Call.ignore_sigpipe
  w ← or_stray sfd (add_fd empty_watch sfd)
  while (select_round sfd) w

unfoldable pub main : M (Unit {0})
main = do sfd ← listen_inet sock_stream 2; select_inet sfd
