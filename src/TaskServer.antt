-- ===== src/TaskServer.antt =====
-- linux_event/libevent/3.single_reactor_multi_worker/server.cpp: the reactor thread accepts, and for
-- each event of a connection it gives the pool a task, in which a worker receives and sends itself.
-- A step lets one thread run to its next call on a descriptor. A reactor_event is never freed.
pub mod Weights
pub mod Conservation
pub mod Ownership
pub mod Closing
use practice_code_c_cpp.Prelude.{
  ℕ, Bool, true, false, Option, none, some, List, [], ◌∷◌, ◌++◌, ◌==◌, set, get_elem?,
  if◌then◌else◌,
}
use practice_code_c_cpp.Posix.Sockets.{store, zeroed}
use practice_code_c_cpp.ConditionPool
use practice_code_c_cpp.ConditionPool.{
  Worker, ready, asleep, woken, running, Pool, add_queue, take_task, wake_or,
}

abbrev pub Msg : Type 0
Msg = List ℕ

-- data_handler on a descriptor: before recv, before send, and in epoll_ctl_delete_fd before it takes
-- the descriptor from epoll and before it closes it.
pub data Handler : Type 0 where
  receiving : ℕ → Handler
  answering : ℕ → Msg → Handler
  removing closing : ℕ → Handler

-- The threads; which descriptors are connections that are open, and which epoll watches; and the
-- whole buffers received and sent on each.
pub record System : Type 0 where
  pub pool : Pool Handler
  pub is_open : ℕ → Bool
  pub watched : ℕ → Bool
  pub received : ℕ → List Msg
  pub sent : ℕ → List Msg

abbrev pub update : {A : Type 0} → (ℕ → A) → ℕ → A → ℕ → A
update f fd x d = if fd == d then x else f d

-- What recv gives: a message, the end of the connection, nothing for now, or an error.
pub data Got : Type 0 where
  message : Msg → Got
  ended later failed : Got

-- On a descriptor that is not open recv fails.
abbrev pub answer_of : Bool → Got → Got
answer_of true got = got
answer_of false got = failed

-- connection_handler, a round in which accept returned `fd`: a descriptor that is not open.
unfoldable pub on_accept : System → ℕ → System
on_accept sys fd =
    if sys.is_open fd
    then sys
    else record sys { is_open = update sys.is_open fd true; watched = update sys.watched fd true }

-- data_handler_by_worker, for an event of a descriptor that epoll watches; `j` is the worker that
-- notify_one picks.
unfoldable pub on_event : System → ℕ → ℕ → System
unfolding add_queue
on_event sys fd j =
    if sys.watched fd then record sys { pool = add_queue sys.pool (some (receiving fd)) j } else sys

abbrev go_on : System → ℕ → Worker Handler → System
go_on sys i w = record sys { pool = record sys.pool { workers = set sys.pool.workers i w } }

-- Behind recv, in a cleared buffer.
unfoldable pub on_recv : System → ℕ → ℕ → Got → System
on_recv sys i fd (message m) =
    go_on
      (record sys { received = update sys.received fd (sys.received fd ++ (store zeroed m ∷ [])) })
      i (running (answering fd (store zeroed m)))
on_recv sys i fd ended = go_on sys i (running (removing fd))
on_recv sys i fd later = go_on sys i ready
on_recv sys i fd failed = go_on sys i (running (removing fd))

-- One stretch of data_handler. Failures of send, of epoll_ctl and of close are only reported.
unfoldable pub run_handler : System → ℕ → Handler → Got → System
unfolding on_recv
run_handler sys i (receiving fd) got = on_recv sys i fd (answer_of (sys.is_open fd) got)
run_handler sys i (answering fd m) got =
    go_on (record sys { sent = update sys.sent fd (sys.sent fd ++ (m ∷ [])) }) i
      (running (receiving fd))
run_handler sys i (removing fd) got =
    go_on (record sys { watched = update sys.watched fd false }) i (running (closing fd))
run_handler sys i (closing fd) got =
    go_on (record sys { is_open = update sys.is_open fd false }) i ready

-- One stretch of a worker; one that is asleep does nothing.
unfoldable pub run_worker : System → ℕ → Worker Handler → Got → System
unfolding run_handler take_task
run_worker sys i ready got = record sys { pool = (take_task sys.pool i).1 }
run_worker sys i woken got = record sys { pool = (take_task sys.pool i).1 }
run_worker sys i asleep got = sys
run_worker sys i (running h) got = run_handler sys i h got

abbrev pub work_at : System → ℕ → Option (Worker Handler) → Got → System
work_at sys i none got = sys
work_at sys i (some w) got = run_worker sys i w got

-- What the system chooses: an accept, an event, a stretch of a worker with what recv gives if it is
-- called, or a wait that ends by itself.
pub data Action : Type 0 where
  accept : ℕ → Action
  event : ℕ → ℕ → Action
  work : ℕ → Got → Action
  wake : ℕ → Action

unfoldable pub step : System → Action → System
unfolding on_accept on_event run_worker
step sys (accept fd) = on_accept sys fd
step sys (event fd j) = on_event sys fd j
step sys (work i got) = work_at sys i (get_elem? sys.pool.workers i) got
step sys (wake i) = record sys {
  pool = record sys.pool {
    workers = wake_or sys.pool.workers sys.pool.workers i (get_elem? sys.pool.workers i);
  };
}

unfoldable pub run : System → List Action → System
unfolding step
run sys [] = sys
run sys (a ∷ rest) = run (step sys a) rest

-- The server after pool.start()
unfoldable pub init : ℕ → System
init pool_size = record {
  pool = ConditionPool.start pool_size;
  is_open = λ fd. false;
  watched = λ fd. false;
  received = λ fd. [];
  sent = λ fd. [];
}
