-- ===== src/PoolServer.antt =====
-- linux_event/libevent/3.1single_reactor_multi_worker/server.cpp: one reactor thread receives
-- requests and sends responses, and the workers of a pool handle them in between. The threads meet
-- in a request and a response queue and a semaphore eventfd for each connection, and in the queue
-- of tasks. A state holds all threads; a step lets one of them run to its next access of what is
-- shared. Connections are numbered by their descriptor, and a message is its text.
pub mod Invariant
pub mod Safety
pub mod Lifetime
use practice_code_c_cpp.Prelude.{
  ℕ, ◌+◌, ◌-◌, ◌^◌, Option, none, some, List, [], ◌∷◌, ◌++◌, ◌==◌, ltb, if◌then◌else◌, get_elem?,
  set,
}
use practice_code_c_cpp.SafeQueue.{SafeQueue, push, shift_no_wait, empty_queue, wake_spuriously}
use practice_code_c_cpp.WorkerPool.{Worker, ready, waiting, running, take_task, add_queue, start}

abbrev pub Msg : Type 0
Msg = List ℕ

-- What a reactor_event points to, and the messages that came over and went to the socket.
pub record Conn : Type 0 where
  pub req_queue : SafeQueue Msg
  pub rsp_queue : SafeQueue Msg
  -- of the eventfd
  pub counter : ℕ
  pub received : List Msg
  pub sent : List Msg

-- data_handler: before it takes its request, before it gives the response, and before it tells the
-- reactor.
pub data Handler : Type 0 where
  begun : ℕ → Handler
  handling : ℕ → Msg → Handler
  notifying : ℕ → Handler

-- The reactor: in epoll_wait or between two rounds of a handler; in data_handler_by_worker before
-- addQueue; in rsp_handler before it takes the response, and before it sends it.
pub data Reactor : Type 0 where
  idle : Reactor
  queueing responding : ℕ → Reactor
  sending : ℕ → Msg → Reactor

pub record System : Type 0 where
  pub conn : ℕ → Conn
  pub reactor : Reactor
  pub task_queue : SafeQueue (Option ℕ)
  pub workers : List (Worker Handler)

abbrev pub update : (ℕ → Conn) → ℕ → Conn → ℕ → Conn
update conn c x d = if c == d then x else conn d

-- A write to the eventfd that would pass this value fails, which the handler only reports.
abbrev max_counter : ℕ
max_counter = 2 ^ 64 - 2

-- A stretch of data_handler. A request queue that is empty ends it.
unfoldable pub run_handler : Conn → Handler → Conn × Worker Handler
unfolding shift_no_wait push
run_handler conn (begun c) =
    let (msg, req) = shift_no_wait conn.req_queue in
    elim msg [
      | none ↦ (conn, ready)
      | some m ↦ (record conn { req_queue = req }, running (handling c m))
    ]
run_handler conn (handling c m) =
    (record conn { rsp_queue = push conn.rsp_queue m }, running (notifying c))
run_handler conn (notifying c) = (
  record conn { counter = if ltb conn.counter max_counter then conn.counter + 1 else conn.counter },
  ready,
)

abbrev pub target : Handler → ℕ
target (begun c) = c
target (handling c m) = c
target (notifying c) = c

-- One stretch of a worker thread.
unfoldable pub run_worker : System → ℕ → Worker Handler → System
unfolding run_handler take_task
run_worker sys i (running h) =
    let (conn, w) = run_handler (sys.conn (target h)) h in
    record sys { conn = update sys.conn (target h) conn; workers = set sys.workers i w }
run_worker sys i ready =
    let (w, tq) = take_task begun sys.task_queue ready in
    record sys { task_queue = tq; workers = set sys.workers i w }
run_worker sys i waiting =
    let (w, tq) = take_task begun sys.task_queue waiting in
    record sys { task_queue = tq; workers = set sys.workers i w }

-- What the system chooses: a recv on connection `c` that got `m`, a read of the eventfd of `c`, the
-- reactor's next stretch, a stretch of worker `i`, or a wait of a worker that ends by itself.
pub data Action : Type 0 where
  receive : ℕ → Msg → Action
  respond : ℕ → Action
  react : Action
  work : ℕ → Action
  wake : Action

-- data_handler_by_worker, a round that got a message: it is pushed, and the task is to be added.
unfoldable pub on_receive : System → Reactor → ℕ → Msg → System
unfolding push
on_receive sys idle c m =
    let conn = sys.conn c in
    record sys {
      conn =
          update sys.conn c
            (record conn { req_queue = push conn.req_queue m; received = conn.received ++ m ∷ [] });
      reactor = queueing c;
    }
on_receive sys (queueing d) c m = sys
on_receive sys (responding d) c m = sys
on_receive sys (sending d n) c m = sys

-- rsp_handler: a read of the semaphore takes one, and fails at 0, which ends the handler.
unfoldable pub on_respond : System → Reactor → ℕ → System
on_respond sys idle c =
    let conn = sys.conn c in
    if conn.counter == 0 then sys else record sys {
      conn = update sys.conn c (record conn { counter = conn.counter - 1 });
      reactor = responding c;
    }
on_respond sys (queueing d) c = sys
on_respond sys (responding d) c = sys
on_respond sys (sending d n) c = sys

-- The reactor's other stretches: addQueue; shift_no_wait, where an empty queue ends the handler;
-- send.
unfoldable pub on_react : System → Reactor → System
unfolding add_queue shift_no_wait
on_react sys idle = sys
on_react sys (queueing c) = record sys {
  task_queue = add_queue sys.task_queue (some c);
  reactor = idle;
}
on_react sys (responding c) =
    let conn = sys.conn c in
    let (msg, rsp) = shift_no_wait conn.rsp_queue in
    elim msg [
      | none ↦ record sys { reactor = idle }
      | some m ↦ record sys {
        conn = update sys.conn c (record conn { rsp_queue = rsp });
        reactor = sending c m;
      }
    ]
on_react sys (sending c m) =
    let conn = sys.conn c in
    record sys {
      conn = update sys.conn c (record conn { sent = conn.sent ++ m ∷ [] });
      reactor = idle;
    }

-- An action that its thread cannot take changes nothing.
unfoldable pub step : System → Action → System
step sys (receive c m) = on_receive sys sys.reactor c m
step sys (respond c) = on_respond sys sys.reactor c
step sys react = on_react sys sys.reactor
step sys (work i) = elim (get_elem? sys.workers i) [ none ↦ sys | some w ↦ run_worker sys i w ]
step sys wake = record sys { task_queue = wake_spuriously sys.task_queue }

unfoldable pub run : System → List Action → System
run sys [] = sys
run sys (a ∷ rest) = run (step sys a) rest

unfoldable pub fresh_conn : Conn
fresh_conn = record {
  req_queue = empty_queue;
  rsp_queue = empty_queue;
  counter = 0;
  received = [];
  sent = [];
}

-- The server after pool.start(): connections get their queues before epoll watches them.
unfoldable pub init : ℕ → System
init pool_size = record {
  conn = λ c. fresh_conn;
  reactor = idle;
  task_queue = empty_queue;
  workers = start pool_size;
}
