-- ===== src/PoolServer/Lifetime.antt =====
-- linux_event/libevent/3.1single_reactor_multi_worker/server.cpp with connections that come and go:
-- connection_handler makes the reactor_event of a connection, and the end of the connection frees it
-- while the tasks of the pool may still point to it. A connection is numbered by the address of its
-- reactor_event, which is not used again.
pub mod Users
pub mod Freeing
use practice_code_c_cpp.Prelude.{
  ℕ, Bool, true, false, Option, none, some, List, [], ◌∷◌, ◌==◌, get_elem?, if◌then◌else◌,
}
use practice_code_c_cpp.WorkerPool.{Worker, ready, waiting, running}
use practice_code_c_cpp.PoolServer
use practice_code_c_cpp.PoolServer.{
  Handler, target, Reactor, idle, queueing, responding, sending, System, Action, receive, respond,
  react, work, wake, fresh_conn, update, init,
}

pub data Life : Type 0 where
  unmade live freed : Life

-- The threads, each reactor_event, and whether a thread has accessed one that was freed.
pub record Server : Type 0 where
  pub sys : System
  pub life : ℕ → Life
  pub stray : Bool

abbrev pub is_live : Life → Bool
is_live live = true
is_live unmade = false
is_live freed = false

abbrev set_life : (ℕ → Life) → ℕ → Life → ℕ → Life
set_life life c x d = if c == d then x else life d

-- connection_handler, a round in which accept gave a connection and epoll took it and its eventfd.
unfoldable pub connect_at : Server → ℕ → Life → Server
connect_at srv c live = srv
connect_at srv c freed = srv
connect_at srv c unmade = record srv {
  sys = record srv.sys { conn = update srv.sys.conn c fresh_conn };
  life = set_life srv.life c live;
}

unfoldable pub on_connect : Server → ℕ → Server
unfolding connect_at
on_connect srv c = connect_at srv c (srv.life c)

-- data_handler_by_worker where recv got the end of a live connection: both descriptors are taken
-- from epoll and closed, and the reactor_event is freed. The reactor is not in another handler then.
unfoldable pub disconnect_at : Server → ℕ → Reactor → Server
disconnect_at srv c idle =
    if is_live (srv.life c) then record srv { life = set_life srv.life c freed } else srv
disconnect_at srv c (queueing d) = srv
disconnect_at srv c (responding d) = srv
disconnect_at srv c (sending d m) = srv

unfoldable pub on_disconnect : Server → ℕ → Server
unfolding disconnect_at
on_disconnect srv c = disconnect_at srv c srv.sys.reactor

unfoldable pub proceed : Server → Action → Server
proceed srv a = record srv { sys = PoolServer.step srv.sys a }

-- A worker in data_handler accesses the reactor_event of its task in each stretch.
unfoldable pub work_at : Server → ℕ → Option (Worker Handler) → Server
unfolding proceed
work_at srv i none = proceed srv (work i)
work_at srv i (some ready) = proceed srv (work i)
work_at srv i (some waiting) = proceed srv (work i)
work_at srv i (some (running h)) =
    if is_live (srv.life (target h)) then proceed srv (work i) else record srv { stray = true }

-- Events come only for what epoll watches: the live connections.
unfoldable pub on_action : Server → Action → Server
unfolding work_at proceed
on_action srv (receive c m) = if is_live (srv.life c) then proceed srv (receive c m) else srv
on_action srv (respond c) = if is_live (srv.life c) then proceed srv (respond c) else srv
on_action srv react = proceed srv react
on_action srv wake = proceed srv wake
on_action srv (work i) = work_at srv i (get_elem? srv.sys.workers i)

pub data Event : Type 0 where
  connect disconnect : ℕ → Event
  act : Action → Event

unfoldable pub on_event : Server → Event → Server
unfolding on_connect on_disconnect on_action
on_event srv (connect c) = on_connect srv c
on_event srv (disconnect c) = on_disconnect srv c
on_event srv (act a) = on_action srv a

unfoldable pub serve : Server → List Event → Server
unfolding on_event
serve srv [] = srv
serve srv (e ∷ es) = serve (on_event srv e) es

unfoldable pub begin : ℕ → Server
begin pool_size = record { sys = init pool_size; life = λ c. unmade; stray = false }
