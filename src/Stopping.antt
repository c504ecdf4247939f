-- ===== src/Stopping.antt =====
-- The loops of the servers and clients of one thread, from their main functions on: their fuel.
use practice_code_c_cpp.Prelude.{ℕ, Bool, List, length}
use practice_code_c_cpp.Posix.{Script, Log}
use practice_code_c_cpp.Posix.Uses.{Takes}
use practice_code_c_cpp.BlockingServer
use practice_code_c_cpp.BlockingServer.Stale.{blocking_main-Takes}
use practice_code_c_cpp.NonblockingServer
use practice_code_c_cpp.NonblockingServer.Tracking.{nonblocking_main-Takes}
use practice_code_c_cpp.PollServer
use practice_code_c_cpp.PollServer.Tracking.{poll_main-Takes}
use practice_code_c_cpp.SelectServer
use practice_code_c_cpp.SelectServer.Echo.{select_main-Takes}
use practice_code_c_cpp.EdgeServer
use practice_code_c_cpp.EdgeServer.Echo.{edge_main-Takes}
use practice_code_c_cpp.LevelServer
use practice_code_c_cpp.LevelServer.Echo.{level_main-Takes}
use practice_code_c_cpp.ReactorServer
use practice_code_c_cpp.ReactorServer.Echo.{reactor_main-Takes}
use practice_code_c_cpp.BlockingClient
use practice_code_c_cpp.BlockingClient.Lockstep.{blocking_clients-Takes}
use practice_code_c_cpp.PlainClients.OnSelect.{select_client}
use practice_code_c_cpp.PlainClients.OnPoll.{poll_client}
use practice_code_c_cpp.PlainClients.OnEpoll.{epoll_client}
use practice_code_c_cpp.PlainClients.Checked.BySelect.{select_client-Takes}
use practice_code_c_cpp.PlainClients.Checked.ByPoll.{poll_client-Takes}
use practice_code_c_cpp.PlainClients.Checked.ByEpoll.{epoll_client-Takes}

-- The fuel of the loops is enough: no loop of these twelve programs, nested ones included, spends it.
programs-Takes :
    (garbage : ℕ → List ℕ) (capacity : ℕ) (et_mode : Bool) (s : Script) (l : Log)
    → Takes 1 (length s) (BlockingServer.main garbage s l)
      × Takes 1 (length s) (NonblockingServer.main s l)
      × Takes 1 (length s) (PollServer.main capacity s l)
      × Takes 1 (length s) (SelectServer.main s l)
      × Takes 1 (length s) (EdgeServer.main s l)
      × Takes 1 (length s) (LevelServer.main s l)
      × Takes 1 (length s) (ReactorServer.main s l)
      × Takes 1 (length s) (BlockingClient.main s l)
      × Takes 1 (length s) (BlockingClient.connect_unix_domain s l)
      × Takes 0 (length s) (select_client s l)
      × Takes 0 (length s) (poll_client s l)
      × Takes 1 (length s) (epoll_client et_mode s l)
programs-Takes garbage capacity et_mode s l = (
  blocking_main-Takes garbage s l,
  nonblocking_main-Takes s l,
  poll_main-Takes capacity s l,
  select_main-Takes s l,
  edge_main-Takes s l,
  level_main-Takes s l,
  reactor_main-Takes s l,
  (blocking_clients-Takes s l).0,
  (blocking_clients-Takes s l).1,
  select_client-Takes s l,
  poll_client-Takes s l,
  epoll_client-Takes et_mode s l,
)
