-- ===== src/Serving.antt =====
-- The servers of one thread that echo: what they answer, and what they close.
use practice_code_c_cpp.Prelude.{ℕ, Bool, []}
use practice_code_c_cpp.Posix.{Script}
use practice_code_c_cpp.Posix.Keeps.{Ends}
use practice_code_c_cpp.Posix.Views.{whole_buffer}
use practice_code_c_cpp.Posix.Echoing.{Echoed, OneBehind}
use practice_code_c_cpp.BlockingServer
use practice_code_c_cpp.BlockingServer.Echo.{
  Echoed as UnixEchoed, accept_and_recv_unix_domain-Echoed,
}
use practice_code_c_cpp.NonblockingServer
use practice_code_c_cpp.NonblockingServer.Tracking.{
  Closable as NonblockingClosable, accept_and_recv-Closable,
}
use practice_code_c_cpp.PollServer
use practice_code_c_cpp.PollServer.Echo.{poll_inet-Echoed}
use practice_code_c_cpp.PollServer.Tracking.{Closable as PollClosable, poll_inet-Closable}
use practice_code_c_cpp.SelectServer
use practice_code_c_cpp.SelectServer.Echo.{select_inet-Echoed}
use practice_code_c_cpp.EdgeServer
use practice_code_c_cpp.EdgeServer.Echo.{edge_epoll_inet-Echoed}
use practice_code_c_cpp.LevelServer
use practice_code_c_cpp.LevelServer.Echo.{level_main-Echoed}
use practice_code_c_cpp.ReactorServer
use practice_code_c_cpp.ReactorServer.Echo.{reactor_main-Echoed}

-- At every point of every run, whatever the system answers, the poll, the select, the edge triggered
-- (in both modes), the level triggered and the reactor server have answered each message received,
-- once, in order and on its own connection, by the whole buffer that holds it, but for the last one
-- while its send is under way; and the unix domain server has sent back each message received, once,
-- in order, on its own connection and with its own length. The runs of the poll server end where
-- push_back finds its vector, of any capacity, full, and those of the select server where AddFd is
-- given a descriptor that does not fit into a fd_set.
pub servers-Echoed :
    (capacity sfd : ℕ) (et_mode : Bool) (s : Script)
    → Ends
        (OneBehind whole_buffer)
        (λ _. Echoed whole_buffer)
        (PollServer.poll_inet capacity sfd s [])
      × Ends (OneBehind whole_buffer) (λ _. Echoed whole_buffer) (SelectServer.select_inet sfd s [])
      × Ends
          (OneBehind whole_buffer)
          (λ _. Echoed whole_buffer)
          (EdgeServer.epoll_inet sfd et_mode s [])
      × Ends (OneBehind whole_buffer) (λ _. Echoed whole_buffer) (LevelServer.main s [])
      × Ends (OneBehind whole_buffer) (λ _. Echoed whole_buffer) (ReactorServer.main s [])
      × Ends UnixEchoed (λ _. UnixEchoed) (BlockingServer.accept_and_recv_unix_domain sfd s [])
servers-Echoed capacity sfd et_mode s = (
  poll_inet-Echoed capacity sfd s,
  select_inet-Echoed sfd s,
  edge_epoll_inet-Echoed sfd et_mode s,
  level_main-Echoed s,
  reactor_main-Echoed s,
  accept_and_recv_unix_domain-Echoed sfd s,
)

-- Whatever the system answers, at every point of every run the poll and the nonblocking server have
-- closed no descriptor more often than accept returned it; the poll server may close its listener
-- once besides. The runs of the poll server end where push_back finds its vector, of any capacity,
-- full.
pub servers-Closable :
    (capacity fd sfd : ℕ) (s : Script)
    → Ends (PollClosable fd sfd) (λ _. PollClosable fd sfd) (PollServer.poll_inet capacity sfd s [])
      × Ends
          (NonblockingClosable fd)
          (λ _. NonblockingClosable fd)
          (NonblockingServer.accept_and_recv sfd s [])
servers-Closable capacity fd sfd s =
    (poll_inet-Closable fd sfd capacity s, accept_and_recv-Closable fd sfd s)
