-- ===== src/EpollDemo.antt =====
-- linux_io/3.io_multiplexing/epoll_demo: the server and the client together.
use practice_code_c_cpp.Prelude.{ℕ}
use practice_code_c_cpp.Posix.{Script, Log}
use practice_code_c_cpp.Posix.Keeps.{Ends}
use practice_code_c_cpp.Posix.Reading.{ReadOut}
use practice_code_c_cpp.EpollServer
use practice_code_c_cpp.EpollServer.{Server}
use practice_code_c_cpp.EpollServer.Reading.{on_socket_read-ReadOut}
use practice_code_c_cpp.EpollClient
use practice_code_c_cpp.EpollClient.{Client}
use practice_code_c_cpp.EpollClient.Reading.{client_on_socket_read-ReadOut}

-- Whatever the system answers and the callbacks do, where OnSocketRead of the server or of the client
-- returns, its last read found nothing left for now, or the end or an error of the connection, and
-- then the descriptor was closed right behind it.
pub both-ReadOut :
    (srv : Server) (cli : Client) (fd : ℕ) (s : Script) (l : Log)
    → Ends (λ _. Unit) (λ _. ReadOut fd) (EpollServer.on_socket_read srv fd s l)
      × Ends (λ _. Unit) (λ _. ReadOut fd) (EpollClient.on_socket_read cli fd s l)
both-ReadOut srv cli fd s l =
    (on_socket_read-ReadOut srv fd s l, client_on_socket_read-ReadOut cli fd s l)
