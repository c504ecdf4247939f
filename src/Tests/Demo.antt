-- ===== src/Tests/Demo.antt =====
-- Runs of the echo server of epoll_demo.
use practice_code_c_cpp.Prelude.{◌≡◌, refl, [], ◌∷◌, some, Bool, true, false, arith}
use practice_code_c_cpp.Posix.{
  final_log, Script, Log, done, fail, nothing, bytes, ready, returned, ◌>>=◌, epollin, eagain,
  minus_one,
}
use practice_code_c_cpp.Posix.Flow.{while, loop, for_each}
use practice_code_c_cpp.Posix.Keeps.{Ends}
use practice_code_c_cpp.Posix.Views.{closed}
use practice_code_c_cpp.EpollServer.{
  Server, epoll_loop, on_socket_accept, echo, start, loop_round, dispatch, accept_round, adopt,
  make_socket_nonblock, update_epoll_events, on_socket_read, read_round, deliver, send_data,
  create_epoll, create_socket, listen, spawn_loop, stop, unregister_on_recv_callback,
}
use practice_code_c_cpp.EpollServer.Echo.{
  echoing, packets_written, Echoed, OneBehind, epoll_loop-Echoed,
}
use practice_code_c_cpp.EpollServer.Accept.{InHand, Balanced, settled, on_socket_accept-Balanced}
use practice_code_c_cpp.EpollServer.Lifecycle.{Closings, start_then_stop, start_then_stop-Closings}

-- A server on port 6666 with the callback of main, as it is before its start and behind it.
abbrev fresh_server : Server
fresh_server = record {
  local_ip = [];
  local_port = 6666;
  handle = minus_one;
  efd = minus_one;
  th_loop = false;
  loop_flag = true;
  recv_callback = some echo;
}

abbrev echo_server : Server
echo_server = record fresh_server { handle = 4; efd = 3; th_loop = true }

abbrev start_script : Script
start_script =
    done 3 nothing
    ∷ done 4 nothing
    ∷ done 0 nothing
    ∷ done 2 nothing
    ∷ done 0 nothing
    ∷ done 0 nothing
    ∷ done 0 nothing
    ∷ []

-- Connection 5 comes, sends two bytes and leaves; then the loop is told to stop.
abbrev visit_script : Script
visit_script =
    done 1 nothing
    ∷ done 1 nothing
    ∷ done 1 (ready (record { fd = 4; events = epollin } ∷ []))
    ∷ done 5 nothing
    ∷ done 0 nothing
    ∷ done 0 nothing
    ∷ done 0 nothing
    ∷ done 0 nothing
    ∷ fail eagain
    ∷ done 1 nothing
    ∷ done 1 (ready (record { fd = 5; events = epollin } ∷ []))
    ∷ done 2 (bytes (104 ∷ 105 ∷ []))
    ∷ done 2 nothing
    ∷ done 0 nothing
    ∷ done 0 nothing
    ∷ []

visit_is_echoed :
    packets_written (final_log (epoll_loop echo_server visit_script []))
    ≡ record { fd = 5; msg = 104 ∷ 105 ∷ [] } ∷ []
unfolding ◌>>=◌ while loop for_each epoll_loop loop_round dispatch on_socket_accept accept_round
    adopt make_socket_nonblock update_epoll_events on_socket_read read_round deliver echo send_data
visit_is_echoed = refl

visit_settles :
    settled 5 (final_log (on_socket_accept echo_server (done 5 nothing ∷ fail 9 ∷ []) [])) ≡ 1
unfolding ◌>>=◌ while loop on_socket_accept accept_round adopt
visit_settles = refl

abbrev started_server : Server
started_server = record echo_server { th_loop = true }

start_log : Log
unfolding ◌>>=◌ start create_epoll create_socket make_socket_nonblock listen update_epoll_events
    spawn_loop
start_log = final_log (start fresh_server start_script [])

start_runs : start fresh_server start_script [] ≡ returned (true, started_server) [] start_log
unfolding start_log ◌>>=◌ start create_epoll create_socket make_socket_nonblock listen
    update_epoll_events spawn_loop
start_runs = refl

epoll_loop-Echoed_example :
    Ends OneBehind (λ _. Echoed) (epoll_loop (echoing fresh_server) visit_script [])
epoll_loop-Echoed_example = epoll_loop-Echoed fresh_server visit_script

on_socket_accept-Balanced_example :
    Ends
      (InHand 5 0 0)
      (λ _. Balanced 5 0 0)
      (on_socket_accept echo_server (done 5 nothing ∷ fail 9 ∷ []) [])
on_socket_accept-Balanced_example =
    on_socket_accept-Balanced 5 echo_server (done 5 nothing ∷ fail 9 ∷ []) []

-- Behind the bind, listen fails; or epoll_ctl does.
abbrev unheard : Script
unheard = done 2 nothing ∷ done 0 nothing ∷ fail 98 ∷ []

abbrev unwatched : Script
unwatched = done 2 nothing ∷ done 0 nothing ∷ done 0 nothing ∷ fail 12 ∷ []

abbrev bound : Script → Script
bound s = done 3 nothing ∷ done 4 nothing ∷ done 0 nothing ∷ s

listener_is_leaked : closed 4 (final_log (start_then_stop fresh_server (bound unheard) [])) ≡ 0
unfolding ◌>>=◌ start stop unregister_on_recv_callback create_epoll create_socket
    make_socket_nonblock listen update_epoll_events spawn_loop
listener_is_leaked = refl

closed_twice : closed 4 (final_log (start_then_stop fresh_server (bound unwatched) [])) ≡ 2
unfolding ◌>>=◌ start stop unregister_on_recv_callback create_epoll create_socket
    make_socket_nonblock listen update_epoll_events spawn_loop
closed_twice = refl

start_then_stop-Closings_example :
    Ends
      (λ _. Unit)
      (λ (r : Bool × Bool × Server). Closings 4 [] r.0)
      (start_then_stop fresh_server (bound unheard) [])
start_then_stop-Closings_example =
    start_then_stop-Closings fresh_server 4 3 unheard [] nothing nothing nothing (omega arith)
      (omega arith)
