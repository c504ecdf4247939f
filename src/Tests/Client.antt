-- ===== src/Tests/Client.antt =====
-- Runs of the client of epoll_demo, and of the reads of both ends.
use practice_code_c_cpp.Prelude.{◌≡◌, refl, true, false, [], ◌∷◌, none}
use practice_code_c_cpp.Posix.{
  final_log, Script, Log, done, nothing, bytes, returned, ◌>>=◌, minus_one,
}
use practice_code_c_cpp.Posix.Keeps.{Ends}
use practice_code_c_cpp.Posix.Reading.{ReadOut}
use practice_code_c_cpp.EpollServer
use practice_code_c_cpp.EpollDemo.{both-ReadOut}
use practice_code_c_cpp.EpollServer.{update_epoll_events}
use practice_code_c_cpp.EpollClient.{
  Client, start, create_epoll, create_socket, connect, spawn_loop, on_socket_read, main,
}
use practice_code_c_cpp.EpollClient.Typing.{LineBehind, client_main-AllSent}

abbrev fresh_client : Client
fresh_client = record {
  server_ip = [];
  server_port = 6666;
  handle = minus_one;
  efd = minus_one;
  th_loop = false;
  loop_flag = true;
  recv_callback = none;
}

abbrev started_client : Client
started_client = record fresh_client { handle = 4; efd = 3; th_loop = true }

abbrev start_script : Script
start_script = done 3 nothing ∷ done 4 nothing ∷ done 0 nothing ∷ done 0 nothing ∷ []

-- The line "hi" is typed and sent.
abbrev typing_script : Script
typing_script =
    done 3 nothing
    ∷ done 4 nothing
    ∷ done 0 nothing
    ∷ done 0 nothing
    ∷ done 0 (bytes (104 ∷ 105 ∷ []))
    ∷ done 2 nothing
    ∷ []

abbrev read_script : Script
read_script = done 2 (bytes (104 ∷ 105 ∷ [])) ∷ done 0 nothing ∷ []

start_log : Log
unfolding ◌>>=◌ start create_epoll create_socket connect update_epoll_events spawn_loop
start_log = final_log (start fresh_client start_script [])

start_runs : start fresh_client start_script [] ≡ returned (true, started_client) [] start_log
unfolding start_log ◌>>=◌ start create_epoll create_socket connect update_epoll_events spawn_loop
start_runs = refl

client_main-AllSent_example : Ends LineBehind (λ _. LineBehind) (main [] 6666 typing_script [])
client_main-AllSent_example = client_main-AllSent [] 6666 typing_script

both-ReadOut_example :
    Ends
      (λ _. Unit)
      (λ _. ReadOut 5)
      (EpollServer.on_socket_read (EpollServer.new_server [] 6666) 5 read_script [])
    × Ends (λ _. Unit) (λ _. ReadOut 5) (on_socket_read started_client 5 read_script [])
both-ReadOut_example = both-ReadOut (EpollServer.new_server [] 6666) started_client 5 read_script []
