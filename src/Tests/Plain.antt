-- ===== src/Tests/Plain.antt =====
-- Runs of the servers that serve clients by recv and send.
use practice_code_c_cpp.Prelude.{true, ◌≡◌, refl, List, [], ◌∷◌, ◌++◌, drop}
use practice_code_c_cpp.Posix.{
  final_log, Script, Log, done, fail, nothing, bytes, ready, returned, ◌>>=◌, pollin, epollin,
  eagain,
}
use practice_code_c_cpp.Posix.Flow.{while, loop}
use practice_code_c_cpp.Posix.Keeps.{Ends}
use practice_code_c_cpp.Posix.Views.{Message, sent, whole_buffer, closed}
use practice_code_c_cpp.Posix.Sockets.{zeroed}
use practice_code_c_cpp.Posix.Echoing.{Echoed, OneBehind}
use practice_code_c_cpp.BlockingServer.{inet_round, accept_and_recv_unix_domain}
use practice_code_c_cpp.BlockingServer.Echo.{Echoed as UnixEchoed}
use practice_code_c_cpp.BlockingServer.Stale.{arrivals, stale_bytes}
use practice_code_c_cpp.NonblockingServer.{accept_and_recv}
use practice_code_c_cpp.NonblockingServer.Tracking.{Closable as NonblockingClosable}
use practice_code_c_cpp.PollServer.{poll_inet, poll_round, pass, visit, serve, push_back}
use practice_code_c_cpp.PollServer.Tracking.{Closable as PollClosable}
use practice_code_c_cpp.LevelServer
use practice_code_c_cpp.SelectServer
use practice_code_c_cpp.EdgeServer
use practice_code_c_cpp.ReactorServer
use practice_code_c_cpp.Serving.{servers-Echoed, servers-Closable}

-- Connection 5 comes, sends "hi" and leaves, and the next accept fails.
abbrev unix_script : Script
unix_script = done 5 nothing ∷ done 2 (bytes (104 ∷ 105 ∷ [])) ∷ done 0 nothing ∷ fail 9 ∷ []

-- The listener's set-up, and the same visit.
abbrev inet_script : Script
inet_script = done 3 nothing ∷ done 0 nothing ∷ done 0 nothing ∷ unix_script

abbrev nonblocking_script : Script
nonblocking_script =
    done 5 nothing
    ∷ done 2 nothing
    ∷ done 2 (bytes (104 ∷ 105 ∷ []))
    ∷ fail eagain
    ∷ done 0 nothing
    ∷ fail 9
    ∷ []

abbrev poll_script : Script
poll_script =
    done 1 (ready (record { fd = 3; events = pollin } ∷ []))
    ∷ done 5 nothing
    ∷ done 1 (ready (record { fd = 3; events = 0 } ∷ record { fd = 5; events = pollin } ∷ []))
    ∷ done 0 nothing
    ∷ []

abbrev level_script : Script
level_script =
    done 4 nothing
    ∷ done 3 nothing
    ∷ done 0 nothing
    ∷ done 0 nothing
    ∷ done 0 nothing
    ∷ done 1 (ready (record { fd = 3; events = epollin } ∷ []))
    ∷ done 5 nothing
    ∷ done 0 nothing
    ∷ done 1 (ready (record { fd = 5; events = epollin } ∷ []))
    ∷ done 2 (bytes (104 ∷ 105 ∷ []))
    ∷ done 1024 nothing
    ∷ []

poll_closes : closed 5 (final_log (poll_inet 4 3 poll_script [])) ≡ 1
unfolding ◌>>=◌ while loop poll_inet poll_round pass visit serve push_back
poll_closes = refl

-- "hello", then "by": the second answer is "bylo".
stale_bytes_example :
    let rest = drop 5 zeroed in
    (l' : Log) × (out : List Message) × (while
        (inet_round 5)
        zeroed
        (arrivals ((104, (101 ∷ []) ++ 108 ∷ 108 ∷ 111 ∷ []) ∷ (98, 121 ∷ []) ∷ []) [])
        []
      ≡ returned tt [] l')
    × (sent l'
        ≡ record { fd = 5; text = (98 ∷ 121 ∷ []) ++ ((108 ∷ 108 ∷ 111 ∷ []) ++ rest) } ∷ out)
stale_bytes_example =
    stale_bytes 5 104 98 (101 ∷ []) (108 ∷ 108 ∷ 111 ∷ []) (121 ∷ []) zeroed [] [] refl

servers-Echoed_example :
    Ends (OneBehind whole_buffer) (λ _. Echoed whole_buffer) (poll_inet 4 3 poll_script [])
    × Ends
        (OneBehind whole_buffer)
        (λ _. Echoed whole_buffer)
        (SelectServer.select_inet 3 poll_script [])
    × Ends
        (OneBehind whole_buffer)
        (λ _. Echoed whole_buffer)
        (EdgeServer.epoll_inet 3 true poll_script [])
    × Ends (OneBehind whole_buffer) (λ _. Echoed whole_buffer) (LevelServer.main poll_script [])
    × Ends (OneBehind whole_buffer) (λ _. Echoed whole_buffer) (ReactorServer.main poll_script [])
    × Ends UnixEchoed (λ _. UnixEchoed) (accept_and_recv_unix_domain 3 poll_script [])
servers-Echoed_example = servers-Echoed 4 3 true poll_script

servers-Closable_example :
    Ends (PollClosable 5 3) (λ _. PollClosable 5 3) (poll_inet 4 3 poll_script [])
    × Ends (NonblockingClosable 5) (λ _. NonblockingClosable 5) (accept_and_recv 3 poll_script [])
servers-Closable_example = servers-Closable 4 5 3 poll_script
