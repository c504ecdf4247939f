-- ===== src/Tests/Clients.antt =====
-- Runs of the clients over sockets that do not block.
use practice_code_c_cpp.Prelude.{◌≡◌, refl, true, [], ◌∷◌}
use practice_code_c_cpp.Posix.{
  Script, done, fail, nothing, bytes, ready, final_log, ◌>>=◌, epollin, epollout,
}
use practice_code_c_cpp.Posix.Flow.{while, loop, for_each}
use practice_code_c_cpp.Posix.Keeps.{Ends}
use practice_code_c_cpp.Posix.Views.{closed}
use practice_code_c_cpp.PlainClients.{greet}
use practice_code_c_cpp.PlainClients.OnSelect.{select_client}
use practice_code_c_cpp.PlainClients.OnPoll.{
  poll_client, open_all, open_one, poll_round, write_visit, read_visit, read_pass,
}
use practice_code_c_cpp.PlainClients.OnEpoll.{epoll_client}
use practice_code_c_cpp.PlainClients.Checked.{Checked}
use practice_code_c_cpp.PlainClients.Checked.Sending.{clients-Checked}
use practice_code_c_cpp.PlainClients.Nonblocking.{nonblocking_client}
use practice_code_c_cpp.PlainClients.Nonblocking.Connections.{
  UsesConnected, nonblocking_client-UsesConnected,
}

-- One socket is made; it can be written and then ends.
abbrev poll_script : Script
poll_script =
    done 3 nothing
    ∷ fail 24
    ∷ fail 24
    ∷ fail 24
    ∷ fail 24
    ∷ done 1 (ready (record { fd = 3; events = epollout } ∷ []))
    ∷ done 0 (bytes (0 ∷ []))
    ∷ done 1024 nothing
    ∷ done 1 (ready (record { fd = 3; events = epollin } ∷ []))
    ∷ done 0 nothing
    ∷ []

poll_closes : closed 3 (final_log (poll_client poll_script [])) ≡ 1
unfolding ◌>>=◌ while loop for_each greet poll_client open_all open_one poll_round write_visit
    read_visit read_pass
poll_closes = refl

clients-Checked_example :
    Ends Checked (λ _. Checked) (select_client poll_script [])
    × Ends Checked (λ _. Checked) (poll_client poll_script [])
    × Ends Checked (λ _. Checked) (epoll_client true poll_script [])
clients-Checked_example = clients-Checked true poll_script

-- The first socket connects and sends; the others are refused.
abbrev nonblocking_script : Script
nonblocking_script =
    done 3 nothing
    ∷ done 4 nothing
    ∷ done 5 nothing
    ∷ done 6 nothing
    ∷ done 7 nothing
    ∷ done 0 nothing
    ∷ fail 111
    ∷ fail 111
    ∷ fail 111
    ∷ fail 111
    ∷ done 9 nothing
    ∷ done 1024 nothing
    ∷ []

nonblocking_client-UsesConnected_example :
    Ends UsesConnected (λ _. UsesConnected) (nonblocking_client nonblocking_script [])
nonblocking_client-UsesConnected_example = nonblocking_client-UsesConnected nonblocking_script
