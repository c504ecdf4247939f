-- ===== src/Tests/BlockingClient.antt =====
-- Runs of the blocking clients.
use practice_code_c_cpp.Prelude.{[], ◌∷◌, ◌≡◌, refl}
use practice_code_c_cpp.Posix.{Script, done, nothing, final_log, ◌>>=◌}
use practice_code_c_cpp.Posix.Flow.{while, loop}
use practice_code_c_cpp.Posix.Keeps.{Ends}
use practice_code_c_cpp.BlockingClient.{main, connect_inet, inet_round}
use practice_code_c_cpp.BlockingClient.Lockstep.{Lockstep, UnderWay, requests, client_main-Lockstep}

-- It connects, gets two answers, and the server leaves.
abbrev client_script : Script
client_script =
    done 3 nothing
    ∷ done 0 nothing
    ∷ done 1024 nothing
    ∷ done 1024 nothing
    ∷ done 1024 nothing
    ∷ done 0 nothing
    ∷ []

two_requests : requests (final_log (main client_script [])) ≡ 2
unfolding ◌>>=◌ while loop connect_inet inet_round
two_requests = refl

client_main-Lockstep_example : Ends UnderWay (λ _. Lockstep) (main client_script [])
client_main-Lockstep_example = client_main-Lockstep client_script
