-- ===== src/Tests/Reactor.antt =====
-- Runs of the reactor server, and of all servers of one thread on one script.
use practice_code_c_cpp.Prelude.{◌≡◌, refl, [], ◌∷◌, arith}
use practice_code_c_cpp.Posix.{
  final_log, Script, done, nothing, ready, Outcome, returned, halted, Halt, blocked, aborted, ◌>>=◌,
  epollin,
}
use practice_code_c_cpp.Posix.Flow.{while, loop}
use practice_code_c_cpp.Posix.Sockets.{listen_inet}
use practice_code_c_cpp.Posix.Views.{closed}
use practice_code_c_cpp.ReactorServer.{
  main, wait_round, handle_events, handle_event, handle_data, handle_connection, disconnect, deref,
  lookup, bind_reactor_event, unbind_reactor_event,
}
use practice_code_c_cpp.ReactorServer.Memory.{Honest, NoStray}
use practice_code_c_cpp.ReactorServer.Safety.{reactor_main-NoStray}

abbrev reason : {A : Type 0} → Outcome A → Halt
reason (returned a s l) = blocked
reason (halted h l) = h

-- The set-up, and connection 5, which comes: its record is at address 1.
abbrev visit_script : Script → Script
visit_script rest =
    done 4 nothing
    ∷ done 3 nothing
    ∷ done 0 nothing
    ∷ done 0 nothing
    ∷ done 0 nothing
    ∷ done 1 (ready (record { fd = 0; events = epollin } ∷ []))
    ∷ done 5 nothing
    ∷ done 0 nothing
    ∷ rest

-- It leaves.
abbrev leave_script : Script
leave_script = visit_script (
    done 1 (ready (record { fd = 1; events = epollin } ∷ []))
    ∷ done 0 nothing
    ∷ done 0 nothing
    ∷ [])

-- It leaves, and epoll_wait reports it twice.
abbrev twice_script : Script
twice_script = visit_script (
    done 2 (ready (record { fd = 1; events = epollin } ∷ record { fd = 1; events = epollin } ∷ []))
    ∷ done 0 nothing
    ∷ done 0 nothing
    ∷ [])

leave_closes : closed 5 (final_log (main leave_script [])) ≡ 1
unfolding ◌>>=◌ while loop main listen_inet wait_round handle_events handle_event handle_data
    handle_connection disconnect deref lookup bind_reactor_event unbind_reactor_event
leave_closes = refl

twice_goes_astray : reason (main twice_script []) ≡ aborted
unfolding ◌>>=◌ while loop main listen_inet wait_round handle_events handle_event handle_data
    handle_connection disconnect deref lookup bind_reactor_event unbind_reactor_event
twice_goes_astray = refl

leave_script-Honest : Honest (final_log (main leave_script []))
unfolding ◌>>=◌ while loop main listen_inet wait_round handle_events handle_event handle_data
    handle_connection disconnect deref lookup bind_reactor_event unbind_reactor_event
leave_script-Honest =
    (((refl, tt), (λ p h. ground arith)), (((refl, tt), (λ p h. ground arith)), tt))

reactor_main-NoStray_example : NoStray (final_log (main leave_script []))
reactor_main-NoStray_example = reactor_main-NoStray leave_script leave_script-Honest
