-- ===== src/Tests/Lifetime.antt =====
-- A connection of linux_event/libevent/3.1single_reactor_multi_worker/server.cpp that comes and goes.
use practice_code_c_cpp.Prelude.{◌≡◌, ◌⊎◌, refl, false, List, [], ◌∷◌}
use practice_code_c_cpp.SafeQueue.{push, shift, shift_no_wait, resume, empty_queue}
use practice_code_c_cpp.WorkerPool.{start, add_queue, take_task}
use practice_code_c_cpp.PoolServer
use practice_code_c_cpp.PoolServer.{
  receive, react, work, on_receive, on_react, run_worker, run_handler, init,
}
use practice_code_c_cpp.PoolServer.Lifetime.{
  live, freed, connect, disconnect, act, Event, connect_at, disconnect_at, on_connect,
  on_disconnect, proceed, work_at, on_action, on_event, serve, begin,
}
use practice_code_c_cpp.PoolServer.Lifetime.Users.{users}
use practice_code_c_cpp.PoolServer.Lifetime.Freeing.{no_stray}

-- Its request is handled before it ends.
abbrev one_visit : List Event
one_visit =
    connect 7
    ∷ act (receive 7 (1 ∷ 2 ∷ []))
    ∷ act react
    ∷ act (work 0)
    ∷ act (work 0)
    ∷ act (work 0)
    ∷ act (work 0)
    ∷ disconnect 7
    ∷ []

gone : (serve (begin 1) one_visit).life 7 ≡ freed
unfolding serve begin on_event on_connect connect_at on_disconnect disconnect_at on_action proceed
    work_at PoolServer.step on_receive on_react run_worker run_handler take_task add_queue push
    shift init empty_queue start shift_no_wait resume PoolServer.fresh_conn
gone = refl

no_stray_example :
    ((serve (begin 1) one_visit).stray ≡ false)
    × (((serve (begin 1) one_visit).life 7 ≡ live) ⊎ (users 7 (serve (begin 1) one_visit).sys ≡ 0))
unfolding serve begin on_event on_connect connect_at on_disconnect disconnect_at on_action proceed
    work_at PoolServer.step on_receive on_react run_worker run_handler take_task add_queue push
    shift init empty_queue start shift_no_wait resume PoolServer.fresh_conn
no_stray_example = no_stray 1 one_visit 7 (refl, tt)
