-- ===== src/Tests/Tasks.antt =====
-- Runs of the server of linux_event/libevent/3.single_reactor_multi_worker.
use practice_code_c_cpp.Prelude.{◌+◌, ◌≡◌, refl, true, List, [], ◌∷◌, length, sum}
use practice_code_c_cpp.Posix.Sockets.{store, zeroed}
use practice_code_c_cpp.ConditionPool
use practice_code_c_cpp.ConditionPool.{running, take_task, add_queue}
use practice_code_c_cpp.TaskServer.{
  answering, message, later, Action, accept, event, work, on_accept, on_event, on_recv, run_handler,
  run_worker, step, run, init,
}
use practice_code_c_cpp.TaskServer.Weights.{carried}
use practice_code_c_cpp.TaskServer.Conservation.{held_by, each_answered}
use practice_code_c_cpp.TaskServer.Ownership.{tasks}
use practice_code_c_cpp.TaskServer.Closing.{works_on_own}

-- Worker 0 answers one message of connection 5 and holds the next.
abbrev two_messages : List Action
two_messages =
    accept 5
    ∷ event 5 0
    ∷ work 0 later
    ∷ work 0 (message (1 ∷ []))
    ∷ work 0 later
    ∷ work 0 (message (2 ∷ []))
    ∷ []

one_sent : length ((run (init 2) two_messages).sent 5) ≡ 1
unfolding run step init ConditionPool.start on_accept on_event run_worker run_handler on_recv
    take_task add_queue ConditionPool.notify_one
one_sent = refl

each_answered_example :
    sum length ((run (init 2) two_messages).received 5)
    ≡ sum length ((run (init 2) two_messages).sent 5)
      + sum (carried (held_by 5 length)) (run (init 2) two_messages).pool.workers
each_answered_example = each_answered 5 length 2 two_messages

works_on_own_example :
    (tasks 5 (run (init 2) two_messages) ≡ 1) × ((run (init 2) two_messages).is_open 5 ≡ true)
unfolding run step init ConditionPool.start on_accept on_event run_worker run_handler on_recv
    take_task add_queue ConditionPool.notify_one
works_on_own_example =
    works_on_own 2 two_messages (refl, tt) 5 0 (answering 5 (store zeroed (2 ∷ []))) refl refl
