-- ===== src/Tests/Threads.antt =====
-- Runs of the queue and of the pool server.
use practice_code_c_cpp.Prelude.{
  ℕ, ◌+◌, ◌≡◌, refl, inr, List, [], ◌∷◌, ◌++◌, some, length, sum, get_elem?,
}
use practice_code_c_cpp.SafeQueue.{
  SafeQueue, Op, pushes, shifts, resumes, shifts_no_wait, empty_queue, push, shift, resume,
  shift_no_wait, wake_spuriously,
}
use practice_code_c_cpp.SafeQueue
use practice_code_c_cpp.SafeQueue.Fifo.{run_fifo}
use practice_code_c_cpp.SafeQueue.Wakeup.{Awake, run-Awake}
use practice_code_c_cpp.WorkerPool.{running, start, take_task, add_queue}
use practice_code_c_cpp.PoolServer.{
  Msg, Action, receive, respond, react, work, begun, responding, run, step, init, fresh_conn,
  on_receive, on_respond, on_react, run_worker, run_handler,
}
use practice_code_c_cpp.PoolServer.Invariant.{held_by, held_by_reactor}
use practice_code_c_cpp.PoolServer.Safety.{request_present, response_present, messages_conserved}

-- Two threads wait, two values come, and one of the threads is woken twice.
abbrev calls : List (Op ℕ)
calls = shifts ∷ shifts ∷ pushes 7 ∷ pushes 8 ∷ resumes ∷ resumes ∷ shifts_no_wait ∷ []

abbrev no_values : SafeQueue ℕ
no_values = record { q = []; asleep = 0; woken = 0 }

values_in_order : (SafeQueue.run no_values calls).0 ≡ 7 ∷ 8 ∷ []
unfolding SafeQueue.run SafeQueue.step push shift resume shift_no_wait
values_in_order = refl

run_fifo_example :
    (SafeQueue.run no_values calls).0 ++ (SafeQueue.run no_values calls).1.q ≡ 7 ∷ 8 ∷ []
run_fifo_example = run_fifo no_values calls

run-Awake_example : Awake (SafeQueue.run no_values calls).1
run-Awake_example = run-Awake no_values calls (inr refl)

abbrev hi : Msg
hi = 104 ∷ 105 ∷ []

-- A request of connection 5 up to the worker's look at it, up to the reactor's, and to its end.
abbrev to_worker : List Action
to_worker = receive 5 hi ∷ react ∷ work 0 ∷ []

abbrev to_reactor : List Action
to_reactor = receive 5 hi ∷ react ∷ work 0 ∷ work 0 ∷ work 0 ∷ work 0 ∷ respond 5 ∷ []

abbrev to_client : List Action
to_client =
    receive 5 hi ∷ react ∷ work 0 ∷ work 0 ∷ work 0 ∷ work 0 ∷ respond 5 ∷ react ∷ react ∷ []

at_worker : get_elem? (run (init 1) to_worker).workers 0 ≡ some (running (begun 5))
unfolding run step init fresh_conn empty_queue start on_receive on_react run_worker take_task
    add_queue push shift
at_worker = refl

at_reactor : (run (init 1) to_reactor).reactor ≡ responding 5
unfolding run step init fresh_conn empty_queue start on_receive on_respond on_react run_worker
    run_handler take_task add_queue push shift shift_no_wait
at_reactor = refl

request_present_example :
    (m : Msg) × ((shift_no_wait ((run (init 1) to_worker).conn 5).req_queue).0 ≡ some m)
request_present_example = request_present 1 to_worker 5 0 at_worker

response_present_example :
    (m : Msg) × ((shift_no_wait ((run (init 1) to_reactor).conn 5).rsp_queue).0 ≡ some m)
response_present_example = response_present 1 to_reactor 5 at_reactor

messages_conserved_example :
    sum length ((run (init 1) to_reactor).conn 5).received
    ≡ sum length ((run (init 1) to_reactor).conn 5).req_queue.q
      + sum (held_by 5 length) (run (init 1) to_reactor).workers
      + sum length ((run (init 1) to_reactor).conn 5).rsp_queue.q
      + held_by_reactor 5 length (run (init 1) to_reactor).reactor
      + sum length ((run (init 1) to_reactor).conn 5).sent
messages_conserved_example = messages_conserved 1 to_reactor 5 length
