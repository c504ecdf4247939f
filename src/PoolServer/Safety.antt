-- ===== src/PoolServer/Safety.antt =====
-- What the invariant says of the handlers: their queues are never empty, and no message is lost,
-- doubled or made up.
use practice_code_c_cpp.Prelude.{
  ℕ, ◌+◌, ◌≡◌, refl, some, List, arith, sum, get_elem?, get_elem?-le-sum, sum-replicate,
}
use practice_code_c_cpp.SafeQueue.{shift_no_wait, empty_queue}
use practice_code_c_cpp.SafeQueue.Fifo.{shift_no_wait-nonempty}
use practice_code_c_cpp.WorkerPool.{ready, running, start}
use practice_code_c_cpp.PoolServer.{Msg, begun, responding, System, Action, run, fresh_conn, init}
use practice_code_c_cpp.PoolServer.Invariant.{
  Inv, run-Inv, begins, notifies, held_by, held_by_reactor,
}

init-Inv : (c : ℕ) (weight : Msg → ℕ) (n : ℕ) → Inv c weight (init n)
unfolding init fresh_conn empty_queue start
init-Inv c weight n = record {
  tasks = omega (arith, sum-replicate (begins c) n ready refl);
  signals = omega (arith, sum-replicate (notifies c) n ready refl);
  conserved = omega (arith, sum-replicate (held_by c weight) n ready refl);
}

module _ (n : ℕ) (acts : List Action) (c : ℕ) where
  abbrev reached : System
  reached = run (init n) acts

  reached-Inv : (weight : Msg → ℕ) → Inv c weight reached
  reached-Inv weight = run-Inv c weight (init n) acts (init-Inv c weight n)

  -- A worker that begins a task of a connection finds a request in the connection's queue: the
  -- branch of data_handler for an empty queue is never taken.
  pub request_present :
      (i : ℕ)
      → get_elem? reached.workers i ≡ some (running (begun c))
      → (m : Msg) × ((shift_no_wait (reached.conn c).req_queue).0 ≡ some m)
  request_present i at = shift_no_wait-nonempty (reached.conn c).req_queue (
      grind
        (arith, (reached-Inv (λ _. 1)).tasks, get_elem?-le-sum (begins c) reached.workers i _ at))

  -- Nor does rsp_handler find an empty response queue, once its read of the eventfd succeeded.
  pub response_present :
      reached.reactor ≡ responding c
      → (m : Msg) × ((shift_no_wait (reached.conn c).rsp_queue).0 ≡ some m)
  response_present at =
      shift_no_wait-nonempty (reached.conn c).rsp_queue
        (ground (arith, (reached-Inv (λ _. 1)).signals))

  -- At any time each message received on the connection is in one place: in a queue, with a worker
  -- or the reactor, or sent. Counted by an arbitrary weight, so that nothing is lost, doubled, made
  -- up or taken from another connection.
  pub messages_conserved :
      (weight : Msg → ℕ)
      → sum weight (reached.conn c).received
        ≡ sum weight (reached.conn c).req_queue.q
          + sum (held_by c weight) reached.workers
          + sum weight (reached.conn c).rsp_queue.q
          + held_by_reactor c weight reached.reactor
          + sum weight (reached.conn c).sent
  messages_conserved weight = (reached-Inv weight).conserved
