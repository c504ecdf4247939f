-- ===== src/PoolServer/Lifetime/Users.antt =====
-- The tasks of a connection: whatever the threads do, a connection that has any is live.
use practice_code_c_cpp.Prelude.{
  ℕ, ◌+◌, ◌≤◌, ◌≡◌, refl, ◌⊎◌, inl, inr, true, Option, none, some, List, [], ◌∷◌, ◌==◌, sum,
  sum-append, sum-set, get_elem?, set, arith, Option-cases, Bool-cases, ==_iff, subst,
}
use practice_code_c_cpp.SafeQueue.{push, shift, resume, shift_no_wait, wake_spuriously}
use practice_code_c_cpp.WorkerPool.{Worker, ready, waiting, running, take_task, add_queue}
use practice_code_c_cpp.PoolServer
use practice_code_c_cpp.PoolServer.{
  Msg, Handler, begun, handling, notifying, target, Reactor, idle, queueing, responding, sending,
  System, run_handler, run_worker, Action, receive, respond, react, work, wake, on_receive,
  on_respond, on_react, init, fresh_conn,
}
use practice_code_c_cpp.PoolServer.Invariant.{here, task_for, queues}
use practice_code_c_cpp.PoolServer.Lifetime.{
  Life, unmade, live, freed, Server, is_live, connect_at, disconnect_at, on_connect, on_disconnect,
  proceed, work_at, on_action,
}

module _ (c : ℕ) where
  -- A worker in a task of `c`.
  abbrev pub in_task : Worker Handler → ℕ
  in_task ready = 0
  in_task waiting = 0
  in_task (running h) = here c (target h)

  -- The tasks of `c`: queued, in a worker, or about to be queued.
  abbrev pub users : System → ℕ
  users sys = sum (task_for c) sys.task_queue.q + sum in_task sys.workers + queues c sys.reactor

  receive-users :
      (sys : System) (r : Reactor) (d : ℕ) (m : Msg)
      → sys.reactor ≡ r
      → users (on_receive sys r d m) ≤ users sys + here c d
  unfolding on_receive
  receive-users sys idle d m e = ground arith
  receive-users sys (queueing _) d m e = omega arith
  receive-users sys (responding _) d m e = omega arith
  receive-users sys (sending _ _) d m e = omega arith

  respond-users :
      (sys : System) (r : Reactor) (d : ℕ)
      → sys.reactor ≡ r
      → users (on_respond sys r d) ≤ users sys
  unfolding on_respond
  respond-users sys idle d e = ground arith
  respond-users sys (queueing _) d e = omega arith
  respond-users sys (responding _) d e = omega arith
  respond-users sys (sending _ _) d e = omega arith

  react-users : (sys : System) (r : Reactor) → sys.reactor ≡ r → users (on_react sys r) ≤ users sys
  unfolding on_react add_queue push shift_no_wait
  react-users sys idle e = omega arith
  react-users sys (queueing d) e =
      ground (arith, sum-append (task_for c) sys.task_queue.q (some d ∷ []))
  react-users sys (responding d) e = ground arith
  react-users sys (sending d m) e = ground arith

  module _ (sys : System) (i : ℕ) (w : Worker Handler) (at : get_elem? sys.workers i ≡ some w) where
    moved :
        (v : Worker Handler)
        → sum in_task (set sys.workers i v) + in_task w ≡ sum in_task sys.workers + in_task v
    moved v = sum-set in_task sys.workers i v w at

    begun-users :
        (d : ℕ) (q : List Msg)
        → (sys.conn d).req_queue.q ≡ q
        → w ≡ running (begun d)
        → users (run_worker sys i (running (begun d))) ≤ users sys
    unfolding run_worker run_handler shift_no_wait
    begun-users d [] q e = ground (arith, moved ready)
    begun-users d (m ∷ rest) q e = ground (arith, moved (running (handling d m)))

    handler-users : (h : Handler) → w ≡ running h → users (run_worker sys i (running h)) ≤ users sys
    unfolding run_worker run_handler push shift_no_wait
    handler-users (begun d) e = begun-users d _ refl e
    handler-users (handling d m) e = ground (arith, moved (running (notifying d)))
    handler-users (notifying d) e = ground (arith, moved ready)

    take-users :
        (q : List (Option ℕ))
        → sys.task_queue.q ≡ q
        → (w ≡ ready) ⊎ (w ≡ waiting)
        → users (run_worker sys i w) ≤ users sys
    unfolding run_worker take_task shift resume
    take-users [] q e = ground (arith, moved waiting)
    take-users (none ∷ rest) q e = ground (arith, moved ready, moved waiting)
    take-users (some d ∷ rest) q e = ground (arith, moved (running (begun d)), moved waiting)

    worker-users : (u : Worker Handler) → w ≡ u → users (run_worker sys i u) ≤ users sys
    worker-users (running h) e = handler-users h e
    worker-users ready e = rw (← e) (take-users _ refl (inl e))
    worker-users waiting e = rw (← e) (take-users _ refl (inr e))

  work-users : (sys : System) (i : ℕ) → users (PoolServer.step sys (work i)) ≤ users sys
  unfolding PoolServer.step
  work-users sys i = elim (Option-cases (get_elem? sys.workers i)) [
    | inl e ↦ rw (e, PoolServer.step) (omega arith)
    | inr (w, e) ↦ rw (e, PoolServer.step) (worker-users sys i w e w refl)
  ]

  -- A reactor_event that has tasks is live.
  abbrev pub Sound : Server → Type 0
  Sound srv = (srv.life c ≡ live) ⊎ (users srv.sys ≡ 0)

  live_test : (srv : Server) → is_live (srv.life c) ≡ true → srv.life c ≡ live
  live_test srv e = ground arith

  -- A step that adds no task of `c`.
  proceed-Sound :
      (srv : Server) (a : Action)
      → users (PoolServer.step srv.sys a) ≤ users srv.sys
      → Sound srv
      → Sound (proceed srv a)
  unfolding proceed
  proceed-Sound srv a h v = ground arith

  receive-Sound :
      (srv : Server) (d : ℕ) (m : Msg)
      → is_live (srv.life d) ≡ true
      → Sound srv
      → Sound (proceed srv (receive d m))
  unfolding proceed PoolServer.step
  receive-Sound srv d m l v = elim (Bool-cases (d == c)) [
    | inl same ↦
        inl (live_test srv (subst (λ x. is_live (srv.life x) ≡ true) ((==_iff d c).0 same) l))
    | inr other ↦ ground (arith, receive-users srv.sys srv.sys.reactor d m refl)
  ]

  work_at-Sound :
      (srv : Server) (i : ℕ) (o : Option (Worker Handler)) → Sound srv → Sound (work_at srv i o)
  unfolding work_at
  work_at-Sound srv i none v = proceed-Sound srv (work i) (work-users srv.sys i) v
  work_at-Sound srv i (some ready) v = proceed-Sound srv (work i) (work-users srv.sys i) v
  work_at-Sound srv i (some waiting) v = proceed-Sound srv (work i) (work-users srv.sys i) v
  work_at-Sound srv i (some (running h)) v = elim (Bool-cases (is_live (srv.life (target h)))) [
    | inl l ↦ rw l (proceed-Sound srv (work i) (work-users srv.sys i) v)
    | inr n ↦ rw n v
  ]

  pub on_action-Sound : (srv : Server) (a : Action) → Sound srv → Sound (on_action srv a)
  unfolding on_action
  on_action-Sound srv (receive d m) v = elim (Bool-cases (is_live (srv.life d))) [
    | inl l ↦ rw l (receive-Sound srv d m l v)
    | inr n ↦ rw n v
  ]
  on_action-Sound srv (respond d) v = elim (Bool-cases (is_live (srv.life d))) [
    | inl l ↦ rw l (
        proceed-Sound srv (respond d)
          (unfold PoolServer.step in respond-users srv.sys srv.sys.reactor d refl) v)
    | inr n ↦ rw n v
  ]
  on_action-Sound srv react v =
      proceed-Sound srv react (unfold PoolServer.step in react-users srv.sys srv.sys.reactor refl) v
  on_action-Sound srv wake v =
      proceed-Sound srv wake (unfold PoolServer.step wake_spuriously in ground arith) v
  on_action-Sound srv (work i) v = work_at-Sound srv i (get_elem? srv.sys.workers i) v

  pub on_connect-Sound : (srv : Server) (d : ℕ) → Sound srv → Sound (on_connect srv d)
  unfolding on_connect
  on_connect-Sound srv d v = made (srv.life d) refl
    where
      made : (x : Life) → srv.life d ≡ x → Sound (connect_at srv d x)
      made live e = v
      made freed e = v
      made unmade e = ground arith

  pub on_disconnect-Sound :
      (srv : Server) (d : ℕ)
      → ((d == c) ≡ true → users srv.sys ≡ 0)
      → Sound srv
      → Sound (on_disconnect srv d)
  unfolding on_disconnect
  on_disconnect-Sound srv d none_left v = left srv.sys.reactor
    where
      left : (r : Reactor) → Sound (disconnect_at srv d r)
      left idle = elim (Bool-cases (is_live (srv.life d))) [
        | inl l ↦ rw l (ground arith)
        | inr n ↦ rw n v
      ]
      left (queueing e) = v
      left (responding e) = v
      left (sending e m) = v
