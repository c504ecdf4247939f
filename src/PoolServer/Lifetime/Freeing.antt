-- ===== src/PoolServer/Lifetime/Freeing.antt =====
-- Whether a worker of the pool finds the reactor_event of its task.
use practice_code_c_cpp.Prelude.{
  ℕ, ◌≤◌, ◌≡◌, refl, ◌⊎◌, inl, inr, true, false, Option, none, some, List, [], ◌∷◌, sum, get_elem?,
  get_elem?-le-sum, arith, Bool-cases, ==_iff, subst, ◌∙◌, replicate, zero, suc,
}
use practice_code_c_cpp.SafeQueue.{push, shift, empty_queue}
use practice_code_c_cpp.WorkerPool.{Worker, ready, waiting, running, take_task, add_queue, start}
use practice_code_c_cpp.PoolServer
use practice_code_c_cpp.PoolServer.{
  Msg, Handler, begun, handling, notifying, target, Reactor, idle, queueing, responding, sending,
  System, run_handler, run_worker, Action, receive, respond, react, work, wake, on_receive,
  on_respond, on_react, init, fresh_conn,
}
use practice_code_c_cpp.PoolServer.Lifetime.{
  Life, unmade, live, freed, Server, is_live, connect_at, disconnect_at, on_connect, on_disconnect,
  proceed, work_at, on_action, Event, connect, disconnect, act, on_event, serve, begin,
}
use practice_code_c_cpp.PoolServer.Lifetime.Users.{
  in_task, users, Sound, on_action-Sound, on_connect-Sound, on_disconnect-Sound,
}

-- Where a connection ends, the pool has no task of it.
abbrev Quiet : Server → List Event → Type 0
Quiet srv [] = Unit
Quiet srv (connect d ∷ es) = Quiet (on_event srv (connect d)) es
Quiet srv (disconnect d ∷ es) = (users d srv.sys ≡ 0) × Quiet (on_event srv (disconnect d)) es
Quiet srv (act a ∷ es) = Quiet (on_event srv (act a)) es

abbrev AllSound : Server → Type 0
AllSound srv = ((c : ℕ) → Sound c srv) × (srv.stray ≡ false)

work_at-stray :
    (srv : Server) (i : ℕ) (o : Option (Worker Handler))
    → get_elem? srv.sys.workers i ≡ o
    → AllSound srv
    → (work_at srv i o).stray ≡ false
unfolding work_at proceed
work_at-stray srv i none e v = v.1
work_at-stray srv i (some ready) e v = v.1
work_at-stray srv i (some waiting) e v = v.1
work_at-stray srv i (some (running h)) e v = rw (found, work_at) v.1
  where
    there : 1 ≤ users (target h) srv.sys
    there = ground (arith, get_elem?-le-sum (in_task (target h)) srv.sys.workers i (running h) e)

    found : is_live (srv.life (target h)) ≡ true
    found = ground (arith, v.0 (target h), there)

on_action-stray : (srv : Server) (a : Action) → AllSound srv → (on_action srv a).stray ≡ false
unfolding on_action proceed
on_action-stray srv (receive d m) v = elim (Bool-cases (is_live (srv.life d))) [
  | inl l ↦ rw l v.1
  | inr n ↦ rw n v.1
]
on_action-stray srv (respond d) v = elim (Bool-cases (is_live (srv.life d))) [
  | inl l ↦ rw l v.1
  | inr n ↦ rw n v.1
]
on_action-stray srv react v = v.1
on_action-stray srv wake v = v.1
on_action-stray srv (work i) v = work_at-stray srv i (get_elem? srv.sys.workers i) refl v

on_connect-stray : (srv : Server) (d : ℕ) → (on_connect srv d).stray ≡ srv.stray
unfolding on_connect
on_connect-stray srv d = made (srv.life d)
  where
    made : (x : Life) → (connect_at srv d x).stray ≡ srv.stray
    made live = refl
    made freed = refl
    made unmade = refl

on_disconnect-stray : (srv : Server) (d : ℕ) → (on_disconnect srv d).stray ≡ srv.stray
unfolding on_disconnect
on_disconnect-stray srv d = left srv.sys.reactor
  where
    left : (r : Reactor) → (disconnect_at srv d r).stray ≡ srv.stray
    left idle = elim (Bool-cases (is_live (srv.life d))) [ inl l ↦ rw l refl | inr n ↦ rw n refl ]
    left (queueing e) = refl
    left (responding e) = refl
    left (sending e m) = refl

serve-AllSound :
    (es : List Event) (srv : Server) → Quiet srv es → AllSound srv → AllSound (serve srv es)
unfolding serve on_event
serve-AllSound [] srv q v = v
serve-AllSound (connect d ∷ es) srv q v =
    serve-AllSound es (on_connect srv d) q
      (λ c. on_connect-Sound c srv d (v.0 c), on_connect-stray srv d ∙ v.1)
serve-AllSound (disconnect d ∷ es) srv q v = serve-AllSound es (on_disconnect srv d) q.1 (
  λ c.
      on_disconnect-Sound c srv d (λ e. subst (λ x. users x srv.sys ≡ 0) ((==_iff d c).0 e) q.0)
        (v.0 c),
  on_disconnect-stray srv d ∙ v.1,
)
serve-AllSound (act a ∷ es) srv q v =
    serve-AllSound es (on_action srv a) q
      (λ c. on_action-Sound c srv a (v.0 c), on_action-stray srv a v)

idle_pool : (c n : ℕ) → sum (in_task c) (replicate n ready) ≡ 0
idle_pool c zero = refl
idle_pool c (suc n) = omega (arith, idle_pool c n)

-- As long as a connection ends only when the pool has no task of it: in every run, with any number
-- of workers and connections, each worker finds the reactor_event of its task, and a connection that
-- has a task is live.
pub no_stray :
    (pool_size : ℕ) (es : List Event) (c : ℕ)
    → Quiet (begin pool_size) es
    → ((serve (begin pool_size) es).stray ≡ false)
      × (((serve (begin pool_size) es).life c ≡ live)
          ⊎ (users c (serve (begin pool_size) es).sys ≡ 0))
unfolding begin init empty_queue start
no_stray pool_size es c q =
    let (sound, never) =
      serve-AllSound es (begin pool_size) q
        (λ d. inr (omega (arith, idle_pool d pool_size)), refl) in
    (never, sound c)

-- A client that sends a message and ends its connection before the pool has handled it: the worker
-- accesses the reactor_event that was freed.
freed_in_use :
    (c : ℕ) (m : Msg)
    → (serve (begin 1) (
        connect c
        ∷ act (receive c m)
        ∷ act react
        ∷ disconnect c
        ∷ act (work 0)
        ∷ act (work 0)
        ∷ [])).stray
      ≡ true
unfolding serve begin on_event on_connect connect_at on_disconnect disconnect_at on_action proceed
    work_at PoolServer.step on_receive on_react run_worker take_task add_queue push shift init
    empty_queue start
freed_in_use c m = ground arith
