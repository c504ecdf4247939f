-- ===== src/ReactorServer/Safety.antt =====
-- The reactor_event records are made and freed in step with epoll, so that no event leads to one
-- that was freed.
use practice_code_c_cpp.Prelude.{
  ℕ, ◌+◌, ◌≡◌, refl, false, ◌||◌, Option, none, some, List, [], ◌∷◌, take, map, ◌==◌, arith,
}
use practice_code_c_cpp.Posix.{
  Script, Log, final_log, Address, asked, Call, Reply, Event, nonzero, value, memory, events_of,
  bytes_of, failed, ask, sock_stream, int_of, epollout, epollin,
}
use practice_code_c_cpp.Posix.Keeps.{
  Ends, Ends-final_log, Round, Triple, Triple-bind, Triple-ask, Triple-tell, Triple-if, Triple-pure,
  Triple-halt, Triple-while, Triple-from, Steady, Steady-bind,
}
use practice_code_c_cpp.Posix.Sockets.{handle_error, listen_inet, store, zeroed, buffer_size}
use practice_code_c_cpp.Posix.Flow.{continue}
use practice_code_c_cpp.ReactorServer.{
  Callback, connection_handler, data_handler, ReactorEvent, Heap, lookup, deref, at_address,
  bind_reactor_event, unbind_reactor_event, handle_data, handle_connection, handle_event,
  handle_events, wait_round, main, call, disconnect, answer,
}
use practice_code_c_cpp.ReactorServer.Memory.{
  reported, Honest, NoStray, Safe, Tracks, clean_of, moved, skip, no_stray, deleted, added, waited,
}

deref-Tracks :
    (todo : List ℕ) (heap : Heap) (p : ℕ)
    → Triple Safe (λ rev. Tracks (p ∷ todo) heap) (Tracks (p ∷ todo) heap) (deref heap p)
unfolding deref
deref-Tracks todo heap p = go (lookup heap p) refl
  where
    go :
        (o : Option ReactorEvent)
        → lookup heap p ≡ o
        → Triple Safe (λ rev. Tracks (p ∷ todo) heap) (Tracks (p ∷ todo) heap) (at_address o p)
    go none e =
        Triple-bind {Q = λ _. Safe} (Triple-tell _ (λ l t h. no_stray p todo heap l e (t h)))
          (λ _. Triple-halt _ (λ l t. t))
    go (some rev) e = Triple-pure rev (λ l t. t)

disconnect-Tracks :
    (todo : List ℕ) (heap : Heap) (efd : ℕ) (ev : Event) (rev : ReactorEvent)
    → Triple Safe (Tracks todo) (Tracks (ev.fd ∷ todo) heap) (disconnect heap efd ev rev)
unfolding disconnect handle_error
disconnect-Tracks todo heap efd ev rev =
    Triple-bind
      {Q = λ r l. Safe l × (nonzero r ≡ false → Tracks todo (unbind_reactor_event heap ev.fd) l)}
      (Triple-ask _ (clean_of (ev.fd ∷ todo) heap) (λ r l t.
        ((λ h. (t h).clean), (λ n. deleted efd rev.client_fd ev.events ev.fd todo heap r l n t))))
      λ r.
        Triple-if (nonzero r) (λ _. Triple-halt _ (λ l t. t.0))
          (λ n.
            Triple-bind {Q = λ _. Tracks todo (unbind_reactor_event heap ev.fd)}
              (Triple-tell (Call.close rev.client_fd) (λ l t h.
                moved todo (unbind_reactor_event heap ev.fd) l _ (t.1 n h).clean (t.1 n h).agree
                  (t.1 n h)))
              (λ _. Triple-pure _ (λ l t. t)))

answer-Tracks :
    (todo : List ℕ) (heap : Heap) (rev : ReactorEvent) (buf : List ℕ)
    → Triple Safe (Tracks todo) (Tracks todo heap) (answer heap rev buf)
unfolding answer handle_error
answer-Tracks todo heap rev buf =
    Triple-bind {Q = λ _. Tracks todo heap}
      (Triple-tell (Call.sleep 1) (λ l t h. moved todo heap l _ (t h).clean (t h).agree (t h)))
      λ _.
        Triple-bind {Q = λ _. Tracks todo heap}
          (Triple-ask (Call.send rev.client_fd buf) (clean_of todo heap)
            (λ r l t h. moved todo heap l _ (t h).clean (t h).agree (t h)))
          λ r.
            Triple-if (failed r) (λ _. Triple-halt _ (clean_of todo heap))
              (λ _. Triple-pure _ (λ l t. t))

handle_data-Tracks :
    (todo : List ℕ) (heap : Heap) (efd : ℕ) (ev : Event)
    → Triple Safe (Tracks todo) (Tracks (ev.fd ∷ todo) heap) (handle_data heap efd ev)
unfolding handle_data
handle_data-Tracks todo heap efd ev = Triple-bind (deref-Tracks todo heap ev.fd) λ rev.
    Triple-bind {Q = λ _. Tracks (ev.fd ∷ todo) heap}
      (Triple-ask (Call.recv rev.client_fd buffer_size) (clean_of (ev.fd ∷ todo) heap)
        (λ r l t h. moved (ev.fd ∷ todo) heap l _ (t h).clean (t h).agree (t h)))
      λ size.
        Triple-if (failed size || value size == 0) (λ _. disconnect-Tracks todo heap efd ev rev)
          (λ _.
            Triple-from (skip ev.fd todo heap)
              (answer-Tracks todo heap rev (store zeroed (bytes_of (memory size)))))

handle_connection-Tracks :
    (todo : List ℕ) (heap : Heap) (efd : ℕ) (ev : Event)
    → Triple Safe (Tracks todo) (Tracks (ev.fd ∷ todo) heap) (handle_connection heap efd ev)
unfolding handle_connection handle_error bind_reactor_event
handle_connection-Tracks todo heap efd ev = Triple-bind (deref-Tracks todo heap ev.fd) λ rev.
    Triple-bind {Q = λ _. Tracks todo heap}
      (Triple-ask (Call.accept rev.client_fd) (clean_of (ev.fd ∷ todo) heap)
        (λ r l t h. moved todo heap l _ (t h).clean (t h).agree (skip ev.fd todo heap l t h)))
      λ cfd.
        Triple-if (failed cfd) (λ _. Triple-halt _ (clean_of todo heap))
          (λ _.
            Triple-bind
              {Q = λ r l.
                Safe l
                × (nonzero r ≡ false
                    → Tracks todo (bind_reactor_event heap (value cfd) data_handler).1 l)}
              (Triple-ask _ (clean_of todo heap) (λ r l t. (
                (λ h. (t h).clean),
                (λ n. added efd (value cfd) epollin data_handler todo heap r l n t),
              )))
              (λ r.
                Triple-if (nonzero r) (λ _. Triple-halt _ (λ l t. t.0))
                  (λ n. Triple-pure _ (λ l t. t.1 n))))

call-Tracks :
    (callback : Callback) (todo : List ℕ) (heap : Heap) (efd : ℕ) (ev : Event)
    → Triple Safe (Tracks todo) (Tracks (ev.fd ∷ todo) heap) (call callback heap efd ev)
call-Tracks connection_handler todo heap efd ev = handle_connection-Tracks todo heap efd ev
call-Tracks data_handler todo heap efd ev = handle_data-Tracks todo heap efd ev

abbrev ptrs : List Event → List ℕ
ptrs = map (λ e. e.fd)

handle_events-Tracks :
    (efd : ℕ) (heap : Heap) (evs : List Event)
    → Triple Safe (Tracks []) (Tracks (ptrs evs) heap) (handle_events efd heap evs)
unfolding handle_events handle_event
handle_events-Tracks efd heap [] = Triple-pure heap (λ l t. t)
handle_events-Tracks efd heap (ev ∷ evs) =
    Triple-bind
      (Triple-bind (deref-Tracks (ptrs evs) heap ev.fd)
        (λ rev. call-Tracks rev.callback (ptrs evs) heap efd ev))
      (λ heap₁. handle_events-Tracks efd heap₁ evs)

wait_round-Tracks :
    (efd : ℕ) (heap : Heap)
    → Triple Safe (Round (Tracks []) (λ _. Safe)) (Tracks [] heap) (wait_round efd heap)
unfolding wait_round handle_error
wait_round-Tracks efd heap =
    Triple-bind {Q = λ r. Tracks (reported r) heap}
      (Triple-ask (Call.epoll_wait efd 10) (clean_of [] heap) (waited efd 10 heap))
      λ r.
        Triple-if (failed r) (λ _. Triple-halt _ (clean_of (reported r) heap))
          (λ _.
            Triple-bind (handle_events-Tracks efd heap (take (value r) (events_of (memory r))))
              (λ heap₁. Triple-pure (continue heap₁) (λ l t. t)))

first-Tracks : Tracks [] [] []
unfolding lookup
first-Tracks h = record {
  clean = tt;
  agree = λ p. refl;
  still = λ p k. ground arith;
  distinct = tt;
}

ask-Tracks :
    (c : Call)
    → ((r : Reply) (l : Log) → Tracks [] [] l → Tracks [] [] (asked c r ∷ l))
    → Triple Safe (λ _. Tracks [] []) (Tracks [] []) (ask c)
ask-Tracks c m = Triple-ask c (clean_of [] []) m

listen_inet-Tracks : (type backlog : ℕ) → Steady Safe (Tracks [] []) (listen_inet type backlog)
unfolding listen_inet handle_error
listen_inet-Tracks type backlog =
    Steady-bind
      (ask-Tracks (Call.socket type) (λ r l t h. moved [] [] l _ (t h).clean (t h).agree (t h)))
      λ sfd.
        Steady-bind
          (ask-Tracks (Call.bind (int_of sfd) Address.any 8080)
            (λ r l t h. moved [] [] l _ (t h).clean (t h).agree (t h)))
          λ bound.
            Triple-if (nonzero bound) (λ _. Triple-halt _ (clean_of [] []))
              (λ _.
                Steady-bind
                  (ask-Tracks (Call.listen (int_of sfd) backlog)
                    (λ r l t h. moved [] [] l _ (t h).clean (t h).agree (t h)))
                  (λ ret.
                    Triple-if (nonzero ret) (λ _. Triple-halt _ (clean_of [] []))
                      (λ _. Triple-pure _ (λ l t. t))))

main-Safe : (s : Script) → Ends Safe (λ _. Safe) (main s [])
unfolding main handle_error bind_reactor_event
main-Safe s =
    (Triple-bind
        (ask-Tracks (Call.epoll_create 10)
          (λ r l t h. moved [] [] l _ (t h).clean (t h).agree (t h)))
        λ efd. Triple-bind (listen_inet-Tracks sock_stream 2) λ sfd.
          Triple-bind
            {Q = λ r l.
              Safe l
              × (nonzero r ≡ false → Tracks [] (bind_reactor_event [] sfd connection_handler).1 l)}
            (Triple-ask _ (clean_of [] []) (λ r l t. (
              (λ h. (t h).clean),
              (λ n. added (int_of efd) sfd (epollin + epollout) connection_handler [] [] r l n t),
            )))
            (λ r.
              Triple-if (nonzero r) (λ _. Triple-halt _ (λ l t. t.0))
                (λ n.
                  Triple-from (λ l t. t.1 n)
                    (Triple-while (λ _. Safe) (Tracks []) (clean_of []) (wait_round (int_of efd))
                      (wait_round-Tracks (int_of efd))
                      (bind_reactor_event [] sfd connection_handler).1)))).at
      s [] first-Tracks

-- As long as epoll_wait keeps its promise in a run (it reports what is registered, and nothing twice
-- in one call), the run accesses no reactor_event that was freed or never made, whatever else the
-- system answers.
pub reactor_main-NoStray :
    (s : Script) → Honest (final_log (main s [])) → NoStray (final_log (main s []))
reactor_main-NoStray s = Ends-final_log Safe (main s []) (main-Safe s)
