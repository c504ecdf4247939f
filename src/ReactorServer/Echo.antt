-- ===== src/ReactorServer/Echo.antt =====
-- The server answers each message by the whole buffer that holds it.
use practice_code_c_cpp.Prelude.{
  ℕ, refl, none, some, Option, List, [], ◌∷◌, ◌||◌, ◌==◌, length, arith,
}
use practice_code_c_cpp.Posix.{Log, told, Script, Event, Call, failed, value, int_of, sock_stream}
use practice_code_c_cpp.Posix.Uses.{
  Uses, Takes, uses_rules, Uses-ask, Uses-bind, Uses-while, Uses-if, Uses-pure, Uses-weaken,
  Uses-halt, Uses-tell,
}
use practice_code_c_cpp.Posix.Keeps.{
  Ends, Steady, Triple-bind, Triple-if, Triple-pure, Steady-bind, Steady-while, Triple-halt,
  Triple-from, Triple-tell, steady_rules,
}
use practice_code_c_cpp.Posix.Sockets.{handle_error, buffer_size, listen_inet-Uses}
use practice_code_c_cpp.Posix.Views.{whole_buffer}
use practice_code_c_cpp.Posix.Echoing.{
  Echoed, OneBehind, Due, Echoed-or_behind, ended-Due, listen_inet-Echoed, recv-Due, send-Echoed,
}
use practice_code_c_cpp.ReactorServer.{
  Callback, connection_handler, data_handler, ReactorEvent, Heap, lookup, at_address, deref,
  disconnect, answer, handle_data, handle_connection, call, handle_event, handle_events, wait_round,
  main, bind_reactor_event,
}

deref-Uses : (heap : Heap) (p : ℕ) → Uses 0 (deref heap p)
unfolding deref
deref-Uses heap p = go (lookup heap p)
  where
    go : (o : Option ReactorEvent) → Uses 0 (at_address o p)
    go none = Uses-bind (Uses-tell _) (λ _. Uses-halt 0 _ tt)
    go (some rev) = Uses-pure rev

disconnect-Uses :
    (heap : Heap) (efd : ℕ) (ev : Event) (rev : ReactorEvent) → Uses 0 (disconnect heap efd ev rev)
unfolding disconnect handle_error
disconnect-Uses heap efd ev rev = search (uses_rules, Uses-halt) depth 9

answer-Uses : (heap : Heap) (rev : ReactorEvent) (buf : List ℕ) → Uses 0 (answer heap rev buf)
unfolding answer handle_error
answer-Uses heap rev buf = search (uses_rules, Uses-halt) depth 9

call-Uses :
    (callback : Callback) (heap : Heap) (efd : ℕ) (ev : Event) → Uses 0 (call callback heap efd ev)
unfolding handle_data handle_connection handle_error
call-Uses connection_handler heap efd ev = search (uses_rules, Uses-halt, deref-Uses) depth 12
call-Uses data_handler heap efd ev =
    search (uses_rules, deref-Uses, disconnect-Uses, answer-Uses) depth 9

handle_events-Uses :
    (efd : ℕ) (heap : Heap) (evs : List Event) → Uses 0 (handle_events efd heap evs)
unfolding handle_events handle_event
handle_events-Uses efd heap [] = Uses-pure heap
handle_events-Uses efd heap (ev ∷ evs) =
    Uses-bind (Uses-bind (deref-Uses heap ev.fd) (λ rev. call-Uses rev.callback heap efd ev))
      (λ heap₁. handle_events-Uses efd heap₁ evs)

wait_round-Uses : (efd : ℕ) (heap : Heap) → Uses 1 (wait_round efd heap)
unfolding wait_round handle_error
wait_round-Uses efd heap = search (uses_rules, Uses-halt, handle_events-Uses) depth 9

-- The fuel of the loop is enough.
pub reactor_main-Takes : (s : Script) (l : Log) → Takes 1 (length s) (main s l)
unfolding main handle_error bind_reactor_event
reactor_main-Takes s l =
    (Uses-bind (Uses-ask (Call.epoll_create 10)) (λ efd.
        Uses-bind (Uses-weaken (listen_inet-Uses sock_stream 2)) (λ sfd.
          Uses-bind (Uses-weaken (Uses-ask _)) (λ r.
            Uses-if _ (Uses-halt 0 _ tt) (Uses-while _ (wait_round-Uses (int_of efd)) _))))).at
      s l

ruleset echo_rules = (steady_rules, Echoed-or_behind, Triple-halt)

deref-Steady :
    {H P : Log → Type 0} (heap : Heap) (p : ℕ)
    → ((l : Log) → P l → H l)
    → ((l : Log) → P l → P (told (Call.stray p) ∷ l))
    → Steady H P (deref heap p)
unfolding deref
deref-Steady {H} {P} heap p weaken stray = go (lookup heap p)
  where
    go : (o : Option ReactorEvent) → Steady H P (at_address o p)
    go none = Steady-bind (Triple-tell _ stray) (λ _. Triple-halt _ weaken)
    go (some rev) = Triple-pure rev (λ l h. h)

deref-Echoed :
    (heap : Heap) (p : ℕ) → Steady (OneBehind whole_buffer) (Echoed whole_buffer) (deref heap p)
deref-Echoed heap p = deref-Steady heap p (Echoed-or_behind whole_buffer) (λ l h. h)

disconnect-Echoed :
    (heap : Heap) (efd : ℕ) (ev : Event) (rev : ReactorEvent)
    → Steady (OneBehind whole_buffer) (Echoed whole_buffer) (disconnect heap efd ev rev)
unfolding disconnect handle_error
disconnect-Echoed heap efd ev rev = search echo_rules depth 9

handle_data-Echoed :
    (heap : Heap) (efd : ℕ) (ev : Event)
    → Steady (OneBehind whole_buffer) (Echoed whole_buffer) (handle_data heap efd ev)
unfolding handle_data answer handle_error
handle_data-Echoed heap efd ev = Triple-bind (deref-Echoed heap ev.fd) λ rev.
    Triple-bind (recv-Due whole_buffer rev.client_fd buffer_size) λ r.
      Triple-if (failed r || value r == 0)
        (λ h.
          Triple-from (λ l d. ended-Due whole_buffer rev.client_fd r l h d)
            (disconnect-Echoed heap efd ev rev))
        (λ h.
          Triple-bind {Q = λ _. Due whole_buffer rev.client_fd r}
            (Triple-tell (Call.sleep 1) (λ l d. d))
            (λ _.
              Triple-bind (send-Echoed whole_buffer rev.client_fd r (ground arith) (ground arith))
                (λ w. search echo_rules depth 9)))

handle_connection-Echoed :
    (heap : Heap) (efd : ℕ) (ev : Event)
    → Steady (OneBehind whole_buffer) (Echoed whole_buffer) (handle_connection heap efd ev)
unfolding handle_connection handle_error
handle_connection-Echoed heap efd ev = search (echo_rules, deref-Echoed) depth 12

call-Echoed :
    (callback : Callback) (heap : Heap) (efd : ℕ) (ev : Event)
    → Steady (OneBehind whole_buffer) (Echoed whole_buffer) (call callback heap efd ev)
call-Echoed connection_handler heap efd ev = handle_connection-Echoed heap efd ev
call-Echoed data_handler heap efd ev = handle_data-Echoed heap efd ev

handle_events-Echoed :
    (efd : ℕ) (heap : Heap) (evs : List Event)
    → Steady (OneBehind whole_buffer) (Echoed whole_buffer) (handle_events efd heap evs)
unfolding handle_events handle_event
handle_events-Echoed efd heap [] = Triple-pure heap (λ l h. h)
handle_events-Echoed efd heap (ev ∷ evs) =
    Steady-bind
      (Steady-bind (deref-Echoed heap ev.fd) (λ rev. call-Echoed rev.callback heap efd ev))
      (λ heap₁. handle_events-Echoed efd heap₁ evs)

wait_round-Echoed :
    (efd : ℕ) (heap : Heap)
    → Steady (OneBehind whole_buffer) (Echoed whole_buffer) (wait_round efd heap)
unfolding wait_round handle_error
wait_round-Echoed efd heap = search (echo_rules, handle_events-Echoed) depth 9

main-Steady : Steady (OneBehind whole_buffer) (Echoed whole_buffer) main
unfolding main handle_error bind_reactor_event
main-Steady = search (echo_rules, listen_inet-Echoed, Steady-while, wait_round-Echoed) depth 14

-- At every point of every run of the program it has answered each message that it received, in
-- order and on its own connection, but for the last one while its send is under way. An answer is
-- the whole buffer, with the message at its start.
pub reactor_main-Echoed :
    (s : Script) → Ends (OneBehind whole_buffer) (λ _. Echoed whole_buffer) (main s [])
reactor_main-Echoed s = main-Steady.at s [] refl
