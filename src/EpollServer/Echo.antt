-- ===== src/EpollServer/Echo.antt =====
-- What the echo server writes, against what it reads: two views of a log, and their agreement.
use practice_code_c_cpp.Prelude.{
  ℕ, ◌≡◌, refl, sym, ap, ◌⊎◌, inl, true, false, not, ◌&&◌, List, [], ◌∷◌, ◌++◌, some, take, arith,
  ◌==◌, if◌then◌else◌,
}
use practice_code_c_cpp.Posix.{
  Script, Log, asked, Call, Reply, Event, bytes_of, memory, value, positive, minus_one,
}
use practice_code_c_cpp.Posix.Keeps.{
  Ends, Triple, Steady, Round, steady_rules, Triple-bind, Triple-ask, Triple-pure, Triple-if,
  Steady-bind, Steady-while, Steady-for_each, Round-Steady,
}
use practice_code_c_cpp.EpollServer.{
  Server, Packet, make_socket_nonblock, update_epoll_events, adopt, accept_round, on_socket_accept,
  deliver, read_round, on_socket_read, on_socket_write, send_data, dispatch, loop_round, epoll_loop,
  echo,
}

-- A read that got data on a real descriptor is a packet.
abbrev packet_read : ℕ → Reply → List Packet
packet_read fd r =
    if positive r && not (fd == minus_one)
    then record { fd = fd; msg = take (value r) (bytes_of (memory r)) } ∷ []
    else []

-- The packets read, newest first.
abbrev packets_read : Log → List Packet
packets_read [] = []
packets_read (asked (Call.read fd n) r ∷ l) = packet_read fd r ++ packets_read l
packets_read (_ ∷ l) = packets_read l

-- The packets that were handed to write, newest first.
abbrev pub packets_written : Log → List Packet
packets_written [] = []
packets_written (asked (Call.write fd bs) r ∷ l) = record { fd = fd; msg = bs } ∷ packets_written l
packets_written (_ ∷ l) = packets_written l

-- Each packet read was written back: once, whole, to its own descriptor, and in order.
abbrev pub Echoed : Log → Type 0
Echoed l = packets_written l ≡ packets_read l

-- Or all but the packet read last.
abbrev pub OneBehind : Log → Type 0
OneBehind l = Echoed l ⊎ ((p : Packet) × (packets_read l ≡ p ∷ packets_written l))

behind : (l : Log) → Echoed l → OneBehind l
behind l e = inl e

make_socket_nonblock-Echoed : (fd : ℕ) → Steady OneBehind Echoed (make_socket_nonblock fd)
unfolding make_socket_nonblock
make_socket_nonblock-Echoed fd = search (steady_rules, behind) depth 8

update_epoll_events-Echoed :
    (efd op fd events : ℕ) → Steady OneBehind Echoed (update_epoll_events efd op fd events)
unfolding update_epoll_events
update_epoll_events-Echoed efd op fd events = search (steady_rules, behind) depth 8

ruleset echo_rules = (steady_rules, behind, make_socket_nonblock-Echoed, update_epoll_events-Echoed)

adopt-Echoed : (efd fd : ℕ) → Steady OneBehind Echoed (adopt efd fd)
unfolding adopt
adopt-Echoed efd fd = search echo_rules depth 9

on_socket_accept-Echoed : (srv : Server) → Steady OneBehind Echoed (on_socket_accept srv)
unfolding on_socket_accept accept_round
on_socket_accept-Echoed srv =
    Steady-while (accept_round srv) behind
      (λ v. Round-Steady (search (echo_rules, adopt-Echoed) depth 8)) tt

-- The packet of a read is still to be written.
abbrev Due : ℕ → Reply → Log → Type 0
Due fd r l = packets_read l ≡ packet_read fd r ++ packets_written l

Due-packet : (fd : ℕ) (r : Reply) (l : Log) → Due fd r l → OneBehind l
Due-packet fd r l d = ground arith

none-Due : (fd : ℕ) (r : Reply) (l : Log) → positive r ≡ false → Due fd r l → Echoed l
none-Due fd r l h d = ground arith

-- The callback writes the packet that is due, and nothing where it has no descriptor.
send_data-Echoed :
    (fd : ℕ) (r : Reply)
    → positive r ≡ true
    → Triple OneBehind
        (λ _. Echoed)
        (Due fd r)
        (send_data (record { fd = fd; msg = take (value r) (bytes_of (memory r)) }))
unfolding send_data
send_data-Echoed fd r h =
    Triple-if (fd == minus_one) (λ e. Triple-pure _ (λ l d. ground arith))
      λ e.
        Triple-bind {Q = λ _. Echoed}
          (Triple-ask _ (λ l d. Due-packet fd r l d) (λ w l d. ground arith))
          (λ w. search echo_rules depth 8)

module _ (srv : Server) where
  -- The server with the callback of main registered.
  abbrev pub echoing : Server
  echoing = record srv { recv_callback = some echo }

  echo-Echoed :
      (fd : ℕ) (r : Reply)
      → positive r ≡ true
      → Triple OneBehind
          (λ _. Echoed)
          (Due fd r)
          (deliver echoing (record { fd = fd; msg = take (value r) (bytes_of (memory r)) }))
  unfolding deliver echo
  echo-Echoed fd r h = Triple-bind (send_data-Echoed fd r h) (λ _. Triple-pure tt (λ l e. e))

  read_round-Echoed :
      (fd : ℕ) (v : Unit {0})
      → Triple OneBehind (Round (λ _. Echoed) (λ _. Echoed)) Echoed (read_round echoing fd v)
  unfolding read_round
  read_round-Echoed fd v =
      Triple-bind {Q = Due fd} (Triple-ask _ behind (λ r l e. ap (◌++◌ (packet_read fd r)) (sym e)))
        λ r.
          Triple-if (positive r)
            (λ h. Triple-bind (echo-Echoed fd r h) (λ _. Triple-pure _ (λ l e. e)))
            (λ h. Triple-pure _ (λ l d. none-Due fd r l h d))

  on_socket_read-Echoed : (fd : ℕ) → Steady OneBehind Echoed (on_socket_read echoing fd)
  unfolding on_socket_read
  on_socket_read-Echoed fd =
      Steady-bind (Steady-while (read_round echoing fd) behind (read_round-Echoed fd) tt)
        (λ n. search echo_rules depth 8)

  dispatch-Echoed : (ev : Event) → Steady OneBehind Echoed (dispatch echoing ev)
  unfolding dispatch on_socket_write
  dispatch-Echoed ev = search (echo_rules, on_socket_accept-Echoed, on_socket_read-Echoed) depth 8

  loop_round-Echoed : (v : Unit {0}) → Steady OneBehind Echoed (loop_round echoing v)
  unfolding loop_round
  loop_round-Echoed v = search (echo_rules, Steady-for_each, dispatch-Echoed) depth 10

  loop-Echoed : Steady OneBehind Echoed (epoll_loop echoing)
  unfolding epoll_loop
  loop-Echoed = Steady-bind (Triple-ask _ behind (λ r l e. e)) λ r.
      Triple-if _ (λ _. Triple-pure tt (λ l e. e))
        (λ _. Steady-while _ behind (λ v. Round-Steady (loop_round-Echoed v)) tt)

-- At every point of every run of the event loop with the callback of main, each packet read has
-- been handed to write once, whole, on its own descriptor and in order, but for the last one while
-- its write is under way. When the loop returns, none is left over.
pub epoll_loop-Echoed :
    (srv : Server) (s : Script) → Ends OneBehind (λ _. Echoed) (epoll_loop (echoing srv) s [])
epoll_loop-Echoed srv s = (loop-Echoed srv).at s [] refl
