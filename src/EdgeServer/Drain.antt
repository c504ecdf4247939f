-- ===== src/EdgeServer/Drain.antt =====
-- Edge triggered epoll tells of data once, so that EpollINET has to read a connection until nothing
-- is left; and it takes a connection from epoll before it closes it.
use practice_code_c_cpp.Prelude.{
  ℕ, ◌+◌, ◌≤◌, ◌≡◌, refl, Bool, true, false, [], ◌∷◌, ◌==◌, if◌then◌else◌, arith,
}
use practice_code_c_cpp.Posix.{
  Log, Script, Event, Reply, asked, Call, failed, nonzero, positive, value, pure, errno,
  would_block, ◌>>◌, ctl_del,
}
use practice_code_c_cpp.Posix.Flow.{continue, break, while}
use practice_code_c_cpp.Posix.Keeps.{
  Ends, Round, Triple, Steady, Triple-bind, Triple-ask, Triple-tell, Triple-if, Triple-pure,
  Triple-halt, Triple-while, Triple-from, Steady-while, Steady-for_each, steady_rules,
}
use practice_code_c_cpp.Posix.Sockets.{handle_error, make_nonblocking}
use practice_code_c_cpp.Posix.Views.{closed, one_if}
use practice_code_c_cpp.EdgeServer.{
  accept_client, disconnect, recv_round, handle_event, wait_round, epoll_inet,
}

-- The last recv or send got nothing more: the recv failed or met the end, or the send failed.
abbrev pub Drained : Log → Type 0
Drained [] = ⊥
Drained (asked (Call.recv c n) r ∷ l) = positive r ≡ false
Drained (asked (Call.send c bs) r ∷ l) = failed r ≡ true
Drained (_ ∷ l) = Drained l

abbrev Open : Log → Type 0
Open l = Unit

disconnect-Drained : (efd : ℕ) (c_ev : Event) → Steady Open Drained (disconnect efd c_ev)
unfolding disconnect handle_error
disconnect-Drained efd c_ev = search (steady_rules, Triple-halt) depth 9

-- What the recv tells decides whether the connection is drained.
abbrev Got : Reply → Log → Type 0
Got r l = positive r ≡ false → Drained l

recv_round-Drained :
    (efd : ℕ) (c_ev : Event) (v : Unit {0})
    → Triple Open (Round (λ _. Open) (λ _. Drained)) Open (recv_round true efd c_ev v)
unfolding recv_round
recv_round-Drained efd c_ev v = Triple-bind {Q = Got} (Triple-ask _ (λ l u. u) (λ r l u h. h)) λ r.
    Triple-if (failed r)
      (λ h.
        Triple-from (λ l g. g (ground arith))
          (Triple-if (would_block (errno r)) (λ _. Triple-pure _ (λ l d. d)) (λ _. cut)))
      (λ h.
        Triple-if (value r == 0) (λ k. Triple-from (λ l g. g (ground arith)) cut)
          (λ k.
            Triple-bind {Q = λ w l. failed w ≡ true → Drained l}
              (Triple-ask _ (λ l g. tt) (λ w l g e. e))
              (λ w.
                Triple-if (failed w) (λ e. Triple-pure _ (λ l g. g e))
                  (λ e.
                    Triple-if (positive r) (λ p. Triple-pure (continue tt) (λ l g. tt))
                      (λ p. Triple-pure (break tt) (λ l g. no_break r l h k p))))))
  where
    cut :
        Triple Open
          (Round {S = Unit} {R = Unit} (λ _. Open) (λ _. Drained))
          Drained
          (disconnect efd c_ev >> pure (break tt))
    cut = Triple-bind (disconnect-Drained efd c_ev) (λ _. Triple-pure _ (λ l d. d))

    no_break :
        (r : Reply) (l : Log)
        → failed r ≡ false
        → (value r == 0) ≡ false
        → positive r ≡ false
        → Drained l
    no_break r l h k p = ground arith

-- Whatever the system answers, in edge triggered mode EpollINET reads a connection that epoll told
-- of until recv gets nothing more (an error, EAGAIN among them, or the end) or the answer cannot be
-- sent.
pub recv_rounds-Drained :
    (efd : ℕ) (c_ev : Event) (s : Script) (l : Log)
    → Ends (λ _. Unit) (λ _. Drained) (while (recv_round true efd c_ev) tt s l)
recv_rounds-Drained efd c_ev s l =
    (Triple-while {H = Open} (λ _. Drained) (λ _. Open) (λ v l u. u) (recv_round true efd c_ev)
        (recv_round-Drained efd c_ev) tt).at
      s l tt

module _ (fd : ℕ) where
  -- How often the descriptor was taken from epoll.
  abbrev pub deleted : Log → ℕ
  deleted [] = 0
  deleted (asked (Call.epoll_ctl efd op c events) r ∷ l) =
      if op == ctl_del then (if nonzero r then 0 else one_if (c == fd)) + deleted l else deleted l
  deleted (_ ∷ l) = deleted l

  abbrev pub AllDeleted : Log → Type 0
  AllDeleted l = closed fd l ≡ deleted l

  abbrev pub AtMostDeleted : Log → Type 0
  AtMostDeleted l = closed fd l ≤ deleted l

  weaken : (l : Log) → AllDeleted l → AtMostDeleted l
  weaken l h = omega arith

  ruleset deleted_rules = (steady_rules, weaken, Triple-halt)

  disconnect-AllDeleted :
      (efd : ℕ) (c_ev : Event) → Steady AtMostDeleted AllDeleted (disconnect efd c_ev)
  unfolding disconnect handle_error
  disconnect-AllDeleted efd c_ev =
      Triple-bind
        {Q = λ r l. closed fd l + (if nonzero r then 0 else one_if (c_ev.fd == fd)) ≡ deleted l}
        (Triple-ask _ weaken (λ r l h. ground arith))
        λ r.
          Triple-if (nonzero r) (λ k. Triple-halt _ (λ l h. ground arith))
            (λ k. Triple-tell _ (λ l h. ground arith))

  make_nonblocking-AllDeleted : (c : ℕ) → Steady AtMostDeleted AllDeleted (make_nonblocking c)
  unfolding make_nonblocking
  make_nonblocking-AllDeleted c = search deleted_rules depth 8

  accept_client-AllDeleted :
      (et_mode : Bool) (efd sfd : ℕ)
      → Steady AtMostDeleted AllDeleted (accept_client et_mode efd sfd)
  unfolding accept_client handle_error
  accept_client-AllDeleted et_mode efd sfd =
      search (deleted_rules, make_nonblocking-AllDeleted) depth 12

  recv_round-AllDeleted :
      (et_mode : Bool) (efd : ℕ) (c_ev : Event) (v : Unit {0})
      → Steady AtMostDeleted AllDeleted (recv_round et_mode efd c_ev v)
  unfolding recv_round
  recv_round-AllDeleted et_mode efd c_ev v = search (deleted_rules, disconnect-AllDeleted) depth 14

  handle_event-AllDeleted :
      (et_mode : Bool) (efd sfd : ℕ) (c_ev : Event)
      → Steady AtMostDeleted AllDeleted (handle_event et_mode efd sfd c_ev)
  unfolding handle_event
  handle_event-AllDeleted et_mode efd sfd c_ev =
      search (deleted_rules, accept_client-AllDeleted, Steady-while, recv_round-AllDeleted) depth 9

  wait_round-AllDeleted :
      (et_mode : Bool) (efd sfd : ℕ) (v : Unit {0})
      → Steady AtMostDeleted AllDeleted (wait_round et_mode efd sfd v)
  unfolding wait_round handle_error
  wait_round-AllDeleted et_mode efd sfd v =
      search (deleted_rules, Steady-for_each, handle_event-AllDeleted) depth 12

  epoll_inet-Steady :
      (sfd : ℕ) (et_mode : Bool) → Steady AtMostDeleted AllDeleted (epoll_inet sfd et_mode)
  unfolding epoll_inet handle_error
  epoll_inet-Steady sfd et_mode =
      search (deleted_rules, make_nonblocking-AllDeleted, Steady-while, wait_round-AllDeleted) depth
        14

-- In both modes a descriptor is closed only after it was taken from epoll: it was never closed more
-- often than deleted there, at whatever point of whatever run.
pub edge_epoll_inet-AtMostDeleted :
    (fd sfd : ℕ) (et_mode : Bool) (s : Script)
    → Ends (AtMostDeleted fd) (λ _. AllDeleted fd) (epoll_inet sfd et_mode s [])
edge_epoll_inet-AtMostDeleted fd sfd et_mode s = (epoll_inet-Steady fd sfd et_mode).at s [] refl
