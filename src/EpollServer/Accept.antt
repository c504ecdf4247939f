-- ===== src/EpollServer/Accept.antt =====
-- What becomes of the descriptors that OnSocketAccept gets from accept.
use practice_code_c_cpp.Prelude.{ℕ, ◌+◌, ◌≤◌, ◌≡◌, [], ◌∷◌, arith, ◌==◌, if◌then◌else◌}
use practice_code_c_cpp.Posix.{
  Script, Log, asked, told, Call, Reply, done, fail, failed, value, errno, would_block, pure, ◌>>=◌,
}
use practice_code_c_cpp.Posix.Flow.{continue, break}
use practice_code_c_cpp.Posix.Keeps.{
  Ends, Triple, Triple-bind, Triple-ask, Triple-pure, Triple-if, Steady-while, Round-Steady,
}
use practice_code_c_cpp.Posix.Views.{one_if, accepted}
use practice_code_c_cpp.EpollServer.{
  Server, make_socket_nonblock, update_epoll_events, adopt, accept_round, on_socket_accept,
}

-- How often it was put under epoll, was closed, or was dropped because getpeername failed.
abbrev pub settled : ℕ → Log → ℕ
settled fd [] = 0
settled fd (told (Call.close c) ∷ l) = one_if (c == fd) + settled fd l
settled fd (asked (Call.epoll_ctl efd op c events) r ∷ l) =
    (if failed r then 0 else one_if (c == fd)) + settled fd l
settled fd (asked (Call.getpeername c) r ∷ l) =
    (if failed r then one_if (c == fd) else 0) + settled fd l
settled fd (_ ∷ l) = settled fd l

module _ (fd before after : ℕ) where
  -- The two counts differ as at the start, which `before` and `after` give.
  abbrev pub Balanced : Log → Type 0
  Balanced l = accepted fd l + before ≡ settled fd l + after

  -- One connection may be in hand.
  abbrev pub InHand : Log → Type 0
  InHand l =
      (settled fd l + after ≤ accepted fd l + before)
      × (accepted fd l + before ≤ settled fd l + after + 1)

  abbrev Holding : ℕ → Log → Type 0
  Holding c l = accepted fd l + before ≡ settled fd l + after + one_if (c == fd)

  adopt-Ends :
      (efd c : ℕ) (s : Script) (l : Log)
      → Holding c l
      → Ends InHand (λ _. Balanced) (adopt efd c s l)
  unfolding ◌>>=◌ adopt make_socket_nonblock update_epoll_events
  adopt-Ends efd c [] l h = ground arith
  adopt-Ends efd c (fail e ∷ s) l h = ground arith
  adopt-Ends efd c (done n m ∷ []) l h = ground arith
  adopt-Ends efd c (done n m ∷ fail e ∷ s) l h = ground arith
  adopt-Ends efd c (done n m ∷ done k m' ∷ []) l h = ground arith
  adopt-Ends efd c (done n m ∷ done k m' ∷ fail e ∷ s) l h = ground arith
  adopt-Ends efd c (done n m ∷ done k m' ∷ done i m₂ ∷ []) l h = ground arith
  adopt-Ends efd c (done n m ∷ done k m' ∷ done i m₂ ∷ fail e ∷ s) l h = ground arith
  adopt-Ends efd c (done n m ∷ done k m' ∷ done i m₂ ∷ done j m₃ ∷ s) l h = ground arith

  adopt-Balanced : (efd c : ℕ) → Triple InHand (λ _. Balanced) (Holding c) (adopt efd c)
  adopt-Balanced efd c = record { at = adopt-Ends efd c }

  abbrev Answered : Reply → Log → Type 0
  Answered (done c m) l = Holding c l
  Answered (fail e) l = Balanced l

  answered :
      (srv : Server) (r : Reply) (l : Log)
      → Balanced l
      → Answered r (asked (Call.accept srv.handle) r ∷ l)
  answered srv (done c m) l b = ground arith
  answered srv (fail e) l b = omega arith

  handle_reply :
      (srv : Server) (r : Reply)
      → Triple InHand
          (λ _. Balanced)
          (Answered r)
          (if failed r
            then (if would_block (errno r) then pure (break tt) else pure (continue tt))
            else adopt srv.efd (value r))
  handle_reply srv (done c m) = adopt-Balanced srv.efd c
  handle_reply srv (fail e) =
      Triple-if (would_block e) (λ _. Triple-pure _ (λ l b. b)) (λ _. Triple-pure _ (λ l b. b))

  accept-Balanced : (srv : Server) → Triple InHand (λ _. Balanced) Balanced (on_socket_accept srv)
  unfolding on_socket_accept accept_round
  accept-Balanced srv =
      Steady-while (accept_round srv) (λ l b. omega arith)
        (λ v. Round-Steady (
          Triple-bind {Q = Answered} (Triple-ask _ (λ l b. omega arith) (answered srv))
            (handle_reply srv)))
        tt

-- Whatever the system answers, OnSocketAccept settles each descriptor as often as accept gives it:
-- it is put under epoll, closed, or dropped where getpeername fails. At most one connection is in
-- hand where the script ends.
pub on_socket_accept-Balanced :
    (fd : ℕ) (srv : Server) (s : Script) (l : Log)
    → Ends
        (InHand fd (settled fd l) (accepted fd l))
        (λ _. Balanced fd (settled fd l) (accepted fd l))
        (on_socket_accept srv s l)
on_socket_accept-Balanced fd srv s l =
    (accept-Balanced fd (settled fd l) (accepted fd l) srv).at s l (omega arith)
