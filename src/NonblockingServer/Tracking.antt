-- ===== src/NonblockingServer/Tracking.antt =====
-- The vector of connections against the descriptors that were accepted and closed, and the echo.
use practice_code_c_cpp.Prelude.{
  ℕ, ◌+◌, ◌≤◌, ◌≡◌, refl, false, List, [], ◌∷◌, ◌++◌, ◌==◌, if◌then◌else◌, arith, sum-append,
  keep_if, length,
}
use practice_code_c_cpp.Posix.{
  Log, Script, Reply, Call, failed, value, errno, would_block, pure, tell, ◌>>◌,
}
use practice_code_c_cpp.Posix.Uses.{
  Uses, Takes, uses_rules, Uses-bind, Uses-while, Uses-pure, Uses-halt,
}
use practice_code_c_cpp.Posix.Keeps.{
  Ends, Triple, Steady, Round, Triple-from, Triple-bind, Triple-ask, Triple-pure, Triple-tell,
  Triple-if, Triple-while,
}
use practice_code_c_cpp.Posix.Sockets.{handle_error, make_nonblocking}
use practice_code_c_cpp.Posix.Views.{accepted, closed, one_if, held, held-keep_if}
use practice_code_c_cpp.NonblockingServer.{
  nonblocking_listen_inet, visit, recv_all, accept_round, accept_and_recv, main,
}

visit-Uses : (fd : ℕ) → Uses 0 (visit fd)
unfolding visit
visit-Uses fd = search uses_rules depth 9

recv_all-Uses : (fds : List ℕ) → Uses 0 (recv_all fds)
unfolding recv_all
recv_all-Uses [] = Uses-pure []
recv_all-Uses (fd ∷ rest) =
    Uses-bind (visit-Uses fd) (λ kept. Uses-bind (recv_all-Uses rest) (λ fds. Uses-pure _))

make_nonblocking-Uses : (fd : ℕ) → Uses 0 (make_nonblocking fd)
unfolding make_nonblocking
make_nonblocking-Uses fd = search uses_rules

accept_round-Uses : (sfd : ℕ) (fds : List ℕ) → Uses 1 (accept_round sfd fds)
unfolding accept_round
accept_round-Uses sfd fds = search (uses_rules, recv_all-Uses, make_nonblocking-Uses) depth 9

listen-Uses : Uses 1 nonblocking_listen_inet
unfolding nonblocking_listen_inet handle_error
listen-Uses = search (uses_rules, Uses-halt) depth 9

-- The fuel of the accept loop is enough.
pub nonblocking_main-Takes : (s : Script) (l : Log) → Takes 1 (length s) (main s l)
unfolding main accept_and_recv
nonblocking_main-Takes s l =
    (Uses-bind listen-Uses (λ sfd. Uses-while _ (accept_round-Uses sfd) [])).at s l

module _ (fd : ℕ) where
  -- The vector, with `later` connections besides, holds what was accepted and is not closed.
  abbrev Tracks : ℕ → List ℕ → Log → Type 0
  Tracks later fds l = held fd fds + later + closed fd l ≡ accepted fd l

  -- At any time no more was closed than was accepted.
  abbrev pub Closable : Log → Type 0
  Closable l = closed fd l ≤ accepted fd l

  visit-Tracks :
      (c later : ℕ)
      → Triple Closable
          (λ kept l. Tracks later (keep_if kept c []) l)
          (λ l. Tracks later (c ∷ []) l)
          (visit c)
  unfolding visit
  visit-Tracks c later =
      Triple-bind {Q = λ _ l. Tracks later (c ∷ []) l}
        (Triple-ask _ (λ l t. omega arith) (λ r l t. t))
        λ r.
          Triple-if (failed r)
            (λ h. Triple-if (would_block (errno r)) (λ k. Triple-pure _ (λ l t. t)) (λ k. gone))
            (λ h.
              Triple-if (value r == 0) (λ k. gone)
                (λ k.
                  Triple-bind {Q = λ _ l. Tracks later (c ∷ []) l} (Triple-tell _ (λ l t. t))
                    (λ _. Triple-pure _ (λ l t. t))))
    where
      gone :
          Triple Closable
            (λ kept l. Tracks later (keep_if kept c []) l)
            (λ l. Tracks later (c ∷ []) l)
            (tell (Call.close c) >> pure false)
      gone =
          Triple-bind {Q = λ _ l. Tracks later [] l} (Triple-tell _ (λ l t. omega arith))
            (λ _. Triple-pure _ (λ l t. t))

  recv_all-Tracks :
      (fds : List ℕ) (later : ℕ)
      → Triple Closable (λ kept l. Tracks later kept l) (λ l. Tracks later fds l) (recv_all fds)
  unfolding recv_all
  recv_all-Tracks [] later = Triple-pure [] (λ l t. t)
  recv_all-Tracks (c ∷ rest) later =
      Triple-bind (Triple-from (λ l t. omega arith) (visit-Tracks c (later + held fd rest))) λ kept.
        Triple-bind
          (Triple-from (λ l t. omega arith)
            (recv_all-Tracks rest (later + held fd (keep_if kept c []))))
          (λ fds. Triple-pure _ (λ l t. ground (arith, held-keep_if fd kept c fds)))

  make_nonblocking-Tracks :
      (c : ℕ) (fds : List ℕ) → Steady Closable (Tracks 0 fds) (make_nonblocking c)
  unfolding make_nonblocking
  make_nonblocking-Tracks c fds =
      Triple-bind {Q = λ _ l. Tracks 0 fds l} (Triple-ask _ (λ l t. omega arith) (λ r l t. t))
        (λ r. Triple-tell _ (λ l t. t))

  abbrev AfterAccept : List ℕ → Reply → Log → Type 0
  AfterAccept fds r l =
      held fd fds + (if failed r then 0 else one_if (value r == fd)) + closed fd l ≡ accepted fd l

  accept_round-Tracks :
      (sfd : ℕ) (fds : List ℕ)
      → Triple Closable (Round (Tracks 0) (λ _. Closable)) (Tracks 0 fds) (accept_round sfd fds)
  unfolding accept_round
  accept_round-Tracks sfd fds =
      Triple-bind {Q = AfterAccept fds} (Triple-ask _ (λ l t. omega arith) (λ r l t. omega arith))
        λ r.
          Triple-if (failed r)
            (λ h.
              Triple-if (would_block (errno r))
                (λ k.
                  Triple-bind (Triple-from (λ l t. rw h at t) (recv_all-Tracks fds 0))
                    (λ kept. Triple-pure _ (λ l t. t)))
                (λ k. Triple-pure _ (λ l t. omega arith)))
            (λ h.
              Triple-bind
                (Triple-from
                  (λ l t. ground (arith, sum-append (λ d. one_if (d == fd)) fds (value r ∷ [])))
                  (make_nonblocking-Tracks (value r) (fds ++ value r ∷ [])))
                (λ _.
                  Triple-bind (recv_all-Tracks (fds ++ value r ∷ []) 0)
                    (λ kept. Triple-pure _ (λ l t. t))))

  -- Whatever the system answers, the server never closes a descriptor more often than accept
  -- returned it.
  pub accept_and_recv-Closable :
      (sfd : ℕ) (s : Script) → Ends Closable (λ _. Closable) (accept_and_recv sfd s [])
  unfolding accept_and_recv
  accept_and_recv-Closable sfd s =
      (Triple-while (λ _. Closable) (Tracks 0) (λ fds l t. omega arith) (accept_round sfd)
          (accept_round-Tracks sfd) []).at
        s [] refl
