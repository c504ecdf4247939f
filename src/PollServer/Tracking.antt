-- ===== src/PollServer/Tracking.antt =====
-- The vector that PollINET gives to poll, against the descriptors that were accepted and closed; and
-- the fuel of its loop.
use practice_code_c_cpp.Prelude.{
  ℕ, ◌+◌, ◌≤◌, ◌≡◌, refl, true, false, List, [], ◌∷◌, ◌++◌, ◌==◌, ltb, if◌then◌else◌, arith,
  sum-append, length, keep_if, map, ==_iff,
}
use practice_code_c_cpp.Posix.{
  Log, Script, Reply, Event, Call, failed, value, events_of, memory, has, pollin, sock_stream, pure,
  tell, ◌>>◌,
}
use practice_code_c_cpp.Posix.Flow.{continue}
use practice_code_c_cpp.Posix.Uses.{
  Uses, Takes, uses_rules, Uses-bind, Uses-while, Uses-pure, Uses-tell, Uses-halt,
}
use practice_code_c_cpp.Posix.Keeps.{
  Ends, Triple, Round, Triple-from, Triple-bind, Triple-ask, Triple-pure, Triple-tell, Triple-if,
  Triple-while, Triple-halt,
}
use practice_code_c_cpp.Posix.Sockets.{handle_error, listen_inet-Uses}
use practice_code_c_cpp.Posix.Views.{accepted, closed, one_if, held, held-keep_if}
use practice_code_c_cpp.PollServer.{
  with_revents, push_back, serve, visit, count_if, pass, poll_round, poll_inet, main,
}

serve-Uses : (fd : ℕ) → Uses 0 (serve fd)
unfolding serve
serve-Uses fd = search uses_rules depth 9

push_back-Uses :
    (capacity size : ℕ) (pushed : List ℕ) (cfd : ℕ) → Uses 0 (push_back capacity size pushed cfd)
unfolding push_back
push_back-Uses capacity size pushed cfd = search (uses_rules, Uses-halt) depth 8

visit-Uses :
    (capacity sfd size : ℕ) (p : Event) (pushed : List ℕ)
    → Uses 0 (visit capacity sfd size p pushed)
unfolding visit
visit-Uses capacity sfd size p pushed = search (uses_rules, serve-Uses, push_back-Uses) depth 12

pass-Uses :
    (capacity sfd before : ℕ) (todo : List Event) (pushed : List ℕ)
    → Uses 0 (pass capacity sfd before todo pushed)
unfolding pass
pass-Uses capacity sfd before [] pushed = Uses-pure pushed
pass-Uses capacity sfd before (p ∷ todo) pushed =
    Uses-bind (visit-Uses capacity sfd _ p pushed) (λ r.
      Uses-bind (pass-Uses capacity sfd (count_if r.0 before) todo r.1)
        (λ fds. Uses-pure (keep_if r.0 p.fd fds)))

poll_round-Uses : (capacity sfd : ℕ) (fds : List ℕ) → Uses 1 (poll_round capacity sfd fds)
unfolding poll_round handle_error
poll_round-Uses capacity sfd fds = search (uses_rules, Uses-halt, pass-Uses) depth 9

-- The fuel of the loop is enough.
pub poll_main-Takes : (capacity : ℕ) (s : Script) (l : Log) → Takes 1 (length s) (main capacity s l)
unfolding main poll_inet
poll_main-Takes capacity s l =
    (Uses-bind (listen_inet-Uses sock_stream _)
        (λ sfd. Uses-bind (Uses-tell _) (λ _. Uses-while _ (poll_round-Uses capacity sfd) _))).at
      s l

module _ (fd sfd : ℕ) where
  -- The vector, with `later` entries besides, holds the listener, and what was accepted and is not
  -- closed.
  abbrev Tracks : ℕ → List ℕ → Log → Type 0
  Tracks later fds l = held fd fds + later + closed fd l ≡ accepted fd l + one_if (sfd == fd)

  -- No more was closed than was accepted, but for the listener.
  abbrev pub Closable : Log → Type 0
  Closable l = closed fd l ≤ accepted fd l + one_if (sfd == fd)

  serve-Tracks :
      (c later : ℕ)
      → Triple Closable
          (λ kept l. Tracks later (keep_if kept c []) l)
          (λ l. Tracks later (c ∷ []) l)
          (serve c)
  unfolding serve
  serve-Tracks c later =
      Triple-bind {Q = λ _ l. Tracks later (c ∷ []) l}
        (Triple-ask _ (λ l t. omega arith) (λ r l t. t))
        λ r.
          Triple-if (failed r) (λ h. gone)
            (λ h.
              Triple-if (value r == 0) (λ k. gone)
                (λ k.
                  Triple-bind {Q = λ _ l. Tracks later (c ∷ []) l}
                    (Triple-ask _ (λ l t. omega arith) (λ r l t. t))
                    (λ _. Triple-pure _ (λ l t. t))))
    where
      gone :
          Triple Closable
            (λ kept l. Tracks later (keep_if kept c []) l)
            (λ l. Tracks later (c ∷ []) l)
            (tell (Call.close c) >> pure false)
      gone =
          Triple-bind {Q = λ _ l. Tracks later [] l} (Triple-tell _ (λ l t. omega arith))
            (λ _. Triple-pure _ (λ l t. t))

  abbrev fds_of : List Event → List ℕ
  fds_of = map (λ e. e.fd)

  fds-with_revents :
      (fds : List ℕ) (es : List Event) → held fd (fds_of (with_revents fds es)) ≡ held fd fds
  fds-with_revents [] es = refl
  fds-with_revents (c ∷ fds) [] = omega (arith, fds-with_revents fds [])
  fds-with_revents (c ∷ fds) (e ∷ es) = omega (arith, fds-with_revents fds es)

  module _ (capacity : ℕ) where
    push_back-Tracks :
        (size c d later : ℕ) (pushed : List ℕ)
        → Triple Closable
            (λ pushed₁ l. Tracks (later + held fd pushed₁) (d ∷ []) l)
            (Tracks (later + held fd pushed + one_if (c == fd)) (d ∷ []))
            (push_back capacity size pushed c)
    unfolding push_back
    push_back-Tracks size c d later pushed =
        Triple-if (ltb size capacity)
          (λ h.
            Triple-pure (pushed ++ (c ∷ []))
              (λ l t. omega (arith, sum-append (λ x. one_if (x == fd)) pushed (c ∷ []))))
          (λ h.
            Triple-bind {Q = λ _ l. Closable l} (Triple-tell _ (λ l t. omega arith))
              (λ _. Triple-halt _ (λ l t. t)))

    visit-Tracks :
        (size : ℕ) (p : Event) (pushed : List ℕ) (later : ℕ)
        → Triple Closable
            (λ r l. Tracks (later + held fd r.1) (keep_if r.0 p.fd []) l)
            (Tracks (later + held fd pushed) (p.fd ∷ []))
            (visit capacity sfd size p pushed)
    unfolding visit
    visit-Tracks size p pushed later =
        Triple-if (has p.events pollin)
          (λ h.
            Triple-if (p.fd == sfd)
              (λ k.
                Triple-bind {Q = Came}
                  (Triple-ask (Call.accept sfd) (λ l t. omega arith) (λ r l t. ground arith))
                  (λ r.
                    Triple-if (failed r)
                      (λ f. Triple-pure (true, pushed) (λ l t. ground (arith, t)))
                      (λ f.
                        Triple-bind
                          (Triple-from (λ l t. ground (arith, t, f, (==_iff p.fd sfd).0 k))
                            (push_back-Tracks size (value r) p.fd later pushed))
                          (λ pushed₁. Triple-pure (true, pushed₁) (λ l t. t)))))
              (λ k.
                Triple-bind (serve-Tracks p.fd (later + held fd pushed))
                  (λ kept. Triple-pure (kept, pushed) (λ l t. t))))
          (λ h. Triple-pure (true, pushed) (λ l t. t))
      where
        Came : Reply → Log → Type 0
        Came r l =
            Tracks (later + held fd pushed + (if failed r then 0 else one_if (value r == fd)))
              (p.fd ∷ []) l

    pass-Tracks :
        (before : ℕ) (todo : List Event) (pushed : List ℕ) (later : ℕ)
        → Triple Closable
            (λ fds l. Tracks later fds l)
            (Tracks (later + held fd pushed) (fds_of todo))
            (pass capacity sfd before todo pushed)
    unfolding pass
    pass-Tracks before [] pushed later = Triple-pure pushed (λ l t. omega arith)
    pass-Tracks before (p ∷ todo) pushed later =
        Triple-bind
          (Triple-from (λ l t. omega arith)
            (visit-Tracks _ p pushed (later + held fd (fds_of todo))))
          λ r.
            Triple-bind
              (Triple-from (λ l t. omega arith)
                (pass-Tracks (count_if r.0 before) todo r.1
                  (later + held fd (keep_if r.0 p.fd []))))
              (λ fds.
                Triple-pure (keep_if r.0 p.fd fds)
                  (λ l t. omega (arith, held-keep_if fd r.0 p.fd fds)))

    poll_round-Tracks :
        (fds : List ℕ)
        → Triple Closable
            (Round (Tracks 0) (λ _. Closable))
            (Tracks 0 fds)
            (poll_round capacity sfd fds)
    unfolding poll_round handle_error
    poll_round-Tracks fds =
        Triple-bind {Q = λ _ l. Tracks 0 fds l}
          (Triple-ask (Call.poll fds 2000) (λ l t. omega arith) (λ r l t. t))
          λ r.
            Triple-if (failed r) (λ h. Triple-halt _ (λ l t. omega arith))
              (λ h.
                Triple-if (value r == 0) (λ k. Triple-pure (continue fds) (λ l t. t))
                  (λ k.
                    Triple-bind
                      (Triple-from
                        (λ l t. omega (arith, fds-with_revents fds (events_of (memory r))))
                        (pass-Tracks 0 (with_revents fds (events_of (memory r))) [] 0))
                      (λ kept. Triple-pure (continue kept) (λ l t. t))))

    -- Whatever the system answers, no descriptor but the listener is closed more often than accept
    -- returned it, and the listener is closed at most once more.
    pub poll_inet-Closable :
        (s : Script) → Ends Closable (λ _. Closable) (poll_inet capacity sfd s [])
    unfolding poll_inet
    poll_inet-Closable s =
        (Triple-bind {Q = λ _ l. Tracks 0 (sfd ∷ []) l} {P = Tracks 0 (sfd ∷ [])}
            (Triple-tell Call.ignore_sigpipe (λ l t. t))
            (λ _.
              Triple-while (λ _. Closable) (Tracks 0) (λ fds l t. omega arith)
                (poll_round capacity sfd) poll_round-Tracks (sfd ∷ []))).at
          s [] (omega arith)
