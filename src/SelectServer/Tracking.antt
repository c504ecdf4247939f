-- ===== src/SelectServer/Tracking.antt =====
-- What SelectINET gives to select and closes, against the descriptors that it accepted.
use practice_code_c_cpp.Prelude.{
  mem, ℕ, ◌+◌, ◌≤◌, ◌≡◌, Bool, true, List, [], ◌∷◌, ◌==◌, if◌then◌else◌, arith, ◌||◌, ltb, inl, inr,
  Bool-cases, false,
}
use practice_code_c_cpp.Posix.{
  Log, Script, Reply, done, fail, asked, told, Call, failed, value, pure, tell, ◌>>◌,
}
use practice_code_c_cpp.Posix.Flow.{continue}
use practice_code_c_cpp.Posix.Keeps.{
  Ends, Triple, Round, Triple-from, Triple-bind, Triple-ask, Triple-pure, Triple-tell, Triple-if,
  Triple-while, Triple-halt,
}
use practice_code_c_cpp.Posix.Sockets.{handle_error}
use practice_code_c_cpp.Posix.Views.{accepted, closed, one_if}
use practice_code_c_cpp.SelectServer.{
  Watch, fd_setsize, with_fd, add_fd, or_stray, empty_watch, remove_fd, watched, is_ready, serve,
  visit, pass, select_round, select_inet, insert,
}
use practice_code_c_cpp.SelectServer.Sets.{
  Above, Sorted, IsConsistent, with_fd-IsConsistent, add_fd-fits, add_fd-overflows,
  remove_fd-IsConsistent, watched-IsConsistent, empty-IsConsistent, mem-insert, mem-erase,
  Above-mem,
}

module _ (fd sfd : ℕ) where
  -- At each select in the log: if it was asked about the descriptor, then that was open: it was
  -- accepted, or is the listener, and was not closed since.
  abbrev pub WatchesOpen : Log → Type 0
  WatchesOpen [] = Unit
  WatchesOpen (asked (Call.select fds n) r ∷ l) =
      (one_if (mem fd fds) + closed fd l ≤ accepted fd l + one_if (sfd == fd)) × WatchesOpen l
  WatchesOpen (_ ∷ l) = WatchesOpen l

  -- And what is in fds is open.
  abbrev Counted : Watch → Log → Type 0
  Counted w l =
      (one_if (mem fd w.fds) + closed fd l ≤ accepted fd l + one_if (sfd == fd)) × WatchesOpen l

  -- Between the visits of a pass, which still has `todo` before it.
  record Tracks (todo : List ℕ) (w : Watch) (l : Log) : Type 0 where
    counted : Counted w l
    consistent : IsConsistent w
    still : (d : ℕ) → mem d todo ≡ true → mem d w.fds ≡ true

  -- A log that counts the same for the state.
  Tracks-log :
      (todo : List ℕ) (w : Watch) (l l' : Log) → Counted w l' → Tracks todo w l → Tracks todo w l'
  Tracks-log todo w l l' k t = record { counted = k; consistent = t.consistent; still = t.still }

  Tracks-skip :
      (c : ℕ) (todo : List ℕ) (w : Watch) (l : Log) → Tracks (c ∷ todo) w l → Tracks todo w l
  Tracks-skip c todo w l t = record {
    counted = t.counted;
    consistent = t.consistent;
    still = λ d h. t.still d (ground arith);
  }

  Tracks-remove :
      (c : ℕ) (todo : List ℕ) (w : Watch) (l : Log)
      → Above c todo
      → Tracks (c ∷ todo) w l
      → Tracks todo (remove_fd w c) (told (Call.close c) ∷ l)
  unfolding remove_fd
  Tracks-remove c todo w l a t = record {
    counted =
        ground
          (arith, mem-erase fd c w.fds t.consistent.sorted, t.still fd, t.counted.0, t.counted.1);
    consistent = remove_fd-IsConsistent w c t.consistent;
    still = λ d h.
        ground (arith, mem-erase d c w.fds t.consistent.sorted, t.still d, Above-mem c d todo a h);
  }

  -- The state after an accept with this result.
  abbrev after_accept : Watch → Reply → Watch
  after_accept w r =
      if failed r then w else with_fd w (value r) (λ d. d == value r || w.origin_set d)

  Tracks-accept :
      (h : ℕ) (todo : List ℕ) (w : Watch) (r : Reply) (l : Log)
      → Tracks todo w l
      → Tracks todo (after_accept w r) (asked (Call.accept h) r ∷ l)
  Tracks-accept h todo w (fail e) l t = Tracks-log todo w l _ (ground (arith, t.counted)) t
  Tracks-accept h todo w (done n m) l t = record {
    counted = ground (arith, mem-insert fd n w.fds, t.counted.0, t.counted.1);
    consistent = with_fd-IsConsistent w n t.consistent;
    still = λ d k. ground (arith, mem-insert d n w.fds, t.still d);
  }

  serve-Tracks :
      (w : Watch) (c : ℕ) (todo : List ℕ)
      → Above c todo
      → Triple WatchesOpen (Tracks todo) (Tracks (c ∷ todo) w) (serve w c)
  unfolding serve
  serve-Tracks w c todo a =
      Triple-bind {Q = λ _. Tracks (c ∷ todo) w}
        (Triple-ask _ (λ l t. t.counted.1) (λ r l t. Tracks-log (c ∷ todo) w l _ t.counted t))
        λ r.
          Triple-if (failed r) (λ h. gone)
            (λ h.
              Triple-if (value r == 0) (λ k. gone)
                (λ k.
                  Triple-bind {Q = λ _. Tracks todo w}
                    (Triple-ask _ (λ l t. t.counted.1)
                      (λ r l t. Tracks-log todo w l _ t.counted (Tracks-skip c todo w l t)))
                    (λ _. Triple-pure w (λ l t. t))))
    where
      gone :
          Triple WatchesOpen
            (Tracks todo)
            (Tracks (c ∷ todo) w)
            (tell (Call.close c) >> pure (remove_fd w c))
      gone =
          Triple-bind {Q = λ _. Tracks todo (remove_fd w c)}
            (Triple-tell _ (λ l t. Tracks-remove c todo w l a t)) (λ _. Triple-pure _ (λ l t. t))

  or_stray-Tracks :
      (w : Watch) (n : ℕ) (todo : List ℕ)
      → Triple WatchesOpen
          (Tracks todo)
          (Tracks todo (with_fd w n (λ d. d == n || w.origin_set d)))
          (or_stray n (add_fd w n))
  unfolding or_stray
  or_stray-Tracks w n todo = elim (Bool-cases (ltb n fd_setsize)) [
    | inl h ↦ rw (add_fd-fits w n h) (Triple-pure _ (λ l t. t))
    | inr h ↦ rw (add_fd-overflows w n h) (
        Triple-bind {Q = λ _. WatchesOpen} (Triple-tell _ (λ l t. t.counted.1))
          (λ _. Triple-halt _ (λ l h. h)))
  ]

  visit-Tracks :
      (readfds : ℕ → Bool) (w : Watch) (c : ℕ) (todo : List ℕ)
      → Above c todo
      → Triple WatchesOpen (Tracks todo) (Tracks (c ∷ todo) w) (visit sfd readfds w c)
  unfolding visit
  visit-Tracks readfds w c todo a =
      Triple-if (readfds c)
        (λ h.
          Triple-if (c == sfd)
            (λ k.
              Triple-bind {Q = λ r. Tracks todo (after_accept w r)}
                (Triple-ask (Call.accept sfd) (λ l t. t.counted.1)
                  (λ r l t. Tracks-accept sfd todo w r l (Tracks-skip c todo w l t)))
                (λ r.
                  Triple-if (failed r) (λ f. Triple-pure w (λ l t. ground (arith, t, f)))
                    (λ f.
                      Triple-from (λ l t. ground (arith, t, f))
                        (or_stray-Tracks w (value r) todo))))
            (λ k. serve-Tracks w c todo a))
        (λ h. Triple-pure w (λ l t. Tracks-skip c todo w l t))

  pass-Tracks :
      (readfds : ℕ → Bool) (w : Watch) (todo : List ℕ)
      → Sorted todo
      → Triple WatchesOpen (Tracks []) (Tracks todo w) (pass sfd readfds w todo)
  unfolding pass
  pass-Tracks readfds w [] s = Triple-pure w (λ l t. t)
  pass-Tracks readfds w (c ∷ todo) s =
      Triple-bind (visit-Tracks readfds w c todo s.0) (λ w₁. pass-Tracks readfds w₁ todo s.1)

  Tracks-begin : (w : Watch) (l : Log) → Tracks [] w l → Tracks w.fds w l
  Tracks-begin w l t = record { counted = t.counted; consistent = t.consistent; still = λ d h. h }

  Tracks-select :
      (w : Watch) (n : ℕ) (r : Reply) (l : Log)
      → Tracks [] w l
      → Tracks [] w (asked (Call.select (watched w.origin_set (w.max_fd + 1)) n) r ∷ l)
  Tracks-select w n r l t =
      Tracks-log [] w l _
        (
          t.counted.0,
          (ground (arith, watched-IsConsistent fd w t.consistent, t.counted.0), t.counted.1),
        )
        t

  select_round-Tracks :
      (w : Watch)
      → Triple WatchesOpen (Round (Tracks []) (λ _. WatchesOpen)) (Tracks [] w) (select_round sfd w)
  unfolding select_round handle_error
  select_round-Tracks w =
      Triple-bind {Q = λ _. Tracks [] w}
        (Triple-ask _ (λ l t. t.counted.1) (λ r l t. Tracks-select w (w.max_fd + 1) r l t))
        λ r.
          Triple-if (failed r) (λ h. Triple-halt _ (λ l t. t.counted.1))
            (λ h.
              Triple-if (value r == 0) (λ k. Triple-pure (continue w) (λ l t. t))
                (λ k. record {
                  at = λ s l t.
                      (Triple-bind
                          (Triple-from (Tracks-begin w)
                            (pass-Tracks (is_ready w.origin_set r) w w.fds t.consistent.sorted))
                          (λ w₁. Triple-pure (continue w₁) (λ l t. t))).at
                        s l t;
                }))

  abbrev first_watch : Watch
  first_watch = with_fd empty_watch sfd (λ d. d == sfd || false)

  first-Tracks : Tracks [] first_watch []
  unfolding insert
  first-Tracks = record {
    counted = (ground arith, tt);
    consistent = with_fd-IsConsistent _ sfd empty-IsConsistent;
    still = λ d h. ground arith;
  }

  -- Whatever the system answers, up to where AddFd is given a descriptor that does not fit into a
  -- fd_set, SelectINET gives a descriptor to select only while it is open: it is the listener or was
  -- accepted, and was closed less often than that.
  pub select_inet-WatchesOpen :
      (s : Script) → Ends WatchesOpen (λ _. WatchesOpen) (select_inet sfd s [])
  unfolding select_inet
  select_inet-WatchesOpen s =
      (Triple-bind {Q = λ _. Tracks [] first_watch} {P = Tracks [] first_watch}
          (Triple-tell Call.ignore_sigpipe (λ l t. Tracks-log [] first_watch l _ t.counted t))
          (λ _. Triple-bind (or_stray-Tracks empty_watch sfd []) (
            Triple-while (λ _. WatchesOpen) (Tracks []) (λ w l t. t.counted.1) (select_round sfd)
              select_round-Tracks))).at
        s [] first-Tracks
