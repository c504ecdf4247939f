-- ===== src/EpollServer/Lifecycle.antt =====
-- EpollTcpServer from Start to Stop.
use practice_code_c_cpp.Prelude.{
  ℕ, zero, suc, ◌+◌, ◌≡◌, refl, ◌≢◌, Bool, true, false, [], ◌∷◌, none, some, arith, ◌⊎◌, inl, inr,
  Bool-cases, Option-cases,
}
use practice_code_c_cpp.Posix.{
  M, Script, Log, asked, told, Call, Address, done, fail, Memory, returned, halted, aborted, ◌>>=◌,
  pure, ctl_add, epollin, epollet, sock_stream, o_nonblock, flag_or, somaxconn,
}
use practice_code_c_cpp.Posix.Keeps.{Ends, Ends-rest}
use practice_code_c_cpp.Posix.Views.{closed}
use practice_code_c_cpp.EpollServer.{
  Server, Callback, create_epoll, create_socket, make_socket_nonblock, listen, update_epoll_events,
  spawn_loop, start, stop, unregister_on_recv_callback,
}

-- A run of Start that succeeded: the results of its seven calls, what it leaves in the server, and
-- the calls in the log, newest first.
pub record Started (srv srv' : Server) (s s' : Script) (l l' : Log) : Type 0 where
  pub epoll : ℕ
  pub listener : ℕ
  pub flags : ℕ
  set_ret : ℕ
  listen_ret : ℕ
  pub ctl_ret : ℕ
  pub m₁ : Memory
  pub m₂ : Memory
  pub m₃ : Memory
  pub m₄ : Memory
  m₅ : Memory
  m₆ : Memory
  m₇ : Memory
  pub replies :
      s
      ≡ done epoll m₁
        ∷ done listener m₂
        ∷ done 0 m₃
        ∷ done flags m₄
        ∷ done set_ret m₅
        ∷ done listen_ret m₆
        ∷ done ctl_ret m₇
        ∷ s'
  pub server : srv' ≡ record srv { handle = listener; efd = epoll; th_loop = true }
  pub calls :
      l'
      ≡ told Call.spawn
        ∷ asked (Call.epoll_ctl epoll ctl_add listener (epollin + epollet)) (done ctl_ret m₇)
        ∷ asked (Call.listen listener somaxconn) (done listen_ret m₆)
        ∷ asked (Call.setfl listener (flag_or flags o_nonblock)) (done set_ret m₅)
        ∷ asked (Call.getfl listener) (done flags m₄)
        ∷ asked (Call.bind listener (Address.ip srv.local_ip) srv.local_port) (done 0 m₃)
        ∷ asked (Call.socket sock_stream) (done listener m₂)
        ∷ asked (Call.epoll_create 1) (done epoll m₁)
        ∷ l

module _ (srv srv' : Server) where
  -- The part of Start behind a bind that succeeded.
  bound :
      (s s' : Script) (l l' : Log) {e h : ℕ} {m₁ m₂ m₃ : Memory}
      → start srv (done e m₁ ∷ done h m₂ ∷ done 0 m₃ ∷ s) l ≡ returned (true, srv') s' l'
      → Started srv srv' (done e m₁ ∷ done h m₂ ∷ done 0 m₃ ∷ s) s' l l'
  unfolding ◌>>=◌ start create_epoll create_socket make_socket_nonblock listen update_epoll_events
      spawn_loop
  bound [] s' l l' q = cc
  bound (fail e ∷ s) s' l l' q = cc
  bound (done f m ∷ []) s' l l' q = cc
  bound (done f m ∷ fail e ∷ s) s' l l' q = cc
  bound (done f m ∷ done x m' ∷ []) s' l l' q = cc
  bound (done f m ∷ done x m' ∷ fail e ∷ s) s' l l' q = cc
  bound (done f m ∷ done x m' ∷ done y n ∷ []) s' l l' q = cc
  bound (done f m ∷ done x m' ∷ done y n ∷ fail e ∷ s) s' l l' q = cc
  bound (done f m ∷ done x m' ∷ done y n ∷ done z n' ∷ s) s' l l' {e} {h} {m₁} {m₂} {m₃} q =
      record {
        epoll = e;
        listener = h;
        flags = f;
        set_ret = x;
        listen_ret = y;
        ctl_ret = z;
        m₁ = m₁;
        m₂ = m₂;
        m₃ = m₃;
        m₄ = m;
        m₅ = m';
        m₆ = n;
        m₇ = n';
        replies = ground arith;
        server = ground arith;
        calls = ground arith;
      }

  -- Start returns true only if each of its seven calls succeeds. Then the listener is bound to the
  -- address of the server, not blocking, listening, and under the epoll instance, edge triggered;
  -- the server knows both, and the loop's thread runs.
  start-true :
      (s s' : Script) (l l' : Log)
      → start srv s l ≡ returned (true, srv') s' l'
      → Started srv srv' s s' l l'
  unfolding ◌>>=◌ start create_epoll create_socket make_socket_nonblock listen update_epoll_events
      spawn_loop
  start-true [] s' l l' q = cc
  start-true (fail e ∷ s) s' l l' q = cc
  start-true (done e m₁ ∷ []) s' l l' q = cc
  start-true (done e m₁ ∷ fail x ∷ s) s' l l' q = cc
  start-true (done e m₁ ∷ done h m₂ ∷ []) s' l l' q = cc
  start-true (done e m₁ ∷ done h m₂ ∷ fail x ∷ s) s' l l' q = cc
  start-true (done e m₁ ∷ done h m₂ ∷ done zero m₃ ∷ s) s' l l' q = bound s s' l l' q
  start-true (done e m₁ ∷ done h m₂ ∷ done (suc b) m₃ ∷ s) s' l l' q = absurd (ground arith)

-- Start, and then Stop, which the destructor calls whatever Start returned: both results.
abbrev pub start_then_stop : Server → M (Bool × Bool × Server)
start_then_stop srv = do
  (started, srv₁) ← start srv
  (stopped, srv₂) ← stop srv₁
  pure (started, stopped, srv₂)

-- How often a listener that socket returned and bind bound has been closed behind Start and Stop.
abbrev pub Closings : ℕ → Log → Bool → Log → Type 0
Closings h l true l' = closed h l' ≡ closed h l + 1
Closings h l false l' = (closed h l' ≡ closed h l) ⊎ (closed h l' ≡ closed h l + 2)

module _ (srv : Server) (h e : ℕ) where
  -- Where the listener is behind Start.
  abbrev Held : Log → Bool → Server → Log → Type 0
  Held l true srv' l' = (srv'.efd ≡ e) × (srv'.handle ≡ h) × (closed h l' ≡ closed h l)
  Held l false srv' l' =
      (srv'.efd ≡ e)
      × (((srv'.handle ≡ srv.handle) × (closed h l' ≡ closed h l))
          ⊎ ((srv'.handle ≡ h) × (closed h l' ≡ closed h l + 1)))

  start-Held :
      (s : Script) (l : Log) (m₁ m₂ m₃ : Memory)
      → Ends (λ _. Unit) (λ r. Held l r.0 r.1) (start srv (done e m₁ ∷ done h m₂ ∷ done 0 m₃ ∷ s) l)
  unfolding ◌>>=◌ start create_epoll create_socket make_socket_nonblock listen update_epoll_events
      spawn_loop
  start-Held [] l m₁ m₂ m₃ = tt
  start-Held (fail x ∷ s) l m₁ m₂ m₃ = (refl, inl (refl, refl))
  start-Held (done f m ∷ []) l m₁ m₂ m₃ = tt
  start-Held (done f m ∷ fail x ∷ s) l m₁ m₂ m₃ = (refl, inl (refl, refl))
  start-Held (done f m ∷ done y n ∷ []) l m₁ m₂ m₃ = tt
  start-Held (done f m ∷ done y n ∷ fail x ∷ s) l m₁ m₂ m₃ = (refl, inl (refl, refl))
  start-Held (done f m ∷ done y n ∷ done z k ∷ []) l m₁ m₂ m₃ = tt
  start-Held (done f m ∷ done y n ∷ done z k ∷ fail x ∷ s) l m₁ m₂ m₃ =
      (refl, inr (refl, ground arith))
  start-Held (done f m ∷ done y n ∷ done z k ∷ done w u ∷ s) l m₁ m₂ m₃ =
      elim (Bool-cases srv.th_loop) [
        | inl running ↦ rw running tt
        | inr none_yet ↦ rw none_yet (refl, refl, refl)
      ]

  stop-Closings :
      (b : Bool) (srv' : Server) (s : Script) (l l' : Log)
      → srv.handle ≢ h
      → e ≢ h
      → Held l b srv' l'
      → Ends
          (λ _. Unit)
          (λ (r : Bool × Bool × Server). Closings h l r.0)
          ((stop srv' >>= λ r. pure (b, r.0, r.1)) s l')
  unfolding ◌>>=◌ stop unregister_on_recv_callback
  stop-Closings b srv' s l l' n n' d = elim (Option-cases srv'.recv_callback) [
    | inl unset ↦ rw unset tt
    | inr (cb, set) ↦ rw set (closes b d)
  ]
    where
      closes :
          (b : Bool)
          → Held l b srv' l'
          → Closings h l b (told (Call.close srv'.efd) ∷ told (Call.close srv'.handle) ∷ l')
      closes true d = ground (arith, d)
      closes false d = ground (arith, d)

-- Where epoll_create, socket and bind succeed, and then Start and Stop return: if Start returns true,
-- the listener is closed once behind Stop; and if Start returns false, whichever of its calls failed, it
-- is closed not at all or twice.
pub start_then_stop-Closings :
    (srv : Server) (h e : ℕ) (s : Script) (l : Log) (m₁ m₂ m₃ : Memory)
    → srv.handle ≢ h
    → e ≢ h
    → Ends
        (λ _. Unit)
        (λ (r : Bool × Bool × Server). Closings h l r.0)
        (start_then_stop srv (done e m₁ ∷ done h m₂ ∷ done 0 m₃ ∷ s) l)
unfolding ◌>>=◌
start_then_stop-Closings srv h e s l m₁ m₂ m₃ n n' =
    Ends-rest (start srv (done e m₁ ∷ done h m₂ ∷ done 0 m₃ ∷ s) l) _
      (start-Held srv h e s l m₁ m₂ m₃)
      (λ r. record { at = λ s' l' d. stop-Closings srv h e r.0 r.1 s' l l' n n' d })

-- Stop needs a registered callback, and unregisters it: the first Stop returns true with the loop's
-- flag cleared, and the next one, such as the destructor's, fails its assert.
stop-stop :
    (srv : Server) (cb : Callback) (s : Script) (l : Log)
    → srv.recv_callback ≡ some cb
    → (stop srv s l
        ≡ returned
            (true, record srv { loop_flag = false; recv_callback = none })
            s
            (told (Call.close srv.efd) ∷ told (Call.close srv.handle) ∷ l))
      × (l' : Log) × ((stop srv >>= λ r. stop r.1) s l ≡ halted aborted l')
unfolding ◌>>=◌ stop unregister_on_recv_callback
stop-stop srv cb s l c = (
  rw c refl,
  told (Call.close srv.efd)
      ∷ told (Call.close srv.handle)
      ∷ told (Call.close srv.efd)
      ∷ told (Call.close srv.handle)
      ∷ l,
  rw c refl,
)
