-- ===== src/PlainClients/Nonblocking.antt =====
-- linux_io/2.nonblocking/client.cpp
pub mod Connections
use practice_code_c_cpp.Prelude.{
  ℕ, zero, suc, ◌+◌, ◌≡◌, refl, Bool, true, false, ◌||◌, ◌&&◌, not, List, [], ◌∷◌, ◌++◌, ◌==◌, ltb,
  if◌then◌else◌,
}
use practice_code_c_cpp.Posix.{
  M, Script, Log, halted, spent, aborted, pure, halt, ask, tell, ◌>>=◌, ◌>>◌, Call, Address, Reply,
  failed, value, errno, int_of, eagain, would_block,
}
use practice_code_c_cpp.Posix.Flow.{Flow, continue, loop, while}
use practice_code_c_cpp.Posix.Sockets.{buffer_size, store, zeroed}
use practice_code_c_cpp.PlainClients.{client_num, stream_nonblock, to_string}

-- An element of connected_fds: a socket and the time of its last message.
pub record Connected : Type 0 where
  pub fd : ℕ
  pub last : ℕ

-- std::map::insert, in the order of the keys; a key that is there stays as it is.
unfoldable pub insert : Connected → List Connected → List Connected
insert c [] = c ∷ []
insert c (d ∷ ds) =
    let rest = insert c ds in
    if ltb c.fd d.fd then c ∷ d ∷ ds else if c.fd == d.fd then d ∷ ds else d ∷ rest

-- origin_client_fds and connected_fds.
pub record Clients : Type 0 where
  pub origin : List ℕ
  pub connected : List Connected

-- The first loop; the result of socket is not tested.
unfoldable pub open_all : ℕ → List ℕ → M (List ℕ)
open_all zero fds = pure fds
open_all (suc left) fds = do
  cfd ← ask (Call.socket stream_nonblock)
  open_all left (fds ++ (int_of cfd ∷ []))

abbrev ealready : ℕ
ealready = 114

abbrev einprogress : ℕ
einprogress = 115

abbrev pub under_way : ℕ → Bool
under_way e = e == eagain || e == ealready || e == einprogress

-- One try to connect, at the head of what is left of the vector.
unfoldable pub connect_visit : ℕ → Clients → M Clients
connect_visit fd c = do
  ret ← ask (Call.connect fd Address.any 8080)
  if failed ret
      then (if under_way (errno ret) then pure (record c { origin = fd ∷ c.origin }) else pure c)
      else if value ret == 0
      then pure (record c { connected = insert (record { fd = fd; last = 0 }) c.connected })
      else pure (record c { origin = fd ∷ c.origin })

-- The pass over the vector; from its end, so that those that stay keep their order.
unfoldable pub connect_pass : List ℕ → List Connected → M Clients
connect_pass [] connected = pure (record { origin = []; connected = connected })
connect_pass (fd ∷ todo) connected = do
  here ← connect_visit fd (record { origin = []; connected = connected })
  rest ← connect_pass todo here.connected
  pure (record rest { origin = here.origin ++ rest.origin })

-- "msg from client fd " + std::to_string(fd), in a cleared buffer
abbrev pub greeting : ℕ → List ℕ
greeting fd = store zeroed (
    (b'm' ∷ b's' ∷ b'g' ∷ b' ' ∷ b'f' ∷ b'r' ∷ b'o' ∷ b'm' ∷ b' ' ∷ b'c' ∷ b'l' ∷ b'i' ∷ b'e' ∷ b'n'
      ∷ b't' ∷ b' ' ∷ b'f' ∷ b'd' ∷ b' ' ∷ [])
    ++ to_string fd)

-- now - miter->second > SEND_TIME_DIFF, which is 0.
unfoldable pub send_due : Connected → ℕ → M Connected
send_due c now =
    if ltb c.last now
    then (ask (Call.send c.fd (greeting c.fd)) >>= λ r. pure (record c { last = now }))
    else pure c

-- A connected socket, the last of the map or not. Behind an error of recv other than EAGAIN the
-- iterator, which was incremented before, is read: at the end of the map it has no element. Where
-- recv returns 0, the iterator is incremented behind the erasure of its element: an access to memory
-- that was freed. The model ends at both.
unfoldable pub serve_visit : Bool → Connected → M Connected
serve_visit last c = do
  now ← ask Call.time
  c₁ ← send_due c (value now)
  ret ← ask (Call.recv c.fd buffer_size)
  if failed ret
      then (if not (would_block (errno ret)) && last
          then (tell (Call.stray c.fd) >> halt aborted)
          else pure c₁)
      else if value ret == 0
      then (tell (Call.stray c.fd) >> halt aborted)
      else pure c₁

abbrev pub is_empty : List Connected → Bool
is_empty [] = true
is_empty (_ ∷ _) = false

unfoldable pub serve_pass : List Connected → M (List Connected)
serve_pass [] = pure []
serve_pass (c ∷ todo) = do
  c₁ ← serve_visit (is_empty todo) c
  rest ← serve_pass todo
  pure (c₁ ∷ rest)

unfoldable pub client_round : Clients → M (Flow Clients (Unit {0}))
client_round c = do
  c₁ ← connect_pass c.origin c.connected
  connected ← serve_pass c₁.connected
  pure (continue (record c₁ { connected = connected }))

unfoldable pub nonblocking_client : M (Unit {0})
nonblocking_client = do
  fds ← open_all client_num []
  while client_round (record { origin = fds; connected = [] })

-- When no socket is left, because each was refused or lost, the client runs on for ever: in any
-- number of rounds it makes no call and does not return.
nothing_left_spins :
    (rounds : ℕ) (s : Script) (l : Log)
    → loop rounds client_round (record { origin = []; connected = [] }) s l ≡ halted spent l
unfolding loop client_round connect_pass serve_pass ◌>>=◌
nothing_left_spins zero s l = refl
nothing_left_spins (suc rounds) s l = nothing_left_spins rounds s l
