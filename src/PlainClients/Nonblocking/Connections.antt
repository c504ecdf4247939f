-- ===== src/PlainClients/Nonblocking/Connections.antt =====
-- The nonblocking client uses a socket only once connect has succeeded on it.
use practice_code_c_cpp.Prelude.{
  ℕ, zero, suc, ◌≡◌, refl, subst, inl, inr, Bool-cases, ==_iff, Bool, true, false, not, ◌&&◌, ◌||◌,
  List, [], ◌∷◌, ◌==◌, ltb, arith,
}
use practice_code_c_cpp.Posix.{
  Log, Script, Reply, Call, asked, failed, value, errno, would_block, tell, halt, aborted, ◌>>◌,
}
use practice_code_c_cpp.Posix.Keeps.{
  Ends, Triple, Round, Triple-bind, Triple-pure, Triple-tell, Triple-ask, Triple-if, Triple-halt,
  Triple-given, Triple-from, Triple-while,
}
use practice_code_c_cpp.PlainClients.{client_num}
use practice_code_c_cpp.PlainClients.Nonblocking.{
  Connected, Clients, insert, open_all, under_way, connect_visit, connect_pass, greeting, send_due,
  is_empty, serve_visit, serve_pass, client_round, nonblocking_client,
}

-- connect has returned 0 for the descriptor.
abbrev was_connected : ℕ → Log → Bool
was_connected fd [] = false
was_connected fd (asked (Call.connect d a p) r ∷ l) =
    (d == fd && (not (failed r) && value r == 0)) || was_connected fd l
was_connected fd (_ ∷ l) = was_connected fd l

-- send and recv are called on such descriptors only, and a message is the greeting of its own.
abbrev pub UsesConnected : Log → Type 0
UsesConnected [] = Unit
UsesConnected (asked (Call.send fd bs) r ∷ l) =
    (bs ≡ greeting fd) × (was_connected fd l ≡ true) × UsesConnected l
UsesConnected (asked (Call.recv fd n) r ∷ l) = (was_connected fd l ≡ true) × UsesConnected l
UsesConnected (_ ∷ l) = UsesConnected l

abbrev keyed : ℕ → List Connected → Bool
keyed fd [] = false
keyed fd (c ∷ cs) = c.fd == fd || keyed fd cs

keyed-insert :
    (fd : ℕ) (c : Connected) (cs : List Connected)
    → keyed fd (insert c cs) ≡ (c.fd == fd || keyed fd cs)
unfolding insert
keyed-insert fd c [] = refl
keyed-insert fd c (d ∷ cs) = ground (arith, keyed-insert fd c cs)

abbrev Keys : List Connected → Log → Type 0
Keys cs l = UsesConnected l × ((fd : ℕ) → keyed fd cs ≡ true → was_connected fd l ≡ true)

inserted :
    (fd d : ℕ) (cs : List Connected) (l : Log)
    → keyed d (insert (record { fd = fd; last = 0 }) cs) ≡ true
    → was_connected fd l ≡ true
    → ((d : ℕ) → keyed d cs ≡ true → was_connected d l ≡ true)
    → was_connected d l ≡ true
inserted fd d cs l h w k = elim (Bool-cases (fd == d)) [
  | inl same ↦ subst (λ x. was_connected x l ≡ true) ((==_iff fd d).0 same) w
  | inr other ↦ k d (ground (arith, keyed-insert d (record { fd = fd; last = 0 }) cs))
]

connect_visit-Keys :
    (fd : ℕ) (c : Clients)
    → Triple UsesConnected
        (λ c' l. Keys c'.connected l)
        (λ l. Keys c.connected l)
        (connect_visit fd c)
unfolding connect_visit
connect_visit-Keys fd c =
    Triple-bind {Q = Behind}
      (Triple-ask _ (λ l k. k.0)
        (λ r l k. (k.0, λ d h. ground (arith, k.1 d), λ f z. ground (arith))))
      λ r.
        Triple-if (failed r)
          (λ f.
            Triple-if (under_way (errno r)) (λ u. Triple-pure _ (λ l k. (k.0, k.1)))
              (λ u. Triple-pure _ (λ l k. (k.0, k.1))))
          (λ f.
            Triple-if (value r == 0)
              (λ z.
                Triple-pure _ (λ l k. (k.0, λ d h. inserted fd d c.connected l h (k.2 f z) k.1)))
              (λ z. Triple-pure _ (λ l k. (k.0, k.1))))
  where
    Behind : Reply → Log → Type 0
    Behind r l =
        UsesConnected l
        × ((d : ℕ) → keyed d c.connected ≡ true → was_connected d l ≡ true)
        × (failed r ≡ false → (value r == 0) ≡ true → was_connected fd l ≡ true)

connect_pass-Keys :
    (todo : List ℕ) (cs : List Connected)
    → Triple UsesConnected (λ c l. Keys c.connected l) (Keys cs) (connect_pass todo cs)
unfolding connect_pass
connect_pass-Keys [] cs = Triple-pure _ (λ l k. k)
connect_pass-Keys (fd ∷ todo) cs =
    Triple-bind (connect_visit-Keys fd (record { origin = []; connected = cs }))
      λ here. Triple-bind (connect_pass-Keys todo here.connected) (λ rest. Triple-pure _ (λ l k. k))

module _ (all : List Connected) where
  send_due-Keys :
      (c : Connected) (now : ℕ)
      → keyed c.fd all ≡ true
      → Triple UsesConnected (λ c' l. Keys all l × (c'.fd ≡ c.fd)) (Keys all) (send_due c now)
  unfolding send_due
  send_due-Keys c now m =
      Triple-if (ltb c.last now)
        (λ h.
          Triple-bind {Q = λ r l. Keys all l}
            (Triple-ask _ (λ l k. k.0) (λ r l k. ((refl, k.1 c.fd m, k.0), k.1)))
            (λ r. Triple-pure _ (λ l k. (k, refl))))
        (λ h. Triple-pure c (λ l k. (k, refl)))

  serve_visit-Keys :
      (last : Bool) (c : Connected)
      → keyed c.fd all ≡ true
      → Triple UsesConnected (λ c' l. Keys all l × (c'.fd ≡ c.fd)) (Keys all) (serve_visit last c)
  unfolding serve_visit
  serve_visit-Keys last c m =
      Triple-bind {Q = λ r l. Keys all l} (Triple-ask _ (λ l k. k.0) (λ r l k. k)) λ now.
        Triple-bind (send_due-Keys c (value now) m) λ c₁.
          Triple-bind {Q = λ r l. Keys all l × (c₁.fd ≡ c.fd)}
            (Triple-ask _ (λ l k. k.0.0) (λ r l k. (((k.0.1 c.fd m, k.0.0), k.0.1), k.1)))
            λ r.
              Triple-if (failed r)
                (λ f.
                  Triple-if (not (would_block (errno r)) && last) (λ e. stray c₁)
                    (λ e. Triple-pure c₁ (λ l k. k)))
                (λ f. Triple-if (value r == 0) (λ z. stray c₁) (λ z. Triple-pure c₁ (λ l k. k)))
    where
      stray :
          (c₁ : Connected)
          → Triple UsesConnected
              (λ (c' : Connected) l. Keys all l × (c'.fd ≡ c.fd))
              (λ l. Keys all l × (c₁.fd ≡ c.fd))
              (tell (Call.stray c.fd) >> halt aborted)
      stray c₁ =
          Triple-bind {Q = λ r l. UsesConnected l} (Triple-tell _ (λ l k. k.0.0))
            (λ _. Triple-halt _ (λ l k. k))

  abbrev Covered : List Connected → Type 0
  Covered todo = (d : ℕ) → keyed d todo ≡ true → keyed d all ≡ true

  serve_pass-Keys :
      (todo : List Connected)
      → Covered todo
      → Triple UsesConnected (λ rest l. Keys all l × Covered rest) (Keys all) (serve_pass todo)
  unfolding serve_pass
  serve_pass-Keys [] m = Triple-pure [] (λ l k. (k, m))
  serve_pass-Keys (c ∷ todo) m =
      Triple-bind (serve_visit-Keys (is_empty todo) c (m c.fd (ground arith))) λ c₁.
        Triple-given λ e.
          Triple-bind (serve_pass-Keys todo (λ d h. m d (ground arith)))
            (λ rest. Triple-pure (c₁ ∷ rest) (λ l k. (k.0, covered c₁ e rest k.1)))
    where
      covered :
          (c₁ : Connected)
          → c₁.fd ≡ c.fd
          → (rest : List Connected) → Covered rest
          → Covered (c₁ ∷ rest)
      covered c₁ e rest k d h = ground (arith, m d, k d)

open_all-Uses :
    (left : ℕ) (fds : List ℕ)
    → Triple UsesConnected (λ fds l. UsesConnected l) UsesConnected (open_all left fds)
unfolding open_all
open_all-Uses zero fds = Triple-pure fds (λ l h. h)
open_all-Uses (suc left) fds =
    Triple-bind (Triple-ask _ (λ l h. h) (λ r l h. h)) (λ r. open_all-Uses left _)

client_round-Keys :
    (c : Clients)
    → Triple UsesConnected
        (Round (λ c l. Keys c.connected l) (λ _. UsesConnected))
        (λ l. Keys c.connected l)
        (client_round c)
unfolding client_round
client_round-Keys c = Triple-bind (connect_pass-Keys c.origin c.connected) λ c₁.
    Triple-bind (serve_pass-Keys c₁.connected c₁.connected (λ d h. h))
      (λ rest. Triple-pure _ (λ l k. (k.0.0, λ d h. k.0.1 d (k.1 d h))))

-- At every point of every run, whatever the system answers, the nonblocking client has called send and
-- recv only on descriptors on which connect had returned 0, and each message was the greeting of its
-- own descriptor.
pub nonblocking_client-UsesConnected :
    (s : Script) → Ends UsesConnected (λ _. UsesConnected) (nonblocking_client s [])
unfolding nonblocking_client
nonblocking_client-UsesConnected s =
    (Triple-bind (open_all-Uses client_num []) (λ fds.
        Triple-from (λ l h. (h, λ d e. cc))
          (Triple-while (λ _. UsesConnected) (λ c l. Keys c.connected l) (λ c l k. k.0) client_round
            client_round-Keys (record { origin = fds; connected = [] })))).at
      s [] tt
