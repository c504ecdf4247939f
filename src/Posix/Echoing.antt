-- ===== src/Posix/Echoing.antt =====
-- Servers that answer each recv by one send: what they sent against what they received. `text` is
-- the answer that a server gives to the result of a recv.
use practice_code_c_cpp.Prelude.{
  ℕ, ◌≡◌, sym, ap, ◌⊎◌, inl, true, false, ◌||◌, List, ◌∷◌, ◌++◌, arith, ◌==◌,
}
use practice_code_c_cpp.Posix.{Log, Reply, Call, failed, value, ask}
use practice_code_c_cpp.Posix.Keeps.{Triple, Steady, Triple-ask, Triple-halt, steady_rules}
use practice_code_c_cpp.Posix.Sockets.{listen_inet, handle_error}
use practice_code_c_cpp.Posix.Views.{Message, message, received, sent}

module _ (text : Reply → List ℕ) where
  -- Each message was answered: once, on its own connection, and in order; nothing else was sent.
  abbrev pub Echoed : Log → Type 0
  Echoed l = sent l ≡ received text l

  -- Or all but the message that came last.
  abbrev pub OneBehind : Log → Type 0
  OneBehind l = Echoed l ⊎ ((m : Message) × (received text l ≡ m ∷ sent l))

  -- The answer to a recv with this result is still to be sent.
  abbrev pub Due : ℕ → Reply → Log → Type 0
  Due cfd r l = received text l ≡ message text cfd r ++ sent l

  pub Echoed-or_behind : (l : Log) → Echoed l → OneBehind l
  Echoed-or_behind l e = inl e

  Due-or_behind : (cfd : ℕ) (r : Reply) (l : Log) → Due cfd r l → OneBehind l
  Due-or_behind cfd r l d = ground arith

  pub failed-Due : (cfd : ℕ) (r : Reply) (l : Log) → failed r ≡ true → Due cfd r l → Echoed l
  failed-Due cfd r l h d = ground arith

  pub empty-Due : (cfd : ℕ) (r : Reply) (l : Log) → (value r == 0) ≡ true → Due cfd r l → Echoed l
  empty-Due cfd r l h d = ground arith

  pub ended-Due :
      (cfd : ℕ) (r : Reply) (l : Log) → (failed r || value r == 0) ≡ true → Due cfd r l → Echoed l
  ended-Due cfd r l h d = ground arith

  pub listen_inet-Echoed : (type backlog : ℕ) → Steady OneBehind Echoed (listen_inet type backlog)
  unfolding listen_inet handle_error
  listen_inet-Echoed type backlog = search (steady_rules, Echoed-or_behind, Triple-halt) depth 9

  pub recv-Due : (cfd n : ℕ) → Triple OneBehind (Due cfd) Echoed (ask (Call.recv cfd n))
  recv-Due cfd n =
      Triple-ask (Call.recv cfd n) Echoed-or_behind
        (λ r l e. ap (◌++◌ (message text cfd r)) (sym e))

  -- The answer to a recv that got data.
  pub send-Echoed :
      (cfd : ℕ) (r : Reply)
      → failed r ≡ false
      → (value r == 0) ≡ false
      → Triple OneBehind (λ _. Echoed) (Due cfd r) (ask (Call.send cfd (text r)))
  send-Echoed cfd r h k =
      Triple-ask (Call.send cfd (text r)) (Due-or_behind cfd r) (λ w l d. ground arith)
