-- ===== src/SelectServer/Echo.antt =====
-- SelectINET answers each message by the whole buffer that holds it.
use practice_code_c_cpp.Prelude.{length, ℕ, refl, Bool, Option, none, some, List, [], ◌∷◌, ◌==◌}
use practice_code_c_cpp.Posix.{Log, sock_stream, Script, Call, failed, value, pure, tell, ◌>>◌}
use practice_code_c_cpp.Posix.Uses.{
  Uses, Takes, uses_rules, Uses-bind, Uses-while, Uses-pure, Uses-tell, Uses-halt,
}
use practice_code_c_cpp.Posix.Keeps.{
  Ends, Steady, Triple-bind, Triple-pure, Triple-tell, Triple-if, Steady-bind, Steady-while,
  Round-Steady, Triple-halt, Triple-from, steady_rules,
}
use practice_code_c_cpp.Posix.Sockets.{listen_inet-Uses, handle_error, buffer_size}
use practice_code_c_cpp.Posix.Views.{whole_buffer}
use practice_code_c_cpp.Posix.Echoing.{
  Echoed, OneBehind, Echoed-or_behind, failed-Due, empty-Due, recv-Due, send-Echoed,
}
use practice_code_c_cpp.SelectServer.{
  Watch, remove_fd, or_stray, serve, visit, pass, select_round, select_inet, main,
}

serve-Uses : (w : Watch) (fd : ℕ) → Uses 0 (serve w fd)
unfolding serve
serve-Uses w fd = search uses_rules depth 9

pub or_stray-Uses : (fd : ℕ) (o : Option Watch) → Uses 0 (or_stray fd o)
unfolding or_stray
or_stray-Uses fd none = search (uses_rules, Uses-halt) depth 8
or_stray-Uses fd (some w) = Uses-pure w

visit-Uses : (sfd : ℕ) (readfds : ℕ → Bool) (w : Watch) (fd : ℕ) → Uses 0 (visit sfd readfds w fd)
unfolding visit
visit-Uses sfd readfds w fd = search (uses_rules, serve-Uses, or_stray-Uses) depth 9

pass-Uses :
    (sfd : ℕ) (readfds : ℕ → Bool) (w : Watch) (todo : List ℕ) → Uses 0 (pass sfd readfds w todo)
unfolding pass
pass-Uses sfd readfds w [] = Uses-pure w
pass-Uses sfd readfds w (fd ∷ todo) =
    Uses-bind (visit-Uses sfd readfds w fd) (λ w₁. pass-Uses sfd readfds w₁ todo)

select_round-Uses : (sfd : ℕ) (w : Watch) → Uses 1 (select_round sfd w)
unfolding select_round handle_error
select_round-Uses sfd w = search (uses_rules, Uses-halt, pass-Uses) depth 9

-- The fuel of the loop is enough.
pub select_main-Takes : (s : Script) (l : Log) → Takes 1 (length s) (main s l)
unfolding main select_inet
select_main-Takes s l =
    (Uses-bind (listen_inet-Uses sock_stream _) (λ sfd.
        Uses-bind (Uses-tell _)
          (λ _. Uses-bind (or_stray-Uses sfd _) (λ w. Uses-while _ (select_round-Uses sfd) w)))).at
      s l

ruleset echo_rules = (steady_rules, Echoed-or_behind)

serve-Echoed :
    (w : Watch) (fd : ℕ) → Steady (OneBehind whole_buffer) (Echoed whole_buffer) (serve w fd)
unfolding serve
serve-Echoed w fd = Triple-bind (recv-Due whole_buffer fd buffer_size) λ r.
    Triple-if (failed r) (λ h. Triple-from (λ l d. failed-Due whole_buffer fd r l h d) gone)
      (λ h.
        Triple-if (value r == 0) (λ k. Triple-from (λ l d. empty-Due whole_buffer fd r l k d) gone)
          (λ k. Triple-bind (send-Echoed whole_buffer fd r h k) (λ _. Triple-pure w (λ l e. e))))
  where
    gone :
        Steady
          (OneBehind whole_buffer)
          (Echoed whole_buffer)
          (tell (Call.close fd) >> pure (remove_fd w fd))
    gone =
        Steady-bind (Triple-tell (Call.close fd) (λ l e. e))
          (λ _. Triple-pure (remove_fd w fd) (λ l e. e))

or_stray-Echoed :
    (fd : ℕ) (o : Option Watch)
    → Steady (OneBehind whole_buffer) (Echoed whole_buffer) (or_stray fd o)
unfolding or_stray
or_stray-Echoed fd none = search (echo_rules, Triple-halt) depth 8
or_stray-Echoed fd (some w) = Triple-pure w (λ l e. e)

visit-Echoed :
    (sfd : ℕ) (readfds : ℕ → Bool) (w : Watch) (fd : ℕ)
    → Steady (OneBehind whole_buffer) (Echoed whole_buffer) (visit sfd readfds w fd)
unfolding visit
visit-Echoed sfd readfds w fd = search (echo_rules, serve-Echoed, or_stray-Echoed) depth 9

pass-Echoed :
    (sfd : ℕ) (readfds : ℕ → Bool) (w : Watch) (todo : List ℕ)
    → Steady (OneBehind whole_buffer) (Echoed whole_buffer) (pass sfd readfds w todo)
unfolding pass
pass-Echoed sfd readfds w [] = Triple-pure w (λ l e. e)
pass-Echoed sfd readfds w (fd ∷ todo) =
    Steady-bind (visit-Echoed sfd readfds w fd) (λ w₁. pass-Echoed sfd readfds w₁ todo)

select_round-Echoed :
    (sfd : ℕ) (w : Watch)
    → Steady (OneBehind whole_buffer) (Echoed whole_buffer) (select_round sfd w)
unfolding select_round handle_error
select_round-Echoed sfd w = search (echo_rules, Triple-halt, pass-Echoed) depth 9

-- At every point of every run the server has answered each message that it received, in order and
-- on its own connection, but for the last one while its send is under way. An answer is the whole
-- buffer, with the message at its start.
pub select_inet-Echoed :
    (sfd : ℕ) (s : Script)
    → Ends (OneBehind whole_buffer) (λ _. Echoed whole_buffer) (select_inet sfd s [])
unfolding select_inet
select_inet-Echoed sfd s =
    (Steady-bind (Triple-tell Call.ignore_sigpipe (λ l e. e)) (λ _.
        Steady-bind (or_stray-Echoed sfd _) (
          Steady-while (select_round sfd) (Echoed-or_behind whole_buffer)
            (λ w. Round-Steady (select_round-Echoed sfd w))))).at
      s [] refl
