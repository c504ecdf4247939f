-- ===== src/PlainClients/Checked/ByPoll.antt =====
-- linux_io/3.io_multiplexing/poll/client.cpp: what it sends, and the fuel of its loops.
use practice_code_c_cpp.Prelude.{ℕ, zero, suc, List, [], ◌∷◌, length}
use practice_code_c_cpp.Posix.{Log, Script, Event}
use practice_code_c_cpp.Posix.Keeps.{
  Ends, Steady, Triple-pure, Steady-bind, Steady-while, Steady-for_each, Round-Steady, Triple-halt,
  steady_rules,
}
use practice_code_c_cpp.Posix.Uses.{
  Uses, Takes, uses_rules, Uses-bind, Uses-while, Uses-pure, Uses-halt, Uses-for_each,
}
use practice_code_c_cpp.Posix.Sockets.{handle_error}
use practice_code_c_cpp.PlainClients.{client_num}
use practice_code_c_cpp.PlainClients.Checked.{Checked, greet-Checked, greet-Uses}
use practice_code_c_cpp.PlainClients.OnPoll.{
  open_one, open_all, write_visit, read_visit, read_pass, poll_round, poll_client,
}

open_one-Checked : (fds : List ℕ) → Steady Checked Checked (open_one fds)
unfolding open_one
open_one-Checked fds = search steady_rules depth 8

open_all-Checked : (left : ℕ) (fds : List ℕ) → Steady Checked Checked (open_all left fds)
unfolding open_all
open_all-Checked zero fds = Triple-pure fds (λ l h. h)
open_all-Checked (suc left) fds = Steady-bind (open_one-Checked fds) (open_all-Checked left)

write_visit-Checked : (es : List Event) (fd : ℕ) → Steady Checked Checked (write_visit es fd)
unfolding write_visit
write_visit-Checked es fd = search (steady_rules, greet-Checked)

read_visit-Checked : (es : List Event) (fd : ℕ) → Steady Checked Checked (read_visit es fd)
unfolding read_visit
read_visit-Checked es fd = search steady_rules depth 10

read_pass-Checked : (es : List Event) (todo : List ℕ) → Steady Checked Checked (read_pass es todo)
unfolding read_pass
read_pass-Checked es [] = Triple-pure [] (λ l h. h)
read_pass-Checked es (fd ∷ todo) =
    Steady-bind (read_visit-Checked es fd)
      (λ kept. Steady-bind (read_pass-Checked es todo) (λ rest. Triple-pure _ (λ l h. h)))

round-Checked : (fds : List ℕ) → Steady Checked Checked (poll_round fds)
unfolding poll_round handle_error
round-Checked fds =
    search (steady_rules, Triple-halt, Steady-for_each, write_visit-Checked, read_pass-Checked)
      depth 12

pub poll_client-Checked : (s : Script) → Ends Checked (λ _. Checked) (poll_client s [])
unfolding poll_client
poll_client-Checked s =
    (Steady-bind (open_all-Checked client_num [])
        (Steady-while poll_round (λ l h. h) (λ fds. Round-Steady (round-Checked fds)))).at
      s [] tt

open_one-Uses : (fds : List ℕ) → Uses 1 (open_one fds)
unfolding open_one
open_one-Uses fds = search uses_rules depth 9

open_all-Uses : (left : ℕ) (fds : List ℕ) → Uses 0 (open_all left fds)
unfolding open_all
open_all-Uses zero fds = Uses-pure fds
open_all-Uses (suc left) fds = search (uses_rules, open_one-Uses, open_all-Uses left) depth 6

write_visit-Uses : (es : List Event) (fd : ℕ) → Uses 0 (write_visit es fd)
unfolding write_visit
write_visit-Uses es fd = search (uses_rules, greet-Uses)

read_visit-Uses : (es : List Event) (fd : ℕ) → Uses 0 (read_visit es fd)
unfolding read_visit
read_visit-Uses es fd = search uses_rules depth 10

read_pass-Uses : (es : List Event) (todo : List ℕ) → Uses 0 (read_pass es todo)
unfolding read_pass
read_pass-Uses es [] = Uses-pure []
read_pass-Uses es (fd ∷ todo) =
    Uses-bind (read_visit-Uses es fd)
      (λ kept. Uses-bind (read_pass-Uses es todo) (λ rest. Uses-pure _))

round-Uses : (fds : List ℕ) → Uses 1 (poll_round fds)
unfolding poll_round handle_error
round-Uses fds =
    search (uses_rules, Uses-halt, Uses-for_each, write_visit-Uses, read_pass-Uses) depth 12

pub poll_client-Takes : (s : Script) (l : Log) → Takes 0 (length s) (poll_client s l)
unfolding poll_client
poll_client-Takes s l =
    (Uses-bind (open_all-Uses client_num []) (Uses-while poll_round round-Uses)).at s l
