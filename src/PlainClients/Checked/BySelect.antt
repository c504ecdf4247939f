-- ===== src/PlainClients/Checked/BySelect.antt =====
-- linux_io/3.io_multiplexing/select/client.cpp: what it sends, and the fuel of its loops.
use practice_code_c_cpp.Prelude.{ℕ, zero, suc, Bool, Option, none, some, List, [], ◌∷◌, length}
use practice_code_c_cpp.Posix.{Log, Script}
use practice_code_c_cpp.Posix.Keeps.{
  Ends, Steady, Triple-pure, Steady-bind, Steady-while, Steady-for_each, Round-Steady, Triple-halt,
  steady_rules,
}
use practice_code_c_cpp.Posix.Uses.{
  Uses, Takes, uses_rules, Uses-bind, Uses-while, Uses-pure, Uses-halt, Uses-for_each,
}
use practice_code_c_cpp.Posix.Sockets.{handle_error}
use practice_code_c_cpp.PlainClients.{client_num}
use practice_code_c_cpp.PlainClients.Checked.{Checked, greet-Checked, greet-Uses}
use practice_code_c_cpp.SelectServer.{Watch, or_stray}
use practice_code_c_cpp.SelectServer.Echo.{or_stray-Uses}
use practice_code_c_cpp.PlainClients.OnSelect.{
  open_one, open_all, write_visit, read_visit, read_pass, select_round, select_client,
}

or_stray-Checked : (fd : ℕ) (o : Option Watch) → Steady Checked Checked (or_stray fd o)
unfolding or_stray
or_stray-Checked fd none = search (steady_rules, Triple-halt) depth 8
or_stray-Checked fd (some w) = Triple-pure w (λ l h. h)

open_one-Checked : (w : Watch) → Steady Checked Checked (open_one w)
unfolding open_one
open_one-Checked w = search (steady_rules, or_stray-Checked) depth 8

open_all-Checked : (left : ℕ) (w : Watch) → Steady Checked Checked (open_all left w)
unfolding open_all
open_all-Checked zero w = Triple-pure w (λ l h. h)
open_all-Checked (suc left) w = Steady-bind (open_one-Checked w) (open_all-Checked left)

write_visit-Checked : (set : ℕ → Bool) (fd : ℕ) → Steady Checked Checked (write_visit set fd)
unfolding write_visit
write_visit-Checked set fd = search (steady_rules, greet-Checked)

read_visit-Checked :
    (set : ℕ → Bool) (w : Watch) (fd : ℕ) → Steady Checked Checked (read_visit set w fd)
unfolding read_visit
read_visit-Checked set w fd = search steady_rules depth 10

read_pass-Checked :
    (set : ℕ → Bool) (w : Watch) (todo : List ℕ) → Steady Checked Checked (read_pass set w todo)
unfolding read_pass
read_pass-Checked set w [] = Triple-pure w (λ l h. h)
read_pass-Checked set w (fd ∷ todo) =
    Steady-bind (read_visit-Checked set w fd) (λ w₁. read_pass-Checked set w₁ todo)

round-Checked : (w : Watch) → Steady Checked Checked (select_round w)
unfolding select_round handle_error
round-Checked w =
    search (steady_rules, Triple-halt, Steady-for_each, write_visit-Checked, read_pass-Checked)
      depth 12

pub select_client-Checked : (s : Script) → Ends Checked (λ _. Checked) (select_client s [])
unfolding select_client
select_client-Checked s =
    (Steady-bind (open_all-Checked client_num _)
        (Steady-while select_round (λ l h. h) (λ w. Round-Steady (round-Checked w)))).at
      s [] tt

open_one-Uses : (w : Watch) → Uses 1 (open_one w)
unfolding open_one
open_one-Uses w = search (uses_rules, or_stray-Uses) depth 9

open_all-Uses : (left : ℕ) (w : Watch) → Uses 0 (open_all left w)
unfolding open_all
open_all-Uses zero w = Uses-pure w
open_all-Uses (suc left) w = search (uses_rules, open_one-Uses, open_all-Uses left) depth 6

write_visit-Uses : (set : ℕ → Bool) (fd : ℕ) → Uses 0 (write_visit set fd)
unfolding write_visit
write_visit-Uses set fd = search (uses_rules, greet-Uses)

read_visit-Uses : (set : ℕ → Bool) (w : Watch) (fd : ℕ) → Uses 0 (read_visit set w fd)
unfolding read_visit
read_visit-Uses set w fd = search uses_rules depth 10

read_pass-Uses : (set : ℕ → Bool) (w : Watch) (todo : List ℕ) → Uses 0 (read_pass set w todo)
unfolding read_pass
read_pass-Uses set w [] = Uses-pure w
read_pass-Uses set w (fd ∷ todo) =
    Uses-bind (read_visit-Uses set w fd) (λ w₁. read_pass-Uses set w₁ todo)

round-Uses : (w : Watch) → Uses 1 (select_round w)
unfolding select_round handle_error
round-Uses w =
    search (uses_rules, Uses-halt, Uses-for_each, write_visit-Uses, read_pass-Uses) depth 12

pub select_client-Takes : (s : Script) (l : Log) → Takes 0 (length s) (select_client s l)
unfolding select_client
select_client-Takes s l =
    (Uses-bind (open_all-Uses client_num _) (Uses-while select_round round-Uses)).at s l
