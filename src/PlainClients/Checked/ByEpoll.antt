-- ===== src/PlainClients/Checked/ByEpoll.antt =====
-- linux_io/3.io_multiplexing/epoll/client.cpp: what it sends, and the fuel of its loops.
use practice_code_c_cpp.Prelude.{ℕ, zero, suc, Bool, [], length}
use practice_code_c_cpp.Posix.{Log, Script, Event, int_of, has, epollin}
use practice_code_c_cpp.Posix.Keeps.{
  Ends, Steady, Triple-if, Triple-pure, Triple-ask, Steady-bind, Steady-while, Steady-for_each,
  Round-Steady, Triple-halt, steady_rules,
}
use practice_code_c_cpp.Posix.Uses.{
  Uses, Takes, uses_rules, Uses-bind, Uses-ask, Uses-if, Uses-weaken, Uses-while, Uses-pure,
  Uses-halt, Uses-for_each,
}
use practice_code_c_cpp.Posix.Sockets.{handle_error}
use practice_code_c_cpp.PlainClients.{client_num}
use practice_code_c_cpp.PlainClients.Checked.{Checked, greet-Checked, greet-Uses}
use practice_code_c_cpp.PlainClients.OnEpoll.{
  open_one, open_all, write_visit, disconnect, recv_round, read_visit, wait_round, epoll_client,
}

module _ (efd : ℕ) where
  open_one-Checked : Steady Checked Checked (open_one efd)
  unfolding open_one handle_error
  open_one-Checked = search (steady_rules, Triple-halt) depth 9

  open_all-Checked : (left : ℕ) → Steady Checked Checked (open_all efd left)
  unfolding open_all
  open_all-Checked zero = Triple-pure tt (λ l h. h)
  open_all-Checked (suc left) = Steady-bind open_one-Checked (λ _. open_all-Checked left)

  disconnect-Checked : (cfd : ℕ) → Steady Checked Checked (disconnect efd cfd)
  unfolding disconnect handle_error
  disconnect-Checked cfd = search (steady_rules, Triple-halt) depth 9

  recv_round-Checked :
      (et_mode : Bool) (cfd : ℕ) → Steady Checked Checked (recv_round et_mode efd cfd tt)
  unfolding recv_round
  recv_round-Checked et_mode cfd = search (steady_rules, disconnect-Checked) depth 12

  read_visit-Checked :
      (et_mode : Bool) (ev : Event) → Steady Checked Checked (read_visit et_mode efd ev)
  unfolding read_visit
  read_visit-Checked et_mode ev =
      Triple-if (has ev.events epollin)
        (λ h.
          Steady-while (recv_round et_mode efd ev.fd) (λ l h. h)
            (λ _. Round-Steady (recv_round-Checked et_mode ev.fd)) tt)
        (λ h. Triple-pure tt (λ l h. h))

  write_visit-Checked : (ev : Event) → Steady Checked Checked (write_visit ev)
  unfolding write_visit
  write_visit-Checked ev = search (steady_rules, greet-Checked)

  round-Checked : (et_mode : Bool) → Steady Checked Checked (wait_round et_mode efd tt)
  unfolding wait_round handle_error
  round-Checked et_mode =
      search
        (
          steady_rules,
          Triple-halt,
          Steady-for_each,
          write_visit-Checked,
          read_visit-Checked et_mode,
        )
        depth 12

pub epoll_client-Checked :
    (et_mode : Bool) (s : Script) → Ends Checked (λ _. Checked) (epoll_client et_mode s [])
unfolding epoll_client
epoll_client-Checked et_mode s =
    (Steady-bind (Triple-ask _ (λ l h. h) (λ r l h. h)) (λ r.
        Steady-bind (open_all-Checked (int_of r) client_num) (λ _.
          Steady-while (wait_round et_mode (int_of r)) (λ l h. h)
            (λ _. Round-Steady (round-Checked (int_of r) et_mode)) tt))).at
      s [] tt

module _ (efd : ℕ) where
  open_one-Uses : Uses 1 (open_one efd)
  unfolding open_one handle_error
  open_one-Uses = search (uses_rules, Uses-halt) depth 9

  open_all-Uses : (left : ℕ) → Uses 0 (open_all efd left)
  unfolding open_all
  open_all-Uses zero = Uses-pure tt
  open_all-Uses (suc left) = Uses-bind (Uses-weaken open_one-Uses) (λ _. open_all-Uses left)

  disconnect-Uses : (cfd : ℕ) → Uses 1 (disconnect efd cfd)
  unfolding disconnect handle_error
  disconnect-Uses cfd = search (uses_rules, Uses-halt) depth 9

  recv_round-Uses : (et_mode : Bool) (cfd : ℕ) → Uses 1 (recv_round et_mode efd cfd tt)
  unfolding recv_round
  recv_round-Uses et_mode cfd = search (uses_rules, disconnect-Uses) depth 12

  read_visit-Uses : (et_mode : Bool) (ev : Event) → Uses 0 (read_visit et_mode efd ev)
  unfolding read_visit
  read_visit-Uses et_mode ev =
      Uses-if (has ev.events epollin)
        (Uses-while (recv_round et_mode efd ev.fd) (λ _. recv_round-Uses et_mode ev.fd) tt)
        (Uses-pure tt)

  write_visit-Uses : (ev : Event) → Uses 0 (write_visit ev)
  unfolding write_visit
  write_visit-Uses ev = search (uses_rules, greet-Uses)

  round-Uses : (et_mode : Bool) → Uses 1 (wait_round et_mode efd tt)
  unfolding wait_round handle_error
  round-Uses et_mode =
      search (uses_rules, Uses-halt, Uses-for_each, write_visit-Uses, read_visit-Uses et_mode) depth
        12

pub epoll_client-Takes :
    (et_mode : Bool) (s : Script) (l : Log) → Takes 1 (length s) (epoll_client et_mode s l)
unfolding epoll_client
epoll_client-Takes et_mode s l =
    (Uses-bind (Uses-ask _) (λ r. Uses-bind (open_all-Uses (int_of r) client_num) (λ _.
        Uses-while (wait_round et_mode (int_of r)) (λ _. round-Uses (int_of r) et_mode) tt))).at
      s l
