-- ===== src/Tests/Select.antt =====
-- Runs of the select server and of the edge triggered epoll server.
use practice_code_c_cpp.Prelude.{
  Option, ℕ, zero, suc, ◌<◌, arith, mem, ◌+◌, ◌≡◌, refl, true, List, [], ◌∷◌, some, none,
}
use practice_code_c_cpp.Posix.{
  final_log, Script, done, fail, nothing, bytes, ready, ◌>>=◌, epollin, eagain, Event,
}
use practice_code_c_cpp.Posix.Flow.{while, loop}
use practice_code_c_cpp.Posix.Keeps.{Ends}
use practice_code_c_cpp.Posix.Views.{closed}
use practice_code_c_cpp.EdgeServer.{recv_round, epoll_inet}
use practice_code_c_cpp.EdgeServer.Drain.{
  Drained, AllDeleted, AtMostDeleted, recv_rounds-Drained, edge_epoll_inet-AtMostDeleted,
}
use practice_code_c_cpp.SelectServer.{
  Watch, add_fd, or_stray, empty_watch, remove_fd, watched, select_inet, insert, erase, rbegin,
  select_round, pass, visit, serve,
}
use practice_code_c_cpp.SelectServer.Sets.{IsConsistent}
use practice_code_c_cpp.SelectServer.Contract.{Op, adds, removes, after, members, after-watched}
use practice_code_c_cpp.SelectServer.Printing.{print_set, read_from, masks, read_from-print_set}
use practice_code_c_cpp.SelectServer.Tracking.{WatchesOpen, select_inet-WatchesOpen}

-- Connection 5 comes, sends "hi" and leaves.
abbrev select_script : Script
select_script =
    done 1 (ready (record { fd = 3; events = 0 } ∷ []))
    ∷ done 5 nothing
    ∷ done 1 (ready (record { fd = 5; events = 0 } ∷ []))
    ∷ done 2 (bytes (104 ∷ 105 ∷ []))
    ∷ done 1024 nothing
    ∷ done 1 (ready (record { fd = 5; events = 0 } ∷ []))
    ∷ done 0 nothing
    ∷ []

abbrev listener_script : Script
listener_script = done 3 nothing ∷ done 0 nothing ∷ done 0 nothing ∷ select_script

select_closes : closed 5 (final_log (select_inet 3 select_script [])) ≡ 1
unfolding ◌>>=◌ while loop select_inet or_stray select_round pass visit serve add_fd remove_fd
    insert erase rbegin watched
select_closes = refl

abbrev max_fd_of : Option Watch → ℕ
max_fd_of none = 0
max_fd_of (some w) = w.max_fd

removal_lowers_max_fd : max_fd_of (after (removes 5 ∷ adds 5 ∷ adds 3 ∷ [])) ≡ 3
unfolding add_fd remove_fd insert erase rbegin
removal_lowers_max_fd = refl

too_great : add_fd empty_watch 1024 ≡ none
unfolding add_fd
too_great = refl

select_inet-WatchesOpen_example :
    Ends (WatchesOpen 5 3) (λ _. WatchesOpen 5 3) (select_inet 3 select_script [])
select_inet-WatchesOpen_example = select_inet-WatchesOpen 5 3 select_script

-- Connection 5 comes, sends "hi" twice and would block.
abbrev edge_script : Script
edge_script =
    done 4 nothing
    ∷ done 2 nothing
    ∷ done 0 nothing
    ∷ done 1 (ready (record { fd = 3; events = epollin } ∷ []))
    ∷ done 5 nothing
    ∷ done 2 nothing
    ∷ done 0 nothing
    ∷ done 1 (ready (record { fd = 5; events = epollin } ∷ []))
    ∷ done 2 (bytes (104 ∷ 105 ∷ []))
    ∷ done 1024 nothing
    ∷ done 2 (bytes (104 ∷ 105 ∷ []))
    ∷ done 1024 nothing
    ∷ fail eagain
    ∷ []

abbrev edge_main_script : Script
edge_main_script = done 3 nothing ∷ done 0 nothing ∷ done 0 nothing ∷ edge_script

abbrev client_event : Event
client_event = record { fd = 5; events = epollin }

recv_rounds-Drained_example :
    Ends
      (λ _. Unit)
      (λ _. Drained)
      (while
        (recv_round true 4 client_event)
        tt
        (done 2 (bytes (104 ∷ 105 ∷ [])) ∷ done 1024 nothing ∷ fail eagain ∷ [])
        [])
recv_rounds-Drained_example =
    recv_rounds-Drained 4 client_event
      (done 2 (bytes (104 ∷ 105 ∷ [])) ∷ done 1024 nothing ∷ fail eagain ∷ []) []

edge_epoll_inet-AtMostDeleted_example :
    Ends (AtMostDeleted 5) (λ _. AllDeleted 5) (epoll_inet 3 true edge_script [])
edge_epoll_inet-AtMostDeleted_example = edge_epoll_inet-AtMostDeleted 5 3 true edge_script

abbrev calls : List Op
calls = removes 5 ∷ adds 3 ∷ adds 5 ∷ []

after-watched_example :
    (w : Watch) × (after calls ≡ some w)
    × IsConsistent w
    × ((d : ℕ) → mem d (watched w.origin_set (w.max_fd + 1)) ≡ members calls d)
after-watched_example = after-watched calls (refl, (omega arith, (omega arith, tt)))

-- The bits 3 and 5 of the first mask.
abbrev two_bits : ℕ → ℕ
two_bits zero = 40
two_bits (suc i) = 0

two_bits-lt : (i : ℕ) → two_bits i < 256
two_bits-lt zero = omega arith
two_bits-lt (suc i) = omega arith

read_from-print_set_example : read_from 0 (print_set two_bits) ≡ masks 16 two_bits
read_from-print_set_example = read_from-print_set two_bits two_bits-lt
