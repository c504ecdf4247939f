-- ===== src/EpollClient/Typing.antt =====
-- What main sends, against what is typed.
use practice_code_c_cpp.Prelude.{ℕ, ◌≡◌, refl, ◌⊎◌, inl, inr, List, [], ◌∷◌, arith}
use practice_code_c_cpp.Posix.{Script, Log, asked, Call, memory, exited, minus_one}
use practice_code_c_cpp.Posix.Flow.{continue}
use practice_code_c_cpp.Posix.Keeps.{
  Ends, Round, Triple, Steady, Triple-bind, Triple-ask, Triple-pure, Triple-if, Triple-halt,
  Triple-while, steady_rules,
}
use practice_code_c_cpp.EpollServer.{Packet, update_epoll_events}
use practice_code_c_cpp.EpollServer.Echo.{packets_written}
use practice_code_c_cpp.EpollClient.{
  Client, line_in, send_data, input_round, start, create_epoll, create_socket, connect, spawn_loop,
  main, new_client, register_on_recv_callback,
}

-- The variable msg behind the log.
abbrev msg_after : Log → List ℕ
msg_after [] = []
msg_after (asked Call.getline r ∷ l) = line_in (msg_after l) (memory r)
msg_after (_ ∷ l) = msg_after l

-- What each getline left in msg, newest first.
abbrev lines : Log → List (List ℕ)
lines [] = []
lines (asked Call.getline r ∷ l) = line_in (msg_after l) (memory r) ∷ lines l
lines (_ ∷ l) = lines l

abbrev texts : List Packet → List (List ℕ)
texts [] = []
texts (p ∷ ps) = p.msg ∷ texts ps

-- Each line was handed to write, once and in order, and nothing else was.
abbrev AllSent : Log → Type 0
AllSent l = texts (packets_written l) ≡ lines l

-- Or all but the line typed last.
abbrev pub LineBehind : Log → Type 0
LineBehind l = AllSent l ⊎ ((line : List ℕ) × (lines l ≡ line ∷ texts (packets_written l)))

-- With the variable msg of main.
abbrev Sent : List ℕ → Log → Type 0
Sent msg l = AllSent l × (msg_after l ≡ msg)

abbrev Due : List ℕ → Log → Type 0
Due line l = (lines l ≡ line ∷ texts (packets_written l)) × (msg_after l ≡ line)

behind : (msg : List ℕ) (l : Log) → Sent msg l → LineBehind l
behind msg l h = inl h.0

send_data-Sent :
    (cli : Client) (line : List ℕ)
    → Triple LineBehind
        (λ _. Sent line)
        (Due line)
        (send_data cli (record { fd = minus_one; msg = line }))
unfolding send_data
send_data-Sent cli line =
    Triple-bind {Q = λ _. Sent line} (Triple-ask _ (λ l d. inr (line, d.0)) (λ r l d. ground arith))
      (λ r. search steady_rules depth 9)

input_round-Sent :
    (cli : Client) (msg : List ℕ)
    → Triple LineBehind (Round Sent (λ _. LineBehind)) (Sent msg) (input_round cli msg)
unfolding input_round
input_round-Sent cli msg =
    Triple-bind {Q = λ r. Due (line_in msg (memory r))}
      (Triple-ask Call.getline (behind msg) (λ r l h. ground arith))
      (λ r.
        Triple-bind (send_data-Sent cli (line_in msg (memory r)))
          (λ _. Triple-pure (continue (line_in msg (memory r))) (λ l h. h)))

start-Sent : (cli : Client) → Steady LineBehind (Sent []) (start cli)
unfolding start create_epoll create_socket connect update_epoll_events spawn_loop
start-Sent cli = search (steady_rules, behind, Triple-halt) depth 14

-- At every point of every run of the client, each line that was typed has been handed to write once
-- and in order, and nothing else has, but for the last line while its write is under way. (Where the
-- input has ended, getline leaves the line before it, which is sent again.)
pub client_main-AllSent :
    (server_ip : List ℕ) (server_port : ℕ) (s : Script)
    → Ends LineBehind (λ _. LineBehind) (main server_ip server_port s [])
unfolding main register_on_recv_callback new_client
client_main-AllSent server_ip server_port s =
    (Triple-bind {Q = λ _. Sent []} {P = Sent []} (Triple-pure _ (λ l h. h)) (λ cli.
        Triple-bind (start-Sent cli) (λ x.
          Triple-if x.0
            (λ _.
              Triple-while (λ _. LineBehind) Sent behind (input_round x.1) (input_round-Sent x.1)
                [])
            (λ _. Triple-halt (exited 1) (behind []))))).at
      s [] (refl, refl)
