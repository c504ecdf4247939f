-- ===== src/BlockingServer/Stale.antt =====
-- The TCP server: the fuel of its loops, and what its responses hold.
use mathlib.Core.List.{append_assoc}
use practice_code_c_cpp.Prelude.{
  ℕ, zero, suc, ◌<◌, ◌≡◌, refl, ap, ◌∙◌, List, [], ◌∷◌, ◌++◌, ◌==◌, false, arith, length, drop,
}
use practice_code_c_cpp.Posix.{
  Log, Script, done, bytes, nothing, Call, asked, returned, value, ◌>>=◌,
}
use practice_code_c_cpp.Posix.Flow.{loop, while}
use practice_code_c_cpp.Posix.Uses.{
  Uses, Takes, uses_rules, Uses-ask, Uses-bind, Uses-while, Uses-if, Uses-pure, Uses-tell,
  Uses-halt,
}
use practice_code_c_cpp.Posix.Sockets.{store, buffer_size, handle_error}
use practice_code_c_cpp.Posix.Views.{Message, sent}
use practice_code_c_cpp.BlockingServer.{
  listen_inet_port, inet_round, inet_accept_round, accept_and_recv_inet, main,
}

inet_round-Uses : (cfd : ℕ) (buf : List ℕ) → Uses 1 (inet_round cfd buf)
unfolding inet_round
inet_round-Uses cfd buf = search uses_rules depth 8

inet_accept_round-Uses :
    (garbage : ℕ → List ℕ) (sfd : ℕ) (v : Unit {0}) → Uses 1 (inet_accept_round garbage sfd v)
unfolding inet_accept_round
inet_accept_round-Uses garbage sfd v = Uses-bind (Uses-ask _) λ cfd. Uses-if _ (Uses-pure _) (
    Uses-bind (Uses-while _ (inet_round-Uses (value cfd)) _)
      (λ _. Uses-bind (Uses-tell _) (λ _. Uses-pure _)))

listen_inet_port-Uses : Uses 1 listen_inet_port
unfolding listen_inet_port handle_error
listen_inet_port-Uses = search (uses_rules, Uses-halt) depth 9

-- The fuel of the TCP server's loops is enough.
pub blocking_main-Takes :
    (garbage : ℕ → List ℕ) (s : Script) (l : Log) → Takes 1 (length s) (main garbage s l)
unfolding main accept_and_recv_inet
blocking_main-Takes garbage s l =
    (Uses-bind listen_inet_port-Uses
        (λ sfd. Uses-while _ (inet_accept_round-Uses garbage sfd) tt)).at
      s l

-- The replies to recv for a list of messages, none of them empty, and the end of the connection.
abbrev pub arrivals : List (ℕ × List ℕ) → Script → Script
arrivals [] s = done 0 nothing ∷ s
arrivals ((c, cs) ∷ ms) s = done (length (c ∷ cs)) (bytes (c ∷ cs)) ∷ arrivals ms s

-- The responses: the buffer after each message, last one first, on top of what was sent before.
abbrev pub responses : ℕ → List ℕ → List (ℕ × List ℕ) → List Message → List Message
responses cfd buf [] out = out
responses cfd buf ((c, cs) ∷ ms) out =
    let buf₁ = store buf (c ∷ cs) in responses cfd buf₁ ms (record { fd = cfd; text = buf₁ } ∷ out)

serve_loop :
    (cfd : ℕ) (ms : List (ℕ × List ℕ)) (fuel : ℕ) (buf : List ℕ) (s : Script) (l : Log)
    → length ms < fuel
    → (l' : Log) × (loop fuel (inet_round cfd) buf (arrivals ms s) l ≡ returned tt s l')
      × (sent l' ≡ responses cfd buf ms (sent l))
unfolding loop inet_round ◌>>=◌
serve_loop cfd ms zero buf s l h = absurd (omega arith)
serve_loop cfd [] (suc fuel) buf s l h =
    (asked (Call.recv cfd buffer_size) (done 0 nothing) ∷ l, refl, refl)
serve_loop cfd ((c, cs) ∷ ms) (suc fuel) buf s l h =
    let filled : (suc (length cs) == 0) ≡ false = ground arith in
    rw (filled, loop) (serve_loop cfd ms fuel (store buf (c ∷ cs)) s _ (omega arith))

length-arrivals : (ms : List (ℕ × List ℕ)) (s : Script) → length ms < length (arrivals ms s)
length-arrivals [] s = omega arith
length-arrivals ((c, cs) ∷ ms) s = omega (arith, length-arrivals ms s)

-- A connection that gets some messages and ends is served to its end; the response to each message
-- is the whole buffer, in which the message has overwritten the one before.
serve_connection :
    (cfd : ℕ) (ms : List (ℕ × List ℕ)) (buf : List ℕ) (s : Script) (l : Log)
    → (l' : Log) × (while (inet_round cfd) buf (arrivals ms s) l ≡ returned tt s l')
      × (sent l' ≡ responses cfd buf ms (sent l))
unfolding while
serve_connection cfd ms buf s l =
    serve_loop cfd ms (suc (length (arrivals ms s))) buf s l (omega (arith, length-arrivals ms s))

drop_prefix : (xs ys : List ℕ) (n : ℕ) → n ≡ length xs → drop n (xs ++ ys) ≡ ys
drop_prefix [] ys zero e = refl
drop_prefix [] ys (suc n) e = absurd (omega arith)
drop_prefix (x ∷ xs) ys zero e = absurd (omega arith)
drop_prefix (x ∷ xs) ys (suc n) e = drop_prefix xs ys n (omega arith)

-- A message that is shorter than the one before it is answered with the rest of that one behind it:
-- the client gets bytes back that it did not send in this message.
pub stale_bytes :
    (cfd c d : ℕ) (cs tail ds : List ℕ) (buf : List ℕ) (s : Script) (l : Log)
    → length ds ≡ length cs
    → let rest = drop (length (c ∷ cs ++ tail)) buf in
      (l' : Log) × (out : List Message) × (while
          (inet_round cfd)
          buf
          (arrivals ((c, cs ++ tail) ∷ (d, ds) ∷ []) s)
          l
        ≡ returned tt s l')
      × (sent l' ≡ record { fd = cfd; text = (d ∷ ds) ++ (tail ++ rest) } ∷ out)
stale_bytes cfd c d cs tail ds buf s l e =
    let (l', run, out) = serve_connection cfd ((c, cs ++ tail) ∷ (d, ds) ∷ []) buf s l in
    (l', first, run, out ∙ ap (λ t. record { fd = cfd; text = d ∷ ds ++ t } ∷ first) overwritten)
  where
    first : List Message
    first = record { fd = cfd; text = store buf (c ∷ cs ++ tail) } ∷ sent l

    overwritten :
        drop (length ds) ((cs ++ tail) ++ drop (length (c ∷ cs ++ tail)) buf)
        ≡ tail ++ drop (length (c ∷ cs ++ tail)) buf
    overwritten =
        rw (append_assoc cs tail (drop (length (c ∷ cs ++ tail)) buf))
          (drop_prefix cs _ (length ds) e)
