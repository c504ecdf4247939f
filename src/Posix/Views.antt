-- ===== src/Posix/Views.antt =====
-- What a log says of descriptors and messages.
use practice_code_c_cpp.Prelude.{
  ℕ, ◌+◌, List, [], ◌∷◌, Bool, true, false, ◌==◌, if◌then◌else◌, take, ◌++◌, ◌≡◌, arith, sum,
  keep_if,
}
use practice_code_c_cpp.Posix.Sockets.{store, zeroed}
use practice_code_c_cpp.Posix.{
  Log, asked, told, Call, Reply, failed, value, positive, bytes_of, memory,
}

abbrev pub one_if : Bool → ℕ
one_if true = 1
one_if false = 0

-- How often accept returned the descriptor.
abbrev pub accepted : ℕ → Log → ℕ
accepted fd [] = 0
accepted fd (asked (Call.accept h) r ∷ l) =
    (if failed r then 0 else one_if (value r == fd)) + accepted fd l
accepted fd (_ ∷ l) = accepted fd l

-- How often it was closed.
abbrev pub closed : ℕ → Log → ℕ
closed fd [] = 0
closed fd (told (Call.close c) ∷ l) = one_if (c == fd) + closed fd l
closed fd (_ ∷ l) = closed fd l

-- How often it is in a vector of descriptors.
abbrev pub held : ℕ → List ℕ → ℕ
held fd = sum (λ d. one_if (d == fd))

pub held-keep_if :
    (fd : ℕ) (kept : Bool) (c : ℕ) (fds : List ℕ)
    → held fd (keep_if kept c fds) ≡ held fd (keep_if kept c []) + held fd fds
held-keep_if fd true c fds = omega arith
held-keep_if fd false c fds = omega arith

pub record Message : Type 0 where
  pub fd : ℕ
  pub text : List ℕ

module _ (text : Reply → List ℕ) where
  -- The message that a recv with this result got on the descriptor, if any.
  abbrev pub message : ℕ → Reply → List Message
  message fd r = if positive r then record { fd = fd; text = text r } ∷ [] else []

  -- The messages got by recv, newest first.
  abbrev pub received : Log → List Message
  received [] = []
  received (asked (Call.recv fd n) r ∷ l) = message fd r ++ received l
  received (_ ∷ l) = received l

-- The messages handed to send, newest first, whether or not its result is read.
abbrev pub sent : Log → List Message
sent [] = []
sent (told (Call.send fd bs) ∷ l) = record { fd = fd; text = bs } ∷ sent l
sent (asked (Call.send fd bs) r ∷ l) = record { fd = fd; text = bs } ∷ sent l
sent (_ ∷ l) = sent l

-- A buffer that was cleared before the call, and the part that the call filled.
abbrev pub whole_buffer : Reply → List ℕ
whole_buffer r = store zeroed (bytes_of (memory r))

abbrev pub filled_part : Reply → List ℕ
filled_part r = take (value r) (whole_buffer r)
