-- ===== src/Posix.antt =====
-- The boundary between the programs and the operating system. A program is run against a script,
-- the list of the replies that its system calls get, in order; it writes a log, newest entry first,
-- of the calls that it makes. Every theorem over scripts holds whatever the system answers.
pub mod Flow
pub mod Uses
pub mod Keeps
pub mod Sockets
pub mod Views
pub mod Echoing
pub mod Reading
use Prim.Native.Nat.{bit_or}
use practice_code_c_cpp.Prelude.{
  ℕ, ◌+◌, ◌/◌, ◌%◌, ◌^◌, Bool, true, false, ◌||◌, not, Option, none, some, List, [], ◌∷◌, ◌==◌, ltb,
}

-- struct epoll_event: the descriptor in its data, and the event bits.
pub record Event : Type 0 where
  pub fd : ℕ
  pub events : ℕ

-- What a call wrote to the memory that its arguments point to.
pub data Memory : Type 0 where
  nothing : Memory
  bytes : List ℕ → Memory
  ready : List Event → Memory

-- `fail e` is the result -1 with `errno` e; any other result is at least 0.
pub data Reply : Type 0 where
  done : ℕ → Memory → Reply
  fail : ℕ → Reply

-- INADDR_ANY, or the text that inet_addr reads.
pub data Address : Type 0 where
  any : Address
  ip : List ℕ → Address

pub data Call : Type 0 where
  socket : ℕ → Call
  bind connect : ℕ → Address → ℕ → Call
  listen : ℕ → ℕ → Call
  accept getpeername getfl : ℕ → Call
  setfl : ℕ → ℕ → Call
  epoll_create : ℕ → Call
  epoll_ctl : ℕ → ℕ → ℕ → ℕ → Call
  -- with a pointer in the event's data
  epoll_ctl_ptr : ℕ → ℕ → ℕ → ℕ → ℕ → Call
  epoll_wait : ℕ → ℕ → Call
  recv read : ℕ → ℕ → Call
  send write : ℕ → List ℕ → Call
  close : ℕ → Call
  eventfd : ℕ → ℕ → Call
  poll select : List ℕ → ℕ → Call
  socket_unix bind_unix connect_unix : ℕ → Call
  fork calloc load_flag spawn ignore_sigpipe getline : Call
  sleep : ℕ → Call
  getsockopt_error : ℕ → Call
  -- for reading and for writing, with no bound on the wait where the last is none
  select_both : List ℕ → ℕ → ℕ → Call
  poll_both : List ℕ → Call
  time : Call
  epoll_ctl_none : ℕ → ℕ → ℕ → Call
  -- no call: an access to memory that is not allocated, whose behaviour is undefined
  stray : ℕ → Call

-- A call whose result the program reads, with that result, or one whose result it ignores.
pub data Entry : Type 0 where
  asked : Call → Reply → Entry
  told : Call → Entry

abbrev pub Script : Type 0
Script = List Reply

abbrev pub Log : Type 0
Log = List Entry

-- Why a program stops before its end: it waits for a reply, exit(code), a failed assert, or the
-- fuel of a loop is spent.
pub data Halt : Type 0 where
  blocked : Halt
  exited : ℕ → Halt
  aborted spent : Halt

pub data Outcome (A : Type 0) : Type 0 where
  returned : A → Script → Log → Outcome A
  halted : Halt → Log → Outcome A

-- The log at the end, or where the program stopped.
abbrev pub final_log : {A : Type 0} → Outcome A → Log
final_log (returned a s l) = l
final_log (halted h l) = l

abbrev pub M : Type 0 → Type 0
M A = Script → Log → Outcome A

unfoldable pub pure : {A : Type 0} → A → M A
pure a s l = returned a s l

unfoldable pub halt : {A : Type 0} → Halt → M A
halt h s l = halted h l

unfoldable pub ask : Call → M Reply
ask c [] l = halted blocked l
ask c (r ∷ s) l = returned r s (asked c r ∷ l)

unfoldable pub tell : Call → M (Unit {0})
tell c s l = returned tt s (told c ∷ l)

infixl 5 ◌>>=◌ ◌>>◌
-- Opening this opens the four actions too.
unfoldable pub ◌>>=◌ : {A B : Type 0} → M A → (A → M B) → M B
unfolding pure halt ask tell
◌>>=◌ m f s l = elim (m s l) [ returned a s' l' ↦ f a s' l' | halted h l' ↦ halted h l' ]

abbrev pub ◌>>◌ : {B : Type 0} → M (Unit {0}) → M B → M B
m >> k = m >>= λ _. k

-- -1 as the bits of an int32_t.
abbrev pub minus_one : ℕ
minus_one = 0xffffffff

-- `r == -1`
abbrev pub failed : Reply → Bool
failed (done n m) = false
failed (fail e) = true

-- The result, if it is not -1.
abbrev pub value : Reply → ℕ
value (done n m) = n
value (fail e) = 0

abbrev pub errno : Reply → ℕ
errno (done n m) = 0
errno (fail e) = e

-- `r != 0`
abbrev pub nonzero : Reply → Bool
nonzero r = failed r || not (value r == 0)

-- `r > 0`
abbrev pub positive : Reply → Bool
positive (done n m) = ltb 0 n
positive (fail e) = false

-- The result as the bits of an int.
abbrev pub int_of : Reply → ℕ
int_of (done n m) = n
int_of (fail e) = minus_one

abbrev pub bytes_of : Memory → List ℕ
bytes_of (bytes bs) = bs
bytes_of nothing = []
bytes_of (ready es) = []

abbrev pub events_of : Memory → List Event
events_of (ready es) = es
events_of nothing = []
events_of (bytes bs) = []

abbrev pub memory : Reply → Memory
memory (done n m) = m
memory (fail e) = nothing

-- The int that a function returns: `none` is -1.
abbrev pub Int32 : Type 0
Int32 = Option ℕ

abbrev is_negative : Int32 → Bool
is_negative none = true
is_negative (some n) = false

-- `if (r < 0) { fallback } else rest(r)`
abbrev pub unless_negative : {A : Type 0} → Int32 → M A → (ℕ → M A) → M A
unless_negative none fallback rest = fallback
unless_negative (some n) fallback rest = rest n

-- The numbers of Linux: <errno.h>, <fcntl.h>, <sys/socket.h> and <sys/epoll.h>.
abbrev pub eagain : ℕ
eagain = 11

abbrev ewouldblock : ℕ
ewouldblock = 11

abbrev pub would_block : ℕ → Bool
would_block e = e == eagain || e == ewouldblock

abbrev pub somaxconn : ℕ
somaxconn = 4096

-- `a | b`
abbrev pub flag_or : ℕ → ℕ → ℕ
flag_or a b = bit_or a b

abbrev pub o_nonblock : ℕ
o_nonblock = 2048

abbrev pub sock_stream : ℕ
sock_stream = 1

abbrev pub sock_nonblock : ℕ
sock_nonblock = 2048

abbrev pub ctl_add : ℕ
ctl_add = 1

abbrev pub ctl_del : ℕ
ctl_del = 2

abbrev pub pollin : ℕ
pollin = 0x1

abbrev pub epollin : ℕ
epollin = 0x1

abbrev pub epollout : ℕ
epollout = 0x4

abbrev pub epollerr : ℕ
epollerr = 0x8

abbrev pub epollhup : ℕ
epollhup = 0x10

abbrev pub epollrdhup : ℕ
epollrdhup = 0x2000

abbrev pub epollet : ℕ
epollet = 2 ^ 31

-- `events & flag`, for a flag of one bit; distinct flags are joined by `+`.
abbrev pub has : ℕ → ℕ → Bool
has events flag = events / flag % 2 == 1
