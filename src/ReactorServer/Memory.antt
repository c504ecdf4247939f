-- ===== src/ReactorServer/Memory.antt =====
-- What it means that the heap of reactor_event records is in step with epoll.
use practice_code_c_cpp.Prelude.{
  ℕ, zero, suc, ◌≡◌, Bool, true, false, ◌&&◌, ◌||◌, not, Option, none, some, List, [], ◌∷◌, ◌++◌,
  length, set, take, map, mem, ◌==◌, if◌then◌else◌, arith,
}
use practice_code_c_cpp.Posix.{
  Log, asked, told, Call, Reply, nonzero, value, memory, events_of, ctl_add, ctl_del,
}
use practice_code_c_cpp.ReactorServer.{
  Callback, ReactorEvent, Heap, lookup, bind_reactor_event, unbind_reactor_event,
}

-- Whether epoll watches something with this pointer as its data.
abbrev pub registered : ℕ → Log → Bool
registered p [] = false
registered p (asked (Call.epoll_ctl_ptr efd op fd events q) r ∷ l) =
    if nonzero r
    then registered p l
    else if op == ctl_add
    then p == q || registered p l
    else not (p == q) && registered p l
registered p (_ ∷ l) = registered p l

abbrev Distinct : List ℕ → Type 0
Distinct [] = Unit
Distinct (p ∷ ps) = (mem p ps ≡ false) × Distinct ps

-- The pointers that an epoll_wait reports.
abbrev pub reported : Reply → List ℕ
reported r = map (λ e. e.fd) (take (value r) (events_of (memory r)))

-- What epoll_wait promises: it reports what is registered, and nothing twice in one call.
abbrev pub Honest : Log → Type 0
Honest [] = Unit
Honest (asked (Call.epoll_wait efd n) r ∷ l) =
    (Distinct (reported r) × ((p : ℕ) → mem p (reported r) ≡ true → registered p l ≡ true))
    × Honest l
Honest (_ ∷ l) = Honest l

-- No access went astray.
abbrev pub NoStray : Log → Type 0
NoStray [] = Unit
NoStray (told (Call.stray p) ∷ l) = ⊥
NoStray (_ ∷ l) = NoStray l

abbrev pub Safe : Log → Type 0
Safe l = Honest l → NoStray l

abbrev is_some : Option ReactorEvent → Bool
is_some none = false
is_some (some rev) = true

abbrev pub live : ℕ → Heap → Bool
live p heap = is_some (lookup heap p)

lookup-append_one :
    (heap : Heap) (rev : ReactorEvent) (p : ℕ)
    → is_some (lookup (heap ++ some rev ∷ []) p) ≡ (p == length heap || is_some (lookup heap p))
unfolding lookup
lookup-append_one [] rev zero = ground arith
lookup-append_one [] rev (suc p) = ground arith
lookup-append_one (o ∷ heap) rev zero = ground arith
lookup-append_one (o ∷ heap) rev (suc p) = ground (arith, lookup-append_one heap rev p)

lookup-freed :
    (heap : Heap) (q p : ℕ)
    → is_some (lookup (set heap q none) p) ≡ (not (p == q) && is_some (lookup heap p))
unfolding lookup
lookup-freed [] q p = ground arith
lookup-freed (o ∷ heap) zero zero = ground arith
lookup-freed (o ∷ heap) zero (suc p) = ground arith
lookup-freed (o ∷ heap) (suc q) zero = ground arith
lookup-freed (o ∷ heap) (suc q) (suc p) = ground (arith, lookup-freed heap q p)

-- The heap agrees with epoll, and the events that are still to be handled in this round have
-- pointers into it, each only one.
pub record InStep (todo : List ℕ) (heap : Heap) (l : Log) : Type 0 where
  pub clean : NoStray l
  pub agree : (p : ℕ) → registered p l ≡ live p heap
  pub still : (p : ℕ) → mem p todo ≡ true → live p heap ≡ true
  pub distinct : Distinct todo

abbrev pub Tracks : List ℕ → Heap → Log → Type 0
Tracks todo heap l = Honest l → InStep todo heap l

pub clean_of : (todo : List ℕ) (heap : Heap) (l : Log) → Tracks todo heap l → Safe l
clean_of todo heap l t h = (t h).clean

-- The log goes on with what is neither about epoll nor astray.
pub moved :
    (todo : List ℕ) (heap : Heap) (l l' : Log)
    → NoStray l'
    → ((p : ℕ) → registered p l' ≡ live p heap)
    → InStep todo heap l
    → InStep todo heap l'
moved todo heap l l' c a t = record { clean = c; agree = a; still = t.still; distinct = t.distinct }

pub skip :
    (p : ℕ) (todo : List ℕ) (heap : Heap) (l : Log) → Tracks (p ∷ todo) heap l → Tracks todo heap l
skip p todo heap l t h = record {
  clean = (t h).clean;
  agree = (t h).agree;
  still = λ q k. (t h).still q (ground arith);
  distinct = (t h).distinct.1;
}

pub no_stray :
    (p : ℕ) (todo : List ℕ) (heap : Heap) (l : Log)
    → lookup heap p ≡ none
    → InStep (p ∷ todo) heap l
    → ⊥
no_stray p todo heap l e t = ground (arith, t.still p)

-- Behind the removal of a connection from epoll, with its result.
pub deleted :
    (efd fd events p : ℕ) (todo : List ℕ) (heap : Heap) (r : Reply) (l : Log)
    → nonzero r ≡ false
    → Tracks (p ∷ todo) heap l
    → Tracks todo
        (unbind_reactor_event heap p)
        (asked (Call.epoll_ctl_ptr efd ctl_del fd events p) r ∷ l)
unfolding unbind_reactor_event
deleted efd fd events p todo heap r l n t h = record {
  clean = (t h).clean;
  agree = λ q. ground (arith, (t h).agree q, lookup-freed heap p q);
  still = λ q k. ground (arith, (t h).still q, lookup-freed heap p q, (t h).distinct.0);
  distinct = (t h).distinct.1;
}

-- Behind a connection that was put under epoll with its new record, with the result.
pub added :
    (efd fd events : ℕ) (callback : Callback) (todo : List ℕ) (heap : Heap) (r : Reply) (l : Log)
    → nonzero r ≡ false
    → Tracks todo heap l
    → Tracks todo
        (bind_reactor_event heap fd callback).1
        (asked (Call.epoll_ctl_ptr efd ctl_add fd events (length heap)) r ∷ l)
unfolding bind_reactor_event
added efd fd events callback todo heap r l n t h = record {
  clean = (t h).clean;
  agree = λ q. ground (arith, (t h).agree q, lookup-append_one heap (new fd callback) q);
  still = λ q k. ground (arith, (t h).still q, lookup-append_one heap (new fd callback) q);
  distinct = (t h).distinct;
}
  where
    new : ℕ → Callback → ReactorEvent
    new fd callback = record { client_fd = fd; callback = callback }

-- An honest epoll_wait reports live pointers.
pub waited :
    (efd n : ℕ) (heap : Heap) (r : Reply) (l : Log)
    → Tracks [] heap l
    → Tracks (reported r) heap (asked (Call.epoll_wait efd n) r ∷ l)
waited efd n heap r l t h = record {
  clean = (t h.1).clean;
  agree = (t h.1).agree;
  still = λ p k. ground (arith, h.0.1 p k, (t h.1).agree p);
  distinct = h.0.0;
}
