-- ===== src/KernelAio/Eventfd.antt =====
-- linux_io/4.aio/kernel_aio/libaio_read.h, ReadByKernelAIOAndEventfdAndEpoll: each of five tasks
-- signals an eventfd of its own when it ends, and epoll says how many are signalled.
pub mod Returning
use practice_code_c_cpp.Prelude.{
  ℕ, suc, ◌+◌, ◌<◌, ◌≡◌, Bool, Option, none, some, List, [], ◌++◌, length, leb, if◌then◌else◌,
}
use practice_code_c_cpp.KernelAio.{Iocb, Aio, max_event, prepare_from, check_by_io_getevents}

-- The function is in epoll_wait, or in CheckByIOGetevents with a number of events to wait for; or it
-- has left its loop, or returned because epoll_wait failed.
pub data Status : Type 0 where
  watching : Status
  checking : ℕ → Status
  finishing : Status
  failing : Status

-- The locals, and the tasks that LibioCallback was called for.
pub record Reader (C : Type 0) : Type 0 where
  pub finished : ℕ
  pub called : List Iocb
  pub ctx : C
  pub status : Status

-- The answer of epoll_wait: `none` is an error, of -1, which `finished` counts before the return; no
-- one reads it then.
unfoldable pub on_wait : {C : Type 0} → Reader C → Option ℕ → Reader C
on_wait s none = record s { status = failing }
on_wait s (some ret) = record s { finished = s.finished + ret; status = checking ret }

-- Behind CheckByIOGetevents.
unfoldable pub on_checked : {C : Type 0} → Reader C → List Iocb → C → Reader C
on_checked s es ctx = record s {
  called = s.called ++ es;
  ctx = ctx;
  status = if leb max_event s.finished then finishing else watching;
}

module _ (aio : Aio) where
  open aio use {Context, view, io_setup, io_submit, Kernel}

  -- Up to the loop, where io_submit takes all five tasks
  unfoldable pub eventfd_start : (ℕ → ℕ) → ℕ → Reader Context
  eventfd_start memory buf = record {
    finished = 0;
    called = [];
    ctx = io_submit (prepare_from buf max_event 0) (io_setup memory);
    status = watching;
  }

  -- No eventfd is ever read, so that all that were signalled since the start can be read, and
  -- epoll_wait, which is level triggered here, reports each of them in every round.
  pub data Step (file : List ℕ) (s : Reader Context) : Reader Context → Type 0 where
    ends : {ctx' : Context} → Kernel file s.ctx ctx' → Step file s (record s { ctx = ctx' })
    reports :
        (ret : ℕ)
        → s.status ≡ watching
        → 0 < ret
        → ret + length (view s.ctx).in_flight ≡ max_event
        → Step file s (on_wait s (some ret))
    fails : s.status ≡ watching → Step file s (on_wait s none)
    checks :
        (ret : ℕ) (es : List Iocb) {ctx' : Context}
        → s.status ≡ checking ret
        → check_by_io_getevents aio ret s.ctx ≡ some (es, ctx')
        → Step file s (on_checked s es ctx')

  -- The states that a call reaches.
  pub data Reach (file : List ℕ) (memory : ℕ → ℕ) (buf : ℕ) : Reader Context → Type 0 where
    start : Reach file memory buf (eventfd_start memory buf)
    later :
        {s t : Reader Context} → Reach file memory buf s → Step file s t → Reach file memory buf t
