-- ===== src/Tests/Aio.antt =====
-- Runs of the readers of linux_io/4.aio/kernel_aio.
use practice_code_c_cpp.Prelude.{
  ℕ, ◌+◌, ◌*◌, ◌/◌, ◌<◌, ◌≤◌, ◌≡◌, ◌≢◌, ◌⊎◌, refl, Option, true, leb, take, if◌then◌else◌, none,
  some, List, [], ◌∷◌, ◌++◌, length, replicate, sum, arith,
}
use practice_code_c_cpp.KernelAio.{
  Iocb, Aio, View, empty_view, submit_view, taken_view, Ending, finish, give_up, Waits, here, later,
  io_prep_pread, check_by_io_getevents, prepare_from, alloc_error, prepare_apart, max_event,
}
use practice_code_c_cpp.KernelAio.Eventfd
use practice_code_c_cpp.KernelAio.Eventfd.{
  Reader, eventfd_start, on_wait, on_checked, ends, reports, checks, checking, finishing,
}
use practice_code_c_cpp.KernelAio.Eventfd.Returning.{eventfd_called_back, eventfd_waits}
use practice_code_c_cpp.KernelAio.Sharing.{HoldsLast, alloc_error_loses}
use practice_code_c_cpp.BatchRead
use practice_code_c_cpp.BatchRead.{
  Answer, AllTaken, WholeStep, Batch, running, batch_start, batch_result, prepared, prepare, count,
  submit_next, on_event, on_events, test_ready, Step, kernel, round, Reach, align_size,
}
use practice_code_c_cpp.BatchRead.Bounds.{AllBelow, submitted_in_order, submitted-AllBelow}
use practice_code_c_cpp.BatchRead.Invariant.{pieces}
use practice_code_c_cpp.BatchRead.Result.{batch_result-file}
use practice_code_c_cpp.BatchRead.Progress.{batch_read_returns, small_file_waits}

-- A context that is what the program relies on.
abbrev events : ℕ → ℕ → View → Option (List Iocb × View)
events least most v =
    if leb least (length v.completed) then some (take most v.completed, taken_view most v) else none

events_waits : (least most : ℕ) (v : View) → length v.completed < least → events least most v ≡ none
events_waits least most v few = ground arith

events_takes :
    (least most : ℕ) (v : View)
    → least ≤ length v.completed
    → events least most v ≡ some (take most v.completed, taken_view most v)
events_takes least most v enough = ground arith

abbrev plain_aio : Aio
plain_aio = record {
  Context = View;
  view = λ v. v;
  io_setup = empty_view;
  io_submit = submit_view;
  io_getevents = events;
  Kernel = Ending;
  view-io_setup = λ memory. refl;
  view-io_submit = λ cbs v. refl;
  io_getevents_waits = events_waits;
  io_getevents_takes =
      λ least most v enough. (taken_view most v, events_takes least most v enough, refl);
  kernel_ends = λ file v v' k. k;
  kernel_goes = λ file v front back cb e. (_, finish front back cb e);
}

-- A file of two pieces.
abbrev file : List ℕ
file = replicate 1025 7

abbrev memory : ℕ → ℕ
memory a = 0

abbrev piece_at : ℕ → Iocb
piece_at n = record { buf = n; nbytes = 1024; offset = n }

-- A task with the one buffer, at 0.
abbrev same_at : ℕ → Iocb
same_at n = record { buf = 0; nbytes = 1024; offset = n }

-- io_submit takes one task.
abbrev one_task : Answer
one_task = record { count = 1; beyond = [] }

-- Both tasks end in turn, and each is taken by a round.
reached : (s : Batch View) × (r : Reach plain_aio file memory 4 s) × AllTaken plain_aio r
unfolding batch_start prepared prepare io_prep_pread on_events on_event count submit_next test_ready
reached = (
  _,
  BatchRead.later
      (BatchRead.later
        (BatchRead.later
          (BatchRead.later (BatchRead.start one_task) (kernel (finish [] [] (piece_at 0) refl)))
          (round ((piece_at 0, some one_task) ∷ []) refl refl))
        (kernel (finish [] [] (piece_at 1024) refl)))
      (round ((piece_at 1024, none) ∷ []) refl refl),
  ((((refl, tt), (refl, tt)), tt), tt),
)

batch_result-file_example : batch_result plain_aio (length file) reached.0 ≡ some file
unfolding reached batch_start prepared prepare io_prep_pread on_events on_event count submit_next
    test_ready
batch_result-file_example = batch_result-file plain_aio reached.1 reached.2 (omega arith) refl refl

batch_read_returns_example :
    (4 ≤ 2 * ((length file + 1023) / 1024))
    × ((reached.0.status ≢ running)
        ⊎ ((t : Batch View) × (st : Step plain_aio file reached.0 t) × WholeStep plain_aio st))
batch_read_returns_example =
    batch_read_returns plain_aio file memory (omega arith) reached.1 reached.2

submitted_in_order_example :
    (reached.0.ctx.submitted ≡ pieces (length reached.0.ctx.submitted))
    × (1024 * length reached.0.ctx.submitted < length file + 1024)
submitted_in_order_example = submitted_in_order plain_aio file memory reached.1 reached.2

abbrev no_task : Answer
no_task = record { count = 0; beyond = [] }

small_file_waits_example :
    ((batch_start plain_aio true (some no_task) memory 2).status ≡ running)
    × ((t : Batch View)
        → ¬ Step plain_aio (7 ∷ 8 ∷ []) (batch_start plain_aio true (some no_task) memory 2) t)
unfolding prepared prepare
small_file_waits_example =
    small_file_waits plain_aio (7 ∷ 8 ∷ []) memory (omega arith) (BatchRead.start no_task) refl

submitted-AllBelow_example : AllBelow (align_size (length file)) reached.0.ctx.submitted
unfolding reached batch_start prepared prepare io_prep_pread on_events on_event count submit_next
    test_ready
submitted-AllBelow_example =
    submitted-AllBelow plain_aio file memory (omega arith) reached.1
      ((((omega arith, tt), (omega arith, tt)), tt), tt)

-- Five pieces, of which the last differs.
abbrev five_pieces : List ℕ
five_pieces = replicate 4096 7 ++ replicate 1024 8

-- The second task ends last.
overwritten : (c : View) × Waits plain_aio five_pieces (alloc_error plain_aio memory 0) c
unfolding alloc_error prepare_apart io_prep_pread
overwritten = (
  _,
  later
      (later
        (later
          (later
            (later here (
              finish [] (same_at 1024 ∷ same_at 2048 ∷ same_at 3072 ∷ same_at 4096 ∷ []) (same_at 0)
                refl))
            (finish (same_at 1024 ∷ []) (same_at 3072 ∷ same_at 4096 ∷ []) (same_at 2048) refl))
          (finish (same_at 1024 ∷ []) (same_at 4096 ∷ []) (same_at 3072) refl))
        (finish (same_at 1024 ∷ []) [] (same_at 4096) refl))
      (finish [] [] (same_at 1024) refl),
)

alloc_error_loses_example :
    HoldsLast five_pieces 0
      (same_at 0 ∷ same_at 2048 ∷ same_at 3072 ∷ same_at 4096 ∷ same_at 1024 ∷ [])
      overwritten.0.memory
unfolding overwritten alloc_error prepare_apart io_prep_pread check_by_io_getevents
alloc_error_loses_example =
    alloc_error_loses plain_aio five_pieces memory 0 {c' = record overwritten.0 { completed = [] }}
      (same_at 0 ∷ same_at 2048 ∷ same_at 3072 ∷ same_at 4096 ∷ same_at 1024 ∷ []) (omega arith)
      overwritten.1 refl refl

-- All five tasks end, and then epoll_wait reports them.
all_at_once : (s : Reader View) × Eventfd.Reach plain_aio file memory 0 s
unfolding eventfd_start prepare_from io_prep_pread on_wait on_checked check_by_io_getevents
all_at_once = (
  _,
  Eventfd.later
      (Eventfd.later
        (Eventfd.later
          (Eventfd.later
            (Eventfd.later
              (Eventfd.later
                (Eventfd.later Eventfd.start (
                  ends (
                    finish (piece_at 0 ∷ piece_at 1024 ∷ []) (piece_at 3072 ∷ piece_at 4096 ∷ [])
                      (piece_at 2048) refl)))
                (ends (
                  finish [] (piece_at 1024 ∷ piece_at 3072 ∷ piece_at 4096 ∷ []) (piece_at 0)
                    refl)))
              (ends (finish [] (piece_at 3072 ∷ piece_at 4096 ∷ []) (piece_at 1024) refl)))
            (ends (give_up [] (piece_at 4096 ∷ []) (piece_at 3072) 0 (omega arith) refl)))
          (ends (finish [] [] (piece_at 4096) refl)))
        (reports 5 refl (omega arith) refl))
      (checks 5 (piece_at 2048 ∷ piece_at 0 ∷ piece_at 1024 ∷ piece_at 3072 ∷ piece_at 4096 ∷ [])
        refl refl),
)

eventfd_called_back_example :
    sum (λ (cb : Iocb). cb.offset) all_at_once.0.called
    ≡ sum (λ (cb : Iocb). cb.offset) (prepare_from 0 max_event 0)
unfolding all_at_once on_wait on_checked
eventfd_called_back_example =
    eventfd_called_back plain_aio file memory 0 all_at_once.1 refl (λ cb. cb.offset)

-- The tasks end one by one: epoll_wait reports one, then two, then three.
one_by_one : (s : Reader View) × Eventfd.Reach plain_aio file memory 0 s
unfolding eventfd_start prepare_from io_prep_pread on_wait on_checked check_by_io_getevents
one_by_one = (
  _,
  Eventfd.later
      (Eventfd.later
        (Eventfd.later
          (Eventfd.later
            (Eventfd.later
              (Eventfd.later
                (Eventfd.later
                  (Eventfd.later Eventfd.start (
                    ends (
                      finish [] (piece_at 1024 ∷ piece_at 2048 ∷ piece_at 3072 ∷ piece_at 4096 ∷ [])
                        (piece_at 0) refl)))
                  (reports 1 refl (omega arith) refl))
                (checks 1 (piece_at 0 ∷ []) refl refl))
              (ends (
                finish [] (piece_at 2048 ∷ piece_at 3072 ∷ piece_at 4096 ∷ []) (piece_at 1024)
                  refl)))
            (reports 2 refl (omega arith) refl))
          (ends (finish [] (piece_at 3072 ∷ piece_at 4096 ∷ []) (piece_at 2048) refl)))
        (checks 2 (piece_at 1024 ∷ piece_at 2048 ∷ []) refl refl))
      (reports 3 refl (omega arith) refl),
)

eventfd_waits_example :
    (ret : ℕ) × (one_by_one.0.status ≡ checking ret)
    × (check_by_io_getevents plain_aio ret one_by_one.0.ctx ≡ none)
unfolding one_by_one on_wait on_checked
eventfd_waits_example = eventfd_waits plain_aio file memory 0 one_by_one.1 (omega arith)
