-- ===== src/BatchRead.antt =====
-- linux_io/4.aio/kernel_aio/libaio_read.h, BatchReadByLibAIO: a whole file is read by tasks of 1024
-- bytes, five at first and then one for each that completed.
pub mod Float
pub mod Invariant
pub mod Fitting
pub mod Bounds
pub mod Result
pub mod Events
pub mod Progress
use practice_code_c_cpp.Prelude.{
  ℕ, zero, suc, ◌+◌, ◌*◌, ◌/◌, ◌%◌, ◌≤◌, ◌≡◌, Bool, true, false, Option, none, some, List, [], ◌∷◌,
  ◌++◌, take, length, ltb, leb, ◌==◌, if◌then◌else◌,
}
use practice_code_c_cpp.KernelAio.{Iocb, io_prep_pread, View, Aio, max_event, seq_buf_size}

-- A size_t as a float: the nearest number with 24 significant bits, in steps of `unit`, and of two
-- that are as near the even one.
round_even : ℕ → ℕ → ℕ
round_even unit n =
    if ltb (2 * (n % unit)) unit
    then n / unit * unit
    else if ltb unit (2 * (n % unit))
    then (n / unit + 1) * unit
    else if n / unit % 2 == 0
    then n / unit * unit
    else (n / unit + 1) * unit

-- The step doubles from 2^24 on. A size_t has 64 bits, so 40 doublings are enough.
float_from : ℕ → ℕ → ℕ → ℕ
unfolding round_even
float_from zero unit n = round_even unit n
float_from (suc fuel) unit n =
    let wider = float_from fuel (2 * unit) n in
    if ltb n (0x100_0000 * unit) then round_even unit n else wider

unfoldable pub to_float : ℕ → ℕ
unfolding float_from
to_float n = float_from 40 1 n

-- ceil((float)f_size/(float)SEQ_BUF_SIZE) * SEQ_BUF_SIZE: 1024 is a power of two, so that the
-- division and the product are exact.
unfoldable pub align_size : ℕ → ℕ
unfolding to_float
align_size f_size = (to_float f_size + 1023) / seq_buf_size * seq_buf_size

-- Whether the loop goes on, the function has returned "" on an error of io_submit or io_setup, or it
-- has left the loop by `break`.
pub data Status : Type 0 where
  running failed complete : Status

-- An answer of io_submit that is no error: how many tasks it has taken, and those that it has found
-- behind the end of an array of pointers that is shorter than asked for.
pub record Answer : Type 0 where
  pub count : ℕ
  pub beyond : List Iocb

-- The tasks taken of those that the array points to.
abbrev pub accepted : Answer → List Iocb → List Iocb
accepted a cbs = take a.count (cbs ++ a.beyond)

-- The locals of the function, with its context, or with what the program relies on in it.
pub record Batch (C : Type 0) : Type 0 where
  pub offset : ℕ
  pub ready : ℕ
  pub ctx : C
  pub status : Status

-- The first loop: the tasks prepared, `task_no` and `offset`.
pub record Prepared : Type 0 where
  pub io_cb_p : List Iocb
  pub task_no : ℕ
  pub offset : ℕ

unfoldable pub prepare : ℕ → ℕ → Prepared → Prepared
unfolding io_prep_pread
prepare zero f_size p = p
prepare (suc rounds) f_size p =
    let cbs = p.io_cb_p ++ (io_prep_pread p.offset seq_buf_size p.offset ∷ []) in
    let next =
      prepare rounds f_size
        (record { io_cb_p = cbs; task_no = p.task_no + 1; offset = p.offset + seq_buf_size }) in
    if ltb (p.offset + seq_buf_size) f_size then next else record p { io_cb_p = cbs }

unfoldable pub prepared : ℕ → Prepared
unfolding prepare
prepared f_size = prepare max_event f_size (record { io_cb_p = []; task_no = 0; offset = 0 })

-- ready += e.obj->u.c.nbytes
unfoldable pub count : {C : Type 0} → Batch C → Iocb → Batch C
count s e = record s { ready = s.ready + e.nbytes }

abbrev pub has_failed : {C : Type 0} → Batch C → Bool
has_failed s = elim s.status [ failed ↦ true | running ↦ false | complete ↦ false ]

-- if(ready >= f_size) break;
unfoldable pub test_ready : {C : Type 0} → ℕ → Batch C → Batch C
test_ready f_size s =
    if has_failed s then s else if leb f_size s.ready then record s { status = complete } else s

-- std::string s(buf, buf + f_size), with `n` bytes left
unfoldable pub string_from : (ℕ → ℕ) → ℕ → ℕ → List ℕ
string_from memory a zero = []
string_from memory a (suc n) = memory a ∷ string_from memory (suc a) n

abbrev pub events_of : List (Iocb × Option Answer) → List Iocb
events_of [] = []
events_of ((e, answer) ∷ es) = e ∷ events_of es

-- The call of io_submit for `nr` tasks has taken these, and no others.
abbrev pub Whole : ℕ → Answer → Type 0
Whole nr a = a.count ≡ nr

-- It has taken some of these, and no others.
abbrev pub Part : ℕ → Answer → Type 0
Part nr a = a.count ≤ nr

-- What is asked of the answers to the calls for one task each, where they are no errors.
abbrev pub Answers : (ℕ → Answer → Type 0) → List (Iocb × Option Answer) → Type 0
Answers P [] = Unit
Answers P ((e, none) ∷ es) = Answers P es
Answers P ((e, some a) ∷ es) = P 1 a × Answers P es

abbrev pub AllWhole : List (Iocb × Option Answer) → Type 0
AllWhole es = Answers Whole es

-- What the program relies on in the state.
abbrev pub shape : (aio : Aio) → Batch aio.Context → Batch View
shape aio s = record { offset = s.offset; ready = s.ready; ctx = aio.view s.ctx; status = s.status }

module _ (aio : Aio) where
  open aio use {Context, io_setup, io_submit, io_getevents, Kernel}

  -- Up to the loop of io_getevents, with the answers of io_setup and io_submit.
  unfoldable pub batch_start : Bool → Option Answer → (ℕ → ℕ) → ℕ → Batch Context
  batch_start false answer memory f_size = record {
    offset = 0;
    ready = 0;
    ctx = io_setup memory;
    status = failed;
  }
  batch_start true none memory f_size = record {
    offset = (prepared f_size).offset;
    ready = 0;
    ctx = io_setup memory;
    status = failed;
  }
  batch_start true (some a) memory f_size =
      let p = prepared f_size in
      record {
        offset = p.offset;
        ready = 0;
        ctx = io_submit (accepted a (take p.task_no p.io_cb_p)) (io_setup memory);
        status = running;
      }

  -- io_submit(ctx, MAX_EVENT, &new_io_cb), which asks for five tasks with one pointer, and
  -- offset += e.obj->u.c.nbytes
  unfoldable pub submit_next : Batch Context → Iocb → Answer → Batch Context
  unfolding io_prep_pread
  submit_next s e a = record s {
    offset = s.offset + e.nbytes;
    ctx = io_submit (accepted a (io_prep_pread s.offset seq_buf_size s.offset ∷ [])) s.ctx;
  }

  -- The body of the `for` loop at one event, with the answer of io_submit, if it is called.
  unfoldable pub on_event : ℕ → Batch Context → Iocb → Option Answer → Batch Context
  unfolding count submit_next
  on_event f_size s e answer =
      if ltb s.offset f_size
      then elim answer [
        | none ↦ record s { status = failed }
        | some a ↦ count (submit_next s e a) e
      ]
      else count s e

  -- The `for` loop, which `return` leaves.
  unfoldable pub on_events : ℕ → Batch Context → List (Iocb × Option Answer) → Batch Context
  unfolding on_event
  on_events f_size s [] = s
  on_events f_size s ((e, answer) ∷ es) =
      let s' = on_event f_size s e answer in
      let rest = on_events f_size s' es in if has_failed s' then s' else rest

  -- What the function returns, once it has returned. A read behind the end of its buffer, which has
  -- align_size bytes, has no result.
  unfoldable pub batch_result : ℕ → Batch Context → Option (List ℕ)
  unfolding string_from align_size
  batch_result f_size s = elim s.status [
    | running ↦ none
    | failed ↦ some []
    | complete ↦
        if leb f_size (align_size f_size)
        then some (string_from (aio.view s.ctx).memory 0 f_size)
        else none
  ]

  -- A step of the kernel, or a round of the `while` loop on the events that io_getevents hands out.
  pub data Step (file : List ℕ) (s : Batch Context) : Batch Context → Type 0 where
    kernel : {ctx' : Context} → Kernel file s.ctx ctx' → Step file s (record s { ctx = ctx' })
    round :
        (es : List (Iocb × Option Answer)) {ctx' : Context}
        → s.status ≡ running
        → io_getevents 1 max_event s.ctx ≡ some (events_of es, ctx')
        → Step file s
            (test_ready (length file) (on_events (length file) (record s { ctx = ctx' }) es))

  abbrev pub StepAnswers :
      (ℕ → Answer → Type 0) → {file : List ℕ} {s t : Batch Context} → Step file s t → Type 0
  StepAnswers P (kernel k) = Unit
  StepAnswers P (round es r e) = Answers P es

  -- A step in which each call of io_submit fails or takes its one task.
  abbrev pub WholeStep : {file : List ℕ} {s t : Batch Context} → Step file s t → Type 0
  WholeStep st = StepAnswers Whole st

  -- The states that a call of the function reaches in which io_setup and the first io_submit succeed,
  -- and the number of steps that lead there.
  pub data Reach (file : List ℕ) (memory : ℕ → ℕ) : ℕ → Batch Context → Type 0 where
    start : (a : Answer) → Reach file memory 0 (batch_start true (some a) memory (length file))
    later :
        {n : ℕ} {s t : Batch Context}
        → Reach file memory n s
        → Step file s t
        → Reach file memory (suc n) t

  abbrev pub ReachAnswers :
      (ℕ → Answer → Type 0)
      → {file : List ℕ} {memory : ℕ → ℕ} {n : ℕ} {s : Batch Context} → Reach file memory n s
      → Type 0
  ReachAnswers P {file} (start a) = P (prepared (length file)).task_no a
  ReachAnswers P (later r st) = ReachAnswers P r × StepAnswers P st

  -- Each io_submit has taken the tasks prepared for it, and no others, or has failed.
  abbrev pub AllTaken :
      {file : List ℕ} {memory : ℕ → ℕ} {n : ℕ} {s : Batch Context} → Reach file memory n s → Type 0
  AllTaken r = ReachAnswers Whole r

  -- Each io_submit has taken some of the tasks prepared for it, and no others, or has failed.
  abbrev pub SomeTaken :
      {file : List ℕ} {memory : ℕ → ℕ} {n : ℕ} {s : Batch Context} → Reach file memory n s → Type 0
  SomeTaken r = ReachAnswers Part r
