-- ===== src/KernelAio.antt =====
-- linux_io/4.aio/kernel_aio/libaio_read.h: reading a file by tasks that the kernel carries out in
-- an order of its own. libaio and the kernel are no code of the repository: they are the parameter
-- `Aio`, with the laws of their manual pages that the code relies on.
pub mod Tasks
pub mod Sharing
pub mod Eventfd
use practice_code_c_cpp.Prelude.{
  ℕ, zero, suc, ◌+◌, ◌-◌, ◌*◌, ◌≤◌, ◌<◌, Bool, true, false, ◌&&◌, Option, none, some, List, [], ◌∷◌,
  ◌++◌, take, drop, length, get_elem?, ltb, leb, if◌then◌else◌, ◌≡◌,
}

-- struct iocb: the place in memory that is read to, the number of bytes, the place in the file.
pub record Iocb : Type 0 where
  pub buf : ℕ
  pub nbytes : ℕ
  pub offset : ℕ

unfoldable pub io_prep_pread : ℕ → ℕ → ℕ → Iocb
io_prep_pread buf count offset = record { buf = buf; nbytes = count; offset = offset }

-- What the program relies on in an io_context_t and in its own memory: the tasks that were taken so
-- far, those in flight and those completed in order, the memory, and how many tasks have ended with
-- an error or a short read, so that some of their bytes are lacking.
pub record View : Type 0 where
  pub submitted : List Iocb
  pub in_flight : List Iocb
  pub completed : List Iocb
  pub memory : ℕ → ℕ
  pub lacking : ℕ

abbrev pub empty_view : (ℕ → ℕ) → View
empty_view memory = record {
  submitted = [];
  in_flight = [];
  completed = [];
  memory = memory;
  lacking = 0;
}

-- Tasks are taken.
abbrev pub submit_view : List Iocb → View → View
submit_view cbs v = record v { submitted = v.submitted ++ cbs; in_flight = v.in_flight ++ cbs }

-- Events are handed out.
abbrev pub taken_view : ℕ → View → View
taken_view most v = record v { completed = drop most v.completed }

abbrev byte_or : Option ℕ → ℕ → ℕ
byte_or none b = b
byte_or (some a) b = a

-- The memory with the bytes of a task in it: fewer than `nbytes` at the end of the file.
unfoldable pub pread : List ℕ → Iocb → (ℕ → ℕ) → ℕ → ℕ
pread file cb memory a =
    if leb cb.buf a && ltb a (cb.buf + cb.nbytes)
    then byte_or (get_elem? file (cb.offset + (a - cb.buf))) (memory a)
    else memory a

-- A task in flight ends, with its bytes up to the end of the file in the memory; or with an error or a
-- short read, with its first `n` bytes at most.
pub data Ending (file : List ℕ) (v : View) : View → Type 0 where
  finish :
      (front back : List Iocb) (cb : Iocb)
      → v.in_flight ≡ front ++ (cb ∷ back)
      → Ending file v (record v {
        in_flight = front ++ back;
        completed = v.completed ++ (cb ∷ []);
        memory = pread file cb v.memory;
      })
  give_up :
      (front back : List Iocb) (cb : Iocb) (n : ℕ)
      → n ≤ cb.nbytes
      → v.in_flight ≡ front ++ (cb ∷ back)
      → Ending file v (record v {
        in_flight = front ++ back;
        completed = v.completed ++ (cb ∷ []);
        memory = pread file (record cb { nbytes = n }) v.memory;
        lacking = v.lacking + 1;
      })

-- io_setup, io_submit and io_getevents, and what the kernel may do to a context at any time.
pub record Aio : Type 1 where
  pub Context : Type 0
  pub view : Context → View
  pub io_setup : (ℕ → ℕ) → Context
  -- The context behind an io_submit that has taken these tasks: which, and whether any, is in its
  -- answer.
  pub io_submit : List Iocb → Context → Context
  -- io_getevents(ctx, min, max, event, NULL); `none` while it waits
  pub io_getevents : ℕ → ℕ → Context → Option (List Iocb × Context)
  pub Kernel : List ℕ → Context → Context → Type 0
  pub view-io_setup : (memory : ℕ → ℕ) → view (io_setup memory) ≡ empty_view memory
  pub view-io_submit :
      (cbs : List Iocb) (c : Context) → view (io_submit cbs c) ≡ submit_view cbs (view c)
  -- It waits for `min` events, and takes the first that completed.
  pub io_getevents_waits :
      (least most : ℕ) (c : Context)
      → length (view c).completed < least
      → io_getevents least most c ≡ none
  pub io_getevents_takes :
      (least most : ℕ) (c : Context)
      → least ≤ length (view c).completed
      → (c' : Context) × (io_getevents least most c ≡ some (take most (view c).completed, c'))
        × (view c' ≡ taken_view most (view c))
  -- All that the kernel does is to end tasks, and it can end each.
  pub kernel_ends :
      (file : List ℕ) (c c' : Context) → Kernel file c c' → Ending file (view c) (view c')
  pub kernel_goes :
      (file : List ℕ) (c : Context) (front back : List Iocb) (cb : Iocb)
      → (view c).in_flight ≡ front ++ (cb ∷ back)
      → (c' : Context) × Kernel file c c'

-- const int MAX_EVENT and SEQ_BUF_SIZE, of every function
abbrev pub max_event : ℕ
max_event = 5

abbrev pub seq_buf_size : ℕ
seq_buf_size = 1024

-- The tasks of the `for` loops from `i` on, with `rounds` rounds left: the i-th reads the i-th piece
-- of the file to the i-th piece of the buffer.
unfoldable pub prepare_from : ℕ → ℕ → ℕ → List Iocb
unfolding io_prep_pread
prepare_from buf zero i = []
prepare_from buf (suc rounds) i =
    io_prep_pread (buf + i * seq_buf_size) seq_buf_size (i * seq_buf_size)
    ∷ prepare_from buf rounds (suc i)

-- The same with a buffer for each task.
unfoldable pub prepare_apart : (ℕ → ℕ) → ℕ → ℕ → List Iocb
unfolding io_prep_pread
prepare_apart bufs zero i = []
prepare_apart bufs (suc rounds) i =
    io_prep_pread (bufs i) seq_buf_size (i * seq_buf_size) ∷ prepare_apart bufs rounds (suc i)

module _ (aio : Aio) where
  open aio use {Context, io_setup, io_submit, io_getevents, Kernel}

  -- ReadByKernelAIO, up to its wait, where io_submit takes all five tasks
  unfoldable pub read_by_kernel_aio : (ℕ → ℕ) → ℕ → Context
  read_by_kernel_aio memory buf = io_submit (prepare_from buf max_event 0) (io_setup memory)

  -- ReadByKernelAIOSubmitError1, up to its wait: `&io_cb_ptr` is one pointer, to the first task, where
  -- five are asked for. The run in which what stands behind it is no task, so that io_submit takes one.
  unfoldable pub submit_error1 : (ℕ → ℕ) → (ℕ → ℕ) → Context
  submit_error1 memory bufs = io_submit (take 1 (prepare_apart bufs max_event 0)) (io_setup memory)

  -- ReadByKernelAIOAllocError, up to its wait, where io_submit takes all five tasks: one buffer for
  -- all of them.
  unfoldable pub alloc_error : (ℕ → ℕ) → ℕ → Context
  alloc_error memory buf = io_submit (prepare_apart (λ i. buf) max_event 0) (io_setup memory)

  -- CheckByIOGetevents: the tasks that LibioCallback is called for, in order; `none` while it waits.
  unfoldable pub check_by_io_getevents : ℕ → Context → Option (List Iocb × Context)
  check_by_io_getevents max_event c = io_getevents max_event max_event c

  -- What the kernel does while the program waits.
  pub data Waits (file : List ℕ) (c : Context) : Context → Type 0 where
    here : Waits file c c
    later : {mid end : Context} → Waits file c mid → Kernel file mid end → Waits file c end
