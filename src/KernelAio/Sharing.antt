-- ===== src/KernelAio/Sharing.antt =====
-- ReadByKernelAIOAllocError: five tasks that read to one buffer.
use practice_code_c_cpp.Prelude.{
  ℕ, ◌+◌, ◌*◌, ◌<◌, ◌≤◌, ap, ◌∙◌, get_elem?-lt, ◌≡◌, ◌⊎◌, inl, inr, refl, sym, subst, some, List,
  [], ◌∷◌, ◌++◌, take, length, get_elem?, arith,
}
use practice_code_c_cpp.KernelAio.{
  Iocb, View, Ending, finish, give_up, submit_view, empty_view, taken_view, Aio, Waits, here, later,
  io_prep_pread, check_by_io_getevents, prepare_apart, alloc_error, pread, max_event, seq_buf_size,
}
use practice_code_c_cpp.KernelAio.Tasks.{
  io_getevents_cases, view-submitted, held, sum-ones, take-whole, Waits-held,
}

module _ (file : List ℕ) (buf : ℕ) where
  -- Each byte of the buffer is the byte of the i-th piece of the file, which has no fewer.
  abbrev pub IsPiece : ℕ → (ℕ → ℕ) → Type 0
  IsPiece i memory =
      (a : ℕ) → a < seq_buf_size → get_elem? file (i * seq_buf_size + a) ≡ some (memory (buf + a))

  -- The task that reads the i-th piece.
  abbrev pub task : ℕ → Iocb
  task i = record { buf = buf; nbytes = seq_buf_size; offset = i * seq_buf_size }

  -- A task reads one of the first five pieces to the buffer.
  abbrev IsTask : Iocb → Type 0
  IsTask cb = (i : ℕ) × (i < max_event) × (cb ≡ task i)

  abbrev AllTasks : List Iocb → Type 0
  AllTasks [] = Unit
  AllTasks (cb ∷ cbs) = IsTask cb × AllTasks cbs

  split :
      (front back : List Iocb) (cb : Iocb)
      → AllTasks (front ++ (cb ∷ back))
      → IsTask cb × AllTasks (front ++ back)
  split [] back cb h = h
  split (x ∷ front) back cb h = let (one, rest) = split front back cb h.1 in (one, (h.0, rest))

  pread-IsPiece :
      (memory : ℕ → ℕ) (i : ℕ)
      → max_event * seq_buf_size ≤ length file
      → i < max_event
      → IsPiece i (pread file (task i) memory)
  unfolding pread
  pread-IsPiece memory i long lt a few =
      let (b, at) = get_elem?-lt file (i * seq_buf_size + a) (omega arith) in ground arith

  -- The task that ended last has filled the buffer.
  abbrev pub HoldsLast : List Iocb → (ℕ → ℕ) → Type 0
  HoldsLast ended memory =
      (front : List Iocb) × (i : ℕ) × (i < max_event)
      × (ended ≡ front ++ (task i ∷ []))
      × IsPiece i memory

  abbrev Overwritten : View → Type 0
  Overwritten v =
      AllTasks v.in_flight
      × (v.lacking ≡ 0 → (length v.completed ≡ 0) ⊎ HoldsLast v.completed v.memory)

  Ending-Overwritten :
      {v v' : View}
      → max_event * seq_buf_size ≤ length file
      → Overwritten v
      → Ending file v v'
      → Overwritten v'
  Ending-Overwritten {v} long (tasks, holds) (finish front back cb e) =
      let ((i, lt, is), rest) = split front back cb (subst AllTasks e tasks) in
      (
        rest,
        λ z. inr (
          v.completed,
          i,
          lt,
          ap (λ x. v.completed ++ (x ∷ [])) is,
          subst (λ x. IsPiece i (pread file x v.memory)) (sym is)
              (pread-IsPiece v.memory i long lt),
        ),
      )
  Ending-Overwritten {v} long (tasks, holds) (give_up front back cb n le e) =
      ((split front back cb (subst AllTasks e tasks)).1, λ z. absurd (omega arith))

  start-Overwritten :
      (memory : ℕ → ℕ)
      → Overwritten (submit_view (prepare_apart (λ i. buf) max_event 0) (empty_view memory))
  unfolding prepare_apart io_prep_pread
  start-Overwritten memory = (
    (
      (0, omega arith, refl),
      (
        (1, omega arith, refl),
        ((2, omega arith, refl), ((3, omega arith, refl), ((4, omega arith, refl), tt))),
      ),
    ),
    λ z. inl refl,
  )

module _ (aio : Aio) (file : List ℕ) (memory : ℕ → ℕ) (buf : ℕ) where
  open aio use {Context, view}

  Waits-Overwritten :
      {c c' : Context}
      → max_event * seq_buf_size ≤ length file
      → Overwritten file buf (view c)
      → Waits aio file c c'
      → Overwritten file buf (view c')
  Waits-Overwritten long o here = o
  Waits-Overwritten long o (later {mid} {end} w k) =
      Ending-Overwritten file buf long (Waits-Overwritten long o w) (aio.kernel_ends file mid end k)

  -- On a file of at least five pieces, where io_submit takes all tasks: where
  -- ReadByKernelAIOAllocError goes on behind its wait and no task has ended with an error or a short
  -- read, each byte of its buffer is the byte of the piece of the task that ended last, so that what
  -- the other four tasks read is lost.
  pub alloc_error_loses :
      {c c' : Context} (es : List Iocb)
      → max_event * seq_buf_size ≤ length file
      → Waits aio file (alloc_error aio memory buf) c
      → check_by_io_getevents aio max_event c ≡ some (es, c')
      → (view c).lacking ≡ 0
      → HoldsLast file buf es (view c).memory
  unfolding alloc_error check_by_io_getevents prepare_apart
  alloc_error_loses {c} {c'} es long w e z = elim ((Waits-Overwritten long start w).1 z) [
    | inl none_yet ↦ absurd (omega (arith, cases.0))
    | inr held ↦ subst (λ xs. HoldsLast file buf xs (view c).memory) (sym handed) held
  ]
    where
      cases :
          (max_event ≤ length (view c).completed)
          × (es ≡ take max_event (view c).completed)
          × (view c' ≡ taken_view max_event (view c))
      cases = io_getevents_cases aio max_event max_event c c' es e

      all : length (view c).in_flight + length (view c).completed ≡ max_event
      all = omega (
        arith,
        Waits-held aio (λ cb. 1) w,
        ap (held (λ cb. 1)) (view-submitted aio (prepare_apart (λ i. buf) max_event 0) memory),
        sum-ones (view c).in_flight,
        sum-ones (view c).completed,
      )

      handed : es ≡ (view c).completed
      handed = cases.1 ∙ take-whole max_event (view c).completed (omega (arith, all, cases.0))

      start : Overwritten file buf (view (alloc_error aio memory buf))
      start =
          subst (Overwritten file buf) (sym (view-submitted aio _ memory))
            (start-Overwritten file buf memory)
