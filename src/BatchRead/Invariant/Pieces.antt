-- ===== src/BatchRead/Invariant/Pieces.antt =====
-- Lists of tasks that read the pieces of the file to their places in the buffer.
use practice_code_c_cpp.Prelude.{
  ℕ, zero, suc, ◌+◌, ◌*◌, ◌<◌, ◌≡◌, refl, sym, ap, ◌∙◌, Bool, true, false, ◌&&◌, ◌||◌, some, List,
  [], ◌∷◌, ◌++◌, length, take, drop, get_elem?, ltb, leb, if◌then◌else◌, arith,
}
use practice_code_c_cpp.KernelAio.{Iocb, pread, seq_buf_size}
use practice_code_c_cpp.BatchRead.{Answer, Whole, accepted}

pub take-append : (xs ys : List Iocb) → take (length xs) (xs ++ ys) ≡ xs
take-append [] ys = refl
take-append (x ∷ xs) ys = ap (λ zs. x ∷ zs) (take-append xs ys)

pub accepted-Whole :
    (a : Answer) (cbs : List Iocb) (nr : ℕ) → Whole nr a → length cbs ≡ nr → accepted a cbs ≡ cbs
accepted-Whole a cbs nr w e =
    ap (λ k. take k (cbs ++ a.beyond)) (w ∙ sym e) ∙ take-append cbs a.beyond

-- The task that reads the n-th piece.
abbrev pub piece : ℕ → Iocb
piece n = record { buf = seq_buf_size * n; nbytes = seq_buf_size; offset = seq_buf_size * n }

-- Those of the first n pieces, in order.
abbrev pub pieces : ℕ → List Iocb
pieces zero = []
pieces (suc n) = pieces n ++ (piece n ∷ [])

abbrev pub IsPiece : Iocb → Type 0
IsPiece cb = (cb.buf ≡ cb.offset) × (cb.nbytes ≡ seq_buf_size)

abbrev pub AllPieces : List Iocb → Type 0
AllPieces [] = Unit
AllPieces (cb ∷ cbs) = IsPiece cb × AllPieces cbs

pub AllPieces-append : (xs ys : List Iocb) → AllPieces xs → AllPieces ys → AllPieces (xs ++ ys)
AllPieces-append [] ys h k = k
AllPieces-append (x ∷ xs) ys h k = (h.0, AllPieces-append xs ys h.1 k)

pub AllPieces-front : (xs ys : List Iocb) → AllPieces (xs ++ ys) → AllPieces xs
AllPieces-front [] ys h = tt
AllPieces-front (x ∷ xs) ys h = (h.0, AllPieces-front xs ys h.1)

pub AllPieces-back : (xs ys : List Iocb) → AllPieces (xs ++ ys) → AllPieces ys
AllPieces-back [] ys h = h
AllPieces-back (x ∷ xs) ys h = AllPieces-back xs ys h.1

pub AllPieces-take : (n : ℕ) (xs : List Iocb) → AllPieces xs → AllPieces (take n xs)
AllPieces-take zero xs h = tt
AllPieces-take (suc n) [] h = tt
AllPieces-take (suc n) (x ∷ xs) h = (h.0, AllPieces-take n xs h.1)

pub AllPieces-drop : (n : ℕ) (xs : List Iocb) → AllPieces xs → AllPieces (drop n xs)
AllPieces-drop zero xs h = h
AllPieces-drop (suc n) [] h = tt
AllPieces-drop (suc n) (x ∷ xs) h = AllPieces-drop n xs h.1

pub AllPieces-pieces : (n : ℕ) → AllPieces (pieces n)
AllPieces-pieces zero = tt
AllPieces-pieces (suc n) =
    AllPieces-append (pieces n) (piece n ∷ []) (AllPieces-pieces n) (omega arith)

pub length-take-drop :
    (n : ℕ) (xs : List Iocb) → length (take n xs) + length (drop n xs) ≡ length xs
length-take-drop zero xs = omega arith
length-take-drop (suc n) [] = omega arith
length-take-drop (suc n) (x ∷ xs) = omega (arith, length-take-drop n xs)

abbrev pub within : Iocb → ℕ → Bool
within cb a = leb cb.offset a && ltb a (cb.offset + seq_buf_size)

-- One of the tasks reads the byte at `a`.
abbrev pub covers : ℕ → List Iocb → Bool
covers a [] = false
covers a (cb ∷ cbs) = within cb a || covers a cbs

pub covers-append : (a : ℕ) (xs ys : List Iocb) → covers a (xs ++ ys) ≡ (covers a xs || covers a ys)
covers-append a [] ys = refl
covers-append a (x ∷ xs) ys = ground (arith, covers-append a xs ys)

pub covers-pieces : (n a : ℕ) → a < seq_buf_size * n → covers a (pieces n) ≡ true
covers-pieces zero a h = absurd (omega arith)
covers-pieces (suc n) a h =
    ground (arith, covers-append a (pieces n) (piece n ∷ []), covers-pieces n a)

pub pread-piece :
    (file : List ℕ) (cb : Iocb) (memory : ℕ → ℕ) (a b : ℕ)
    → IsPiece cb
    → get_elem? file a ≡ some b
    → pread file cb memory a ≡ (if within cb a then b else memory a)
unfolding pread
pread-piece file cb memory a b p e = ground arith
