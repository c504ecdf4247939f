-- ===== src/SelectServer/Printing.antt =====
-- linux_io/3.io_multiplexing/select/utils.h, PrintBits and PrintSet: memory as text, one digit to a
-- bit, and the way back from the text.
use practice_code_c_cpp.Prelude.{
  ℕ, zero, suc, ◌+◌, ◌-◌, ◌*◌, ◌/◌, ◌%◌, ◌^◌, ◌<◌, ◌≡◌, refl, ap, ◌∙◌, List, [], ◌∷◌, ◌++◌, ◌==◌,
  if◌then◌else◌, arith,
}
use mathlib.Core.List.{append_assoc}

abbrev space : ℕ
space = 0x20

abbrev newline : ℕ
newline = 0x0a

-- printf("%u", byte), for a byte of 0 or 1
abbrev digit : ℕ → ℕ
digit n = n + 0x30

-- for (j = 7; j >= 0; j--), with `j` rounds left
print_byte : ℕ → ℕ → List ℕ
print_byte zero b = []
print_byte (suc j) b = digit (b / 2 ^ j % 2) ∷ print_byte j b

-- for (i = size-1; i >= 0; i--), with `i` rounds left
print_bytes : ℕ → (ℕ → ℕ) → List ℕ
print_bytes zero b = []
print_bytes (suc i) b = print_byte 8 (b i) ++ print_bytes i b

-- The text that PrintBits prints of the bytes at `b`.
print_bits : ℕ → (ℕ → ℕ) → List ℕ
unfolding print_bytes print_byte
print_bits size b = print_bytes size b ++ (space ∷ [])

-- __FD_SETSIZE / __NFDBITS, and sizeof(__fd_mask)
abbrev words : ℕ
words = 16

abbrev mask_size : ℕ
mask_size = 8

print_words : ℕ → (ℕ → ℕ) → List ℕ
unfolding print_bits
print_words zero b = []
print_words (suc left) b = print_bits mask_size b ++ print_words left (λ i. b (mask_size + i))

-- The text that PrintSet prints of the fd_set at `b`.
unfoldable pub print_set : (ℕ → ℕ) → List ℕ
unfolding print_words
print_set b = print_words words b ++ (newline ∷ [])

-- The number that `n` bytes stand for, the lowest first.
abbrev pub number : ℕ → (ℕ → ℕ) → ℕ
number zero b = 0
number (suc n) b = b 0 + 256 * number n (λ i. b (suc i))

-- The masks of an fd_set.
abbrev pub masks : ℕ → (ℕ → ℕ) → List ℕ
masks zero b = []
masks (suc left) b = number mask_size b ∷ masks left (λ i. b (mask_size + i))

-- The way back: binary numerals, each ended by a space, up to the end of the line.
pub read_from : ℕ → List ℕ → List ℕ
read_from acc [] = []
read_from acc (c ∷ text) =
    let done = acc ∷ read_from 0 text in
    let more = read_from (acc * 2 + (c - 0x30)) text in
    if c == newline then [] else if c == space then done else more

read_digit :
    (acc d : ℕ) (text : List ℕ)
    → d < 2
    → read_from acc (digit d ∷ text) ≡ read_from (acc * 2 + d) text
unfolding read_from
read_digit acc d text h = ground (arith, ap (λ k. read_from k text) (same_number d))
  where
    same_number : (d : ℕ) → acc * 2 + (digit d - 0x30) ≡ acc * 2 + d
    same_number d = omega arith

read_space : (acc : ℕ) (text : List ℕ) → read_from acc (space ∷ text) ≡ acc ∷ read_from 0 text
unfolding read_from
read_space acc text = refl

-- The number read so far, behind `j` digits of `b`.
abbrev shifted : ℕ → ℕ → ℕ → ℕ
shifted zero acc b = acc
shifted (suc j) acc b = shifted j (acc * 2 + b / 2 ^ j % 2) b

read_digits :
    (j acc b : ℕ) (text : List ℕ)
    → read_from acc (print_byte j b ++ text) ≡ read_from (shifted j acc b) text
unfolding print_byte
read_digits zero acc b text = refl
read_digits (suc j) acc b text =
    read_digit acc (b / 2 ^ j % 2) (print_byte j b ++ text) (omega arith)
    ∙ read_digits j (acc * 2 + b / 2 ^ j % 2) b text

shifted-byte : (acc b : ℕ) → b < 256 → shifted 8 acc b ≡ acc * 256 + b
shifted-byte acc b h = omega arith

module _ (b : ℕ → ℕ) where
  -- The number read behind `i` bytes, from the highest.
  abbrev grown : ℕ → ℕ → ℕ
  grown zero acc = acc
  grown (suc i) acc = grown i (acc * 256 + b i)

  read_bytes :
      ((i : ℕ) → b i < 256)
      → (i acc : ℕ) (text : List ℕ)
      → read_from acc (print_bytes i b ++ text) ≡ read_from (grown i acc) text
  unfolding print_bytes
  read_bytes h zero acc text = refl
  read_bytes h (suc i) acc text =
      ap (read_from acc) (append_assoc (print_byte 8 (b i)) (print_bytes i b) text)
      ∙ read_digits 8 acc (b i) (print_bytes i b ++ text)
      ∙ ap (λ k. read_from k (print_bytes i b ++ text)) (shifted-byte acc (b i) (h i))
      ∙ read_bytes h i (acc * 256 + b i) text

  grown-number : grown mask_size 0 ≡ number mask_size b
  grown-number = omega arith

  -- One call of PrintBits on a mask reads back as its number.
  read_mask :
      ((i : ℕ) → b i < 256)
      → (text : List ℕ)
      → read_from 0 (print_bits mask_size b ++ text) ≡ number mask_size b ∷ read_from 0 text
  unfolding print_bits
  read_mask h text =
      ap (read_from 0) (append_assoc (print_bytes mask_size b) (space ∷ []) text)
      ∙ read_bytes h mask_size 0 (space ∷ text)
      ∙ read_space (grown mask_size 0) text
      ∙ ap (λ k. k ∷ read_from 0 text) grown-number

read_words :
    (left : ℕ) (b : ℕ → ℕ)
    → ((i : ℕ) → b i < 256)
    → read_from 0 (print_words left b ++ (newline ∷ [])) ≡ masks left b
unfolding print_words
read_words zero b h = unfold read_from in refl
read_words (suc left) b h =
    ap (read_from 0) (
      append_assoc (print_bits mask_size b) (print_words left (λ i. b (mask_size + i)))
        (newline ∷ []))
    ∙ read_mask b h (print_words left (λ i. b (mask_size + i)) ++ (newline ∷ []))
    ∙ ap (λ ms. number mask_size b ∷ ms)
        (read_words left (λ i. b (mask_size + i)) (λ i. h (mask_size + i)))

-- The line that PrintSet prints reads back as the 16 masks of the set, whatever they are.
pub read_from-print_set :
    (b : ℕ → ℕ) → ((i : ℕ) → b i < 256) → read_from 0 (print_set b) ≡ masks words b
unfolding print_set
read_from-print_set b h = read_words words b h
