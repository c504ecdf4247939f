-- ===== src/SelectServer/Sets.antt =====
-- AddFd and RemoveFd keep the three variables that describe the same set in step.
use practice_code_c_cpp.Prelude.{
  mem, ℕ, zero, suc, ◌+◌, ◌≤◌, ◌<◌, ◌≡◌, refl, Bool, true, false, ◌&&◌, ◌||◌, not, List, [], ◌∷◌,
  ◌++◌, ◌==◌, ltb, arith, ap, none, some, Option,
}
use practice_code_c_cpp.SelectServer.{
  insert, erase, rbegin, Watch, fd_setsize, fd_set, with_fd, add_fd, empty_watch, remove_fd,
  watched, is_empty,
}

-- Every element is above c.
abbrev pub Above : ℕ → List ℕ → Type 0
Above c [] = Unit
Above c (d ∷ ds) = (c < d) × Above c ds

abbrev pub Sorted : List ℕ → Type 0
Sorted [] = Unit
Sorted (c ∷ cs) = Above c cs × Sorted cs

-- origin_set holds the elements of fds, which is in order, and max_fd is above none of them.
pub record IsConsistent (w : Watch) : Type 0 where
  pub agree : (d : ℕ) → w.origin_set d ≡ mem d w.fds
  pub bound : (d : ℕ) → mem d w.fds ≡ true → d ≤ w.max_fd
  pub sorted : Sorted w.fds

pub Above-mem : (c d : ℕ) (cs : List ℕ) → Above c cs → mem d cs ≡ true → c < d
Above-mem c d [] a h = ground arith
Above-mem c d (e ∷ cs) a h = ground (arith, Above-mem c d cs)

pub mem-insert : (d fd : ℕ) (cs : List ℕ) → mem d (insert fd cs) ≡ (d == fd || mem d cs)
unfolding insert
mem-insert d fd [] = refl
mem-insert d fd (c ∷ cs) = ground (arith, mem-insert d fd cs)

Above-insert : (c fd : ℕ) (cs : List ℕ) → c < fd → Above c cs → Above c (insert fd cs)
unfolding insert
Above-insert c fd [] h a = ground arith
Above-insert c fd (d ∷ cs) h a = ground (arith, Above-insert c fd cs)

Above-trans : (b c : ℕ) (cs : List ℕ) → b < c → Above c cs → Above b cs
Above-trans b c [] h a = tt
Above-trans b c (d ∷ cs) h a = (omega arith, Above-trans b c cs h a.1)

Sorted-insert : (fd : ℕ) (cs : List ℕ) → Sorted cs → Sorted (insert fd cs)
unfolding insert
Sorted-insert fd [] s = (tt, tt)
Sorted-insert fd (c ∷ cs) s =
    ground (arith, Sorted-insert fd cs, Above-insert c fd cs, Above-trans fd c cs)

pub mem-erase :
    (d fd : ℕ) (cs : List ℕ) → Sorted cs → mem d (erase fd cs) ≡ (not (d == fd) && mem d cs)
unfolding erase
mem-erase d fd [] s = ground arith
mem-erase d fd (c ∷ cs) s = ground (arith, mem-erase d fd cs, Above-mem c d cs)

Above-erase : (c fd : ℕ) (cs : List ℕ) → Above c cs → Above c (erase fd cs)
unfolding erase
Above-erase c fd [] a = tt
Above-erase c fd (d ∷ cs) a = ground (arith, Above-erase c fd cs)

Sorted-erase : (fd : ℕ) (cs : List ℕ) → Sorted cs → Sorted (erase fd cs)
unfolding erase
Sorted-erase fd [] s = tt
Sorted-erase fd (c ∷ cs) s = ground (arith, Sorted-erase fd cs, Above-erase c fd cs)

first-rbegin : (c : ℕ) (cs : List ℕ) → Above c cs → Sorted cs → c ≤ rbegin c cs
unfolding rbegin
first-rbegin c [] a s = omega arith
first-rbegin c (d ∷ ds) a s = omega (arith, first-rbegin d ds s.0 s.1)

mem-rbegin : (x d : ℕ) (cs : List ℕ) → Sorted cs → mem d cs ≡ true → d ≤ rbegin x cs
unfolding rbegin
mem-rbegin x d [] s h = ground arith
mem-rbegin x d (c ∷ cs) s h = ground (arith, first-rbegin c cs s.0 s.1, mem-rbegin c d cs s.1)

-- AddFd of a descriptor that fits keeps the state consistent: the new descriptor is in the bits and
-- in the ordered set, and max_fd is not below it.
pub with_fd-IsConsistent :
    (w : Watch) (fd : ℕ)
    → IsConsistent w
    → IsConsistent (with_fd w fd (λ d. d == fd || w.origin_set d))
with_fd-IsConsistent w fd c = record {
  agree = λ d. ground (arith, mem-insert d fd w.fds, c.agree d);
  bound = λ d h. ground (arith, mem-insert d fd w.fds, c.bound d);
  sorted = Sorted-insert fd w.fds c.sorted;
}

module _ (w : Watch) (fd : ℕ) where
  put :
      {o o' : Option (ℕ → Bool)}
      → o ≡ o'
      → elim o [ none ↦ none | some set ↦ some (with_fd w fd set) ]
        ≡ elim o' [ none ↦ none | some set ↦ some (with_fd w fd set) ]
  put e = ap (λ o. elim o [ none ↦ none | some set ↦ some (with_fd w fd set) ]) e

  pub add_fd-fits :
      ltb fd fd_setsize ≡ true → add_fd w fd ≡ some (with_fd w fd (λ d. d == fd || w.origin_set d))
  unfolding add_fd
  add_fd-fits h = put fits
    where
      fits : fd_set fd w.origin_set ≡ some (λ d. d == fd || w.origin_set d)
      fits = rw h refl

  pub add_fd-overflows : ltb fd fd_setsize ≡ false → add_fd w fd ≡ none
  unfolding add_fd
  add_fd-overflows h = put overflows
    where
      overflows : fd_set fd w.origin_set ≡ none
      overflows = rw h refl

pub empty-IsConsistent : IsConsistent empty_watch
empty-IsConsistent = record { agree = λ d. refl; bound = λ d h. ground arith; sorted = tt }

is_empty-mem : (d : ℕ) (cs : List ℕ) → is_empty cs ≡ true → mem d cs ≡ false
is_empty-mem d [] h = refl
is_empty-mem d (c ∷ cs) h = ground arith

-- RemoveFd keeps the state consistent, whether or not it takes the greatest descriptor.
pub remove_fd-IsConsistent : (w : Watch) (fd : ℕ) → IsConsistent w → IsConsistent (remove_fd w fd)
unfolding remove_fd
remove_fd-IsConsistent w fd c = record {
  agree = λ d. ground (arith, mem-erase d fd w.fds c.sorted, c.agree d);
  bound = λ d h. ground (
    arith,
    mem-erase d fd w.fds c.sorted,
    c.bound d,
    mem-rbegin 0 d (erase fd w.fds) (Sorted-erase fd w.fds c.sorted) h,
  );
  sorted = Sorted-erase fd w.fds c.sorted;
}

mem-append_one : (d n : ℕ) (cs : List ℕ) → mem d (cs ++ n ∷ []) ≡ (mem d cs || d == n)
mem-append_one d n [] = ground arith
mem-append_one d n (c ∷ cs) = ground (arith, mem-append_one d n cs)

mem-watched : (d : ℕ) (set : ℕ → Bool) (n : ℕ) → mem d (watched set n) ≡ (set d && ltb d n)
unfolding watched
mem-watched d set zero = ground arith
mem-watched d set (suc n) = ground (arith, mem-watched d set n, mem-append_one d n (watched set n))

-- select is asked about exactly the descriptors in fds, for its set and its bound are those of a
-- consistent state.
pub watched-IsConsistent :
    (d : ℕ) (w : Watch) → IsConsistent w → mem d (watched w.origin_set (w.max_fd + 1)) ≡ mem d w.fds
watched-IsConsistent d w c =
    ground (arith, mem-watched d w.origin_set (w.max_fd + 1), c.agree d, c.bound d)
