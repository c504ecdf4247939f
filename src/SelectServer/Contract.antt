-- ===== src/SelectServer/Contract.antt =====
-- The three variables of the select programs against the set of descriptors that they stand for.
use practice_code_c_cpp.Prelude.{
  mem, ℕ, ◌+◌, ◌<◌, ◌≡◌, refl, ap, ◌∙◌, lt→ltb, Bool, true, false, ◌&&◌, ◌||◌, not, List, [], ◌∷◌,
  ◌==◌, Option, none, some,
}
use practice_code_c_cpp.SelectServer.{
  Watch, fd_setsize, with_fd, add_fd, remove_fd, watched, empty_watch,
}
use practice_code_c_cpp.SelectServer.Sets.{
  IsConsistent, empty-IsConsistent, with_fd-IsConsistent, add_fd-fits, remove_fd-IsConsistent,
  mem-insert, mem-erase, watched-IsConsistent,
}

-- A call of AddFd or of RemoveFd.
pub data Op : Type 0 where
  adds removes : ℕ → Op

abbrev call : Op → Watch → Option Watch
call (adds fd) w = add_fd w fd
call (removes fd) w = some (remove_fd w fd)

-- The variables behind the calls, the last call first in the list; none where one wrote outside the
-- set of bits.
abbrev pub after : List Op → Option Watch
after [] = some empty_watch
after (op ∷ ops) = elim (after ops) [ none ↦ none | some w ↦ call op w ]

-- The set behind the same calls.
abbrev pub members : List Op → ℕ → Bool
members [] d = false
members (adds fd ∷ ops) d = d == fd || members ops d
members (removes fd ∷ ops) d = not (d == fd) && members ops d

-- AddFd is called with descriptors that fit into a fd_set, and RemoveFd with one that is in the set.
abbrev pub InRange : List Op → Type 0
InRange [] = Unit
InRange (adds fd ∷ ops) = (fd < fd_setsize) × InRange ops
InRange (removes fd ∷ ops) = (members ops fd ≡ true) × InRange ops

-- What the calls leave: variables that agree and stand for the set.
record Leaves (ops : List Op) : Type 0 where
  watch : Watch
  runs : after ops ≡ some watch
  consistent : IsConsistent watch
  stands : (d : ℕ) → mem d watch.fds ≡ members ops d

mem-remove_fd :
    (d fd : ℕ) (w : Watch)
    → IsConsistent w
    → mem d (remove_fd w fd).fds ≡ (not (d == fd) && mem d w.fds)
unfolding remove_fd
mem-remove_fd d fd w c = mem-erase d fd w.fds c.sorted

ops-Leaves : (ops : List Op) → InRange ops → Leaves ops
ops-Leaves [] h = record {
  watch = empty_watch;
  runs = refl;
  consistent = empty-IsConsistent;
  stands = λ d. refl;
}
ops-Leaves (adds fd ∷ ops) h =
    let b = ops-Leaves ops h.1 in
    record {
      watch = with_fd b.watch fd (λ d. d == fd || b.watch.origin_set d);
      runs = rw b.runs (add_fd-fits b.watch fd (lt→ltb fd fd_setsize h.0));
      consistent = with_fd-IsConsistent b.watch fd b.consistent;
      stands = λ d. mem-insert d fd b.watch.fds ∙ ap (λ x. d == fd || x) (b.stands d);
    }
ops-Leaves (removes fd ∷ ops) h =
    let b = ops-Leaves ops h.1 in
    record {
      watch = remove_fd b.watch fd;
      runs = rw b.runs refl;
      consistent = remove_fd-IsConsistent b.watch fd b.consistent;
      stands =
          λ d. mem-remove_fd d fd b.watch b.consistent ∙ ap (λ x. not (d == fd) && x) (b.stands d);
    }

-- After any calls behind FD_ZERO of AddFd with descriptors below FD_SETSIZE, and of RemoveFd with
-- descriptors that are in the set, none has written outside the set of bits; the bits, fds and max_fd
-- agree, fds is in order, and select, with the set and the bound that it is given, watches exactly the
-- set of the descriptors that were added and not removed since.
pub after-watched :
    (ops : List Op)
    → InRange ops
    → (w : Watch) × (after ops ≡ some w)
      × IsConsistent w
      × ((d : ℕ) → mem d (watched w.origin_set (w.max_fd + 1)) ≡ members ops d)
after-watched ops h =
    let b = ops-Leaves ops h in
    (b.watch, b.runs, b.consistent, λ d. watched-IsConsistent d b.watch b.consistent ∙ b.stands d)
