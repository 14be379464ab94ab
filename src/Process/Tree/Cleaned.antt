-- ===== src/Process/Tree/Cleaned.antt =====
-- What `clean_process_tree` leaves of the processes below its own.
use zproc.Prelude.{
  All, Error, ℕ, ◌≡◌, refl, sym, subst, ◌⊎◌, inl, inr, true, false, Option, none, some, List, [],
  ◌∷◌, arith,
}
use zproc.Process.Tree.{
  Signalled, sent, no_such_process, failed, Psutil, exit_by, signal_next, signal_all, leave,
  kill_rest, clean_process_tree,
}
use mathlib.Core.List.{Memᴰ}
use mathlib.Core.List.Memᴰ.{head, tail}

All-Memᴰ : {A : Type 0} (Q : A → Type 0) (x : A) (xs : List A) → All Q xs → Memᴰ x xs → Q x
All-Memᴰ Q x [] h m = elim m [ ]
All-Memᴰ Q x (y ∷ ys) (h, hs) (head e) = subst Q (sym e) h
All-Memᴰ Q x (y ∷ ys) (h, hs) (tail m) = All-Memᴰ Q x ys hs m

All-weaken :
    {A : Type 0} (Q Q' : A → Type 0) (xs : List A) → ((x : A) → Q x → Q' x) → All Q xs → All Q' xs
All-weaken Q Q' [] f h = tt
All-weaken Q Q' (x ∷ xs) f (h, hs) = (f x h, All-weaken Q Q' xs f hs)

module _ {S P : Type 0} (psutil : Psutil S P) where
  -- It is not alive, or it has been sent a SIGKILL.
  abbrev pub IsDone : S → P → Type 0
  IsDone s p = (psutil.is_alive p s ≡ false) ⊎ (psutil.is_killed p s ≡ true)

  -- What psutil documents of `kill` and `wait_procs`: `kill` sends a SIGKILL, or raises NoSuchProcess for
  -- a process that there is none of; a `kill` revives no process, and takes no signal back; and the
  -- processes that `wait_procs` leaves out of its result are not alive.
  pub record Documented : Type 0 where
    pub killed :
        (p : P) (s : S) → (psutil.kill p s).0 ≡ sent → psutil.is_killed p (psutil.kill p s).1 ≡ true
    pub gone :
        (p : P) (s : S)
        → (psutil.kill p s).0 ≡ no_such_process
        → psutil.is_alive p (psutil.kill p s).1 ≡ false
    pub stays_dead :
        (p q : P) (s : S)
        → psutil.is_alive q s ≡ false
        → psutil.is_alive q (psutil.kill p s).1 ≡ false
    pub stays_killed :
        (p q : P) (s : S)
        → psutil.is_killed q s ≡ true
        → psutil.is_killed q (psutil.kill p s).1 ≡ true
    pub waited :
        (procs : List P) (s : S)
        → let (alive, s') = psutil.wait_procs procs s in
          All (λ p. (psutil.is_alive p s' ≡ false) ⊎ Memᴰ p alive) procs

  module _ (documented : Documented) where
    kill-IsDone :
        (p : P) (s : S)
        → ((psutil.kill p s).0 ≡ sent) ⊎ ((psutil.kill p s).0 ≡ no_such_process)
        → IsDone (psutil.kill p s).1 p
    kill-IsDone p s (inl e) = inr (documented.killed p s e)
    kill-IsDone p s (inr e) = inl (documented.gone p s e)

    kill-stays : (p q : P) (s : S) → IsDone s q → IsDone (psutil.kill p s).1 q
    kill-stays p q s (inl dead) = inl (documented.stays_dead p q s dead)
    kill-stays p q s (inr told) = inr (documented.stays_killed p q s told)

    next-stays :
        (r : Signalled × S) (rest : S → Option Error × S) (q : P)
        → ((s : S) → IsDone s q → IsDone (rest s).1 q)
        → IsDone r.1 q
        → IsDone (signal_next psutil r rest).1 q
    unfolding signal_next
    next-stays (sent, s) rest q stay h = stay s h
    next-stays (no_such_process, s) rest q stay h = stay s h
    next-stays (failed e, s) rest q stay h = h

    signal_all-stays :
        (ps : List P) (s : S) (q : P) → IsDone s q → IsDone (signal_all psutil psutil.kill ps s).1 q
    unfolding signal_all
    signal_all-stays [] s q h = h
    signal_all-stays (p ∷ ps) s q h =
        next-stays (psutil.kill p s) (signal_all psutil psutil.kill ps) q
          (λ s'. signal_all-stays ps s' q) (kill-stays p q s h)

    next-killed :
        (p : P) (ps : List P) (r : Signalled × S) (rest : S → Option Error × S)
        → ((r.0 ≡ sent) ⊎ (r.0 ≡ no_such_process) → IsDone r.1 p)
        → ((s : S) → IsDone s p → IsDone (rest s).1 p)
        → ((s : S) → (rest s).0 ≡ none → All (IsDone (rest s).1) ps)
        → (signal_next psutil r rest).0 ≡ none
        → All (IsDone (signal_next psutil r rest).1) (p ∷ ps)
    unfolding signal_next
    next-killed p ps (sent, s) rest dead stay later h = (stay s (dead (inl refl)), later s h)
    next-killed p ps (no_such_process, s) rest dead stay later h =
        (stay s (dead (inr refl)), later s h)
    next-killed p ps (failed e, s) rest dead stay later h = ground (arith, h)

    signal_all-killed :
        (ps : List P) (s : S)
        → (signal_all psutil psutil.kill ps s).0 ≡ none
        → All (IsDone (signal_all psutil psutil.kill ps s).1) ps
    unfolding signal_all
    signal_all-killed [] s h = tt
    signal_all-killed (p ∷ ps) s h =
        next-killed p ps (psutil.kill p s) (signal_all psutil psutil.kill ps) (kill-IsDone p s)
          (λ s'. signal_all-stays ps s' p) (signal_all-killed ps) h

    leave-killed :
        (signum : Option ℕ) (procs : List P) (r : Option Error × S)
        → (r.0 ≡ none → All (IsDone r.1) procs)
        → (leave psutil signum r).0 ≡ exit_by signum
        → All (IsDone (leave psutil signum r).1) procs
    unfolding leave
    leave-killed signum procs (none, s) dead h = dead refl
    leave-killed none procs (some e, s) dead h = ground (arith, h, exit_by)
    leave-killed (some n) procs (some e, s) dead h = ground (arith, h, exit_by)

    rest-killed :
        (signum : Option ℕ) (procs : List P) (r : Option Error × S)
        → (kill_rest psutil signum procs r).0 ≡ exit_by signum
        → All (IsDone (kill_rest psutil signum procs r).1) procs
    unfolding kill_rest
    rest-killed signum procs (none, s) h =
        let (alive, s') = psutil.wait_procs procs s in
        leave-killed signum procs (signal_all psutil psutil.kill alive s')
          (λ e.
            All-weaken _ (IsDone (signal_all psutil psutil.kill alive s').1) procs
              (λ p either. elim either [
                | inl dead ↦ signal_all-stays alive s' p (inl dead)
                | inr listed ↦
                    All-Memᴰ (IsDone (signal_all psutil psutil.kill alive s').1) p alive
                      (signal_all-killed alive s' e) listed
              ])
              (documented.waited procs s))
          h
    rest-killed none procs (some e, s) h = ground (arith, h, exit_by)
    rest-killed (some n) procs (some e, s) h = ground (arith, h, exit_by)

  -- No call of a method raises anything but NoSuchProcess.
  abbrev pub Allowed : (P → S → Signalled × S) → Type 0
  Allowed method = (p : P) (s : S) → ((method p s).0 ≡ sent) ⊎ ((method p s).0 ≡ no_such_process)

  next-Allowed :
      (r : Signalled × S) (rest : S → Option Error × S)
      → (r.0 ≡ sent) ⊎ (r.0 ≡ no_such_process)
      → ((s : S) → (rest s).0 ≡ none)
      → (signal_next psutil r rest).0 ≡ none
  unfolding signal_next
  next-Allowed (sent, s) rest h later = later s
  next-Allowed (no_such_process, s) rest h later = later s
  next-Allowed (failed e, s) rest h later = ground (arith, h)

  signal_all-Allowed :
      (method : P → S → Signalled × S)
      → Allowed method
      → (ps : List P) (s : S) → (signal_all psutil method ps s).0 ≡ none
  unfolding signal_all
  signal_all-Allowed method allowed [] s = refl
  signal_all-Allowed method allowed (p ∷ ps) s =
      next-Allowed (method p s) (signal_all psutil method ps) (allowed p s)
        (signal_all-Allowed method allowed ps)

  leave-Allowed :
      (signum : Option ℕ) (r : Option Error × S)
      → r.0 ≡ none
      → (leave psutil signum r).0 ≡ exit_by signum
  unfolding leave
  leave-Allowed signum (none, s) h = refl
  leave-Allowed signum (some e, s) h = ground (arith, h)

  kill_rest-Allowed :
      (signum : Option ℕ) (procs : List P) (r : Option Error × S)
      → Allowed psutil.kill
      → r.0 ≡ none
      → (kill_rest psutil signum procs r).0 ≡ exit_by signum
  unfolding kill_rest
  kill_rest-Allowed signum procs (none, s) kills h = leave-Allowed signum _ (
      signal_all-Allowed psutil.kill kills (psutil.wait_procs procs s).0
        (psutil.wait_procs procs s).1)
  kill_rest-Allowed signum procs (some e, s) kills h = ground (arith, h)

  clean_process_tree-Allowed :
      (signum : Option ℕ) (s : S)
      → Allowed psutil.terminate
      → Allowed psutil.kill
      → (clean_process_tree psutil signum s).0 ≡ exit_by signum
  unfolding clean_process_tree
  clean_process_tree-Allowed signum s terminates kills =
      kill_rest-Allowed signum (psutil.children s) _ kills
        (signal_all-Allowed psutil.terminate terminates (psutil.children s) s)

-- When `clean_process_tree` is done, each of the processes that were below its own is not alive, because
-- it has ended when it was told to or before, or has been sent a SIGKILL, which is not waited for. It
-- returns as an exit handler, and ends the process by `os._exit` with the number of the signal as a
-- signal handler. Hypotheses: psutil does what its documentation says, and its `terminate` and `kill`
-- raise nothing but a NoSuchProcess.
pub clean_process_tree_lem :
    {S P : Type 0} (psutil : Psutil S P) (signum : Option ℕ) (s : S)
    → Documented psutil
    → Allowed psutil psutil.terminate
    → Allowed psutil psutil.kill
    → let (end, s') = clean_process_tree psutil signum s in
      (end ≡ exit_by signum)
      × All
          (λ p. (psutil.is_alive p s' ≡ false) ⊎ (psutil.is_killed p s' ≡ true))
          (psutil.children s)
clean_process_tree_lem psutil signum s documented terminates kills =
    let e = clean_process_tree-Allowed psutil signum s terminates kills in
    (
      e,
      (unfold clean_process_tree in
          rest-killed psutil documented signum (psutil.children s)
            (signal_all psutil psutil.terminate (psutil.children s) s) e),
    )
