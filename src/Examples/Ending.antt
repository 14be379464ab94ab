-- ===== src/Examples/Ending.antt =====
-- Waiting for a child with a timeout, and the clean-up of the processes below one.
use zproc.Prelude.{
  leb, ◌==◌, if◌then◌else◌, ==_iff, Bool-cases, range, All, ℕ, ◌+◌, ◌≤◌, ◌≡◌, refl, ap, ◌∙◌, ◌↔◌,
  ◌⊎◌, inl, inr, Bool, true, false, not, ◌&&◌, ◌||◌, none, some, List, [], ◌∷◌, arith,
}
use zproc.Task.Ids.{pos}
use zproc.Process.Handle.{timed_out, Waited, got, failed, Process, read_result, wait}
use zproc.Process.Handle.Timed.{
  Child, has_ended, status_at, join, join_loop, wait_timed, wait_timed_lem,
}
use zproc.Process.Tree.{sent, no_such_process, Psutil, returned, exit_by, clean_process_tree}
use zproc.Process.Tree.Cleaned.{Documented, clean_process_tree_lem}
use mathlib.Core.List.{Memᴰ}
use mathlib.Core.List.Memᴰ.{head, tail}

-- It exits at 23 with code 0, and has sent 5.
abbrev child : Child ℕ
child = record { ends_at = some 23; exitcode = pos 0; result = some 5 }

abbrev new_handle : Process ℕ
new_handle = record { cached = none; is_closed = false }

abbrev one_each : ℕ → ℕ
one_each t = 1

wait_timed_example :
    (t' : ℕ) × (waited : Waited ℕ × Process ℕ) × (wait_timed one_each child 10 11 20 new_handle
      ≡ some (waited, t'))
    × (20 + 10 ≤ t')
    × (t' ≤ 20 + 10 + 10 + 1)
    × ((waited.0 ≡ failed timed_out) ↔ (has_ended child t' ≡ false))
    × (has_ended child t' ≡ true → waited ≡ wait false (status_at child t') new_handle)
wait_timed_example =
    wait_timed_lem one_each child 10 1 20 new_handle 11 (λ t'. (omega arith, omega arith)) refl
      (omega arith)

-- It has exited at 23, and is waited for until 30; a wait from 10 to 15 ends in a TimeoutError.
wait_timed_test :
    (wait_timed one_each child 10 11 20 new_handle
      ≡ some ((got 5, record { cached = some 5; is_closed = true }), 30))
    × (wait_timed one_each child 5 6 10 new_handle ≡ some ((failed timed_out, new_handle), 16))
unfolding wait_timed join_loop join has_ended status_at wait read_result
wait_timed_test = (refl, refl)

-- A system whose state says which processes are alive and which have been sent a SIGKILL. The process 2
-- does not end when it is told to, and one that is killed is alive for a while.
abbrev alive_of : (ℕ → Bool) → List ℕ → List ℕ
alive_of alive [] = []
alive_of alive (p ∷ ps) = let rest = alive_of alive ps in if alive p then p ∷ rest else rest

abbrev system : Psutil ((ℕ → Bool) × (ℕ → Bool)) ℕ
system = record {
  children = λ s. alive_of s.0 (range 4);
  terminate = λ p s. (sent, (λ q. (q == 2 || not (q == p)) && s.0 q, s.1));
  wait_procs = λ procs s. (alive_of s.0 procs, s);
  kill = λ p s. (if s.0 p then sent else no_such_process, (s.0, λ q. q == p || s.1 q));
  is_alive = λ p s. s.0 p;
  is_killed = λ p s. s.1 p;
}

alive_of_lem :
    (alive : ℕ → Bool) (procs : List ℕ) (p : ℕ)
    → Memᴰ p procs
    → (alive p ≡ false) ⊎ Memᴰ p (alive_of alive procs)
alive_of_lem alive [] p m = elim m [ ]
alive_of_lem alive (q ∷ qs) p (head e) = elim (Bool-cases (alive q)) [
  | inl h ↦ rw h (inr (head e))
  | inr h ↦ inl (ap alive e ∙ h)
]
alive_of_lem alive (q ∷ qs) p (tail m) = elim (Bool-cases (alive q)) [
  | inl h ↦ rw h (elim (alive_of_lem alive qs p m) [ inl dead ↦ inl dead | inr m' ↦ inr (tail m') ])
  | inr h ↦ rw h (alive_of_lem alive qs p m)
]

Memᴰ-All : {A : Type 0} (Q : A → Type 0) (xs : List A) → ((x : A) → Memᴰ x xs → Q x) → All Q xs
Memᴰ-All Q [] f = tt
Memᴰ-All Q (x ∷ xs) f = (f x (head refl), Memᴰ-All Q xs (λ y m. f y (tail m)))

system-Documented : Documented system
system-Documented = record {
  killed = λ p s how. ground (arith, ==_iff p p);
  gone = λ p s how. ground (arith, how);
  stays_dead = λ p q s dead. dead;
  stays_killed = λ p q s told. ground (arith, told);
  waited = λ procs s. Memᴰ-All _ procs (alive_of_lem s.0 procs);
}

abbrev three_alive : (ℕ → Bool) × (ℕ → Bool)
three_alive = ((λ p. leb 1 p && leb p 3), λ p. false)

clean_process_tree_example :
    let (end, s') = clean_process_tree system (some 15) three_alive in
    (end ≡ exit_by (some 15))
    × All
        (λ p. (system.is_alive p s' ≡ false) ⊎ (system.is_killed p s' ≡ true))
        (system.children three_alive)
clean_process_tree_example =
    clean_process_tree_lem system (some 15) three_alive system-Documented (λ p s. inl refl)
      (λ p s. elim (Bool-cases (s.0 p)) [ inl e ↦ rw e (inl refl) | inr e ↦ rw e (inr refl) ])

clean_process_tree_test :
    (system.children three_alive ≡ 1 ∷ 2 ∷ 3 ∷ [])
    × ((clean_process_tree system none three_alive).0 ≡ returned)
unfolding clean_process_tree range
clean_process_tree_test = (refl, refl)
