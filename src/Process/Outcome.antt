-- ===== src/Process/Outcome.antt =====
-- A child process (zproc/child.py) and the parent that waits for it (`Process.wait` of
-- zproc/process.py).

use zproc.Prelude.{
  ltb, ◌==◌, if◌then◌else◌, Bool-cases, Option-cases, ℕ, zero, suc, ◌+◌, ◌<◌, ◌≡◌, refl, sym, ap,
  ◌∙◌, ◌≢◌, ◌⊎◌, inl, inr, Bool, false, Option, none, some, List, arith,
}
use zproc.Process.Child.{
  Raised, Ending, returns, process_exit, raises, is_caught, ChildProcess, Finished, value, crashed,
  no_fuel, report, handle_retry, set_retry_args, count_try, target_wrapper, send_result, main,
}
use zproc.Process.Child.Retry.{finished, EndsAt, Ending-cases, target_wrapper_lem}
use zproc.Task.Ids.{pos}
use zproc.Process.Handle.{
  ChildStatus, process_wait_error, Waited, got, failed, Process, is_zero, read_result, wait,
}

-- The exit code with which a child ends, from how the last call of its target ends.
unfoldable pub code_of : {V : Type 0} → Ending V → ℕ
code_of (returns v) = 0
code_of (process_exit code) = code
code_of (raises e) = 0

module _ {A V : Type 0} (target : A → ℕ → Ending V) (args : A) where
  -- Whether the exit code is that of the last call.
  unfoldable pub HasCode : Finished V × ChildProcess A → Type 0
  unfolding code_of
  HasCode (r, c) = (r ≡ no_fuel) ⊎ (c.exitcode ≡ code_of (target args c.retries))

  handle_retry-exitcode :
      (e : Raised) (c : ChildProcess A)
      → elim (handle_retry e c) [ none ↦ c.exitcode | some c' ↦ c'.exitcode ] ≡ c.exitcode
  unfolding handle_retry report
  handle_retry-exitcode e c = elim (Option-cases c.max_retries) [
    | inl o ↦ rw o
    | inr (m, o) ↦ elim (Bool-cases (ltb m c.retries)) [ inl b ↦ rw (o, b) | inr b ↦ rw (o, b) ]
  ]

  same_exitcode :
      (e : Raised) (c c' : ChildProcess A)
      → handle_retry e c ≡ some c'
      → (set_retry_args c').exitcode ≡ c.exitcode
  unfolding set_retry_args
  same_exitcode e c c' o =
      sym (
        ap
          (λ (found : Option (ChildProcess A)). elim found [
            | none ↦ c.exitcode
            | some d ↦ d.exitcode
          ])
          o)
      ∙ handle_retry-exitcode e c

  target_wrapper-HasCode :
      (fuel : ℕ) (c : ChildProcess A) → c.exitcode ≡ 0 → HasCode (target_wrapper target fuel args c)
  unfolding target_wrapper HasCode code_of count_try
  target_wrapper-HasCode zero c zero_code = inl refl
  target_wrapper-HasCode (suc fuel) c zero_code =
      let wrapped = target_wrapper target (suc fuel) args c in
      let n = c.retries + 1 in
      elim (Ending-cases target args c.to_catch (target args n)) [
        | inl (v, e) ↦
            let w : wrapped ≡ (value (some v), count_try c) = ground (arith, e) in
            rw w (inr (rw e zero_code))
        | inr (inl (code, e)) ↦
            let w : wrapped ≡ (value none, record (count_try c) { exitcode = code }) =
              ground (arith, e) in
            rw w (inr (rw e refl))
        | inr (inr (x, e)) ↦
            let ended : HasCode (crashed x, count_try c) = inr (rw e zero_code) in
            elim (Bool-cases (is_caught c.to_catch x)) [
              | inr b ↦
                  let w : wrapped ≡ (crashed x, count_try c) = ground (arith, e, b) in rw w ended
              | inl b ↦ elim (Option-cases (handle_retry x (count_try c))) [
                | inl o ↦
                    let w : wrapped ≡ (crashed x, count_try c) = ground (arith, e, b, o) in
                    rw w ended
                | inr (c', o) ↦
                    let w : wrapped ≡ target_wrapper target fuel args (set_retry_args c') =
                      ground (arith, e, b, o) in
                    rw w (
                      target_wrapper-HasCode fuel (set_retry_args c')
                        (same_exitcode x (count_try c) c' o ∙ zero_code))
              ]
            ]
      ]

finished-fuel :
    {A V : Type 0} (target : A → ℕ → Ending V) (args : A) (to_catch : List (Raised → Bool))
    (o : Ending V)
    → finished target args to_catch o ≢ no_fuel
unfolding finished
finished-fuel target args to_catch (returns v) = ground arith
finished-fuel target args to_catch (process_exit code) = ground arith
finished-fuel target args to_catch (raises e) = ground arith

module _ {V : Type 0} where
  abbrev pub unread : Process (Option V)
  unread = record { cached = none; is_closed = false }

  -- What the parent is to get, from how the last call of the target ends.
  unfoldable pub outcome_of : (ℕ → ℕ) → Ending V → Waited (Option V)
  outcome_of exit_status (returns v) = got (some v)
  outcome_of exit_status (process_exit code) =
      if exit_status code == 0
      then got none
      else failed (process_wait_error (some (pos (exit_status code))))
  outcome_of exit_status (raises e) = failed (process_wait_error (some (pos 0)))

module _ {A V : Type 0} (exit_status : ℕ → ℕ) where
  -- What the parent finds when the child has ended: the system makes a status of the exit code, and the
  -- message is on the result socket if the child has sent one.
  unfoldable pub status_of : Option (Option V) × ChildProcess A → ChildStatus (Option V)
  status_of (sent, c) = record {
    is_alive = false;
    exitcode = some (pos (exit_status c.exitcode));
    inbox = sent;
  }

  wait-outcome_of :
      (has_timeout : Bool) (o : Ending V) (c : ChildProcess A) (target : A → ℕ → Ending V)
      (args : A) (to_catch : List (Raised → Bool))
      → exit_status 0 ≡ 0
      → c.exitcode ≡ code_of o
      → (wait has_timeout
          (status_of (send_result target (finished target args to_catch o, c)))
          unread).0
        ≡ outcome_of exit_status o
  unfolding wait read_result is_zero status_of outcome_of send_result finished code_of
  wait-outcome_of has_timeout (returns v) c target args to_catch zero_status h = rw (h, zero_status)
  wait-outcome_of has_timeout (process_exit n) c target args to_catch zero_status h =
      elim (Bool-cases (exit_status n == 0)) [ inl b ↦ rw (h, b) | inr b ↦ rw (h, b) ]
  wait-outcome_of has_timeout (raises x) c target args to_catch zero_status h = rw (h, zero_status)

  -- `wait` of the parent, after the child has run its target up to the n-th time and ended: it gives what
  -- that call returned. After a ProcessExit it gives None if its exit code counts as success, and else
  -- raises a ProcessWaitError with the code; after an exception it raises one with the code 0. The n-th
  -- call is the first that is not tried again, or the last that `max_retries` allows. Hypotheses: the
  -- child and the process are new, one more than `max_retries` is the least fuel, and the exit code 0
  -- gives the status 0.
  pub wait-main :
      (target : A → ℕ → Ending V) (fuel m : ℕ) (c : ChildProcess A) (has_timeout : Bool)
      → exit_status 0 ≡ 0
      → c.max_retries ≡ some m
      → c.retries ≡ 0
      → c.exitcode ≡ 0
      → m < fuel
      → (n : ℕ) × (r : Finished V) × (EndsAt target c.target_args c.to_catch m 1 n r
          × ((wait has_timeout (status_of (main target fuel c)) unread).0
              ≡ outcome_of exit_status (target c.target_args n)))
  unfolding main HasCode
  wait-main target fuel m c has_timeout zero_status max fresh zero_code enough =
      let (r, c') = target_wrapper target fuel c.target_args c in
      let ends = target_wrapper_lem target fuel m c max fresh enough in
      let ran : (wait has_timeout (status_of (send_result target (r, c'))) unread).0
          ≡ outcome_of exit_status (target c.target_args c'.retries) =
        elim (target_wrapper-HasCode target c.target_args fuel c zero_code) [
          | inl none_left ↦ absurd (
              finished-fuel target c.target_args c.to_catch (target c.target_args c'.retries)
                (sym ends.result ∙ none_left))
          | inr code ↦
              ap (λ f. (wait has_timeout (status_of (send_result target (f, c'))) unread).0)
                ends.result
              ∙ wait-outcome_of has_timeout (target c.target_args c'.retries) c' target
                  c.target_args c.to_catch zero_status code
        ] in
      (c'.retries, r, (ends, ran))
