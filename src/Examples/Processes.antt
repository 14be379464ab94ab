-- ===== src/Examples/Processes.antt =====
-- A child that fails twice and then returns a value, and a list of processes.

use zproc.Prelude.{
  ltb, if◌then◌else◌, connection_error, ℕ, ◌+◌, ◌%◌, ◌≡◌, refl, Bool, true, false, none, some, [],
  ◌∷◌, arith,
}
use zproc.Task.Ids.{pos, negsuc}
use zproc.Process.Child.{
  Raised, exception, Ending, returns, process_exit, raises, ChildProcess, Finished, target_wrapper,
  main,
}
use zproc.Process.Child.Retry.{EndsAt, target_wrapper_lem}
use zproc.Process.Handle.{ChildStatus, got, Process, wait, wait_safe, wait_all}
use zproc.Process.Handle.Waiting.{first_failure, wait_all_lem}
use zproc.Process.Outcome.{unread, outcome_of, status_of, wait-main}

abbrev flaky : ℕ → ℕ → Ending ℕ
flaky n i = if ltb i 3 then raises (exception connection_error) else returns (n + i)

abbrev is_connection_error : Raised → Bool
is_connection_error (exception connection_error) = true
is_connection_error _ = false

abbrev child : ChildProcess ℕ
child = record {
  max_retries = some 4;
  retry_delay = 2;
  retry_args = some 1000;
  to_catch = is_connection_error ∷ [];
  target_args = 10;
  exitcode = 0;
  retries = 0;
  converted = [];
  reports = [];
  slept = 0;
}

target_wrapper_example :
    let (r, c') = target_wrapper flaky 5 child.target_args child in
    EndsAt flaky child.target_args child.to_catch 4 1 c'.retries r
target_wrapper_example = target_wrapper_lem flaky 5 4 child refl refl (omega arith)

-- The value is that of the first arguments, though `retry_args` is given.
child_test : (main flaky 5 child).0 ≡ some (some 13)
unfolding main target_wrapper
child_test = refl

abbrev ended_well : ChildStatus ℕ
ended_well = record { is_alive = false; exitcode = some (pos 0); inbox = some 13 }

abbrev killed : ChildStatus ℕ
killed = record { is_alive = false; exitcode = some (negsuc 8); inbox = none }

abbrev fresh_process : Process ℕ
fresh_process = record { cached = none; is_closed = false }

wait_all_example :
    (wait_all true
      ((ended_well, fresh_process) ∷ (killed, fresh_process) ∷ (ended_well, fresh_process) ∷ [])).0
    ≡ first_failure
        (wait_safe true (
          (ended_well, fresh_process)
          ∷ (killed, fresh_process)
          ∷ (ended_well, fresh_process)
          ∷ [])).0
wait_all_example =
    wait_all_lem true
      ((ended_well, fresh_process) ∷ (killed, fresh_process) ∷ (ended_well, fresh_process) ∷ [])

wait-main_example :
    (n : ℕ) × (r : Finished ℕ) × (EndsAt flaky child.target_args child.to_catch 4 1 n r
      × ((wait false (status_of (λ code. code % 256) (main flaky 5 child)) unread).0
          ≡ outcome_of (λ code. code % 256) (flaky child.target_args n)))
wait-main_example =
    wait-main (λ code. code % 256) flaky 5 4 child false refl refl refl refl (omega arith)

-- A process that exits with 256 counts as one that ended well.
exit_256 : outcome_of {V = ℕ} (λ code. code % 256) (process_exit 256) ≡ got none
unfolding outcome_of
exit_256 = refl
