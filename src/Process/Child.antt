-- ===== src/Process/Child.antt =====
-- `ChildProcess` of zproc/child.py, with `to_catchable_exc` of zproc/util.py: the loop of `main` that
-- runs the target again after an exception, and how the process ends.
pub mod Retry
use zproc.Prelude.{
  ltb, leb, ◌==◌, if◌then◌else◌, Error, value_error, Result, ok, raise, ◌>>=◌, ℕ, zero, suc, ◌+◌,
  Bool, true, false, ◌||◌, Option, none, some, List, [], ◌∷◌, ◌++◌,
}

-- What is raised: a SignalException with the number of its signal, or an exception of another class.
pub data Raised : Type 0 where
  signal_exception : ℕ → Raised
  exception : Error → Raised

-- What a call of the target does.
pub data Ending (V : Type 0) : Type 0 where
  returns : V → Ending V
  process_exit : ℕ → Ending V
  raises : Raised → Ending V

-- One item of `retry_for`: a signal, a class of exceptions, by its instances, or anything else.
pub data RetryFor : Type 0 where
  signal_item : ℕ → RetryFor
  class_item : (Raised → Bool) → RetryFor
  other_item : RetryFor

unfoldable pub is_signal_exception : Raised → Bool
is_signal_exception (signal_exception n) = true
is_signal_exception (exception e) = false

-- `to_catchable_exc`: the classes to catch, and the signals that now raise a SignalException.
unfoldable pub to_catchable_items : List RetryFor → Result (List ℕ × List (Raised → Bool))
to_catchable_items [] = ok ([], [])
to_catchable_items (signal_item n ∷ items) = do
  rest ← to_catchable_items items
  ok (n ∷ rest.0, rest.1)
to_catchable_items (class_item test ∷ items) = do
  rest ← to_catchable_items items
  ok (rest.0, test ∷ rest.1)
to_catchable_items (other_item ∷ items) = raise value_error

unfoldable pub to_catchable_exc : Option (List RetryFor) → Result (List ℕ × List (Raised → Bool))
unfolding to_catchable_items
to_catchable_exc none = ok ([], [])
to_catchable_exc (some items) = do
  rest ← to_catchable_items items
  ok (rest.0, is_signal_exception ∷ rest.1)

-- `except self.to_catch`
unfoldable pub is_caught : List (Raised → Bool) → Raised → Bool
is_caught [] e = false
is_caught (test ∷ tests) e = let rest = is_caught tests e in test e || rest

pub record ChildProcess (A : Type 0) : Type 0 where
  pub max_retries : Option ℕ
  pub retry_delay : ℕ
  pub retry_args : Option A
  pub to_catch : List (Raised → Bool)
  -- the arguments, positional and by keyword
  pub target_args : A
  pub exitcode : ℕ
  pub retries : ℕ
  -- the signals that raise a SignalException
  pub converted : List ℕ
  pub reports : List Raised
  pub slept : ℕ

unfoldable pub remove_signal : ℕ → List ℕ → List ℕ
remove_signal n [] = []
remove_signal n (m ∷ ms) = let rest = remove_signal n ms in if m == n then rest else m ∷ rest

-- `exceptions.exception_to_signal(e)`, if it is a SignalException
unfoldable pub exception_to_signal : Raised → List ℕ → List ℕ
unfolding remove_signal
exception_to_signal (signal_exception n) converted = remove_signal n converted
exception_to_signal (exception e) converted = converted

-- How `target_wrapper` ends. `no_fuel` belongs to the model only.
pub data Finished (V : Type 0) : Type 0 where
  -- `none` is the None of a ProcessExit
  value : Option V → Finished V
  crashed : Raised → Finished V
  no_fuel : Finished V

module _ {A : Type 0} where
  unfoldable pub report : Raised → ChildProcess A → ChildProcess A
  report e c = record c { reports = c.reports ++ e ∷ []; slept = c.slept + c.retry_delay }

  -- `_handle_exc(e, handle_retry=True)`: `none` if it raises `e` again.
  unfoldable pub handle_retry : Raised → ChildProcess A → Option (ChildProcess A)
  unfolding report exception_to_signal
  handle_retry e c = elim c.max_retries [
    | none ↦ some (report e c)
    | some m ↦
        let restored = if leb m c.retries then exception_to_signal e c.converted else c.converted in
        if ltb m c.retries then none else some (report e (record c { converted = restored }))
  ]

  -- The assignments to `self.target_args` and `self.target_kwargs`
  unfoldable pub set_retry_args : ChildProcess A → ChildProcess A
  set_retry_args c = record c {
    target_args = elim c.retry_args [ none ↦ c.target_args | some args ↦ args ];
  }

  unfoldable pub count_try : ChildProcess A → ChildProcess A
  count_try c = record c { retries = c.retries + 1 }

-- `target args n` is what the n-th call of the target does.
module _ {A V : Type 0} (target : A → ℕ → Ending V) where
  -- target_wrapper(*args, **kwargs)
  unfoldable pub target_wrapper : ℕ → A → ChildProcess A → Finished V × ChildProcess A
  unfolding count_try is_caught handle_retry set_retry_args
  target_wrapper zero args c = (no_fuel, c)
  target_wrapper (suc fuel) args c =
      let c' = count_try c in
      elim (target args c'.retries) [
        | returns v ↦ (value (some v), c')
        | process_exit code ↦ (value none, record c' { exitcode = code })
        | raises e ↦ elim (is_caught c'.to_catch e) [
          | false ↦ (crashed e, c')
          | true ↦ elim (handle_retry e c') [
            | none ↦ (crashed e, c')
            | some c'' ↦ target_wrapper fuel args (set_retry_args c'')
          ]
        ]
      ]

  -- What `main` sends on the result socket, after which the process exits with `exitcode`. An
  -- exception of the target is reported, and nothing is sent.
  unfoldable pub send_result : Finished V × ChildProcess A → Option (Option V) × ChildProcess A
  send_result (value v, c) = (some v, c)
  send_result (crashed e, c) = (none, record c { reports = c.reports ++ e ∷ [] })
  send_result (no_fuel, c) = (none, c)

  unfoldable pub main : ℕ → ChildProcess A → Option (Option V) × ChildProcess A
  unfolding target_wrapper send_result
  main fuel c = send_result (target_wrapper fuel c.target_args c)
