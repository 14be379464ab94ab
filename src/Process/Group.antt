-- ===== src/Process/Group.antt =====
-- `Process.start` and `Process.stop` of zproc/process.py, and `start` and `stop` of the `ProcessList` of
-- zproc/context.py.
pub mod Starting
use zproc.Prelude.{assertion_error, Result, ok, raise, ◌>>=◌, ℕ, Bool, true, Option, List, [], ◌∷◌}
use zproc.Task.Ids.{ℤ}

-- What zproc uses of a `multiprocessing.Process`, with `C` the type of its states.
pub record Backend (C : Type 0) : Type 0 where
  pub start_child : C → Result C
  pub terminate : C → Result C
  pub pid : C → Option ℕ
  pub exitcode : C → Option ℤ

-- The part of a `Process` that starting and stopping change.
pub record Parent (C : Type 0) : Type 0 where
  pub child : C
  pub is_closed : Bool

module _ {C : Type 0} (backend : Backend C) where
  unfoldable pub started : Parent C → Result C → Result (Option ℕ) × Parent C
  started p (raise e) = (raise e, p)
  started p (ok c) = (ok (backend.pid c), record p { child = c })

  -- `start`: the process ID.
  unfoldable pub start : Parent C → Result (Option ℕ) × Parent C
  unfolding started
  start p = started p (backend.start_child p.child)

  unfoldable pub terminated : Parent C → Result C → Result (Option ℤ) × Parent C
  terminated p (raise e) = (raise e, p)
  terminated p (ok c) = (ok (backend.exitcode c), record { child = c; is_closed = true })

  -- `stop`, with `_cleanup`: the exitcode.
  unfoldable pub stop : Parent C → Result (Option ℤ) × Parent C
  unfolding terminated
  stop p = terminated p (backend.terminate p.child)

  -- One round of `for process in self`, with the processes after it and what the loop makes of them:
  -- the `suppress(AssertionError)` is around the loop.
  unfoldable pub start_next :
      Result (Option ℕ) × Parent C
      → List (Parent C)
      → Result (Unit {0}) × List (Parent C)
      → Result (Unit {0}) × List (Parent C)
  start_next (ok pid, p) ps (r, qs) = (r, p ∷ qs)
  start_next (raise assertion_error, p) ps rest = (ok tt, p ∷ ps)
  start_next (raise e, p) ps rest = (raise e, p ∷ ps)

  -- `ProcessList.start`
  unfoldable pub start_all : List (Parent C) → Result (Unit {0}) × List (Parent C)
  unfolding start_next start
  start_all [] = (ok tt, [])
  start_all (p ∷ ps) = let rest = start_all ps in start_next (start p) ps rest

  unfoldable pub stop_next :
      Result (Option ℤ) × Parent C
      → List (Parent C)
      → Result (List (Option ℤ)) × List (Parent C)
      → Result (List (Option ℤ)) × List (Parent C)
  stop_next (ok code, p) ps (r, qs) = (do codes ← r; ok (code ∷ codes), p ∷ qs)
  stop_next (raise e, p) ps rest = (raise e, p ∷ ps)

  -- `ProcessList.stop`
  unfoldable pub stop_all : List (Parent C) → Result (List (Option ℤ)) × List (Parent C)
  unfolding stop_next stop
  stop_all [] = (ok [], [])
  stop_all (p ∷ ps) = let rest = stop_all ps in stop_next (stop p) ps rest
