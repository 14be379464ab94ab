-- ===== src/Process/Tree.antt =====
-- `clean_process_tree` of zproc/util.py, which stops all processes below its own. `S` is the state of
-- the system, and `P` the type of psutil's processes.
pub mod Cleaned
use zproc.Prelude.{Error, ℕ, Bool, Option, none, some, List, [], ◌∷◌}

-- How a call of a method of a psutil process ends.
pub data Signalled : Type 0 where
  sent no_such_process : Signalled
  failed : Error → Signalled

-- What is used of psutil; `is_alive`, and `is_killed`, whether a SIGKILL has been sent, are there for the
-- theorem only.
pub record Psutil (S P : Type 0) : Type 0 where
  -- children(recursive=True), of the process itself
  pub children : S → List P
  pub terminate : P → S → Signalled × S
  -- wait_procs(procs, timeout=0.5): those that are still alive
  pub wait_procs : List P → S → List P × S
  pub kill : P → S → Signalled × S
  pub is_alive : P → S → Bool
  pub is_killed : P → S → Bool

-- How `clean_process_tree` ends: it returns, raises, or ends the process by `os._exit`.
pub data CleanUp : Type 0 where
  returned : CleanUp
  raised : Error → CleanUp
  exited : ℕ → CleanUp

-- With or without `signal_handler_args[0]`
unfoldable pub exit_by : Option ℕ → CleanUp
exit_by none = returned
exit_by (some signum) = exited signum

module _ {S P : Type 0} (psutil : Psutil S P) where
  -- One round of the loop below: a NoSuchProcess is suppressed, another exception ends it.
  unfoldable pub signal_next : Signalled × S → (S → Option Error × S) → Option Error × S
  signal_next (sent, s) rest = rest s
  signal_next (no_such_process, s) rest = rest s
  signal_next (failed e, s) rest = (some e, s)

  -- `for p in procs: with suppress(psutil.NoSuchProcess): method(p)`
  unfoldable pub signal_all : (P → S → Signalled × S) → List P → S → Option Error × S
  unfolding signal_next
  signal_all method [] s = (none, s)
  signal_all method (p ∷ ps) s = signal_next (method p s) (signal_all method ps)

  -- after the last loop,
  unfoldable pub leave : Option ℕ → Option Error × S → CleanUp × S
  unfolding exit_by
  leave signum (none, s) = (exit_by signum, s)
  leave signum (some e, s) = (raised e, s)

  -- and after the first.
  unfoldable pub kill_rest : Option ℕ → List P → Option Error × S → CleanUp × S
  unfolding leave signal_all
  kill_rest signum procs (some e, s) = (raised e, s)
  kill_rest signum procs (none, s) =
      let (alive, s') = psutil.wait_procs procs s in leave signum (signal_all psutil.kill alive s')

  unfoldable pub clean_process_tree : Option ℕ → S → CleanUp × S
  unfolding kill_rest signal_all
  clean_process_tree signum s =
      let procs = psutil.children s in kill_rest signum procs (signal_all psutil.terminate procs s)
