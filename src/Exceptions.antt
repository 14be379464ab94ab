-- ===== src/Exceptions.antt =====
-- zproc/exceptions.py: signals that raise an exception and back, and how a `RemoteException` is pickled
-- and raised again. (`Raised` of Process/Child has the SignalException and the other exceptions.)
pub mod Pickling
pub mod Rollback
use zproc.Prelude.{◌==◌, if◌then◌else◌, ℕ, Option, none, some}

-- What a signal does in the process: the default of the system (SIG_DFL), a raised SignalException, or
-- another handler, by a number.
pub data Disposition : Type 0 where
  sig_dfl sig_exc_handler : Disposition
  other_handler : ℕ → Disposition

-- A `signal.Signals`, or a SignalException.
pub data Signal : Type 0 where
  signals : ℕ → Signal
  signal_exception : ℕ → Signal

unfoldable pub signum : Signal → ℕ
signum (signals n) = n
signum (signal_exception n) = n

-- `signal.signal(n, handler)`
unfoldable pub set_handler : ℕ → Disposition → (ℕ → Disposition) → ℕ → Disposition
set_handler n handler dispositions m = if m == n then handler else dispositions m

unfoldable pub signal_to_exception : ℕ → (ℕ → Disposition) → Signal × (ℕ → Disposition)
unfolding set_handler
signal_to_exception sig dispositions =
    (signal_exception sig, set_handler sig sig_exc_handler dispositions)

unfoldable pub exception_to_signal : Signal → (ℕ → Disposition) → ℕ → Disposition
unfolding set_handler signum
exception_to_signal sig dispositions = set_handler (signum sig) sig_dfl dispositions

-- The process and the signal of the `os.kill`.
unfoldable pub send_signal : ℕ → Signal → Option ℕ → ℕ × ℕ
unfolding signum
send_signal own_pid sig none = (own_pid, signum sig)
send_signal own_pid sig (some pid) = (pid, signum sig)

-- `sys.exc_info()`: the class, the value and the traceback.
pub record RemoteException (E T : Type 0) : Type 0 where
  pub exc_type : ℕ
  pub value : E
  pub traceback : T

module _ {E T P : Type 0} (pickle_traceback : T → P) (unpickle_traceback : P → T) where
  -- `__reduce__`: what is pickled.
  unfoldable pub reduce : RemoteException E T → ℕ × (E × P)
  reduce e = (e.exc_type, (e.value, pickle_traceback e.traceback))

  unfoldable pub from_pickled_state : ℕ × (E × P) → RemoteException E T
  from_pickled_state (exc_type, (value, pickled_tb)) = record {
    exc_type = exc_type;
    value = value;
    traceback = unpickle_traceback pickled_tb;
  }

-- `reraise`: the value, with the traceback on it.
unfoldable pub reraise : {E T : Type 0} → RemoteException E T → E × T
reraise e = (e.value, e.traceback)
