-- ===== src/Exceptions/Pickling.antt =====
-- A `RemoteException` that goes to another process.

use zproc.Prelude.{◌≡◌}
use zproc.Exceptions.{RemoteException, reduce, from_pickled_state, reraise}

-- It raises there the same value with the same traceback, if tblib gives a traceback back.
pub reraise-from_pickled_state :
    {E T P : Type 0} (pickle_traceback : T → P) (unpickle_traceback : P → T)
    (e : RemoteException E T)
    → unpickle_traceback (pickle_traceback e.traceback) ≡ e.traceback
    → reraise (
        from_pickled_state pickle_traceback unpickle_traceback
          (reduce pickle_traceback unpickle_traceback e))
      ≡ reraise e
unfolding reraise from_pickled_state reduce
reraise-from_pickled_state pickle_traceback unpickle_traceback e back = rw back
