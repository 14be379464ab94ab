-- ===== src/Exceptions/Rollback.antt =====
-- How far `exception_to_signal` undoes `signal_to_exception`.
use zproc.Prelude.{ℕ, ◌≡◌, refl, ap, ◌↔◌, arith}
use zproc.Exceptions.{
  Disposition, sig_dfl, sig_exc_handler, signals, signum, set_handler, signal_to_exception,
  exception_to_signal,
}

-- After `signal_to_exception` the signal raises a SignalException. `exception_to_signal` of that
-- exception, or of the signal, then gives back the handlers of all signals as they were before exactly
-- if the signal had the default of the system: a handler of the program is lost.
pub exception_to_signal-signal_to_exception :
    (sig : ℕ) (before : ℕ → Disposition)
    → let (e, during) = signal_to_exception sig before in
      (during sig ≡ sig_exc_handler)
      × ((exception_to_signal e during ≡ exception_to_signal (signals sig) during)
          × (((m : ℕ) → exception_to_signal e during m ≡ before m) ↔ (before sig ≡ sig_dfl)))
unfolding signal_to_exception exception_to_signal set_handler signum
exception_to_signal-signal_to_exception sig before = (
  ground arith,
  (
    refl,
    (
      λ same. ground (arith, same sig),
      λ default m. ground (arith, default, ap before {x = m} {y = sig}),
    ),
  ),
)
