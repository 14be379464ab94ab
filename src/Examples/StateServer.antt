-- ===== src/Examples/StateServer.antt =====
-- A state server whose dicts are numbers: a method adds to the number and returns the old one, a
-- function multiplies it, and results of 100 and more cannot be pickled,
-- and numbers of 1000 and more cannot be copied.

use zproc.Prelude.{
  ltb, ◌==◌, if◌then◌else◌, ==_iff, length, All, value_error, type_error, key_error, ok, raise,
  Bytes, bytes_eq, ℕ, zero, suc, ◌+◌, ◌*◌, ◌≡◌, refl, true, false, none, List, [], ◌∷◌, ◌++◌, arith,
}
use zproc.State.Server.{
  Env, run_fn_atomically, run_dict_method, set_state, on_state, returned, remote_exception, Watch,
  StateServer, first_accepted, resolve_watcher, resolve_all, resolve_pending,
}
use zproc.State.Handlers.{log_entry, serve_request}
use zproc.State.Server.Contract.{IsValid, view, command_spec}
use zproc.State.Server.Atomic.{serve_request_atomic}
use zproc.State.Server.Runs.{run_refines}
use zproc.State.Server.Watchers.{
  first_wanted, IsOrdered, resolve_watcher_lem, unserved, due, resolve_pending_lem,
}
use zproc.State.Server.Times.{run-IsOrdered}
use zproc.State.Server.Unseen.{set_state_unseen}
use zproc.State.Server.Bisect.{bisect}
use zproc.State.Server.Bisect.Order.{IsSorted, Splits, bisect-Splits}
use zproc.State.Loop.{no_watch, watch, request, Tick, tick, run, init}
use zproc.State.Server.History.{IsLogged}

abbrev pub numbers : Env ℕ ℕ ℕ ℕ
numbers = record {
  empty = 0;
  deepcopy = λ d. if ltb d 1000 then ok d else raise type_error;
  same = λ d e. ok (d == e);
  call_method = λ m d. (if m == 0 then raise key_error else ok d, d + m);
  load_fn = λ f. if f == 0 then raise value_error else ok (λ d. (ok d, d * f));
  picklable = λ d. true;
  result_picklable = λ r. ltb r 100;
  error_picklable = λ e. true;
}

abbrev pub alice : Bytes
alice = 1 ∷ 1 ∷ 1 ∷ 1 ∷ 1 ∷ []

abbrev pub bob : Bytes
bob = 2 ∷ 2 ∷ 2 ∷ 2 ∷ 2 ∷ []

abbrev pub space : Bytes
space = 100 ∷ 101 ∷ []

-- Alice adds 7, Bob starts to watch and calls a method that fails, Alice multiplies by 3.
abbrev pub ticks : List (Tick ℕ ℕ ℕ)
ticks =
    record {
      from_watch = no_watch;
      from_state = request alice (on_state space (run_dict_method 7));
      stamp = 10;
    }
    ∷ record {
      from_watch = watch bob bob space false 10;
      from_state = request bob (on_state space (run_dict_method 0));
      stamp = 20;
    }
    ∷ record {
      from_watch = no_watch;
      from_state = request alice (on_state space (run_fn_atomically 3));
      stamp = 30;
    }
    ∷ []

abbrev pub served : StateServer ℕ ℕ
served = run numbers ticks (init numbers)

pub served-view : view numbers served space ≡ 21
unfolding view run tick init serve_request resolve_pending bytes_eq
served-view = refl

served_replies :
    served.replies
    ≡ (alice, returned 0) ∷ (bob, remote_exception key_error) ∷ (alice, returned 7) ∷ []
unfolding run tick init serve_request resolve_pending bytes_eq
served_replies = refl

pub served-IsValid : IsValid served
served-IsValid = (run_refines numbers ticks).2.1.1.0

pub numbers-IsLogged : IsLogged numbers
unfolding log_entry
numbers-IsLogged old new = (new == old, refl)

pub ticks-running : served.is_running ≡ true
unfolding run tick init serve_request resolve_pending bytes_eq
ticks-running = refl

served-IsOrdered : IsOrdered (served.history space)
served-IsOrdered =
    run-IsOrdered numbers ticks numbers-IsLogged ticks-running
      (omega arith, (omega arith, (omega arith, tt))) space

serve_request_atomic_example :
    let s' = serve_request numbers bob 40 (on_state space (run_dict_method 9)) served in
    ((ns' : Bytes)
      → view numbers s' ns' ≡ (
          if bytes_eq ns' space
          then (command_spec numbers (run_dict_method 9) (view numbers served space)).1
          else view numbers served ns'))
    × IsValid s'
serve_request_atomic_example =
    serve_request_atomic numbers bob 40 space (run_dict_method 9) served served-IsValid

abbrev from_bob : Watch
from_bob = record { s_ident = bob; namespace = space; identical_not_okay = true; only_after = 10 }

resolve_watcher_example :
    resolve_watcher served from_bob ≡ first_wanted from_bob (served.history space).updates
resolve_watcher_example = resolve_watcher_lem served from_bob served-IsOrdered

-- Two watchers are waiting, and the history has an update for the first.
abbrev watched : StateServer ℕ ℕ
watched = record served {
  pending =
      (bob, from_bob)
      ∷ (
        alice,
        record { s_ident = alice; namespace = space; identical_not_okay = true; only_after = 10 },
      )
      ∷ [];
}

resolve_pending_example :
    let s' = resolve_pending watched in
    (s'.pending ≡ unserved watched watched.pending)
    × (s'.published ≡ watched.published ++ due watched watched.pending)
    × All (λ p. resolve_watcher s' p.1 ≡ none) s'.pending
    × (resolve_pending s' ≡ s')
resolve_pending_example = resolve_pending_lem watched (
    run-IsOrdered numbers ticks numbers-IsLogged ticks-running
      (omega arith, (omega arith, (omega arith, tt))))

resolve_pending_test : length (resolve_pending watched).pending ≡ 1
unfolding resolve_pending resolve_all resolve_watcher first_accepted bisect run tick init
    serve_request bytes_eq
resolve_pending_test = refl

numbers-equal : (d old : ℕ) → numbers.deepcopy d ≡ ok old → numbers.same d old ≡ ok true
numbers-equal d old e = ground (arith, e, ==_iff d old)

served-equal :
    (old : ℕ)
    → numbers.deepcopy (view numbers served space) ≡ ok old
    → numbers.same (view numbers served space) old ≡ ok true
served-equal = numbers-equal (view numbers served space)

set_state_unseen_example :
    first_wanted from_bob
      ((serve_request numbers alice 40 (on_state space (set_state 5)) served).history space).updates
    ≡ first_wanted from_bob (served.history space).updates
set_state_unseen_example =
    set_state_unseen numbers alice 40 space 5 served from_bob numbers-IsLogged served-equal
      served-IsValid refl

abbrev times : List ℕ
times = 3 ∷ 5 ∷ 5 ∷ 9 ∷ []

times-IsSorted : IsSorted times
times-IsSorted zero j h k = ground (arith, h, k)
times-IsSorted (suc zero) j h k = ground (arith, h, k)
times-IsSorted (suc (suc zero)) j h k = ground (arith, h, k)
times-IsSorted (suc (suc (suc i))) j h k = ground (arith, h, k)

bisected : Splits times 5 (bisect times 5)
bisected = bisect-Splits times 5 times-IsSorted

-- A number of 1000 can be set, and not be copied: no call changes it, nor can it be set again.
refused_copy :
    let s = serve_request numbers bob 40 (on_state space (set_state 2000)) served in
    let s' = serve_request numbers bob 50 (on_state space (run_dict_method 1)) s in
    (view numbers s' space ≡ 2000)
    × (view numbers (serve_request numbers bob 60 (on_state space (set_state 3)) s') space ≡ 2000)
unfolding view run tick init serve_request resolve_pending bytes_eq
refused_copy = (refl, refl)

-- The same server when no exception can be pickled: the failing call of Bob ends it.
abbrev shy : Env ℕ ℕ ℕ ℕ
shy = record numbers { error_picklable = λ e. false }

ended :
    let s = run shy ticks (init shy) in
    (s.is_running ≡ false) × (view shy s space ≡ 7) × (s.replies ≡ (alice, returned 0) ∷ [])
unfolding view run tick init serve_request resolve_pending bytes_eq
ended = (refl, refl, refl)
