-- ===== src/Examples/Watching.antt =====
-- Watchers on servers that have run: the one with numbers, and one whose dicts map numbers to numbers.

use zproc.Prelude.{
  ◌==◌, if◌then◌else◌, length, value_error, ok, raise, bytes_eq, ℕ, ◌%◌, ◌<◌, ◌≡◌, refl, Bool, true,
  false, Option, none, some, List, [], ◌∷◌, ◌++◌, map, arith,
}
use zproc.State.Server.{Env, run_dict_method, on_state, now, Watch, resolve_all, resolve_pending}
use zproc.State.Loop.{no_watch, request, Tick, tick, run, init}
use zproc.State.Server.Log.{run_log, run_history}
use zproc.State.Server.Runs.{tick_spec, run_spec}
use zproc.State.Server.Watchers.{wants}
use zproc.State.Watcher.{StateUpdate, state_update, StateWatcher, stopped, blocked, collect}
use zproc.State.Watcher.Limits.{limited, room_of}
use zproc.State.Watcher.Buffered.{wanted}
use zproc.State.Watcher.Iteration.{picked}
use zproc.State.Watcher.Served.{Advances, server_reply, collect_served}
use zproc.State.Watcher.SinceTime.{time_tick, collect_since}
use zproc.State.Start.{Options, new_watcher, when_change}
use zproc.State.Start.Changes.{asked_updates, Iterates, when_change_served}
use zproc.State.When.{when_change_callback}
use zproc.Examples.StateServer.{numbers, alice, bob, space, ticks, numbers-IsLogged, ticks-running}
use zproc.Examples.Clients.{objects}
use zproc.State.Handlers.{log_entry, serve_request}
use zproc.State.Server.History.{IsLogged}

abbrev clock : ℕ → ℕ
clock turn = turn

run_history_example :
    ((run numbers ticks (init numbers)).history space).updates
    ≡ run_log numbers space ticks (λ ns. 0)
run_history_example = run_history numbers ticks space numbers-IsLogged ticks-running

run_history_test :
    map (λ u. u.before ∷ u.after ∷ u.stamp ∷ []) (run_log numbers space ticks (λ ns. 0))
    ≡ (0 ∷ 7 ∷ 10 ∷ []) ∷ (7 ∷ 21 ∷ 30 ∷ []) ∷ []
unfolding run_log tick_spec bytes_eq
run_history_test = refl

abbrev even_only : StateUpdate ℕ → Option ℕ
even_only u = if u.after % 2 == 0 then some u.after else none

abbrev by_bob : Watch
by_bob = record { s_ident = bob; namespace = space; identical_not_okay = true; only_after = 0 }

abbrev from_start : StateWatcher
from_start = record {
  live = false;
  timeout = none;
  iter_limit = none;
  only_after = 0;
  iters = 0;
  turn = 0;
}

ticks-Advances : Advances 0 ticks
ticks-Advances = (omega arith, (omega arith, (omega arith, tt)))

collect_served_example :
    collect
      (server_reply (run numbers ticks (init numbers)) by_bob)
      clock
      (λ u. ok (some u.after))
      5
      from_start
    ≡ limited
        (room_of from_start)
        (picked (λ u. some u.after) (wanted by_bob 0 (run_log numbers space ticks (λ ns. 0))))
collect_served_example =
    collect_served numbers ticks clock (λ u. ok (some u.after)) (λ u. some u.after) by_bob
      from_start 5 numbers-IsLogged ticks-running ticks-Advances (λ u. refl) refl refl
      (unfold run_log bytes_eq tick_spec in omega arith)

collect_served_test :
    limited
      (room_of from_start)
      (picked (λ u. some u.after) (wanted by_bob 0 (run_log numbers space ticks (λ ns. 0))))
    ≡ (7 ∷ 21 ∷ [], blocked)
unfolding picked wanted wants bytes_eq state_update limited room_of run_log tick_spec
collect_served_test = refl

-- Bob asks for the time, and Alice adds 4.
abbrev later_ticks : List (Tick ℕ ℕ ℕ)
later_ticks =
    record {
      from_watch = no_watch;
      from_state = request alice (on_state space (run_dict_method 4));
      stamp = 50;
    }
    ∷ []

abbrev since_time : StateWatcher
since_time = record {
  live = false;
  timeout = none;
  iter_limit = some 3;
  only_after = 40;
  iters = 0;
  turn = 0;
}

all_ticks-Advances : Advances 0 (ticks ++ time_tick bob space 40 ∷ later_ticks)
unfolding time_tick
all_ticks-Advances = (omega arith, (omega arith, (omega arith, (omega arith, (omega arith, tt)))))

few : length (run_log numbers space (ticks ++ time_tick bob space 40 ∷ later_ticks) (λ ns. 0)) < 9
unfolding run_log tick_spec bytes_eq time_tick
few = omega arith

later-running :
    (run numbers (ticks ++ time_tick bob space 40 ∷ later_ticks) (init numbers)).is_running ≡ true
unfolding run tick init resolve_pending resolve_all serve_request bytes_eq time_tick
later-running = refl

collect_since_example :
    ((run numbers (ticks ++ time_tick bob space 40 ∷ []) (init numbers)).replies
      ≡ (run numbers ticks (init numbers)).replies ++ (bob, now 40) ∷ [])
    × (collect
          (server_reply
            (run numbers (ticks ++ time_tick bob space 40 ∷ later_ticks) (init numbers))
            by_bob)
          clock
          (λ u. ok (some u.after))
          9
          since_time
        ≡ limited (room_of since_time) (
            picked
              (λ u. some u.after)
              (wanted by_bob 0 (
                run_log numbers space later_ticks
                  (run_spec numbers (ticks ++ time_tick bob space 40 ∷ []) (λ ns. 0))))))
collect_since_example =
    collect_since numbers ticks bob space 40 later_ticks clock (λ u. ok (some u.after))
      (λ u. some u.after) by_bob since_time 9 numbers-IsLogged later-running all_ticks-Advances
      (λ u. refl) refl refl refl few

collect_since_test :
    picked
      (λ u. some u.after)
      (wanted by_bob 0 (
        run_log numbers space later_ticks
          (run_spec numbers (ticks ++ time_tick bob space 40 ∷ []) (λ ns. 0))))
    ≡ 25 ∷ []
unfolding picked wanted wants bytes_eq state_update run_log tick_spec run_spec time_tick
collect_since_test = refl

-- A method that sets a key.
abbrev same_dict : List (ℕ × ℕ) → List (ℕ × ℕ) → Bool
same_dict d e =
    bytes_eq (map (λ p. p.0) d ++ map (λ p. p.1) d) (map (λ p. p.0) e ++ map (λ p. p.1) e)

abbrev mappings : Env (List (ℕ × ℕ)) (ℕ × ℕ) ℕ ℕ
mappings = record {
  empty = [];
  deepcopy = λ d. ok d;
  same = λ d e. ok (same_dict d e);
  call_method = λ m d. (ok 0, m ∷ d);
  load_fn = λ f. raise value_error;
  picklable = λ d. true;
  result_picklable = λ r. true;
  error_picklable = λ e. true;
}

abbrev set_key : ℕ → ℕ → ℕ → Tick (List (ℕ × ℕ)) (ℕ × ℕ) ℕ
set_key k v t = record {
  from_watch = no_watch;
  from_state = request alice (on_state space (run_dict_method (k, v)));
  stamp = t;
}

abbrev key_ticks : List (Tick (List (ℕ × ℕ)) (ℕ × ℕ) ℕ)
key_ticks = set_key 1 10 5 ∷ set_key 2 20 6 ∷ set_key 1 11 7 ∷ set_key 1 12 8 ∷ []

abbrev first_two : Options
first_two = record {
  live = false;
  timeout = none;
  identical_okay = false;
  start_time = some 5;
  count = some 1;
}

key_ticks_few : length (run_log mappings space key_ticks (λ ns. [])) < 9
unfolding run_log tick_spec bytes_eq
key_ticks_few = omega arith

mappings-IsLogged : IsLogged mappings
unfolding log_entry
mappings-IsLogged old new = (same_dict new old, refl)

key_ticks-running : (run mappings key_ticks (init mappings)).is_running ≡ true
unfolding run tick init resolve_pending resolve_all serve_request bytes_eq
key_ticks-running = refl

when_change_served_example :
    Iterates mappings key_ticks clock objects
      (1 ∷ [])
      false
      first_two
      99
      bob
      space
      9
      (when_change objects (1 ∷ []) false first_two 99)
when_change_served_example =
    when_change_served mappings key_ticks clock objects (1 ∷ []) false first_two 99 bob space 9
      mappings-IsLogged key_ticks-running
      (omega arith, (omega arith, (omega arith, (omega arith, tt)))) refl refl key_ticks_few

when_change_served_test :
    limited first_two.count (
      picked (when_change_callback objects false (1 ∷ [])) (
        asked_updates mappings key_ticks clock objects
          (1 ∷ [])
          false
          first_two
          99
          bob
          space
          9
          (new_watcher first_two 99)))
    ≡ (((1, 11) ∷ (2, 20) ∷ (1, 10) ∷ []) ∷ [], stopped)
unfolding asked_updates limited picked wanted wants bytes_eq state_update run_log tick_spec
    when_change_callback new_watcher
when_change_served_test = refl
