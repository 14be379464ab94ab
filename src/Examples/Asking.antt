-- ===== src/Examples/Asking.antt =====
-- A watcher that asks the server with numbers, and waits for two ticks.

use zproc.Prelude.{bytes_eq, ℕ, ◌≡◌, refl, false, List, [], ◌∷◌, ◌++◌, map, arith}
use zproc.State.Server.{run_fn_atomically, run_dict_method, on_state, resolve_all, resolve_pending}
use zproc.State.Server.RunAnswer.{run-answer}
use zproc.State.Server.Answered.{ask_tick, watch_of}
use zproc.State.Server.Idents.{of_ident, waiting, answer}
use zproc.State.Server.Watchers.{wants, first_wanted}
use zproc.State.Loop.{no_watch, no_request, request, Tick, tick, run, init}
use zproc.State.Handlers.{serve_request}
use zproc.State.Server.Log.{run_log}
use zproc.State.Server.Runs.{tick_spec}
use zproc.Examples.StateServer.{numbers, alice, bob, space, numbers-IsLogged}

-- Bob asks between two calls of Alice, and a third call follows.
abbrev first_tick : List (Tick ℕ ℕ ℕ)
first_tick =
    record {
      from_watch = no_watch;
      from_state = request alice (on_state space (run_dict_method 7));
      stamp = 10;
    }
    ∷ []

abbrev alice_triples : ℕ → Tick ℕ ℕ ℕ
alice_triples t = record {
  from_watch = no_watch;
  from_state = request alice (on_state space (run_fn_atomically 3));
  stamp = t;
}

abbrev bob_asks : Tick ℕ ℕ ℕ
bob_asks = ask_tick bob bob space false 10 no_request 20

abbrev asked_ticks : List (Tick ℕ ℕ ℕ)
asked_ticks = first_tick ++ bob_asks ∷ alice_triples 30 ∷ alice_triples 40 ∷ []

run-answer_example :
    let s' = run numbers asked_ticks (init numbers) in
    let o =
      first_wanted (watch_of bob space false 10) (run_log numbers space asked_ticks (λ ns. 0)) in
    (of_ident bob s'.pending ≡ waiting (watch_of bob space false 10) o)
    × (of_ident bob s'.published
        ≡ of_ident bob (run numbers first_tick (init numbers)).published ++ answer o)
run-answer_example =
    run-answer numbers first_tick bob bob space false 10 no_request 20 (alice_triples 30)
      (alice_triples 40 ∷ []) numbers-IsLogged
      (unfold run tick init resolve_pending resolve_all serve_request bytes_eq ask_tick in refl)
      (unfold ask_tick in (omega arith, (omega arith, (omega arith, (omega arith, tt)))))
      (unfold run tick init resolve_pending resolve_all serve_request bytes_eq in refl)
      (tt, (tt, tt))

run-answer_test :
    map
      (λ u. u.after)
      (answer
        (first_wanted (watch_of bob space false 10) (run_log numbers space asked_ticks (λ ns. 0))))
    ≡ 21 ∷ []
unfolding run_log tick_spec first_wanted wants watch_of ask_tick bytes_eq
run-answer_test = refl
