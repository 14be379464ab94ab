-- ===== src/Examples/Requests.antt =====
-- Requests of clients: their replies, and the counters.

use zproc.Prelude.{
  ltb, if◌then◌else◌, value_error, attribute_error, zmq_again, ok, raise, Bytes, bytes_eq, ℕ, ◌+◌,
  ◌-◌, ◌≡◌, refl, ◌≢◌, true, none, some, List, [], ◌∷◌, map, arith,
}
use zproc.State.Server.{Env, run_dict_method, on_state, resolve_pending}
use zproc.State.Handlers.{serve_request}
use zproc.State.Loop.{init}
use zproc.State.Client.{
  arrives, fails, got, raised, Exchange, strict_request_reply, exchanges, serve_if_running,
  s_request_reply,
}
use zproc.State.Client.Order.{is_read, own_outcome, exchanges_lem, late, exchanges-late}
use zproc.State.Client.Calls.{local_call, s_request_reply_lem}
use zproc.State.Server.Contract.{IsValid, view, command_spec}
use zproc.Counters.{
  Dict, get_item, set_item, Operators, Counter, increase, decrease, append, effect_of,
}
use zproc.Counters.Updates.{item_after_all, serve_calls, serve_calls_lem}
use zproc.Examples.StateServer.{
  numbers, alice, bob, space, served, served-view, served-IsValid, numbers-IsLogged, ticks-running,
}
use zproc.State.Client.Namespaces.{State, new_state, fork}
use zproc.State.Client.Named.{Made, constructed, forked, Made-view}
use zproc.State.Server.Replies.{CanLog, CanSend}

-- One call that is answered, one whose reply comes after the timeout, and one that cannot be sent.
abbrev session : List (Exchange ℕ)
session =
    record { send_error = none; answer = 1; first = arrives; second = arrives }
    ∷ record { send_error = none; answer = 2; first = fails zmq_again; second = arrives }
    ∷ record { send_error = some zmq_again; answer = 3; first = arrives; second = arrives }
    ∷ record { send_error = none; answer = 4; first = arrives; second = arrives }
    ∷ []

exchanges_example : exchanges session [] ≡ (map own_outcome session, [])
unfolding is_read
exchanges_example = exchanges_lem session (refl, (refl, (refl, (refl, tt))))

abbrev prompt : ℕ → Exchange ℕ
prompt n = record { send_error = none; answer = n; first = arrives; second = arrives }

exchanges-late_example :
    (exchanges (prompt 10 ∷ prompt 11 ∷ prompt 12 ∷ []) (9 ∷ [])).0
    ≡ late got 9 (map (λ x. x.answer) (prompt 10 ∷ prompt 11 ∷ prompt 12 ∷ []))
exchanges-late_example =
    exchanges-late 9 (prompt 10 ∷ prompt 11 ∷ prompt 12 ∷ [])
      ((refl, refl), ((refl, refl), ((refl, refl), tt)))

-- After one call whose reply is never read.
late_session :
    (exchanges
      (record { send_error = none; answer = 9; first = fails zmq_again; second = fails zmq_again }
        ∷ prompt 10
        ∷ prompt 11
        ∷ [])
      []).0
    ≡ raised zmq_again ∷ got 9 ∷ got 10 ∷ []
unfolding exchanges strict_request_reply
late_session = refl

served-CanLog : CanLog numbers (view numbers served space) (view numbers served space)
served-CanLog old e = numbers-IsLogged old (view numbers served space)

called-CanLog :
    CanLog numbers
      (view numbers served space)
      (command_spec numbers (run_dict_method 9) (view numbers served space)).1
called-CanLog old e =
    numbers-IsLogged old (command_spec numbers (run_dict_method 9) (view numbers served space)).1

sent_reply :
    CanSend numbers (command_spec numbers (run_dict_method 9) (view numbers served space)).0
unfolding command_spec
sent_reply = rw served-view tt

s_request_reply_example :
    let (r, s') = s_request_reply numbers bob 40 space (run_dict_method 9) served in
    let (r', d') = local_call numbers (run_dict_method 9) (view numbers served space) in
    (r ≡ r')
    × ((ns' : Bytes)
        → view numbers s' ns' ≡ (if bytes_eq ns' space then d' else view numbers served ns'))
    × IsValid s'
s_request_reply_example =
    s_request_reply_lem numbers bob 40 space (run_dict_method 9) served served-IsValid ticks-running
      sent_reply served-CanLog called-CanLog

-- Values that are numbers: they can be added, the smaller from the larger subtracted, and they have no
-- `append`.
abbrev arithmetic : Operators ℕ
arithmetic = record {
  plus = λ v step. ok (v + step);
  minus = λ v step. if ltb v step then raise value_error else ok (v - step);
  append_item = λ v item. raise attribute_error;
}

abbrev counters : Env (Dict ℕ) ℕ (Counter ℕ) (Unit {0})
counters = record {
  empty = (alice, 5) ∷ [];
  deepcopy = λ d. ok d;
  same = λ d e. ok true;
  call_method = λ m d. (ok tt, d);
  load_fn = λ c. ok (effect_of arithmetic c);
  picklable = λ d. true;
  result_picklable = λ r. true;
  error_picklable = λ e. true;
}

abbrev counting : List (Bytes × (ℕ × (Bytes × Counter ℕ)))
counting =
    (alice, (1, (space, increase alice 3)))
    ∷ (bob, (2, (space, increase alice 4)))
    ∷ (bob, (3, (alice, increase alice 100)))
    ∷ (alice, (4, (space, append alice 0)))
    ∷ (bob, (5, (space, decrease alice 2)))
    ∷ []

start-IsValid : IsValid (init counters)
unfolding init
start-IsValid = record {
  allocated = λ ns a e. ground (arith, e);
  separate = λ ns ns' a e e'. ground (arith, e);
}

counted_running : (serve_calls counters counting (init counters)).is_running ≡ true
unfolding serve_calls init serve_if_running serve_request effect_of get_item set_item
    resolve_pending bytes_eq
counted_running = refl

serve_calls_example :
    get_item alice (view counters (serve_calls counters counting (init counters)) space)
    ≡ item_after_all arithmetic counting space alice
        (get_item alice (view counters (init counters) space))
serve_calls_example =
    serve_calls_lem arithmetic counters (λ c. refl) refl (λ d. refl) counting (init counters) space
      alice start-IsValid counted_running

-- 5 + 3 + 4 - 2
counted : item_after_all arithmetic counting space alice (some 5) ≡ some 10
unfolding item_after_all bytes_eq
counted = refl

-- A fork of the state of a context, with a namespace of its own.
abbrev context_state : State
context_state = record { server_address = 5 ∷ []; namespace = space }

abbrev update_key : ℕ → ℕ
update_key v = v

abbrev other_state : State
other_state = record { server_address = 5 ∷ []; namespace = 9 ∷ [] }

forked_state : Made numbers update_key other_state
forked_state =
    forked context_state none (some (9 ∷ [])) other_state
      (constructed (5 ∷ []) space context_state (unfold new_state in refl)) (unfold fork in refl)

Made-view_example :
    (other_state.namespace ≢ [])
    × (view numbers (serve_request numbers bob 40 (on_state (9 ∷ []) (run_dict_method 4)) served) []
        ≡ view numbers served [])
Made-view_example =
    Made-view numbers update_key other_state bob 40 (run_dict_method 4) served forked_state
      served-IsValid
