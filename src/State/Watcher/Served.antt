-- ===== src/State/Watcher/Served.antt =====
-- A watcher that is not live and the server that it asks.

use zproc.Prelude.{
  Bool-cases, length, Result, ok, Bytes, bytes_eq, ℕ, ◌≤◌, ◌<◌, ◌≡◌, refl, sym, ap, ◌∙◌, subst, inl,
  inr, true, false, Option, none, List, [], ◌∷◌, ◌++◌, arith,
}
use zproc.State.Server.{Env, Request, on_state, query, Update, Watch, StateServer, resolve_watcher}
use zproc.State.Loop.{
  WatchMessage, no_watch, malformed_watch, watch, StateMessage, no_request, malformed_request,
  garbled, request, Tick, run, init,
}
use zproc.State.Server.Log.{request_log, message_log, tick_log, run_log, run_history}
use zproc.State.Server.Times.{Follows, command_log-Logged, run-IsOrdered}
use zproc.State.Server.Slots.{Logged}
use zproc.State.Server.Watchers.{first_wanted, resolve_watcher_lem}
use zproc.State.Watcher.{StateUpdate, state_update, StateWatcher, collect}
use zproc.State.Watcher.Buffered.{after_time, Increasing, wanted}
use zproc.State.Watcher.Limits.{limited, room_of}
use zproc.State.Watcher.Iteration.{picked, collect_buffered}
use zproc.State.Server.History.{IsLogged}
use mathlib.Core.Option

-- The clock of the server moves on between two ticks.
abbrev pub Advances : {D M F : Type 0} → ℕ → List (Tick D M F) → Type 0
Advances t [] = Unit
Advances t (x ∷ ts) = (t < x.stamp) × Advances x.stamp ts

pub Advances-Follows :
    {D M F : Type 0} (t : ℕ) (ts : List (Tick D M F)) → Advances t ts → Follows t ts
Advances-Follows t [] h = tt
Advances-Follows t (x ∷ ts) (lt, h) = (omega (arith, lt), Advances-Follows x.stamp ts h)

Increasing-earlier :
    {D : Type 0} (t t' : ℕ) (us : List (Update D)) → t ≤ t' → Increasing t' us → Increasing t us
Increasing-earlier t t' [] le h = tt
Increasing-earlier t t' (u ∷ us) le (lt, h) = (omega (arith, le, lt), h)

Logged-Increasing :
    {D : Type 0} (t stamp : ℕ) (us rest : List (Update D))
    → t < stamp
    → Logged stamp us
    → Increasing stamp rest
    → Increasing t (us ++ rest)
Logged-Increasing t stamp us rest lt (inl e) h =
    rw e (Increasing-earlier t stamp rest (omega (arith, lt)) h)
Logged-Increasing t stamp us rest lt (inr (u, at, e)) h =
    rw e (omega (arith, lt, at), subst (λ x. Increasing x rest) (sym at) h)

module _ {D M F R : Type 0} (env : Env D M F R) (ns : Bytes) where
  request_log-Logged :
      (ident : Bytes) (stamp : ℕ) (r : Request D M F) (dicts : Bytes → D)
      → Logged stamp (request_log env ns ident stamp r dicts)
  unfolding request_log
  request_log-Logged ident stamp (on_state ns' c) dicts = elim (Bool-cases (bytes_eq ns ns')) [
    | inl e ↦ rw e (command_log-Logged env ident stamp c (dicts ns'))
    | inr e ↦ rw e (inl refl)
  ]
  request_log-Logged ident stamp (query o q) dicts = inl refl

  message_log-Logged :
      (m : StateMessage D M F) (stamp : ℕ) (dicts : Bytes → D)
      → Logged stamp (message_log env ns m stamp dicts)
  unfolding message_log
  message_log-Logged no_request stamp dicts = inl refl
  message_log-Logged malformed_request stamp dicts = inl refl
  message_log-Logged (garbled ident e) stamp dicts = inl refl
  message_log-Logged (request ident r) stamp dicts = request_log-Logged ident stamp r dicts

  pub tick_log-Logged :
      (w : WatchMessage) (m : StateMessage D M F) (stamp : ℕ) (dicts : Bytes → D)
      → Logged stamp (tick_log env ns w m stamp dicts)
  unfolding tick_log
  tick_log-Logged no_watch m stamp dicts = message_log-Logged m stamp dicts
  tick_log-Logged malformed_watch m stamp dicts = inl refl
  tick_log-Logged (watch w_ident s_ident namespace identical_okay only_after) m stamp dicts =
      message_log-Logged m stamp dicts

  -- The times in the log of a run grow strictly.
  pub run_log-Increasing :
      (t : ℕ) (ts : List (Tick D M F)) (dicts : Bytes → D)
      → Advances t ts
      → Increasing t (run_log env ns ts dicts)
  unfolding run_log
  run_log-Increasing t [] dicts h = tt
  run_log-Increasing t (x ∷ ts) dicts (lt, h) =
      Logged-Increasing t x.stamp _ _ lt (tick_log-Logged x.from_watch x.from_state x.stamp dicts)
        (run_log-Increasing x.stamp ts _ h)

-- The reply of the server to a watcher that asks for what came after the time `t`.
abbrev pub server_reply : {D R : Type 0} → StateServer D R → Watch → ℕ → ℕ → Option (StateUpdate D)
server_reply s asked turn t = Option.map state_update (resolve_watcher s (after_time asked t))

-- A watcher that is not live, on a server that has run: its iteration gives what the callback makes of
-- each update that the server has logged for a call on its namespace that succeeded, in the order of the
-- calls, from those after its time, by other clients, and not identical unless the watcher takes them.
-- It leaves out those the callback skips, and stops at its count. The update that is logged for a
-- `State.set` has the old dict before and after, and so does not show the new one. Hypotheses: every
-- update can be logged, that is its dicts can be pickled and `==` does not raise on them; the server is
-- still running; the clock of the server moves on between its ticks; the watcher has no timeout; and the
-- callback does not raise but to skip; `fuel` bounds the calls, and one more than the updates is enough.
pub collect_served :
    {D M F R A : Type 0} (env : Env D M F R) (ts : List (Tick D M F)) (clock : ℕ → ℕ)
    (callback : StateUpdate D → Result (Option A)) (pick : StateUpdate D → Option A) (asked : Watch)
    (w : StateWatcher) (fuel : ℕ)
    → IsLogged env
    → (run env ts (init env)).is_running ≡ true
    → Advances 0 ts
    → ((u : StateUpdate D) → callback u ≡ ok (pick u))
    → w.live ≡ false
    → w.timeout ≡ none
    → let log = run_log env asked.namespace ts (λ ns. env.empty) in
      length log < fuel
      → collect (server_reply (run env ts (init env)) asked) clock callback fuel w
        ≡ limited (room_of w) (picked pick (wanted asked w.only_after log))
collect_served env ts clock callback pick asked w fuel all running advances picks live timeout lt =
    let ns = asked.namespace in
    let log = run_log env ns ts (λ ns'. env.empty) in
    let ordered = run-IsOrdered env ts all running (Advances-Follows 0 ts advances) ns in
    collect_buffered _ clock callback pick asked log 0
      (run_log-Increasing env ns 0 ts (λ ns'. env.empty) advances)
      (λ turn t. ap (Option.map state_update) (
        resolve_watcher_lem (run env ts (init env)) (after_time asked t) ordered
        ∙ ap (first_wanted (after_time asked t)) (run_history env ts ns all running)))
      picks w live timeout fuel lt
