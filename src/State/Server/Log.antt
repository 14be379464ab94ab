-- ===== src/State/Server/Log.antt =====
-- The history that a whole run of the server leaves, from the requests it has read.
use zproc.Prelude.{
  if◌then◌else◌, Bool-cases, raise, Bytes, bytes_eq, bytes_eq_iff, ℕ, ◌≡◌, refl, sym, ap, ◌∙◌, inl,
  inr, true, List, [], ◌∷◌, append-nil, append_assoc, ◌++◌, map,
}
use zproc.State.Server.{Env, Request, on_state, query, Update, Slot, StateServer, resolve_pending}
use zproc.State.Handlers.{visit, dispatch, serve_request}
use zproc.State.Server.History.{
  IsLogged, append_updates, command_log, reply_exception-history, serve_request_history,
}
use zproc.State.Server.Runs.{
  tick_spec, Implements, Implements-Same, both-Implements, init-Implements,
}
use zproc.State.Loop.{
  WatchMessage, no_watch, malformed_watch, watch, StateMessage, no_request, malformed_request,
  garbled, request, Tick, recv_watcher, recv_request, recv_both, tick, run, steps, init,
}
use zproc.State.Server.Queries.{visit-Visited, query-history}
use zproc.State.Server.Ends.{run-steps}
use mathlib.Core.List.{map-append}

module _ {D M F R : Type 0} (env : Env D M F R) (ns : Bytes) where
  -- What a request, a tick and a run put into the history of `ns`, where `dicts` are the namespaces
  -- before it.
  unfoldable pub request_log : Bytes → ℕ → Request D M F → (Bytes → D) → List (Update D)
  unfolding command_log
  request_log ident stamp (on_state ns' c) dicts =
      if bytes_eq ns ns' then command_log env ident stamp c (dicts ns') else []
  request_log ident stamp (query o q) dicts = []

  unfoldable pub message_log : StateMessage D M F → ℕ → (Bytes → D) → List (Update D)
  unfolding request_log
  message_log no_request stamp dicts = []
  message_log malformed_request stamp dicts = []
  message_log (garbled ident e) stamp dicts = []
  message_log (request ident r) stamp dicts = request_log ident stamp r dicts

  unfoldable pub tick_log : WatchMessage → StateMessage D M F → ℕ → (Bytes → D) → List (Update D)
  unfolding message_log
  tick_log no_watch m stamp dicts = message_log m stamp dicts
  tick_log malformed_watch m stamp dicts = []
  tick_log (watch w_ident s_ident namespace identical_okay only_after) m stamp dicts =
      message_log m stamp dicts

  unfoldable pub run_log : List (Tick D M F) → (Bytes → D) → List (Update D)
  unfolding tick_log
  run_log [] dicts = []
  run_log (t ∷ ts) dicts =
      tick_log t.from_watch t.from_state t.stamp dicts
      ++ run_log ts (tick_spec env t.from_watch t.from_state dicts)

  append_updates-nil : (slot : Slot D) → append_updates slot [] ≡ slot
  append_updates-nil slot = rw (append-nil slot.timestamps, append-nil slot.updates) refl

  append_updates-append :
      (slot : Slot D) (us vs : List (Update D))
      → append_updates (append_updates slot us) vs ≡ append_updates slot (us ++ vs)
  append_updates-append slot us vs i = record {
    timestamps =
        (append_assoc slot.timestamps (map (λ u. u.stamp) us) (map (λ u. u.stamp) vs)
            ∙ ap (λ ts. slot.timestamps ++ ts) (sym (map-append (λ u. u.stamp) us vs)))
          i;
    updates = append_assoc slot.updates us vs i;
  }

  module _ (all : IsLogged env) where
    request-history :
        (ident : Bytes) (stamp : ℕ) (r : Request D M F) (dicts : Bytes → D) (s : StateServer D R)
        → Implements env dicts s
        → (serve_request env ident stamp r s).history ns
          ≡ append_updates (s.history ns) (request_log ident stamp r dicts)
    unfolding request_log
    request-history ident stamp (on_state ns' c) dicts s h =
        serve_request_history env ident stamp ns' c s all h.valid ns
        ∙ elim (Bool-cases (bytes_eq ns ns')) [
          | inl e ↦
              let same : ns ≡ ns' = (bytes_eq_iff ns ns').0 e in
              rw e (λ i.
                append_updates (s.history (sym same i))
                  (command_log env ident stamp c (h.views i ns')))
          | inr e ↦ rw e (sym (append_updates-nil (s.history ns)))
        ]
    request-history ident stamp (query o q) dicts s h =
        unfold serve_request dispatch in
        (ap (λ history. history ns)
            (query-history env ident stamp q (visit env o s)
              ∙ (visit-Visited env o s h.valid).same_history)
          ∙ sym (append_updates-nil (s.history ns)))

    message-history :
        (m : StateMessage D M F) (stamp : ℕ) (dicts : Bytes → D) (s : StateServer D R)
        → Implements env dicts s
        → (recv_request env m stamp s).history ns
          ≡ append_updates (s.history ns) (message_log m stamp dicts)
    unfolding recv_request message_log
    message-history no_request stamp dicts s h = sym (append_updates-nil (s.history ns))
    message-history malformed_request stamp dicts s h = sym (append_updates-nil (s.history ns))
    message-history (garbled ident e) stamp dicts s h =
        ap (λ history. history ns) (reply_exception-history env ident stamp (raise e, s))
        ∙ sym (append_updates-nil (s.history ns))
    message-history (request ident r) stamp dicts s h = request-history ident stamp r dicts s h

    both-history :
        (w : WatchMessage) (m : StateMessage D M F) (stamp : ℕ) (dicts : Bytes → D)
        (s : StateServer D R)
        → Implements env dicts s
        → (recv_both env w m stamp s).history ns
          ≡ append_updates (s.history ns) (tick_log w m stamp dicts)
    unfolding recv_both recv_watcher tick_log
    both-history no_watch m stamp dicts s h = message-history m stamp dicts s h
    both-history malformed_watch m stamp dicts s h = sym (append_updates-nil (s.history ns))
    both-history (watch w_ident s_ident namespace identical_okay only_after) m stamp dicts s h =
        message-history m stamp dicts _ (
          Implements-Same env dicts s _ (record { dicts = refl; fresh = refl; state_map = refl }) h)

    steps-history :
        (ts : List (Tick D M F)) (dicts : Bytes → D) (s : StateServer D R)
        → Implements env dicts s
        → (steps env ts s).history ns ≡ append_updates (s.history ns) (run_log ts dicts)
    unfolding steps tick resolve_pending run_log
    steps-history [] dicts s h = sym (append_updates-nil (s.history ns))
    steps-history (t ∷ ts) dicts s h =
        let h' =
          Implements-Same env dicts s (resolve_pending s)
            (record { dicts = refl; fresh = refl; state_map = refl }) h in
        steps-history ts _ _ (both-Implements env t.from_watch t.from_state t.stamp dicts _ h')
        ∙ ap
            (λ slot.
              append_updates slot (run_log ts (tick_spec env t.from_watch t.from_state dicts)))
            (both-history t.from_watch t.from_state t.stamp dicts _ h')
        ∙ append_updates-append (s.history ns) _ _

-- Whatever messages the ticks find, the server started by `main` leaves in the history of a namespace
-- exactly one update for each call on it that was read and succeeded, `get_state` apart, in the order in
-- which they were read, each from a copy of the dict that the calls before it left, to the dict that the call has left;
-- for `set_state` the old dict stands in both places. Hypotheses: the server is still running, and every
-- update can be logged: its dicts can be pickled, and `==` does not raise on them.
pub run_history :
    {D M F R : Type 0} (env : Env D M F R) (ts : List (Tick D M F)) (ns : Bytes)
    → IsLogged env
    → (run env ts (init env)).is_running ≡ true
    → ((run env ts (init env)).history ns).updates ≡ run_log env ns ts (λ ns'. env.empty)
run_history env ts ns all running =
    ap (λ s. (s.history ns).updates) (run-steps env ts (init env) running)
    ∙ ap (λ slot. slot.updates)
        (steps-history env ns all ts (λ ns'. env.empty) (init env) (init-Implements env))
    ∙ (unfold init in refl)
