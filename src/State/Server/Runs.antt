-- ===== src/State/Server/Runs.antt =====
-- Whole runs of the server, from the state `main` starts it in, against the contract: a dict for each
-- namespace, on which the requests take effect in the order they are read.

use zproc.Prelude.{
  if◌then◌else◌, raise, Bytes, bytes_eq, ℕ, ◌≡◌, refl, sym, ap, ◌∙◌, subst, ◌⊎◌, false, List, [],
  ◌∷◌, ◌++◌, arith,
}
use zproc.State.Server.{Env, Request, on_state, query, StateServer, update_at, resolve_pending}
use zproc.State.Handlers.{visit, dispatch, reply_exception, serve_request}
use zproc.State.Server.Contract.{IsValid, view, command_spec}
use zproc.State.Server.Atomic.{reply_exception-Same, serve_request-Serves}
use zproc.State.Loop.{
  WatchMessage, no_watch, malformed_watch, watch, StateMessage, no_request, malformed_request,
  garbled, request, Tick, recv_watcher, recv_request, recv_both, tick, run, steps, init,
}
use zproc.State.Server.Objects.{Same, view-Same, IsValid-Same}
use zproc.State.Server.Queries.{visit-Visited, query-Same}
use zproc.State.Server.Ends.{run-Split}

module _ {D M F R : Type 0} (env : Env D M F R) where
  -- The contract for a request, one tick, and a run.
  unfoldable pub request_spec : Request D M F → (Bytes → D) → Bytes → D
  unfolding command_spec
  request_spec (on_state ns c) dicts = update_at dicts ns (command_spec env c (dicts ns)).1
  request_spec (query o q) dicts = dicts

  unfoldable pub message_spec : StateMessage D M F → (Bytes → D) → Bytes → D
  unfolding request_spec
  message_spec no_request dicts = dicts
  message_spec malformed_request dicts = dicts
  message_spec (garbled ident e) dicts = dicts
  message_spec (request ident r) dicts = request_spec r dicts

  -- Frames on `watch_router` that are not a watcher's keep the tick from reading a request.
  unfoldable pub tick_spec : WatchMessage → StateMessage D M F → (Bytes → D) → Bytes → D
  unfolding message_spec
  tick_spec no_watch r dicts = message_spec r dicts
  tick_spec malformed_watch r dicts = dicts
  tick_spec (watch w_ident s_ident namespace identical_okay only_after) r dicts =
      message_spec r dicts

  unfoldable pub run_spec : List (Tick D M F) → (Bytes → D) → Bytes → D
  unfolding tick_spec
  run_spec [] dicts = dicts
  run_spec (t ∷ ts) dicts = run_spec ts (tick_spec t.from_watch t.from_state dicts)

  -- The server stands for these dicts.
  pub record Implements (dicts : Bytes → D) (s : StateServer D R) : Type 0 where
    pub views : view env s ≡ dicts
    pub valid : IsValid s

  pub Implements-Same :
      (dicts : Bytes → D) (s s' : StateServer D R)
      → Same env s s'
      → Implements dicts s
      → Implements dicts s'
  Implements-Same dicts s s' e h = record {
    views = (λ i ns. view-Same env s s' ns e i) ∙ h.views;
    valid = IsValid-Same env s s' e h.valid;
  }

  pub request-Implements :
      (ident : Bytes) (stamp : ℕ) (r : Request D M F) (dicts : Bytes → D) (s : StateServer D R)
      → Implements dicts s
      → Implements (request_spec r dicts) (serve_request env ident stamp r s)
  unfolding request_spec serve_request dispatch reply_exception
  request-Implements ident stamp (on_state ns c) dicts s h =
      let served = serve_request-Serves env ident stamp ns c s h.valid in
      record {
        views = (λ i ns'. served.views ns' i) ∙ λ i ns'.
            if bytes_eq ns' ns then (command_spec env c (h.views i ns)).1 else h.views i ns';
        valid = served.valid;
      }
  request-Implements ident stamp (query o q) dicts s h =
      let visited = visit-Visited env o s h.valid in
      Implements-Same dicts (visit env o s) _ (query-Same env ident stamp q (visit env o s))
        (record { views = (λ i ns. visited.same_views ns i) ∙ h.views; valid = visited.valid })

  message-Implements :
      (m : StateMessage D M F) (stamp : ℕ) (dicts : Bytes → D) (s : StateServer D R)
      → Implements dicts s
      → Implements (message_spec m dicts) (recv_request env m stamp s)
  unfolding message_spec recv_request
  message-Implements no_request stamp dicts s h = h
  message-Implements malformed_request stamp dicts s h = h
  message-Implements (garbled ident e) stamp dicts s h =
      Implements-Same dicts s _ (reply_exception-Same env ident (raise e, s)) h
  message-Implements (request ident r) stamp dicts s h = request-Implements ident stamp r dicts s h

  pub both-Implements :
      (w : WatchMessage) (m : StateMessage D M F) (stamp : ℕ) (dicts : Bytes → D)
      (s : StateServer D R)
      → Implements dicts s
      → Implements (tick_spec w m dicts) (recv_both env w m stamp s)
  unfolding tick_spec recv_both recv_watcher
  both-Implements no_watch m stamp dicts s h = message-Implements m stamp dicts s h
  both-Implements malformed_watch m stamp dicts s h = h
  both-Implements (watch w_ident s_ident namespace identical_okay only_after) m stamp dicts s h =
      message-Implements m stamp dicts _
        (Implements-Same dicts s _ (record { dicts = refl; fresh = refl; state_map = refl }) h)

  steps-Implements :
      (ts : List (Tick D M F)) (dicts : Bytes → D) (s : StateServer D R)
      → Implements dicts s
      → Implements (run_spec ts dicts) (steps env ts s)
  unfolding run_spec steps tick resolve_pending
  steps-Implements [] dicts s h = h
  steps-Implements (t ∷ ts) dicts s h = steps-Implements ts _ _ (
      both-Implements t.from_watch t.from_state t.stamp dicts _
        (Implements-Same dicts s _ (record { dicts = refl; fresh = refl; state_map = refl }) h))

  pub init-Implements : Implements (λ ns. env.empty) (init env)
  unfolding init view
  init-Implements = record {
    views = refl;
    valid = record {
      allocated = λ ns a e. ground (arith, e);
      separate = λ ns ns' a e e'. ground (arith, e);
    };
  }

pub run_refines :
    {D M F R : Type 0} (env : Env D M F R) (ts : List (Tick D M F))
    → let s = run env ts (init env) in
      (read left : List (Tick D M F)) × ((ts ≡ read ++ left)
        × ((view env s ≡ run_spec env read (λ ns. env.empty))
            × (IsValid s × ((left ≡ []) ⊎ (s.is_running ≡ false)))))
run_refines env ts =
    let (read, left, (all, (same, end))) = run-Split env ts (init env) in
    let h = steps-Implements env read (λ ns. env.empty) (init env) (init-Implements env) in
    (read, left, (all, (ap (view env) same ∙ h.views, (subst IsValid (sym same) h.valid, end))))
