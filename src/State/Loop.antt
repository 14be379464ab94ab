-- ===== src/State/Loop.antt =====
-- `recv_watcher`, `recv_request` and `tick` of zproc/state/server.py, and the loop of `main` in
-- zproc/server/main.py.

use zproc.Prelude.{if◌then◌else◌, Error, raise, Bytes, ℕ, Bool, true, not, none, List, [], ◌∷◌}
use zproc.State.Server.{Env, Request, StateServer, set_watch, resolve_pending}
use zproc.State.Handlers.{reply_exception, serve_request}

-- What a tick finds on `watch_router`: nothing, frames that are not these five, or a watcher's
-- [w_ident, s_ident, namespace, identical_okay, only_after].
pub data WatchMessage : Type 0 where
  no_watch malformed_watch : WatchMessage
  watch : Bytes → Bytes → Bytes → Bool → ℕ → WatchMessage

-- What it finds on `state_router`: nothing, frames that are not two, a request that cannot be
-- unpickled, or a request.
pub data StateMessage (D M F : Type 0) : Type 0 where
  no_request malformed_request : StateMessage D M F
  garbled : Bytes → Error → StateMessage D M F
  request : Bytes → Request D M F → StateMessage D M F

pub record Tick (D M F : Type 0) : Type 0 where
  pub from_watch : WatchMessage
  pub from_state : StateMessage D M F
  pub stamp : ℕ

module _ {D M F R : Type 0} (env : Env D M F R) where
  unfoldable pub recv_watcher : Bytes → Bytes → Bytes → Bool → ℕ → StateServer D R → StateServer D R
  recv_watcher w_ident s_ident namespace identical_okay only_after s = record s {
    pending =
        set_watch w_ident
          (record {
            s_ident = s_ident;
            namespace = namespace;
            identical_not_okay = not identical_okay;
            only_after = only_after;
          })
          s.pending;
  }

  unfoldable pub recv_request : StateMessage D M F → ℕ → StateServer D R → StateServer D R
  unfolding serve_request reply_exception
  recv_request no_request stamp s = s
  recv_request malformed_request stamp s = s
  recv_request (garbled ident e) stamp s = reply_exception env ident (raise e, s)
  recv_request (request ident r) stamp s = serve_request env ident stamp r s

  -- An exception on `watch_router` ends the tick before `state_router` is read, and is logged: there
  -- is no `self.identity` to reply to. The request stays in the socket for a later tick.
  unfoldable pub recv_both :
      WatchMessage → StateMessage D M F → ℕ → StateServer D R → StateServer D R
  recv_both no_watch r stamp s = recv_request r stamp s
  recv_both malformed_watch r stamp s = s
  recv_both (watch w_ident s_ident namespace identical_okay only_after) r stamp s =
      recv_request r stamp (recv_watcher w_ident s_ident namespace identical_okay only_after s)

  -- `tick`, in the `try` of the main loop, and `reset_internal_state`.
  unfoldable pub tick : Tick D M F → StateServer D R → StateServer D R
  unfolding recv_both recv_watcher recv_request
  tick t s = recv_both t.from_watch t.from_state t.stamp (resolve_pending s)

  -- The loop of `main`: it ends when the reply to an exception raises.
  unfoldable pub run : List (Tick D M F) → StateServer D R → StateServer D R
  run [] s = s
  run (t ∷ ts) s = let rest = run ts (tick t s) in if s.is_running then rest else s

  -- The ticks alone.
  unfoldable pub steps : List (Tick D M F) → StateServer D R → StateServer D R
  steps [] s = s
  steps (t ∷ ts) s = steps ts (tick t s)

  unfoldable pub init : StateServer D R
  init = record {
    dicts = λ _. env.empty;
    fresh = 0;
    state_map = λ _. none;
    history = λ _. record { timestamps = []; updates = [] };
    pending = [];
    replies = [];
    published = [];
    is_running = true;
  }
