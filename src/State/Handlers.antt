-- ===== src/State/Handlers.antt =====
-- The handlers of `StateServer` in zproc/state/server.py, and the exceptions that the loop of
-- zproc/server/main.py catches. A handler that raises has kept what it did
-- before, so the server comes back beside the exception. `ident` is `self.identity`, `ns` is
-- `self.namespace` and `a` the address of `self.state`.

use zproc.Prelude.{
  if◌then◌else◌, key_error, pickling_error, Result, ok, raise, Bytes, ℕ, ◌+◌, Bool, true, false,
  ◌&&◌, Option, none, some, [], ◌∷◌, ◌++◌,
}
use zproc.State.Server.{
  Effect, Env, Command, run_fn_atomically, run_dict_method, get_state, set_state, Query, ping,
  get_server_meta, time, unknown_cmd, Request, on_state, query, Reply, returned, snapshot, done,
  pong, server_meta, now, remote_exception, Update, StateServer, update, update_at, resolve_pending,
}

module _ {D M F R : Type 0} (env : Env D M F R) where
  unfoldable pub can_pickle : Reply D R → Bool
  can_pickle (returned r) = env.result_picklable r
  can_pickle (snapshot d) = env.picklable d
  can_pickle (remote_exception e) = env.error_picklable e
  can_pickle _ = true

  abbrev pub Step : Type 0
  Step = StateServer D R → Result (Unit {0}) × StateServer D R

  unfoldable pub reply : Bytes → Reply D R → Step
  unfolding can_pickle
  reply ident r s =
      if can_pickle r
      then (ok tt, record s { replies = s.replies ++ (ident, r) ∷ [] })
      else (raise pickling_error, s)

  -- A new dict object with the given contents, bound in `state_map`: its address, and the server.
  unfoldable pub bind_new : Bytes → D → StateServer D R → StateServer D R
  bind_new ns d s = record s {
    dicts = update s.dicts s.fresh d;
    fresh = s.fresh + 1;
    state_map = update_at s.state_map ns (some s.fresh);
  }

  -- After the body of `mutate_safely`: back to the old state, or on to the history. The timestamp is
  -- there before the update is pickled and the dicts are compared.
  unfoldable pub log_entry : D → D → Result Bool
  log_entry old new =
      if env.picklable old && env.picklable new then env.same new old else raise pickling_error

  unfoldable pub put_entry : Bytes → Bytes → D → D → ℕ → Result Bool → Step
  put_entry ident ns old new stamp (raise e) s =
      let slot = s.history ns in
      let timestamps = slot.timestamps ++ stamp ∷ [] in
      (
        raise e,
        record s {
          history =
              update_at s.history ns (record { timestamps = timestamps; updates = slot.updates });
        },
      )
  put_entry ident ns old new stamp (ok identical) s =
      let slot = s.history ns in
      let timestamps = slot.timestamps ++ stamp ∷ [] in
      let u : Update D = record {
        ident = ident;
        before = old;
        after = new;
        stamp = stamp;
        identical = identical;
      } in
      (
        ok tt,
        resolve_pending (record s {
          history =
              update_at s.history ns
                (record { timestamps = timestamps; updates = slot.updates ++ u ∷ [] });
        }),
      )

  unfoldable pub finish : Bytes → Bytes → ℕ → D → ℕ → Result (Unit {0}) → Step
  unfolding log_entry put_entry
  finish ident ns a old stamp (raise e) s = (raise e, bind_new ns old s)
  finish ident ns a old stamp (ok _) s =
      put_entry ident ns old (s.dicts a) stamp (log_entry old (s.dicts a)) s

  -- `with self.mutate_safely(): body`, when the dict has been copied, or the copy has raised: then
  -- the body does not run.
  unfoldable pub with_copy : Bytes → Bytes → ℕ → ℕ → Step → Result D → Step
  unfolding finish bind_new
  with_copy ident ns a stamp body (raise e) s = (raise e, s)
  with_copy ident ns a stamp body (ok old) s =
      let (r, s') = body s in finish ident ns a old stamp r s'

  unfoldable pub mutate_safely : Bytes → Bytes → ℕ → ℕ → Step → Step
  unfolding with_copy
  mutate_safely ident ns a stamp body s =
      with_copy ident ns a stamp body (env.deepcopy (s.dicts a)) s

  -- `self.reply(call(self.state))`: the call may change the dict also when it raises.
  unfoldable pub reply_result : Bytes → Result R → Step
  reply_result ident (ok v) s = reply ident (returned v) s
  reply_result ident (raise e) s = (raise e, s)

  unfoldable pub call_and_reply : Bytes → ℕ → Effect D R → Step
  unfolding reply_result reply
  call_and_reply ident a effect s =
      let (r, d) = effect (s.dicts a) in
      reply_result ident r (record s { dicts = update s.dicts a d })

  unfoldable pub with_fn : Bytes → Bytes → ℕ → ℕ → Result (Effect D R) → Step
  with_fn ident ns a stamp (raise e) s = (raise e, s)
  with_fn ident ns a stamp (ok fn) s = mutate_safely ident ns a stamp (call_and_reply ident a fn) s

  -- The new dict is bound in `state_map`, and `self.state` stays what it was.
  unfoldable pub set_state_body : Bytes → Bytes → D → Step
  unfolding bind_new reply
  set_state_body ident ns new s = reply ident done (bind_new ns new s)

  unfoldable pub handle : Bytes → Bytes → ℕ → ℕ → Command D M F → Step
  unfolding with_fn mutate_safely call_and_reply set_state_body reply
  handle ident ns a stamp (run_fn_atomically fn) s = with_fn ident ns a stamp (env.load_fn fn) s
  handle ident ns a stamp (run_dict_method m) s =
      mutate_safely ident ns a stamp (call_and_reply ident a (env.call_method m)) s
  handle ident ns a stamp get_state s = reply ident (snapshot (s.dicts a)) s
  handle ident ns a stamp (set_state new) s =
      mutate_safely ident ns a stamp (set_state_body ident ns new) s

  -- `self.state = self.state_map[self.namespace]`: the address of the dict, a new one if the
  -- namespace has none.
  unfoldable pub lookup_state : Option ℕ → Bytes → StateServer D R → ℕ × StateServer D R
  lookup_state (some a) ns s = (a, s)
  lookup_state none ns s = (s.fresh, bind_new ns env.empty s)

  -- A namespace has a dict from when it is first named on.
  unfoldable pub visit : Option Bytes → StateServer D R → StateServer D R
  unfolding lookup_state
  visit none s = s
  visit (some ns) s = (lookup_state (s.state_map ns) ns s).1

  -- `stamp` is what time.time() gives.
  unfoldable pub handle_query : Bytes → ℕ → Query → Step
  unfolding reply
  handle_query ident stamp (ping payload) s = reply ident (pong payload) s
  handle_query ident stamp get_server_meta s = reply ident server_meta s
  handle_query ident stamp time s = reply ident (now stamp) s
  handle_query ident stamp unknown_cmd s = (raise key_error, s)

  -- `recv_request`, when the request has been read.
  unfoldable pub dispatch : Bytes → ℕ → Request D M F → Step
  unfolding handle lookup_state visit handle_query
  dispatch ident stamp (on_state ns c) s =
      let (a, s') = lookup_state (s.state_map ns) ns s in handle ident ns a stamp c s'
  dispatch ident stamp (query o q) s = handle_query ident stamp q (visit o s)

  -- An exception in the `except` clause of the loop leaves the loop.
  unfoldable pub or_stop : Result (Unit {0}) × StateServer D R → StateServer D R
  or_stop (ok _, s) = s
  or_stop (raise e, s) = record s { is_running = false }

  -- `except Exception` of the loop, for a request that came from `ident`.
  unfoldable pub reply_exception : Bytes → Result (Unit {0}) × StateServer D R → StateServer D R
  unfolding or_stop reply
  reply_exception ident (ok _, s) = s
  reply_exception ident (raise e, s) = or_stop (reply ident (remote_exception e) s)

  unfoldable pub serve_request : Bytes → ℕ → Request D M F → StateServer D R → StateServer D R
  unfolding dispatch reply_exception
  serve_request ident stamp request s = reply_exception ident (dispatch ident stamp request s)
