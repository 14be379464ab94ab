-- ===== src/State/Server/Times.antt =====
-- The times in the history along a run of the server.

use zproc.Prelude.{
  Bool-cases, Result, ok, raise, Result-cases, Bytes, bytes_eq, ℕ, ◌≤◌, ◌≡◌, refl, sym, subst, inl,
  inr, true, List, [], ◌∷◌, arith,
}
use zproc.State.Server.{
  Effect, Env, Command, run_fn_atomically, run_dict_method, get_state, set_state, Request, on_state,
  query, StateServer, resolve_pending,
}
use zproc.State.Handlers.{reply, visit, dispatch, reply_exception, serve_request}
use zproc.State.Server.Watchers.{IsOrdered}
use zproc.State.Server.Atomic.{reply_exception-Same, serve_request-Serves}
use zproc.State.Server.Slots.{SlotUpTo, Logged, UpTo-later, append_updates-UpTo}
use zproc.State.Server.Runs.{init-Implements}
use zproc.State.Server.Contract.{IsValid, view}
use zproc.State.Server.History.{
  IsLogged, update_of, log_from, call_log, load_log, command_log, reply_exception-history,
  serve_request_history,
}
use zproc.State.Loop.{
  WatchMessage, no_watch, malformed_watch, watch, StateMessage, no_request, malformed_request,
  garbled, request, Tick, recv_watcher, recv_request, recv_both, tick, run, steps, init,
}
use zproc.State.Server.Objects.{Same, IsValid-Same}
use zproc.State.Server.Queries.{visit-Visited, query-Same, query-history}
use zproc.State.Server.Ends.{run-steps}

-- The clock does not go back.
abbrev pub Follows : {D M F : Type 0} → ℕ → List (Tick D M F) → Type 0
Follows t [] = Unit
Follows t (x ∷ ts) = (t ≤ x.stamp) × Follows x.stamp ts

module _ {D M F R : Type 0} (env : Env D M F R) where
  call_log-Logged :
      (ident : Bytes) (stamp : ℕ) (effect : Effect D R) (d : D)
      → Logged stamp (call_log env ident stamp effect d)
  unfolding call_log log_from update_of
  call_log-Logged ident stamp effect d = elim (Result-cases (env.deepcopy d)) [
    | inl (old, e) ↦ elim (Result-cases (effect d).0) [
      | inl (v, h) ↦ elim (Bool-cases (env.result_picklable v)) [
        | inl k ↦ rw (e, h, k) (inr (_, refl, refl))
        | inr k ↦ rw (e, h, k) (inl refl)
      ]
      | inr (x, h) ↦ rw (e, h) (inl refl)
    ]
    | inr (x, e) ↦ rw e (inl refl)
  ]

  load_log-Logged :
      (ident : Bytes) (stamp : ℕ) (loaded : Result (Effect D R)) (d : D)
      → Logged stamp (load_log env ident stamp loaded d)
  unfolding load_log
  load_log-Logged ident stamp (raise e) d = inl refl
  load_log-Logged ident stamp (ok fn) d = call_log-Logged ident stamp fn d

  pub command_log-Logged :
      (ident : Bytes) (stamp : ℕ) (c : Command D M F) (d : D)
      → Logged stamp (command_log env ident stamp c d)
  unfolding command_log log_from update_of
  command_log-Logged ident stamp (run_fn_atomically f) d =
      load_log-Logged ident stamp (env.load_fn f) d
  command_log-Logged ident stamp (run_dict_method m) d =
      call_log-Logged ident stamp (env.call_method m) d
  command_log-Logged ident stamp get_state d = inl refl
  command_log-Logged ident stamp (set_state new) d = elim (Result-cases (env.deepcopy d)) [
    | inl (old, e) ↦ rw e (inr (_, refl, refl))
    | inr (x, e) ↦ rw e (inl refl)
  ]

  -- Every slot of the server is in order up to `t`, and the server is valid.
  pub record Timed (t : ℕ) (s : StateServer D R) : Type 0 where
    pub valid : IsValid s
    pub slots : (ns : Bytes) → SlotUpTo t (s.history ns)

  Timed-history :
      (t x : ℕ) (s s' : StateServer D R)
      → Timed t s
      → t ≤ x
      → IsValid s'
      → s'.history ≡ s.history
      → Timed x s'
  Timed-history t x s s' h le v e = record {
    valid = v;
    slots = λ ns.
        subst (λ history. SlotUpTo x (history ns)) (sym e)
          (UpTo-later t x (s.history ns) (h.slots ns) le);
  }

  Same-Timed :
      (t x : ℕ) (s s' : StateServer D R)
      → Timed t s
      → t ≤ x
      → Same env s s'
      → s'.history ≡ s.history
      → Timed x s'
  Same-Timed t x s s' h le same e =
      Timed-history t x s s' h le (IsValid-Same env s s' same h.valid) e

  module _ (all : IsLogged env) where
    serve_request-Timed :
        (t stamp : ℕ) (ident : Bytes) (r : Request D M F) (s : StateServer D R)
        → Timed t s
        → t ≤ stamp
        → Timed stamp (serve_request env ident stamp r s)
    unfolding serve_request dispatch reply reply_exception
    serve_request-Timed t stamp ident (on_state ns c) s h le = record {
      valid = (serve_request-Serves env ident stamp ns c s h.valid).valid;
      slots = λ ns'.
          subst (SlotUpTo stamp)
            (sym (serve_request_history env ident stamp ns c s all h.valid ns'))
            (elim (Bool-cases (bytes_eq ns' ns)) [
              | inl e ↦ rw e (
                  append_updates-UpTo t stamp (s.history ns) _ (h.slots ns) le
                    (command_log-Logged ident stamp c (view env s ns)))
              | inr e ↦ rw e (UpTo-later t stamp (s.history ns') (h.slots ns') le)
            ]);
    }
    serve_request-Timed t stamp ident (query o q) s h le =
        let visited = visit-Visited env o s h.valid in
        Same-Timed t stamp (visit env o s) _
          (Timed-history t t s (visit env o s) h (omega arith) visited.valid visited.same_history)
          le (query-Same env ident stamp q (visit env o s))
          (query-history env ident stamp q (visit env o s))

    recv_request-Timed :
        (t stamp : ℕ) (m : StateMessage D M F) (s : StateServer D R)
        → Timed t s
        → t ≤ stamp
        → Timed stamp (recv_request env m stamp s)
    unfolding recv_request
    recv_request-Timed t stamp no_request s h le =
        Same-Timed t stamp s s h le (record { dicts = refl; fresh = refl; state_map = refl }) refl
    recv_request-Timed t stamp malformed_request s h le =
        Same-Timed t stamp s s h le (record { dicts = refl; fresh = refl; state_map = refl }) refl
    recv_request-Timed t stamp (garbled ident e) s h le =
        Same-Timed t stamp s _ h le (reply_exception-Same env ident (raise e, s))
          (reply_exception-history env ident stamp (raise e, s))
    recv_request-Timed t stamp (request ident r) s h le = serve_request-Timed t stamp ident r s h le

    both-Timed :
        (t stamp : ℕ) (w : WatchMessage) (m : StateMessage D M F) (s : StateServer D R)
        → Timed t s
        → t ≤ stamp
        → Timed stamp (recv_both env w m stamp s)
    unfolding recv_both recv_watcher
    both-Timed t stamp no_watch m s h le = recv_request-Timed t stamp m s h le
    both-Timed t stamp malformed_watch m s h le =
        Same-Timed t stamp s s h le (record { dicts = refl; fresh = refl; state_map = refl }) refl
    both-Timed t stamp (watch w_ident s_ident namespace identical_okay only_after) m s h le =
        recv_request-Timed t stamp m _
          (Same-Timed t t s _ h (omega arith)
            (record { dicts = refl; fresh = refl; state_map = refl }) refl)
          le

    pub tick-Timed :
        (t : ℕ) (x : Tick D M F) (s : StateServer D R)
        → Timed t s
        → t ≤ x.stamp
        → Timed x.stamp (tick env x s)
    unfolding tick resolve_pending
    tick-Timed t x s h le =
        both-Timed t x.stamp x.from_watch x.from_state _
          (Same-Timed t t s _ h (omega arith)
            (record { dicts = refl; fresh = refl; state_map = refl }) refl)
          le

    pub steps-Timed :
        (t : ℕ) (ts : List (Tick D M F)) (s : StateServer D R)
        → Timed t s
        → Follows t ts
        → (t' : ℕ) × Timed t' (steps env ts s)
    unfolding steps
    steps-Timed t [] s h follows = (t, h)
    steps-Timed t (x ∷ ts) s h (le, follows) =
        steps-Timed x.stamp ts (tick env x s) (tick-Timed t x s h le) follows

  pub init-Timed : Timed 0 (init env)
  unfolding init
  init-Timed = record {
    valid = (init-Implements env).valid;
    slots = λ ns. record {
      aligned = refl;
      times = record {
        sorted = λ i j h h'. absurd (omega arith);
        within = λ i h. absurd (omega arith);
      };
    };
  }

-- When the clock does not go back and every update can be logged, the history of every namespace is in
-- order after a run that has not ended: each update has its time beside it, and the times grow. So what
-- `resolve_watcher` needs of the history always holds.
pub run-IsOrdered :
    {D M F R : Type 0} (env : Env D M F R) (ts : List (Tick D M F))
    → IsLogged env
    → (run env ts (init env)).is_running ≡ true
    → Follows 0 ts
    → (ns : Bytes) → IsOrdered ((run env ts (init env)).history ns)
run-IsOrdered env ts all running follows ns =
    let (t, h) = steps-Timed env all 0 ts (init env) (init-Timed env) follows in
    subst (λ s. IsOrdered (s.history ns)) (sym (run-steps env ts (init env) running))
      (record { aligned = (h.slots ns).aligned; sorted = (h.slots ns).times.sorted })
