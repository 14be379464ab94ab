-- ===== src/State/Watcher/SinceTime.antt =====
-- A watcher that starts at the time that `State.time` of zproc/state/state.py has given.

use zproc.Prelude.{
  length, Result, ok, Bytes, ℕ, ◌≤◌, ◌<◌, ◌≡◌, refl, ap, ◌∙◌, inl, inr, true, false, Option, none,
  some, List, [], ◌∷◌, ◌++◌, arith,
}
use zproc.State.Server.{Env, time, query, now, Update, Watch, StateServer, resolve_pending}
use zproc.State.Loop.{no_watch, request, Tick, recv_request, recv_both, tick, run, init}
use zproc.State.Handlers.{can_pickle, reply, handle_query, dispatch, reply_exception, serve_request}
use zproc.State.Server.Log.{run_log}
use zproc.State.Server.Runs.{run_spec}
use zproc.State.Server.Answers.{visit-replies}
use zproc.State.Server.Slots.{Logged}
use zproc.State.Server.Watchers.{wants}
use zproc.State.Watcher.{StateUpdate, StateWatcher, collect}
use zproc.State.Watcher.Buffered.{after_time, wanted, wanted_before}
use zproc.State.Watcher.Limits.{limited, room_of}
use zproc.State.Watcher.Iteration.{picked}
use zproc.State.Watcher.Served.{
  Advances, tick_log-Logged, run_log-Increasing, server_reply, collect_served,
}
use zproc.State.Server.History.{IsLogged}
use zproc.State.Server.Ends.{run-running, run-append, run-before}

module _ {D : Type 0} where
  wants_past : (w : Watch) (t : ℕ) (u : Update D) → u.stamp ≤ t → wants (after_time w t) u ≡ false
  unfolding wants
  wants_past w t u le = ground (arith, le)

  wanted_past :
      (w : Watch) (t stamp : ℕ) (us vs : List (Update D))
      → stamp ≤ t
      → Logged stamp us
      → wanted w t (us ++ vs) ≡ wanted w t vs
  unfolding wanted
  wanted_past w t stamp us vs le (inl e) = rw e refl
  wanted_past w t stamp us vs le (inr (u, at, e)) =
      rw (e, wants_past w t u (omega (arith, le, at))) refl

-- A tick that reads a request of `State.time`, of a state with the namespace `ns`.
unfoldable pub time_tick : {D M F : Type 0} → Bytes → Bytes → ℕ → Tick D M F
time_tick ident ns stamp = record {
  from_watch = no_watch;
  from_state = request ident (query (some ns) time);
  stamp = stamp;
}

module _ {D M F R : Type 0} (env : Env D M F R) where
  Advances-le :
      (t : ℕ) (ts : List (Tick D M F)) (x : Tick D M F) (ts' : List (Tick D M F))
      → Advances t (ts ++ x ∷ ts')
      → (t ≤ x.stamp) × Advances x.stamp ts'
  Advances-le t [] x ts' (lt, h) = (omega (arith, lt), h)
  Advances-le t (y ∷ ts) x ts' (lt, h) =
      let (le, h') = Advances-le y.stamp ts x ts' h in (omega (arith, lt, le), h')

  -- What is asked for after the time of a tick is in the log of the ticks from it on.
  wanted-run_log :
      (w : Watch) (ns : Bytes) (t : ℕ) (ts : List (Tick D M F)) (x : Tick D M F)
      (ts' : List (Tick D M F)) (dicts : Bytes → D)
      → Advances t (ts ++ x ∷ ts')
      → wanted w x.stamp (run_log env ns (ts ++ x ∷ ts') dicts)
        ≡ wanted w x.stamp (run_log env ns ts' (run_spec env (ts ++ x ∷ []) dicts))
  unfolding run_log run_spec
  wanted-run_log w ns t [] x ts' dicts (lt, h) =
      wanted_past w x.stamp x.stamp _ _ (omega arith)
        (tick_log-Logged env ns x.from_watch x.from_state x.stamp dicts)
  wanted-run_log w ns t (y ∷ ts) x ts' dicts (lt, h) =
      wanted_past w x.stamp y.stamp _ _ (Advances-le y.stamp ts x ts' h).0
        (tick_log-Logged env ns y.from_watch y.from_state y.stamp dicts)
      ∙ wanted-run_log w ns y.stamp ts x ts' _ h

  -- The tick that serves `State.time`.
  time_tick-replies :
      (ident ns : Bytes) (stamp : ℕ) (s : StateServer D R)
      → (tick env (time_tick ident ns stamp) s).replies ≡ s.replies ++ (ident, now stamp) ∷ []
  unfolding tick recv_both recv_request serve_request dispatch handle_query reply reply_exception
      time_tick can_pickle resolve_pending
  time_tick-replies ident ns stamp s =
      ap (λ rs. rs ++ (ident, now stamp) ∷ [])
        (visit-replies env ident (some ns) (resolve_pending s))

  Advances-time :
      (ts : List (Tick D M F)) (ident ns : Bytes) (stamp : ℕ) (ts' : List (Tick D M F))
      → Advances 0 (ts ++ time_tick ident ns stamp ∷ ts')
      → Advances stamp ts'
  unfolding time_tick
  Advances-time ts ident ns stamp ts' h = (Advances-le 0 ts (time_tick ident ns stamp) ts' h).1

  wanted_since :
      (w : Watch) (ns : Bytes) (ts : List (Tick D M F)) (ident ns' : Bytes) (stamp : ℕ)
      (ts' : List (Tick D M F)) (dicts : Bytes → D)
      → Advances 0 (ts ++ time_tick ident ns' stamp ∷ ts')
      → wanted w stamp (run_log env ns (ts ++ time_tick ident ns' stamp ∷ ts') dicts)
        ≡ wanted w stamp
            (run_log env ns ts' (run_spec env (ts ++ time_tick ident ns' stamp ∷ []) dicts))
  unfolding time_tick
  wanted_since w ns ts ident ns' stamp ts' dicts h =
      wanted-run_log w ns 0 ts (time_tick ident ns' stamp) ts' dicts h

-- A client asks the server for its time, and then iterates over a watcher that starts at it and is not
-- live. The time is answered, to the client, and the iteration misses none of the updates that the server
-- logs after it, and gives none from before: it gives what the callback makes of all those that are
-- logged for the successful calls on the namespace of the watcher that are read after the time, by other
-- clients, and not identical unless the watcher takes them, up to its count. The update that is logged
-- for a `State.set` has the old dict before and after: a watcher that does not take identical updates
-- misses the change. Hypotheses: every update can be logged, that is its dicts can be pickled and `==`
-- does not raise on them; the server is still running; the clock of the server moves on between its
-- ticks; the watcher has no timeout; and the callback does not raise but to skip; `fuel` is more than all
-- the updates.
pub collect_since :
    {D M F R A : Type 0} (env : Env D M F R) (ts : List (Tick D M F)) (ident ns : Bytes) (stamp : ℕ)
    (ts' : List (Tick D M F)) (clock : ℕ → ℕ) (callback : StateUpdate D → Result (Option A))
    (pick : StateUpdate D → Option A) (asked : Watch) (w : StateWatcher) (fuel : ℕ)
    → IsLogged env
    → (run env (ts ++ time_tick ident ns stamp ∷ ts') (init env)).is_running ≡ true
    → Advances 0 (ts ++ time_tick ident ns stamp ∷ ts')
    → ((u : StateUpdate D) → callback u ≡ ok (pick u))
    → w.live ≡ false
    → w.timeout ≡ none
    → w.only_after ≡ stamp
    → length (run_log env asked.namespace (ts ++ time_tick ident ns stamp ∷ ts') (λ ns'. env.empty))
      < fuel
    → let at_time = ts ++ time_tick ident ns stamp ∷ [] in
      let later = run_log env asked.namespace ts' (run_spec env at_time (λ ns'. env.empty)) in
      ((run env at_time (init env)).replies
        ≡ (run env ts (init env)).replies ++ (ident, now stamp) ∷ [])
      × (collect
            (server_reply (run env (ts ++ time_tick ident ns stamp ∷ ts') (init env)) asked)
            clock
            callback
            fuel
            w
          ≡ limited (room_of w) (picked pick (wanted asked 0 later)))
collect_since env ts ident ns stamp ts' clock callback pick asked w fuel all running advances picks
      live timeout at lt =
    let x = time_tick ident ns stamp in
    let start = run-before env ts (x ∷ ts') (init env) running in
    let s = run env ts (init env) in
    let after = Advances-time env ts ident ns stamp ts' advances in
    let inc = run_log-Increasing env asked.namespace stamp ts' _ after in
    (
      ap (λ s. s.replies) (run-append env ts (time_tick ident ns stamp ∷ []) (init env))
          ∙ (ap (λ s'. s'.replies) (run-running env x [] s start)
              ∙ unfold run in time_tick-replies env ident ns stamp s),
      collect_served env (ts ++ time_tick ident ns stamp ∷ ts') clock callback pick asked w fuel all
            running advances picks live timeout lt
          ∙ ap (λ us. limited (room_of w) (picked pick us))
              (ap
                  (λ t. wanted asked t (
                    run_log env asked.namespace (ts ++ time_tick ident ns stamp ∷ ts')
                      (λ ns'. env.empty)))
                  at
                ∙ wanted_since env asked asked.namespace ts ident ns stamp ts' (λ ns'. env.empty)
                    advances
                ∙ wanted_before asked stamp stamp 0 _ inc (omega arith) (omega arith)),
    )
