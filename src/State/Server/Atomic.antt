-- ===== src/State/Server/Atomic.antt =====
-- The server keeps its contract, for the dicts of all namespaces.

use zproc.Prelude.{
  if◌then◌else◌, Bool-cases, pickling_error, Result, ok, raise, Result-cases, Bytes, bytes_eq,
  bytes_eq_iff, ℕ, ◌≡◌, refl, sym, ap, ◌∙◌, inl, inr, Option, none, some, [], ◌∷◌, ◌++◌, arith,
}
use zproc.State.Server.{
  Effect, Env, Command, run_fn_atomically, run_dict_method, get_state, set_state, on_state,
  returned, snapshot, done, remote_exception, StateServer, update,
}
use zproc.State.Handlers.{
  can_pickle, reply, bind_new, with_copy, mutate_safely, call_and_reply, with_fn, handle,
  lookup_state, dispatch, or_stop, reply_exception, serve_request,
}
use zproc.State.Server.Contract.{
  IsValid, contents, view, after_copy, call_spec, load_spec, command_spec,
}
use zproc.State.Server.Objects.{
  view-bind_new, bind_new-IsValid, view-write, Serves, Same, Serves-Same, finish-Same, reply-Same,
}

module _ {D M F R : Type 0} (env : Env D M F R) where
  module _ (ident ns : Bytes) (a stamp : ℕ) (s : StateServer D R) (v : IsValid s)
      (at : s.state_map ns ≡ some a) where
    written : D → StateServer D R
    written d = record s { dicts = update s.dicts a d }

    written-Serves : (d : D) → Serves env ns d s (written d)
    unfolding written
    written-Serves d = record {
      views = λ ns'. view-write env ns ns' a d s v at;
      valid = record { allocated = v.allocated; separate = v.separate };
    }

    view_at : view env s ns ≡ s.dicts a
    unfolding view
    view_at = ap (contents env s.dicts) at

    -- The way back from a dict that was written to.
    rollback-Serves : (old d : D) → Serves env ns old s (bind_new env ns old (written d))
    rollback-Serves old d = record {
      views = λ ns'. ground (
        arith,
        view-bind_new env ns ns' old (written d) (written-Serves d).valid,
        (written-Serves d).views ns',
      );
      valid = bind_new-IsValid env ns old (written d) (written-Serves d).valid;
    }

    untouched-Serves : Serves env ns (s.dicts a) s s
    untouched-Serves = record {
      views =
          λ ns'. ground (arith, view_at, bytes_eq_iff ns' ns, ap (view env s) {x = ns'} {y = ns});
      valid = v;
    }

    -- A call on a dict that has the copy `old`.
    copied-Serves :
        (r : Result R) (old d : D)
        → Serves env ns
            (after_copy env
              (ok old)
              (λ old'. elim r [
                | raise e ↦ (remote_exception e, old')
                | ok v ↦
                    if env.result_picklable v
                    then (returned v, d)
                    else (remote_exception pickling_error, old')
              ])
              (s.dicts a)).1
            s
            (with_copy env ident ns a stamp (call_and_reply env ident a (λ _. (r, d))) (ok old) s).1
    unfolding with_copy call_and_reply after_copy written
    copied-Serves (raise e) old d = rollback-Serves old d
    copied-Serves (ok r) old d = elim (Bool-cases (env.result_picklable r)) [
      | inl e ↦ rw e (
          Serves-Same env ns d s _ _
            (finish-Same env ident ns a old stamp
              (record (written d) { replies = s.replies ++ (ident, returned r) ∷ [] }))
            (Serves-Same env ns d s _ _ (record { dicts = refl; fresh = refl; state_map = refl })
              (written-Serves d)))
      | inr e ↦ rw e (rollback-Serves old d)
    ]

    call-Serves :
        (effect : Effect D R)
        → Serves env ns
            (call_spec env effect (s.dicts a)).1
            s
            (mutate_safely env ident ns a stamp (call_and_reply env ident a effect) s).1
    unfolding mutate_safely call_and_reply call_spec
    call-Serves effect = elim (Result-cases (env.deepcopy (s.dicts a))) [
      | inl (old, e) ↦ rw e (copied-Serves (effect (s.dicts a)).0 old (effect (s.dicts a)).1)
      | inr (x, e) ↦ rw e untouched-Serves
    ]

    bind_new-Serves : (d : D) → Serves env ns d s (bind_new env ns d s)
    bind_new-Serves d = record {
      views = λ ns'. view-bind_new env ns ns' d s v;
      valid = bind_new-IsValid env ns d s v;
    }

    load-Serves :
        (loaded : Result (Effect D R))
        → Serves env ns
            (load_spec env loaded (s.dicts a)).1
            s
            (with_fn env ident ns a stamp loaded s).1
    unfolding load_spec with_fn
    load-Serves (raise e) = untouched-Serves
    load-Serves (ok fn) = call-Serves fn

    handle-Serves :
        (c : Command D M F)
        → Serves env ns (command_spec env c (s.dicts a)).1 s (handle env ident ns a stamp c s).1
    unfolding handle command_spec
    handle-Serves (run_fn_atomically f) = load-Serves (env.load_fn f)
    handle-Serves (run_dict_method m) = call-Serves (env.call_method m)
    handle-Serves get_state =
        Serves-Same env ns (s.dicts a) s s _ (reply-Same env ident (snapshot (s.dicts a)) s)
          untouched-Serves
    handle-Serves (set_state new) = elim (Result-cases (env.deepcopy (s.dicts a))) [
      | inl (old, e) ↦ rw e (
          Serves-Same env ns new s _ _
            (finish-Same env ident ns a old stamp
              (record (bind_new env ns new s) { replies = s.replies ++ (ident, done) ∷ [] }))
            (Serves-Same env ns new s _ _ (record { dicts = refl; fresh = refl; state_map = refl })
              (bind_new-Serves new)))
      | inr (x, e) ↦ rw e untouched-Serves
    ]

  -- What `recv_request` finds, or makes, as the dict of the namespace.
  pub record Found (ns : Bytes) (s : StateServer D R) (a : ℕ) (s' : StateServer D R) : Type 0 where
    pub valid : IsValid s'
    pub at : s'.state_map ns ≡ some a
    pub same_dict : s'.dicts a ≡ view env s ns
    pub same_views : (ns' : Bytes) → view env s' ns' ≡ view env s ns'

  pub lookup_state-Found :
      (ns : Bytes) (s : StateServer D R) (o : Option ℕ)
      → IsValid s
      → s.state_map ns ≡ o
      → Found ns s (lookup_state env o ns s).0 (lookup_state env o ns s).1
  unfolding lookup_state view
  lookup_state-Found ns s (some a) v e = record {
    valid = v;
    at = e;
    same_dict = sym (ap (contents env s.dicts) e);
    same_views = λ ns'. refl;
  }
  lookup_state-Found ns s none v e =
      let empty_here : view env s ns ≡ env.empty = ap (contents env s.dicts) e in
      record {
        valid = bind_new-IsValid env ns env.empty s v;
        at = unfold bind_new in ground (arith, bytes_eq_iff ns ns);
        same_dict = unfold bind_new in ground (arith, empty_here);
        same_views = λ ns'. elim (Bool-cases (bytes_eq ns' ns)) [
          | inl same ↦
              let e' : ns' ≡ ns = (bytes_eq_iff ns' ns).0 same in
              view-bind_new env ns ns' env.empty s v ∙ rw (same, e', empty_here)
          | inr differs ↦ view-bind_new env ns ns' env.empty s v ∙ rw differs
        ];
      }

  pub reply_exception-Same :
      (ident : Bytes) (p : Result (Unit {0}) × StateServer D R)
      → Same env p.1 (reply_exception env ident p)
  unfolding reply_exception reply can_pickle or_stop
  reply_exception-Same ident (ok u, s) = record { dicts = refl; fresh = refl; state_map = refl }
  reply_exception-Same ident (raise e, s) = elim (Bool-cases (env.error_picklable e)) [
    | inl h ↦ rw h (record { dicts = refl; fresh = refl; state_map = refl })
    | inr h ↦ rw h (record { dicts = refl; fresh = refl; state_map = refl })
  ]

  pub serve_request-Serves :
      (ident : Bytes) (stamp : ℕ) (ns : Bytes) (c : Command D M F) (s : StateServer D R)
      → IsValid s
      → Serves env ns
          (command_spec env c (view env s ns)).1
          s
          (serve_request env ident stamp (on_state ns c) s)
  unfolding serve_request dispatch
  serve_request-Serves ident stamp ns c s v =
      let (a, s') = lookup_state env (s.state_map ns) ns s in
      let found = lookup_state-Found ns s (s.state_map ns) v refl in
      let served =
        Serves-Same env ns (command_spec env c (s'.dicts a)).1 s' _ _
          (reply_exception-Same ident (handle env ident ns a stamp c s'))
          (handle-Serves ident ns a stamp s' found.valid found.at c) in
      record {
        views = λ ns'. served.views ns' ∙ λ i.
            if bytes_eq ns' ns
            then (command_spec env c (found.same_dict i)).1
            else found.same_views ns' i;
        valid = served.valid;
      }

-- A request on the namespace `ns` has the effect of its command on the dict of `ns`, all or nothing:
-- a dict that cannot be copied stays what it was, and the command does not run; a call that raises, or
-- that returns what cannot be pickled, leaves the dict as the copy that was made before it, also if the
-- call had written to it. The dict of every other namespace stays what it was, and no two namespaces come
-- to share a dict object.
pub serve_request_atomic :
    {D M F R : Type 0} (env : Env D M F R) (ident : Bytes) (stamp : ℕ) (ns : Bytes)
    (c : Command D M F) (s : StateServer D R)
    → IsValid s
    → let s' = serve_request env ident stamp (on_state ns c) s in
      ((ns' : Bytes)
        → view env s' ns'
          ≡ (if bytes_eq ns' ns then (command_spec env c (view env s ns)).1 else view env s ns'))
      × IsValid s'
serve_request_atomic env ident stamp ns c s v =
    let served = serve_request-Serves env ident stamp ns c s v in (served.views, served.valid)
