-- ===== src/State/Server/Replies.antt =====
-- The replies to the requests on the state, against the contract.

use zproc.Prelude.{
  Bool-cases, Error, pickling_error, Result, ok, raise, Result-cases, Bytes, ℕ, ◌<◌, ◌≡◌, refl, sym,
  ap, ◌∙◌, subst, inl, inr, Bool, true, Option, none, some, [], ◌∷◌, ◌++◌, arith,
}
use zproc.State.Server.{
  Effect, Env, Command, run_fn_atomically, run_dict_method, get_state, set_state, on_state, Reply,
  returned, done, remote_exception, StateServer, update, resolve_pending,
}
use zproc.State.Handlers.{
  can_pickle, reply, bind_new, log_entry, put_entry, finish, with_copy, mutate_safely, reply_result,
  call_and_reply, with_fn, set_state_body, handle, lookup_state, dispatch, or_stop, reply_exception,
  serve_request,
}
use zproc.State.Server.Contract.{IsValid, view, call_spec, load_spec, command_spec}
use zproc.State.Server.Atomic.{lookup_state-Found}
use zproc.State.Server.Objects.{update-own}

-- The update from a copy of `d` to `new` can be put into the history: both can be pickled, and `==` does
-- not raise on them.
abbrev pub CanLog : {D M F R : Type 0} → Env D M F R → D → D → Type 0
CanLog env d new = (old : _) → env.deepcopy d ≡ ok old → (b : Bool) × (log_entry env old new ≡ ok b)

-- Every reply but an exception that cannot be pickled.
abbrev pub CanSend : {D M F R : Type 0} → Env D M F R → Reply D R → Type 0
CanSend env (remote_exception e) = env.error_picklable e ≡ true
CanSend env r = Unit

module _ {D M F R : Type 0} (env : Env D M F R) (ident ns : Bytes) (a stamp : ℕ)
    (s : StateServer D R) where
  -- One reply more, to the client that asked, and the server runs on.
  abbrev Answered : Reply D R → Result (Unit {0}) × StateServer D R → Type 0
  Answered r p =
      CanSend env r → (reply_exception env ident p).replies ≡ s.replies ++ (ident, r) ∷ []

  raise-Answered :
      (e : Error) (s' : StateServer D R)
      → s'.replies ≡ s.replies
      → Answered (remote_exception e) (raise e, s')
  unfolding reply_exception reply can_pickle or_stop
  raise-Answered e s' same sent = rw sent (ap (λ rs. rs ++ (ident, remote_exception e) ∷ []) same)

  finish-replies :
      (r : Reply D R) (old : D) (s' : StateServer D R)
      → s'.replies ≡ s.replies ++ (ident, r) ∷ []
      → (b : Bool) × (log_entry env old (s'.dicts a) ≡ ok b)
      → Answered r (finish env ident ns a old stamp (ok tt) s')
  unfolding finish put_entry resolve_pending reply_exception
  finish-replies r old s' same (b, logged) sent = rw logged same

  call-replies :
      (effect : Effect D R)
      → CanLog env (s.dicts a) (call_spec env effect (s.dicts a)).1
      → Answered
          (call_spec env effect (s.dicts a)).0
          (mutate_safely env ident ns a stamp (call_and_reply env ident a effect) s)
  unfolding mutate_safely call_spec
  call-replies effect logged = elim (Result-cases (env.deepcopy (s.dicts a))) [
    | inl (old, e) ↦ elim (Result-cases (effect (s.dicts a)).0) [
      | inl (v, h) ↦ elim (Bool-cases (env.result_picklable v)) [
        | inl k ↦
            let new = (effect (s.dicts a)).1 in
            let can_log : (b : Bool) × (log_entry env old new ≡ ok b) =
              rw (e, h, k) at (logged old e) in
            unfold call_and_reply reply_result reply can_pickle in
            rw (e, h, k)
              (finish-replies (returned v) old
                (record s {
                  dicts = update s.dicts a new;
                  replies = s.replies ++ (ident, returned v) ∷ [];
                })
                refl
                (subst (λ d. (b : Bool) × (log_entry env old d ≡ ok b))
                  (sym (update-own s.dicts a new)) can_log))
        | inr k ↦
            unfold call_and_reply reply_result reply can_pickle bind_new finish in
            rw (e, h, k) (raise-Answered pickling_error _ refl)
      ]
      | inr (x, h) ↦
          unfold call_and_reply reply_result bind_new finish in rw (e, h) (raise-Answered x _ refl)
    ]
    | inr (x, e) ↦ rw e (raise-Answered x s refl)
  ]

  load-replies :
      (loaded : Result (Effect D R))
      → CanLog env (s.dicts a) (load_spec env loaded (s.dicts a)).1
      → Answered (load_spec env loaded (s.dicts a)).0 (with_fn env ident ns a stamp loaded s)
  unfolding load_spec with_fn
  load-replies (raise e) logged = raise-Answered e s refl
  load-replies (ok fn) logged = call-replies fn logged

  lookup_state-replies : (o : Option ℕ) → (lookup_state env o ns s).1.replies ≡ s.replies
  unfolding lookup_state bind_new
  lookup_state-replies (some b) = refl
  lookup_state-replies none = refl

  handle-replies :
      (c : Command D M F)
      → CanLog env (s.dicts a) (s.dicts a)
      → CanLog env (s.dicts a) (command_spec env c (s.dicts a)).1
      → a < s.fresh
      → Answered (command_spec env c (s.dicts a)).0 (handle env ident ns a stamp c s)
  unfolding handle command_spec mutate_safely set_state_body
  handle-replies (run_fn_atomically f) same logged lt = load-replies (env.load_fn f) logged
  handle-replies (run_dict_method m) same logged lt = call-replies (env.call_method m) logged
  handle-replies get_state same logged lt = elim (Bool-cases (env.picklable (s.dicts a))) [
    | inl k ↦ unfold reply can_pickle reply_exception in rw k (λ sent. refl)
    | inr k ↦ unfold reply can_pickle in rw k (raise-Answered pickling_error s refl)
  ]
  handle-replies (set_state d) same logged lt = elim (Result-cases (env.deepcopy (s.dicts a))) [
    | inl (old, e) ↦
        let s1 = bind_new env ns d s in
        let s2 = record s1 { replies = s.replies ++ (ident, done) ∷ [] } in
        let kept : s2.dicts a ≡ s.dicts a = unfold bind_new in ground (arith, lt) in
        unfold with_copy reply can_pickle in
        rw e (
          finish-replies done old s2 refl
            (subst (λ new. (b : Bool) × (log_entry env old new ≡ ok b)) (sym kept) (same old e)))
    | inr (x, e) ↦ unfold with_copy in rw e (raise-Answered x s refl)
  ]

-- A request on the namespace `ns` is answered once, to the client that sent it: with the result of
-- the call or its exception, the contents of the dict, or that it is set. Hypotheses: the reply is not
-- an exception that cannot be pickled, and if the dict of `ns` can be copied, then the update from the
-- copy to the dict, and to what the command makes of it, can be pickled and compared.
pub serve_request_replies :
    {D M F R : Type 0} (env : Env D M F R) (ident : Bytes) (stamp : ℕ) (ns : Bytes)
    (c : Command D M F) (s : StateServer D R)
    → IsValid s
    → CanSend env (command_spec env c (view env s ns)).0
    → CanLog env (view env s ns) (view env s ns)
    → CanLog env (view env s ns) (command_spec env c (view env s ns)).1
    → (serve_request env ident stamp (on_state ns c) s).replies
      ≡ s.replies ++ (ident, (command_spec env c (view env s ns)).0) ∷ []
unfolding serve_request dispatch
serve_request_replies {D} {M} {F} {R} env ident stamp ns c s v sent same logged =
    let (a, s') = lookup_state env (s.state_map ns) ns s in
    let found = lookup_state-Found env ns s (s.state_map ns) v refl in
    let answered =
      handle-replies env ident ns a stamp s' c
        (subst (λ d. CanLog env d d) (sym found.same_dict) same)
        (subst (λ d. CanLog env d (command_spec env c d).1) (sym found.same_dict) logged)
        (found.valid.allocated ns a found.at)
        (subst (λ d. CanSend env (command_spec env c d).0) (sym found.same_dict) sent) in
    answered ∙ λ i.
    lookup_state-replies env ident ns a stamp s (s.state_map ns) i
    ++ (ident, (command_spec env c (found.same_dict i)).0) ∷ []
